-- ===== src/Reservation/Many.antt =====
-- src/scheduler/reservation.rs, `Ledger::claim_ordinary_many`: the bulk claim against the single
-- claim, which it replaces in a batch.
pub mod Refines
use native.Mathlib.Nat.{le-div_iff_mul-le}
use solworker.Prelude.{
  ℕ, zero, suc, ◌+◌, ◌-◌, ◌*◌, ◌/◌, ◌≤◌, ◌<◌, ◌≡◌, refl, Bool, true, false, Option, none, some,
  arith, word_mod, min, ◌⊎◌, inl, inr, ◌==◌, if◌then◌else◌, Bool-cases, Option-cases, not, ◌||◌,
  ◌↔◌,
}
use solworker.Prelude.Results.{Result, ok, err, ◌>>=◌}
use solworker.Reservation.Cost.{
  Cost, zero_cost, plus, cost_add, cost_mul, fits, Within, Same, IsWord, cost_add-eq, Within-fits,
  cost_add-Same, fits-Within,
}
use solworker.Reservation.Limits.{Limits, over_ceiling, UnderCeiling}
use solworker.Reservation.Ledger.{
  Kind, ordinary, required, Usage, ReservationError, full, claim, claim_ordinary_many, cap_count,
  affordable, ceiling_or_max, charge_many, bytes_refused, total_bytes,
}
use solworker.Reservation.Bounds.{IsMachine, IsBounded, claim-Granted, in_total_bounds}

-- Single claims, one after the other.
unfoldable pub claims : ℕ → Limits → Usage → Cost → Result ReservationError Usage
claims zero l u cost = ok u
claims (suc n) l u cost = claims n l u cost >>= λ v. claim l v cost ordinary false

-- The usage after `n` members.
abbrev charged : Usage → Cost → ℕ → Usage
charged u cost n = record u {
  ordinary_use = record {
    records = u.ordinary_use.records + n * cost.records;
    edges = u.ordinary_use.edges + n * cost.edges;
    deliveries = u.ordinary_use.deliveries + n * cost.deliveries;
    bytes = u.ordinary_use.bytes + n * cost.bytes;
  };
}

-- There is room for `n` members in every dimension.
record Room (l : Limits) (u : Usage) (cost : Cost) (n : ℕ) : Type 0 where
  records : u.ordinary_use.records + n * cost.records ≤ l.ordinary_target.records
  edges : u.ordinary_use.edges + n * cost.edges ≤ l.ordinary_target.edges
  deliveries : u.ordinary_use.deliveries + n * cost.deliveries ≤ l.ordinary_target.deliveries
  bytes : u.ordinary_use.bytes + n * cost.bytes ≤ l.ordinary_target.bytes
  ceiling :
      u.ordinary_use.bytes + u.required_use.bytes + n * cost.bytes
      ≤ ceiling_or_max l.hard_byte_ceiling

cap_count_pos :
    (per used limit count : ℕ)
    → cap_count (suc per) used limit count ≡ min count ((limit - used) / suc per)
cap_count_pos per used limit count = ground arith

-- A count under the quotient is one whose total fits.
cap_count_iff :
    (n per used limit count : ℕ)
    → used ≤ limit
    → (n ≤ cap_count per used limit count) ↔ ((n ≤ count) × (used + n * per ≤ limit))
cap_count_iff n zero used limit count h = (λ k. (k, omega arith), λ k. k.0)
cap_count_iff n (suc per) used limit count h =
    let room = le-div_iff_mul-le {k = suc per} {x = n} {y = limit - used} (omega arith) in
    let capped = cap_count_pos per used limit count in
    (
      λ k. (omega (arith, capped), let fit = room.0 (omega (arith, capped)) in omega arith),
      λ k. let low = room.1 (omega (arith, k.1)) in omega (arith, k.0, low, capped),
    )

-- The number of members that the bulk claim settles on.
abbrev granted_count : Limits → Usage → Cost → ℕ → ℕ
granted_count l u cost maximum =
    cap_count cost.bytes (u.ordinary_use.bytes + u.required_use.bytes)
      (ceiling_or_max l.hard_byte_ceiling) (affordable l u cost maximum)

ceiling_le :
    (l : Limits) (u : Usage)
    → IsBounded l u
    → u.ordinary_use.bytes + u.required_use.bytes ≤ ceiling_or_max l.hard_byte_ceiling
ceiling_le l u b = go l.hard_byte_ceiling b.total_under
  where
    go :
        (c : Option ℕ)
        → UnderCeiling c (u.ordinary_use.bytes + u.required_use.bytes)
        → u.ordinary_use.bytes + u.required_use.bytes ≤ ceiling_or_max c
    go none h = omega (arith, b.total_word)
    go (some c) h = h

-- It is the largest number under the request for which there is room.
granted_count_iff :
    (l : Limits) (u : Usage) (cost : Cost) (maximum n : ℕ)
    → IsBounded l u
    → (n ≤ granted_count l u cost maximum) ↔ ((n ≤ maximum) × Room l u cost n)
unfolding affordable
granted_count_iff l u cost maximum n b =
    let used = u.ordinary_use in
    let target = l.ordinary_target in
    let c1 =
      cap_count_iff n cost.records used.records target.records maximum
        b.ordinary_within.records_le in
    let c2 = cap_count_iff n cost.edges used.edges target.edges _ b.ordinary_within.edges_le in
    let c3 =
      cap_count_iff n cost.deliveries used.deliveries target.deliveries _
        b.ordinary_within.deliveries_le in
    let c4 = cap_count_iff n cost.bytes used.bytes target.bytes _ b.ordinary_within.bytes_le in
    let c5 =
      cap_count_iff n cost.bytes (used.bytes + u.required_use.bytes)
        (ceiling_or_max l.hard_byte_ceiling) (affordable l u cost maximum) (ceiling_le l u b) in
    (
      λ k.
          let k5 = c5.0 k in
          let k4 = c4.0 k5.0 in
          let k3 = c3.0 k4.0 in
          let k2 = c2.0 k3.0 in
          let k1 = c1.0 k2.0 in
          (
            k1.0,
            record {
              records = k1.1;
              edges = k2.1;
              deliveries = k3.1;
              bytes = k4.1;
              ceiling = k5.1;
            },
          ),
      λ k.
          let r = k.1 in
          c5.1
            (c4.1 (c3.1 (c2.1 (c1.1 (k.0, r.records), r.edges), r.deliveries), r.bytes), r.ceiling),
    )

-- What both claims check before they look at the usage.
record Passes (l : Limits) (u : Usage) (cost : Cost) : Type 0 where
  is_open : u.is_closed ≡ false
  fitting : fits cost l.ordinary_target ≡ true
  small : over_ceiling l.hard_byte_ceiling cost.bytes ≡ false

total_passes :
    (l : Limits) (u : Usage) (cost : Cost)
    → IsMachine l
    → u.ordinary_use.bytes + u.required_use.bytes + cost.bytes ≤ ceiling_or_max l.hard_byte_ceiling
    → bytes_refused l (total_bytes u cost) ≡ false
total_passes l u cost m h = go l.hard_byte_ceiling refl h
  where
    go :
        (c : Option ℕ)
        → l.hard_byte_ceiling ≡ c
        → u.ordinary_use.bytes + u.required_use.bytes + cost.bytes ≤ ceiling_or_max c
        → bytes_refused l (total_bytes u cost) ≡ false
    go none e h = ground (arith, m.ceiling_word)
    go (some c) e h = ground (arith, m.ceiling_word)

claim_ok :
    (l : Limits) (u : Usage) (cost : Cost)
    → IsMachine l
    → Passes l u cost
    → Within (plus u.ordinary_use cost) l.ordinary_target
    → u.ordinary_use.bytes + u.required_use.bytes + cost.bytes ≤ ceiling_or_max l.hard_byte_ceiling
    → claim l u cost ordinary false ≡ ok (record u { ordinary_use = plus u.ordinary_use cost })
unfolding claim
claim_ok l u cost m s w c =
    let sum = cost_add-eq u.ordinary_use cost (omega (arith, m.target_word, w)) in
    let fit = Within-fits (plus u.ordinary_use cost) l.ordinary_target w in
    let total = total_passes l u cost m c in ground (arith, s.is_open, s.fitting, s.small)

-- Past the first checks, an ordinary claim is granted or the ledger is full.
claim_full_or_ok :
    (l : Limits) (u : Usage) (cost : Cost)
    → Passes l u cost
    → (claim l u cost ordinary false ≡ err full)
      ⊎ ((v : Usage) × (claim l u cost ordinary false ≡ ok v))
unfolding claim
claim_full_or_ok l u cost s = elim (Option-cases (cost_add u.ordinary_use cost)) [
  | inl e ↦ inl (ground (arith, s.is_open, s.fitting, s.small))
  | inr (next, e) ↦
      elim (Bool-cases
        (not (fits next l.ordinary_target) || bytes_refused l (total_bytes u cost))) [
          | inl refused ↦ inl (ground (arith, s.is_open, s.fitting, s.small))
          | inr passed ↦
              inr (record u { ordinary_use = next }, ground (arith, s.is_open, s.fitting, s.small))
        ]
]

granted-Room :
    (l : Limits) (u v : Usage) (cost : Cost)
    → IsMachine l
    → claim l u cost ordinary false ≡ ok v
    → Within (plus u.ordinary_use cost) l.ordinary_target
      × (u.ordinary_use.bytes + u.required_use.bytes + cost.bytes
          ≤ ceiling_or_max l.hard_byte_ceiling)
granted-Room l u v cost m h =
    let g = claim-Granted l u v cost ordinary false h in
    let sum = cost_add-Same u.ordinary_use cost g.next g.sum in
    let fit = fits-Within g.next l.ordinary_target g.fitting in
    (omega arith, go l.hard_byte_ceiling (in_total_bounds l u cost g.in_total))
  where
    go :
        (c : Option ℕ)
        → (u.ordinary_use.bytes + u.required_use.bytes + cost.bytes < word_mod)
          × UnderCeiling c (u.ordinary_use.bytes + u.required_use.bytes + cost.bytes)
        → u.ordinary_use.bytes + u.required_use.bytes + cost.bytes ≤ ceiling_or_max c
    go none k = omega (arith, k.0)
    go (some c) k = k.1
