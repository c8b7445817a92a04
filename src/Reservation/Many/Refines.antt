-- ===== src/Reservation/Many/Refines.antt =====
-- src/scheduler/reservation.rs, `Ledger::claim_ordinary_many`: it grants what as many single
-- claims would, and stops where the next single claim would be refused.
use solworker.Prelude.{
  ℕ, zero, suc, ◌≤◌, ◌<◌, ◌≡◌, ◌↔◌, false, not, ◌||◌, arith, ◌⊎◌, inl, inr, Bool-cases, ◌==◌, ap,
  ◌∙◌, subst,
}
use solworker.Prelude.Results.{ok, err}
use solworker.Reservation.Cost.{Cost, plus, cost_add-eq, cost_mul-eq, times, fits}
use solworker.Reservation.Limits.{Limits, over_ceiling}
use solworker.Reservation.Ledger.{
  ordinary, Usage, ReservationError, full, closed, too_large, claim, claim_ordinary_many,
  charge_many,
}
use solworker.Reservation.Bounds.{IsMachine, IsBounded}
use solworker.Reservation.Many.{
  claims, charged, Room, Passes, claim_ok, claim_full_or_ok, granted-Room, granted_count,
  granted_count_iff,
}

charged-suc :
    (u : Usage) (cost : Cost) (n : ℕ)
    → record (charged u cost n) { ordinary_use = plus (charged u cost n).ordinary_use cost }
      ≡ charged u cost (suc n)
charged-suc u cost n = ground arith

charged_zero : (u : Usage) (cost : Cost) → u ≡ charged u cost 0
charged_zero u cost = ground arith

Room-le : (l : Limits) (u : Usage) (cost : Cost) (n : ℕ) → Room l u cost (suc n) → Room l u cost n
Room-le l u cost n r = record {
  records = omega (arith, r.records);
  edges = omega (arith, r.edges);
  deliveries = omega (arith, r.deliveries);
  bytes = omega (arith, r.bytes);
  ceiling = omega (arith, r.ceiling);
}

module _ (l : Limits) (u : Usage) (cost : Cost) (m : IsMachine l) (s : Passes l u cost) where
  passes : (n : ℕ) → Passes l (charged u cost n) cost
  passes n = record { is_open = s.is_open; fitting = s.fitting; small = s.small }

  -- With room for `n` members, `n` single claims succeed.
  claims_ok : (n : ℕ) → Room l u cost n → claims n l u cost ≡ ok (charged u cost n)
  unfolding claims
  claims_ok zero r = ap ok (charged_zero u cost)
  claims_ok (suc n) r = rw (claims_ok n (Room-le l u cost n r)) (
      claim_ok l (charged u cost n) cost m (passes n) (omega (arith, r)) (omega (arith, r))
      ∙ ap ok (charged-suc u cost n))

  -- Without room for one more, the next single claim is refused as full.
  next_full :
      (n : ℕ) → ¬ Room l u cost (suc n) → claim l (charged u cost n) cost ordinary false ≡ err full
  next_full n none_left = elim (claim_full_or_ok l (charged u cost n) cost (passes n)) [
    | inl e ↦ e
    | inr (v, e) ↦
        let (w, c) = granted-Room l (charged u cost n) v cost m e in
        absurd (
          none_left (record {
            records = omega (arith, w);
            edges = omega (arith, w);
            deliveries = omega (arith, w);
            bytes = omega (arith, w);
            ceiling = omega (arith, c);
          }))
  ]

  -- The bulk charge of `n` members for which there is room.
  charge_many_ok :
      (n : ℕ) → 0 < n → Room l u cost n → charge_many u cost n ≡ ok (n, charged u cost n)
  unfolding charge_many
  charge_many_ok n pos r =
      let product = cost_mul-eq cost n (omega (arith, r, m.target_word)) in
      let sum = cost_add-eq u.ordinary_use (times n cost) (omega (arith, r, m.target_word)) in
      ground (arith, pos)

-- The first checks of the two claims are the same.
first_checks :
    (l : Limits) (u : Usage) (cost : Cost) (maximum : ℕ)
    → Passes l u cost
      ⊎ ((e : ReservationError) × (claim_ordinary_many l u cost maximum ≡ err e)
          × (claim l u cost ordinary false ≡ err e))
unfolding claim claim_ordinary_many
first_checks l u cost maximum = elim (Bool-cases u.is_closed) [
  | inl shut ↦ inr (closed, ground arith, ground arith)
  | inr is_open ↦
      elim (Bool-cases
        (not (fits cost l.ordinary_target) || over_ceiling l.hard_byte_ceiling cost.bytes)) [
          | inl large ↦ inr (too_large, ground arith, ground arith)
          | inr passed ↦
              inl (record { is_open = is_open; fitting = ground arith; small = ground arith })
        ]
]

many_count :
    (l : Limits) (u : Usage) (cost : Cost) (maximum : ℕ)
    → IsBounded l u
    → Passes l u cost
    → claim_ordinary_many l u cost maximum ≡ charge_many u cost (granted_count l u cost maximum)
unfolding claim_ordinary_many
many_count l u cost maximum b s = ground (arith, s.is_open, s.fitting, s.small, b.total_word)

module _ (l : Limits) (u : Usage) (cost : Cost) (maximum : ℕ) (m : IsMachine l)
    (b : IsBounded l u) where
  abbrev count : ℕ
  count = granted_count l u cost maximum

  count-Room : (count ≤ maximum) × Room l u cost count
  count-Room = (granted_count_iff l u cost maximum count b).0 (omega arith)

  count_max : (n : ℕ) → n ≤ maximum → Room l u cost n → n ≤ count
  count_max n h r = (granted_count_iff l u cost maximum n b).1 (h, r)

  -- What the bulk claim does past the first checks.
  many_cases :
      Passes l u cost
      → ((count ≡ 0) × (claim_ordinary_many l u cost maximum ≡ err full))
        ⊎ ((0 < count) × (claim_ordinary_many l u cost maximum ≡ ok (count, charged u cost count)))
  unfolding charge_many
  many_cases s = elim (Bool-cases (count == 0)) [
    | inl none_fits ↦ inl (ground arith, many_count l u cost maximum b s ∙ ground arith)
    | inr some_fit ↦
        let pos : 0 < count = ground arith in
        inr (
          pos,
          many_count l u cost maximum b s ∙ charge_many_ok l u cost m s count pos count-Room.1,
        )
  ]

  abbrev Good : ℕ × Usage → Type 0
  Good r =
      (0 < r.0)
      × (r.0 ≤ maximum)
      × (claims r.0 l u cost ≡ ok r.1)
      × ((r.0 ≡ maximum) ⊎ (claim l r.1 cost ordinary false ≡ err full))

  count-Good : Passes l u cost → 0 < count → Good (count, charged u cost count)
  count-Good s pos = (
    pos,
    count-Room.0,
    claims_ok l u cost m s count count-Room.1,
    elim (Bool-cases (count == maximum)) [
      | inl met ↦ inl (ground arith)
      | inr short ↦
          let below : count < maximum = ground (arith, count-Room.0) in
          inr (
            next_full l u cost m s count
              (λ r. absurd (omega (arith, count_max (suc count) below r))))
    ],
  )

-- A bulk claim grants a number of members between one and the request. As many single claims
-- succeed and leave the same usage, and either the request is met or the next single claim is
-- refused as full.
pub claim_ordinary_many-claims :
    (l : Limits) (u v : Usage) (cost : Cost) (maximum n : ℕ)
    → IsMachine l
    → IsBounded l u
    → claim_ordinary_many l u cost maximum ≡ ok (n, v)
    → (0 < n)
      × (n ≤ maximum)
      × (claims n l u cost ≡ ok v)
      × ((n ≡ maximum) ⊎ (claim l v cost ordinary false ≡ err full))
claim_ordinary_many-claims l u v cost maximum n m b h = elim (first_checks l u cost maximum) [
  | inr (e, x, y) ↦ absurd (cc)
  | inl s ↦ elim (many_cases l u cost maximum m b s) [
    | inl (z, x) ↦ absurd (cc)
    | inr (pos, x) ↦
        let same : (granted_count l u cost maximum, charged u cost (granted_count l u cost maximum))
            ≡ (n, v) =
          cc in
        subst (Good l u cost maximum m b) same (count-Good l u cost maximum m b s pos)
  ]
]

single_granted :
    (l : Limits) (u : Usage) (cost : Cost) (e : ReservationError)
    → claims 1 l u cost ≡ ok (charged u cost 1)
    → claim l u cost ordinary false ≡ err e
    → ⊥
unfolding claims
single_granted l u cost e one h = ground arith

-- A bulk claim of at least one member is refused exactly when a single claim is, and with the same
-- error.
pub claim_ordinary_many_refused :
    (l : Limits) (u : Usage) (cost : Cost) (maximum : ℕ) (e : ReservationError)
    → IsMachine l
    → IsBounded l u
    → 0 < maximum
    → (claim_ordinary_many l u cost maximum ≡ err e) ↔ (claim l u cost ordinary false ≡ err e)
claim_ordinary_many_refused l u cost maximum e m b pos = elim (first_checks l u cost maximum) [
  | inr (r, x, y) ↦ (λ h. cc, λ h. cc)
  | inl s ↦ elim (many_cases l u cost maximum m b s) [
    | inr (some_fit, x) ↦
        let one =
          claims_ok l u cost m s 1 ((granted_count_iff l u cost maximum 1 b).0 some_fit).1 in
        (λ h. absurd (cc), λ h. absurd (single_granted l u cost e one h))
    | inl (z, x) ↦
        let first =
          next_full l u cost m s 0
            (λ r. absurd (omega (arith, count_max l u cost maximum m b 1 pos r, z))) in
        let full_now : claim l u cost ordinary false ≡ err full = cc (charged_zero u cost) in
        (λ h. cc (full_now, x), λ h. cc (full_now, x))
  ]
]
