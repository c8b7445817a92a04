-- ===== src/Reservation/Pool.antt =====
-- src/scheduler/reservation.rs: the operations of `SWReservationPool`, `SWReservation`,
-- `SWByteLease` and `OwnedCharge`.
pub mod Inv
pub mod Charges
pub mod Stages
pub mod Drops
pub mod History
pub mod RoundTrip
use solworker.Prelude.{
  ℕ, zero, suc, ◌+◌, ◌≡◌, Bool, true, false, ◌&&◌, ◌||◌, not, Option, none, some, List, [], ◌∷◌,
  ◌++◌, ◌==◌, if◌then◌else◌,
}
use solworker.Prelude.Results.{Result, ok, err}
use solworker.Reservation.Cost.{Cost, zero_cost, bytes_cost, cost_add, subtract}
use solworker.Reservation.Limits.{Limits, over_ceiling}
use solworker.Reservation.Ledger.{
  Kind, ordinary, required, Usage, new_usage, ReservationError, too_large, insufficient_credits,
  claim, release, claim_ordinary_many, fits_kind,
}
use solworker.Reservation.Bank.{
  Bank, live_balance, set_balance, parent_of, retire, refund, has_live,
}
use solworker.Reservation.State.{
  Pipeline, ByteLease, OwnedCharge, Pool, find_pipeline, put_pipeline, remove_pipeline, find_lease,
  remove_lease, find_charge, remove_charge, owned_cost, Outcome, done, refused, stale, panicked,
}

root_bank : Cost → Bank
root_bank cost = record { bank_id = 0; balance = cost; retired = false; parent = none }

new_pipeline : ℕ → Kind → Cost → Pipeline
unfolding root_bank
new_pipeline serial kind cost = record {
  serial = serial;
  kind = kind;
  total = cost;
  banks = root_bank cost ∷ [];
  next_bank = 1;
}

-- `SWReservationPool::reserve`, with `reservation`: one pipeline whose root bank holds the cost.
unfoldable pub reserve : Pool → Kind → Cost → Outcome
unfolding new_pipeline
reserve p kind cost = elim (claim p.limits p.usage cost kind true) [
  | err e ↦ refused e
  | ok u ↦
      done
        (record p {
          usage = u;
          pipelines = new_pipeline p.next_serial kind cost ∷ p.pipelines;
          next_serial = suc p.next_serial;
        })
        p.next_serial
]

-- `SWReservationPool::try_charge_owned`.
unfoldable pub try_charge_owned : Pool → ℕ → Outcome
try_charge_owned p edges = elim (claim p.limits p.usage (owned_cost edges) ordinary false) [
  | err e ↦ refused e
  | ok u ↦
      done
        (record p {
          usage = u;
          charges = record { charge_id = p.next_serial; charge_edges = edges } ∷ p.charges;
          next_serial = suc p.next_serial;
        })
        p.next_serial
]

-- The loop that fills the output buffer, one independent charge for each accepted member.
unfoldable pub push_charges : ℕ → ℕ → ℕ → List OwnedCharge → List OwnedCharge
push_charges zero serial edges cs = cs
push_charges (suc n) serial edges cs =
    push_charges n (suc serial) edges (record { charge_id = serial; charge_edges = edges } ∷ cs)

-- `SWReservationPool::try_charge_owned_many_into`; the number is that of the accepted members.
unfoldable pub try_charge_owned_many : Pool → ℕ → ℕ → Outcome
try_charge_owned_many p edges maximum =
    if maximum == 0
    then done p 0
    else elim (claim_ordinary_many p.limits p.usage (owned_cost edges) maximum) [
      | err e ↦ refused e
      | ok (count, u) ↦
          done
            (record p {
              usage = u;
              charges = push_charges count p.next_serial edges p.charges;
              next_serial = p.next_serial + count;
            })
            count
    ]

after_release : Pool → Option Usage → Outcome
after_release p none = panicked
after_release p (some u) = done (record p { usage = u }) 0

-- `OwnedCharge::drop`.
unfoldable pub drop_charge : Pool → ℕ → Outcome
unfolding after_release
drop_charge p k = elim (find_charge k p.charges) [
  | none ↦ stale
  | some edges ↦
      after_release (record p { charges = remove_charge k p.charges })
        (release p.usage (owned_cost edges) ordinary false)
]

-- `SWReservationPool::close`.
unfoldable pub close : Pool → Pool
close p = record p { usage = record (p.usage) { is_closed = true } }

put_banks : Pool → Pipeline → Cost → List Bank → ℕ → Pool
put_banks p q total banks next_bank = record p {
  pipelines = put_pipeline q.kind q.serial total banks next_bank p.pipelines;
}

stage_at : Pool → Pipeline → ℕ → Cost → Cost → Outcome
unfolding put_banks
stage_at p q bank cost balance = elim (subtract balance cost) [
  | none ↦ refused insufficient_credits
  | some rest ↦
      done
        (put_banks p q q.total
          (record { bank_id = q.next_bank; balance = cost; retired = false; parent = some bank }
            ∷ set_balance bank rest q.banks)
          (suc q.next_bank))
        q.next_bank
]

-- The pipeline and the balance behind a reservation.
abbrev pub with_reservation : Pool → Kind → ℕ → ℕ → (Pipeline → Cost → Outcome) → Outcome
with_reservation p kind serial bank act = elim (find_pipeline kind serial p.pipelines) [
  | none ↦ stale
  | some q ↦ elim (live_balance bank q.banks) [ none ↦ stale | some balance ↦ act q balance ]
]

-- `SWReservation::stage`, and `split`, which is the same.
unfoldable pub stage : Pool → Kind → ℕ → ℕ → Cost → Outcome
unfolding stage_at
stage p kind serial bank cost =
    with_reservation p kind serial bank (λ q balance. stage_at p q bank cost balance)

grow_banks : Pool → Pipeline → Cost → Option (List Bank) → Outcome
unfolding put_banks
grow_banks p q total none = panicked
grow_banks p q total (some banks) = done (put_banks p q total banks q.next_bank) 0

grow_claimed : Pool → Pipeline → ℕ → Cost → Cost → Result ReservationError Usage → Outcome
unfolding grow_banks
grow_claimed p q bank additional next (err e) = refused e
grow_claimed p q bank additional next (ok u) =
    grow_banks (record p { usage = u }) q next (refund (some bank) additional q.banks)

grow_total : Pool → Pipeline → ℕ → Cost → Option Cost → Outcome
unfolding grow_claimed
grow_total p q bank additional none = refused too_large
grow_total p q bank additional (some next) =
    if not (fits_kind q.kind next p.limits) || over_ceiling p.limits.hard_byte_ceiling next.bytes
    then refused too_large
    else grow_claimed p q bank additional next (claim p.limits p.usage additional q.kind false)

-- `SWReservation::try_grow`.
unfoldable pub try_grow : Pool → Kind → ℕ → ℕ → Cost → Outcome
unfolding grow_total
try_grow p kind serial bank additional =
    with_reservation p kind serial bank
      (λ q balance. grow_total p q bank additional (cost_add q.total additional))

retain_total : Pool → Pipeline → ℕ → ℕ → Cost → Option Cost → Outcome
unfolding put_banks
retain_total p q bank bytes rest none = panicked
retain_total p q bank bytes rest (some total) =
    done
      (record (put_banks p q total (set_balance bank rest q.banks) q.next_bank) {
        leases =
            record {
              lease_id = p.next_serial;
              lease_kind = q.kind;
              lease_pipeline = q.serial;
              lease_bank = bank;
              lease_bytes = bytes;
            }
            ∷ p.leases;
        next_serial = suc p.next_serial;
      })
      p.next_serial

retain_at : Pool → Pipeline → ℕ → ℕ → Cost → Outcome
unfolding retain_total
retain_at p q bank bytes balance = elim (subtract balance (bytes_cost bytes)) [
  | none ↦ refused insufficient_credits
  | some rest ↦ retain_total p q bank bytes rest (subtract q.total (bytes_cost bytes))
]

-- `SWReservation::retain_bytes`.
unfoldable pub retain_bytes : Pool → Kind → ℕ → ℕ → ℕ → Outcome
unfolding retain_at
retain_bytes p kind serial bank bytes =
    with_reservation p kind serial bank (λ q balance. retain_at p q bank bytes balance)

-- `SWByteLease::drop`: to the pipeline while it lives, else to the ledger.
lease_total : Pool → Pipeline → ByteLease → Option Cost → Outcome
unfolding grow_banks
lease_total p q l none = panicked
lease_total p q l (some total) =
    grow_banks p q total (refund (some l.lease_bank) (bytes_cost l.lease_bytes) q.banks)

settle_lease : Pool → ByteLease → Option Pipeline → Outcome
unfolding lease_total after_release
settle_lease p l none =
    after_release p (release p.usage (bytes_cost l.lease_bytes) l.lease_kind false)
settle_lease p l (some q) = lease_total p q l (cost_add q.total (bytes_cost l.lease_bytes))

unfoldable pub drop_lease : Pool → ℕ → Outcome
unfolding settle_lease
drop_lease p k = elim (find_lease k p.leases) [
  | none ↦ stale
  | some l ↦
      settle_lease (record p { leases = remove_lease k p.leases }) l
        (find_pipeline l.lease_kind l.lease_pipeline p.pipelines)
]

-- `Pipeline::drop` follows the drop of its last reservation.
drop_banks : Pool → Pipeline → Option (List Bank) → Outcome
unfolding put_banks after_release
drop_banks p q none = panicked
drop_banks p q (some banks) =
    if has_live banks
    then done (put_banks p q q.total banks q.next_bank) 0
    else after_release (record p { pipelines = remove_pipeline q.kind q.serial p.pipelines })
        (release p.usage q.total q.kind true)

-- `SWReservation::drop`.
unfoldable pub drop_reservation : Pool → Kind → ℕ → ℕ → Outcome
unfolding drop_banks
drop_reservation p kind serial bank =
    with_reservation p kind serial bank
      (λ q balance. drop_banks p q (refund (parent_of bank q.banks) balance (retire bank q.banks)))
