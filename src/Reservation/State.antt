-- ===== src/Reservation/State.antt =====
-- src/scheduler/reservation.rs: the state behind `SWReservationPool`, `SWReservation`,
-- `SWByteLease` and `OwnedCharge`. A reservation is named by the kind and serial number of its
-- pipeline, which stand for the identity of the shared allocation, and by its bank. A pipeline is
-- listed while one of its reservations lives, which is when its reference count is not zero.
use solworker.Prelude.{
  ℕ, Bool, true, false, ◌&&◌, Option, none, some, List, [], ◌∷◌, ◌==◌, if◌then◌else◌,
}
use solworker.Reservation.Cost.{Cost}
use solworker.Reservation.Limits.{Limits}
use solworker.Reservation.Ledger.{Kind, ordinary, required, Usage, new_usage, ReservationError}
use solworker.Reservation.Bank.{Bank}

pub record Pipeline : Type 0 where
  pub serial : ℕ
  pub kind : Kind
  pub total : Cost
  pub banks : List Bank
  pub next_bank : ℕ

-- `SWByteLease`.
pub record ByteLease : Type 0 where
  pub lease_id : ℕ
  pub lease_kind : Kind
  pub lease_pipeline : ℕ
  pub lease_bank : ℕ
  pub lease_bytes : ℕ

-- `OwnedCharge`, of one record and some edges.
pub record OwnedCharge : Type 0 where
  pub charge_id : ℕ
  pub charge_edges : ℕ

pub record Pool : Type 0 where
  pub limits : Limits
  pub usage : Usage
  pub pipelines : List Pipeline
  pub leases : List ByteLease
  pub charges : List OwnedCharge
  pub next_serial : ℕ

unfoldable pub new_pool : Limits → Pool
new_pool l = record {
  limits = l;
  usage = new_usage;
  pipelines = [];
  leases = [];
  charges = [];
  next_serial = 0;
}

-- `done` has the new state and the identity of what was made. A refusal leaves the state; `stale`
-- is the answer to a handle that does not live, which the source's ownership rules out.
pub data Outcome : Type 0 where
  done : Pool → ℕ → Outcome
  refused : ReservationError → Outcome
  stale : Outcome
  panicked : Outcome

abbrev pub same_kind : Kind → Kind → Bool
same_kind ordinary ordinary = true
same_kind required required = true
same_kind _ _ = false

abbrev pub is_pipeline : Kind → ℕ → Pipeline → Bool
is_pipeline kind serial q = same_kind q.kind kind && (q.serial == serial)

unfoldable pub find_pipeline : Kind → ℕ → List Pipeline → Option Pipeline
find_pipeline kind serial [] = none
find_pipeline kind serial (q ∷ qs) =
    if is_pipeline kind serial q then some q else find_pipeline kind serial qs

unfoldable pub put_pipeline : Kind → ℕ → Cost → List Bank → ℕ → List Pipeline → List Pipeline
put_pipeline kind serial total banks next_bank [] = []
put_pipeline kind serial total banks next_bank (q ∷ qs) =
    if is_pipeline kind serial q
    then record q { total = total; banks = banks; next_bank = next_bank } ∷ qs
    else q ∷ put_pipeline kind serial total banks next_bank qs

unfoldable pub remove_pipeline : Kind → ℕ → List Pipeline → List Pipeline
remove_pipeline kind serial [] = []
remove_pipeline kind serial (q ∷ qs) =
    if is_pipeline kind serial q then qs else q ∷ remove_pipeline kind serial qs

unfoldable pub find_lease : ℕ → List ByteLease → Option ByteLease
find_lease k [] = none
find_lease k (l ∷ ls) = if l.lease_id == k then some l else find_lease k ls

unfoldable pub remove_lease : ℕ → List ByteLease → List ByteLease
remove_lease k [] = []
remove_lease k (l ∷ ls) = if l.lease_id == k then ls else l ∷ remove_lease k ls

unfoldable pub find_charge : ℕ → List OwnedCharge → Option ℕ
find_charge k [] = none
find_charge k (c ∷ cs) = if c.charge_id == k then some c.charge_edges else find_charge k cs

unfoldable pub remove_charge : ℕ → List OwnedCharge → List OwnedCharge
remove_charge k [] = []
remove_charge k (c ∷ cs) = if c.charge_id == k then cs else c ∷ remove_charge k cs

-- The cost of an owned record with its edges.
abbrev pub owned_cost : ℕ → Cost
owned_cost edges = record { records = 1; edges = edges; deliveries = 0; bytes = 0 }
