-- ===== src/Reservation/Ledger.antt =====
-- src/scheduler/reservation.rs, `Ledger`: the shared usage that claims and releases charge.
use solworker.Prelude.{
  ℕ, ◌+◌, ◌-◌, ◌/◌, Bool, true, false, ◌&&◌, ◌||◌, not, Option, none, some, leb, ◌==◌,
  if◌then◌else◌, checked_add, word_mod, min,
}
use solworker.Prelude.Results.{Result, ok, err}
use solworker.Reservation.Cost.{Cost, zero_cost, cost_add, cost_mul, fits, metadata_fits, subtract}
use solworker.Reservation.Limits.{Limits, over_ceiling}

pub data ReservationError : Type 0 where
  full too_large closed insufficient_credits : ReservationError

pub data Kind : Type 0 where
  ordinary required : Kind

pub record Usage : Type 0 where
  pub ordinary_use : Cost
  pub required_use : Cost
  pub pipelines : ℕ
  pub is_closed : Bool

abbrev pub new_usage : Usage
new_usage = record {
  ordinary_use = zero_cost;
  required_use = zero_cost;
  pipelines = 0;
  is_closed = false;
}

abbrev pub is_required : Kind → Bool
is_required ordinary = false
is_required required = true

abbrev pub use_of : Kind → Usage → Cost
use_of ordinary u = u.ordinary_use
use_of required u = u.required_use

abbrev pub set_use : Kind → Usage → Cost → Usage
set_use ordinary u c = record u { ordinary_use = c }
set_use required u c = record u { required_use = c }

abbrev pub allowance_of : Kind → Limits → Cost
allowance_of ordinary l = l.ordinary_target
allowance_of required l = l.required_allowance

-- A cost against the allowance of its kind; the bytes of required work have no target.
abbrev pub fits_kind : Kind → Cost → Limits → Bool
fits_kind ordinary c l = fits c l.ordinary_target
fits_kind required c l = metadata_fits c l.required_allowance

abbrev pub count_pipeline : Kind → Bool → Usage → Usage
count_pipeline kind new_pipeline u =
    if new_pipeline && is_required kind then record u { pipelines = u.pipelines + 1 } else u

-- `usage.ordinary.bytes + usage.required.bytes + cost.bytes`, checked.
abbrev pub total_bytes : Usage → Cost → Option ℕ
total_bytes u c = elim (checked_add u.ordinary_use.bytes u.required_use.bytes) [
  | none ↦ none
  | some bytes ↦ checked_add bytes c.bytes
]

-- `total_bytes.is_none_or(|bytes| over the ceiling)`.
abbrev pub bytes_refused : Limits → Option ℕ → Bool
bytes_refused l none = true
bytes_refused l (some bytes) = over_ceiling l.hard_byte_ceiling bytes

claim_next : Limits → Usage → Cost → Kind → Bool → Option Cost → Result ReservationError Usage
claim_next l u cost kind new_pipeline none = err full
claim_next l u cost kind new_pipeline (some next) =
    if not (fits_kind kind next l) || bytes_refused l (total_bytes u cost)
    then err full
    else ok (count_pipeline kind new_pipeline (set_use kind u next))

-- `Ledger::claim`.
unfoldable pub claim : Limits → Usage → Cost → Kind → Bool → Result ReservationError Usage
unfolding claim_next
claim l u cost kind new_pipeline =
    if u.is_closed
    then err closed
    else if not (fits_kind kind cost l) || over_ceiling l.hard_byte_ceiling cost.bytes
    then err too_large
    else if new_pipeline && (is_required kind && (l.required_pipelines == 0))
    then err too_large
    else if new_pipeline && (is_required kind && leb l.required_pipelines u.pipelines)
    then err full
    else claim_next l u cost kind new_pipeline (cost_add (use_of kind u) cost)

-- `Ledger::release`; `none` is the failed assertion that the charge covers what is released, or
-- the underflow of the pipeline count.
unfoldable pub release : Usage → Cost → Kind → Bool → Option Usage
release u cost kind pipeline = elim (subtract (use_of kind u) cost) [
  | none ↦ none
  | some rest ↦
      if pipeline && is_required kind
      then (if u.pipelines == 0
          then none
          else some (record (set_use kind u rest) { pipelines = u.pipelines - 1 }))
      else some (set_use kind u rest)
]

-- `if let Some(available) = limit.saturating_sub(used).checked_div(per_member)`.
abbrev pub cap_count : ℕ → ℕ → ℕ → ℕ → ℕ
cap_count per_member used limit count =
    if per_member == 0 then count else min count ((limit - used) / per_member)

abbrev pub word_max : ℕ
word_max = word_mod - 1

abbrev pub ceiling_or_max : Option ℕ → ℕ
ceiling_or_max none = word_max
ceiling_or_max (some ceiling) = ceiling

-- The loop over the four dimensions.
unfoldable pub affordable : Limits → Usage → Cost → ℕ → ℕ
affordable l u cost maximum = cap_count cost.bytes used.bytes target.bytes (
    cap_count cost.deliveries used.deliveries target.deliveries (
      cap_count cost.edges used.edges target.edges
        (cap_count cost.records used.records target.records maximum)))
  where
    used : Cost
    used = u.ordinary_use

    target : Cost
    target = l.ordinary_target

unfoldable pub charge_many : Usage → Cost → ℕ → Result ReservationError (ℕ × Usage)
charge_many u cost count = if count == 0 then err full else elim (cost_mul cost count) [
  | none ↦ err full
  | some aggregate ↦ elim (cost_add u.ordinary_use aggregate) [
    | none ↦ err full
    | some next ↦ ok (count, record u { ordinary_use = next })
  ]
]

-- `Ledger::claim_ordinary_many`.
unfoldable pub claim_ordinary_many : Limits → Usage → Cost → ℕ → Result ReservationError (ℕ × Usage)
unfolding charge_many
claim_ordinary_many l u cost maximum =
    if u.is_closed
    then err closed
    else if not (fits cost l.ordinary_target) || over_ceiling l.hard_byte_ceiling cost.bytes
    then err too_large
    else elim (checked_add u.ordinary_use.bytes u.required_use.bytes) [
      | none ↦ err full
      | some bytes ↦ charge_many u cost (
          cap_count cost.bytes bytes (ceiling_or_max l.hard_byte_ceiling)
            (affordable l u cost maximum))
    ]
