-- ===== src/Reservation/Limits.antt =====
-- src/scheduler/reservation.rs, `SWLimits`: the admission policy and its validation.
use solworker.Prelude.{
  ℕ, ◌+◌, ◌≤◌, ◌<◌, ◌≡◌, ◌↔◌, Bool, true, false, ◌&&◌, ◌||◌, Option, none, some, arith, ltb, ◌==◌,
  if◌then◌else◌, checked_add, word_mod,
}
use solworker.Prelude.Results.{Result, ok, err}
use solworker.Reservation.Cost.{Cost}

pub record Limits : Type 0 where
  pub ordinary_target : Cost
  pub required_allowance : Cost
  pub required_pipelines : ℕ
  pub hard_byte_ceiling : Option ℕ

pub data LimitError : Type 0 where
  zero_required_capacity metadata_overflow ordinary_target_exceeds_ceiling : LimitError

abbrev overflows : ℕ → ℕ → Bool
overflows a b = elim (checked_add a b) [ none ↦ true | some _ ↦ false ]

-- `hard_byte_ceiling.is_some_and(|ceiling| bytes > ceiling)`.
abbrev pub over_ceiling : Option ℕ → ℕ → Bool
over_ceiling none bytes = false
over_ceiling (some ceiling) bytes = ltb ceiling bytes

-- The ceiling, if there is one, is kept.
abbrev pub UnderCeiling : Option ℕ → ℕ → Type 0
UnderCeiling none bytes = Unit {0}
UnderCeiling (some ceiling) bytes = bytes ≤ ceiling

unfoldable pub new_limits : Cost → Cost → ℕ → Option ℕ → Result LimitError Limits
new_limits target allowance pipelines ceiling =
    if ltb 0 pipelines
      && (allowance.records == 0 && (allowance.edges == 0 && allowance.deliveries == 0))
    then err zero_required_capacity
    else if overflows target.records allowance.records
        || (overflows target.edges allowance.edges
            || overflows target.deliveries allowance.deliveries)
    then err metadata_overflow
    else if over_ceiling ceiling target.bytes
    then err ordinary_target_exceeds_ceiling
    else ok (record {
      ordinary_target = target;
      required_allowance = allowance;
      required_pipelines = pipelines;
      hard_byte_ceiling = ceiling;
    })

-- What a validated policy guarantees.
pub record IsValid (l : Limits) : Type 0 where
  pub records_word : l.ordinary_target.records + l.required_allowance.records < word_mod
  pub edges_word : l.ordinary_target.edges + l.required_allowance.edges < word_mod
  pub deliveries_word : l.ordinary_target.deliveries + l.required_allowance.deliveries < word_mod
  pub target_fits : UnderCeiling l.hard_byte_ceiling l.ordinary_target.bytes
  pub protected :
      0 < l.required_pipelines
      → 0
        < l.required_allowance.records + l.required_allowance.edges
          + l.required_allowance.deliveries

abbrev pub policy : Cost → Cost → ℕ → Option ℕ → Limits
policy target allowance pipelines ceiling = record {
  ordinary_target = target;
  required_allowance = allowance;
  required_pipelines = pipelines;
  hard_byte_ceiling = ceiling;
}

-- Validation gives a policy exactly when the policy is the numbers it was given and these are valid:
-- the metadata sums fit a machine word, the ordinary byte target is under the ceiling, and, with
-- required pipelines, there is some required metadata. All other numbers are refused.
pub new_limits-IsValid :
    (target allowance : Cost) (pipelines : ℕ) (ceiling : Option ℕ) (l : Limits)
    → (new_limits target allowance pipelines ceiling ≡ ok l) ↔ (
        (l ≡ policy target allowance pipelines ceiling)
        × IsValid (policy target allowance pipelines ceiling))
unfolding new_limits
new_limits-IsValid target allowance pipelines none l = (
  λ h. (ground arith, ground arith),
  λ (e, v). ground (arith, e, v.records_word, v.edges_word, v.deliveries_word, v.protected),
)
new_limits-IsValid target allowance pipelines (some ceiling) l = (
  λ h. (ground arith, ground arith),
  λ (e, v).
      ground
        (arith, e, v.records_word, v.edges_word, v.deliveries_word, v.target_fits, v.protected),
)
