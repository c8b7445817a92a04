-- ===== src/Scheduler/OwnedLimits.antt =====
-- src/scheduler/admission.rs, `SWOwnedLimits`: the capacities of the owned scheduler and their
-- validation. An array of three, which the source indexes by class, has a field for each class.
use solworker.Prelude.{ℕ, ◌<◌, ◌≡◌, List, [], ◌∷◌, ◌↔◌, arith, ◌==◌, if◌then◌else◌}
use solworker.Prelude.Results.{Result, ok, err}

pub data ExecutionClass : Type 0 where
  low mid high : ExecutionClass

pub record PerClass : Type 0 where
  pub of_low : ℕ
  pub of_mid : ℕ
  pub of_high : ℕ

abbrev pub at_class : PerClass → ExecutionClass → ℕ
at_class p low = p.of_low
at_class p mid = p.of_mid
at_class p high = p.of_high

pub record OwnedLimits : Type 0 where
  pub records : ℕ
  pub edges : ℕ
  pub runnable : PerClass
  pub handoff : PerClass

pub data OwnedConfigError : Type 0 where
  zero_records : OwnedConfigError
  zero_runnable : ExecutionClass → OwnedConfigError
  zero_handoff : ExecutionClass → OwnedConfigError

-- `SWExecutionClass::ALL`.
abbrev pub all_classes : List ExecutionClass
all_classes = low ∷ mid ∷ high ∷ []

-- The loop over the classes.
unfoldable pub check_classes :
    PerClass → PerClass → List ExecutionClass → OwnedLimits → Result OwnedConfigError OwnedLimits
check_classes runnable handoff [] limits = ok limits
check_classes runnable handoff (c ∷ cs) limits =
    let rest = check_classes runnable handoff cs limits in
    if at_class runnable c == 0
    then err (zero_runnable c)
    else if at_class handoff c == 0
    then err (zero_handoff c)
    else rest

unfoldable pub new_owned_limits : ℕ → ℕ → PerClass → PerClass → Result OwnedConfigError OwnedLimits
new_owned_limits records edges runnable handoff =
    if records == 0
    then err zero_records
    else check_classes runnable handoff all_classes
        (record { records = records; edges = edges; runnable = runnable; handoff = handoff })

-- Every class can run and hand off, and there is a record.
pub record IsUsable (l : OwnedLimits) : Type 0 where
  pub has_records : 0 < l.records
  pub can_run : (c : ExecutionClass) → 0 < at_class l.runnable c
  pub can_hand_off : (c : ExecutionClass) → 0 < at_class l.handoff c

abbrev pub given : ℕ → ℕ → PerClass → PerClass → OwnedLimits
given records edges runnable handoff = record {
  records = records;
  edges = edges;
  runnable = runnable;
  handoff = handoff;
}

every_class :
    (p : PerClass)
    → 0 < p.of_low
    → 0 < p.of_mid
    → 0 < p.of_high
    → (c : ExecutionClass) → 0 < at_class p c
every_class p l m h low = l
every_class p l m h mid = m
every_class p l m h high = h

-- Validation gives limits exactly when they are the numbers it was given, every class can run and hand
-- off, and there is a record. All other numbers are refused.
pub new_owned_limits-IsUsable :
    (records edges : ℕ) (runnable handoff : PerClass) (l : OwnedLimits)
    → (new_owned_limits records edges runnable handoff ≡ ok l) ↔ (
        (l ≡ given records edges runnable handoff)
        × IsUsable (given records edges runnable handoff))
unfolding new_owned_limits check_classes
new_owned_limits-IsUsable records edges runnable handoff l = (
  λ h. (
    ground arith,
    record {
      has_records = ground arith;
      can_run = every_class runnable (ground arith) (ground arith) (ground arith);
      can_hand_off = every_class handoff (ground arith) (ground arith) (ground arith);
    },
  ),
  λ (e, u). ground (
    arith,
    e,
    u.has_records,
    u.can_run low,
    u.can_run mid,
    u.can_run high,
    u.can_hand_off low,
    u.can_hand_off mid,
    u.can_hand_off high,
  ),
)
