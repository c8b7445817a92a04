-- ===== src/Examples/Wakes.antt =====
-- Concrete runs of the theorems on src/progress.rs.
use solworker.Prelude.{◌≡◌, false, some, List, [], ◌∷◌, arith}
use solworker.Progress.Wake.{Wake, new_wake}
use solworker.Progress.Wake.NoLoss.{
  Step, publishes, checks, adds, signals, enables, samples, reads, waits, run_wake, IsCurrent,
  run_wake-IsCurrent,
}

-- A change is published between the sample and the snapshot, and another during the sleep.
abbrev first_wait : List Step
first_wait =
    publishes
    ∷ checks
    ∷ enables
    ∷ samples
    ∷ publishes
    ∷ reads
    ∷ checks
    ∷ waits false
    ∷ publishes
    ∷ adds
    ∷ signals
    ∷ waits false
    ∷ []

run_wake-IsCurrent_example : (w : Wake) × (run_wake new_wake first_wait ≡ some w) × IsCurrent w
run_wake-IsCurrent_example = run_wake-IsCurrent first_wait (omega arith)
