-- ===== src/Examples/Counters.antt =====
-- Concrete runs of the theorems on the accounting of src/scheduler.rs and on
-- src/scheduler/admission.rs.
use solworker.Prelude.{◌≡◌, some, List, [], ◌∷◌}
use solworker.Prelude.{◌↔◌}
use solworker.Prelude.Results.{ok}
use solworker.Scheduler.OwnedLimits.{
  PerClass, OwnedLimits, given, new_owned_limits, IsUsable, new_owned_limits-IsUsable,
}
use solworker.Scheduler.Accounting.{Accounting, new_accounting}
use solworker.Scheduler.Accounting.Bounds.{
  Inv, new_accounting-Inv, Step, acquires, commits, drops, returns, run_steps, run_steps-Inv,
}

-- Two acquisitions race for three edges, and the second gives its record back.
abbrev race : List Step
race = acquires 2 ∷ acquires 3 ∷ commits 2 ∷ commits 3 ∷ drops 2 ∷ returns ∷ returns ∷ []

run_steps-Inv_example :
    (b : Accounting) × (run_steps (new_accounting 2 3) race ≡ some b)
    × Inv b
    × (b.record_limit ≡ (new_accounting 2 3).record_limit)
    × (b.edge_limit ≡ (new_accounting 2 3).edge_limit)
run_steps-Inv_example = run_steps-Inv (new_accounting 2 3) race (new_accounting-Inv 2 3)

abbrev each_two : PerClass
each_two = record { of_low = 2; of_mid = 2; of_high = 2 }

abbrev small_limits : OwnedLimits
small_limits = record { records = 4; edges = 0; runnable = each_two; handoff = each_two }

new_owned_limits-IsUsable_example :
    (new_owned_limits 4 0 each_two each_two ≡ ok small_limits)
    ↔ ((small_limits ≡ given 4 0 each_two each_two) × IsUsable (given 4 0 each_two each_two))
new_owned_limits-IsUsable_example = new_owned_limits-IsUsable 4 0 each_two each_two small_limits
