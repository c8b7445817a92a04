-- ===== src/Examples/Drains.antt =====
-- A concrete run of the theorem on the activation queue of src/scheduler.rs.
use solworker.Prelude.{
  ℕ, ◌+◌, ◌<◌, ◌≡◌, Bool, true, false, some, List, [], ◌∷◌, length, ◌==◌, arith,
}
use solworker.Scheduler.Activations.{
  Activation, prerequisite, prerequisite_range, finalize, Drain, idle, enqueue_activation,
}
use solworker.Scheduler.Activations.Fifo.{
  all_spawned, first_panicking, total_weight, enqueue_activation-in_order,
}

abbrev finalize_all : List ℕ → List Activation
finalize_all [] = []
finalize_all (id ∷ ids) = finalize id ∷ finalize_all ids

-- A failed prerequisite suppresses the jobs that wait for it, which nobody waits for, and each
-- suppression enqueues a finalization. A successful one makes its jobs ready.
abbrev suppressions : Activation → List Activation
suppressions (prerequisite id false) = finalize id ∷ []
suppressions (prerequisite id true) = []
suppressions (prerequisite_range ids false) = finalize_all ids
suppressions (prerequisite_range ids true) = []
suppressions (finalize id) = []

-- The destructor of the payload of job 3 panics.
abbrev fails : Activation → Bool
fails (finalize id) = id == 3
fails _ = false

abbrev burden : Activation → ℕ
burden (prerequisite id success) = 2
burden (prerequisite_range ids success) = length ids + 1
burden (finalize id) = 1

finalize_all-weight : (ids : List ℕ) → total_weight burden (finalize_all ids) ≡ length ids
finalize_all-weight [] = omega arith
finalize_all-weight (id ∷ ids) = omega (arith, finalize_all-weight ids)

suppressions-lighter : (b : Activation) → total_weight burden (suppressions b) < burden b
suppressions-lighter (prerequisite id false) = omega arith
suppressions-lighter (prerequisite id true) = omega arith
suppressions-lighter (prerequisite_range ids false) = omega (arith, finalize_all-weight ids)
suppressions-lighter (prerequisite_range ids true) = omega arith
suppressions-lighter (finalize id) = omega arith

abbrev failed_range : Activation
failed_range = prerequisite_range (2 ∷ 3 ∷ 4 ∷ []) false

enqueue_activation-in_order_example :
    (d : Drain Activation) × (enqueue_activation suppressions fails 5 idle failed_range
      ≡ some (idle, d))
    × (d.ran ≡ failed_range ∷ all_spawned suppressions fails d.ran)
    × (d.panic ≡ first_panicking fails d.ran)
enqueue_activation-in_order_example =
    enqueue_activation-in_order suppressions fails burden 5 failed_range suppressions-lighter
      (omega arith)
