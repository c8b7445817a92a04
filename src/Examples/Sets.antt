-- ===== src/Examples/Sets.antt =====
-- Concrete runs of the theorems on src/scheduler/work_set.rs.
use solworker.Prelude.{
  ◌+◌, ◌≤◌, ◌<◌, ◌≡◌, refl, true, false, some, List, [], ◌∷◌, arith, length, word_mod,
}
use solworker.Ready.Maps.{remove}
use solworker.WorkSet.{
  WorkSet, running, closing, new_set, must_wait, cancel, seal, try_root_lease, try_child_lease,
  acquire_work, discovery, fork, drop_lease,
}
use solworker.WorkSet.Inv.{Inv, new_set-Inv}
use solworker.WorkSet.Steps.{seal-Inv}
use solworker.WorkSet.History.{
  Call, roots, children, discovers, forks, seals, registers, ends_lease, ends_permit, perform,
  run_set, run_set-Inv,
}
use solworker.WorkSet.Stable.{run_set-Kept, run_set-cancel}

abbrev calls : List Call
calls =
    discovers (some running)
    ∷ roots (some running) 7
    ∷ registers 1 40
    ∷ seals
    ∷ children (some closing) 7
    ∷ ends_permit
    ∷ ends_lease 1
    ∷ ends_lease 2
    ∷ []

enough : (new_set 7 2).next_id + length calls < word_mod
unfolding new_set
enough = omega arith

run_set-Inv_example : (t : WorkSet) × (run_set (new_set 7 2) calls ≡ some t) × Inv t
run_set-Inv_example = run_set-Inv (new_set 7 2) calls (new_set-Inv 7 2) enough

abbrev idle_set : WorkSet
idle_set = record {
  identity = 7;
  permit_capacity = 2;
  is_open = true;
  is_cancelled = false;
  active_work = 0;
  permits = 0;
  next_id = 1;
  cancel_hooks = [];
  live_leases = [];
  live_permits = 0;
  fired = [];
}

idle_set-Inv : Inv idle_set
unfolding new_set
idle_set-Inv = new_set-Inv 7 2

abbrev sealed_set : WorkSet
sealed_set = record idle_set { is_open = false }

abbrev late_calls : List Call
late_calls = roots (some running) 7 ∷ discovers (some running) ∷ children (some closing) 7 ∷ []

sealed_set-Inv : Inv sealed_set
unfolding seal
sealed_set-Inv = seal-Inv idle_set idle_set-Inv

late_run : run_set sealed_set late_calls ≡ some sealed_set
unfolding run_set perform try_root_lease try_child_lease acquire_work discovery
late_run = refl

run_set-Kept_example :
    (sealed_set.is_open ≡ false → sealed_set.is_open ≡ false)
    × (sealed_set.is_cancelled ≡ true → sealed_set.is_cancelled ≡ true)
    × (must_wait sealed_set ≡ false → must_wait sealed_set ≡ false)
run_set-Kept_example =
    run_set-Kept sealed_set sealed_set late_calls sealed_set-Inv (omega arith) late_run

abbrev busy_set : WorkSet
busy_set = record idle_set {
  active_work = 1;
  permits = 1;
  next_id = 2;
  cancel_hooks = (1, 40) ∷ [];
  live_leases = 1 ∷ [];
  live_permits = 1;
}

abbrev ended_set : WorkSet
ended_set = record busy_set {
  is_open = false;
  is_cancelled = true;
  active_work = 0;
  cancel_hooks = [];
  live_leases = [];
  fired = 40 ∷ [];
}

cancelled_run :
    run_set (cancel busy_set) (children (some running) 7 ∷ forks (some running) ∷ ends_lease 1 ∷ [])
    ≡ some ended_set
unfolding run_set perform cancel try_child_lease acquire_work fork drop_lease remove
cancelled_run = refl

run_set-cancel_example :
    (ended_set.is_cancelled ≡ true)
    × (ended_set.active_work ≤ busy_set.active_work)
    × (ended_set.permits ≤ busy_set.permits)
run_set-cancel_example =
    run_set-cancel busy_set ended_set
      (children (some running) 7 ∷ forks (some running) ∷ ends_lease 1 ∷ []) cancelled_run
