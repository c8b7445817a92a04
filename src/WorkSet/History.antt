-- ===== src/WorkSet/History.antt =====
-- src/scheduler/work_set.rs: every history of calls on one work set.
use solworker.Prelude.{
  ℕ, ◌+◌, ◌<◌, ◌≤◌, ◌≡◌, refl, true, Option, none, some, List, [], ◌∷◌, arith, length, word_mod,
}
use solworker.WorkSet.{
  WorkSet, Outcome, done, panicked, RuntimeState, try_root_lease, try_child_lease, discovery, fork,
  seal, cancel, register_cancel, drop_lease, drop_permit,
}
use solworker.WorkSet.Inv.{Inv, IsSafe, accepted, turned_away, dead_handle}
use solworker.WorkSet.Steps.{
  acquire_work-IsSafe, try_child_lease-IsSafe, discovery-IsSafe, fork-IsSafe, seal-Inv, cancel-Inv,
  register_cancel-IsSafe, drop_lease-IsSafe, drop_permit-IsSafe,
}

-- A call with the phase that the runtime has at that moment.
pub data Call : Type 0 where
  roots : Option RuntimeState → ℕ → Call
  children : Option RuntimeState → ℕ → Call
  discovers : Option RuntimeState → Call
  forks : Option RuntimeState → Call
  seals : Call
  cancels : Call
  registers : ℕ → ℕ → Call
  ends_lease : ℕ → Call
  ends_permit : Call

unfoldable pub perform : WorkSet → Call → Outcome
perform s (roots phase runtime) = try_root_lease s phase runtime
perform s (children phase runtime) = try_child_lease s phase runtime
perform s (discovers phase) = discovery s phase
perform s (forks phase) = fork s phase
perform s seals = done (seal s)
perform s cancels = done (cancel s)
perform s (registers k hook) = register_cancel s k hook
perform s (ends_lease k) = drop_lease s k
perform s ends_permit = drop_permit s

-- A refusal leaves the set; a panic ends the history.
abbrev pub after_call : WorkSet → Outcome → Option WorkSet
after_call s (done t) = some t
after_call s panicked = none
after_call s _ = some s

unfoldable pub run_set : WorkSet → List Call → Option WorkSet
run_set s [] = some s
run_set s (c ∷ cs) = elim (after_call s (perform s c)) [ none ↦ none | some t ↦ run_set t cs ]

pub perform-IsSafe :
    (s : WorkSet) (c : Call) → Inv s → s.next_id + 1 < word_mod → IsSafe s (perform s c)
unfolding perform try_root_lease seal cancel
perform-IsSafe s (roots phase runtime) v h = acquire_work-IsSafe s phase runtime true v h
perform-IsSafe s (children phase runtime) v h = try_child_lease-IsSafe s phase runtime v h
perform-IsSafe s (discovers phase) v h = discovery-IsSafe s phase v
perform-IsSafe s (forks phase) v h = fork-IsSafe s phase v
perform-IsSafe s seals v h = accepted _ (seal-Inv s v) (omega arith)
perform-IsSafe s cancels v h = accepted _ (cancel-Inv s v) (omega arith)
perform-IsSafe s (registers k hook) v h = register_cancel-IsSafe s k hook v
perform-IsSafe s (ends_lease k) v h = drop_lease-IsSafe s k v
perform-IsSafe s ends_permit v h = drop_permit-IsSafe s v

pub after_safe :
    (s : WorkSet) (o : Outcome)
    → Inv s
    → IsSafe s o
    → (t : WorkSet) × (after_call s o ≡ some t) × Inv t × (t.next_id ≤ s.next_id + 1)
after_safe s o v (accepted t i h) = (t, refl, i, h)
after_safe s o v (turned_away e) = (s, refl, v, omega arith)
after_safe s o v dead_handle = (s, refl, v, omega arith)

-- From a set that meets the invariant, calls that cannot use up the 64-bit identities never panic,
-- and the last set meets the invariant: the counts are those of the living handles, permits are
-- within their capacity, and a cancelled set is sealed and has no hook left.
pub run_set-Inv :
    (s : WorkSet) (cs : List Call)
    → Inv s
    → s.next_id + length cs < word_mod
    → (t : WorkSet) × (run_set s cs ≡ some t) × Inv t
unfolding run_set
run_set-Inv s [] v h = (s, refl, v)
run_set-Inv s (c ∷ cs) v h =
    let (t, e, i, n) = after_safe s (perform s c) v (perform-IsSafe s c v (omega arith)) in
    let (u, f, j) = run_set-Inv t cs i (omega arith) in (u, rw (e, run_set) f, j)
