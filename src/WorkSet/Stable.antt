-- ===== src/WorkSet/Stable.antt =====
-- src/scheduler/work_set.rs: what no history of calls undoes.
use solworker.Prelude.{
  ◌+◌, ◌<◌, ◌≤◌, ◌≡◌, refl, subst, true, false, some, List, [], ◌∷◌, arith, length, word_mod, inl,
  inr, Option-cases,
}
use solworker.WorkSet.{
  WorkSet, must_wait, Outcome, done, refused, stale, panicked, acquire_work, try_root_lease,
  try_child_lease, discovery, fork, seal, cancel, register_cancel, drop_lease, drop_permit,
  enter_permit, run_hook, keep_hook,
}
use solworker.WorkSet.Inv.{Inv}
use solworker.WorkSet.History.{
  Call, roots, children, discovers, forks, seals, cancels, registers, ends_lease, ends_permit,
  perform, after_call, run_set, perform-IsSafe, after_safe,
}

-- What a call cannot undo.
record Kept (s t : WorkSet) : Type 0 where
  sealed_kept : s.is_open ≡ false → t.is_open ≡ false
  cancelled_kept : s.is_cancelled ≡ true → t.is_cancelled ≡ true
  drained_kept : must_wait s ≡ false → must_wait t ≡ false

call-Kept : (s t : WorkSet) (c : Call) → Inv s → perform s c ≡ done t → Kept s t
unfolding perform try_root_lease try_child_lease acquire_work discovery fork seal cancel
    register_cancel drop_lease drop_permit enter_permit run_hook keep_hook must_wait
call-Kept s t (roots phase runtime) v h = record {
  sealed_kept = λ k. ground arith;
  cancelled_kept = λ k. ground arith;
  drained_kept = λ k. ground arith;
}
call-Kept s t (children phase runtime) v h = record {
  sealed_kept = λ k. ground arith;
  cancelled_kept = λ k. ground arith;
  drained_kept = λ k. ground (arith, v.held);
}
call-Kept s t (discovers phase) v h = record {
  sealed_kept = λ k. ground arith;
  cancelled_kept = λ k. ground arith;
  drained_kept = λ k. ground arith;
}
call-Kept s t (forks phase) v h = record {
  sealed_kept = λ k. ground arith;
  cancelled_kept = λ k. ground arith;
  drained_kept = λ k. ground (arith, v.held);
}
call-Kept s t seals v h = record {
  sealed_kept = λ k. ground arith;
  cancelled_kept = λ k. ground arith;
  drained_kept = λ k. ground arith;
}
call-Kept s t cancels v h = record {
  sealed_kept = λ k. ground arith;
  cancelled_kept = λ k. ground arith;
  drained_kept = λ k. ground arith;
}
call-Kept s t (registers i hook) v h = record {
  sealed_kept = λ k. ground arith;
  cancelled_kept = λ k. ground arith;
  drained_kept = λ k. ground arith;
}
call-Kept s t (ends_lease i) v h = record {
  sealed_kept = λ k. ground arith;
  cancelled_kept = λ k. ground arith;
  drained_kept = λ k. ground arith;
}
call-Kept s t ends_permit v h = record {
  sealed_kept = λ k. ground arith;
  cancelled_kept = λ k. ground arith;
  drained_kept = λ k. ground arith;
}

same-Kept : (s t : WorkSet) → s ≡ t → Kept s t
same-Kept s t e =
    subst (Kept s) e
      (record { sealed_kept = λ k. k; cancelled_kept = λ k. k; drained_kept = λ k. k })

after-Kept :
    (s t : WorkSet) (o : Outcome)
    → ((u : WorkSet) → o ≡ done u → Kept s u)
    → after_call s o ≡ some t
    → Kept s t
after-Kept s t (done u) k h = k t (ground arith)
after-Kept s t (refused e) k h = same-Kept s t (ground arith)
after-Kept s t stale k h = same-Kept s t (ground arith)
after-Kept s t panicked k h = absurd (ground arith)

-- From a set that meets the invariant, no list of calls reopens a sealed set, revives a cancelled
-- set, or gives work or permits to a drained set: who waited for it need not look again.
pub run_set-Kept :
    (s t : WorkSet) (cs : List Call)
    → Inv s
    → s.next_id + length cs < word_mod
    → run_set s cs ≡ some t
    → (s.is_open ≡ false → t.is_open ≡ false)
      × (s.is_cancelled ≡ true → t.is_cancelled ≡ true)
      × (must_wait s ≡ false → must_wait t ≡ false)
unfolding run_set
run_set-Kept s t [] v h e =
    let same : s ≡ t = ground arith in (λ k. ground arith, λ k. ground arith, λ k. rw (← same) k)
run_set-Kept s t (c ∷ cs) v h e =
    let (u, f, i, n) = after_safe s (perform s c) v (perform-IsSafe s c v (omega arith)) in
    let first = after-Kept s u (perform s c) (λ w. call-Kept s w c v) f in
    let rest : run_set u cs ≡ some t = rw (f, run_set) at e in
    let (x, y, z) = run_set-Kept u t cs i (omega arith) rest in
    (λ k. x (first.sealed_kept k), λ k. y (first.cancelled_kept k), λ k. z (first.drained_kept k))

-- The counts of a set do not rise.
record Falls (s t : WorkSet) : Type 0 where
  off : t.is_cancelled ≡ true
  work_le : t.active_work ≤ s.active_work
  permits_le : t.permits ≤ s.permits

call-Falls : (s t : WorkSet) (c : Call) → s.is_cancelled ≡ true → perform s c ≡ done t → Falls s t
unfolding perform try_root_lease try_child_lease acquire_work discovery fork seal cancel
    register_cancel drop_lease drop_permit enter_permit run_hook keep_hook
call-Falls s t (roots phase runtime) h e = ground arith
call-Falls s t (children phase runtime) h e = ground arith
call-Falls s t (discovers phase) h e = ground arith
call-Falls s t (forks phase) h e = ground arith
call-Falls s t seals h e = ground arith
call-Falls s t cancels h e = ground arith
call-Falls s t (registers k hook) h e = ground arith
call-Falls s t (ends_lease k) h e = ground arith
call-Falls s t ends_permit h e = ground arith

after-Falls :
    (s t : WorkSet) (o : Outcome)
    → s.is_cancelled ≡ true
    → ((u : WorkSet) → o ≡ done u → Falls s u)
    → after_call s o ≡ some t
    → Falls s t
after-Falls s t (done u) h k e = k t (ground arith)
after-Falls s t (refused x) h k e = ground arith
after-Falls s t stale h k e = ground arith
after-Falls s t panicked h k e = absurd (ground arith)

run_set-Falls :
    (s t : WorkSet) (cs : List Call) → s.is_cancelled ≡ true → run_set s cs ≡ some t → Falls s t
unfolding run_set
run_set-Falls s t [] h e = ground arith
run_set-Falls s t (c ∷ cs) h e = elim (Option-cases (after_call s (perform s c))) [
  | inl stuck ↦ absurd (ground arith)
  | inr (u, f) ↦
      let first = after-Falls s u (perform s c) h (λ w. call-Falls s w c h) f in
      let rest : run_set u cs ≡ some t = rw (f, run_set) at e in
      let last = run_set-Falls u t cs first.off rest in
      record {
        off = last.off;
        work_le = omega (arith, first.work_le, last.work_le);
        permits_le = omega (arith, first.permits_le, last.permits_le);
      }
]

-- After a cancellation no list of calls raises the work or the permits of the set, whatever phase
-- the runtime is in.
pub run_set-cancel :
    (s t : WorkSet) (cs : List Call)
    → run_set (cancel s) cs ≡ some t
    → (t.is_cancelled ≡ true) × (t.active_work ≤ s.active_work) × (t.permits ≤ s.permits)
unfolding cancel
run_set-cancel s t cs e =
    let f = run_set-Falls (cancel s) t cs refl e in (f.off, f.work_le, f.permits_le)
