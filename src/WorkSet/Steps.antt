-- ===== src/WorkSet/Steps.antt =====
-- src/scheduler/work_set.rs: every call on a set keeps its invariant.
use solworker.Prelude.{
  ℕ, ◌+◌, ◌-◌, ◌<◌, ◌≤◌, ◌≡◌, Bool, true, false, not, ◌||◌, ◌&&◌, Option, arith, ◌==◌, ==_iff,
  Bool-cases, refl, inl, inr, word_mod,
}
use solworker.Ready.Maps.{lookup, remove, lookup-insert, lookup-remove}
use solworker.WorkSet.{
  WorkSet, done, RuntimeState, acquire_work, try_child_lease, discovery, fork, seal, cancel,
  register_cancel, drop_lease, drop_permit, has_lease, end_lease, run_hook, keep_hook,
  runtime_accepts,
}
use solworker.WorkSet.Inv.{
  Inv, IsSafe, accepted, turned_away, dead_handle, end_lease_counts, end_lease_others,
  enter_work-IsSafe, enter_permit-IsSafe,
}

pub acquire_work-IsSafe :
    (s : WorkSet) (phase : Option RuntimeState) (runtime : ℕ) (root : Bool)
    → Inv s
    → s.next_id + 1 < word_mod
    → IsSafe s (acquire_work s phase runtime root)
unfolding acquire_work
acquire_work-IsSafe s phase runtime root v h =
    elim (Bool-cases (not (s.identity == runtime) || not (runtime_accepts phase root))) [
      | inl h0 ↦ simp (h0) (turned_away _)
      | inr h0 ↦ elim (Bool-cases (s.is_cancelled)) [
        | inl h1 ↦ simp (h0, h1) (turned_away _)
        | inr h1 ↦ elim (Bool-cases (root && not s.is_open)) [
          | inl h2 ↦ simp (h0, h1, h2) (turned_away _)
          | inr h2 ↦ simp (h0, h1, h2) (enter_work-IsSafe s v h1 h)
        ]
      ]
    ]

pub try_child_lease-IsSafe :
    (s : WorkSet) (phase : Option RuntimeState) (runtime : ℕ)
    → Inv s
    → s.next_id + 1 < word_mod
    → IsSafe s (try_child_lease s phase runtime)
unfolding try_child_lease
try_child_lease-IsSafe s phase runtime v h = elim (Bool-cases (s.live_permits == 0)) [
  | inl h0 ↦ simp (h0) (dead_handle)
  | inr h0 ↦ simp (h0) (acquire_work-IsSafe s phase runtime false v h)
]

pub discovery-IsSafe :
    (s : WorkSet) (phase : Option RuntimeState) → Inv s → IsSafe s (discovery s phase)
unfolding discovery
discovery-IsSafe s phase v = elim (Bool-cases (not (runtime_accepts phase true))) [
  | inl h0 ↦ simp (h0) (turned_away _)
  | inr h0 ↦ elim (Bool-cases (s.is_cancelled)) [
    | inl h1 ↦ simp (h0, h1) (turned_away _)
    | inr h1 ↦ elim (Bool-cases (not s.is_open)) [
      | inl h2 ↦ simp (h0, h1, h2) (turned_away _)
      | inr h2 ↦ simp (h0, h1, h2) (enter_permit-IsSafe s v)
    ]
  ]
]

pub fork-IsSafe : (s : WorkSet) (phase : Option RuntimeState) → Inv s → IsSafe s (fork s phase)
unfolding fork
fork-IsSafe s phase v = elim (Bool-cases (s.live_permits == 0)) [
  | inl h0 ↦ simp (h0) (dead_handle)
  | inr h0 ↦ elim (Bool-cases (not (runtime_accepts phase false))) [
    | inl h1 ↦ simp (h0, h1) (turned_away _)
    | inr h1 ↦ elim (Bool-cases (s.is_cancelled)) [
      | inl h2 ↦ simp (h0, h1, h2) (turned_away _)
      | inr h2 ↦ simp (h0, h1, h2) (enter_permit-IsSafe s v)
    ]
  ]
]

pub seal-Inv : (s : WorkSet) → Inv s → Inv (seal s)
unfolding seal
seal-Inv s v = record {
  counted = v.counted;
  named = v.named;
  held = v.held;
  capped = v.capped;
  shut = λ h. refl;
  taken = v.taken;
  attached = v.attached;
}

pub cancel-Inv : (s : WorkSet) → Inv s → Inv (cancel s)
unfolding cancel lookup
cancel-Inv s v = record {
  counted = v.counted;
  named = v.named;
  held = v.held;
  capped = v.capped;
  shut = λ h. refl;
  taken = λ h. refl;
  attached = λ k hook h. ground arith;
}

keep_hook-Inv :
    (s : WorkSet) (k hook : ℕ)
    → Inv s
    → has_lease k s.live_leases ≡ true
    → s.is_cancelled ≡ false
    → Inv (keep_hook s k hook)
unfolding keep_hook
keep_hook-Inv s k hook v there on = record {
  counted = v.counted;
  named = v.named;
  held = v.held;
  capped = v.capped;
  shut = v.shut;
  taken = λ off. ground arith;
  attached = λ j other h.
      ground (arith, lookup-insert k j hook s.cancel_hooks, v.attached j other, ==_iff k j);
}

run_hook-IsSafe : (s : WorkSet) (hook : ℕ) → Inv s → IsSafe s (done (run_hook s hook))
unfolding run_hook
run_hook-IsSafe s hook v =
    accepted _
      (record {
        counted = v.counted;
        named = v.named;
        held = v.held;
        capped = v.capped;
        shut = v.shut;
        taken = v.taken;
        attached = v.attached;
      })
      (omega arith)

keep_hook-next : (s : WorkSet) (k hook : ℕ) → (keep_hook s k hook).next_id ≤ s.next_id + 1
unfolding keep_hook
keep_hook-next s k hook = omega arith

pub register_cancel-IsSafe :
    (s : WorkSet) (k hook : ℕ) → Inv s → IsSafe s (register_cancel s k hook)
unfolding register_cancel
register_cancel-IsSafe s k hook v = elim (Bool-cases (not (has_lease k s.live_leases))) [
  | inl h0 ↦ simp (h0) (dead_handle)
  | inr h0 ↦ elim (Bool-cases (s.is_cancelled)) [
    | inl h1 ↦ simp (h0, h1) (run_hook-IsSafe s hook v)
    | inr h1 ↦
        simp (h0, h1)
          (accepted _ (keep_hook-Inv s k hook v (ground arith) h1) (keep_hook-next s k hook))
  ]
]

lease_ended-Inv :
    (s : WorkSet) (k : ℕ)
    → Inv s
    → has_lease k s.live_leases ≡ true
    → Inv (record s {
      active_work = s.active_work - 1;
      cancel_hooks = remove k s.cancel_hooks;
      live_leases = end_lease k s.live_leases;
    })
unfolding remove
lease_ended-Inv s k v there =
    let one_less = end_lease_counts k s.live_leases there in
    record {
      counted = omega (arith, v.counted);
      named = omega (arith, v.named, v.counted);
      held = v.held;
      capped = v.capped;
      shut = v.shut;
      taken = λ off. rw (v.taken off);
      attached = λ j hook h. ground (
        arith,
        lookup-remove k j s.cancel_hooks,
        v.attached j hook,
        end_lease_others k j s.live_leases,
      );
    }

pub drop_lease-IsSafe : (s : WorkSet) (k : ℕ) → Inv s → IsSafe s (drop_lease s k)
unfolding drop_lease
drop_lease-IsSafe s k v = elim (Bool-cases (not (has_lease k s.live_leases))) [
  | inl h0 ↦ simp (h0) (dead_handle)
  | inr h0 ↦ elim (Bool-cases (s.active_work == 0)) [
    | inl h1 ↦ simp (h0, h1) (absurd (ground (arith, v.counted, end_lease_counts k s.live_leases)))
    | inr h1 ↦ simp (h0, h1) (accepted _ (lease_ended-Inv s k v (ground arith)) (omega arith))
  ]
]

pub drop_permit-IsSafe : (s : WorkSet) → Inv s → IsSafe s (drop_permit s)
unfolding drop_permit
drop_permit-IsSafe s v = elim (Bool-cases (s.live_permits == 0)) [
  | inl h0 ↦ simp (h0) (dead_handle)
  | inr h0 ↦ elim (Bool-cases (s.permits == 0)) [
    | inl h1 ↦ simp (h0, h1) (absurd (ground (arith, v.held)))
    | inr h1 ↦
        simp (h0, h1)
          (accepted _
            (record {
              counted = v.counted;
              named = v.named;
              held = omega (arith, v.held);
              capped = omega (arith, v.capped);
              shut = v.shut;
              taken = v.taken;
              attached = v.attached;
            })
            (omega arith))
  ]
]
