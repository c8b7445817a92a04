-- ===== src/WorkSet/Inv.antt =====
-- src/scheduler/work_set.rs: what the counts of a set and its living handles agree on.
use solworker.Prelude.{
  ℕ, suc, ◌+◌, ◌<◌, ◌≤◌, ◌≡◌, true, false, some, List, [], ◌∷◌, arith, ◌==◌, length, Bool-cases,
  refl, inl, inr, word_mod, checked_add, leb,
}
use solworker.Ready.Maps.{lookup}
use solworker.WorkSet.{
  WorkSet, new_set, Outcome, DiscoveryError, done, refused, stale, has_lease, end_lease, enter_work,
  enter_permit,
}

pub record Inv (s : WorkSet) : Type 0 where
  pub counted : s.active_work ≡ length s.live_leases
  pub named : s.active_work < s.next_id
  pub held : s.permits ≡ s.live_permits
  pub capped : s.permits ≤ s.permit_capacity
  pub shut : s.is_cancelled ≡ true → s.is_open ≡ false
  pub taken : s.is_cancelled ≡ true → s.cancel_hooks ≡ []
  pub attached :
      (k hook : ℕ) → lookup k s.cancel_hooks ≡ some hook → has_lease k s.live_leases ≡ true

-- The call keeps the invariant and uses at most one identity, or refuses; it does not panic.
pub data IsSafe (s : WorkSet) : Outcome → Type 0 where
  accepted : (t : WorkSet) → Inv t → t.next_id ≤ s.next_id + 1 → IsSafe s (done t)
  turned_away : (e : DiscoveryError) → IsSafe s (refused e)
  dead_handle : IsSafe s stale

pub new_set-Inv : (identity permit_capacity : ℕ) → Inv (new_set identity permit_capacity)
unfolding new_set lookup
new_set-Inv identity permit_capacity = record {
  counted = omega arith;
  named = omega arith;
  held = omega arith;
  capped = omega arith;
  shut = λ h. ground arith;
  taken = λ h. ground arith;
  attached = λ k hook h. ground arith;
}

pub end_lease_counts :
    (k : ℕ) (leases : List ℕ)
    → has_lease k leases ≡ true
    → length leases ≡ suc (length (end_lease k leases))
end_lease_counts k [] h = absurd (ground arith)
end_lease_counts k (j ∷ leases) h = ground (arith, end_lease_counts k leases)

pub end_lease_others :
    (k j : ℕ) (leases : List ℕ)
    → (k == j) ≡ false
    → has_lease j (end_lease k leases) ≡ has_lease j leases
end_lease_others k j [] h = refl
end_lease_others k j (i ∷ leases) h = ground (arith, end_lease_others k j leases)

pub enter_work-IsSafe :
    (s : WorkSet)
    → Inv s
    → s.is_cancelled ≡ false
    → s.next_id + 1 < word_mod
    → IsSafe s (enter_work s (checked_add s.active_work 1) (checked_add s.next_id 1))
enter_work-IsSafe s v on h =
    let work : checked_add s.active_work 1 ≡ some (s.active_work + 1) = ground (arith, v.named) in
    let next : checked_add s.next_id 1 ≡ some (s.next_id + 1) = ground arith in
    rw (work, next)
      (accepted _
        (record {
          counted = omega (arith, v.counted);
          named = omega (arith, v.named);
          held = v.held;
          capped = v.capped;
          shut = v.shut;
          taken = v.taken;
          attached = λ k hook there. ground (arith, v.attached k hook);
        })
        (omega arith))

pub enter_permit-IsSafe : (s : WorkSet) → Inv s → IsSafe s (enter_permit s)
unfolding enter_permit
enter_permit-IsSafe s v = elim (Bool-cases (leb s.permit_capacity s.permits)) [
  | inl h0 ↦ simp (h0) (turned_away _)
  | inr h0 ↦ simp (h0) (
      accepted _
        (record {
          counted = v.counted;
          named = v.named;
          held = omega (arith, v.held);
          capped = ground arith;
          shut = v.shut;
          taken = v.taken;
          attached = v.attached;
        })
        (omega arith))
]
