-- ===== src/Scheduler/Class/Slots.antt =====
-- src/scheduler.rs: the operations that leave the records and the queues alone.
use solworker.Prelude.{
  ℕ, ◌-◌, ◌≤◌, ◌≡◌, refl, true, false, some, List, [], ◌∷◌, arith, inl, inr, Bool-cases,
  Option-cases, ◌==◌, ltb,
}
use solworker.Demand.Selection.{Selection}
use solworker.Ready.Maps.{lookup, insert, remove}
use solworker.Scheduler.Class.{ClassState}
use solworker.Scheduler.Class.Settle.{return_slots, post_update, abandon}
use solworker.Scheduler.Class.Views.{has_rank}
use solworker.Scheduler.Class.Inv.{Inv, Inv-aside, RankedUpdates}

pub RankedUpdates-insert :
    (id : ℕ) (s : Selection) (updates : List (ℕ × Selection))
    → has_rank (some s) ≡ true
    → RankedUpdates updates
    → RankedUpdates (insert id s updates)
unfolding insert
RankedUpdates-insert id s [] h v = (h, tt)
RankedUpdates-insert id s ((j, t) ∷ updates) h v = elim (Bool-cases (j == id)) [
  | inl hit ↦ simp hit (h, v.1)
  | inr miss ↦ simp miss (v.0, RankedUpdates-insert id s updates h v.1)
]

pub RankedUpdates-remove :
    (id : ℕ) (updates : List (ℕ × Selection))
    → RankedUpdates updates
    → RankedUpdates (remove id updates)
unfolding remove
RankedUpdates-remove id [] v = tt
RankedUpdates-remove id ((j, t) ∷ updates) v = elim (Bool-cases (j == id)) [
  | inl hit ↦ simp hit (RankedUpdates-remove id updates v.1)
  | inr miss ↦ simp miss (v.0, RankedUpdates-remove id updates v.1)
]

posted-Inv :
    (c : ClassState) (id : ℕ) (s : Selection)
    → Inv [] c
    → has_rank (some s) ≡ true
    → Inv [] (record c { updates = insert id s c.updates })
posted-Inv c id s v h =
    Inv-aside [] c (record c { updates = insert id s c.updates }) v
      (refl, refl, refl, refl, refl, refl, refl, refl) v.slots_counted
      (RankedUpdates-insert id s c.updates h v.updates_ranked)

-- The mailbox takes a selection that has a rank.
pub post_update-Inv :
    (c : ClassState) (id : ℕ) (s : Selection)
    → Inv [] c
    → has_rank (some s) ≡ true
    → Inv [] (post_update c id s)
unfolding post_update
post_update-Inv c id s v h = elim (Option-cases (lookup id c.updates)) [
  | inl new ↦ rw (new, post_update) (posted-Inv c id s v h)
  | inr (old, e) ↦ elim (Bool-cases (ltb old.version s.version)) [
    | inl newer ↦ rw (e, post_update, newer) (posted-Inv c id s v h)
    | inr older ↦ rw (e, post_update, older) v
  ]
]

pub abandon-Inv : (c : ClassState) → Inv [] c → Inv [] (abandon c)
unfolding abandon
abandon-Inv c v =
    Inv-aside [] c (abandon c) v (refl, refl, refl, refl, refl, refl, refl, refl) v.slots_counted
      v.updates_ranked

-- The return of handoff slots, from a class that meets the invariant, does not panic, keeps the
-- invariant and does not raise the handoff count.
pub return_slots-Inv :
    (c : ClassState) (n : ℕ)
    → Inv [] c
    → (d : ClassState) × (return_slots c n ≡ some d)
      × Inv [] d
      × (d.ready_queue.handed_off ≤ c.ready_queue.handed_off)
unfolding return_slots
return_slots-Inv c n v = elim (Bool-cases (ltb c.slots n)) [
  | inl more ↦ (c, rw more, v, omega arith)
  | inr held ↦
      let fits : ltb c.ready_queue.handed_off n ≡ false = ground (arith, v.slots_counted) in
      (
        record c {
          ready_queue = record (c.ready_queue) { handed_off = c.ready_queue.handed_off - n };
          slots = c.slots - n;
        },
        rw (held, fits),
        Inv-aside [] c _ v (refl, refl, refl, refl, refl, refl, refl, refl)
            (ground (arith, v.slots_counted)) v.updates_ranked,
        omega arith,
      )
]
