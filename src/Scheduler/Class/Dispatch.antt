-- ===== src/Scheduler/Class/Dispatch.antt =====
-- src/scheduler.rs: `dispatch_class_ready` and the return of the handoff slots.
use solworker.Prelude.{
  ℕ, zero, suc, ◌+◌, ◌≤◌, ◌≡◌, refl, true, false, some, List, [], ◌∷◌, arith, inl, inr, Bool-cases,
  Option-cases, ==_iff, length,
}
use solworker.Ready.Queue.{PendingQueue}
use solworker.Ready.Queue.Members.{Popped, pop-Popped, has-remove_id}
use solworker.Ready.Queue.Removal.{remove_id-Inv}
use solworker.Ready.ReadyQueue.{ReadyQueue, pop_ready}
use solworker.Range.{quantum}
use solworker.Scheduler.Class.{
  ClassState, ClassLimits, JobRecord, ready, handed, record_of, put_record,
}
use solworker.Scheduler.Class.Promote.{promote_locked}
use solworker.Scheduler.Class.Settle.{hand_off, select_ready, available_slots, dispatch}
use solworker.Scheduler.Class.Views.{in_stage, Sound}
use solworker.Scheduler.Class.Inv.{Inv, Move, Move-Inv}
use solworker.Scheduler.Class.Window.{record_in}
use solworker.Scheduler.Class.Repair.{pop_of}
use solworker.Scheduler.Class.Promoted.{promote_locked-Filled}

handed-Sound :
    (r : JobRecord) → Sound r → in_stage ready (some r) ≡ true → Sound (record r { stage = handed })
handed-Sound r s stays = record {
  queued_closed = λ k. s.queued_closed (ground arith);
  selected = s.selected;
  keyed = s.keyed;
  ranked = s.ranked;
  reserving = s.reserving;
  index_kept = ground (arith, s.index_kept);
  course_kept = ground (arith, s.course_kept);
}

hand_off-Move :
    (c : ClassState) (id : ℕ) (q : PendingQueue) (r : JobRecord)
    → Inv [] c
    → Popped c.ready_queue.pending id q
    → record_of id c ≡ some r
    → in_stage ready (some r) ≡ true
    → Move [] [] c
        (hand_off (record c { ready_queue = record (c.ready_queue) { pending = q } }) id r)
        id
        r
        (record r { stage = handed })
unfolding hand_off put_record
hand_off-Move c id q r v p was stays = record {
  was = was;
  jobs_now = refl;
  ready_inv = rw p.left (remove_id-Inv c.ready_queue.pending id v.ready_inv);
  deferred_inv = v.deferred_inv;
  ready_now = λ j. rw p.left (ground (arith, has-remove_id c.ready_queue.pending id j));
  deferred_now = λ j. ground (arith, v.deferred_there j, was, ==_iff id j);
  runnable_now = ground (arith, stays);
  attaching_now = refl;
  slots_now = omega arith;
  next_same = refl;
  sound_now = handed-Sound r (v.sound id r was) stays;
  outcomes_now = λ j. refl;
  updates_same = refl;
  attached_now = λ j. ground (arith, v.attached j, was, ==_iff id j);
}

-- The class after some jobs were handed off.
pub record Handed (c d : ClassState) (ids : List ℕ) : Type 0 where
  pub inv : Inv [] d
  pub counted : d.ready_queue.handed_off ≡ c.ready_queue.handed_off + length ids

select_step :
    (available : ℕ) (c d : ClassState) (id : ℕ) (q : ReadyQueue) (p : PendingQueue) (r : JobRecord)
    (ids : List ℕ)
    → pop_ready c.ready_queue ≡ some (id, q)
    → q ≡ record (c.ready_queue) { pending = p }
    → record_of id c ≡ some r
    → select_ready available
        (hand_off (record c { ready_queue = record (c.ready_queue) { pending = p } }) id r)
      ≡ some (d, ids)
    → select_ready (suc available) c ≡ some (d, id ∷ ids)
unfolding select_ready
select_step available c d id q p r ids e f was h = rw (e, select_ready, was, f, h)

-- The rest of the loop, after one job was handed off.
abbrev Rest : ℕ → ClassState → Type 0
Rest available c =
    (d : ClassState) × (ids : List ℕ) × (select_ready available c ≡ some (d, ids))
    × Handed c d ids
    × (length ids ≤ available)

select_next :
    (available : ℕ) (c : ClassState) (id : ℕ) (q : ReadyQueue) (p : PendingQueue) (r : JobRecord)
    → record_of id c ≡ some r
    → pop_ready c.ready_queue ≡ some (id, q)
    → q ≡ record (c.ready_queue) { pending = p }
    → Rest available
        (hand_off (record c { ready_queue = record (c.ready_queue) { pending = p } }) id r)
    → Rest (suc available) c
unfolding hand_off
select_next available c id q p r was e same (d, ids, k, x, short) = (
  d,
  id ∷ ids,
  select_step available c d id q p r ids e same was k,
  record { inv = x.inv; counted = omega (arith, x.counted) },
  omega (arith, short),
)

pub select_ready-Handed : (available : ℕ) (c : ClassState) → Inv [] c → Rest available c
unfolding select_ready
select_ready-Handed zero c v = (c, [], refl, record { inv = v; counted = omega arith }, omega arith)
select_ready-Handed (suc available) c v = elim (Option-cases (pop_ready c.ready_queue)) [
  | inl nothing ↦
      (c, [], rw (nothing, select_ready), record { inv = v; counted = omega arith }, omega arith)
  | inr ((id, q), e) ↦
      let (p, f, same) = pop_of c.ready_queue id q e in
      let w = pop-Popped c.ready_queue.pending p id v.ready_inv f in
      let (r, was, stays) =
        record_in (record_of id c) ready (ground (arith, v.ready_there id, w.member)) in
      select_next available c id q p r was e same (
        select_ready-Handed available
          (hand_off (record c { ready_queue = record (c.ready_queue) { pending = p } }) id r)
          (Move-Inv [] [] c
            (hand_off (record c { ready_queue = record (c.ready_queue) { pending = p } }) id r) id r
            (record r { stage = handed }) v (hand_off-Move c id p r v w was stays)))
]

halted : (l : ClassLimits) (c : ClassState) → c.is_abandoned ≡ true → dispatch l c ≡ some (c, [])
unfolding dispatch
halted l c h = ground arith

proceeds :
    (l : ClassLimits) (c b d : ClassState) (ids : List ℕ)
    → c.is_abandoned ≡ false
    → promote_locked l c ≡ some b
    → select_ready (available_slots l b) b ≡ some (d, ids)
    → dispatch l c ≡ some (d, ids)
unfolding dispatch
proceeds l c b d ids alive e f = ground (arith, alive, e, f)

at_most : (l : ClassLimits) (b : ClassState) (n : ℕ) → n ≤ available_slots l b → n ≤ quantum
unfolding available_slots
at_most l b n h = ground arith

within :
    (l : ClassLimits) (c b d : ClassState) (n : ℕ)
    → n ≤ available_slots l b
    → d.ready_queue.handed_off ≡ b.ready_queue.handed_off + n
    → b.ready_queue.handed_off ≡ c.ready_queue.handed_off
    → c.ready_queue.handed_off ≤ l.handoff_limit
    → d.ready_queue.handed_off ≤ l.handoff_limit
unfolding available_slots
within l c b d n h e f g = ground arith

-- One round of `dispatch_class_ready`, from a class that meets the invariant, does not panic and keeps
-- the invariant; it hands off at most a quantum of jobs, each of which takes a slot, and from within
-- the handoff limit it stays within that limit.
pub dispatch-Handed :
    (l : ClassLimits) (c : ClassState)
    → Inv [] c
    → (d : ClassState) × (ids : List ℕ) × (dispatch l c ≡ some (d, ids))
      × Handed c d ids
      × (length ids ≤ quantum)
      × (c.ready_queue.handed_off ≤ l.handoff_limit → d.ready_queue.handed_off ≤ l.handoff_limit)
dispatch-Handed l c v = elim (Bool-cases c.is_abandoned) [
  | inl cut ↦
      (c, [], halted l c cut, record { inv = v; counted = omega arith }, omega arith, λ h. h)
  | inr alive ↦
      let (b, e, x) = promote_locked-Filled l c v in
      let (d, ids, f, y, short) = select_ready-Handed (available_slots l b) b x.inv in
      (
        d,
        ids,
        proceeds l c b d ids alive e f,
        record { inv = y.inv; counted = omega (arith, y.counted, x.same.handed_same) },
        at_most l b (length ids) short,
        λ h. within l c b d (length ids) short y.counted x.same.handed_same h,
      )
]
