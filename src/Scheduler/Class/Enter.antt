-- ===== src/Scheduler/Class/Enter.antt =====
-- src/scheduler.rs: how a record enters the ready queue or the deferred queue.
use solworker.Prelude.{
  ℕ, ◌+◌, ◌≡◌, refl, true, false, ◌||◌, Option, none, some, List, ◌==◌, ==_iff, if◌then◌else◌,
  arith, inl, inr, Bool-cases, Option-cases,
}
use solworker.Demand.Selection.{Selection}
use solworker.Ready.Maps.{insert}
use solworker.Ready.Queue.{PendingQueue}
use solworker.Ready.Queue.Inv.{Inv as QueueInv}
use solworker.Ready.Queue.Members.{has, IsRanked, Grown, push-Grown}
use solworker.Ready.ReadyQueue.{push_runnable}
use solworker.Scheduler.Class.{
  ClassState, JobRecord, Stage, waiting, ready, deferred_ready, record_of, put_record, indexed_as,
  index_group, queue_key, enqueue_ready, push_ready, push_deferred, note_mixed,
}
use solworker.Scheduler.Class.Views.{in_stage, has_rank, Sound}
use solworker.Scheduler.Class.Inv.{Inv, Move, in_hand}

pub queue_key-IsRanked :
    (r : JobRecord)
    → (r.resource ≡ true → has_rank r.selection ≡ true)
    → (key : Option Selection) × (queue_key r ≡ some key) × IsRanked key
unfolding queue_key
queue_key-IsRanked r h = elim (Bool-cases r.resource) [
  | inr plain ↦ (none, ground arith, tt)
  | inl res ↦ elim (Option-cases r.selection) [
    | inl e ↦ absurd (ground arith)
    | inr (s, e) ↦ elim (Option-cases s.priority) [
      | inl f ↦ absurd (ground arith)
      | inr (rank, f) ↦ (some s, ground arith, (rank, f))
    ]
  ]
]

abbrev pub ready_with : ClassState → PendingQueue → ClassState
ready_with c q = record c {
  ready_queue = record (c.ready_queue) { pending = q; runnable = c.ready_queue.runnable + 1 };
}

pub enqueue_ready_lem :
    (c : ClassState) (id : ℕ) (r : JobRecord)
    → (r.resource ≡ true → has_rank r.selection ≡ true)
    → QueueInv c.ready_queue.pending
    → has id c.ready_queue.pending ≡ false
    → (q : PendingQueue) × (enqueue_ready c id r ≡ some (ready_with c q))
      × Grown c.ready_queue.pending q id
unfolding enqueue_ready push_runnable
enqueue_ready_lem c id r h v new =
    let (key, e, k) = queue_key-IsRanked r h in
    let (q, f, g) = push-Grown c.ready_queue.pending id key v k new in
    (q, rw (e, enqueue_ready, f), g)

indexed_as-Sound :
    (r : JobRecord)
    → Sound r
    → r.attaching ≡ false
    → (in_stage waiting (some r) || in_stage deferred_ready (some r)) ≡ true
    → Sound (indexed_as r ready)
unfolding indexed_as
indexed_as-Sound r s shut entering = record {
  queued_closed = λ h. ground (arith, shut);
  selected = λ h k. ground (arith, s.selected);
  keyed = s.keyed;
  ranked = s.ranked;
  reserving = s.reserving;
  index_kept = ground (arith, s.index_kept, entering);
  course_kept = ground (arith, s.course_kept, entering, shut);
}

-- A closed member of a group is registered.
pub index_group_closed :
    (r : JobRecord) (stage : Stage)
    → Sound r
    → r.attaching ≡ false
    → index_group r stage ≡ some (indexed_as r stage)
unfolding index_group
index_group_closed r stage s shut = ground (arith, shut, s.keyed)

-- A closed record that waits, or that the deferred queue has given up, enters the ready queue.
pub enter_ready-Move :
    (taken : List (ℕ × Option Selection)) (c b d : ClassState) (id : ℕ) (r : JobRecord)
    (q : PendingQueue)
    → Inv taken c
    → record_of id c ≡ some r
    → r.attaching ≡ false
    → (in_stage waiting (some r) || in_stage deferred_ready (some r)) ≡ true
    → b.jobs ≡ insert id (some (indexed_as r ready)) c.jobs
    → b.ready_queue ≡ c.ready_queue
    → QueueInv b.deferred
    → ((j : ℕ)
        → (has j b.deferred || in_hand j taken)
          ≡ (if id == j then false else has j c.deferred || in_hand j taken))
    → (b.attaching_runnable ≡ c.attaching_runnable)
      × (b.slots ≡ c.slots)
      × (b.next_id ≡ c.next_id)
      × (b.outcomes ≡ c.outcomes)
      × (b.updates ≡ c.updates)
      × (b.attachments ≡ c.attachments)
    → Grown c.ready_queue.pending q id
    → d ≡ ready_with b q
    → Move taken taken c d id r (indexed_as r ready)
unfolding indexed_as
enter_ready-Move taken c b d id r q v was shut entering jobs queue dv deferred same g e = record {
  was = was;
  jobs_now = ground (arith, jobs);
  ready_inv = rw e g.inv;
  deferred_inv = rw e dv;
  ready_now = λ j. ground (arith, g.members j);
  deferred_now = λ j. ground (arith, deferred j, entering);
  runnable_now = ground (arith, entering);
  attaching_now = ground (arith, same);
  slots_now = ground (arith, same);
  next_same = ground (arith, same);
  sound_now = indexed_as-Sound r (v.sound id r was) shut entering;
  outcomes_now = λ j. ground (arith, same);
  updates_same = ground (arith, same);
  attached_now = λ j. ground (arith, same, v.attached j, was, ==_iff id j);
}

-- `push_ready` of a closed record that waits does not panic.
pub push_ready-Move :
    (taken : List (ℕ × Option Selection)) (c : ClassState) (id : ℕ) (r : JobRecord)
    → Inv taken c
    → record_of id c ≡ some r
    → r.attaching ≡ false
    → in_stage waiting (some r) ≡ true
    → (d : ClassState) × (push_ready c id r ≡ some d)
      × Move taken taken c d id r (indexed_as r ready)
      × (d.ready_queue.handed_off ≡ c.ready_queue.handed_off)
unfolding push_ready put_record
push_ready-Move taken c id r v was shut stays =
    let b = put_record (record c { rebalance = true }) id (indexed_as r ready) in
    let absent : has id c.ready_queue.pending ≡ false = ground (arith, v.ready_there id) in
    let (q, e, g) =
      enqueue_ready_lem b id r (λ h. (v.sound id r was).selected h shut) v.ready_inv absent in
    (
      ready_with b q,
      rw (index_group_closed r ready (v.sound id r was) shut, push_ready) e,
      enter_ready-Move taken c b (ready_with b q) id r q v was shut (ground arith) refl refl
          v.deferred_inv (λ j. ground (arith, v.deferred_there j, was, ==_iff id j))
          (refl, refl, refl, refl, refl, refl) g refl,
      refl,
    )

deferred-Sound :
    (r : JobRecord)
    → Sound r
    → r.attaching ≡ false
    → in_stage waiting (some r) ≡ true
    → Sound (record r { stage = deferred_ready })
deferred-Sound r s shut stays = record {
  queued_closed = λ h. shut;
  selected = s.selected;
  keyed = s.keyed;
  ranked = s.ranked;
  reserving = s.reserving;
  index_kept = ground (arith, s.index_kept);
  course_kept = ground (arith, s.course_kept);
}

-- `push_deferred` of a closed record that waits does not panic.
pub push_deferred-Move :
    (taken : List (ℕ × Option Selection)) (c : ClassState) (id : ℕ) (r : JobRecord)
    → Inv taken c
    → record_of id c ≡ some r
    → r.attaching ≡ false
    → in_stage waiting (some r) ≡ true
    → (d : ClassState) × (push_deferred c id r ≡ some d)
      × Move taken taken c d id r (record r { stage = deferred_ready })
      × (d.ready_queue.handed_off ≡ c.ready_queue.handed_off)
unfolding push_deferred put_record note_mixed
push_deferred-Move taken c id r v was shut stays =
    let absent : has id c.deferred ≡ false = ground (arith, v.deferred_there id) in
    let (key, e, k) = queue_key-IsRanked r (λ h. (v.sound id r was).selected h shut) in
    let (q, f, g) = push-Grown c.deferred id key v.deferred_inv k absent in
    (
      note_mixed (record (put_record c id (record r { stage = deferred_ready })) { deferred = q })
          r.resource,
      rw (e, push_deferred, f),
      record {
        was = was;
        jobs_now = refl;
        ready_inv = v.ready_inv;
        deferred_inv = g.inv;
        ready_now = λ j. ground (arith, v.ready_there j, was, ==_iff id j);
        deferred_now = λ j. ground (arith, g.members j);
        runnable_now = ground (arith, stays);
        attaching_now = refl;
        slots_now = omega arith;
        next_same = refl;
        sound_now = deferred-Sound r (v.sound id r was) shut stays;
        outcomes_now = λ j. refl;
        updates_same = refl;
        attached_now = λ j. ground (arith, v.attached j, was, ==_iff id j);
      },
      refl,
    )
