-- ===== src/Scheduler/Class/Repair.antt =====
-- src/scheduler.rs, `promote_locked`: the repair, which moves the ready queue back to the deferred queue.
use solworker.Prelude.{
  ℕ, zero, suc, ◌+◌, ◌-◌, ◌≤◌, ◌<◌, ◌≡◌, refl, ◌∙◌, true, false, ◌&&◌, not, Option, none, some,
  List, [], ◌∷◌, ◌==◌, ==_iff, arith, inl, inr, Bool-cases, Option-cases,
}
use solworker.Demand.Selection.{Selection}
use solworker.Ready.Queue.{PendingQueue, pop, is_empty}
use solworker.Ready.Queue.Members.{
  has, IsRanked, Grown, has-remove_id, Popped, pop-Popped, push_front-Grown,
}
use solworker.Ready.Queue.Removal.{remove_id-Inv}
use solworker.Ready.ReadyQueue.{ReadyQueue, pop_ready}
use solworker.Scheduler.Class.{
  ClassState, JobRecord, ready, deferred_ready, record_of, put_record, unindex_group, queue_key,
}
use solworker.Scheduler.Class.Promote.{
  drop_runnable, unready, unready_record, drain_ready, restore_deferred, restore_drained, repair,
  entries_of,
}
use solworker.Scheduler.Class.Views.{in_stage, runnable_weight, Sound, total, total-insert}
use solworker.Scheduler.Class.Inv.{Inv, Move, Move-Inv, in_hand, put-Tame, jobs-Tame}
use solworker.Scheduler.Class.Enter.{queue_key-IsRanked}
use solworker.Scheduler.Class.Window.{
  Same, Same-refl, Same-fields, Same-trans, record_in, pop-fewer,
}

-- What the repair has in hand can enter the deferred queue.
abbrev pub Loose : PendingQueue → List (ℕ × Option Selection) → Type 0
Loose q [] = Unit {0}
Loose q ((id, key) ∷ taken) =
    (IsRanked key × (in_hand id taken ≡ false) × (has id q ≡ false)) × Loose q taken

Loose-Grown :
    (q r : PendingQueue) (id : ℕ) (taken : List (ℕ × Option Selection))
    → Loose q taken
    → in_hand id taken ≡ false
    → Grown q r id
    → Loose r taken
Loose-Grown q r id [] l h g = tt
Loose-Grown q r id ((j, key) ∷ taken) l h g = (
  (l.0.0, l.0.1, ground (arith, g.members j, l.0.2, ==_iff id j)),
  Loose-Grown q r id taken l.1 (ground arith) g,
)

-- A record that counts as runnable is counted.
pub counted :
    (w : Option JobRecord → ℕ) (c : ClassState) (id : ℕ) (r : JobRecord)
    → w none ≡ 0
    → record_of id c ≡ some r
    → w (some r) ≤ total w c.jobs
unfolding record_of
counted w c id r z e =
    let t = total-insert w id none c.jobs z in let u = rw e at t in omega (arith, u, z)

unindex-Sound :
    (r : JobRecord)
    → Sound r
    → in_stage ready (some r) ≡ true
    → Sound (unindex_group r deferred_ready)
unfolding unindex_group
unindex-Sound r s stays =
    let shut : r.attaching ≡ false = s.queued_closed (ground arith) in
    record {
      queued_closed = λ h. shut;
      selected = s.selected;
      keyed = s.keyed;
      ranked = s.ranked;
      reserving = s.reserving;
      index_kept = ground (arith, s.index_kept);
      course_kept = ground (arith, s.course_kept);
    }

record Unreadied (taken : List (ℕ × Option Selection)) (c d : ClassState) (id : ℕ)
    (key : Option Selection) (q : PendingQueue) : Type 0 where
  inv : Inv ((id, key) ∷ taken) d
  same : Same c d
  loose : Loose d.deferred ((id, key) ∷ taken)
  pending_left : d.ready_queue.pending ≡ q
  one_less : d.ready_queue.runnable + 1 ≡ c.ready_queue.runnable

-- The state after a job was taken back from the ready queue.
abbrev unready_with : ClassState → ℕ → JobRecord → PendingQueue → ClassState
unready_with c id r q = record (put_record c id (unindex_group r deferred_ready)) {
  ready_queue = record (c.ready_queue) { pending = q; runnable = c.ready_queue.runnable - 1 };
}

unready_lem :
    (c : ClassState) (id : ℕ) (q : PendingQueue) (r : JobRecord) (key : Option Selection)
    → record_of id c ≡ some r
    → 1 ≤ c.ready_queue.runnable
    → queue_key r ≡ some key
    → unready (record c { ready_queue = record (c.ready_queue) { pending = q } }) id
      ≡ some (unready_with c id r q, key)
unfolding unready unready_record drop_runnable put_record record_of
unready_lem c id q r key was some_left e =
    let busy : (c.ready_queue.runnable == 0) ≡ false = ground arith in
    rw (was, unready, unready_record, busy, e)

unready-Move :
    (taken : List (ℕ × Option Selection)) (c : ClassState) (id : ℕ) (key : Option Selection)
    (q : PendingQueue) (r : JobRecord)
    → Inv taken c
    → Popped c.ready_queue.pending id q
    → record_of id c ≡ some r
    → in_stage ready (some r) ≡ true
    → 1 ≤ c.ready_queue.runnable
    → Move taken ((id, key) ∷ taken) c (unready_with c id r q) id r (unindex_group r deferred_ready)
unfolding put_record unindex_group
unready-Move taken c id key q r v p was stays some_left = record {
  was = was;
  jobs_now = refl;
  ready_inv = rw p.left (remove_id-Inv c.ready_queue.pending id v.ready_inv);
  deferred_inv = v.deferred_inv;
  ready_now = λ j. rw p.left (ground (arith, has-remove_id c.ready_queue.pending id j));
  deferred_now = λ j. ground arith;
  runnable_now = ground (arith, stays, some_left);
  attaching_now = refl;
  slots_now = omega arith;
  next_same = refl;
  sound_now = unindex-Sound r (v.sound id r was) stays;
  outcomes_now = λ j. refl;
  updates_same = refl;
  attached_now = λ j. ground (arith, v.attached j, was, ==_iff id j);
}

unindex_course : (r : JobRecord) → (unindex_group r deferred_ready).course ≡ r.course
unfolding unindex_group
unindex_course r = refl

unready_known :
    (taken : List (ℕ × Option Selection)) (c : ClassState) (id : ℕ) (q : PendingQueue)
    (r : JobRecord)
    → Inv taken c
    → Popped c.ready_queue.pending id q
    → record_of id c ≡ some r
    → in_stage ready (some r) ≡ true
    → Loose c.deferred taken
    → (d : ClassState) × (key : Option Selection) × (unready
          (record c { ready_queue = record (c.ready_queue) { pending = q } })
          id
        ≡ some (d, key))
      × Unreadied taken c d id key q
unfolding put_record
unready_known taken c id q r v p was stays l =
    let shut : r.attaching ≡ false = (v.sound id r was).queued_closed (ground arith) in
    let (key, e, k) = queue_key-IsRanked r (λ h. (v.sound id r was).selected h shut) in
    let some_left : 1 ≤ c.ready_queue.runnable =
      ground (arith, counted runnable_weight c id r refl was, v.runnable_counted) in
    (
      unready_with c id r q,
      key,
      unready_lem c id q r key was some_left e,
      record {
        inv =
            Move-Inv taken ((id, key) ∷ taken) c (unready_with c id r q) id r
              (unindex_group r deferred_ready) v
              (unready-Move taken c id key q r v p was stays some_left);
        same =
            Same-fields c (unready_with c id r q) (refl, refl, refl, refl, refl, refl)
              (put-Tame c (unready_with c id r q) id r (unindex_group r deferred_ready) was
                (unindex_course r) refl);
        loose = ((k, ground (arith, v.deferred_there id), ground (arith, v.deferred_there id)), l);
        pending_left = refl;
        one_less = omega (arith, some_left);
      },
    )

-- The class after the ready queue was drained.
record Drained (c d : ClassState) (taken : List (ℕ × Option Selection)) : Type 0 where
  inv : Inv taken d
  same : Same c d
  loose : Loose d.deferred taken
  fewer_runnable : d.ready_queue.runnable ≤ c.ready_queue.runnable

pub pop_of :
    (q : ReadyQueue) (id : ℕ) (r : ReadyQueue)
    → pop_ready q ≡ some (id, r)
    → (p : PendingQueue) × (pop q.pending ≡ some (id, p)) × (r ≡ record q { pending = p })
unfolding pop_ready
pop_of q id r h = elim (Option-cases (pop q.pending)) [
  | inl e ↦ absurd (ground arith)
  | inr ((i, p), e) ↦ (p, ground arith, ground arith)
]

drain_step :
    (fuel : ℕ) (c b d : ClassState) (taken more : List (ℕ × Option Selection)) (id : ℕ)
    (key : Option Selection) (q : ReadyQueue) (p : PendingQueue)
    → pop_ready c.ready_queue ≡ some (id, q)
    → q ≡ record (c.ready_queue) { pending = p }
    → unready (record c { ready_queue = record (c.ready_queue) { pending = p } }) id ≡ some (b, key)
    → drain_ready fuel b ((id, key) ∷ taken) ≡ some (d, more)
    → drain_ready (suc fuel) c taken ≡ some (d, more)
unfolding drain_ready
drain_step fuel c b d taken more id key q p e f g h = rw (e, drain_ready, f, g) h

drain_ready-Drained :
    (fuel : ℕ) (c : ClassState) (taken : List (ℕ × Option Selection))
    → Inv taken c
    → Loose c.deferred taken
    → entries_of c.ready_queue.pending < fuel
    → (d : ClassState) × (more : List (ℕ × Option Selection)) × (drain_ready fuel c taken
        ≡ some (d, more))
      × Drained c d more
unfolding drain_ready
drain_ready-Drained zero c taken v l h = absurd (omega arith)
drain_ready-Drained (suc fuel) c taken v l h = elim (Option-cases (pop_ready c.ready_queue)) [
  | inl nothing ↦ (
    c,
    taken,
    rw (nothing, drain_ready),
    record { inv = v; same = Same-refl c; loose = l; fewer_runnable = omega arith },
  )
  | inr ((id, q), e) ↦
      let (p, f, same_queue) = pop_of c.ready_queue id q e in
      let w = pop-Popped c.ready_queue.pending p id v.ready_inv f in
      let (r, was, stays) =
        record_in (record_of id c) ready (ground (arith, v.ready_there id, w.member)) in
      let (b, key, g, u) = unready_known taken c id p r v w was stays l in
      let less : entries_of b.ready_queue.pending < fuel =
        rw u.pending_left (omega (arith, pop-fewer c.ready_queue.pending p id v.ready_inv f)) in
      let (d, more, k, x) = drain_ready-Drained fuel b ((id, key) ∷ taken) u.inv u.loose less in
      (
        d,
        more,
        drain_step fuel c b d taken more id key q p e same_queue g k,
        record {
          inv = x.inv;
          same = Same-trans c b d u.same x.same;
          loose = x.loose;
          fewer_runnable = omega (arith, x.fewer_runnable, u.one_less);
        },
      )
]

-- The class after the repair.
pub record Repaired (c d : ClassState) : Type 0 where
  pub inv : Inv [] d
  pub same : Same c d
  pub fewer_runnable : d.ready_queue.runnable ≤ c.ready_queue.runnable

restored-Inv :
    (c : ClassState) (id : ℕ) (key : Option Selection) (taken : List (ℕ × Option Selection))
    (q : PendingQueue)
    → Inv ((id, key) ∷ taken) c
    → Grown c.deferred q id
    → Inv taken (record c { deferred = q })
unfolding record_of
restored-Inv c id key taken q v g = record {
  ready_inv = v.ready_inv;
  deferred_inv = g.inv;
  ready_there = v.ready_there;
  deferred_there = λ j. ground (arith, v.deferred_there j, g.members j);
  runnable_counted = v.runnable_counted;
  attaching_counted = v.attaching_counted;
  slots_counted = v.slots_counted;
  unique = v.unique;
  known = v.known;
  sound = v.sound;
  settled = v.settled;
  settled_once = v.settled_once;
  unsettled = v.unsettled;
  updates_ranked = v.updates_ranked;
  attached = v.attached;
}

restore_deferred-Repaired :
    (c : ClassState) (taken : List (ℕ × Option Selection))
    → Inv taken c
    → Loose c.deferred taken
    → (d : ClassState) × (restore_deferred c taken ≡ some d) × Repaired c d
unfolding restore_deferred
restore_deferred-Repaired c [] v l =
    (c, refl, record { inv = v; same = Same-refl c; fewer_runnable = omega arith })
restore_deferred-Repaired c ((id, key) ∷ taken) v l =
    let (q, e, g) = push_front-Grown c.deferred id key v.deferred_inv l.0.0 l.0.2 in
    let (d, f, x) =
      restore_deferred-Repaired (record c { deferred = q }) taken
        (restored-Inv c id key taken q v g) (Loose-Grown c.deferred q id taken l.1 l.0.1 g) in
    (
      d,
      rw (e, restore_deferred) f,
      record {
        inv = x.inv;
        same = record {
          handed_same = x.same.handed_same;
          slots_same = x.same.slots_same;
          attaching_same = x.same.attaching_same;
          next_same = x.same.next_same;
          outcomes_same = x.same.outcomes_same;
          abandoned_same = x.same.abandoned_same;
          tame = λ j. x.same.tame j ∙ jobs-Tame c (record c { deferred = q }) refl j;
        };
        fewer_runnable = x.fewer_runnable;
      },
    )

pub repair-Repaired :
    (c : ClassState) → Inv [] c → (d : ClassState) × (repair c ≡ some d) × Repaired c d
unfolding repair restore_drained
repair-Repaired c v = elim (Bool-cases (c.rebalance && not (is_empty c.deferred))) [
  | inr clean ↦
      (c, rw (clean, repair), record { inv = v; same = Same-refl c; fewer_runnable = omega arith })
  | inl dirty ↦
      let (b, taken, e, x) =
        drain_ready-Drained (suc (entries_of c.ready_queue.pending)) c [] v tt (omega arith) in
      let (d, f, y) = restore_deferred-Repaired b taken x.inv x.loose in
      (
        d,
        rw (dirty, repair, e) f,
        record {
          inv = y.inv;
          same = Same-trans c b d x.same y.same;
          fewer_runnable = omega (arith, x.fewer_runnable, y.fewer_runnable);
        },
      )
]
