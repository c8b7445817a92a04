-- ===== src/Scheduler/Class/Leave.antt =====
-- src/scheduler.rs: how a claimed or suppressed job leaves the queues and the runnable window.
use solworker.Prelude.{
  ℕ, ◌+◌, ◌-◌, ◌≤◌, ◌≡◌, refl, ◌∙◌, Bool, true, false, Option, some, [], ◌==◌, ==_iff,
  if◌then◌else◌, arith,
}
use solworker.Ready.Queue.{PendingQueue, remove_id}
use solworker.Ready.Queue.Inv.{Inv as QueueInv}
use solworker.Ready.Queue.Members.{has, has-remove_id}
use solworker.Ready.Queue.Removal.{remove_id-Inv}
use solworker.Ready.ReadyQueue.{remove_pending}
use solworker.Scheduler.Class.{
  ClassState, Attachment, ClassLimits, JobRecord, Stage, waiting, ready, deferred_ready, handed,
  running, finalizing, record_of, put_record, remove_ready, note_mixed,
}
use solworker.Scheduler.Class.Promote.{drop_runnable}
use solworker.Scheduler.Class.Gate.{
  counts_runnable, leave_queue, release_runnable, leave_gate, suppressible,
}
use solworker.Scheduler.Class.Views.{attached_ok, in_stage, runnable_weight, is_past, Sound}
use solworker.Scheduler.Class.Inv.{Inv, Move, Move-Inv, course_in, record_of-insert}
use solworker.Ready.Maps.{lookup, insert}
use solworker.Scheduler.Class.Repair.{counted}
use solworker.Scheduler.Class.Promoted.{promote_locked-Filled}

-- The invariant is kept, and as many jobs stay handed off.
pub record Kept (c d : ClassState) : Type 0 where
  pub inv : Inv [] d
  pub handed_same : d.ready_queue.handed_off ≡ c.ready_queue.handed_off

-- The same, and the record has the course of the winner.
pub record Left (c d : ClassState) (id : ℕ) (gone : JobRecord) : Type 0 where
  pub kept : Kept c d
  pub course_now : course_in (record_of id d) ≡ some gone.course

abbrev pub is_gone : Stage → Bool
is_gone running = true
is_gone finalizing = true
is_gone _ = false

-- What a claim or a suppression makes of a record.
pub record Departs (r gone : JobRecord) : Type 0 where
  pub sound : Sound gone
  pub away : is_gone gone.stage ≡ true
  pub reserved_same : gone.runnable_reserved ≡ r.runnable_reserved
  pub past_same : is_past gone.course ≡ is_past r.course
  pub held_same : (o : Option Attachment) → attached_ok o (some gone) ≡ attached_ok o (some r)

left-Move :
    (c d : ClassState) (id : ℕ) (r gone : JobRecord) (qr qd : PendingQueue) (n : ℕ)
    → Inv [] c
    → record_of id c ≡ some r
    → Departs r gone
    → QueueInv qr
    → QueueInv qd
    → ((j : ℕ) → has j qr ≡ (if id == j then false else has j c.ready_queue.pending))
    → ((j : ℕ) → has j qd ≡ (if id == j then false else has j c.deferred))
    → n + runnable_weight (some r) ≡ c.ready_queue.runnable
    → d ≡ record (put_record c id gone) {
      ready_queue = record (c.ready_queue) { pending = qr; runnable = n };
      deferred = qd;
      rebalance = d.rebalance;
    }
    → Move [] [] c d id r gone
unfolding put_record
left-Move c d id r gone qr qd n v was g vr vd mr md count e = record {
  was = was;
  jobs_now = ground (arith, e);
  ready_inv = rw e vr;
  deferred_inv = rw e vd;
  ready_now = λ j. ground (arith, e, mr j, g.away);
  deferred_now = λ j. ground (arith, e, md j, g.away);
  runnable_now = rw e (ground (arith, count, g.away));
  attaching_now = rw e (ground (arith, g.reserved_same));
  slots_now = ground (arith, e);
  next_same = ground (arith, e);
  sound_now = g.sound;
  outcomes_now = λ j. rw e (ground (arith, g.past_same));
  updates_same = ground (arith, e);
  attached_now =
      λ j. ground (arith, e, g.held_same (lookup j c.attachments), v.attached j, was, ==_iff id j);
}

-- The three ways out of the queues.
absent_ready :
    (c : ClassState) (id j : ℕ) (r : JobRecord)
    → Inv [] c
    → record_of id c ≡ some r
    → in_stage ready (some r) ≡ false
    → has j c.ready_queue.pending ≡ (if id == j then false else has j c.ready_queue.pending)
absent_ready c id j r v was h = ground (arith, v.ready_there j, was, ==_iff id j)

absent_deferred :
    (c : ClassState) (id j : ℕ) (r : JobRecord)
    → Inv [] c
    → record_of id c ≡ some r
    → in_stage deferred_ready (some r) ≡ false
    → has j c.deferred ≡ (if id == j then false else has j c.deferred)
absent_deferred c id j r v was h = ground (arith, v.deferred_there j, was, ==_iff id j)

abbrev drop_one : ClassState → ClassState
drop_one c = record c {
  ready_queue = record (c.ready_queue) { runnable = c.ready_queue.runnable - 1 };
}

course_put :
    (c d : ClassState) (id : ℕ) (gone : JobRecord)
    → d.jobs ≡ insert id (some gone) c.jobs
    → course_in (record_of id d) ≡ some gone.course
course_put c d id gone e = ground (arith, record_of-insert c d id id gone e, ==_iff id id)

released :
    (l : ClassLimits) (c b : ClassState) (id : ℕ) (r gone : JobRecord)
    → Inv [] c
    → 1 ≤ b.ready_queue.runnable
    → Move [] [] c (drop_one b) id r gone
    → b.ready_queue.handed_off ≡ c.ready_queue.handed_off
    → (d : ClassState) × (release_runnable l b ≡ some d) × Left c d id gone
unfolding release_runnable drop_runnable
released l c b id r gone v more m s =
    let busy : (b.ready_queue.runnable == 0) ≡ false = ground arith in
    let (d, e, x) =
      promote_locked-Filled l (drop_one b) (Move-Inv [] [] c (drop_one b) id r gone v m) in
    (
      d,
      rw (busy, release_runnable, drop_runnable) e,
      record {
        kept = record { inv = x.inv; handed_same = x.same.handed_same ∙ s };
        course_now = x.same.tame id ∙ course_put c (drop_one b) id gone m.jobs_now;
      },
    )

some_runnable :
    (c : ClassState) (id : ℕ) (r : JobRecord)
    → Inv [] c
    → record_of id c ≡ some r
    → counts_runnable r.stage ≡ true
    → 1 ≤ c.ready_queue.runnable
some_runnable c id r v was h =
    ground (arith, counted runnable_weight c id r refl was, v.runnable_counted)

leaves_ready :
    (l : ClassLimits) (c : ClassState) (id : ℕ) (r gone : JobRecord)
    → r.stage ≡ ready
    → leave_gate l c id r gone ≡ release_runnable l (remove_ready (put_record c id gone) id)
unfolding leave_gate leave_queue
leaves_ready l c id r gone at = rw at

leave_ready :
    (l : ClassLimits) (c : ClassState) (id : ℕ) (r gone : JobRecord)
    → Inv [] c
    → record_of id c ≡ some r
    → Departs r gone
    → r.stage ≡ ready
    → (d : ClassState) × (leave_gate l c id r gone ≡ some d) × Left c d id gone
unfolding put_record remove_ready remove_pending
leave_ready l c id r gone v was g at =
    let more : 1 ≤ c.ready_queue.runnable = some_runnable c id r v was (ground arith) in
    let b = remove_ready (put_record c id gone) id in
    let m : Move [] [] c (drop_one b) id r gone =
      left-Move c (drop_one b) id r gone (remove_id c.ready_queue.pending id) c.deferred
        (c.ready_queue.runnable - 1) v was g (remove_id-Inv c.ready_queue.pending id v.ready_inv)
        v.deferred_inv (λ j. has-remove_id c.ready_queue.pending id j)
        (λ j. absent_deferred c id j r v was (ground (arith, at))) (ground (arith, at)) refl in
    let (d, e, x) = released l c b id r gone v more m refl in
    (d, rw (leaves_ready l c id r gone at) e, x)

leaves_handed :
    (l : ClassLimits) (c : ClassState) (id : ℕ) (r gone : JobRecord)
    → r.stage ≡ handed
    → leave_gate l c id r gone ≡ release_runnable l (put_record c id gone)
unfolding leave_gate leave_queue
leaves_handed l c id r gone at = rw at

leave_handed :
    (l : ClassLimits) (c : ClassState) (id : ℕ) (r gone : JobRecord)
    → Inv [] c
    → record_of id c ≡ some r
    → Departs r gone
    → r.stage ≡ handed
    → (d : ClassState) × (leave_gate l c id r gone ≡ some d) × Left c d id gone
unfolding put_record
leave_handed l c id r gone v was g at =
    let more : 1 ≤ c.ready_queue.runnable = some_runnable c id r v was (ground arith) in
    let b = put_record c id gone in
    let m : Move [] [] c (drop_one b) id r gone =
      left-Move c (drop_one b) id r gone c.ready_queue.pending c.deferred
        (c.ready_queue.runnable - 1) v was g v.ready_inv v.deferred_inv
        (λ j. absent_ready c id j r v was (ground (arith, at)))
        (λ j. absent_deferred c id j r v was (ground (arith, at))) (ground (arith, at)) refl in
    let (d, e, x) = released l c b id r gone v more m refl in
    (d, rw (leaves_handed l c id r gone at) e, x)

leaves_deferred :
    (l : ClassLimits) (c : ClassState) (id : ℕ) (r gone : JobRecord)
    → r.stage ≡ deferred_ready
    → leave_gate l c id r gone
      ≡ some (
          note_mixed
            (record (put_record c id gone) { deferred = remove_id c.deferred id })
            r.resource)
unfolding leave_gate leave_queue put_record
leaves_deferred l c id r gone at = rw at

leave_deferred :
    (l : ClassLimits) (c : ClassState) (id : ℕ) (r gone : JobRecord)
    → Inv [] c
    → record_of id c ≡ some r
    → Departs r gone
    → r.stage ≡ deferred_ready
    → (d : ClassState) × (leave_gate l c id r gone ≡ some d) × Left c d id gone
unfolding put_record note_mixed
leave_deferred l c id r gone v was g at =
    let d =
      note_mixed (record (put_record c id gone) { deferred = remove_id c.deferred id })
        r.resource in
    let m : Move [] [] c d id r gone =
      left-Move c d id r gone c.ready_queue.pending (remove_id c.deferred id) c.ready_queue.runnable
        v was g v.ready_inv (remove_id-Inv c.deferred id v.deferred_inv)
        (λ j. absent_ready c id j r v was (ground (arith, at))) (λ j. has-remove_id c.deferred id j)
        (ground (arith, at)) refl in
    (
      d,
      leaves_deferred l c id r gone at,
      record {
        kept = record { inv = Move-Inv [] [] c d id r gone v m; handed_same = refl };
        course_now = course_put c d id gone refl;
      },
    )

leaves_waiting :
    (l : ClassLimits) (c : ClassState) (id : ℕ) (r gone : JobRecord)
    → r.stage ≡ waiting
    → leave_gate l c id r gone ≡ some (put_record c id gone)
unfolding leave_gate leave_queue
leaves_waiting l c id r gone at = rw at

leave_waiting :
    (l : ClassLimits) (c : ClassState) (id : ℕ) (r gone : JobRecord)
    → Inv [] c
    → record_of id c ≡ some r
    → Departs r gone
    → r.stage ≡ waiting
    → (d : ClassState) × (leave_gate l c id r gone ≡ some d) × Left c d id gone
unfolding put_record
leave_waiting l c id r gone v was g at =
    let d = put_record c id gone in
    let m : Move [] [] c d id r gone =
      left-Move c d id r gone c.ready_queue.pending c.deferred c.ready_queue.runnable v was g
        v.ready_inv v.deferred_inv (λ j. absent_ready c id j r v was (ground (arith, at)))
        (λ j. absent_deferred c id j r v was (ground (arith, at))) (ground (arith, at)) refl in
    (
      d,
      leaves_waiting l c id r gone at,
      record {
        kept = record { inv = Move-Inv [] [] c d id r gone v m; handed_same = refl };
        course_now = course_put c d id gone refl;
      },
    )

pub leave_gate-Kept :
    (l : ClassLimits) (c : ClassState) (id : ℕ) (r gone : JobRecord) (stage : Stage)
    → Inv [] c
    → record_of id c ≡ some r
    → Departs r gone
    → r.stage ≡ stage
    → suppressible stage ≡ true
    → (d : ClassState) × (leave_gate l c id r gone ≡ some d) × Left c d id gone
leave_gate-Kept l c id r gone waiting v was g at h = leave_waiting l c id r gone v was g at
leave_gate-Kept l c id r gone deferred_ready v was g at h = leave_deferred l c id r gone v was g at
leave_gate-Kept l c id r gone ready v was g at h = leave_ready l c id r gone v was g at
leave_gate-Kept l c id r gone handed v was g at h = leave_handed l c id r gone v was g at
leave_gate-Kept l c id r gone running v was g at h = absurd (ground arith)
leave_gate-Kept l c id r gone finalizing v was g at h = absurd (ground arith)
