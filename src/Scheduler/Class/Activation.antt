-- ===== src/Scheduler/Class/Activation.antt =====
-- src/scheduler.rs and src/scheduler/bulk.rs: prerequisites, the end of attachments and activations.
use solworker.Prelude.{
  ℕ, ◌+◌, ◌≡◌, refl, Bool, true, false, ◌||◌, Option, none, some, [], arith, inl, inr, Bool-cases,
  Option-cases, if◌then◌else◌, ◌==◌, ==_iff,
}
use solworker.Ready.Maps.{lookup}
use solworker.Scheduler.Class.{
  ClassState, ClassLimits, JobRecord, waiting, TaskStatus, record_of, put_record,
}
use solworker.Scheduler.Class.Promote.{has_room}
use solworker.Scheduler.Class.Gate.{activate, activate_record, may_activate, queue_record, verdict}
use solworker.Scheduler.Class.Settle.{activate_here}
use solworker.Scheduler.Class.Views.{attached_ok, in_stage, reserved_weight, is_past, Sound}
use solworker.Scheduler.Class.Inv.{Inv, Move, Move-Inv}
use solworker.Scheduler.Class.Enter.{push_ready-Move, push_deferred-Move}

-- The invariant is kept, and as many jobs stay handed off.
pub record Fine (c d : ClassState) : Type 0 where
  pub inv : Inv [] d
  pub handed_same : d.ready_queue.handed_off ≡ c.ready_queue.handed_off

pub Fine-trans : (a b c : ClassState) → Fine a b → Fine b c → Fine a c
Fine-trans a b c x y = record {
  inv = y.inv;
  handed_same = ground (arith, x.handed_same, y.handed_same);
}

queue_record-Fine :
    (l : ClassLimits) (c : ClassState) (id : ℕ) (r : JobRecord) (inline : Bool)
    → Inv [] c
    → record_of id c ≡ some r
    → r.attaching ≡ false
    → in_stage waiting (some r) ≡ true
    → (d : ClassState) × (queue_record l c id r inline ≡ some d) × Fine c d
unfolding queue_record
queue_record-Fine l c id r inline v was shut stays = elim (Bool-cases (inline || has_room l c)) [
  | inl now ↦
      let (d, e, m, h) = push_ready-Move [] c id r v was shut stays in
      (d, rw (now, queue_record) e, record { inv = Move-Inv [] [] c d id r _ v m; handed_same = h })
  | inr later ↦
      let (d, e, m, h) = push_deferred-Move [] c id r v was shut stays in
      (
        d,
        rw (later, queue_record) e,
        record { inv = Move-Inv [] [] c d id r _ v m; handed_same = h },
      )
]

pub activate_record-Fine :
    (l : ClassLimits) (c : ClassState) (id : ℕ) (r : JobRecord) (inline : Bool)
    → Inv [] c
    → record_of id c ≡ some r
    → r.attaching ≡ false
    → in_stage waiting (some r) ≡ true
    → (d : ClassState) × (o : Option TaskStatus) × (activate_record l c id r inline ≡ some (d, o))
      × Fine c d
unfolding activate_record
activate_record-Fine l c id r inline v was shut stays = elim (Option-cases (verdict c r)) [
  | inr (status, e) ↦
      (c, some status, rw (e, activate_record), record { inv = v; handed_same = refl })
  | inl goes ↦
      let (d, e, x) = queue_record-Fine l c id r inline v was shut stays in
      (d, none, rw (goes, activate_record, e), x)
]

-- An activation, from a class that meets the invariant, does not panic and keeps the invariant.
pub activate-Fine :
    (l : ClassLimits) (c : ClassState) (id : ℕ) (inline : Bool)
    → Inv [] c
    → (d : ClassState) × (o : Option TaskStatus) × (activate l c id inline ≡ some (d, o)) × Fine c d
unfolding activate may_activate
activate-Fine l c id inline v = elim (Option-cases (record_of id c)) [
  | inl gone ↦ (c, none, rw (gone, activate), record { inv = v; handed_same = refl })
  | inr (r, was) ↦ elim (Bool-cases (may_activate r)) [
    | inr stays ↦ (c, none, rw (was, activate, stays), record { inv = v; handed_same = refl })
    | inl may ↦
        let (d, o, e, x) =
          activate_record-Fine l c id r inline v was (ground arith) (ground arith) in
        (d, o, rw (was, activate, may) e, x)
  ]
]

pub activate_here-Fine :
    (l : ClassLimits) (c : ClassState) (id : ℕ)
    → Inv [] c
    → (d : ClassState) × (o : Option TaskStatus) × (activate_here l c id ≡ some (d, o)) × Fine c d
unfolding activate_here activate
activate_here-Fine l c id v = activate-Fine l c id false v

-- A change of a record that keeps its stage, its place in the queues and its envelope.
pub record Tweak (r s : JobRecord) : Type 0 where
  pub sound : Sound s
  pub stage_same : s.stage ≡ r.stage
  pub past_same : is_past s.course ≡ is_past r.course

pub tweaked-Move :
    (c d : ClassState) (id : ℕ) (r s : JobRecord)
    → Inv [] c
    → record_of id c ≡ some r
    → Tweak r s
    → d.attaching_runnable + reserved_weight (some r)
      ≡ c.attaching_runnable + reserved_weight (some s)
    → d ≡ record (put_record c id s) {
      attaching_runnable = d.attaching_runnable;
      attachments = d.attachments;
    }
    → ((j : ℕ)
        → attached_ok (lookup j d.attachments) (if id == j then some s else record_of j c) ≡ true)
    → Move [] [] c d id r s
unfolding put_record
tweaked-Move c d id r s v was t count e tokens = record {
  was = was;
  jobs_now = ground (arith, e);
  ready_inv = rw e v.ready_inv;
  deferred_inv = rw e v.deferred_inv;
  ready_now = λ j. ground (arith, e, v.ready_there j, was, ==_iff id j, t.stage_same);
  deferred_now = λ j. ground (arith, e, v.deferred_there j, was, ==_iff id j, t.stage_same);
  runnable_now = rw e (ground (arith, t.stage_same));
  attaching_now = count;
  slots_now = ground (arith, e);
  next_same = ground (arith, e);
  sound_now = t.sound;
  outcomes_now = λ j. rw e (ground (arith, t.past_same));
  updates_same = ground (arith, e);
  attached_now = tokens;
}
