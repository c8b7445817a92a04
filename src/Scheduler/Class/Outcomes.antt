-- ===== src/Scheduler/Class/Outcomes.antt =====
-- src/scheduler.rs: `settle`, `finish_record` and `finalize_record`.
use solworker.Prelude.{
  ℕ, ◌+◌, ◌≡◌, refl, Bool, true, Option, some, [], ◌∷◌, if◌then◌else◌, arith, inl, inr, Bool-cases,
  Option-cases, ◌==◌, ==_iff,
}
use solworker.Ready.Maps.{lookup}
use solworker.Scheduler.Class.{
  ClassState, Attachment, JobRecord, Stage, waiting, ready, deferred_ready, handed, running,
  finalizing, Course, untouched, settling, returned, deferred_finish, finishing, Decision,
  record_of, put_record, stage_eq,
}
use solworker.Scheduler.Class.Settle.{
  settle, settle_record, mark_finalizing, mark_record, finish_record, finish_live, finish_course,
}
use solworker.Scheduler.Class.Views.{attached_ok, is_past, fits_course, Sound, count_outcomes}
use solworker.Scheduler.Class.Inv.{Inv, Move, Move-Inv}
use solworker.Scheduler.Class.Leave.{is_gone}
use solworker.Scheduler.Class.Activation.{Fine}

-- A change of a record that has left the queues, with the envelopes that were settled.
record Turn (c d : ClassState) (id : ℕ) (r s : JobRecord) : Type 0 where
  was : record_of id c ≡ some r
  state : d ≡ record (put_record c id s) { outcomes = d.outcomes }
  left : is_gone r.stage ≡ true
  away : is_gone s.stage ≡ true
  sound : Sound s
  reserved_same : s.runnable_reserved ≡ r.runnable_reserved
  held_same : (o : Option Attachment) → attached_ok o (some s) ≡ attached_ok o (some r)
  outcomes_now :
      (j : ℕ)
      → count_outcomes j d.outcomes + (if id == j then is_past r.course else 0)
        ≡ count_outcomes j c.outcomes + (if id == j then is_past s.course else 0)

Turn-Fine : (c d : ClassState) (id : ℕ) (r s : JobRecord) → Inv [] c → Turn c d id r s → Fine c d
unfolding put_record
Turn-Fine c d id r s v t =
    let m : Move [] [] c d id r s = record {
      was = t.was;
      jobs_now = ground (arith, t.state);
      ready_inv = rw (t.state) v.ready_inv;
      deferred_inv = rw (t.state) v.deferred_inv;
      ready_now = λ j. ground (arith, t.state, v.ready_there j, t.was, ==_iff id j, t.left, t.away);
      deferred_now =
          λ j. ground (arith, t.state, v.deferred_there j, t.was, ==_iff id j, t.left, t.away);
      runnable_now = ground (arith, t.state, t.left, t.away);
      attaching_now = rw t.state (ground (arith, t.reserved_same));
      slots_now = ground (arith, t.state);
      next_same = ground (arith, t.state);
      sound_now = t.sound;
      outcomes_now = t.outcomes_now;
      updates_same = ground (arith, t.state);
      attached_now = λ j.
          ground (
            arith,
            t.state,
            t.held_same (lookup j c.attachments),
            v.attached j,
            t.was,
            ==_iff id j,
          );
    } in
    record { inv = Move-Inv [] [] c d id r s v m; handed_same = ground (arith, t.state) }

-- Where the courses that are not untouched can stand.
gone_fits :
    (stage : Stage) (a : Bool) (k : Course)
    → fits_course stage a k ≡ true
    → (k ≡ untouched → ⊥)
    → is_gone stage ≡ true
gone_fits running a k h n = refl
gone_fits finalizing a k h n = refl
gone_fits waiting a untouched h n = absurd (n refl)
gone_fits deferred_ready a untouched h n = absurd (n refl)
gone_fits ready a untouched h n = absurd (n refl)
gone_fits handed a untouched h n = absurd (n refl)
gone_fits _ a _ h n = absurd (ground arith)

-- A record that has left the queues with another stage or course.
recourse-Sound :
    (r s : JobRecord) (stage : Stage) (course : Course)
    → Sound r
    → is_gone r.stage ≡ true
    → is_gone stage ≡ true
    → fits_course stage r.attaching course ≡ true
    → s ≡ record r { stage = stage; course = course }
    → Sound s
recourse-Sound r s stage course v left away fits e = rw e record {
  queued_closed = λ k. absurd (ground arith);
  selected = v.selected;
  keyed = v.keyed;
  ranked = v.ranked;
  reserving = v.reserving;
  index_kept = ground (arith, v.index_kept);
  course_kept = fits;
}

unchanged : (c : ClassState) → Inv [] c → Fine c c
unchanged c v = record { inv = v; handed_same = refl }

settle_here :
    (c : ClassState) (id : ℕ) (r : JobRecord) (d : Decision)
    → Inv [] c
    → record_of id c ≡ some r
    → r.course ≡ settling d
    → Fine c (record (put_record c id (record r { course = returned })) {
      outcomes = (id, d) ∷ c.outcomes;
    })
unfolding put_record
settle_here c id r d v was at =
    let s = v.sound id r was in
    let left : is_gone r.stage ≡ true =
      gone_fits r.stage r.attaching r.course s.course_kept (λ h. absurd (ground (arith, at, h))) in
    Turn-Fine c
      (record (put_record c id (record r { course = returned })) {
        outcomes = (id, d) ∷ c.outcomes;
      })
      id r (record r { course = returned }) v
      record {
        was = was;
        state = refl;
        left = left;
        away = left;
        sound =
            recourse-Sound r (record r { course = returned }) r.stage returned s left left
              (stays r.stage r.attaching left) refl;
        reserved_same = refl;
        held_same = λ o. ground arith;
        outcomes_now = λ j. ground (arith, at);
      }
  where
    stays : (stage : Stage) (a : Bool) → is_gone stage ≡ true → fits_course stage a returned ≡ true
    stays running a h = refl
    stays finalizing a h = refl
    stays _ a h = absurd (ground arith)

settle_record-Fine :
    (c : ClassState) (id : ℕ) (r : JobRecord) (k : Course)
    → Inv [] c
    → record_of id c ≡ some r
    → r.course ≡ k
    → Fine c (settle_record c id r)
unfolding settle_record
settle_record-Fine c id r (settling d) v was at =
    rw (at, settle_record) (settle_here c id r d v was at)
settle_record-Fine c id r untouched v was at = rw (at, settle_record) (unchanged c v)
settle_record-Fine c id r returned v was at = rw (at, settle_record) (unchanged c v)
settle_record-Fine c id r deferred_finish v was at = rw (at, settle_record) (unchanged c v)
settle_record-Fine c id r finishing v was at = rw (at, settle_record) (unchanged c v)

-- The settlement of a job keeps the invariant.
pub settle-Fine : (c : ClassState) (id : ℕ) → Inv [] c → Fine c (settle c id)
unfolding settle
settle-Fine c id v = elim (Option-cases (record_of id c)) [
  | inl gone ↦ rw (gone, settle) (unchanged c v)
  | inr (r, was) ↦ rw (was, settle) (settle_record-Fine c id r r.course v was refl)
]

-- A record whose envelope has returned takes another stage or course.
after_return :
    (c : ClassState) (id : ℕ) (r s : JobRecord) (course : Course)
    → Inv [] c
    → record_of id c ≡ some r
    → r.course ≡ returned
    → s ≡ record r { stage = finalizing; course = course }
    → fits_course finalizing r.attaching course ≡ true
    → is_past course ≡ 1
    → Fine c (put_record c id s)
unfolding put_record
after_return c id r s course v was at e fits past =
    let u = v.sound id r was in
    let left : is_gone r.stage ≡ true =
      gone_fits r.stage r.attaching r.course u.course_kept (λ h. absurd (ground (arith, at, h))) in
    Turn-Fine c (put_record c id s) id r s v record {
      was = was;
      state = refl;
      left = left;
      away = ground (arith, e);
      sound = recourse-Sound r s finalizing course u left refl fits e;
      reserved_same = ground (arith, e);
      held_same = λ o. rw e (ground arith);
      outcomes_now = λ j. ground (arith, at, e, past);
    }

mark_record-Fine :
    (c : ClassState) (id : ℕ) (r : JobRecord) (k : Course)
    → Inv [] c
    → record_of id c ≡ some r
    → r.course ≡ k
    → Fine c (mark_record c id r)
unfolding mark_record
mark_record-Fine c id r returned v was at =
    rw (at, mark_record)
      (after_return c id r (record r { stage = finalizing }) returned v was at (ground (arith, at))
        refl refl)
mark_record-Fine c id r (settling d) v was at = rw (at, mark_record) (unchanged c v)
mark_record-Fine c id r untouched v was at = rw (at, mark_record) (unchanged c v)
mark_record-Fine c id r deferred_finish v was at = rw (at, mark_record) (unchanged c v)
mark_record-Fine c id r finishing v was at = rw (at, mark_record) (unchanged c v)

pub mark_finalizing-Fine : (c : ClassState) (id : ℕ) → Inv [] c → Fine c (mark_finalizing c id)
unfolding mark_finalizing
mark_finalizing-Fine c id v = elim (Option-cases (record_of id c)) [
  | inl gone ↦ rw (gone, mark_finalizing) (unchanged c v)
  | inr (r, was) ↦ rw (was, mark_finalizing) (mark_record-Fine c id r r.course v was refl)
]

finish_returned :
    (c : ClassState) (id : ℕ) (r : JobRecord)
    → Inv [] c
    → record_of id c ≡ some r
    → r.course ≡ returned
    → r.stage ≡ finalizing
    → Fine c (put_record c id (record r { course = finish_course r }))
unfolding finish_course
finish_returned c id r v was at stage =
    after_return c id r (record r { course = finish_course r }) (finish_course r) v was at
      (ground (arith, stage)) (ground arith) (ground arith)

finishes :
    (c : ClassState) (id : ℕ) (r : JobRecord)
    → r.course ≡ returned
    → stage_eq r.stage finalizing ≡ true
    → finish_live c id r ≡ put_record c id (record r { course = finish_course r })
unfolding finish_live
finishes c id r at marked = ground arith

finish_live-Fine :
    (c : ClassState) (id : ℕ) (r : JobRecord) (k : Course)
    → Inv [] c
    → record_of id c ≡ some r
    → r.course ≡ k
    → Fine c (finish_live c id r)
unfolding finish_live
finish_live-Fine c id r returned v was at = elim (Bool-cases (stage_eq r.stage finalizing)) [
  | inr early ↦ rw (at, finish_live, early) (unchanged c v)
  | inl marked ↦
      rw (finishes c id r at marked) (finish_returned c id r v was at (stage_of r.stage marked))
]
  where
    stage_of : (s : Stage) → stage_eq s finalizing ≡ true → s ≡ finalizing
    stage_of finalizing h = refl
    stage_of _ h = absurd (ground arith)
finish_live-Fine c id r (settling d) v was at = rw (at, finish_live) (unchanged c v)
finish_live-Fine c id r untouched v was at = rw (at, finish_live) (unchanged c v)
finish_live-Fine c id r deferred_finish v was at = rw (at, finish_live) (unchanged c v)
finish_live-Fine c id r finishing v was at = rw (at, finish_live) (unchanged c v)

pub finish_record-Fine : (c : ClassState) (id : ℕ) → Inv [] c → Fine c (finish_record c id)
unfolding finish_record
finish_record-Fine c id v = elim (Option-cases (record_of id c)) [
  | inl gone ↦ rw (gone, finish_record) (unchanged c v)
  | inr (r, was) ↦ rw (was, finish_record) (finish_live-Fine c id r r.course v was refl)
]
