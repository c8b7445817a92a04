-- ===== src/Scheduler/Class/Safety.antt =====
-- src/scheduler.rs: what holds of a class in every order of its sections.
use solworker.Ready.Maps.{lookup}
use solworker.Prelude.{
  not, ◌||◌, ℕ, ◌+◌, ◌≤◌, ◌≡◌, true, false, none, some, List, arith, ◌⊎◌, max, length,
}
use solworker.Ready.Queue.{pop}
use solworker.Ready.Queue.Members.{has}
use solworker.Range.{quantum}
use solworker.Scheduler.Class.{
  ClassState, ClassLimits, JobRecord, ready, deferred_ready, new_class, record_of,
}
use solworker.Scheduler.Class.Promote.{promote_locked, has_room}
use solworker.Scheduler.Class.Settle.{dispatch}
use solworker.Scheduler.Class.Views.{
  has_rank, in_stage, runnable_weight, reserved_weight, total, is_past, fits_course, count_outcomes,
}
use solworker.Scheduler.Class.Promoted.{promote_locked-Filled}
use solworker.Scheduler.Class.Dispatch.{dispatch-Handed}
use solworker.Scheduler.Class.History.{
  Section, run_sections, Allowed, run_sections-Safe, new-Safe, reached,
}

-- From a new class, no order of sections panics, as long as the selections that the demand graph gives
-- have a rank and each portion and each range has at most a quantum of jobs: there is a class after
-- the last section. No count falls below zero, and the following expectations of the source hold. A
-- job that leaves a queue has a live record; a resource that enters one has a ranked selection; a
-- member of a group that becomes ready, or is retired at its finalization, is registered; a record
-- stays in its place while the submission holds its attachment, at the registration and at the end
-- of the attachment; a portion passes its assertion; the keys of a range fit their array.
pub run_sections-total :
    (l : ClassLimits) (sections : List Section)
    → Allowed sections
    → (d : ClassState) × (run_sections l new_class sections ≡ some d)
run_sections-total l sections h =
    let (d, e, x) = run_sections-Safe l new_class sections (new-Safe l) h in (d, e)

-- In a class that a history of sections with ranked selections and bounded portions and
-- ranges reaches, the ready queue holds the jobs
-- whose stage is ready and the deferred queue those whose stage is deferred, the runnable count is
-- the number of jobs that are ready or handed off, and the attaching count that of the open
-- attachments which reserve a place.
pub queues_match :
    (l : ClassLimits) (c : ClassState) (sections : List Section)
    → Allowed sections
    → run_sections l new_class sections ≡ some c
    → ((id : ℕ) → has id c.ready_queue.pending ≡ in_stage ready (record_of id c))
      × ((id : ℕ) → has id c.deferred ≡ in_stage deferred_ready (record_of id c))
      × (c.ready_queue.runnable ≡ total runnable_weight c.jobs)
      × (c.attaching_runnable ≡ total reserved_weight c.jobs)
queues_match l c sections h e =
    let v = (reached l c sections h e).inv in
    (
      v.ready_there,
      λ id. ground (arith, v.deferred_there id),
      v.runnable_counted,
      v.attaching_counted,
    )

-- In a class that a history of sections with ranked selections and bounded portions and
-- ranges reaches, the envelope of each identity was
-- settled at most once.
pub settled_once :
    (l : ClassLimits) (c : ClassState) (sections : List Section) (id : ℕ)
    → Allowed sections
    → run_sections l new_class sections ≡ some c
    → count_outcomes id c.outcomes ≤ 1
settled_once l c sections id h e = (reached l c sections h e).inv.settled_once id

-- In a class that a history of sections with ranked selections and bounded portions and
-- ranges reaches, the envelope of a live record was
-- settled exactly when its course is past the return, and its course fits its stage: nobody has begun
-- to settle a record that waits or stands in a queue, a running one was claimed, and the finish waits
-- in a record whose attachment is open.
pub settled_exactly :
    (l : ClassLimits) (c : ClassState) (sections : List Section) (id : ℕ) (r : JobRecord)
    → Allowed sections
    → run_sections l new_class sections ≡ some c
    → record_of id c ≡ some r
    → (count_outcomes id c.outcomes ≡ is_past r.course)
      × (fits_course r.stage r.attaching r.course ≡ true)
settled_exactly l c sections id r h e was =
    let v = (reached l c sections h e).inv in (v.settled id r was, (v.sound id r was).course_kept)

-- In a class that a history of sections with ranked selections and bounded portions and
-- ranges reaches, the handoff count is that of
-- the living slots and within the handoff limit.
pub handoffs_bounded :
    (l : ClassLimits) (c : ClassState) (sections : List Section)
    → Allowed sections
    → run_sections l new_class sections ≡ some c
    → (c.ready_queue.handed_off ≡ c.slots) × (c.ready_queue.handed_off ≤ l.handoff_limit)
handoffs_bounded l c sections h e =
    let v = reached l c sections h e in (v.inv.slots_counted, v.within_limit)

-- In a class that a history of sections with ranked selections and bounded portions and
-- ranges reaches, `promote_locked` gives a class
-- in which the runnable limit leaves no room or no job is deferred; the jobs that are runnable or
-- reserve a place are then within the limit, or no more than they were.
pub promote_conserves :
    (l : ClassLimits) (c : ClassState) (sections : List Section)
    → Allowed sections
    → run_sections l new_class sections ≡ some c
    → (d : ClassState) × (promote_locked l c ≡ some d)
      × ((has_room l d ≡ false) ⊎ (pop d.deferred ≡ none))
      × (d.ready_queue.runnable + d.attaching_runnable
          ≤ max l.runnable_limit (c.ready_queue.runnable + c.attaching_runnable))
promote_conserves l c sections h e =
    let (d, f, x) = promote_locked-Filled l c (reached l c sections h e).inv in
    (d, f, x.conserving, x.bounded)

-- In a class that a history of sections with ranked selections and bounded portions and
-- ranges reaches, one round of the dispatch hands
-- off at most a quantum of jobs, each of which takes one slot within the handoff limit.
pub dispatch_bounded :
    (l : ClassLimits) (c : ClassState) (sections : List Section)
    → Allowed sections
    → run_sections l new_class sections ≡ some c
    → (d : ClassState) × (ids : List ℕ) × (dispatch l c ≡ some (d, ids))
      × (length ids ≤ quantum)
      × (d.ready_queue.handed_off ≡ c.ready_queue.handed_off + length ids)
      × (d.ready_queue.handed_off ≤ l.handoff_limit)
dispatch_bounded l c sections h e =
    let v = reached l c sections h e in
    let (d, ids, f, x, short, within) = dispatch-Handed l c v.inv in
    (d, ids, f, short, x.counted, within v.within_limit)

-- In a class that a history of sections with ranked selections and bounded portions and ranges reaches,
-- the attachment of a live record that is closed is held by no submission; the record is registered,
-- where it is a member of a group, and has a selection with a rank, where it is a resource.
pub attachments_end_complete :
    (l : ClassLimits) (c : ClassState) (sections : List Section) (id : ℕ) (r : JobRecord)
    → Allowed sections
    → run_sections l new_class sections ≡ some c
    → record_of id c ≡ some r
    → r.attaching ≡ false
    → (lookup id c.attachments ≡ none)
      × ((not r.grouped || r.registered) ≡ true)
      × ((not r.resource || has_rank r.selection) ≡ true)
attachments_end_complete l c sections id r h e was shut =
    let v = (reached l c sections h e).inv in
    let s = v.sound id r was in
    (ground (arith, v.attached id), ground (arith, s.keyed, shut), ground (arith, s.selected, shut))
