-- ===== src/Scheduler/Class/Settle.antt =====
-- src/scheduler.rs and src/scheduler/bulk.rs: the dispatch of ready jobs, the end of an attachment and
-- the settlement of a job, up to the removal of its record.
use solworker.Prelude.{
  ℕ, zero, suc, ◌+◌, ◌-◌, Bool, true, false, ◌&&◌, not, Option, none, some, List, [], ◌∷◌, leb, ltb,
  ◌==◌, if◌then◌else◌, min, length,
}
use solworker.Demand.Selection.{Selection}
use solworker.Ready.Maps.{lookup, insert, remove}
use solworker.Ready.ReadyQueue.{pop_ready}
use solworker.Range.{quantum}
use solworker.Scheduler.Class.{
  ClassState, Attachment, ClassLimits, JobRecord, handed, finalizing, TaskStatus, Course, settling,
  returned, deferred_finish, finishing, stage_eq, record_of, put_record,
}
use solworker.Scheduler.Class.Promote.{promote_locked}
use solworker.Scheduler.Class.Gate.{activate_record, may_activate, awaits, count_prerequisite}

unfoldable pub hand_off : ClassState → ℕ → JobRecord → ClassState
hand_off c id r = record (put_record c id (record r { stage = handed })) {
  ready_queue = record (c.ready_queue) { handed_off = c.ready_queue.handed_off + 1 };
  slots = c.slots + 1;
}

-- The loop of `dispatch_class_ready` over the available slots; the list is that of the jobs to hand
-- to the backend.
unfoldable pub select_ready : ℕ → ClassState → Option (ClassState × List ℕ)
select_ready zero c = some (c, [])
select_ready (suc available) c = elim (pop_ready c.ready_queue) [
  | none ↦ some (c, [])
  | some (id, q) ↦ elim (record_of id c) [
    | none ↦ none
    | some r ↦ elim (select_ready available (hand_off (record c { ready_queue = q }) id r)) [
      | none ↦ none
      | some (d, ids) ↦ some (d, id ∷ ids)
    ]
  ]
]

unfoldable pub available_slots : ClassLimits → ClassState → ℕ
available_slots l c = min quantum (l.handoff_limit - c.ready_queue.handed_off)

-- One round of `dispatch_class_ready` under the gate.
unfoldable pub dispatch : ClassLimits → ClassState → Option (ClassState × List ℕ)
dispatch l c =
    if c.is_abandoned
    then some (c, [])
    else elim (promote_locked l c) [ none ↦ none | some d ↦ select_ready (available_slots l d) d ]

-- `Handoff::drop` and `ReservedHandoffs::drop`: so many slots come back. More than there are is ruled
-- out by the source's ownership.
unfoldable pub return_slots : ClassState → ℕ → Option ClassState
return_slots c n =
    if ltb c.slots n
    then some c
    else if ltb c.ready_queue.handed_off n
    then none
    else some (record c {
      ready_queue = record (c.ready_queue) { handed_off = c.ready_queue.handed_off - n };
      slots = c.slots - n;
    })

-- `settle`: the envelope runs or suppresses its payload, and returns.
unfoldable pub settle_record : ClassState → ℕ → JobRecord → ClassState
settle_record c id r = elim r.course [
  | settling d ↦ record (put_record c id (record r { course = returned })) {
    outcomes = (id, d) ∷ c.outcomes;
  }
  | _ ↦ c
]

unfoldable pub settle : ClassState → ℕ → ClassState
settle c id = elim (record_of id c) [ none ↦ c | some r ↦ settle_record c id r ]

-- The rest of `settle`, which marks the record before `finish_record`.
unfoldable pub mark_record : ClassState → ℕ → JobRecord → ClassState
mark_record c id r = elim r.course [
  | returned ↦ put_record c id (record r { stage = finalizing })
  | _ ↦ c
]

unfoldable pub mark_finalizing : ClassState → ℕ → ClassState
mark_finalizing c id = elim (record_of id c) [ none ↦ c | some r ↦ mark_record c id r ]

-- `finish_record`: the result is published and the finalization enqueued, unless the attachment is
-- open, whose end does it then. The stage was marked before.
unfoldable pub finish_course : JobRecord → Course
finish_course r = if r.attaching then deferred_finish else finishing

unfoldable pub finish_live : ClassState → ℕ → JobRecord → ClassState
finish_live c id r = elim r.course [
  | returned ↦
      if stage_eq r.stage finalizing
      then put_record c id (record r { course = finish_course r })
      else c
  | _ ↦ c
]

unfoldable pub finish_record : ClassState → ℕ → ClassState
finish_record c id = elim (record_of id c) [ none ↦ c | some r ↦ finish_live c id r ]

unfoldable pub closed_course : Course → Course
closed_course deferred_finish = finishing
closed_course k = k

unfoldable pub close_record : JobRecord → JobRecord
close_record r = record r {
  attaching = false;
  runnable_reserved = false;
  course = closed_course r.course;
}

-- The thread of the submission has come to the end of its attachment: the registration of a member
-- and the selection of a resource stand before it in the program.
unfoldable pub may_close : Attachment → Bool
may_close a = not a.owes_key && not a.owes_selection

unfoldable pub unreserve : ClassState → Bool → Option ClassState
unreserve c false = some c
unreserve c true =
    if c.attaching_runnable == 0
    then none
    else some (record c { attaching_runnable = c.attaching_runnable - 1 })

-- The submission gives its record up; `none` is the panic of `publish_portion_controls` on a record
-- that is gone, or on a count below zero.
unfoldable pub close_here : ClassState → ℕ → Option ClassState
close_here c id = elim (record_of id c) [
  | none ↦ none
  | some r ↦
      unreserve
        (record (put_record c id (close_record r)) { attachments = remove id c.attachments })
        r.runnable_reserved
]

-- The end of an attachment, as `publish_portion_controls` has it for each member and
-- `submit_payload_accounted` for a record without a reserved slot; the activation follows. Only the
-- thread that holds the attachment runs it, and it runs it last.
unfoldable pub close_attachment : ClassState → ℕ → Option ClassState
close_attachment c id = elim (lookup id c.attachments) [
  | none ↦ some c
  | some a ↦ if may_close a then close_here c id else some c
]

-- The job of a portion or of a range that is activated under one gate with the others.
unfoldable pub activate_here :
    ClassLimits → ClassState → ℕ → Option (ClassState × Option TaskStatus)
activate_here l c id = elim (record_of id c) [
  | none ↦ some (c, none)
  | some r ↦ if may_activate r then activate_record l c id r false else some (c, none)
]

-- The statuses are those of the suppressions that follow, with their jobs.
abbrev pub add_status :
    ℕ
    → Option TaskStatus
    → Option (ClassState × List (ℕ × TaskStatus))
    → Option (ClassState × List (ℕ × TaskStatus))
add_status id status none = none
add_status id none (some (c, more)) = some (c, more)
add_status id (some status) (some (c, more)) = some (c, (id, status) ∷ more)

unfoldable pub publish_member :
    ClassLimits → ClassState → ℕ → Option (ClassState × Option TaskStatus)
publish_member l c id = elim (close_attachment c id) [ none ↦ none | some d ↦ activate_here l d id ]

-- The loop of `publish_portion_controls` under the gate.
unfoldable pub publish_each :
    ClassLimits → ClassState → List ℕ → Option (ClassState × List (ℕ × TaskStatus))
publish_each l c [] = some (c, [])
publish_each l c (id ∷ ids) = elim (publish_member l c id) [
  | none ↦ none
  | some (d, status) ↦ add_status id status (publish_each l d ids)
]

-- The gate of `publish_portion_controls`, with its assertion.
unfoldable pub publish_portion :
    ClassLimits → ClassState → List ℕ → Option (ClassState × List (ℕ × TaskStatus))
publish_portion l c ids = if leb (length ids) quantum then publish_each l c ids else none

-- A member of a range is activated by its one prerequisite, unless its attachment is open.
unfoldable pub range_activation :
    ClassLimits → ClassState → ℕ → JobRecord → Option (ClassState × Option TaskStatus)
range_activation l c id r = if r.attaching then some (c, none) else activate_record l c id r false

unfoldable pub range_member :
    ClassLimits → ClassState → ℕ → Bool → Option (ClassState × Option TaskStatus)
range_member l c id success = elim (record_of id c) [
  | none ↦ some (c, none)
  | some r ↦
      if awaits r
      then range_activation l (put_record c id (count_prerequisite r success)) id
          (count_prerequisite r success)
      else some (c, none)
]

abbrev pub is_indexed : Option JobRecord → Bool
is_indexed none = false
is_indexed (some r) = r.indexed

-- The keys that are collected, after a member.
unfoldable pub count_key : ClassState → ClassState → ℕ → ℕ → ℕ
count_key c d id count =
    if is_indexed (record_of id d) && not (is_indexed (record_of id c)) then count + 1 else count

-- The loop of `activate_prerequisite_range`; a key past the array's end is a panic.
unfoldable pub activate_each :
    ClassLimits → ClassState → List ℕ → Bool → ℕ → Option (ClassState × List (ℕ × TaskStatus))
activate_each l c [] success count = some (c, [])
activate_each l c (id ∷ ids) success count = elim (range_member l c id success) [
  | none ↦ none
  | some (d, status) ↦
      let rest = activate_each l d ids success (count_key c d id count) in
      if ltb quantum (count_key c d id count) then none else add_status id status rest
]

-- The gate of `activate_prerequisite_range`.
unfoldable pub activate_range :
    ClassLimits → ClassState → List ℕ → Bool → Option (ClassState × List (ℕ × TaskStatus))
activate_range l c ids success = activate_each l c ids success 0

-- `finalize_record`: the record is taken, and then the job removed. A member of a group that was not
-- registered is a panic.
unfoldable pub take_live : ClassState → ℕ → JobRecord → Option ClassState
take_live c id r = elim r.course [
  | finishing ↦
      if r.grouped && not r.registered
      then none
      else some (record c { jobs = insert id none c.jobs })
  | _ ↦ some c
]

unfoldable pub take_record : ClassState → ℕ → Option ClassState
take_record c id = elim (record_of id c) [ none ↦ some c | some r ↦ take_live c id r ]

-- The mailbox entry of a removed job goes with it.
unfoldable pub remove_job : ClassState → ℕ → ClassState
remove_job c id = elim (lookup id c.jobs) [
  | none ↦ c
  | some (some r) ↦ c
  | some none ↦ record c { jobs = remove id c.jobs; updates = remove id c.updates }
]

-- `updates.entry(id).or_insert(selection)`, or the newer selection.
unfoldable pub post_update : ClassState → ℕ → Selection → ClassState
post_update c id s = elim (lookup id c.updates) [
  | none ↦ record c { updates = insert id s c.updates }
  | some old ↦ if ltb old.version s.version then record c { updates = insert id s c.updates } else c
]

-- The cut of `abandon`, as this class sees it; the suppressions follow.
unfoldable pub abandon : ClassState → ClassState
abandon c = record c { is_abandoned = true }
