-- ===== src/Examples/Classes.antt =====
-- Concrete runs of the theorems on the classes of src/scheduler.rs.
use solworker.Prelude.{
  not, ◌||◌, ℕ, ◌+◌, ◌≤◌, ◌⊎◌, max, length, ◌≡◌, ◌≢◌, refl, true, false, Option, none, some, List,
  [], ◌∷◌,
}
use solworker.Scheduler.Class.{
  waiting, new_class, record_of, put_record, indexed_as, index_group, unindex_group, queue_key,
  enqueue_ready, push_ready, note_mixed, push_deferred, ClassState, ClassLimits, JobRecord,
  success_only, running, ready, returned, untouched, run,
}
use solworker.Scheduler.Class.Promote.{
  is_newer, apply_update, select_record, rerank, mark_rebalance, apply_all, apply_demand_updates,
  drop_runnable, unready_record, unready, drain_ready, restore_deferred, restore_drained, repair,
  has_room, admit_record, admit, fill, refill, promote_locked,
}
use solworker.Scheduler.Class.Gate.{
  register_member, key_given, select_now, attach_selection, prerequisite, count_prerequisite,
  awaits, saturated, runs_inline, new_record, insert_record, accept, verdict, may_activate,
  queue_record, activate_record, activate, begin_settling, leave_queue, release_runnable,
  leave_gate, claimable, claim_live, claim_gate, Submission,
}
use solworker.Scheduler.Class.Settle.{
  publish_portion, publish_each, publish_member, activate_here, range_activation, range_member,
  count_key, activate_each, activate_range, mark_record, mark_finalizing, finish_course,
  finish_live, finish_record, take_live, take_record, remove_job, post_update, hand_off,
  select_ready, available_slots, dispatch, settle_record, settle, closed_course, close_record,
  may_close, close_here, unreserve, close_attachment,
}
use solworker.Scheduler.Class.History.{
  step, run_sections, Section, submission, closing, activation, dispatching, claim, settlement,
  Allowed, registration, attachment, portion, resolution_range, demand_update, marking,
  finishing_section, taking, removal,
}
use solworker.Demand.Selection.{Selection}
use solworker.Ready.Queue.{
  update_resource, has_resources, is_empty, insert_at, push, push_front, remove_id, peek, pop,
  PendingQueue, empty_queue, ordinary,
}
use solworker.Ready.ReadyQueue.{update_rank, push_runnable, pop_ready}
use solworker.Ready.Maps.{
  set_insert, set_remove, key_eq, lookup, insert, remove, map_insert, map_remove,
}
use solworker.Prelude.Int.{pos, next, prior}
use solworker.Range.{quantum}
use solworker.Ready.Queue.Members.{has}
use solworker.Scheduler.Class.{deferred_ready}
use solworker.Scheduler.Class.Views.{
  has_rank, in_stage, runnable_weight, reserved_weight, total, is_past, fits_course, count_outcomes,
}
use solworker.Scheduler.Class.Exclusive.{claim_excludes}
use solworker.Scheduler.Class.Inv.{course_in}
use solworker.Scheduler.Class.Gate.{suppress_gate, ClaimOutcome, ran}
use solworker.Scheduler.Class.{settling, cancelled, remove_ready, is_head, mixed}
use solworker.Ready.ReadyQueue.{remove_pending}
use solworker.Scheduler.Class.Safety.{
  attachments_end_complete, run_sections-total, queues_match, settled_once, settled_exactly,
  handoffs_bounded, promote_conserves, dispatch_bounded,
}

abbrev narrow : ClassLimits
narrow = record { runnable_limit = 1; handoff_limit = 2 }

abbrev plain : Submission
plain = record {
  prerequisites = 0;
  submission_policy = success_only;
  eligible = false;
  in_group = false;
  prioritized = false;
  allow_inline = false;
  reserved = true;
  batch_member = false;
  fits_context = true;
}

-- Two jobs of which one is deferred; the first is dispatched, claimed and settled.
abbrev busy_day : List Section
busy_day =
    submission plain
    ∷ closing 1
    ∷ activation 1 false
    ∷ submission plain
    ∷ closing 2
    ∷ activation 2 false
    ∷ dispatching
    ∷ claim 1 false
    ∷ settlement 1
    ∷ []

busy_day-Allowed : Allowed busy_day
busy_day-Allowed = (refl, (refl, (refl, (refl, (refl, (refl, (refl, (refl, (refl, tt)))))))))

abbrev settled_record : JobRecord
settled_record = record {
  pending = 0;
  failed = false;
  policy = success_only;
  stage = running;
  caller_eligible = false;
  grouped = false;
  registered = false;
  indexed = false;
  attaching = false;
  resource = false;
  runnable_reserved = false;
  selection = none;
  course = returned;
}

abbrev waiting_queue : PendingQueue
waiting_queue = record empty_queue {
  ordinary_route = (pos 0, 2) ∷ [];
  entries = (2, ordinary (pos 0)) ∷ [];
  back = pos 1;
}

abbrev evening : ClassState
evening = record {
  jobs =
      (1, some settled_record)
      ∷ (2, some (record settled_record { stage = ready; course = untouched }))
      ∷ [];
  ready_queue = record { pending = waiting_queue; runnable = 1; handed_off = 1 };
  deferred = empty_queue;
  rebalance = false;
  attaching_runnable = 0;
  updates = [];
  is_abandoned = false;
  slots = 1;
  next_id = 3;
  attachments = [];
  outcomes = (1, run) ∷ [];
}

day_ends : run_sections narrow new_class busy_day ≡ some evening
unfolding lookup insert remove is_empty new_class record_of put_record indexed_as index_group
    unindex_group queue_key enqueue_ready push_ready note_mixed push_deferred apply_all
    apply_demand_updates drop_runnable unready_record unready drain_ready restore_deferred
    restore_drained repair has_room admit_record admit fill refill promote_locked saturated
    runs_inline new_record insert_record accept verdict may_activate queue_record activate_record
    activate begin_settling leave_queue release_runnable leave_gate claimable claim_live claim_gate
    hand_off select_ready available_slots dispatch settle_record settle closed_course close_record
    may_close close_here unreserve close_attachment step run_sections insert_at push push_front
    remove_id peek pop push_runnable pop_ready map_insert map_remove next prior
day_ends = refl

-- A resource in a group: its key and its selection come before the end of the attachment, which is
-- tried too early once; a range resolves its prerequisite, and it is dispatched, claimed, settled and
-- removed.
abbrev member : Submission
member = record plain { prerequisites = 1; eligible = true; in_group = true; prioritized = true }

abbrev first_choice : Selection
first_choice = record { priority = some 3; active = true; tie = pos 0; version = 1 }

abbrev member_day : List Section
member_day =
    submission member
    ∷ closing 1
    ∷ registration 1
    ∷ attachment 1 first_choice
    ∷ portion (1 ∷ [])
    ∷ resolution_range (1 ∷ []) true
    ∷ demand_update 1 (record first_choice { priority = some 5; version = 2 })
    ∷ dispatching
    ∷ claim 1 true
    ∷ settlement 1
    ∷ marking 1
    ∷ finishing_section 1
    ∷ taking 1
    ∷ removal 1
    ∷ []

member_day-Allowed : Allowed member_day
member_day-Allowed = (
  refl,
  (
    refl,
    (
      refl,
      (refl, (refl, (refl, (refl, (refl, (refl, (refl, (refl, (refl, (refl, (refl, tt))))))))))),
    ),
  ),
)

run_sections-total_example : (d : ClassState) × (run_sections narrow new_class member_day ≡ some d)
run_sections-total_example = run_sections-total narrow member_day member_day-Allowed

abbrev jobs_left : Option ClassState → Option (List (ℕ × Option JobRecord))
jobs_left none = none
jobs_left (some c) = some c.jobs

-- The job is gone at the end, and settled once.
member_leaves : jobs_left (run_sections narrow new_class member_day) ≡ some []
unfolding lookup insert remove is_empty new_class record_of put_record indexed_as index_group
    unindex_group queue_key enqueue_ready push_ready note_mixed push_deferred apply_all
    apply_demand_updates drop_runnable unready_record unready drain_ready restore_deferred
    restore_drained repair has_room admit_record admit fill refill promote_locked saturated
    runs_inline new_record insert_record accept verdict may_activate queue_record activate_record
    activate begin_settling leave_queue release_runnable leave_gate claimable claim_live claim_gate
    hand_off select_ready available_slots dispatch settle_record settle closed_course close_record
    may_close close_here unreserve close_attachment step run_sections insert_at push push_front
    remove_id peek pop push_runnable pop_ready map_insert map_remove next prior remove_ready is_head
    remove_pending mixed register_member key_given select_now attach_selection is_newer prerequisite
    count_prerequisite awaits publish_portion publish_each publish_member activate_here
    range_activation range_member count_key activate_each activate_range mark_record mark_finalizing
    finish_course finish_live finish_record take_live take_record remove_job post_update
    apply_update select_record rerank mark_rebalance update_resource update_rank has_resources
    set_insert set_remove key_eq
member_leaves = refl

abbrev morning : List Section
morning =
    submission member
    ∷ closing 1
    ∷ registration 1
    ∷ attachment 1 first_choice
    ∷ closing 1
    ∷ submission member
    ∷ []

morning-Allowed : Allowed morning
morning-Allowed = (refl, (refl, (refl, (refl, (refl, (refl, tt))))))

abbrev member_record : JobRecord
member_record = record settled_record {
  pending = 1;
  stage = waiting;
  caller_eligible = true;
  grouped = true;
  registered = true;
  resource = true;
  selection = some first_choice;
  course = untouched;
}

abbrev noon : ClassState
noon = record new_class {
  jobs =
      (1, some member_record)
      ∷ (2, some (record member_record { registered = false; selection = none; attaching = true }))
      ∷ [];
  next_id = 3;
  attachments = (2, record { owes_key = true; owes_selection = true }) ∷ [];
}

morning_ends : run_sections narrow new_class morning ≡ some noon
unfolding lookup insert remove is_empty new_class record_of put_record indexed_as index_group
    unindex_group queue_key enqueue_ready push_ready note_mixed push_deferred apply_all
    apply_demand_updates drop_runnable unready_record unready drain_ready restore_deferred
    restore_drained repair has_room admit_record admit fill refill promote_locked saturated
    runs_inline new_record insert_record accept verdict may_activate queue_record activate_record
    activate begin_settling leave_queue release_runnable leave_gate claimable claim_live claim_gate
    hand_off select_ready available_slots dispatch settle_record settle closed_course close_record
    may_close close_here unreserve close_attachment step run_sections insert_at push push_front
    remove_id peek pop push_runnable pop_ready map_insert map_remove next prior register_member
    key_given select_now attach_selection is_newer
morning_ends = refl

member_listed : record_of 1 noon ≡ some member_record
unfolding record_of lookup
member_listed = refl

attachments_end_complete_example :
    (lookup 1 noon.attachments ≡ none)
    × ((not member_record.grouped || member_record.registered) ≡ true)
    × ((not member_record.resource || has_rank member_record.selection) ≡ true)
attachments_end_complete_example =
    attachments_end_complete narrow noon morning 1 member_record morning-Allowed morning_ends
      member_listed refl

queues_match_example :
    ((id : ℕ) → has id evening.ready_queue.pending ≡ in_stage ready (record_of id evening))
    × ((id : ℕ) → has id evening.deferred ≡ in_stage deferred_ready (record_of id evening))
    × (evening.ready_queue.runnable ≡ total runnable_weight evening.jobs)
    × (evening.attaching_runnable ≡ total reserved_weight evening.jobs)
queues_match_example = queues_match narrow evening busy_day busy_day-Allowed day_ends

settled_once_example : count_outcomes 1 evening.outcomes ≤ 1
settled_once_example = settled_once narrow evening busy_day 1 busy_day-Allowed day_ends

first_listed : record_of 1 evening ≡ some settled_record
unfolding record_of lookup
first_listed = refl

settled_exactly_example :
    (count_outcomes 1 evening.outcomes ≡ is_past settled_record.course)
    × (fits_course settled_record.stage settled_record.attaching settled_record.course ≡ true)
settled_exactly_example =
    settled_exactly narrow evening busy_day 1 settled_record busy_day-Allowed day_ends first_listed

handoffs_bounded_example :
    (evening.ready_queue.handed_off ≡ evening.slots)
    × (evening.ready_queue.handed_off ≤ narrow.handoff_limit)
handoffs_bounded_example = handoffs_bounded narrow evening busy_day busy_day-Allowed day_ends

promote_conserves_example :
    (d : ClassState) × (promote_locked narrow evening ≡ some d)
    × ((has_room narrow d ≡ false) ⊎ (pop d.deferred ≡ none))
    × (d.ready_queue.runnable + d.attaching_runnable
        ≤ max narrow.runnable_limit (evening.ready_queue.runnable + evening.attaching_runnable))
promote_conserves_example = promote_conserves narrow evening busy_day busy_day-Allowed day_ends

dispatch_bounded_example :
    (d : ClassState) × (ids : List ℕ) × (dispatch narrow evening ≡ some (d, ids))
    × (length ids ≤ quantum)
    × (d.ready_queue.handed_off ≡ evening.ready_queue.handed_off + length ids)
    × (d.ready_queue.handed_off ≤ narrow.handoff_limit)
dispatch_bounded_example = dispatch_bounded narrow evening busy_day busy_day-Allowed day_ends

abbrev night : ClassState
night = record evening {
  jobs =
      (1, some settled_record) ∷ (2, some (record settled_record { course = settling run })) ∷ [];
  ready_queue = record { pending = empty_queue; runnable = 0; handed_off = 1 };
}

second_claim : claim_gate narrow evening 2 false ≡ some (night, ran)
unfolding lookup insert remove is_empty new_class record_of put_record indexed_as index_group
    unindex_group queue_key enqueue_ready push_ready note_mixed push_deferred apply_all
    apply_demand_updates drop_runnable unready_record unready drain_ready restore_deferred
    restore_drained repair has_room admit_record admit fill refill promote_locked saturated
    runs_inline new_record insert_record accept verdict may_activate queue_record activate_record
    activate begin_settling leave_queue release_runnable leave_gate claimable claim_live claim_gate
    hand_off select_ready available_slots dispatch settle_record settle closed_course close_record
    may_close close_here unreserve close_attachment step run_sections insert_at push push_front
    remove_id peek pop push_runnable pop_ready map_insert map_remove next prior remove_ready is_head
    remove_pending mixed
second_claim = refl

claim_excludes_example :
    (course_in (record_of 2 night) ≡ some (settling run))
    × (suppress_gate narrow night 2 cancelled ≡ some night)
    × (o : ClaimOutcome) × (claim_gate narrow night 2 true ≡ some (night, o))
    × (o ≢ ran)
claim_excludes_example =
    claim_excludes narrow evening night busy_day 2 false true cancelled busy_day-Allowed day_ends
      second_claim
