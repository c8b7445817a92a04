-- ===== src/Scheduler/Class/Gate.antt =====
-- src/scheduler.rs: what the holder of a class gate or of a record does to one job, from its
-- acceptance to its claim or suppression.
use solworker.Prelude.{
  ℕ, ◌+◌, ◌-◌, Bool, true, false, ◌&&◌, ◌||◌, not, Option, none, some, ◌==◌, if◌then◌else◌,
}
use solworker.Prelude.Results.{Result, ok, err}
use solworker.Demand.Selection.{Selection}
use solworker.Ready.Maps.{lookup, insert}
use solworker.Ready.Queue
use solworker.Scheduler.Class.{
  ClassState, Attachment, ClassLimits, JobRecord, Stage, waiting, deferred_ready, ready, handed,
  running, finalizing, TaskStatus, prerequisite_failed, abandoned, DependencyPolicy, success_only,
  outcome_aware, Decision, run, suppress, untouched, settling, stage_eq, record_of, put_record,
  unindex_group, remove_ready, push_ready, push_deferred, note_mixed,
}
use solworker.Scheduler.Class.Promote.{has_room, drop_runnable, promote_locked, is_newer}

pub data SpawnError : Type 0 where
  closed full invalid_context : SpawnError

-- What a submission asks for, as far as the gate decides on it.
pub record Submission : Type 0 where
  pub prerequisites : ℕ
  pub submission_policy : DependencyPolicy
  pub eligible : Bool
  pub in_group : Bool
  pub prioritized : Bool
  pub allow_inline : Bool
  pub reserved : Bool
  pub batch_member : Bool
  pub fits_context : Bool

unfoldable pub saturated : ClassLimits → ClassState → Submission → Bool
saturated l c s = (s.prerequisites == 0) && not (has_room l c)

unfoldable pub runs_inline : ClassLimits → ClassState → Submission → Bool
runs_inline l c s = saturated l c s && (s.allow_inline && s.eligible)

abbrev pub holds_slot : Submission → Bool
holds_slot s = s.batch_member && (s.prerequisites == 0)

unfoldable pub new_record : Submission → JobRecord
new_record s = record {
  pending = s.prerequisites;
  failed = false;
  policy = s.submission_policy;
  stage = waiting;
  caller_eligible = s.eligible;
  grouped = s.in_group;
  registered = false;
  indexed = false;
  attaching = true;
  resource = s.prioritized;
  runnable_reserved = holds_slot s;
  selection = none;
  course = untouched;
}

abbrev pub one_if : Bool → ℕ
one_if true = 1
one_if false = 0

unfoldable pub insert_record : ClassState → Submission → ClassState
insert_record c s = record c {
  jobs = insert c.next_id (some (new_record s)) c.jobs;
  attaching_runnable = c.attaching_runnable + one_if (holds_slot s);
  next_id = c.next_id + 1;
  attachments =
      insert c.next_id (record { owes_key = s.in_group; owes_selection = s.prioritized })
        c.attachments;
}

-- The gate of `submit_payload_accounted`. The group, the capacity and the delivery ticket are decided
-- before this by their own parts.
unfoldable pub accept : ClassLimits → ClassState → Submission → Result SpawnError ClassState
accept l c s =
    if c.is_abandoned
    then err closed
    else if s.batch_member && saturated l c s
    then err full
    else if runs_inline l c s && not s.fits_context
    then err invalid_context
    else if saturated l c s && (not (runs_inline l c s) && not s.reserved)
    then err full
    else ok (insert_record c s)

-- What the submission has still to do.
abbrev pub owe : ClassState → ℕ → Attachment → ClassState
owe c id a = record c { attachments = insert id a c.attachments }

unfoldable pub key_given : ClassState → ℕ → Attachment → Option ClassState
key_given c id a = elim (record_of id c) [
  | none ↦ none
  | some r ↦
      some
        (owe (put_record c id (record r { registered = true })) id (record a { owes_key = false }))
]

-- The submission stores the key of a group member; `none` is the panic of its expectation that the
-- attachment keeps the record.
unfoldable pub register_member : ClassState → ℕ → Option ClassState
register_member c id = elim (lookup id c.attachments) [
  | none ↦ some c
  | some a ↦ if a.owes_key then key_given c id a else some c
]

unfoldable pub select_now : ClassState → ℕ → Selection → ClassState
select_now c id s = elim (record_of id c) [
  | none ↦ c
  | some r ↦ if is_newer r.selection s then put_record c id (record r { selection = some s }) else c
]

-- The submission stores the selection that the demand graph gives at the registration.
unfoldable pub attach_selection : ClassState → ℕ → Selection → ClassState
attach_selection c id s = elim (lookup id c.attachments) [
  | none ↦ c
  | some a ↦ owe (select_now c id s) id (record a { owes_selection = false })
]

-- The record part of `activate_prerequisite`.
unfoldable pub count_prerequisite : JobRecord → Bool → JobRecord
count_prerequisite r success = record r {
  pending = r.pending - 1;
  failed = r.failed || not success;
}

unfoldable pub awaits : JobRecord → Bool
awaits r = stage_eq r.stage waiting && not (r.pending == 0)

unfoldable pub prerequisite : ClassState → ℕ → Bool → ClassState
prerequisite c id success = elim (record_of id c) [
  | none ↦ c
  | some r ↦ if awaits r then put_record c id (count_prerequisite r success) else c
]

-- The status with which an activation ends a job, if it does.
unfoldable pub verdict : ClassState → JobRecord → Option TaskStatus
verdict c r =
    if c.is_abandoned
    then some abandoned
    else if r.failed && is_success_only r.policy
    then some prerequisite_failed
    else none
  where
    is_success_only : DependencyPolicy → Bool
    is_success_only success_only = true
    is_success_only outcome_aware = false

unfoldable pub may_activate : JobRecord → Bool
may_activate r = stage_eq r.stage waiting && ((r.pending == 0) && not r.attaching)

-- The queue that an activated record enters.
unfoldable pub queue_record : ClassLimits → ClassState → ℕ → JobRecord → Bool → Option ClassState
queue_record l c id r inline =
    if inline || has_room l c then push_ready c id r else push_deferred c id r

-- The status is that of a suppression which follows.
unfoldable pub activate_record :
    ClassLimits → ClassState → ℕ → JobRecord → Bool → Option (ClassState × Option TaskStatus)
activate_record l c id r inline = elim (verdict c r) [
  | some status ↦ some (c, some status)
  | none ↦ elim (queue_record l c id r inline) [ none ↦ none | some d ↦ some (d, none) ]
]

-- The gate of `activate_ready`.
unfoldable pub activate :
    ClassLimits → ClassState → ℕ → Bool → Option (ClassState × Option TaskStatus)
activate l c id inline = elim (record_of id c) [
  | none ↦ some (c, none)
  | some r ↦ if may_activate r then activate_record l c id r inline else some (c, none)
]

-- The settlement that a winner of the gate begins. The envelope is there to take once.
unfoldable pub begin_settling : JobRecord → Decision → JobRecord
begin_settling r d = elim r.course [ untouched ↦ record r { course = settling d } | _ ↦ r ]

abbrev pub counts_runnable : Stage → Bool
counts_runnable ready = true
counts_runnable handed = true
counts_runnable _ = false

-- The queue that a suppressed or claimed record leaves.
unfoldable pub leave_queue : ClassState → ℕ → JobRecord → ClassState
leave_queue c id r = elim r.stage [
  | ready ↦ remove_ready c id
  | deferred_ready ↦ note_mixed (record c { deferred = Queue.remove_id c.deferred id }) r.resource
  | _ ↦ c
]

-- `state.ready.runnable -= 1` with the promotion after it.
unfoldable pub release_runnable : ClassLimits → ClassState → Option ClassState
release_runnable l c = elim (drop_runnable c.ready_queue) [
  | none ↦ none
  | some q ↦ promote_locked l (record c { ready_queue = q })
]

unfoldable pub leave_gate : ClassLimits → ClassState → ℕ → JobRecord → JobRecord → Option ClassState
leave_gate l c id r gone =
    if counts_runnable r.stage
    then release_runnable l (leave_queue (put_record c id gone) id r)
    else some (leave_queue (put_record c id gone) id r)

abbrev pub suppressible : Stage → Bool
suppressible running = false
suppressible finalizing = false
suppressible _ = true

abbrev pub status_now : ClassState → TaskStatus → TaskStatus
status_now c status = if c.is_abandoned then abandoned else status

-- The gate of `suppress`.
unfoldable pub suppress_gate : ClassLimits → ClassState → ℕ → TaskStatus → Option ClassState
suppress_gate l c id status = elim (record_of id c) [
  | none ↦ some c
  | some r ↦
      if suppressible r.stage
      then leave_gate l c id r
          (begin_settling (unindex_group r finalizing) (suppress (status_now c status)))
      else some c
]

pub data ClaimOutcome : Type 0 where
  ran lost unavailable : ClaimOutcome

unfoldable pub claimable : JobRecord → Bool → Bool
claimable r caller = counts_runnable r.stage && (not caller || r.caller_eligible)

abbrev pub with_outcome : Option ClassState → Option (ClassState × ClaimOutcome)
with_outcome none = none
with_outcome (some c) = some (c, ran)

unfoldable pub claim_live : ClassLimits → ClassState → ℕ → Bool → Option (ClassState × ClaimOutcome)
claim_live l c id caller = elim (record_of id c) [
  | none ↦ some (c, lost)
  | some r ↦
      if claimable r caller
      then with_outcome (leave_gate l c id r (begin_settling (unindex_group r running) run))
      else some (c, lost)
]

-- The gate of `claim_and_run`, for a holder of an execution lease.
unfoldable pub claim_gate : ClassLimits → ClassState → ℕ → Bool → Option (ClassState × ClaimOutcome)
claim_gate l c id caller =
    if c.is_abandoned then some (c, unavailable) else claim_live l c id caller
