-- ===== src/Scheduler/Class.antt =====
-- src/scheduler.rs, `ClassState` and `Record`: the records of one execution class, its ready queue and
-- its deferred queue, behind one gate. A function of the children is what one holder of the gate
-- does, or one holder of a record; `none` is a panic of the source, on an expectation that fails or a
-- count that would fall below zero.
pub mod Promote
pub mod Gate
pub mod Settle
pub mod Views
pub mod Inv
pub mod Enter
pub mod Window
pub mod Repair
pub mod Promoted
pub mod Leave
pub mod Claims
pub mod Activation
pub mod Closing
pub mod Resolution
pub mod Dispatch
pub mod Slots
pub mod Outcomes
pub mod Records
pub mod Attachments
pub mod Removal
pub mod History
pub mod Safety
pub mod Exclusive
use solworker.Prelude.{
  ℕ, zero, suc, ◌+◌, ◌-◌, Bool, true, false, ◌&&◌, ◌||◌, not, Option, none, some, List, [], ◌∷◌,
  ltb, ◌==◌, if◌then◌else◌, ◌>>=◌,
}
use solworker.Demand.Selection.{Selection}
use solworker.Ready.Maps.{lookup, insert, remove}
use solworker.Ready.Queue.{PendingQueue, empty_queue, push, peek, has_resources}
use solworker.Ready.ReadyQueue.{ReadyQueue, new_ready, push_runnable, remove_pending}

pub data Stage : Type 0 where
  waiting deferred_ready ready handed running finalizing : Stage

pub data TaskStatus : Type 0 where
  succeeded application_failed prerequisite_failed cancelled panicked abandoned : TaskStatus

pub data DependencyPolicy : Type 0 where
  success_only outcome_aware : DependencyPolicy

pub data Decision : Type 0 where
  run : Decision
  suppress : TaskStatus → Decision

-- How far the one settlement of a job has come: nobody has begun it; a claim or a suppression is
-- about to take the envelope; the body has returned; the finish waits for the attachment to close;
-- the finalization is enqueued. A record that was taken has no course any more.
pub data Course : Type 0 where
  untouched : Course
  settling : Decision → Course
  returned : Course
  deferred_finish : Course
  finishing : Course

-- The fields of `Record` that the gate decides on, with the membership in a group as a flag, and
-- `indexed` for the group's ready index.
pub record JobRecord : Type 0 where
  pub pending : ℕ
  pub failed : Bool
  pub policy : DependencyPolicy
  pub stage : Stage
  pub caller_eligible : Bool
  pub grouped : Bool
  pub registered : Bool
  pub indexed : Bool
  pub attaching : Bool
  pub resource : Bool
  pub runnable_reserved : Bool
  pub selection : Option Selection
  pub course : Course

-- Where the thread of a submission stands between the acceptance and the end of the attachment: it
-- has still to register the member of a group, or to take the selection of a resource from the demand
-- graph.
pub record Attachment : Type 0 where
  pub owes_key : Bool
  pub owes_selection : Bool

-- A job whose record was taken stays listed until it is removed. `slots` counts the handoff wrappers
-- and reservations that live, `outcomes` lists the
-- envelopes that were settled, and `attachments` the submissions that hold an accepted record.
pub record ClassState : Type 0 where
  pub jobs : List (ℕ × Option JobRecord)
  pub ready_queue : ReadyQueue
  pub deferred : PendingQueue
  pub rebalance : Bool
  pub attaching_runnable : ℕ
  pub updates : List (ℕ × Selection)
  pub is_abandoned : Bool
  pub slots : ℕ
  pub next_id : ℕ
  pub attachments : List (ℕ × Attachment)
  pub outcomes : List (ℕ × Decision)

-- The limits of the class.
pub record ClassLimits : Type 0 where
  pub runnable_limit : ℕ
  pub handoff_limit : ℕ

unfoldable pub new_class : ClassState
new_class = record {
  jobs = [];
  ready_queue = new_ready;
  deferred = empty_queue;
  rebalance = false;
  attaching_runnable = 0;
  updates = [];
  is_abandoned = false;
  slots = 0;
  next_id = 1;
  attachments = [];
  outcomes = [];
}

abbrev pub stage_eq : Stage → Stage → Bool
stage_eq waiting waiting = true
stage_eq deferred_ready deferred_ready = true
stage_eq ready ready = true
stage_eq handed handed = true
stage_eq running running = true
stage_eq finalizing finalizing = true
stage_eq _ _ = false

abbrev pub flatten {ℓ} : {A : Type ℓ} → Option (Option A) → Option A
flatten none = none
flatten (some o) = o

-- The live record of a job.
unfoldable pub record_of : ℕ → ClassState → Option JobRecord
record_of id c = flatten (lookup id c.jobs)

unfoldable pub put_record : ClassState → ℕ → JobRecord → ClassState
put_record c id r = record c { jobs = insert id (some r) c.jobs }

-- The record in the group's index, with the new stage.
unfoldable pub indexed_as : JobRecord → Stage → JobRecord
indexed_as r stage = record r {
  stage = stage;
  indexed = (r.caller_eligible && r.grouped) || r.indexed;
}

-- `index_group`, with the new stage; `none` is the panic on a member that is not registered.
unfoldable pub index_group : JobRecord → Stage → Option JobRecord
index_group r stage =
    if (r.caller_eligible && r.grouped) && not r.registered then none else some (indexed_as r stage)

-- `unindex_group`, with the new stage.
unfoldable pub unindex_group : JobRecord → Stage → JobRecord
unindex_group r stage = record r {
  stage = stage;
  indexed = not (r.caller_eligible && (r.grouped && r.registered)) && r.indexed;
}

-- What a record is queued with: nothing, or the selection that a resource must have.
unfoldable pub queue_key : JobRecord → Option (Option Selection)
queue_key r =
    if r.resource then elim r.selection [ none ↦ none | some s ↦ some (some s) ] else some none

unfoldable pub mixed : ClassState → Bool
mixed c = has_resources c.ready_queue.pending || has_resources c.deferred

unfoldable pub is_head : Option ℕ → ℕ → Bool
is_head none id = false
is_head (some head) id = head == id

-- `remove_ready`.
unfoldable pub remove_ready : ClassState → ℕ → ClassState
remove_ready c id = record c {
  rebalance = c.rebalance || (not (is_head (peek c.ready_queue.pending) id) && mixed c);
  ready_queue = remove_pending c.ready_queue id;
}

abbrev pub with_ready : ClassState → Option ReadyQueue → Option ClassState
with_ready c none = none
with_ready c (some q) = some (record c { ready_queue = q })

abbrev pub with_deferred : ClassState → Option PendingQueue → Option ClassState
with_deferred c none = none
with_deferred c (some q) = some (record c { deferred = q })

-- The entry of the ready queue that `push_ready_unindexed` makes.
unfoldable pub enqueue_ready : ClassState → ℕ → JobRecord → Option ClassState
enqueue_ready c id r = elim (queue_key r) [
  | none ↦ none
  | some key ↦ with_ready c (push_runnable c.ready_queue id key)
]

-- `push_ready`, with the new stage of the record. The index of the group is part of the record, so
-- that `push_ready_unindexed` with `mark_ready_many` under the same gate is the same, and so is the
-- panic on a member that is not registered.
unfoldable pub push_ready : ClassState → ℕ → JobRecord → Option ClassState
push_ready c id r = elim (index_group r ready) [
  | none ↦ none
  | some s ↦ enqueue_ready (put_record (record c { rebalance = true }) id s) id r
]

unfoldable pub note_mixed : ClassState → Bool → ClassState
note_mixed c resource = record c { rebalance = c.rebalance || (resource || mixed c) }

abbrev pub note_after : Option ClassState → Bool → Option ClassState
note_after none resource = none
note_after (some c) resource = some (note_mixed c resource)

-- `push_deferred`, with the new stage of the record.
unfoldable pub push_deferred : ClassState → ℕ → JobRecord → Option ClassState
push_deferred c id r = elim (queue_key r) [
  | none ↦ none
  | some key ↦
      note_after
        (with_deferred (put_record c id (record r { stage = deferred_ready }))
          (push c.deferred id key))
        r.resource
]
