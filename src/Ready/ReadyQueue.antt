-- ===== src/Ready/ReadyQueue.antt =====
-- src/scheduler/ready.rs, `ReadyQueue`: the pending queue with the runnable and handoff counts.
use solworker.Prelude.{ℕ, ◌+◌, Option, none, some}
use solworker.Demand.Selection.{Selection}
use solworker.Ready.Queue.{PendingQueue, empty_queue, push, update_resource, pop, remove_id}

pub record ReadyQueue : Type 0 where
  pub pending : PendingQueue
  pub runnable : ℕ
  pub handed_off : ℕ

abbrev pub new_ready : ReadyQueue
new_ready = record { pending = empty_queue; runnable = 0; handed_off = 0 }

abbrev one_more : ReadyQueue → Option PendingQueue → Option ReadyQueue
one_more q none = none
one_more q (some pending) = some (record q { pending = pending; runnable = q.runnable + 1 })

-- `ReadyQueue::push`, and `push_resource` where there is a selection.
unfoldable pub push_runnable : ReadyQueue → ℕ → Option Selection → Option ReadyQueue
push_runnable q id selection = one_more q (push q.pending id selection)

abbrev with_pending : ReadyQueue → Option PendingQueue → Option ReadyQueue
with_pending q none = none
with_pending q (some pending) = some (record q { pending = pending })

unfoldable pub update_rank : ReadyQueue → ℕ → Selection → Option ReadyQueue
update_rank q id selection = with_pending q (update_resource q.pending id selection)

unfoldable pub pop_ready : ReadyQueue → Option (ℕ × ReadyQueue)
pop_ready q = elim (pop q.pending) [
  | none ↦ none
  | some (id, pending) ↦ some (id, record q { pending = pending })
]

-- Removal does not change the counts, which include handed work.
unfoldable pub remove_pending : ReadyQueue → ℕ → ReadyQueue
remove_pending q id = record q { pending = remove_id q.pending id }
