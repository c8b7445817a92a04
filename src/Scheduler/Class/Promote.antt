-- ===== src/Scheduler/Class/Promote.antt =====
-- src/scheduler.rs, `promote_locked` with `apply_demand_updates`: the repair and the refill of the
-- runnable window. The groups that it collects for notification keep no state of the class.
use solworker.Prelude.{
  ℕ, zero, suc, ◌+◌, ◌-◌, Bool, true, false, ◌&&◌, not, Option, none, some, List, [], ◌∷◌, ltb,
  ◌==◌, if◌then◌else◌, length,
}
use solworker.Demand.Selection.{Selection}
use solworker.Ready.Queue.{PendingQueue, pop, push_front, update_resource, is_empty}
use solworker.Ready.ReadyQueue.{ReadyQueue, pop_ready, update_rank}
use solworker.Scheduler.Class.{
  ClassState, ClassLimits, JobRecord, Stage, deferred_ready, ready, stage_eq, record_of, put_record,
  index_group, unindex_group, queue_key, enqueue_ready, with_ready, with_deferred,
}

-- `record.selection.is_none_or(|previous| previous.version < selection.version)`.
unfoldable pub is_newer : Option Selection → Selection → Bool
is_newer none s = true
is_newer (some old) s = ltb old.version s.version

unfoldable pub mark_rebalance : ClassState → ClassState
mark_rebalance c = record c { rebalance = true }

-- The queue that a record stands in takes the new rank.
unfoldable pub rerank : ClassState → ℕ → Selection → Stage → Option ClassState
rerank c id s ready = with_ready (mark_rebalance c) (update_rank c.ready_queue id s)
rerank c id s deferred_ready = with_deferred (mark_rebalance c) (update_resource c.deferred id s)
rerank c id s _ = some c

unfoldable pub select_record : ClassState → ℕ → JobRecord → Selection → Option ClassState
select_record c id r s =
    if is_newer r.selection s
    then rerank (put_record c id (record r { selection = some s })) id s r.stage
    else some c

unfoldable pub apply_update : ClassState → ℕ → Selection → Option ClassState
apply_update c id s = elim (record_of id c) [ none ↦ some c | some r ↦ select_record c id r s ]

unfoldable pub apply_all : ClassState → List (ℕ × Selection) → Option ClassState
apply_all c [] = some c
apply_all c ((id, s) ∷ updates) = elim (apply_update c id s) [
  | none ↦ none
  | some d ↦ apply_all d updates
]

-- `apply_demand_updates`: the mailbox is drained first.
unfoldable pub apply_demand_updates : ClassState → Option ClassState
apply_demand_updates c = apply_all (record c { updates = [] }) c.updates

unfoldable pub drop_runnable : ReadyQueue → Option ReadyQueue
drop_runnable q = if q.runnable == 0 then none else some (record q { runnable = q.runnable - 1 })

-- The body of the loop that takes the unhanded window back.
unfoldable pub unready_record : ClassState → ℕ → JobRecord → Option (ClassState × Option Selection)
unready_record c id r =
    elim (with_ready (put_record c id (unindex_group r deferred_ready))
      (drop_runnable c.ready_queue)) [
        | none ↦ none
        | some d ↦ elim (queue_key r) [ none ↦ none | some key ↦ some (d, key) ]
      ]

unfoldable pub unready : ClassState → ℕ → Option (ClassState × Option Selection)
unready c id = elim (record_of id c) [ none ↦ none | some r ↦ unready_record c id r ]

-- The loop, on fuel. The last popped comes first, which is the order of
-- `pending.into_iter().rev()`.
unfoldable pub drain_ready :
    ℕ → ClassState → List (ℕ × Option Selection) → Option (ClassState × List (ℕ × Option Selection))
drain_ready zero c taken = none
drain_ready (suc fuel) c taken = elim (pop_ready c.ready_queue) [
  | none ↦ some (c, taken)
  | some (id, q) ↦ elim (unready (record c { ready_queue = q }) id) [
    | none ↦ none
    | some (d, key) ↦ drain_ready fuel d ((id, key) ∷ taken)
  ]
]

unfoldable pub restore_deferred : ClassState → List (ℕ × Option Selection) → Option ClassState
restore_deferred c [] = some c
restore_deferred c ((id, key) ∷ taken) = elim (with_deferred c (push_front c.deferred id key)) [
  | none ↦ none
  | some d ↦ restore_deferred d taken
]

abbrev pub entries_of : PendingQueue → ℕ
entries_of q = length q.entries

unfoldable pub restore_drained :
    Option (ClassState × List (ℕ × Option Selection)) → Option ClassState
restore_drained none = none
restore_drained (some (c, taken)) = restore_deferred c taken

-- A drain visits each entry of the ready queue once, and then finds it empty.
unfoldable pub repair : ClassState → Option ClassState
repair c =
    if c.rebalance && not (is_empty c.deferred)
    then restore_drained (drain_ready (suc (entries_of c.ready_queue.pending)) c [])
    else some c

unfoldable pub has_room : ClassLimits → ClassState → Bool
has_room l c = ltb (c.ready_queue.runnable + c.attaching_runnable) l.runnable_limit

-- One entry of the deferred queue becomes ready; another stage than `DeferredReady` is skipped.
unfoldable pub admit_record : ClassState → ℕ → JobRecord → Option ClassState
admit_record c id r =
    if stage_eq r.stage deferred_ready
    then elim (index_group r ready) [
      | none ↦ none
      | some s ↦ enqueue_ready (put_record c id s) id r
    ]
    else some c

unfoldable pub admit : ClassState → ℕ → Option ClassState
admit c id = elim (record_of id c) [ none ↦ none | some r ↦ admit_record c id r ]

unfoldable pub fill : ℕ → ClassLimits → ClassState → Option ClassState
fill zero l c = none
fill (suc fuel) l c = elim (has_room l c) [
  | false ↦ some c
  | true ↦ elim (pop c.deferred) [
    | none ↦ some c
    | some (id, q) ↦ elim (admit (record c { deferred = q }) id) [
      | none ↦ none
      | some d ↦ fill fuel l d
    ]
  ]
]

unfoldable pub refill : ClassLimits → ClassState → Option ClassState
refill l c = fill (suc (entries_of c.deferred)) l (record c { rebalance = false })

-- `promote_locked`.
unfoldable pub promote_locked : ClassLimits → ClassState → Option ClassState
promote_locked l c = elim (apply_demand_updates c) [
  | none ↦ none
  | some d ↦ elim (repair d) [ none ↦ none | some e ↦ refill l e ]
]
