-- ===== src/Scheduler/Class/Promoted.antt =====
-- src/scheduler.rs, `apply_demand_updates` and `promote_locked` as a whole.
use solworker.Prelude.{
  ℕ, suc, ◌≡◌, refl, ◌∙◌, true, false, some, List, [], ◌∷◌, ==_iff, arith, inl, inr, Bool-cases,
  Option-cases,
}
use solworker.Demand.Selection.{Selection}
use solworker.Ready.Queue.{PendingQueue}
use solworker.Ready.Queue.Inv.{Inv as QueueInv}
use solworker.Ready.Queue.Members.{has, IsRanked, Grown, update_resource-Grown}
use solworker.Ready.ReadyQueue.{update_rank}
use solworker.Scheduler.Class.{
  ClassState, ClassLimits, JobRecord, Stage, waiting, ready, deferred_ready, handed, running,
  finalizing, record_of, put_record,
}
use solworker.Scheduler.Class.Promote.{
  mark_rebalance, is_newer, rerank, select_record, apply_update, apply_all, apply_demand_updates,
  refill, promote_locked, entries_of,
}
use solworker.Scheduler.Class.Views.{has_rank, Sound}
use solworker.Scheduler.Class.Inv.{
  Inv, Move, Move-Inv, Inv-aside, RankedUpdates, put-Tame, jobs-Tame,
}
use solworker.Scheduler.Class.Window.{Same, Same-refl, Same-fields, Same-trans, Filled, fill-Filled}
use solworker.Scheduler.Class.Repair.{Repaired, repair-Repaired}

has_rank-IsRanked : (s : Selection) → has_rank (some s) ≡ true → IsRanked (some s)
has_rank-IsRanked s h = elim (Option-cases s.priority) [
  | inl e ↦ absurd (ground arith)
  | inr (rank, e) ↦ (rank, e)
]

selected-Sound :
    (r : JobRecord) (s : Selection)
    → Sound r
    → has_rank (some s) ≡ true
    → Sound (record r { selection = some s })
selected-Sound r s v h = record {
  queued_closed = v.queued_closed;
  selected = λ k j. h;
  keyed = v.keyed;
  ranked = h;
  reserving = v.reserving;
  index_kept = v.index_kept;
  course_kept = v.course_kept;
}

-- A new selection for a record, with the queue that it stands in.
pub reselected-Move :
    (c d : ClassState) (id : ℕ) (r : JobRecord) (s : Selection) (qr qd : PendingQueue)
    → Inv [] c
    → record_of id c ≡ some r
    → has_rank (some s) ≡ true
    → QueueInv qr
    → QueueInv qd
    → ((j : ℕ) → has j qr ≡ has j c.ready_queue.pending)
    → ((j : ℕ) → has j qd ≡ has j c.deferred)
    → d ≡ record (put_record c id (record r { selection = some s })) {
      ready_queue = record (c.ready_queue) { pending = qr };
      deferred = qd;
      rebalance = d.rebalance;
    }
    → Move [] [] c d id r (record r { selection = some s })
unfolding put_record
reselected-Move c d id r s qr qd v was h vr vd mr md e = record {
  was = was;
  jobs_now = ground (arith, e);
  ready_inv = rw e vr;
  deferred_inv = rw e vd;
  ready_now = λ j. ground (arith, e, mr j, v.ready_there j, was, ==_iff id j);
  deferred_now = λ j. ground (arith, e, md j, v.deferred_there j, was, ==_iff id j);
  runnable_now = ground (arith, e);
  attaching_now = ground (arith, e);
  slots_now = ground (arith, e);
  next_same = ground (arith, e);
  sound_now = selected-Sound r s (v.sound id r was) h;
  outcomes_now = λ j. ground (arith, e);
  updates_same = ground (arith, e);
  attached_now = λ j. ground (arith, e, v.attached j, was, h, ==_iff id j);
}

-- The class after a part of `promote_locked`.
record Step (c d : ClassState) : Type 0 where
  inv : Inv [] d
  same : Same c d
  runnable_same : d.ready_queue.runnable ≡ c.ready_queue.runnable

regrown :
    (q p : PendingQueue) (id : ℕ) → Grown q p id → has id q ≡ true → (j : ℕ) → has j p ≡ has j q
regrown q p id g there j = ground (arith, g.members j, ==_iff id j)

resting :
    (c : ClassState) (id : ℕ) (r : JobRecord) (s : Selection)
    → Inv [] c
    → record_of id c ≡ some r
    → has_rank (some s) ≡ true
    → (d : ClassState) × (some (put_record c id (record r { selection = some s })) ≡ some d)
      × Step c d
unfolding put_record
resting c id r s v was h =
    let d = put_record c id (record r { selection = some s }) in
    (
      d,
      refl,
      record {
        inv =
            Move-Inv [] [] c d id r (record r { selection = some s }) v
              (reselected-Move c d id r s c.ready_queue.pending c.deferred v was h v.ready_inv
                v.deferred_inv (λ j. refl) (λ j. refl) refl);
        same =
            Same-fields c d (refl, refl, refl, refl, refl, refl)
              (put-Tame c d id r (record r { selection = some s }) was refl refl);
        runnable_same = refl;
      },
    )

rerank-Step :
    (c : ClassState) (id : ℕ) (r : JobRecord) (s : Selection) (stage : Stage)
    → Inv [] c
    → record_of id c ≡ some r
    → has_rank (some s) ≡ true
    → r.stage ≡ stage
    → (d : ClassState) × (rerank (put_record c id (record r { selection = some s })) id s stage
        ≡ some d)
      × Step c d
unfolding rerank update_rank mark_rebalance put_record
rerank-Step c id r s ready v was h at =
    let there : has id c.ready_queue.pending ≡ true = ground (arith, v.ready_there id, was, at) in
    let (q, e, g) =
      update_resource-Grown c.ready_queue.pending id s v.ready_inv (has_rank-IsRanked s h) in
    let d = record (put_record c id (record r { selection = some s })) {
      ready_queue = record (c.ready_queue) { pending = q };
      rebalance = true;
    } in
    (
      d,
      rw e,
      record {
        inv =
            Move-Inv [] [] c d id r (record r { selection = some s }) v
              (reselected-Move c d id r s q c.deferred v was h g.inv v.deferred_inv
                (regrown c.ready_queue.pending q id g there) (λ j. refl) refl);
        same =
            Same-fields c d (refl, refl, refl, refl, refl, refl)
              (put-Tame c d id r (record r { selection = some s }) was refl refl);
        runnable_same = refl;
      },
    )
rerank-Step c id r s deferred_ready v was h at =
    let there : has id c.deferred ≡ true = ground (arith, v.deferred_there id, was, at) in
    let (q, e, g) = update_resource-Grown c.deferred id s v.deferred_inv (has_rank-IsRanked s h) in
    let d = record (put_record c id (record r { selection = some s })) {
      deferred = q;
      rebalance = true;
    } in
    (
      d,
      rw e,
      record {
        inv =
            Move-Inv [] [] c d id r (record r { selection = some s }) v
              (reselected-Move c d id r s c.ready_queue.pending q v was h v.ready_inv g.inv
                (λ j. refl) (regrown c.deferred q id g there) refl);
        same =
            Same-fields c d (refl, refl, refl, refl, refl, refl)
              (put-Tame c d id r (record r { selection = some s }) was refl refl);
        runnable_same = refl;
      },
    )
rerank-Step c id r s waiting v was h at = resting c id r s v was h
rerank-Step c id r s handed v was h at = resting c id r s v was h
rerank-Step c id r s running v was h at = resting c id r s v was h
rerank-Step c id r s finalizing v was h at = resting c id r s v was h

apply_update-Step :
    (c : ClassState) (id : ℕ) (s : Selection)
    → Inv [] c
    → has_rank (some s) ≡ true
    → (d : ClassState) × (apply_update c id s ≡ some d) × Step c d
unfolding apply_update select_record
apply_update-Step c id s v h = elim (Option-cases (record_of id c)) [
  | inl gone ↦
      (c, rw (gone, apply_update), record { inv = v; same = Same-refl c; runnable_same = refl })
  | inr (r, was) ↦ elim (Bool-cases (is_newer r.selection s)) [
    | inr old ↦ (
      c,
      rw (was, apply_update, select_record, old),
      record { inv = v; same = Same-refl c; runnable_same = refl },
    )
    | inl newer ↦
        let (d, e, x) = rerank-Step c id r s r.stage v was h refl in
        (d, rw (was, apply_update, select_record, newer) e, x)
  ]
]

apply_all-Step :
    (c : ClassState) (updates : List (ℕ × Selection))
    → Inv [] c
    → RankedUpdates updates
    → (d : ClassState) × (apply_all c updates ≡ some d) × Step c d
unfolding apply_all
apply_all-Step c [] v h = (c, refl, record { inv = v; same = Same-refl c; runnable_same = refl })
apply_all-Step c ((id, s) ∷ updates) v h =
    let (b, e, x) = apply_update-Step c id s v h.0 in
    let (d, f, y) = apply_all-Step b updates x.inv h.1 in
    (
      d,
      rw (e, apply_all) f,
      record {
        inv = y.inv;
        same = Same-trans c b d x.same y.same;
        runnable_same = ground (arith, x.runnable_same, y.runnable_same);
      },
    )

drained-Inv : (c : ClassState) → Inv [] c → Inv [] (record c { updates = [] })
drained-Inv c v =
    Inv-aside [] c (record c { updates = [] }) v (refl, refl, refl, refl, refl, refl, refl, refl)
      v.slots_counted tt

settled-Inv : (c : ClassState) → Inv [] c → Inv [] (record c { rebalance = false })
settled-Inv c v =
    Inv-aside [] c (record c { rebalance = false }) v
      (refl, refl, refl, refl, refl, refl, refl, refl) v.slots_counted v.updates_ranked

composed :
    (l : ClassLimits) (c b a d : ClassState)
    → Step (record c { updates = [] }) b
    → Repaired b a
    → Filled l (record a { rebalance = false }) d
    → Filled l c d
composed l c b a d x y z = record {
  inv = z.inv;
  same = record {
    handed_same = omega (arith, x.same.handed_same, y.same.handed_same, z.same.handed_same);
    slots_same = omega (arith, x.same.slots_same, y.same.slots_same, z.same.slots_same);
    attaching_same =
        omega (arith, x.same.attaching_same, y.same.attaching_same, z.same.attaching_same);
    next_same = omega (arith, x.same.next_same, y.same.next_same, z.same.next_same);
    outcomes_same =
        ground (arith, x.same.outcomes_same, y.same.outcomes_same, z.same.outcomes_same);
    abandoned_same =
        ground (arith, x.same.abandoned_same, y.same.abandoned_same, z.same.abandoned_same);
    tame = λ j.
        z.same.tame j
        ∙ (jobs-Tame a (record a { rebalance = false }) refl j
            ∙ (y.same.tame j ∙ (x.same.tame j ∙ jobs-Tame c (record c { updates = [] }) refl j)));
  };
  conserving = z.conserving;
  bounded = omega (
    arith, z.bounded, x.runnable_same, y.fewer_runnable, x.same.attaching_same,
    y.same.attaching_same,
  );
}

-- From a class that meets the invariant, `promote_locked` does not panic and its loops end: the class
-- meets the invariant again, with the handoffs, the open attachments, the settled envelopes and the
-- identities of before; then the limit leaves no room or the deferred queue is empty, and the jobs
-- that are runnable or reserve a place are no more than the limit, or than they were.
pub promote_locked-Filled :
    (l : ClassLimits) (c : ClassState)
    → Inv [] c
    → (d : ClassState) × (promote_locked l c ≡ some d) × Filled l c d
unfolding promote_locked apply_demand_updates refill
promote_locked-Filled l c v =
    let (b, e, x) =
      apply_all-Step (record c { updates = [] }) c.updates (drained-Inv c v) v.updates_ranked in
    let (a, f, y) = repair-Repaired b x.inv in
    let (d, g, z) =
      fill-Filled (suc (entries_of a.deferred)) l (record a { rebalance = false })
        (settled-Inv a y.inv) (omega arith) in
    (d, rw (e, promote_locked, apply_demand_updates, f, refill) g, composed l c b a d x y z)
