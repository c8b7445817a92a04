-- ===== src/Scheduler/Class/Removal.antt =====
-- src/scheduler.rs, `finalize_record`: the record is taken and the job removed.
use solworker.Prelude.{
  ℕ, ◌≡◌, refl, false, ◌&&◌, not, Option, none, some, [], arith, inl, inr, Option-cases, ==_iff,
}
use solworker.Ready.Maps.{lookup, insert, remove, lookup-remove}
use solworker.Scheduler.Class.{
  ClassState, JobRecord, Course, untouched, settling, returned, deferred_finish, finishing,
  record_of,
}
use solworker.Scheduler.Class.Settle.{take_record, take_live, remove_job}
use solworker.Scheduler.Class.Views.{
  runnable_weight, reserved_weight, total, total-remove, has_job-remove, Unique-remove,
}
use solworker.Scheduler.Class.Inv.{Inv}
use solworker.Scheduler.Class.Activation.{Fine}
use solworker.Scheduler.Class.Records.{taken-Fine, finished_keyed}
use solworker.Scheduler.Class.Slots.{RankedUpdates-remove}

take_live-Fine :
    (c : ClassState) (id : ℕ) (r : JobRecord) (k : Course)
    → Inv [] c
    → record_of id c ≡ some r
    → r.course ≡ k
    → (d : ClassState) × (take_live c id r ≡ some d) × Fine c d
unfolding take_live
take_live-Fine c id r finishing v was at =
    let keyed : (r.grouped && not r.registered) ≡ false = finished_keyed r (v.sound id r was) at in
    (
      record c { jobs = insert id none c.jobs },
      rw (at, take_live, keyed),
      taken-Fine c id r v was at,
    )
take_live-Fine c id r untouched v was at =
    (c, rw (at, take_live), record { inv = v; handed_same = refl })
take_live-Fine c id r returned v was at =
    (c, rw (at, take_live), record { inv = v; handed_same = refl })
take_live-Fine c id r deferred_finish v was at =
    (c, rw (at, take_live), record { inv = v; handed_same = refl })
take_live-Fine c id r (settling d) v was at =
    (c, rw (at, take_live), record { inv = v; handed_same = refl })

-- The record of a finished job is taken without a panic.
pub take_record-Fine :
    (c : ClassState) (id : ℕ) → Inv [] c → (d : ClassState) × (take_record c id ≡ some d) × Fine c d
unfolding take_record
take_record-Fine c id v = elim (Option-cases (record_of id c)) [
  | inl gone ↦ (c, rw (gone, take_record), record { inv = v; handed_same = refl })
  | inr (r, was) ↦
      let (d, e, x) = take_live-Fine c id r r.course v was refl in (d, rw (was, take_record) e, x)
]

abbrev removed_with : ClassState → ℕ → ClassState
removed_with c id = record c { jobs = remove id c.jobs; updates = remove id c.updates }

same_records :
    (c : ClassState) (id j : ℕ)
    → lookup id c.jobs ≡ some none
    → record_of j (removed_with c id) ≡ record_of j c
unfolding record_of
same_records c id j h = ground (arith, lookup-remove id j c.jobs, ==_iff id j)

total_removed :
    (w : Option JobRecord → ℕ) (c : ClassState) (id : ℕ)
    → Inv [] c
    → w none ≡ 0
    → lookup id c.jobs ≡ some none
    → total w (remove id c.jobs) ≡ total w c.jobs
total_removed w c id v z h =
    let t = total-remove w id c.jobs z v.unique in let u = rw h at t in omega (arith, u, z)

removed-Fine :
    (c : ClassState) (id : ℕ) → Inv [] c → lookup id c.jobs ≡ some none → Fine c (removed_with c id)
removed-Fine c id v h = record {
  inv = record {
    ready_inv = v.ready_inv;
    deferred_inv = v.deferred_inv;
    ready_there = λ j. rw (same_records c id j h) (v.ready_there j);
    deferred_there = λ j. rw (same_records c id j h) (v.deferred_there j);
    runnable_counted = rw (total_removed runnable_weight c id v refl h) v.runnable_counted;
    attaching_counted = rw (total_removed reserved_weight c id v refl h) v.attaching_counted;
    slots_counted = v.slots_counted;
    unique = Unique-remove id c.jobs v.unique;
    known = λ j k. ground (arith, has_job-remove id j c.jobs, v.known j);
    sound = λ j q e. v.sound j q (ground (arith, same_records c id j h));
    settled = λ j q e. v.settled j q (ground (arith, same_records c id j h));
    settled_once = v.settled_once;
    unsettled = v.unsettled;
    updates_ranked = RankedUpdates-remove id c.updates v.updates_ranked;
    attached = λ j. rw (same_records c id j h) (v.attached j);
  };
  handed_same = refl;
}

pub remove_job-Fine : (c : ClassState) (id : ℕ) → Inv [] c → Fine c (remove_job c id)
unfolding remove_job
remove_job-Fine c id v = elim (Option-cases (lookup id c.jobs)) [
  | inl gone ↦ rw (gone, remove_job) (record { inv = v; handed_same = refl })
  | inr (o, e) ↦ elim (Option-cases o) [
    | inr (r, f) ↦ rw (e, remove_job, f) (record { inv = v; handed_same = refl })
    | inl taken ↦ rw (e, remove_job, taken) (removed-Fine c id v (rw (e, taken)))
  ]
]
