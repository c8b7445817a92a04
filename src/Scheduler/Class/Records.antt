-- ===== src/Scheduler/Class/Records.antt =====
-- src/scheduler.rs: how the records of a class come and go, from the acceptance of a submission to the
-- removal of the job.
use solworker.Prelude.{
  ℕ, ◌+◌, ◌≡◌, refl, subst, true, false, ◌&&◌, not, Option, none, some, [], if◌then◌else◌, arith,
  inl, inr, Bool-cases, ◌==◌, ==_iff,
}
use solworker.Prelude.Results.{ok}
use solworker.Ready.Maps.{lookup, insert, lookup-insert}
use solworker.Scheduler.Class.{
  ClassState, Attachment, ClassLimits, JobRecord, Stage, finalizing, finishing, record_of,
}
use solworker.Scheduler.Class.Gate.{Submission, new_record, insert_record, accept}
use solworker.Scheduler.Class.Views.{
  runnable_weight, reserved_weight, attached_ok, Sound, total, total-insert, has_job,
  has_job-insert, lookup_known, Unique-insert,
}
use solworker.Scheduler.Class.Inv.{Inv, record_of-known}
use solworker.Scheduler.Class.Activation.{Fine}

new_record-Sound : (s : Submission) → Sound (new_record s)
unfolding new_record
new_record-Sound s = record {
  queued_closed = λ h. absurd (ground arith);
  selected = λ h k. absurd (ground arith);
  keyed = λ h k. absurd (ground arith);
  ranked = refl;
  reserving = λ h. refl;
  index_kept = ground arith;
  course_kept = refl;
}

-- No job has the next identity yet.
unknown :
    (c : ClassState)
    → Inv [] c
    → (has_job c.next_id c.jobs ≡ false) × (record_of c.next_id c ≡ none)
unfolding record_of
unknown c v =
    let absent : has_job c.next_id c.jobs ≡ false = ground (arith, v.known c.next_id) in
    (absent, ground (arith, lookup_known c.next_id c.jobs absent))

listed_now :
    (c : ClassState) (s : Submission) (j : ℕ)
    → record_of j (insert_record c s)
      ≡ (if c.next_id == j then some (new_record s) else record_of j c)
unfolding record_of insert_record
listed_now c s j = ground (arith, lookup-insert c.next_id j (some (new_record s)) c.jobs)

total_new :
    (w : Option JobRecord → ℕ) (c : ClassState) (s : Submission)
    → Inv [] c
    → w none ≡ 0
    → total w (insert c.next_id (some (new_record s)) c.jobs)
      ≡ total w c.jobs + w (some (new_record s))
unfolding record_of
total_new w c s v z =
    let t = total-insert w c.next_id (some (new_record s)) c.jobs z in
    let u = rw (unknown c v).1 at t in omega (arith, u, z)

abbrev token : Submission → Attachment
token s = record { owes_key = s.in_group; owes_selection = s.prioritized }

new_token :
    (c : ClassState) (s : Submission) (j : ℕ)
    → lookup j (insert_record c s).attachments
      ≡ (if c.next_id == j then some (token s) else lookup j c.attachments)
unfolding insert_record
new_token c s j = lookup-insert c.next_id j (token s) c.attachments

new_attached : (s : Submission) → attached_ok (some (token s)) (some (new_record s)) ≡ true
unfolding new_record
new_attached s = ground arith

-- A new record keeps the invariant.
pub insert_record-Fine : (c : ClassState) (s : Submission) → Inv [] c → Fine c (insert_record c s)
unfolding insert_record new_record
insert_record-Fine c s v = record {
  inv = record {
    ready_inv = v.ready_inv;
    deferred_inv = v.deferred_inv;
    ready_there =
        λ j. ground (arith, listed_now c s j, v.ready_there j, (unknown c v).1, ==_iff c.next_id j);
    deferred_there = λ j.
        ground (arith, listed_now c s j, v.deferred_there j, (unknown c v).1, ==_iff c.next_id j);
    runnable_counted = ground (arith, total_new runnable_weight c s v refl, v.runnable_counted);
    attaching_counted = ground (arith, total_new reserved_weight c s v refl, v.attaching_counted);
    slots_counted = v.slots_counted;
    unique = Unique-insert c.next_id (some (new_record s)) c.jobs v.unique;
    known = λ j h. ground (
      arith,
      has_job-insert c.next_id j (some (new_record s)) c.jobs,
      v.known j,
      ==_iff c.next_id j,
    );
    sound = λ j q e. elim (Bool-cases (c.next_id == j)) [
      | inl hit ↦
          let same : new_record s ≡ q = ground (arith, listed_now c s j) in
          subst Sound same (new_record-Sound s)
      | inr miss ↦ v.sound j q (ground (arith, listed_now c s j))
    ];
    settled =
        λ j q e. ground (arith, listed_now c s j, v.settled j q, v.unsettled j, ==_iff c.next_id j);
    settled_once = v.settled_once;
    unsettled = λ j h. v.unsettled j (omega (arith, h));
    updates_ranked = v.updates_ranked;
    attached = λ j. ground (
      arith,
      listed_now c s j,
      new_token c s j,
      new_attached s,
      v.attached j,
      ==_iff c.next_id j,
    );
  };
  handed_same = refl;
}

-- The submission gate either refuses, or adds one record and keeps the invariant.
pub accept-Fine :
    (l : ClassLimits) (c d : ClassState) (s : Submission)
    → Inv [] c
    → accept l c s ≡ ok d
    → Fine c d
unfolding accept
accept-Fine l c d s v h =
    let same : insert_record c s ≡ d = ground arith in
    subst (λ x. Fine c x) same (insert_record-Fine c s v)

gone_now :
    (c : ClassState) (id j : ℕ)
    → record_of j (record c { jobs = insert id none c.jobs })
      ≡ (if id == j then none else record_of j c)
unfolding record_of
gone_now c id j = ground (arith, lookup-insert id j none c.jobs)

total_taken :
    (w : Option JobRecord → ℕ) (c : ClassState) (id : ℕ) (r : JobRecord)
    → w none ≡ 0
    → record_of id c ≡ some r
    → w (some r) ≡ 0
    → total w (insert id none c.jobs) ≡ total w c.jobs
unfolding record_of
total_taken w c id r z was h =
    let t = total-insert w id none c.jobs z in let u = rw was at t in omega (arith, u, z, h)

finished :
    (r : JobRecord) (stage : Stage)
    → Sound r
    → r.course ≡ finishing
    → r.stage ≡ stage
    → (stage ≡ finalizing) × (r.runnable_reserved ≡ false) × (r.attaching ≡ false)
finished r finalizing s at e =
    (refl, ground (arith, s.course_kept, s.reserving), ground (arith, s.course_kept))
finished r _ s at e = absurd (ground (arith, s.course_kept))

pub finished_keyed :
    (r : JobRecord) → Sound r → r.course ≡ finishing → (r.grouped && not r.registered) ≡ false
finished_keyed r s at =
    let (stage, free, shut) = finished r r.stage s at refl in ground (arith, s.keyed, shut)

pub taken-Fine :
    (c : ClassState) (id : ℕ) (r : JobRecord)
    → Inv [] c
    → record_of id c ≡ some r
    → r.course ≡ finishing
    → Fine c (record c { jobs = insert id none c.jobs })
taken-Fine c id r v was at =
    let (stage, free, shut) = finished r r.stage (v.sound id r was) at refl in
    record {
      inv = record {
        ready_inv = v.ready_inv;
        deferred_inv = v.deferred_inv;
        ready_there = λ j. ground (arith, gone_now c id j, v.ready_there j, was, ==_iff id j);
        deferred_there = λ j. ground (arith, gone_now c id j, v.deferred_there j, was, ==_iff id j);
        runnable_counted =
            ground (arith, total_taken runnable_weight c id r refl was, v.runnable_counted);
        attaching_counted =
            ground (arith, total_taken reserved_weight c id r refl was, v.attaching_counted);
        slots_counted = v.slots_counted;
        unique = Unique-insert id none c.jobs v.unique;
        known = λ j h. ground (
          arith,
          has_job-insert id j none c.jobs,
          v.known j,
          v.known id,
          record_of-known c id r was,
          ==_iff id j,
        );
        sound = λ j q e. v.sound j q (ground (arith, gone_now c id j));
        settled = λ j q e. v.settled j q (ground (arith, gone_now c id j));
        settled_once = v.settled_once;
        unsettled = v.unsettled;
        updates_ranked = v.updates_ranked;
        attached = λ j. ground (arith, gone_now c id j, v.attached j, was, ==_iff id j);
      };
      handed_same = refl;
    }
