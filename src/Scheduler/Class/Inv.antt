-- ===== src/Scheduler/Class/Inv.antt =====
-- src/scheduler.rs: what the queues, the counts and the records of a class agree on. `taken` lists
-- what the repair of the runnable window has in hand.
use solworker.Prelude.{
  ℕ, ◌+◌, ◌≤◌, ◌<◌, ◌≡◌, refl, subst, Bool, true, false, ◌||◌, Option, none, some, List, [], ◌∷◌,
  ◌==◌, ==_iff, if◌then◌else◌, arith, inl, inr, Bool-cases,
}
use solworker.Demand.Selection.{Selection}
use solworker.Ready.Maps.{lookup, insert, lookup-insert}
use solworker.Ready.Queue.Inv.{Inv as QueueInv, empty_queue-Inv}
use solworker.Ready.Queue.Members.{has}
use solworker.Scheduler.Class.{
  Course, ClassState, JobRecord, ready, deferred_ready, new_class, flatten, record_of,
}
use solworker.Scheduler.Class.Views.{
  attached_ok, in_stage, runnable_weight, reserved_weight, is_past, has_rank, Sound, total, has_job,
  Unique, count_outcomes, total-insert, has_job-insert, Unique-insert,
}

abbrev pub in_hand : ℕ → List (ℕ × Option Selection) → Bool
in_hand id [] = false
in_hand id ((j, key) ∷ taken) = (j == id) || in_hand id taken

-- What the demand graph posts has a rank.
abbrev pub RankedUpdates : List (ℕ × Selection) → Type 0
RankedUpdates [] = Unit {0}
RankedUpdates ((id, s) ∷ updates) = (has_rank (some s) ≡ true) × RankedUpdates updates

pub record Inv (taken : List (ℕ × Option Selection)) (c : ClassState) : Type 0 where
  pub ready_inv : QueueInv c.ready_queue.pending
  pub deferred_inv : QueueInv c.deferred
  pub ready_there : (id : ℕ) → has id c.ready_queue.pending ≡ in_stage ready (record_of id c)
  pub deferred_there :
      (id : ℕ) → (has id c.deferred || in_hand id taken) ≡ in_stage deferred_ready (record_of id c)
  pub runnable_counted : c.ready_queue.runnable ≡ total runnable_weight c.jobs
  pub attaching_counted : c.attaching_runnable ≡ total reserved_weight c.jobs
  pub slots_counted : c.ready_queue.handed_off ≡ c.slots
  pub unique : Unique c.jobs
  pub known : (id : ℕ) → has_job id c.jobs ≡ true → id < c.next_id
  pub sound : (id : ℕ) (r : JobRecord) → record_of id c ≡ some r → Sound r
  pub settled :
      (id : ℕ) (r : JobRecord)
      → record_of id c ≡ some r
      → count_outcomes id c.outcomes ≡ is_past r.course
  pub settled_once : (id : ℕ) → count_outcomes id c.outcomes ≤ 1
  pub unsettled : (id : ℕ) → c.next_id ≤ id → count_outcomes id c.outcomes ≡ 0
  pub updates_ranked : RankedUpdates c.updates
  pub attached : (id : ℕ) → attached_ok (lookup id c.attachments) (record_of id c) ≡ true

-- A step that puts one record in the place of another.
pub record Move (before after : List (ℕ × Option Selection)) (c d : ClassState) (id : ℕ)
    (r s : JobRecord) : Type 0 where
  pub was : record_of id c ≡ some r
  pub jobs_now : d.jobs ≡ insert id (some s) c.jobs
  pub ready_inv : QueueInv d.ready_queue.pending
  pub deferred_inv : QueueInv d.deferred
  pub ready_now :
      (j : ℕ)
      → has j d.ready_queue.pending
        ≡ (if id == j then in_stage ready (some s) else has j c.ready_queue.pending)
  pub deferred_now :
      (j : ℕ)
      → (has j d.deferred || in_hand j after) ≡ (
          if id == j
          then in_stage deferred_ready (some s)
          else has j c.deferred || in_hand j before)
  pub runnable_now :
      d.ready_queue.runnable + runnable_weight (some r)
      ≡ c.ready_queue.runnable + runnable_weight (some s)
  pub attaching_now :
      d.attaching_runnable + reserved_weight (some r)
      ≡ c.attaching_runnable + reserved_weight (some s)
  pub slots_now : d.ready_queue.handed_off + c.slots ≡ c.ready_queue.handed_off + d.slots
  pub next_same : d.next_id ≡ c.next_id
  pub sound_now : Sound s
  pub outcomes_now :
      (j : ℕ)
      → count_outcomes j d.outcomes + (if id == j then is_past r.course else 0)
        ≡ count_outcomes j c.outcomes + (if id == j then is_past s.course else 0)
  pub updates_same : d.updates ≡ c.updates
  pub attached_now :
      (j : ℕ)
      → attached_ok (lookup j d.attachments) (if id == j then some s else record_of j c) ≡ true

is_past_le : (k : _) → is_past k ≤ 1
is_past_le k = ground arith

pub record_of-insert :
    (c d : ClassState) (id j : ℕ) (s : JobRecord)
    → d.jobs ≡ insert id (some s) c.jobs
    → record_of j d ≡ (if id == j then some s else record_of j c)
unfolding record_of
record_of-insert c d id j s e = rw e (ground (arith, lookup-insert id j (some s) c.jobs))

listed :
    (id : ℕ) (r : JobRecord) (jobs : List (ℕ × Option JobRecord))
    → flatten (lookup id jobs) ≡ some r
    → has_job id jobs ≡ true
unfolding lookup
listed id r [] h = absurd (ground arith)
listed id r ((i, o) ∷ jobs) h = ground (arith, listed id r jobs)

pub record_of-known :
    (c : ClassState) (id : ℕ) (r : JobRecord) → record_of id c ≡ some r → has_job id c.jobs ≡ true
unfolding record_of
record_of-known c id r e = listed id r c.jobs e

totals_move :
    (w : Option JobRecord → ℕ) (c d : ClassState) (id : ℕ) (r s : JobRecord)
    → w none ≡ 0
    → record_of id c ≡ some r
    → d.jobs ≡ insert id (some s) c.jobs
    → total w d.jobs + w (some r) ≡ total w c.jobs + w (some s)
unfolding record_of
totals_move w c d id r s z e f = let t = total-insert w id (some s) c.jobs z in rw f (rw e at t)

known_move :
    (before : List (ℕ × Option Selection)) (c d : ClassState) (id j : ℕ) (r s : JobRecord)
    → Inv before c
    → record_of id c ≡ some r
    → d.jobs ≡ insert id (some s) c.jobs
    → d.next_id ≡ c.next_id
    → has_job j d.jobs ≡ true
    → j < d.next_id
known_move before c d id j r s v e f n h =
    let there = record_of-known c id r e in
    let known : has_job j (insert id (some s) c.jobs) ≡ true = rw f at h in
    ground (arith, has_job-insert id j (some s) c.jobs, v.known j, v.known id, ==_iff id j)

Sound-move :
    (c d : ClassState) (id j : ℕ) (s q : JobRecord)
    → ((i : ℕ) (p : JobRecord) → record_of i c ≡ some p → Sound p)
    → Sound s
    → d.jobs ≡ insert id (some s) c.jobs
    → record_of j d ≡ some q
    → Sound q
Sound-move c d id j s q old new e h = elim (Bool-cases (id == j)) [
  | inl hit ↦
      let same : s ≡ q = ground (arith, record_of-insert c d id j s e) in subst Sound same new
  | inr miss ↦ old j q (ground (arith, record_of-insert c d id j s e))
]

pub Move-Inv :
    (before after : List (ℕ × Option Selection)) (c d : ClassState) (id : ℕ) (r s : JobRecord)
    → Inv before c
    → Move before after c d id r s
    → Inv after d
Move-Inv before after c d id r s v m =
    let now : (j : ℕ) → record_of j d ≡ (if id == j then some s else record_of j c) =
      λ j. record_of-insert c d id j s m.jobs_now in
    record {
      ready_inv = m.ready_inv;
      deferred_inv = m.deferred_inv;
      ready_there = λ j. ground (arith, m.ready_now j, now j, v.ready_there j);
      deferred_there = λ j. ground (arith, m.deferred_now j, now j, v.deferred_there j);
      runnable_counted = omega (
        arith,
        totals_move runnable_weight c d id r s refl m.was m.jobs_now,
        m.runnable_now,
        v.runnable_counted,
      );
      attaching_counted = omega (
        arith,
        totals_move reserved_weight c d id r s refl m.was m.jobs_now,
        m.attaching_now,
        v.attaching_counted,
      );
      slots_counted = omega (arith, m.slots_now, v.slots_counted);
      unique = rw m.jobs_now (Unique-insert id (some s) c.jobs v.unique);
      known = λ j h. known_move before c d id j r s v m.was m.jobs_now m.next_same h;
      sound = λ j q e. Sound-move c d id j s q v.sound m.sound_now m.jobs_now e;
      settled = λ j q e.
          ground
            (arith, m.outcomes_now j, now j, v.settled j q, v.settled id r, m.was, ==_iff id j);
      settled_once = λ j. ground (
        arith,
        m.outcomes_now j,
        v.settled_once j,
        v.settled id r m.was,
        is_past_le s.course,
        ==_iff id j,
      );
      unsettled = λ j h. ground (
        arith,
        m.outcomes_now j,
        v.unsettled j,
        v.known id (record_of-known c id r m.was),
        m.next_same,
        ==_iff id j,
      );
      updates_ranked = rw m.updates_same v.updates_ranked;
      attached = λ j. rw (now j) (m.attached_now j);
    }

-- The invariant does not read the other fields of a class.
pub Inv-aside :
    (taken : List (ℕ × Option Selection)) (c d : ClassState)
    → Inv taken c
    → (d.jobs ≡ c.jobs)
      × (d.ready_queue.pending ≡ c.ready_queue.pending)
      × (d.ready_queue.runnable ≡ c.ready_queue.runnable)
      × (d.deferred ≡ c.deferred)
      × (d.attaching_runnable ≡ c.attaching_runnable)
      × (d.next_id ≡ c.next_id)
      × (d.outcomes ≡ c.outcomes)
      × (d.attachments ≡ c.attachments)
    → d.ready_queue.handed_off ≡ d.slots
    → RankedUpdates d.updates
    → Inv taken d
unfolding record_of
Inv-aside taken c d v (jobs, pending, runnable, deferred, attaching, next, outcomes, tokens) slots
      updates =
    record {
      ready_inv = rw pending v.ready_inv;
      deferred_inv = rw deferred v.deferred_inv;
      ready_there = λ j. ground (arith, v.ready_there j, pending, jobs);
      deferred_there = λ j. ground (arith, v.deferred_there j, deferred, jobs);
      runnable_counted = rw (runnable, jobs) v.runnable_counted;
      attaching_counted = rw (attaching, jobs) v.attaching_counted;
      slots_counted = slots;
      unique = rw jobs v.unique;
      known = λ j h. rw next (v.known j (rw jobs at h));
      sound = λ j r e. v.sound j r (rw jobs at e);
      settled = λ j r e. rw outcomes (v.settled j r (rw jobs at e));
      settled_once = λ j. rw outcomes (v.settled_once j);
      unsettled = λ j h. rw outcomes (v.unsettled j (rw next at h));
      updates_ranked = updates;
      attached = λ j. rw (tokens, jobs) (v.attached j);
    }

pub Inv-new : Inv [] new_class
unfolding new_class record_of lookup has
Inv-new = record {
  ready_inv = empty_queue-Inv;
  deferred_inv = empty_queue-Inv;
  ready_there = λ j. refl;
  deferred_there = λ j. refl;
  runnable_counted = refl;
  attaching_counted = refl;
  slots_counted = refl;
  unique = tt;
  known = λ j h. absurd (ground arith);
  sound = λ j r h. absurd (ground arith);
  settled = λ j r h. absurd (ground arith);
  settled_once = λ j. omega arith;
  unsettled = λ j h. refl;
  updates_ranked = tt;
  attached = λ j. refl;
}

-- The course of a job, while its record lives.
abbrev pub course_in : Option JobRecord → Option Course
course_in none = none
course_in (some r) = some r.course

-- No record's course changes.
abbrev pub Tame : ClassState → ClassState → Type 0
Tame c d = (j : ℕ) → course_in (record_of j d) ≡ course_in (record_of j c)

pub put-Tame :
    (c d : ClassState) (id : ℕ) (r s : JobRecord)
    → record_of id c ≡ some r
    → s.course ≡ r.course
    → d.jobs ≡ insert id (some s) c.jobs
    → Tame c d
put-Tame c d id r s was same e j = ground (arith, record_of-insert c d id j s e, ==_iff id j)

pub jobs-Tame : (c d : ClassState) → d.jobs ≡ c.jobs → Tame c d
unfolding record_of
jobs-Tame c d e j = rw e
