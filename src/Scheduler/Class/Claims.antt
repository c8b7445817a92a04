-- ===== src/Scheduler/Class/Claims.antt =====
-- src/scheduler.rs: the gates of `suppress` and `claim_and_run`.
use solworker.Prelude.{
  ℕ, ◌≡◌, refl, ◌∙◌, Option, Bool, true, false, ◌&&◌, not, some, [], arith, inl, inr, Bool-cases,
  Option-cases, ◌⊎◌,
}
use solworker.Scheduler.Class.{
  ClassState, ClassLimits, JobRecord, Stage, waiting, ready, deferred_ready, handed, running,
  finalizing, Decision, run, suppress, Course, untouched, settling, TaskStatus, record_of,
  unindex_group,
}
use solworker.Scheduler.Class.Gate.{
  begin_settling, suppressible, suppress_gate, status_now, claim_live, claim_gate, claimable,
  ClaimOutcome, ran, lost, unavailable,
}
use solworker.Scheduler.Class.Views.{fits_course, Sound}
use solworker.Scheduler.Class.Inv.{Inv, course_in}
use solworker.Scheduler.Class.Leave.{Kept, Departs, leave_gate-Kept}

untouched_before :
    (stage : Stage) (attaching : Bool) (course : Course)
    → fits_course stage attaching course ≡ true
    → suppressible stage ≡ true
    → course ≡ untouched
untouched_before waiting a untouched k h = refl
untouched_before deferred_ready a untouched k h = refl
untouched_before ready a untouched k h = refl
untouched_before handed a untouched k h = refl
untouched_before running a course k h = absurd (ground arith)
untouched_before finalizing a course k h = absurd (ground arith)
untouched_before _ a course k h = absurd (ground arith)

-- The record of a winner.
begun :
    (r : JobRecord) (stage : Stage) (d : Decision)
    → r.course ≡ untouched
    → begin_settling (unindex_group r stage) d ≡ record r {
      stage = stage;
      indexed = not (r.caller_eligible && (r.grouped && r.registered)) && r.indexed;
      course = settling d;
    }
unfolding begin_settling unindex_group
begun r stage d h = rw h

departing :
    (r gone : JobRecord) (stage : Stage) (d : Decision)
    → Sound r
    → suppressible r.stage ≡ true
    → fits_course stage r.attaching (settling d) ≡ true
    → (stage ≡ running) ⊎ (stage ≡ finalizing)
    → gone ≡ record r {
      stage = stage;
      indexed = not (r.caller_eligible && (r.grouped && r.registered)) && r.indexed;
      course = settling d;
    }
    → Departs r gone
departing r gone stage d s h fits away e =
    let before : r.course ≡ untouched =
      untouched_before r.stage r.attaching r.course s.course_kept h in
    record {
      sound = record {
        queued_closed = λ k. absurd (ground (arith, e, away));
        selected = λ j k. ground (arith, s.selected, e);
        keyed = λ j k. ground (arith, s.keyed, e);
        ranked = ground (arith, s.ranked, e);
        reserving = λ k. ground (arith, s.reserving, e);
        index_kept = ground (arith, s.index_kept, s.keyed, s.queued_closed, e, away);
        course_kept = ground (arith, fits, e);
      };
      away = ground (arith, e, away);
      reserved_same = ground (arith, e);
      past_same = ground (arith, e, before);
      held_same = λ o. rw e (ground arith);
    }

-- A suppression, from a class that meets the invariant, does not panic and keeps the invariant.
pub suppress_gate-Kept :
    (l : ClassLimits) (c : ClassState) (id : ℕ) (status : TaskStatus)
    → Inv [] c
    → (d : ClassState) × (suppress_gate l c id status ≡ some d) × Kept c d
unfolding suppress_gate
suppress_gate-Kept l c id status v = elim (Option-cases (record_of id c)) [
  | inl gone ↦ (c, rw (gone, suppress_gate), record { inv = v; handed_same = refl })
  | inr (r, was) ↦ elim (Bool-cases (suppressible r.stage)) [
    | inr late ↦ (c, rw (was, suppress_gate, late), record { inv = v; handed_same = refl })
    | inl early ↦
        let s = v.sound id r was in
        let before = untouched_before r.stage r.attaching r.course s.course_kept early in
        let g =
          departing r (begin_settling (unindex_group r finalizing) (suppress (status_now c status)))
            finalizing (suppress (status_now c status)) s early refl (inr refl)
            (begun r finalizing (suppress (status_now c status)) before) in
        let (d, e, x) =
          leave_gate-Kept l c id r
            (begin_settling (unindex_group r finalizing) (suppress (status_now c status))) r.stage v
            was g refl early in
        (d, rw (was, suppress_gate, early) e, x.kept)
  ]
]

run_course :
    (r : JobRecord)
    → r.course ≡ untouched
    → some ((begin_settling (unindex_group r running) run).course) ≡ some (settling run)
run_course r h = rw (begun r running run h)

-- A claim that wins leaves the record to its run.
abbrev pub Won : ClaimOutcome → Option Course → Type 0
Won ran course = course ≡ some (settling run)
Won _ course = Unit {0}

claim_live-Kept :
    (l : ClassLimits) (c : ClassState) (id : ℕ) (caller : Bool)
    → Inv [] c
    → (d : ClassState) × (o : ClaimOutcome) × (claim_live l c id caller ≡ some (d, o))
      × Kept c d
      × Won o (course_in (record_of id d))
unfolding claim_live claimable
claim_live-Kept l c id caller v = elim (Option-cases (record_of id c)) [
  | inl gone ↦ (c, lost, rw (gone, claim_live), record { inv = v; handed_same = refl }, tt)
  | inr (r, was) ↦ elim (Bool-cases (claimable r caller)) [
    | inr late ↦ (c, lost, rw (was, claim_live, late), record { inv = v; handed_same = refl }, tt)
    | inl early ↦
        let s = v.sound id r was in
        let queued : suppressible r.stage ≡ true = ground arith in
        let before = untouched_before r.stage r.attaching r.course s.course_kept queued in
        let g =
          departing r (begin_settling (unindex_group r running) run) running run s queued refl
            (inl refl) (begun r running run before) in
        let (d, e, x) =
          leave_gate-Kept l c id r (begin_settling (unindex_group r running) run) r.stage v was g
            refl queued in
        (d, ran, rw (was, claim_live, early, e), x.kept, x.course_now ∙ run_course r before)
  ]
]

pub claim_alive :
    (l : ClassLimits) (c : ClassState) (id : ℕ) (caller : Bool)
    → c.is_abandoned ≡ false
    → claim_gate l c id caller ≡ claim_live l c id caller
unfolding claim_gate
claim_alive l c id caller h = ground arith

-- A claim, from a class that meets the invariant, does not panic and keeps the invariant.
pub claim_gate-Kept :
    (l : ClassLimits) (c : ClassState) (id : ℕ) (caller : Bool)
    → Inv [] c
    → (d : ClassState) × (o : ClaimOutcome) × (claim_gate l c id caller ≡ some (d, o))
      × Kept c d
      × Won o (course_in (record_of id d))
unfolding claim_gate
claim_gate-Kept l c id caller v = elim (Bool-cases c.is_abandoned) [
  | inl cut ↦ (c, unavailable, rw (cut, claim_gate), record { inv = v; handed_same = refl }, tt)
  | inr alive ↦
      let (d, o, e, x, w) = claim_live-Kept l c id caller v in
      (d, o, rw (claim_alive l c id caller alive) e, x, w)
]
