-- ===== src/Scheduler/Class/Exclusive.antt =====
-- src/scheduler.rs: a claim and the suppressions of the same job exclude each other.
use solworker.Prelude.{
  ℕ, ◌≡◌, ◌≢◌, refl, sym, subst, [], Bool, true, false, some, List, arith, inl, inr, Bool-cases,
  Option-cases,
}
use solworker.Scheduler.Class.{
  ClassState, ClassLimits, JobRecord, Stage, waiting, deferred_ready, ready, handed, running,
  finalizing, TaskStatus, run, settling, new_class, record_of,
}
use solworker.Scheduler.Class.Gate.{
  suppress_gate, suppressible, claim_gate, claim_live, claimable, ClaimOutcome, ran, lost,
  unavailable,
}
use solworker.Scheduler.Class.Views.{fits_course}
use solworker.Scheduler.Class.Inv.{Inv, course_in}
use solworker.Scheduler.Class.Claims.{Won, claim_gate-Kept, claim_alive}
use solworker.Scheduler.Class.History.{Section, run_sections, Allowed, reached}

runs :
    (stage : Stage) (attaching : Bool)
    → fits_course stage attaching (settling run) ≡ true
    → stage ≡ running
runs running a h = refl
runs waiting a h = absurd (ground arith)
runs deferred_ready a h = absurd (ground arith)
runs ready a h = absurd (ground arith)
runs handed a h = absurd (ground arith)
runs finalizing a h = absurd (ground arith)

-- The record of a job that was claimed.
running_now :
    (d : ClassState) (id : ℕ)
    → Inv [] d
    → course_in (record_of id d) ≡ some (settling run)
    → (r : JobRecord) × (record_of id d ≡ some r) × (r.stage ≡ running)
running_now d id v h = elim (Option-cases (record_of id d)) [
  | inl gone ↦ absurd (ground arith)
  | inr (r, was) ↦
      let course : r.course ≡ settling run = ground arith in
      (r, was, runs r.stage r.attaching (ground (arith, (v.sound id r was).course_kept)))
]

suppress_late :
    (l : ClassLimits) (d : ClassState) (id : ℕ) (status : TaskStatus) (r : JobRecord)
    → record_of id d ≡ some r
    → r.stage ≡ running
    → suppress_gate l d id status ≡ some d
unfolding suppress_gate
suppress_late l d id status r was at =
    let late : suppressible r.stage ≡ false = ground arith in rw (was, suppress_gate, late)

claim_late :
    (l : ClassLimits) (d : ClassState) (id : ℕ) (caller : Bool) (r : JobRecord)
    → record_of id d ≡ some r
    → r.stage ≡ running
    → (o : ClaimOutcome) × (claim_gate l d id caller ≡ some (d, o)) × (o ≢ ran)
unfolding claim_gate claim_live claimable
claim_late l d id caller r was at =
    let late : claimable r caller ≡ false = ground arith in
    elim (Bool-cases d.is_abandoned) [
      | inl cut ↦ (unavailable, rw (cut, claim_gate), λ h. absurd (ground arith))
      | inr alive ↦ (
        lost,
        rw (claim_alive l d id caller alive, claim_live, was, late),
        λ h. absurd (ground arith),
      )
    ]

-- In a class that a history of sections with ranked selections and bounded portions and
-- ranges reaches, a claim that wins leaves the record to its run: a suppression after it changes nothing, and no second claim
-- wins.
pub claim_excludes :
    (l : ClassLimits) (c d : ClassState) (sections : List Section) (id : ℕ) (caller other : Bool)
    (status : TaskStatus)
    → Allowed sections
    → run_sections l new_class sections ≡ some c
    → claim_gate l c id caller ≡ some (d, ran)
    → (course_in (record_of id d) ≡ some (settling run))
      × (suppress_gate l d id status ≡ some d)
      × (o : ClaimOutcome) × (claim_gate l d id other ≡ some (d, o))
      × (o ≢ ran)
claim_excludes l c d sections id caller other status h e won =
    let (b, p, f, x, w) = claim_gate-Kept l c id caller (reached l c sections h e).inv in
    let same : (b ≡ d) × (p ≡ ran) = (ground arith, ground arith) in
    let course : course_in (record_of id d) ≡ some (settling run) =
      winner b d id p same.0 same.1 w in
    let v : Inv [] d = subst (λ y. Inv [] y) same.0 x.inv in
    let (r, was, at) = running_now d id v course in
    let (o, g, unlike) = claim_late l d id other r was at in
    (course, suppress_late l d id status r was at, o, g, unlike)
  where
    winner :
        (b d : ClassState) (id : ℕ) (o : ClaimOutcome)
        → b ≡ d
        → o ≡ ran
        → Won o (course_in (record_of id b))
        → course_in (record_of id d) ≡ some (settling run)
    winner b d id o p q w =
        let u : Won ran (course_in (record_of id b)) =
          subst (λ y. Won y (course_in (record_of id b))) q w in
        rw (sym p) u
