-- ===== src/Scheduler/Class/History.antt =====
-- src/scheduler.rs: the orders in which the sections of a class can run. The gate makes each section
-- of a class indivisible, and the lock of a record each section of a record. A section of a
-- submission changes nothing unless the submission holds the attachment of the record, and the end of
-- the attachment nothing before the submission's other steps: one thread runs them in that order.
use solworker.Prelude.{
  ℕ, ◌≤◌, ◌≡◌, refl, subst, Bool, true, Option, none, some, List, [], ◌∷◌, arith, inl, inr,
  Bool-cases, Option-cases, ltb, leb, length,
}
use solworker.Prelude.Results.{Result, ok, err}
use solworker.Range.{quantum}
use solworker.Demand.Selection.{Selection}
use solworker.Scheduler.Class.{ClassState, ClassLimits, TaskStatus, new_class}
use solworker.Scheduler.Class.Promote.{promote_locked}
use solworker.Scheduler.Class.Gate.{
  Submission, SpawnError, accept, register_member, attach_selection, prerequisite, activate,
  suppress_gate, claim_gate,
}
use solworker.Scheduler.Class.Settle.{
  dispatch, return_slots, settle, mark_finalizing, finish_record, close_attachment, publish_portion,
  activate_range, take_record, remove_job, post_update, abandon,
}
use solworker.Scheduler.Class.Views.{has_rank}
use solworker.Scheduler.Class.Inv.{Inv, Inv-new}
use solworker.Ready.Maps.{lookup}
use solworker.Scheduler.Class.Promoted.{promote_locked-Filled}
use solworker.Scheduler.Class.Claims.{suppress_gate-Kept, claim_gate-Kept}
use solworker.Scheduler.Class.Activation.{Fine, activate-Fine}
use solworker.Scheduler.Class.Closing.{close_attachment-Fine, publish_portion-Fine}
use solworker.Scheduler.Class.Resolution.{activate_range-Fine, prerequisite-Fine}
use solworker.Scheduler.Class.Dispatch.{dispatch-Handed}
use solworker.Scheduler.Class.Slots.{post_update-Inv, abandon-Inv, return_slots-Inv}
use solworker.Scheduler.Class.Outcomes.{settle-Fine, mark_finalizing-Fine, finish_record-Fine}
use solworker.Scheduler.Class.Records.{accept-Fine}
use solworker.Scheduler.Class.Attachments.{register_member-Fine, attach_selection-Fine}
use solworker.Scheduler.Class.Removal.{take_record-Fine, remove_job-Fine}

pub data Section : Type 0 where
  submission : Submission → Section
  registration : ℕ → Section
  attachment : ℕ → Selection → Section
  resolution : ℕ → Bool → Section
  closing : ℕ → Section
  activation : ℕ → Bool → Section
  portion : List ℕ → Section
  resolution_range : List ℕ → Bool → Section
  suppression : ℕ → TaskStatus → Section
  claim : ℕ → Bool → Section
  settlement : ℕ → Section
  marking : ℕ → Section
  finishing_section : ℕ → Section
  taking : ℕ → Section
  removal : ℕ → Section
  dispatching : Section
  promotion : Section
  slot_return : ℕ → Section
  demand_update : ℕ → Selection → Section
  abandonment : Section

abbrev kept_or {ℓ} : {A : Type ℓ} → A → Result SpawnError A → A
kept_or c (ok d) = d
kept_or c (err e) = c

abbrev state_of {ℓ κ} : {A : Type ℓ} {B : Type κ} → Option (A × B) → Option A
state_of none = none
state_of (some (a, b)) = some a

-- One section; `none` is a panic.
unfoldable pub step : ClassLimits → ClassState → Section → Option ClassState
step l c (submission s) = some (kept_or c (accept l c s))
step l c (registration id) = register_member c id
step l c (attachment id s) = some (attach_selection c id s)
step l c (resolution id success) = some (prerequisite c id success)
step l c (closing id) = close_attachment c id
step l c (activation id inline) = state_of (activate l c id inline)
step l c (portion ids) = state_of (publish_portion l c ids)
step l c (resolution_range ids success) = state_of (activate_range l c ids success)
step l c (suppression id status) = suppress_gate l c id status
step l c (claim id caller) = state_of (claim_gate l c id caller)
step l c (settlement id) = some (settle c id)
step l c (marking id) = some (mark_finalizing c id)
step l c (finishing_section id) = some (finish_record c id)
step l c (taking id) = take_record c id
step l c (removal id) = some (remove_job c id)
step l c dispatching = state_of (dispatch l c)
step l c promotion = promote_locked l c
step l c (slot_return n) = return_slots c n
step l c (demand_update id s) = some (post_update c id s)
step l c abandonment = some (abandon c)

unfoldable pub run_sections : ClassLimits → ClassState → List Section → Option ClassState
run_sections l c [] = some c
run_sections l c (s ∷ sections) = elim (step l c s) [
  | none ↦ none
  | some d ↦ run_sections l d sections
]

-- Each selection that the demand graph gives has a rank, and each portion and each range at most a
-- quantum of jobs.
abbrev allowed_section : Section → Bool
allowed_section (attachment id s) = has_rank (some s)
allowed_section (demand_update id s) = has_rank (some s)
allowed_section (portion ids) = leb (length ids) quantum
allowed_section (resolution_range ids success) = leb (length ids) quantum
allowed_section _ = true

abbrev pub Allowed : List Section → Type 0
Allowed [] = Unit {0}
Allowed (s ∷ sections) = (allowed_section s ≡ true) × Allowed sections

-- What holds between the sections.
pub record Safe (l : ClassLimits) (c : ClassState) : Type 0 where
  pub inv : Inv [] c
  pub within_limit : c.ready_queue.handed_off ≤ l.handoff_limit

abbrev Stays : ClassLimits → Option ClassState → Type 0
Stays l o = (d : ClassState) × (o ≡ some d) × Safe l d

Safe-Fine : (l : ClassLimits) (c d : ClassState) → Safe l c → Fine c d → Safe l d
Safe-Fine l c d v x = record {
  inv = x.inv;
  within_limit = omega (arith, x.handed_same, v.within_limit);
}

posted_handed :
    (c : ClassState) (id : ℕ) (s : Selection)
    → (post_update c id s).ready_queue.handed_off ≡ c.ready_queue.handed_off
unfolding post_update
posted_handed c id s = elim (Option-cases (lookup id c.updates)) [
  | inl new ↦ rw (new, post_update)
  | inr (old, e) ↦ elim (Bool-cases (ltb old.version s.version)) [
    | inl newer ↦ rw (e, post_update, newer)
    | inr older ↦ rw (e, post_update, older)
  ]
]

cut_handed : (c : ClassState) → (abandon c).ready_queue.handed_off ≡ c.ready_queue.handed_off
unfolding abandon
cut_handed c = refl

accepted :
    (l : ClassLimits) (c : ClassState) (s : Submission) (o : Result SpawnError ClassState)
    → Safe l c
    → accept l c s ≡ o
    → Safe l (kept_or c o)
accepted l c s (ok d) v e = Safe-Fine l c d v (accept-Fine l c d s v.inv e)
accepted l c s (err x) v e = v

pub step-Safe :
    (l : ClassLimits) (c : ClassState) (s : Section)
    → Safe l c
    → allowed_section s ≡ true
    → Stays l (step l c s)
unfolding step
step-Safe l c (submission s) v h =
    (kept_or c (accept l c s), refl, accepted l c s (accept l c s) v refl)
step-Safe l c (registration id) v h =
    let (d, e, x) = register_member-Fine c id v.inv in (d, e, Safe-Fine l c d v x)
step-Safe l c (attachment id s) v h =
    (attach_selection c id s, refl, Safe-Fine l c _ v (attach_selection-Fine c id s v.inv h))
step-Safe l c (resolution id success) v h =
    (prerequisite c id success, refl, Safe-Fine l c _ v (prerequisite-Fine c id success v.inv))
step-Safe l c (closing id) v h =
    let (d, e, x) = close_attachment-Fine c id v.inv in (d, e, Safe-Fine l c d v x)
step-Safe l c (activation id inline) v h =
    let (d, o, e, x) = activate-Fine l c id inline v.inv in (d, rw e, Safe-Fine l c d v x)
step-Safe l c (portion ids) v h =
    let (d, o, e, x) = publish_portion-Fine l c ids v.inv h in (d, rw e, Safe-Fine l c d v x)
step-Safe l c (resolution_range ids success) v h =
    let (d, o, e, x) = activate_range-Fine l c ids success v.inv h in (d, rw e, Safe-Fine l c d v x)
step-Safe l c (suppression id status) v h =
    let (d, e, x) = suppress_gate-Kept l c id status v.inv in
    (d, e, record { inv = x.inv; within_limit = omega (arith, x.handed_same, v.within_limit) })
step-Safe l c (claim id caller) v h =
    let (d, o, e, x, w) = claim_gate-Kept l c id caller v.inv in
    (d, rw e, record { inv = x.inv; within_limit = omega (arith, x.handed_same, v.within_limit) })
step-Safe l c (settlement id) v h = (settle c id, refl, Safe-Fine l c _ v (settle-Fine c id v.inv))
step-Safe l c (marking id) v h =
    (mark_finalizing c id, refl, Safe-Fine l c _ v (mark_finalizing-Fine c id v.inv))
step-Safe l c (finishing_section id) v h =
    (finish_record c id, refl, Safe-Fine l c _ v (finish_record-Fine c id v.inv))
step-Safe l c (taking id) v h =
    let (d, e, x) = take_record-Fine c id v.inv in (d, e, Safe-Fine l c d v x)
step-Safe l c (removal id) v h =
    (remove_job c id, refl, Safe-Fine l c _ v (remove_job-Fine c id v.inv))
step-Safe l c dispatching v h =
    let (d, ids, e, x, short, within) = dispatch-Handed l c v.inv in
    (d, rw e, record { inv = x.inv; within_limit = within v.within_limit })
step-Safe l c promotion v h =
    let (d, e, x) = promote_locked-Filled l c v.inv in
    (d, e, record { inv = x.inv; within_limit = omega (arith, x.same.handed_same, v.within_limit) })
step-Safe l c (slot_return n) v h =
    let (d, e, i, less) = return_slots-Inv c n v.inv in
    (d, e, record { inv = i; within_limit = omega (arith, less, v.within_limit) })
step-Safe l c (demand_update id s) v h = (
  post_update c id s,
  refl,
  record {
    inv = post_update-Inv c id s v.inv h;
    within_limit = rw (posted_handed c id s) v.within_limit;
  },
)
step-Safe l c abandonment v h = (
  abandon c,
  refl,
  record { inv = abandon-Inv c v.inv; within_limit = rw (cut_handed c) v.within_limit },
)

pub new-Safe : (l : ClassLimits) → Safe l new_class
unfolding new_class
new-Safe l = record { inv = Inv-new; within_limit = omega arith }

pub run_sections-Safe :
    (l : ClassLimits) (c : ClassState) (sections : List Section)
    → Safe l c
    → Allowed sections
    → Stays l (run_sections l c sections)
unfolding run_sections
run_sections-Safe l c [] v h = (c, refl, v)
run_sections-Safe l c (s ∷ sections) v h =
    let (b, e, x) = step-Safe l c s v h.0 in
    let (d, f, y) = run_sections-Safe l b sections x h.1 in (d, rw (e, run_sections) f, y)

-- A class that a history reaches.
pub reached :
    (l : ClassLimits) (c : ClassState) (sections : List Section)
    → Allowed sections
    → run_sections l new_class sections ≡ some c
    → Safe l c
reached l c sections h e =
    let (d, f, x) = run_sections-Safe l new_class sections (new-Safe l) h in
    let same : d ≡ c = ground arith in subst (λ y. Safe l y) same x
