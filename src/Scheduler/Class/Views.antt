-- ===== src/Scheduler/Class/Views.antt =====
-- src/scheduler.rs: what the invariant of a class reads off its records, and how it changes with one
-- record.
use solworker.Prelude.{
  ℕ, ◌+◌, ◌≡◌, refl, Bool, true, false, ◌&&◌, ◌||◌, not, Option, none, some, List, [], ◌∷◌, ◌==◌,
  ==_iff, if◌then◌else◌, arith, inl, inr, Bool-cases,
}
use solworker.Demand.Selection.{Selection}
use solworker.Ready.Maps.{lookup, insert, remove}
use solworker.Scheduler.Class.{
  JobRecord, Attachment, Stage, deferred_ready, ready, handed, running, finalizing, Decision, run,
  suppress, Course, untouched, settling, returned, deferred_finish, finishing, stage_eq, flatten,
}

abbrev pub in_stage : Stage → Option JobRecord → Bool
in_stage s none = false
in_stage s (some r) = stage_eq r.stage s

abbrev pub runnable_weight : Option JobRecord → ℕ
runnable_weight none = 0
runnable_weight (some r) = elim r.stage [ ready ↦ 1 | handed ↦ 1 | _ ↦ 0 ]

abbrev pub reserved_weight : Option JobRecord → ℕ
reserved_weight none = 0
reserved_weight (some r) = if r.runnable_reserved then 1 else 0

-- The envelope of the record was settled.
abbrev pub is_past : Course → ℕ
is_past returned = 1
is_past deferred_finish = 1
is_past finishing = 1
is_past _ = 0

abbrev pub has_rank : Option Selection → Bool
has_rank none = false
has_rank (some s) = elim s.priority [ none ↦ false | some rank ↦ true ]

abbrev pub no_bad_rank : Option Selection → Bool
no_bad_rank none = true
no_bad_rank (some s) = has_rank (some s)

-- The courses that go with a stage.
abbrev pub fits_course : Stage → Bool → Course → Bool
fits_course running attaching (settling run) = true
fits_course running attaching returned = true
fits_course finalizing attaching (settling (suppress status)) = true
fits_course finalizing attaching returned = true
fits_course finalizing attaching deferred_finish = attaching
fits_course finalizing attaching finishing = not attaching
fits_course running attaching _ = false
fits_course finalizing attaching _ = false
fits_course _ attaching untouched = true
fits_course _ attaching _ = false

abbrev pub is_queued : Stage → Bool
is_queued deferred_ready = true
is_queued ready = true
is_queued handed = true
is_queued _ = false

pub record Sound (r : JobRecord) : Type 0 where
  pub queued_closed : is_queued r.stage ≡ true → r.attaching ≡ false
  pub selected : r.resource ≡ true → r.attaching ≡ false → has_rank r.selection ≡ true
  pub keyed : r.grouped ≡ true → r.attaching ≡ false → r.registered ≡ true
  pub ranked : no_bad_rank r.selection ≡ true
  pub reserving : r.runnable_reserved ≡ true → r.attaching ≡ true
  pub index_kept :
      r.indexed
      ≡ (r.caller_eligible && r.grouped) && (stage_eq r.stage ready || stage_eq r.stage handed)
  pub course_kept : fits_course r.stage r.attaching r.course ≡ true

-- A submission that holds its attachment has a live record with it, which has what is not owed.
abbrev pub attached_ok : Option Attachment → Option JobRecord → Bool
attached_ok none o = true
attached_ok (some a) none = false
attached_ok (some a) (some r) =
    r.attaching
    && ((a.owes_key || (not r.grouped || r.registered))
        && (a.owes_selection || (not r.resource || has_rank r.selection)))

abbrev pub total : (Option JobRecord → ℕ) → List (ℕ × Option JobRecord) → ℕ
total w [] = 0
total w ((id, o) ∷ jobs) = w o + total w jobs

abbrev pub has_job {ℓ} : {V : Type ℓ} → ℕ → List (ℕ × V) → Bool
has_job id [] = false
has_job id ((j, o) ∷ jobs) = (j == id) || has_job id jobs

abbrev pub Unique {ℓ} : {V : Type ℓ} → List (ℕ × V) → Type 0
Unique [] = Unit {0}
Unique ((j, o) ∷ jobs) = (has_job j jobs ≡ false) × Unique jobs

abbrev pub count_outcomes : ℕ → List (ℕ × Decision) → ℕ
count_outcomes id [] = 0
count_outcomes id ((j, d) ∷ outcomes) = (if j == id then 1 else 0) + count_outcomes id outcomes

pub total-insert :
    (w : Option JobRecord → ℕ) (id : ℕ) (o : Option JobRecord) (jobs : List (ℕ × Option JobRecord))
    → w none ≡ 0
    → total w (insert id o jobs) + w (flatten (lookup id jobs)) ≡ total w jobs + w o
unfolding insert lookup
total-insert w id o [] z = omega (arith, z)
total-insert w id o ((j, p) ∷ jobs) z = elim (Bool-cases (j == id)) [
  | inl hit ↦ rw hit (omega arith)
  | inr miss ↦ rw miss (omega (arith, total-insert w id o jobs z))
]

pub has_job-insert {ℓ} :
    {V : Type ℓ} (id j : ℕ) (o : V) (jobs : List (ℕ × V))
    → has_job j (insert id o jobs) ≡ (if id == j then true else has_job j jobs)
unfolding insert
has_job-insert id j o [] = ground arith
has_job-insert id j o ((i, p) ∷ jobs) = ground (arith, has_job-insert id j o jobs)

pub has_job-remove {ℓ} :
    {V : Type ℓ} (id j : ℕ) (jobs : List (ℕ × V))
    → has_job j (remove id jobs) ≡ (if id == j then false else has_job j jobs)
unfolding remove
has_job-remove id j [] = ground arith
has_job-remove id j ((i, p) ∷ jobs) = ground (arith, has_job-remove id j jobs)

pub lookup_known {ℓ} :
    {V : Type ℓ} (id : ℕ) (jobs : List (ℕ × V)) → has_job id jobs ≡ false → lookup id jobs ≡ none
unfolding lookup
lookup_known id [] h = refl
lookup_known id ((i, p) ∷ jobs) h = ground (arith, lookup_known id jobs)

pub Unique-insert {ℓ} :
    {V : Type ℓ} (id : ℕ) (o : V) (jobs : List (ℕ × V)) → Unique jobs → Unique (insert id o jobs)
unfolding insert
Unique-insert id o [] u = (refl, tt)
Unique-insert id o ((i, p) ∷ jobs) u = elim (Bool-cases (i == id)) [
  | inl hit ↦ simp hit (ground (arith, u.0), u.1)
  | inr miss ↦
      simp miss (ground (arith, u.0, has_job-insert id i o jobs), Unique-insert id o jobs u.1)
]

pub Unique-remove {ℓ} :
    {V : Type ℓ} (id : ℕ) (jobs : List (ℕ × V)) → Unique jobs → Unique (remove id jobs)
unfolding remove
Unique-remove id [] u = tt
Unique-remove id ((i, p) ∷ jobs) u = elim (Bool-cases (i == id)) [
  | inl hit ↦ simp hit (Unique-remove id jobs u.1)
  | inr miss ↦ simp miss (ground (arith, u.0, has_job-remove id i jobs), Unique-remove id jobs u.1)
]

remove_absent :
    (w : Option JobRecord → ℕ) (id : ℕ) (jobs : List (ℕ × Option JobRecord))
    → has_job id jobs ≡ false
    → total w (remove id jobs) ≡ total w jobs
unfolding remove
remove_absent w id [] h = refl
remove_absent w id ((i, p) ∷ jobs) h =
    let miss : (i == id) ≡ false = ground arith in
    rw miss (omega (arith, remove_absent w id jobs (ground arith)))

pub total-remove :
    (w : Option JobRecord → ℕ) (id : ℕ) (jobs : List (ℕ × Option JobRecord))
    → w none ≡ 0
    → Unique jobs
    → total w (remove id jobs) + w (flatten (lookup id jobs)) ≡ total w jobs
unfolding remove lookup
total-remove w id [] z u = omega (arith, z)
total-remove w id ((i, p) ∷ jobs) z u = elim (Bool-cases (i == id)) [
  | inl hit ↦
      let absent : has_job id jobs ≡ false = ground (arith, u.0, ==_iff i id) in
      rw hit (omega (arith, remove_absent w id jobs absent))
  | inr miss ↦ rw miss (omega (arith, total-remove w id jobs z u.1))
]
