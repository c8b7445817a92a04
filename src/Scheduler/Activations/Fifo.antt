-- ===== src/Scheduler/Activations/Fifo.antt =====
-- src/scheduler.rs: the drain ends, runs each activation once, in the order of their enqueueing.
use solworker.Prelude.{
  ℕ, zero, suc, ◌+◌, ◌<◌, ◌≡◌, refl, ap, sym, ◌∙◌, Bool, Option, none, some, List, [], ◌∷◌, ◌++◌,
  arith, if◌then◌else◌, Bool-cases, inl, inr,
}
use solworker.Scheduler.Activations.{Drain, first_panic, drain_loop, idle, enqueue_activation}

module _ {ℓ} {A : Type ℓ} (spawns : A → List A) (panics : A → Bool) where
  -- Everything that the activations of a list enqueue, in their order.
  abbrev pub all_spawned : List A → List A
  all_spawned [] = []
  all_spawned (a ∷ rest) = spawns a ++ all_spawned rest

  abbrev first_of : Option A → List A → Option A
  first_of p [] = p
  first_of p (a ∷ rest) = first_of (first_panic spawns panics p a) rest

module _ {ℓ} {A : Type ℓ} where
  abbrev pub total_weight : (A → ℕ) → List A → ℕ
  total_weight w [] = 0
  total_weight w (a ∷ rest) = w a + total_weight w rest

  append_assoc : (xs ys zs : List A) → (xs ++ ys) ++ zs ≡ xs ++ (ys ++ zs)
  append_assoc [] ys zs = refl
  append_assoc (x ∷ xs) ys zs = rw (append_assoc xs ys zs)

  append_nil : (xs : List A) → xs ++ [] ≡ xs
  append_nil [] = refl
  append_nil (x ∷ xs) = rw (append_nil xs)

  weight-append :
      (w : A → ℕ) (xs ys : List A)
      → total_weight w (xs ++ ys) ≡ total_weight w xs + total_weight w ys
  weight-append w [] ys = omega arith
  weight-append w (x ∷ xs) ys = omega (arith, weight-append w xs ys)

module _ {ℓ} {A : Type ℓ} (spawns : A → List A) (panics : A → Bool) where
  -- What the loop adds to a drain.
  record Added (pending : List A) (d t : Drain A) (more : List A) : Type ℓ where
    in_order : t.ran ≡ d.ran ++ more
    all_of_them : more ≡ pending ++ all_spawned spawns panics more
    first_kept : t.panic ≡ first_of spawns panics d.panic more

  drains :
      (weight : A → ℕ) (fuel : ℕ) (pending : List A) (d : Drain A)
      → ((a : A) → total_weight weight (spawns a) < weight a)
      → total_weight weight pending < fuel
      → (t : Drain A) × (more : List A) × (drain_loop spawns panics fuel pending d ≡ some t)
        × Added pending d t more
  unfolding drain_loop
  drains weight zero pending d h enough = absurd (omega arith)
  drains weight (suc fuel) [] d h enough = (
    d,
    [],
    refl,
    record { in_order = rw (append_nil d.ran); all_of_them = refl; first_kept = refl },
  )
  drains weight (suc fuel) (a ∷ pending) d h enough =
      let left : total_weight weight (pending ++ spawns a) < fuel =
        omega (arith, weight-append weight pending (spawns a), h a, enough) in
      let next : Drain A = record {
        ran = d.ran ++ a ∷ [];
        panic = first_panic spawns panics d.panic a;
      } in
      let (t, more, e, x) = drains weight fuel (pending ++ spawns a) next h left in
      (
        t,
        a ∷ more,
        e,
        record {
          in_order = rw (x.in_order, append_assoc d.ran (a ∷ []) more);
          all_of_them =
              ap (λ l. a ∷ l)
                (x.all_of_them ∙ append_assoc pending (spawns a) (all_spawned spawns panics more));
          first_kept = x.first_kept;
        },
      )

-- The first activation of a list that panics.
abbrev pub first_panicking {ℓ} : {A : Type ℓ} → (A → Bool) → List A → Option A
first_panicking panics [] = none
first_panicking panics (a ∷ rest) = if panics a then some a else first_panicking panics rest

module _ {ℓ} {A : Type ℓ} (spawns : A → List A) (panics : A → Bool) where
  first_of-some : (p : A) (l : List A) → first_of spawns panics (some p) l ≡ some p
  unfolding first_panic
  first_of-some p [] = refl
  first_of-some p (a ∷ rest) = first_of-some p rest

  first_of-none : (l : List A) → first_of spawns panics none l ≡ first_panicking panics l
  unfolding first_panic
  first_of-none [] = refl
  first_of-none (a ∷ rest) = elim (Bool-cases (panics a)) [
    | inl fails ↦ rw fails (first_of-some a rest)
    | inr passes ↦ rw passes (first_of-none rest)
  ]

-- Where what each activation enqueues weighs less than the activation, an activation that is enqueued
-- on an idle thread, with more fuel than its weight, leaves the thread idle. It ran first, then what
-- it enqueued, then what those enqueued, each of them once and in the order of the enqueueing; a panic
-- stops none of them, and the first of them that panics is reported.
pub enqueue_activation-in_order {ℓ} :
    {A : Type ℓ} (spawns : A → List A) (panics : A → Bool) (weight : A → ℕ) (fuel : ℕ) (a : A)
    → ((b : A) → total_weight weight (spawns b) < weight b)
    → weight a < fuel
    → (d : Drain A) × (enqueue_activation spawns panics fuel idle a ≡ some (idle, d))
      × (d.ran ≡ a ∷ all_spawned spawns panics d.ran)
      × (d.panic ≡ first_panicking panics d.ran)
unfolding enqueue_activation
enqueue_activation-in_order {A = A} spawns panics weight fuel a h enough =
    let start : Drain A = record { ran = []; panic = none } in
    let (d, more, e, x) =
      drains spawns panics weight fuel (a ∷ []) start h (omega (arith, enough)) in
    (
      d,
      rw e,
      x.in_order ∙ (x.all_of_them ∙ ap (λ l. a ∷ all_spawned spawns panics l) (sym x.in_order)),
      x.first_kept
          ∙ (ap (λ l. first_of spawns panics none l) (sym x.in_order)
              ∙ first_of-none spawns panics d.ran),
    )
