-- ===== src/Scheduler/Activations.antt =====
-- src/scheduler.rs, `enqueue_activation`: the queue of a thread that turns nested activations into a
-- loop. What an activation does is a parameter: the activations that it enqueues, and whether it panics.
pub mod Fifo
use solworker.Prelude.{
  ℕ, zero, suc, Bool, true, false, Option, none, some, List, [], ◌∷◌, ◌++◌, if◌then◌else◌,
}

-- `Activation`, with a job by its identity, a range by its members and a status by its success.
pub data Activation : Type 0 where
  prerequisite : ℕ → Bool → Activation
  prerequisite_range : List ℕ → Bool → Activation
  finalize : ℕ → Activation

pub record ActivationQueue {ℓ} (A : Type ℓ) : Type ℓ where
  pub draining : Bool
  pub pending : List A

-- What the loop has in hand: the activations that ran, in order, and the first that panicked.
pub record Drain {ℓ} (A : Type ℓ) : Type ℓ where
  pub ran : List A
  pub panic : Option A

abbrev pub idle {ℓ} : {A : Type ℓ} → ActivationQueue A
idle = record { draining = false; pending = [] }

module _ {ℓ} {A : Type ℓ} (spawns : A → List A) (panics : A → Bool) where
  -- A later panic is discarded.
  unfoldable pub first_panic : Option A → A → Option A
  first_panic none a = if panics a then some a else none
  first_panic (some p) a = some p

  -- The loop, on fuel. While it runs, an activation that is enqueued goes to the back.
  unfoldable pub drain_loop : ℕ → List A → Drain A → Option (Drain A)
  drain_loop zero pending d = none
  drain_loop (suc fuel) [] d = some d
  drain_loop (suc fuel) (a ∷ pending) d =
      drain_loop fuel (pending ++ spawns a)
        (record { ran = d.ran ++ a ∷ []; panic = first_panic d.panic a })

  abbrev finished : Option (Drain A) → Option (ActivationQueue A × Drain A)
  finished none = none
  finished (some d) = some (idle, d)

  -- `enqueue_activation`. A call from inside the loop only appends.
  unfoldable pub enqueue_activation :
      ℕ → ActivationQueue A → A → Option (ActivationQueue A × Drain A)
  enqueue_activation fuel q a =
      if q.draining
      then some (record q { pending = q.pending ++ a ∷ [] }, record { ran = []; panic = none })
      else finished (drain_loop fuel (a ∷ []) (record { ran = []; panic = none }))
