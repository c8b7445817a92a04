-- ===== src/Scheduler/Accounting/Bounds.antt =====
-- src/scheduler.rs, `Accounting`: the limits hold under every interleaving of the atomic updates.
use solworker.Prelude.{
  ℕ, suc, ◌+◌, ◌≤◌, ◌≡◌, refl, true, Option, none, some, List, [], ◌∷◌, length, arith,
}
use solworker.Scheduler.Accounting.{
  Accounting, Update, next, too_large, full, stale, beneath, new_accounting, has_call, end_call,
  acquire_record, acquire_edges, drop_edges, return_record,
}

abbrev pub sum : List ℕ → ℕ
sum [] = 0
sum (x ∷ xs) = x + sum xs

pub record Inv (a : Accounting) : Type 0 where
  pub records_counted : a.record_count ≡ length a.acquiring + length a.held_leases + a.returning
  pub records_within : a.record_count ≤ a.record_limit
  pub edges_counted : a.edge_count ≡ sum a.held_leases
  pub edges_within : a.edge_count ≤ a.edge_limit

pub new_accounting-Inv :
    (record_limit edge_limit : ℕ) → Inv (new_accounting record_limit edge_limit)
unfolding new_accounting
new_accounting-Inv record_limit edge_limit = record {
  records_counted = omega arith;
  records_within = omega arith;
  edges_counted = omega arith;
  edges_within = omega arith;
}

end_call_counts :
    (e : ℕ) (xs : List ℕ)
    → has_call e xs ≡ true
    → (length xs ≡ suc (length (end_call e xs))) × (sum xs ≡ e + sum (end_call e xs))
end_call_counts e [] h = absurd (ground arith)
end_call_counts e (x ∷ xs) h =
    (ground (arith, end_call_counts e xs), ground (arith, end_call_counts e xs))

-- A step goes on with the invariant and the same limits, or changes nothing; no counter underflows.
abbrev pub IsSafe : Accounting → Update → Type 0
IsSafe a (next b) = Inv b × (b.record_limit ≡ a.record_limit) × (b.edge_limit ≡ a.edge_limit)
IsSafe a beneath = ⊥
IsSafe a _ = Unit {0}

pub data Step : Type 0 where
  acquires : ℕ → Step
  commits : ℕ → Step
  drops : ℕ → Step
  returns : Step

unfoldable pub step : Accounting → Step → Update
step a (acquires edges) = acquire_record a edges
step a (commits edges) = acquire_edges a edges
step a (drops edges) = drop_edges a edges
step a returns = return_record a

after-IsSafe :
    (a : Accounting) (u : Update)
    → Inv a
    → (u ≡ beneath → ⊥)
    → ((b : Accounting)
        → u ≡ next b
        → Inv b × (b.record_limit ≡ a.record_limit) × (b.edge_limit ≡ a.edge_limit))
    → IsSafe a u
after-IsSafe a (next b) v above k = k b refl
after-IsSafe a too_large v above k = tt
after-IsSafe a full v above k = tt
after-IsSafe a stale v above k = tt
after-IsSafe a beneath v above k = above refl

step-IsSafe : (a : Accounting) (c : Step) → Inv a → IsSafe a (step a c)
unfolding step acquire_record acquire_edges drop_edges return_record
step-IsSafe a (acquires edges) v = after-IsSafe a _ v (λ e. ground arith) (λ b e. ground (arith, v))
step-IsSafe a (commits edges) v =
    after-IsSafe a _ v (λ e. ground arith)
      (λ b e. ground (arith, v, end_call_counts edges a.acquiring))
step-IsSafe a (drops edges) v =
    after-IsSafe a _ v (λ e. ground (arith, v, end_call_counts edges a.held_leases))
      (λ b e. ground (arith, v, end_call_counts edges a.held_leases))
step-IsSafe a returns v = after-IsSafe a _ v (λ e. ground (arith, v)) (λ b e. ground (arith, v))

-- A step that does not go on leaves the accounting; a counter below zero ends the run.
abbrev after_step : Accounting → Update → Option Accounting
after_step a (next b) = some b
after_step a beneath = none
after_step a _ = some a

unfoldable pub run_steps : Accounting → List Step → Option Accounting
run_steps a [] = some a
run_steps a (c ∷ cs) = elim (after_step a (step a c)) [ none ↦ none | some b ↦ run_steps b cs ]

goes_on :
    (a : Accounting) (u : Update)
    → Inv a
    → IsSafe a u
    → (b : Accounting) × (after_step a u ≡ some b)
      × Inv b
      × (b.record_limit ≡ a.record_limit)
      × (b.edge_limit ≡ a.edge_limit)
goes_on a (next b) v s = (b, refl, s.0, s.1, s.2)
goes_on a too_large v s = (a, refl, v, refl, refl)
goes_on a full v s = (a, refl, v, refl, refl)
goes_on a stale v s = (a, refl, v, refl, refl)
goes_on a beneath v s = absurd s

-- From an accounting that meets the invariant, no interleaving of the atomic updates of
-- acquisitions, failed acquisitions and drops brings a counter below zero. The records stay within
-- their limit and are those of the calls under way and the living leases; the edges stay within
-- theirs and are the sum over the living leases.
pub run_steps-Inv :
    (a : Accounting) (cs : List Step)
    → Inv a
    → (b : Accounting) × (run_steps a cs ≡ some b)
      × Inv b
      × (b.record_limit ≡ a.record_limit)
      × (b.edge_limit ≡ a.edge_limit)
unfolding run_steps
run_steps-Inv a [] v = (a, refl, v, refl, refl)
run_steps-Inv a (c ∷ cs) v =
    let (b, e, i, x, y) = goes_on a (step a c) v (step-IsSafe a c v) in
    let (d, f, j, z, w) = run_steps-Inv b cs i in (d, rw (e, run_steps) f, j, cc (x, z), cc (y, w))
