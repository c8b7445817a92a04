-- ===== src/Demand/History.antt =====
-- src/scheduler/demand.rs: every history of calls on the demand graph.
use solworker.Prelude.{
  ℕ, ◌+◌, ◌<◌, ◌≡◌, refl, Option, none, some, List, [], ◌∷◌, arith, inl, inr, Option-cases, length,
  word_mod,
}
use solworker.Ready.Maps.{lookup}
use solworker.Demand.State.{
  DemandState, DemandChange, DemandCommand, Node, Outcome, done, refused, panicked,
}
use solworker.Demand.Graph.{register, remove_id, attach, change}
use solworker.Demand.Service.{service}
use solworker.Demand.Inv.{Inv}
use solworker.Demand.Steps.{
  Moved, IsSafe, moved, turned_away, register-IsSafe, attach-IsSafe, change-IsSafe, remove_id-Moved,
}
use solworker.Demand.Served.{service-Inv}

pub data Call : Type 0 where
  registers : ℕ → Option ℕ → List ℕ → Option ℕ → Call
  removes : ℕ → Call
  attaches : ℕ → ℕ → Call
  changes : ℕ → DemandCommand → Call
  services : ℕ → Call

-- A refusal leaves the graph; a panic ends the history.
abbrev after_call : DemandState → Outcome → Option DemandState
after_call s (done t) = some t
after_call s (refused e) = some s
after_call s panicked = none

abbrev served : Option (DemandState × List DemandChange) → Option DemandState
served none = none
served (some (s, changed)) = some s

-- The scheduler registers a new identity each time, so a known one is passed over.
abbrev register_new :
    DemandState → Option Node → ℕ → Option ℕ → List ℕ → Option ℕ → Option DemandState
register_new s (some n) id baseline prerequisites provider = some s
register_new s none id baseline prerequisites provider =
    after_call s (register s id baseline prerequisites provider)

unfoldable pub perform : DemandState → Call → Option DemandState
perform s (registers id baseline prerequisites provider) =
    register_new s (lookup id s.nodes) id baseline prerequisites provider
perform s (removes id) = some (remove_id s id)
perform s (attaches id priority) = after_call s (attach s id priority)
perform s (changes lease command) = after_call s (change s lease command)
perform s (services budget) = served (service budget s)

unfoldable pub run_graph : DemandState → List Call → Option DemandState
run_graph s [] = some s
run_graph s (c ∷ cs) = elim (perform s c) [ none ↦ none | some t ↦ run_graph t cs ]

-- The most versions that calls can use.
abbrev pub cost_of : Call → ℕ
cost_of (registers id baseline prerequisites provider) = 1
cost_of (services budget) = budget
cost_of _ = 0

abbrev pub total_cost : List Call → ℕ
total_cost [] = 0
total_cost (c ∷ cs) = cost_of c + total_cost cs

Goes : DemandState → ℕ → Option DemandState → Type 0
Goes s k o = (t : DemandState) × (o ≡ some t) × Moved s t k

still : (s : DemandState) (k : ℕ) → Inv s → Goes s k (some s)
unfolding Goes
still s k v = (s, refl, record { inv = v; version_le = omega arith; lease_le = omega arith })

after-Goes :
    (s : DemandState) (k : ℕ) (o : Outcome) → Inv s → IsSafe s k o → Goes s k (after_call s o)
unfolding Goes
after-Goes s k o v (moved t m) = (t, refl, m)
after-Goes s k o v (turned_away e) = still s k v

perform-Goes :
    (s : DemandState) (c : Call)
    → Inv s
    → s.version + cost_of c < word_mod
    → s.next_lease + 1 < word_mod
    → Goes s (cost_of c) (perform s c)
unfolding perform Goes
perform-Goes s (registers id baseline prerequisites provider) v h k =
    elim (Option-cases (lookup id s.nodes)) [
      | inr (n, e) ↦ rw (e, perform) (still s 1 v)
      | inl e ↦
          rw (e, perform)
            (after-Goes s 1 _ v (register-IsSafe s id baseline prerequisites provider e h v))
    ]
perform-Goes s (removes id) v h k = (remove_id s id, refl, remove_id-Moved s id v)
perform-Goes s (attaches id priority) v h k = after-Goes s 0 _ v (attach-IsSafe s id priority k v)
perform-Goes s (changes lease command) v h k = after-Goes s 0 _ v (change-IsSafe s lease command v)
perform-Goes s (services budget) v h k =
    let (t, c, e, i, le, same) = service-Inv budget s h v in
    (t, rw (e, perform), record { inv = i; version_le = le; lease_le = omega (arith, same) })

-- From a graph that meets the invariant, calls that cannot use up the 64-bit versions and lease
-- identities never panic, and in the last graph the dirty queue holds exactly the nodes whose flag
-- is set, each once.
pub run_graph-Inv :
    (s : DemandState) (cs : List Call)
    → Inv s
    → s.version + total_cost cs < word_mod
    → s.next_lease + length cs < word_mod
    → (t : DemandState) × (run_graph s cs ≡ some t) × Inv t
unfolding run_graph Goes
run_graph-Inv s [] v h k = (s, refl, v)
run_graph-Inv s (c ∷ cs) v h k =
    let (t, e, m) = perform-Goes s c v (omega arith) (omega arith) in
    let (u, f, i) =
      run_graph-Inv t cs m.inv (omega (arith, m.version_le)) (omega (arith, m.lease_le)) in
    (u, rw (e, run_graph) f, i)
