-- ===== src/Demand/Aggregate.antt =====
-- src/scheduler/demand.rs, `aggregate`: the least rank of the interests that count.
use solworker.Prelude.{
  ℕ, ◌≤◌, ◌≡◌, refl, Bool, true, false, ◌&&◌, ◌||◌, Option, none, some, List, [], ◌∷◌, min, arith,
  ◌==◌, inl, inr, Option-cases,
}
use solworker.Ready.Maps.{lookup}
use solworker.Demand.Selection.{Selection}
use solworker.Demand.State.{DemandState, Node, Lease}
use solworker.Demand.Service.{
  Ranks, lower, count_rank, count_leases, count_child, count_children, settle_ranks, aggregate,
  same_flag,
}

-- Some lease of the list has this rank and this activity.
unfoldable pub leases_ask : List (ℕ × Lease) → List ℕ → Bool → ℕ → Bool
leases_ask leases [] active rank = false
leases_ask leases (k ∷ ks) active rank =
    let rest = leases_ask leases ks active rank in
    elim (lookup k leases) [
      | none ↦ rest
      | some l ↦ (same_flag l.is_active active && (l.lease_priority == rank)) || rest
    ]

abbrev selected : Selection → Bool → ℕ → Bool
selected s active rank = elim s.priority [
  | none ↦ false
  | some p ↦ same_flag s.active active && (p == rank)
]

-- Some child of the list is selected with this rank and this activity.
unfoldable pub children_ask : List (ℕ × Node) → List ℕ → Bool → ℕ → Bool
children_ask nodes [] active rank = false
children_ask nodes (k ∷ ks) active rank =
    let rest = children_ask nodes ks active rank in
    elim (lookup k nodes) [ none ↦ rest | some n ↦ selected n.selection active rank || rest ]

unfoldable pub asks : DemandState → Node → Bool → ℕ → Bool
asks s n active rank =
    leases_ask s.leases n.attached active rank || children_ask s.nodes n.children active rank

-- The option is the least rank that passes the test, if any does.
pub data IsLeast (P : ℕ → Bool) : Option ℕ → Type 0 where
  nothing : ((q : ℕ) → P q ≡ false) → IsLeast P none
  least : (p : ℕ) → P p ≡ true → ((q : ℕ) → P q ≡ true → p ≤ q) → IsLeast P (some p)

IsLeast-ext : (P Q : ℕ → Bool) (o : Option ℕ) → ((q : ℕ) → P q ≡ Q q) → IsLeast P o → IsLeast Q o
IsLeast-ext P Q none e (nothing h) = nothing (λ q. ground (arith, e q, h q))
IsLeast-ext P Q (some _) e (least p h k) =
    least p (ground (arith, e p)) (λ q i. ground (arith, e q, k q))

IsLeast-lower :
    (P : ℕ → Bool) (o : Option ℕ) (rank : ℕ)
    → IsLeast P o
    → IsLeast (λ q. (rank == q) || P q) (some (lower o rank))
unfolding lower
IsLeast-lower P none rank (nothing h) = least rank (ground arith) (λ q i. ground (arith, h q))
IsLeast-lower P (some _) rank (least p h k) =
    least (min p rank) (ground arith) (λ q i. ground (arith, k q))

record Counts (P : Bool → ℕ → Bool) (r : Ranks) : Type 0 where
  actives : IsLeast (P true) r.active_rank
  deferreds : IsLeast (P false) r.deferred_rank

Counts-ext :
    (P Q : Bool → ℕ → Bool) (r : Ranks)
    → ((active : Bool) (q : ℕ) → P active q ≡ Q active q)
    → Counts P r
    → Counts Q r
Counts-ext P Q r e c = record {
  actives = IsLeast-ext (P true) (Q true) r.active_rank (e true) c.actives;
  deferreds = IsLeast-ext (P false) (Q false) r.deferred_rank (e false) c.deferreds;
}

count_rank-Counts :
    (P : Bool → ℕ → Bool) (r : Ranks) (active : Bool) (rank : ℕ)
    → Counts P r
    → Counts
        (λ flag q. (same_flag active flag && (rank == q)) || P flag q)
        (count_rank r active rank)
unfolding count_rank same_flag
count_rank-Counts P r true rank c = record {
  actives = IsLeast-lower (P true) r.active_rank rank c.actives;
  deferreds = c.deferreds;
}
count_rank-Counts P r false rank c = record {
  actives = c.actives;
  deferreds = IsLeast-lower (P false) r.deferred_rank rank c.deferreds;
}

leases-Counts :
    (leases : List (ℕ × Lease)) (ks : List ℕ) (P : Bool → ℕ → Bool) (r : Ranks)
    → Counts P r
    → Counts (λ flag q. leases_ask leases ks flag q || P flag q) (count_leases leases ks r)
unfolding leases_ask count_leases
leases-Counts leases [] P r c = c
leases-Counts leases (k ∷ ks) P r c = elim (Option-cases (lookup k leases)) [
  | inl e ↦ rw e (Counts-ext _ _ _ (λ flag q. ground arith) (leases-Counts leases ks P r c))
  | inr (l, e) ↦ rw e (
      Counts-ext _ _ _ (λ flag q. ground arith)
        (leases-Counts leases ks _ (count_rank r l.is_active l.lease_priority)
          (count_rank-Counts P r l.is_active l.lease_priority c)))
]

child-Counts :
    (P : Bool → ℕ → Bool) (r : Ranks) (s : Selection)
    → Counts P r
    → Counts (λ flag q. selected s flag q || P flag q) (count_child r s)
unfolding count_child
child-Counts P r s c = go s.priority refl
  where
    go :
        (o : Option ℕ)
        → s.priority ≡ o
        → Counts (λ flag q. selected s flag q || P flag q) (count_child r s)
    go none e = rw (e, selected, count_child) c
    go (some rank) e = rw (e, selected, count_child) (count_rank-Counts P r s.active rank c)

children-Counts :
    (nodes : List (ℕ × Node)) (ks : List ℕ) (P : Bool → ℕ → Bool) (r : Ranks)
    → Counts P r
    → Counts (λ flag q. children_ask nodes ks flag q || P flag q) (count_children nodes ks r)
unfolding children_ask count_children
children-Counts nodes [] P r c = c
children-Counts nodes (k ∷ ks) P r c = elim (Option-cases (lookup k nodes)) [
  | inl e ↦ rw e (Counts-ext _ _ _ (λ flag q. ground arith) (children-Counts nodes ks P r c))
  | inr (n, e) ↦ rw e (
      Counts-ext _ _ _ (λ flag q. ground arith)
        (children-Counts nodes ks _ (count_child r n.selection) (child-Counts P r n.selection c)))
]

no_ranks-Counts : Counts (λ flag q. false) (record { active_rank = none; deferred_rank = none })
no_ranks-Counts = record { actives = nothing (λ q. refl); deferreds = nothing (λ q. refl) }

abbrev pub bounded_by : Option ℕ → ℕ → ℕ
bounded_by none p = p
bounded_by (some base) p = min base p

abbrev pub is_given : Option ℕ → Bool
is_given none = false
is_given (some base) = true

-- What the two least ranks and the baseline give.
pub data Aggregated (baseline : Option ℕ) (P : Bool → ℕ → Bool) : Option ℕ × Bool → Type 0 where
  by_active :
      (p : ℕ)
      → IsLeast (P true) (some p)
      → Aggregated baseline P (some (bounded_by baseline p), true)
  by_deferred :
      (p : ℕ)
      → IsLeast (P true) none
      → IsLeast (P false) (some p)
      → Aggregated baseline P (some p, false)
  by_baseline :
      IsLeast (P true) none
      → IsLeast (P false) none
      → Aggregated baseline P (baseline, is_given baseline)

settled-Aggregated :
    (baseline : Option ℕ) (P : Bool → ℕ → Bool) (a d : Option ℕ)
    → Counts P (record { active_rank = a; deferred_rank = d })
    → Aggregated baseline P (settle_ranks baseline (record { active_rank = a; deferred_rank = d }))
unfolding settle_ranks lower
settled-Aggregated none P (some p) d c = by_active p c.actives
settled-Aggregated (some base) P (some p) d c = by_active p c.actives
settled-Aggregated baseline P none (some p) c = by_deferred p c.actives c.deferreds
settled-Aggregated baseline P none none c = by_baseline c.actives c.deferreds

-- The aggregate of a node is the least rank of its active leases and of its active children, or
-- the baseline if that is less; without active interest it is the least deferred rank, and is not
-- active; without any interest it is the baseline.
pub aggregate-Aggregated :
    (s : DemandState) (n : Node) → Aggregated n.baseline (asks s n) (aggregate s n)
unfolding aggregate asks
aggregate-Aggregated s n =
    let first = leases-Counts s.leases n.attached _ _ no_ranks-Counts in
    let both = children-Counts s.nodes n.children _ _ first in
    settled-Aggregated n.baseline (asks s n) _ _
      (Counts-ext _ (asks s n) _ (λ flag q. ground arith) both)
