-- ===== src/Demand/Service.antt =====
-- src/scheduler/demand.rs, `DemandState::service` and `aggregate`.
use solworker.Prelude.{
  ℕ, zero, suc, Bool, true, false, ◌&&◌, not, Option, none, some, List, [], ◌∷◌, ◌++◌, min, ◌==◌,
  if◌then◌else◌, checked_add,
}
use solworker.Prelude.Int.{eq_ℤ}
use solworker.Demand.Selection.{Selection}
use solworker.Ready.Maps.{lookup, insert}
use solworker.Demand.State.{Lease, Node, DemandState, DemandChange, put_node}
use solworker.Demand.Graph.{mark_all}

-- The two accumulators of `aggregate`.
pub record Ranks : Type 0 where
  pub active_rank : Option ℕ
  pub deferred_rank : Option ℕ

unfoldable pub lower : Option ℕ → ℕ → ℕ
lower none rank = rank
lower (some old) rank = min old rank

unfoldable pub count_rank : Ranks → Bool → ℕ → Ranks
count_rank r active rank =
    if active
    then record r { active_rank = some (lower r.active_rank rank) }
    else record r { deferred_rank = some (lower r.deferred_rank rank) }

unfoldable pub count_leases : List (ℕ × Lease) → List ℕ → Ranks → Ranks
count_leases leases [] r = r
count_leases leases (k ∷ ks) r =
    count_leases leases ks
      (elim (lookup k leases) [ none ↦ r | some l ↦ count_rank r l.is_active l.lease_priority ])

unfoldable pub count_child : Ranks → Selection → Ranks
count_child r s = elim s.priority [ none ↦ r | some rank ↦ count_rank r s.active rank ]

unfoldable pub count_children : List (ℕ × Node) → List ℕ → Ranks → Ranks
count_children nodes [] r = r
count_children nodes (k ∷ ks) r =
    count_children nodes ks
      (elim (lookup k nodes) [ none ↦ r | some n ↦ count_child r n.selection ])

abbrev is_some {ℓ} : {A : Type ℓ} → Option A → Bool
is_some none = false
is_some (some a) = true

unfoldable pub settle_ranks : Option ℕ → Ranks → Option ℕ × Bool
settle_ranks baseline r = elim r.active_rank [
  | some rank ↦ (some (lower baseline rank), true)
  | none ↦ elim r.deferred_rank [
    | some rank ↦ (some rank, false)
    | none ↦ (baseline, is_some baseline)
  ]
]

unfoldable pub aggregate : DemandState → Node → Option ℕ × Bool
aggregate s n = settle_ranks n.baseline (
    count_children s.nodes n.children
      (count_leases s.leases n.attached (record { active_rank = none; deferred_rank = none })))

unfoldable pub same_priority : Option ℕ → Option ℕ → Bool
same_priority none none = true
same_priority (some a) (some b) = a == b
same_priority _ _ = false

unfoldable pub same_flag : Bool → Bool → Bool
same_flag true b = b
same_flag false b = not b

-- Nothing that a reader of the selection sees has changed since it was published.
unfoldable pub is_settled : Node → Option ℕ × Bool → Bool
is_settled n (priority, active) =
    n.published
    && (same_priority n.selection.priority priority
        && (same_flag n.selection.active active && eq_ℤ n.selection.tie n.published_tie))

abbrev pub next_selection : DemandState → Node → Option ℕ × Bool → Selection
next_selection s n (priority, active) = record {
  priority = priority;
  active = active;
  tie = n.selection.tie;
  version = s.version;
}

unfoldable pub publish : DemandState → ℕ → Node → Selection → ℕ → DemandState
publish s id n selection version =
    mark_all
      (record s {
        nodes =
            insert id
              (record n {
                is_dirty = false;
                selection = selection;
                published = true;
                published_tie = selection.tie;
              })
              s.nodes;
        version = version;
      })
      n.parents

-- One visit of the loop to a node that left the queue; `none` is the exhausted version.
unfoldable pub visit : DemandState → ℕ → Node → Option (DemandState × List DemandChange)
visit s id n =
    if is_settled n (aggregate s n)
    then some (put_node s id (record n { is_dirty = false }), [])
    else elim (checked_add s.version 1) [
      | none ↦ none
      | some version ↦ some (
        publish s id n (next_selection s n (aggregate s n)) version,
        record {
          changed_id = id;
          changed_selection = next_selection s n (aggregate s n);
          changed_provider = n.provider;
        }
            ∷ [],
      )
    ]

unfoldable pub visit_id : DemandState → ℕ → Option (DemandState × List DemandChange)
visit_id s id = elim (lookup id s.nodes) [ none ↦ some (s, []) | some n ↦ visit s id n ]

unfoldable pub service : ℕ → DemandState → Option (DemandState × List DemandChange)
service zero s = some (s, [])
service (suc budget) s = elim s.dirty [
  | [] ↦ some (s, [])
  | id ∷ rest ↦ elim (visit_id (record s { dirty = rest }) id) [
    | none ↦ none
    | some (t, changes) ↦ elim (service budget t) [
      | none ↦ none
      | some (u, more) ↦ some (u, changes ++ more)
    ]
  ]
]
