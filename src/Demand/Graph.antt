-- ===== src/Demand/Graph.antt =====
-- src/scheduler/demand.rs, `DemandState`: registration and removal of nodes, and the leases of
-- their consumers.
use solworker.Prelude.{
  ℕ, Bool, true, false, ◌||◌, not, Option, none, some, List, [], ◌∷◌, ◌++◌, leb, ◌==◌,
  if◌then◌else◌, length, checked_add,
}
use solworker.Prelude.Int.{next, prior}
use solworker.Ready.Maps.{lookup, insert, remove}
use solworker.Demand.State.{
  DemandCommand, Lease, Node, DemandState, contains, retain_others, put_node, mark_dirty, Outcome,
  done, refused, panicked, promote, refresh, defer, detach, unknown_priority, full, gone,
}

-- What the loops do to one neighbour, where it is in the graph.
unfoldable pub push_child : DemandState → ℕ → ℕ → DemandState
push_child s id parent = elim (lookup parent s.nodes) [
  | none ↦ s
  | some n ↦ put_node s parent (record n { children = n.children ++ id ∷ [] })
]

unfoldable pub drop_child : DemandState → ℕ → ℕ → DemandState
drop_child s id parent = elim (lookup parent s.nodes) [
  | none ↦ s
  | some n ↦ put_node s parent (record n { children = retain_others id n.children })
]

unfoldable pub drop_parent : DemandState → ℕ → ℕ → DemandState
drop_parent s id child = elim (lookup child s.nodes) [
  | none ↦ s
  | some n ↦ put_node s child (record n { parents = retain_others id n.parents })
]

unfoldable pub link_parents : DemandState → ℕ → List ℕ → DemandState
link_parents s id [] = s
link_parents s id (p ∷ ps) = link_parents (mark_dirty (push_child s id p) p) id ps

unfoldable pub unlink_parents : DemandState → ℕ → List ℕ → DemandState
unlink_parents s id [] = s
unlink_parents s id (p ∷ ps) = unlink_parents (mark_dirty (drop_child s id p) p) id ps

unfoldable pub unlink_children : DemandState → ℕ → List ℕ → DemandState
unlink_children s id [] = s
unlink_children s id (c ∷ cs) = unlink_children (drop_parent s id c) id cs

unfoldable pub mark_all : DemandState → List ℕ → DemandState
mark_all s [] = s
mark_all s (p ∷ ps) = mark_all (mark_dirty s p) ps

unfoldable pub remove_leases : List ℕ → List (ℕ × Lease) → List (ℕ × Lease)
remove_leases [] leases = leases
remove_leases (k ∷ ks) leases = remove_leases ks (remove k leases)

unfoldable pub known_ids : List (ℕ × Node) → List ℕ → List ℕ
known_ids nodes [] = []
known_ids nodes (id ∷ ids) =
    let rest = known_ids nodes ids in elim (lookup id nodes) [ none ↦ rest | some n ↦ id ∷ rest ]

abbrev is_some {ℓ} : {A : Type ℓ} → Option A → Bool
is_some none = false
is_some (some a) = true

abbrev pub new_node : DemandState → Option ℕ → List ℕ → Option ℕ → Node
new_node s baseline parents provider = record {
  baseline = baseline;
  parents = parents;
  children = [];
  attached = [];
  selection = record {
    priority = baseline;
    active = is_some baseline;
    tie = s.back;
    version = s.version;
  };
  provider = provider;
  is_dirty = false;
  published = false;
  published_tie = s.back;
}

abbrev pub unknown_baseline : DemandState → Option ℕ → Bool
unknown_baseline s none = false
unknown_baseline s (some p) = not (contains s p)

unfoldable pub register_node : DemandState → ℕ → Node → ℕ → DemandState
register_node s id n version =
    mark_dirty
      (link_parents
        (record s { nodes = insert id n s.nodes; back = next s.back; version = version }) id
        n.parents)
      id

unfoldable pub register : DemandState → ℕ → Option ℕ → List ℕ → Option ℕ → Outcome
register s id baseline prerequisites provider =
    if unknown_baseline s baseline
    then refused unknown_priority
    else elim (checked_add s.version 1) [
      | none ↦ panicked
      | some version ↦ done (
          register_node s id (new_node s baseline (known_ids s.nodes prerequisites) provider)
            version)
    ]

unfoldable pub remove_node : DemandState → ℕ → Node → DemandState
remove_node s id n =
    unlink_children
      (unlink_parents
        (record s {
          nodes = remove id s.nodes;
          dirty = retain_others id s.dirty;
          leases = remove_leases n.attached s.leases;
        })
        id n.parents)
      id n.children

unfoldable pub remove_id : DemandState → ℕ → DemandState
remove_id s id = elim (lookup id s.nodes) [ none ↦ s | some n ↦ remove_node s id n ]

unfoldable pub attach_lease : DemandState → ℕ → Node → ℕ → ℕ → DemandState
attach_lease s id n priority next_lease =
    mark_dirty
      (record s {
        nodes = insert id (record n { attached = n.attached ++ s.next_lease ∷ [] }) s.nodes;
        leases =
            insert s.next_lease
              (record { lease_node = id; lease_priority = priority; is_active = true }) s.leases;
        next_lease = next_lease;
      })
      id

unfoldable pub attach : DemandState → ℕ → ℕ → Outcome
attach s id priority =
    if not (contains s priority) then refused unknown_priority else elim (lookup id s.nodes) [
      | none ↦ refused gone
      | some n ↦
          if leb s.lease_limit (length s.leases)
          then refused full
          else elim (checked_add s.next_lease 1) [
            | none ↦ panicked
            | some next_lease ↦ done (attach_lease s id n priority next_lease)
          ]
    ]

unfoldable pub tie_front : DemandState → ℕ → DemandState
tie_front s id = elim (lookup id s.nodes) [
  | none ↦ s
  | some n ↦ record s {
    nodes = insert id (record n { selection = record (n.selection) { tie = s.front } }) s.nodes;
    front = prior s.front;
  }
]

unfoldable pub tie_back : DemandState → ℕ → DemandState
tie_back s id = elim (lookup id s.nodes) [
  | none ↦ s
  | some n ↦ record s {
    nodes = insert id (record n { selection = record (n.selection) { tie = s.back } }) s.nodes;
    back = next s.back;
  }
]

unfoldable pub drop_lease : DemandState → ℕ → ℕ → DemandState
drop_lease s id lease = elim (lookup id s.nodes) [
  | none ↦ s
  | some n ↦ put_node s id (record n { attached = retain_others lease n.attached })
]

-- The body of `change`, before the node is marked.
unfoldable pub change_lease : DemandState → ℕ → Lease → DemandCommand → DemandState
change_lease s lease l promote = tie_front s l.lease_node
change_lease s lease l (refresh priority) =
    if not (l.lease_priority == priority) || not l.is_active
    then tie_back
        (record s {
          leases = insert lease (record l { lease_priority = priority; is_active = true }) s.leases;
        })
        l.lease_node
    else s
change_lease s lease l defer = record s {
  leases = insert lease (record l { is_active = false }) s.leases;
}
change_lease s lease l detach =
    drop_lease (record s { leases = remove lease s.leases }) l.lease_node lease

abbrev pub unknown_refresh : DemandState → DemandCommand → Bool
unknown_refresh s (refresh priority) = not (contains s priority)
unknown_refresh s _ = false

unfoldable pub change : DemandState → ℕ → DemandCommand → Outcome
change s lease command =
    if unknown_refresh s command then refused unknown_priority else elim (lookup lease s.leases) [
      | none ↦ refused gone
      | some l ↦ done (mark_dirty (change_lease s lease l command) l.lease_node)
    ]
