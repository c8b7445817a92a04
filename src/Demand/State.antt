-- ===== src/Demand/State.antt =====
-- src/scheduler/demand.rs, `DemandState`: the graph of resource stages, the leases of their
-- consumers and the queue of nodes whose aggregate may have changed. A priority is its rank, and a
-- provider hook is named by a number. `none` is a panic on an identity that is used up.
use solworker.Prelude.{
  ℕ, Bool, true, Option, none, some, List, [], ◌∷◌, ◌++◌, ltb, ◌==◌, if◌then◌else◌, any,
}
use solworker.Prelude.Int.{ℤ, pos, negsuc}
use solworker.Demand.Selection.{Selection}
use solworker.Ready.Maps.{lookup, insert}

pub data DemandError : Type 0 where
  unknown_priority gone full closed : DemandError

pub data DemandCommand : Type 0 where
  promote : DemandCommand
  refresh : ℕ → DemandCommand
  defer : DemandCommand
  detach : DemandCommand

pub record Lease : Type 0 where
  pub lease_node : ℕ
  pub lease_priority : ℕ
  pub is_active : Bool

pub record Node : Type 0 where
  pub baseline : Option ℕ
  pub parents : List ℕ
  pub children : List ℕ
  pub attached : List ℕ
  pub selection : Selection
  pub provider : Option ℕ
  pub is_dirty : Bool
  pub published : Bool
  pub published_tie : ℤ

pub record DemandState : Type 0 where
  pub bands : List ℕ
  pub lease_limit : ℕ
  pub nodes : List (ℕ × Node)
  pub leases : List (ℕ × Lease)
  pub dirty : List ℕ
  pub next_lease : ℕ
  pub front : ℤ
  pub back : ℤ
  pub version : ℕ

-- `DemandChange`, with the hook and the version of its snapshot.
pub record DemandChange : Type 0 where
  pub changed_id : ℕ
  pub changed_selection : Selection
  pub changed_provider : Option ℕ

-- `sort_unstable` with `dedup`.
unfoldable pub insert_band : ℕ → List ℕ → List ℕ
insert_band p [] = p ∷ []
insert_band p (q ∷ qs) =
    if ltb p q then p ∷ q ∷ qs else if p == q then q ∷ qs else q ∷ insert_band p qs

unfoldable pub sort_bands : List ℕ → List ℕ
sort_bands [] = []
sort_bands (p ∷ ps) = insert_band p (sort_bands ps)

unfoldable pub new_state : List ℕ → ℕ → DemandState
new_state bands lease_limit = record {
  bands = sort_bands bands;
  lease_limit = lease_limit;
  nodes = [];
  leases = [];
  dirty = [];
  next_lease = 1;
  front = negsuc 0;
  back = pos 1;
  version = 1;
}

unfoldable pub has_id : ℕ → List ℕ → Bool
has_id id = any (λ j. j == id)

-- `binary_search` on the sorted bands.
unfoldable pub contains : DemandState → ℕ → Bool
contains s priority = has_id priority s.bands

unfoldable pub retain_others : ℕ → List ℕ → List ℕ
retain_others id [] = []
retain_others id (j ∷ js) = let rest = retain_others id js in if j == id then rest else j ∷ rest

abbrev pub put_node : DemandState → ℕ → Node → DemandState
put_node s id n = record s { nodes = insert id n s.nodes }

unfoldable pub set_dirty : DemandState → ℕ → Node → DemandState
set_dirty s id n = record s {
  nodes = insert id (record n { is_dirty = true }) s.nodes;
  dirty = s.dirty ++ id ∷ [];
}

unfoldable pub mark_node : DemandState → ℕ → Node → DemandState
mark_node s id n = if n.is_dirty then s else set_dirty s id n

unfoldable pub mark_dirty : DemandState → ℕ → DemandState
mark_dirty s id = elim (lookup id s.nodes) [ none ↦ s | some n ↦ mark_node s id n ]

-- An operation ends with a new state, refuses, or panics.
pub data Outcome : Type 0 where
  done : DemandState → Outcome
  refused : DemandError → Outcome
  panicked : Outcome
