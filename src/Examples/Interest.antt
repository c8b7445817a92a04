-- ===== src/Examples/Interest.antt =====
-- Concrete runs of the theorems on src/scheduler/demand.rs.
use solworker.Prelude.{◌≡◌, true, false, none, some, List, [], ◌∷◌, arith}
use solworker.Prelude.Int.{pos, negsuc}
use solworker.Demand.State.{DemandState, Node, promote, defer, detach, new_state}
use solworker.Demand.Service.{aggregate}
use solworker.Demand.Inv.{Inv, new_state-Inv}
use solworker.Demand.Aggregate.{Aggregated, asks, aggregate-Aggregated}
use solworker.Demand.History.{
  Call, registers, removes, attaches, changes, services, run_graph, run_graph-Inv,
}

abbrev graph : DemandState
graph = record {
  bands = 1 ∷ 5 ∷ 9 ∷ [];
  lease_limit = 2;
  nodes = [];
  leases = [];
  dirty = [];
  next_lease = 1;
  front = negsuc 0;
  back = pos 1;
  version = 1;
}

graph-Inv : Inv graph
unfolding new_state
graph-Inv = record { agrees = (new_state-Inv [] 2).agrees; once = tt }

abbrev calls : List Call
calls =
    registers 3 (some 9) [] none
    ∷ registers 4 none (3 ∷ []) (some 50)
    ∷ attaches 4 5
    ∷ services 2
    ∷ changes 1 promote
    ∷ changes 1 defer
    ∷ services 4
    ∷ removes 3
    ∷ changes 1 detach
    ∷ []

run_graph-Inv_example : (t : DemandState) × (run_graph graph calls ≡ some t) × Inv t
run_graph-Inv_example = run_graph-Inv graph calls graph-Inv (omega arith) (omega arith)

abbrev wanted : Node
wanted = record {
  baseline = some 9;
  parents = [];
  children = [];
  attached = 1 ∷ [];
  selection = record { priority = some 9; active = true; tie = pos 1; version = 1 };
  provider = none;
  is_dirty = true;
  published = false;
  published_tie = pos 1;
}

abbrev waiting_graph : DemandState
waiting_graph = record graph {
  nodes = (3, wanted) ∷ [];
  leases = (1, record { lease_node = 3; lease_priority = 5; is_active = true }) ∷ [];
  dirty = 3 ∷ [];
  next_lease = 2;
  version = 2;
}

aggregate-Aggregated_example :
    Aggregated wanted.baseline (asks waiting_graph wanted) (aggregate waiting_graph wanted)
aggregate-Aggregated_example = aggregate-Aggregated waiting_graph wanted
