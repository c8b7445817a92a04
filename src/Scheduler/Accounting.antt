-- ===== src/Scheduler/Accounting.antt =====
-- src/scheduler.rs, `Accounting`: the records and edges of all classes, in two atomic counters. One
-- acquisition makes two atomic updates, and so does its failure and the drop of a lease, so the
-- state lists the calls that are between their two updates.
pub mod Bounds
use solworker.Prelude.{
  ℕ, zero, suc, ◌+◌, ◌-◌, Bool, true, false, ◌&&◌, ◌||◌, not, Option, none, some, List, [], ◌∷◌,
  ltb, leb, ◌==◌, if◌then◌else◌, checked_add,
}

pub record Accounting : Type 0 where
  pub record_limit : ℕ
  pub edge_limit : ℕ
  pub record_count : ℕ
  pub edge_count : ℕ
  pub acquiring : List ℕ
  pub held_leases : List ℕ
  pub returning : ℕ

unfoldable pub new_accounting : ℕ → ℕ → Accounting
new_accounting record_limit edge_limit = record {
  record_limit = record_limit;
  edge_limit = edge_limit;
  record_count = 0;
  edge_count = 0;
  acquiring = [];
  held_leases = [];
  returning = 0;
}

abbrev pub has_call : ℕ → List ℕ → Bool
has_call e [] = false
has_call e (x ∷ xs) = (x == e) || has_call e xs

abbrev pub end_call : ℕ → List ℕ → List ℕ
end_call e [] = []
end_call e (x ∷ xs) = if x == e then xs else x ∷ end_call e xs

-- `TooLarge`, `Full`, or on with the acquisition; `beneath` is an atomic counter below zero.
pub data Update : Type 0 where
  next : Accounting → Update
  too_large : Update
  full : Update
  stale : Update
  beneath : Update

-- The first update of `Accounting::acquire`.
unfoldable pub acquire_record : Accounting → ℕ → Update
acquire_record a edges =
    if ltb a.edge_limit edges
    then too_large
    else if ltb a.record_count a.record_limit
    then next (record a { record_count = a.record_count + 1; acquiring = edges ∷ a.acquiring })
    else full

abbrev with_edges : Accounting → ℕ → Option ℕ → Update
with_edges a edges none =
    next (record a { acquiring = end_call edges a.acquiring; returning = a.returning + 1 })
with_edges a edges (some sum) =
    if leb sum a.edge_limit
    then next (record a {
      edge_count = sum;
      acquiring = end_call edges a.acquiring;
      held_leases = edges ∷ a.held_leases;
    })
    else next (record a { acquiring = end_call edges a.acquiring; returning = a.returning + 1 })

-- The second, which makes the lease or goes on to give the record back.
unfoldable pub acquire_edges : Accounting → ℕ → Update
acquire_edges a edges =
    if not (has_call edges a.acquiring)
    then stale
    else if edges == 0
    then next
        (record a { acquiring = end_call edges a.acquiring; held_leases = edges ∷ a.held_leases })
    else with_edges a edges (checked_add a.edge_count edges)

-- `AccountingLease::drop`, up to its last update.
unfoldable pub drop_edges : Accounting → ℕ → Update
drop_edges a edges =
    if not (has_call edges a.held_leases)
    then stale
    else if ltb a.edge_count edges
    then beneath
    else next (record a {
      edge_count = a.edge_count - edges;
      held_leases = end_call edges a.held_leases;
      returning = a.returning + 1;
    })

-- The `fetch_sub` on the records that ends a drop or a failed acquisition.
unfoldable pub return_record : Accounting → Update
return_record a =
    if a.returning == 0
    then stale
    else if a.record_count == 0
    then beneath
    else next (record a { record_count = a.record_count - 1; returning = a.returning - 1 })
