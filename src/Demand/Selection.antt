-- ===== src/Demand/Selection.antt =====
-- src/scheduler/demand.rs, `DemandSelection`: the aggregate that ranks one resource stage. A
-- priority is its rank; smaller ranks come first.
use solworker.Prelude.{ℕ, Bool, Option}
use solworker.Prelude.Int.{ℤ}

pub record Selection : Type 0 where
  pub priority : Option ℕ
  pub active : Bool
  pub tie : ℤ
  pub version : ℕ
