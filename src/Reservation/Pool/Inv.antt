-- ===== src/Reservation/Pool/Inv.antt =====
-- src/scheduler/reservation.rs: what the ledger, the pipelines, the byte leases and the owned
-- charges agree on between two operations.
use solworker.Prelude.{Bool, ◌≡◌, refl, List, arith, All, true, false, if◌then◌else◌}
use solworker.Reservation.Cost.{Cost, zero_cost, plus, Same, cost_add-Same}
use solworker.Reservation.Limits.{Limits}
use solworker.Reservation.Ledger.{Kind, ordinary, required, Usage, use_of}
use solworker.Reservation.Bounds.{IsMachine, Granted, Released, IsBounded, new_usage-IsBounded}
use solworker.Reservation.State.{Pool, OwnedCharge, Outcome, done, panicked, new_pool}
use solworker.Reservation.Sums.{
  part, IsCovered, pipeline_sum, lease_sum, charge_sum, required_count,
}

abbrev pub charge_part : Kind → List OwnedCharge → Cost
charge_part ordinary cs = charge_sum cs
charge_part required cs = zero_cost

-- All that is charged to the ledger under one kind.
abbrev pub owed : Kind → Pool → Cost
owed j p = plus (pipeline_sum j p.pipelines) (plus (lease_sum j p.leases) (charge_part j p.charges))

pub record Inv (p : Pool) : Type 0 where
  pub machine : IsMachine p.limits
  pub bounded : IsBounded p.limits p.usage
  pub balanced : (j : Kind) → Same (use_of j p.usage) (owed j p)
  pub counted : p.usage.pipelines ≡ required_count p.pipelines
  pub covered : All IsCovered p.pipelines

-- An operation keeps the invariant, or refuses, and never panics.
abbrev pub IsSafe : Outcome → Type 0
IsSafe (done p _) = Inv p
IsSafe panicked = ⊥
IsSafe _ = Unit {0}

pub new_pool-Inv : (l : Limits) → IsMachine l → Inv (new_pool l)
unfolding new_pool pipeline_sum lease_sum charge_sum required_count
new_pool-Inv l m = record {
  machine = m;
  bounded = new_usage-IsBounded l;
  balanced = λ j. ground arith;
  counted = refl;
  covered = tt;
}

-- A granted claim adds the cost to its own kind, and a release takes it off.
pub Granted-use :
    (j kind : Kind) {l : Limits} {u v : Usage} {cost : Cost} {new_pipeline : Bool}
    → Granted l u v cost kind new_pipeline
    → Same (use_of j v) (plus (use_of j u) (part j kind cost))
Granted-use ordinary ordinary {u = u} {cost = cost} g =
    ground (arith, cost_add-Same u.ordinary_use cost g.next)
Granted-use ordinary required g = ground arith
Granted-use required ordinary g = ground arith
Granted-use required required {u = u} {cost = cost} g =
    ground (arith, cost_add-Same u.required_use cost g.next)

pub Released-use :
    (j kind : Kind) {u v : Usage} {cost : Cost} {pipeline : Bool}
    → Released u v cost kind pipeline
    → Same (use_of j u) (plus (use_of j v) (part j kind cost))
Released-use ordinary ordinary r = ground arith
Released-use ordinary required r = ground arith
Released-use required ordinary r = ground arith
Released-use required required r = ground arith

pub if-IsSafe : (test : Bool) (x y : Outcome) → IsSafe x → IsSafe y → IsSafe (if test then x else y)
if-IsSafe true x y a b = a
if-IsSafe false x y a b = b
