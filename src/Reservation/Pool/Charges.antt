-- ===== src/Reservation/Pool/Charges.antt =====
-- src/scheduler/reservation.rs: reserving a pipeline, and charging plain owned records.
use solworker.Prelude.{ℕ, refl, true, false, arith, inl, inr, Option-cases}
use solworker.Prelude.Results.{Result-cases}
use solworker.Reservation.Cost.{Cost}
use solworker.Reservation.Ledger.{Kind, ordinary, claim}
use solworker.Reservation.Bounds.{
  claim-Granted, claim-IsBounded, release-Released, Released-IsBounded,
}
use solworker.Reservation.Bank.{sum_balances, has_live}
use solworker.Reservation.State.{Pool, owned_cost, find_charge}
use solworker.Reservation.Sums.{pipeline_sum, charge_sum, required_count, remove_charge_sum}
use solworker.Reservation.Pool.{reserve, try_charge_owned, drop_charge, after_release}
use solworker.Reservation.Pool.Inv.{Inv, IsSafe, Granted-use, Released-use}

pub reserve-IsSafe : (p : Pool) (kind : Kind) (cost : Cost) → Inv p → IsSafe (reserve p kind cost)
unfolding reserve pipeline_sum required_count sum_balances has_live
reserve-IsSafe p kind cost inv = elim (Result-cases (claim p.limits p.usage cost kind true)) [
  | inr (e, eq) ↦ rw (eq, reserve) tt
  | inl (u, eq) ↦
      let g = claim-Granted _ _ _ _ _ _ eq in
      rw (eq, reserve)
        (record {
          machine = inv.machine;
          bounded = claim-IsBounded _ _ _ _ _ _ inv.bounded eq;
          balanced = λ j. omega (arith, inv.balanced j, Granted-use j kind g);
          counted = ground (arith, inv.counted);
          covered = (record { covered = omega arith; lives = refl }, inv.covered);
        })
]

pub try_charge_owned-IsSafe : (p : Pool) (edges : ℕ) → Inv p → IsSafe (try_charge_owned p edges)
unfolding try_charge_owned charge_sum
try_charge_owned-IsSafe p edges inv =
    elim (Result-cases (claim p.limits p.usage (owned_cost edges) ordinary false)) [
      | inr (e, eq) ↦ rw (eq, try_charge_owned) tt
      | inl (u, eq) ↦
          let g = claim-Granted _ _ _ _ _ _ eq in
          rw (eq, try_charge_owned)
            (record {
              machine = inv.machine;
              bounded = claim-IsBounded _ _ _ _ _ _ inv.bounded eq;
              balanced = λ j. ground (arith, inv.balanced j, Granted-use j ordinary g);
              counted = ground (arith, inv.counted);
              covered = inv.covered;
            })
    ]

pub drop_charge-IsSafe : (p : Pool) (k : ℕ) → Inv p → IsSafe (drop_charge p k)
unfolding drop_charge
drop_charge-IsSafe p k inv = elim (Option-cases (find_charge k p.charges)) [
  | inl missing ↦ rw (missing, drop_charge) tt
  | inr (edges, found) ↦
      let (u, eq, r) =
        release-Released p.usage (owned_cost edges) ordinary false
          (omega (arith, inv.balanced ordinary, remove_charge_sum k p.charges edges found))
          (omega arith) in
      rw (found, drop_charge)
        (rw (eq, after_release)
          (record {
            machine = inv.machine;
            bounded = Released-IsBounded _ _ _ _ _ _ inv.bounded r;
            balanced = λ j. ground (
              arith,
              inv.balanced j,
              Released-use j ordinary r,
              remove_charge_sum k p.charges edges,
            );
            counted = ground (arith, inv.counted);
            covered = inv.covered;
          }))
]
