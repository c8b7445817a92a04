-- ===== src/Examples/Capacity.antt =====
-- Concrete runs of the theorems on src/scheduler/reservation.rs.
use solworker.Prelude.{
  ℕ, suc, ◌≤◌, ◌<◌, ◌≡◌, true, false, none, some, List, [], ◌∷◌, ◌⊎◌, ◌↔◌, arith,
}
use solworker.Prelude.Results.{ok, err}
use solworker.Reservation.Cost.{
  Cost, IsWord, plus, cost_add, cost_mul, fits, subtract, subtract-cost_add,
}
use solworker.Reservation.Limits.{policy, Limits, new_limits, IsValid, new_limits-IsValid}
use solworker.Reservation.Ledger.{
  ordinary, Usage, new_usage, full, claim, claim_ordinary_many, charge_many, affordable,
}
use solworker.Reservation.Bounds.{IsMachine, IsBounded, new_usage-IsBounded, claim-IsBounded}
use solworker.Reservation.Many.{claims}
use solworker.Reservation.Many.Refines.{claim_ordinary_many-claims, claim_ordinary_many_refused}
use solworker.Reservation.Bank.{Bank, refund, sum_balances, credit_at, heir_at, refund-credit_at}
use solworker.Reservation.State.{Pool, new_pool, done}
use solworker.Reservation.Pool.{reserve, drop_reservation}
use solworker.Reservation.Pool.Inv.{Inv, new_pool-Inv}
use solworker.Reservation.Pool.History.{
  run, run-Inv, Call, reserves, stages, retains, drops, drops_lease, charges_many, grows, closes,
}
use solworker.Reservation.Pool.RoundTrip.{reserve-drop_reservation}

abbrev target : Cost
target = record { records = 8; edges = 8; deliveries = 8; bytes = 100 }

abbrev allowance : Cost
allowance = record { records = 2; edges = 2; deliveries = 2; bytes = 0 }

abbrev limits : Limits
limits = record {
  ordinary_target = target;
  required_allowance = allowance;
  required_pipelines = 1;
  hard_byte_ceiling = some 120;
}

abbrev member : Cost
member = record { records = 3; edges = 1; deliveries = 0; bytes = 10 }

abbrev two_members : Usage
two_members = record new_usage {
  ordinary_use = record { records = 6; edges = 2; deliveries = 0; bytes = 20 };
}

abbrev one_member : Usage
one_member = record new_usage { ordinary_use = member }

limits-IsMachine : IsMachine limits
limits-IsMachine = record { target_word = omega arith; ceiling_word = omega arith }

two_members-IsBounded : IsBounded limits two_members
two_members-IsBounded = record {
  ordinary_within = omega arith;
  required_within = omega arith;
  ordinary_word = omega arith;
  required_word = omega arith;
  total_word = omega arith;
  total_under = omega arith;
  pipelines_within = omega arith;
}

first_claim : claim limits new_usage member ordinary false ≡ ok one_member
unfolding claim cost_add fits
first_claim = ground arith

claim-IsBounded_example : IsBounded limits one_member
claim-IsBounded_example =
    claim-IsBounded limits new_usage one_member member ordinary false (new_usage-IsBounded limits)
      first_claim

five_asked : claim_ordinary_many limits new_usage member 5 ≡ ok (2, two_members)
unfolding claim_ordinary_many charge_many affordable cost_mul cost_add fits
five_asked = ground arith

claim_ordinary_many-claims_example :
    (0 < 2)
    × (2 ≤ 5)
    × (claims 2 limits new_usage member ≡ ok two_members)
    × ((◌≡◌ {A = ℕ} 2 5) ⊎ (claim limits two_members member ordinary false ≡ err full))
claim_ordinary_many-claims_example =
    claim_ordinary_many-claims limits new_usage two_members member 5 2 limits-IsMachine
      (new_usage-IsBounded limits) five_asked

none_left : claim_ordinary_many limits two_members member 5 ≡ err full
unfolding claim_ordinary_many charge_many affordable cost_mul cost_add fits
none_left = ground arith

claim_ordinary_many_refused_example :
    (claim_ordinary_many limits two_members member 5 ≡ err full)
    ↔ (claim limits two_members member ordinary false ≡ err full)
claim_ordinary_many_refused_example =
    claim_ordinary_many_refused limits two_members member 5 full limits-IsMachine
      two_members-IsBounded (omega arith)

new_limits-IsValid_example : (new_limits target allowance 1 (some 120) ≡ ok limits) ↔ (
    (limits ≡ policy target allowance 1 (some 120))
    × IsValid (policy target allowance 1 (some 120)))
new_limits-IsValid_example = new_limits-IsValid target allowance 1 (some 120) limits

sum_of_costs : cost_add allowance member ≡ some (plus allowance member)
unfolding cost_add
sum_of_costs = ground arith

subtract-cost_add_example : subtract (plus allowance member) member ≡ some allowance
subtract-cost_add_example = subtract-cost_add allowance member (plus allowance member) sum_of_costs

abbrev stage_banks : List Bank
stage_banks =
    record { bank_id = 1; balance = member; retired = true; parent = some 0 }
    ∷ record { bank_id = 0; balance = allowance; retired = false; parent = none }
    ∷ []

stage_banks-IsWord : IsWord (plus (sum_balances stage_banks) member)
unfolding sum_balances
stage_banks-IsWord = omega arith

refund-credit_at_example :
    refund (some 1) member stage_banks
    ≡ some (credit_at (heir_at (some 1) stage_banks) member stage_banks)
refund-credit_at_example = refund-credit_at (some 1) member stage_banks stage_banks-IsWord

abbrev calls : List Call
calls =
    reserves ordinary member
    ∷ stages ordinary 0 0 member
    ∷ retains ordinary 0 1 4
    ∷ drops ordinary 0 0
    ∷ charges_many 1 9
    ∷ grows ordinary 0 1 allowance
    ∷ drops ordinary 0 1
    ∷ drops_lease 1
    ∷ closes
    ∷ []

run-Inv_example : (q : Pool) × (run (new_pool limits) calls ≡ some q) × Inv q
run-Inv_example = run-Inv (new_pool limits) calls (new_pool-Inv limits limits-IsMachine)

abbrev idle : Pool
idle = record {
  limits = limits;
  usage = new_usage;
  pipelines = [];
  leases = [];
  charges = [];
  next_serial = 7;
}

abbrev held : Pool
held = record idle {
  usage = one_member;
  pipelines =
      record {
        serial = 7;
        kind = ordinary;
        total = member;
        banks = record { bank_id = 0; balance = member; retired = false; parent = none } ∷ [];
        next_bank = 1;
      }
      ∷ [];
  next_serial = 8;
}

held_eq : reserve idle ordinary member ≡ done held 7
unfolding reserve claim cost_add fits
held_eq = ground arith

reserve-drop_reservation_example :
    drop_reservation held ordinary 7 0 ≡ done (record idle { next_serial = suc idle.next_serial }) 0
reserve-drop_reservation_example = reserve-drop_reservation idle held ordinary member 7 held_eq
