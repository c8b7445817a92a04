-- ===== src/Reservation/Pool/History.antt =====
-- src/scheduler/reservation.rs: every history of calls on a reservation pool.
use solworker.Prelude.{
  ℕ, zero, suc, ◌+◌, ◌*◌, ◌≡◌, refl, false, Option, none, some, List, [], ◌∷◌, arith, Bool-cases,
  ◌==◌, inl, inr, subst,
}
use solworker.Prelude.Results.{ok, Result-cases}
use solworker.Reservation.Cost.{Cost, plus, Same}
use solworker.Reservation.Limits.{Limits}
use solworker.Reservation.Ledger.{Kind, ordinary, Usage, use_of, claim, claim_ordinary_many}
use solworker.Reservation.Bounds.{IsBounded, claim-IsBounded, claim-Granted}
use solworker.Reservation.Many.{claims}
use solworker.Reservation.Many.Refines.{claim_ordinary_many-claims}
use solworker.Reservation.State.{
  Pool, Outcome, done, refused, stale, panicked, OwnedCharge, owned_cost,
}
use solworker.Reservation.Sums.{charge_sum, part}
use solworker.Reservation.Pool.{
  reserve, try_charge_owned, try_charge_owned_many, push_charges, drop_charge, close, stage,
  try_grow, retain_bytes, drop_lease, drop_reservation,
}
use solworker.Reservation.Pool.Inv.{Inv, IsSafe, Granted-use}
use solworker.Reservation.Pool.Charges.{reserve-IsSafe, try_charge_owned-IsSafe, drop_charge-IsSafe}
use solworker.Reservation.Pool.Stages.{stage-IsSafe, try_grow-IsSafe, retain_bytes-IsSafe}
use solworker.Reservation.Pool.Drops.{drop_lease-IsSafe, drop_reservation-IsSafe}

pub data Call : Type 0 where
  reserves : Kind → Cost → Call
  charges_owned : ℕ → Call
  charges_many : ℕ → ℕ → Call
  drops_charge : ℕ → Call
  closes : Call
  stages : Kind → ℕ → ℕ → Cost → Call
  grows : Kind → ℕ → ℕ → Cost → Call
  retains : Kind → ℕ → ℕ → ℕ → Call
  drops_lease : ℕ → Call
  drops : Kind → ℕ → ℕ → Call

unfoldable pub perform : Pool → Call → Outcome
perform p (reserves kind cost) = reserve p kind cost
perform p (charges_owned edges) = try_charge_owned p edges
perform p (charges_many edges maximum) = try_charge_owned_many p edges maximum
perform p (drops_charge k) = drop_charge p k
perform p closes = done (close p) 0
perform p (stages kind serial bank cost) = stage p kind serial bank cost
perform p (grows kind serial bank cost) = try_grow p kind serial bank cost
perform p (retains kind serial bank bytes) = retain_bytes p kind serial bank bytes
perform p (drops_lease k) = drop_lease p k
perform p (drops kind serial bank) = drop_reservation p kind serial bank

-- A refusal leaves the pool; a panic ends the history.
after_call : Outcome → Pool → Option Pool
after_call (done q _) p = some q
after_call (refused _) p = some p
after_call stale p = some p
after_call panicked p = none

unfoldable pub run : Pool → List Call → Option Pool
unfolding after_call
run p [] = some p
run p (c ∷ cs) = elim (after_call (perform p c) p) [ none ↦ none | some q ↦ run q cs ]

push_charges_sum :
    (n serial edges : ℕ) (cs : List OwnedCharge)
    → Same (charge_sum (push_charges n serial edges cs)) (record {
      records = (charge_sum cs).records + n * 1;
      edges = (charge_sum cs).edges + n * edges;
      deliveries = (charge_sum cs).deliveries + n * 0;
      bytes = (charge_sum cs).bytes + n * 0;
    })
unfolding push_charges charge_sum
push_charges_sum zero serial edges cs = omega arith
push_charges_sum (suc n) serial edges cs = omega (
  arith,
  push_charges_sum n (suc serial) edges (record { charge_id = serial; charge_edges = edges } ∷ cs),
)

module _ (l : Limits) (edges : ℕ) where
  -- What `n` single claims of owned records leave.
  record Claimed (n : ℕ) (u v : Usage) : Type 0 where
    bounded : IsBounded l v
    charged :
        (j : Kind)
        → Same (use_of j v) (
            plus (use_of j u) (
              part j ordinary
                (record { records = n * 1; edges = n * edges; deliveries = n * 0; bytes = n * 0 })))
    counted : v.pipelines ≡ u.pipelines

  claims-Claimed :
      (n : ℕ) (u v : Usage) → IsBounded l u → claims n l u (owned_cost edges) ≡ ok v → Claimed n u v
  unfolding claims
  claims-Claimed zero u v b h =
      let e : u ≡ v = cc in
      record {
        bounded = subst (IsBounded l) e b;
        charged = λ j. ground arith;
        counted = ground arith;
      }
  claims-Claimed (suc n) u v b h = elim (Result-cases (claims n l u (owned_cost edges))) [
    | inr (e, eq) ↦ absurd (ground arith)
    | inl (w, eq) ↦
        let c = claims-Claimed n u w b eq in
        let last : claim l w (owned_cost edges) ordinary false ≡ ok v = ground arith in
        let g = claim-Granted l w v (owned_cost edges) ordinary false last in
        record {
          bounded = claim-IsBounded l w v (owned_cost edges) ordinary false c.bounded last;
          charged = λ j. ground (arith, c.charged j, Granted-use j ordinary g);
          counted = ground (arith, c.counted);
        }
  ]

try_charge_owned_many-IsSafe :
    (p : Pool) (edges maximum : ℕ) → Inv p → IsSafe (try_charge_owned_many p edges maximum)
unfolding try_charge_owned_many
try_charge_owned_many-IsSafe p edges maximum inv = elim (Bool-cases (maximum == 0)) [
  | inl nothing ↦ rw (nothing, IsSafe) inv
  | inr some_asked ↦
      elim (Result-cases (claim_ordinary_many p.limits p.usage (owned_cost edges) maximum)) [
        | inr (e, eq) ↦ rw (some_asked, eq, try_charge_owned_many, IsSafe) tt
        | inl ((n, u), eq) ↦
            let single =
              claim_ordinary_many-claims p.limits p.usage u (owned_cost edges) maximum n inv.machine
                inv.bounded eq in
            let c = claims-Claimed p.limits edges n p.usage u inv.bounded single.2 in
            let sum = push_charges_sum n p.next_serial edges p.charges in
            rw (some_asked, eq, try_charge_owned_many, IsSafe)
              (record {
                machine = inv.machine;
                bounded = c.bounded;
                balanced = λ j. ground (arith, inv.balanced j, c.charged j);
                counted = ground (arith, inv.counted, c.counted);
                covered = inv.covered;
              })
      ]
]

pub perform-IsSafe : (p : Pool) (c : Call) → Inv p → IsSafe (perform p c)
unfolding perform close
perform-IsSafe p (reserves kind cost) inv = reserve-IsSafe p kind cost inv
perform-IsSafe p (charges_owned edges) inv = try_charge_owned-IsSafe p edges inv
perform-IsSafe p (charges_many edges maximum) inv = try_charge_owned_many-IsSafe p edges maximum inv
perform-IsSafe p (drops_charge k) inv = drop_charge-IsSafe p k inv
perform-IsSafe p closes inv = record {
  machine = inv.machine;
  bounded = ground (arith, inv.bounded);
  balanced = λ j. ground (arith, inv.balanced j);
  counted = inv.counted;
  covered = inv.covered;
}
perform-IsSafe p (stages kind serial bank cost) inv = stage-IsSafe p inv kind serial bank cost
perform-IsSafe p (grows kind serial bank cost) inv = try_grow-IsSafe p inv kind serial bank cost
perform-IsSafe p (retains kind serial bank bytes) inv =
    retain_bytes-IsSafe p inv kind serial bank bytes
perform-IsSafe p (drops_lease k) inv = drop_lease-IsSafe p k inv
perform-IsSafe p (drops kind serial bank) inv = drop_reservation-IsSafe p kind serial bank inv

abbrev Runs : Pool → List Call → Type 0
Runs p cs = (q : Pool) × (run p cs ≡ some q) × Inv q

after-Runs :
    (p : Pool) (c : Call) (cs : List Call)
    → Inv p
    → ((q : Pool) → Inv q → Runs q cs)
    → (o : Outcome) → perform p c ≡ o
    → IsSafe o
    → Runs p (c ∷ cs)
unfolding run
after-Runs p c cs inv next (done q k) e safe =
    let (r, eq, i) = next q safe in (r, rw (e, run, after_call) eq, i)
after-Runs p c cs inv next (refused x) e safe =
    let (r, eq, i) = next p inv in (r, rw (e, run, after_call) eq, i)
after-Runs p c cs inv next stale e safe =
    let (r, eq, i) = next p inv in (r, rw (e, run, after_call) eq, i)
after-Runs p c cs inv next panicked e safe = absurd safe

-- From a pool that meets the invariant, no list of calls panics, and the last pool meets it. The
-- invariant says that the policy bounds hold, and that the usage of each kind is exactly the sum of
-- the living pipelines, byte leases and owned charges of that kind.
pub run-Inv : (p : Pool) (cs : List Call) → Inv p → (q : Pool) × (run p cs ≡ some q) × Inv q
unfolding run
run-Inv p [] inv = (p, refl, inv)
run-Inv p (c ∷ cs) inv =
    after-Runs p c cs inv (λ q i. run-Inv q cs i) (perform p c) refl (perform-IsSafe p c inv)
