-- ===== src/Reservation/Pool/Stages.antt =====
-- src/scheduler/reservation.rs: `stage`, `try_grow` and `retain_bytes` keep the accounts.
use solworker.Prelude.{
  ℕ, suc, ◌≡◌, refl, sym, ◌∙◌, not, ◌||◌, false, some, List, ◌∷◌, arith, inl, inr, Option-cases,
}
use solworker.Prelude.Results.{Result, ok, err}
use solworker.Reservation.Cost.{
  Cost, bytes_cost, cost_add, cost_add-Same, cost_add-IsWord, subtract, subtract-Same,
  subtract_total,
}
use solworker.Reservation.Ledger.{Kind, Usage, claim, ReservationError, too_large, fits_kind}
use solworker.Reservation.Limits.{over_ceiling}
use solworker.Reservation.Bounds.{claim-Granted, claim-IsBounded}
use solworker.Reservation.Bank.{
  Bank, live_balance, set_balance, refund, refund_total, sum_balances, sum-set_balance, has_live,
  has_live-set_balance, has_live-refund,
}
use solworker.Reservation.State.{Pool, Pipeline, Outcome, refused, find_pipeline}
use solworker.Reservation.Sums.{
  IsCovered, lease_sum, put_pipeline_sum, put_pipeline_count, put_pipeline-All, find_pipeline_self,
  find_pipeline-IsCovered,
}
use solworker.Reservation.Pool.{
  stage, stage_at, try_grow, grow_total, grow_claimed, grow_banks, retain_bytes, retain_at,
  retain_total, put_banks, with_reservation,
}
use solworker.Reservation.Pool.Inv.{Inv, IsSafe, if-IsSafe, Granted-use}

-- An operation on a reservation is safe if it is so on a listed pipeline and a live bank.
pub with_reservation-IsSafe :
    (p : Pool) (kind : Kind) (serial bank : ℕ) (act : Pipeline → Cost → Outcome)
    → ((q : Pipeline) (balance : Cost)
        → find_pipeline q.kind q.serial p.pipelines ≡ some q
        → live_balance bank q.banks ≡ some balance
        → IsSafe (act q balance))
    → IsSafe (with_reservation p kind serial bank act)
with_reservation-IsSafe p kind serial bank act safe =
    elim (Option-cases (find_pipeline kind serial p.pipelines)) [
      | inl missing ↦ rw (missing, with_reservation, IsSafe) tt
      | inr (q, found) ↦ elim (Option-cases (live_balance bank q.banks)) [
        | inl gone ↦ rw (found, gone, with_reservation, IsSafe) tt
        | inr (balance, live) ↦
            rw (found, live, with_reservation, IsSafe)
              (safe q balance (find_pipeline_self kind serial p.pipelines q found) live)
      ]
    ]

module _ (p : Pool) (inv : Inv p) (q : Pipeline) (bank : ℕ) (balance : Cost)
    (found : find_pipeline q.kind q.serial p.pipelines ≡ some q)
    (live : live_balance bank q.banks ≡ some balance) where
  cover : IsCovered q
  cover = find_pipeline-IsCovered q.kind q.serial p.pipelines q inv.covered found

  stage_at-IsSafe : (cost : Cost) → IsSafe (stage_at p q bank cost balance)
  unfolding stage_at put_banks sum_balances has_live
  stage_at-IsSafe cost = elim (Option-cases (subtract balance cost)) [
    | inl short ↦ rw (short, stage_at) tt
    | inr (rest, e) ↦
        let bs : List Bank =
          record { bank_id = q.next_bank; balance = cost; retired = false; parent = some bank }
          ∷ set_balance bank rest q.banks in
        rw (e, stage_at)
          (record {
            machine = inv.machine;
            bounded = inv.bounded;
            balanced = λ j. omega (
              arith,
              inv.balanced j,
              put_pipeline_sum q.kind q.serial q.total bs (suc q.next_bank) j p.pipelines q found,
            );
            counted =
                inv.counted
                ∙ sym (put_pipeline_count q.kind q.serial q.total bs (suc q.next_bank) p.pipelines);
            covered =
                put_pipeline-All q.kind q.serial q.total bs (suc q.next_bank) p.pipelines
                  inv.covered
                  (omega (
                    arith,
                    cover.covered,
                    subtract-Same balance cost rest e,
                    sum-set_balance bank balance rest q.banks live,
                  ))
                  refl;
          })
  ]

  -- The pipeline covers what its banks hold, so the assertion on its total cannot fail.
  retain_at-IsSafe : (bytes : ℕ) → IsSafe (retain_at p q bank bytes balance)
  unfolding retain_at retain_total put_banks lease_sum
  retain_at-IsSafe bytes = elim (Option-cases (subtract balance (bytes_cost bytes))) [
    | inl short ↦ rw (short, retain_at) tt
    | inr (rest, e) ↦
        let less = subtract-Same balance (bytes_cost bytes) rest e in
        let moved = sum-set_balance bank balance rest q.banks live in
        let (total, t, lower) =
          subtract_total q.total (bytes_cost bytes) (omega (arith, cover.covered, less, moved)) in
        let bs : List Bank = set_balance bank rest q.banks in
        rw (e, retain_at, t, retain_total)
          (record {
            machine = inv.machine;
            bounded = inv.bounded;
            balanced = λ j. ground (
              arith,
              inv.balanced j,
              put_pipeline_sum q.kind q.serial total bs q.next_bank j p.pipelines q,
            );
            counted =
                inv.counted
                ∙ sym (put_pipeline_count q.kind q.serial total bs q.next_bank p.pipelines);
            covered =
                put_pipeline-All q.kind q.serial total bs q.next_bank p.pipelines inv.covered
                  (omega (arith, cover.covered, less, moved, lower))
                  (has_live-set_balance bank rest q.banks ∙ cover.lives);
          })
  ]

  grow_total-IsSafe :
      (additional : Cost) → IsSafe (grow_total p q bank additional (cost_add q.total additional))
  unfolding grow_total grow_claimed grow_banks put_banks
  grow_total-IsSafe additional = elim (Option-cases (cost_add q.total additional)) [
    | inl over ↦ rw (over, grow_total) tt
    | inr (next, e) ↦
        rw (e, grow_total)
          (if-IsSafe
            (not (fits_kind q.kind next p.limits)
              || over_ceiling p.limits.hard_byte_ceiling next.bytes)
            (refused too_large)
            (grow_claimed p q bank additional next (claim p.limits p.usage additional q.kind false))
            tt (granted next e (claim p.limits p.usage additional q.kind false) refl))
  ]
    where
      grown :
          (next : Cost)
          → cost_add q.total additional ≡ some next
          → (u : Usage) → claim p.limits p.usage additional q.kind false ≡ ok u
          → IsSafe
              (grow_banks (record p { usage = u }) q next (refund (some bank) additional q.banks))
      grown next e u eq =
          let g = claim-Granted p.limits p.usage u additional q.kind false eq in
          let sum = cost_add-Same q.total additional next e in
          let w = cost_add-IsWord q.total additional next e in
          let (bs, r, arrived) =
            refund_total (some bank) additional q.banks (omega (arith, cover.covered, sum, w)) in
          rw (r, grow_banks)
            (record {
              machine = inv.machine;
              bounded = claim-IsBounded p.limits p.usage u additional q.kind false inv.bounded eq;
              balanced = λ j. ground (
                arith,
                inv.balanced j,
                Granted-use j q.kind g,
                put_pipeline_sum q.kind q.serial next bs q.next_bank j p.pipelines q,
              );
              counted = ground (
                arith,
                inv.counted,
                put_pipeline_count q.kind q.serial next bs q.next_bank p.pipelines,
              );
              covered =
                  put_pipeline-All q.kind q.serial next bs q.next_bank p.pipelines inv.covered
                    (omega (arith, cover.covered, sum, arrived))
                    (has_live-refund (some bank) additional q.banks bs r ∙ cover.lives);
            })

      granted :
          (next : Cost)
          → cost_add q.total additional ≡ some next
          → (r : Result ReservationError Usage) → claim p.limits p.usage additional q.kind false ≡ r
          → IsSafe (grow_claimed p q bank additional next r)
      granted next e (err r) eq = tt
      granted next e (ok u) eq = grown next e u eq

module _ (p : Pool) (inv : Inv p) (kind : Kind) (serial bank : ℕ) where
  pub stage-IsSafe : (cost : Cost) → IsSafe (stage p kind serial bank cost)
  unfolding stage
  stage-IsSafe cost =
      with_reservation-IsSafe p kind serial bank _
        (λ q balance found live. stage_at-IsSafe p inv q bank balance found live cost)

  pub retain_bytes-IsSafe : (bytes : ℕ) → IsSafe (retain_bytes p kind serial bank bytes)
  unfolding retain_bytes
  retain_bytes-IsSafe bytes =
      with_reservation-IsSafe p kind serial bank _
        (λ q balance found live. retain_at-IsSafe p inv q bank balance found live bytes)

  pub try_grow-IsSafe : (additional : Cost) → IsSafe (try_grow p kind serial bank additional)
  unfolding try_grow
  try_grow-IsSafe additional =
      with_reservation-IsSafe p kind serial bank _
        (λ q balance found live. grow_total-IsSafe p inv q bank balance found live additional)
