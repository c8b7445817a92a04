-- ===== src/Reservation/Pool/RoundTrip.antt =====
-- src/scheduler/reservation.rs: what is taken from a pool comes back when it is dropped.
use solworker.Prelude.{ℕ, suc, ◌≡◌, refl, Bool, true, some, arith, inl, inr, ==-refl}
use solworker.Prelude.Results.{ok, Result-cases}
use solworker.Reservation.Cost.{Cost, subtract-cost_add}
use solworker.Reservation.Ledger.{Kind, ordinary, required, Usage, claim, release}
use solworker.Reservation.Bounds.{claim-Granted}
use solworker.Reservation.Bank.{live_balance, retire, parent_of, refund, has_live}
use solworker.Reservation.State.{Pool, done, same_kind, find_pipeline, remove_pipeline}
use solworker.Reservation.Pool.{reserve, drop_reservation}

release-claim :
    (l : _) (u v : Usage) (cost : Cost) (kind : Kind) (new_pipeline : Bool)
    → claim l u cost kind new_pipeline ≡ ok v
    → release v cost kind new_pipeline ≡ some u
unfolding release
release-claim l u v cost ordinary np h =
    let g = claim-Granted l u v cost ordinary np h in
    let back = subtract-cost_add u.ordinary_use cost g.next g.sum in ground arith
release-claim l u v cost required np h =
    let g = claim-Granted l u v cost required np h in
    let back = subtract-cost_add u.required_use cost g.next g.sum in ground arith

same_kind_self : (kind : Kind) → same_kind kind kind ≡ true
same_kind_self ordinary = refl
same_kind_self required = refl

-- A reservation that is made and then dropped leaves the pool as it was, but for the serial number
-- that it used.
pub reserve-drop_reservation :
    (p q : Pool) (kind : Kind) (cost : Cost) (serial : ℕ)
    → reserve p kind cost ≡ done q serial
    → drop_reservation q kind serial 0 ≡ done (record p { next_serial = suc p.next_serial }) 0
unfolding reserve drop_reservation find_pipeline live_balance retire parent_of refund
    remove_pipeline has_live
reserve-drop_reservation p q kind cost serial h =
    elim (Result-cases (claim p.limits p.usage cost kind true)) [
      | inr (e, eq) ↦ absurd (ground arith)
      | inl (u, eq) ↦
          let self = same_kind_self kind in
          let n = ==-refl p.next_serial in
          let back = release-claim p.limits p.usage u cost kind true eq in ground arith
    ]
