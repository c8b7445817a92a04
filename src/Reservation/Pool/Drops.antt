-- ===== src/Reservation/Pool/Drops.antt =====
-- src/scheduler/reservation.rs: the drops of `SWByteLease` and `SWReservation`, the latter with
-- the drop of `Pipeline`, keep the accounts.
use solworker.Prelude.{
  ℕ, ◌≡◌, refl, ◌∙◌, true, false, Option, none, some, arith, inl, inr, Option-cases, Bool-cases,
}
use solworker.Reservation.Cost.{Cost, bytes_cost, Within, cost_add, cost_add_total, cost_add-IsWord}
use solworker.Reservation.Ledger.{Kind, use_of, release}
use solworker.Reservation.Bounds.{release-Released, Released-IsBounded, use-IsWord}
use solworker.Reservation.Bank.{
  live_balance, retire, parent_of, refund, refund_total, sum-retire, has_live, has_live-refund,
}
use solworker.Reservation.State.{
  Pool, Pipeline, ByteLease, find_pipeline, find_lease, remove_lease, remove_pipeline,
}
use solworker.Reservation.Sums.{
  part_plus, part_self, IsCovered, put_pipeline_sum, put_pipeline_count, put_pipeline-All,
  find_pipeline_self, find_pipeline_key, find_pipeline-IsCovered, remove_pipeline_sum,
  remove_pipeline_count, remove_pipeline-All, remove_lease_sum,
}
use solworker.Reservation.Pool.{
  drop_lease, settle_lease, lease_total, drop_reservation, drop_banks, grow_banks, put_banks,
  after_release,
}
use solworker.Reservation.Pool.Inv.{Inv, IsSafe, Released-use}
use solworker.Reservation.Pool.Stages.{with_reservation-IsSafe}

module _ (p : Pool) (inv : Inv p) (k : ℕ) (l : ByteLease)
    (found : find_lease k p.leases ≡ some l) where
  abbrev freed : Cost
  freed = bytes_cost l.lease_bytes

  without_lease : Pool
  without_lease = record p { leases = remove_lease k p.leases }

  -- The pipeline is gone: the ledger takes the bytes back.
  to_ledger : IsSafe (after_release without_lease (release p.usage freed l.lease_kind false))
  unfolding without_lease after_release
  to_ledger =
      let own = remove_lease_sum k l.lease_kind p.leases l found in
      let (u, eq, r) =
        release-Released p.usage freed l.lease_kind false
          (omega (arith, inv.balanced l.lease_kind, own, part_self l.lease_kind freed))
          (omega arith) in
      rw (eq, after_release)
        (record {
          machine = inv.machine;
          bounded = Released-IsBounded p.limits p.usage u freed l.lease_kind false inv.bounded r;
          balanced = λ j. omega (
            arith,
            inv.balanced j,
            Released-use j l.lease_kind r,
            remove_lease_sum k j p.leases l found,
          );
          counted = ground (arith, inv.counted);
          covered = inv.covered;
        })

  -- The pipeline lives: its total and a bank of it take the bytes back.
  to_pipeline :
      (q : Pipeline)
      → find_pipeline l.lease_kind l.lease_pipeline p.pipelines ≡ some q
      → IsSafe (lease_total without_lease q l (cost_add q.total freed))
  unfolding without_lease lease_total grow_banks put_banks
  to_pipeline q there =
      let cover =
        find_pipeline-IsCovered l.lease_kind l.lease_pipeline p.pipelines q inv.covered there in
      let (same_kind, _) = find_pipeline_key l.lease_kind l.lease_pipeline p.pipelines q there in
      let self = find_pipeline_self l.lease_kind l.lease_pipeline p.pipelines q there in
      let (total, t, sum) = cost_add_total q.total freed (
        omega (
          arith,
          use-IsWord p.limits p.usage l.lease_kind inv.bounded,
          inv.balanced l.lease_kind,
          remove_lease_sum k l.lease_kind p.leases l found,
          part_self l.lease_kind freed,
          remove_pipeline_sum l.lease_kind l.lease_pipeline l.lease_kind p.pipelines q there,
          part_self l.lease_kind q.total,
        )) in
      let (bs, back, arrived) =
        refund_total (some l.lease_bank) freed q.banks
          (omega (arith, cover.covered, sum, cost_add-IsWord q.total freed total t)) in
      rw (t, lease_total, back, grow_banks)
        (record {
          machine = inv.machine;
          bounded = inv.bounded;
          balanced = λ j. omega (
            arith,
            inv.balanced j,
            part_plus j total q.total freed same_kind sum,
            remove_lease_sum k j p.leases l found,
            put_pipeline_sum q.kind q.serial total bs q.next_bank j p.pipelines q self,
          );
          counted = ground (
            arith,
            inv.counted,
            put_pipeline_count q.kind q.serial total bs q.next_bank p.pipelines,
          );
          covered =
              put_pipeline-All q.kind q.serial total bs q.next_bank p.pipelines inv.covered
                (omega (arith, cover.covered, sum, arrived))
                (has_live-refund (some l.lease_bank) freed q.banks bs back ∙ cover.lives);
        })

  settle_lease-IsSafe :
      (r : Option Pipeline)
      → find_pipeline l.lease_kind l.lease_pipeline p.pipelines ≡ r
      → IsSafe (settle_lease (record p { leases = remove_lease k p.leases }) l r)
  unfolding settle_lease without_lease
  settle_lease-IsSafe none missing = to_ledger
  settle_lease-IsSafe (some q) there = to_pipeline q there

pub drop_lease-IsSafe : (p : Pool) (k : ℕ) → Inv p → IsSafe (drop_lease p k)
unfolding drop_lease
drop_lease-IsSafe p k inv = elim (Option-cases (find_lease k p.leases)) [
  | inl missing ↦ rw (missing, drop_lease) tt
  | inr (l, found) ↦
      rw (found, drop_lease)
        (settle_lease-IsSafe p inv k l found
          (find_pipeline l.lease_kind l.lease_pipeline p.pipelines) refl)
]

module _ (p : Pool) (inv : Inv p) (q : Pipeline) (bank : ℕ) (balance : Cost)
    (found : find_pipeline q.kind q.serial p.pipelines ≡ some q)
    (live : live_balance bank q.banks ≡ some balance) where
  own : IsCovered q
  own = find_pipeline-IsCovered q.kind q.serial p.pipelines q inv.covered found

  -- The charge of a pipeline, which the ledger can release.
  owned : Within q.total (use_of q.kind p.usage)
  owned = omega (
    arith,
    inv.balanced q.kind,
    part_self q.kind q.total,
    remove_pipeline_sum q.kind q.serial q.kind p.pipelines q found,
  )

  last_dropped : IsSafe (
      after_release
        (record p { pipelines = remove_pipeline q.kind q.serial p.pipelines })
        (release p.usage q.total q.kind true))
  unfolding after_release
  last_dropped =
      let fewer = remove_pipeline_count q.kind q.serial p.pipelines q found in
      let (u, eq, r) =
        release-Released p.usage q.total q.kind true owned (ground (arith, inv.counted, fewer)) in
      rw (eq, after_release)
        (record {
          machine = inv.machine;
          bounded = Released-IsBounded p.limits p.usage u q.total q.kind true inv.bounded r;
          balanced = λ j. omega (
            arith,
            inv.balanced j,
            Released-use j q.kind r,
            remove_pipeline_sum q.kind q.serial j p.pipelines q found,
          );
          counted = ground (arith, inv.counted, fewer);
          covered = remove_pipeline-All q.kind q.serial p.pipelines inv.covered;
        })

  drop_banks-IsSafe :
      IsSafe (drop_banks p q (refund (parent_of bank q.banks) balance (retire bank q.banks)))
  unfolding drop_banks put_banks
  drop_banks-IsSafe =
      let less = sum-retire bank balance q.banks live in
      let w = use-IsWord p.limits p.usage q.kind inv.bounded in
      let (bs, back, arrived) =
        refund_total (parent_of bank q.banks) balance (retire bank q.banks)
          (omega (arith, less, own.covered, w, owned)) in
      rw (back, drop_banks)
        (elim (Bool-cases (has_live bs)) [
          | inr last ↦ rw (last, IsSafe) last_dropped
          | inl more ↦
              rw (more, IsSafe)
                (record {
                  machine = inv.machine;
                  bounded = inv.bounded;
                  balanced = λ j. omega (
                    arith,
                    inv.balanced j,
                    put_pipeline_sum q.kind q.serial q.total bs q.next_bank j p.pipelines q found,
                  );
                  counted = ground (
                    arith,
                    inv.counted,
                    put_pipeline_count q.kind q.serial q.total bs q.next_bank p.pipelines,
                  );
                  covered =
                      put_pipeline-All q.kind q.serial q.total bs q.next_bank p.pipelines
                        inv.covered (omega (arith, less, own.covered, arrived)) more;
                })
        ])

pub drop_reservation-IsSafe :
    (p : Pool) (kind : Kind) (serial bank : ℕ)
    → Inv p
    → IsSafe (drop_reservation p kind serial bank)
unfolding drop_reservation
drop_reservation-IsSafe p kind serial bank inv =
    with_reservation-IsSafe p kind serial bank
      (λ q balance. drop_banks p q (refund (parent_of bank q.banks) balance (retire bank q.banks)))
      (λ q balance found live. drop_banks-IsSafe p inv q bank balance found live)
