-- ===== src/Reservation/Sums.antt =====
-- What the listed pipelines, leases and charges owe to the ledger, by kind, and how the list
-- operations change it.
use solworker.Prelude.{
  ℕ, ◌+◌, ◌≡◌, refl, Bool, true, some, List, [], ◌∷◌, arith, if◌then◌else◌, All,
}
use solworker.Reservation.Cost.{Cost, zero_cost, bytes_cost, plus, Same, Within}
use solworker.Reservation.Ledger.{Kind, ordinary, required, is_required}
use solworker.Reservation.Bank.{Bank, sum_balances, has_live}
use solworker.Reservation.State.{
  Pipeline, ByteLease, OwnedCharge, same_kind, find_pipeline, put_pipeline, remove_pipeline,
  find_lease, remove_lease, find_charge, remove_charge, owned_cost,
}

abbrev pub part : Kind → Kind → Cost → Cost
part j kind c = if same_kind kind j then c else zero_cost

pub part_self : (kind : Kind) (c : Cost) → Same (part kind kind c) c
part_self ordinary c = omega arith
part_self required c = omega arith

pub part_plus :
    (j : Kind) {k k' : Kind} (a b c : Cost)
    → k ≡ k'
    → Same a (plus b c)
    → Same (part j k a) (plus (part j k b) (part j k' c))
part_plus j {k = k} a b c e h = ground arith

unfoldable pub pipeline_sum : Kind → List Pipeline → Cost
pipeline_sum j [] = zero_cost
pipeline_sum j (q ∷ qs) = plus (part j q.kind q.total) (pipeline_sum j qs)

unfoldable pub lease_sum : Kind → List ByteLease → Cost
lease_sum j [] = zero_cost
lease_sum j (l ∷ ls) = plus (part j l.lease_kind (bytes_cost l.lease_bytes)) (lease_sum j ls)

unfoldable pub charge_sum : List OwnedCharge → Cost
charge_sum [] = zero_cost
charge_sum (c ∷ cs) = plus (owned_cost c.charge_edges) (charge_sum cs)

abbrev pub one_if : Bool → ℕ
one_if b = if b then 1 else 0

unfoldable pub required_count : List Pipeline → ℕ
required_count [] = 0
required_count (q ∷ qs) = one_if (is_required q.kind) + required_count qs

-- The credits of a pipeline's banks never exceed its total, and one of its reservations lives.
pub record IsCovered (q : Pipeline) : Type 0 where
  pub covered : Within (sum_balances q.banks) q.total
  pub lives : has_live q.banks ≡ true

module _ (kind : Kind) (serial : ℕ) where
  pub find_pipeline_key :
      (qs : List Pipeline) (q : Pipeline)
      → find_pipeline kind serial qs ≡ some q
      → (q.kind ≡ kind) × (q.serial ≡ serial)
  unfolding find_pipeline
  find_pipeline_key [] q h = absurd (ground arith)
  find_pipeline_key (r ∷ qs) q h = ground (arith, find_pipeline_key qs q)

  pub find_pipeline-IsCovered :
      (qs : List Pipeline) (q : Pipeline)
      → All IsCovered qs
      → find_pipeline kind serial qs ≡ some q
      → IsCovered q
  unfolding find_pipeline
  find_pipeline-IsCovered [] q a h = absurd (ground arith)
  find_pipeline-IsCovered (r ∷ qs) q a h = ground (arith, find_pipeline-IsCovered qs q a.1)

  pub remove_pipeline-All :
      (qs : List Pipeline) → All IsCovered qs → All IsCovered (remove_pipeline kind serial qs)
  unfolding remove_pipeline
  remove_pipeline-All [] a = tt
  remove_pipeline-All (r ∷ qs) a = ground (arith, remove_pipeline-All qs a.1)

  pub remove_pipeline_sum :
      (j : Kind) (qs : List Pipeline) (q : Pipeline)
      → find_pipeline kind serial qs ≡ some q
      → Same
          (plus (pipeline_sum j (remove_pipeline kind serial qs)) (part j kind q.total))
          (pipeline_sum j qs)
  unfolding find_pipeline remove_pipeline pipeline_sum
  remove_pipeline_sum j [] q h = absurd (ground arith)
  remove_pipeline_sum j (r ∷ qs) q h = ground (arith, remove_pipeline_sum j qs q)

  pub remove_pipeline_count :
      (qs : List Pipeline) (q : Pipeline)
      → find_pipeline kind serial qs ≡ some q
      → required_count (remove_pipeline kind serial qs) + one_if (is_required kind)
        ≡ required_count qs
  unfolding find_pipeline remove_pipeline required_count
  remove_pipeline_count [] q h = absurd (ground arith)
  remove_pipeline_count (r ∷ qs) q h = ground (arith, remove_pipeline_count qs q)

  module _ (total : Cost) (banks : List Bank) (next_bank : ℕ) where
    pub put_pipeline-All :
        (qs : List Pipeline)
        → All IsCovered qs
        → Within (sum_balances banks) total
        → has_live banks ≡ true
        → All IsCovered (put_pipeline kind serial total banks next_bank qs)
    unfolding put_pipeline
    put_pipeline-All [] a w l = tt
    put_pipeline-All (r ∷ qs) a w l = ground (arith, put_pipeline-All qs a.1 w l)

    pub put_pipeline_sum :
        (j : Kind) (qs : List Pipeline) (q : Pipeline)
        → find_pipeline kind serial qs ≡ some q
        → Same
            (plus
              (pipeline_sum j (put_pipeline kind serial total banks next_bank qs))
              (part j kind q.total))
            (plus (pipeline_sum j qs) (part j kind total))
    unfolding find_pipeline put_pipeline pipeline_sum
    put_pipeline_sum j [] q h = absurd (ground arith)
    put_pipeline_sum j (r ∷ qs) q h = ground (arith, put_pipeline_sum j qs q)

    pub put_pipeline_count :
        (qs : List Pipeline)
        → required_count (put_pipeline kind serial total banks next_bank qs) ≡ required_count qs
    unfolding put_pipeline required_count
    put_pipeline_count [] = refl
    put_pipeline_count (r ∷ qs) = ground (arith, put_pipeline_count qs)

pub find_pipeline_self :
    (kind : Kind) (serial : ℕ) (qs : List Pipeline) (q : Pipeline)
    → find_pipeline kind serial qs ≡ some q
    → find_pipeline q.kind q.serial qs ≡ some q
find_pipeline_self kind serial qs q h =
    let (k, s) = find_pipeline_key kind serial qs q h in simp (k, s) h

pub remove_lease_sum :
    (k : ℕ) (j : Kind) (ls : List ByteLease) (l : ByteLease)
    → find_lease k ls ≡ some l
    → Same
        (plus (lease_sum j (remove_lease k ls)) (part j l.lease_kind (bytes_cost l.lease_bytes)))
        (lease_sum j ls)
unfolding find_lease remove_lease lease_sum
remove_lease_sum k j [] l h = absurd (ground arith)
remove_lease_sum k j (m ∷ ls) l h = ground (arith, remove_lease_sum k j ls l)

pub remove_charge_sum :
    (k : ℕ) (cs : List OwnedCharge) (edges : ℕ)
    → find_charge k cs ≡ some edges
    → Same (plus (charge_sum (remove_charge k cs)) (owned_cost edges)) (charge_sum cs)
unfolding find_charge remove_charge charge_sum
remove_charge_sum k [] edges h = absurd (ground arith)
remove_charge_sum k (c ∷ cs) edges h = ground (arith, remove_charge_sum k cs edges)
