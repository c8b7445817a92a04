-- ===== src/Reservation/Cost.antt =====
-- src/scheduler/reservation.rs, `SWCost`: four machine words, with checked arithmetic.
use solworker.Prelude.{
  ℕ, ◌+◌, ◌*◌, ◌-◌, ◌≤◌, ◌<◌, ◌≡◌, Bool, ◌&&◌, true, Option, none, some, arith, leb, if◌then◌else◌,
  ◌>>=◌, checked_add, checked_mul, word_mod,
}

pub record Cost : Type 0 where
  pub records : ℕ
  pub edges : ℕ
  pub deliveries : ℕ
  pub bytes : ℕ

abbrev pub zero_cost : Cost
zero_cost = record { records = 0; edges = 0; deliveries = 0; bytes = 0 }

abbrev pub bytes_cost : ℕ → Cost
bytes_cost n = record { records = 0; edges = 0; deliveries = 0; bytes = n }

-- Every component fits its machine word.
pub record IsWord (c : Cost) : Type 0 where
  pub records_word : c.records < word_mod
  pub edges_word : c.edges < word_mod
  pub deliveries_word : c.deliveries < word_mod
  pub bytes_word : c.bytes < word_mod

unfoldable pub cost_add : Cost → Cost → Option Cost
cost_add a b = do
  records ← checked_add a.records b.records
  edges ← checked_add a.edges b.edges
  deliveries ← checked_add a.deliveries b.deliveries
  bytes ← checked_add a.bytes b.bytes
  some (record { records = records; edges = edges; deliveries = deliveries; bytes = bytes })

unfoldable pub cost_mul : Cost → ℕ → Option Cost
cost_mul a n = do
  records ← checked_mul a.records n
  edges ← checked_mul a.edges n
  deliveries ← checked_mul a.deliveries n
  bytes ← checked_mul a.bytes n
  some (record { records = records; edges = edges; deliveries = deliveries; bytes = bytes })

unfoldable pub metadata_fits : Cost → Cost → Bool
metadata_fits a b =
    leb a.records b.records && (leb a.edges b.edges && leb a.deliveries b.deliveries)

unfoldable pub fits : Cost → Cost → Bool
fits a b =
    leb a.records b.records
    && (leb a.edges b.edges && (leb a.deliveries b.deliveries && leb a.bytes b.bytes))

-- `none` is the answer `false`, which leaves the minuend as it was.
unfoldable pub subtract : Cost → Cost → Option Cost
unfolding fits
subtract a b =
    if fits b a
    then some (record {
      records = a.records - b.records;
      edges = a.edges - b.edges;
      deliveries = a.deliveries - b.deliveries;
      bytes = a.bytes - b.bytes;
    })
    else none

-- The sum over the natural numbers, of which `cost_add` is the part that fits.
abbrev pub plus : Cost → Cost → Cost
plus a b = record {
  records = a.records + b.records;
  edges = a.edges + b.edges;
  deliveries = a.deliveries + b.deliveries;
  bytes = a.bytes + b.bytes;
}

pub record Within (a b : Cost) : Type 0 where
  pub records_le : a.records ≤ b.records
  pub edges_le : a.edges ≤ b.edges
  pub deliveries_le : a.deliveries ≤ b.deliveries
  pub bytes_le : a.bytes ≤ b.bytes

pub record MetadataWithin (a b : Cost) : Type 0 where
  pub records_le : a.records ≤ b.records
  pub edges_le : a.edges ≤ b.edges
  pub deliveries_le : a.deliveries ≤ b.deliveries

-- The two costs agree in every component.
pub record Same (a b : Cost) : Type 0 where
  pub records_eq : a.records ≡ b.records
  pub edges_eq : a.edges ≡ b.edges
  pub deliveries_eq : a.deliveries ≡ b.deliveries
  pub bytes_eq : a.bytes ≡ b.bytes

pub fits-Within : (a b : Cost) → fits a b ≡ true → Within a b
unfolding fits
fits-Within a b h = ground arith

pub Within-fits : (a b : Cost) → Within a b → fits a b ≡ true
unfolding fits
Within-fits a b h = ground arith

pub metadata_fits-MetadataWithin : (a b : Cost) → metadata_fits a b ≡ true → MetadataWithin a b
unfolding metadata_fits
metadata_fits-MetadataWithin a b h = ground arith

pub cost_add-Same : (a b c : Cost) → cost_add a b ≡ some c → Same c (plus a b)
unfolding cost_add
cost_add-Same a b c h = ground arith

pub cost_add-IsWord : (a b c : Cost) → cost_add a b ≡ some c → IsWord c
unfolding cost_add
cost_add-IsWord a b c h = ground arith

pub cost_add-eq : (a b : Cost) → IsWord (plus a b) → cost_add a b ≡ some (plus a b)
unfolding cost_add
cost_add-eq a b w = ground arith

-- The product over the natural numbers.
abbrev pub times : ℕ → Cost → Cost
times n a = record {
  records = a.records * n;
  edges = a.edges * n;
  deliveries = a.deliveries * n;
  bytes = a.bytes * n;
}

pub cost_mul-eq : (a : Cost) (n : ℕ) → IsWord (times n a) → cost_mul a n ≡ some (times n a)
unfolding cost_mul
cost_mul-eq a n w = ground arith

-- A sum whose components fit is computed.
pub cost_add_total :
    (a b : Cost) → IsWord (plus a b) → (c : Cost) × (cost_add a b ≡ some c) × Same c (plus a b)
unfolding cost_add
cost_add_total a b w = (plus a b, ground arith, ground arith)

pub subtract-Same : (a b c : Cost) → subtract a b ≡ some c → Same a (plus c b)
unfolding subtract
subtract-Same a b c h = ground arith

pub subtract_total :
    (a b : Cost) → Within b a → (c : Cost) × (subtract a b ≡ some c) × Same a (plus c b)
unfolding subtract fits
subtract_total a b w = (
  record {
    records = a.records - b.records;
    edges = a.edges - b.edges;
    deliveries = a.deliveries - b.deliveries;
    bytes = a.bytes - b.bytes;
  },
  ground arith,
  ground arith,
)

-- Subtracting what a checked sum has added succeeds, and gives the first summand.
pub subtract-cost_add : (a b c : Cost) → cost_add a b ≡ some c → subtract c b ≡ some a
unfolding subtract fits cost_add
subtract-cost_add a b c h = ground arith
