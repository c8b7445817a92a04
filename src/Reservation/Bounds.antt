-- ===== src/Reservation/Bounds.antt =====
-- src/scheduler/reservation.rs, `Ledger`: what a claim and a release do to the usage, and the
-- bounds of the policy, which every claim keeps.
use solworker.Prelude.{
  ℕ, ◌+◌, ◌-◌, ◌≤◌, ◌<◌, ◌≡◌, Bool, true, false, Option, none, some, ◌&&◌, inl, inr, Option-cases,
  arith, if◌then◌else◌, word_mod,
}
use solworker.Prelude.Results.{ok}
use solworker.Reservation.Cost.{
  Cost, plus, cost_add, Within, MetadataWithin, Same, IsWord, cost_add-Same, cost_add-IsWord,
  fits-Within, subtract_total, metadata_fits-MetadataWithin,
}
use solworker.Reservation.Limits.{Limits, over_ceiling, UnderCeiling}
use solworker.Reservation.Ledger.{
  Kind, ordinary, required, Usage, ceiling_or_max, new_usage, claim, release, use_of, fits_kind,
  bytes_refused, total_bytes, is_required, set_use,
}

-- The limits are machine words.
pub record IsMachine (l : Limits) : Type 0 where
  pub target_word : IsWord l.ordinary_target
  pub ceiling_word : ceiling_or_max l.hard_byte_ceiling < word_mod

-- The usage stays within the policy, in every dimension that the policy bounds.
pub record IsBounded (l : Limits) (u : Usage) : Type 0 where
  pub ordinary_within : Within u.ordinary_use l.ordinary_target
  pub required_within : MetadataWithin u.required_use l.required_allowance
  pub ordinary_word : IsWord u.ordinary_use
  pub required_word : IsWord u.required_use
  pub total_word : u.ordinary_use.bytes + u.required_use.bytes < word_mod
  pub total_under : UnderCeiling l.hard_byte_ceiling (u.ordinary_use.bytes + u.required_use.bytes)
  pub pipelines_within : u.pipelines ≤ l.required_pipelines

pub use-IsWord : (l : Limits) (u : Usage) (kind : Kind) → IsBounded l u → IsWord (use_of kind u)
use-IsWord l u ordinary b = b.ordinary_word
use-IsWord l u required b = b.required_word

UnderCeiling-mono :
    (ceiling : Option ℕ) (a b : ℕ) → a ≤ b → UnderCeiling ceiling b → UnderCeiling ceiling a
UnderCeiling-mono none a b h k = tt
UnderCeiling-mono (some ceiling) a b h k = omega arith

under_of_not_over :
    (ceiling : Option ℕ) (bytes : ℕ)
    → over_ceiling ceiling bytes ≡ false
    → UnderCeiling ceiling bytes
under_of_not_over none bytes h = tt
under_of_not_over (some ceiling) bytes h = ground arith

pub new_usage-IsBounded : (l : Limits) → IsBounded l new_usage
new_usage-IsBounded l = record {
  ordinary_within = omega arith;
  required_within = omega arith;
  ordinary_word = omega arith;
  required_word = omega arith;
  total_word = omega arith;
  total_under = zero_under l.hard_byte_ceiling;
  pipelines_within = omega arith;
}
  where
    zero_under : (ceiling : Option ℕ) → UnderCeiling ceiling (0 + 0)
    zero_under none = tt
    zero_under (some ceiling) = omega arith

abbrev pub other_kind : Kind → Kind
other_kind ordinary = required
other_kind required = ordinary

abbrev pub pipeline_count : Kind → Bool → ℕ
pipeline_count kind new_pipeline = if new_pipeline && is_required kind then 1 else 0

-- What a granted claim has checked, and the usage that it leaves.
pub record Granted (l : Limits) (u v : Usage) (cost : Cost) (kind : Kind) (new_pipeline : Bool)
    : Type 0 where
  pub next : Cost
  pub is_open : u.is_closed ≡ false
  pub sum : cost_add (use_of kind u) cost ≡ some next
  pub fitting : fits_kind kind next l ≡ true
  pub in_total : bytes_refused l (total_bytes u cost) ≡ false
  pub slot : new_pipeline && is_required kind ≡ true → u.pipelines < l.required_pipelines
  pub charged : use_of kind v ≡ next
  pub spared : use_of (other_kind kind) v ≡ use_of (other_kind kind) u
  pub counted : v.pipelines ≡ u.pipelines + pipeline_count kind new_pipeline
  pub still_open : v.is_closed ≡ false

pub claim-Granted :
    (l : Limits) (u v : Usage) (cost : Cost) (kind : Kind) (new_pipeline : Bool)
    → claim l u cost kind new_pipeline ≡ ok v
    → Granted l u v cost kind new_pipeline
unfolding claim
claim-Granted l u v cost kind new_pipeline h = elim (Option-cases (cost_add (use_of kind u) cost)) [
  | inl e ↦ absurd (ground arith)
  | inr (next, e) ↦ record {
    next = next;
    is_open = ground arith;
    sum = e;
    fitting = ground arith;
    in_total = ground arith;
    slot = ground arith;
    charged = ground arith;
    spared = ground arith;
    counted = ground arith;
    still_open = ground arith;
  }
]

-- The bytes that a granted claim adds, within a word and under the ceiling.
pub in_total_bounds :
    (l : Limits) (u : Usage) (cost : Cost)
    → bytes_refused l (total_bytes u cost) ≡ false
    → (u.ordinary_use.bytes + u.required_use.bytes + cost.bytes < word_mod)
      × UnderCeiling l.hard_byte_ceiling (u.ordinary_use.bytes + u.required_use.bytes + cost.bytes)
in_total_bounds l u cost h = (ground arith, under_of_not_over _ _ (ground arith))

-- From a usage within the policy, a granted claim of either kind leaves a usage within the policy:
-- every target, the allowance, the byte ceiling, the word size and the number of pipelines.
pub claim-IsBounded :
    (l : Limits) (u v : Usage) (cost : Cost) (kind : Kind) (new_pipeline : Bool)
    → IsBounded l u
    → claim l u cost kind new_pipeline ≡ ok v
    → IsBounded l v
claim-IsBounded l u v cost kind new_pipeline b h =
    go kind (claim-Granted l u v cost kind new_pipeline h)
  where
    go : (k : Kind) → Granted l u v cost k new_pipeline → IsBounded l v
    go ordinary g = record {
      ordinary_within = ground (arith, fits-Within g.next l.ordinary_target);
      required_within = ground arith;
      ordinary_word = ground (arith, cost_add-IsWord u.ordinary_use cost g.next);
      required_word = ground arith;
      total_word =
          ground
            (arith, cost_add-Same u.ordinary_use cost g.next, in_total_bounds l u cost g.in_total);
      total_under =
          UnderCeiling-mono _ _ _ (ground (arith, cost_add-Same u.ordinary_use cost g.next))
            (in_total_bounds l u cost g.in_total).1;
      pipelines_within = ground arith;
    }
    go required g = record {
      ordinary_within = ground arith;
      required_within = ground (arith, metadata_fits-MetadataWithin g.next l.required_allowance);
      ordinary_word = ground arith;
      required_word = ground (arith, cost_add-IsWord u.required_use cost g.next);
      total_word =
          ground
            (arith, cost_add-Same u.required_use cost g.next, in_total_bounds l u cost g.in_total);
      total_under =
          UnderCeiling-mono _ _ _ (ground (arith, cost_add-Same u.required_use cost g.next))
            (in_total_bounds l u cost g.in_total).1;
      pipelines_within = ground arith;
    }

-- A release that the charge covers succeeds, and gives back exactly what it names.
pub record Released (u v : Usage) (cost : Cost) (kind : Kind) (pipeline : Bool) : Type 0 where
  pub charged : Same (use_of kind u) (plus (use_of kind v) cost)
  pub spared : use_of (other_kind kind) v ≡ use_of (other_kind kind) u
  pub counted : u.pipelines ≡ v.pipelines + pipeline_count kind pipeline
  pub closed_same : v.is_closed ≡ u.is_closed

abbrev after_release : Usage → Kind → Bool → Cost → Usage
after_release u kind pipeline rest =
    if pipeline && is_required kind
    then record (set_use kind u rest) { pipelines = u.pipelines - 1 }
    else set_use kind u rest

pub release-Released :
    (u : Usage) (cost : Cost) (kind : Kind) (pipeline : Bool)
    → Within cost (use_of kind u)
    → pipeline_count kind pipeline ≤ u.pipelines
    → (v : Usage) × (release u cost kind pipeline ≡ some v) × Released u v cost kind pipeline
unfolding release
release-Released u cost kind pipeline w p =
    let (rest, e, same) = subtract_total (use_of kind u) cost w in
    (after_release u kind pipeline rest, ground arith, ground arith)

pub Released-IsBounded :
    (l : Limits) (u v : Usage) (cost : Cost) (kind : Kind) (pipeline : Bool)
    → IsBounded l u
    → Released u v cost kind pipeline
    → IsBounded l v
Released-IsBounded l u v cost kind pipeline b r = record {
  ordinary_within = ground arith;
  required_within = ground arith;
  ordinary_word = ground arith;
  required_word = ground arith;
  total_word = ground arith;
  total_under = UnderCeiling-mono _ _ _ (ground arith) b.total_under;
  pipelines_within = ground arith;
}
