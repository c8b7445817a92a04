-- ===== src/Ready/Queue/Routes.antt =====
-- src/scheduler/ready.rs, `PendingQueue`: the order of the two routes, and lookups in them.
use solworker.Prelude.{
  ℕ, ◌≡◌, refl, Bool, true, false, Option, none, some, List, [], ◌∷◌, ◌++◌, arith, if◌then◌else◌,
}
use solworker.Prelude.Int.{ℤ, ltb_ℤ, eq_ℤ, ◌<ℤ◌, next, next_parts}
use solworker.Ready.Maps.{
  ResourceKey, key_lt, key_lt_trans, key_lt_irrefl, key_lt_total, key_eq, key_eq_iff, map_insert,
  map_remove, set_insert, set_remove,
}

-- The sequence numbers ascend strictly between two bounds.
abbrev pub Ascends : ℤ → ℤ → List (ℤ × ℕ) → Type 0
Ascends lo hi [] = lo <ℤ hi
Ascends lo hi ((s, id) ∷ m) = (lo <ℤ s) × (s <ℤ hi) × Ascends s hi m

-- The keys ascend strictly.
abbrev pub KeysAbove : ResourceKey → List ResourceKey → Type 0
KeysAbove k [] = Unit
KeysAbove k (j ∷ s) = (key_lt k j ≡ true) × KeysAbove j s

abbrev pub KeysAscend : List ResourceKey → Type 0
KeysAscend [] = Unit
KeysAscend (k ∷ s) = KeysAbove k s

unfoldable pub at_sequence : ℤ → List (ℤ × ℕ) → Option ℕ
at_sequence k [] = none
at_sequence k ((s, id) ∷ m) = if eq_ℤ k s then some id else at_sequence k m

unfoldable pub has_key : ResourceKey → List ResourceKey → Bool
has_key k [] = false
has_key k (j ∷ s) = if key_eq k j then true else has_key k s

pub at_sequence-map_insert :
    (k j : ℤ) (v : ℕ) (m : List (ℤ × ℕ))
    → at_sequence j (map_insert k v m) ≡ (if eq_ℤ j k then some v else at_sequence j m)
unfolding at_sequence map_insert
at_sequence-map_insert k j v [] = refl
at_sequence-map_insert k j v ((s, id) ∷ m) = ground (arith, at_sequence-map_insert k j v m)

at_sequence-below :
    (k lo hi : ℤ) (m : List (ℤ × ℕ)) → Ascends lo hi m → ltb_ℤ lo k ≡ false → at_sequence k m ≡ none
unfolding at_sequence
at_sequence-below k lo hi [] a h = refl
at_sequence-below k lo hi ((s, id) ∷ m) a h = ground (arith, at_sequence-below k s hi m a.2)

pub at_sequence-map_remove :
    (k j lo hi : ℤ) (m : List (ℤ × ℕ))
    → Ascends lo hi m
    → at_sequence j (map_remove k m) ≡ (if eq_ℤ j k then none else at_sequence j m)
unfolding at_sequence map_remove
at_sequence-map_remove k j lo hi [] a = ground arith
at_sequence-map_remove k j lo hi ((s, id) ∷ m) a =
    ground (arith, at_sequence-map_remove k j s hi m a.2, at_sequence-below j s hi m a.2)

pub has_key-set_insert :
    (k j : ResourceKey) (s : List ResourceKey)
    → has_key j (set_insert k s) ≡ (if key_eq j k then true else has_key j s)
unfolding has_key set_insert
has_key-set_insert k j [] = refl
has_key-set_insert k j (i ∷ s) =
    ground (arith, has_key-set_insert k j s, key_eq_iff k i, key_eq_iff j k, key_eq_iff j i)

has_key-below :
    (k lo : ResourceKey) (s : List ResourceKey)
    → KeysAbove lo s
    → key_lt lo k ≡ false
    → has_key k s ≡ false
unfolding has_key
has_key-below k lo [] a h = refl
has_key-below k lo (i ∷ s) a h =
    ground (arith, has_key-below k i s a.1, key_lt_trans lo i k, key_eq_iff k i)

KeysAscend-tail : (k : ResourceKey) (s : List ResourceKey) → KeysAbove k s → KeysAscend s
KeysAscend-tail k [] a = tt
KeysAscend-tail k (j ∷ s) a = a.1

pub has_key-set_remove :
    (k j : ResourceKey) (s : List ResourceKey)
    → KeysAscend s
    → has_key j (set_remove k s) ≡ (if key_eq j k then false else has_key j s)
unfolding has_key set_remove
has_key-set_remove k j [] a = ground arith
has_key-set_remove k j (i ∷ s) a = ground (
  arith,
  has_key-set_remove k j s (KeysAscend-tail i s a),
  has_key-below j i s a,
  key_lt_irrefl i,
  key_eq_iff k i,
  key_eq_iff j k,
  key_eq_iff j i,
)

KeysAbove-set_insert :
    (lo k : ResourceKey) (s : List ResourceKey)
    → KeysAbove lo s
    → key_lt lo k ≡ true
    → KeysAbove lo (set_insert k s)
unfolding set_insert
KeysAbove-set_insert lo k [] a h = (h, tt)
KeysAbove-set_insert lo k (i ∷ s) a h =
    ground (arith, KeysAbove-set_insert i k s a.1, key_lt_total k i, a.0)

pub KeysAscend-set_insert :
    (k : ResourceKey) (s : List ResourceKey) → KeysAscend s → KeysAscend (set_insert k s)
unfolding set_insert
KeysAscend-set_insert k [] a = tt
KeysAscend-set_insert k (i ∷ s) a = ground (arith, KeysAbove-set_insert i k s a, key_lt_total k i)

KeysAbove-weaken :
    (lo k : ResourceKey) (s : List ResourceKey)
    → key_lt lo k ≡ true
    → KeysAbove k s
    → KeysAbove lo s
KeysAbove-weaken lo k [] h a = tt
KeysAbove-weaken lo k (i ∷ s) h a = (key_lt_trans lo k i h a.0, a.1)

KeysAbove-set_remove :
    (lo k : ResourceKey) (s : List ResourceKey) → KeysAbove lo s → KeysAbove lo (set_remove k s)
unfolding set_remove
KeysAbove-set_remove lo k [] a = tt
KeysAbove-set_remove lo k (i ∷ s) a =
    ground (arith, KeysAbove-weaken lo i s a.0 a.1, KeysAbove-set_remove i k s a.1, a.0)

pub KeysAscend-set_remove :
    (k : ResourceKey) (s : List ResourceKey) → KeysAscend s → KeysAscend (set_remove k s)
unfolding set_remove
KeysAscend-set_remove k [] a = tt
KeysAscend-set_remove k (i ∷ s) a =
    ground (arith, KeysAscend-tail i s a, KeysAbove-set_remove i k s a)

pub Ascends-lower : (lo s hi : ℤ) (m : List (ℤ × ℕ)) → lo <ℤ s → Ascends s hi m → Ascends lo hi m
Ascends-lower lo s hi [] h a = omega arith
Ascends-lower lo s hi ((t, id) ∷ m) h a = (omega (arith, a.0), a.1, a.2)

-- A larger upper bound admits one more entry at the end.
pub Ascends-push :
    (lo hi : ℤ) (id : ℕ) (m : List (ℤ × ℕ))
    → Ascends lo hi m
    → map_insert hi id m ≡ m ++ (hi, id) ∷ []
unfolding map_insert
Ascends-push lo hi id [] a = refl
Ascends-push lo hi id ((s, i) ∷ m) a = ground (arith, Ascends-push s hi id m a.2, a.1)

pub Ascends-append :
    (lo hi : ℤ) (id : ℕ) (m : List (ℤ × ℕ))
    → Ascends lo hi m
    → Ascends lo (next hi) (m ++ (hi, id) ∷ [])
Ascends-append lo hi id [] a = (a, omega (arith, next_parts hi), omega (arith, next_parts hi))
Ascends-append lo hi id ((s, i) ∷ m) a =
    (a.0, omega (arith, next_parts hi, a.1), Ascends-append s hi id m a.2)

pub Ascends-raise : (lo hi : ℤ) (m : List (ℤ × ℕ)) → Ascends lo hi m → Ascends lo (next hi) m
Ascends-raise lo hi [] a = omega (arith, next_parts hi)
Ascends-raise lo hi ((s, i) ∷ m) a =
    (a.0, omega (arith, next_parts hi, a.1), Ascends-raise s hi m a.2)

-- A number at the lower bound comes before every entry.
pub Ascends-push_front :
    (lo hi : ℤ) (id : ℕ) (m : List (ℤ × ℕ)) → Ascends lo hi m → map_insert lo id m ≡ (lo, id) ∷ m
unfolding map_insert
Ascends-push_front lo hi id [] a = refl
Ascends-push_front lo hi id ((s, i) ∷ m) a = ground (arith, a.0)

pub Ascends_bounds : (lo hi : ℤ) (m : List (ℤ × ℕ)) → Ascends lo hi m → lo <ℤ hi
Ascends_bounds lo hi [] a = a
Ascends_bounds lo hi ((s, i) ∷ m) a = omega (arith, a.0, a.1)

pub Ascends-map_remove :
    (k lo hi : ℤ) (m : List (ℤ × ℕ)) → Ascends lo hi m → Ascends lo hi (map_remove k m)
unfolding map_remove
Ascends-map_remove k lo hi [] a = a
Ascends-map_remove k lo hi ((s, id) ∷ m) a =
    ground (arith, Ascends-lower lo s hi m a.0 a.2, Ascends-map_remove k s hi m a.2)

pub at_sequence_end : (lo hi : ℤ) (m : List (ℤ × ℕ)) → Ascends lo hi m → at_sequence hi m ≡ none
unfolding at_sequence
at_sequence_end lo hi [] a = refl
at_sequence_end lo hi ((s, id) ∷ m) a = ground (arith, at_sequence_end s hi m a.2)

pub at_sequence_start : (lo hi : ℤ) (m : List (ℤ × ℕ)) → Ascends lo hi m → at_sequence lo m ≡ none
at_sequence_start lo hi m a = at_sequence-below lo lo hi m a (ground arith)
