-- ===== src/Ready/Maps.antt =====
-- The standard collections that src/scheduler/ready.rs uses: an ordered map by sequence number, an
-- ordered set of resource keys and a hash map by identity, as lists. Lists of the ordered
-- collections ascend.
use solworker.Prelude.{
  ℕ, ◌≡◌, refl, Bool, true, false, ◌&&◌, ◌||◌, Option, none, some, List, [], ◌∷◌, arith, ltb, ◌==◌,
  if◌then◌else◌, ◌↔◌,
}
use solworker.Prelude.Int.{ℤ, ltb_ℤ, eq_ℤ}

-- `(!active, priority, tie, sequence, id)`, in the order in which keys are compared.
pub record ResourceKey : Type 0 where
  pub inactive : Bool
  pub rank : ℕ
  pub tie : ℤ
  pub sequence : ℤ
  pub id : ℕ

abbrev bool_lt : Bool → Bool → Bool
bool_lt false true = true
bool_lt _ _ = false

abbrev bool_eq : Bool → Bool → Bool
bool_eq true true = true
bool_eq false false = true
bool_eq _ _ = false

-- The lexicographic order of the tuple, from its last components to all of it.
unfoldable pub seq_lt : ResourceKey → ResourceKey → Bool
seq_lt a b = ltb_ℤ a.sequence b.sequence || eq_ℤ a.sequence b.sequence && ltb a.id b.id

unfoldable pub tie_lt : ResourceKey → ResourceKey → Bool
tie_lt a b = ltb_ℤ a.tie b.tie || eq_ℤ a.tie b.tie && seq_lt a b

unfoldable pub rank_lt : ResourceKey → ResourceKey → Bool
rank_lt a b = ltb a.rank b.rank || (a.rank == b.rank) && tie_lt a b

unfoldable pub key_lt : ResourceKey → ResourceKey → Bool
key_lt a b = bool_lt a.inactive b.inactive || bool_eq a.inactive b.inactive && rank_lt a b

seq_lt_trans : (a b c : ResourceKey) → seq_lt a b ≡ true → seq_lt b c ≡ true → seq_lt a c ≡ true
unfolding seq_lt
seq_lt_trans a b c h k = ground arith

tie_lt_trans : (a b c : ResourceKey) → tie_lt a b ≡ true → tie_lt b c ≡ true → tie_lt a c ≡ true
unfolding tie_lt
tie_lt_trans a b c h k = ground (arith, seq_lt_trans a b c)

rank_lt_trans : (a b c : ResourceKey) → rank_lt a b ≡ true → rank_lt b c ≡ true → rank_lt a c ≡ true
unfolding rank_lt
rank_lt_trans a b c h k = ground (arith, tie_lt_trans a b c)

pub key_lt_trans : (a b c : ResourceKey) → key_lt a b ≡ true → key_lt b c ≡ true → key_lt a c ≡ true
unfolding key_lt
key_lt_trans a b c h k = ground (arith, rank_lt_trans a b c)

pub key_lt_irrefl : (a : ResourceKey) → key_lt a a ≡ false
unfolding key_lt rank_lt tie_lt seq_lt
key_lt_irrefl a = ground arith

unfoldable pub key_eq : ResourceKey → ResourceKey → Bool
key_eq a b =
    bool_eq a.inactive b.inactive
    && ((a.rank == b.rank) && (eq_ℤ a.tie b.tie && (eq_ℤ a.sequence b.sequence && (a.id == b.id))))

-- Any two keys are ordered, or equal.
pub key_lt_total : (a b : ResourceKey) → key_lt a b ≡ false → key_eq a b ≡ false → key_lt b a ≡ true
unfolding key_lt key_eq rank_lt tie_lt seq_lt
key_lt_total a b h k = ground arith

pub key_eq_iff : (a b : ResourceKey) → (key_eq a b ≡ true) ↔ (a ≡ b)
unfolding key_eq
key_eq_iff a b = ground arith

-- `BTreeMap<i128, u64>`.
unfoldable pub map_insert : ℤ → ℕ → List (ℤ × ℕ) → List (ℤ × ℕ)
map_insert k v [] = (k, v) ∷ []
map_insert k v ((j, w) ∷ m) =
    if ltb_ℤ k j
    then (k, v) ∷ (j, w) ∷ m
    else if eq_ℤ k j
    then (k, v) ∷ m
    else (j, w) ∷ map_insert k v m

unfoldable pub map_remove : ℤ → List (ℤ × ℕ) → List (ℤ × ℕ)
map_remove k [] = []
map_remove k ((j, w) ∷ m) = if eq_ℤ k j then m else (j, w) ∷ map_remove k m

-- `BTreeSet<ResourceKey>`.
unfoldable pub set_insert : ResourceKey → List ResourceKey → List ResourceKey
set_insert k [] = k ∷ []
set_insert k (j ∷ s) =
    if key_lt k j then k ∷ j ∷ s else if key_eq k j then j ∷ s else j ∷ set_insert k s

unfoldable pub set_remove : ResourceKey → List ResourceKey → List ResourceKey
set_remove k [] = []
set_remove k (j ∷ s) = if key_eq k j then s else j ∷ set_remove k s

-- `HashMap<u64, V>`: the entry of a key is its first.
module _ {ℓ} {V : Type ℓ} where
  unfoldable pub lookup : ℕ → List (ℕ × V) → Option V
  lookup id [] = none
  lookup id ((other, found) ∷ rest) = if other == id then some found else lookup id rest

  unfoldable pub remove : ℕ → List (ℕ × V) → List (ℕ × V)
  remove id [] = []
  remove id ((other, found) ∷ rest) =
      let left = remove id rest in if other == id then left else (other, found) ∷ left

  unfoldable pub insert : ℕ → V → List (ℕ × V) → List (ℕ × V)
  insert id value [] = (id, value) ∷ []
  insert id value ((other, found) ∷ rest) =
      if other == id then (id, value) ∷ rest else (other, found) ∷ insert id value rest

  pub lookup-remove :
      (id wanted : ℕ) (entries : List (ℕ × V))
      → lookup wanted (remove id entries) ≡ (if id == wanted then none else lookup wanted entries)
  unfolding lookup remove
  lookup-remove id wanted [] = ground arith
  lookup-remove id wanted ((other, found) ∷ rest) = ground (arith, lookup-remove id wanted rest)

  pub lookup-insert :
      (id wanted : ℕ) (value : V) (entries : List (ℕ × V))
      → lookup wanted (insert id value entries)
        ≡ (if id == wanted then some value else lookup wanted entries)
  unfolding lookup insert
  lookup-insert id wanted value [] = refl
  lookup-insert id wanted value ((other, found) ∷ rest) =
      ground (arith, lookup-insert id wanted value rest)
