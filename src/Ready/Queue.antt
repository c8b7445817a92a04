-- ===== src/Ready/Queue.antt =====
-- src/scheduler/ready.rs, `PendingQueue`: an ordinary route in the order of activation, a
-- resource route in the order of its keys, and an index of the entries by identity.
pub mod Routes
pub mod Inv
pub mod Moves
pub mod Removal
pub mod Fifo
pub mod Members
use solworker.Prelude.{
  ℕ, ◌+◌, ◌≡◌, Bool, true, false, not, Option, none, some, List, [], ◌∷◌, min, if◌then◌else◌, map,
}
use solworker.Prelude.Int.{ℤ, pos, next, prior}
use solworker.Demand.Selection.{Selection}
use solworker.Ready.Maps.{
  ResourceKey, map_insert, map_remove, set_insert, set_remove, lookup, insert, remove,
}

pub data Entry : Type 0 where
  ordinary : ℤ → Entry
  resource : ResourceKey → Entry

pub record PendingQueue : Type 0 where
  pub ordinary_route : List (ℤ × ℕ)
  pub resource_route : List ResourceKey
  pub entries : List (ℕ × Entry)
  pub front : ℤ
  pub back : ℤ

abbrev pub empty_queue : PendingQueue
empty_queue = record {
  ordinary_route = [];
  resource_route = [];
  entries = [];
  front = pos 0;
  back = pos 0;
}

abbrev pub is_nil {ℓ} : {A : Type ℓ} → List A → Bool
is_nil [] = true
is_nil (x ∷ xs) = false

unfoldable pub is_empty : PendingQueue → Bool
is_empty q = is_nil q.entries

unfoldable pub has_resources : PendingQueue → Bool
has_resources q = not (is_nil q.resource_route)

abbrev pub key_of : Selection → ℕ → ℤ → ℕ → ResourceKey
key_of s rank sequence id = record {
  inactive = not s.active;
  rank = rank;
  tie = s.tie;
  sequence = sequence;
  id = id;
}

pub put_resource : PendingQueue → ℕ → ResourceKey → PendingQueue
put_resource q id key = record q {
  resource_route = set_insert key q.resource_route;
  entries = insert id (resource key) q.entries;
}

pub put_ordinary : PendingQueue → ℕ → ℤ → PendingQueue
put_ordinary q id sequence = record q {
  ordinary_route = map_insert sequence id q.ordinary_route;
  entries = insert id (ordinary sequence) q.entries;
}

-- `PendingQueue::insert`; `none` is the panic on a selection without a rank.
unfoldable pub insert_at : PendingQueue → ℕ → Option Selection → ℤ → Option PendingQueue
unfolding put_resource put_ordinary
insert_at q id none sequence = some (put_ordinary q id sequence)
insert_at q id (some s) sequence = elim s.priority [
  | none ↦ none
  | some rank ↦ some (put_resource q id (key_of s rank sequence id))
]

unfoldable pub push : PendingQueue → ℕ → Option Selection → Option PendingQueue
push q id selection = insert_at (record q { back = next q.back }) id selection q.back

unfoldable pub push_front : PendingQueue → ℕ → Option Selection → Option PendingQueue
push_front q id selection =
    insert_at (record q { front = prior q.front }) id selection (prior q.front)

-- The routes without an entry.
pub without : PendingQueue → Option Entry → PendingQueue
without q none = q
without q (some (ordinary sequence)) = record q {
  ordinary_route = map_remove sequence q.ordinary_route;
}
without q (some (resource key)) = record q { resource_route = set_remove key q.resource_route }

pub reset_if_empty : PendingQueue → PendingQueue
reset_if_empty q = if is_nil q.entries then record q { front = pos 0; back = pos 0 } else q

-- `PendingQueue::remove`.
unfoldable pub remove_id : PendingQueue → ℕ → PendingQueue
unfolding without reset_if_empty
remove_id q id =
    reset_if_empty (without (record q { entries = remove id q.entries }) (lookup id q.entries))

unfoldable pub update_resource : PendingQueue → ℕ → Selection → Option PendingQueue
update_resource q id s = push (remove_id q id) id (some s)

abbrev first_ordinary : List (ℤ × ℕ) → Option ℕ
first_ordinary [] = none
first_ordinary ((s, id) ∷ m) = some id

abbrev first_resource : List ResourceKey → Option ℕ
first_resource [] = none
first_resource (k ∷ s) = some k.id

-- The heads of the two routes interleave by identity.
abbrev lesser : Option ℕ → Option ℕ → Option ℕ
lesser none none = none
lesser none (some b) = some b
lesser (some a) none = some a
lesser (some a) (some b) = some (min a b)

unfoldable pub peek : PendingQueue → Option ℕ
peek q = lesser (first_ordinary q.ordinary_route) (first_resource q.resource_route)

unfoldable pub pop : PendingQueue → Option (ℕ × PendingQueue)
pop q = elim (peek q) [ none ↦ none | some id ↦ some (id, remove_id q id) ]
