-- ===== src/Ready/Queue/Removal.antt =====
-- src/scheduler/ready.rs, `PendingQueue`: removal, rank updates and pops.
use solworker.Prelude.{
  ℕ, ◌≡◌, refl, true, Option, none, some, List, [], ◌∷◌, ◌≢◌, ◌⊎◌, leb, arith, ◌==◌, ==-refl,
  if◌then◌else◌, inl, inr, Bool-cases,
}
use solworker.Prelude.Int.{ℤ, pos, eq_ℤ_iff, prior, prior_parts}
use solworker.Demand.Selection.{Selection}
use solworker.Ready.Maps.{ResourceKey, key_eq, key_eq_iff, lookup, remove, lookup-remove}
use solworker.Ready.Queue.{
  Entry, ordinary, resource, PendingQueue, update_resource, remove_id, without, reset_if_empty,
  is_nil, peek, lesser, first_ordinary, first_resource,
}
use solworker.Ready.Queue.Routes.{at_sequence, has_key, KeysAscend-set_remove, Ascends-map_remove}
use solworker.Ready.Queue.Inv.{Inv, Agrees, without-Agrees}
use solworker.Ready.Queue.Moves.{push-Inv}

key_eq_self : (k : ResourceKey) → key_eq k k ≡ true
key_eq_self k = (key_eq_iff k k).1 refl

-- An empty index leaves nothing in the ordinary route, and nothing in the resource route.
ordinary_nil : (q : PendingQueue) → Agrees q → q.entries ≡ [] → q.ordinary_route ≡ []
unfolding at_sequence lookup
ordinary_nil q a e = go q.ordinary_route refl
  where
    go : (m : List (ℤ × ℕ)) → q.ordinary_route ≡ m → q.ordinary_route ≡ []
    go [] h = h
    go ((s, id) ∷ m) h =
        let there : at_sequence s q.ordinary_route ≡ some id = ground (arith, eq_ℤ_iff s s) in
        absurd (ground (arith, a.ordinary_back id s there))

resource_nil : (q : PendingQueue) → Agrees q → q.entries ≡ [] → q.resource_route ≡ []
unfolding has_key lookup
resource_nil q a e = go q.resource_route refl
  where
    go : (m : List ResourceKey) → q.resource_route ≡ m → q.resource_route ≡ []
    go [] h = h
    go (k ∷ m) h =
        let there : has_key k q.resource_route ≡ true = ground (arith, key_eq_self k) in
        absurd (ground (arith, a.resource_back k there))

nil_of_is_nil : (m : List (ℕ × Entry)) → is_nil m ≡ true → m ≡ []
nil_of_is_nil [] h = refl
nil_of_is_nil (x ∷ m) h = absurd (ground arith)

reset_if_empty-Inv : (q : PendingQueue) → Inv q → Inv (reset_if_empty q)
unfolding reset_if_empty
reset_if_empty-Inv q v = elim (Bool-cases (is_nil q.entries)) [
  | inr kept ↦ rw (kept, reset_if_empty) v
  | inl emptied ↦
      rw (emptied, reset_if_empty)
        (record {
          agrees = record {
            ordinary_there = v.agrees.ordinary_there;
            ordinary_back = v.agrees.ordinary_back;
            resource_there = v.agrees.resource_there;
            resource_back = v.agrees.resource_back;
          };
          ascending =
              rw (ordinary_nil q v.agrees (nil_of_is_nil q.entries emptied))
                (omega (arith, prior_parts (pos 0)));
          keys = v.keys;
        })
]

without-Inv :
    (q : PendingQueue) (id : ℕ) (e : Option Entry)
    → Inv q
    → lookup id q.entries ≡ e
    → Inv (without (record q { entries = remove id q.entries }) e)
unfolding without
without-Inv q id none v h = record {
  agrees = without-Agrees q id none v h;
  ascending = v.ascending;
  keys = v.keys;
}
without-Inv q id (some (ordinary s)) v h = record {
  agrees = without-Agrees q id (some (ordinary s)) v h;
  ascending = Ascends-map_remove s (prior q.front) q.back q.ordinary_route v.ascending;
  keys = v.keys;
}
without-Inv q id (some (resource k)) v h = record {
  agrees = without-Agrees q id (some (resource k)) v h;
  ascending = v.ascending;
  keys = KeysAscend-set_remove k q.resource_route v.keys;
}

-- The removal of any identity keeps the queue's invariant.
pub remove_id-Inv : (q : PendingQueue) (id : ℕ) → Inv q → Inv (remove_id q id)
unfolding remove_id
remove_id-Inv q id v =
    reset_if_empty-Inv (without (record q { entries = remove id q.entries }) (lookup id q.entries))
      (without-Inv q id (lookup id q.entries) v refl)

pub entries-remove_id : (q : PendingQueue) (id : ℕ) → (remove_id q id).entries ≡ remove id q.entries
unfolding remove_id without reset_if_empty
entries-remove_id q id = go (lookup id q.entries)
  where
    go :
        (e : Option Entry)
        → (reset_if_empty (without (record q { entries = remove id q.entries }) e)).entries
          ≡ remove id q.entries
    go none = ground arith
    go (some (ordinary s)) = ground arith
    go (some (resource k)) = ground arith

-- After a removal the identity is unknown, and the entries of the others are as before.
pub lookup-remove_id :
    (q : PendingQueue) (id j : ℕ)
    → lookup j (remove_id q id).entries ≡ (if id == j then none else lookup j q.entries)
lookup-remove_id q id j = rw (entries-remove_id q id) (lookup-remove id j q.entries)

-- The removal of any identity from a queue that meets the invariant keeps it, and takes that identity
-- from the entries and no other; a queue that it leaves empty counts from zero again, and another
-- one goes on from where it was.
pub remove_id-Removed :
    (q : PendingQueue) (id j : ℕ)
    → Inv q
    → Inv (remove_id q id)
      × (lookup j (remove_id q id).entries ≡ (if id == j then none else lookup j q.entries))
      × ((remove_id q id).front ≡ (if is_nil (remove id q.entries) then pos 0 else q.front))
      × ((remove_id q id).back ≡ (if is_nil (remove id q.entries) then pos 0 else q.back))
unfolding remove_id
remove_id-Removed q id j v =
    let (f, b) = ends (lookup id q.entries) in (remove_id-Inv q id v, lookup-remove_id q id j, f, b)
  where
    ends :
        (e : Option Entry)
        → ((reset_if_empty (without (record q { entries = remove id q.entries }) e)).front
            ≡ (if is_nil (remove id q.entries) then pos 0 else q.front))
          × ((reset_if_empty (without (record q { entries = remove id q.entries }) e)).back
              ≡ (if is_nil (remove id q.entries) then pos 0 else q.back))
    ends none = (ground arith, ground arith)
    ends (some (ordinary s)) = (ground arith, ground arith)
    ends (some (resource k)) = (ground arith, ground arith)

-- A rank update that does not panic keeps the queue's invariant.
pub update_resource-Inv :
    (q r : PendingQueue) (id : ℕ) (s : Selection) → Inv q → update_resource q id s ≡ some r → Inv r
unfolding update_resource
update_resource-Inv q r id s v h =
    push-Inv (remove_id q id) r id (some s) (remove_id-Inv q id v)
      (rw (lookup-remove_id q id id, ==-refl id)) h

head_ordinary :
    (q : PendingQueue) (id : ℕ)
    → Agrees q
    → first_ordinary q.ordinary_route ≡ some id
    → (s : ℤ) × (lookup id q.entries ≡ some (ordinary s))
unfolding at_sequence
head_ordinary q id a h = go q.ordinary_route refl
  where
    go :
        (m : List (ℤ × ℕ))
        → q.ordinary_route ≡ m
        → (s : ℤ) × (lookup id q.entries ≡ some (ordinary s))
    go [] e = absurd (ground arith)
    go ((s, i) ∷ m) e =
        let there : at_sequence s q.ordinary_route ≡ some id = ground (arith, eq_ℤ_iff s s) in
        (s, a.ordinary_back id s there)

head_resource :
    (q : PendingQueue) (id : ℕ)
    → Agrees q
    → first_resource q.resource_route ≡ some id
    → (k : ResourceKey) × (lookup id q.entries ≡ some (resource k))
unfolding has_key
head_resource q id a h = go q.resource_route refl
  where
    go :
        (m : List ResourceKey)
        → q.resource_route ≡ m
        → (k : ResourceKey) × (lookup id q.entries ≡ some (resource k))
    go [] e = absurd (ground arith)
    go (k ∷ m) e =
        let there : has_key k q.resource_route ≡ true = ground (arith, key_eq_self k) in
        let same : k.id ≡ id = ground arith in (k, rw (← same) (a.resource_back k there))

pub lesser_cases : (a b : Option ℕ) (id : ℕ) → lesser a b ≡ some id → (a ≡ some id) ⊎ (b ≡ some id)
lesser_cases none b id h = inr (ground arith)
lesser_cases (some x) none id h = inl h
lesser_cases (some x) (some y) id h = elim (Bool-cases (leb x y)) [
  | inl le ↦ inl (ground arith)
  | inr gt ↦ inr (ground arith)
]

-- What `peek` names is in the index.
pub peek_known :
    (q : PendingQueue) (id : ℕ)
    → Inv q
    → peek q ≡ some id
    → (e : Entry) × (lookup id q.entries ≡ some e)
unfolding peek
peek_known q id v h =
    elim (lesser_cases (first_ordinary q.ordinary_route) (first_resource q.resource_route) id h) [
      | inl o ↦ let (s, e) = head_ordinary q id v.agrees o in (ordinary s, e)
      | inr r ↦ let (k, e) = head_resource q id v.agrees r in (resource k, e)
    ]

peek_entry :
    (q : PendingQueue) (id : ℕ) (e : Entry) → Inv q → lookup id q.entries ≡ some e → peek q ≢ none
unfolding peek at_sequence has_key
peek_entry q id (ordinary s) v h p = absurd (ground (arith, v.agrees.ordinary_there id s h))
peek_entry q id (resource k) v h p = absurd (ground (arith, v.agrees.resource_there id k h))

-- In a queue that meets the invariant, `peek` finds nothing exactly when the index is empty.
pub peek-none :
    (q : PendingQueue) → Inv q → (peek q ≡ none → q.entries ≡ []) × (q.entries ≡ [] → peek q ≡ none)
unfolding peek lookup
peek-none q v =
    (λ p. go p q.entries refl, λ e. simp (ordinary_nil q v.agrees e, resource_nil q v.agrees e))
  where
    go : peek q ≡ none → (m : List (ℕ × Entry)) → q.entries ≡ m → q.entries ≡ []
    go p [] e = e
    go p ((j, x) ∷ m) e = absurd (peek_entry q j x v (ground (arith, ==-refl j)) p)
