-- ===== src/Ready/Queue/Fifo.antt =====
-- src/scheduler/ready.rs, `PendingQueue`: the order in which entries leave.
use solworker.Prelude.{
  ℕ, ◌≡◌, refl, subst, ap, true, none, some, List, [], ◌∷◌, ◌++◌, ◌⊎◌, arith, inl, inr,
  Option-cases,
}
use solworker.Prelude.Int.{ℤ, eq_ℤ_iff, next, prior}
use solworker.Ready.Maps.{ResourceKey, key_eq_iff, map_remove, set_remove, lookup, remove}
use solworker.Ready.Queue.{
  Entry, ordinary, resource, PendingQueue, put_ordinary, push, push_front, remove_id, without,
  reset_if_empty, pop, peek, first_ordinary, first_resource,
}
use solworker.Ready.Queue.Routes.{at_sequence, has_key, Ascends-push, Ascends-push_front}
use solworker.Ready.Queue.Inv.{Inv}
use solworker.Ready.Queue.Moves.{insert_at_ordinary}
use solworker.Ready.Queue.Removal.{lesser_cases}

-- The ordinary entries, in the order of their numbers.
abbrev pub ids : List (ℤ × ℕ) → List ℕ
ids [] = []
ids ((s, id) ∷ m) = id ∷ ids m

ids-append : (m : List (ℤ × ℕ)) (s : ℤ) (id : ℕ) → ids (m ++ (s, id) ∷ []) ≡ ids m ++ id ∷ []
ids-append [] s id = refl
ids-append ((t, i) ∷ m) s id = ap (◌∷◌ i) (ids-append m s id)

-- In a queue that meets the invariant, an ordinary push goes behind every ordinary entry and leaves
-- the resource route.
pub push-ids :
    (q r : PendingQueue) (id : ℕ)
    → Inv q
    → push q id none ≡ some r
    → (ids r.ordinary_route ≡ ids q.ordinary_route ++ id ∷ [])
      × (r.resource_route ≡ q.resource_route)
unfolding push put_ordinary
push-ids q r id v h =
    let e = insert_at_ordinary (record q { back = next q.back }) r id q.back h in
    let route = Ascends-push (prior q.front) q.back id q.ordinary_route v.ascending in
    let order = ids-append q.ordinary_route q.back id in (ground arith, ground arith)

-- In a queue that meets the invariant, an ordinary push to the front goes before every ordinary
-- entry and leaves the resource route.
pub push_front-ids :
    (q r : PendingQueue) (id : ℕ)
    → Inv q
    → push_front q id none ≡ some r
    → (ids r.ordinary_route ≡ id ∷ ids q.ordinary_route) × (r.resource_route ≡ q.resource_route)
unfolding push_front put_ordinary
push_front-ids q r id v h =
    let e = insert_at_ordinary (record q { front = prior q.front }) r id (prior q.front) h in
    let route = Ascends-push_front (prior q.front) q.back id q.ordinary_route v.ascending in
    (ground arith, ground arith)

-- The routes after a removal are those that the entry's own route leaves.
routes-remove_id :
    (q : PendingQueue) (id : ℕ) (e : Entry)
    → lookup id q.entries ≡ some e
    → let w = without (record q { entries = remove id q.entries }) (some e) in
      ((remove_id q id).ordinary_route ≡ w.ordinary_route)
      × ((remove_id q id).resource_route ≡ w.resource_route)
unfolding remove_id reset_if_empty
routes-remove_id q id e h = (ground arith, ground arith)

-- One route gives up its head, and the other stays.
abbrev pub TakesHead : PendingQueue → ℕ → PendingQueue → Type 0
TakesHead q id r =
    ((ids q.ordinary_route ≡ id ∷ ids r.ordinary_route) × (r.resource_route ≡ q.resource_route))
    ⊎ ((k : ResourceKey) × (k.id ≡ id)
        × (q.resource_route ≡ k ∷ r.resource_route)
        × (r.ordinary_route ≡ q.ordinary_route))

take_ordinary :
    (q : PendingQueue) (id : ℕ)
    → Inv q
    → first_ordinary q.ordinary_route ≡ some id
    → TakesHead q id (remove_id q id)
unfolding at_sequence without map_remove
take_ordinary q id v h = go q.ordinary_route refl
  where
    go : (m : List (ℤ × ℕ)) → q.ordinary_route ≡ m → TakesHead q id (remove_id q id)
    go [] e = absurd (ground arith)
    go ((s, i) ∷ m) e =
        let self = (eq_ℤ_iff s s).1 refl in
        let there : at_sequence s q.ordinary_route ≡ some id = ground arith in
        let known = v.agrees.ordinary_back id s there in
        let routes = routes-remove_id q id (ordinary s) known in inl (ground arith, ground arith)

take_resource :
    (q : PendingQueue) (id : ℕ)
    → Inv q
    → first_resource q.resource_route ≡ some id
    → TakesHead q id (remove_id q id)
unfolding has_key without set_remove
take_resource q id v h = go q.resource_route refl
  where
    go : (m : List ResourceKey) → q.resource_route ≡ m → TakesHead q id (remove_id q id)
    go [] e = absurd (ground arith)
    go (k ∷ m) e =
        let self = (key_eq_iff k k).1 refl in
        let there : has_key k q.resource_route ≡ true = ground arith in
        let same : k.id ≡ id = ground arith in
        let known : lookup id q.entries ≡ some (resource k) =
          rw (← same) (v.agrees.resource_back k there) in
        let routes = routes-remove_id q id (resource k) known in
        inr (k, same, ground arith, ground arith)

peeked-TakesHead :
    (q : PendingQueue) (id : ℕ) → Inv q → peek q ≡ some id → TakesHead q id (remove_id q id)
unfolding peek
peeked-TakesHead q id v h =
    elim (lesser_cases (first_ordinary q.ordinary_route) (first_resource q.resource_route) id h) [
      | inl o ↦ take_ordinary q id v o
      | inr r ↦ take_resource q id v r
    ]

-- In a queue that meets the invariant, a pop takes the head of one route, ordinary or resource,
-- and leaves the other route as it was.
pub pop-TakesHead : (q r : PendingQueue) (id : ℕ) → Inv q → pop q ≡ some (id, r) → TakesHead q id r
unfolding pop
pop-TakesHead q r id v h = elim (Option-cases (peek q)) [
  | inl nothing ↦ absurd (ground arith)
  | inr (i, e) ↦
      let same : i ≡ id = ground arith in
      let left : remove_id q id ≡ r = ground arith in
      let named : peek q ≡ some id = ground arith in
      subst (TakesHead q id) left (peeked-TakesHead q id v named)
]
