-- ===== src/Ready/Queue/Inv.antt =====
-- src/scheduler/ready.rs, `PendingQueue`: the index and the routes agree, and both routes ascend.
use solworker.Prelude.{ℕ, ◌≡◌, true, Option, none, some, arith}
use solworker.Prelude.Int.{ℤ, eq_ℤ_iff, prior}
use solworker.Ready.Maps.{ResourceKey, key_eq_iff, lookup, remove, lookup-insert, lookup-remove}
use solworker.Ready.Queue.{
  Entry, ordinary, resource, PendingQueue, empty_queue, put_ordinary, put_resource, without,
}
use solworker.Ready.Queue.Routes.{
  Ascends, KeysAscend, at_sequence, has_key, at_sequence-map_insert, at_sequence-map_remove,
  has_key-set_insert, has_key-set_remove,
}

pub record Agrees (q : PendingQueue) : Type 0 where
  pub ordinary_there :
      (id : ℕ) (s : ℤ)
      → lookup id q.entries ≡ some (ordinary s)
      → at_sequence s q.ordinary_route ≡ some id
  pub ordinary_back :
      (id : ℕ) (s : ℤ)
      → at_sequence s q.ordinary_route ≡ some id
      → lookup id q.entries ≡ some (ordinary s)
  pub resource_there :
      (id : ℕ) (k : ResourceKey)
      → lookup id q.entries ≡ some (resource k)
      → (has_key k q.resource_route ≡ true) × (k.id ≡ id)
  pub resource_back :
      (k : ResourceKey)
      → has_key k q.resource_route ≡ true
      → lookup k.id q.entries ≡ some (resource k)

pub record Inv (q : PendingQueue) : Type 0 where
  pub agrees : Agrees q
  pub ascending : Ascends (prior q.front) q.back q.ordinary_route
  pub keys : KeysAscend q.resource_route

pub empty_queue-Inv : Inv empty_queue
unfolding lookup at_sequence has_key prior
empty_queue-Inv = record {
  agrees = record {
    ordinary_there = λ id s h. ground arith;
    ordinary_back = λ id s h. ground arith;
    resource_there = λ id k h. ground arith;
    resource_back = λ k h. ground arith;
  };
  ascending = omega arith;
  keys = tt;
}

-- Entering a new identity at an unused number.
pub put_ordinary-Agrees :
    (q : PendingQueue) (id : ℕ) (s : ℤ)
    → Agrees q
    → lookup id q.entries ≡ none
    → at_sequence s q.ordinary_route ≡ none
    → Agrees (put_ordinary q id s)
unfolding put_ordinary
put_ordinary-Agrees q id s a new free = record {
  ordinary_there = λ j t h. ground (
    arith,
    lookup-insert id j (ordinary s) q.entries,
    at_sequence-map_insert s t id q.ordinary_route,
    a.ordinary_there j t,
    eq_ℤ_iff t s,
  );
  ordinary_back = λ j t h. ground (
    arith,
    lookup-insert id j (ordinary s) q.entries,
    at_sequence-map_insert s t id q.ordinary_route,
    a.ordinary_back j t,
    eq_ℤ_iff t s,
  );
  resource_there =
      λ j k h. ground (arith, lookup-insert id j (ordinary s) q.entries, a.resource_there j k);
  resource_back =
      λ k h. ground (arith, lookup-insert id k.id (ordinary s) q.entries, a.resource_back k);
}

pub put_resource-Agrees :
    (q : PendingQueue) (id : ℕ) (k : ResourceKey)
    → Agrees q
    → k.id ≡ id
    → lookup id q.entries ≡ none
    → Agrees (put_resource q id k)
unfolding put_resource
put_resource-Agrees q id k a same new = record {
  ordinary_there =
      λ j t h. ground (arith, lookup-insert id j (resource k) q.entries, a.ordinary_there j t);
  ordinary_back =
      λ j t h. ground (arith, lookup-insert id j (resource k) q.entries, a.ordinary_back j t);
  resource_there = λ j i h. ground (
    arith,
    lookup-insert id j (resource k) q.entries,
    has_key-set_insert k i q.resource_route,
    a.resource_there j i,
    key_eq_iff i k,
  );
  resource_back = λ i h. ground (
    arith,
    lookup-insert id i.id (resource k) q.entries,
    has_key-set_insert k i q.resource_route,
    a.resource_back i,
    key_eq_iff i k,
  );
}

pub without-Agrees :
    (q : PendingQueue) (id : ℕ) (e : Option Entry)
    → Inv q
    → lookup id q.entries ≡ e
    → Agrees (without (record q { entries = remove id q.entries }) e)
unfolding without
without-Agrees q id none v h = record {
  ordinary_there =
      λ j t g. ground (arith, lookup-remove id j q.entries, v.agrees.ordinary_there j t);
  ordinary_back = λ j t g. ground (arith, lookup-remove id j q.entries, v.agrees.ordinary_back j t);
  resource_there =
      λ j k g. ground (arith, lookup-remove id j q.entries, v.agrees.resource_there j k);
  resource_back = λ k g. ground (arith, lookup-remove id k.id q.entries, v.agrees.resource_back k);
}
without-Agrees q id (some (ordinary s)) v h =
    let there = v.agrees.ordinary_there id s h in
    record {
      ordinary_there = λ j t g. ground (
        arith,
        lookup-remove id j q.entries,
        at_sequence-map_remove s t (prior q.front) q.back q.ordinary_route,
        v.agrees.ordinary_there j t,
        eq_ℤ_iff t s,
      );
      ordinary_back = λ j t g. ground (
        arith,
        lookup-remove id j q.entries,
        at_sequence-map_remove s t (prior q.front) q.back q.ordinary_route v.ascending,
        v.agrees.ordinary_back j t,
        eq_ℤ_iff t s,
      );
      resource_there =
          λ j k g. ground (arith, lookup-remove id j q.entries, v.agrees.resource_there j k);
      resource_back =
          λ k g. ground (arith, lookup-remove id k.id q.entries, v.agrees.resource_back k);
    }
without-Agrees q id (some (resource i)) v h =
    let there = v.agrees.resource_there id i h in
    record {
      ordinary_there =
          λ j t g. ground (arith, lookup-remove id j q.entries, v.agrees.ordinary_there j t);
      ordinary_back =
          λ j t g. ground (arith, lookup-remove id j q.entries, v.agrees.ordinary_back j t);
      resource_there = λ j k g. ground (
        arith,
        lookup-remove id j q.entries,
        has_key-set_remove i k q.resource_route v.keys,
        v.agrees.resource_there j k,
        key_eq_iff k i,
      );
      resource_back = λ k g. ground (
        arith,
        lookup-remove id k.id q.entries,
        has_key-set_remove i k q.resource_route v.keys,
        v.agrees.resource_back k,
        key_eq_iff k i,
      );
    }
