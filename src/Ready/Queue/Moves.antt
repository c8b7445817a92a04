-- ===== src/Ready/Queue/Moves.antt =====
-- src/scheduler/ready.rs, `PendingQueue`: every operation keeps the index and the routes in step.
use solworker.Prelude.{ℕ, ◌≡◌, refl, sym, subst, Option, none, some, arith, inl, inr, Option-cases}
use solworker.Prelude.Int.{ℤ, next, prior, prior_parts}
use solworker.Demand.Selection.{Selection}
use solworker.Ready.Maps.{lookup}
use solworker.Ready.Queue.{
  PendingQueue, insert_at, put_ordinary, put_resource, push, push_front, key_of,
}
use solworker.Ready.Queue.Routes.{
  Ascends, KeysAscend, at_sequence, KeysAscend-set_insert, Ascends-push, Ascends-append,
  Ascends-raise, Ascends-lower, Ascends-push_front, Ascends_bounds, at_sequence_end,
  at_sequence_start,
}
use solworker.Ready.Queue.Inv.{Inv, Agrees, put_ordinary-Agrees, put_resource-Agrees}

-- The index and the order of the resource route, when the entry is made.
insert_at-Agrees :
    (q r : PendingQueue) (id : ℕ) (sel : Option Selection) (s : ℤ)
    → Agrees q
    → KeysAscend q.resource_route
    → lookup id q.entries ≡ none
    → at_sequence s q.ordinary_route ≡ none
    → insert_at q id sel s ≡ some r
    → Agrees r × KeysAscend r.resource_route
unfolding insert_at
insert_at-Agrees q r id none s a k new free h =
    let e : put_ordinary q id s ≡ r = cc in
    subst (λ x. Agrees x × KeysAscend x.resource_route) e (put_ordinary-Agrees q id s a new free, k)
insert_at-Agrees q r id (some sel) s a k new free h = elim (Option-cases sel.priority) [
  | inl missing ↦ absurd (ground arith)
  | inr (rank, there) ↦
      let e : put_resource q id (key_of sel rank s id) ≡ r = ground arith in
      subst (λ x. Agrees x × KeysAscend x.resource_route) e
        (
          put_resource-Agrees q id (key_of sel rank s id) a refl new,
          KeysAscend-set_insert (key_of sel rank s id) q.resource_route k,
        )
]

abbrev InOrder : PendingQueue → Type 0
InOrder q = Ascends (prior q.front) q.back q.ordinary_route

-- An entry without a resource key goes to the end of the ordinary route, or to its front.
pub insert_at_ordinary :
    (q r : PendingQueue) (id : ℕ) (s : ℤ) → insert_at q id none s ≡ some r → put_ordinary q id s ≡ r
unfolding insert_at
insert_at_ordinary q r id s h = cc

-- An entry with a resource key leaves the ordinary route and the counters.
insert_at_resource :
    (q r : PendingQueue) (id : ℕ) (sel : Selection) (s : ℤ)
    → insert_at q id (some sel) s ≡ some r
    → (r.ordinary_route ≡ q.ordinary_route) × (r.front ≡ q.front) × (r.back ≡ q.back)
unfolding insert_at
insert_at_resource q r id sel s h = elim (Option-cases sel.priority) [
  | inl missing ↦ absurd (ground arith)
  | inr (rank, there) ↦ (ground arith, ground arith, ground arith)
]

InOrder-eq :
    (q r : PendingQueue)
    → (r.ordinary_route ≡ q.ordinary_route) × (r.front ≡ q.front) × (r.back ≡ q.back)
    → InOrder q
    → InOrder r
InOrder-eq q r (o, f, b) a =
    subst (λ (x : ℤ). Ascends (prior x) r.back r.ordinary_route) (sym f)
      (subst (λ (x : ℤ). Ascends (prior q.front) x r.ordinary_route) (sym b)
        (subst (Ascends (prior q.front) q.back) (sym o) a))

push_ascending :
    (q r : PendingQueue) (id : ℕ) (sel : Option Selection)
    → Inv q
    → push q id sel ≡ some r
    → InOrder r
unfolding push put_ordinary
push_ascending q r id none v h =
    let grown : PendingQueue = record q { back = next q.back } in
    subst InOrder (insert_at_ordinary grown r id q.back h) (
      rw (Ascends-push (prior q.front) q.back id q.ordinary_route v.ascending)
        (Ascends-append (prior q.front) q.back id q.ordinary_route v.ascending))
push_ascending q r id (some sel) v h =
    let grown : PendingQueue = record q { back = next q.back } in
    InOrder-eq grown r (insert_at_resource grown r id sel q.back h)
      (Ascends-raise (prior q.front) q.back q.ordinary_route v.ascending)

push_front_ascending :
    (q r : PendingQueue) (id : ℕ) (sel : Option Selection)
    → Inv q
    → push_front q id sel ≡ some r
    → InOrder r
unfolding push_front put_ordinary
push_front_ascending q r id none v h =
    let low = prior q.front in
    let grown : PendingQueue = record q { front = low } in
    let bounds = Ascends_bounds low q.back q.ordinary_route v.ascending in
    subst InOrder (insert_at_ordinary grown r id low h) (
      rw (Ascends-push_front low q.back id q.ordinary_route v.ascending)
        (omega (arith, prior_parts low), bounds, v.ascending))
push_front_ascending q r id (some sel) v h =
    let low = prior q.front in
    let grown : PendingQueue = record q { front = low } in
    InOrder-eq grown r (insert_at_resource grown r id sel low h) (
      Ascends-lower (prior low) low q.back q.ordinary_route (omega (arith, prior_parts low))
        v.ascending)

-- A push of an identity that the index does not know, when it does not panic, keeps the queue's
-- invariant: the index and the two routes name each other, and both routes ascend.
pub push-Inv :
    (q r : PendingQueue) (id : ℕ) (sel : Option Selection)
    → Inv q
    → lookup id q.entries ≡ none
    → push q id sel ≡ some r
    → Inv r
unfolding push
push-Inv q r id sel v new h =
    let made =
      insert_at-Agrees (record q { back = next q.back }) r id sel q.back
        (record {
          ordinary_there = v.agrees.ordinary_there;
          ordinary_back = v.agrees.ordinary_back;
          resource_there = v.agrees.resource_there;
          resource_back = v.agrees.resource_back;
        })
        v.keys new (at_sequence_end (prior q.front) q.back q.ordinary_route v.ascending) h in
    record { agrees = made.0; ascending = push_ascending q r id sel v h; keys = made.1 }

-- A push to the front of an identity that the index does not know, when it does not panic, keeps
-- the queue's invariant.
pub push_front-Inv :
    (q r : PendingQueue) (id : ℕ) (sel : Option Selection)
    → Inv q
    → lookup id q.entries ≡ none
    → push_front q id sel ≡ some r
    → Inv r
unfolding push_front
push_front-Inv q r id sel v new h =
    let made =
      insert_at-Agrees (record q { front = prior q.front }) r id sel (prior q.front)
        (record {
          ordinary_there = v.agrees.ordinary_there;
          ordinary_back = v.agrees.ordinary_back;
          resource_there = v.agrees.resource_there;
          resource_back = v.agrees.resource_back;
        })
        v.keys new (at_sequence_start (prior q.front) q.back q.ordinary_route v.ascending) h in
    record { agrees = made.0; ascending = push_front_ascending q r id sel v h; keys = made.1 }
