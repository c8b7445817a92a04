-- ===== src/Ready/Queue/Members.antt =====
-- src/scheduler/ready.rs, `PendingQueue`: the set of identities that a queue holds, which is what
-- the class gate relies on.
use solworker.Prelude.{
  ℕ, ◌≡◌, refl, Bool, true, false, Option, none, some, arith, ◌==◌, ==-refl, if◌then◌else◌, inl,
  inr, Option-cases,
}
use solworker.Prelude.Int.{ℤ, next, prior}
use solworker.Demand.Selection.{Selection}
use solworker.Ready.Maps.{lookup, lookup-insert}
use solworker.Ready.Queue.{
  ordinary, resource, PendingQueue, insert_at, put_ordinary, put_resource, key_of, push, push_front,
  update_resource, remove_id, pop, peek,
}
use solworker.Ready.Queue.Inv.{Inv}
use solworker.Ready.Queue.Moves.{push-Inv, push_front-Inv}
use solworker.Ready.Queue.Removal.{remove_id-Inv, lookup-remove_id, peek_known, peek-none}

abbrev is_some {ℓ} : {A : Type ℓ} → Option A → Bool
is_some none = false
is_some (some a) = true

unfoldable pub has : ℕ → PendingQueue → Bool
has id q = is_some (lookup id q.entries)

-- A selection that can be queued has a rank.
abbrev pub IsRanked : Option Selection → Type 0
IsRanked none = Unit {0}
IsRanked (some s) = (rank : ℕ) × (s.priority ≡ some rank)

-- The queue after one more identity.
pub record Grown (q r : PendingQueue) (id : ℕ) : Type 0 where
  pub inv : Inv r
  pub members : (j : ℕ) → has j r ≡ (if id == j then true else has j q)

insert_at_total :
    (q : PendingQueue) (id : ℕ) (sel : Option Selection) (s : ℤ)
    → IsRanked sel
    → (r : PendingQueue) × (insert_at q id sel s ≡ some r)
      × ((j : ℕ) → has j r ≡ (if id == j then true else has j q))
unfolding insert_at put_ordinary put_resource has
insert_at_total q id none s k =
    (put_ordinary q id s, refl, λ j. ground (arith, lookup-insert id j (ordinary s) q.entries))
insert_at_total q id (some sel) s (rank, e) = (
  put_resource q id (key_of sel rank s id),
  rw e,
  λ j. ground (arith, lookup-insert id j (resource (key_of sel rank s id)) q.entries),
)

none_of_has : (q : PendingQueue) (id : ℕ) → has id q ≡ false → lookup id q.entries ≡ none
unfolding has
none_of_has q id h = ground arith

-- From a queue that meets the invariant, a push of an identity that it does not hold, with no
-- selection or a selection that has a rank, does not panic: the new queue meets the invariant, in
-- which the index and the two routes name each other and both routes ascend, and it holds that
-- identity and those of before.
pub push-Grown :
    (q : PendingQueue) (id : ℕ) (sel : Option Selection)
    → Inv q
    → IsRanked sel
    → has id q ≡ false
    → (r : PendingQueue) × (push q id sel ≡ some r) × Grown q r id
unfolding push has
push-Grown q id sel v k new =
    let (r, e, m) = insert_at_total (record q { back = next q.back }) id sel q.back k in
    (r, e, record { inv = push-Inv q r id sel v (none_of_has q id new) e; members = m })

-- A push to the front, under the conditions of a push, does not panic: the new queue meets the
-- invariant and holds that identity and those of before.
pub push_front-Grown :
    (q : PendingQueue) (id : ℕ) (sel : Option Selection)
    → Inv q
    → IsRanked sel
    → has id q ≡ false
    → (r : PendingQueue) × (push_front q id sel ≡ some r) × Grown q r id
unfolding push_front has
push_front-Grown q id sel v k new =
    let (r, e, m) = insert_at_total (record q { front = prior q.front }) id sel (prior q.front) k in
    (r, e, record { inv = push_front-Inv q r id sel v (none_of_has q id new) e; members = m })

pub has-remove_id :
    (q : PendingQueue) (id j : ℕ) → has j (remove_id q id) ≡ (if id == j then false else has j q)
unfolding has
has-remove_id q id j = ground (arith, lookup-remove_id q id j)

pub update_resource-Grown :
    (q : PendingQueue) (id : ℕ) (s : Selection)
    → Inv q
    → IsRanked (some s)
    → (r : PendingQueue) × (update_resource q id s ≡ some r) × Grown q r id
unfolding update_resource
update_resource-Grown q id s v k =
    let (r, e, g) =
      push-Grown (remove_id q id) id (some s) (remove_id-Inv q id v) k
        (ground (arith, has-remove_id q id id, ==-refl id)) in
    (r, e, record { inv = g.inv; members = λ j. ground (arith, g.members j, has-remove_id q id j) })

-- A pop fails on the empty queue only, and otherwise removes a member.
pub record Popped (q : PendingQueue) (id : ℕ) (r : PendingQueue) : Type 0 where
  pub left : r ≡ remove_id q id
  pub member : has id q ≡ true

pub pop-Popped : (q r : PendingQueue) (id : ℕ) → Inv q → pop q ≡ some (id, r) → Popped q id r
unfolding pop has
pop-Popped q r id v h = elim (Option-cases (peek q)) [
  | inl nothing ↦ absurd (ground arith)
  | inr (i, e) ↦
      let named : peek q ≡ some id = ground arith in
      let (entry, there) = peek_known q id v named in
      record { left = ground arith; member = ground arith }
]

pub pop-none : (q : PendingQueue) → Inv q → pop q ≡ none → (j : ℕ) → has j q ≡ false
unfolding pop has lookup
pop-none q v h j = let nothing : peek q ≡ none = ground arith in rw ((peek-none q v).0 nothing)
