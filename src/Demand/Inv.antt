-- ===== src/Demand/Inv.antt =====
-- src/scheduler/demand.rs: the queue of dirty nodes holds exactly the nodes whose flag is set, each
-- once, so outstanding propagation is bounded by the number of nodes.
use solworker.Prelude.{
  ℕ, ◌≡◌, refl, Bool, true, false, Option, none, some, List, [], ◌∷◌, ◌++◌, arith, ◌==◌, ==_iff,
  if◌then◌else◌, inl, inr, Bool-cases, Option-cases,
}
use solworker.Ready.Maps.{lookup, insert, lookup-insert}
use solworker.Demand.State.{
  DemandState, Node, has_id, retain_others, put_node, set_dirty, mark_node, mark_dirty, new_state,
}

abbrev flag_of : Option Node → Bool
flag_of none = false
flag_of (some n) = n.is_dirty

unfoldable pub marked : ℕ → List (ℕ × Node) → Bool
marked id nodes = flag_of (lookup id nodes)

abbrev pub NoDup : List ℕ → Type 0
NoDup [] = Unit {0}
NoDup (x ∷ xs) = (has_id x xs ≡ false) × NoDup xs

pub record Inv (s : DemandState) : Type 0 where
  pub agrees : (id : ℕ) → has_id id s.dirty ≡ marked id s.nodes
  pub once : NoDup s.dirty

pub new_state-Inv : (bands : List ℕ) (lease_limit : ℕ) → Inv (new_state bands lease_limit)
unfolding new_state has_id marked lookup
new_state-Inv bands lease_limit = record { agrees = λ id. refl; once = tt }

pub has_id-append :
    (j id : ℕ) (xs : List ℕ) → has_id j (xs ++ id ∷ []) ≡ (if id == j then true else has_id j xs)
unfolding has_id
has_id-append j id [] = ground arith
has_id-append j id (x ∷ xs) = ground (arith, has_id-append j id xs)

pub has_id-retain_others :
    (j id : ℕ) (xs : List ℕ)
    → has_id j (retain_others id xs) ≡ (if id == j then false else has_id j xs)
unfolding has_id retain_others
has_id-retain_others j id [] = ground arith
has_id-retain_others j id (x ∷ xs) = ground (arith, has_id-retain_others j id xs)

NoDup-append : (id : ℕ) (xs : List ℕ) → has_id id xs ≡ false → NoDup xs → NoDup (xs ++ id ∷ [])
unfolding has_id
NoDup-append id [] h d = (refl, tt)
NoDup-append id (x ∷ xs) h d =
    (ground (arith, has_id-append x id xs, d.0), NoDup-append id xs (ground arith) d.1)

pub NoDup-retain_others : (id : ℕ) (xs : List ℕ) → NoDup xs → NoDup (retain_others id xs)
unfolding retain_others
NoDup-retain_others id [] d = tt
NoDup-retain_others id (x ∷ xs) d = elim (Bool-cases (x == id)) [
  | inl e ↦ simp e (NoDup-retain_others id xs d.1)
  | inr e ↦
      simp e (ground (arith, has_id-retain_others x id xs, d.0), NoDup-retain_others id xs d.1)
]

-- A change that keeps the invariant and both counters.
pub record Kept (s t : DemandState) : Type 0 where
  pub inv_kept : Inv s → Inv t
  pub version_same : t.version ≡ s.version
  pub lease_same : t.next_lease ≡ s.next_lease

pub Kept-trans : (s t u : DemandState) → Kept s t → Kept t u → Kept s u
Kept-trans s t u a b = record {
  inv_kept = λ v. b.inv_kept (a.inv_kept v);
  version_same = cc (a.version_same, b.version_same);
  lease_same = cc (a.lease_same, b.lease_same);
}

pub Kept-refl : (s : DemandState) → Kept s s
Kept-refl s = record { inv_kept = λ v. v; version_same = refl; lease_same = refl }

-- States with the same queue and the same flags meet the invariant together.
pub same_flags :
    (s t : DemandState)
    → t.dirty ≡ s.dirty
    → ((id : ℕ) → marked id t.nodes ≡ marked id s.nodes)
    → Inv s
    → Inv t
same_flags s t d m v = record {
  agrees = λ id. ground (arith, v.agrees id, m id);
  once = rw d (v.once);
}

pub put_node-flags :
    (nodes : List (ℕ × Node)) (id : ℕ) (n m : Node)
    → lookup id nodes ≡ some n
    → m.is_dirty ≡ n.is_dirty
    → (j : ℕ) → marked j (insert id m nodes) ≡ marked j nodes
unfolding marked
put_node-flags nodes id n m h e j = ground (arith, lookup-insert id j m nodes, ==_iff id j)

set_dirty-Inv :
    (s : DemandState) (id : ℕ) (n : Node)
    → lookup id s.nodes ≡ some n
    → n.is_dirty ≡ false
    → Inv s
    → Inv (set_dirty s id n)
unfolding set_dirty marked
set_dirty-Inv s id n h clean v = record {
  agrees = λ j. ground (
    arith,
    has_id-append j id s.dirty,
    lookup-insert id j (record n { is_dirty = true }) s.nodes,
    v.agrees j,
  );
  once = NoDup-append id s.dirty (ground (arith, v.agrees id)) v.once;
}

counters_same :
    (s : DemandState) (id : ℕ) (n : Node)
    → ((set_dirty s id n).version ≡ s.version) × ((set_dirty s id n).next_lease ≡ s.next_lease)
unfolding set_dirty
counters_same s id n = (refl, refl)

set_dirty-Kept :
    (s : DemandState) (id : ℕ) (n : Node)
    → lookup id s.nodes ≡ some n
    → n.is_dirty ≡ false
    → Kept s (set_dirty s id n)
set_dirty-Kept s id n h clean = record {
  inv_kept = set_dirty-Inv s id n h clean;
  version_same = same.0;
  lease_same = same.1;
}
  where
    same : ((set_dirty s id n).version ≡ s.version) × ((set_dirty s id n).next_lease ≡ s.next_lease)
    same = counters_same s id n

mark_node-Kept :
    (s : DemandState) (id : ℕ) (n : Node) → lookup id s.nodes ≡ some n → Kept s (mark_node s id n)
unfolding mark_node set_dirty
mark_node-Kept s id n h = elim (Bool-cases n.is_dirty) [
  | inl d ↦ rw d (Kept-refl s)
  | inr d ↦ rw d (set_dirty-Kept s id n h d)
]

pub mark_dirty-Kept : (s : DemandState) (id : ℕ) → Kept s (mark_dirty s id)
unfolding mark_dirty
mark_dirty-Kept s id = elim (Option-cases (lookup id s.nodes)) [
  | inl e ↦ rw (e, mark_dirty) (Kept-refl s)
  | inr (n, e) ↦ rw (e, mark_dirty) (mark_node-Kept s id n e)
]

-- A change of one node that keeps its flag.
pub put_node-Kept :
    (s : DemandState) (id : ℕ) (n m : Node)
    → lookup id s.nodes ≡ some n
    → m.is_dirty ≡ n.is_dirty
    → Kept s (put_node s id m)
put_node-Kept s id n m h e = record {
  inv_kept = λ v. same_flags s (put_node s id m) refl (put_node-flags s.nodes id n m h e) v;
  version_same = refl;
  lease_same = refl;
}
