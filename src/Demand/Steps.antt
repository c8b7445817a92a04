-- ===== src/Demand/Steps.antt =====
-- src/scheduler/demand.rs: the operations of the graph keep the dirty queue in step.
use solworker.Prelude.{
  ℕ, ◌+◌, ◌≤◌, ◌<◌, ◌≡◌, refl, Bool, true, false, not, Option, none, some, List, [], ◌∷◌, ◌++◌,
  arith, ==_iff, if◌then◌else◌, inl, inr, Option-cases, word_mod, checked_add, length, leb,
}
use solworker.Prelude.Int.{next}
use solworker.Ready.Maps.{lookup, insert, remove, lookup-insert, lookup-remove}
use solworker.Demand.State.{
  DemandState, Node, Lease, DemandCommand, promote, refresh, defer, detach, retain_others, Outcome,
  done, refused, contains,
}
use solworker.Demand.Graph.{
  unlink_parents, remove_leases, link_parents, new_node, register_node, register, remove_node,
  remove_id, attach_lease, attach, change_lease, change, unknown_baseline, unknown_refresh,
  known_ids,
}
use solworker.Demand.Inv.{
  Inv, Kept, Kept-refl, Kept-trans, mark_dirty-Kept, put_node-flags, same_flags, marked,
  has_id-retain_others, NoDup-retain_others,
}
use solworker.Demand.Moves.{
  link_parents-Kept, unlink_parents-Kept, unlink_children-Kept, tie_front-Kept, tie_back-Kept,
  drop_lease-Kept,
}

-- The invariant holds after it, and it used at most so many versions and one lease identity.
pub record Moved (s t : DemandState) (versions : ℕ) : Type 0 where
  pub inv : Inv t
  pub version_le : t.version ≤ s.version + versions
  pub lease_le : t.next_lease ≤ s.next_lease + 1

fresh_node-Inv :
    (s : DemandState) (id : ℕ) (n : Node) (version : ℕ)
    → lookup id s.nodes ≡ none
    → n.is_dirty ≡ false
    → Inv s
    → Inv (record s { nodes = insert id n s.nodes; back = next s.back; version = version })
unfolding marked
fresh_node-Inv s id n version new clean v = record {
  agrees = λ j. ground (arith, lookup-insert id j n s.nodes, v.agrees j, ==_iff id j);
  once = v.once;
}

register_node-Moved :
    (s : DemandState) (id : ℕ) (n : Node)
    → lookup id s.nodes ≡ none
    → n.is_dirty ≡ false
    → Inv s
    → Moved s (register_node s id n (s.version + 1)) 1
unfolding register_node
register_node-Moved s id n new clean v =
    let first = record s {
      nodes = insert id n s.nodes;
      back = next s.back;
      version = s.version + 1;
    } in
    let linked = link_parents first id n.parents in
    let k = Kept-trans _ _ _ (link_parents-Kept first id n.parents) (mark_dirty-Kept linked id) in
    record {
      inv = k.inv_kept (fresh_node-Inv s id n (s.version + 1) new clean v);
      version_le = omega (arith, k.version_same);
      lease_le = omega (arith, k.lease_same);
    }

remove_first-Inv :
    (s : DemandState) (id : ℕ) (leases : List (ℕ × Lease))
    → Inv s
    → Inv
        (record s { nodes = remove id s.nodes; dirty = retain_others id s.dirty; leases = leases })
unfolding marked
remove_first-Inv s id leases v = record {
  agrees = λ j.
      ground (arith, has_id-retain_others j id s.dirty, lookup-remove id j s.nodes, v.agrees j);
  once = NoDup-retain_others id s.dirty v.once;
}

remove_node-Moved : (s : DemandState) (id : ℕ) (n : Node) → Inv s → Moved s (remove_node s id n) 0
unfolding remove_node
remove_node-Moved s id n v =
    let first = record s {
      nodes = remove id s.nodes;
      dirty = retain_others id s.dirty;
      leases = remove_leases n.attached s.leases;
    } in
    let k =
      Kept-trans _ _ _ (unlink_parents-Kept first id n.parents)
        (unlink_children-Kept (unlink_parents first id n.parents) id n.children) in
    record {
      inv = k.inv_kept (remove_first-Inv s id (remove_leases n.attached s.leases) v);
      version_le = omega (arith, k.version_same);
      lease_le = omega (arith, k.lease_same);
    }

unmoved : (s : DemandState) (k : ℕ) → Inv s → Moved s s k
unmoved s k v = record { inv = v; version_le = omega arith; lease_le = omega arith }

pub remove_id-Moved : (s : DemandState) (id : ℕ) → Inv s → Moved s (remove_id s id) 0
unfolding remove_id
remove_id-Moved s id v = elim (Option-cases (lookup id s.nodes)) [
  | inl e ↦ rw (e, remove_id) (unmoved s 0 v)
  | inr (n, e) ↦ rw (e, remove_id) (remove_node-Moved s id n v)
]

attach_lease-Moved :
    (s : DemandState) (id : ℕ) (n : Node) (priority : ℕ)
    → lookup id s.nodes ≡ some n
    → Inv s
    → Moved s (attach_lease s id n priority (s.next_lease + 1)) 0
unfolding attach_lease
attach_lease-Moved s id n priority e v =
    let m = record n { attached = n.attached ++ s.next_lease ∷ [] } in
    let first = record s {
      nodes = insert id m s.nodes;
      leases =
          insert s.next_lease
            (record { lease_node = id; lease_priority = priority; is_active = true }) s.leases;
      next_lease = s.next_lease + 1;
    } in
    let k = mark_dirty-Kept first id in
    record {
      inv = k.inv_kept (same_flags s first refl (put_node-flags s.nodes id n m e refl) v);
      version_le = omega (arith, k.version_same);
      lease_le = omega (arith, k.lease_same);
    }

change_lease-Kept :
    (s : DemandState) (lease : ℕ) (l : Lease) (command : DemandCommand)
    → Kept s (change_lease s lease l command)
unfolding change_lease
change_lease-Kept s lease l promote = tie_front-Kept s l.lease_node
change_lease-Kept s lease l (refresh priority) =
    let first = record s {
      leases = insert lease (record l { lease_priority = priority; is_active = true }) s.leases;
    } in
    either _ s _ (Kept-refl s) (
      Kept-trans s first _
        (record {
          inv_kept = λ v. same_flags s first refl (λ j. refl) v;
          version_same = refl;
          lease_same = refl;
        })
        (tie_back-Kept first l.lease_node))
  where
    either : (b : Bool) (x y : DemandState) → Kept s x → Kept s y → Kept s (if b then y else x)
    either true x y a c = c
    either false x y a c = a
change_lease-Kept s lease l defer = record {
  inv_kept = λ v. same_flags s _ refl (λ j. refl) v;
  version_same = refl;
  lease_same = refl;
}
change_lease-Kept s lease l detach =
    let first = record s { leases = remove lease s.leases } in
    Kept-trans s first _
      (record {
        inv_kept = λ v. same_flags s first refl (λ j. refl) v;
        version_same = refl;
        lease_same = refl;
      })
      (drop_lease-Kept first l.lease_node lease)

-- Outcomes whose state, if there is one, keeps the invariant; no panic.
pub data IsSafe (s : DemandState) (versions : ℕ) : Outcome → Type 0 where
  moved : (t : DemandState) → Moved s t versions → IsSafe s versions (done t)
  turned_away : (e : _) → IsSafe s versions (refused e)

if-IsSafe :
    (s : DemandState) (k : ℕ) (b : Bool) (x y : Outcome)
    → IsSafe s k x
    → IsSafe s k y
    → IsSafe s k (if b then x else y)
if-IsSafe s k true x y a c = a
if-IsSafe s k false x y a c = c

pub register-IsSafe :
    (s : DemandState) (id : ℕ) (baseline : Option ℕ) (prerequisites : List ℕ) (provider : Option ℕ)
    → lookup id s.nodes ≡ none
    → s.version + 1 < word_mod
    → Inv s
    → IsSafe s 1 (register s id baseline prerequisites provider)
unfolding register
register-IsSafe s id baseline prerequisites provider new h v =
    let e : checked_add s.version 1 ≡ some (s.version + 1) = ground arith in
    rw (e, register)
      (if-IsSafe s 1 (unknown_baseline s baseline) _ _ (turned_away _) (
        moved _ (
          register_node-Moved s id (new_node s baseline (known_ids s.nodes prerequisites) provider)
            new refl v)))

pub attach-IsSafe :
    (s : DemandState) (id priority : ℕ)
    → s.next_lease + 1 < word_mod
    → Inv s
    → IsSafe s 0 (attach s id priority)
unfolding attach
attach-IsSafe s id priority h v =
    let e : checked_add s.next_lease 1 ≡ some (s.next_lease + 1) = ground arith in
    elim (Option-cases (lookup id s.nodes)) [
      | inl f ↦
          rw (f, attach)
            (if-IsSafe s 0 (not (contains s priority)) _ _ (turned_away _) (turned_away _))
      | inr (n, f) ↦
          rw (f, e, attach)
            (if-IsSafe s 0 (not (contains s priority)) _ _ (turned_away _) (
              if-IsSafe s 0 (leb s.lease_limit (length s.leases)) _ _ (turned_away _)
                (moved _ (attach_lease-Moved s id n priority f v))))
    ]

pub change-IsSafe :
    (s : DemandState) (lease : ℕ) (command : DemandCommand)
    → Inv s
    → IsSafe s 0 (change s lease command)
unfolding change
change-IsSafe s lease command v = elim (Option-cases (lookup lease s.leases)) [
  | inl f ↦
      rw (f, change) (if-IsSafe s 0 (unknown_refresh s command) _ _ (turned_away _) (turned_away _))
  | inr (l, f) ↦
      let k =
        Kept-trans _ _ _ (change_lease-Kept s lease l command)
          (mark_dirty-Kept (change_lease s lease l command) l.lease_node) in
      rw (f, change)
        (if-IsSafe s 0 (unknown_refresh s command) _ _ (turned_away _) (
          moved _ (record {
            inv = k.inv_kept v;
            version_le = omega (arith, k.version_same);
            lease_le = omega (arith, k.lease_same);
          })))
]
