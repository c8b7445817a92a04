-- ===== src/Demand/Moves.antt =====
-- src/scheduler/demand.rs: the loops over the neighbours of a node keep the dirty queue in step.
use solworker.Prelude.{ℕ, refl, List, [], ◌∷◌, ◌++◌, inl, inr, Option-cases}
use solworker.Ready.Maps.{lookup}
use solworker.Demand.State.{DemandState, retain_others, mark_dirty}
use solworker.Demand.Graph.{
  push_child, drop_child, drop_parent, link_parents, unlink_parents, unlink_children, mark_all,
  tie_front, tie_back, drop_lease,
}
use solworker.Demand.Inv.{
  Kept, Kept-refl, Kept-trans, mark_dirty-Kept, put_node-Kept, put_node-flags, same_flags,
}

push_child-Kept : (s : DemandState) (id parent : ℕ) → Kept s (push_child s id parent)
unfolding push_child
push_child-Kept s id parent = elim (Option-cases (lookup parent s.nodes)) [
  | inl e ↦ rw (e, push_child) (Kept-refl s)
  | inr (n, e) ↦
      rw (e, push_child)
        (put_node-Kept s parent n (record n { children = n.children ++ id ∷ [] }) e refl)
]

drop_child-Kept : (s : DemandState) (id parent : ℕ) → Kept s (drop_child s id parent)
unfolding drop_child
drop_child-Kept s id parent = elim (Option-cases (lookup parent s.nodes)) [
  | inl e ↦ rw (e, drop_child) (Kept-refl s)
  | inr (n, e) ↦
      rw (e, drop_child)
        (put_node-Kept s parent n (record n { children = retain_others id n.children }) e refl)
]

drop_parent-Kept : (s : DemandState) (id child : ℕ) → Kept s (drop_parent s id child)
unfolding drop_parent
drop_parent-Kept s id child = elim (Option-cases (lookup child s.nodes)) [
  | inl e ↦ rw (e, drop_parent) (Kept-refl s)
  | inr (n, e) ↦
      rw (e, drop_parent)
        (put_node-Kept s child n (record n { parents = retain_others id n.parents }) e refl)
]

pub drop_lease-Kept : (s : DemandState) (id lease : ℕ) → Kept s (drop_lease s id lease)
unfolding drop_lease
drop_lease-Kept s id lease = elim (Option-cases (lookup id s.nodes)) [
  | inl e ↦ rw (e, drop_lease) (Kept-refl s)
  | inr (n, e) ↦
      rw (e, drop_lease)
        (put_node-Kept s id n (record n { attached = retain_others lease n.attached }) e refl)
]

pub tie_front-Kept : (s : DemandState) (id : ℕ) → Kept s (tie_front s id)
unfolding tie_front
tie_front-Kept s id = elim (Option-cases (lookup id s.nodes)) [
  | inl e ↦ rw (e, tie_front) (Kept-refl s)
  | inr (n, e) ↦
      rw (e, tie_front)
        (record {
          inv_kept = λ v.
              same_flags s _ refl
                (put_node-flags s.nodes id n
                  (record n { selection = record (n.selection) { tie = s.front } }) e refl)
                v;
          version_same = refl;
          lease_same = refl;
        })
]

pub tie_back-Kept : (s : DemandState) (id : ℕ) → Kept s (tie_back s id)
unfolding tie_back
tie_back-Kept s id = elim (Option-cases (lookup id s.nodes)) [
  | inl e ↦ rw (e, tie_back) (Kept-refl s)
  | inr (n, e) ↦
      rw (e, tie_back)
        (record {
          inv_kept = λ v.
              same_flags s _ refl
                (put_node-flags s.nodes id n
                  (record n { selection = record (n.selection) { tie = s.back } }) e refl)
                v;
          version_same = refl;
          lease_same = refl;
        })
]

pub link_parents-Kept : (s : DemandState) (id : ℕ) (ps : List ℕ) → Kept s (link_parents s id ps)
unfolding link_parents
link_parents-Kept s id [] = Kept-refl s
link_parents-Kept s id (p ∷ ps) =
    Kept-trans _ _ _
      (Kept-trans _ _ _ (push_child-Kept s id p) (mark_dirty-Kept (push_child s id p) p))
      (link_parents-Kept (mark_dirty (push_child s id p) p) id ps)

pub unlink_parents-Kept : (s : DemandState) (id : ℕ) (ps : List ℕ) → Kept s (unlink_parents s id ps)
unfolding unlink_parents
unlink_parents-Kept s id [] = Kept-refl s
unlink_parents-Kept s id (p ∷ ps) =
    Kept-trans _ _ _
      (Kept-trans _ _ _ (drop_child-Kept s id p) (mark_dirty-Kept (drop_child s id p) p))
      (unlink_parents-Kept (mark_dirty (drop_child s id p) p) id ps)

pub unlink_children-Kept :
    (s : DemandState) (id : ℕ) (cs : List ℕ) → Kept s (unlink_children s id cs)
unfolding unlink_children
unlink_children-Kept s id [] = Kept-refl s
unlink_children-Kept s id (c ∷ cs) =
    Kept-trans _ _ _ (drop_parent-Kept s id c) (unlink_children-Kept (drop_parent s id c) id cs)

pub mark_all-Kept : (s : DemandState) (ps : List ℕ) → Kept s (mark_all s ps)
unfolding mark_all
mark_all-Kept s [] = Kept-refl s
mark_all-Kept s (p ∷ ps) =
    Kept-trans _ _ _ (mark_dirty-Kept s p) (mark_all-Kept (mark_dirty s p) ps)
