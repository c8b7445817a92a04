-- ===== src/Demand/Served.antt =====
-- src/scheduler/demand.rs, `service`: it keeps the dirty queue in step, within its budget.
use solworker.Prelude.{
  ℕ, zero, suc, ◌+◌, ◌≤◌, ◌<◌, ◌≡◌, refl, true, false, Option, none, some, List, [], ◌∷◌, ◌++◌,
  arith, ◌==◌, ==_iff, ==-refl, inl, inr, Bool-cases, Option-cases, word_mod, checked_add, subst,
}
use solworker.Ready.Maps.{lookup, insert, lookup-insert}
use solworker.Demand.Selection.{Selection}
use solworker.Demand.State.{DemandState, Node, DemandChange, has_id, put_node}
use solworker.Demand.Service.{
  aggregate, publish, visit, visit_id, service, is_settled, next_selection,
}
use solworker.Demand.Inv.{Inv, NoDup, marked}
use solworker.Demand.Moves.{mark_all-Kept}

-- The state while a node that left the queue is visited.
record Visiting (s : DemandState) (id : ℕ) : Type 0 where
  others : (j : ℕ) → (id == j) ≡ false → has_id j s.dirty ≡ marked j s.nodes
  out : has_id id s.dirty ≡ false
  once : NoDup s.dirty

popped-Visiting :
    (s : DemandState) (id : ℕ) (rest : List ℕ)
    → s.dirty ≡ id ∷ rest
    → Inv s
    → Visiting (record s { dirty = rest }) id
unfolding has_id
popped-Visiting s id rest e v =
    let d : NoDup (id ∷ rest) = subst NoDup e v.once in
    record { others = λ j k. ground (arith, v.agrees j); out = d.0; once = d.1 }

visited-Inv :
    (s : DemandState) (id version : ℕ) (m : Node)
    → m.is_dirty ≡ false
    → Visiting s id
    → Inv (record s { nodes = insert id m s.nodes; version = version })
unfolding marked
visited-Inv s id version m clean w = record {
  agrees = λ j. ground (arith, lookup-insert id j m s.nodes, w.others j, w.out, ==_iff id j);
  once = w.once;
}

-- The invariant holds after it, and it used at most so many versions.
record Served (s t : DemandState) (versions : ℕ) : Type 0 where
  inv : Inv t
  version_le : t.version ≤ s.version + versions
  lease_same : t.next_lease ≡ s.next_lease

published-Served :
    (s : DemandState) (id : ℕ) (n : Node) (selection : Selection)
    → Visiting s id
    → Served s (publish s id n selection (s.version + 1)) 1
unfolding publish
published-Served s id n selection w =
    let m = record n {
      is_dirty = false;
      selection = selection;
      published = true;
      published_tie = selection.tie;
    } in
    let first = record s { nodes = insert id m s.nodes; version = s.version + 1 } in
    let k = mark_all-Kept first n.parents in
    record {
      inv = k.inv_kept (visited-Inv s id (s.version + 1) m refl w);
      version_le = omega (arith, k.version_same);
      lease_same = k.lease_same;
    }

abbrev Visits : DemandState → Option (DemandState × List DemandChange) → Type 0
Visits s o =
    (t : DemandState) × (changes : List DemandChange) × (o ≡ some (t, changes)) × Served s t 1

visit-Served :
    (s : DemandState) (id : ℕ) (n : Node)
    → s.version + 1 < word_mod
    → Visiting s id
    → Visits s (visit s id n)
unfolding visit
visit-Served s id n h w = elim (Bool-cases (is_settled n (aggregate s n))) [
  | inl settled ↦ (
    put_node s id (record n { is_dirty = false }),
    [],
    rw (settled, visit),
    record {
      inv = visited-Inv s id s.version (record n { is_dirty = false }) refl w;
      version_le = omega arith;
      lease_same = refl;
    },
  )
  | inr unsettled ↦
      let e : checked_add s.version 1 ≡ some (s.version + 1) = ground arith in
      (
        publish s id n (next_selection s n (aggregate s n)) (s.version + 1),
        record {
          changed_id = id;
          changed_selection = next_selection s n (aggregate s n);
          changed_provider = n.provider;
        }
            ∷ [],
        rw (unsettled, e, visit),
        published-Served s id n _ w,
      )
]

unmarked : (nodes : List (ℕ × Node)) (id : ℕ) → lookup id nodes ≡ none → marked id nodes ≡ false
unfolding marked
unmarked nodes id f = ground arith

head_queued : (id : ℕ) (rest : List ℕ) → has_id id (id ∷ rest) ≡ true
unfolding has_id
head_queued id rest = ground (arith, ==-refl id)

visit_id-Served :
    (s : DemandState) (id : ℕ) (rest : List ℕ)
    → s.version + 1 < word_mod
    → s.dirty ≡ id ∷ rest
    → Inv s
    → Visits s (visit_id (record s { dirty = rest }) id)
unfolding visit_id
visit_id-Served s id rest h e v = elim (Option-cases (lookup id s.nodes)) [
  | inl f ↦ absurd (ground (arith, gone_marked f, v.agrees id, first_queued))
  | inr (n, f) ↦
      let (t, c, k, w) =
        visit-Served (record s { dirty = rest }) id n h (popped-Visiting s id rest e v) in
      (
        t,
        c,
        rw (f, visit_id) k,
        record { inv = w.inv; version_le = w.version_le; lease_same = w.lease_same },
      )
]
  where
    gone_marked : lookup id s.nodes ≡ none → marked id s.nodes ≡ false
    gone_marked f = unmarked s.nodes id f

    first_queued : has_id id s.dirty ≡ true
    first_queued = rw e (head_queued id rest)

-- A service of a budget that the versions have room for does not panic, keeps the dirty queue in
-- step with the flags, uses at most as many versions as its budget and makes no lease.
pub service-Inv :
    (budget : ℕ) (s : DemandState)
    → s.version + budget < word_mod
    → Inv s
    → (t : DemandState) × (changes : List DemandChange) × (service budget s ≡ some (t, changes))
      × Inv t
      × (t.version ≤ s.version + budget)
      × (t.next_lease ≡ s.next_lease)
unfolding service
service-Inv zero s h v = (s, [], refl, v, omega arith, refl)
service-Inv (suc budget) s h v = go s.dirty refl (λ t k i. service-Inv budget t k i)
  where
    go :
        (d : List ℕ)
        → s.dirty ≡ d
        → ((t : DemandState)
            → t.version + budget < word_mod
            → Inv t
            → (u : DemandState) × (changes : List DemandChange) × (service budget t
                ≡ some (u, changes))
              × Inv u
              × (u.version ≤ t.version + budget)
              × (u.next_lease ≡ t.next_lease))
        → (t : DemandState) × (changes : List DemandChange) × (service (suc budget) s
            ≡ some (t, changes))
          × Inv t
          × (t.version ≤ s.version + suc budget)
          × (t.next_lease ≡ s.next_lease)
    go [] e ih = (s, [], ground arith, v, omega arith, refl)
    go (id ∷ rest) e ih =
        let (t, c, f, w) = visit_id-Served s id rest (omega arith) e v in
        let (u, more, g, i, le, same) = ih t (omega (arith, w.version_le)) w.inv in
        (
          u,
          c ++ more,
          rw (e, f, g, service),
          i,
          omega (arith, w.version_le, le),
          omega (arith, same, w.lease_same),
        )
