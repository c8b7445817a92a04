-- ===== src/Scheduler/Class/Window.antt =====
-- src/scheduler.rs, the loop of `promote_locked` that fills the runnable window from the deferred queue.
use solworker.Prelude.{
  ℕ, zero, suc, ◌+◌, ◌≤◌, ◌<◌, ◌≡◌, refl, ◌∙◌, true, false, Option, none, some, List, [], ◌∷◌,
  arith, inl, inr, Bool-cases, Option-cases, length, ◌⊎◌, max,
}
use solworker.Ready.Maps.{lookup, remove}
use solworker.Ready.Queue.{PendingQueue, Entry, pop}
use solworker.Ready.Queue.Inv.{Inv as QueueInv}
use solworker.Ready.Queue.Members.{has, has-remove_id, Popped, pop-Popped}
use solworker.Ready.Queue.Removal.{remove_id-Inv, entries-remove_id}
use solworker.Scheduler.Class.{
  ClassState, ClassLimits, JobRecord, Stage, ready, deferred_ready, record_of, put_record,
  indexed_as,
}
use solworker.Scheduler.Class.Promote.{admit, admit_record, fill, has_room, entries_of}
use solworker.Scheduler.Class.Views.{in_stage}
use solworker.Scheduler.Class.Inv.{Inv, Move-Inv, Tame, put-Tame}
use solworker.Scheduler.Class.Enter.{
  index_group_closed, ready_with, enqueue_ready_lem, enter_ready-Move,
}

pub record_in :
    (o : Option JobRecord) (s : Stage)
    → in_stage s o ≡ true
    → (r : JobRecord) × (o ≡ some r) × (in_stage s (some r) ≡ true)
record_in none s h = absurd (ground arith)
record_in (some r) s h = (r, refl, h)

length-remove_le {ℓ} : {V : Type ℓ} (id : ℕ) (m : List (ℕ × V)) → length (remove id m) ≤ length m
unfolding remove
length-remove_le id [] = omega arith
length-remove_le id ((j, e) ∷ m) = ground (arith, length-remove_le id m)

fewer :
    (id : ℕ) (m : List (ℕ × Entry)) (e : Entry)
    → lookup id m ≡ some e
    → length (remove id m) < length m
unfolding remove lookup
fewer id [] e h = absurd (ground arith)
fewer id ((j, x) ∷ m) e h = ground (arith, fewer id m e, length-remove_le id m)

pub pop-fewer :
    (q r : PendingQueue) (id : ℕ) → QueueInv q → pop q ≡ some (id, r) → entries_of r < entries_of q
unfolding entries_of has
pop-fewer q r id v h =
    let p = pop-Popped q r id v h in
    rw (p.left, entries-remove_id q id)
      (elim (Option-cases (lookup id q.entries)) [
        | inl e ↦ absurd (ground (arith, p.member))
        | inr (x, e) ↦ fewer id q.entries x e
      ])

-- What a step of the window leaves as it was.
pub record Same (c d : ClassState) : Type 0 where
  pub handed_same : d.ready_queue.handed_off ≡ c.ready_queue.handed_off
  pub slots_same : d.slots ≡ c.slots
  pub attaching_same : d.attaching_runnable ≡ c.attaching_runnable
  pub next_same : d.next_id ≡ c.next_id
  pub outcomes_same : d.outcomes ≡ c.outcomes
  pub abandoned_same : d.is_abandoned ≡ c.is_abandoned
  pub tame : Tame c d

pub Same-trans : (a b c : ClassState) → Same a b → Same b c → Same a c
Same-trans a b c s t = record {
  handed_same = ground (arith, s.handed_same, t.handed_same);
  slots_same = ground (arith, s.slots_same, t.slots_same);
  attaching_same = ground (arith, s.attaching_same, t.attaching_same);
  next_same = ground (arith, s.next_same, t.next_same);
  outcomes_same = ground (arith, s.outcomes_same, t.outcomes_same);
  abandoned_same = ground (arith, s.abandoned_same, t.abandoned_same);
  tame = λ j. t.tame j ∙ s.tame j;
}

pub Same-fields :
    (c d : ClassState)
    → (d.ready_queue.handed_off ≡ c.ready_queue.handed_off)
      × (d.slots ≡ c.slots)
      × (d.attaching_runnable ≡ c.attaching_runnable)
      × (d.next_id ≡ c.next_id)
      × (d.outcomes ≡ c.outcomes)
      × (d.is_abandoned ≡ c.is_abandoned)
    → Tame c d
    → Same c d
Same-fields c d (h, s, a, n, o, b) t = record {
  handed_same = h;
  slots_same = s;
  attaching_same = a;
  next_same = n;
  outcomes_same = o;
  abandoned_same = b;
  tame = t;
}

pub Same-refl : (a : ClassState) → Same a a
Same-refl a = Same-fields a a (refl, refl, refl, refl, refl, refl) (λ j. refl)

-- One admission from the front of the deferred queue.
record Admitted (c d : ClassState) (q : PendingQueue) : Type 0 where
  inv : Inv [] d
  same : Same c d
  deferred_left : d.deferred ≡ q
  one_more : d.ready_queue.runnable ≡ c.ready_queue.runnable + 1

index_course : (r : JobRecord) → (indexed_as r ready).course ≡ r.course
unfolding indexed_as
index_course r = refl

admit_known :
    (c : ClassState) (id : ℕ) (q : PendingQueue) (r : JobRecord)
    → Inv [] c
    → Popped c.deferred id q
    → record_of id c ≡ some r
    → in_stage deferred_ready (some r) ≡ true
    → (d : ClassState) × (admit (record c { deferred = q }) id ≡ some d) × Admitted c d q
unfolding admit admit_record put_record record_of
admit_known c id q r v p was stays =
    let now : record_of id (record c { deferred = q }) ≡ some r = was in
    let shut : r.attaching ≡ false = (v.sound id r was).queued_closed (ground arith) in
    let b = put_record (record c { deferred = q }) id (indexed_as r ready) in
    let absent : has id c.ready_queue.pending ≡ false = ground (arith, v.ready_there id) in
    let (grown, e, g) =
      enqueue_ready_lem b id r (λ k. (v.sound id r was).selected k shut) v.ready_inv absent in
    (
      ready_with b grown,
      rw (now, admit, admit_record, stays, index_group_closed r ready (v.sound id r was) shut) e,
      record {
        inv = Move-Inv [] [] c (ready_with b grown) id r (indexed_as r ready) v (
            enter_ready-Move [] c b (ready_with b grown) id r grown v was shut
              (ground (arith, stays)) refl refl
              (rw p.left (remove_id-Inv c.deferred id v.deferred_inv))
              (λ j. rw p.left (ground (arith, has-remove_id c.deferred id j)))
              (refl, refl, refl, refl, refl, refl) g refl);
        same =
            Same-fields c (ready_with b grown) (refl, refl, refl, refl, refl, refl)
              (put-Tame c (ready_with b grown) id r (indexed_as r ready) was (index_course r) refl);
        deferred_left = refl;
        one_more = refl;
      },
    )

admit_lem :
    (c : ClassState) (id : ℕ) (q : PendingQueue)
    → Inv [] c
    → pop c.deferred ≡ some (id, q)
    → (d : ClassState) × (admit (record c { deferred = q }) id ≡ some d) × Admitted c d q
admit_lem c id q v h =
    let p = pop-Popped c.deferred q id v.deferred_inv h in
    let (r, was, stays) =
      record_in (record_of id c) deferred_ready (ground (arith, v.deferred_there id, p.member)) in
    admit_known c id q r v p was stays

-- The window after the loop.
pub record Filled (l : ClassLimits) (c d : ClassState) : Type 0 where
  pub inv : Inv [] d
  pub same : Same c d
  pub conserving : (has_room l d ≡ false) ⊎ (pop d.deferred ≡ none)
  pub bounded :
      d.ready_queue.runnable + d.attaching_runnable
      ≤ max l.runnable_limit (c.ready_queue.runnable + c.attaching_runnable)

within :
    (l : ClassLimits) (c b d : ClassState)
    → has_room l c ≡ true
    → b.ready_queue.runnable ≡ c.ready_queue.runnable + 1
    → Same c b
    → d.ready_queue.runnable + d.attaching_runnable
      ≤ max l.runnable_limit (b.ready_queue.runnable + b.attaching_runnable)
    → d.ready_queue.runnable + d.attaching_runnable
      ≤ max l.runnable_limit (c.ready_queue.runnable + c.attaching_runnable)
unfolding has_room
within l c b d room one same h = ground (arith, same.attaching_same)

pub fill-Filled :
    (fuel : ℕ) (l : ClassLimits) (c : ClassState)
    → Inv [] c
    → entries_of c.deferred < fuel
    → (d : ClassState) × (fill fuel l c ≡ some d) × Filled l c d
unfolding fill
fill-Filled zero l c v h = absurd (omega arith)
fill-Filled (suc fuel) l c v h = elim (Bool-cases (has_room l c)) [
  | inr full ↦ (
    c,
    rw (full, fill),
    record { inv = v; same = Same-refl c; conserving = inl full; bounded = ground arith },
  )
  | inl room ↦ elim (Option-cases (pop c.deferred)) [
    | inl nothing ↦ (
      c,
      rw (room, fill, nothing),
      record { inv = v; same = Same-refl c; conserving = inr nothing; bounded = ground arith },
    )
    | inr ((id, q), e) ↦
        let (b, f, a) = admit_lem c id q v e in
        let less : entries_of b.deferred < fuel =
          rw a.deferred_left (omega (arith, pop-fewer c.deferred q id v.deferred_inv e)) in
        let (d, g, w) = fill-Filled fuel l b a.inv less in
        (
          d,
          rw (room, fill, e, f, g),
          record {
            inv = w.inv;
            same = Same-trans c b d a.same w.same;
            conserving = w.conserving;
            bounded = within l c b d room a.one_more a.same w.bounded;
          },
        )
  ]
]
