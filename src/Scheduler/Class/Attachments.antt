-- ===== src/Scheduler/Class/Attachments.antt =====
-- src/scheduler.rs, `submit_payload_accounted` after the acceptance: the registration of a group member
-- and the selection of the demand graph.
use solworker.Prelude.{
  ℕ, ◌≡◌, refl, true, false, some, [], arith, inl, inr, Bool-cases, Option-cases, ==_iff,
}
use solworker.Demand.Selection.{Selection}
use solworker.Ready.Maps.{lookup, insert, lookup-insert}
use solworker.Scheduler.Class.{ClassState, Attachment, JobRecord, record_of, put_record}
use solworker.Scheduler.Class.Gate.{key_given, owe, register_member, select_now, attach_selection}
use solworker.Scheduler.Class.Promote.{is_newer}
use solworker.Scheduler.Class.Views.{has_rank, no_bad_rank, attached_ok, Sound}
use solworker.Scheduler.Class.Inv.{Inv, Move-Inv}
use solworker.Scheduler.Class.Activation.{Fine, Tweak, tweaked-Move}

abbrev attended : ClassState → ℕ → JobRecord → Attachment → ClassState
attended c id r a = record (put_record c id r) { attachments = insert id a c.attachments }

-- A submission changes the record of its attachment, and what it owes.
attended-Fine :
    (c : ClassState) (id : ℕ) (r s : JobRecord) (a : Attachment)
    → Inv [] c
    → record_of id c ≡ some r
    → Tweak r s
    → s.runnable_reserved ≡ r.runnable_reserved
    → attached_ok (some a) (some s) ≡ true
    → Fine c (attended c id s a)
unfolding put_record
attended-Fine c id r s a v was t same held =
    let d = attended c id s a in
    let m =
      tweaked-Move c d id r s v was t (ground arith) refl
        (λ j. ground (arith, lookup-insert id j a c.attachments, v.attached j, ==_iff id j)) in
    record { inv = Move-Inv [] [] c d id r s v m; handed_same = refl }

key_given-Fine :
    (c : ClassState) (id : ℕ) (a : Attachment)
    → Inv [] c
    → lookup id c.attachments ≡ some a
    → (d : ClassState) × (key_given c id a ≡ some d) × Fine c d
unfolding key_given put_record
key_given-Fine c id a v token = elim (Option-cases (record_of id c)) [
  | inl gone ↦ absurd (ground (arith, v.attached id))
  | inr (r, was) ↦
      let s = record r { registered = true } in
      let t : Tweak r s = record {
        sound = registered-Sound r (v.sound id r was);
        stage_same = refl;
        past_same = refl;
      } in
      (
        attended c id s (record a { owes_key = false }),
        rw (was, key_given),
        attended-Fine c id r s (record a { owes_key = false }) v was t refl
            (ground (arith, v.attached id)),
      )
]
  where
    registered-Sound : (r : JobRecord) → Sound r → Sound (record r { registered = true })
    registered-Sound r s = record {
      queued_closed = s.queued_closed;
      selected = s.selected;
      keyed = λ h k. refl;
      ranked = s.ranked;
      reserving = s.reserving;
      index_kept = s.index_kept;
      course_kept = s.course_kept;
    }

-- The registration of a member does not panic.
pub register_member-Fine :
    (c : ClassState) (id : ℕ)
    → Inv [] c
    → (d : ClassState) × (register_member c id ≡ some d) × Fine c d
unfolding register_member
register_member-Fine c id v = elim (Option-cases (lookup id c.attachments)) [
  | inl closed ↦ (c, rw (closed, register_member), record { inv = v; handed_same = refl })
  | inr (a, token) ↦ elim (Bool-cases a.owes_key) [
    | inr known ↦ (c, rw (token, register_member, known), record { inv = v; handed_same = refl })
    | inl owes ↦
        let (d, e, x) = key_given-Fine c id a v token in (d, ground (arith, token, owes, e), x)
  ]
]

abbrev reselect : JobRecord → Selection → JobRecord
reselect r s = record r { selection = some s }

selected-Tweak :
    (r : JobRecord) (s : Selection) → Sound r → has_rank (some s) ≡ true → Tweak r (reselect r s)
selected-Tweak r s v h = record {
  sound = record {
    queued_closed = v.queued_closed;
    selected = λ k j. h;
    keyed = v.keyed;
    ranked = h;
    reserving = v.reserving;
    index_kept = v.index_kept;
    course_kept = v.course_kept;
  };
  stage_same = refl;
  past_same = refl;
}

-- A selection that is not newer than the given one is there, and has a rank.
ranked_old :
    (r : JobRecord) (s : Selection)
    → no_bad_rank r.selection ≡ true
    → is_newer r.selection s ≡ false
    → has_rank r.selection ≡ true
unfolding is_newer
ranked_old r s k old = elim (Option-cases r.selection) [
  | inl e ↦ absurd (ground arith)
  | inr (x, e) ↦ ground arith
]

abbrev given : Attachment → Attachment
given a = record a { owes_selection = false }

-- Only what a submission owes changes.
tokened-Fine :
    (c : ClassState) (id : ℕ) (r : JobRecord) (a : Attachment)
    → Inv [] c
    → record_of id c ≡ some r
    → attached_ok (some a) (some r) ≡ true
    → Fine c (owe c id a)
unfolding record_of
tokened-Fine c id r a v was held = record {
  inv = record {
    ready_inv = v.ready_inv;
    deferred_inv = v.deferred_inv;
    ready_there = v.ready_there;
    deferred_there = v.deferred_there;
    runnable_counted = v.runnable_counted;
    attaching_counted = v.attaching_counted;
    slots_counted = v.slots_counted;
    unique = v.unique;
    known = v.known;
    sound = v.sound;
    settled = v.settled;
    settled_once = v.settled_once;
    unsettled = v.unsettled;
    updates_ranked = v.updates_ranked;
    attached = λ j.
        ground (arith, lookup-insert id j a c.attachments, v.attached j, was, held, ==_iff id j);
  };
  handed_same = refl;
}

selected-Fine :
    (c : ClassState) (id : ℕ) (a : Attachment) (r : JobRecord) (s : Selection)
    → Inv [] c
    → has_rank (some s) ≡ true
    → lookup id c.attachments ≡ some a
    → record_of id c ≡ some r
    → Fine c (owe (select_now c id s) id (given a))
unfolding select_now put_record
selected-Fine c id a r s v h token was = elim (Bool-cases (is_newer r.selection s)) [
  | inr old ↦
      let rank = ranked_old r s (v.sound id r was).ranked old in
      rw (was, select_now, old)
        (tokened-Fine c id r (given a) v was (ground (arith, v.attached id, rank)))
  | inl newer ↦
      rw (was, select_now, newer)
        (attended-Fine c id r (reselect r s) (given a) v was
          (selected-Tweak r s (v.sound id r was) h) refl (ground (arith, v.attached id, h)))
]

-- The selection of a registration has a rank.
pub attach_selection-Fine :
    (c : ClassState) (id : ℕ) (s : Selection)
    → Inv [] c
    → has_rank (some s) ≡ true
    → Fine c (attach_selection c id s)
unfolding attach_selection
attach_selection-Fine c id s v h = elim (Option-cases (lookup id c.attachments)) [
  | inl closed ↦ rw (closed, attach_selection) (record { inv = v; handed_same = refl })
  | inr (a, token) ↦ elim (Option-cases (record_of id c)) [
    | inl gone ↦ absurd (ground (arith, v.attached id))
    | inr (r, was) ↦ rw (token, attach_selection) (selected-Fine c id a r s v h token was)
  ]
]
