-- ===== src/Scheduler/Class/Resolution.antt =====
-- src/scheduler.rs, `activate_prerequisite` and `activate_prerequisite_range`: a prerequisite of one job or
-- of the members of a range is resolved.
use solworker.Prelude.{
  ℕ, ◌+◌, ◌≤◌, ◌≡◌, refl, Bool, true, false, Option, none, some, List, [], ◌∷◌, arith, inl, inr,
  Bool-cases, Option-cases, ==_iff, leb, ltb, length,
}
use solworker.Range.{quantum}
use solworker.Scheduler.Class.{
  ClassState, ClassLimits, JobRecord, waiting, TaskStatus, record_of, put_record,
}
use solworker.Ready.Maps.{lookup-insert}
use solworker.Scheduler.Class.Gate.{activate_record, awaits, count_prerequisite, prerequisite}
use solworker.Scheduler.Class.Settle.{
  count_key, activate_each, range_activation, range_member, activate_range,
}
use solworker.Scheduler.Class.Views.{in_stage, Sound}
use solworker.Scheduler.Class.Inv.{Inv, Move-Inv}
use solworker.Scheduler.Class.Activation.{
  Fine, Fine-trans, Tweak, tweaked-Move, activate_record-Fine,
}
use solworker.Scheduler.Class.Closing.{added}

counted-Tweak : (r : JobRecord) (success : Bool) → Sound r → Tweak r (count_prerequisite r success)
unfolding count_prerequisite
counted-Tweak r success s = record {
  sound = record {
    queued_closed = s.queued_closed;
    selected = s.selected;
    keyed = s.keyed;
    ranked = s.ranked;
    reserving = s.reserving;
    index_kept = s.index_kept;
    course_kept = s.course_kept;
  };
  stage_same = refl;
  past_same = refl;
}

put_counted-Fine :
    (c : ClassState) (id : ℕ) (r : JobRecord) (success : Bool)
    → Inv [] c
    → record_of id c ≡ some r
    → Fine c (put_record c id (count_prerequisite r success))
unfolding put_record count_prerequisite
put_counted-Fine c id r success v was =
    let s = count_prerequisite r success in
    let d = put_record c id s in
    let m =
      tweaked-Move c d id r s v was (counted-Tweak r success (v.sound id r was)) refl refl
        (λ j. ground (arith, v.attached j, was, ==_iff id j)) in
    record { inv = Move-Inv [] [] c d id r s v m; handed_same = refl }

-- The record part of `activate_prerequisite` keeps the invariant.
pub prerequisite-Fine :
    (c : ClassState) (id : ℕ) (success : Bool) → Inv [] c → Fine c (prerequisite c id success)
unfolding prerequisite
prerequisite-Fine c id success v = elim (Option-cases (record_of id c)) [
  | inl gone ↦ rw (gone, prerequisite) (record { inv = v; handed_same = refl })
  | inr (r, was) ↦ elim (Bool-cases (awaits r)) [
    | inr late ↦ rw (was, prerequisite, late) (record { inv = v; handed_same = refl })
    | inl waits ↦ rw (was, prerequisite, waits) (put_counted-Fine c id r success v was)
  ]
]

goes_on :
    (l : ClassLimits) (c : ClassState) (id : ℕ) (r : JobRecord)
    → r.attaching ≡ false
    → range_activation l c id r ≡ activate_record l c id r false
unfolding range_activation
goes_on l c id r h = ground arith

still_waits :
    (r : JobRecord) (success : Bool)
    → awaits r ≡ true
    → in_stage waiting (some (count_prerequisite r success)) ≡ true
unfolding awaits count_prerequisite
still_waits r success h = ground arith

range_activation-Fine :
    (l : ClassLimits) (c : ClassState) (id : ℕ) (r : JobRecord)
    → Inv [] c
    → record_of id c ≡ some r
    → in_stage waiting (some r) ≡ true
    → (d : ClassState) × (o : Option TaskStatus) × (range_activation l c id r ≡ some (d, o))
      × Fine c d
unfolding range_activation
range_activation-Fine l c id r v was stays = elim (Bool-cases r.attaching) [
  | inl e ↦ (c, none, rw (e, range_activation), record { inv = v; handed_same = refl })
  | inr shut ↦
      let (d, o, e, x) = activate_record-Fine l c id r false v was shut stays in
      (d, o, rw (goes_on l c id r shut) e, x)
]

put_now : (c : ClassState) (id : ℕ) (r : JobRecord) → record_of id (put_record c id r) ≡ some r
unfolding put_record record_of
put_now c id r = ground (arith, lookup-insert id id (some r) c.jobs, ==_iff id id)

range_member-Fine :
    (l : ClassLimits) (c : ClassState) (id : ℕ) (success : Bool)
    → Inv [] c
    → (d : ClassState) × (o : Option TaskStatus) × (range_member l c id success ≡ some (d, o))
      × Fine c d
unfolding range_member
range_member-Fine l c id success v = elim (Option-cases (record_of id c)) [
  | inl gone ↦ (c, none, rw (gone, range_member), record { inv = v; handed_same = refl })
  | inr (r, was) ↦ elim (Bool-cases (awaits r)) [
    | inr late ↦ (c, none, rw (was, range_member, late), record { inv = v; handed_same = refl })
    | inl waits ↦
        let s = count_prerequisite r success in
        let b = put_record c id s in
        let x = put_counted-Fine c id r success v was in
        let (d, o, e, y) =
          range_activation-Fine l b id s x.inv (put_now c id s) (still_waits r success waits) in
        (d, o, rw (was, range_member, waits) e, Fine-trans c b d x y)
  ]
]

count_key_le : (c d : ClassState) (id count : ℕ) → count_key c d id count ≤ count + 1
unfolding count_key
count_key_le c d id count = ground arith

activate_each-Fine :
    (l : ClassLimits) (c : ClassState) (ids : List ℕ) (success : Bool) (count : ℕ)
    → Inv [] c
    → length ids + count ≤ quantum
    → (d : ClassState) × (all : List (ℕ × TaskStatus)) × (activate_each l c ids success count
        ≡ some (d, all))
      × Fine c d
unfolding activate_each
activate_each-Fine l c [] success count v h = (c, [], refl, record { inv = v; handed_same = refl })
activate_each-Fine l c (id ∷ ids) success count v h =
    let (b, o, e, x) = range_member-Fine l c id success v in
    let k = count_key_le c b id count in
    let (d, more, f, y) =
      activate_each-Fine l b ids success (count_key c b id count) x.inv (omega (arith, h, k)) in
    let fits : ltb quantum (count_key c b id count) ≡ false = ground (arith, h, k) in
    let (all, g) = added id o d more in
    (d, all, rw (e, activate_each, fits, f) g, Fine-trans c b d x y)

-- The gate of `activate_prerequisite_range`, for a range of at most a quantum and from a class that
-- meets the invariant, does not panic.
pub activate_range-Fine :
    (l : ClassLimits) (c : ClassState) (ids : List ℕ) (success : Bool)
    → Inv [] c
    → leb (length ids) quantum ≡ true
    → (d : ClassState) × (all : List (ℕ × TaskStatus)) × (activate_range l c ids success
        ≡ some (d, all))
      × Fine c d
unfolding activate_range
activate_range-Fine l c ids success v h = activate_each-Fine l c ids success 0 v (ground arith)
