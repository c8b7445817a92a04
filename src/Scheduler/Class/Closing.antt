-- ===== src/Scheduler/Class/Closing.antt =====
-- src/scheduler.rs and src/scheduler/bulk.rs: the end of attachments and the activation of the
-- members of a portion.
use solworker.Prelude.{
  ℕ, ◌+◌, ◌-◌, ◌≤◌, ◌≡◌, refl, Bool, true, false, Option, none, some, List, [], ◌∷◌, if◌then◌else◌,
  arith, inl, inr, Bool-cases, Option-cases, ◌==◌, ==_iff, leb, length,
}
use solworker.Range.{quantum}
use solworker.Scheduler.Class.{
  ClassState, Attachment, ClassLimits, JobRecord, Stage, waiting, ready, deferred_ready, handed,
  running, finalizing, Course, untouched, settling, returned, deferred_finish, finishing,
  TaskStatus, run, suppress, record_of, put_record,
}
use solworker.Ready.Maps.{lookup, remove, lookup-remove}
use solworker.Scheduler.Class.Settle.{
  close_attachment, close_record, closed_course, unreserve, close_here, may_close, add_status,
  publish_member, publish_each, publish_portion,
}
use solworker.Scheduler.Class.Views.{reserved_weight, is_past, attached_ok, fits_course, Sound}
use solworker.Scheduler.Class.Inv.{Inv, Move-Inv}
use solworker.Scheduler.Class.Repair.{counted}
use solworker.Scheduler.Class.Activation.{Fine, Fine-trans, Tweak, tweaked-Move, activate_here-Fine}

closed_fits :
    (stage : Stage) (attaching : Bool) (course : Course)
    → fits_course stage attaching course ≡ true
    → (fits_course stage false (closed_course course) ≡ true)
      × (is_past (closed_course course) ≡ is_past course)
unfolding closed_course
closed_fits waiting a untouched h = (refl, refl)
closed_fits deferred_ready a untouched h = (refl, refl)
closed_fits ready a untouched h = (refl, refl)
closed_fits handed a untouched h = (refl, refl)
closed_fits running a (settling run) h = (refl, refl)
closed_fits running a returned h = (refl, refl)
closed_fits finalizing a (settling (suppress status)) h = (refl, refl)
closed_fits finalizing a returned h = (refl, refl)
closed_fits finalizing a deferred_finish h = (refl, refl)
closed_fits finalizing a finishing h = (refl, refl)
closed_fits _ a _ h = absurd (ground arith)

close_record-Tweak :
    (r : JobRecord) (a : Attachment)
    → Sound r
    → attached_ok (some a) (some r) ≡ true
    → may_close a ≡ true
    → Tweak r (close_record r)
unfolding close_record may_close
close_record-Tweak r a s held h =
    let (fits, past) = closed_fits r.stage r.attaching r.course s.course_kept in
    record {
      sound = record {
        queued_closed = λ k. refl;
        selected = λ k j. ground (arith, held);
        keyed = λ k j. ground (arith, held);
        ranked = s.ranked;
        reserving = λ k. absurd (ground arith);
        index_kept = s.index_kept;
        course_kept = fits;
      };
      stage_same = refl;
      past_same = past;
    }

-- The class after the end of an attachment.
abbrev given_up : ClassState → ℕ → JobRecord → ClassState
given_up c id r = record (put_record c id (close_record r)) {
  attachments = remove id c.attachments;
}

abbrev closed_with : ClassState → ℕ → JobRecord → ℕ → ClassState
closed_with c id r n = record (given_up c id r) { attaching_runnable = n }

closed-Fine :
    (c : ClassState) (id : ℕ) (r : JobRecord) (a : Attachment) (n : ℕ)
    → Inv [] c
    → record_of id c ≡ some r
    → attached_ok (some a) (some r) ≡ true
    → may_close a ≡ true
    → n + reserved_weight (some r) ≡ c.attaching_runnable
    → Fine c (closed_with c id r n)
unfolding put_record close_record
closed-Fine c id r a n v was held h count =
    let d = closed_with c id r n in
    let m =
      tweaked-Move c d id r (close_record r) v was
        (close_record-Tweak r a (v.sound id r was) held h) (omega (arith, count)) refl
        (λ j. ground (arith, lookup-remove id j c.attachments, v.attached j, ==_iff id j)) in
    record { inv = Move-Inv [] [] c d id r (close_record r) v m; handed_same = refl }

unreserved :
    (c : ClassState) (id : ℕ) (r : JobRecord) (reserved : Bool)
    → (if reserved then 1 else 0) ≤ c.attaching_runnable
    → (n : ℕ) × (unreserve (given_up c id r) reserved ≡ some (closed_with c id r n))
      × (n + (if reserved then 1 else 0) ≡ c.attaching_runnable)
unfolding unreserve put_record
unreserved c id r false h = (c.attaching_runnable, refl, omega arith)
unreserved c id r true h =
    let busy : (c.attaching_runnable == 0) ≡ false = ground arith in
    (c.attaching_runnable - 1, rw busy, omega (arith, h))

close_here-Fine :
    (c : ClassState) (id : ℕ) (a : Attachment)
    → Inv [] c
    → lookup id c.attachments ≡ some a
    → may_close a ≡ true
    → (d : ClassState) × (close_here c id ≡ some d) × Fine c d
unfolding close_here
close_here-Fine c id a v token may = elim (Option-cases (record_of id c)) [
  | inl gone ↦ absurd (ground (arith, v.attached id))
  | inr (r, was) ↦
      let held : reserved_weight (some r) ≤ c.attaching_runnable =
        rw v.attaching_counted (counted reserved_weight c id r refl was) in
      let (n, e, count) = unreserved c id r r.runnable_reserved held in
      (
        closed_with c id r n,
        rw (was, close_here) e,
        closed-Fine c id r a n v was (ground (arith, v.attached id)) may count,
      )
]

-- The end of an attachment, from a class that meets the invariant, does not panic.
pub close_attachment-Fine :
    (c : ClassState) (id : ℕ)
    → Inv [] c
    → (d : ClassState) × (close_attachment c id ≡ some d) × Fine c d
unfolding close_attachment
close_attachment-Fine c id v = elim (Option-cases (lookup id c.attachments)) [
  | inl closed ↦ (c, rw (closed, close_attachment), record { inv = v; handed_same = refl })
  | inr (a, token) ↦ elim (Bool-cases (may_close a)) [
    | inr early ↦ (c, rw (token, close_attachment, early), record { inv = v; handed_same = refl })
    | inl may ↦
        let (d, e, x) = close_here-Fine c id a v token may in
        (d, rw (token, close_attachment, may) e, x)
  ]
]

publish_member-Fine :
    (l : ClassLimits) (c : ClassState) (id : ℕ)
    → Inv [] c
    → (d : ClassState) × (o : Option TaskStatus) × (publish_member l c id ≡ some (d, o)) × Fine c d
unfolding publish_member
publish_member-Fine l c id v =
    let (b, e, x) = close_attachment-Fine c id v in
    let (d, o, f, y) = activate_here-Fine l b id x.inv in
    (d, o, rw (e, publish_member) f, Fine-trans c b d x y)

pub added :
    (id : ℕ) (o : Option TaskStatus) (d : ClassState) (more : List (ℕ × TaskStatus))
    → (all : List (ℕ × TaskStatus)) × (add_status id o (some (d, more)) ≡ some (d, all))
added id none d more = (more, refl)
added id (some status) d more = ((id, status) ∷ more, refl)

publish_each-Fine :
    (l : ClassLimits) (c : ClassState) (ids : List ℕ)
    → Inv [] c
    → (d : ClassState) × (all : List (ℕ × TaskStatus)) × (publish_each l c ids ≡ some (d, all))
      × Fine c d
unfolding publish_each
publish_each-Fine l c [] v = (c, [], refl, record { inv = v; handed_same = refl })
publish_each-Fine l c (id ∷ ids) v =
    let (b, o, e, x) = publish_member-Fine l c id v in
    let (d, more, f, y) = publish_each-Fine l b ids x.inv in
    let (all, g) = added id o d more in (d, all, rw (e, publish_each, f) g, Fine-trans c b d x y)

-- The gate of `publish_portion_controls`, for a portion of at most a quantum and from a class that
-- meets the invariant, does not panic.
pub publish_portion-Fine :
    (l : ClassLimits) (c : ClassState) (ids : List ℕ)
    → Inv [] c
    → leb (length ids) quantum ≡ true
    → (d : ClassState) × (all : List (ℕ × TaskStatus)) × (publish_portion l c ids ≡ some (d, all))
      × Fine c d
unfolding publish_portion
publish_portion-Fine l c ids v h =
    let (d, all, e, x) = publish_each-Fine l c ids v in (d, all, rw h e, x)
