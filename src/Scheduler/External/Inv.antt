-- ===== src/Scheduler/External/Inv.antt =====
-- src/scheduler.rs: what the entry of an external record and its callers agree on.
use solworker.Prelude.{
  ℕ, ◌+◌, ◌-◌, ◌≤◌, ◌≡◌, refl, Bool, true, false, ◌||◌, none, some, ◌==◌, arith, inl, inr, ◌⊎◌,
  subst, Option-cases, Bool-cases, length,
}
use solworker.Scheduler.Class.{abandoned}
use solworker.Scheduler.External.{
  ExternalRecord, External, new_external, admit_external, owed, close_entry, end_attaching,
  start_abandon, start_cancel, restart, cut_external,
}

abbrev pub one_if : Bool → ℕ
one_if true = 1
one_if false = 0

-- With an entry in the table.
pub record Live (e : External) (r : ExternalRecord) : Type 0 where
  pub known : e.is_admitted ≡ true
  pub attached : r.attaching ≡ e.is_open
  pub winning : length e.winners + e.retiring ≡ one_if r.settling
  pub publishing : length e.published ≡ e.retiring
  pub unclaimed : e.is_open ≡ true → one_if r.settling + (e.starts + (e.cancels + e.abandons)) ≡ 0
  pub kept : e.is_open ≡ false → owed r.deferred_status ≡ 0
  pub reached :
      one_if e.asked ≤ one_if r.settling + (owed r.deferred_status + (e.starts + e.abandons))

-- With none.
pub record Gone (e : External) : Type 0 where
  pub shut : e.is_open ≡ false
  pub idle : length e.winners + e.retiring ≡ 0
  pub settled : length e.published ≡ one_if e.is_admitted
  pub unknown : e.is_admitted ≡ false → one_if e.asked + (e.starts + (e.cancels + e.abandons)) ≡ 0

pub record Inv (e : External) : Type 0 where
  pub live : (r : ExternalRecord) → e.entry ≡ some r → Live e r
  pub gone : e.entry ≡ none → Gone e

pub present : (e : External) (r : ExternalRecord) → e.entry ≡ some r → Live e r → Inv e
present e r at l = record {
  live = λ s h. let same : r ≡ s = ground arith in subst (λ x. Live e x) same l;
  gone = λ h. absurd (ground arith);
}

pub absent : (e : External) → e.entry ≡ none → Gone e → Inv e
absent e at g = record { live = λ s h. absurd (ground arith); gone = λ h. g }

pub new-Inv : Inv new_external
unfolding new_external
new-Inv =
    absent new_external refl
      record { shut = refl; idle = refl; settled = refl; unknown = λ h. refl }

abbrev admitted : External → External
admitted e = record e {
  entry = some (record { attaching = true; settling = false; deferred_status = none });
  is_admitted = true;
  is_open = true;
}

admit_cases :
    (e : External)
    → (admit_external e ≡ e) ⊎ ((e.is_admitted ≡ false) × (admit_external e ≡ admitted e))
unfolding admit_external
admit_cases e = elim (Bool-cases (e.is_cut || e.is_admitted)) [
  | inl refused ↦ inl (ground arith)
  | inr fresh ↦ inr (ground arith, ground arith)
]

pub admit_external-Inv : (e : External) → Inv e → Inv (admit_external e)
admit_external-Inv e v = elim (admit_cases e) [
  | inl same ↦ rw same v
  | inr (fresh, now) ↦ elim (Option-cases e.entry) [
    | inr (r, at) ↦ absurd (ground (arith, (v.live r at).known))
    | inl at ↦
        let g = v.gone at in
        rw now (
          present (admitted e)
            (record { attaching = true; settling = false; deferred_status = none }) refl
            record {
              known = refl;
              attached = refl;
              winning = g.idle;
              publishing = ground (arith, g.settled, g.idle);
              unclaimed = λ h. ground (arith, g.unknown);
              kept = λ h. absurd (ground arith);
              reached = ground (arith, g.unknown);
            })
  ]
]

pub cut_external-Inv : (e : External) → Inv e → Inv (cut_external e)
unfolding cut_external
cut_external-Inv e v = elim (Option-cases e.entry) [
  | inl at ↦
      let g = v.gone at in
      absent (cut_external e) at
        record { shut = g.shut; idle = g.idle; settled = g.settled; unknown = g.unknown }
  | inr (r, at) ↦
      let l = v.live r at in
      present (cut_external e) r at record {
        known = l.known;
        attached = l.attached;
        winning = l.winning;
        publishing = l.publishing;
        unclaimed = l.unclaimed;
        kept = l.kept;
        reached = l.reached;
      }
]

closed-Inv :
    (e : External) (r : ExternalRecord) → e.entry ≡ some r → Live e r → Inv (close_entry e r)
unfolding close_entry
closed-Inv e r at l =
    present (close_entry e r) (record r { attaching = false; deferred_status = none }) refl
      record {
        known = l.known;
        attached = refl;
        winning = l.winning;
        publishing = l.publishing;
        unclaimed = λ h. absurd (ground arith);
        kept = λ h. refl;
        reached = ground (arith, l.reached);
      }

-- The end of the attachment finds its record.
pub end_attaching-Inv : (e : External) → Inv e → (d : External) × (end_attaching e ≡ some d) × Inv d
unfolding end_attaching
end_attaching-Inv e v = elim (Bool-cases e.is_open) [
  | inr shut ↦ (e, ground arith, v)
  | inl busy ↦ elim (Option-cases e.entry) [
    | inl at ↦ absurd (ground (arith, (v.gone at).shut))
    | inr (r, at) ↦ (close_entry e r, ground arith, closed-Inv e r at (v.live r at))
  ]
]

abbrev asked_open : External → ExternalRecord → External
asked_open e r = record e {
  entry = some (record r { deferred_status = some abandoned });
  asked = true;
}

abbrev asked_shut : External → External
asked_shut e = record e { abandons = e.abandons + 1; asked = true }

start_cases :
    (e : External)
    → ((e.entry ≡ none) × (start_abandon e ≡ e))
      ⊎ (((r : ExternalRecord) × (e.entry ≡ some r)
            × (r.attaching ≡ true)
            × (start_abandon e ≡ asked_open e r))
          ⊎ ((r : ExternalRecord) × (e.entry ≡ some r)
              × (r.attaching ≡ false)
              × (start_abandon e ≡ asked_shut e)))
unfolding start_abandon
start_cases e = elim (Option-cases e.entry) [
  | inl at ↦ inl (at, ground arith)
  | inr (r, at) ↦ elim (Bool-cases r.attaching) [
    | inl busy ↦ inr (inl (r, at, busy, ground arith))
    | inr shut ↦ inr (inr (r, at, shut, ground arith))
  ]
]

-- A call of `settle_external` by abandonment, or one that a deferred status owed.
start_from :
    (e b : External)
    → Inv e
    → b ≡ record e { starts = b.starts }
    → b.starts ≤ e.starts
    → Inv (start_abandon b)
start_from e b v same fewer = elim (start_cases b) [
  | inl (at, now) ↦
      let g = v.gone (ground arith) in
      rw now (
        absent b at record {
          shut = ground (arith, g.shut);
          idle = ground (arith, g.idle);
          settled = ground (arith, g.settled);
          unknown = λ h. ground (arith, g.unknown);
        })
  | inr (inl (r, at, busy, now)) ↦
      let l = v.live r (ground arith) in
      rw now (
        present (asked_open b r) (record r { deferred_status = some abandoned }) refl
          record {
            known = ground (arith, l.known);
            attached = ground (arith, l.attached);
            winning = ground (arith, l.winning);
            publishing = ground (arith, l.publishing);
            unclaimed = λ h. ground (arith, l.unclaimed);
            kept = λ h. absurd (ground (arith, l.attached));
            reached = ground arith;
          })
  | inr (inr (r, at, shut, now)) ↦
      let l = v.live r (ground arith) in
      rw now (
        present (asked_shut b) r at record {
          known = ground (arith, l.known);
          attached = ground (arith, l.attached);
          winning = ground (arith, l.winning);
          publishing = ground (arith, l.publishing);
          unclaimed = λ h. absurd (ground (arith, l.attached));
          kept = λ h. ground (arith, l.kept);
          reached = ground arith;
        })
]

pub start_abandon-Inv : (e : External) → Inv e → Inv (start_abandon e)
start_abandon-Inv e v = start_from e e v refl (omega arith)

restart_cases :
    (e : External)
    → (restart e ≡ e) ⊎ (restart e ≡ start_abandon (record e { starts = e.starts - 1 }))
unfolding restart
restart_cases e = elim (Bool-cases (e.starts == 0)) [
  | inl h ↦ inl (ground arith)
  | inr h ↦ inr (ground arith)
]

pub restart-Inv : (e : External) → Inv e → Inv (restart e)
restart-Inv e v = elim (restart_cases e) [
  | inl same ↦ rw same v
  | inr now ↦ rw now (start_from e (record e { starts = e.starts - 1 }) v refl (omega arith))
]

cancel_cases :
    (e : External)
    → (start_cancel e ≡ e)
      ⊎ ((r : ExternalRecord) × (e.entry ≡ some r)
          × (r.attaching ≡ false)
          × (start_cancel e ≡ record e { cancels = e.cancels + 1 }))
unfolding start_cancel
cancel_cases e = elim (Option-cases e.entry) [
  | inl at ↦ inl (ground arith)
  | inr (r, at) ↦ elim (Bool-cases r.attaching) [
    | inl busy ↦ inl (ground arith)
    | inr shut ↦ inr (r, at, shut, ground arith)
  ]
]

pub start_cancel-Inv : (e : External) → Inv e → Inv (start_cancel e)
start_cancel-Inv e v = elim (cancel_cases e) [
  | inl same ↦ rw same v
  | inr (r, at, shut, now) ↦
      let l = v.live r at in
      rw now (
        present (record e { cancels = e.cancels + 1 }) r at
          record {
            known = l.known;
            attached = l.attached;
            winning = l.winning;
            publishing = l.publishing;
            unclaimed = λ h. absurd (ground (arith, l.attached));
            kept = l.kept;
            reached = l.reached;
          })
]
