-- ===== src/Scheduler/External/Finish.antt =====
-- src/scheduler.rs, `finish_external`: the publication and the removal keep the agreement.
use solworker.Prelude.{
  ◌+◌, ◌-◌, ◌≤◌, ◌≡◌, refl, false, none, List, [], ◌∷◌, ◌==◌, arith, inl, inr, ◌⊎◌, Option-cases,
  Bool-cases,
}
use solworker.Scheduler.External.{
  ExternalRecord, Outcome, completed, suppressed, External, publish_outcome, publish_winner,
  retire_external,
}
use solworker.Scheduler.External.Inv.{Live, Inv, present, absent}

abbrev shown : External → List Outcome → Outcome → External
shown e ws w = record e { winners = ws; published = w ∷ e.published; retiring = e.retiring + 1 }

publish_cases :
    (e : External)
    → (publish_winner e ≡ e)
      ⊎ ((w : Outcome) × (ws : List Outcome) × (e.winners ≡ w ∷ ws)
          × ((e.entry ≡ none) ⊎ (publish_winner e ≡ shown e ws w)))
unfolding publish_winner publish_outcome
publish_cases e = go e e.winners refl
  where
    outcome :
        (e : External) (w : Outcome) (ws : List Outcome)
        → e.winners ≡ w ∷ ws
        → (e.entry ≡ none) ⊎ (publish_winner e ≡ shown e ws w)
    outcome e completed ws h = inr (ground arith)
    outcome e (suppressed status) ws h = elim (Option-cases e.entry) [
      | inl at ↦ inl at
      | inr (r, at) ↦ inr (ground arith)
    ]

    go :
        (e : External) (l : List Outcome)
        → e.winners ≡ l
        → (publish_winner e ≡ e)
          ⊎ ((w : Outcome) × (ws : List Outcome) × (e.winners ≡ w ∷ ws)
              × ((e.entry ≡ none) ⊎ (publish_winner e ≡ shown e ws w)))
    go e [] h = inl (ground arith)
    go e (w ∷ ws) h = inr (w, ws, h, outcome e w ws h)

-- A winner finds the entry, so that its outcome is published.
pub publish_winner-Inv : (e : External) → Inv e → Inv (publish_winner e)
publish_winner-Inv e v = elim (publish_cases e) [
  | inl same ↦ rw same v
  | inr (w, ws, h, next) ↦ elim (Option-cases e.entry) [
    | inl at ↦ absurd (ground (arith, (v.gone at).idle))
    | inr (r, at) ↦ elim next [
      | inl missing ↦ absurd (ground arith)
      | inr now ↦
          let l = v.live r at in
          rw now (
            present (shown e ws w) r at record {
              known = l.known;
              attached = l.attached;
              winning = ground (arith, l.winning, h);
              publishing = ground (arith, l.publishing);
              unclaimed = l.unclaimed;
              kept = l.kept;
              reached = l.reached;
            })
    ]
  ]
]

abbrev retired : External → External
retired e = record e { entry = none; retiring = e.retiring - 1 }

retire_cases :
    (e : External) → (retire_external e ≡ e) ⊎ ((1 ≤ e.retiring) × (retire_external e ≡ retired e))
unfolding retire_external
retire_cases e = elim (Bool-cases (e.retiring == 0)) [
  | inl h ↦ inl (ground arith)
  | inr h ↦ inr (ground arith, ground arith)
]

pub retire_external-Inv : (e : External) → Inv e → Inv (retire_external e)
retire_external-Inv e v = elim (retire_cases e) [
  | inl same ↦ rw same v
  | inr (held, now) ↦ elim (Option-cases e.entry) [
    | inl at ↦ absurd (ground (arith, (v.gone at).idle))
    | inr (r, at) ↦
        let l = v.live r at in
        rw now (
          absent (retired e) refl record {
            shut = shut_by r l held;
            idle = ground (arith, l.winning, held);
            settled = ground (arith, l.publishing, l.winning, l.known, held);
            unknown = λ h. absurd (ground (arith, l.known));
          })
  ]
]
  where
    shut_by : (r : ExternalRecord) → Live e r → 1 ≤ e.retiring → e.is_open ≡ false
    shut_by r l held = elim (Bool-cases e.is_open) [
      | inr shut ↦ shut
      | inl busy ↦ absurd (ground (arith, l.unclaimed, l.winning))
    ]
