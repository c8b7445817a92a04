-- ===== src/Scheduler/External/History.antt =====
-- src/scheduler.rs and src/external/producer.rs: every interleaving of the sections of one record.
use solworker.Prelude.{
  ℕ, ◌+◌, ◌≤◌, ◌≡◌, refl, true, Option, none, some, List, [], ◌∷◌, arith, inl, inr, Option-cases,
  Bool-cases, length, subst,
}
use solworker.Scheduler.External.{
  External, new_external, admit_external, end_attaching, start_abandon, start_cancel, restart,
  claim_cancel, claim_abandon, complete, publish_winner, retire_external, cut_external,
}
use solworker.Scheduler.External.Inv.{
  one_if, Inv, new-Inv, admit_external-Inv, cut_external-Inv, end_attaching-Inv, start_abandon-Inv,
  restart-Inv, start_cancel-Inv,
}
use solworker.Scheduler.External.Claims.{claim_cancel-Inv, claim_abandon-Inv, complete-Inv}
use solworker.Scheduler.External.Finish.{publish_winner-Inv, retire_external-Inv}

pub data Turn : Type 0 where
  admitting closing abandoning cancelling restarting claiming_cancel claiming_abandon completing
        publishing retiring cutting :
      Turn

-- One section; `none` is a panic.
unfoldable pub turn : External → Turn → Option External
turn e admitting = some (admit_external e)
turn e closing = end_attaching e
turn e abandoning = some (start_abandon e)
turn e cancelling = some (start_cancel e)
turn e restarting = some (restart e)
turn e claiming_cancel = some (claim_cancel e)
turn e claiming_abandon = some (claim_abandon e)
turn e completing = some (complete e)
turn e publishing = some (publish_winner e)
turn e retiring = some (retire_external e)
turn e cutting = some (cut_external e)

unfoldable pub run_turns : External → List Turn → Option External
run_turns e [] = some e
run_turns e (t ∷ ts) = elim (turn e t) [ none ↦ none | some d ↦ run_turns d ts ]

turn-Inv : (e : External) (t : Turn) → Inv e → (d : External) × (turn e t ≡ some d) × Inv d
unfolding turn
turn-Inv e admitting v = (admit_external e, refl, admit_external-Inv e v)
turn-Inv e closing v = end_attaching-Inv e v
turn-Inv e abandoning v = (start_abandon e, refl, start_abandon-Inv e v)
turn-Inv e cancelling v = (start_cancel e, refl, start_cancel-Inv e v)
turn-Inv e restarting v = (restart e, refl, restart-Inv e v)
turn-Inv e claiming_cancel v = (claim_cancel e, refl, claim_cancel-Inv e v)
turn-Inv e claiming_abandon v = (claim_abandon e, refl, claim_abandon-Inv e v)
turn-Inv e completing v = (complete e, refl, complete-Inv e v)
turn-Inv e publishing v = (publish_winner e, refl, publish_winner-Inv e v)
turn-Inv e retiring v = (retire_external e, refl, retire_external-Inv e v)
turn-Inv e cutting v = (cut_external e, refl, cut_external-Inv e v)

run_turns-Inv :
    (e : External) (ts : List Turn) → Inv e → (d : External) × (run_turns e ts ≡ some d) × Inv d
unfolding run_turns
run_turns-Inv e [] v = (e, refl, v)
run_turns-Inv e (t ∷ ts) v =
    let (b, f, x) = turn-Inv e t v in
    let (d, g, y) = run_turns-Inv b ts x in (d, rw (f, run_turns) g, y)

at_most_once : (e : External) → Inv e → length e.published + length e.winners ≤ 1
at_most_once e v = elim (Option-cases e.entry) [
  | inl at ↦ let g = v.gone at in ground (arith, g.settled, g.idle)
  | inr (r, at) ↦ let l = v.live r at in ground (arith, l.publishing, l.winning)
]

-- No interleaving of the sections of one external record, from its admission on, panics: the end of the
-- attachment finds the record. At most one claim wins, and at most one outcome is published.
pub external_once :
    (ts : List Turn)
    → (e : External) × (run_turns new_external ts ≡ some e)
      × (length e.published + length e.winners ≤ 1)
external_once ts = let (e, f, v) = run_turns-Inv new_external ts new-Inv in (e, f, at_most_once e v)

-- Nobody has a call of `settle_external`, a claim or a removal in hand, and the attachment has ended.
abbrev pub in_flight : External → ℕ
in_flight e =
    one_if e.is_open + (e.starts + (e.cancels + (e.abandons + (length e.winners + e.retiring))))

-- After an interleaving in which a suppression by abandonment found the record, once no call is in
-- flight, the record is gone from the table and exactly one outcome was published.
pub abandonment_settles :
    (ts : List Turn) (e : External)
    → run_turns new_external ts ≡ some e
    → e.asked ≡ true
    → in_flight e ≡ 0
    → (e.entry ≡ none) × (length e.published ≡ 1)
abandonment_settles ts e h asked still =
    let (d, f, w) = run_turns-Inv new_external ts new-Inv in
    let same : d ≡ e = ground arith in
    let v = subst (λ x. Inv x) same w in
    elim (Option-cases e.entry) [
      | inr (r, at) ↦ let l = v.live r at in absurd (ground (arith, l.reached, l.winning, l.kept))
      | inl at ↦
          let g = v.gone at in
          elim (Bool-cases e.is_admitted) [
            | inl known ↦ (at, ground (arith, g.settled))
            | inr unknown ↦ absurd (ground (arith, g.unknown))
          ]
    ]
