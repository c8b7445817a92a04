-- ===== src/Scheduler/External/Claims.antt =====
-- src/scheduler.rs and src/external/producer.rs: claims, publications and removals keep the agreement.
use solworker.Prelude.{
  ◌+◌, ◌-◌, ◌≤◌, ◌≡◌, refl, Bool, true, false, ◌&&◌, not, none, some, ◌∷◌, ◌==◌, arith, inl, inr,
  ◌⊎◌, Option-cases, Bool-cases,
}
use solworker.Scheduler.Class.{cancelled, abandoned}
use solworker.Scheduler.External.{
  ExternalRecord, Outcome, completed, suppressed, External, claim_external, won, claim_cancel,
  claim_abandon, complete,
}
use solworker.Scheduler.External.Inv.{one_if, Inv, present, absent}

abbrev claimed : ExternalRecord → ExternalRecord
claimed r = record r { settling = true }

-- The ends of a claim.
data Ending (e : External) (abandonment : Bool) : Type 0 where
  missing : e.entry ≡ none → claim_external e abandonment ≡ none → Ending e abandonment
  refused :
      (r : ExternalRecord)
      → e.entry ≡ some r
      → one_if abandonment ≤ one_if r.settling
      → claim_external e abandonment ≡ none
      → Ending e abandonment
  granted :
      (r : ExternalRecord)
      → e.entry ≡ some r
      → r.settling ≡ false
      → claim_external e abandonment ≡ some (claimed r)
      → Ending e abandonment

claim_external-Ending : (e : External) (x : Bool) → Ending e x
unfolding claim_external
claim_external-Ending e x = elim (Option-cases e.entry) [
  | inl at ↦ missing at (ground arith)
  | inr (r, at) ↦ elim (Bool-cases (e.is_cut && not x)) [
    | inl late ↦ refused r at (ground arith) (ground arith)
    | inr early ↦ elim (Bool-cases r.settling) [
      | inl lost ↦ refused r at (ground arith) (ground arith)
      | inr free ↦ granted r at free (ground arith)
    ]
  ]
]

-- What a claimant has given back before its claim.
record Before (e b : External) (x : Bool) : Type 0 where
  shut : e.is_open ≡ false
  state : b ≡ record e { cancels = b.cancels; abandons = b.abandons }
  cancels_left : b.cancels ≤ e.cancels
  abandons_left : b.abandons ≤ e.abandons
  one_gone : e.abandons ≤ b.abandons + one_if x

won_from :
    (e b : External) (x : Bool) (o : Outcome)
    → Inv e
    → Before e b x
    → Ending b x
    → Inv (won b (claim_external b x) o)
unfolding won
won_from e b x o v w (missing at now) =
    let g = v.gone (ground (arith, w.state)) in
    rw now (
      absent b at record {
        shut = ground (arith, g.shut, w.state);
        idle = ground (arith, g.idle, w.state);
        settled = ground (arith, g.settled, w.state);
        unknown = λ h. ground (arith, g.unknown, w.state, w.cancels_left, w.abandons_left);
      })
won_from e b x o v w (refused r at late now) =
    let l = v.live r (ground (arith, w.state)) in
    rw now (
      present b r at record {
        known = ground (arith, l.known, w.state);
        attached = ground (arith, l.attached, w.state);
        winning = ground (arith, l.winning, w.state);
        publishing = ground (arith, l.publishing, w.state);
        unclaimed = λ h. absurd (ground (arith, w.shut, w.state));
        kept = λ h. ground (arith, l.kept, w.state);
        reached = ground (arith, l.reached, w.state, w.one_gone);
      })
won_from e b x o v w (granted r at free now) =
    let l = v.live r (ground (arith, w.state)) in
    rw now (
      present (record b { entry = some (claimed r); winners = o ∷ b.winners }) (claimed r) refl
        record {
          known = ground (arith, l.known, w.state);
          attached = ground (arith, l.attached, w.state);
          winning = ground (arith, l.winning, w.state, free);
          publishing = ground (arith, l.publishing, w.state);
          unclaimed = λ h. absurd (ground (arith, w.shut, w.state));
          kept = λ h. ground (arith, l.kept, w.state);
          reached = ground (arith, l.reached, w.state);
        })

-- A call between its first section and its claim means that the attachment has ended.
shut_of : (e : External) → Inv e → 1 ≤ e.cancels + e.abandons → e.is_open ≡ false
shut_of e v h = elim (Bool-cases e.is_open) [
  | inr shut ↦ shut
  | inl busy ↦ elim (Option-cases e.entry) [
    | inl at ↦ absurd (ground (arith, (v.gone at).shut))
    | inr (r, at) ↦ absurd (ground (arith, (v.live r at).unclaimed))
  ]
]

claim_cancel_cases :
    (e : External)
    → (claim_cancel e ≡ e)
      ⊎ ((1 ≤ e.cancels)
          × (claim_cancel e
              ≡ won
                  (record e { cancels = e.cancels - 1 })
                  (claim_external (record e { cancels = e.cancels - 1 }) false)
                  (suppressed cancelled)))
unfolding claim_cancel claim_external
claim_cancel_cases e = elim (Bool-cases (e.cancels == 0)) [
  | inl h ↦ inl (ground arith)
  | inr h ↦ inr (ground arith, ground arith)
]

pub claim_cancel-Inv : (e : External) → Inv e → Inv (claim_cancel e)
claim_cancel-Inv e v = elim (claim_cancel_cases e) [
  | inl same ↦ rw same v
  | inr (some_left, now) ↦
      let b = record e { cancels = e.cancels - 1 } in
      rw now (
        won_from e b false (suppressed cancelled) v
          (record {
            shut = shut_of e v (omega (arith, some_left));
            state = refl;
            cancels_left = omega arith;
            abandons_left = omega arith;
            one_gone = omega arith;
          })
          (claim_external-Ending b false))
]

claim_abandon_cases :
    (e : External)
    → (claim_abandon e ≡ e)
      ⊎ ((1 ≤ e.abandons)
          × (claim_abandon e
              ≡ won
                  (record e { abandons = e.abandons - 1 })
                  (claim_external (record e { abandons = e.abandons - 1 }) true)
                  (suppressed abandoned)))
unfolding claim_abandon claim_external
claim_abandon_cases e = elim (Bool-cases (e.abandons == 0)) [
  | inl h ↦ inl (ground arith)
  | inr h ↦ inr (ground arith, ground arith)
]

pub claim_abandon-Inv : (e : External) → Inv e → Inv (claim_abandon e)
claim_abandon-Inv e v = elim (claim_abandon_cases e) [
  | inl same ↦ rw same v
  | inr (some_left, now) ↦
      let b = record e { abandons = e.abandons - 1 } in
      rw now (
        won_from e b true (suppressed abandoned) v
          (record {
            shut = shut_of e v (omega (arith, some_left));
            state = refl;
            cancels_left = omega arith;
            abandons_left = omega arith;
            one_gone = omega (arith, some_left);
          })
          (claim_external-Ending b true))
]

complete_cases :
    (e : External)
    → (complete e ≡ e)
      ⊎ ((e.is_open ≡ false) × (complete e ≡ won e (claim_external e false) completed))
unfolding complete
complete_cases e = elim (Bool-cases (e.is_admitted && not e.is_open)) [
  | inl h ↦ inr (ground arith, ground arith)
  | inr h ↦ inl (ground arith)
]

pub complete-Inv : (e : External) → Inv e → Inv (complete e)
complete-Inv e v = elim (complete_cases e) [
  | inl same ↦ rw same v
  | inr (shut, now) ↦ rw now (
      won_from e e false completed v
        (record {
          shut = shut;
          state = refl;
          cancels_left = omega arith;
          abandons_left = omega arith;
          one_gone = omega arith;
        })
        (claim_external-Ending e false))
]
