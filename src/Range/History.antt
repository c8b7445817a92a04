-- ===== src/Range/History.antt =====
-- src/scheduler/prerequisite_range.rs: every interleaving of the critical sections of one range.
use solworker.Prelude.{
  ℕ, ◌≤◌, ◌≡◌, refl, Bool, true, false, Option, none, some, List, [], ◌∷◌, arith,
}
use solworker.Range.{Range, new_range, subscribe, install, deliver, take_members, detach}
use solworker.Range.Inv.{
  Inv, count, new_range-Inv, subscribe-Inv, install-Inv, deliver-Inv, take_members-Inv, detach-Inv,
}

pub data Step : Type 0 where
  subscribes : Step
  installs : Step
  delivers : Bool → Step
  takes : Step
  detaches : ℕ → Step

unfoldable pub step : Range → Step → Option Range
step r subscribes = some (subscribe r)
step r installs = some (install r)
step r (delivers alive) = some (deliver r alive)
step r takes = some (take_members r)
step r (detaches slot) = detach r slot

unfoldable pub interleave : Range → List Step → Option Range
interleave r [] = some r
interleave r (c ∷ cs) = elim (step r c) [ none ↦ none | some t ↦ interleave t cs ]

step-Inv :
    (jobs : List ℕ) (r : Range) (c : Step)
    → Inv jobs r
    → (t : Range) × (step r c ≡ some t) × Inv jobs t
unfolding step
step-Inv jobs r subscribes v = (subscribe r, refl, subscribe-Inv jobs r v)
step-Inv jobs r installs v = (install r, refl, install-Inv jobs r v)
step-Inv jobs r (delivers alive) v = (deliver r alive, refl, deliver-Inv jobs r alive v)
step-Inv jobs r takes v = (take_members r, refl, take_members-Inv jobs r v)
step-Inv jobs r (detaches slot) v = detach-Inv jobs r slot v

interleave-Inv :
    (jobs : List ℕ) (r : Range) (cs : List Step)
    → Inv jobs r
    → (t : Range) × (interleave r cs ≡ some t) × Inv jobs t
unfolding interleave
interleave-Inv jobs r [] v = (r, refl, v)
interleave-Inv jobs r (c ∷ cs) v =
    let (t, e, i) = step-Inv jobs r c v in
    let (u, f, j) = interleave-Inv jobs t cs i in (u, rw (e, interleave) f, j)

-- What holds of a range at any time.
pub record IsSound (jobs : List ℕ) (t : Range) : Type 0 where
  pub delivered_once : t.enqueued ≤ 1
  pub activated_once : (j : ℕ) → count j t.activated ≤ count j jobs
  pub delivered_free : t.delivered ≡ true → t.subscription ≡ false
  pub detached_free : t.tokens ≡ [] → t.subscription ≡ false
  pub released_all : t.tokens ≡ [] → t.in_hand ≡ false → t.released ≡ t.made

Inv-IsSound : (jobs : List ℕ) (t : Range) → Inv jobs t → IsSound jobs t
Inv-IsSound jobs t v = record {
  delivered_once = ground (arith, v.once);
  activated_once = λ j. omega (arith, v.single j);
  delivered_free = λ h. ground (arith, v.wanted);
  detached_free = λ h. ground (arith, v.wanted, v.counted);
  released_all = λ h k. ground (arith, v.settled, v.wanted, v.counted);
}

-- From a new range, no interleaving of subscription, installation, delivery, activation and
-- detachment underflows. The delivery is enqueued at most once, no job is activated more often than
-- it was given, no subscription is kept after the delivery or after the last detachment, and then
-- every handle that was made has been released, unless `subscribe` still has it in hand.
pub interleave-IsSound :
    (jobs : List ℕ) (r : Range) (cs : List Step)
    → new_range jobs ≡ some r
    → (t : Range) × (interleave r cs ≡ some t) × IsSound jobs t
interleave-IsSound jobs r cs h =
    let (t, e, v) = interleave-Inv jobs r cs (new_range-Inv jobs r h) in
    (t, e, Inv-IsSound jobs t v)
