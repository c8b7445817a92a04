-- ===== src/Progress/Wake/NoLoss.antt =====
-- src/progress.rs, `SWWake`: no change is lost to a sleeping host.
use solworker.Prelude.{
  ℕ, ◌+◌, ◌-◌, ◌≤◌, ◌<◌, ◌≡◌, refl, Bool, true, false, Option, none, some, List, [], ◌∷◌, ◌==◌,
  arith, word_mod, length, inl, inr, Bool-cases,
}
use solworker.Progress.Wake.{
  enabling, sampled, observing, asleep, Wake, new_wake, publish, check_enabled, add_generation,
  signal, enable, sample, read_world, wait_round, time_out,
}

-- What the sample and the snapshot of the host say about the changes since. Each change after
-- the snapshot has moved the generation, or its `notify` is still before that.
pub record Inv (w : Wake) : Type 0 where
  pub at_enabling : w.host ≡ enabling → w.enabled ≡ true
  pub at_sampled :
      (observed : ℕ) → w.host ≡ sampled observed → (w.enabled ≡ true) × (observed ≤ w.generation)
  pub at_observing :
      (observed seen : ℕ)
      → w.host ≡ observing observed seen
      → (w.enabled ≡ true)
        × (observed ≤ w.generation)
        × (w.world + observed ≤ seen + w.generation + w.before_check + w.before_add)
  pub at_asleep :
      (observed seen : ℕ)
      → w.host ≡ asleep observed seen
      → (w.enabled ≡ true)
        × (observed ≤ w.generation)
        × (w.world + observed ≤ seen + w.generation + w.before_check + w.before_add)
        × (w.generation ≤ observed + w.before_signal)

pub data Step : Type 0 where
  publishes checks adds signals enables samples reads : Step
  waits : Bool → Step
  times_out : Step

unfoldable pub step : Wake → Step → Option Wake
step w publishes = some (publish w)
step w checks = some (check_enabled w)
step w adds = add_generation w
step w signals = some (signal w)
step w enables = some (enable w)
step w samples = some (sample w)
step w reads = some (read_world w)
step w (waits expired) = some (wait_round w expired)
step w times_out = some (time_out w)

publish-Inv : (w : Wake) → Inv w → Inv (publish w)
unfolding publish
publish-Inv w v = record {
  at_enabling = λ h. ground (arith, v.at_enabling);
  at_sampled = λ o h. ground (arith, v.at_sampled o, v.at_enabling);
  at_observing = λ o n h. ground (arith, v.at_observing o n, v.at_asleep o n, v.at_sampled o);
  at_asleep = λ o n h. ground (arith, v.at_asleep o n, v.at_observing o n);
}

check_enabled-Inv : (w : Wake) → Inv w → Inv (check_enabled w)
unfolding check_enabled
check_enabled-Inv w v = record {
  at_enabling = λ h. ground (arith, v.at_enabling);
  at_sampled = λ o h. ground (arith, v.at_sampled o, v.at_enabling);
  at_observing = λ o n h. ground (arith, v.at_observing o n, v.at_asleep o n, v.at_sampled o);
  at_asleep = λ o n h. ground (arith, v.at_asleep o n, v.at_observing o n);
}

signal-Inv : (w : Wake) → Inv w → Inv (signal w)
unfolding signal
signal-Inv w v = record {
  at_enabling = λ h. ground (arith, v.at_enabling);
  at_sampled = λ o h. ground (arith, v.at_sampled o, v.at_enabling);
  at_observing = λ o n h. ground (arith, v.at_observing o n, v.at_asleep o n, v.at_sampled o);
  at_asleep = λ o n h. ground (arith, v.at_asleep o n, v.at_observing o n);
}

enable-Inv : (w : Wake) → Inv w → Inv (enable w)
unfolding enable
enable-Inv w v = record {
  at_enabling = λ h. ground (arith, v.at_enabling);
  at_sampled = λ o h. ground (arith, v.at_sampled o, v.at_enabling);
  at_observing = λ o n h. ground (arith, v.at_observing o n, v.at_asleep o n, v.at_sampled o);
  at_asleep = λ o n h. ground (arith, v.at_asleep o n, v.at_observing o n);
}

sample-Inv : (w : Wake) → Inv w → Inv (sample w)
unfolding sample
sample-Inv w v = record {
  at_enabling = λ h. ground (arith, v.at_enabling);
  at_sampled = λ o h. ground (arith, v.at_sampled o, v.at_enabling);
  at_observing = λ o n h. ground (arith, v.at_observing o n, v.at_asleep o n, v.at_sampled o);
  at_asleep = λ o n h. ground (arith, v.at_asleep o n, v.at_observing o n);
}

read_world-Inv : (w : Wake) → Inv w → Inv (read_world w)
unfolding read_world
read_world-Inv w v = record {
  at_enabling = λ h. ground (arith, v.at_enabling);
  at_sampled = λ o h. ground (arith, v.at_sampled o, v.at_enabling);
  at_observing = λ o n h. ground (arith, v.at_observing o n, v.at_asleep o n, v.at_sampled o);
  at_asleep = λ o n h. ground (arith, v.at_asleep o n, v.at_observing o n);
}

time_out-Inv : (w : Wake) → Inv w → Inv (time_out w)
unfolding time_out
time_out-Inv w v = record {
  at_enabling = λ h. ground (arith, v.at_enabling);
  at_sampled = λ o h. ground (arith, v.at_sampled o, v.at_enabling);
  at_observing = λ o n h. ground (arith, v.at_observing o n, v.at_asleep o n, v.at_sampled o);
  at_asleep = λ o n h. ground (arith, v.at_asleep o n, v.at_observing o n);
}

wait_round-Inv : (w : Wake) (expired : Bool) → Inv w → Inv (wait_round w expired)
unfolding wait_round
wait_round-Inv w expired v = record {
  at_enabling = λ h. ground (arith, v.at_enabling);
  at_sampled = λ o h. ground (arith, v.at_sampled o, v.at_enabling);
  at_observing = λ o n h. ground (arith, v.at_observing o n, v.at_asleep o n, v.at_sampled o);
  at_asleep = λ o n h. ground (arith, v.at_asleep o n, v.at_observing o n);
}

added-Inv :
    (w : Wake)
    → Inv w
    → (w.before_add == 0) ≡ false
    → Inv (record w {
      generation = w.generation + 1;
      before_add = w.before_add - 1;
      before_signal = w.before_signal + 1;
    })
added-Inv w v some_left = record {
  at_enabling = λ h. ground (arith, v.at_enabling);
  at_sampled = λ o h. ground (arith, v.at_sampled o);
  at_observing = λ o n h. ground (arith, v.at_observing o n);
  at_asleep = λ o n h. ground (arith, v.at_asleep o n);
}

-- One step keeps the invariant and adds at most one to the generation.
Goes : Wake → Option Wake → Type 0
Goes w o = (x : Wake) × (o ≡ some x) × Inv x × (x.generation ≤ w.generation + 1)

stays : (w x : Wake) → Inv x → x.generation ≡ w.generation → Goes w (some x)
unfolding Goes
stays w x v e = (x, refl, v, omega (arith, e))

add_generation-Goes : (w : Wake) → Inv w → w.generation + 1 < word_mod → Goes w (add_generation w)
unfolding add_generation Goes
add_generation-Goes w v h = elim (Bool-cases (w.before_add == 0)) [
  | inl none_left ↦ (w, ground arith, v, omega arith)
  | inr some_left ↦ (
    record w {
      generation = w.generation + 1;
      before_add = w.before_add - 1;
      before_signal = w.before_signal + 1;
    },
    ground arith,
    added-Inv w v some_left,
    omega arith,
  )
]

step-Goes : (w : Wake) (c : Step) → Inv w → w.generation + 1 < word_mod → Goes w (step w c)
unfolding step publish check_enabled signal enable sample read_world wait_round time_out
step-Goes w publishes v h = stays w _ (publish-Inv w v) refl
step-Goes w checks v h = stays w _ (check_enabled-Inv w v) (ground arith)
step-Goes w adds v h = add_generation-Goes w v h
step-Goes w signals v h = stays w _ (signal-Inv w v) (ground arith)
step-Goes w enables v h = stays w _ (enable-Inv w v) (ground arith)
step-Goes w samples v h = stays w _ (sample-Inv w v) (ground arith)
step-Goes w reads v h = stays w _ (read_world-Inv w v) (ground arith)
step-Goes w (waits expired) v h = stays w _ (wait_round-Inv w expired v) (ground arith)
step-Goes w times_out v h = stays w _ (time_out-Inv w v) (ground arith)

unfoldable pub run_wake : Wake → List Step → Option Wake
run_wake w [] = some w
run_wake w (c ∷ cs) = elim (step w c) [ none ↦ none | some x ↦ run_wake x cs ]

run_wake-Inv :
    (w : Wake) (cs : List Step)
    → Inv w
    → w.generation + length cs < word_mod
    → (x : Wake) × (run_wake w cs ≡ some x) × Inv x
unfolding run_wake Goes
run_wake-Inv w [] v h = (w, refl, v)
run_wake-Inv w (c ∷ cs) v h =
    let (x, e, i, le) = step-Goes w c v (omega arith) in
    let (y, f, j) = run_wake-Inv x cs i (omega (arith, le)) in (y, rw (e, run_wake) f, j)

new_wake-Inv : Inv new_wake
unfolding new_wake
new_wake-Inv = record {
  at_enabling = λ h. ground arith;
  at_sampled = λ o h. ground arith;
  at_observing = λ o n h. ground arith;
  at_asleep = λ o n h. ground arith;
}

zero_generation : new_wake.generation ≡ 0
unfolding new_wake
zero_generation = refl

-- While a host sleeps and no call of `notify` is under way, the world is the one of its snapshot.
abbrev pub IsCurrent : Wake → Type 0
IsCurrent w =
    (observed seen : ℕ)
    → w.host ≡ asleep observed seen
    → w.before_check ≡ 0
    → w.before_add ≡ 0
    → w.before_signal ≡ 0
    → w.world ≤ seen

-- From a new wake, interleavings of host and mutators that cannot use up the 64-bit generation never
-- panic, and no change is lost: a host that sleeps while no `notify` is under way sleeps on a
-- snapshot that has every published change.
pub run_wake-IsCurrent :
    (cs : List Step)
    → length cs < word_mod
    → (w : Wake) × (run_wake new_wake cs ≡ some w) × IsCurrent w
run_wake-IsCurrent cs h =
    let (w, e, v) = run_wake-Inv new_wake cs new_wake-Inv (omega (arith, zero_generation)) in
    (w, e, λ o n s a b c. omega (arith, v.at_asleep o n s))
