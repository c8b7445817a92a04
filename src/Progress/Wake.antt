-- ===== src/Progress/Wake.antt =====
-- src/progress.rs, `SWWake`: the wake protocol between one host and any number of mutators. The
-- `world` counts the changes that mutators have published; a mutator then calls `notify`, whose
-- atomic actions are separate steps, and the three counts say how many calls of it stand before
-- each action. The host samples the generation, reads the world and waits.
pub mod NoLoss
use solworker.Prelude.{
  ℕ, zero, suc, ◌+◌, ◌-◌, Bool, true, false, not, Option, none, some, List, [], ◌∷◌, ◌==◌,
  if◌then◌else◌, checked_add,
}

pub data Host : Type 0 where
  idle : Host
  enabling : Host
  sampled : ℕ → Host
  observing : ℕ → ℕ → Host
  asleep : ℕ → ℕ → Host

pub record Wake : Type 0 where
  pub world : ℕ
  pub generation : ℕ
  pub enabled : Bool
  pub before_check : ℕ
  pub before_add : ℕ
  pub before_signal : ℕ
  pub host : Host

unfoldable pub new_wake : Wake
new_wake = record {
  world = 0;
  generation = 0;
  enabled = false;
  before_check = 0;
  before_add = 0;
  before_signal = 0;
  host = idle;
}

-- A mutator publishes its state and enters `notify`.
unfoldable pub publish : Wake → Wake
publish w = record w { world = w.world + 1; before_check = w.before_check + 1 }

-- `self.enabled.load`.
unfoldable pub check_enabled : Wake → Wake
check_enabled w =
    if w.before_check == 0
    then w
    else if w.enabled
    then record w { before_check = w.before_check - 1; before_add = w.before_add + 1 }
    else record w { before_check = w.before_check - 1 }

abbrev with_generation : Wake → Option ℕ → Option Wake
with_generation w none = none
with_generation w (some generation) = some (record w {
  generation = generation;
  before_add = w.before_add - 1;
  before_signal = w.before_signal + 1;
})

-- `self.generation.fetch_update`; `none` is the failed expectation.
unfoldable pub add_generation : Wake → Option Wake
add_generation w =
    if w.before_add == 0 then some w else with_generation w (checked_add w.generation 1)

abbrev pub woken : Host → Host
woken (asleep observed seen) = observing observed seen
woken h = h

-- `self.changed.notify_all`, under the lock.
unfoldable pub signal : Wake → Wake
signal w =
    if w.before_signal == 0
    then w
    else record w { before_signal = w.before_signal - 1; host = woken w.host }

-- `SWWake::generation`: it enables the wake, and then samples.
abbrev begin_host : Wake → Host → Wake
begin_host w idle = record w { enabled = true; host = enabling }
begin_host w _ = w

unfoldable pub enable : Wake → Wake
enable w = begin_host w w.host

abbrev sample_host : Wake → Host → Wake
sample_host w enabling = record w { host = sampled w.generation }
sample_host w _ = w

unfoldable pub sample : Wake → Wake
sample w = sample_host w w.host

-- The host assembles its snapshot after the sample.
abbrev read_host : Wake → Host → Wake
read_host w (sampled observed) = record w { host = observing observed w.world }
read_host w _ = w

unfoldable pub read_world : Wake → Wake
read_world w = read_host w w.host

-- One round of the loop of `wait_since`, under the lock: it returns on another generation and on
-- the deadline, and else sleeps.
abbrev wait_host : Wake → Bool → Host → Wake
wait_host w expired (observing observed seen) =
    if not (w.generation == observed)
    then record w { host = idle }
    else if expired
    then record w { host = idle }
    else record w { host = asleep observed seen }
wait_host w expired _ = w

unfoldable pub wait_round : Wake → Bool → Wake
wait_round w expired = wait_host w expired w.host

-- The deadline ends a sleep.
abbrev time_host : Wake → Host → Wake
time_host w (asleep observed seen) = record w { host = observing observed seen }
time_host w _ = w

unfoldable pub time_out : Wake → Wake
time_out w = time_host w w.host
