-- ===== src/WorkSet.antt =====
-- src/scheduler/work_set.rs: the accounting of a work set, its discovery permits and the leases of
-- its work. The runtime's phase is an argument of the calls that ask for it, `none` when the
-- runtime is gone. The living handles are part of the state: a child or a fork needs a permit, and
-- a hook needs a lease. Hooks are named by numbers, and `fired` lists those that ran, last first.
pub mod Inv
pub mod Steps
pub mod History
pub mod Stable
use solworker.Prelude.{
  ℕ, suc, ◌+◌, ◌-◌, ◌<◌, Bool, true, false, ◌&&◌, ◌||◌, not, Option, none, some, List, [], ◌∷◌,
  ◌++◌, leb, ◌==◌, if◌then◌else◌, checked_add,
}
use solworker.Prelude.Results.{Result, ok, err}
use solworker.Ready.Maps.{insert, remove}

pub data DiscoveryError : Type 0 where
  closed cancelled full : DiscoveryError

pub data RuntimeState : Type 0 where
  running closing stopped abandoned : RuntimeState

-- `State` with the fields of `WorkSetInner` that it is guarded by, and the living handles.
pub record WorkSet : Type 0 where
  pub identity : ℕ
  pub permit_capacity : ℕ
  pub is_open : Bool
  pub is_cancelled : Bool
  pub active_work : ℕ
  pub permits : ℕ
  pub next_id : ℕ
  pub cancel_hooks : List (ℕ × ℕ)
  pub live_leases : List ℕ
  pub live_permits : ℕ
  pub fired : List ℕ

unfoldable pub new_set : ℕ → ℕ → WorkSet
new_set identity permit_capacity = record {
  identity = identity;
  permit_capacity = permit_capacity;
  is_open = true;
  is_cancelled = false;
  active_work = 0;
  permits = 0;
  next_id = 1;
  cancel_hooks = [];
  live_leases = [];
  live_permits = 0;
  fired = [];
}

pub record Progress : Type 0 where
  pub sealed : Bool
  pub was_cancelled : Bool
  pub work : ℕ
  pub discovery_permits : ℕ

unfoldable pub progress : WorkSet → Progress
progress s = record {
  sealed = not s.is_open;
  was_cancelled = s.is_cancelled;
  work = s.active_work;
  discovery_permits = s.permits;
}

unfoldable pub is_drained : Progress → Bool
is_drained p = p.sealed && ((p.work == 0) && (p.discovery_permits == 0))

-- The loop condition of `wait_drained`, under which it sleeps.
unfoldable pub must_wait : WorkSet → Bool
must_wait s = s.is_open || (not (s.active_work == 0) || not (s.permits == 0))

-- `WorkSetInner::runtime_accepts`.
abbrev pub runtime_accepts : Option RuntimeState → Bool → Bool
runtime_accepts none root = false
runtime_accepts (some running) root = true
runtime_accepts (some closing) root = not root
runtime_accepts (some stopped) root = false
runtime_accepts (some abandoned) root = false

-- `done` has the new set. `stale` is the answer to a handle that does not live, which the
-- source's ownership rules out; `panicked` is a failed expectation or a count below zero.
pub data Outcome : Type 0 where
  done : WorkSet → Outcome
  refused : DiscoveryError → Outcome
  stale : Outcome
  panicked : Outcome

abbrev enter_work : WorkSet → Option ℕ → Option ℕ → Outcome
enter_work s none next = panicked
enter_work s (some work) none = panicked
enter_work s (some work) (some next) =
    done (record s { active_work = work; next_id = next; live_leases = s.next_id ∷ s.live_leases })

-- `WorkSetInner::acquire_work`.
unfoldable pub acquire_work : WorkSet → Option RuntimeState → ℕ → Bool → Outcome
acquire_work s phase runtime root =
    if not (s.identity == runtime) || not (runtime_accepts phase root)
    then refused closed
    else if s.is_cancelled
    then refused cancelled
    else if root && not s.is_open
    then refused closed
    else enter_work s (checked_add s.active_work 1) (checked_add s.next_id 1)

-- `try_root_lease` and `try_consumer_lease`.
unfoldable pub try_root_lease : WorkSet → Option RuntimeState → ℕ → Outcome
try_root_lease s phase runtime = acquire_work s phase runtime true

-- `SWDiscoveryPermit::try_child_lease`.
unfoldable pub try_child_lease : WorkSet → Option RuntimeState → ℕ → Outcome
try_child_lease s phase runtime =
    if s.live_permits == 0 then stale else acquire_work s phase runtime false

unfoldable pub enter_permit : WorkSet → Outcome
enter_permit s =
    if leb s.permit_capacity s.permits
    then refused full
    else done (record s { permits = s.permits + 1; live_permits = s.live_permits + 1 })

-- `SWWorkSet::discovery`.
unfoldable pub discovery : WorkSet → Option RuntimeState → Outcome
discovery s phase =
    if not (runtime_accepts phase true)
    then refused closed
    else if s.is_cancelled
    then refused cancelled
    else if not s.is_open
    then refused closed
    else enter_permit s

-- `SWDiscoveryPermit::fork`.
unfoldable pub fork : WorkSet → Option RuntimeState → Outcome
fork s phase =
    if s.live_permits == 0
    then stale
    else if not (runtime_accepts phase false)
    then refused closed
    else if s.is_cancelled
    then refused cancelled
    else enter_permit s

-- `seal` and `seal_without_progress`.
unfoldable pub seal : WorkSet → WorkSet
seal s = record s { is_open = false }

abbrev pub hooks_of : List (ℕ × ℕ) → List ℕ
hooks_of [] = []
hooks_of ((k, hook) ∷ hooks) = hook ∷ hooks_of hooks

-- `WorkSetInner::cancel`: the hooks are taken under the lock and run after it.
unfoldable pub cancel : WorkSet → WorkSet
cancel s = record s {
  is_open = false;
  is_cancelled = true;
  cancel_hooks = [];
  fired = hooks_of s.cancel_hooks ++ s.fired;
}

abbrev pub has_lease : ℕ → List ℕ → Bool
has_lease k [] = false
has_lease k (j ∷ leases) = (j == k) || has_lease k leases

abbrev pub end_lease : ℕ → List ℕ → List ℕ
end_lease k [] = []
end_lease k (j ∷ leases) = if j == k then leases else j ∷ end_lease k leases

unfoldable pub run_hook : WorkSet → ℕ → WorkSet
run_hook s hook = record s { fired = hook ∷ s.fired }

unfoldable pub keep_hook : WorkSet → ℕ → ℕ → WorkSet
keep_hook s k hook = record s { cancel_hooks = insert k hook s.cancel_hooks }

-- `WorkSetLease::register_cancel`.
unfoldable pub register_cancel : WorkSet → ℕ → ℕ → Outcome
register_cancel s k hook =
    if not (has_lease k s.live_leases)
    then stale
    else if s.is_cancelled
    then done (run_hook s hook)
    else done (keep_hook s k hook)

-- `LeaseInner::drop`.
unfoldable pub drop_lease : WorkSet → ℕ → Outcome
drop_lease s k =
    if not (has_lease k s.live_leases)
    then stale
    else if s.active_work == 0
    then panicked
    else done (record s {
      active_work = s.active_work - 1;
      cancel_hooks = remove k s.cancel_hooks;
      live_leases = end_lease k s.live_leases;
    })

-- `SWDiscoveryPermit::drop`.
unfoldable pub drop_permit : WorkSet → Outcome
drop_permit s =
    if s.live_permits == 0
    then stale
    else if s.permits == 0
    then panicked
    else done (record s { permits = s.permits - 1; live_permits = s.live_permits - 1 })
