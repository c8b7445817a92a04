-- ===== src/Range.antt =====
-- src/scheduler/prerequisite_range.rs: one subscription for a portion of records that wait for the
-- same prerequisite. Jobs are named by numbers. The state has the source's descriptor and, beside
-- it, the living member tokens, the subscription handle that `subscribe` has in hand before it
-- installs it, and counts of what was enqueued and released. Each function is one critical section.
pub mod Inv
pub mod History
use solworker.Prelude.{
  ℕ, zero, suc, ◌+◌, ◌-◌, Bool, true, false, ◌&&◌, ◌||◌, not, Option, none, some, List, [], ◌∷◌,
  ◌++◌, leb, ◌==◌, if◌then◌else◌, length,
}

pub record Range : Type 0 where
  pub members : List (Option ℕ)
  pub active : ℕ
  pub delivered : Bool
  pub installing : Bool
  pub subscription : Bool
  pub tokens : List ℕ
  pub in_hand : Bool
  pub enqueued : ℕ
  pub made : ℕ
  pub released : ℕ
  pub activated : List ℕ

abbrev pub quantum : ℕ
quantum = 64

abbrev pub all_members : List ℕ → List (Option ℕ)
all_members [] = []
all_members (j ∷ jobs) = some j ∷ all_members jobs

abbrev pub slots_from : ℕ → List ℕ → List ℕ
slots_from k [] = []
slots_from k (j ∷ jobs) = k ∷ slots_from (suc k) jobs

-- `PrerequisiteRange::new`, with a `member` token for each job; `none` is its assertion. The empty
-- slots behind the jobs, which no token names, are left out.
unfoldable pub new_range : List ℕ → Option Range
new_range jobs =
    if leb 2 (length jobs) && leb (length jobs) quantum
    then some (record {
      members = all_members jobs;
      active = length jobs;
      delivered = false;
      installing = true;
      subscription = false;
      tokens = slots_from 0 jobs;
      in_hand = false;
      enqueued = 0;
      made = 0;
      released = 0;
      activated = [];
    })
    else none

abbrev pub one_if : Bool → ℕ
one_if true = 1
one_if false = 0

-- `subscribe_cancelable` has returned its handle. The prerequisite can call `deliver` from here on.
unfoldable pub subscribe : Range → Range
subscribe r =
    if r.installing && not r.in_hand then record r { in_hand = true; made = r.made + 1 } else r

-- The rest of `Descriptor::subscribe`, which keeps the handle or drops it.
unfoldable pub install : Range → Range
install r =
    if not r.in_hand
    then r
    else if r.delivered || (r.active == 0)
    then record r { in_hand = false; installing = false; released = r.released + 1 }
    else record r { in_hand = false; installing = false; subscription = true }

-- `Descriptor::deliver`; the flag says whether the scheduler still lives.
unfoldable pub deliver : Range → Bool → Range
deliver r alive = if r.delivered then r else record r {
  delivered = true;
  subscription = false;
  released = r.released + one_if r.subscription;
  enqueued = r.enqueued + one_if alive;
}

abbrev pub no_members : List (Option ℕ) → List (Option ℕ)
no_members [] = []
no_members (m ∷ ms) = none ∷ no_members ms

abbrev pub present : List (Option ℕ) → List ℕ
present [] = []
present (none ∷ ms) = present ms
present (some j ∷ ms) = j ∷ present ms

-- `Descriptor::take_members`, for the activation of the members that are left.
unfoldable pub take_members : Range → Range
take_members r = record r {
  members = no_members r.members;
  activated = present r.members ++ r.activated;
}

abbrev pub clear_at : ℕ → List (Option ℕ) → List (Option ℕ)
clear_at slot [] = []
clear_at zero (m ∷ ms) = none ∷ ms
clear_at (suc slot) (m ∷ ms) = m ∷ clear_at slot ms

abbrev pub has_token : ℕ → List ℕ → Bool
has_token slot [] = false
has_token slot (k ∷ ks) = (k == slot) || has_token slot ks

abbrev pub end_token : ℕ → List ℕ → List ℕ
end_token slot [] = []
end_token slot (k ∷ ks) = if k == slot then ks else k ∷ end_token slot ks

-- The last detachment takes the subscription with it.
unfoldable pub detach_last : Range → Range
detach_last r =
    if r.active == 0
    then record r { subscription = false; released = r.released + one_if r.subscription }
    else r

-- `Descriptor::detach`, on the drop of a member token; `none` is an underflow of `active`. A slot
-- whose token does not live is passed over, since the source's ownership rules it out.
unfoldable pub detach : Range → ℕ → Option Range
detach r slot =
    if not (has_token slot r.tokens)
    then some r
    else if r.active == 0
    then none
    else some (
        detach_last (record r {
          active = r.active - 1;
          members = clear_at slot r.members;
          tokens = end_token slot r.tokens;
        }))
