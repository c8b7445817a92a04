-- ===== src/Range/Inv.antt =====
-- src/scheduler/prerequisite_range.rs: what the descriptor, the tokens and the subscription handle
-- agree on.
use solworker.Prelude.{
  ℕ, zero, suc, ◌+◌, ◌-◌, ◌≤◌, ◌<◌, ◌≡◌, refl, Bool, true, false, Option, none, some, List, [], ◌∷◌,
  ◌++◌, ◌==◌, if◌then◌else◌, length, arith, inl, inr, Bool-cases,
}
use solworker.Range.{
  Range, new_range, all_members, slots_from, one_if, subscribe, install, deliver, no_members,
  present, take_members, clear_at, has_token, end_token, detach_last, detach,
}

-- How often a job occurs.
abbrev pub count : ℕ → List ℕ → ℕ
count j [] = 0
count j (k ∷ ks) = (if k == j then 1 else 0) + count j ks

pub record Inv (jobs : List ℕ) (r : Range) : Type 0 where
  pub counted : r.active ≡ length r.tokens
  pub wanted : r.subscription ≡ true → (r.delivered ≡ false) × (0 < r.active)
  pub first : r.in_hand ≡ true → r.installing ≡ true
  pub before : r.installing ≡ true → r.subscription ≡ false
  pub once : r.enqueued ≤ one_if r.delivered
  pub settled : r.made ≡ r.released + one_if r.subscription + one_if r.in_hand
  pub single : (j : ℕ) → count j r.activated + count j (present r.members) ≤ count j jobs

count-append : (j : ℕ) (xs ys : List ℕ) → count j (xs ++ ys) ≡ count j xs + count j ys
count-append j [] ys = omega arith
count-append j (x ∷ xs) ys = omega (arith, count-append j xs ys)

present-all_members : (jobs : List ℕ) → present (all_members jobs) ≡ jobs
present-all_members [] = refl
present-all_members (j ∷ jobs) = cc (present-all_members jobs)

present-no_members : (ms : List (Option ℕ)) → present (no_members ms) ≡ []
present-no_members [] = refl
present-no_members (m ∷ ms) = present-no_members ms

length-slots_from : (k : ℕ) (jobs : List ℕ) → length (slots_from k jobs) ≡ length jobs
length-slots_from k [] = refl
length-slots_from k (j ∷ jobs) = cc (length-slots_from (suc k) jobs)

count-clear_at :
    (j slot : ℕ) (ms : List (Option ℕ))
    → count j (present (clear_at slot ms)) ≤ count j (present ms)
count-clear_at j slot [] = omega arith
count-clear_at j zero (none ∷ ms) = omega arith
count-clear_at j zero (some k ∷ ms) = omega arith
count-clear_at j (suc slot) (none ∷ ms) = count-clear_at j slot ms
count-clear_at j (suc slot) (some k ∷ ms) = omega (arith, count-clear_at j slot ms)

end_token_counts :
    (slot : ℕ) (ks : List ℕ)
    → has_token slot ks ≡ true
    → length ks ≡ suc (length (end_token slot ks))
end_token_counts slot [] h = absurd (ground arith)
end_token_counts slot (k ∷ ks) h = ground (arith, end_token_counts slot ks)

pub new_range-Inv : (jobs : List ℕ) (r : Range) → new_range jobs ≡ some r → Inv jobs r
unfolding new_range
new_range-Inv jobs r h = record {
  counted = ground (arith, length-slots_from 0 jobs);
  wanted = λ k. ground arith;
  first = λ k. ground arith;
  before = λ k. ground arith;
  once = ground arith;
  settled = ground arith;
  single = λ j. ground (arith, present-all_members jobs);
}

pub subscribe-Inv : (jobs : List ℕ) (r : Range) → Inv jobs r → Inv jobs (subscribe r)
unfolding subscribe
subscribe-Inv jobs r v = record {
  counted = ground (arith, v.counted);
  wanted = λ k. ground (arith, v.wanted);
  first = λ k. ground (arith, v.first);
  before = λ k. ground (arith, v.before);
  once = ground (arith, v.once);
  settled = ground (arith, v.settled);
  single = λ j. ground (arith, v.single j);
}

pub install-Inv : (jobs : List ℕ) (r : Range) → Inv jobs r → Inv jobs (install r)
unfolding install
install-Inv jobs r v = record {
  counted = ground (arith, v.counted);
  wanted = λ k. ground (arith, v.wanted);
  first = λ k. ground (arith, v.first);
  before = λ k. ground (arith, v.before, v.first);
  once = ground (arith, v.once);
  settled = ground (arith, v.settled, v.before, v.first);
  single = λ j. ground (arith, v.single j);
}

pub deliver-Inv :
    (jobs : List ℕ) (r : Range) (alive : Bool) → Inv jobs r → Inv jobs (deliver r alive)
unfolding deliver
deliver-Inv jobs r alive v = record {
  counted = ground (arith, v.counted);
  wanted = λ k. ground (arith, v.wanted);
  first = λ k. ground (arith, v.first);
  before = λ k. ground (arith, v.before);
  once = ground (arith, v.once);
  settled = ground (arith, v.settled);
  single = λ j. ground (arith, v.single j);
}

pub take_members-Inv : (jobs : List ℕ) (r : Range) → Inv jobs r → Inv jobs (take_members r)
unfolding take_members
take_members-Inv jobs r v = record {
  counted = v.counted;
  wanted = v.wanted;
  first = v.first;
  before = v.before;
  once = v.once;
  settled = v.settled;
  single = λ j. ground (
    arith,
    v.single j,
    count-append j (present r.members) r.activated,
    present-no_members r.members,
  );
}

-- A detachment does not underflow.
pub detach-Inv :
    (jobs : List ℕ) (r : Range) (slot : ℕ)
    → Inv jobs r
    → (t : Range) × (detach r slot ≡ some t) × Inv jobs t
unfolding detach detach_last
detach-Inv jobs r slot v = elim (Bool-cases (has_token slot r.tokens)) [
  | inr dead ↦ (r, ground arith, v)
  | inl lives ↦
      let one_less = end_token_counts slot r.tokens lives in
      (
        detach_last (record r {
          active = r.active - 1;
          members = clear_at slot r.members;
          tokens = end_token slot r.tokens;
        }),
        ground (arith, v.counted),
        record {
          counted = ground (arith, v.counted);
          wanted = λ k. ground (arith, v.wanted);
          first = λ k. ground (arith, v.first);
          before = λ k. ground (arith, v.before);
          once = ground (arith, v.once);
          settled = ground (arith, v.settled);
          single = λ j. ground (arith, v.single j, count-clear_at j slot r.members);
        },
      )
]
