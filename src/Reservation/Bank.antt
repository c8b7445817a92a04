-- ===== src/Reservation/Bank.antt =====
-- src/scheduler/reservation.rs, `CreditBank`: the credits of the stages of one pipeline.
-- A pipeline's banks are a list, newest first. `stage` is the only maker of a bank with a parent,
-- and puts it before its parent, so the chain of parents runs towards the end of the list.
use solworker.Prelude.{
  ℕ, zero, suc, ap, ◌≡◌, refl, Bool, true, Option, none, some, List, [], ◌∷◌, arith, ◌==◌,
  if◌then◌else◌, ◌⊎◌, inl, inr, Bool-cases, not, any,
}
use solworker.Reservation.Cost.{
  Cost, zero_cost, plus, cost_add, Same, IsWord, cost_add_total, cost_add-eq,
}

pub record Bank : Type 0 where
  pub bank_id : ℕ
  pub balance : Cost
  pub retired : Bool
  pub parent : Option ℕ

-- The balance of a bank whose reservation lives.
unfoldable pub live_balance : ℕ → List Bank → Option Cost
live_balance k [] = none
live_balance k (b ∷ bs) =
    if b.bank_id == k then (if b.retired then none else some b.balance) else live_balance k bs

unfoldable pub set_balance : ℕ → Cost → List Bank → List Bank
set_balance k c [] = []
set_balance k c (b ∷ bs) =
    if b.bank_id == k then record b { balance = c } ∷ bs else b ∷ set_balance k c bs

unfoldable pub parent_of : ℕ → List Bank → Option ℕ
parent_of k [] = none
parent_of k (b ∷ bs) = if b.bank_id == k then b.parent else parent_of k bs

-- `state.retired = true; std::mem::take(&mut state.balance)`.
unfoldable pub retire : ℕ → List Bank → List Bank
retire k [] = []
retire k (b ∷ bs) =
    if b.bank_id == k
    then record b { balance = zero_cost; retired = true } ∷ bs
    else b ∷ retire k bs

-- `state.balance.add(cost)`; `none` is its panic.
credit : Bank → Cost → Option Bank
credit b cost = elim (cost_add b.balance cost) [
  | none ↦ none
  | some sum ↦ some (record b { balance = sum })
]

keep_head : Bank → Option (List Bank) → Option (List Bank)
keep_head b none = none
keep_head b (some bs) = some (b ∷ bs)

replace_head : List Bank → Option Bank → Option (List Bank)
replace_head bs none = none
replace_head bs (some b) = some (b ∷ bs)

-- `CreditBank::refund`, from the bank that the first argument names: to the nearest ancestor that
-- is not retired. Without one the credits are lost to the pipeline's stages.
unfoldable pub refund : Option ℕ → Cost → List Bank → Option (List Bank)
unfolding credit keep_head replace_head
refund none cost bs = some bs
refund (some k) cost [] = some []
refund (some k) cost (b ∷ bs) =
    let older = keep_head b (refund b.parent cost bs) in
    let other = keep_head b (refund (some k) cost bs) in
    if b.bank_id == k then (if b.retired then older else replace_head bs (credit b cost)) else other

-- Whether some reservation of the pipeline lives.
unfoldable pub has_live : List Bank → Bool
has_live = any (λ b. not b.retired)

unfoldable pub sum_balances : List Bank → Cost
sum_balances [] = zero_cost
sum_balances (b ∷ bs) = plus b.balance (sum_balances bs)

pub sum-set_balance :
    (k : ℕ) (c d : Cost) (bs : List Bank)
    → live_balance k bs ≡ some c
    → Same (plus (sum_balances (set_balance k d bs)) c) (plus (sum_balances bs) d)
unfolding live_balance set_balance sum_balances
sum-set_balance k c d [] h = ground arith
sum-set_balance k c d (b ∷ bs) h = ground (arith, sum-set_balance k c d bs)

pub sum-retire :
    (k : ℕ) (c : Cost) (bs : List Bank)
    → live_balance k bs ≡ some c
    → Same (plus (sum_balances (retire k bs)) c) (sum_balances bs)
unfolding live_balance retire sum_balances
sum-retire k c [] h = ground arith
sum-retire k c (b ∷ bs) h = ground (arith, sum-retire k c bs)

-- Refunded credits arrive once, or no bank is left to take them.
abbrev pub Refunded : Cost → List Bank → List Bank → Type 0
Refunded cost bs cs =
    Same (sum_balances cs) (plus (sum_balances bs) cost) ⊎ Same (sum_balances cs) (sum_balances bs)

Refunded-cons :
    (cost : Cost) (b : Bank) (bs cs : List Bank)
    → Refunded cost bs cs
    → Refunded cost (b ∷ bs) (b ∷ cs)
unfolding sum_balances
Refunded-cons cost b bs cs (inl h) = inl (omega arith)
Refunded-cons cost b bs cs (inr h) = inr (omega arith)

keep_head_total :
    (cost : Cost) (b : Bank) (bs : List Bank) (r : Option (List Bank))
    → (cs : List Bank) × (r ≡ some cs) × Refunded cost bs cs
    → (cs : List Bank) × (keep_head b r ≡ some cs) × Refunded cost (b ∷ bs) cs
unfolding keep_head
keep_head_total cost b bs r (cs, e, h) = (b ∷ cs, rw e, Refunded-cons cost b bs cs h)

credit_total :
    (cost : Cost) (b : Bank) (bs : List Bank)
    → IsWord (plus b.balance cost)
    → (cs : List Bank) × (replace_head bs (credit b cost) ≡ some cs) × Refunded cost (b ∷ bs) cs
unfolding credit replace_head sum_balances
credit_total cost b bs w =
    let (sum, e, same) = cost_add_total b.balance cost w in
    (record b { balance = sum } ∷ bs, rw (e, credit), inl (omega arith))

-- A refund from any bank, whose sum with the balances fits a word, does not panic, and its credits
-- are added to the balances once, or are not added at all.
pub refund_total :
    (target : Option ℕ) (cost : Cost) (bs : List Bank)
    → IsWord (plus (sum_balances bs) cost)
    → (cs : List Bank) × (refund target cost bs ≡ some cs) × Refunded cost bs cs
unfolding refund sum_balances
refund_total none cost bs w = (bs, refl, inr (omega arith))
refund_total (some k) cost [] w = ([], refl, inr (omega arith))
refund_total (some k) cost (b ∷ bs) w = elim (Bool-cases (b.bank_id == k)) [
  | inr miss ↦ rw miss (keep_head_total cost b bs _ (refund_total (some k) cost bs (omega arith)))
  | inl hit ↦ elim (Bool-cases b.retired) [
    | inl gone ↦
        simp (hit, gone) (keep_head_total cost b bs _ (refund_total b.parent cost bs (omega arith)))
    | inr live ↦ simp (hit, live) (credit_total cost b bs (omega arith))
  ]
]

-- Where in the list the nearest ancestor stands that is not retired, from the bank that is named.
abbrev one_later : Option ℕ → Option ℕ
one_later none = none
one_later (some n) = some (suc n)

unfoldable pub heir_at : Option ℕ → List Bank → Option ℕ
heir_at none bs = none
heir_at (some k) [] = none
heir_at (some k) (b ∷ bs) =
    let older = one_later (heir_at b.parent bs) in
    let other = one_later (heir_at (some k) bs) in
    if b.bank_id == k then (if b.retired then older else some 0) else other

-- The banks after a credit to the one at a place.
unfoldable pub credit_place : ℕ → Cost → List Bank → List Bank
credit_place n cost [] = []
credit_place zero cost (b ∷ bs) = record b { balance = plus b.balance cost } ∷ bs
credit_place (suc n) cost (b ∷ bs) = b ∷ credit_place n cost bs

abbrev pub credit_at : Option ℕ → Cost → List Bank → List Bank
credit_at none cost bs = bs
credit_at (some n) cost bs = credit_place n cost bs

credit_at-later :
    (o : Option ℕ) (cost : Cost) (b : Bank) (bs : List Bank)
    → b ∷ credit_at o cost bs ≡ credit_at (one_later o) cost (b ∷ bs)
unfolding credit_place
credit_at-later none cost b bs = refl
credit_at-later (some n) cost b bs = refl

kept_later :
    (o : Option ℕ) (cost : Cost) (b : Bank) (bs : List Bank) (r : Option (List Bank))
    → r ≡ some (credit_at o cost bs)
    → keep_head b r ≡ some (credit_at (one_later o) cost (b ∷ bs))
unfolding keep_head
kept_later o cost b bs r h = rw h (ap some (credit_at-later o cost b bs))

credited_here :
    (cost : Cost) (b : Bank) (bs : List Bank)
    → IsWord (plus b.balance cost)
    → replace_head bs (credit b cost) ≡ some (credit_place 0 cost (b ∷ bs))
unfolding replace_head credit credit_place
credited_here cost b bs w = rw (cost_add-eq b.balance cost w, credit)

-- A refund whose sum with the balances fits a word does not panic: its credits are added, all of them,
-- to the nearest ancestor that is not retired, and the other banks are as before; where no ancestor
-- is left, no bank changes.
pub refund-credit_at :
    (target : Option ℕ) (cost : Cost) (bs : List Bank)
    → IsWord (plus (sum_balances bs) cost)
    → refund target cost bs ≡ some (credit_at (heir_at target bs) cost bs)
unfolding refund heir_at sum_balances
refund-credit_at none cost bs w = refl
refund-credit_at (some k) cost [] w = refl
refund-credit_at (some k) cost (b ∷ bs) w = elim (Bool-cases (b.bank_id == k)) [
  | inr miss ↦ rw miss (
      kept_later (heir_at (some k) bs) cost b bs _
        (refund-credit_at (some k) cost bs (omega arith)))
  | inl hit ↦ elim (Bool-cases b.retired) [
    | inl gone ↦
        simp (hit, gone)
          (kept_later (heir_at b.parent bs) cost b bs _
            (refund-credit_at b.parent cost bs (omega arith)))
    | inr live ↦ simp (hit, live) (credited_here cost b bs (omega arith))
  ]
]

pub has_live-set_balance :
    (k : ℕ) (c : Cost) (bs : List Bank) → has_live (set_balance k c bs) ≡ has_live bs
unfolding has_live set_balance
has_live-set_balance k c [] = refl
has_live-set_balance k c (b ∷ bs) = ground (arith, has_live-set_balance k c bs)

has_live-keep_head :
    (b : Bank) (bs : List Bank) (r : Option (List Bank)) (cs : List Bank)
    → ((ds : List Bank) → r ≡ some ds → has_live ds ≡ has_live bs)
    → keep_head b r ≡ some cs
    → has_live cs ≡ has_live (b ∷ bs)
unfolding has_live keep_head
has_live-keep_head b bs none cs ih h = absurd (ground arith)
has_live-keep_head b bs (some ds) cs ih h = ground (arith, ih ds refl)

has_live-credit :
    (b : Bank) (cost : Cost) (bs cs : List Bank)
    → replace_head bs (credit b cost) ≡ some cs
    → has_live cs ≡ has_live (b ∷ bs)
unfolding has_live credit replace_head
has_live-credit b cost bs cs h = ground arith

-- A refund ends no reservation and revives none.
pub has_live-refund :
    (target : Option ℕ) (cost : Cost) (bs cs : List Bank)
    → refund target cost bs ≡ some cs
    → has_live cs ≡ has_live bs
unfolding refund
has_live-refund none cost bs cs h = ground arith
has_live-refund (some k) cost [] cs h = ground arith
has_live-refund (some k) cost (b ∷ bs) cs h = elim (Bool-cases (b.bank_id == k)) [
  | inr miss ↦
      has_live-keep_head b bs _ cs (λ ds e. has_live-refund (some k) cost bs ds e) (simp miss at h)
  | inl hit ↦ elim (Bool-cases b.retired) [
    | inl gone ↦
        has_live-keep_head b bs _ cs (λ ds e. has_live-refund b.parent cost bs ds e)
          (simp (hit, gone) at h)
    | inr live ↦ has_live-credit b cost bs cs (simp (hit, live) at h)
  ]
]
