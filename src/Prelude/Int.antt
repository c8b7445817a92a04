-- ===== src/Prelude/Int.antt =====
-- Signed integers, for the source's `i128` counters, read through their two parts.
use Prim.Native.Nat.{ℕ, suc, ◌+◌, ◌-◌, ◌≤◌, ◌<◌}
use mathlib.Core.Path.{◌≡◌}
use mathlib.Core.Logic.{◌↔◌}
use mathlib.Core.Bool.{Bool, true}
use native.Mathlib.Omega.{arith}
use solworker.Prelude.Tests.{ltb, ◌==◌, if◌then◌else◌}

-- `negsuc n` is -(n + 1).
pub data ℤ : Type 0 where
  pos : ℕ → ℤ
  negsuc : ℕ → ℤ

abbrev pub pos_part : ℤ → ℕ
pos_part (pos n) = n
pos_part (negsuc n) = 0

abbrev pub neg_part : ℤ → ℕ
neg_part (pos n) = 0
neg_part (negsuc n) = suc n

infix 50 ◌<ℤ◌ ◌≤ℤ◌
abbrev pub ◌<ℤ◌ : ℤ → ℤ → Type 0
a <ℤ b = pos_part a + neg_part b < pos_part b + neg_part a

abbrev pub ◌≤ℤ◌ : ℤ → ℤ → Type 0
a ≤ℤ b = pos_part a + neg_part b ≤ pos_part b + neg_part a

abbrev pub ltb_ℤ : ℤ → ℤ → Bool
ltb_ℤ a b = ltb (pos_part a + neg_part b) (pos_part b + neg_part a)

abbrev pub eq_ℤ : ℤ → ℤ → Bool
eq_ℤ a b = (pos_part a + neg_part b) == (pos_part b + neg_part a)

-- One more, and one less.
unfoldable pub next : ℤ → ℤ
next (pos n) = pos (n + 1)
next (negsuc n) = if n == 0 then pos 0 else negsuc (n - 1)

unfoldable pub prior : ℤ → ℤ
prior (pos n) = if n == 0 then negsuc 0 else pos (n - 1)
prior (negsuc n) = negsuc (n + 1)

pub eq_ℤ_iff : (a b : ℤ) → (eq_ℤ a b ≡ true) ↔ (a ≡ b)
eq_ℤ_iff a b = ground arith

pub next_parts : (a : ℤ) → pos_part (next a) + neg_part a ≡ pos_part a + neg_part (next a) + 1
unfolding next
next_parts a = ground arith

pub prior_parts : (a : ℤ) → pos_part a + neg_part (prior a) ≡ pos_part (prior a) + neg_part a + 1
unfolding prior
prior_parts a = ground arith
