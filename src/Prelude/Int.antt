-- ===== src/Prelude/Int.antt =====
-- The source's i64 values as integers over the native numbers (`negsuc n` is -(n + 1)), and the
-- casts between them and the unsigned machine words.
use Prim.Native.Nat.{ℕ, suc, zero, ◌+◌, ◌-◌, ◌^◌, ◌≤◌, ◌<◌}
use mathlib.Core.Bool.{Bool}
use apalis_surrealdb.Prelude.Tests.{ltb, leb, ◌==◌, if◌then◌else◌}

pub data ℤ : Type 0 where
  pos : ℕ → ℤ
  negsuc : ℕ → ℤ

abbrev pub pos_part : ℤ → ℕ
pos_part (pos n) = n
pos_part (negsuc n) = 0

abbrev pub neg_part : ℤ → ℕ
neg_part (pos n) = 0
neg_part (negsuc n) = suc n

abbrev pub ltb_ℤ : ℤ → ℤ → Bool
ltb_ℤ a b = ltb (pos_part a + neg_part b) (pos_part b + neg_part a)

abbrev pub eqb_ℤ : ℤ → ℤ → Bool
eqb_ℤ a b = pos_part a + neg_part b == pos_part b + neg_part a

abbrev pub leb_ℤ : ℤ → ℤ → Bool
leb_ℤ a b = leb (pos_part a + neg_part b) (pos_part b + neg_part a)

infix 50 ◌≤ℤ◌ ◌<ℤ◌
abbrev pub ◌≤ℤ◌ : ℤ → ℤ → Type 0
a ≤ℤ b = pos_part a + neg_part b ≤ pos_part b + neg_part a

abbrev pub ◌<ℤ◌ : ℤ → ℤ → Type 0
a <ℤ b = pos_part a + neg_part b < pos_part b + neg_part a

abbrev pub add_one : ℤ → ℤ
add_one (pos n) = pos (n + 1)
add_one (negsuc zero) = pos 0
add_one (negsuc (suc n)) = negsuc n

-- `x as i64` of a 64-bit unsigned word.
abbrev pub as_i64 : ℕ → ℤ
as_i64 n = if ltb n (2 ^ 63) then pos n else negsuc (2 ^ 64 - 1 - n)

-- `x as usize` of an i64 (or of an i32, which is sign-extended first).
abbrev pub as_usize : ℤ → ℕ
as_usize (pos n) = n
as_usize (negsuc n) = 2 ^ 64 - 1 - n
