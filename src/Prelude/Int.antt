-- ===== src/Prelude/Int.antt =====
-- Signed integers over the native numbers, under the library's names: C's `int` and `long` values.
use Prim.Native.Nat.{ℕ, suc, ◌+◌, ◌-◌, ◌%◌, ◌^◌, ◌≤◌}
use mathlib.Core.Bool.{Bool}
use mathlib.Core.Path.{◌≡◌}
use native.Mathlib.Omega.{arith}
use otus_c.Prelude.Tests.{leb, ltb, if◌then◌else◌}

-- `negsuc n` is -(n + 1).
pub data ℤ : Type 0 where
  pos : ℕ → ℤ
  negsuc : ℕ → ℤ

abbrev pub pos_part : ℤ → ℕ
pos_part (pos n) = n
pos_part (negsuc n) = 0

abbrev pub neg_part : ℤ → ℕ
neg_part (pos n) = 0
neg_part (negsuc n) = suc n

-- a - b, as an integer.
abbrev pub sub_ℕ : ℕ → ℕ → ℤ
sub_ℕ a b = if leb b a then pos (a - b) else negsuc (b - a - 1)

infixl 65 ◌+ℤ◌ ◌-ℤ◌
infix 50 ◌≤ℤ◌
unfoldable pub ◌+ℤ◌ : ℤ → ℤ → ℤ
a +ℤ b = sub_ℕ (pos_part a + pos_part b) (neg_part a + neg_part b)

unfoldable pub ◌-ℤ◌ : ℤ → ℤ → ℤ
a -ℤ b = sub_ℕ (pos_part a + neg_part b) (neg_part a + pos_part b)

abbrev pub ◌≤ℤ◌ : ℤ → ℤ → Type 0
a ≤ℤ b = pos_part a + neg_part b ≤ pos_part b + neg_part a

abbrev pub leb_ℤ : ℤ → ℤ → Bool
leb_ℤ a b = leb (pos_part a + neg_part b) (pos_part b + neg_part a)

abbrev pub ltb_ℤ : ℤ → ℤ → Bool
ltb_ℤ a b = ltb (pos_part a + neg_part b) (pos_part b + neg_part a)

abbrev pub zero_ℤ : ℤ
zero_ℤ = pos 0

pub +ℤ_assoc : (a b c : ℤ) → (a +ℤ b) +ℤ c ≡ a +ℤ (b +ℤ c)
unfolding ◌+ℤ◌
+ℤ_assoc (pos a) (pos b) (pos c) = ground arith
+ℤ_assoc (pos a) (pos b) (negsuc c) = ground arith
+ℤ_assoc (pos a) (negsuc b) (pos c) = ground arith
+ℤ_assoc (pos a) (negsuc b) (negsuc c) = ground arith
+ℤ_assoc (negsuc a) (pos b) (pos c) = ground arith
+ℤ_assoc (negsuc a) (pos b) (negsuc c) = ground arith
+ℤ_assoc (negsuc a) (negsuc b) (pos c) = ground arith
+ℤ_assoc (negsuc a) (negsuc b) (negsuc c) = ground arith

pub +ℤ_comm : (a b : ℤ) → a +ℤ b ≡ b +ℤ a
unfolding ◌+ℤ◌
+ℤ_comm (pos a) (pos b) = ground arith
+ℤ_comm (pos a) (negsuc b) = ground arith
+ℤ_comm (negsuc a) (pos b) = ground arith
+ℤ_comm (negsuc a) (negsuc b) = ground arith

pub +ℤ_zero : (a : ℤ) → a +ℤ zero_ℤ ≡ a
unfolding ◌+ℤ◌
+ℤ_zero (pos a) = ground arith
+ℤ_zero (negsuc a) = ground arith

-- A long turned into a 32-bit int, from its value modulo 2 ^ 32.
unfoldable pub wrap_int : ℕ → ℤ
wrap_int n = if ltb n (2 ^ 31) then pos n else negsuc (2 ^ 32 - 1 - n)

unfoldable pub to_int : ℤ → ℤ
to_int (pos n) = wrap_int (n % 2 ^ 32)
to_int (negsuc n) = wrap_int (2 ^ 32 - 1 - n % 2 ^ 32)
