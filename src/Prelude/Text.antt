-- ===== src/Prelude/Text.antt =====
-- C strings as lists of character codes, and the decimal text of numbers.
use Prim.Native.Char.{code}
use Prim.Native.String.{String}
use Prim.Native.Nat.{ℕ, zero, suc, ◌+◌, ◌/◌, ◌%◌}
use mathlib.Core.Path.{◌≡◌, refl, ap₂}
use mathlib.Core.Bool.{Bool, true, false, ◌&&◌, ◌||◌}
use native.Mathlib.Omega.{arith}
use mathlib.Core.List.{List, [], ◌∷◌}
use otus_c.Prelude.Tests.{ltb, leb, ◌==◌, ==_refl, ==_iff, if◌then◌else◌}
use otus_c.Prelude.Int.{ℤ, pos, negsuc}

-- The codes of an ASCII literal.
abbrev pub codes : String → List ℕ
codes String.[] = []
codes (String.◌∷◌ c s) = code c ∷ codes s

-- The decimal digits of a number, most significant first, in front of `rest`. The fuel bounds the
-- number of digits; a number has no more digits than its value plus one.
unfoldable pub digits_onto : ℕ → ℕ → List ℕ → List ℕ
digits_onto zero n rest = rest
digits_onto (suc fuel) n rest =
    let more = digits_onto fuel (n / 10) ((b'0' + n % 10) ∷ rest) in
    if ltb n 10 then (b'0' + n) ∷ rest else more

-- What printf writes for %d, %ld and %lu.
unfoldable pub show_nat : ℕ → List ℕ
unfolding digits_onto
show_nat n = digits_onto (suc n) n []

unfoldable pub show_int : ℤ → List ℕ
unfolding show_nat
show_int (pos n) = show_nat n
show_int (negsuc n) = b'-' ∷ show_nat (suc n)

-- isspace.
unfoldable pub is_space : ℕ → Bool
is_space c = c == b' ' || (leb 9 c && leb c 13)

-- strcmp(a, b) == 0.
unfoldable pub same : List ℕ → List ℕ → Bool
same [] [] = true
same [] (y ∷ ys) = false
same (x ∷ xs) [] = false
same (x ∷ xs) (y ∷ ys) = x == y && same xs ys

pub same_refl : (a : List ℕ) → same a a ≡ true
unfolding same
same_refl [] = refl
same_refl (x ∷ xs) = rw (==_refl x, same_refl xs)

pub same-eq : (a b : List ℕ) → same a b ≡ true → a ≡ b
unfolding same
same-eq [] [] h = refl
same-eq [] (y ∷ ys) h = cc
same-eq (x ∷ xs) [] h = cc
same-eq (x ∷ xs) (y ∷ ys) h =
    let (p, q) = and_true (x == y) (same xs ys) h in
    ap₂ (λ a b. a ∷ b) ((==_iff x y).0 p) (same-eq xs ys q)
  where
    and_true : (a b : Bool) → a && b ≡ true → (a ≡ true) × (b ≡ true)
    and_true a b h = ground arith
