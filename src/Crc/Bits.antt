-- ===== src/Crc/Bits.antt =====
-- Laws of the exclusive or that the table of HW09-CRC32/src/crc32.h rests on.
use Prim.Native.Nat.{bit_xor, bit_xor-bitwise, digits, differ}
use otus_c.Prelude.{
  ℕ, zero, suc, ◌+◌, ◌*◌, ◌/◌, ◌%◌, ◌≤◌, ◌<◌, ◌≡◌, refl, sym, subst, ap, ap₂, ◌∙◌, arith,
}

abbrev run : ℕ → ℕ → ℕ → ℕ
run = digits (λ rest. rest) differ

differ_digits : (x y : ℕ) → x < 2 → y < 2 → differ x y ≡ (x + y) % 2
differ_digits zero y p q = omega arith
differ_digits (suc zero) zero p q = refl
differ_digits (suc zero) (suc zero) p q = refl
differ_digits (suc zero) (suc (suc y)) p q = absurd (omega arith)
differ_digits (suc (suc x)) y p q = absurd (omega arith)

-- Any number of rounds that covers the first number gives the same digits.
run_rounds : (x r s y : ℕ) → x ≤ r → x ≤ s → run r x y ≡ run s x y
run_rounds zero zero zero y le le' = refl
run_rounds zero zero (suc s) y le le' = refl
run_rounds zero (suc r) zero y le le' = refl
run_rounds zero (suc r) (suc s) y le le' = refl
run_rounds (suc x) zero s y le le' = absurd (omega arith)
run_rounds (suc x) (suc r) zero y le le' = absurd (omega arith)
run_rounds (suc x) (suc r) (suc s) y le le' =
    ap (λ n. n * 2 + differ (suc x % 2) (y % 2))
      (run_rounds (suc x / 2) r s (y / 2) (omega arith) (omega arith))

-- The lowest digit, and the others.
pub xor_digit : (x y : ℕ) → bit_xor x y ≡ bit_xor (x / 2) (y / 2) * 2 + (x % 2 + y % 2) % 2
xor_digit zero y =
    bit_xor-bitwise zero y
    ∙ subst (λ n. y ≡ n * 2 + (0 % 2 + y % 2) % 2) (sym (bit_xor-bitwise zero (y / 2)))
        (omega arith)
xor_digit (suc x) y =
    bit_xor-bitwise (suc x) y
    ∙ ap₂ (λ n d. n * 2 + d)
        (run_rounds (suc x / 2) x (suc x / 2) (y / 2) (omega arith) (omega arith)
          ∙ sym (bit_xor-bitwise (suc x / 2) (y / 2)))
        (differ_digits (suc x % 2) (y % 2) (omega arith) (omega arith))

pub zero_xor : (y : ℕ) → bit_xor 0 y ≡ y
zero_xor y = bit_xor-bitwise 0 y

pub xor_half : (x y : ℕ) → bit_xor x y / 2 ≡ bit_xor (x / 2) (y / 2)
xor_half x y = omega (arith, xor_digit x y)

pub xor_low : (x y : ℕ) → bit_xor x y % 2 ≡ (x % 2 + y % 2) % 2
xor_low x y = omega (arith, xor_digit x y)

xor_digits :
    (x y z : ℕ)
    → bit_xor (bit_xor x y) z
      ≡ bit_xor (bit_xor (x / 2) (y / 2)) (z / 2) * 2 + (x % 2 + y % 2 + z % 2) % 2
xor_digits x y z =
    xor_digit (bit_xor x y) z
    ∙ ap₂ (λ n d. bit_xor n (z / 2) * 2 + d) (xor_half x y) (omega (arith, xor_low x y))

xor_swap_below :
    (n x y z : ℕ) → x ≤ n → y ≤ n → z ≤ n → bit_xor (bit_xor x y) z ≡ bit_xor (bit_xor x z) y
xor_swap_below zero zero zero zero p q r = refl
xor_swap_below zero (suc x) y z p q r = absurd (omega arith)
xor_swap_below zero zero (suc y) z p q r = absurd (omega arith)
xor_swap_below zero zero zero (suc z) p q r = absurd (omega arith)
xor_swap_below (suc n) x y z p q r =
    xor_digits x y z
    ∙ ap₂ (λ a b. a * 2 + b)
        (xor_swap_below n (x / 2) (y / 2) (z / 2) (omega arith) (omega arith) (omega arith))
        (omega arith)
    ∙ sym (xor_digits x z y)

pub xor_swap : (x y z : ℕ) → bit_xor (bit_xor x y) z ≡ bit_xor (bit_xor x z) y
xor_swap x y z = xor_swap_below (x + y + z) x y z (omega arith) (omega arith) (omega arith)

-- h with k zero digits below it.
unfoldable pub shifted : ℕ → ℕ → ℕ
shifted zero h = h
shifted (suc k) h = 2 * shifted k h

pub xor_shifted : (k l h : ℕ) → l < shifted k 1 → bit_xor l (shifted k h) ≡ l + shifted k h
unfolding shifted
xor_shifted zero l h lt = let e : l ≡ 0 = omega arith in rw e (zero_xor h ∙ omega arith)
xor_shifted (suc k) l h lt =
    let e : 2 * shifted k h / 2 ≡ shifted k h = omega arith in
    xor_digit l (2 * shifted k h) ∙ rw (e, xor_shifted k (l / 2) h (omega arith)) (omega arith)

pub xor_bound : (k x y : ℕ) → x < shifted k 1 → y < shifted k 1 → bit_xor x y < shifted k 1
unfolding shifted
xor_bound zero x y p q = let e : x ≡ 0 = omega arith in rw e (omega (arith, zero_xor y))
xor_bound (suc k) x y p q =
    omega (arith, xor_digit x y, xor_bound k (x / 2) (y / 2) (omega arith) (omega arith))
