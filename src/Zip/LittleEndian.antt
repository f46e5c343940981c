-- ===== src/Zip/LittleEndian.antt =====
-- Numbers as little-endian bytes, and what read16le and read32le of detail.c give for them.
use otus_c.Prelude.{
  get_elem?, ℕ, zero, suc, ◌+◌, ◌*◌, ◌/◌, ◌%◌, ◌^◌, ◌≤◌, ◌<◌, max, ◌≡◌, refl, ap, ◌∙◌, some, List,
  [], ◌∷◌, arith,
}
use Prim.Native.Nat.{bit_or, bit_or-bitwise, digits}
use otus_c.Zip.Run.{ok}
use otus_c.Zip.Detail.{Memory, byte_at, or16, or32, read16le, read32le}

abbrev run : ℕ → ℕ → ℕ → ℕ
run = digits (λ rest. rest) max

-- Any number of rounds that covers the first number gives the same digits.
run_rounds : (x r s y : ℕ) → x ≤ r → x ≤ s → run r x y ≡ run s x y
run_rounds zero zero zero y le le' = refl
run_rounds zero zero (suc s) y le le' = refl
run_rounds zero (suc r) zero y le le' = refl
run_rounds zero (suc r) (suc s) y le le' = refl
run_rounds (suc x) zero s y le le' = absurd (omega arith)
run_rounds (suc x) (suc r) zero y le le' = absurd (omega arith)
run_rounds (suc x) (suc r) (suc s) y le le' =
    ap (λ n. n * 2 + max (suc x % 2) (y % 2))
      (run_rounds (suc x / 2) r s (y / 2) (omega arith) (omega arith))

zero-bit_or : (y : ℕ) → bit_or 0 y ≡ y
zero-bit_or y = bit_or-bitwise 0 y

-- The lowest digit, and the others.
or_digit : (x y : ℕ) → bit_or x y ≡ bit_or (x / 2) (y / 2) * 2 + max (x % 2) (y % 2)
or_digit zero y = omega (arith, zero-bit_or y, zero-bit_or (y / 2))
or_digit (suc x) y = omega (
  arith,
  bit_or-bitwise (suc x) y,
  bit_or-bitwise (suc x / 2) (y / 2),
  run_rounds (suc x / 2) x (suc x / 2) (y / 2) (omega arith) (omega arith),
)

-- h with k zero digits below it.
shifted : ℕ → ℕ → ℕ
shifted zero h = h
shifted (suc k) h = 2 * shifted k h

or_shifted : (k l h : ℕ) → l < shifted k 1 → bit_or l (shifted k h) ≡ l + shifted k h
unfolding shifted
or_shifted zero l h lt = let e : l ≡ 0 = omega arith in rw e (zero-bit_or h ∙ omega arith)
or_shifted (suc k) l h lt =
    omega (arith, or_digit l (2 * shifted k h), half, or_shifted k (l / 2) h (omega arith))
  where
    half : bit_or (l / 2) (2 * shifted k h / 2) ≡ bit_or (l / 2) (shifted k h)
    half = ap (bit_or (l / 2)) (omega arith)

or_byte : (l h : ℕ) → l < 2 ^ 8 → bit_or l (h * 2 ^ 8) ≡ l + h * 2 ^ 8
unfolding shifted
or_byte l h lt = ap (bit_or l) (omega arith) ∙ or_shifted 8 l h (omega arith) ∙ omega arith

or_two_bytes : (l h : ℕ) → l < 2 ^ 16 → bit_or l (h * 2 ^ 16) ≡ l + h * 2 ^ 16
unfolding shifted
or_two_bytes l h lt = ap (bit_or l) (omega arith) ∙ or_shifted 16 l h (omega arith) ∙ omega arith

or_three_bytes : (l h : ℕ) → l < 2 ^ 24 → bit_or l (h * 2 ^ 24) ≡ l + h * 2 ^ 24
unfolding shifted
or_three_bytes l h lt = ap (bit_or l) (omega arith) ∙ or_shifted 24 l h (omega arith) ∙ omega arith

abbrev pub le16 : ℕ → List ℕ
le16 v = v % 2 ^ 8 ∷ v / 2 ^ 8 ∷ []

abbrev pub le32 : ℕ → List ℕ
le32 v = v % 2 ^ 8 ∷ v / 2 ^ 8 % 2 ^ 8 ∷ v / 2 ^ 16 % 2 ^ 8 ∷ v / 2 ^ 24 ∷ []

or16_lem : (v : ℕ) → v < 2 ^ 16 → or16 (v % 2 ^ 8) (v / 2 ^ 8) ≡ v
or16_lem v h = omega (arith, or_byte (v % 2 ^ 8) (v / 2 ^ 8) (omega arith))

or32_lem :
    (v : ℕ)
    → v < 2 ^ 32
    → or32 (v % 2 ^ 8) (v / 2 ^ 8 % 2 ^ 8) (v / 2 ^ 16 % 2 ^ 8) (v / 2 ^ 24) ≡ v
or32_lem v h =
    let top : v / 2 ^ 24 * 2 ^ 24 % 2 ^ 32 ≡ v / 2 ^ 24 * 2 ^ 24 = omega arith in
    rw
      (
        top,
        or_byte (v % 2 ^ 8) (v / 2 ^ 8 % 2 ^ 8) (omega arith),
        or_two_bytes (v % 2 ^ 8 + v / 2 ^ 8 % 2 ^ 8 * 2 ^ 8) (v / 2 ^ 16 % 2 ^ 8) (omega arith),
        or_three_bytes (v % 2 ^ 8 + v / 2 ^ 8 % 2 ^ 8 * 2 ^ 8 + v / 2 ^ 16 % 2 ^ 8 * 2 ^ 16)
            (v / 2 ^ 24) (omega arith),
      )
      (omega arith)

-- The bytes stand in the memory from an address on.
unfoldable pub Stands : Memory → ℕ → List ℕ → Type 0
Stands m o bytes = (i b : ℕ) → get_elem? bytes i ≡ some b → byte_at m (o + i) ≡ ok b

module _ (m : Memory) (o : ℕ) (bytes : List ℕ) (s : Stands m o bytes) where
  byte_lem : (i p b : ℕ) → p ≡ o + i → get_elem? bytes i ≡ some b → byte_at m p ≡ ok b
  unfolding Stands
  byte_lem i p b e at_i = ap (byte_at m) e ∙ s i b at_i

  -- A number that is written at index `i` of the bytes is read at the address p of that index.
  pub read16le_lem :
      (i p v : ℕ)
      → v < 2 ^ 16
      → p ≡ o + i
      → get_elem? bytes i ≡ some (v % 2 ^ 8)
      → get_elem? bytes (i + 1) ≡ some (v / 2 ^ 8)
      → read16le m p ≡ ok v
  unfolding read16le
  read16le_lem i p v small e e₀ e₁ =
      rw (byte_lem i p _ e e₀, byte_lem (i + 1) (p + 1) _ (omega arith) e₁)
        (ap ok (or16_lem v small))

  pub read32le_lem :
      (i p v : ℕ)
      → v < 2 ^ 32
      → p ≡ o + i
      → get_elem? bytes i ≡ some (v % 2 ^ 8)
      → get_elem? bytes (i + 1) ≡ some (v / 2 ^ 8 % 2 ^ 8)
      → get_elem? bytes (i + 2) ≡ some (v / 2 ^ 16 % 2 ^ 8)
      → get_elem? bytes (i + 3) ≡ some (v / 2 ^ 24)
      → read32le m p ≡ ok v
  unfolding read32le
  read32le_lem i p v small e e₀ e₁ e₂ e₃ =
      rw
        (
          byte_lem i p _ e e₀,
          byte_lem (i + 1) (p + 1) _ (omega arith) e₁,
          byte_lem (i + 2) (p + 2) _ (omega arith) e₂,
          byte_lem (i + 3) (p + 3) _ (omega arith) e₃,
        )
        (ap ok (or32_lem v small))
