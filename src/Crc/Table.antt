-- ===== src/Crc/Table.antt =====
-- The table of HW09-CRC32/src/crc32.h against the division that it stands for.
use Prim.Native.Nat.{bit_xor}
use otus_c.Prelude.{
  ◌==◌, if◌then◌else◌, ==_iff, length, get_or, All, ℕ, zero, suc, ◌+◌, ◌*◌, ◌/◌, ◌%◌, ◌<◌, ◌≡◌,
  refl, sym, ap, ◌∙◌, Bool, true, ◌&&◌, List, [], ◌∷◌, arith,
}
use otus_c.Crc.{crc32_tab, next_crc, crc32}
use otus_c.Crc.Bits.{xor_half, xor_low, xor_swap, shifted, xor_shifted, xor_bound}

-- One step of the division by the reversed polynomial 0xEDB88320, a bit at a time.
pub divide_bit : ℕ → ℕ
divide_bit x = bit_xor (x / 2) (if x % 2 == 0 then 0 else 0xEDB88320)

pub divide_bits : ℕ → ℕ → ℕ
divide_bits zero x = x
divide_bits (suc k) x = divide_bits k (divide_bit x)

-- The checksum with no table: a byte is added to the remainder, and divided out bit by bit.
unfoldable pub crc32_bitwise : ℕ → List ℕ → ℕ
crc32_bitwise crc [] = crc
crc32_bitwise crc (p ∷ buf) = crc32_bitwise (divide_bits 8 (bit_xor crc p)) buf

all_entries : ℕ → List ℕ → Bool
all_entries i [] = true
all_entries i (t ∷ ts) = t == divide_bits 8 i && all_entries (i + 1) ts

all_entries_lem :
    (ts : List ℕ) (i j : ℕ)
    → all_entries i ts ≡ true
    → j < length ts
    → get_or ts j 0 ≡ divide_bits 8 (i + j)
unfolding all_entries
all_entries_lem [] i j h lt = absurd (omega arith)
all_entries_lem (t ∷ ts) i zero h lt =
    let e : i ≡ i + 0 = omega arith in
    (==_iff t (divide_bits 8 i)).0 (and_true _ _ h).0 ∙ ap (divide_bits 8) e
  where
    and_true : (a b : Bool) → a && b ≡ true → (a ≡ true) × (b ≡ true)
    and_true a b q = ground arith
all_entries_lem (t ∷ ts) i (suc j) h lt =
    let e : i + 1 + j ≡ i + suc j = omega arith in
    all_entries_lem ts (i + 1) j (and_true _ _ h).1 (omega arith) ∙ ap (divide_bits 8) e
  where
    and_true : (a b : Bool) → a && b ≡ true → (a ≡ true) × (b ≡ true)
    and_true a b q = ground arith

table_entries : all_entries 0 crc32_tab ≡ true
unfolding all_entries crc32_tab divide_bits divide_bit
table_entries = refl

table_length : length crc32_tab ≡ 256
unfolding crc32_tab
table_length = refl

crc32_tab_lem : (j : ℕ) → j < 256 → get_or crc32_tab j 0 ≡ divide_bits 8 j
crc32_tab_lem j h =
    all_entries_lem crc32_tab 0 j table_entries (omega (arith, table_length))
    ∙ ap (divide_bits 8) (omega arith)

divide_bit_push : (y h : ℕ) → divide_bit (bit_xor y (2 * h)) ≡ bit_xor (divide_bit y) h
unfolding divide_bit
divide_bit_push y h =
    let half : bit_xor y (2 * h) / 2 ≡ bit_xor (y / 2) h =
      xor_half y (2 * h) ∙ ap (bit_xor (y / 2)) (omega arith) in
    let low : bit_xor y (2 * h) % 2 ≡ y % 2 = omega (arith, xor_low y (2 * h)) in
    rw (half, low) (xor_swap (y / 2) h _)

divide_bits_push :
    (k y h : ℕ) → divide_bits k (bit_xor y (shifted k h)) ≡ bit_xor (divide_bits k y) h
unfolding divide_bits shifted
divide_bits_push zero y h = refl
divide_bits_push (suc k) y h =
    rw (divide_bit_push y (shifted k h)) (divide_bits_push k (divide_bit y) h)

shifted_byte : (h : ℕ) → shifted 8 h ≡ 256 * h
unfolding shifted
shifted_byte h = omega arith

-- The low byte of the remainder takes the new byte; the rest stays above it.
split_byte :
    (crc p : ℕ)
    → p < 256
    → (bit_xor crc p ≡ bit_xor (bit_xor (crc % 256) p) (shifted 8 (crc / 256)))
      × (bit_xor (crc % 256) p < 256)
split_byte crc p h =
    let c = crc % 256 in
    let joined : bit_xor c (shifted 8 (crc / 256)) ≡ crc =
      xor_shifted 8 c (crc / 256) (omega (arith, shifted_byte 1))
      ∙ omega (arith, shifted_byte (crc / 256)) in
    (
      ap (λ n. bit_xor n p) (sym joined) ∙ xor_swap c (shifted 8 (crc / 256)) p,
      omega (
        arith,
        shifted_byte 1,
        xor_bound 8 c p (omega (arith, shifted_byte 1)) (omega (arith, shifted_byte 1)),
      ),
    )

next_crc_lem : (crc p : ℕ) → p < 256 → next_crc crc p ≡ divide_bits 8 (bit_xor crc p)
unfolding next_crc
next_crc_lem crc p h =
    let (whole, small) = split_byte crc p h in
    let s = bit_xor (crc % 256) p in
    let sum = xor_shifted 8 s (crc / 256) (omega (arith, shifted_byte 1)) in
    let low : bit_xor crc p % 256 ≡ s = omega (arith, whole, sum, shifted_byte (crc / 256)) in
    ap (λ i. bit_xor (get_or crc32_tab i 0) (crc / 256)) low
    ∙ ap (λ t. bit_xor t (crc / 256)) (crc32_tab_lem s small)
    ∙ sym (divide_bits_push 8 s (crc / 256))
    ∙ ap (divide_bits 8) (sym whole)

-- Over any bytes, and from any remainder, crc32 with its table of 256 numbers is the division by the
-- polynomial of CRC-32 bit by bit.
pub crc32-bitwise :
    (crc : ℕ) (buf : List ℕ) → All (λ p. p < 256) buf → crc32 crc buf ≡ crc32_bitwise crc buf
unfolding crc32 crc32_bitwise
crc32-bitwise crc [] h = refl
crc32-bitwise crc (p ∷ buf) (lt, h) =
    rw (next_crc_lem crc p lt) (crc32-bitwise (divide_bits 8 (bit_xor crc p)) buf h)
