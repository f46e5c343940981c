-- ===== src/Crc/File.antt =====
-- get_crc32 of HW09-CRC32/src/crc32.h: that the blocks give the checksum of the whole file.
use Prim.Native.Nat.{bit_xor}
use otus_c.Prelude.{
  ltb, if◌then◌else◌, lt→ltb, Bool-cases, length, take, drop, All, length-drop, take-append-drop, ℕ,
  zero, suc, ◌+◌, ◌-◌, ◌≤◌, ◌<◌, ◌≡◌, refl, sym, subst, ap, ◌∙◌, inl, inr, Bool, true, false, none,
  some, List, [], ◌∷◌, ◌++◌, append-nil, arith, dec_lt,
}
use otus_c.Crc.{main_exit, next_crc, crc32, buf_size, crc_from, get_crc32}
use otus_c.Crc.Table.{crc32_bitwise, crc32-bitwise}

crc32-append : (crc : ℕ) (a b : List ℕ) → crc32 crc (a ++ b) ≡ crc32 (crc32 crc a) b
unfolding crc32
crc32-append crc [] b = refl
crc32-append crc (p ∷ a) b = crc32-append (next_crc crc p) a b

drop-beyond : (n : ℕ) (xs : List ℕ) → length xs ≤ n → drop n xs ≡ []
drop-beyond zero [] h = refl
drop-beyond (suc n) [] h = refl
drop-beyond zero (x ∷ xs) h = absurd (omega arith)
drop-beyond (suc n) (x ∷ xs) h = drop-beyond n xs (omega arith)

take-beyond : (n : ℕ) (xs : List ℕ) → length xs ≤ n → take n xs ≡ xs
take-beyond zero [] h = refl
take-beyond (suc n) [] h = refl
take-beyond zero (x ∷ xs) h = absurd (omega arith)
take-beyond (suc n) (x ∷ xs) h = ap (λ r. x ∷ r) (take-beyond n xs (omega arith))

drop-drop : (m n : ℕ) (xs : List ℕ) → drop (m + n) xs ≡ drop n (drop m xs)
drop-drop zero n xs = let e : 0 + n ≡ n = omega arith in rw e refl
drop-drop (suc m) n [] =
    drop-beyond (suc m + n) [] (omega arith) ∙ sym (drop-beyond n [] (omega arith))
drop-drop (suc m) n (x ∷ xs) =
    let e : suc m + n ≡ suc (m + n) = omega arith in rw e (drop-drop m n xs)

-- One round of the loop, on what is left of the file.
block_lem :
    (b crc : ℕ) (left : List ℕ)
    → crc32 (crc32 crc (take (if ltb b (length left) then b else length left) left)) (drop b left)
      ≡ crc32 crc left
block_lem b crc left = elim (dec_lt b (length left)) [
  | yes more ↦ rw (lt→ltb b (length left) more) (
      sym (crc32-append crc (take b left) (drop b left)) ∙ ap (crc32 crc) (take-append-drop b left))
  | no last ↦
      let e : ltb b (length left) ≡ false = ground arith in
      rw (e, take-beyond (length left) left (omega arith), drop-beyond b left (omega arith))
        (sym (crc32-append crc left []) ∙ ap (crc32 crc) (append-nil left))
]

no_bytes : (crc : ℕ) → crc ≡ crc32 crc []
unfolding crc32
no_bytes crc = refl

-- The same, with the place in the file.
place_lem :
    (b offset crc : ℕ) (file : List ℕ)
    → crc32
        (crc32 crc (
          take
            (if ltb b (length file - offset) then b else length file - offset)
            (drop offset file)))
        (drop (offset + b) file)
      ≡ crc32 crc (drop offset file)
place_lem b offset crc file = rw (drop-drop offset b file) (
    subst
      (λ n.
        crc32 (crc32 crc (take (if ltb b n then b else n) (drop offset file)))
          (drop b (drop offset file))
        ≡ crc32 crc (drop offset file))
      (length-drop offset file) (block_lem b crc (drop offset file)))

crc_from_lem :
    (mapped : ℕ → Bool) (file : List ℕ) (fuel offset crc : ℕ)
    → ((o : ℕ) → mapped o ≡ true)
    → length file + 2 ≤ offset + fuel
    → crc_from mapped file fuel offset crc ≡ crc32 crc (drop offset file)
unfolding crc_from
crc_from_lem mapped file zero offset crc ok h =
    rw (drop-beyond offset file (omega arith)) (no_bytes crc)
crc_from_lem mapped file (suc fuel) offset crc ok h = elim (dec_lt (length file) offset) [
  | yes past ↦
      rw (crc_from, lt→ltb (length file) offset past, drop-beyond offset file (omega arith))
        (no_bytes crc)
  | no inside ↦
      let e : ltb (length file) offset ≡ false = ground arith in
      rw (crc_from, e, ok offset)
        (crc_from_lem mapped file fuel (offset + buf_size) _ ok (omega arith)
          ∙ place_lem buf_size offset crc file)
]

-- If every block can be mapped, get_crc32 gives the CRC-32 of the whole file, whatever its size: the
-- bitwise division of all its bytes from 0xFFFFFFFF on, with all 32 digits of the remainder flipped.
pub get_crc32_lem :
    (mapped : ℕ → Bool) (file : List ℕ)
    → ((o : ℕ) → mapped o ≡ true)
    → All (λ p. p < 256) file
    → get_crc32 mapped (some file) ≡ bit_xor (crc32_bitwise 0xFFFFFFFF file) 0xFFFFFFFF
unfolding get_crc32
get_crc32_lem mapped file ok bytes =
    ap (λ c. bit_xor c 0xFFFFFFFF)
      (crc_from_lem mapped file (length file + 2) 0 0xFFFFFFFF ok (omega arith)
        ∙ crc32-bitwise 0xFFFFFFFF file bytes)

-- An empty file gives the number that a file that cannot be opened gives, 0, and main exits with 1.
main_exit-empty :
    (mapped : ℕ → Bool)
    → (get_crc32 mapped (some []) ≡ get_crc32 mapped none) × (main_exit mapped (some []) ≡ 1)
unfolding main_exit get_crc32 crc_from crc32
main_exit-empty mapped = elim (Bool-cases (mapped 0)) [
  | inl ok ↦ (rw ok refl, rw ok refl)
  | inr failed ↦ (rw failed refl, rw failed refl)
]
