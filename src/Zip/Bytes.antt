-- ===== src/Zip/Bytes.antt =====
-- Bytes that stand one behind the other in memory.
use otus_c.Prelude.{
  ◌==◌, length, get_elem?, All, length-append, lt-of-get_elem?, ℕ, zero, suc, ◌+◌, ◌%◌, ◌<◌, ◌≡◌,
  refl, ap, ◌∙◌, false, some, List, [], ◌∷◌, ◌++◌, arith,
}
use otus_c.Zip.Run.{ok}
use otus_c.Zip.Detail.{Memory, size_mod, byte_at}
use otus_c.Zip.Archive.{has_nul, name_bytes}
use otus_c.Zip.LittleEndian.{Stands}

get_elem?-append : (xs ys : List ℕ) (i : ℕ) → get_elem? (xs ++ ys) (length xs + i) ≡ get_elem? ys i
get_elem?-append [] ys i = ap (get_elem? ys) (omega arith)
get_elem?-append (x ∷ xs) ys i = ap (get_elem? (x ∷ (xs ++ ys))) shifted ∙ get_elem?-append xs ys i
  where
    shifted : suc (length xs) + i ≡ suc (length xs + i)
    shifted = omega arith

get_elem?-prefix :
    (xs ys : List ℕ) (i : ℕ) {b : ℕ} → get_elem? xs i ≡ some b → get_elem? (xs ++ ys) i ≡ some b
get_elem?-prefix [] ys i e = cc
get_elem?-prefix (x ∷ xs) ys zero e = e
get_elem?-prefix (x ∷ xs) ys (suc i) e = get_elem?-prefix xs ys i e

module _ (m : Memory) where
  pub Stands-front : (o : ℕ) (xs ys : List ℕ) → Stands m o (xs ++ ys) → Stands m o xs
  unfolding Stands
  Stands-front o xs ys s i b e = s i b (get_elem?-prefix xs ys i e)

  pub Stands-behind :
      (o p : ℕ) (xs ys : List ℕ) → p ≡ o + length xs → Stands m o (xs ++ ys) → Stands m p ys
  unfolding Stands
  Stands-behind o p xs ys q s i b e =
      ap (byte_at m) address ∙ s (length xs + i) b (get_elem?-append xs ys i ∙ e)
    where
      address : p + i ≡ o + (length xs + i)
      address = omega arith

  pub has_nul-Stands :
      (o : ℕ) (name : List ℕ)
      → Stands m o name
      → All (λ b. 0 < b) name
      → has_nul m o (length name) ≡ ok false
  unfolding has_nul
  has_nul-Stands o [] s a = refl
  has_nul-Stands o (c ∷ name) s (pos, a) =
      rw (head_lem, nonzero c pos, has_nul-Stands (o + 1) name tail_lem a) refl
    where
      nonzero : (b : ℕ) → 0 < b → (b == 0) ≡ false
      nonzero b h = ground arith

      head_lem : byte_at m o ≡ ok c
      head_lem = unfold Stands in (ap (byte_at m) (omega arith) ∙ s 0 c refl)

      tail_lem : Stands m (o + 1) name
      tail_lem = Stands-behind o (o + 1) (c ∷ []) name (omega arith) s

  pub name_bytes-Stands :
      (o : ℕ) (name : List ℕ) → Stands m o name → name_bytes m o (length name) ≡ ok name
  unfolding name_bytes
  name_bytes-Stands o [] s = refl
  name_bytes-Stands o (c ∷ name) s = rw (head_lem, name_bytes-Stands (o + 1) name tail_lem) refl
    where
      head_lem : byte_at m o ≡ ok c
      head_lem = unfold Stands in (ap (byte_at m) (omega arith) ∙ s 0 c refl)

      tail_lem : Stands m (o + 1) name
      tail_lem = Stands-behind o (o + 1) (c ∷ []) name (omega arith) s

-- What follows a prefix in the file stands behind an address that points to its end.
pub file-Stands :
    (before bytes : List ℕ)
    → length (before ++ bytes) < size_mod
    → Stands (record { file = before ++ bytes; base = length before }) 0 bytes
unfolding Stands byte_at
file-Stands before bytes small i b e = rw (no_wrap, get_elem?-append before bytes i ∙ e) refl
  where
    no_wrap : (length before + (0 + i)) % size_mod ≡ length before + i
    no_wrap = omega (arith, lt-of-get_elem? bytes i e, length-append before bytes)
