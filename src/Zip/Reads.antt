-- ===== src/Zip/Reads.antt =====
-- Where the headers are read inside the file: no read leaves the window of bytes behind `src`.
use otus_c.Prelude.{
  ltb, ◌==◌, if◌then◌else◌, length, get_elem?_lem, ℕ, zero, suc, ◌+◌, ◌-◌, ◌%◌, ◌≤◌, ◌<◌, ◌≡◌, refl,
  Bool, true, false, ◌||◌, none, arith,
}
use otus_c.Zip.Run.{Run, ◌>>=◌, Returns, Returns->>=}
use otus_c.Zip.Detail.{Memory, size_mod, byte_at, read16le, read32le}
use otus_c.Zip.Header.{eocdr_fields, find_from, cfh_fields, read_cfh, lfh_fields, read_lfh}
use otus_c.Zip.Archive.{has_nul}

-- Either branch of a test returns.
pub if-Returns {ℓ} :
    {A : Type ℓ} (b : Bool) {x y : Run A}
    → (b ≡ true → Returns x)
    → (b ≡ false → Returns y)
    → Returns (if b then x else y)
if-Returns true h k = h refl
if-Returns false h k = k refl

-- The `len` bytes behind `src` lie inside the file.
abbrev pub IsWindow : Memory → ℕ → Type 0
IsWindow m len = (i : ℕ) → i < len → (m.base + i) % size_mod < length m.file

module _ (m : Memory) (len : ℕ) (w : IsWindow m len) where
  pub byte_at-Returns : (p : ℕ) → p < len → Returns (byte_at m p)
  unfolding byte_at
  byte_at-Returns p h =
      let (b, e) = get_elem?_lem m.file ((m.base + p) % size_mod) (w p h) in (b, rw e)

  read16 :
      {A : Type 0} (p : ℕ) (f : ℕ → Run A)
      → p + 2 ≤ len
      → ((v : ℕ) → Returns (f v))
      → Returns (read16le m p >>= f)
  unfolding read16le
  read16 p f h k =
      let (b₀, e₀) = byte_at-Returns p (omega arith) in
      let (b₁, e₁) = byte_at-Returns (p + 1) (omega arith) in rw (e₀, e₁) (k _)

  read32 :
      {A : Type 0} (p : ℕ) (f : ℕ → Run A)
      → p + 4 ≤ len
      → ((v : ℕ) → Returns (f v))
      → Returns (read32le m p >>= f)
  unfolding read32le
  read32 p f h k =
      let (b₀, e₀) = byte_at-Returns p (omega arith) in
      let (b₁, e₁) = byte_at-Returns (p + 1) (omega arith) in
      let (b₂, e₂) = byte_at-Returns (p + 2) (omega arith) in
      let (b₃, e₃) = byte_at-Returns (p + 3) (omega arith) in rw (e₀, e₁, e₂, e₃) (k _)

  eocdr_fields-Returns : (o : ℕ) → o + 22 ≤ len → Returns (eocdr_fields m o)
  unfolding eocdr_fields
  eocdr_fields-Returns o h = read16 (o + 4) _ (omega arith) λ _. read16 (o + 6) _ (omega arith) λ _.
      read16 (o + 8) _ (omega arith) λ _. read16 (o + 10) _ (omega arith) λ _.
        read32 (o + 12) _ (omega arith)
          λ _. read32 (o + 16) _ (omega arith) λ _. read16 (o + 20) _ (omega arith) λ _. (_, refl)

  cfh_fields-Returns : (o : ℕ) → o + 46 ≤ len → Returns (cfh_fields m o)
  unfolding cfh_fields
  cfh_fields-Returns o h = read16 (o + 4) _ (omega arith) λ _. read16 (o + 6) _ (omega arith) λ _.
      read16 (o + 8) _ (omega arith) λ _. read16 (o + 10) _ (omega arith) λ _.
        read16 (o + 12) _ (omega arith) λ _. read16 (o + 14) _ (omega arith) λ _.
          read32 (o + 16) _ (omega arith) λ _. read32 (o + 20) _ (omega arith) λ _.
            read32 (o + 24) _ (omega arith) λ _. read16 (o + 28) _ (omega arith) λ _.
              read16 (o + 30) _ (omega arith) λ _. read16 (o + 32) _ (omega arith) λ _.
                read16 (o + 34) _ (omega arith) λ _. read16 (o + 36) _ (omega arith) λ _.
                  read32 (o + 38) _ (omega arith)
                    λ _. read32 (o + 42) _ (omega arith) λ _. (_, refl)

  lfh_fields-Returns : (o : ℕ) → o + 30 ≤ len → Returns (lfh_fields m o)
  unfolding lfh_fields
  lfh_fields-Returns o h = read16 (o + 4) _ (omega arith) λ _. read16 (o + 6) _ (omega arith) λ _.
      read16 (o + 8) _ (omega arith) λ _. read16 (o + 10) _ (omega arith) λ _.
        read16 (o + 12) _ (omega arith) λ _. read32 (o + 14) _ (omega arith) λ _.
          read32 (o + 18) _ (omega arith) λ _.
            read32 (o + 22) _ (omega arith) λ _.
              read16 (o + 26) _ (omega arith) λ _. read16 (o + 28) _ (omega arith) λ _. (_, refl)

  pub find_from-Returns : (n c : ℕ) → Returns (find_from n c m len)
  unfolding find_from
  find_from-Returns zero c = (none, refl)
  find_from-Returns (suc n) c =
      let next = find_from-Returns n (c + 1) in
      if-Returns (ltb len (22 + c)) (λ _. (none, refl))
        (λ room. read32 (len - 22 - c) _ (ground arith) (λ s.
          if-Returns (s == 0x06054b50)
            (λ _.
              Returns->>= _ _ (eocdr_fields-Returns (len - 22 - c) (ground arith))
                (λ r _. if-Returns (r.comment_len == c) (λ _. (_, refl)) (λ _. next)))
            (λ _. next)))

  pub read_cfh-Returns : (o : ℕ) → Returns (read_cfh m len o)
  unfolding read_cfh
  read_cfh-Returns o =
      if-Returns (ltb len o || ltb (len - o) 46) (λ _. (none, refl))
        (λ room. read32 o _ (ground arith) (λ s.
          if-Returns (s == 0x02014b50)
            (λ _. Returns->>= _ _ (cfh_fields-Returns o (ground arith)) (λ c _.
              if-Returns (ltb (len - o - 46) (c.name_len + c.extra_len + c.comment_len))
                (λ _. (_, refl)) (λ _. (_, refl))))
            (λ _. (none, refl))))

  pub read_lfh-Returns : (o : ℕ) → Returns (read_lfh m len o)
  unfolding read_lfh
  read_lfh-Returns o =
      if-Returns (ltb len o || ltb (len - o) 30) (λ _. (none, refl))
        (λ room. read32 o _ (ground arith) (λ s.
          if-Returns (s == 0x04034b50)
            (λ _. Returns->>= _ _ (lfh_fields-Returns o (ground arith)) (λ l _.
              if-Returns (ltb (len - o - 30) (l.name_len + l.extra_len)) (λ _. (_, refl))
                (λ _. (_, refl))))
            (λ _. (none, refl))))

  pub has_nul-Returns : (p n : ℕ) → p + n ≤ len → Returns (has_nul m p n)
  unfolding has_nul
  has_nul-Returns p zero h = (false, refl)
  has_nul-Returns p (suc n) h =
      let rest = has_nul-Returns (p + 1) n (omega arith) in
      Returns->>= _ _ (byte_at-Returns p (omega arith))
        (λ b _. if-Returns (b == 0) (λ _. (true, refl)) (λ _. rest))
