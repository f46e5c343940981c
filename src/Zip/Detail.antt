-- ===== src/Zip/Detail.antt =====
-- detail.c: little-endian reads and DOS times. A pointer is an index into the file's bytes, wrapped
-- to 64 bits; `base` is the index that `src` of the callers points to.
use otus_c.Prelude.{get_elem?, ℕ, ◌+◌, ◌*◌, ◌/◌, ◌%◌, ◌^◌, Option, none, some, List}
use Prim.Native.Nat.{bit_or}
use otus_c.Prelude.Int.{ℤ, sub_ℕ}
use otus_c.Zip.Run.{Run, ok, stop, out_of_bounds, ◌>>=◌}

pub record Memory : Type 0 where
  pub file : List ℕ
  pub base : ℕ

abbrev pub size_mod : ℕ
size_mod = 2 ^ 64

fetch : Option ℕ → Run ℕ
fetch none = stop out_of_bounds
fetch (some b) = ok b

-- src[i]
unfoldable pub byte_at : Memory → ℕ → Run ℕ
unfolding fetch
byte_at m i = fetch (get_elem? m.file ((m.base + i) % size_mod))

abbrev pub or16 : ℕ → ℕ → ℕ
or16 b₀ b₁ = bit_or b₀ (b₁ * 2 ^ 8) % 2 ^ 16

abbrev pub or32 : ℕ → ℕ → ℕ → ℕ → ℕ
or32 b₀ b₁ b₂ b₃ = bit_or (bit_or (bit_or b₀ (b₁ * 2 ^ 8)) (b₂ * 2 ^ 16)) (b₃ * 2 ^ 24 % 2 ^ 32)

unfoldable pub read16le : Memory → ℕ → Run ℕ
read16le m p = do b₀ ← byte_at m p; b₁ ← byte_at m (p + 1); ok (or16 b₀ b₁)

unfoldable pub read32le : Memory → ℕ → Run ℕ
read32le m p = do
  b₀ ← byte_at m p
  b₁ ← byte_at m (p + 1)
  b₂ ← byte_at m (p + 2)
  b₃ ← byte_at m (p + 3)
  ok (or32 b₀ b₁ b₂ b₃)

-- The fields of struct tm that dos2ctime sets.
pub record Tm : Type 0 where
  pub sec : ℕ
  pub min : ℕ
  pub hour : ℕ
  pub mday : ℕ
  pub mon : ℤ
  pub year : ℕ

-- `& 0x1f` and the like keep the low bits.
unfoldable pub dos_tm : ℕ → ℕ → Tm
dos_tm dos_date dos_time = record {
  sec = dos_time % 2 ^ 5 * 2;
  min = dos_time / 2 ^ 5 % 2 ^ 6;
  hour = dos_time / 2 ^ 11;
  mday = dos_date % 2 ^ 5;
  mon = sub_ℕ (dos_date / 2 ^ 5 % 2 ^ 4) 1;
  year = dos_date / 2 ^ 9 + 80;
}

-- mktime is libc's.
unfoldable pub dos2ctime : (Tm → ℤ) → ℕ → ℕ → ℤ
unfolding dos_tm
dos2ctime mktime dos_date dos_time = mktime (dos_tm dos_date dos_time)
