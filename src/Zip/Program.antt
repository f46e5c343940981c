-- ===== src/Zip/Program.antt =====
-- detail.c: read_file; zip.c: list_zip; main.c. What stdio does is a parameter, with what its manual
-- says of fread and feof.
use otus_c.Prelude.{
  ltb, ◌==◌, if◌then◌else◌, length, ℕ, zero, suc, ◌+◌, ◌-◌, ◌*◌, ◌%◌, ◌≤◌, ◌<◌, ◌≡◌, Bool, true,
  Option, none, some, List, [], ◌∷◌, ◌++◌, map,
}
use otus_c.Prelude.Int.{ℤ}
use otus_c.Prelude.Text.{codes}
use otus_c.Zip.Run.{Run, ok, stop, out_of_bounds, fuel, ◌>>=◌}
use otus_c.Zip.Detail.{Memory, size_mod, byte_at, Tm}
use otus_c.Zip.Archive.{Zip, zip_read, list_from}
pub mod ReadFile
pub mod RoundTrip

-- `contents` is what is still to be read from a stream. fread gives at most as many bytes as it is
-- asked for, and none only at the end of the file; at the end nothing is left.
pub record Stdio : Type 1 where
  pub Stream : Type 0
  pub fopen : List ℕ → Option Stream
  pub fread : ℕ → Stream → List ℕ × Stream
  pub feof : Stream → Bool
  pub ferror : Stream → Bool
  pub fclose : Stream → Bool
  pub available : ℕ → Bool
  pub contents : Stream → List ℕ
  pub length-fread : (n : ℕ) (s : Stream) → length (fread n s).0 ≤ n
  pub contents-fread : (n : ℕ) (s : Stream) → contents s ≡ (fread n s).0 ++ contents (fread n s).1
  pub feof-contents : (s : Stream) → feof s ≡ true → contents s ≡ []
  pub feof-fread : (n : ℕ) (s : Stream) → 0 < n → (fread n s).0 ≡ [] → feof (fread n s).1 ≡ true

-- The bytes of a comment, as printf's %.*s reads them: up to a zero byte.
pub comment_bytes : Memory → ℕ → ℕ → Run (List ℕ)
comment_bytes m p zero = ok []
comment_bytes m p (suc n) =
    let rest = comment_bytes m (p + 1) n in
    byte_at m p >>= λ b. if b == 0 then ok [] else rest >>= λ bs. ok (b ∷ bs)

-- What has been printed, and the exit status; a run that stops loses what was printed before.
abbrev pub Outcome : Type 0
Outcome = List (List ℕ) × ℕ

module _ (io : Stdio) where
  -- realloc, if the buffer is full.
  pub grown : ℕ → ℕ → ℕ
  grown buf_cap file_sz = if buf_cap - file_sz == 0 then buf_cap * 2 % size_mod else buf_cap

  -- Whether there is memory for it.
  pub has_room : ℕ → ℕ → Bool
  has_room buf_cap file_sz =
      if buf_cap - file_sz == 0 then io.available (grown buf_cap file_sz) else true

  -- The loop of read_file over the bytes that are in the buffer, with `n` rounds left; `none` is an
  -- exit with status 1. A write behind the end of the buffer stops it.
  pub read_loop : ℕ → io.Stream → ℕ → List ℕ → Run (Option (List ℕ))
  read_loop zero f buf_cap buf = stop fuel
  read_loop (suc n) f buf_cap buf =
      let cap = grown buf_cap (length buf) in
      let (got, f') = io.fread (cap - length buf) f in
      let next = read_loop n f' cap (buf ++ got) in
      if io.feof f
      then ok (if io.fclose f then some buf else none)
      else (if has_room buf_cap (length buf)
          then (if ltb cap (length buf + length got)
              then stop out_of_bounds
              else (if io.ferror f' then ok none else next))
          else ok none)

  pub read_file : ℕ → List ℕ → Run (Option (List ℕ))
  read_file n filename = elim (io.fopen filename) [
    | none ↦ ok none
    | some f ↦ if io.available 4096 then read_loop n f 4096 [] else ok none
  ]

  pub heading : List ℕ → List ℕ
  heading filename = codes "Listing ZIP archive: " ++ (filename ++ codes "\n\n")

  -- The comment, if there is one, and the names of the members.
  pub print_zip : (Tm → ℤ) → ℕ → List ℕ → Memory → Zip → Run Outcome
  print_zip mktime n filename src z = do
    comment ← comment_bytes src z.comment z.comment_len
    names ← list_from mktime n z z.members_begin
    let commented = if z.comment_len == 0 then [] else (comment ++ codes "\n\n") ∷ []
    ok (
      (heading filename ∷ commented)
          ++ (map (λ name. name ++ codes "\n") names ++ (codes "\n" ∷ [])),
      0,
    )

  -- From the bytes of the file.
  pub list_bytes : (Tm → ℤ) → ℕ → List ℕ → List ℕ → Run Outcome
  list_bytes mktime n filename zip_data = do
    zip ← zip_read zip_data
    elim zip [
      | none ↦ ok (heading filename ∷ codes "Failed to parse ZIP file!\n" ∷ [], 1)
      | some z ↦ print_zip mktime n filename (record { file = zip_data; base = 0 }) z
    ]

  -- Both loops run on fuel.
  pub list_zip : (Tm → ℤ) → ℕ → List ℕ → Run Outcome
  list_zip mktime n filename = do
    zip_data ← read_file n filename
    elim zip_data [
      | none ↦ ok (heading filename ∷ [], 1)
      | some bytes ↦ list_bytes mktime n filename bytes
    ]

  -- Without an argument the usage is printed, and then the null pointer behind the arguments is used.
  pub main : (Tm → ℤ) → ℕ → List (List ℕ) → Run Outcome
  main mktime n [] = stop out_of_bounds
  main mktime n (program ∷ []) = stop out_of_bounds
  main mktime n (program ∷ filename ∷ others) = list_zip mktime n filename
