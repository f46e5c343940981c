-- ===== src/Tests/ZipProgram.antt =====
-- A run of the lister's theorem: two members behind one byte, with a file as a stream of its bytes.
use otus_c.Prelude.{
  ltb, if◌then◌else◌, lt→ltb, Bool-cases, length, take, drop, All, take-append-drop, ℕ, zero, suc,
  ◌^◌, ◌≤◌, ◌<◌, ◌≡◌, refl, sym, inl, inr, Bool, true, false, Option, none, some, List, [], ◌∷◌,
  ◌++◌, append-nil, arith,
}
use otus_c.Prelude.Int.{ℤ, pos}
use otus_c.Prelude.Text.{codes}
use otus_c.Zip.Run.{ok}
use otus_c.Zip.Detail.{Tm}
use otus_c.Zip.Image.{
  Entry, IsEntry, local_header, local_entry, locals, central_header, central_entry, central,
  end_record, archive,
}
use otus_c.Zip.Accepted.{names_of}
use otus_c.Zip.Program.{Stdio, main}
use otus_c.Zip.Program.RoundTrip.{listing, main-archive}

-- `none` is a stream whose end was seen.
abbrev Stream : Type 0
Stream = Option (List ℕ)

abbrev left : Stream → List ℕ
left none = []
left (some bytes) = bytes

abbrev at_end : Stream → Bool
at_end none = true
at_end (some bytes) = false

abbrev fread : ℕ → Stream → List ℕ × Stream
fread n none = ([], none)
fread n (some bytes) =
    if ltb (length bytes) n then (bytes, none) else (take n bytes, some (drop n bytes))

length-take : (n : ℕ) (bytes : List ℕ) → length (take n bytes) ≤ n
length-take zero bytes = omega arith
length-take (suc n) [] = omega arith
length-take (suc n) (b ∷ bytes) = omega (arith, length-take n bytes)

length-fread : (n : ℕ) (s : Stream) → length (fread n s).0 ≤ n
length-fread n none = omega arith
length-fread n (some bytes) = elim (Bool-cases (ltb (length bytes) n)) [
  | inl e ↦ rw e (ground arith)
  | inr e ↦ rw e (length-take n bytes)
]

contents-fread : (n : ℕ) (s : Stream) → left s ≡ (fread n s).0 ++ left (fread n s).1
contents-fread n none = refl
contents-fread n (some bytes) = elim (Bool-cases (ltb (length bytes) n)) [
  | inl e ↦ rw e (sym (append-nil bytes))
  | inr e ↦ rw e (sym (take-append-drop n bytes))
]

feof-contents : (s : Stream) → at_end s ≡ true → left s ≡ []
feof-contents none e = refl
feof-contents (some bytes) e = cc

feof-fread : (n : ℕ) (s : Stream) → 0 < n → (fread n s).0 ≡ [] → at_end (fread n s).1 ≡ true
feof-fread n none h e = refl
feof-fread zero (some bytes) h e = absurd (omega arith)
feof-fread (suc n) (some []) h e = rw (lt→ltb 0 (suc n) (omega arith)) refl
feof-fread (suc n) (some (b ∷ bytes)) h e = elim (Bool-cases (ltb (length (b ∷ bytes)) (suc n))) [
  | inl short ↦ rw short refl
  | inr long ↦ absurd (nonempty (rw long at e))
]
  where
    nonempty : b ∷ take n bytes ≡ [] → ⊥
    nonempty q = cc

abbrev entry : List ℕ → Entry
entry name = record {
  made_by_ver = 20;
  extract_ver = 20;
  gp_flag = 0;
  method = 0;
  mod_time = 0;
  mod_date = 33;
  crc32 = 0;
  uncomp_size = 2;
  int_attrs = 0;
  ext_attrs = 0;
  name = name;
  extra = [];
  local_extra = [];
  comment = [];
  contents = 7 ∷ 8 ∷ [];
}

abbrev entries : List Entry
entries = entry (codes "a") ∷ entry (codes "bc") ∷ []

abbrev io : Stdio
io = record {
  Stream = Stream;
  fopen = λ name. some (some (1 ∷ archive entries));
  fread = fread;
  feof = at_end;
  ferror = λ s. false;
  fclose = λ s. true;
  available = λ n. true;
  contents = left;
  length-fread = length-fread;
  contents-fread = contents-fread;
  feof-contents = feof-contents;
  feof-fread = feof-fread;
}

valid : (name : List ℕ) → length name < 2 ^ 16 → All (λ b. 0 < b) name → IsEntry (entry name)
valid name short nonzero = record {
  made_by_ver_fits = omega arith;
  extract_ver_fits = omega arith;
  gp_flag_fits = omega arith;
  mod_time_fits = omega arith;
  mod_date_fits = omega arith;
  crc32_fits = omega arith;
  uncomp_size_fits = omega arith;
  int_attrs_fits = omega arith;
  ext_attrs_fits = omega arith;
  name_fits = short;
  extra_fits = omega arith;
  local_extra_fits = omega arith;
  comment_fits = omega arith;
  plain = refl;
  name_ok = nonzero;
  method_ok = inl (refl, refl);
}

size : length (archive entries) ≡ 184
unfolding archive locals local_entry local_header central central_entry central_header end_record
size = refl

no_time : Tm → ℤ
no_time t = pos 0

main-archive_example :
    main io no_time 200 (codes "zipjpeg" ∷ codes "a.jpg" ∷ [])
    ≡ ok (listing (codes "a.jpg") (names_of entries), 0)
main-archive_example =
    main-archive io no_time 200 (codes "zipjpeg") (codes "a.jpg") (1 ∷ []) [] entries
      (some (1 ∷ archive entries)) (λ g. refl) (λ g. refl) (λ n. refl) refl refl
      (omega (arith, size)) (omega (arith, size)) (omega arith) (omega arith)
      (
        valid (codes "a") (omega arith) (omega arith, tt),
        (valid (codes "bc") (omega arith) (omega arith, (omega arith, tt)), tt),
      )
      (omega (arith, size))
