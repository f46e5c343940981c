-- ===== src/Zip/Safety.antt =====
-- When zip_read stays inside the file's bytes, and when it does not.
use otus_c.Prelude.{
  ltb, ◌==◌, length, get_elem?-beyond, ℕ, zero, suc, ◌+◌, ◌-◌, ◌%◌, ◌^◌, ◌≤◌, ◌<◌, ◌≡◌, refl, subst,
  ap, ◌∙◌, true, false, ◌&&◌, Option, none, some, List, arith,
}
use otus_c.Zip.Run.{
  ok, stop, out_of_bounds, ◌>>=◌, Returns, Returns->>=, Holds, Holds->>=, Holds-ok, Holds-if,
}
use otus_c.Zip.Detail.{Memory, size_mod, byte_at, read32le}
use otus_c.Zip.Header.{Eocdr, Cfh, Lfh, eocdr_fields, find_from, find_eocdr, read_cfh}
use otus_c.Zip.Archive.{
  check_data, check_header, check_member, read_members, next_offset, supported, archive_len,
  archive_memory, read_archive, zip_read,
}
use otus_c.Zip.Reads.{
  IsWindow, if-Returns, find_from-Returns, read_cfh-Returns, read_lfh-Returns, has_nul-Returns,
}
use otus_c.Zip.Members.{read_cfh-fits}

module _ (m : Memory) (len : ℕ) (w : IsWindow m len) where
  check_data-Returns : (c : Cfh) (r : Option Lfh) → Returns (check_data len c r)
  unfolding check_data
  check_data-Returns c none = (none, refl)
  check_data-Returns c (some l) =
      if-Returns (ltb (len - (l.extra + l.extra_len)) c.comp_size) (λ _. (_, refl)) (λ _. (_, refl))

  check_header-Returns :
      (o : ℕ) (r : Option Cfh) → read_cfh m len o ≡ ok r → Returns (check_header m len r)
  unfolding check_header
  check_header-Returns o none e = (none, refl)
  check_header-Returns o (some c) e =
      let fits = (read_cfh-fits m len o).apply (some c) e in
      if-Returns (supported c)
        (λ _. Returns->>= _ _ (has_nul-Returns m len w c.name c.name_len (omega arith)) (λ bad _.
          if-Returns bad (λ _. (none, refl))
            (λ _.
              Returns->>= _ _ (read_lfh-Returns m len w c.lfh_offset)
                (λ r _. check_data-Returns c r))))
        (λ _. (none, refl))

  check_member-Returns : (o : ℕ) → Returns (check_member m len o)
  unfolding check_member
  check_member-Returns o =
      Returns->>= _ _ (read_cfh-Returns m len w o) (λ r e. check_header-Returns o r e)

  read_members-Returns : (n o : ℕ) → Returns (read_members m len n o)
  unfolding read_members
  read_members-Returns zero o = (some o, refl)
  read_members-Returns (suc n) o =
      let (r, e) = check_member-Returns o in
      next r e (λ c. read_members-Returns n (next_offset o c))
    where
      next :
          (r : Option Cfh)
          → check_member m len o ≡ ok r
          → ((c : Cfh) → Returns (read_members m len n (next_offset o c)))
          → Returns (read_members m len (suc n) o)
      next none e ih = (none, rw (e, read_members))
      next (some c) e ih = let (x, q) = ih c in (x, rw (e, read_members) q)

-- The record that find_eocdr accepts ends, with its comment, where the file ends.
abbrev EndsFile : ℕ → Option (ℕ × Eocdr) → Type 0
EndsFile len none = Unit {0}
EndsFile len (some (o, e)) = o + 22 + e.comment_len ≡ len

find_from-EndsFile : (n c : ℕ) (m : Memory) (len : ℕ) → Holds (EndsFile len) (find_from n c m len)
unfolding find_from
find_from-EndsFile zero c m len = Holds-ok (EndsFile len) none tt
find_from-EndsFile (suc n) c m len =
    let P = EndsFile len in
    let next = find_from-EndsFile n (c + 1) m len in
    Holds-if P (ltb len (22 + c)) (λ _. Holds-ok P none tt)
      (λ room. Holds->>= P (read32le m (len - 22 - c)) _ (λ s _.
        Holds-if P (s == 0x06054b50)
          (λ _. Holds->>= P (eocdr_fields m (len - 22 - c)) _ (λ r _.
            Holds-if P (r.comment_len == c)
              (λ same. Holds-ok P (some (len - 22 - c, r)) (ground arith)) (λ _. next)))
          (λ _. next)))

abbrev start : List ℕ → Memory
start file = record { file = file; base = 0 }

start-IsWindow : (file : List ℕ) → length file < 2 ^ 64 → IsWindow (start file) (length file)
start-IsWindow file h i lt = omega arith

-- find_eocdr reads only inside the file, for every file; the record that it finds ends, with its
-- comment, exactly where the file ends.
find_eocdr_lem :
    (file : List ℕ)
    → length file < 2 ^ 64
    → (r : Option (ℕ × Eocdr)) × (find_eocdr (start file) (length file) ≡ ok r)
      × ((o : ℕ) (e : Eocdr) → r ≡ some (o, e) → o + 22 + e.comment_len ≡ length file)
unfolding find_eocdr
find_eocdr_lem file h =
    let (r, e) = find_from-Returns (start file) (length file) (start-IsWindow file h) (2 ^ 16) 0 in
    (
      r,
      e,
      (λ o d q.
          subst (EndsFile (length file)) q
            ((find_from-EndsFile (2 ^ 16) 0 (start file) (length file)).apply r e)),
    )

archive-IsWindow :
    (file : List ℕ) (o : ℕ) (e : Eocdr)
    → length file < 2 ^ 63
    → o ≤ length file
    → (e.cd_offset + e.cd_size) % 2 ^ 32 ≤ o
    → let len = archive_len e (length file) o in IsWindow (archive_memory file len) len
unfolding archive_len archive_memory
archive-IsWindow file o e h lo fit i lt = omega arith

read_archive-Returns :
    (file : List ℕ)
    → length file < 2 ^ 63
    → (q : Option (ℕ × Eocdr))
    → ((o : ℕ) (e : Eocdr)
        → q ≡ some (o, e)
        → (o ≤ length file) × ((e.cd_offset + e.cd_size) % 2 ^ 32 ≤ o))
    → Returns (read_archive file q)
unfolding read_archive
read_archive-Returns file h none fit = (none, refl)
read_archive-Returns file h (some (o, e)) fit =
    let (lo, inside) = fit o e refl in
    let len = archive_len e (length file) o in
    let m = archive_memory file len in
    if-Returns (o == 0) (λ _. (none, refl))
      (λ _.
        if-Returns (e.disk_nbr == 0 && (e.cd_start_disk == 0 && e.disk_cd_entries == e.cd_entries))
          (λ _.
            Returns->>= _ _
              (read_members-Returns m len (archive-IsWindow file o e h lo inside) e.cd_entries
                e.cd_offset)
              (λ r _. (_, refl)))
          (λ _. (none, refl)))

-- zip_read reads only inside the file, and comes to a verdict, for every file in which the central
-- directory, by its offset and size, fits in front of the record that find_eocdr finds.
pub zip_read-Returns :
    (file : List ℕ)
    → length file < 2 ^ 63
    → ((o : ℕ) (e : Eocdr)
        → find_eocdr (start file) (length file) ≡ ok (some (o, e))
        → (e.cd_offset + e.cd_size) % 2 ^ 32 ≤ o)
    → Returns (zip_read file)
unfolding zip_read
zip_read-Returns file h fit =
    let (r, e, ends) = find_eocdr_lem file (omega arith) in
    Returns->>= _ _ (r, e)
      (λ q g. read_archive-Returns file h q (λ o d p.
        let found = g ∙ ap ok p in (omega (arith, ends o d (same e found)), fit o d found)))
  where
    same :
        {r : Option (ℕ × Eocdr)} {o : ℕ} {d : Eocdr}
        → find_eocdr (start file) (length file) ≡ ok r
        → find_eocdr (start file) (length file) ≡ ok (some (o, d))
        → r ≡ some (o, d)
    same e f = cc

byte_at-outside :
    (m : Memory) (p : ℕ)
    → length m.file ≤ (m.base + p) % size_mod
    → byte_at m p ≡ stop out_of_bounds
unfolding byte_at
byte_at-outside m p h = rw (get_elem?-beyond m.file ((m.base + p) % size_mod) h)

read_cfh-outside :
    (m : Memory) (len o : ℕ)
    → o + 46 ≤ len
    → length m.file ≤ (m.base + o) % size_mod
    → read_cfh m len o ≡ stop out_of_bounds
unfolding read_cfh read32le
read_cfh-outside m len o h out =
    rw (byte_at-outside m o out, lt_false len o (omega arith), lt_false (len - o) 46 (omega arith))
  where
    lt_false : (a b : ℕ) → b ≤ a → ltb a b ≡ false
    lt_false a b h = ground arith

read_members-stop :
    (m : Memory) (len n o : ℕ)
    → 0 < n
    → read_cfh m len o ≡ stop out_of_bounds
    → read_members m len n o ≡ stop out_of_bounds
unfolding read_members check_member
read_members-stop m len zero o h e = absurd (omega arith)
read_members-stop m len (suc n) o h e = rw (e, read_members)

archive-outside :
    (file : List ℕ) (o : ℕ) (e : Eocdr)
    → length file < 2 ^ 63
    → o + 22 ≤ length file
    → 46 ≤ e.cd_size
    → o < e.cd_size
    → e.cd_offset + e.cd_size < 2 ^ 32
    → let len = archive_len e (length file) o in
      let m = archive_memory file len in
      (e.cd_offset + 46 ≤ len) × (length file ≤ (m.base + e.cd_offset) % size_mod)
unfolding archive_len archive_memory
archive-outside file o e h lo big over small = omega arith

-- In a file of fewer than 2 ^ 63 bytes, let find_eocdr find an end record, not at the start of the file, of
-- an archive on a single disk with at least one member. If it claims a central directory of at least 46
-- bytes that is larger than all that stands in front of the record, and the sum of the directory's offset
-- and size is below 2 ^ 32, then zip_read reads outside the file's bytes: the place of the directory is
-- not checked against the file.
pub zip_read-overrun :
    (file : List ℕ) (o : ℕ) (e : Eocdr)
    → length file < 2 ^ 63
    → find_eocdr (start file) (length file) ≡ ok (some (o, e))
    → 0 < o
    → (e.disk_nbr ≡ 0) × (e.cd_start_disk ≡ 0) × (e.disk_cd_entries ≡ e.cd_entries)
    → 0 < e.cd_entries
    → 46 ≤ e.cd_size
    → o < e.cd_size
    → e.cd_offset + e.cd_size < 2 ^ 32
    → zip_read file ≡ stop out_of_bounds
unfolding zip_read read_archive archive_memory
zip_read-overrun file o e h found pos (d₀, d₁, d₂) some_entry big over small =
    let (r, q, ends) = find_eocdr_lem file (omega arith) in
    let at : o + 22 + e.comment_len ≡ length file = ends o e (cc (q, found)) in
    let len = archive_len e (length file) o in
    let m = archive_memory file len in
    let (fits, out) = archive-outside file o e h (omega arith) big over small in
    let single : (e.disk_nbr == 0 && (e.cd_start_disk == 0 && e.disk_cd_entries == e.cd_entries))
        ≡ true =
      ground arith in
    let positive : (o == 0) ≡ false = ground arith in
    rw (
      found,
      ◌>>=◌,
      positive,
      single,
      read_members-stop m len e.cd_entries e.cd_offset some_entry
          (read_cfh-outside m len e.cd_offset fits out),
    )
