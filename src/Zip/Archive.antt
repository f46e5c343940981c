-- ===== src/Zip/Archive.antt =====
-- zip.c: zip_read, zip_member and the loop of list_zip.
use otus_c.Prelude.{
  ltb, leb, ◌==◌, if◌then◌else◌, length, ℕ, zero, suc, ◌+◌, ◌-◌, ◌/◌, ◌%◌, ◌^◌, Bool, true, false,
  not, ◌&&◌, ◌||◌, Option, none, some, List, [], ◌∷◌,
}
use otus_c.Prelude.Int.{ℤ}
use otus_c.Zip.Run.{Run, ok, stop, fuel, assertion, assert, ◌>>=◌, ◌>>◌}
use otus_c.Zip.Detail.{Memory, size_mod, byte_at, Tm, dos2ctime}
use otus_c.Zip.Header.{Eocdr, Cfh, Lfh, cfh_base_sz, find_eocdr, read_cfh, read_lfh}

-- struct zip_t; `memory` is its `src`.
pub record Zip : Type 0 where
  pub num_members : ℕ
  pub comment : ℕ
  pub comment_len : ℕ
  pub members_begin : ℕ
  pub members_end : ℕ
  pub memory : Memory
  pub src_len : ℕ

-- memchr(name, '\0', name_len) != NULL
unfoldable pub has_nul : Memory → ℕ → ℕ → Run Bool
has_nul m p zero = ok false
has_nul m p (suc n) =
    let rest = has_nul m (p + 1) n in byte_at m p >>= λ b. if b == 0 then ok true else rest

abbrev pub next_offset : ℕ → Cfh → ℕ
next_offset offset c = offset + (cfh_base_sz + c.name_len + c.extra_len + c.comment_len)

-- The checks that zip_read makes of one central file header.
unfoldable pub supported : Cfh → Bool
supported c =
    c.gp_flag % 2 == 0
    && ((c.method == 0 || c.method == 8)
        && ((not (c.method == 0) || c.uncomp_size == c.comp_size) && c.disk_nbr_start == 0))

-- The end of a round of zip_read's loop, from the value that read_lfh returned.
unfoldable pub check_data : ℕ → Cfh → Option Lfh → Run (Option Cfh)
check_data src_len c none = ok none
check_data src_len c (some l) =
    if ltb (src_len - (l.extra + l.extra_len)) c.comp_size then ok none else ok (some c)

-- The same from the value that read_cfh returned.
unfoldable pub check_header : Memory → ℕ → Option Cfh → Run (Option Cfh)
unfolding check_data
check_header m src_len none = ok none
check_header m src_len (some c) =
    if supported c
    then (do
      bad_name ← has_nul m c.name c.name_len
      if bad_name then ok none else read_lfh m src_len c.lfh_offset >>= check_data src_len c)
    else ok none

-- One round of zip_read's loop: the header, or `none` where the code returns 0.
unfoldable pub check_member : Memory → ℕ → ℕ → Run (Option Cfh)
unfolding check_header
check_member m src_len offset = read_cfh m src_len offset >>= check_header m src_len

-- The loop over the members, with `n` of them left; the result is the offset behind the last.
unfoldable pub read_members : Memory → ℕ → ℕ → ℕ → Run (Option ℕ)
read_members m src_len zero offset = ok (some offset)
read_members m src_len (suc n) offset = do
  header ← check_member m src_len offset
  elim header [ none ↦ ok none | some c ↦ read_members m src_len n (next_offset offset c) ]

-- cd_offset + cd_size is a sum of two uint32_t; the rest is size_t.
unfoldable pub archive_len : Eocdr → ℕ → ℕ → ℕ
archive_len e src_len eocdr_offset =
    ((e.cd_offset + e.cd_size) % 2 ^ 32 + src_len + size_mod - eocdr_offset) % size_mod

-- zip->src = &src[src_len - zip->src_len]
unfoldable pub archive_memory : List ℕ → ℕ → Memory
archive_memory file len = record { file = file; base = (length file + size_mod - len) % size_mod }

unfoldable pub zip_of : Eocdr → Memory → ℕ → Option ℕ → Option Zip
zip_of e memory src_len none = none
zip_of e memory src_len (some end) = some (record {
  num_members = e.cd_entries;
  comment = e.comment;
  comment_len = e.comment_len;
  members_begin = e.cd_offset;
  members_end = end;
  memory = memory;
  src_len = src_len;
})

-- zip_read from the values that find_eocdr returned.
unfoldable pub read_archive : List ℕ → Option (ℕ × Eocdr) → Run (Option Zip)
unfolding zip_of
read_archive file none = ok none
read_archive file (some (eocdr_offset, e)) =
    let src_len = archive_len e (length file) eocdr_offset in
    let memory = archive_memory file src_len in
    if eocdr_offset == 0
    then ok none
    else (if e.disk_nbr == 0 && (e.cd_start_disk == 0 && e.disk_cd_entries == e.cd_entries)
        then (do
          members_end ← read_members memory src_len e.cd_entries e.cd_offset
          ok (zip_of e memory src_len members_end))
        else ok none)

unfoldable pub zip_read : List ℕ → Run (Option Zip)
unfolding read_archive
zip_read file = find_eocdr (record { file = file; base = 0 }) (length file) >>= read_archive file

pub record Member : Type 0 where
  pub name : ℕ
  pub name_len : ℕ
  pub mtime : ℤ
  pub comp_size : ℕ
  pub comp_data : ℕ
  pub method : ℕ
  pub uncomp_size : ℕ
  pub crc32 : ℕ
  pub comment : ℕ
  pub comment_len : ℕ
  pub is_dir : Bool
  pub next : ℕ

-- assert(ok)
unfoldable pub asserted {ℓ} : {A : Type ℓ} → Option A → Run A
asserted none = stop assertion
asserted (some a) = ok a

-- The fields that zip_member copies; ext_attrs & EXT_ATTR_DIR is bit 4.
unfoldable pub member_of : (Tm → ℤ) → ℕ → Cfh → Lfh → Member
unfolding dos2ctime
member_of mktime it c l = record {
  name = c.name;
  name_len = c.name_len;
  mtime = dos2ctime mktime c.mod_date c.mod_time;
  comp_size = c.comp_size;
  comp_data = l.extra + l.extra_len;
  method = c.method;
  uncomp_size = c.uncomp_size;
  crc32 = c.crc32;
  comment = c.comment;
  comment_len = c.comment_len;
  is_dir = not (c.ext_attrs / 2 ^ 4 % 2 == 0);
  next = next_offset it c;
}

unfoldable pub zip_member : (Tm → ℤ) → Zip → ℕ → Run Member
unfolding member_of
zip_member mktime zip it = do
  assert (leb zip.members_begin it && ltb it zip.members_end)
  header ← read_cfh zip.memory zip.src_len it
  c ← asserted header
  local ← read_lfh zip.memory zip.src_len c.lfh_offset
  l ← asserted local
  let m = member_of mktime it c l
  assert (leb m.next zip.members_end)
  ok m

-- The bytes of a name, as printf's %.*s reads them; a name that zip_read passed holds no 0.
unfoldable pub name_bytes : Memory → ℕ → ℕ → Run (List ℕ)
name_bytes m p zero = ok []
name_bytes m p (suc n) = do b ← byte_at m p; bs ← name_bytes m (p + 1) n; ok (b ∷ bs)

-- The loop of list_zip, on fuel: the names it prints.
unfoldable pub list_from : (Tm → ℤ) → ℕ → Zip → ℕ → Run (List (List ℕ))
list_from mktime zero zip it = stop fuel
list_from mktime (suc n) zip it = elim (it == zip.members_end) [
  | true ↦ ok []
  | false ↦ do
    m ← zip_member mktime zip it
    name ← name_bytes zip.memory m.name m.name_len
    rest ← list_from mktime n zip m.next
    ok (name ∷ rest)
]
