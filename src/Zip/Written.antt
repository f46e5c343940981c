-- ===== src/Zip/Written.antt =====
-- What zip.c reads of the headers that a writer made.
use otus_c.Prelude.{
  ltb, length, ℕ, ◌+◌, ◌-◌, ◌^◌, ◌≤◌, ◌<◌, ◌≡◌, refl, inl, inr, false, ◌||◌, some, List, ◌++◌,
  arith,
}
use otus_c.Zip.Run.{ok}
use otus_c.Zip.Detail.{Memory, read32le}
use otus_c.Zip.Header.{Eocdr, Cfh, Lfh, eocdr_fields, cfh_fields, lfh_fields, read_cfh, read_lfh}
use otus_c.Zip.LittleEndian.{Stands, read16le_lem, read32le_lem}
use otus_c.Zip.Image.{Entry, IsEntry, local_header, central_header, end_record}

unfoldable pub cfh_of : ℕ → ℕ → Entry → Cfh
cfh_of o at e = record {
  made_by_ver = e.made_by_ver;
  extract_ver = e.extract_ver;
  gp_flag = e.gp_flag;
  method = e.method;
  mod_time = e.mod_time;
  mod_date = e.mod_date;
  crc32 = e.crc32;
  comp_size = length e.contents;
  uncomp_size = e.uncomp_size;
  name_len = length e.name;
  extra_len = length e.extra;
  comment_len = length e.comment;
  disk_nbr_start = 0;
  int_attrs = e.int_attrs;
  ext_attrs = e.ext_attrs;
  lfh_offset = at;
  name = o + 46;
  extra = o + 46 + length e.name;
  comment = o + 46 + length e.name + length e.extra;
}

unfoldable pub lfh_of : ℕ → Entry → Lfh
lfh_of o e = record {
  extract_ver = e.extract_ver;
  gp_flag = e.gp_flag;
  method = e.method;
  mod_time = e.mod_time;
  mod_date = e.mod_date;
  crc32 = e.crc32;
  comp_size = length e.contents;
  uncomp_size = e.uncomp_size;
  name_len = length e.name;
  extra_len = length e.local_extra;
  name = o + 30;
  extra = o + 30 + length e.name;
}

unfoldable pub eocdr_of : ℕ → ℕ → ℕ → ℕ → Eocdr
eocdr_of o entries cd_size cd_offset = record {
  disk_nbr = 0;
  cd_start_disk = 0;
  disk_cd_entries = entries;
  cd_entries = entries;
  cd_size = cd_size;
  cd_offset = cd_offset;
  comment_len = 0;
  comment = o + 22;
}

method_fits : (e : Entry) → IsEntry e → e.method < 2 ^ 16
method_fits e v = elim v.method_ok [ inl (z, _) ↦ omega arith | inr z ↦ omega arith ]

module _ (m : Memory) (o : ℕ) (rest : List ℕ) where
  central_signature :
      (at : ℕ) (e : Entry) → Stands m o (central_header at e ++ rest) → read32le m o ≡ ok 0x02014b50
  unfolding central_header
  central_signature at e s =
      read32le_lem m o _ s 0 o 0x02014b50 (omega arith) (omega arith) refl refl refl refl

  cfh_fields_lem :
      (at : ℕ) (e : Entry)
      → at < 2 ^ 32
      → length e.contents < 2 ^ 32
      → IsEntry e
      → Stands m o (central_header at e ++ rest)
      → cfh_fields m o ≡ ok (cfh_of o at e)
  unfolding cfh_fields cfh_of central_header
  cfh_fields_lem at e small fits v s =
      rw
        (
          read16le_lem m o _ s 4 (o + 4) e.made_by_ver v.made_by_ver_fits refl refl refl,
          read16le_lem m o _ s 6 (o + 6) e.extract_ver v.extract_ver_fits refl refl refl,
          read16le_lem m o _ s 8 (o + 8) e.gp_flag v.gp_flag_fits refl refl refl,
          read16le_lem m o _ s 10 (o + 10) e.method (method_fits e v) refl refl refl,
          read16le_lem m o _ s 12 (o + 12) e.mod_time v.mod_time_fits refl refl refl,
          read16le_lem m o _ s 14 (o + 14) e.mod_date v.mod_date_fits refl refl refl,
          read32le_lem m o _ s 16 (o + 16) e.crc32 v.crc32_fits refl refl refl refl refl,
          read32le_lem m o _ s 20 (o + 20) (length e.contents) fits refl refl refl refl refl,
          read32le_lem m o _ s 24 (o + 24) e.uncomp_size v.uncomp_size_fits refl refl refl refl
              refl,
          read16le_lem m o _ s 28 (o + 28) (length e.name) v.name_fits refl refl refl,
          read16le_lem m o _ s 30 (o + 30) (length e.extra) v.extra_fits refl refl refl,
          read16le_lem m o _ s 32 (o + 32) (length e.comment) v.comment_fits refl refl refl,
          read16le_lem m o _ s 34 (o + 34) 0 (omega arith) refl refl refl,
          read16le_lem m o _ s 36 (o + 36) e.int_attrs v.int_attrs_fits refl refl refl,
          read32le_lem m o _ s 38 (o + 38) e.ext_attrs v.ext_attrs_fits refl refl refl refl refl,
          read32le_lem m o _ s 42 (o + 42) at small refl refl refl refl refl,
        )
        refl

  local_signature : (e : Entry) → Stands m o (local_header e ++ rest) → read32le m o ≡ ok 0x04034b50
  unfolding local_header
  local_signature e s =
      read32le_lem m o _ s 0 o 0x04034b50 (omega arith) (omega arith) refl refl refl refl

  lfh_fields_lem :
      (e : Entry)
      → length e.contents < 2 ^ 32
      → IsEntry e
      → Stands m o (local_header e ++ rest)
      → lfh_fields m o ≡ ok (lfh_of o e)
  unfolding lfh_fields lfh_of local_header
  lfh_fields_lem e fits v s =
      rw
        (
          read16le_lem m o _ s 4 (o + 4) e.extract_ver v.extract_ver_fits refl refl refl,
          read16le_lem m o _ s 6 (o + 6) e.gp_flag v.gp_flag_fits refl refl refl,
          read16le_lem m o _ s 8 (o + 8) e.method (method_fits e v) refl refl refl,
          read16le_lem m o _ s 10 (o + 10) e.mod_time v.mod_time_fits refl refl refl,
          read16le_lem m o _ s 12 (o + 12) e.mod_date v.mod_date_fits refl refl refl,
          read32le_lem m o _ s 14 (o + 14) e.crc32 v.crc32_fits refl refl refl refl refl,
          read32le_lem m o _ s 18 (o + 18) (length e.contents) fits refl refl refl refl refl,
          read32le_lem m o _ s 22 (o + 22) e.uncomp_size v.uncomp_size_fits refl refl refl refl
              refl,
          read16le_lem m o _ s 26 (o + 26) (length e.name) v.name_fits refl refl refl,
          read16le_lem m o _ s 28 (o + 28) (length e.local_extra) v.local_extra_fits refl refl refl,
        )
        refl

  pub end_signature :
      (n size off : ℕ) → Stands m o (end_record n size off ++ rest) → read32le m o ≡ ok 0x06054b50
  unfolding end_record
  end_signature n size off s =
      read32le_lem m o _ s 0 o 0x06054b50 (omega arith) (omega arith) refl refl refl refl

  pub eocdr_fields_lem :
      (n size off : ℕ)
      → n < 2 ^ 16
      → size < 2 ^ 32
      → off < 2 ^ 32
      → Stands m o (end_record n size off ++ rest)
      → eocdr_fields m o ≡ ok (eocdr_of o n size off)
  unfolding eocdr_fields eocdr_of end_record
  eocdr_fields_lem n size off hn hs ho s =
      rw
        (
          read16le_lem m o _ s 4 (o + 4) 0 (omega arith) refl refl refl,
          read16le_lem m o _ s 6 (o + 6) 0 (omega arith) refl refl refl,
          read16le_lem m o _ s 8 (o + 8) n hn refl refl refl,
          read16le_lem m o _ s 10 (o + 10) n hn refl refl refl,
          read32le_lem m o _ s 12 (o + 12) size hs refl refl refl refl refl,
          read32le_lem m o _ s 16 (o + 16) off ho refl refl refl refl refl,
          read16le_lem m o _ s 20 (o + 20) 0 (omega arith) refl refl refl,
        )
        refl

  -- The headers are accepted if they lie in the archive with the texts behind them.
  pub read_cfh_lem :
      (len at : ℕ) (e : Entry)
      → at < 2 ^ 32
      → length e.contents < 2 ^ 32
      → IsEntry e
      → Stands m o (central_header at e ++ rest)
      → o + (46 + length e.name + length e.extra + length e.comment) ≤ len
      → read_cfh m len o ≡ ok (some (cfh_of o at e))
  unfolding read_cfh cfh_of
  read_cfh_lem len at e small fits v s room =
      rw (start, central_signature at e s, cfh_fields_lem at e small fits v s, behind) refl
    where
      start : (ltb len o || ltb (len - o) 46) ≡ false
      start = ground arith

      behind : ltb (len - o - 46) (length e.name + length e.extra + length e.comment) ≡ false
      behind = ground arith

  pub read_lfh_lem :
      (len : ℕ) (e : Entry)
      → length e.contents < 2 ^ 32
      → IsEntry e
      → Stands m o (local_header e ++ rest)
      → o + (30 + length e.name + length e.local_extra) ≤ len
      → read_lfh m len o ≡ ok (some (lfh_of o e))
  unfolding read_lfh lfh_of
  read_lfh_lem len e fits v s room =
      rw (start, local_signature e s, lfh_fields_lem e fits v s, behind) refl
    where
      start : (ltb len o || ltb (len - o) 30) ≡ false
      start = ground arith

      behind : ltb (len - o - 30) (length e.name + length e.local_extra) ≡ false
      behind = ground arith
