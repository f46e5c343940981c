-- ===== src/Zip/Header.antt =====
-- zip.c: find_eocdr, read_cfh and read_lfh. A pointer field is an index relative to `src`.
use otus_c.Prelude.{ltb, ◌==◌, if◌then◌else◌, ℕ, zero, suc, ◌+◌, ◌-◌, ◌^◌, ◌||◌, Option, none, some}
use otus_c.Zip.Run.{Run, ok, ◌>>=◌}
use otus_c.Zip.Detail.{Memory, read16le, read32le}

pub record Eocdr : Type 0 where
  pub disk_nbr : ℕ
  pub cd_start_disk : ℕ
  pub disk_cd_entries : ℕ
  pub cd_entries : ℕ
  pub cd_size : ℕ
  pub cd_offset : ℕ
  pub comment_len : ℕ
  pub comment : ℕ

pub record Cfh : Type 0 where
  pub made_by_ver : ℕ
  pub extract_ver : ℕ
  pub gp_flag : ℕ
  pub method : ℕ
  pub mod_time : ℕ
  pub mod_date : ℕ
  pub crc32 : ℕ
  pub comp_size : ℕ
  pub uncomp_size : ℕ
  pub name_len : ℕ
  pub extra_len : ℕ
  pub comment_len : ℕ
  pub disk_nbr_start : ℕ
  pub int_attrs : ℕ
  pub ext_attrs : ℕ
  pub lfh_offset : ℕ
  pub name : ℕ
  pub extra : ℕ
  pub comment : ℕ

pub record Lfh : Type 0 where
  pub extract_ver : ℕ
  pub gp_flag : ℕ
  pub method : ℕ
  pub mod_time : ℕ
  pub mod_date : ℕ
  pub crc32 : ℕ
  pub comp_size : ℕ
  pub uncomp_size : ℕ
  pub name_len : ℕ
  pub extra_len : ℕ
  pub name : ℕ
  pub extra : ℕ

abbrev pub eocdr_base_sz : ℕ
eocdr_base_sz = 22

abbrev pub cfh_base_sz : ℕ
cfh_base_sz = 46

abbrev pub lfh_base_sz : ℕ
lfh_base_sz = 30

-- The fields of an end of central directory record, behind its signature at `o`.
unfoldable pub eocdr_fields : Memory → ℕ → Run Eocdr
eocdr_fields m o = do
  disk_nbr ← read16le m (o + 4)
  cd_start_disk ← read16le m (o + 6)
  disk_cd_entries ← read16le m (o + 8)
  cd_entries ← read16le m (o + 10)
  cd_size ← read32le m (o + 12)
  cd_offset ← read32le m (o + 16)
  comment_len ← read16le m (o + 20)
  ok (record {
    disk_nbr = disk_nbr;
    cd_start_disk = cd_start_disk;
    disk_cd_entries = disk_cd_entries;
    cd_entries = cd_entries;
    cd_size = cd_size;
    cd_offset = cd_offset;
    comment_len = comment_len;
    comment = o + 22;
  })

-- The loop, with `n` rounds left, at `comment_len`. The result is the offset, with the record that
-- was filled in, or `none` where the code returns 0 at the end.
unfoldable pub find_from : ℕ → ℕ → Memory → ℕ → Run (Option (ℕ × Eocdr))
find_from zero comment_len m src_len = ok none
find_from (suc n) comment_len m src_len =
    let next = find_from n (comment_len + 1) m src_len in
    let offset = src_len - eocdr_base_sz - comment_len in
    if ltb src_len (eocdr_base_sz + comment_len) then ok none else (do
      signature ← read32le m offset
      if signature == 0x06054b50
          then (do
            r ← eocdr_fields m offset
            if r.comment_len == comment_len then ok (some (offset, r)) else next)
          else next)

-- comment_len runs from 0 to UINT16_MAX.
unfoldable pub find_eocdr : Memory → ℕ → Run (Option (ℕ × Eocdr))
find_eocdr m src_len = find_from (2 ^ 16) 0 m src_len

unfoldable pub cfh_fields : Memory → ℕ → Run Cfh
cfh_fields m o = do
  made_by_ver ← read16le m (o + 4)
  extract_ver ← read16le m (o + 6)
  gp_flag ← read16le m (o + 8)
  method ← read16le m (o + 10)
  mod_time ← read16le m (o + 12)
  mod_date ← read16le m (o + 14)
  crc32 ← read32le m (o + 16)
  comp_size ← read32le m (o + 20)
  uncomp_size ← read32le m (o + 24)
  name_len ← read16le m (o + 28)
  extra_len ← read16le m (o + 30)
  comment_len ← read16le m (o + 32)
  disk_nbr_start ← read16le m (o + 34)
  int_attrs ← read16le m (o + 36)
  ext_attrs ← read32le m (o + 38)
  lfh_offset ← read32le m (o + 42)
  ok (record {
    made_by_ver = made_by_ver;
    extract_ver = extract_ver;
    gp_flag = gp_flag;
    method = method;
    mod_time = mod_time;
    mod_date = mod_date;
    crc32 = crc32;
    comp_size = comp_size;
    uncomp_size = uncomp_size;
    name_len = name_len;
    extra_len = extra_len;
    comment_len = comment_len;
    disk_nbr_start = disk_nbr_start;
    int_attrs = int_attrs;
    ext_attrs = ext_attrs;
    lfh_offset = lfh_offset;
    name = o + 46;
    extra = o + 46 + name_len;
    comment = o + 46 + name_len + extra_len;
  })

-- `none` is the return value 0.
unfoldable pub read_cfh : Memory → ℕ → ℕ → Run (Option Cfh)
read_cfh m src_len offset =
    if ltb src_len offset || ltb (src_len - offset) cfh_base_sz then ok none else (do
      signature ← read32le m offset
      if signature == 0x02014b50
          then (do
            c ← cfh_fields m offset
            if ltb (src_len - offset - cfh_base_sz) (c.name_len + c.extra_len + c.comment_len)
                then ok none
                else ok (some c))
          else ok none)

unfoldable pub lfh_fields : Memory → ℕ → Run Lfh
lfh_fields m o = do
  extract_ver ← read16le m (o + 4)
  gp_flag ← read16le m (o + 6)
  method ← read16le m (o + 8)
  mod_time ← read16le m (o + 10)
  mod_date ← read16le m (o + 12)
  crc32 ← read32le m (o + 14)
  comp_size ← read32le m (o + 18)
  uncomp_size ← read32le m (o + 22)
  name_len ← read16le m (o + 26)
  extra_len ← read16le m (o + 28)
  ok (record {
    extract_ver = extract_ver;
    gp_flag = gp_flag;
    method = method;
    mod_time = mod_time;
    mod_date = mod_date;
    crc32 = crc32;
    comp_size = comp_size;
    uncomp_size = uncomp_size;
    name_len = name_len;
    extra_len = extra_len;
    name = o + 30;
    extra = o + 30 + name_len;
  })

unfoldable pub read_lfh : Memory → ℕ → ℕ → Run (Option Lfh)
read_lfh m src_len offset =
    if ltb src_len offset || ltb (src_len - offset) lfh_base_sz then ok none else (do
      signature ← read32le m offset
      if signature == 0x04034b50
          then (do
            l ← lfh_fields m offset
            if ltb (src_len - offset - lfh_base_sz) (l.name_len + l.extra_len)
                then ok none
                else ok (some l))
          else ok none)
