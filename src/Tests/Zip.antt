-- ===== src/Tests/Zip.antt =====
-- The zip lister at an archive with one empty file, "a", and at one with a directory that is too large.
use otus_c.Prelude.{
  length, All, ℕ, ◌+◌, ◌%◌, ◌^◌, ◌≤◌, ◌<◌, ◌≡◌, refl, sym, subst, ◌∙◌, some, List, [], ◌∷◌, arith,
}
use otus_c.Prelude.Int.{ℤ, pos}
use otus_c.Zip.Run.{ok, stop, out_of_bounds, Returns}
use otus_c.Zip.Detail.{Tm, byte_at, read16le, read32le}
use otus_c.Zip.Header.{
  Eocdr, eocdr_fields, find_from, find_eocdr, cfh_fields, read_cfh, lfh_fields, read_lfh,
}
use otus_c.Zip.Archive.{
  Zip, has_nul, supported, check_member, read_members, archive_len, archive_memory, zip_read,
  zip_member, asserted, name_bytes, list_from,
}
use otus_c.Zip.Safety.{zip_read-Returns, zip_read-overrun}
use otus_c.Zip.Listing.{list_zip-Returns}

abbrev archive : List ℕ
archive =
    80 ∷ 75 ∷ 3 ∷ 4 ∷ 20 ∷ 0 ∷ 0 ∷ 0 ∷ 0 ∷ 0 ∷ 0 ∷ 0 ∷ 0 ∷ 0 ∷ 0 ∷ 0 ∷ 0 ∷ 0 ∷ 0 ∷ 0 ∷ 0 ∷ 0 ∷ 0 ∷ 0
    ∷ 0 ∷ 0 ∷ 1 ∷ 0 ∷ 0 ∷ 0 ∷ 97 ∷ 80 ∷ 75 ∷ 1 ∷ 2 ∷ 20 ∷ 0 ∷ 20 ∷ 0 ∷ 0 ∷ 0 ∷ 0 ∷ 0 ∷ 0 ∷ 0 ∷ 33
    ∷ 0 ∷ 0 ∷ 0 ∷ 0 ∷ 0 ∷ 0 ∷ 0 ∷ 0 ∷ 0 ∷ 0 ∷ 0 ∷ 0 ∷ 0 ∷ 1 ∷ 0 ∷ 0 ∷ 0 ∷ 0 ∷ 0 ∷ 0 ∷ 0 ∷ 0 ∷ 0 ∷ 0
    ∷ 0 ∷ 0 ∷ 0 ∷ 0 ∷ 0 ∷ 0 ∷ 0 ∷ 97 ∷ 80 ∷ 75 ∷ 5 ∷ 6 ∷ 0 ∷ 0 ∷ 0 ∷ 0 ∷ 1 ∷ 0 ∷ 1 ∷ 0 ∷ 47 ∷ 0 ∷ 0
    ∷ 0 ∷ 31 ∷ 0 ∷ 0 ∷ 0 ∷ 0 ∷ 0 ∷ []

abbrev directory_too_large : List ℕ
directory_too_large =
    1 ∷ 80 ∷ 75 ∷ 5 ∷ 6 ∷ 0 ∷ 0 ∷ 0 ∷ 0 ∷ 1 ∷ 0 ∷ 1 ∷ 0 ∷ 64 ∷ 0 ∷ 0 ∷ 0 ∷ 0 ∷ 0 ∷ 0 ∷ 0 ∷ 0 ∷ 0
    ∷ []

-- The calendar time is not looked at here.
abbrev no_time : Tm → ℤ
no_time t = pos 0

-- What a run of the lister unfolds.
program : Unit {0}
unfolding byte_at read16le read32le eocdr_fields find_from find_eocdr cfh_fields read_cfh lfh_fields
    read_lfh has_nul supported check_member read_members archive_len archive_memory zip_read
    zip_member asserted name_bytes list_from
program = tt

abbrev end_record : Eocdr
end_record = record {
  disk_nbr = 0;
  cd_start_disk = 0;
  disk_cd_entries = 1;
  cd_entries = 1;
  cd_size = 47;
  cd_offset = 31;
  comment_len = 0;
  comment = 100;
}

abbrev large_record : Eocdr
large_record = record {
  disk_nbr = 0;
  cd_start_disk = 0;
  disk_cd_entries = 1;
  cd_entries = 1;
  cd_size = 64;
  cd_offset = 0;
  comment_len = 0;
  comment = 23;
}

abbrev opened : Zip
opened = record {
  num_members = 1;
  comment = 100;
  comment_len = 0;
  members_begin = 31;
  members_end = 78;
  memory = record { file = archive; base = 0 };
  src_len = 100;
}

archive_found :
    find_eocdr (record { file = archive; base = 0 }) (length archive) ≡ ok (some (78, end_record))
unfolding program
archive_found = refl

archive_read : zip_read archive ≡ ok (some opened)
unfolding program
archive_read = refl

archive_listed : list_from no_time 2 opened 31 ≡ ok ((b'a' ∷ []) ∷ [])
unfolding program
archive_listed = refl

large_found :
    find_eocdr (record { file = directory_too_large; base = 0 }) (length directory_too_large)
    ≡ ok (some (1, large_record))
unfolding program
large_found = refl

abbrev Fits : ℕ × Eocdr → Type 0
Fits p = (p.1.cd_offset + p.1.cd_size) % 2 ^ 32 ≤ p.0

only_record :
    (o : ℕ) (e : Eocdr)
    → find_eocdr (record { file = archive; base = 0 }) (length archive) ≡ ok (some (o, e))
    → (e.cd_offset + e.cd_size) % 2 ^ 32 ≤ o
only_record o e found =
    subst Fits (ok_some-injective (78, end_record) (o, e) (sym archive_found ∙ found)) (omega arith)
  where
    ok_some-injective : (a b : ℕ × Eocdr) → ok (some a) ≡ ok (some b) → a ≡ b
    ok_some-injective a b e = cc

zip_read-Returns_example : Returns (zip_read archive)
zip_read-Returns_example = zip_read-Returns archive (omega arith) only_record

list_zip-Returns_example :
    (names : List (List ℕ)) × (list_from no_time 2 opened 31 ≡ ok names)
    × (length names ≡ 1)
    × All (All (λ b. 0 < b)) names
list_zip-Returns_example = list_zip-Returns no_time archive opened archive_read

zip_read-overrun_example : zip_read directory_too_large ≡ stop out_of_bounds
zip_read-overrun_example =
    zip_read-overrun directory_too_large 1 large_record (omega arith) large_found (omega arith)
      (refl, refl, refl) (omega arith) (omega arith) (omega arith) (omega arith)
