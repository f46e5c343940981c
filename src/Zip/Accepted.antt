-- ===== src/Zip/Accepted.antt =====
-- zip_read and the loop of list_zip on an archive as its writers make it.
use otus_c.Prelude.{
  ltb, ◌==◌, ==_refl, length, All, length-append, ℕ, zero, suc, ◌+◌, ◌-◌, ◌%◌, ◌^◌, ◌≤◌, ◌<◌, ◌≡◌,
  refl, sym, subst, ap, ap₂, ◌∙◌, true, false, ◌&&◌, some, List, [], ◌∷◌, ◌++◌, map, append-nil,
  arith,
}
use otus_c.Prelude.Int.{ℤ}
use otus_c.Zip.Run.{ok}
use otus_c.Zip.Detail.{Memory, size_mod, Tm, read32le}
use otus_c.Zip.Header.{Cfh, Eocdr, eocdr_base_sz, eocdr_fields, find_from, find_eocdr}
use otus_c.Zip.Archive.{
  Zip, check_data, check_header, check_member, read_members, next_offset, archive_len,
  archive_memory, zip_of, read_archive, zip_read, name_bytes, list_from,
}
use otus_c.Zip.LittleEndian.{Stands}
use otus_c.Zip.Bytes.{Stands-behind, file-Stands, name_bytes-Stands}
use otus_c.Zip.Image.{Entry, IsEntry, local_entry, locals, central, end_record, archive}
use otus_c.Zip.Written.{cfh_of, eocdr_of, end_signature, eocdr_fields_lem}
use otus_c.Zip.Laid.{Laid, Laid-Passed, Laid-rest, name-Stands, length-locals-ge}
use otus_c.Zip.Members.{Passed}
use otus_c.Zip.Listing.{zip_member-Passed, list_from-end, list_from-step}

check_member-Passed :
    (m : Memory) (len o : ℕ) (c : Cfh) → Passed m len o c → check_member m len o ≡ ok (some c)
unfolding check_member check_header check_data
check_member-Passed m len o c p = rw (p.header, p.method_ok, p.name_ok, p.local_header, fits) refl
  where
    fits : ltb (len - (p.local.extra + p.local.extra_len)) c.comp_size ≡ false
    fits = ground (arith, p.data_fits)

read_members-step :
    (m : Memory) (len n o : ℕ) (c : Cfh)
    → Passed m len o c
    → read_members m len (suc n) o ≡ read_members m len n (next_offset o c)
unfolding read_members
read_members-step m len n o c p = rw (check_member-Passed m len o c p) refl

-- Where the central headers end.
end_of : List Entry → ℕ → ℕ → ℕ
end_of [] o at = o
end_of (e ∷ es) o at = end_of es (next_offset o (cfh_of o at e)) (at + length (local_entry e))

read_members-Laid :
    (m : Memory) (len : ℕ) (es : List Entry) (o at : ℕ)
    → Laid m len o at es
    → read_members m len (length es) o ≡ ok (some (end_of es o at))
unfolding end_of
read_members-Laid m len [] o at l = unfold read_members in refl
read_members-Laid m len (e ∷ es) o at l =
    read_members-step m len (length es) o (cfh_of o at e) (Laid-Passed m len o at e es l)
    ∙ read_members-Laid m len es _ _ (Laid-rest m len o at e es l)

end_of-le : (es : List Entry) (o at : ℕ) → o + length es ≤ end_of es o at
unfolding end_of
end_of-le [] o at = omega arith
end_of-le (e ∷ es) o at =
    omega (arith, end_of-le es (next_offset o (cfh_of o at e)) (at + length (local_entry e)))

pub names_of : List Entry → List (List ℕ)
names_of es = map (λ e. e.name) es

list_from-Laid :
    (mktime : Tm → ℤ) (z : Zip) (es : List Entry) (n o at : ℕ)
    → Laid z.memory z.src_len o at es
    → end_of es o at ≡ z.members_end
    → z.members_begin ≤ o
    → length es < n
    → list_from mktime n z o ≡ ok (names_of es)
unfolding end_of names_of
list_from-Laid mktime z [] zero o at l q lo h = absurd (omega arith)
list_from-Laid mktime z [] (suc n) o at l q lo h =
    ap (list_from mktime (suc n) z) q ∙ list_from-end mktime n z
list_from-Laid mktime z (e ∷ es) zero o at l q lo h = absurd (omega arith)
list_from-Laid mktime z (e ∷ es) (suc n) o at l q lo h =
    let c = cfh_of o at e in
    let after : next_offset o c + length es ≤ z.members_end =
      subst (λ end. next_offset o c + length es ≤ end) q
        (end_of-le es (next_offset o c) (at + length (local_entry e))) in
    let (r, got, name, len, next) =
      zip_member-Passed mktime z o c (Laid-Passed z.memory z.src_len o at e es l) lo
        (omega arith) in
    let read : name_bytes z.memory c.name c.name_len ≡ ok e.name =
      unfold cfh_of in
      name_bytes-Stands z.memory (o + 46) e.name (name-Stands z.memory z.src_len o at e es l) in
    list_from-step mktime n z o r e.name (names_of es) (omega arith) got
      (ap₂ (name_bytes z.memory) name len ∙ read)
      (ap (list_from mktime n z) next
        ∙ list_from-Laid mktime z es n _ _ (Laid-rest z.memory z.src_len o at e es l) q
            (omega arith) (omega arith))

-- The search for the end record finds one that has no comment in its first round.
find_from-first :
    (m : Memory) (len o n : ℕ) (r : Eocdr)
    → len ≡ o + eocdr_base_sz
    → read32le m o ≡ ok 0x06054b50
    → eocdr_fields m o ≡ ok r
    → r.comment_len ≡ 0
    → find_from (suc n) 0 m len ≡ ok (some (o, r))
unfolding find_from
find_from-first m len o n r size signature fields no_comment =
    rw (room, place, signature, fields, no_comment) refl
  where
    room : ltb len (eocdr_base_sz + 0) ≡ false
    room = ground arith

    place : len - eocdr_base_sz - 0 ≡ o
    place = omega arith

module _ (before : List ℕ) (es : List Entry) where
  abbrev file : List ℕ
  file = before ++ archive es

  entries : ℕ
  entries = length es

  cd_size : ℕ
  cd_size = length (central 0 es)

  cd_offset : ℕ
  cd_offset = length (locals es)

  -- Where the end record stands in the file.
  end_at : ℕ
  end_at = length before + cd_offset + cd_size

  found : Eocdr
  found = eocdr_of end_at entries cd_size cd_offset

  length-archive : length (archive es) ≡ cd_offset + cd_size + 22
  unfolding archive cd_offset cd_size end_record
  length-archive = omega (
    arith,
    length-append (locals es)
        (central 0 es ++ end_record (length es) (length (central 0 es)) (length (locals es))),
    length-append (central 0 es)
        (end_record (length es) (length (central 0 es)) (length (locals es))),
  )

  pub length-archive-ge : length es ≤ length (archive es)
  length-archive-ge = unfold cd_offset in omega (arith, length-archive, length-locals-ge es)

  end-Stands :
      length file < size_mod
      → Stands
          (record { file = file; base = 0 })
          end_at
          (end_record entries cd_size cd_offset ++ [])
  unfolding entries cd_size cd_offset end_at archive
  end-Stands small =
      subst (Stands m end_at) (sym (append-nil (end_record entries cd_size cd_offset))) (
        Stands-behind m (length before + cd_offset) _ (central 0 es) _ refl (
          Stands-behind m (length before) _ (locals es) _ refl
            (Stands-behind m 0 (length before) before _ (omega arith) (file-Stands [] file small))))
    where
      m : Memory
      m = record { file = file; base = 0 }

  find_eocdr-archive :
      length file < size_mod
      → entries < 2 ^ 16
      → cd_size < 2 ^ 32
      → cd_offset < 2 ^ 32
      → find_eocdr (record { file = file; base = 0 }) (length file) ≡ ok (some (end_at, found))
  unfolding find_eocdr eocdr_of found
  find_eocdr-archive small n c o =
      find_from-first (record { file = file; base = 0 }) (length file) end_at 65535 found place
        (end_signature _ end_at [] entries cd_size cd_offset (end-Stands small))
        (eocdr_fields_lem _ end_at [] entries cd_size cd_offset n c o (end-Stands small)) refl
    where
      place : length file ≡ end_at + 22
      place = unfold end_at in omega (arith, length-append before (archive es), length-archive)

  memory : Memory
  memory = record { file = file; base = length before }

  archive-Laid :
      length file < size_mod
      → length (archive es) < 2 ^ 32
      → All IsEntry es
      → Laid memory (length (archive es)) cd_offset 0 es
  unfolding archive cd_offset memory
  archive-Laid small fits ok_entries =
      let body = file-Stands before (archive es) small in
      record {
        tail = end_record (length es) (length (central 0 es)) (length (locals es));
        rest = central 0 es ++ end_record (length es) (length (central 0 es)) (length (locals es));
        central_stands = Stands-behind memory 0 cd_offset (locals es) _ (omega arith) body;
        locals_stands = body;
        entries_ok = ok_entries;
        central_fits = unfold cd_size in omega (arith, length-archive);
        locals_fit = omega (arith, length-archive);
        small = omega (arith, length-archive);
      }

  pub opened : Zip
  opened = record {
    num_members = length es;
    comment = end_at + 22;
    comment_len = 0;
    members_begin = cd_offset;
    members_end = end_of es cd_offset 0;
    memory = memory;
    src_len = length (archive es);
  }

  pub opened-comment_len : opened.comment_len ≡ 0
  opened-comment_len = unfold opened in refl

  archive_len_lem :
      length file < 2 ^ 63
      → length (archive es) < 2 ^ 32
      → archive_len found (length file) end_at ≡ length (archive es)
  unfolding archive_len found eocdr_of end_at
  archive_len_lem small fits =
      let total = length-append before (archive es) in
      let sum : (cd_offset + cd_size) % 2 ^ 32 ≡ cd_offset + cd_size =
        omega (arith, length-archive) in
      rw sum (omega (arith, length-archive, total))

  archive_memory_lem : length file < 2 ^ 63 → archive_memory file (length (archive es)) ≡ memory
  unfolding archive_memory memory
  archive_memory_lem small =
      let base : (length file + size_mod - length (archive es)) % size_mod ≡ length before =
        omega (arith, length-append before (archive es)) in
      ap (λ b. record { file = file; base = b }) base

  read_archive-archive :
      length file < 2 ^ 63
      → length (archive es) < 2 ^ 32
      → 0 < length before + length es
      → All IsEntry es
      → read_archive file (some (end_at, found)) ≡ ok (some opened)
  unfolding read_archive zip_of entries
  read_archive-archive small fits some_offset ok_entries =
      rw (archive_len_lem small fits, archive_memory_lem small, not_at_zero, one_disk, members)
        (unfold found eocdr_of opened in refl)
    where
      zero_test : (n : ℕ) → 0 < n → (n == 0) ≡ false
      zero_test n h = ground arith

      positive : 0 < end_at
      positive = unfold end_at cd_offset in omega (arith, length-locals-ge es)

      not_at_zero : (end_at == 0) ≡ false
      not_at_zero = zero_test end_at positive

      one_disk :
          (found.disk_nbr == 0
            && (found.cd_start_disk == 0 && found.disk_cd_entries == found.cd_entries))
          ≡ true
      one_disk = unfold found eocdr_of in rw (==_refl entries) refl

      members :
          read_members memory (length (archive es)) found.cd_entries found.cd_offset
          ≡ ok (some (end_of es cd_offset 0))
      members =
          unfold found eocdr_of entries in
          read_members-Laid memory (length (archive es)) es cd_offset 0
            (archive-Laid (omega arith) fits ok_entries)

  -- A zip file as its writers make it, behind anything else, is accepted.
  pub zip_read-archive :
      length file < 2 ^ 63
      → length (archive es) < 2 ^ 32
      → length es < 2 ^ 16
      → 0 < length before + length es
      → All IsEntry es
      → zip_read file ≡ ok (some opened)
  unfolding zip_read entries
  zip_read-archive small fits count some_offset ok_entries =
      rw
        (find_eocdr-archive (omega arith) count (omega (arith, length-archive))
          (omega (arith, length-archive)))
        (read_archive-archive small fits some_offset ok_entries)

  pub list_from-archive :
      (mktime : Tm → ℤ) (n : ℕ)
      → length file < 2 ^ 63
      → length (archive es) < 2 ^ 32
      → All IsEntry es
      → length es < n
      → list_from mktime n opened opened.members_begin ≡ ok (names_of es)
  list_from-archive mktime n small fits ok_entries h =
      unfold opened in
      list_from-Laid mktime opened es n cd_offset 0 (archive-Laid (omega arith) fits ok_entries)
        refl (omega arith) h
