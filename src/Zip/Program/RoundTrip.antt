-- ===== src/Zip/Program/RoundTrip.antt =====
-- The lister on an archive as its writers make it, behind a picture or any other bytes.
use otus_c.Prelude.{
  length, All, length-append, ℕ, ◌+◌, ◌^◌, ◌≤◌, ◌<◌, ◌≡◌, refl, ap, ◌∙◌, true, false, some, List,
  [], ◌∷◌, ◌++◌, map, arith,
}
use otus_c.Prelude.Int.{ℤ}
use otus_c.Prelude.Text.{codes}
use otus_c.Zip.Run.{ok}
use otus_c.Zip.Detail.{Tm}
use otus_c.Zip.Image.{Entry, IsEntry, archive}
use otus_c.Zip.Accepted.{
  names_of, opened, opened-comment_len, zip_read-archive, list_from-archive, length-archive-ge,
}
use otus_c.Zip.Program.{
  Stdio, comment_bytes, heading, print_zip, list_bytes, list_zip, main, read_file,
}
use otus_c.Zip.Program.ReadFile.{read_file_lem}

-- What is to be printed for the names of an archive.
unfoldable pub listing : List ℕ → List (List ℕ) → List (List ℕ)
listing filename names =
    (codes "Listing ZIP archive: " ++ (filename ++ codes "\n\n"))
    ∷ (map (λ name. name ++ codes "\n") names ++ (codes "\n" ∷ []))

module _ (io : Stdio) where
  print_zip-opened :
      (mktime : Tm → ℤ) (n : ℕ) (filename before : List ℕ) (es : List Entry)
      → length (before ++ archive es) < 2 ^ 63
      → length (archive es) < 2 ^ 32
      → All IsEntry es
      → length es < n
      → print_zip io mktime n filename
          (record { file = before ++ archive es; base = 0 })
          (opened before es)
        ≡ ok (listing filename (names_of es), 0)
  unfolding print_zip listing heading comment_bytes
  print_zip-opened mktime n filename before es small fits ok_entries h =
      rw
        (list_from-archive before es mktime n small fits ok_entries h, opened-comment_len before es)
        refl

  -- The file is a zip archive of fewer than 2 ^ 32 bytes with no comment and fewer than 2 ^ 16 members, behind
  -- any other bytes, less than 2 ^ 60 bytes in all; and it is not an archive without members at the very
  -- start of the file. The numbers of the members fit their fields, no name has a zero byte, and each member
  -- is stored with its own size or deflated, and not encrypted. If no call of stdio fails and there is
  -- memory, main prints the name of each member, in the order of the archive and on a line of its own, and
  -- returns 0; with a round for each byte of the file and two more its loops come to their ends.
  pub main-archive :
      (mktime : Tm → ℤ) (n : ℕ) (program filename before : List ℕ) (others : List (List ℕ))
      (es : List Entry) (f : io.Stream)
      → ((g : io.Stream) → io.ferror g ≡ false)
      → ((g : io.Stream) → io.fclose g ≡ true)
      → ((size : ℕ) → io.available size ≡ true)
      → io.fopen filename ≡ some f
      → io.contents f ≡ before ++ archive es
      → length (before ++ archive es) < 2 ^ 60
      → length (archive es) < 2 ^ 32
      → length es < 2 ^ 16
      → 0 < length before + length es
      → All IsEntry es
      → length (before ++ archive es) + 2 ≤ n
      → main io mktime n (program ∷ filename ∷ others) ≡ ok (listing filename (names_of es), 0)
  unfolding main list_zip list_bytes
  main-archive mktime n program filename before others es f calm closes room opens holds small fits
        count some_offset ok_entries enough =
      rw (read, zip_read-archive before es (omega arith) fits count some_offset ok_entries)
        (print_zip-opened mktime n filename before es (omega arith) fits ok_entries
          (omega (arith, length-archive-ge before es, length-append before (archive es))))
    where
      size : length (io.contents f) ≡ length (before ++ archive es)
      size = ap length holds

      read : read_file io n filename ≡ ok (some (before ++ archive es))
      read =
          read_file_lem io calm closes room n filename f opens (omega (arith, size))
            (omega (arith, size))
          ∙ ap (λ b. ok (some b)) holds
