-- ===== src/Zip/Program/ReadFile.antt =====
-- read_file of detail.c gives the whole file.
use otus_c.Prelude.{
  ltb, ◌==◌, if◌then◌else◌, Bool-cases, length, length-append, ℕ, zero, suc, ◌+◌, ◌-◌, ◌^◌, ◌≤◌,
  ◌<◌, ◌≡◌, refl, sym, ap, ◌∙◌, inl, inr, true, false, some, List, [], ◌∷◌, ◌++◌, append_assoc,
  append-nil, arith,
}
use otus_c.Zip.Run.{ok}
use otus_c.Zip.Program.{Stdio, grown, has_room, read_loop, read_file}

module _ (io : Stdio) (calm : (f : io.Stream) → io.ferror f ≡ false)
    (closes : (f : io.Stream) → io.fclose f ≡ true) (room : (n : ℕ) → io.available n ≡ true) where
  grown_lem :
      (cap sz : ℕ)
      → sz ≤ cap
      → 0 < cap
      → cap ≤ 2 ^ 61
      → sz < 2 ^ 60
      → (sz < grown io cap sz) × (grown io cap sz ≤ 2 ^ 61)
  unfolding grown
  grown_lem cap sz le pos small total = elim (Bool-cases (cap - sz == 0)) [
    | inl e ↦ rw e (ground arith, ground arith)
    | inr e ↦ rw e (ground arith, small)
  ]

  has_room_lem : (cap sz : ℕ) → has_room io cap sz ≡ true
  unfolding has_room
  has_room_lem cap sz = elim (Bool-cases (cap - sz == 0)) [
    | inl e ↦ rw e (room _)
    | inr e ↦ rw e refl
  ]

  -- One round: the buffer has room for what is read.
  read_loop-round :
      (n : ℕ) (f : io.Stream) (cap : ℕ) (buf : List ℕ)
      → io.feof f ≡ false
      → length buf < grown io cap (length buf)
      → let cap' = grown io cap (length buf) in
        let step = io.fread (cap' - length buf) f in
        read_loop io (suc n) f cap buf ≡ read_loop io n step.1 cap' (buf ++ step.0)
  unfolding read_loop
  read_loop-round n f cap buf unread lt =
      rw (unread, has_room_lem cap (length buf), inside, calm _) refl
    where
      inside :
          ltb
            (grown io cap (length buf))
            (length buf + length (io.fread (grown io cap (length buf) - length buf) f).0)
          ≡ false
      inside = ground (arith, io.length-fread (grown io cap (length buf) - length buf) f)

  -- At the end of the file the loop ends.
  read_loop-end :
      (n : ℕ) (f : io.Stream) (cap : ℕ) (buf : List ℕ)
      → io.feof f ≡ true
      → read_loop io (suc n) f cap buf ≡ ok (some (buf ++ io.contents f))
  unfolding read_loop
  read_loop-end n f cap buf e =
      rw (e, closes f, io.feof-contents f e) (ap (λ b. ok (some b)) (sym (append-nil buf)))

  -- How many rounds are enough: one for each byte that is left, one that reads nothing unless that was
  -- seen, and one to see the end.
  rounds : io.Stream → ℕ
  rounds f = length (io.contents f) + (if io.feof f then 1 else 2)

  rounds-bounds : (f : io.Stream) → (1 ≤ rounds f) × (rounds f ≤ length (io.contents f) + 2)
  unfolding rounds
  rounds-bounds f = elim (Bool-cases (io.feof f)) [
    | inl e ↦ rw e (omega arith, omega arith)
    | inr e ↦ rw e (omega arith, omega arith)
  ]

  rounds-fread :
      (n : ℕ) (f : io.Stream) → io.feof f ≡ false → 0 < n → suc (rounds (io.fread n f).1) ≤ rounds f
  unfolding rounds
  rounds-fread n f unread pos =
      let f' = (io.fread n f).1 in
      rw unread (elim (Bool-cases (io.feof f')) [
        | inl e ↦ rw e (omega (arith, shorter))
        | inr e ↦ rw e (nonempty (io.fread n f).0 refl e)
      ])
    where
      shorter :
          length (io.contents f) ≡ length (io.fread n f).0 + length (io.contents (io.fread n f).1)
      shorter = ap length (io.contents-fread n f) ∙ length-append (io.fread n f).0 _

      nonempty :
          (got : List ℕ)
          → (io.fread n f).0 ≡ got
          → io.feof (io.fread n f).1 ≡ false
          → suc (length (io.contents (io.fread n f).1) + 2) ≤ length (io.contents f) + 2
      nonempty [] e open' = absurd (clash (sym (io.feof-fread n f pos e) ∙ open'))
        where
          clash : true ≡ false → ⊥
          clash q = cc
      nonempty (c ∷ cs) e open' =
          let some_bytes : length (io.fread n f).0 ≡ suc (length cs) = ap length e in
          omega (arith, shorter)

  read_loop_lem :
      (n : ℕ) (f : io.Stream) (size : ℕ) (buf : List ℕ)
      → length buf ≤ size
      → 0 < size
      → size ≤ 2 ^ 61
      → length buf + length (io.contents f) < 2 ^ 60
      → rounds f ≤ n
      → read_loop io n f size buf ≡ ok (some (buf ++ io.contents f))
  read_loop_lem zero f size buf le pos small total enough =
      absurd (omega (arith, (rounds-bounds f).0))
  read_loop_lem (suc n) f size buf le pos small total enough = elim (Bool-cases (io.feof f)) [
    | inl e ↦ read_loop-end n f size buf e
    | inr e ↦
        let (room', small') = grown_lem size (length buf) le pos small (omega arith) in
        let asked = grown io size (length buf) - length buf in
        let (got, f') = io.fread asked f in
        let whole : (buf ++ got) ++ io.contents f' ≡ buf ++ io.contents f =
          append_assoc buf got (io.contents f')
          ∙ ap (λ x. buf ++ x) (sym (io.contents-fread asked f)) in
        let total' : length (buf ++ got) + length (io.contents f')
            ≡ length buf + length (io.contents f) =
          sym (length-append (buf ++ got) (io.contents f'))
          ∙ ap length whole
          ∙ length-append buf (io.contents f) in
        read_loop-round n f size buf e room'
        ∙ read_loop_lem n f' (grown io size (length buf)) (buf ++ got)
            (omega (arith, length-append buf got, io.length-fread asked f)) (omega arith) small'
            (omega (arith, total')) (omega (arith, rounds-fread asked f e (omega arith)))
        ∙ ap (λ b. ok (some b)) whole
  ]

  -- With a round for each byte of the file and two more, read_file gives the whole file, and never writes
  -- behind the end of its buffer.
  pub read_file_lem :
      (n : ℕ) (filename : List ℕ) (f : io.Stream)
      → io.fopen filename ≡ some f
      → length (io.contents f) < 2 ^ 60
      → length (io.contents f) + 2 ≤ n
      → read_file io n filename ≡ ok (some (io.contents f))
  unfolding read_file
  read_file_lem n filename f e small enough =
      rw (read_file, e, room 4096)
        (read_loop_lem n f 4096 [] (omega arith) (omega arith) (omega arith) (omega arith)
          (omega (arith, (rounds-bounds f).1)))
