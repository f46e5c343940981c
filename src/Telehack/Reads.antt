-- ===== src/Telehack/Reads.antt =====
-- What HW11-Network/src/convertor.c prints of a message that comes in several reads.
use otus_c.Prelude.{
  ◌==◌, if◌then◌else◌, Bool-cases, length, drop, replicate, All, length-append, length-drop, ℕ,
  zero, suc, ◌-◌, ◌<◌, ◌≡◌, refl, sym, ap, ◌∙◌, ◌≢◌, inl, inr, Bool, false, Option, none, some,
  List, [], ◌∷◌, ◌++◌, append_assoc, arith,
}
use otus_c.Prelude.Text.{codes}
use otus_c.Telehack.{buf_size, c_string, last_of, fill, shown, read_loop, read_msg}

-- A read that gives text, with room for a zero byte behind it.
abbrev pub IsText : List ℕ → Type 0
IsText got = (got ≢ []) × (length got < buf_size) × All (λ c. (c == 0) ≡ false) got

unfoldable pub ends_with_dot : List ℕ → Bool
ends_with_dot text = elim (last_of text) [ none ↦ false | some c ↦ c == b'.' ]

-- The texts that are printed: what came, and behind it the end of the text before it, as far as that
-- was longer. The first one that ends with a dot is the last.
unfoldable pub texts : Bool → List ℕ → List (List ℕ) → List ℕ × Option (List (List ℕ))
texts print before [] = ([], none)
texts print before (got ∷ reads) =
    let text = fill got before in
    let (printed, left) = texts print text reads in
    if ends_with_dot text
    then (shown print text ++ shown print (codes "\n"), some reads)
    else (shown print text ++ printed, left)

-- The buffer with a text in it.
padded : List ℕ → List ℕ
padded text = text ++ replicate (buf_size - length text) 0

drop_eq : (m n : ℕ) (ys : List ℕ) → m ≡ n → drop m ys ≡ drop n ys
drop_eq m n ys e = ap (λ k. drop k ys) e

zeros_eq : (m n : ℕ) → m ≡ n → replicate {A = ℕ} m 0 ≡ replicate n 0
zeros_eq m n e = ap (λ k. replicate k 0) e

drop-append : (n : ℕ) (xs ys : List ℕ) → drop n (xs ++ ys) ≡ drop n xs ++ drop (n - length xs) ys
drop-append zero xs ys = ap (λ x. xs ++ x) (drop_eq 0 (0 - length xs) ys (omega arith))
drop-append (suc n) [] ys = drop_eq (suc n) (suc n - 0) ys (omega arith)
drop-append (suc n) (x ∷ xs) ys =
    drop-append n xs ys
    ∙ ap (λ z. drop n xs ++ z) (drop_eq (n - length xs) (suc n - suc (length xs)) ys (omega arith))

drop-zeros : (n m : ℕ) → drop n (replicate {A = ℕ} m 0) ≡ replicate (m - n) 0
drop-zeros zero m = zeros_eq m (m - 0) (omega arith)
drop-zeros (suc n) zero = zeros_eq 0 (0 - suc n) (omega arith)
drop-zeros (suc n) (suc m) = drop-zeros n m ∙ zeros_eq (m - n) (suc m - suc n) (omega arith)

fill-padded : (got before : List ℕ) → fill got (padded before) ≡ padded (fill got before)
unfolding fill padded
fill-padded got before =
    ap (λ x. got ++ x)
      (drop-append (length got) before (replicate (buf_size - length before) 0)
        ∙ ap (λ x. drop (length got) before ++ x)
            (drop-zeros (length got - length before) (buf_size - length before)))
    ∙ sym (append_assoc got (drop (length got) before) _)
    ∙ ap (λ k. (got ++ drop (length got) before) ++ replicate k 0) room
  where
    room :
        (buf_size - length before) - (length got - length before)
        ≡ buf_size - length (got ++ drop (length got) before)
    room =
        omega (arith, length-append got (drop (length got) before), length-drop (length got) before)

c_string_lem :
    (text : List ℕ) (k : ℕ)
    → All (λ c. (c == 0) ≡ false) text
    → c_string (text ++ replicate (suc k) 0) ≡ some text
unfolding c_string
c_string_lem [] k a = refl
c_string_lem (c ∷ cs) k (nz, a) = rw (nz, c_string_lem cs k a) refl

last_of_lem : (c : ℕ) (cs : List ℕ) → (l : ℕ) × (last_of (c ∷ cs) ≡ some l)
unfolding last_of
last_of_lem c [] = (c, refl)
last_of_lem c (d ∷ cs) = last_of_lem d cs

c_string-padded :
    (text : List ℕ)
    → length text < buf_size
    → All (λ c. (c == 0) ≡ false) text
    → c_string (padded text) ≡ some text
unfolding padded
c_string-padded text short nz =
    ap (λ z. c_string (text ++ z))
      (zeros_eq (buf_size - length text) (suc (buf_size - length text - 1)) (omega arith))
    ∙ c_string_lem text (buf_size - length text - 1) nz

drop-nonzero :
    (n : ℕ) (xs : List ℕ) → All (λ c. (c == 0) ≡ false) xs → All (λ c. (c == 0) ≡ false) (drop n xs)
drop-nonzero zero xs a = a
drop-nonzero (suc n) [] a = a
drop-nonzero (suc n) (x ∷ xs) (a, others) = drop-nonzero n xs others

append-nonzero :
    (xs ys : List ℕ)
    → All (λ c. (c == 0) ≡ false) xs
    → All (λ c. (c == 0) ≡ false) ys
    → All (λ c. (c == 0) ≡ false) (xs ++ ys)
append-nonzero [] ys a b = b
append-nonzero (x ∷ xs) ys (a, others) b = (a, append-nonzero xs ys others b)

fill-nonzero :
    (got before : List ℕ)
    → All (λ c. (c == 0) ≡ false) got
    → All (λ c. (c == 0) ≡ false) before
    → All (λ c. (c == 0) ≡ false) (fill got before)
unfolding fill
fill-nonzero got before g b = append-nonzero got _ g (drop-nonzero (length got) before b)

ends_lem : (text : List ℕ) (l : ℕ) → last_of text ≡ some l → ends_with_dot text ≡ (l == b'.')
unfolding ends_with_dot
ends_lem text l e = rw (ends_with_dot, e) refl

length-fill :
    (got before : List ℕ)
    → length got < buf_size
    → length before < buf_size
    → length (fill got before) < buf_size
unfolding fill
length-fill got before g b =
    omega (arith, length-append got (drop (length got) before), length-drop (length got) before)

last_of-fill : (got before : List ℕ) → got ≢ [] → (l : ℕ) × (last_of (fill got before) ≡ some l)
unfolding fill
last_of-fill [] before some_text = absurd (some_text refl)
last_of-fill (c ∷ cs) before some_text = last_of_lem c _

texts_lem :
    (print : Bool) (before : List ℕ) (reads : List (List ℕ))
    → length before < buf_size
    → All (λ c. (c == 0) ≡ false) before
    → All IsText reads
    → read_loop print reads (padded before) ≡ some (texts print before reads)
unfolding read_loop texts
texts_lem print before [] short nz a = refl
texts_lem print before (got ∷ reads) short nz ((some_text, room, full), as') =
    let text = fill got before in
    let text_nz = fill-nonzero got before full nz in
    let text_short = length-fill got before room short in
    let (l, last) = last_of-fill got before some_text in
    let next = texts_lem print text reads text_short text_nz as' in
    elim (Bool-cases (l == b'.')) [
      | inl e ↦
          rw
            (
              fill-padded got before,
              c_string-padded text text_short text_nz,
              last,
              ends_lem text l last,
              e,
            )
            refl
      | inr e ↦
          rw
            (
              fill-padded got before,
              c_string-padded text text_short text_nz,
              last,
              ends_lem text l last,
              e,
              next,
            )
            refl
    ]

-- Reading a message whose reads give text that leaves room in the buffer never leaves the buffer. What
-- is printed is each read with the end of the text before it still behind it, as far as that was longer,
-- and the loop ends after the first such text whose last character is a dot; the rest is not read.
pub read_msg_lem :
    (print : Bool) (reads : List (List ℕ))
    → All IsText reads
    → read_msg print reads ≡ some (texts print [] reads)
unfolding read_msg buf_size padded
read_msg_lem print reads a = texts_lem print [] reads (omega arith) tt a
