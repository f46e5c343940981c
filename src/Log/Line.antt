-- ===== src/Log/Line.antt =====
-- What a line in the common format adds to the statistics of HW10-LogParser/src/main.c.
use otus_c.Prelude.{
  ◌==◌, if◌then◌else◌, ==_refl, Bool-cases, length, All, ℕ, ◌≡◌, refl, sym, ap, ◌∙◌, ◌≢◌, ◌⊎◌, inl,
  inr, Bool, true, false, Option, none, some, List, [], ◌∷◌, ◌++◌, arith,
}
use otus_c.Prelude.Int.{ℤ, pos, ◌+ℤ◌, zero_ℤ, +ℤ_zero}
use otus_c.Prelude.Text.{codes, same}
use otus_c.Log.{
  ThreadStats, add_url, add_ref, strchr, behind, trim, parse_ref, parse_size, parse_log_line,
}
use otus_c.Log.Values.{Query, total, url, ref, answer, add_entry-entries, value_of-put}

-- The character does not stand in the text.
unfoldable pub Lacks : ℕ → List ℕ → Type 0
Lacks c text = All (λ x. (x == c) ≡ false) text

strchr_lem :
    (text rest : List ℕ) (c : ℕ)
    → Lacks c text
    → strchr (text ++ (c ∷ rest)) c ≡ some (text, c ∷ rest)
unfolding strchr Lacks
strchr_lem [] rest c a = rw (==_refl c) refl
strchr_lem (x ∷ text) rest c (n, a) = rw (n, strchr_lem text rest c a) refl

-- The url as it stands in the line, with a slash at its end or without.
unfoldable pub written : Bool → List ℕ → List ℕ
written true name = name ++ (b'/' ∷ [])
written false name = name

unfoldable pub ends_with_slash : List ℕ → Bool
ends_with_slash [] = false
ends_with_slash (x ∷ []) = x == b'/'
ends_with_slash (x ∷ y ∷ rest) = ends_with_slash (y ∷ rest)

-- A url as it is counted: not empty, and without a slash at its end unless it is one character.
unfoldable pub IsUrl : List ℕ → Type 0
IsUrl name = (name ≢ []) × ((length name ≡ 1) ⊎ (ends_with_slash name ≡ false))

trim-slash : (x : ℕ) (name : List ℕ) → trim (x ∷ (name ++ (b'/' ∷ []))) ≡ x ∷ name
unfolding trim
trim-slash x [] = refl
trim-slash x (y ∷ []) = refl
trim-slash x (y ∷ z ∷ name) = ap (λ r. x ∷ r) (trim-slash y (z ∷ name))

trim-plain :
    (x y : ℕ) (name : List ℕ)
    → ends_with_slash (y ∷ name) ≡ false
    → trim (x ∷ y ∷ name) ≡ x ∷ y ∷ name
unfolding trim ends_with_slash
trim-plain x y [] h = rw h
trim-plain x y (z ∷ name) h = ap (λ r. x ∷ r) (trim-plain y z name h)

trim-written : (slash : Bool) (name : List ℕ) → IsUrl name → trim (written slash name) ≡ name
unfolding IsUrl written
trim-written slash [] (some_text, _) = absurd (some_text refl)
trim-written true (x ∷ name) u = trim-slash x name
trim-written false (x ∷ []) u = unfold trim in refl
trim-written false (x ∷ y ∷ name) (_, inl one) = absurd (omega (arith, one))
trim-written false (x ∷ y ∷ name) (_, inr h) = trim-plain x y name (unfold ends_with_slash in h)

-- The line: what stands before the request, the request line of a GET, the status and the size, the
-- referer, and what follows it.
pub line : List ℕ → Bool → List ℕ → List ℕ → List ℕ → List ℕ → List ℕ → List ℕ
line before slash name protocol numbers referer after =
    before
    ++ (b'"'
        ∷ (codes "GET "
            ++ (written slash name
                ++ (b' '
                    ∷ (protocol
                        ++ (b'"' ∷ b' ' ∷ (numbers ++ (b'"' ∷ (referer ++ (b'"' ∷ after))))))))))

-- What the line counts for: its size for the total and for its url, and one use of its referer unless
-- that is empty.
pub gain : List ℕ → ℤ → List ℕ → Query → ℤ
gain name size referer total = size
gain name size referer (url k) = if same name k then size else zero_ℤ
gain name size referer (ref k) =
    if length referer == 0 then zero_ℤ else (if same referer k then pos 1 else zero_ℤ)

-- The text that sscanf gets.
unfoldable pub size_text : List ℕ → List ℕ → List ℕ → List ℕ
size_text numbers referer after = b' ' ∷ (numbers ++ (b'"' ∷ (referer ++ (b'"' ∷ after))))

parse_ref_lem :
    (numbers referer after : List ℕ) (s : ThreadStats)
    → Lacks b'"' numbers
    → Lacks b'"' referer
    → parse_ref (size_text numbers referer after) s
      ≡ (if length referer == 0 then s else add_ref s referer (pos 1))
unfolding parse_ref size_text
parse_ref_lem numbers referer after s n r =
    rw
      (
        parse_ref,
        strchr_lem (b' ' ∷ numbers) (referer ++ (b'"' ∷ after)) b'"' (unfold Lacks in (refl, n)),
        strchr_lem referer after b'"' r,
      )
      refl

-- What parse_size does once it has the size.
counted : (List ℕ → Option ℤ) → List ℕ → List ℕ → ThreadStats → ThreadStats
counted scan name text s = elim (scan text) [
  | none ↦ s
  | some size ↦
      parse_ref text (add_url (record s { total_bytes = s.total_bytes +ℤ size }) (trim name) size)
]

parse_size_lem :
    (scan : List ℕ → Option ℤ) (name protocol rest : List ℕ) (s : ThreadStats)
    → Lacks b'"' protocol
    → parse_size scan name (b' ' ∷ (protocol ++ (b'"' ∷ b' ' ∷ rest))) s
      ≡ counted scan name (b' ' ∷ rest) s
unfolding parse_size counted
parse_size_lem scan name protocol rest s p =
    rw
      (
        parse_size,
        strchr_lem (b' ' ∷ protocol) (b' ' ∷ rest) b'"' (unfold Lacks in (refl, p)),
        strchr_lem [] rest b' ' (unfold Lacks in tt),
      )
      refl

parse_log_line_step :
    (scan : List ℕ → Option ℤ) (before name protocol rest : List ℕ) (s : ThreadStats)
    → Lacks b'"' before
    → Lacks b' ' name
    → Lacks b'"' protocol
    → parse_log_line scan
        (before ++ (b'"' ∷ (codes "GET " ++ (name ++ (b' ' ∷ (protocol ++ (b'"' ∷ b' ' ∷ rest)))))))
        s
      ≡ counted scan name (b' ' ∷ rest) s
unfolding parse_log_line behind
parse_log_line_step scan before name protocol rest s b w p =
    rw
      (
        parse_log_line,
        strchr_lem before (codes "GET " ++ (name ++ (b' ' ∷ (protocol ++ (b'"' ∷ b' ' ∷ rest)))))
            b'"' b,
        strchr_lem name (protocol ++ (b'"' ∷ b' ' ∷ rest)) b' ' w,
      )
      (parse_size_lem scan name protocol rest s p)

-- What the total, the url and the referer gain.
gained :
    (q : Query) (name : List ℕ) (size : ℤ) (referer : List ℕ) (s : ThreadStats)
    → let s' = add_url (record s { total_bytes = s.total_bytes +ℤ size }) name size in
      answer q (if length referer == 0 then s' else add_ref s' referer (pos 1))
      ≡ answer q s +ℤ gain name size referer q
unfolding answer add_url add_ref gain
gained total name size referer s = elim (Bool-cases (length referer == 0)) [
  | inl e ↦ rw e refl
  | inr e ↦ rw e refl
]
gained (url k) name size referer s = elim (Bool-cases (length referer == 0)) [
  | inl e ↦
      rw (e, add_entry-entries s.url_map name size) (value_of-put k name size s.url_map.entries)
  | inr e ↦
      rw (e, add_entry-entries s.url_map name size) (value_of-put k name size s.url_map.entries)
]
gained (ref k) name size referer s = elim (Bool-cases (length referer == 0)) [
  | inl e ↦ rw e (sym (+ℤ_zero _))
  | inr e ↦
      rw (e, add_entry-entries s.ref_map referer (pos 1))
        (value_of-put k referer (pos 1) s.ref_map.entries)
]

answer-counted :
    (scan : List ℕ → Option ℤ) (name numbers referer after : List ℕ) (size : ℤ) (q : Query)
    (s : ThreadStats)
    → Lacks b'"' numbers
    → Lacks b'"' referer
    → scan (size_text numbers referer after) ≡ some size
    → answer q (counted scan name (size_text numbers referer after) s)
      ≡ answer q s +ℤ gain (trim name) size referer q
unfolding counted
answer-counted scan name numbers referer after size q s n r e =
    rw (counted, e, parse_ref_lem numbers referer after _ n r) (gained q (trim name) size referer s)

-- A line of a GET request in the common log format, whose size sscanf finds, adds its size to the total
-- and to its url, which counts the same with a slash at its end, one use to its referer, unless that is
-- empty, and nothing to any other count.
pub parse_log_line_lem :
    (scan : List ℕ → Option ℤ) (slash : Bool) (before name protocol numbers referer after : List ℕ)
    (size : ℤ) (q : Query) (s : ThreadStats)
    → Lacks b'"' before
    → IsUrl name
    → Lacks b' ' (written slash name)
    → Lacks b'"' protocol
    → Lacks b'"' numbers
    → Lacks b'"' referer
    → scan (size_text numbers referer after) ≡ some size
    → answer q (parse_log_line scan (line before slash name protocol numbers referer after) s)
      ≡ answer q s +ℤ gain name size referer q
unfolding line
parse_log_line_lem scan slash before name protocol numbers referer after size q s b u w p n r e =
    ap (answer q) (parse_log_line_step scan before (written slash name) protocol _ s b w p)
    ∙ unfold size_text in
      answer-counted scan (written slash name) numbers referer after size q s n r e
      ∙ ap (λ url'. answer q s +ℤ gain url' size referer q) (trim-written slash name u)
