-- ===== src/Tests/LogProgram.antt =====
-- Runs of the program of the log parser: a line of a log, and a directory of two files.
use otus_c.Prelude.{
  leb, ◌==◌, if◌then◌else◌, Bool-cases, length, ℕ, ◌≤◌, ◌≡◌, refl, sym, subst, inl, inr, Bool, true,
  false, Option, none, some, List, [], ◌∷◌, arith,
}
use otus_c.Prelude.Int.{ℤ, pos, ◌+ℤ◌, zero_ℤ}
use otus_c.Prelude.Text.{codes, same}
use otus_c.Log.{
  HashEntry, no_stats, thread_function, regular, parse_log_line, bump, grow, store, add_entry,
  add_url, add_ref, strchr, behind, trim, parse_ref, parse_size, parse_lines, process_file,
}
use otus_c.Log.Values.{total, url, ref, answer, value_of}
use otus_c.Log.Line.{
  Lacks, written, ends_with_slash, IsUrl, line, gain, size_text, parse_log_line_lem,
}
use otus_c.Log.Program.{System, main}
use otus_c.Log.Program.Ranking.{IsSmall, IsTop}
use otus_c.Log.Program.Top.{printed, main-IsTop}
use otus_c.Tests.Sorting.{insertion}

-- A size of five bytes wherever sscanf finds its numbers.
abbrev five : List ℕ → Option ℤ
five text = if leb 4 (length text) then some (pos 5) else none

absent : ℕ → List ℕ → Bool
absent c [] = true
absent c (x ∷ xs) = if x == c then false else absent c xs

Lacks-absent : (c : ℕ) (text : List ℕ) → absent c text ≡ true → Lacks c text
unfolding absent Lacks
Lacks-absent c [] h = tt
Lacks-absent c (x ∷ xs) h = elim (Bool-cases (x == c)) [
  | inl e ↦ cc
  | inr e ↦ (e, Lacks-absent c xs (ground arith))
]

parse_log_line_lem_example :
    answer (url (codes "/a")) (
      parse_log_line five
        (line
          (codes "h - - [d] ")
          true
          (codes "/a")
          (codes "HTTP/1.1")
          (codes "200 5 ")
          (codes "r")
          [])
        no_stats)
    ≡ answer (url (codes "/a")) no_stats +ℤ gain (codes "/a") (pos 5) (codes "r") (url (codes "/a"))
unfolding absent written ends_with_slash IsUrl size_text
parse_log_line_lem_example =
    parse_log_line_lem five true (codes "h - - [d] ") (codes "/a") (codes "HTTP/1.1")
      (codes "200 5 ") (codes "r") [] (pos 5) (url (codes "/a")) no_stats (Lacks-absent _ _ refl)
      (λ e. grind arith, inr refl) (Lacks-absent _ _ refl) (Lacks-absent _ _ refl)
      (Lacks-absent _ _ refl) (Lacks-absent _ _ refl) refl

-- A directory with two regular files of one line each.
abbrev server : System
server = record {
  sorting = insertion;
  atoi = λ text. pos (length text);
  opendir = λ name. some ((true, codes "x") ∷ (false, codes "y") ∷ (true, codes "z") ∷ []);
  scan = five;
  file = λ name. some (codes "\"GET /a/ HTTP\" 200 5 \"r\"" ∷ []);
}

url_counts :
    (k : List ℕ)
    → let one =
        thread_function server.scan server.file
          (regular (codes "logs") ((true, codes "x") ∷ (false, codes "y") ∷ (true, codes "z") ∷ []))
          no_stats in
      answer (url k) one ≡ (if same (codes "/a") k then pos 10 else zero_ℤ) +ℤ zero_ℤ
unfolding thread_function regular process_file parse_lines parse_log_line parse_size parse_ref trim
    behind strchr add_ref add_url add_entry store grow bump answer value_of same ◌+ℤ◌
url_counts k = refl

ref_counts :
    (k : List ℕ)
    → let one =
        thread_function server.scan server.file
          (regular (codes "logs") ((true, codes "x") ∷ (false, codes "y") ∷ (true, codes "z") ∷ []))
          no_stats in
      answer (ref k) one ≡ (if same (codes "r") k then pos 2 else zero_ℤ) +ℤ zero_ℤ
unfolding thread_function regular process_file parse_lines parse_log_line parse_size parse_ref trim
    behind strchr add_ref add_url add_entry store grow bump answer value_of same ◌+ℤ◌
ref_counts k = refl

IsSmall-if : (b : Bool) (n : ℕ) → n ≤ 10 → IsSmall ((if b then pos n else zero_ℤ) +ℤ zero_ℤ)
unfolding ◌+ℤ◌
IsSmall-if true n le = (ground arith, ground arith)
IsSmall-if false n le = (ground arith, ground arith)

main-IsTop_example :
    let one =
      thread_function server.scan server.file
        (regular (codes "logs") ((true, codes "x") ∷ (false, codes "y") ∷ (true, codes "z") ∷ []))
        no_stats in
    (urls refs : List HashEntry) × (main server
        (codes "log_parser" ∷ codes "logs" ∷ codes "||" ∷ [])
      ≡ (printed (answer total one) urls refs, 0))
    × IsTop 10 (λ k. answer (url k) one) urls
    × IsTop 10 (λ k. answer (ref k) one) refs
main-IsTop_example =
    main-IsTop server (codes "log_parser") (codes "logs") (codes "||") 1
      ((true, codes "x") ∷ (false, codes "y") ∷ (true, codes "z") ∷ []) refl refl
      (λ k. subst IsSmall (sym (url_counts k)) (IsSmall-if (same (codes "/a") k) 10 (omega arith)))
      (λ k. subst IsSmall (sym (ref_counts k)) (IsSmall-if (same (codes "r") k) 2 (omega arith)))
