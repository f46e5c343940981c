-- ===== src/Log/Program/Top.antt =====
-- What HW10-LogParser/src/main.c prints for a directory of logs.
use otus_c.Prelude.{ℕ, suc, ◌≡◌, refl, ap, ◌∙◌, Bool, some, List, [], ◌∷◌, ◌++◌, map, arith}
use otus_c.Prelude.Int.{ℤ, pos}
use otus_c.Prelude.Text.{codes, show_int}
use otus_c.Log.{HashEntry, no_stats, thread_function, regular, final_stats}
use otus_c.Log.Values.{Query, answer, total, url, ref}
use otus_c.Log.Threads.{final_stats-sequential}
use otus_c.Log.Report.{final_maps}
use otus_c.Log.Program.{
  System, max_urls, max_referers, entry_line, top, select_top_n, report, start, main,
}
use otus_c.Log.Program.Ranking.{IsSmall, IsTop, top-IsTop}

-- The lines that are printed: a total, the urls, and the referers.
pub printed : ℤ → List HashEntry → List HashEntry → List (List ℕ)
printed bytes urls refs =
    (codes "\nTotal transferred bytes: " ++ (show_int bytes ++ codes "\n"))
    ∷ codes "\nTop heavy URLs:\n"
    ∷ (map entry_line urls ++ (codes "\nMost frequent Referers:\n" ∷ map entry_line refs))

main-report :
    (sys : System) (program log_dir num_threads : List ℕ) (n : ℕ) (dir : List (Bool × List ℕ))
    → sys.atoi num_threads ≡ pos (suc n)
    → sys.opendir log_dir ≡ some dir
    → let s = final_stats sys.scan sys.file (suc n) log_dir dir in
      main sys (program ∷ log_dir ∷ num_threads ∷ []) ≡ (
        printed
            (answer total s)
            (top sys.sorting s.url_map.entries 10)
            (top sys.sorting s.ref_map.entries 10),
        0,
      )
unfolding main start report select_top_n printed max_urls max_referers answer
main-report sys program log_dir num_threads n dir count opened = rw (count, start, opened) refl

-- With a directory that can be opened and any positive number of threads, main prints the total that a
-- single thread would count in all the regular files, and by falling count at most ten urls and at most
-- ten referers, each once and with the number that a single thread would count for it; none that is left
-- out has a larger number, and one that has a number is left out only if there are ten. The counts of
-- urls and referers are at most 2 ^ 31 - 1 and not negative.
pub main-IsTop :
    (sys : System) (program log_dir num_threads : List ℕ) (n : ℕ) (dir : List (Bool × List ℕ))
    → sys.atoi num_threads ≡ pos (suc n)
    → sys.opendir log_dir ≡ some dir
    → let one = thread_function sys.scan sys.file (regular log_dir dir) no_stats in
      ((k : List ℕ) → IsSmall (answer (url k) one))
      → ((k : List ℕ) → IsSmall (answer (ref k) one))
      → (urls refs : List HashEntry) × (main sys (program ∷ log_dir ∷ num_threads ∷ [])
          ≡ (printed (answer total one) urls refs, 0))
        × IsTop 10 (λ k. answer (url k) one) urls
        × IsTop 10 (λ k. answer (ref k) one) refs
unfolding max_urls max_referers answer
main-IsTop sys program log_dir num_threads n dir count opened small_urls small_refs =
    let s = final_stats sys.scan sys.file (suc n) log_dir dir in
    let (u, r) = final_maps sys.scan sys.file (suc n) log_dir dir in
    let same_answer =
      λ (q : Query). final_stats-sequential sys.scan sys.file (suc n) log_dir dir q (omega arith) in
    (
      top sys.sorting s.url_map.entries 10,
      top sys.sorting s.ref_map.entries 10,
      main-report sys program log_dir num_threads n dir count opened
          ∙ ap
              (λ t. (
                printed t (top sys.sorting s.url_map.entries 10)
                    (top sys.sorting s.ref_map.entries 10),
                0,
              ))
              (same_answer total),
      top-IsTop sys.sorting 10 _ s.url_map.entries u.distinct (λ k. same_answer (url k)) small_urls,
      top-IsTop sys.sorting 10 _ s.ref_map.entries r.distinct (λ k. same_answer (ref k)) small_refs,
    )
