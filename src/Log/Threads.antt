-- ===== src/Log/Threads.antt =====
-- The threads of HW10-LogParser/src/main.c: that together they count what one of them would.

use otus_c.Prelude.{
  length, get_or, set, replicate, length-set, length-replicate, ℕ, zero, suc, ◌+◌, ◌%◌, ◌≤◌, ◌<◌,
  ◌≡◌, refl, sym, subst, ap, ◌∙◌, ◌≢◌, Bool, Option, List, [], ◌∷◌, ◌++◌, arith, dec_lt,
}
use otus_c.Prelude.Int.{ℤ, ◌+ℤ◌, zero_ℤ, +ℤ_assoc, +ℤ_comm, +ℤ_zero}
use otus_c.Log.{
  ThreadStats, no_stats, process_file, thread_function, regular, split_from, split_files, started,
  merge_stats, join_all, final_stats,
}
use otus_c.Log.Values.{Query, answer, answer-merge_stats, answer-no_stats}
use otus_c.Log.Adds.{Adds-process_file}

-- Bucket t has a file exactly if t is less than the number of files dealt out.
pub Filled : ℕ → List (List (List ℕ)) → Type 0
Filled index [] = Unit
Filled zero (b ∷ bs) = (b ≡ []) × Filled zero bs
Filled (suc index) (b ∷ bs) = (b ≢ []) × Filled index bs

some_file : (b : List (List ℕ)) (name : List ℕ) → b ++ (name ∷ []) ≢ []
some_file [] name e = cc
some_file (x ∷ b) name e = cc

Filled-empty : (n : ℕ) → Filled 0 (replicate n [])
unfolding Filled
Filled-empty zero = tt
Filled-empty (suc n) = (refl, Filled-empty n)

Filled-first :
    (i : ℕ) (bs : List (List (List ℕ))) (name : List ℕ)
    → Filled i bs
    → i < length bs
    → Filled (suc i) (set bs i (get_or bs i [] ++ (name ∷ [])))
unfolding Filled
Filled-first i [] name f h = absurd (omega arith)
Filled-first zero (b ∷ bs) name (_, f) h = (some_file b name, f)
Filled-first (suc i) (b ∷ bs) name (e, f) h = (e, Filled-first i bs name f (omega arith))

Filled-again :
    (i t : ℕ) (bs : List (List (List ℕ))) (name : List ℕ)
    → Filled i bs
    → length bs ≤ i
    → Filled (suc i) (set bs t (get_or bs t [] ++ (name ∷ [])))
unfolding Filled
Filled-again i t [] name f h = tt
Filled-again zero t (b ∷ bs) name f h = absurd (omega arith)
Filled-again (suc i) zero (b ∷ bs) name (e, f) h = (some_file b name, more i bs f (omega arith))
  where
    more : (i : ℕ) (bs : List (List (List ℕ))) → Filled i bs → length bs ≤ i → Filled (suc i) bs
    more i [] f h = tt
    more zero (b ∷ bs) f h = absurd (omega arith)
    more (suc i) (b ∷ bs) (e, f) h = (e, more i bs f (omega arith))
Filled-again (suc i) (suc t) (b ∷ bs) name (e, f) h = (e, Filled-again i t bs name f (omega arith))

plus_one : (i : ℕ) → suc i ≡ i + 1
plus_one i = omega arith

Filled-next :
    (n i : ℕ) (bs : List (List (List ℕ))) (name : List ℕ)
    → length bs ≡ n
    → Filled i bs
    → Filled (suc i) (set bs (i % n) (get_or bs (i % n) [] ++ (name ∷ [])))
Filled-next n i bs name e f = elim (dec_lt i n) [
  | yes lt ↦ let e' : i % n ≡ i = grind arith in rw e' (Filled-first i bs name f (omega arith))
  | no ge ↦ Filled-again i (i % n) bs name f (omega arith)
]

-- For one query, with the files and sscanf fixed.
module _ (scan : List ℕ → Option ℤ) (file : List ℕ → Option (List (List ℕ))) (q : Query) where
  abbrev of_file : List ℕ → ℤ
  of_file name = (Adds-process_file scan file name).share_of q

  of_files : List (List ℕ) → ℤ
  of_files [] = zero_ℤ
  of_files (name ∷ names) = of_file name +ℤ of_files names

  of_buckets : List (List (List ℕ)) → ℤ
  of_buckets [] = zero_ℤ
  of_buckets (b ∷ bs) = of_files b +ℤ of_buckets bs

  answer-thread_function :
      (names : List (List ℕ)) (s : ThreadStats)
      → answer q (thread_function scan file names s) ≡ answer q s +ℤ of_files names
  unfolding thread_function of_files
  answer-thread_function [] s = sym (+ℤ_zero _)
  answer-thread_function (name ∷ names) s =
      answer-thread_function names (process_file scan file name s)
      ∙ rw ((Adds-process_file scan file name).adds q s) (+ℤ_assoc _ _ _)

  answer-join_all :
      (bs : List (List (List ℕ))) (s : ThreadStats)
      → answer q (join_all scan file bs s) ≡ answer q s +ℤ of_buckets bs
  unfolding join_all of_buckets
  answer-join_all [] s = sym (+ℤ_zero _)
  answer-join_all (b ∷ bs) s =
      answer-join_all bs (merge_stats s (thread_function scan file b no_stats))
      ∙ rw
          (
            answer-merge_stats q s (thread_function scan file b no_stats),
            answer-thread_function b no_stats,
            answer-no_stats q,
            +ℤ_comm zero_ℤ (of_files b),
            +ℤ_zero (of_files b),
          )
          (+ℤ_assoc _ _ _)

  of_files-append :
      (b : List (List ℕ)) (name : List ℕ) → of_files (b ++ (name ∷ [])) ≡ of_files b +ℤ of_file name
  unfolding of_files
  of_files-append [] name = +ℤ_comm _ _
  of_files-append (x ∷ b) name = rw (of_files-append b name) (sym (+ℤ_assoc _ _ _))

  of_buckets-set :
      (bs : List (List (List ℕ))) (t : ℕ) (name : List ℕ)
      → t < length bs
      → of_buckets (set bs t (get_or bs t [] ++ (name ∷ []))) ≡ of_file name +ℤ of_buckets bs
  unfolding of_buckets
  of_buckets-set [] t name h = absurd (omega arith)
  of_buckets-set (b ∷ bs) zero name h =
      rw (of_files-append b name, +ℤ_comm (of_files b) (of_file name)) (+ℤ_assoc _ _ _)
  of_buckets-set (b ∷ bs) (suc t) name h =
      rw (of_buckets-set bs t name (omega arith))
        (sym (+ℤ_assoc _ _ _) ∙ ap (λ x. x +ℤ of_buckets bs) (+ℤ_comm _ _) ∙ +ℤ_assoc _ _ _)

  of_buckets-empty : (n : ℕ) → of_buckets (replicate n []) ≡ zero_ℤ
  unfolding of_buckets of_files
  of_buckets-empty zero = refl
  of_buckets-empty (suc n) = rw (of_buckets-empty n) (+ℤ_zero _)

  of_buckets-started :
      (i : ℕ) (bs : List (List (List ℕ))) → Filled i bs → of_buckets (started bs) ≡ of_buckets bs
  unfolding started of_buckets of_files Filled
  of_buckets-started i [] f = refl
  of_buckets-started zero ([] ∷ bs) (_, f) = sym (nothing bs f)
    where
      nothing : (bs : List (List (List ℕ))) → Filled 0 bs → zero_ℤ +ℤ of_buckets bs ≡ zero_ℤ
      nothing [] f = +ℤ_zero _
      nothing (b ∷ bs) (e, f) = rw (e, nothing bs f) (+ℤ_zero _)
  of_buckets-started zero ((x ∷ b) ∷ bs) (e, f) = cc
  of_buckets-started (suc i) ([] ∷ bs) (e, f) = absurd (e refl)
  of_buckets-started (suc i) ((x ∷ b) ∷ bs) (e, f) = rw (of_buckets-started i bs f)

  split_from_lem :
      (n i : ℕ) (bs : List (List (List ℕ))) (names : List (List ℕ))
      → 0 < n
      → length bs ≡ n
      → Filled i bs
      → of_buckets (started (split_from n i bs names)) ≡ of_buckets bs +ℤ of_files names
  unfolding split_from of_files
  split_from_lem n i bs [] h e f = of_buckets-started i bs f ∙ sym (+ℤ_zero _)
  split_from_lem n i bs (name ∷ names) h e f =
      split_from_lem n (i + 1) (set bs (i % n) (get_or bs (i % n) [] ++ (name ∷ []))) names h
        (length-set bs (i % n) _ ∙ e)
        (subst (λ j. Filled j (set bs (i % n) (get_or bs (i % n) [] ++ (name ∷ [])))) (plus_one i)
          (Filled-next n i bs name e f))
      ∙ rw (of_buckets-set bs (i % n) name (omega arith), +ℤ_comm (of_file name) (of_buckets bs))
          (+ℤ_assoc _ _ _)

-- For every number of threads, every total, url and referer count that main prints is the one that a
-- single thread would get from all the regular files of the directory, one after the other.
pub final_stats-sequential :
    (scan : List ℕ → Option ℤ) (file : List ℕ → Option (List (List ℕ))) (nthreads : ℕ)
    (path : List ℕ) (entries : List (Bool × List ℕ)) (q : Query)
    → 0 < nthreads
    → answer q (final_stats scan file nthreads path entries)
      ≡ answer q (thread_function scan file (regular path entries) no_stats)
unfolding final_stats split_files
final_stats-sequential scan file n path entries q h =
    answer-join_all scan file q (started (split_files n (regular path entries))) no_stats
    ∙ ap (λ x. answer q no_stats +ℤ x)
        (split_from_lem scan file q n 0 (replicate n []) (regular path entries) h
            (length-replicate n []) (Filled-empty n)
          ∙ rw (of_buckets-empty scan file q n) (+ℤ_comm _ _ ∙ +ℤ_zero _))
    ∙ sym (answer-thread_function scan file q (regular path entries) no_stats)
