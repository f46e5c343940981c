-- ===== src/Log/Program.antt =====
-- select_top_n and main of HW10-LogParser/src/main.c. qsort, atoi and opendir with readdir are parameters,
-- and so are sscanf and the lines that fgets returns.
use otus_c.Prelude.{
  take, All, ℕ, zero, suc, ◌⊎◌, Bool, Option, none, some, Memᴰ, Permᴰ, List, [], ◌∷◌, ◌++◌, map,
}
use otus_c.Prelude.Int.{ℤ, pos, negsuc, zero_ℤ, ◌≤ℤ◌}
use otus_c.Prelude.Text.{codes, show_int}
use otus_c.Log.{HashEntry, compare_by_value, ThreadStats, final_stats}
pub mod Permuted
pub mod Ranking
pub mod Top

-- A comparison that qsort can sort the elements of a list by.
pub record IsConsistent (compare : HashEntry → HashEntry → ℤ) (es : List HashEntry) : Type 0 where
  pub total :
      (a b : HashEntry) → Memᴰ a es → Memᴰ b es → (compare a b ≤ℤ zero_ℤ) ⊎ (compare b a ≤ℤ zero_ℤ)
  pub transitive :
      (a b c : HashEntry)
      → Memᴰ a es
      → Memᴰ b es
      → Memᴰ c es
      → compare a b ≤ℤ zero_ℤ
      → compare b c ≤ℤ zero_ℤ
      → compare a c ≤ℤ zero_ℤ

-- No element compares as greater than a later one.
unfoldable pub IsSorted : (HashEntry → HashEntry → ℤ) → List HashEntry → Type 0
IsSorted compare [] = Unit
IsSorted compare (e ∷ es) = All (λ x. compare e x ≤ℤ zero_ℤ) es × IsSorted compare es

pub record Qsort : Type 0 where
  pub qsort : (HashEntry → HashEntry → ℤ) → List HashEntry → List HashEntry
  pub permuted :
      (compare : HashEntry → HashEntry → ℤ) (es : List HashEntry) → Permᴰ es (qsort compare es)
  pub sorted :
      (compare : HashEntry → HashEntry → ℤ) (es : List HashEntry)
      → IsConsistent compare es
      → IsSorted compare (qsort compare es)

pub max_urls : ℕ
max_urls = 10

pub max_referers : ℕ
max_referers = 10

pub entry_line : HashEntry → List ℕ
entry_line e = e.key ++ (codes " : " ++ (show_int e.value ++ codes "\n"))

-- The entries that are printed: those with an index below n and below size.
pub top : Qsort → List HashEntry → ℕ → List HashEntry
top q map n = take n (q.qsort compare_by_value map)

pub select_top_n : Qsort → List HashEntry → ℕ → List (List ℕ)
select_top_n q entries n = map entry_line (top q entries n)

pub report : Qsort → ThreadStats → List (List ℕ)
report q s =
    (codes "\nTotal transferred bytes: " ++ (show_int s.total_bytes ++ codes "\n"))
    ∷ codes "\nTop heavy URLs:\n"
    ∷ (select_top_n q s.url_map.entries max_urls
        ++ (codes "\nMost frequent Referers:\n" ∷ select_top_n q s.ref_map.entries max_referers))

-- What is outside this file.
pub record System : Type 0 where
  pub sorting : Qsort
  pub atoi : List ℕ → ℤ
  pub opendir : List ℕ → Option (List (Bool × List ℕ))
  pub scan : List ℕ → Option ℤ
  pub file : List ℕ → Option (List (List ℕ))

-- From the number of threads on: what goes to the standard output, and the exit status.
pub start : System → ℤ → List ℕ → List (List ℕ) × ℕ
start sys (negsuc n) log_dir = ([], 1)
start sys (pos zero) log_dir = ([], 1)
start sys (pos (suc n)) log_dir = elim (sys.opendir log_dir) [
  | none ↦ ([], 1)
  | some dir ↦ (report sys.sorting (final_stats sys.scan sys.file (suc n) log_dir dir), 0)
]

pub main : System → List (List ℕ) → List (List ℕ) × ℕ
main sys (program ∷ log_dir ∷ num_threads ∷ []) = start sys (sys.atoi num_threads) log_dir
main sys argv = (codes "Usage: log_parser <log_dir> <num_threads>\n" ∷ [], 1)
