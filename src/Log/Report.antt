-- ===== src/Log/Report.antt =====
-- What HW10-LogParser/src/main.c prints: each key once, with its number.

use otus_c.Prelude.{get_elem?, ℕ, ◌<◌, ◌≡◌, sym, ◌∙◌, Bool, Option, some, List, [], ◌∷◌, arith}
use otus_c.Prelude.Int.{ℤ}
use otus_c.Log.{
  HashEntry, HashMap, add_entry, merge_maps, ThreadStats, no_map, no_stats, thread_function,
  regular, split_files, started, merge_stats, join_all, final_stats,
}
use otus_c.Log.Threads.{final_stats-sequential}
use otus_c.Log.Values.{answer, url, ref}
use otus_c.Log.Maps.{Distinct, IsMap, add_entry_lem, value_of-entry}

merge_maps-IsMap : (es : List HashEntry) (m : HashMap) → IsMap m → IsMap (merge_maps m es)
unfolding merge_maps
merge_maps-IsMap [] m v = v
merge_maps-IsMap (e ∷ es) m v =
    merge_maps-IsMap es (add_entry m e.key e.value) (add_entry_lem m e.key e.value v).0

no_map-IsMap : IsMap no_map
unfolding Distinct
no_map-IsMap = record { distinct = tt; fits = omega arith }

join_all-IsMap :
    (scan : List ℕ → Option ℤ) (file : List ℕ → Option (List (List ℕ))) (bs : List (List (List ℕ)))
    (s : ThreadStats)
    → IsMap s.url_map
    → IsMap s.ref_map
    → IsMap (join_all scan file bs s).url_map × IsMap (join_all scan file bs s).ref_map
unfolding join_all merge_stats
join_all-IsMap scan file [] s u r = (u, r)
join_all-IsMap scan file (b ∷ bs) s u r =
    join_all-IsMap scan file bs _ (merge_maps-IsMap _ _ u) (merge_maps-IsMap _ _ r)

pub final_maps :
    (scan : List ℕ → Option ℤ) (file : List ℕ → Option (List (List ℕ))) (n : ℕ) (path : List ℕ)
    (entries : List (Bool × List ℕ))
    → IsMap (final_stats scan file n path entries).url_map
      × IsMap (final_stats scan file n path entries).ref_map
unfolding final_stats
final_maps scan file n path entries =
    join_all-IsMap scan file (started (split_files n (regular path entries))) no_stats no_map-IsMap
      no_map-IsMap

-- In what main prints each url and each referer stands once, and the number next to it is what a
-- single thread would have counted for it in all the regular files.
final_stats-entries :
    (scan : List ℕ → Option ℤ) (file : List ℕ → Option (List (List ℕ))) (nthreads : ℕ)
    (path : List ℕ) (entries : List (Bool × List ℕ))
    → 0 < nthreads
    → let s = final_stats scan file nthreads path entries in
      let one = thread_function scan file (regular path entries) no_stats in
      Distinct s.url_map.entries
      × Distinct s.ref_map.entries
      × ((i : ℕ) (e : HashEntry)
          → get_elem? s.url_map.entries i ≡ some e
          → e.value ≡ answer (url e.key) one)
      × ((i : ℕ) (e : HashEntry)
          → get_elem? s.ref_map.entries i ≡ some e
          → e.value ≡ answer (ref e.key) one)
unfolding answer
final_stats-entries scan file n path entries h =
    let (u, r) = final_maps scan file n path entries in
    (
      u.distinct,
      r.distinct,
      (λ i e at.
          sym (
            value_of-entry (final_stats scan file n path entries).url_map.entries i e u.distinct at)
          ∙ final_stats-sequential scan file n path entries (url e.key) h),
      (λ i e at.
          sym (
            value_of-entry (final_stats scan file n path entries).ref_map.entries i e r.distinct at)
          ∙ final_stats-sequential scan file n path entries (ref e.key) h),
    )
