-- ===== src/Tests/Log.antt =====
-- Runs of the log parser's theorems.
use otus_c.Prelude.Text.{codes, same}
use otus_c.Prelude.{
  leb, ◌==◌, if◌then◌else◌, length, ℕ, ◌*◌, ◌^◌, ◌≡◌, ◌↔◌, Bool, true, false, Option, none, some,
  List, [], ◌∷◌, arith,
}
use otus_c.Prelude.Int.{ℤ, pos, ◌+ℤ◌, ◌-ℤ◌, zero_ℤ, ◌≤ℤ◌}
use otus_c.Log.{
  HashEntry, HashMap, add_entry, compare_by_value, no_stats, thread_function, regular, final_stats,
}
use otus_c.Log.Values.{url, answer, value_of}
use otus_c.Log.Maps.{Absent, Distinct, IsMap, add_entry_lem}
use otus_c.Log.Order.{compare_by_value_lem}
use otus_c.Log.Threads.{final_stats-sequential}

-- A size of five bytes wherever sscanf finds its numbers.
abbrev five : List ℕ → Option ℤ
five text = if leb 4 (length text) then some (pos 5) else none

abbrev line : List ℕ
line = codes "h - - [d] \"GET /a/ HTTP/1.1\" 200 5 \"r\" \"ua\""

abbrev dir : List ℕ
dir = codes "logs"

abbrev two_lines : List ℕ → Option (List (List ℕ))
two_lines name = if length name == 6 then some (line ∷ line ∷ []) else none

abbrev listing : List (Bool × List ℕ)
listing = (true, codes "x") ∷ (false, codes "y") ∷ (true, codes "z") ∷ (true, codes "long") ∷ []

final_stats-sequential_example :
    answer (url (codes "/a")) (final_stats five two_lines 2 dir listing)
    ≡ answer (url (codes "/a")) (thread_function five two_lines (regular dir listing) no_stats)
final_stats-sequential_example =
    final_stats-sequential five two_lines 2 dir listing (url (codes "/a")) (omega arith)

abbrev one_entry : HashMap
one_entry = record { entries = record { key = codes "/"; value = pos 3 } ∷ []; capacity = 16 }

one_entry-IsMap : IsMap one_entry
unfolding Distinct Absent
one_entry-IsMap = record { distinct = (tt, tt); fits = omega arith }

add_entry_lem_example :
    IsMap (add_entry one_entry (codes "/a") (pos 5))
    × ((q : List ℕ)
        → value_of q (add_entry one_entry (codes "/a") (pos 5)).entries
          ≡ value_of q one_entry.entries +ℤ (if same (codes "/a") q then pos 5 else zero_ℤ))
add_entry_lem_example = add_entry_lem one_entry (codes "/a") (pos 5) one_entry-IsMap

abbrev small_entry : HashEntry
small_entry = record { key = codes "/"; value = pos 3 }

abbrev large_entry : HashEntry
large_entry = record { key = codes "/b"; value = pos 7 }

compare_by_value_lem_example :
    ((compare_by_value small_entry large_entry ≤ℤ zero_ℤ) ↔ (pos 7 ≤ℤ pos 3))
    × ((zero_ℤ ≤ℤ compare_by_value small_entry large_entry) ↔ (pos 3 ≤ℤ pos 7))
    × (compare_by_value small_entry (record small_entry { value = pos 3 +ℤ pos (2 ^ 32 * 1) })
        ≡ zero_ℤ)
    × (compare_by_value (record small_entry { value = pos 3 +ℤ pos (2 ^ 32 * 1) }) small_entry
        ≡ zero_ℤ)
unfolding ◌-ℤ◌
compare_by_value_lem_example =
    compare_by_value_lem small_entry large_entry 1 (omega arith) (omega arith)
