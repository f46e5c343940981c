-- ===== src/Log.antt =====
-- HW10-LogParser/src/main.c: the statistics of a directory of access logs, by a number of threads.
use otus_c.Prelude.{
  leb, ◌==◌, if◌then◌else◌, length, get_or, set, drop, replicate, ℕ, ◌+◌, ◌*◌, ◌%◌, Bool, Option,
  none, some, List, [], ◌∷◌, ◌++◌,
}
use otus_c.Prelude.Int.{to_int, ℤ, pos, ◌+ℤ◌, ◌-ℤ◌, zero_ℤ}
use otus_c.Prelude.Text.{codes, same}
pub mod Values
mod Adds
pub mod Threads
pub mod Maps
pub mod Order
pub mod Report
pub mod Line
pub mod Program

-- A long is an integer here: the program adds sizes without a test of overflow, which is undefined.
pub record HashEntry : Type 0 where
  pub key : List ℕ
  pub value : ℤ

-- A map with its size, the length of the list, and its capacity.
pub record HashMap : Type 0 where
  pub entries : List HashEntry
  pub capacity : ℕ

-- The loop of add_entry: it adds to the first entry with the key; `none` if there is none.
unfoldable pub bump : List HashEntry → List ℕ → ℤ → Option (List HashEntry)
bump [] key delta = none
bump (e ∷ es) key delta =
    let rest = bump es key delta in
    if same e.key key
    then some (record e { value = e.value +ℤ delta } ∷ es)
    else elim rest [ none ↦ none | some es' ↦ some (e ∷ es') ]

unfoldable pub grow : HashMap → HashMap
grow m =
    if leb m.capacity (length m.entries)
    then record m { capacity = if m.capacity == 0 then 16 else m.capacity * 2 }
    else m

-- map[(*size)++] = entry, which is inside the allocated array if size < capacity.
unfoldable pub store : HashMap → HashEntry → HashMap
store m e = record m { entries = m.entries ++ (e ∷ []) }

unfoldable pub add_entry : HashMap → List ℕ → ℤ → HashMap
add_entry m k delta = elim (bump m.entries k delta) [
  | some es ↦ record m { entries = es }
  | none ↦ store (grow m) (record { key = k; value = delta })
]

pub merge_maps : HashMap → List HashEntry → HashMap
merge_maps dest [] = dest
merge_maps dest (e ∷ es) = merge_maps (add_entry dest e.key e.value) es

pub compare_by_value : HashEntry → HashEntry → ℤ
compare_by_value a b = to_int (b.value -ℤ a.value)

pub record ThreadStats : Type 0 where
  pub url_map : HashMap
  pub ref_map : HashMap
  pub total_bytes : ℤ

abbrev pub no_map : HashMap
no_map = record { entries = []; capacity = 0 }

-- What calloc gives.
abbrev pub no_stats : ThreadStats
no_stats = record { url_map = no_map; ref_map = no_map; total_bytes = zero_ℤ }

unfoldable pub add_url : ThreadStats → List ℕ → ℤ → ThreadStats
add_url s k delta = record s { url_map = add_entry s.url_map k delta }

unfoldable pub add_ref : ThreadStats → List ℕ → ℤ → ThreadStats
add_ref s k delta = record s { ref_map = add_entry s.ref_map k delta }

-- strchr: what stands in front of the first `c`, and the text from it on.
unfoldable pub strchr : List ℕ → ℕ → Option (List ℕ × List ℕ)
strchr [] c = none
strchr (x ∷ xs) c =
    let rest = strchr xs c in
    if x == c
    then some ([], x ∷ xs)
    else elim rest [ none ↦ none | some (front, back) ↦ some (x ∷ front, back) ]

-- The text behind a prefix, if it starts with it.
unfoldable pub behind : List ℕ → List ℕ → Option (List ℕ)
behind [] text = some text
behind (p ∷ ps) [] = none
behind (p ∷ ps) (x ∷ xs) = let rest = behind ps xs in if x == p then rest else none

-- The url without the slash at its end, unless it is a slash only.
unfoldable pub trim : List ℕ → List ℕ
trim [] = []
trim (x ∷ []) = x ∷ []
trim (x ∷ y ∷ []) = if y == b'/' then x ∷ [] else x ∷ y ∷ []
trim (x ∷ y ∷ z ∷ r) = x ∷ trim (y ∷ z ∷ r)

-- The referer between the two quotes that follow the size.
unfoldable pub parse_ref : List ℕ → ThreadStats → ThreadStats
parse_ref size_text s = elim (strchr size_text b'"') [
  | none ↦ s
  | some (_, quote) ↦ elim (strchr (drop 1 quote) b'"') [
    | none ↦ s
    | some (ref, _) ↦ if length ref == 0 then s else add_ref s ref (pos 1)
  ]
]

-- The rest of the line behind the url. `scan` is sscanf with " %d %ld": none if it does not convert
-- both numbers, else the second one.
unfoldable pub parse_size : (List ℕ → Option ℤ) → List ℕ → List ℕ → ThreadStats → ThreadStats
parse_size scan url url_end s = elim (strchr url_end b'"') [
  | none ↦ s
  | some (_, quote) ↦ elim (strchr (drop 1 quote) b' ') [
    | none ↦ s
    | some (_, size_text) ↦ elim (scan size_text) [
      | none ↦ s
      | some size ↦
          parse_ref size_text
            (add_url (record s { total_bytes = s.total_bytes +ℤ size }) (trim url) size)
    ]
  ]
]

unfoldable pub parse_log_line : (List ℕ → Option ℤ) → List ℕ → ThreadStats → ThreadStats
parse_log_line scan line s = elim (strchr line b'"') [
  | none ↦ s
  | some (_, quote) ↦ elim (behind (codes "GET ") (drop 1 quote)) [
    | none ↦ s
    | some text ↦ elim (strchr text b' ') [
      | none ↦ s
      | some (url, url_end) ↦ parse_size scan url url_end s
    ]
  ]
]

-- The lines that fgets returns, one after the other.
unfoldable pub parse_lines : (List ℕ → Option ℤ) → List (List ℕ) → ThreadStats → ThreadStats
parse_lines scan [] s = s
parse_lines scan (line ∷ lines) s = parse_lines scan lines (parse_log_line scan line s)

-- `file` is the text of a file as the lines that fgets returns, or none if fopen fails.
unfoldable pub process_file :
    (List ℕ → Option ℤ) → (List ℕ → Option (List (List ℕ))) → List ℕ → ThreadStats → ThreadStats
process_file scan file name s = elim (file name) [
  | none ↦ s
  | some lines ↦ parse_lines scan lines s
]

-- The work of a thread on its own statistics.
unfoldable pub thread_function :
    (List ℕ → Option ℤ)
    → (List ℕ → Option (List (List ℕ)))
    → List (List ℕ)
    → ThreadStats
    → ThreadStats
thread_function scan file [] s = s
thread_function scan file (name ∷ names) s =
    thread_function scan file names (process_file scan file name s)

-- The names of the regular files among what readdir returns, each with whether it is one.
unfoldable pub regular : List ℕ → List (Bool × List ℕ) → List (List ℕ)
regular path [] = []
regular path ((is_reg, d_name) ∷ entries) =
    let rest = regular path entries in if is_reg then (path ++ b'/' ∷ d_name) ∷ rest else rest

-- The loop of split_files over the regular files: bucket index % nthreads gets the next name.
pub split_from : ℕ → ℕ → List (List (List ℕ)) → List (List ℕ) → List (List (List ℕ))
split_from nthreads index buckets [] = buckets
split_from nthreads index buckets (name ∷ names) =
    let tid = index % nthreads in
    split_from nthreads (index + 1) (set buckets tid (get_or buckets tid [] ++ (name ∷ []))) names

pub split_files : ℕ → List (List ℕ) → List (List (List ℕ))
split_files nthreads names = split_from nthreads 0 (replicate nthreads []) names

-- main starts a thread for each bucket up to the first that is empty.
pub started : List (List (List ℕ)) → List (List (List ℕ))
started [] = []
started ([] ∷ buckets) = []
started ((name ∷ names) ∷ buckets) = (name ∷ names) ∷ started buckets

-- main adds the statistics of a thread to the final ones.
pub merge_stats : ThreadStats → ThreadStats → ThreadStats
merge_stats final ts = record {
  total_bytes = final.total_bytes +ℤ ts.total_bytes;
  url_map = merge_maps final.url_map ts.url_map.entries;
  ref_map = merge_maps final.ref_map ts.ref_map.entries;
}

-- The threads share nothing, so each result is that of its own run, and main joins them in order.
pub join_all :
    (List ℕ → Option ℤ)
    → (List ℕ → Option (List (List ℕ)))
    → List (List (List ℕ))
    → ThreadStats
    → ThreadStats
join_all scan file [] final = final
join_all scan file (names ∷ buckets) final =
    join_all scan file buckets (merge_stats final (thread_function scan file names no_stats))

-- The statistics that main prints, for nthreads threads.
pub final_stats :
    (List ℕ → Option ℤ)
    → (List ℕ → Option (List (List ℕ)))
    → ℕ
    → List ℕ
    → List (Bool × List ℕ)
    → ThreadStats
final_stats scan file nthreads path entries =
    join_all scan file (started (split_files nthreads (regular path entries))) no_stats
