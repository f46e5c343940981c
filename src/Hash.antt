-- ===== src/Hash.antt =====
-- HW03-Hash/src/hash.c: a hash table with open addressing that counts words. `none` stands for
-- undefined behaviour: a signed overflow, or a slot outside the array of elements.
use otus_c.Prelude.Text.{same}
use otus_c.Prelude.{
  ltb, leb, ◌==◌, if◌then◌else◌, get_elem?, set, drop, replicate, ℕ, zero, suc, ◌+◌, ◌-◌, ◌*◌, ◌%◌,
  ◌^◌, Bool, ◌&&◌, Option, none, some, List, [], ◌∷◌,
}
pub mod Overflow
pub mod Rehash
pub mod Add
pub mod Remove

-- Elements are behind pointers that only the table holds, so they are values here.
pub record Element : Type 0 where
  pub value : ℕ
  pub key : List ℕ

pub record HashTable : Type 0 where
  pub elements : List (Option Element)
  pub capacity : ℕ
  pub size : ℕ

-- abs(c - 'a' + 1) for a byte that is a signed char.
unfoldable pub letter : ℕ → ℕ
letter c = if leb 128 c then 96 + (256 - c) else if leb 96 c then c - 96 else 96 - c

-- The loop of hash_string in a 64-bit signed integer.
unfoldable pub hash_loop : List ℕ → ℕ → ℕ → Option ℕ
hash_loop [] hash p_pow = some hash
hash_loop (c ∷ cs) hash p_pow =
    let rest = hash_loop cs (hash + letter c * p_pow) (p_pow * 53) in
    if ltb (hash + letter c * p_pow) (2 ^ 63) && ltb (p_pow * 53) (2 ^ 63) then rest else none

unfoldable pub hash_string : List ℕ → Option ℕ
hash_string str = hash_loop str 0 1

pub init_table : HashTable
init_table = record { elements = replicate 10 none; capacity = 10; size = 0 }

-- The comparison of size / capacity with 0.7, which double precision decides right below 2 ^ 48.
pub is_rehash_required : HashTable → Bool
is_rehash_required t = ltb (t.capacity * 7) (t.size * 10)

-- The loop of get_element from a slot on; it does not start again at the first slot.
pub get_from : List (Option Element) → List ℕ → Option (Option Element)
get_from [] key = none
get_from (none ∷ es) key = some none
get_from (some e ∷ es) key =
    let rest = get_from es key in if same e.key key then some (some e) else rest

pub get_element : HashTable → List ℕ → Option (Option Element)
get_element t key = elim (hash_string key) [
  | none ↦ none
  | some hash ↦ get_from (drop (hash % t.capacity) t.elements) key
]

-- How the search of remove_element ends: at an element, at a free slot, or outside the array.
pub data Search : Type 0 where
  found : ℕ → Search
  free outside : Search

-- The loop of remove_element from slot `hash` on. It compares pointers: `address` is where the key array
-- of the element in a slot stands, `key` the pointer that is looked for.
pub remove_from : (ℕ → ℕ) → List (Option Element) → ℕ → ℕ → Search
remove_from address [] hash key = outside
remove_from address (none ∷ es) hash key = free
remove_from address (some e ∷ es) hash key =
    let rest = remove_from address es (suc hash) key in
    if address hash == key then found hash else rest

-- A table, a signed overflow of hash_string, or a read outside the array.
pub data Removal : Type 0 where
  removed : HashTable → Removal
  overflow out_of_array : Removal

pub at_end : HashTable → Search → Removal
at_end t (found i) = removed (record t { elements = set t.elements i none; size = t.size - 1 })
at_end t free = removed t
at_end t outside = out_of_array

-- The text of the key, and the pointer to it.
pub remove_element : (ℕ → ℕ) → HashTable → List ℕ → ℕ → Removal
remove_element address t text key = elim (hash_string text) [
  | none ↦ overflow
  | some hash ↦
      at_end t (remove_from address (drop (hash % t.capacity) t.elements) (hash % t.capacity) key)
]

-- The loop of rehash over the old elements; an element goes to its slot, whatever the slot holds.
pub move_all : List (Option Element) → ℕ → List (Option Element) → Option (List (Option Element))
move_all [] new_capacity new_elements = some new_elements
move_all (none ∷ es) new_capacity new_elements = move_all es new_capacity new_elements
move_all (some e ∷ es) new_capacity new_elements = elim (hash_string e.key) [
  | none ↦ none
  | some hash ↦ move_all es new_capacity (set new_elements (hash % new_capacity) (some e))
]

pub rehash : HashTable → Option HashTable
rehash t =
    if t.capacity == 0
    then some t
    else elim (move_all t.elements (t.capacity * 2) (replicate (t.capacity * 2) none)) [
      | none ↦ none
      | some es ↦ some (record t { elements = es; capacity = t.capacity * 2 })
    ]

-- The loop of add_element: the first free slot from `hash` on, round the end of the array.
pub free_from : ℕ → List (Option Element) → ℕ → ℕ → Option ℕ
free_from zero es capacity hash = none
free_from (suc fuel) es capacity hash =
    let rest = free_from fuel es capacity ((hash + 1) % capacity) in
    elim (get_elem? es hash) [ none ↦ none | some none ↦ some hash | some (some e) ↦ rest ]

pub add_element : HashTable → List ℕ → ℕ → Option HashTable
add_element t key value = elim (hash_string key) [
  | none ↦ none
  | some hash ↦ elim (free_from t.capacity t.elements t.capacity (hash % t.capacity)) [
    | none ↦ none
    | some i ↦
        let t' = record t {
          elements = set t.elements i (some (record { key = key; value = value }));
          size = t.size + 1;
        } in
        if is_rehash_required t' then rehash t' else some t'
  ]
]
