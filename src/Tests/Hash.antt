-- ===== src/Tests/Hash.antt =====
-- Runs of the hash table's theorems.
use otus_c.Prelude.{
  get_elem?, set, ℕ, ◌+◌, ◌*◌, ◌≤◌, ◌<◌, ◌≡◌, refl, sym, subst, ◌≢◌, ◌↔◌, none, some, [], ◌∷◌,
  arith,
}
use otus_c.Prelude.Text.{codes}
use otus_c.Hash.{
  HashTable, letter, hash_loop, hash_string, init_table, add_element, Element, removed,
  out_of_array, remove_element,
}
use otus_c.Hash.Overflow.{hash_string_lem}
use otus_c.Hash.Rehash.{IsTable, init_table-IsTable}
use otus_c.Hash.Add.{add_element_lem}
use otus_c.Hash.Remove.{Passed, remove_element_lem}

hash_string_lem_example : (hash_string (codes "programming") ≡ none) ↔ (11 ≤ 11)
hash_string_lem_example = hash_string_lem (codes "programming")

add_element_lem_example :
    (t' : HashTable) × (add_element init_table (codes "word") 1 ≡ some t')
    × IsTable t'
    × (t'.size ≡ init_table.size + 1)
    × (((init_table.size + 1) * 10 ≤ init_table.capacity * 7
          → (t'.capacity ≡ init_table.capacity)
            × ((k : ℕ) × (get_elem? init_table.elements k ≡ some none)
                × (t'.elements
                    ≡ set init_table.elements k (some (record { key = codes "word"; value = 1 })))))
        × (init_table.capacity * 7 < (init_table.size + 1) * 10
            → t'.capacity ≡ init_table.capacity * 2))
add_element_lem_example =
    add_element_lem init_table (codes "word") 1 init_table-IsTable (omega arith)

-- A table with one word, in slot 3, whose key array stands at address 103.
abbrev one_word : HashTable
one_word = record {
  elements =
      none
      ∷ none
      ∷ none
      ∷ some (record { key = codes "c"; value = 2 })
      ∷ none
      ∷ none
      ∷ none
      ∷ none
      ∷ none
      ∷ none
      ∷ [];
  capacity = 10;
  size = 1;
}

abbrev address : ℕ → ℕ
address i = i + 100

-- The same word at address 7: the search passes slot 3 and comes to slot 4, which is free.
one_word-Passed : Passed address one_word.elements 7 3 4
unfolding Passed
one_word-Passed j low high =
    let three : j ≡ 3 = omega arith in
    subst (λ i. (e : Element) × (get_elem? one_word.elements i ≡ some (some e)) × (address i ≢ 7))
      (sym three) (record { key = codes "c"; value = 2 }, refl, omega arith)

remove_element_lem_example :
    ((e : Element)
      → get_elem? one_word.elements 4 ≡ some (some e)
      → address 4 ≡ 7
      → remove_element address one_word (codes "c") 7
        ≡ removed (record one_word { elements = set one_word.elements 4 none; size = 0 }))
    × (get_elem? one_word.elements 4 ≡ some none
        → remove_element address one_word (codes "c") 7 ≡ removed one_word)
    × (get_elem? one_word.elements 4 ≡ none
        → remove_element address one_word (codes "c") 7 ≡ out_of_array)
unfolding hash_string hash_loop letter
remove_element_lem_example =
    remove_element_lem address one_word (codes "c") 7 3 4 refl (omega arith) one_word-Passed
