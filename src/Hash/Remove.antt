-- ===== src/Hash/Remove.antt =====
-- remove_element of HW03-Hash/src/hash.c, which compares the keys' addresses.
use otus_c.Prelude.{
  ◌==◌, get_elem?, set, drop, ℕ, zero, suc, ◌+◌, ◌-◌, ◌%◌, ◌≤◌, ◌<◌, ◌≡◌, refl, sym, subst, ap, ◌∙◌,
  ◌≢◌, true, false, Option, none, some, List, [], ◌∷◌, arith,
}
use otus_c.Hash.{
  Element, HashTable, hash_string, found, remove_from, removed, out_of_array, at_end,
  remove_element,
}

-- The slots from the first one up to slot i hold elements whose key arrays stand elsewhere.
unfoldable pub Passed : (ℕ → ℕ) → List (Option Element) → ℕ → ℕ → ℕ → Type 0
Passed address es key first i =
    (j : ℕ)
    → first ≤ j
    → j < i
    → (e : Element) × (get_elem? es j ≡ some (some e)) × (address j ≢ key)

drop-some :
    (i : ℕ) (es : List (Option Element)) (x : Option Element)
    → get_elem? es i ≡ some x
    → drop i es ≡ x ∷ drop (suc i) es
drop-some i [] x e = cc e
drop-some zero (y ∷ es) x e = ap (λ z. z ∷ es) (some_inj e)
  where
    some_inj : some y ≡ some x → y ≡ x
    some_inj q = cc q
drop-some (suc i) (y ∷ es) x e = drop-some i es x e

drop-none : (i : ℕ) (es : List (Option Element)) → get_elem? es i ≡ none → drop i es ≡ []
drop-none zero [] e = refl
drop-none (suc i) [] e = refl
drop-none zero (y ∷ es) e = cc e
drop-none (suc i) (y ∷ es) e = drop-none i es e

-- The search comes to slot first + n.
remove_from-passes :
    (address : ℕ → ℕ) (es : List (Option Element)) (key n first : ℕ)
    → Passed address es key first (first + n)
    → remove_from address (drop first es) first key
      ≡ remove_from address (drop (first + n) es) (first + n) key
unfolding Passed remove_from
remove_from-passes address es key zero first p =
    let same : first ≡ first + 0 = omega arith in
    ap (λ j. remove_from address (drop j es) j key) same
remove_from-passes address es key (suc n) first p =
    let (e, there, other) = p first (omega arith) (omega arith) in
    let same : suc first + n ≡ first + suc n = omega arith in
    rw (drop-some first es (some e) there) (skip first e (drop (suc first) es) other)
    ∙ remove_from-passes address es key n (suc first)
        (λ j low high. p j (omega arith) (omega arith))
    ∙ ap (λ j. remove_from address (drop j es) j key) same
  where
    skip :
        (i : ℕ) (e : Element) (rest : List (Option Element))
        → address i ≢ key
        → remove_from address (some e ∷ rest) i key ≡ remove_from address rest (suc i) key
    skip i e rest other = let no : (address i == key) ≡ false = ground (arith, other) in rw no refl

-- The text of the key only says at which slot the search starts, if its hash does not overflow. Let the
-- slots from there up to a slot i hold elements whose key arrays do not stand where the pointer points. If
-- slot i holds the element whose key array does, that slot is freed, the size is one less and nothing else
-- changes; if slot i is free, the table stays as it is, whatever keys it holds; and if i is behind the last
-- slot, the search reads outside the array.
pub remove_element_lem :
    (address : ℕ → ℕ) (t : HashTable) (text : List ℕ) (key hash i : ℕ)
    → hash_string text ≡ some hash
    → hash % t.capacity ≤ i
    → Passed address t.elements key (hash % t.capacity) i
    → ((e : Element)
        → get_elem? t.elements i ≡ some (some e)
        → address i ≡ key
        → remove_element address t text key
          ≡ removed (record t { elements = set t.elements i none; size = t.size - 1 }))
      × (get_elem? t.elements i ≡ some none → remove_element address t text key ≡ removed t)
      × (get_elem? t.elements i ≡ none → remove_element address t text key ≡ out_of_array)
unfolding remove_element at_end remove_from
remove_element_lem address t text key hash i e low p =
    let at = searched in
    (
      λ x there mine.
          (at
            ∙ ap (at_end t) (
                ap (λ l. remove_from address l i key) (drop-some i t.elements (some x) there)
                ∙ hit x (drop (suc i) t.elements) mine)),
      λ there.
          (at
            ∙ ap (at_end t)
                (ap (λ l. remove_from address l i key) (drop-some i t.elements none there))),
      λ there.
          (at
            ∙ ap (at_end t) (ap (λ l. remove_from address l i key) (drop-none i t.elements there))),
    )
  where
    hit :
        (x : Element) (rest : List (Option Element))
        → address i ≡ key
        → remove_from address (some x ∷ rest) i key ≡ found i
    hit x rest mine = let yes : (address i == key) ≡ true = ground (arith, mine) in rw yes refl

    searched :
        remove_element address t text key ≡ at_end t (remove_from address (drop i t.elements) i key)
    searched =
        let first = hash % t.capacity in
        let same : first + (i - first) ≡ i = omega arith in
        rw (remove_element, e)
          (ap (at_end t) (
            remove_from-passes address t.elements key (i - first) first
              (subst (Passed address t.elements key first) (sym same) p)
            ∙ ap (λ j. remove_from address (drop j t.elements) j key) same))
