-- ===== src/Hash/Add.antt =====
-- add_element of HW03-Hash/src/hash.c: that its search ends, and what it stores.
use otus_c.Prelude.{
  ltb, if◌then◌else◌, lt→ltb, Option-cases, length, get_elem?, set, All, length-set, get_elem?_lem,
  ℕ, zero, suc, ◌+◌, ◌*◌, ◌%◌, ◌≤◌, ◌<◌, ◌≡◌, refl, sym, subst, ap, ◌∙◌, ◌≢◌, ◌⊎◌, inl, inr, false,
  Option, none, some, List, [], ◌∷◌, arith, dec_lt, dec_le,
}
use otus_c.Hash.{
  hash_string, Element, HashTable, free_from, is_rehash_required, rehash, add_element,
}
use otus_c.Hash.Overflow.{hash_string-short}
use otus_c.Hash.Rehash.{count, Short, IsTable, All-set, count-set, rehash-IsTable}

count-le : (es : List (Option Element)) → count es ≤ length es
unfolding count
count-le [] = omega arith
count-le (none ∷ es) = omega (arith, count-le es)
count-le (some e ∷ es) = omega (arith, count-le es)

free_slot :
    (es : List (Option Element))
    → count es < length es
    → (i : ℕ) × (i < length es) × (get_elem? es i ≡ some none)
unfolding count
free_slot [] h = absurd (omega arith)
free_slot (none ∷ es) h = (0, omega arith, refl)
free_slot (some e ∷ es) h =
    let (i, lt, free) = free_slot es (omega arith) in (suc i, omega arith, free)

-- The search from `hash` comes to slot `i` within the rounds, before or after the end of the array.
Reaches : ℕ → ℕ → ℕ → ℕ → Type 0
Reaches rounds capacity hash i =
    (hash < capacity)
    × (i < capacity)
    × (((hash ≤ i) × (i < hash + rounds)) ⊎ ((i < hash) × (i + capacity < hash + rounds)))

step_small : (c h : ℕ) → h + 1 < c → (h + 1) % c ≡ h + 1
step_small c h lt = grind arith

step_wrap : (c h : ℕ) → h + 1 ≡ c → (h + 1) % c ≡ 0
step_wrap c h e = grind arith

step-Reaches : (n c h i : ℕ) → Reaches (suc n) c h i → h ≢ i → Reaches n c ((h + 1) % c) i
unfolding Reaches
step-Reaches n c h i (hc, ic, inl (le, near)) ne =
    rw (step_small c h (grind arith)) (grind arith, ic, inl (grind arith, grind arith))
step-Reaches n c h i (hc, ic, inr (lt, near)) ne = elim (dec_lt (h + 1) c) [
  | yes small ↦ rw (step_small c h small) (small, ic, inr (omega arith, omega arith))
  | no large ↦ rw (step_wrap c h (omega arith)) (omega arith, ic, inl (omega arith, omega arith))
]

free_from-finds :
    (n : ℕ) (es : List (Option Element)) (h i : ℕ)
    → Reaches n (length es) h i
    → get_elem? es i ≡ some none
    → (k : ℕ) × (free_from n es (length es) h ≡ some k)
      × (k < length es)
      × (get_elem? es k ≡ some none)
unfolding Reaches free_from
free_from-finds zero es h i r free = absurd (nowhere r)
  where
    nowhere : Reaches 0 (length es) h i → ⊥
    nowhere (hc, ic, inl near) = omega arith
    nowhere (hc, ic, inr near) = omega arith
free_from-finds (suc n) es h i r free =
    let (x, here) = get_elem?_lem es h r.0 in
    elim (Option-cases x) [
      | inl e ↦
          let open_slot : get_elem? es h ≡ some none = here ∙ ap some e in
          (h, rw (free_from, open_slot) refl, r.0, open_slot)
      | inr (y, e) ↦
          let taken : get_elem? es h ≡ some (some y) = here ∙ ap some e in
          let (k, found, lt, f) =
            free_from-finds n es ((h + 1) % length es) i
              (step-Reaches n (length es) h i r
                (λ q. differ (sym taken ∙ ap (get_elem? es) q ∙ free)))
              free in
          (k, rw (free_from, taken) found, lt, f)
    ]
  where
    differ : {y : Element} → some (some y) ≡ some none → ⊥
    differ e = cc

any_slot :
    (es : List (Option Element)) (h : ℕ)
    → h < length es
    → count es < length es
    → (k : ℕ) × (free_from (length es) es (length es) h ≡ some k)
      × (k < length es)
      × (get_elem? es k ≡ some none)
unfolding Reaches
any_slot es h lt room =
    let (i, il, free) = free_slot es room in
    free_from-finds (length es) es h i
      (elim (dec_le h i) [
        | yes le ↦ (lt, il, inl (le, omega arith))
        | no gt ↦ (lt, il, inr (omega arith, omega arith))
      ])
      free

mod_slot : (hash c : ℕ) → 2 ≤ c → hash % c < c
mod_slot hash c h = grind arith

abbrev stored : HashTable → List ℕ → ℕ → ℕ → HashTable
stored t key value k = record t {
  elements = set t.elements k (some (record { key = key; value = value }));
  size = t.size + 1;
}

-- What add_element does once it has found the free slot `k`.
settle :
    (t : HashTable) (key : List ℕ) (value k : ℕ)
    → IsTable t
    → length key ≤ 10
    → (t' : HashTable) × ((if is_rehash_required (stored t key value k)
          then rehash (stored t key value k)
          else some (stored t key value k))
        ≡ some t')
      × IsTable t'
      × (t'.size ≡ t.size + 1)
      × ((t.size + 1) * 10 ≤ t.capacity * 7 → t' ≡ stored t key value k)
      × (t.capacity * 7 < (t.size + 1) * 10 → t'.capacity ≡ t.capacity * 2)
unfolding is_rehash_required
settle t key value k v short = elim (dec_lt (t.capacity * 7) ((t.size + 1) * 10)) [
  | yes over ↦
      let (t', e, v', size, capacity) =
        rehash-IsTable (stored t key value k) v.roomy all_short counted
          (omega (arith, v.load, v.roomy)) in
      (
        t',
        rw (lt→ltb (t.capacity * 7) ((t.size + 1) * 10) over) e,
        v',
        size,
        (λ fits. absurd (omega arith)),
        (λ _. capacity),
      )
  | no under ↦
      let light : ltb (t.capacity * 7) ((t.size + 1) * 10) ≡ false = ground arith in
      (
        stored t key value k,
        rw light refl,
        record {
          roomy = v.roomy;
          slots = length-set t.elements k (some (record { key = key; value = value })) ∙ v.slots;
          short = all_short;
          counted = counted;
          load = omega arith;
        },
        refl,
        (λ _. refl),
        (λ over. absurd (omega arith)),
      )
]
  where
    all_short : All Short (stored t key value k).elements
    all_short = All-set t.elements k (record { key = key; value = value }) v.short short

    counted : count (stored t key value k).elements ≤ t.size + 1
    counted = omega (arith, v.counted, count-set t.elements k (record { key = key; value = value }))

add_element-eq :
    (t : HashTable) (key : List ℕ) (value hash k : ℕ)
    → hash_string key ≡ some hash
    → free_from t.capacity t.elements t.capacity (hash % t.capacity) ≡ some k
    → add_element t key value ≡ (
        if is_rehash_required (stored t key value k)
        then rehash (stored t key value k)
        else some (stored t key value k))
unfolding add_element
add_element-eq t key value hash k hashed found = rw (add_element, hashed, found) refl

-- add_element of a key of at most ten characters to a valid table ends, within as many probes as
-- there are slots and without undefined behaviour, in a valid table whose size is one more. Unless
-- the load asks for a rehash, which doubles the capacity, the one change is that a slot that was
-- free holds the new element.
pub add_element_lem :
    (t : HashTable) (key : List ℕ) (value : ℕ)
    → IsTable t
    → length key ≤ 10
    → (t' : HashTable) × (add_element t key value ≡ some t')
      × IsTable t'
      × (t'.size ≡ t.size + 1)
      × (((t.size + 1) * 10 ≤ t.capacity * 7
            → (t'.capacity ≡ t.capacity)
              × ((k : ℕ) × (get_elem? t.elements k ≡ some none)
                  × (t'.elements ≡ set t.elements k (some (record { key = key; value = value })))))
          × (t.capacity * 7 < (t.size + 1) * 10 → t'.capacity ≡ t.capacity * 2))
unfolding add_element
add_element_lem t key value v short =
    let (hash, hashed) = hash_string-short key short in
    let (k, found, lt, free) =
      any_slot t.elements (hash % t.capacity)
        (subst (λ n. hash % t.capacity < n) (sym v.slots) (mod_slot hash t.capacity v.roomy))
        (omega (arith, v.counted, v.load, v.slots, v.roomy)) in
    let found' : free_from t.capacity t.elements t.capacity (hash % t.capacity) ≡ some k =
      subst (λ n. free_from n t.elements n (hash % t.capacity) ≡ some k) v.slots found in
    let (t', e, v', size, small, large) = settle t key value k v short in
    (
      t',
      add_element-eq t key value hash k hashed found' ∙ e,
      v',
      size,
      (
        (λ fits. (ap (λ u. u.capacity) (small fits), (k, free, ap (λ u. u.elements) (small fits)))),
        large,
      ),
    )
