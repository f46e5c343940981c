-- ===== src/Log/Maps.antt =====
-- The maps of HW10-LogParser/src/main.c: add_entry, which keeps one entry for a key.
use otus_c.Prelude.Text.{same, same_refl}
use otus_c.Prelude.{
  if◌then◌else◌, Bool-cases, length, get_elem?, length-append, ℕ, zero, suc, ◌≤◌, ◌<◌, ◌≡◌, refl,
  sym, subst, ap, ◌∙◌, inl, inr, false, ◌&&◌, Option, none, some, List, [], ◌∷◌, arith,
}
use otus_c.Prelude.Int.{ℤ, ◌+ℤ◌, zero_ℤ, +ℤ_zero}
use otus_c.Log.{HashEntry, HashMap, bump, grow, store, add_entry}
use otus_c.Log.Values.{zero_plus, value_of, put, add_entry-entries, value_of-put}

-- No entry of the list has the key.
unfoldable pub Absent : List ℕ → List HashEntry → Type 0
Absent k [] = Unit
Absent k (e ∷ es) = (same e.key k ≡ false) × Absent k es

-- The keys of the entries differ.
unfoldable pub Distinct : List HashEntry → Type 0
Distinct [] = Unit
Distinct (e ∷ es) = Absent e.key es × Distinct es

pub record IsMap (m : HashMap) : Type 0 where
  pub distinct : Distinct m.entries
  pub fits : length m.entries ≤ m.capacity

pub same_sym : (a b : List ℕ) → same a b ≡ same b a
unfolding same
same_sym [] [] = refl
same_sym [] (y ∷ ys) = refl
same_sym (x ∷ xs) [] = refl
same_sym (x ∷ xs) (y ∷ ys) = rw (same_sym xs ys) (ap (λ b. b && same ys xs) (ground arith))

Absent-put :
    (q k : List ℕ) (d : ℤ) (es : List HashEntry)
    → Absent q es
    → same k q ≡ false
    → Absent q (put es k d)
unfolding Absent put
Absent-put q k d [] a h = (h, tt)
Absent-put q k d (e ∷ es) (n, a) h = elim (Bool-cases (same e.key k)) [
  | inl hit ↦ rw hit (n, a)
  | inr miss ↦ rw miss (n, Absent-put q k d es a h)
]

Distinct-put : (k : List ℕ) (d : ℤ) (es : List HashEntry) → Distinct es → Distinct (put es k d)
unfolding Distinct Absent put
Distinct-put k d [] h = (tt, tt)
Distinct-put k d (e ∷ es) (a, h) = elim (Bool-cases (same e.key k)) [
  | inl hit ↦ rw hit (a, h)
  | inr miss ↦ rw miss (Absent-put e.key k d es a (same_sym k e.key ∙ miss), Distinct-put k d es h)
]

-- The slot that add_entry writes a new entry to, index size, is inside the array after grow.
pub grow_lem :
    (m : HashMap)
    → length m.entries ≤ m.capacity
    → ((grow m).entries ≡ m.entries) × (length m.entries < (grow m).capacity)
unfolding grow
grow_lem m h = ground arith

abbrev Kept : ℕ → Option (List HashEntry) → Type 0
Kept n none = Unit
Kept n (some es) = length es ≡ n

bump-Kept : (es : List HashEntry) (k : List ℕ) (d : ℤ) → Kept (length es) (bump es k d)
unfolding bump
bump-Kept [] k d = tt
bump-Kept (e ∷ es) k d = elim (Bool-cases (same e.key k)) [
  | inl hit ↦ rw hit refl
  | inr miss ↦ rw miss (longer (bump es k d) (bump-Kept es k d))
]
  where
    longer :
        (r : Option (List HashEntry))
        → Kept (length es) r
        → Kept (suc (length es)) (elim r [ none ↦ none | some es' ↦ some (e ∷ es') ])
    longer none h = tt
    longer (some es') h = ap suc h

add_entry-fits :
    (m : HashMap) (k : List ℕ) (d : ℤ)
    → length m.entries ≤ m.capacity
    → length (add_entry m k d).entries ≤ (add_entry m k d).capacity
unfolding add_entry store
add_entry-fits m k d h = either (bump m.entries k d) (bump-Kept m.entries k d)
  where
    after : Option (List HashEntry) → HashMap
    after (some es) = record m { entries = es }
    after none = store (grow m) (record { key = k; value = d })

    either :
        (r : Option (List HashEntry))
        → Kept (length m.entries) r
        → length (after r).entries ≤ (after r).capacity
    either (some es) e = omega arith
    either none e =
        let (same_entries, room) = grow_lem m h in
        omega (
          arith,
          length-append (grow m).entries (record { key = k; value = d } ∷ []),
          ap length same_entries,
        )

-- add_entry keeps the keys of a map different and its size within its capacity, and adds `delta` to
-- what the map holds for the key, from 0 if it had no such key, and to nothing else.
pub add_entry_lem :
    (m : HashMap) (key : List ℕ) (delta : ℤ)
    → IsMap m
    → IsMap (add_entry m key delta)
      × ((q : List ℕ)
          → value_of q (add_entry m key delta).entries
            ≡ value_of q m.entries +ℤ (if same key q then delta else zero_ℤ))
add_entry_lem m k d v = (
  record {
    distinct =
        subst Distinct (sym (add_entry-entries m k d)) (Distinct-put k d m.entries v.distinct);
    fits = add_entry-fits m k d v.fits;
  },
  λ q. rw (add_entry-entries m k d) (value_of-put q k d m.entries),
)

pub value_of-Absent : (q : List ℕ) (es : List HashEntry) → Absent q es → value_of q es ≡ zero_ℤ
unfolding value_of Absent
value_of-Absent q [] a = refl
value_of-Absent q (e ∷ es) (n, a) = rw (n, value_of-Absent q es a) (+ℤ_zero _)

Absent-at :
    (q : List ℕ) (es : List HashEntry) (i : ℕ) {e : HashEntry}
    → Absent q es
    → get_elem? es i ≡ some e
    → same e.key q ≡ false
unfolding Absent
Absent-at q [] i a h = cc
Absent-at q (x ∷ es) zero (n, a) h = subst (λ y. same y.key q ≡ false) (some-injective h) n
  where
    some-injective : {a b : HashEntry} → some a ≡ some b → a ≡ b
    some-injective e = cc
Absent-at q (x ∷ es) (suc i) (n, a) h = Absent-at q es i a h

-- In a map with different keys, what it holds for a key is the value of the entry with that key.
pub value_of-entry :
    (es : List HashEntry) (i : ℕ) (e : HashEntry)
    → Distinct es
    → get_elem? es i ≡ some e
    → value_of e.key es ≡ e.value
unfolding value_of Distinct
value_of-entry [] i e v h = cc
value_of-entry (x ∷ es) zero e (a, v) h =
    subst (λ y. value_of y.key (x ∷ es) ≡ y.value) (some-injective h)
      (rw (same_refl x.key, value_of-Absent x.key es a) (+ℤ_zero _))
  where
    some-injective : {a b : HashEntry} → some a ≡ some b → a ≡ b
    some-injective e = cc
value_of-entry (x ∷ es) (suc i) e (a, v) h =
    rw (same_sym x.key e.key, Absent-at x.key es i a h, value_of-entry es i e v h) (zero_plus _)
