-- ===== src/Hash/Rehash.antt =====
-- The invariant of the table of HW03-Hash/src/hash.c, and rehash.
use otus_c.Prelude.{
  ◌==◌, length, set, replicate, All, length-set, length-replicate, ℕ, zero, suc, ◌+◌, ◌*◌, ◌%◌, ◌≤◌,
  ◌≡◌, refl, ◌∙◌, false, Option, none, some, List, [], ◌∷◌, arith,
}
use otus_c.Hash.{Element, HashTable, move_all, rehash, init_table}
use otus_c.Hash.Overflow.{hash_string-short}

-- The number of slots that hold an element.
unfoldable pub count : List (Option Element) → ℕ
count [] = 0
count (none ∷ es) = count es
count (some e ∷ es) = suc (count es)

-- A slot that is free or whose key is short enough to hash.
abbrev pub Short : Option Element → Type 0
Short none = Unit
Short (some e) = length e.key ≤ 10

-- The size may be above the number of elements, as rehash can drop some without counting them off.
pub record IsTable (t : HashTable) : Type 0 where
  pub roomy : 2 ≤ t.capacity
  pub slots : length t.elements ≡ t.capacity
  pub short : All Short t.elements
  pub counted : count t.elements ≤ t.size
  pub load : t.size * 10 ≤ t.capacity * 7

pub All-set :
    (es : List (Option Element)) (i : ℕ) (e : Element)
    → All Short es
    → length e.key ≤ 10
    → All Short (set es i (some e))
All-set [] i e a h = tt
All-set (x ∷ es) zero e (b, a) h = (h, a)
All-set (x ∷ es) (suc i) e (b, a) h = (b, All-set es i e a h)

pub count-set :
    (es : List (Option Element)) (i : ℕ) (e : Element) → count (set es i (some e)) ≤ suc (count es)
unfolding count
count-set [] i e = omega arith
count-set (none ∷ es) zero e = omega arith
count-set (some x ∷ es) zero e = omega arith
count-set (none ∷ es) (suc i) e = omega (arith, count-set es i e)
count-set (some x ∷ es) (suc i) e = omega (arith, count-set es i e)

count-replicate : (n : ℕ) → count (replicate n none) ≡ 0
unfolding count
count-replicate zero = refl
count-replicate (suc n) = count-replicate n

All-replicate : (n : ℕ) → All Short (replicate n none)
All-replicate zero = tt
All-replicate (suc n) = (tt, All-replicate n)

-- What move_all makes of the slots `new`.
record Moved (es new new' : List (Option Element)) : Type 0 where
  same_length : length new' ≡ length new
  short : All Short new'
  counted : count new' ≤ count new + count es

move_all_lem :
    (es : List (Option Element)) (n : ℕ) (new : List (Option Element))
    → All Short es
    → All Short new
    → (new' : List (Option Element)) × (move_all es n new ≡ some new') × Moved es new new'
unfolding move_all count
move_all_lem [] n new a b =
    (new, refl, record { same_length = refl; short = b; counted = omega arith })
move_all_lem (none ∷ es) n new (_, a) b =
    let (new', e, m) = move_all_lem es n new a b in
    (new', e, record { same_length = m.same_length; short = m.short; counted = m.counted })
move_all_lem (some x ∷ es) n new (h, a) b =
    let (v, hashed) = hash_string-short x.key h in
    let (new', e, m) = move_all_lem es n (set new (v % n) (some x)) a (All-set new (v % n) x b h) in
    (
      new',
      rw (move_all, hashed) e,
      record {
        same_length = m.same_length ∙ length-set new (v % n) (some x);
        short = m.short;
        counted = omega (arith, m.counted, count-set new (v % n) x);
      },
    )

pub rehash-IsTable :
    (t : HashTable)
    → 2 ≤ t.capacity
    → All Short t.elements
    → count t.elements ≤ t.size
    → t.size * 10 ≤ t.capacity * 14
    → (t' : HashTable) × (rehash t ≡ some t')
      × IsTable t'
      × (t'.size ≡ t.size)
      × (t'.capacity ≡ t.capacity * 2)
unfolding rehash
rehash-IsTable t roomy short counted load =
    let n = t.capacity * 2 in
    let (es, e, m) = move_all_lem t.elements n (replicate n none) short (All-replicate n) in
    let open_cap : (t.capacity == 0) ≡ false = ground arith in
    (
      record t { elements = es; capacity = t.capacity * 2 },
      rw (open_cap, e) refl,
      record {
        roomy = omega arith;
        slots = m.same_length ∙ length-replicate n none;
        short = m.short;
        counted = omega (arith, m.counted, count-replicate n);
        load = omega arith;
      },
      refl,
      refl,
    )

pub init_table-IsTable : IsTable init_table
unfolding init_table count
init_table-IsTable = record {
  roomy = omega arith;
  slots = refl;
  short = All-replicate 10;
  counted = omega arith;
  load = omega arith;
}
