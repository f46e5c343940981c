-- ===== src/Log/Program/Ranking.antt =====
-- The entries that select_top_n of HW10-LogParser/src/main.c prints are those with the largest counts.
use otus_c.Prelude.{
  Bool-cases, length, get_elem?, take, drop, All, take-append-drop, ℕ, zero, suc, ◌-◌, ◌^◌, ◌≤◌,
  ◌<◌, ◌≡◌, refl, sym, subst, ap, ◌∙◌, ◌↔◌, ◌⊎◌, inl, inr, some, Memᴰ, Permᴰ, List, [], ◌∷◌, ◌++◌,
  arith,
}
use otus_c.Prelude.Int.{ℤ, pos, negsuc, ◌-ℤ◌, ◌≤ℤ◌, zero_ℤ, +ℤ_zero}
use otus_c.Prelude.Text.{same, same-eq}
use otus_c.Log.{HashEntry, compare_by_value}
use otus_c.Log.Values.{value_of, zero_plus}
use otus_c.Log.Maps.{Absent, Distinct, value_of-Absent, value_of-entry}
use otus_c.Log.Order.{compare_by_value_lem}
use otus_c.Log.Program.{IsConsistent, IsSorted, Qsort, top}
use otus_c.Log.Program.Permuted.{All-Memᴰ, All-Permᴰ, Distinct-Permᴰ, value_of-Permᴰ}

-- A count that an int can hold.
abbrev pub IsSmall : ℤ → Type 0
IsSmall v = (zero_ℤ ≤ℤ v) × (v ≤ℤ pos (2 ^ 31 - 1))

-- No entry has a larger value than one before it.
unfoldable pub IsFalling : List HashEntry → Type 0
IsFalling [] = Unit
IsFalling (e ∷ es) = All (λ x. x.value ≤ℤ e.value) es × IsFalling es

-- At most n keys, each once and with its count, by falling count; no other key has a larger count than
-- one of these, and if they are fewer than n, the others have none.
pub record IsTop (n : ℕ) (count : List ℕ → ℤ) (printed : List HashEntry) : Type 0 where
  pub distinct : Distinct printed
  pub size : length printed ≤ n
  pub counted : All (λ e. e.value ≡ count e.key) printed
  pub falling : IsFalling printed
  pub others : (k : List ℕ) → Absent k printed → All (λ e. count k ≤ℤ e.value) printed
  pub complete : length printed < n → (k : List ℕ) → Absent k printed → count k ≡ zero_ℤ

small_difference :
    (b a : ℤ)
    → IsSmall b
    → IsSmall a
    → (negsuc (2 ^ 31 - 1) ≤ℤ (b -ℤ a)) × ((b -ℤ a) ≤ℤ pos (2 ^ 31 - 1))
unfolding ◌-ℤ◌
small_difference (pos b) (pos a) (lo, hi) (lo', hi') = (ground arith, ground arith)
small_difference (pos b) (negsuc a) s (lo, hi) = absurd (omega arith)
small_difference (negsuc b) a (lo, hi) s = absurd (omega arith)

compare-small :
    (a b : HashEntry)
    → IsSmall a.value
    → IsSmall b.value
    → (compare_by_value a b ≤ℤ zero_ℤ) ↔ (b.value ≤ℤ a.value)
compare-small a b s t =
    let (lo, hi) = small_difference b.value a.value t s in (compare_by_value_lem a b 0 lo hi).0

le_total : (a b : ℤ) → (a ≤ℤ b) ⊎ (b ≤ℤ a)
le_total a b = ground arith

compare-IsConsistent :
    (es : List HashEntry) → All (λ e. IsSmall e.value) es → IsConsistent compare_by_value es
compare-IsConsistent es small =
    let at : (e : HashEntry) → Memᴰ e es → IsSmall e.value =
      λ e m. All-Memᴰ (λ x. IsSmall x.value) es small m in
    record {
      total = λ a b m n. elim (le_total b.value a.value) [
        | inl le ↦ inl ((compare-small a b (at a m) (at b n)).1 le)
        | inr le ↦ inr ((compare-small b a (at b n) (at a m)).1 le)
      ];
      transitive = λ a b c m n o p q.
          let ab = (compare-small a b (at a m) (at b n)).0 p in
          let bc = (compare-small b c (at b n) (at c o)).0 q in
          (compare-small a c (at a m) (at c o)).1 (omega (arith, ab, bc));
    }

IsSorted-IsFalling :
    (es : List HashEntry)
    → All (λ e. IsSmall e.value) es
    → IsSorted compare_by_value es
    → IsFalling es
unfolding IsSorted IsFalling
IsSorted-IsFalling [] s o = tt
IsSorted-IsFalling (e ∷ es) (se, s) (below, o) = (each es s below, IsSorted-IsFalling es s o)
  where
    each :
        (xs : List HashEntry)
        → All (λ x. IsSmall x.value) xs
        → All (λ x. compare_by_value e x ≤ℤ zero_ℤ) xs
        → All (λ x. x.value ≤ℤ e.value) xs
    each [] s b = tt
    each (x ∷ xs) (sx, s) (b, bs) = ((compare-small e x se sx).0 b, each xs s bs)

module _ {κ} (P : HashEntry → Type κ) where
  All-front : (xs ys : List HashEntry) → All P (xs ++ ys) → All P xs
  All-front [] ys a = tt
  All-front (x ∷ xs) ys (p, a) = (p, All-front xs ys a)

  All-back : (xs ys : List HashEntry) → All P (xs ++ ys) → All P ys
  All-back [] ys a = a
  All-back (x ∷ xs) ys (p, a) = All-back xs ys a

  All-index :
      (xs : List HashEntry) → ((i : ℕ) (e : HashEntry) → get_elem? xs i ≡ some e → P e) → All P xs
  All-index [] f = tt
  All-index (x ∷ xs) f = (f 0 x refl, All-index xs (λ i e h. f (suc i) e h))

Absent-front : (k : List ℕ) (xs ys : List HashEntry) → Absent k (xs ++ ys) → Absent k xs
unfolding Absent
Absent-front k [] ys a = tt
Absent-front k (x ∷ xs) ys (n, a) = (n, Absent-front k xs ys a)

Distinct-front : (xs ys : List HashEntry) → Distinct (xs ++ ys) → Distinct xs
unfolding Distinct
Distinct-front [] ys d = tt
Distinct-front (x ∷ xs) ys (a, d) = (Absent-front x.key xs ys a, Distinct-front xs ys d)

Distinct-back : (xs ys : List HashEntry) → Distinct (xs ++ ys) → Distinct ys
unfolding Distinct
Distinct-back [] ys d = d
Distinct-back (x ∷ xs) ys (a, d) = Distinct-back xs ys d

IsFalling-front : (xs ys : List HashEntry) → IsFalling (xs ++ ys) → IsFalling xs
unfolding IsFalling
IsFalling-front [] ys f = tt
IsFalling-front (x ∷ xs) ys (b, f) =
    (All-front (λ y. y.value ≤ℤ x.value) xs ys b, IsFalling-front xs ys f)

-- The entries behind are below each entry in front.
IsFalling-across :
    (xs ys : List HashEntry) → IsFalling (xs ++ ys) → All (λ x. All (λ y. y.value ≤ℤ x.value) ys) xs
unfolding IsFalling
IsFalling-across [] ys f = tt
IsFalling-across (x ∷ xs) ys (b, f) =
    (All-back (λ y. y.value ≤ℤ x.value) xs ys b, IsFalling-across xs ys f)

value_of-behind :
    (k : List ℕ) (xs ys : List HashEntry) → Absent k xs → value_of k (xs ++ ys) ≡ value_of k ys
unfolding value_of Absent
value_of-behind k [] ys a = refl
value_of-behind k (x ∷ xs) ys (n, a) = rw n (zero_plus _ ∙ value_of-behind k xs ys a)

-- What a map holds for a key is at most the largest of its values.
value_of-le :
    (k : List ℕ) (v : ℤ) (es : List HashEntry)
    → Distinct es
    → zero_ℤ ≤ℤ v
    → All (λ e. e.value ≤ℤ v) es
    → value_of k es ≤ℤ v
unfolding value_of Distinct
value_of-le k v [] d pos_v a = pos_v
value_of-le k v (e ∷ es) (absent, d) pos_v (le, a) = elim (Bool-cases (same e.key k)) [
  | inl hit ↦
      rw
        (
          hit,
          value_of-Absent k es (subst (λ q. Absent q es) (same-eq e.key k hit) absent),
          +ℤ_zero e.value,
        )
        le
  | inr miss ↦ rw (miss, zero_plus (value_of k es)) (value_of-le k v es d pos_v a)
]

value_of-all : (es : List HashEntry) → Distinct es → All (λ e. e.value ≡ value_of e.key es) es
value_of-all es d =
    All-index (λ e. e.value ≡ value_of e.key es) es (λ i e h. sym (value_of-entry es i e d h))

map-All {κ ρ} :
    (P : HashEntry → Type κ) (Q : HashEntry → Type ρ) (es : List HashEntry)
    → ((e : HashEntry) → P e → Q e)
    → All P es
    → All Q es
map-All P Q [] f a = tt
map-All P Q (e ∷ es) f (p, a) = (f e p, map-All P Q es f a)

All-both {κ ρ} :
    (P : HashEntry → Type κ) (Q : HashEntry → Type ρ) (es : List HashEntry)
    → All P es
    → All Q es
    → All (λ e. P e × Q e) es
All-both P Q [] a b = tt
All-both P Q (e ∷ es) (p, a) (q, b) = ((p, q), All-both P Q es a b)

length-take-le : (n : ℕ) (es : List HashEntry) → length (take n es) ≤ n
length-take-le zero es = omega arith
length-take-le (suc n) [] = omega arith
length-take-le (suc n) (e ∷ es) = omega (arith, length-take-le n es)

drop-nil : (n : ℕ) (es : List HashEntry) → length (take n es) < n → drop n es ≡ []
drop-nil zero es h = absurd (omega arith)
drop-nil (suc n) [] h = refl
drop-nil (suc n) (e ∷ es) h = drop-nil n es (omega arith)

-- The first entries of a map that is sorted by falling value.
take-IsTop :
    (n : ℕ) (count : List ℕ → ℤ) (es : List HashEntry)
    → Distinct es
    → All (λ e. IsSmall e.value) es
    → IsFalling es
    → ((k : List ℕ) → value_of k es ≡ count k)
    → IsTop n count (take n es)
take-IsTop n count es d small falling counts = record {
  distinct = Distinct-front front back d';
  size = length-take-le n es;
  counted =
      All-front (λ e. e.value ≡ count e.key) front back
        (map-All _ _ (front ++ back) (λ e h. h ∙ counts' e.key) (value_of-all (front ++ back) d'));
  falling = IsFalling-front front back f';
  others = λ k a.
      map-All _ (λ e. count k ≤ℤ e.value) front
        (λ e h.
          subst (λ c. c ≤ℤ e.value) (sym (value_of-behind k front back a) ∙ counts' k)
            (value_of-le k e.value back (Distinct-back front back d') h.0.0 h.1))
        (All-both (λ e. IsSmall e.value) (λ e. All (λ y. y.value ≤ℤ e.value) back) front
          (All-front (λ e. IsSmall e.value) front back small') (IsFalling-across front back f'));
  complete = λ short k a.
      sym (counts' k)
      ∙ value_of-behind k front back a
      ∙ ap (value_of k) (drop-nil n es short)
      ∙ unfold value_of in refl;
}
  where
    front : List HashEntry
    front = take n es

    back : List HashEntry
    back = drop n es

    whole : es ≡ front ++ back
    whole = sym (take-append-drop n es)

    d' : Distinct (front ++ back)
    d' = subst Distinct whole d

    f' : IsFalling (front ++ back)
    f' = subst IsFalling whole falling

    small' : All (λ e. IsSmall e.value) (front ++ back)
    small' = subst (All (λ e. IsSmall e.value)) whole small

    counts' : (k : List ℕ) → value_of k (front ++ back) ≡ count k
    counts' k = ap (value_of k) (sym whole) ∙ counts k

-- What select_top_n prints of a map with different keys and small counts.
pub top-IsTop :
    (q : Qsort) (n : ℕ) (count : List ℕ → ℤ) (es : List HashEntry)
    → Distinct es
    → ((k : List ℕ) → value_of k es ≡ count k)
    → ((k : List ℕ) → IsSmall (count k))
    → IsTop n count (top q es n)
unfolding top
top-IsTop q n count es d counts small_counts =
    take-IsTop n count (q.qsort compare_by_value es) (Distinct-Permᴰ p d)
      (All-Permᴰ (λ e. IsSmall e.value) p small)
      (IsSorted-IsFalling (q.qsort compare_by_value es) (All-Permᴰ (λ e. IsSmall e.value) p small)
        (q.sorted compare_by_value es (compare-IsConsistent es small)))
      (λ k. sym (value_of-Permᴰ k p) ∙ counts k)
  where
    p : Permᴰ es (q.qsort compare_by_value es)
    p = q.permuted compare_by_value es

    small : All (λ e. IsSmall e.value) es
    small =
        map-All _ (λ e. IsSmall e.value) es
          (λ e h. subst IsSmall (sym (h ∙ counts e.key)) (small_counts e.key)) (value_of-all es d)
