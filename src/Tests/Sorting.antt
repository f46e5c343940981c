-- ===== src/Tests/Sorting.antt =====
-- A qsort for the runs of the log parser: sorting by insertion.
use otus_c.Prelude.{
  if◌then◌else◌, leb→le, Bool-cases, All, ◌≡◌, refl, sym, ◌∙◌, inl, inr, true, false, Memᴰ, Permᴰ,
  List, [], ◌∷◌, arith,
}
use otus_c.Prelude.Int.{ℤ, zero_ℤ, ◌≤ℤ◌, leb_ℤ}
use otus_c.Log.{HashEntry}
use otus_c.Log.Program.{IsConsistent, IsSorted, Qsort}

abbrev Compare : Type 0
Compare = HashEntry → HashEntry → ℤ

abbrev insert : Compare → HashEntry → List HashEntry → List HashEntry
insert compare e [] = e ∷ []
insert compare e (x ∷ xs) =
    let rest = insert compare e xs in if leb_ℤ (compare e x) zero_ℤ then e ∷ x ∷ xs else x ∷ rest

abbrev sort : Compare → List HashEntry → List HashEntry
sort compare [] = []
sort compare (e ∷ es) = insert compare e (sort compare es)

Permᴰ-same : (es : List HashEntry) → Permᴰ es es
Permᴰ-same [] = Permᴰ.nil
Permᴰ-same (e ∷ es) = Permᴰ.cons refl (Permᴰ-same es)

insert-Permᴰ :
    (compare : Compare) (e : HashEntry) (es : List HashEntry) → Permᴰ (e ∷ es) (insert compare e es)
insert-Permᴰ compare e [] = Permᴰ-same (e ∷ [])
insert-Permᴰ compare e (x ∷ xs) = elim (Bool-cases (leb_ℤ (compare e x) zero_ℤ)) [
  | inl le ↦ rw le (Permᴰ-same (e ∷ x ∷ xs))
  | inr gt ↦
      rw gt (Permᴰ.trans (Permᴰ.swap refl refl) (Permᴰ.cons refl (insert-Permᴰ compare e xs)))
]

pub sort-Permᴰ : (compare : Compare) (es : List HashEntry) → Permᴰ es (sort compare es)
sort-Permᴰ compare [] = Permᴰ.nil
sort-Permᴰ compare (e ∷ es) =
    Permᴰ.trans (Permᴰ.cons refl (sort-Permᴰ compare es)) (insert-Permᴰ compare e (sort compare es))

-- A member of the second list is one of the first.
Memᴰ-Permᴰ : {es fs : List HashEntry} → Permᴰ es fs → {e : HashEntry} → Memᴰ e fs → Memᴰ e es
Memᴰ-Permᴰ Permᴰ.nil m = m
Memᴰ-Permᴰ (Permᴰ.cons q p) (Memᴰ.head h) = Memᴰ.head (h ∙ sym q)
Memᴰ-Permᴰ (Permᴰ.cons q p) (Memᴰ.tail m) = Memᴰ.tail (Memᴰ-Permᴰ p m)
Memᴰ-Permᴰ (Permᴰ.swap q r) (Memᴰ.head h) = Memᴰ.tail (Memᴰ.head (h ∙ sym r))
Memᴰ-Permᴰ (Permᴰ.swap q r) (Memᴰ.tail (Memᴰ.head h)) = Memᴰ.head (h ∙ sym q)
Memᴰ-Permᴰ (Permᴰ.swap q r) (Memᴰ.tail (Memᴰ.tail m)) = Memᴰ.tail (Memᴰ.tail m)
Memᴰ-Permᴰ (Permᴰ.trans p q) m = Memᴰ-Permᴰ p (Memᴰ-Permᴰ q m)

restrict :
    (compare : Compare) (es fs : List HashEntry)
    → ((e : HashEntry) → Memᴰ e fs → Memᴰ e es)
    → IsConsistent compare es
    → IsConsistent compare fs
restrict compare es fs f c = record {
  total = λ a b m n. c.total a b (f a m) (f b n);
  transitive = λ a b d m n o. c.transitive a b d (f a m) (f b n) (f d o);
}

All-insert :
    (compare : Compare) (P : HashEntry → Type 0) (e : HashEntry) (es : List HashEntry)
    → P e
    → All P es
    → All P (insert compare e es)
All-insert compare P e [] p a = (p, tt)
All-insert compare P e (x ∷ xs) p (q, a) = elim (Bool-cases (leb_ℤ (compare e x) zero_ℤ)) [
  | inl le ↦ rw le (p, (q, a))
  | inr gt ↦ rw gt (q, All-insert compare P e xs p a)
]

insert-IsSorted :
    (compare : Compare) (e : HashEntry) (es : List HashEntry)
    → IsConsistent compare (e ∷ es)
    → IsSorted compare es
    → IsSorted compare (insert compare e es)
unfolding IsSorted
insert-IsSorted compare e [] c s = (tt, tt)
insert-IsSorted compare e (x ∷ xs) c (below, s) = elim (Bool-cases (leb_ℤ (compare e x) zero_ℤ)) [
  | inl le ↦ rw le ((smaller le, through xs (λ y m. m) (smaller le) below), (below, s))
  | inr gt ↦ rw gt (
    All-insert compare (λ y. compare x y ≤ℤ zero_ℤ) e xs (other gt) below,
    insert-IsSorted compare e xs (restrict compare _ (e ∷ xs) without c) s,
  )
]
  where
    smaller : leb_ℤ (compare e x) zero_ℤ ≡ true → compare e x ≤ℤ zero_ℤ
    smaller le = leb→le _ _ le

    other : leb_ℤ (compare e x) zero_ℤ ≡ false → compare x e ≤ℤ zero_ℤ
    other gt = elim (c.total e x (Memᴰ.head refl) (Memᴰ.tail (Memᴰ.head refl))) [
      | inl le ↦ absurd (ground (arith, le, gt))
      | inr le ↦ le
    ]

    without : (y : HashEntry) → Memᴰ y (e ∷ xs) → Memᴰ y (e ∷ x ∷ xs)
    without y (Memᴰ.head h) = Memᴰ.head h
    without y (Memᴰ.tail m) = Memᴰ.tail (Memᴰ.tail m)

    through :
        (ys : List HashEntry)
        → ((y : HashEntry) → Memᴰ y ys → Memᴰ y xs)
        → compare e x ≤ℤ zero_ℤ
        → All (λ y. compare x y ≤ℤ zero_ℤ) ys
        → All (λ y. compare e y ≤ℤ zero_ℤ) ys
    through [] f le a = tt
    through (y ∷ ys) f le (b, a) = (
      c.transitive e x y (Memᴰ.head refl) (Memᴰ.tail (Memᴰ.head refl))
          (Memᴰ.tail (Memᴰ.tail (f y (Memᴰ.head refl)))) le b,
      through ys (λ z m. f z (Memᴰ.tail m)) le a,
    )

sort-IsSorted :
    (compare : Compare) (es : List HashEntry)
    → IsConsistent compare es
    → IsSorted compare (sort compare es)
sort-IsSorted compare [] c = unfold IsSorted in tt
sort-IsSorted compare (e ∷ es) c =
    insert-IsSorted compare e (sort compare es)
      (restrict compare (e ∷ es) _ (λ y m. Memᴰ-Permᴰ (Permᴰ.cons refl (sort-Permᴰ compare es)) m)
        c)
      (sort-IsSorted compare es (restrict compare (e ∷ es) es (λ y m. Memᴰ.tail m) c))

pub insertion : Qsort
insertion = record { qsort = sort; permuted = sort-Permᴰ; sorted = sort-IsSorted }
