-- ===== src/Game/Row.antt =====
-- One row of the 2048 board.
use otus_c.Prelude.{
  ◌==◌, if◌then◌else◌, Bool-cases, suc_eq_zero, length, set, replicate, All, length-append,
  length-replicate, ℕ, zero, suc, ◌+◌, ◌-◌, ◌*◌, ◌≤◌, ◌<◌, ◌≡◌, refl, sym, ap, ◌∙◌, ◌≢◌, ◌↔◌, inl,
  inr, true, false, not, ◌&&◌, List, [], ◌∷◌, ◌++◌, append_assoc, arith,
}
use otus_c.Game.{size, compact_loop, merge_loop, store_loop, slide_and_merge_row}

-- The tiles of a row, without its empty cells.
unfoldable pub tiles : List ℕ → List ℕ
tiles [] = []
tiles (x ∷ xs) = let r = tiles xs in if x == 0 then r else x ∷ r

-- The rule of the game: equal neighbours fuse, from the left, and a fused tile does not fuse again.
unfoldable pub fuse : List ℕ → List ℕ
fuse [] = []
fuse (x ∷ []) = x ∷ []
fuse (x ∷ y ∷ r) = elim (x == y) [ true ↦ (2 * x) ∷ fuse r | false ↦ x ∷ fuse (y ∷ r) ]

unfoldable pub sum : List ℕ → ℕ
sum [] = 0
sum (x ∷ xs) = x + sum xs

pub length-tiles : (xs : List ℕ) → length (tiles xs) ≤ length xs
unfolding tiles
length-tiles [] = omega arith
length-tiles (x ∷ xs) = ground (arith, length-tiles xs)

set_end :
    (pre : List ℕ) (n x : ℕ)
    → set (pre ++ replicate (suc n) 0) (length pre) x ≡ (pre ++ (x ∷ [])) ++ replicate n 0
set_end [] n x = refl
set_end (y ∷ pre) n x = ap (λ l. y ∷ l) (set_end pre n x)

compact_loop_lem :
    (xs pre : List ℕ) (n t : ℕ)
    → t ≡ length pre
    → length (tiles xs) ≤ n
    → compact_loop xs (pre ++ replicate n 0) t
      ≡ pre ++ (tiles xs ++ replicate (n - length (tiles xs)) 0)
unfolding compact_loop tiles
compact_loop_lem [] pre n t e h = ap (λ k. pre ++ replicate k 0) (omega arith)
compact_loop_lem (zero ∷ xs) pre n t e h = compact_loop_lem xs pre n t e h
compact_loop_lem (suc x ∷ xs) pre zero t e h = absurd (grind arith)
compact_loop_lem (suc x ∷ xs) pre (suc n) t e h = ground (
  arith,
  set_end pre n (suc x),
  compact_loop_lem xs (pre ++ (suc x ∷ [])) n (length pre + 1),
  length-append pre (suc x ∷ []),
  append_assoc pre (suc x ∷ []) (tiles xs ++ replicate (n - length (tiles xs)) 0),
)

-- The packing loop writes the tiles in order to the front and leaves zeros behind them.
pub compact_loop-size :
    (xs : List ℕ)
    → length xs ≡ size
    → compact_loop xs (replicate size 0) 0 ≡ tiles xs ++ replicate (size - length (tiles xs)) 0
compact_loop-size xs h = compact_loop_lem xs [] size 0 refl (omega (arith, length-tiles xs))

length-merge_loop : (xs : List ℕ) → length (merge_loop xs).1 ≡ length xs
unfolding merge_loop
length-merge_loop [] = refl
length-merge_loop (x ∷ []) = refl
length-merge_loop (x ∷ y ∷ r) =
    ap suc (length-merge_loop ((if not (x == 0) && x == y then 0 else y) ∷ r))

-- A zero in front never fuses.
merge_loop-zero : (xs : List ℕ) → tiles (merge_loop (0 ∷ xs)).1 ≡ tiles (merge_loop xs).1
unfolding merge_loop tiles
merge_loop-zero [] = refl
merge_loop-zero (y ∷ r) = refl

tiles-merge_loop_zeros : (n : ℕ) → tiles (merge_loop (replicate n 0)).1 ≡ []
unfolding merge_loop tiles
tiles-merge_loop_zeros zero = refl
tiles-merge_loop_zeros (suc zero) = refl
tiles-merge_loop_zeros (suc (suc n)) = tiles-merge_loop_zeros (suc n)

-- One step of the merging loop, when the two tiles fuse and when they do not.
merge_loop-hit :
    (x y : ℕ) (r : List ℕ)
    → 0 < x
    → (x == y) ≡ true
    → merge_loop (x ∷ y ∷ r) ≡ (true, (2 * x) ∷ (merge_loop (0 ∷ r)).1)
unfolding merge_loop
merge_loop-hit zero y r h e = absurd (omega arith)
merge_loop-hit (suc x) y r h e = rw (e, suc_eq_zero x)

merge_loop-miss :
    (x y : ℕ) (r : List ℕ)
    → (x == y) ≡ false
    → merge_loop (x ∷ y ∷ r) ≡ ((merge_loop (y ∷ r)).0, x ∷ (merge_loop (y ∷ r)).1)
unfolding merge_loop
merge_loop-miss zero y r e = refl
merge_loop-miss (suc x) y r e = rw (e, suc_eq_zero x)

tiles_cons : (x : ℕ) (r : List ℕ) → 0 < x → tiles (x ∷ r) ≡ x ∷ tiles r
unfolding tiles
tiles_cons zero r h = absurd (omega arith)
tiles_cons (suc x) r h = rw (suc_eq_zero x)

-- On tiles followed by zeros, the merging loop fuses as the rule says.
merge_loop-fuse :
    (xs : List ℕ) (n : ℕ)
    → All (λ x. 0 < x) xs
    → tiles (merge_loop (xs ++ replicate n 0)).1 ≡ fuse xs
unfolding fuse
merge_loop-fuse [] n h = tiles-merge_loop_zeros n
merge_loop-fuse (x ∷ []) zero h = unfold merge_loop tiles in tiles_cons x [] h.0
merge_loop-fuse (x ∷ []) (suc n) h =
    rw (merge_loop-miss x 0 (replicate n 0) (ground arith), tiles_cons x _ h.0)
      (ap (λ l. x ∷ l) (tiles-merge_loop_zeros (suc n)))
merge_loop-fuse (x ∷ y ∷ r) n h = elim (Bool-cases (x == y)) [
  | inl e ↦
      rw
        (merge_loop-hit x y (r ++ replicate n 0) h.0 e, tiles_cons (2 * x) _ (omega arith), e, fuse)
        (ap (λ l. (2 * x) ∷ l) (merge_loop-zero (r ++ replicate n 0) ∙ merge_loop-fuse r n h.1.1))
  | inr e ↦
      rw (merge_loop-miss x y (r ++ replicate n 0) e, tiles_cons x _ h.0, e, fuse)
        (ap (λ l. x ∷ l) (merge_loop-fuse (y ∷ r) n h.1))
]

pub tiles-All : (xs : List ℕ) → All (λ x. 0 < x) (tiles xs)
unfolding tiles
tiles-All [] = tt
tiles-All (zero ∷ xs) = tiles-All xs
tiles-All (suc x ∷ xs) = rw (suc_eq_zero x) (omega arith, tiles-All xs)

pub length-fuse : (xs : List ℕ) → length (fuse xs) ≤ length xs
unfolding fuse
length-fuse [] = omega arith
length-fuse (x ∷ []) = omega arith
length-fuse (x ∷ y ∷ r) = ground (arith, length-fuse r, length-fuse (y ∷ r))

-- Copying the result back stores it, and reports whether the row differed from it.
store_loop_lem :
    (xs ys : List ℕ)
    → length xs ≡ length ys
    → ((store_loop xs ys).1 ≡ ys) × (((store_loop xs ys).0 ≡ false) ↔ (xs ≡ ys))
unfolding store_loop
store_loop_lem [] [] h = (refl, ((λ _. refl), (λ _. refl)))
store_loop_lem [] (y ∷ ys) h = absurd (omega arith)
store_loop_lem (x ∷ xs) [] h = absurd (omega arith)
store_loop_lem (x ∷ xs) (y ∷ ys) h =
    let (same, iff) = store_loop_lem xs ys (omega arith) in
    (ap (λ l. y ∷ l) same, ((λ e. ground (arith, iff.0)), (λ e. ground (arith, iff.1))))

-- The row that the rule of the game gives, packed to the left.
unfoldable pub slid : List ℕ → List ℕ
slid row = let r = fuse (tiles row) in r ++ replicate (size - length r) 0

merged_zeros : (n : ℕ) → (merge_loop (replicate n 0)).0 ≡ false
unfolding merge_loop
merged_zeros zero = refl
merged_zeros (suc zero) = refl
merged_zeros (suc (suc n)) = merged_zeros (suc n)

-- When the merging loop reports a fusion, fewer tiles are left.
merged-lt :
    (xs : List ℕ) (n : ℕ)
    → All (λ x. 0 < x) xs
    → (merge_loop (xs ++ replicate n 0)).0 ≡ true
    → length (fuse xs) < length xs
unfolding fuse
merged-lt [] n h e = cc (merged_zeros n)
merged-lt (x ∷ []) zero h e = unfold merge_loop in cc e
merged-lt (x ∷ []) (suc n) h e =
    cc (ap (λ r. r.0) (merge_loop-miss x 0 (replicate n 0) (ground arith)), merged_zeros (suc n))
merged-lt (x ∷ y ∷ r) n h e = elim (Bool-cases (x == y)) [
  | inl same ↦ rw (same, fuse) (omega (arith, length-fuse r))
  | inr diff ↦
      rw (diff, fuse)
        (omega (
          arith,
          merged-lt (y ∷ r) n h.1
              (ap (λ r. r.0) (sym (merge_loop-miss x y (r ++ replicate n 0) diff)) ∙ e),
        ))
]

pub tiles-append_zeros :
    (xs : List ℕ) (n : ℕ) → All (λ x. 0 < x) xs → tiles (xs ++ replicate n 0) ≡ xs
unfolding tiles
tiles-append_zeros [] zero h = refl
tiles-append_zeros [] (suc n) h = tiles-append_zeros [] n h
tiles-append_zeros (zero ∷ xs) n h = absurd (omega (arith, h.0))
tiles-append_zeros (suc x ∷ xs) n h =
    rw (suc_eq_zero x) (ap (λ l. suc x ∷ l) (tiles-append_zeros xs n h.1))

pub fuse-All : (xs : List ℕ) → All (λ x. 0 < x) xs → All (λ x. 0 < x) (fuse xs)
unfolding fuse
fuse-All [] h = tt
fuse-All (x ∷ []) h = h
fuse-All (x ∷ y ∷ r) h = elim (Bool-cases (x == y)) [
  | inl e ↦ rw (e, All, fuse) (omega arith, fuse-All r h.1.1)
  | inr e ↦ rw (e, All, fuse) (h.0, fuse-All (y ∷ r) h.1)
]

pub tiles-slid : (row : List ℕ) → tiles (slid row) ≡ fuse (tiles row)
unfolding slid
tiles-slid row = tiles-append_zeros (fuse (tiles row)) _ (fuse-All (tiles row) (tiles-All row))

pub length-slid : (row : List ℕ) → length row ≡ size → length (slid row) ≡ size
unfolding slid
length-slid row h = omega (
  arith,
  length-append (fuse (tiles row)) (replicate (size - length (fuse (tiles row))) 0),
  length-replicate {A = ℕ} (size - length (fuse (tiles row))) 0,
  length-fuse (tiles row),
  length-tiles row,
)

-- For a row of four cells, the second packing loop turns the merged row into the slid row.
final-slid :
    (row : List ℕ)
    → length row ≡ size
    → let temp = compact_loop row (replicate size 0) 0 in
      (compact_loop (merge_loop temp).1 (replicate size 0) 0 ≡ slid row)
      × ((merge_loop temp).0 ≡ true → slid row ≢ row)
unfolding slid
final-slid row h =
    let n = size - length (tiles row) in
    let packed = tiles row ++ replicate n 0 in
    let fits = length-tiles row in
    let full : length (merge_loop packed).1 ≡ size = omega (
      arith,
      length-merge_loop packed,
      length-append (tiles row) (replicate n 0),
      length-replicate {A = ℕ} n 0,
    ) in
    rw (compact_loop-size row h) (
      rw (
        compact_loop-size (merge_loop packed).1 full,
        merge_loop-fuse (tiles row) n (tiles-All row),
      ),
      λ e same. absurd (
          omega (
            arith,
            merged-lt (tiles row) n (tiles-All row) e,
            ap length (sym (tiles-slid row) ∙ ap tiles same),
          )),
    )

-- `slideAndMergeRow` on a row of four cells leaves the row that the rule of the game gives, and
-- returns 0 exactly when that is the row it was given.
pub slide_and_merge_row-slid :
    (row : List ℕ)
    → length row ≡ size
    → ((slide_and_merge_row row).1 ≡ slid row)
      × (((slide_and_merge_row row).0 ≡ false) ↔ (slid row ≡ row))
unfolding slide_and_merge_row
slide_and_merge_row-slid row h =
    let (final, changed) = final-slid row h in
    let (stored, iff) = store_loop_lem row (slid row) (omega (arith, length-slid row h)) in
    rw final
      (stored, ((λ e. sym (iff.0 (ground arith))), (λ e. ground (arith, iff.1 (sym e), changed))))
