-- ===== src/Game/Stuck.antt =====
-- A board that none of the four moves changes, and that holds a tile, is one where canMove returns 0.
use otus_c.Prelude.{
  length, get_or, replicate, All, ℕ, zero, suc, ◌+◌, ◌<◌, ◌≡◌, refl, sym, subst, ap, ◌∙◌, ◌≢◌, ◌↔◌,
  ◌⊎◌, inl, inr, false, ◌||◌, List, [], ◌∷◌, ◌++◌, map, arith, ℕ_discrete,
}
use mathlib.Core.List.{reverse}
use otus_c.Game.{size, Board, column, row_open, rows_meet, can_move}
use otus_c.Game.Row.{tiles, fuse, slid, sum, tiles-slid, fuse-All, tiles-All}
use otus_c.Game.Moves.{Direction, left, right, up, down, move, IsBoard, lines, columns, move-lines}
use otus_c.Game.Over.{
  Settled, Settled-of-fuse, tiles-All_pos, columns-width, can_move-none, get_or-Settled_pos,
}

-- Behind an empty cell there are only empty cells.
abbrev Trailing : List ℕ → Type 0
Trailing [] = Unit {0}
Trailing (x ∷ []) = Unit {0}
Trailing (x ∷ y ∷ r) = (x ≡ 0 → y ≡ 0) × Trailing (y ∷ r)

zeros-Trailing : (n : ℕ) → Trailing (replicate n 0)
zeros-Trailing zero = tt
zeros-Trailing (suc zero) = tt
zeros-Trailing (suc (suc n)) = ((λ e. refl), zeros-Trailing (suc n))

append-Trailing : (xs : List ℕ) (n : ℕ) → All (λ x. 0 < x) xs → Trailing (xs ++ replicate n 0)
append-Trailing [] n h = zeros-Trailing n
append-Trailing (x ∷ []) zero h = tt
append-Trailing (x ∷ []) (suc n) h = ((λ e. refl), zeros-Trailing (suc n))
append-Trailing (x ∷ y ∷ r) n h = ((λ e. absurd (omega arith)), append-Trailing (y ∷ r) n h.1)

slid-Trailing : (xs : List ℕ) → slid xs ≡ xs → Trailing xs
unfolding slid
slid-Trailing xs e =
    subst Trailing e (append-Trailing (fuse (tiles xs)) _ (fuse-All (tiles xs) (tiles-All xs)))

abbrev IsEmpty : List ℕ → Type 0
IsEmpty xs = All (λ x. x ≡ 0) xs

-- A line of four that slides neither way is empty or settled.
slid-both :
    (xs : List ℕ)
    → length xs ≡ size
    → slid xs ≡ xs
    → slid (reverse xs) ≡ reverse xs
    → IsEmpty xs ⊎ Settled xs
slid-both (a ∷ b ∷ c ∷ d ∷ []) w e e' =
    let there = slid-Trailing (a ∷ b ∷ c ∷ d ∷ []) e in
    let back = slid-Trailing (d ∷ c ∷ b ∷ a ∷ []) e' in
    elim (ℕ_discrete a 0) [
      | yes z ↦ inl (omega arith)
      | no nz ↦
          let nb : b ≢ 0 = λ z. nz (back.1.1.0 z) in
          let nc : c ≢ 0 = λ z. nb (back.1.0 z) in
          let nd : d ≢ 0 = λ z. nc (back.0 z) in
          let full : All (λ x. 0 < x) (a ∷ b ∷ c ∷ d ∷ []) = omega arith in
          inr (
            Settled-of-fuse (a ∷ b ∷ c ∷ d ∷ []) full (
              ap length (
                ap fuse (sym (tiles-All_pos _ full))
                ∙ sym (tiles-slid (a ∷ b ∷ c ∷ d ∷ []))
                ∙ ap tiles e
                ∙ tiles-All_pos _ full)))
    ]
slid-both xs w e e1 = absurd (omega arith)

-- The same of several lines of four.
lines-both :
    (ls : List (List ℕ))
    → All (λ l. length l ≡ size) ls
    → map slid ls ≡ ls
    → map slid (map reverse ls) ≡ map reverse ls
    → All (λ l. IsEmpty l ⊎ Settled l) ls
lines-both [] w e e' = tt
lines-both (l ∷ ls) w e e' = (slid-both l w.0 (cc) (cc), lines-both ls w.1 (cc) (cc))

-- A line with a tile in it, if it slides neither way, is settled.
Settled-of-tile : (l : List ℕ) (j : ℕ) → IsEmpty l ⊎ Settled l → 0 < get_or l j 0 → Settled l
Settled-of-tile l j (inr s) h = s
Settled-of-tile l j (inl z) h = absurd (omega (arith, empty l j z))
  where
    empty : (xs : List ℕ) (k : ℕ) → IsEmpty xs → get_or xs k 0 ≡ 0
    empty [] k z = refl
    empty (x ∷ xs) zero z = z.0
    empty (x ∷ xs) (suc k) z = empty xs k z.1

-- The rows and the columns of a board that no move changes.
stuck-lines :
    (b : Board)
    → IsBoard b
    → ((d : Direction) → (move d b).0 ≡ false)
    → All (λ l. IsEmpty l ⊎ Settled l) b × All (λ l. IsEmpty l ⊎ Settled l) (columns b)
unfolding lines
stuck-lines b v still = (
  lines-both b v.1 (fixed left) (fixed right),
  lines-both (columns b) (columns-width b v.0) (fixed up) (fixed down),
)
  where
    fixed : (d : Direction) → map slid (lines d b) ≡ lines d b
    fixed d = let (same, iff, _) = move-lines d b v in sym same ∙ ap (lines d) (iff.0 (still d))

Settled-row_open : (xs : List ℕ) → Settled xs → row_open xs ≡ false
unfolding row_open
Settled-row_open [] h = refl
Settled-row_open (x ∷ []) h = ground arith
Settled-row_open (x ∷ y ∷ r) h = ground (arith, Settled-row_open (y ∷ r) h.2)

rows_meet-false :
    (xs ys : List ℕ)
    → ((j : ℕ) → j < length xs → get_or xs j 0 ≢ get_or ys j 0)
    → rows_meet xs ys ≡ false
unfolding rows_meet
rows_meet-false [] ys h = refl
rows_meet-false (x ∷ xs) [] h = refl
rows_meet-false (x ∷ xs) (y ∷ ys) h =
    ground (arith, h 0 (omega arith), rows_meet-false xs ys (λ j lt. h (suc j) (omega arith)))

-- Where all rows and columns are settled, canMove returns 0.
can_move-false :
    (b : Board)
    → All (λ r. length r ≡ size) b
    → All Settled b
    → ((j : ℕ) → j < size → Settled (column j b))
    → can_move b ≡ false
unfolding can_move column
can_move-false [] w rows cols = refl
can_move-false (r ∷ []) w rows cols = Settled-row_open r rows.0
can_move-false (r ∷ s ∷ rs) w rows cols =
    rw
      (
        Settled-row_open r rows.0,
        ◌||◌,
        rows_meet-false r s (λ j lt. (cols j (omega (arith, w.0))).1),
      )
      (can_move-false (s ∷ rs) w.1 rows.1 (λ j lt. (cols j lt).2))

-- The sum of all tiles.
unfoldable pub total : Board → ℕ
total [] = 0
total (r ∷ rs) = sum r + total rs

sum-IsEmpty : (xs : List ℕ) → IsEmpty xs → sum xs ≡ 0
unfolding sum
sum-IsEmpty [] h = refl
sum-IsEmpty (x ∷ xs) h = omega (arith, h.0, sum-IsEmpty xs h.1)

Settled-row :
    (b : Board)
    → All (λ l. IsEmpty l ⊎ Settled l) b
    → 0 < total b
    → (i : ℕ) × (i < length b) × Settled (get_or b i [])
unfolding total
Settled-row [] h p = absurd (omega arith)
Settled-row (r ∷ rs) (inr s, rest) p = (0, omega arith, s)
Settled-row (r ∷ rs) (inl z, rest) p =
    let (i, lt, s) = Settled-row rs rest (omega (arith, sum-IsEmpty r z)) in (suc i, omega arith, s)

get_or-column :
    (j i : ℕ) (b : Board) → i < length b → get_or (column j b) i 0 ≡ get_or (get_or b i []) j 0
unfolding column
get_or-column j i [] h = absurd (omega arith)
get_or-column j zero (r ∷ rs) h = refl
get_or-column j (suc i) (r ∷ rs) h = get_or-column j i rs (omega arith)

pub width-row :
    (ls : List (List ℕ)) (i : ℕ)
    → All (λ l. length l ≡ size) ls
    → i < length ls
    → length (get_or ls i []) ≡ size
width-row [] i h lt = absurd (omega arith)
width-row (l ∷ ls) zero h lt = h.0
width-row (l ∷ ls) (suc i) h lt = width-row ls i h.1 (omega arith)

-- With one settled row, every column of such a board is settled.
row-columns-Settled :
    (b : Board) (i : ℕ)
    → IsBoard b
    → i < length b
    → Settled (get_or b i [])
    → All (λ l. IsEmpty l ⊎ Settled l) (columns b)
    → (j : ℕ) → j < size
    → Settled (column j b)
unfolding columns
row-columns-Settled b i v lt s cols j h = Settled-of-tile (column j b) i (pick j h) (
    rw (get_or-column j i b lt) (
      get_or-Settled_pos (get_or b i []) j s
        (let e : length (get_or b i []) ≡ size = width-row b i v.1 lt in rw e h)))
  where
    pick : (j : ℕ) → j < size → IsEmpty (column j b) ⊎ Settled (column j b)
    pick zero h = cols.0
    pick (suc zero) h = cols.1.0
    pick (suc (suc zero)) h = cols.1.1.0
    pick (suc (suc (suc zero))) h = cols.1.1.1.0
    pick (suc (suc (suc (suc j)))) h = absurd (omega arith)

rows-Settled :
    (b : Board) → All (λ l. IsEmpty l ⊎ Settled l) b → Settled (column 0 b) → All Settled b
unfolding column
rows-Settled [] h c = tt
rows-Settled (r ∷ []) h c = (Settled-of-tile r 0 h.0 c, tt)
rows-Settled (r ∷ s ∷ rs) h c = (Settled-of-tile r 0 h.0 c.0, rows-Settled (s ∷ rs) h.1 c.2)

-- On a 4 × 4 board that holds a tile, canMove returns 0 exactly when none of the four moves reports
-- that it moved something.
pub can_move_lem :
    (b : Board)
    → IsBoard b
    → 0 < total b
    → (can_move b ≡ false) ↔ ((d : Direction) → (move d b).0 ≡ false)
can_move_lem b v p = (
  (λ over d. can_move-none d b v over),
  (λ still.
      let (rows, cols) = stuck-lines b v still in
      let (i, lt, s) = Settled-row b rows p in
      let settled = row-columns-Settled b i v lt s cols in
      can_move-false b v.1 (rows-Settled b rows (settled 0 (omega arith))) settled),
)
