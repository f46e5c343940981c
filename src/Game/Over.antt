-- ===== src/Game/Over.antt =====
-- When the game is over: canMove against the four moves.
use otus_c.Prelude.{
  ◌==◌, Bool-cases, or_false, length, get_or, All, ℕ, zero, suc, ◌<◌, ◌≡◌, refl, sym, ap, ◌∙◌, ◌≢◌,
  inl, inr, false, List, [], ◌∷◌, map, append-nil, arith,
}
use mathlib.Core.List.{reverse}
use otus_c.Game.{size, Board, column, row_open, rows_meet, can_move}
use otus_c.Game.Row.{tiles, fuse, slid, length-fuse, tiles-append_zeros}
use otus_c.Game.Moves.{
  Direction, left, right, up, down, move, IsBoard, lines, columns, move-still, length-reverse,
  length-column,
}

-- A line with no empty cell and no two equal neighbours.
abbrev pub Settled : List ℕ → Type 0
Settled [] = Unit {0}
Settled (x ∷ []) = 0 < x
Settled (x ∷ y ∷ r) = (0 < x) × (x ≢ y) × Settled (y ∷ r)

pub Settled-All : (xs : List ℕ) → Settled xs → All (λ x. 0 < x) xs
Settled-All [] h = tt
Settled-All (x ∷ []) h = (h, tt)
Settled-All (x ∷ y ∷ r) h = (h.0, Settled-All (y ∷ r) h.2)

fuse-Settled : (xs : List ℕ) → Settled xs → fuse xs ≡ xs
unfolding fuse
fuse-Settled [] h = refl
fuse-Settled (x ∷ []) h = refl
fuse-Settled (x ∷ y ∷ r) h =
    rw (let e : (x == y) ≡ false = ground arith in e, fuse)
      (ap (λ l. x ∷ l) (fuse-Settled (y ∷ r) h.2))

pub Settled-of-fuse :
    (xs : List ℕ) → All (λ x. 0 < x) xs → length (fuse xs) ≡ length xs → Settled xs
unfolding fuse
Settled-of-fuse [] h e = tt
Settled-of-fuse (x ∷ []) h e = h.0
Settled-of-fuse (x ∷ y ∷ r) h e = elim (Bool-cases (x == y)) [
  | inl same ↦ absurd (ground (arith, length-fuse r))
  | inr diff ↦ (h.0, ground arith, Settled-of-fuse (y ∷ r) h.1 (ground arith))
]

pub tiles-All_pos : (xs : List ℕ) → All (λ x. 0 < x) xs → tiles xs ≡ xs
tiles-All_pos xs h = ap tiles (sym (append-nil xs)) ∙ tiles-append_zeros xs 0 h

-- The rule leaves a settled line of four as it is.
slid-Settled : (xs : List ℕ) → length xs ≡ size → Settled xs → slid xs ≡ xs
unfolding slid
slid-Settled xs e h = rw (tiles-All_pos xs (Settled-All xs h), fuse-Settled xs h, e) (append-nil xs)

reverse-Settled : (xs : List ℕ) → length xs ≡ size → Settled xs → Settled (reverse xs)
reverse-Settled (a ∷ b ∷ c ∷ d ∷ []) e h = omega arith
reverse-Settled xs e h = absurd (omega arith)

row_open-Settled : (xs : List ℕ) → row_open xs ≡ false → Settled xs
unfolding row_open
row_open-Settled [] h = tt
row_open-Settled (x ∷ []) h = ground arith
row_open-Settled (x ∷ y ∷ r) h =
    let (p, q) = or_false (x == 0) _ h in
    let (s, t) = or_false (x == y) _ q in (ground arith, ground arith, row_open-Settled (y ∷ r) t)

pub get_or-Settled_pos : (xs : List ℕ) (j : ℕ) → Settled xs → j < length xs → 0 < get_or xs j 0
get_or-Settled_pos [] j h lt = absurd (omega arith)
get_or-Settled_pos (x ∷ []) zero h lt = h
get_or-Settled_pos (x ∷ []) (suc j) h lt = absurd (omega arith)
get_or-Settled_pos (x ∷ y ∷ r) zero h lt = h.0
get_or-Settled_pos (x ∷ y ∷ r) (suc j) h lt = get_or-Settled_pos (y ∷ r) j h.2 (omega arith)

rows_meet-ne :
    (xs ys : List ℕ) (j : ℕ)
    → rows_meet xs ys ≡ false
    → j < length xs
    → j < length ys
    → get_or xs j 0 ≢ get_or ys j 0
unfolding rows_meet
rows_meet-ne [] ys j h p q = absurd (omega arith)
rows_meet-ne (x ∷ xs) [] j h p q = absurd (omega arith)
rows_meet-ne (x ∷ xs) (y ∷ ys) zero h p q = ground (arith, or_false (x == y) (rows_meet xs ys) h)
rows_meet-ne (x ∷ xs) (y ∷ ys) (suc j) h p q =
    rows_meet-ne xs ys j (or_false (x == y) _ h).1 (omega arith) (omega arith)

-- If canMove finds nothing, every row is settled, and so is every column.
can_move-rows : (b : Board) → can_move b ≡ false → All Settled b
unfolding can_move
can_move-rows [] h = tt
can_move-rows (r ∷ []) h = (row_open-Settled r h, tt)
can_move-rows (r ∷ s ∷ rs) h =
    let (p, q) = or_false (row_open r) _ h in
    (row_open-Settled r p, can_move-rows (s ∷ rs) (or_false (rows_meet r s) _ q).1)

can_move-column :
    (j : ℕ) (b : Board)
    → j < size
    → All (λ r. length r ≡ size) b
    → can_move b ≡ false
    → Settled (column j b)
unfolding can_move column
can_move-column j [] lt w h = tt
can_move-column j (r ∷ []) lt w h =
    get_or-Settled_pos r j (row_open-Settled r h) (omega (arith, w.0))
can_move-column j (r ∷ s ∷ rs) lt w h =
    let (p, q) = or_false (row_open r) _ h in
    let (meet, rest) = or_false (rows_meet r s) _ q in
    (
      get_or-Settled_pos r j (row_open-Settled r p) (omega (arith, w.0)),
      rows_meet-ne r s j meet (omega (arith, w.0)) (omega (arith, w.1.0)),
      can_move-column j (s ∷ rs) lt w.1 rest,
    )

-- Lines of four that are settled stay as they are, read from either side.
Settled-lines :
    (ls : List (List ℕ))
    → All (λ l. length l ≡ size) ls
    → All Settled ls
    → All (λ l. slid l ≡ l) ls × All (λ l. slid l ≡ l) (map reverse ls)
Settled-lines [] w h = (tt, tt)
Settled-lines (l ∷ ls) w h =
    let (same, back) = Settled-lines ls w.1 h.1 in
    (
      (slid-Settled l w.0 h.0, same),
      (slid-Settled (reverse l) (length-reverse l ∙ w.0) (reverse-Settled l w.0 h.0), back),
    )

pub columns-width : (b : Board) → length b ≡ size → All (λ l. length l ≡ size) (columns b)
unfolding columns
columns-width b h = (
  length-column 0 b ∙ h,
  (length-column 1 b ∙ h, (length-column 2 b ∙ h, (length-column 3 b ∙ h, tt))),
)

columns-Settled : (b : Board) → IsBoard b → can_move b ≡ false → All Settled (columns b)
unfolding columns
columns-Settled b v h = (
  can_move-column 0 b (omega arith) v.1 h,
  (
    can_move-column 1 b (omega arith) v.1 h,
    (can_move-column 2 b (omega arith) v.1 h, (can_move-column 3 b (omega arith) v.1 h, tt)),
  ),
)

-- When canMove returns 0, none of the four moves changes anything.
pub can_move-none :
    (d : Direction) (b : Board) → IsBoard b → can_move b ≡ false → (move d b).0 ≡ false
unfolding lines
can_move-none left b v h = move-still left b v (Settled-lines b v.1 (can_move-rows b h)).0
can_move-none right b v h = move-still right b v (Settled-lines b v.1 (can_move-rows b h)).1
can_move-none up b v h =
    move-still up b v (Settled-lines (columns b) (columns-width b v.0) (columns-Settled b v h)).0
can_move-none down b v h =
    move-still down b v (Settled-lines (columns b) (columns-width b v.0) (columns-Settled b v h)).1
