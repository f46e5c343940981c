-- ===== src/Game/Total.antt =====
-- The sum of the tiles: a move keeps it.
use otus_c.Prelude.{
  length, replicate, All, ℕ, zero, suc, ◌+◌, ◌-◌, ◌≡◌, refl, sym, ap, ◌∙◌, List, [], ◌∷◌, ◌++◌, map,
  arith,
}
use mathlib.Core.List.{reverse, reverse-cons}
use otus_c.Game.{size, Board, column}
use otus_c.Game.Row.{tiles, fuse, slid, sum}
use otus_c.Game.Moves.{Direction, left, right, up, down, move, IsBoard, lines, columns, move-lines}
use otus_c.Game.Stuck.{total}

sum-append : (xs ys : List ℕ) → sum (xs ++ ys) ≡ sum xs + sum ys
unfolding sum
sum-append [] ys = omega arith
sum-append (x ∷ xs) ys = omega (arith, sum-append xs ys)

sum-zeros : (n : ℕ) → sum (replicate n 0) ≡ 0
unfolding sum
sum-zeros zero = refl
sum-zeros (suc n) = omega (arith, sum-zeros n)

sum-tiles : (xs : List ℕ) → sum (tiles xs) ≡ sum xs
unfolding sum tiles
sum-tiles [] = refl
sum-tiles (x ∷ xs) = ground (arith, sum-tiles xs)

sum-fuse : (xs : List ℕ) → sum (fuse xs) ≡ sum xs
unfolding sum fuse
sum-fuse [] = refl
sum-fuse (x ∷ []) = refl
sum-fuse (x ∷ y ∷ r) = ground (arith, sum-fuse r, sum-fuse (y ∷ r))

sum-slid : (xs : List ℕ) → sum (slid xs) ≡ sum xs
unfolding slid
sum-slid xs = omega (
  arith,
  sum-append (fuse (tiles xs)) (replicate (size - length (fuse (tiles xs))) 0),
  sum-zeros (size - length (fuse (tiles xs))),
  sum-fuse (tiles xs),
  sum-tiles xs,
)

sum-reverse : (xs : List ℕ) → sum (reverse xs) ≡ sum xs
unfolding sum
sum-reverse [] = refl
sum-reverse (x ∷ xs) =
    rw (reverse-cons x xs) (omega (arith, sum-append (reverse xs) (x ∷ []), sum-reverse xs))

total-map-slid : (ls : List (List ℕ)) → total (map slid ls) ≡ total ls
unfolding total
total-map-slid [] = refl
total-map-slid (l ∷ ls) = omega (arith, sum-slid l, total-map-slid ls)

total-map-reverse : (ls : List (List ℕ)) → total (map reverse ls) ≡ total ls
unfolding total
total-map-reverse [] = refl
total-map-reverse (l ∷ ls) = omega (arith, sum-reverse l, total-map-reverse ls)

total-columns : (b : Board) → All (λ r. length r ≡ size) b → total (columns b) ≡ total b
unfolding total columns column sum
total-columns [] w = refl
total-columns ((p ∷ q ∷ r ∷ s ∷ []) ∷ b) w = omega (arith, total-columns b w.1)
total-columns (r ∷ b) w = absurd (omega (arith, w.0))

total-lines : (d : Direction) (b : Board) → IsBoard b → total (lines d b) ≡ total b
unfolding lines
total-lines left b v = refl
total-lines right b v = total-map-reverse b
total-lines up b v = total-columns b v.1
total-lines down b v = total-map-reverse (columns b) ∙ total-columns b v.1

-- A move in any direction keeps the sum of the tiles of a 4 × 4 board.
pub total-move : (d : Direction) (b : Board) → IsBoard b → total (move d b).1 ≡ total b
total-move d b v =
    let (same, _, v') = move-lines d b v in
    sym (total-lines d (move d b).1 v')
    ∙ ap total same
    ∙ total-map-slid (lines d b)
    ∙ total-lines d b v
