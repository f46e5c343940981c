-- ===== src/Game/Values.antt =====
-- The values of tiles: a move at most doubles one, and without a 2048 no tile passes 1024.
use otus_c.Prelude.{
  ◌==◌, Bool-cases, or_false, length, get_or, replicate, All, ℕ, zero, suc, ◌-◌, ◌*◌, ◌^◌, ◌≤◌, ◌≡◌,
  refl, subst, ap, ◌∙◌, ◌≢◌, ◌⊎◌, inl, inr, false, List, [], ◌∷◌, map, arith, ℕ_discrete,
}
use mathlib.Core.List.{reverse, reverse-cons, reverse-reverse}
use native.Mathlib.Nat.{pow-suc}
use otus_c.Game.{size, Board, column, row_has, check_win}
use otus_c.Game.Row.{tiles, fuse, slid}
use otus_c.Game.Moves.{Direction, left, right, up, down, move, IsBoard, lines, columns, move-lines}
use otus_c.Game.Random.{All-append}

-- An empty cell, or a power of two from 2 up to 2 ^ n.
abbrev pub IsTile : ℕ → ℕ → Type 0
IsTile n x = (x ≡ 0) ⊎ ((k : ℕ) × (1 ≤ k) × (k ≤ n) × (x ≡ 2 ^ k))

abbrev pub Cells : (ℕ → Type 0) → Board → Type 0
Cells P b = All (λ r. All P r) b

pub All-map {ℓ} :
    {A : Type ℓ} (P Q : A → Type 0) (xs : List A) → ((x : A) → P x → Q x) → All P xs → All Q xs
All-map P Q [] f h = tt
All-map P Q (x ∷ xs) f h = (f x h.0, All-map P Q xs f h.1)

All-reverse : (P : ℕ → Type 0) (xs : List ℕ) → All P xs → All P (reverse xs)
All-reverse P [] h = tt
All-reverse P (x ∷ xs) h =
    rw (reverse-cons x xs) (All-append P (reverse xs) (x ∷ []) (All-reverse P xs h.1) (h.0, tt))

pub All-replicate : (P : ℕ → Type 0) (n x : ℕ) → P x → All P (replicate n x)
All-replicate P zero x h = tt
All-replicate P (suc n) x h = (h, All-replicate P n x h)

All-tiles : (P : ℕ → Type 0) (xs : List ℕ) → All P xs → All P (tiles xs)
unfolding tiles
All-tiles P [] h = tt
All-tiles P (x ∷ xs) h = elim (Bool-cases (x == 0)) [
  | inl e ↦ rw (e, tiles) (All-tiles P xs h.1)
  | inr e ↦ rw (e, tiles) (h.0, All-tiles P xs h.1)
]

IsTile_mono : (n x : ℕ) → IsTile n x → IsTile (suc n) x
IsTile_mono n x (inl z) = inl z
IsTile_mono n x (inr (k, lo, hi, e)) = inr (k, lo, omega arith, e)

IsTile_double : (n x : ℕ) → IsTile n x → IsTile (suc n) (2 * x)
IsTile_double n x (inl z) = inl (omega arith)
IsTile_double n x (inr (k, lo, hi, e)) =
    inr (suc k, omega arith, omega arith, omega (arith, e, pow-suc 2 k))

fuse-IsTile : (n : ℕ) (xs : List ℕ) → All (IsTile n) xs → All (IsTile (suc n)) (fuse xs)
unfolding fuse
fuse-IsTile n [] h = tt
fuse-IsTile n (x ∷ []) h = (IsTile_mono n x h.0, tt)
fuse-IsTile n (x ∷ y ∷ r) h = elim (Bool-cases (x == y)) [
  | inl e ↦ rw (e, fuse) (IsTile_double n x h.0, fuse-IsTile n r h.1.1)
  | inr e ↦ rw (e, fuse) (IsTile_mono n x h.0, fuse-IsTile n (y ∷ r) h.1)
]

slid-IsTile : (n : ℕ) (xs : List ℕ) → All (IsTile n) xs → All (IsTile (suc n)) (slid xs)
unfolding slid
slid-IsTile n xs h =
    All-append (IsTile (suc n)) (fuse (tiles xs)) (replicate (size - length (fuse (tiles xs))) 0)
      (fuse-IsTile n (tiles xs) (All-tiles (IsTile n) xs h))
      (All-replicate (IsTile (suc n)) _ 0 (inl refl))

-- The tiles of the lines are the tiles of the board.
column-All : (P : ℕ → Type 0) (j : ℕ) (b : Board) → P 0 → Cells P b → All P (column j b)
unfolding column
column-All P j [] z h = tt
column-All P j (r ∷ b) z h = (at r j h.0, column-All P j b z h.1)
  where
    at : (xs : List ℕ) (k : ℕ) → All P xs → P (get_or xs k 0)
    at [] k h = z
    at (x ∷ xs) zero h = h.0
    at (x ∷ xs) (suc k) h = at xs k h.1

map_reverse-Cells : (P : ℕ → Type 0) (b : Board) → Cells P b → Cells P (map reverse b)
map_reverse-Cells P [] h = tt
map_reverse-Cells P (r ∷ b) h = (All-reverse P r h.0, map_reverse-Cells P b h.1)

columns-Cells : (P : ℕ → Type 0) (b : Board) → P 0 → Cells P b → Cells P (columns b)
unfolding columns
columns-Cells P b z h = (
  column-All P 0 b z h,
  (column-All P 1 b z h, (column-All P 2 b z h, (column-All P 3 b z h, tt))),
)

lines-Cells : (P : ℕ → Type 0) (d : Direction) (b : Board) → P 0 → Cells P b → Cells P (lines d b)
unfolding lines
lines-Cells P left b z h = h
lines-Cells P right b z h = map_reverse-Cells P b h
lines-Cells P up b z h = columns-Cells P b z h
lines-Cells P down b z h = map_reverse-Cells P (columns b) (columns-Cells P b z h)

Cells-map_reverse : (P : ℕ → Type 0) (b : Board) → Cells P (map reverse b) → Cells P b
Cells-map_reverse P [] h = tt
Cells-map_reverse P (r ∷ b) h =
    (subst (All P) (reverse-reverse r) (All-reverse P (reverse r) h.0), Cells-map_reverse P b h.1)

Cells-columns :
    (P : ℕ → Type 0) (b : Board) → All (λ r. length r ≡ size) b → Cells P (columns b) → Cells P b
unfolding columns column
Cells-columns P [] w h = tt
Cells-columns P ((p ∷ q ∷ r ∷ s ∷ []) ∷ b) w h = (
  (h.0.0, (h.1.0.0, (h.1.1.0.0, (h.1.1.1.0.0, tt)))),
  Cells-columns P b w.1 (h.0.1, (h.1.0.1, (h.1.1.0.1, (h.1.1.1.0.1, tt)))),
)
Cells-columns P (r ∷ b) w h = absurd (omega (arith, w.0))

Cells-lines :
    (P : ℕ → Type 0) (d : Direction) (b : Board) → IsBoard b → Cells P (lines d b) → Cells P b
unfolding lines
Cells-lines P left b v h = h
Cells-lines P right b v h = Cells-map_reverse P b h
Cells-lines P up b v h = Cells-columns P b v.1 h
Cells-lines P down b v h = Cells-columns P b v.1 (Cells-map_reverse P (columns b) h)

map_slid-Cells :
    (n : ℕ) (ls : List (List ℕ)) → Cells (IsTile n) ls → Cells (IsTile (suc n)) (map slid ls)
map_slid-Cells n [] h = tt
map_slid-Cells n (l ∷ ls) h = (slid-IsTile n l h.0, map_slid-Cells n ls h.1)

-- A move at most doubles a tile.
pub move-Cells :
    (n : ℕ) (d : Direction) (b : Board)
    → IsBoard b
    → Cells (IsTile n) b
    → Cells (IsTile (suc n)) (move d b).1
move-Cells n d b v h =
    let (same, _, v') = move-lines d b v in
    Cells-lines (IsTile (suc n)) d (move d b).1 v'
      (rw same (map_slid-Cells n (lines d b) (lines-Cells (IsTile n) d b (inl refl) h)))

-- Without a 2048 on the board, every tile is 1024 at most.
IsTile_below : (x : ℕ) → IsTile 11 x → (x == 2048) ≡ false → IsTile 10 x
IsTile_below x (inl z) e = inl z
IsTile_below x (inr (k, lo, hi, p)) e = elim (ℕ_discrete k 11) [
  | yes q ↦ absurd (ne (p ∙ ap (λ j. 2 ^ j) q))
  | no q ↦ inr (k, lo, omega arith, p)
]
  where
    ne : x ≢ 2048
    ne = ground arith

row_has-false : (xs : List ℕ) → All (IsTile 11) xs → row_has 2048 xs ≡ false → All (IsTile 10) xs
unfolding row_has
row_has-false [] h e = tt
row_has-false (x ∷ xs) h e =
    let (p, q) = or_false (x == 2048) _ e in (IsTile_below x h.0 p, row_has-false xs h.1 q)

pub check_win-false : (b : Board) → Cells (IsTile 11) b → check_win b ≡ false → Cells (IsTile 10) b
unfolding check_win
check_win-false [] h e = tt
check_win-false (r ∷ b) h e =
    let (p, q) = or_false (row_has 2048 r) _ e in (row_has-false r h.0 p, check_win-false b h.1 q)
