-- ===== src/Game/Random.antt =====
-- addRandomTile and initBoard: where a new tile goes, for any values of rand().
use otus_c.Prelude.{
  ◌==◌, if◌then◌else◌, lt→ltb, Bool-cases, suc_eq_zero, length, get_elem?, get_or, set, All,
  length-set, ℕ, zero, suc, ◌+◌, ◌%◌, ◌<◌, ◌≡◌, refl, subst, ◌∙◌, ◌⊎◌, inl, inr, some, List, [],
  ◌∷◌, ◌++◌, arith,
}
use otus_c.Game.{
  size, Board, cell, set_cell, empty_in_row, empty_cells, Play, place, add_random_tile,
}
use otus_c.Game.Row.{sum}
use otus_c.Game.Moves.{IsBoard}
use otus_c.Game.Stuck.{total, width-row}

empty_in_row-All :
    (P : ℕ × ℕ → Type 0) (i k : ℕ) (xs : List ℕ)
    → ((j : ℕ) → j < length xs → get_or xs j 0 ≡ 0 → P (i, k + j))
    → All P (empty_in_row i k xs)
unfolding empty_in_row
empty_in_row-All P i k [] h = tt
empty_in_row-All P i k (x ∷ xs) h =
    let rest =
      empty_in_row-All P i (k + 1) xs
        (λ j lt z. subst (λ m. P (i, m)) (omega arith) (h (suc j) (omega arith) z)) in
    elim (Bool-cases (x == 0)) [
      | inl e ↦
          rw (e, All) (subst (λ m. P (i, m)) (omega arith) (h 0 (omega arith) (ground arith)), rest)
      | inr e ↦ rw (e, All) rest
    ]

pub All-append {ℓ κ} :
    {A : Type ℓ} (P : A → Type κ) (xs ys : List A) → All P xs → All P ys → All P (xs ++ ys)
All-append P [] ys h k = k
All-append P (x ∷ xs) ys h k = (h.0, All-append P xs ys h.1 k)

empty_cells-All :
    (P : ℕ × ℕ → Type 0) (i : ℕ) (b : Board)
    → ((k j : ℕ) → k < length b → j < length (get_or b k []) → cell b k j ≡ 0 → P (i + k, j))
    → All P (empty_cells i b)
unfolding empty_cells
empty_cells-All P i [] h = tt
empty_cells-All P i (r ∷ rs) h =
    All-append P (empty_in_row i 0 r) (empty_cells (i + 1) rs)
      (empty_in_row-All P i 0 r (λ j lt z. subst P (λ t. (q t, p j t)) (h 0 j (omega arith) lt z)))
      (empty_cells-All P (i + 1) rs
        (λ k j lt lt' z. subst (λ m. P (m, j)) (omega arith) (h (suc k) j (omega arith) lt' z)))
  where
    p : (j : ℕ) → j ≡ 0 + j
    p j = omega arith

    q : i + 0 ≡ i
    q = omega arith

-- Is a cell of the board at these indices empty?
abbrev IsFree : Board → ℕ × ℕ → Type 0
IsFree b p = (p.0 < size) × (p.1 < size) × (cell b p.0 p.1 ≡ 0)

empty_cells-IsFree : (b : Board) → IsBoard b → All (IsFree b) (empty_cells 0 b)
empty_cells-IsFree b v = empty_cells-All (IsFree b) 0 b (λ k j lt lt' z.
    let e : k ≡ 0 + k = omega arith in
    let w = width-row b k v.1 lt in
    subst (λ m. IsFree b (m, j)) e (omega (arith, v.0), omega arith, z))

append-nil_parts {ℓ} : {A : Type ℓ} (xs ys : List A) → xs ++ ys ≡ [] → (xs ≡ []) × (ys ≡ [])
append-nil_parts [] ys e = (refl, e)
append-nil_parts (x ∷ xs) ys e = cc

empty_in_row-nil : (i k : ℕ) (xs : List ℕ) → empty_in_row i k xs ≡ [] → All (λ x. 0 < x) xs
unfolding empty_in_row
empty_in_row-nil i k [] e = tt
empty_in_row-nil i k (zero ∷ xs) e = cc
empty_in_row-nil i k (suc x ∷ xs) e =
    (omega arith, empty_in_row-nil i (k + 1) xs (rw suc_eq_zero at e))

-- Every cell holds a tile.
abbrev pub IsFull : Board → Type 0
IsFull b = All (λ r. All (λ x. 0 < x) r) b

empty_cells-nil : (i : ℕ) (b : Board) → empty_cells i b ≡ [] → IsFull b
unfolding empty_cells
empty_cells-nil i [] e = tt
empty_cells-nil i (r ∷ rs) e =
    let (here, rest) = append-nil_parts (empty_in_row i 0 r) (empty_cells (i + 1) rs) e in
    (empty_in_row-nil i 0 r here, empty_cells-nil (i + 1) rs rest)

get_elem?-All :
    {A : Type 0} (P : A → Type 0) (xs : List A) (k : ℕ)
    → All P xs
    → k < length xs
    → (x : A) × (get_elem? xs k ≡ some x) × P x
get_elem?-All P [] k h lt = absurd (omega arith)
get_elem?-All P (x ∷ xs) zero h lt = (x, refl, h.0)
get_elem?-All P (x ∷ xs) (suc k) h lt = get_elem?-All P xs k h.1 (omega arith)

-- What addRandomTile may do to a board: nothing if it is full, else a 2 or a 4 in an empty cell.
pub record Placed (b b' : Board) : Type 0 where
  pub row : ℕ
  pub col : ℕ
  pub tile : ℕ
  pub row_in : row < size
  pub col_in : col < size
  pub free : cell b row col ≡ 0
  pub two_or_four : (tile ≡ 2) ⊎ (tile ≡ 4)
  pub result : b' ≡ set_cell b row col tile

-- On a full 4 × 4 board addRandomTile does nothing, not even a call of rand(); on any other it puts
-- a 2 or a 4 into one cell that is empty, and changes no other cell.
pub add_random_tile_lem :
    (rand : ℕ → ℕ) (s : Play)
    → IsBoard s.board
    → (IsFull s.board × (add_random_tile rand s ≡ s))
      ⊎ Placed s.board (add_random_tile rand s).board
unfolding add_random_tile place
add_random_tile_lem rand s v = split (empty_cells 0 s.board) refl
  where
    split :
        (cells : List (ℕ × ℕ))
        → empty_cells 0 s.board ≡ cells
        → (IsFull s.board × (add_random_tile rand s ≡ s))
          ⊎ Placed s.board (add_random_tile rand s).board
    split [] e = inl (empty_cells-nil 0 s.board e, rw (e, add_random_tile))
    split (c ∷ cs) e =
        let k = rand s.calls % length (c ∷ cs) in
        let (p, found, (lo, hi, z)) =
          get_elem?-All (IsFree s.board) (c ∷ cs) k (rw e at (empty_cells-IsFree s.board v))
            (omega arith) in
        inr (record {
          row = p.0;
          col = p.1;
          tile = if rand (s.calls + 1) % 10 == 0 then 4 else 2;
          row_in = lo;
          col_in = hi;
          free = z;
          two_or_four = ground arith;
          result = rw (e, add_random_tile, lt→ltb 0 (length (c ∷ cs)) (omega arith), found);
        })

sum-set :
    (xs : List ℕ) (j v : ℕ) → j < length xs → get_or xs j 0 ≡ 0 → sum (set xs j v) ≡ sum xs + v
unfolding sum
sum-set [] j v h z = absurd (omega arith)
sum-set (x ∷ xs) zero v h z = omega arith
sum-set (x ∷ xs) (suc j) v h z = omega (arith, sum-set xs j v (omega arith) z)

total-set :
    (b : Board) (i : ℕ) (r : List ℕ) (v : ℕ)
    → i < length b
    → sum r ≡ sum (get_or b i []) + v
    → total (set b i r) ≡ total b + v
unfolding total
total-set [] i r v h e = absurd (omega arith)
total-set (x ∷ b) zero r v h e = omega arith
total-set (x ∷ b) (suc i) r v h e = omega (arith, total-set b i r v (omega arith) e)

set-width :
    (b : Board) (i : ℕ) (r : List ℕ)
    → All (λ l. length l ≡ size) b
    → length r ≡ size
    → All (λ l. length l ≡ size) (set b i r)
set-width [] i r w e = tt
set-width (x ∷ b) zero r w e = (e, w.1)
set-width (x ∷ b) (suc i) r w e = (w.0, set-width b i r w.1 e)

-- A tile that addRandomTile placed adds its value to the total, and the board keeps its size.
pub Placed-total :
    {b b' : Board} → IsBoard b → (p : Placed b b') → (total b' ≡ total b + p.tile) × IsBoard b'
Placed-total {b} v p =
    let r = get_or b p.row [] in
    let w = width-row b p.row v.1 (rw v.0 p.row_in) in
    rw p.result (
      total-set b p.row (set r p.col p.tile) p.tile (rw v.0 p.row_in)
          (sum-set r p.col p.tile (rw w p.col_in) p.free),
      (
        length-set b p.row (set r p.col p.tile) ∙ v.0,
        set-width b p.row (set r p.col p.tile) v.1 (length-set r p.col p.tile ∙ w),
      ),
    )
