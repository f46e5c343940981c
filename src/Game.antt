-- ===== src/Game.antt =====
-- The 2048 game: HW17-2048/src/main.c. A board is a list of rows, a row a list of tiles; a tile
-- is never negative, so it is a natural number. `Game.Loop` holds the loop over the player's keys.
pub mod Row
pub mod Moves
pub mod Over
pub mod Stuck
pub mod Total
pub mod Random
pub mod Values
pub mod Win
pub mod Loop
pub mod Menu
use otus_c.Prelude.{
  ltb, leb, ◌==◌, if◌then◌else◌, length, get_elem?, get_or, set, replicate, ℕ, zero, suc, ◌+◌, ◌*◌,
  ◌%◌, Bool, false, not, ◌&&◌, ◌||◌, Option, none, some, List, [], ◌∷◌, ◌++◌,
}
use mathlib.Core.List.{reverse}

abbrev pub size : ℕ
size = 4

-- for (i...) if (row[i] != 0) temp[t++] = row[i];
pub compact_loop : List ℕ → List ℕ → ℕ → List ℕ
compact_loop [] temp t = temp
compact_loop (x ∷ xs) temp t =
    compact_loop xs (if x == 0 then temp else set temp t x) (if x == 0 then t else t + 1)

-- for (i < SIZE - 1) if (temp[i] != 0 && temp[i] == temp[i + 1]) { temp[i] *= 2; temp[i + 1] = 0; }
-- with the `moved` of its body.
pub merge_loop : List ℕ → Bool × List ℕ
merge_loop [] = (false, [])
merge_loop (x ∷ []) = (false, x ∷ [])
merge_loop (x ∷ y ∷ r) =
    let hit = not (x == 0) && x == y in
    let (moved, rest) = merge_loop ((if hit then 0 else y) ∷ r) in
    (hit || moved, (if hit then 2 * x else x) ∷ rest)

-- for (i...) if (row[i] != final[i]) { row[i] = final[i]; moved = 1; }
pub store_loop : List ℕ → List ℕ → Bool × List ℕ
store_loop [] final = (false, [])
store_loop (x ∷ xs) [] = (false, x ∷ xs)
store_loop (x ∷ xs) (y ∷ ys) =
    let (moved, rest) = store_loop xs ys in (not (x == y) || moved, y ∷ rest)

pub slide_and_merge_row : List ℕ → Bool × List ℕ
slide_and_merge_row row =
    let temp = compact_loop row (replicate size 0) 0 in
    let (merged, temp') = merge_loop temp in
    let final = compact_loop temp' (replicate size 0) 0 in
    let (stored, row') = store_loop row final in (merged || stored, row')

abbrev pub Board : Type 0
Board = List (List ℕ)

-- The body of moveRight and moveDown: `temp` is filled from the far end, slid, and copied back.
pub slide_reversed : List ℕ → Bool × List ℕ
slide_reversed line =
    let (moved, temp) = slide_and_merge_row (reverse line) in (moved, reverse temp)

-- The loop over the rows, with the body `f`.
pub slide_rows : (List ℕ → Bool × List ℕ) → Board → Bool × Board
slide_rows f [] = (false, [])
slide_rows f (r ∷ rs) = let (m, r') = f r in let (ms, rs') = slide_rows f rs in (m || ms, r' ∷ rs')

pub move_left : Board → Bool × Board
move_left b = slide_rows slide_and_merge_row b

pub move_right : Board → Bool × Board
move_right b = slide_rows slide_reversed b

-- temp[i] = board[i][j]
pub column : ℕ → Board → List ℕ
column j [] = []
column j (r ∷ rs) = get_or r j 0 ∷ column j rs

-- board[i][j] = temp[i]
pub set_column : ℕ → List ℕ → Board → Board
set_column j [] rs = rs
set_column j (t ∷ ts) [] = []
set_column j (t ∷ ts) (r ∷ rs) = set r j t ∷ set_column j ts rs

-- The loop over the columns, with the body `f` and `n` columns left from `j` on.
pub slide_columns : (List ℕ → Bool × List ℕ) → ℕ → ℕ → Bool × Board → Bool × Board
slide_columns f zero j s = s
slide_columns f (suc n) j s =
    let (moved, temp) = f (column j s.1) in
    slide_columns f n (j + 1) (moved || s.0, set_column j temp s.1)

pub move_up : Board → Bool × Board
move_up b = slide_columns slide_and_merge_row size 0 (false, b)

pub move_down : Board → Bool × Board
move_down b = slide_columns slide_reversed size 0 (false, b)

-- Is a tile equal to its right neighbour, or empty?
pub row_open : List ℕ → Bool
row_open [] = false
row_open (x ∷ []) = x == 0
row_open (x ∷ y ∷ r) = x == 0 || (x == y || row_open (y ∷ r))

-- Is a tile of one row equal to the one below it?
pub rows_meet : List ℕ → List ℕ → Bool
rows_meet [] ys = false
rows_meet (x ∷ xs) [] = false
rows_meet (x ∷ xs) (y ∷ ys) = x == y || rows_meet xs ys

pub can_move : Board → Bool
can_move [] = false
can_move (r ∷ []) = row_open r
can_move (r ∷ s ∷ rs) = row_open r || (rows_meet r s || can_move (s ∷ rs))

pub row_has : ℕ → List ℕ → Bool
row_has v [] = false
row_has v (x ∷ xs) = x == v || row_has v xs

pub check_win : Board → Bool
check_win [] = false
check_win (r ∷ rs) = row_has 2048 r || check_win rs

-- The empty cells of a row, then of the board, in the order in which addRandomTile records them.
pub empty_in_row : ℕ → ℕ → List ℕ → List (ℕ × ℕ)
empty_in_row i j [] = []
empty_in_row i j (x ∷ xs) =
    let rest = empty_in_row i (j + 1) xs in if x == 0 then (i, j) ∷ rest else rest

pub empty_cells : ℕ → Board → List (ℕ × ℕ)
empty_cells i [] = []
empty_cells i (r ∷ rs) = empty_in_row i 0 r ++ empty_cells (i + 1) rs

-- board[i][j], and board[i][j] = v.
abbrev pub cell : Board → ℕ → ℕ → ℕ
cell b i j = get_or (get_or b i []) j 0

abbrev pub set_cell : Board → ℕ → ℕ → ℕ → Board
set_cell b i j v = set b i (set (get_or b i []) j v)

-- The value of the `n`-th call of rand() is `rand n`; the state is the board and the number of
-- calls made so far.
pub record Play : Type 0 where
  pub board : Board
  pub calls : ℕ

pub place : Board → Option (ℕ × ℕ) → ℕ → Board
place b none v = b
place b (some (i, j)) v = set_cell b i j v

pub add_random_tile : (ℕ → ℕ) → Play → Play
add_random_tile rand s =
    let empty = empty_cells 0 s.board in
    let count = length empty in
    let r = rand s.calls % count in
    let val : ℕ = if rand (s.calls + 1) % 10 == 0 then 4 else 2 in
    if ltb 0 count
    then record { board = place s.board (get_elem? empty r) val; calls = s.calls + 2 }
    else s

pub init_board : (ℕ → ℕ) → ℕ → Play
init_board rand calls =
    add_random_tile rand
      (add_random_tile rand (record { board = replicate size (replicate size 0); calls = calls }))

-- The key's move, or `none` for a key that is not one of w, a, s and d (the `continue`).
pub key_move : ℕ → Board → Option (Bool × Board)
key_move c b =
    if c == b'w'
    then some (move_up b)
    else (if c == b'a'
        then some (move_left b)
        else (if c == b's'
            then some (move_down b)
            else (if c == b'd' then some (move_right b) else none)))

-- tolower of the C locale.
pub tolower : ℕ → ℕ
tolower c = if leb b'A' c && leb c b'Z' then c + 32 else c

-- What one key does to the state.
pub turn : (ℕ → ℕ) → ℕ → Play → Play
turn rand input s = elim (key_move (tolower input) s.board) [
  | none ↦ s
  | some (moved, b) ↦
      let s' : Play = record { board = b; calls = s.calls } in
      if moved then add_random_tile rand s' else s'
]

-- How gameLoop ends; `waiting` is a game whose player has typed no further key.
pub data Outcome : Type 0 where
  won lost waiting : Play → Outcome

pub game_loop : (ℕ → ℕ) → List ℕ → Play → Outcome
game_loop rand [] s =
    if check_win s.board then won s else (if can_move s.board then waiting s else lost s)
game_loop rand (input ∷ keys) s =
    let rest = game_loop rand keys (turn rand input s) in
    if check_win s.board then won s else (if can_move s.board then rest else lost s)
