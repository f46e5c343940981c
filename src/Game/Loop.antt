-- ===== src/Game/Loop.antt =====
-- gameLoop: what holds of the board whenever the loop stops, for any keys and any values of rand().
use otus_c.Prelude.{
  ◌==◌, Bool-cases, set, replicate, All, ℕ, zero, suc, ◌≤◌, ◌<◌, ◌≡◌, refl, ◌⊎◌, inl, inr, true,
  false, none, some, List, [], ◌∷◌, arith,
}
use otus_c.Game.{
  size, Board, check_win, can_move, Play, add_random_tile, init_board, key_move, tolower, turn,
  Outcome, won, lost, waiting, game_loop, set_cell,
}
use otus_c.Game.Row.{sum}
use otus_c.Game.Moves.{Direction, left, right, up, down, move, IsBoard, move-lines}
use otus_c.Game.Stuck.{total, can_move_lem}
use otus_c.Game.Total.{total-move}
use otus_c.Game.Random.{IsFull, Placed, add_random_tile_lem, Placed-total}
use otus_c.Game.Win.{HasWon, check_win-HasWon, check_win-none}
use otus_c.Game.Values.{IsTile, Cells, move-Cells, check_win-false}

-- A 4 × 4 board with a tile on it, whose tiles are powers of two from 2 to 2048.
pub record IsPlay (b : Board) : Type 0 where
  pub board : IsBoard b
  pub tiles : Cells (IsTile 11) b
  pub some_tile : 0 < total b

All-set : (P : ℕ → Type 0) (xs : List ℕ) (j v : ℕ) → All P xs → P v → All P (set xs j v)
All-set P [] j v h p = tt
All-set P (x ∷ xs) zero v h p = (p, h.1)
All-set P (x ∷ xs) (suc j) v h p = (h.0, All-set P xs j v h.1 p)

Cells-set_cell :
    (P : ℕ → Type 0) (b : Board) (i j v : ℕ) → Cells P b → P v → Cells P (set_cell b i j v)
Cells-set_cell P [] i j v h p = tt
Cells-set_cell P (r ∷ b) zero j v h p = (All-set P r j v h.0 p, h.1)
Cells-set_cell P (r ∷ b) (suc i) j v h p = (h.0, Cells-set_cell P b i j v h.1 p)

IsTile_new : (n v : ℕ) → 2 ≤ n → (v ≡ 2) ⊎ (v ≡ 4) → IsTile n v
IsTile_new n v h (inl e) = inr (1, omega arith, omega arith, e)
IsTile_new n v h (inr e) = inr (2, omega arith, omega arith, e)

-- A new tile keeps the tiles powers of two up to 2048.
add_random_tile-IsPlay :
    (rand : ℕ → ℕ) (s : Play) → IsPlay s.board → IsPlay (add_random_tile rand s).board
add_random_tile-IsPlay rand s p = elim (add_random_tile_lem rand s p.board) [
  | inl (full, e) ↦ rw e p
  | inr q ↦
      let (sum, board) = Placed-total p.board q in
      record {
        board = board;
        tiles = rw q.result (
            Cells-set_cell (IsTile 11) s.board q.row q.col q.tile p.tiles
              (IsTile_new 11 q.tile (omega arith) q.two_or_four));
        some_tile = omega (arith, sum, p.some_tile);
      }
]

key_move-cases :
    (c : ℕ) (b : Board)
    → (key_move c b ≡ none) ⊎ ((d : Direction) × (key_move c b ≡ some (move d b)))
unfolding key_move move
key_move-cases c b = elim (Bool-cases (c == b'w')) [
  | inl e ↦ inr (up, rw e)
  | inr e ↦ elim (Bool-cases (c == b'a')) [
    | inl f ↦ inr (left, rw (e, f))
    | inr f ↦ elim (Bool-cases (c == b's')) [
      | inl g ↦ inr (down, rw (e, f, g))
      | inr g ↦ elim (Bool-cases (c == b'd')) [
        | inl h ↦ inr (right, rw (e, f, g, h))
        | inr h ↦ inl (rw (e, f, g, h))
      ]
    ]
  ]
]

-- A key that is not a move changes nothing, and so does a move that changes no tile; any other
-- move is followed by one new tile.
turn_lem :
    (rand : ℕ → ℕ) (c : ℕ) (s : Play)
    → IsBoard s.board
    → (turn rand c s ≡ s)
      ⊎ ((d : Direction) × ((move d s.board).0 ≡ true)
          × (turn rand c s
              ≡ add_random_tile rand (record { board = (move d s.board).1; calls = s.calls })))
unfolding turn
turn_lem rand c s v = elim (key_move-cases (tolower c) s.board) [
  | inl e ↦ inl (rw (e, turn))
  | inr (d, e) ↦ elim (Bool-cases (move d s.board).0) [
    | inl moved ↦ inr (d, moved, rw (e, turn, moved))
    | inr same ↦ inl (rw (e, turn, same, ((move-lines d s.board v).1.0 same)))
  ]
]

-- One turn of the loop keeps the invariant, unless the game is already won: the board is not
-- resized, no tile is lost, and no tile passes 2048.
pub turn-IsPlay :
    (rand : ℕ → ℕ) (c : ℕ) (s : Play)
    → IsPlay s.board
    → check_win s.board ≡ false
    → IsPlay (turn rand c s).board
turn-IsPlay rand c s p w = elim (turn_lem rand c s p.board) [
  | inl e ↦ rw e p
  | inr (d, moved, e) ↦
      let (_, _, board) = move-lines d s.board p.board in
      rw e (
        add_random_tile-IsPlay rand (record { board = (move d s.board).1; calls = s.calls })
          (record {
            board = board;
            tiles = move-Cells 10 d s.board p.board (check_win-false s.board p.tiles w);
            some_tile = omega (arith, total-move d s.board p.board, p.some_tile);
          }))
]

-- What is true of the board when the loop ends, or waits for a key.
abbrev pub Ends : Outcome → Type 0
Ends (won s) = IsPlay s.board × HasWon s.board
Ends (lost s) = IsPlay s.board × ¬ HasWon s.board × ((d : Direction) → (move d s.board).0 ≡ false)
Ends (waiting s) =
    IsPlay s.board × ¬ HasWon s.board × ¬ ((d : Direction) → (move d s.board).0 ≡ false)

game_loop-from :
    (rand : ℕ → ℕ) (keys : List ℕ) (s : Play) → IsPlay s.board → Ends (game_loop rand keys s)
unfolding game_loop
game_loop-from rand [] s p = elim (Bool-cases (check_win s.board)) [
  | inl w ↦ rw (w, Ends) (p, check_win-HasWon s.board p.board w)
  | inr w ↦ elim (Bool-cases (can_move s.board)) [
    | inl m ↦
        rw (w, m, Ends)
          (
            p,
            check_win-none s.board w,
            (λ still. cc (m, (can_move_lem s.board p.board p.some_tile).1 still)),
          )
    | inr m ↦
        rw (w, m, Ends)
          (p, check_win-none s.board w, (can_move_lem s.board p.board p.some_tile).0 m)
  ]
]
game_loop-from rand (c ∷ keys) s p = elim (Bool-cases (check_win s.board)) [
  | inl w ↦ rw (w, Ends) (p, check_win-HasWon s.board p.board w)
  | inr w ↦ elim (Bool-cases (can_move s.board)) [
    | inl m ↦ rw (w, m) (game_loop-from rand keys (turn rand c s) (turn-IsPlay rand c s p w))
    | inr m ↦
        rw (w, m, Ends)
          (p, check_win-none s.board w, (can_move_lem s.board p.board p.some_tile).0 m)
  ]
]

-- initBoard leaves a 4 × 4 board with tiles on it, each of them a 2 or a 4.
init_board-IsPlay : (rand : ℕ → ℕ) (calls : ℕ) → IsPlay (init_board rand calls).board
unfolding init_board
init_board-IsPlay rand calls =
    add_random_tile-IsPlay rand (add_random_tile rand start)
      (first (add_random_tile_lem rand start board))
  where
    start : Play
    start = record { board = replicate size (replicate size 0); calls = calls }

    board : IsBoard start.board
    board = omega arith

    first :
        (IsFull start.board × (add_random_tile rand start ≡ start))
          ⊎ Placed start.board (add_random_tile rand start).board
        → IsPlay (add_random_tile rand start).board
    first (inl (full, e)) = absurd (omega (arith, full.0.0))
    first (inr q) =
        let (sum, board') = Placed-total board q in
        let two : 2 ≤ q.tile = ground (arith, q.two_or_four) in
        record {
          board = board';
          tiles = rw q.result (
              Cells-set_cell (IsTile 11) start.board q.row q.col q.tile
                (zeros, (zeros, (zeros, (zeros, tt))))
                (IsTile_new 11 q.tile (omega arith) q.two_or_four));
          some_tile = omega (arith, sum, two);
        }
      where
        zeros : All (IsTile 11) (replicate size 0)
        zeros = (inl refl, (inl refl, (inl refl, (inl refl, tt))))

-- Whatever the keys and the values of rand(), gameLoop started as the program starts it keeps a
-- 4 × 4 board of powers of two from 2 to 2048; it ends in a win only on a board with a 2048, and in a
-- loss only on one without it that none of the four moves changes; and where it waits for a key,
-- some move changes the board.
pub game_loop-Ends :
    (rand : ℕ → ℕ) (keys : List ℕ) (calls : ℕ) → Ends (game_loop rand keys (init_board rand calls))
game_loop-Ends rand keys calls =
    game_loop-from rand keys (init_board rand calls) (init_board-IsPlay rand calls)
