-- ===== src/Tests/Game.antt =====
-- The 2048 game at boards that can be followed in the source.
use otus_c.Prelude.{ℕ, ◌<◌, ◌≡◌, ◌↔◌, false, List, [], ◌∷◌, map, arith}
use otus_c.Game.{Board, Play, slide_and_merge_row, can_move}
use otus_c.Game.Row.{slid, sum, slide_and_merge_row-slid}
use otus_c.Game.Moves.{Direction, down, move, IsBoard, lines, move-lines}
use otus_c.Game.Stuck.{total, can_move_lem}
use otus_c.Prelude.Text.{codes}
use otus_c.Game.Menu.{main}
use otus_c.Game.Menu.Sessions.{IsSession, main-IsSession}

abbrev row : List ℕ
row = 2 ∷ 2 ∷ 4 ∷ 4 ∷ []

abbrev sample : Board
sample = row ∷ (0 ∷ 4 ∷ 0 ∷ 4 ∷ []) ∷ (2 ∷ 8 ∷ 16 ∷ 0 ∷ []) ∷ (1024 ∷ 1024 ∷ 2 ∷ 4 ∷ []) ∷ []

sample-IsBoard : IsBoard sample
sample-IsBoard = omega arith

-- rand() returns the number of earlier calls.
abbrev counting : ℕ → ℕ
counting n = n

abbrev state : Play
state = record { board = sample; calls = 7 }

slide_and_merge_row-slid_example :
    ((slide_and_merge_row row).1 ≡ slid row)
    × (((slide_and_merge_row row).0 ≡ false) ↔ (slid row ≡ row))
slide_and_merge_row-slid_example = slide_and_merge_row-slid row (omega arith)

move-lines_example :
    (lines down (move down sample).1 ≡ map slid (lines down sample))
    × (((move down sample).0 ≡ false) ↔ ((move down sample).1 ≡ sample))
    × IsBoard (move down sample).1
move-lines_example = move-lines down sample sample-IsBoard

sample-total : 0 < total sample
unfolding total sum
sample-total = omega arith

can_move_lem_example : (can_move sample ≡ false) ↔ ((d : Direction) → (move d sample).0 ≡ false)
can_move_lem_example = can_move_lem sample sample-IsBoard sample-total

main-IsSession_example : IsSession (main counting 3 (codes "1\na d w s\n 2\n"))
main-IsSession_example = main-IsSession counting 3 (codes "1\na d w s\n 2\n")
