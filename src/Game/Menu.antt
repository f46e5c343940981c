-- ===== src/Game/Menu.antt =====
-- gameLoop, mainMenu and main of HW17-2048/src/main.c over the characters that are typed. scanf skips white
-- space, and leaves what is no number in the input; where the typed text ends, it waits. What is printed
-- is left out.
use otus_c.Prelude.{
  leb, ◌==◌, if◌then◌else◌, ℕ, zero, suc, ◌+◌, ◌-◌, ◌*◌, ◌^◌, Bool, true, false, ◌&&◌, Option, none,
  some, List, [], ◌∷◌, ◌++◌,
}
use otus_c.Prelude.Int.{ℤ, pos, negsuc}
use otus_c.Prelude.Text.{is_space}
use otus_c.Game.{Play, check_win, can_move, turn, init_board, Outcome, won, lost, waiting}
pub mod Sessions

-- gameLoop, with the text behind the last key that it reads.
pub game_loop_over : (ℕ → ℕ) → List ℕ → Play → Outcome × List ℕ
game_loop_over rand [] s =
    ((if check_win s.board then won s else (if can_move s.board then waiting s else lost s)), [])
game_loop_over rand (c ∷ cs) s =
    let next = game_loop_over rand cs (if is_space c then s else turn rand c s) in
    if check_win s.board
    then (won s, c ∷ cs)
    else (if can_move s.board then next else (lost s, c ∷ cs))

-- What scanf does with %d: a number and the text behind it, none and the text that is left, a number that
-- an int cannot hold, which is undefined, or it waits.
pub data Scan : Type 0 where
  number : ℤ → List ℕ → Scan
  mismatch : List ℕ → Scan
  too_large starved : Scan

pub is_digit : ℕ → Bool
is_digit c = leb b'0' c && leb c b'9'

-- The digits up to another character; none if the text ends with them.
pub read_digits : ℕ → List ℕ → Option (ℕ × List ℕ)
read_digits n [] = none
read_digits n (c ∷ cs) =
    let more = read_digits (n * 10 + (c - b'0')) cs in if is_digit c then more else some (n, c ∷ cs)

unfoldable pub with_sign : Bool → ℕ → ℤ
with_sign false n = pos n
with_sign true zero = pos 0
with_sign true (suc n) = negsuc n

pub in_int : Bool → ℕ → List ℕ → Scan
in_int minus n rest =
    if leb n (if minus then 2 ^ 31 else 2 ^ 31 - 1)
    then number (with_sign minus n) rest
    else too_large

pub scan_digits : Bool → List ℕ → Scan
scan_digits minus [] = starved
scan_digits minus (c ∷ cs) =
    if is_digit c
    then elim (read_digits 0 (c ∷ cs)) [ none ↦ starved | some (n, rest) ↦ in_int minus n rest ]
    else mismatch (c ∷ cs)

pub scan_int : List ℕ → Scan
scan_int [] = starved
scan_int (c ∷ cs) =
    let behind_space = scan_int cs in
    if is_space c
    then behind_space
    else (if c == b'-'
        then scan_digits true cs
        else scan_digits false (if c == b'+' then cs else c ∷ cs))

-- mainMenu asks, waits for more to be typed, has ended, or has met a step that is undefined.
pub data Status : Type 0 where
  asking waits ended undefined : Status

-- The text that is not read yet, `choice`, which has no value at first, the number of calls of rand(),
-- the games that were played, the last one at the end.
pub record Menu : Type 0 where
  pub text : List ℕ
  pub choice : Option ℤ
  pub calls : ℕ
  pub games : List Outcome
  pub status : Status

unfoldable pub is_int : ℤ → ℕ → Bool
is_int (pos m) n = m == n
is_int (negsuc m) n = false

-- The board is left as the game leaves it; a game that waits is not over.
unfoldable pub played : Outcome → List ℕ → Menu → Menu
played (won s) rest m = record m { text = rest; calls = s.calls; games = m.games ++ (won s ∷ []) }
played (lost s) rest m = record m { text = rest; calls = s.calls; games = m.games ++ (lost s ∷ []) }
played (waiting s) rest m = record m {
  text = rest;
  calls = s.calls;
  games = m.games ++ (waiting s ∷ []);
  status = waits;
}

-- What follows scanf in the body of the loop, and its test.
pub chosen : (ℕ → ℕ) → ℤ → Menu → Menu
chosen rand choice m =
    let (outcome, rest) = game_loop_over rand m.text (init_board rand m.calls) in
    if is_int choice 1
    then played outcome rest m
    else (if is_int choice 2 then record m { status = ended } else m)

-- After a scanf that has read no number: `choice` is what it was.
pub again : (ℕ → ℕ) → Option ℤ → Menu → Menu
again rand none m = record m { status = undefined }
again rand (some n) m = chosen rand n m

pub ask : (ℕ → ℕ) → Scan → Menu → Menu
ask rand (number n rest) m = chosen rand n (record m { text = rest; choice = some n })
ask rand (mismatch rest) m = again rand m.choice (record m { text = rest })
ask rand too_large m = record m { status = undefined }
ask rand starved m = record m { text = []; status = waits }

pub continue : (ℕ → ℕ) → Status → Menu → Menu
continue rand asking m = ask rand (scan_int m.text) m
continue rand waits m = m
continue rand ended m = m
continue rand undefined m = m

pub round : (ℕ → ℕ) → Menu → Menu
round rand m = continue rand m.status m

-- The menu after a number of rounds of its loop.
pub main_menu : (ℕ → ℕ) → ℕ → Menu → Menu
main_menu rand zero m = m
main_menu rand (suc n) m = main_menu rand n (round rand m)

-- main, for what is typed.
pub main : (ℕ → ℕ) → ℕ → List ℕ → Menu
main rand rounds text =
    main_menu rand rounds
      (record { text = text; choice = none; calls = 0; games = []; status = asking })
