-- ===== src/Game/Menu/Sessions.antt =====
-- What holds of all games of a session of HW17-2048/src/main.c.
use otus_c.Prelude.{
  if◌then◌else◌, ==_iff, Bool-cases, All, ℕ, zero, suc, ◌≡◌, refl, sym, subst, ap, ◌∙◌, ◌⊎◌, inl,
  inr, true, false, Option, none, some, List, [], ◌∷◌, ◌++◌,
}
use otus_c.Prelude.Int.{ℤ, pos, negsuc}
use otus_c.Prelude.Text.{is_space}
use otus_c.Game.{
  Play, check_win, can_move, turn, init_board, Outcome, won, lost, waiting, game_loop,
}
use otus_c.Game.Loop.{Ends, game_loop-Ends}
use otus_c.Game.Menu.{
  game_loop_over, Scan, number, mismatch, too_large, starved, scan_int, Status, asking, waits,
  ended, undefined, Menu, is_int, played, chosen, again, ask, continue, round, main_menu, main,
}

-- The characters that gameLoop reads as keys.
keys : List ℕ → List ℕ
keys [] = []
keys (c ∷ cs) = let rest = keys cs in if is_space c then rest else c ∷ rest

game_loop-won :
    (rand : ℕ → ℕ) (ks : List ℕ) (s : Play) → check_win s.board ≡ true → game_loop rand ks s ≡ won s
unfolding game_loop
game_loop-won rand [] s w = rw w refl
game_loop-won rand (k ∷ ks) s w = rw w refl

game_loop-lost :
    (rand : ℕ → ℕ) (ks : List ℕ) (s : Play)
    → check_win s.board ≡ false
    → can_move s.board ≡ false
    → game_loop rand ks s ≡ lost s
unfolding game_loop
game_loop-lost rand [] s w m = rw (w, m) refl
game_loop-lost rand (k ∷ ks) s w m = rw (w, m) refl

game_loop-next :
    (rand : ℕ → ℕ) (k : ℕ) (ks : List ℕ) (s : Play)
    → check_win s.board ≡ false
    → can_move s.board ≡ true
    → game_loop rand (k ∷ ks) s ≡ game_loop rand ks (turn rand k s)
unfolding game_loop
game_loop-next rand k ks s w m = rw (w, m) refl

game_loop_over-keys :
    (rand : ℕ → ℕ) (cs : List ℕ) (s : Play)
    → (game_loop_over rand cs s).0 ≡ game_loop rand (keys cs) s
unfolding game_loop_over keys
game_loop_over-keys rand [] s = unfold game_loop in refl
game_loop_over-keys rand (c ∷ cs) s = elim (Bool-cases (check_win s.board)) [
  | inl w ↦ rw w (sym (game_loop-won rand _ s w))
  | inr w ↦ elim (Bool-cases (can_move s.board)) [
    | inr m ↦ rw (w, m) (sym (game_loop-lost rand _ s w m))
    | inl m ↦ elim (Bool-cases (is_space c)) [
      | inl e ↦ rw (w, m, e) (game_loop_over-keys rand cs s)
      | inr e ↦
          rw (w, m, e)
            (game_loop_over-keys rand cs (turn rand c s)
              ∙ sym (game_loop-next rand c (keys cs) s w m))
    ]
  ]
]

-- The game has come to its end.
abbrev pub IsOver : Outcome → Type 0
IsOver (won s) = Unit
IsOver (lost s) = Unit
IsOver (waiting s) = ⊥

-- Every game has kept its rules; only a menu that waits has one that is not over; the program ends only by
-- the choice 2.
pub record IsSession (m : Menu) : Type 0 where
  pub games : All Ends m.games
  pub over : (m.status ≡ waits) ⊎ All IsOver m.games
  pub left : m.status ≡ ended → m.choice ≡ some (pos 2)

All-snoc :
    (P : Outcome → Type 0) (os : List Outcome) (o : Outcome)
    → All P os
    → P o
    → All P (os ++ (o ∷ []))
All-snoc P [] o a p = (p, tt)
All-snoc P (x ∷ os) o (q, a) p = (q, All-snoc P os o a p)

played-IsSession :
    (o : Outcome) (rest : List ℕ) (m : Menu)
    → m.status ≡ asking
    → All Ends m.games
    → All IsOver m.games
    → Ends o
    → IsSession (played o rest m)
unfolding played
played-IsSession (won s) rest m e games over p = record {
  games = All-snoc Ends m.games (won s) games p;
  over = inr (All-snoc IsOver m.games (won s) over tt);
  left = λ h. cc (e, h);
}
played-IsSession (lost s) rest m e games over p = record {
  games = All-snoc Ends m.games (lost s) games p;
  over = inr (All-snoc IsOver m.games (lost s) over tt);
  left = λ h. cc (e, h);
}
played-IsSession (waiting s) rest m e games over p = record {
  games = All-snoc Ends m.games (waiting s) games p;
  over = inl refl;
  left = λ h. cc h;
}

is_int-two : (n : ℤ) → is_int n 2 ≡ true → n ≡ pos 2
unfolding is_int
is_int-two (pos m) h = ap pos ((==_iff m 2).0 h)
is_int-two (negsuc m) h = cc h

chosen-IsSession :
    (rand : ℕ → ℕ) (n : ℤ) (m : Menu)
    → m.status ≡ asking
    → m.choice ≡ some n
    → All Ends m.games
    → All IsOver m.games
    → IsSession (chosen rand n m)
unfolding chosen
chosen-IsSession rand n m e c games over =
    let g = game_loop_over rand m.text (init_board rand m.calls) in
    elim (Bool-cases (is_int n 1)) [
      | inl one ↦ rw one (
          played-IsSession g.0 g.1 m e games over (
            subst Ends (sym (game_loop_over-keys rand m.text (init_board rand m.calls)))
              (game_loop-Ends rand (keys m.text) m.calls)))
      | inr one ↦ elim (Bool-cases (is_int n 2)) [
        | inl two ↦
            rw (one, two)
              (record {
                games = games;
                over = inr over;
                left = λ h. c ∙ ap some (is_int-two n two);
              })
        | inr two ↦ rw (one, two) (record { games = games; over = inr over; left = λ h. cc (e, h) })
      ]
    ]

again-IsSession :
    (rand : ℕ → ℕ) (known : Option ℤ) (m : Menu)
    → m.choice ≡ known
    → m.status ≡ asking
    → All Ends m.games
    → All IsOver m.games
    → IsSession (again rand known m)
unfolding again
again-IsSession rand none m c e games over = record {
  games = games;
  over = inr over;
  left = λ h. cc h;
}
again-IsSession rand (some n) m c e games over = chosen-IsSession rand n m e c games over

ask-IsSession :
    (rand : ℕ → ℕ) (scan : Scan) (m : Menu)
    → m.status ≡ asking
    → All Ends m.games
    → All IsOver m.games
    → IsSession (ask rand scan m)
unfolding ask
ask-IsSession rand (number n rest) m e games over = chosen-IsSession rand n _ e refl games over
ask-IsSession rand (mismatch rest) m e games over =
    again-IsSession rand m.choice (record m { text = rest }) refl e games over
ask-IsSession rand too_large m e games over = record {
  games = games;
  over = inr over;
  left = λ h. cc h;
}
ask-IsSession rand starved m e games over = record {
  games = games;
  over = inl refl;
  left = λ h. cc h;
}

continue-IsSession :
    (rand : ℕ → ℕ) (status : Status) (m : Menu)
    → m.status ≡ status
    → IsSession m
    → IsSession (continue rand status m)
unfolding continue
continue-IsSession rand asking m e v =
    let over : All IsOver m.games = elim v.over [ inl w ↦ absurd (cc (e, w)) | inr a ↦ a ] in
    ask-IsSession rand (scan_int m.text) m e v.games over
continue-IsSession rand waits m e v = v
continue-IsSession rand ended m e v = v
continue-IsSession rand undefined m e v = v

main_menu-IsSession :
    (rand : ℕ → ℕ) (n : ℕ) (m : Menu) → IsSession m → IsSession (main_menu rand n m)
unfolding main_menu
main_menu-IsSession rand zero m v = v
main_menu-IsSession rand (suc n) m v =
    main_menu-IsSession rand n (round rand m)
      (unfold round in continue-IsSession rand m.status m refl v)

-- Whatever is typed, whatever rand() gives, and after any number of rounds of the menu: every game that
-- was played kept a 4 × 4 board of powers of two from 2 to 2048, and ended in a win only on a board with a
-- 2048 and in a loss only on one without it that none of the four moves changes; all of them are over
-- unless the program waits for something to be typed; and it has left the menu only if the choice is 2.
pub main-IsSession : (rand : ℕ → ℕ) (rounds : ℕ) (text : List ℕ) → IsSession (main rand rounds text)
unfolding main
main-IsSession rand rounds text =
    main_menu-IsSession rand rounds _ (record { games = tt; over = inr tt; left = λ h. cc h })
