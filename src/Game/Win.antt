-- ===== src/Game/Win.antt =====
-- checkWin finds a 2048 wherever it stands.
use otus_c.Prelude.{
  ◌==◌, ==_iff, Bool-cases, or_false, length, get_or, All, ℕ, zero, suc, ◌<◌, ◌≡◌, ◌≢◌, inl, inr,
  true, false, List, [], ◌∷◌, arith,
}
use otus_c.Game.{size, Board, cell, row_has, check_win}
use otus_c.Game.Moves.{IsBoard}

-- Some cell of the board holds a 2048.
abbrev pub HasWon : Board → Type 0
HasWon b = (i : ℕ) × (j : ℕ) × (i < size) × (j < size) × (cell b i j ≡ 2048)

row_has-true :
    (v : ℕ) (xs : List ℕ) → row_has v xs ≡ true → (j : ℕ) × (j < length xs) × (get_or xs j 0 ≡ v)
unfolding row_has
row_has-true v [] e = cc
row_has-true v (x ∷ xs) e = elim (Bool-cases (x == v)) [
  | inl p ↦ (0, omega arith, (==_iff x v).0 p)
  | inr p ↦ let (j, lt, q) = row_has-true v xs (rw (p, row_has) at e) in (suc j, omega arith, q)
]

row_has-ne : (v : ℕ) (xs : List ℕ) (j : ℕ) → 0 < v → row_has v xs ≡ false → get_or xs j 0 ≢ v
unfolding row_has
row_has-ne v [] j h e = omega arith
row_has-ne v (x ∷ xs) zero h e = ground (arith, or_false (x == v) (row_has v xs) e)
row_has-ne v (x ∷ xs) (suc j) h e = row_has-ne v xs j h (or_false (x == v) _ e).1

check_win-true :
    (b : Board)
    → All (λ r. length r ≡ size) b
    → check_win b ≡ true
    → (i : ℕ) × (j : ℕ) × (i < length b) × (j < size) × (cell b i j ≡ 2048)
unfolding check_win
check_win-true [] w e = cc
check_win-true (r ∷ b) w e = elim (Bool-cases (row_has 2048 r)) [
  | inl p ↦ let (j, lt, q) = row_has-true 2048 r p in (0, j, omega arith, omega (arith, w.0), q)
  | inr p ↦
      let (i, j, lt, lt', q) = check_win-true b w.1 (rw (p, check_win) at e) in
      (suc i, j, omega arith, lt', q)
]

check_win-ne : (b : Board) (i j : ℕ) → check_win b ≡ false → cell b i j ≢ 2048
unfolding check_win
check_win-ne [] i j e = omega arith
check_win-ne (r ∷ b) zero j e = row_has-ne 2048 r j (omega arith) (or_false (row_has 2048 r) _ e).0
check_win-ne (r ∷ b) (suc i) j e = check_win-ne b i j (or_false (row_has 2048 r) _ e).1

pub check_win-HasWon : (b : Board) → IsBoard b → check_win b ≡ true → HasWon b
check_win-HasWon b v e =
    let (i, j, lt, lt', q) = check_win-true b v.1 e in (i, j, omega (arith, v.0), lt', q)

pub check_win-none : (b : Board) → check_win b ≡ false → ¬ HasWon b
check_win-none b e (i, j, _, _, q) = check_win-ne b i j e q
