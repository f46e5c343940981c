-- ===== src/Game/Moves.antt =====
-- The four moves of the 2048 board: every line of the board slides by the rule of one row.
use otus_c.Prelude.{
  or_false, length, get_or, set, All, length-append, length-set, get_or-set_self, get_or-set_ne, ℕ,
  zero, suc, ◌+◌, ◌≤◌, ◌<◌, ◌≡◌, refl, sym, subst, ap, ap₂, ◌∙◌, ◌≢◌, ◌↔◌, ◌⊎◌, inl, inr, Bool,
  false, ◌||◌, List, [], ◌∷◌, map, arith, ℕ_discrete,
}
use mathlib.Core.List.{reverse, reverse-cons, reverse-reverse}
use otus_c.Game.{
  size, Board, slide_and_merge_row, slide_reversed, slide_rows, move_left, move_right, column,
  set_column, slide_columns, move_up, move_down,
}
use otus_c.Game.Row.{slid, length-slid, slide_and_merge_row-slid}

pub data Direction : Type 0 where
  left right up down : Direction

-- The key's move, as gameLoop calls it.
unfoldable pub move : Direction → Board → Bool × Board
move left b = move_left b
move right b = move_right b
move up b = move_up b
move down b = move_down b

-- int board[SIZE][SIZE]
abbrev pub IsBoard : Board → Type 0
IsBoard b = (length b ≡ size) × All (λ r. length r ≡ size) b

-- A body `f` of the loops slides a line as `g` says, and reports whether that changes the line.
abbrev Slides : (List ℕ → Bool × List ℕ) → (List ℕ → List ℕ) → Type 0
Slides f g =
    (line : List ℕ)
    → length line ≡ size
    → ((f line).1 ≡ g line) × (((f line).0 ≡ false) ↔ (g line ≡ line)) × (length (g line) ≡ size)

-- A line slid towards its far end.
pub slid_back : List ℕ → List ℕ
slid_back line = reverse (slid (reverse line))

pub length-reverse : (xs : List ℕ) → length (reverse xs) ≡ length xs
length-reverse [] = refl
length-reverse (x ∷ xs) =
    rw (reverse-cons x xs) (omega (arith, length-append (reverse xs) (x ∷ []), length-reverse xs))

slide-Slides : Slides slide_and_merge_row slid
slide-Slides line h =
    let (stored, iff) = slide_and_merge_row-slid line h in (stored, iff, length-slid line h)

slide_reversed-Slides : Slides slide_reversed slid_back
unfolding slide_reversed slid_back
slide_reversed-Slides line h =
    let (stored, iff) = slide_and_merge_row-slid (reverse line) (length-reverse line ∙ h) in
    (
      ap reverse stored,
      (
        (λ e. ap reverse (iff.0 e) ∙ reverse-reverse line),
        (λ e. iff.1 (sym (reverse-reverse _) ∙ ap reverse e)),
      ),
      length-reverse _ ∙ length-slid (reverse line) (length-reverse line ∙ h),
    )

pub length-column : (j : ℕ) (b : Board) → length (column j b) ≡ length b
unfolding column
length-column j [] = refl
length-column j (r ∷ rs) = ap suc (length-column j rs)

column-set_column_self :
    (j : ℕ) (ts : List ℕ) (b : Board)
    → length ts ≡ length b
    → j < size
    → All (λ r. length r ≡ size) b
    → column j (set_column j ts b) ≡ ts
unfolding column set_column
column-set_column_self j [] [] e h w = refl
column-set_column_self j [] (r ∷ b) e h w = absurd (omega arith)
column-set_column_self j (t ∷ ts) [] e h w = absurd (omega arith)
column-set_column_self j (t ∷ ts) (r ∷ b) e h w =
    ap₂ ◌∷◌ (get_or-set_self r j t 0 (omega (arith, w.0)))
      (column-set_column_self j ts b (omega arith) h w.1)

column-set_column_ne :
    (j k : ℕ) (ts : List ℕ) (b : Board)
    → length ts ≡ length b
    → j ≢ k
    → column k (set_column j ts b) ≡ column k b
unfolding column set_column
column-set_column_ne j k [] b e h = refl
column-set_column_ne j k (t ∷ ts) [] e h = refl
column-set_column_ne j k (t ∷ ts) (r ∷ b) e h =
    ap₂ ◌∷◌ (get_or-set_ne r j k t 0 h) (column-set_column_ne j k ts b (omega arith) h)

set-get_or : (xs : List ℕ) (j : ℕ) → set xs j (get_or xs j 0) ≡ xs
set-get_or [] j = refl
set-get_or (x ∷ xs) zero = refl
set-get_or (x ∷ xs) (suc j) = ap (λ l. x ∷ l) (set-get_or xs j)

set_column-column : (j : ℕ) (b : Board) → set_column j (column j b) b ≡ b
unfolding column set_column
set_column-column j [] = refl
set_column-column j (r ∷ b) = ap₂ ◌∷◌ (set-get_or r j) (set_column-column j b)

set_column-IsBoard :
    (j : ℕ) (ts : List ℕ) (b : Board)
    → length ts ≡ length b
    → All (λ r. length r ≡ size) b
    → (length (set_column j ts b) ≡ length b) × All (λ r. length r ≡ size) (set_column j ts b)
unfolding set_column
set_column-IsBoard j [] b e w = (refl, w)
set_column-IsBoard j (t ∷ ts) [] e w = (refl, tt)
set_column-IsBoard j (t ∷ ts) (r ∷ b) e w =
    let (len, all) = set_column-IsBoard j ts b (omega arith) w.1 in
    (ap suc len, (length-set r j t ∙ w.0, all))

module _ (f : List ℕ → Bool × List ℕ) (g : List ℕ → List ℕ) (slides : Slides f g) where
  slide_rows_lem :
      (b : Board)
      → All (λ r. length r ≡ size) b
      → ((slide_rows f b).1 ≡ map g b) × (((slide_rows f b).0 ≡ false) ↔ (map g b ≡ b))
  unfolding slide_rows
  slide_rows_lem [] h = (refl, ((λ _. refl), (λ _. refl)))
  slide_rows_lem (r ∷ rs) h =
      let (same, iff, _) = slides r h.0 in
      let (sames, iffs) = slide_rows_lem rs h.1 in
      (ground arith, ((λ e. ground (arith, iff.0, iffs.0)), (λ e. ground (arith, iff.1, iffs.1))))

  slide_rows-IsBoard :
      (b : Board)
      → All (λ r. length r ≡ size) b
      → (length (slide_rows f b).1 ≡ length b) × All (λ r. length r ≡ size) (slide_rows f b).1
  unfolding slide_rows
  slide_rows-IsBoard [] h = (refl, tt)
  slide_rows-IsBoard (r ∷ rs) h =
      let (same, _, len) = slides r h.0 in
      let (lens, all) = slide_rows-IsBoard rs h.1 in (ap suc lens, (ap length same ∙ len, all))

  -- What the loop over the columns `j`, …, `j + n - 1` does to a board.
  record Swept (n j : ℕ) (m : Bool) (b : Board) (out : Bool × Board) : Type 0 where
    board : IsBoard out.1
    inside : (k : ℕ) → j ≤ k → k < j + n → column k out.1 ≡ g (column k b)
    outside : (k : ℕ) → (k < j) ⊎ (j + n ≤ k) → column k out.1 ≡ column k b
    quiet : out.0 ≡ false → (out.1 ≡ b) × (m ≡ false)
    still : m ≡ false → ((k : ℕ) → j ≤ k → k < j + n → g (column k b) ≡ column k b) → out.0 ≡ false

  slide_columns-Swept :
      (n j : ℕ) (m : Bool) (b : Board)
      → IsBoard b
      → j + n ≤ size
      → Swept n j m b (slide_columns f n j (m, b))
  unfolding slide_columns
  slide_columns-Swept zero j m b v h = record {
    board = v;
    inside = λ k p q. absurd (omega arith);
    outside = λ k p. refl;
    quiet = λ e. (refl, e);
    still = λ e p. e;
  }
  slide_columns-Swept (suc n) j m b v h =
      let (same, iff, len) = slides (column j b) (length-column j b ∙ v.0) in
      let temp = (f (column j b)).1 in
      let fits : length temp ≡ length b = ap length same ∙ len ∙ sym v.0 in
      let (lens, all) = set_column-IsBoard j temp b fits v.1 in
      let b' = set_column j temp b in
      let other = λ (k : ℕ) (ne : j ≢ k). column-set_column_ne j k temp b fits ne in
      let here : column j b' ≡ g (column j b) =
        column-set_column_self j temp b fits (omega arith) v.1 ∙ same in
      let rest =
        slide_columns-Swept n (j + 1) ((f (column j b)).0 || m) b' (lens ∙ v.0, all)
          (omega arith) in
      record {
        board = rest.board;
        inside = λ k p q. elim (ℕ_discrete j k) [
          | yes e ↦
              subst (λ i. column i (slide_columns f (suc n) j (m, b)).1 ≡ g (column i b)) e
                (rest.outside j (inl (omega arith)) ∙ here)
          | no ne ↦ rest.inside k (omega arith) (omega arith) ∙ ap g (other k ne)
        ];
        outside = λ k p. elim p [
          | inl lt ↦ rest.outside k (inl (omega arith)) ∙ other k (omega arith)
          | inr le ↦ rest.outside k (inr (omega arith)) ∙ other k (omega arith)
        ];
        quiet = λ e.
            let (same_board, flags) = rest.quiet e in
            let (unmoved, first) = or_false _ m flags in
            (
              same_board
                  ∙ ap (λ t. set_column j t b) (same ∙ iff.0 unmoved)
                  ∙ set_column-column j b,
              first,
            );
        still = λ e p.
            rest.still (rw (iff.1 (p j (omega arith) (omega arith)), e))
              (λ k lo hi. rw (other k (omega arith)) (p k (omega arith) (omega arith)));
      }

-- The four columns, each from the top.
unfoldable pub columns : Board → List (List ℕ)
columns b = column 0 b ∷ column 1 b ∷ column 2 b ∷ column 3 b ∷ []

-- The lines of a board, each read from the side that the tiles slide towards.
unfoldable pub lines : Direction → Board → List (List ℕ)
lines left b = b
lines right b = map reverse b
lines up b = columns b
lines down b = map reverse (columns b)

map-reverse-slid_back : (b : Board) → map reverse (map slid_back b) ≡ map slid (map reverse b)
unfolding slid_back
map-reverse-slid_back [] = refl
map-reverse-slid_back (r ∷ b) = ap₂ ◌∷◌ (reverse-reverse _) (map-reverse-slid_back b)

module _ (f : List ℕ → Bool × List ℕ) (g : List ℕ → List ℕ) (slides : Slides f g) where
  rows-moved :
      (b : Board)
      → IsBoard b
      → (((slide_rows f b).0 ≡ false) ↔ ((slide_rows f b).1 ≡ b)) × IsBoard (slide_rows f b).1
  rows-moved b v =
      let (same, iff) = slide_rows_lem f g slides b v.1 in
      let (len, all) = slide_rows-IsBoard f g slides b v.1 in
      (((λ e. same ∙ iff.0 e), (λ e. iff.1 (sym same ∙ e))), (len ∙ v.0, all))

  rows-still : (b : Board) → IsBoard b → All (λ r. g r ≡ r) b → (slide_rows f b).0 ≡ false
  rows-still b v fixed = (slide_rows_lem f g slides b v.1).1.1 (map-fixed b fixed)
    where
      map-fixed : (rs : Board) → All (λ r. g r ≡ r) rs → map g rs ≡ rs
      map-fixed [] h = refl
      map-fixed (r ∷ rs) h = ap₂ ◌∷◌ h.0 (map-fixed rs h.1)

  columns-still :
      (b : Board)
      → IsBoard b
      → All (λ r. g r ≡ r) (columns b)
      → (slide_columns f size 0 (false, b)).0 ≡ false
  unfolding columns
  columns-still b v fixed =
      (slide_columns-Swept f g slides size 0 false b v (omega arith)).still refl (at fixed)
    where
      at :
          All (λ r. g r ≡ r) (columns b)
          → (k : ℕ) → 0 ≤ k
          → k < 0 + size
          → g (column k b) ≡ column k b
      at h zero lo hi = h.0
      at h (suc zero) lo hi = h.1.0
      at h (suc (suc zero)) lo hi = h.1.1.0
      at h (suc (suc (suc zero))) lo hi = h.1.1.1.0
      at h (suc (suc (suc (suc k)))) lo hi = absurd (omega arith)

  columns-moved :
      (b : Board)
      → IsBoard b
      → let out = slide_columns f size 0 (false, b) in
        (columns out.1 ≡ map g (columns b)) × ((out.0 ≡ false) ↔ (out.1 ≡ b)) × IsBoard out.1
  unfolding columns
  columns-moved b v =
      let swept = slide_columns-Swept f g slides size 0 false b v (omega arith) in
      let at = λ (k : ℕ) (h : k < size). swept.inside k (omega arith) (omega arith) in
      (
        (λ i.
            at 0 (omega arith) i
            ∷ at 1 (omega arith) i
            ∷ at 2 (omega arith) i
            ∷ at 3 (omega arith) i
            ∷ []),
        (
          (λ e. (swept.quiet e).0),
          (λ e. swept.still refl (λ k lo hi. sym (swept.inside k lo hi) ∙ ap (column k) e)),
        ),
        swept.board,
      )

slid_back-fixed : (b : Board) → All (λ r. slid r ≡ r) (map reverse b) → All (λ r. slid_back r ≡ r) b
unfolding slid_back
slid_back-fixed [] h = tt
slid_back-fixed (r ∷ b) h = (ap reverse h.0 ∙ reverse-reverse r, slid_back-fixed b h.1)

-- Where every line is as the rule leaves it, the move reports nothing moved.
pub move-still :
    (d : Direction) (b : Board)
    → IsBoard b
    → All (λ r. slid r ≡ r) (lines d b)
    → (move d b).0 ≡ false
unfolding move lines move_left move_right move_up move_down
move-still left b v h = rows-still slide_and_merge_row slid slide-Slides b v h
move-still right b v h =
    rows-still slide_reversed slid_back slide_reversed-Slides b v (slid_back-fixed b h)
move-still up b v h = columns-still slide_and_merge_row slid slide-Slides b v h
move-still down b v h =
    columns-still slide_reversed slid_back slide_reversed-Slides b v (slid_back-fixed (columns b) h)

-- Each of moveLeft, moveRight, moveUp and moveDown slides every line of the board, read from the
-- side that the tiles move towards, by the rule of the game; it returns 0 exactly when the board is
-- unchanged; and the board keeps its size.
pub move-lines :
    (d : Direction) (b : Board)
    → IsBoard b
    → (lines d (move d b).1 ≡ map slid (lines d b))
      × (((move d b).0 ≡ false) ↔ ((move d b).1 ≡ b))
      × IsBoard (move d b).1
unfolding move lines move_left move_right move_up move_down
move-lines left b v =
    let (iff, board) = rows-moved slide_and_merge_row slid slide-Slides b v in
    ((slide_rows_lem slide_and_merge_row slid slide-Slides b v.1).0, iff, board)
move-lines right b v =
    let (iff, board) = rows-moved slide_reversed slid_back slide_reversed-Slides b v in
    let same = (slide_rows_lem slide_reversed slid_back slide_reversed-Slides b v.1).0 in
    (ap (map reverse) same ∙ map-reverse-slid_back b, iff, board)
move-lines up b v = columns-moved slide_and_merge_row slid slide-Slides b v
move-lines down b v =
    let (same, iff, board) = columns-moved slide_reversed slid_back slide_reversed-Slides b v in
    (ap (map reverse) same ∙ map-reverse-slid_back (columns b), iff, board)
