-- ===== src/Server/Words.antt =====
-- How handle_request of HW12-FileServer/src/server.c reads a request: its first two words.
use otus_c.Prelude.{
  lt→ltb, length, All, ℕ, ◌<◌, ◌≡◌, refl, true, false, some, List, [], ◌∷◌, ◌++◌, arith,
}
use otus_c.Prelude.Text.{is_space}
use otus_c.Server.{skip_spaces, take_word, scan_word}

-- At least one character, and no white space.
pub record IsWord (word : List ℕ) : Type 0 where
  pub some_char : 0 < length word
  pub no_space : All (λ c. is_space c ≡ false) word

take_word_lem :
    (word rest : List ℕ) (c : ℕ)
    → All (λ x. is_space x ≡ false) word
    → is_space c ≡ true
    → take_word (word ++ (c ∷ rest)) ≡ (word, c ∷ rest)
unfolding take_word
take_word_lem [] rest c h s = rw s
take_word_lem (x ∷ word) rest c (n, h) s = rw (n, take_word_lem word rest c h s)

skip_word : (word rest : List ℕ) → IsWord word → skip_spaces (word ++ rest) ≡ word ++ rest
unfolding skip_spaces
skip_word [] rest w = absurd (omega (arith, w.some_char))
skip_word (x ∷ word) rest w = rw (w.no_space.0)

space_is_space : is_space b' ' ≡ true
unfolding is_space
space_is_space = refl

skip_one : (text : List ℕ) → skip_spaces (b' ' ∷ text) ≡ skip_spaces text
unfolding skip_spaces
skip_one text = rw (space_is_space)

-- A word that fits the array is scanned up to the space behind it.
pub scan_word_lem :
    (size : ℕ) (word rest : List ℕ)
    → IsWord word
    → length word < size
    → scan_word size (word ++ (b' ' ∷ rest)) ≡ some (word, b' ' ∷ rest)
unfolding scan_word
scan_word_lem size word rest w h = rw (
  skip_word word (b' ' ∷ rest) w,
  take_word_lem word rest b' ' w.no_space space_is_space,
  lt→ltb 0 (length word) w.some_char,
  lt→ltb (length word) size h,
)

-- So is one behind a space.
pub scan_word-space :
    (size : ℕ) (word rest : List ℕ)
    → IsWord word
    → length word < size
    → scan_word size (b' ' ∷ (word ++ (b' ' ∷ rest))) ≡ some (word, b' ' ∷ rest)
unfolding scan_word
scan_word-space size word rest w h = rw (
  skip_one (word ++ (b' ' ∷ rest)),
  skip_word word (b' ' ∷ rest) w,
  take_word_lem word rest b' ' w.no_space space_is_space,
  lt→ltb 0 (length word) w.some_char,
  lt→ltb (length word) size h,
)
