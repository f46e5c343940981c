-- ===== src/Server/Setup/Argument.antt =====
-- The address and the port in the argument of HW12-FileServer/src/main.c.
use otus_c.Prelude.{
  ltb, leb, ◌==◌, ==_refl, Bool-cases, All, ℕ, zero, suc, ◌+◌, ◌-◌, ◌*◌, ◌/◌, ◌%◌, ◌^◌, ◌≤◌, ◌<◌,
  ◌≡◌, refl, ap, ◌∙◌, ◌≢◌, inl, inr, true, false, ◌&&◌, ◌||◌, some, List, [], ◌∷◌, ◌++◌, arith,
}
use otus_c.Prelude.Int.{pos}
use otus_c.Prelude.Text.{digits_onto, show_nat, is_space}
use otus_c.Server.{skip_spaces}
use otus_c.Server.Setup.{
  Network, start_server, skip_delimiters, take_token, strtok_rest, digits_value, in_range,
  signed_value, atoi, main,
}

-- A text without colons, and not empty.
unfoldable pub IsAddress : List ℕ → Type 0
IsAddress address = (address ≢ []) × All (λ c. (c == b':') ≡ false) address

take_token_lem :
    (token rest : List ℕ) (c : ℕ)
    → All (λ x. (x == c) ≡ false) token
    → take_token c (token ++ (c ∷ rest)) ≡ (token, rest)
unfolding take_token
take_token_lem [] rest c a = rw (==_refl c) refl
take_token_lem (x ∷ token) rest c (n, a) = rw (n, take_token_lem token rest c a) refl

skip_delimiters_lem :
    (token rest : List ℕ) (c : ℕ)
    → token ≢ []
    → All (λ x. (x == c) ≡ false) token
    → skip_delimiters c (token ++ rest) ≡ token ++ rest
unfolding skip_delimiters
skip_delimiters_lem [] rest c some_text a = absurd (some_text refl)
skip_delimiters_lem (x ∷ token) rest c some_text (n, a) = rw n refl

-- The text starts with a digit.
StartsDigit : List ℕ → Type 0
StartsDigit [] = ⊥
StartsDigit (c ∷ cs) = (b'0' ≤ c) × (c ≤ b'9')

digits_onto-StartsDigit :
    (fuel n : ℕ) (rest : List ℕ) → StartsDigit rest → StartsDigit (digits_onto fuel n rest)
unfolding digits_onto StartsDigit
digits_onto-StartsDigit zero n rest h = h
digits_onto-StartsDigit (suc fuel) n rest h = elim (Bool-cases (ltb n 10)) [
  | inl e ↦ rw e (ground arith, ground arith)
  | inr e ↦ rw e (digits_onto-StartsDigit fuel (n / 10) _ (omega arith, omega arith))
]

show_nat-StartsDigit : (n : ℕ) → StartsDigit (show_nat n)
unfolding show_nat digits_onto StartsDigit
show_nat-StartsDigit n = elim (Bool-cases (ltb n 10)) [
  | inl e ↦ rw e (ground arith, ground arith)
  | inr e ↦ rw e (digits_onto-StartsDigit n (n / 10) _ (omega arith, omega arith))
]

digits_value-digit :
    (m c : ℕ) (cs : List ℕ)
    → b'0' ≤ c
    → c ≤ b'9'
    → digits_value m (c ∷ cs) ≡ digits_value (m * 10 + (c - b'0')) cs
unfolding digits_value
digits_value-digit m c cs low high =
    let test : leb b'0' c && leb c b'9' ≡ true = ground arith in rw test refl

-- The digits of a number are read back, in front of any text.
digits_value-digits_onto :
    (fuel n : ℕ) (rest : List ℕ)
    → n < fuel
    → digits_value 0 (digits_onto fuel n rest) ≡ digits_value n rest
unfolding digits_onto
digits_value-digits_onto zero n rest h = absurd (omega arith)
digits_value-digits_onto (suc fuel) n rest h = elim (Bool-cases (ltb n 10)) [
  | inl e ↦ rw e (
      digits_value-digit 0 (b'0' + n) rest (omega arith) (ground arith)
      ∙ ap (λ m. digits_value m rest) (omega arith))
  | inr e ↦ rw e (
      digits_value-digits_onto fuel (n / 10) ((b'0' + n % 10) ∷ rest) (ground arith)
      ∙ digits_value-digit (n / 10) (b'0' + n % 10) rest (omega arith) (omega arith)
      ∙ ap (λ m. digits_value m rest) (omega arith))
]

digits_value-show_nat : (n : ℕ) → digits_value 0 (show_nat n) ≡ n
unfolding show_nat digits_value
digits_value-show_nat n = digits_value-digits_onto (suc n) n [] (omega arith)

skip_spaces-digit : (c : ℕ) (cs : List ℕ) → b'0' ≤ c → c ≤ b'9' → skip_spaces (c ∷ cs) ≡ c ∷ cs
unfolding skip_spaces is_space
skip_spaces-digit c cs low high =
    let test : c == b' ' || (leb 9 c && leb c 13) ≡ false = ground arith in rw test refl

signed_value_lem :
    (text : List ℕ) (n : ℕ)
    → StartsDigit text
    → digits_value 0 text ≡ n
    → n < 2 ^ 31
    → signed_value (skip_spaces text) ≡ some (pos n)
unfolding StartsDigit signed_value in_range
signed_value_lem [] n h e lt = elim h [ ]
signed_value_lem (c ∷ cs) n (low, high) e lt =
    let minus : (c == b'-') ≡ false = ground arith in
    let plus : (c == b'+') ≡ false = ground arith in
    let fits : leb n (2 ^ 31 - 1) ≡ true = ground arith in
    rw (skip_spaces-digit c cs low high, signed_value, minus, plus, e, fits) refl

atoi-show_nat : (n : ℕ) → n < 2 ^ 31 → atoi (show_nat n) ≡ some (pos n)
unfolding atoi
atoi-show_nat n lt =
    signed_value_lem (show_nat n) n (show_nat-StartsDigit n) (digits_value-show_nat n) lt

strtok_rest-digits : (text : List ℕ) → StartsDigit text → strtok_rest text ≡ some text
unfolding StartsDigit strtok_rest
strtok_rest-digits [] h = elim h [ ]
strtok_rest-digits (c ∷ cs) h = refl

-- An address and a port number with a colon between them come apart again.
pub main-start_server :
    (net : Network) (program dir address : List ℕ) (n : ℕ)
    → IsAddress address
    → n < 2 ^ 31
    → main net (program ∷ dir ∷ (address ++ (b':' ∷ show_nat n)) ∷ [])
      ≡ some (start_server net address (pos n))
unfolding main IsAddress
main-start_server net program dir address n (some_text, no_colon) lt =
    rw
      (
        main,
        skip_delimiters_lem address (b':' ∷ show_nat n) b':' some_text no_colon,
        take_token_lem address (show_nat n) b':' no_colon,
        strtok_rest-digits (show_nat n) (show_nat-StartsDigit n),
        atoi-show_nat n lt,
      )
      refl
