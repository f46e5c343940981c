-- ===== src/Hash/Overflow.antt =====
-- hash_string of HW03-Hash/src/hash.c: the words whose hash fits a long long.
use otus_c.Prelude.{
  ltb, ltb→lt, lt→ltb, Bool-cases, length, ℕ, zero, suc, ◌+◌, ◌*◌, ◌^◌, ◌≤◌, ◌<◌, ◌≡◌, refl, sym,
  ◌∙◌, ◌↔◌, inl, inr, Bool, true, ◌&&◌, none, some, List, [], ◌∷◌, arith, dec_le,
}
use otus_c.Hash.{letter, hash_loop, hash_string}

-- p_pow after n more rounds.
scaled : ℕ → ℕ → ℕ
scaled p zero = p
scaled p (suc n) = scaled (p * 53) n

scaled-le : (p m n : ℕ) → m ≤ n → scaled p m ≤ scaled p n
unfolding scaled
scaled-le p zero zero h = omega arith
scaled-le p zero (suc n) h = omega (arith, scaled-le (p * 53) zero n (omega arith))
scaled-le p (suc m) zero h = absurd (omega arith)
scaled-le p (suc m) (suc n) h = scaled-le (p * 53) m n (omega arith)

letter_bound : (c : ℕ) → letter c ≤ 224
unfolding letter
letter_bound c = ground arith

mul_bound : (a p : ℕ) → a ≤ 224 → a * p ≤ 224 * p
mul_bound a p h = grind arith

hash_loop-fits :
    (cs : List ℕ) (hash p : ℕ)
    → hash < 5 * p
    → 5 * scaled p (length cs) < 2 ^ 63
    → (v : ℕ) × (hash_loop cs hash p ≡ some v)
unfolding hash_loop scaled
hash_loop-fits [] hash p h k = (hash, refl)
hash_loop-fits (c ∷ cs) hash p h k =
    let m = mul_bound (letter c) p (letter_bound c) in
    let s = scaled-le (p * 53) zero (length cs) (omega arith) in
    let (v, e) = hash_loop-fits cs (hash + letter c * p) (p * 53) (omega arith) k in
    (
      v,
      rw
          (
            lt→ltb (hash + letter c * p) (2 ^ 63) (omega arith),
            lt→ltb (p * 53) (2 ^ 63) (omega arith),
          )
          e,
    )

hash_loop-overflows :
    (cs : List ℕ) (hash p : ℕ)
    → p < 2 ^ 63
    → 2 ^ 63 ≤ scaled p (length cs)
    → hash_loop cs hash p ≡ none
unfolding hash_loop scaled
hash_loop-overflows [] hash p h k = absurd (omega arith)
hash_loop-overflows (c ∷ cs) hash p h k =
    elim (Bool-cases (ltb (hash + letter c * p) (2 ^ 63) && ltb (p * 53) (2 ^ 63))) [
      | inl fits ↦
          rw fits
            (hash_loop-overflows cs (hash + letter c * p) (p * 53) (ltb→lt _ _ (second _ _ fits)) k)
      | inr over ↦ rw over refl
    ]
  where
    second : (a b : Bool) → a && b ≡ true → b ≡ true
    second a b h = ground arith

pub hash_string-short : (str : List ℕ) → length str ≤ 10 → (v : ℕ) × (hash_string str ≡ some v)
unfolding hash_string scaled
hash_string-short str h =
    hash_loop-fits str 0 1 (omega arith) (omega (arith, scaled-le 1 (length str) 10 h))

-- hash_string overflows exactly for the strings of eleven characters or more.
pub hash_string_lem : (str : List ℕ) → (hash_string str ≡ none) ↔ (11 ≤ length str)
unfolding hash_string scaled
hash_string_lem str = (
  λ e. elim (dec_le 11 (length str)) [
    | yes le ↦ le
    | no gt ↦
        let (v, f) =
          hash_loop-fits str 0 1 (omega arith)
            (omega (arith, scaled-le 1 (length str) 10 (omega arith))) in
        absurd (some_none v (sym f ∙ e))
  ],
  λ h. hash_loop-overflows str 0 1 (omega arith) (omega (arith, scaled-le 1 11 (length str) h)),
)
  where
    some_none : (v : ℕ) → some v ≡ none → ⊥
    some_none v e = cc
