-- ===== src/Tests/Stats.antt =====
-- A run of the statistics' theorem, with natural numbers and NaN as the doubles.
use otus_c.Prelude.{
  ltb, length, ℕ, ◌+◌, ◌-◌, ◌*◌, ◌/◌, ◌≤◌, ◌≡◌, refl, Bool, true, false, Option, none, some, List,
  [], ◌∷◌, arith,
}
use otus_c.Prelude.Text.{codes}
use otus_c.Stats.{Doubles, Row, Sqlite, Outcome, sql_query, main, int_max, parse_number}
use otus_c.Stats.Passes.{numbers}
use otus_c.Stats.Main.{Ends, main-Ends}

abbrev Number : Type 0
Number = Option ℕ

abbrev above : Number → Number → Bool
above none b = false
above (some a) none = false
above (some a) (some b) = ltb b a

abbrev both : (ℕ → ℕ → ℕ) → Number → Number → Number
both f none b = none
both f (some a) none = none
both f (some a) (some b) = some (f a b)

abbrev without : Number → Bool
without none = true
without (some a) = false

abbrev over : Number → ℕ → Number
over none n = none
over (some a) n = some (a / n)

-- The number of one digit, and what follows it.
abbrev digit : List ℕ → Number × List ℕ
digit [] = (some 0, [])
digit (c ∷ cs) = (some (c - 48), cs)

above_irrefl : (a : Number) → above a a ≡ false
above_irrefl none = refl
above_irrefl (some a) = ground arith

above_asymm : (a b : Number) → above a b ≡ true → above b a ≡ false
above_asymm none b h = cc
above_asymm (some a) none h = refl
above_asymm (some a) (some b) h = ground arith

above_trans :
    (a b c : Number) → without b ≡ false → above a b ≡ false → above b c ≡ false → above a c ≡ false
above_trans none b c n h k = refl
above_trans (some a) none c n h k = cc
above_trans (some a) (some b) none n h k = refl
above_trans (some a) (some b) (some c) n h k = ground arith

abbrev naturals : Doubles
naturals = record {
  Double = Number;
  zero_double = some 0;
  nan = none;
  isnan = without;
  greater = above;
  plus = both (λ a b. a + b);
  minus = both (λ a b. a - b);
  times = both (λ a b. a * b);
  divide = over;
  strtod = digit;
  isnan-nan = refl;
  greater_irrefl = above_irrefl;
  greater_asymm = above_asymm;
  greater_trans = above_trans;
}

abbrev one_column : List ℕ → Row
one_column text = record { first = some text; others = [] }

abbrev table : Sqlite
table = record {
  open_db = λ name. 0;
  exec_first = λ query. (
    one_column (codes "4") ∷ record { first = none; others = [] } ∷ one_column (codes "2") ∷ [],
    0,
  );
  exec_second = λ query. (one_column (codes "4") ∷ one_column (codes "2") ∷ [], 0);
}

short :
    length (numbers naturals (table.exec_first (sql_query (codes "price") (codes "prices"))).0)
    ≤ int_max
unfolding numbers int_max parse_number
short = omega arith

main-Ends_example :
    (o : Outcome naturals) × (main naturals table
        (codes "stats" ∷ codes "test.db" ∷ codes "prices" ∷ codes "price" ∷ [])
      ≡ some o)
    × Ends naturals 0 0 0
        (numbers naturals (table.exec_first (sql_query (codes "price") (codes "prices"))).0)
        (numbers naturals (table.exec_second (sql_query (codes "price") (codes "prices"))).0)
        o
main-Ends_example =
    main-Ends naturals table (codes "stats") (codes "test.db") (codes "prices") (codes "price")
      short
