-- ===== src/Stats.antt =====
-- HW15-DB/src/main.c: the average, extremes, sum and variance of a column of a database. The double
-- numbers of C and SQLite are parameters. `none` stands for a count beyond the range of int.
use otus_c.Prelude.{
  ltb, ◌==◌, if◌then◌else◌, length, take, ℕ, ◌+◌, ◌≡◌, Bool, true, false, ◌||◌, Option, none, some,
  List, [], ◌∷◌, ◌++◌,
}
use otus_c.Prelude.Text.{codes}
use otus_c.Prelude.Partial.{require, ◌>>◌, ◌>>=◌}
pub mod Least
pub mod Passes
pub mod Main

-- The numbers, with what IEEE 754 says of the order of those that are not NaN.
pub record Doubles : Type 1 where
  pub Double : Type 0
  pub zero_double : Double
  pub nan : Double
  pub isnan : Double → Bool
  pub greater : Double → Double → Bool
  pub plus : Double → Double → Double
  pub minus : Double → Double → Double
  pub times : Double → Double → Double
  pub divide : Double → ℕ → Double
  -- strtod: the value, and the text that is left at endptr.
  pub strtod : List ℕ → Double × List ℕ
  pub isnan-nan : isnan nan ≡ true
  pub greater_irrefl : (a : Double) → greater a a ≡ false
  pub greater_asymm : (a b : Double) → greater a b ≡ true → greater b a ≡ false
  pub greater_trans :
      (a b c : Double)
      → isnan b ≡ false
      → greater a b ≡ false
      → greater b c ≡ false
      → greater a c ≡ false

-- A row of the answer: its first column, NULL or a text, and the other columns.
pub record Row : Type 0 where
  pub first : Option (List ℕ)
  pub others : List (Option (List ℕ))

-- sqlite3_open, and the two calls of sqlite3_exec, each with the rows that it hands to its callback and
-- its result code. The table may change between the two.
pub record Sqlite : Type 0 where
  pub open_db : List ℕ → ℕ
  pub exec_first : List ℕ → List Row × ℕ
  pub exec_second : List ℕ → List Row × ℕ

unfoldable pub int_max : ℕ
int_max = 2147483647

-- snprintf into the 1024 bytes of each of the two queries.
pub sql_query : List ℕ → List ℕ → List ℕ
sql_query column_name table_name =
    take 1023 (codes "SELECT " ++ (column_name ++ (codes " FROM " ++ (table_name ++ codes ";"))))

module _ (d : Doubles) where
  unfoldable pub parse_number : Option (List ℕ) → d.Double
  parse_number none = d.nan
  parse_number (some str) =
      let (val, rest) = d.strtod str in
      if length rest == length str then d.nan else elim rest [ [] ↦ val | c ∷ cs ↦ d.nan ]

  pub record Statistics : Type 0 where
    pub count : ℕ
    pub sum : d.Double
    pub min_value : d.Double
    pub max_value : d.Double
    pub avg : d.Double
    pub variance : d.Double

  pub lower : d.Double → d.Double → d.Double
  lower m value = if d.isnan m || d.greater m value then value else m

  pub higher : d.Double → d.Double → d.Double
  higher m value = if d.isnan m || d.greater value m then value else m

  pub first_pass_callback : Row → Statistics → Option Statistics
  first_pass_callback row stats =
      let value = parse_number row.first in
      if d.isnan value
      then some stats
      else require (ltb stats.count int_max)
        >> some (record stats {
          count = stats.count + 1;
          sum = d.plus stats.sum value;
          min_value = lower stats.min_value value;
          max_value = higher stats.max_value value;
        })

  pub second_pass_callback : Row → Statistics → Statistics
  second_pass_callback row stats =
      let value = parse_number row.first in
      let diff = d.minus value stats.avg in
      if d.isnan value
      then stats
      else record stats { variance = d.plus stats.variance (d.times diff diff) }

  -- sqlite3_exec calls the callback for one row after the other, as it never stops them.
  pub first_pass : List Row → Statistics → Option Statistics
  first_pass [] stats = some stats
  first_pass (row ∷ rows) stats = first_pass_callback row stats >>= first_pass rows

  pub second_pass : List Row → Statistics → Statistics
  second_pass [] stats = stats
  second_pass (row ∷ rows) stats = second_pass rows (second_pass_callback row stats)

  pub initial : Statistics
  initial = record {
    count = 0;
    sum = d.zero_double;
    min_value = d.nan;
    max_value = d.nan;
    avg = d.zero_double;
    variance = d.zero_double;
  }

  -- How the program ends. Only `report` and `no_values` are a success.
  pub data Outcome : Type 0 where
    usage no_values : Outcome
    cannot_open first_error second_error : Outcome
    report : Statistics → Outcome

  pub handle_sqlite_error : ℕ → Outcome → Option Outcome → Option Outcome
  handle_sqlite_error rc failure next = if rc == 0 then next else some failure

  -- From the end of the second pass.
  pub finish : Sqlite → List ℕ → Statistics → Option Outcome
  finish db query stats =
      let (rows, rc) = db.exec_second query in
      let stats' = second_pass rows (record stats { avg = d.divide stats.sum stats.count }) in
      handle_sqlite_error rc second_error
        (some (report (record stats' { variance = d.divide stats'.variance stats'.count })))

  -- From the end of the first pass.
  pub continue : Sqlite → List ℕ → ℕ → Statistics → Option Outcome
  continue db query rc stats =
      handle_sqlite_error rc first_error
        (if stats.count == 0 then some no_values else finish db query stats)

  pub main : Sqlite → List (List ℕ) → Option Outcome
  main db (program ∷ db_filename ∷ table_name ∷ column_name ∷ []) =
      let query = sql_query column_name table_name in
      let (rows, rc) = db.exec_first query in
      handle_sqlite_error (db.open_db db_filename) cannot_open
        (first_pass rows initial >>= continue db query rc)
  main db argv = some usage
