-- ===== src/Stats/Main.antt =====
-- HW15-DB/src/main.c from its arguments to what it prints.
use otus_c.Prelude.{
  ◌==◌, Bool-cases, suc_eq_zero, length, All, ℕ, ◌≤◌, ◌≡◌, refl, sym, subst, ap, ◌≢◌, ◌⊎◌, inl, inr,
  true, false, some, List, [], ◌∷◌, arith,
}
use otus_c.Stats.{
  Doubles, Sqlite, Statistics, Outcome, no_values, cannot_open, first_error, second_error, report,
  sql_query, main, finish, continue, handle_sqlite_error, initial, int_max, lower, higher,
}
use otus_c.Stats.Least.{IsNumber, IsLeast, IsGreatest, lowest, highest, lowest_lem, highest_lem}
use otus_c.Stats.Passes.{
  numbers, total, deviation, gather, first_pass_lem, second_pass_lem, numbers-IsNumber,
}

module _ (d : Doubles) where
  -- The statistics of the numbers of the first pass, with the deviation of those of the second.
  pub record Describes (s : Statistics d) (vs ws : List d.Double) : Type 0 where
    pub count_lem : s.count ≡ length vs
    pub sum_lem : s.sum ≡ total d d.zero_double vs
    pub min_lem : IsLeast d s.min_value vs
    pub max_lem : IsGreatest d s.max_value vs
    pub avg_lem : s.avg ≡ d.divide s.sum s.count
    pub variance_lem : s.variance ≡ d.divide (deviation d s.avg d.zero_double ws) s.count

  -- How a run ends, by what SQLite answers: the result codes of the three calls in their order, and the
  -- numbers of the first pass, which are looked at before the second one.
  pub data Ends (opened rc rc' : ℕ) (vs ws : List d.Double) : Outcome d → Type 0 where
    not_opened : (opened == 0) ≡ false → Ends opened rc rc' vs ws cannot_open
    first_failed : (opened == 0) ≡ true → (rc == 0) ≡ false → Ends opened rc rc' vs ws first_error
    nothing : (opened == 0) ≡ true → (rc == 0) ≡ true → vs ≡ [] → Ends opened rc rc' vs ws no_values
    second_failed :
        (opened == 0) ≡ true
        → (rc == 0) ≡ true
        → vs ≢ []
        → (rc' == 0) ≡ false
        → Ends opened rc rc' vs ws second_error
    reported :
        {s : Statistics d}
        → (opened == 0) ≡ true
        → (rc == 0) ≡ true
        → vs ≢ []
        → (rc' == 0) ≡ true
        → Describes s vs ws
        → Ends opened rc rc' vs ws (report s)

  -- The statistics of the report.
  result : List d.Double → List d.Double → Statistics d
  result vs ws =
      let first = gather d vs (initial d) in
      let avg = d.divide first.sum first.count in
      record first { avg = avg; variance = d.divide (deviation d avg d.zero_double ws) first.count }

  gather-count : (vs : List d.Double) → (gather d vs (initial d)).count ≡ length vs
  unfolding gather initial
  gather-count vs = omega arith

  -- The test on the count tells whether there is a number.
  gather-none :
      (vs : List d.Double)
      → ((vs ≡ []) × (((gather d vs (initial d)).count == 0) ≡ true))
        ⊎ ((vs ≢ []) × (((gather d vs (initial d)).count == 0) ≡ false))
  gather-none [] = inl (refl, rw (gather-count []))
  gather-none (v ∷ vs) = inr (λ e. cc, rw (gather-count (v ∷ vs)) (suc_eq_zero (length vs)))

  gather-IsLeast :
      (vs : List d.Double)
      → All (IsNumber d) vs
      → vs ≢ []
      → IsLeast d (gather d vs (initial d)).min_value vs
        × IsGreatest d (gather d vs (initial d)).max_value vs
  unfolding gather initial lowest highest
  gather-IsLeast [] ns some_value = absurd (some_value refl)
  gather-IsLeast (v ∷ vs) (n, ns) some_value =
      let low = ap (λ m. lowest d m vs) (first_low v) in
      let high = ap (λ m. highest d m vs) (first_high v) in
      (
        subst (λ m. IsLeast d m (v ∷ vs)) (sym low) (lowest_lem d v vs n ns),
        subst (λ m. IsGreatest d m (v ∷ vs)) (sym high) (highest_lem d v vs n ns),
      )
    where
      first_low : (v : d.Double) → lower d d.nan v ≡ v
      first_low v = unfold lower in rw d.isnan-nan

      first_high : (v : d.Double) → higher d d.nan v ≡ v
      first_high v = unfold higher in rw d.isnan-nan

  result-Describes :
      (vs ws : List d.Double) → All (IsNumber d) vs → vs ≢ [] → Describes (result vs ws) vs ws
  unfolding result
  result-Describes vs ws ns some_value =
      let (least, greatest) = gather-IsLeast vs ns some_value in
      record {
        count_lem = gather-count vs;
        sum_lem = unfold gather initial in refl;
        min_lem = least;
        max_lem = greatest;
        avg_lem = refl;
        variance_lem = refl;
      }

  finish_lem :
      (db : Sqlite) (query : List ℕ) (vs : List d.Double)
      → finish d db query (gather d vs (initial d))
        ≡ handle_sqlite_error d
            (db.exec_second query).1
            second_error
            (some (report (result vs (numbers d (db.exec_second query).0))))
  unfolding finish result
  finish_lem db query vs = rw (second_pass_lem d) (unfold gather initial in refl)

  -- From the end of the first pass of a database that was opened.
  continue_lem :
      (db : Sqlite) (query : List ℕ) (opened rc : ℕ) (vs : List d.Double)
      → (opened == 0) ≡ true
      → All (IsNumber d) vs
      → (o : Outcome d) × (continue d db query rc (gather d vs (initial d)) ≡ some o)
        × Ends opened rc (db.exec_second query).1 vs (numbers d (db.exec_second query).0) o
  unfolding continue handle_sqlite_error
  continue_lem db query opened rc vs is_open ns = elim (Bool-cases (rc == 0)) [
    | inr e ↦ (first_error, rw e refl, first_failed is_open e)
    | inl e ↦ elim (gather-none vs) [
      | inl (empty, test) ↦ (no_values, rw (e, test) refl, nothing is_open e empty)
      | inr (some_value, test) ↦ elim (Bool-cases ((db.exec_second query).1 == 0)) [
        | inr e' ↦ (
          second_error,
          rw (e, test, finish_lem db query vs, e') refl,
          second_failed is_open e some_value e',
        )
        | inl e' ↦ (
          report (result vs (numbers d (db.exec_second query).0)),
          rw (e, test, finish_lem db query vs, e') refl,
          reported is_open e some_value e' (result-Describes vs _ ns some_value),
        )
      ]
    ]
  ]

  -- Given the names of a database, a table and a column with no more numbers than an int can count, the
  -- program ends, and how it ends follows from what SQLite answers: the first call that fails is named;
  -- a column without numbers is said to have none; else the report has the sum of the column's numbers,
  -- one that is least and one that is greatest among them, their average, and the squares of the
  -- distances from the average, added up over the second answer and divided by the count.
  pub main-Ends :
      (db : Sqlite) (program db_filename table_name column_name : List ℕ)
      → let query = sql_query column_name table_name in
        length (numbers d (db.exec_first query).0) ≤ int_max
        → (o : Outcome d) × (main d db (program ∷ db_filename ∷ table_name ∷ column_name ∷ [])
            ≡ some o)
          × Ends
              (db.open_db db_filename)
              (db.exec_first query).1
              (db.exec_second query).1
              (numbers d (db.exec_first query).0)
              (numbers d (db.exec_second query).0)
              o
  unfolding main handle_sqlite_error
  main-Ends db program db_filename table_name column_name h =
      let query = sql_query column_name table_name in
      let rows = (db.exec_first query).0 in
      let passed = first_pass_lem d rows (initial d) (unfold initial in omega arith) in
      elim (Bool-cases (db.open_db db_filename == 0)) [
        | inr e ↦ (cannot_open, rw e refl, not_opened e)
        | inl e ↦
            let (o, ran, ends) =
              continue_lem db query _ (db.exec_first query).1 _ e (numbers-IsNumber d rows) in
            (o, rw (e, passed) ran, ends)
      ]
