-- ===== src/Stats/Passes.antt =====
-- The two passes of HW15-DB/src/main.c over the numbers of a column.
use otus_c.Prelude.{
  if◌then◌else◌, lt→ltb, Bool-cases, length, All, suc, ◌+◌, ◌≤◌, ◌<◌, ◌≡◌, refl, subst, ap, ◌∙◌,
  inl, inr, true, some, List, [], ◌∷◌, arith,
}
use otus_c.Stats.{
  Doubles, Row, Statistics, parse_number, first_pass_callback, second_pass_callback, first_pass,
  second_pass, lower, higher, int_max,
}
use otus_c.Stats.Least.{IsNumber, lowest, highest}

module _ (d : Doubles) where
  -- The numbers in the first column, without those that are not numbers.
  unfoldable pub numbers : List Row → List d.Double
  numbers [] = []
  numbers (row ∷ rows) =
      let value = parse_number d row.first in
      if d.isnan value then numbers rows else value ∷ numbers rows

  unfoldable pub total : d.Double → List d.Double → d.Double
  total acc [] = acc
  total acc (v ∷ vs) = total (d.plus acc v) vs

  -- The squares of the distances to `avg`, added up.
  unfoldable pub deviation : d.Double → d.Double → List d.Double → d.Double
  deviation avg acc [] = acc
  deviation avg acc (v ∷ vs) =
      deviation avg (d.plus acc (d.times (d.minus v avg) (d.minus v avg))) vs

  pub numbers-IsNumber : (rows : List Row) → All (IsNumber d) (numbers rows)
  unfolding numbers
  numbers-IsNumber [] = tt
  numbers-IsNumber (row ∷ rows) = elim (Bool-cases (d.isnan (parse_number d row.first))) [
    | inl e ↦ rw e (numbers-IsNumber rows)
    | inr e ↦ rw e (e, numbers-IsNumber rows)
  ]

  -- What the first pass makes of the statistics.
  unfoldable pub gather : List d.Double → Statistics d → Statistics d
  gather vs stats = record stats {
    count = stats.count + length vs;
    sum = total stats.sum vs;
    min_value = lowest d stats.min_value vs;
    max_value = highest d stats.max_value vs;
  }

  numbers-skip :
      (row : Row) (rows : List Row)
      → d.isnan (parse_number d row.first) ≡ true
      → numbers (row ∷ rows) ≡ numbers rows
  unfolding numbers
  numbers-skip row rows e = rw e

  numbers-keep :
      (row : Row) (rows : List Row)
      → IsNumber d (parse_number d row.first)
      → numbers (row ∷ rows) ≡ parse_number d row.first ∷ numbers rows
  unfolding numbers
  numbers-keep row rows e = rw e

  first_pass_callback-skip :
      (row : Row) (stats : Statistics d)
      → d.isnan (parse_number d row.first) ≡ true
      → first_pass_callback d row stats ≡ some stats
  unfolding first_pass_callback
  first_pass_callback-skip row stats e = rw e

  first_pass_callback-keep :
      (row : Row) (stats : Statistics d)
      → IsNumber d (parse_number d row.first)
      → stats.count < int_max
      → first_pass_callback d row stats ≡ some (gather (parse_number d row.first ∷ []) stats)
  unfolding first_pass_callback gather total lowest highest
  first_pass_callback-keep row stats e h = rw (e, lt→ltb _ _ h) refl

  gather-cons :
      (v : d.Double) (vs : List d.Double) (stats : Statistics d)
      → gather vs (gather (v ∷ []) stats) ≡ gather (v ∷ vs) stats
  unfolding gather total lowest highest
  gather-cons v vs stats =
      ap
        (λ n. record stats {
          count = n;
          sum = total (d.plus stats.sum v) vs;
          min_value = lowest d (lower d stats.min_value v) vs;
          max_value = highest d (higher d stats.max_value v) vs;
        })
        (omega arith)

  pub first_pass_lem :
      (rows : List Row) (stats : Statistics d)
      → stats.count + length (numbers rows) ≤ int_max
      → first_pass d rows stats ≡ some (gather (numbers rows) stats)
  unfolding first_pass
  first_pass_lem [] stats h =
      unfold numbers gather total lowest highest in
      ap (λ n. some (record stats { count = n })) (omega arith)
  first_pass_lem (row ∷ rows) stats h = elim (Bool-cases (d.isnan (parse_number d row.first))) [
    | inl e ↦
        let skip = numbers-skip row rows e in
        rw (skip, first_pass_callback-skip row stats e)
          (first_pass_lem rows stats (subst (λ vs. stats.count + length vs ≤ int_max) skip h))
    | inr e ↦
        let keep = numbers-keep row rows e in
        let v = parse_number d row.first in
        let room : stats.count + suc (length (numbers rows)) ≤ int_max =
          subst (λ vs. stats.count + length vs ≤ int_max) keep h in
        rw (keep, first_pass_callback-keep row stats e (omega arith))
          (first_pass_lem rows (gather (v ∷ []) stats) (unfold gather in omega arith)
            ∙ ap (λ s. some s) (gather-cons v (numbers rows) stats))
  ]

  pub second_pass_lem :
      (rows : List Row) (stats : Statistics d)
      → second_pass d rows stats
        ≡ record stats { variance = deviation stats.avg stats.variance (numbers rows) }
  unfolding second_pass numbers second_pass_callback deviation
  second_pass_lem [] stats = refl
  second_pass_lem (row ∷ rows) stats = elim (Bool-cases (d.isnan (parse_number d row.first))) [
    | inl e ↦ rw (e, second_pass_lem rows stats) refl
    | inr e ↦ rw (e, second_pass_lem rows _) refl
  ]
