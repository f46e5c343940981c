-- ===== src/Tests/Telehack.antt =====
-- A message in two reads, the second shorter than the first: the loop does not see the dot.
use otus_c.Prelude.{ℕ, ◌≡◌, refl, true, none, List, [], ◌∷◌}
use otus_c.Prelude.Text.{codes}
use otus_c.Telehack.{fill, last_of, shown}
use otus_c.Telehack.Reads.{texts, ends_with_dot}

abbrev two_reads : List (List ℕ)
two_reads = codes "abc" ∷ codes "d." ∷ []

-- What is printed, and that the loop waits.
printed : texts true [] two_reads ≡ (codes "abcd.c", none)
unfolding texts ends_with_dot fill last_of shown
printed = refl
