-- ===== src/Tests/Nodes.antt =====
-- A run of the list program.
use mathlib.Core.List.{reverse}
use otus_c.Prelude.{◌≡◌, List, [], ◌∷◌, ◌++◌}
use otus_c.Prelude.Int.{ℤ, pos}
use otus_c.Nodes.{main_output}
use otus_c.Nodes.Output.{line, odds, main_output_lem}

-- The array of the program.
abbrev numbers : List ℤ
numbers = pos 4 ∷ pos 8 ∷ pos 15 ∷ pos 16 ∷ pos 23 ∷ pos 42 ∷ []

main_output_lem_example : main_output numbers ≡ line numbers ++ line (reverse (odds numbers))
main_output_lem_example = main_output_lem numbers
