-- ===== src/Nodes.antt =====
-- HW07-ASM/src/main.c: a linked list, its odd numbers, and what is printed. A node is not changed
-- after it is made, so a chain of nodes is a list, NULL the empty one.
use otus_c.Prelude.{
  ◌==◌, if◌then◌else◌, length, get_or, ℕ, zero, suc, ◌+◌, ◌%◌, Bool, List, [], ◌∷◌, ◌++◌,
}
use otus_c.Prelude.Int.{ℤ, pos, negsuc, zero_ℤ}
use otus_c.Prelude.Text.{show_int}
pub mod Output

pub add_element : ℤ → List ℤ → List ℤ
add_element value prev = value ∷ prev

-- value & 1, in two's complement.
pub odd : ℤ → Bool
odd (pos n) = n % 2 == 1
odd (negsuc n) = (n + 1) % 2 == 1

-- The text that print_list writes.
pub print_list : List ℤ → List ℕ
print_list [] = b'\n' ∷ []
print_list (value ∷ prev) = show_int value ++ (b' ' ∷ print_list prev)

pub filter_loop : List ℤ → List ℤ → List ℤ
filter_loop [] prev = prev
filter_loop (value ∷ cur) prev =
    filter_loop cur (if odd value then add_element value prev else prev)

pub filter_by_last_digit : List ℤ → List ℤ
filter_by_last_digit node = filter_loop node []

-- The loop of main from index i down to 1.
pub build_from : ℕ → List ℤ → List ℤ → List ℤ
build_from zero data_items prev = prev
build_from (suc i) data_items prev =
    build_from i data_items (add_element (get_or data_items i zero_ℤ) prev)

-- What main writes for the numbers in its array `data`.
pub main_output : List ℤ → List ℕ
main_output data_items =
    let prev = build_from (length data_items) data_items [] in
    print_list prev ++ print_list (filter_by_last_digit prev)
