-- ===== src/Nodes/Output.antt =====
-- What HW07-ASM/src/main.c prints.
use otus_c.Prelude.{
  ◌==◌, if◌then◌else◌, Bool-cases, length, get_or, take, gather, ℕ, zero, suc, ◌%◌, ◌≤◌, ◌≡◌, refl,
  sym, ap, ap₂, ◌∙◌, inl, inr, Bool, false, not, List, [], ◌∷◌, ◌++◌, append_assoc, append-nil,
  arith,
}
use mathlib.Core.List.{reverse, reverse-cons}
use otus_c.Prelude.Int.{ℤ, pos, negsuc, zero_ℤ}
use otus_c.Prelude.Text.{codes, show_int}
use otus_c.Nodes.{
  add_element, odd, print_list, filter_loop, filter_by_last_digit, build_from, main_output,
}

-- The parity of a number, by counting.
pub odd_count : ℕ → Bool
odd_count zero = false
odd_count (suc n) = not (odd_count n)

pub is_odd : ℤ → Bool
is_odd (pos n) = odd_count n
is_odd (negsuc n) = not (odd_count n)

-- The odd numbers of a list, in its order.
pub odds : List ℤ → List ℤ
odds [] = []
odds (x ∷ xs) = let rest = odds xs in if is_odd x then x ∷ rest else rest

odd_count_lem : (n : ℕ) → (n % 2 == 1) ≡ odd_count n
unfolding odd_count
odd_count_lem zero = refl
odd_count_lem (suc n) = elim (Bool-cases (n % 2 == 1)) [
  | inl e ↦ rw (sym (odd_count_lem n), e) (ground arith)
  | inr e ↦ rw (sym (odd_count_lem n), e) (ground arith)
]

odd-is_odd : (x : ℤ) → odd x ≡ is_odd x
unfolding odd is_odd
odd-is_odd (pos n) = odd_count_lem n
odd-is_odd (negsuc n) =
    ap (λ m. m % 2 == 1) (omega arith) ∙ odd_count_lem (suc n) ∙ unfold odd_count in refl

-- The numbers in decimal, with a space behind each, and the end of the line.
abbrev pub line : List ℤ → List ℕ
line xs = gather (λ x. show_int x ++ codes " ") xs ++ codes "\n"

print_list_lem : (xs : List ℤ) → print_list xs ≡ line xs
unfolding print_list
print_list_lem [] = refl
print_list_lem (x ∷ xs) =
    ap (λ r. show_int x ++ (b' ' ∷ r)) (print_list_lem xs)
    ∙ sym (append_assoc (show_int x) (b' ' ∷ gather (λ y. show_int y ++ codes " ") xs) (codes "\n"))
    ∙ ap (λ r. r ++ codes "\n")
        (sym (append_assoc (show_int x) (codes " ") (gather (λ y. show_int y ++ codes " ") xs)))

filter_loop_lem : (xs prev : List ℤ) → filter_loop xs prev ≡ reverse (odds xs) ++ prev
unfolding filter_loop odds add_element
filter_loop_lem [] prev = refl
filter_loop_lem (x ∷ xs) prev = elim (Bool-cases (is_odd x)) [
  | inl yes_odd ↦
      rw (odd-is_odd x, yes_odd, reverse-cons x (odds xs))
        (filter_loop_lem xs (x ∷ prev) ∙ sym (append_assoc (reverse (odds xs)) (x ∷ []) prev))
  | inr even ↦ rw (odd-is_odd x, even) (filter_loop_lem xs prev)
]

build_from_lem :
    (i : ℕ) (xs prev : List ℤ) → i ≤ length xs → build_from i xs prev ≡ take i xs ++ prev
unfolding build_from add_element
build_from_lem zero xs prev h = refl
build_from_lem (suc i) xs prev h =
    build_from_lem i xs (get_or xs i zero_ℤ ∷ prev) (omega arith) ∙ one_more i xs prev h
  where
    one_more :
        (i : ℕ) (xs prev : List ℤ)
        → suc i ≤ length xs
        → take i xs ++ (get_or xs i zero_ℤ ∷ prev) ≡ take (suc i) xs ++ prev
    one_more i [] prev h = absurd (omega arith)
    one_more zero (x ∷ xs) prev h = refl
    one_more (suc i) (x ∷ xs) prev h = ap (λ r. x ∷ r) (one_more i xs prev (omega arith))

take-whole : (xs : List ℤ) → take (length xs) xs ≡ xs
take-whole [] = refl
take-whole (x ∷ xs) = ap (λ r. x ∷ r) (take-whole xs)

-- For any numbers in its array main prints them in order on one line, in decimal with a space behind each,
-- and on the next one in the same way the odd ones in the reverse order.
pub main_output_lem :
    (data_items : List ℤ)
    → main_output data_items ≡ line data_items ++ line (reverse (odds data_items))
unfolding main_output filter_by_last_digit
main_output_lem xs =
    let built : build_from (length xs) xs [] ≡ xs =
      build_from_lem (length xs) xs [] (omega arith) ∙ append-nil _ ∙ take-whole xs in
    ap (λ l. print_list l ++ print_list (filter_loop l [])) built
    ∙ ap (λ l. print_list xs ++ print_list l) (filter_loop_lem xs [] ∙ append-nil _)
    ∙ ap₂ (λ a b. a ++ b) (print_list_lem xs) (print_list_lem (reverse (odds xs)))
