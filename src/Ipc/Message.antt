-- ===== src/Ipc/Message.antt =====
-- The messages of HW08-IPC/src/server.h and the 1024 bytes that they have.
use otus_c.Prelude.{
  ltb, if◌then◌else◌, lt→ltb, Bool-cases, length, length-append, ℕ, zero, suc, ◌+◌, ◌-◌, ◌*◌, ◌/◌,
  ◌%◌, ◌^◌, ◌≤◌, ◌<◌, ◌≡◌, refl, inl, inr, Bool, true, false, none, some, List, [], ◌∷◌, ◌++◌,
  arith,
}
use otus_c.Prelude.Int.{pos, negsuc, to_int, wrap_int}
use otus_c.Prelude.Text.{codes, show_int, show_nat, digits_onto}
use otus_c.Ipc.{
  FileState, get_file_size, get_file_size_as_string, get_file_not_exists_message, get_responce,
}

-- 10 ^ k.
ten_pow : ℕ → ℕ
ten_pow zero = 1
ten_pow (suc k) = 10 * ten_pow k

length-digits_onto :
    (fuel k n : ℕ) (rest : List ℕ)
    → n < ten_pow k
    → 0 < k
    → length (digits_onto fuel n rest) ≤ k + length rest
unfolding digits_onto ten_pow
length-digits_onto zero k n rest h p = omega arith
length-digits_onto (suc fuel) zero n rest h p = absurd (omega arith)
length-digits_onto (suc fuel) (suc zero) n rest h p =
    let e : ltb n 10 ≡ true = ground arith in rw e (omega arith)
length-digits_onto (suc fuel) (suc (suc k)) n rest h p = elim (Bool-cases (ltb n 10)) [
  | inl e ↦ rw e (omega arith)
  | inr e ↦ rw e (
      omega (
        arith,
        length-digits_onto fuel (suc k) (n / 10) ((b'0' + n % 10) ∷ rest) (omega arith)
            (omega arith),
      ))
]

length-show_nat : (n : ℕ) → n < 2 ^ 32 → length (show_nat n) ≤ 10
unfolding show_nat
length-show_nat n h =
    omega (arith, length-digits_onto (suc n) 10 n [] (omega (arith, ten_pow_ten)) (omega arith))
  where
    ten_pow_ten : ten_pow 10 ≡ 10000000000
    ten_pow_ten = unfold ten_pow in refl

length-pos : (n : ℕ) → n < 2 ^ 32 → length (show_int (pos n)) ≤ 11
unfolding show_int
length-pos n h = omega (arith, length-show_nat n h)

length-negsuc : (n : ℕ) → n + 1 < 2 ^ 32 → length (show_int (negsuc n)) ≤ 11
unfolding show_int
length-negsuc n h = omega (arith, length-show_nat (suc n) (omega arith))

length-wrap_int : (n : ℕ) → n < 2 ^ 32 → length (show_int (wrap_int n)) ≤ 11
unfolding wrap_int
length-wrap_int n h = elim (Bool-cases (ltb n (2 ^ 31))) [
  | inl e ↦ rw e (length-pos n h)
  | inr e ↦ rw e (length-negsuc (2 ^ 32 - 1 - n) (ground arith))
]

length-get_file_size : (file : FileState) → length (show_int (get_file_size file)) ≤ 11
unfolding get_file_size to_int
length-get_file_size file = length-wrap_int (file.st_size % 2 ^ 32) (omega arith)

-- The text of a response, whatever its length.
unfoldable pub message_of : List ℕ → FileState → List ℕ
message_of path file =
    if file.exists then get_file_size_as_string path file else get_file_not_exists_message path

length-message_size :
    (path : List ℕ) (file : FileState)
    → length (get_file_size_as_string path file)
      ≡ length path + length (show_int (get_file_size file)) + 11
unfolding get_file_size_as_string
length-message_size path file = omega (
  arith,
  length-append path (codes ": " ++ (show_int (get_file_size file) ++ codes "\n")),
  length-append (show_int (get_file_size file)) (codes "\n"),
)

length-message_missing :
    (path : List ℕ) → length (get_file_not_exists_message path) ≡ length path + 17
unfolding get_file_not_exists_message
length-message_missing path = omega (arith, length-append path (codes " not exists\n"))

responce-fits :
    (path : List ℕ) (file : FileState)
    → length (message_of path file) < 1024
    → get_responce path file ≡ some (message_of path file)
unfolding get_responce message_of
responce-fits path file h = rw (lt→ltb (length (message_of path file)) 1024 h)

responce-overflows :
    (path : List ℕ) (file : FileState)
    → 1024 ≤ length (message_of path file)
    → get_responce path file ≡ none
unfolding get_responce message_of
responce-overflows path file h =
    let e : ltb (length (message_of path file)) 1024 ≡ false = ground arith in rw e

length-message_of :
    (path : List ℕ) (file : FileState) → length (message_of path file) ≤ length path + 22
unfolding message_of
length-message_of path file = bound file.exists
  where
    bound :
        (b : Bool)
        → length (if b then get_file_size_as_string path file else get_file_not_exists_message path)
          ≤ length path + 22
    bound true = omega (arith, length-message_size path file, length-get_file_size file)
    bound false = omega (arith, length-message_missing path)

-- For a path of at most 1001 characters get_responce writes the whole message for any state of the
-- file; for one of 1007 or more it writes behind its buffer if the file does not exist.
pub get_responce_lem :
    (path : List ℕ) (file : FileState)
    → (length path ≤ 1001 → get_responce path file ≡ some (message_of path file))
      × (1007 ≤ length path → file.exists ≡ false → get_responce path file ≡ none)
unfolding message_of
get_responce_lem path file = (
  λ short. responce-fits path file (omega (arith, length-message_of path file)),
  λ long none_there.
      responce-overflows path file (rw none_there (omega (arith, length-message_missing path))),
)
