-- ===== src/Log/Order.antt =====
-- The order of select_top_n in HW10-LogParser/src/main.c: compare_by_value.

use otus_c.Prelude.{leb, ℕ, zero, suc, ◌-◌, ◌*◌, ◌^◌, ◌≡◌, ap, ◌∙◌, ◌↔◌, false, arith}
use otus_c.Prelude.Int.{sub_ℕ, wrap_int, to_int, ℤ, pos, negsuc, ◌+ℤ◌, ◌-ℤ◌, zero_ℤ, ◌≤ℤ◌}
use otus_c.Log.{HashEntry, compare_by_value}

to_int-fits : (d : ℤ) → (negsuc (2 ^ 31 - 1) ≤ℤ d) → (d ≤ℤ pos (2 ^ 31 - 1)) → to_int d ≡ d
unfolding to_int wrap_int
to_int-fits (pos n) lo hi = ground arith
to_int-fits (negsuc n) lo hi = ground arith

sub_signs : (b a : ℤ) → (((b -ℤ a) ≤ℤ zero_ℤ) ↔ (b ≤ℤ a)) × ((zero_ℤ ≤ℤ (b -ℤ a)) ↔ (a ≤ℤ b))
unfolding ◌-ℤ◌
sub_signs (pos b) (pos a) = (ground arith, ground arith)
sub_signs (pos b) (negsuc a) = (ground arith, ground arith)
sub_signs (negsuc b) (pos a) = (ground arith, ground arith)
sub_signs (negsuc b) (negsuc a) = (ground arith, ground arith)

sub_add : (v : ℤ) (k : ℕ) → (v +ℤ pos k) -ℤ v ≡ pos k
unfolding ◌-ℤ◌ ◌+ℤ◌
sub_add (pos v) k = ground arith
sub_add (negsuc v) k = ground arith

compare_by_value-wraps :
    (a : HashEntry) (n : ℕ)
    → compare_by_value a (record a { value = a.value +ℤ pos (2 ^ 32 * n) }) ≡ zero_ℤ
unfolding compare_by_value to_int wrap_int
compare_by_value-wraps a n = rw (sub_add a.value (2 ^ 32 * n)) (ground arith)

sub_back : (v : ℤ) (k : ℕ) → v -ℤ (v +ℤ pos k) ≡ sub_ℕ 0 k
unfolding ◌-ℤ◌ ◌+ℤ◌
sub_back (pos v) k = ground arith
sub_back (negsuc v) k = ground arith

to_int-multiple : (n : ℕ) → to_int (sub_ℕ 0 (2 ^ 32 * n)) ≡ zero_ℤ
unfolding to_int wrap_int
to_int-multiple zero = ground arith
to_int-multiple (suc n) =
    let less : leb (2 ^ 32 * suc n) 0 ≡ false = ground arith in rw less (ground arith)

-- The same with the larger value first.
compare_by_value-wraps_back :
    (a : HashEntry) (n : ℕ)
    → compare_by_value (record a { value = a.value +ℤ pos (2 ^ 32 * n) }) a ≡ zero_ℤ
unfolding compare_by_value
compare_by_value-wraps_back a n = ap to_int (sub_back a.value (2 ^ 32 * n)) ∙ to_int-multiple n

-- If the difference of two values, b less a, fits an int, compare_by_value has its sign: it orders
-- the entries by falling value. Values that differ by a multiple of 2 ^ 32 compare as equal, whichever of
-- the two is the larger.
pub compare_by_value_lem :
    (a b : HashEntry) (n : ℕ)
    → (negsuc (2 ^ 31 - 1) ≤ℤ (b.value -ℤ a.value))
    → ((b.value -ℤ a.value) ≤ℤ pos (2 ^ 31 - 1))
    → let larger = record a { value = a.value +ℤ pos (2 ^ 32 * n) } in
      ((compare_by_value a b ≤ℤ zero_ℤ) ↔ (b.value ≤ℤ a.value))
      × ((zero_ℤ ≤ℤ compare_by_value a b) ↔ (a.value ≤ℤ b.value))
      × (compare_by_value a larger ≡ zero_ℤ)
      × (compare_by_value larger a ≡ zero_ℤ)
compare_by_value_lem a b n lo hi =
    let (below, above) = signs in
    (below, above, compare_by_value-wraps a n, compare_by_value-wraps_back a n)
  where
    signs :
        ((compare_by_value a b ≤ℤ zero_ℤ) ↔ (b.value ≤ℤ a.value))
        × ((zero_ℤ ≤ℤ compare_by_value a b) ↔ (a.value ≤ℤ b.value))
    signs =
        unfold compare_by_value in
        rw (to_int-fits (b.value -ℤ a.value) lo hi) (sub_signs b.value a.value)
