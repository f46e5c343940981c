-- ===== src/Tests/Crc.antt =====
-- Runs of the theorems on CRC-32.
use Prim.Native.Nat.{bit_xor}
use otus_c.Prelude.{All, ℕ, ◌<◌, ◌≡◌, refl, true, some, List, arith}
use otus_c.Prelude.Text.{codes}
use otus_c.Crc.{crc32, get_crc32}
use otus_c.Crc.Table.{crc32_bitwise, crc32-bitwise}
use otus_c.Crc.File.{get_crc32_lem}

abbrev digits_text : List ℕ
digits_text = codes "123456789"

digits_text-bytes : All (λ p. p < 256) digits_text
digits_text-bytes = (
  omega arith,
  (
    omega arith,
    (
      omega arith,
      (omega arith, (omega arith, (omega arith, (omega arith, (omega arith, (omega arith, tt)))))),
    ),
  ),
)

crc32-bitwise_example : crc32 0xFFFFFFFF digits_text ≡ crc32_bitwise 0xFFFFFFFF digits_text
crc32-bitwise_example = crc32-bitwise 0xFFFFFFFF digits_text digits_text-bytes

get_crc32_lem_example :
    get_crc32 (λ o. true) (some digits_text)
    ≡ bit_xor (crc32_bitwise 0xFFFFFFFF digits_text) 0xFFFFFFFF
get_crc32_lem_example = get_crc32_lem (λ o. true) digits_text (λ o. refl) digits_text-bytes
