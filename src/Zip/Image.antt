-- ===== src/Zip/Image.antt =====
-- The format of a zip archive without a comment, as its writers make it: what zip.c is meant to read.
use otus_c.Prelude.{length, All, ℕ, ◌+◌, ◌%◌, ◌^◌, ◌<◌, ◌≡◌, ◌⊎◌, List, [], ◌∷◌, ◌++◌}
use otus_c.Zip.LittleEndian.{le16, le32}

-- A member: the numbers of its headers, the texts behind them, and its data.
pub record Entry : Type 0 where
  pub made_by_ver : ℕ
  pub extract_ver : ℕ
  pub gp_flag : ℕ
  pub method : ℕ
  pub mod_time : ℕ
  pub mod_date : ℕ
  pub crc32 : ℕ
  pub uncomp_size : ℕ
  pub int_attrs : ℕ
  pub ext_attrs : ℕ
  pub name : List ℕ
  pub extra : List ℕ
  pub local_extra : List ℕ
  pub comment : List ℕ
  pub contents : List ℕ

-- The numbers fit their fields, the name has no zero byte, and the member is neither encrypted nor
-- compressed in another way than Deflate.
pub record IsEntry (e : Entry) : Type 0 where
  pub made_by_ver_fits : e.made_by_ver < 2 ^ 16
  pub extract_ver_fits : e.extract_ver < 2 ^ 16
  pub gp_flag_fits : e.gp_flag < 2 ^ 16
  pub mod_time_fits : e.mod_time < 2 ^ 16
  pub mod_date_fits : e.mod_date < 2 ^ 16
  pub crc32_fits : e.crc32 < 2 ^ 32
  pub uncomp_size_fits : e.uncomp_size < 2 ^ 32
  pub int_attrs_fits : e.int_attrs < 2 ^ 16
  pub ext_attrs_fits : e.ext_attrs < 2 ^ 32
  pub name_fits : length e.name < 2 ^ 16
  pub extra_fits : length e.extra < 2 ^ 16
  pub local_extra_fits : length e.local_extra < 2 ^ 16
  pub comment_fits : length e.comment < 2 ^ 16
  pub plain : e.gp_flag % 2 ≡ 0
  pub name_ok : All (λ b. 0 < b) e.name
  pub method_ok : ((e.method ≡ 0) × (e.uncomp_size ≡ length e.contents)) ⊎ (e.method ≡ 8)

unfoldable pub local_header : Entry → List ℕ
local_header e =
    le32 0x04034b50
    ++ (le16 e.extract_ver
        ++ (le16 e.gp_flag
            ++ (le16 e.method
                ++ (le16 e.mod_time
                    ++ (le16 e.mod_date
                        ++ (le32 e.crc32
                            ++ (le32 (length e.contents)
                                ++ (le32 e.uncomp_size
                                    ++ (le16 (length e.name) ++ le16 (length e.local_extra))))))))))

unfoldable pub local_entry : Entry → List ℕ
unfolding local_header
local_entry e = local_header e ++ (e.name ++ (e.local_extra ++ e.contents))

unfoldable pub locals : List Entry → List ℕ
locals [] = []
locals (e ∷ es) = local_entry e ++ locals es

-- The central header of a member whose local header stands at `at`.
unfoldable pub central_header : ℕ → Entry → List ℕ
central_header at e =
    le32 0x02014b50
    ++ (le16 e.made_by_ver
        ++ (le16 e.extract_ver
            ++ (le16 e.gp_flag
                ++ (le16 e.method
                    ++ (le16 e.mod_time
                        ++ (le16 e.mod_date
                            ++ (le32 e.crc32
                                ++ (le32 (length e.contents)
                                    ++ (le32 e.uncomp_size
                                        ++ (le16 (length e.name)
                                            ++ (le16 (length e.extra)
                                                ++ (le16 (length e.comment)
                                                    ++ (le16 0
                                                        ++ (le16 e.int_attrs
                                                            ++ (le32 e.ext_attrs
                                                            ++ le32 at)))))))))))))))

unfoldable pub central_entry : ℕ → Entry → List ℕ
unfolding central_header
central_entry at e = central_header at e ++ (e.name ++ (e.extra ++ e.comment))

unfoldable pub central : ℕ → List Entry → List ℕ
central at [] = []
central at (e ∷ es) = central_entry at e ++ central (at + length (local_entry e)) es

unfoldable pub end_record : ℕ → ℕ → ℕ → List ℕ
end_record entries cd_size cd_offset =
    le32 0x06054b50
    ++ (le16 0
        ++ (le16 0
            ++ (le16 entries ++ (le16 entries ++ (le32 cd_size ++ (le32 cd_offset ++ le16 0))))))

unfoldable pub archive : List Entry → List ℕ
archive es =
    locals es
    ++ (central 0 es ++ end_record (length es) (length (central 0 es)) (length (locals es)))
