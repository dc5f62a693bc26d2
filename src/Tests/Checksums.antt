-- ===== src/Tests/Checksums.antt =====
-- src/bjfile.c's CRC at concrete inputs.
use binjson_structures.Shared.{ℕ, ◌≡◌, ◌≢◌, refl, arith, List, [], ◌∷◌, ◌++◌}
use binjson_structures.Crc.{crc_round, crc_loop, crc32_update, complement}
use binjson_structures.Crc.Serial.{serial, crc32_update-serial}
use binjson_structures.Crc.Detect.{crc32_update-append, crc32_update-detects}

-- "123456789"
abbrev digits : List ℕ
digits = 0x31 ∷ 0x32 ∷ 0x33 ∷ 0x34 ∷ 0x35 ∷ 0x36 ∷ 0x37 ∷ 0x38 ∷ 0x39 ∷ []

check_value : crc32_update 0 digits ≡ 0xCBF43926
unfolding crc32_update crc_loop crc_round
check_value = refl

crc32_update-serial_example : crc32_update 7 digits ≡ complement (serial (complement 7) digits)
crc32_update-serial_example = crc32_update-serial 7 digits (omega arith)

crc32_update-append_example :
    crc32_update (crc32_update 7 digits) (1 ∷ []) ≡ crc32_update 7 (digits ++ (1 ∷ []))
crc32_update-append_example = crc32_update-append 7 digits (1 ∷ []) (omega arith)

crc32_update-detects_example :
    crc32_update 7 (digits ++ ((1 ∷ 2 ∷ []) ++ digits))
    ≢ crc32_update 7 (digits ++ ((3 ∷ 2 ∷ []) ++ digits))
crc32_update-detects_example =
    crc32_update-detects 7 digits (1 ∷ 2 ∷ []) (3 ∷ 2 ∷ []) digits (omega arith) (omega arith)
      (omega arith) (omega arith) (omega arith) refl (omega arith) (λ e. ground arith)
