-- ===== src/Crc.antt =====
-- The CRC-32 of src/bjfile.c: the table-driven loop over the bytes.
mod Table
pub mod Serial
pub mod Detect
use binjson_structures.Shared.{ℕ, ◌-◌, ◌/◌, ◌^◌, List, [], ◌∷◌, get_or}
use binjson_structures.Shared.Bits.{bit_xor, bit_and}
pub use Table.{crc_table}

-- `~crc` on uint32_t.
abbrev pub complement : ℕ → ℕ
complement crc = 2 ^ 32 - 1 - crc

-- `crc_table[(crc ^ *p++) & 0xffu] ^ (crc >> 8)`
unfoldable pub crc_round : ℕ → ℕ → ℕ
crc_round crc b = bit_xor (get_or crc_table (bit_and (bit_xor crc b) 0xff) 0) (crc / 256)

unfoldable pub crc_loop : ℕ → List ℕ → ℕ
crc_loop crc [] = crc
crc_loop crc (b ∷ p) = crc_loop (crc_round crc b) p

unfoldable pub crc32_update : ℕ → List ℕ → ℕ
crc32_update crc p = complement (crc_loop (complement crc) p)
