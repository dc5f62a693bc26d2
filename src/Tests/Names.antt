-- ===== src/Tests/Names.antt =====
-- src/snapstore.c's names.
use binjson_structures.Shared.{◌-◌, ◌^◌, ◌≡◌, refl, arith, some}
use binjson_structures.Cursor.{name_eq}
use binjson_structures.Entrylog.Record.{codes}
use binjson_structures.Snapstore.{
  classify, data_file, log_file, other, body_of, classify_rest, classify_body, split_data, as_data,
  parse_u64, parse_digits, role_is_wellformed, all_role_chars, u64_digits,
}
use binjson_structures.Snapstore.Numbers.{parse_u64-u64_digits}

a_data_file : classify (codes "snap") (codes "snap-12-btree.bj") ≡ data_file 12 (codes "btree")
unfolding classify body_of classify_rest classify_body split_data as_data parse_u64 parse_digits
    role_is_wellformed all_role_chars name_eq
a_data_file = refl

a_log : classify (codes "snap") (codes "snap-log-7.bj") ≡ log_file 7
unfolding classify body_of classify_rest classify_body split_data as_data parse_u64 parse_digits
    role_is_wellformed all_role_chars name_eq
a_log = refl

padded : classify (codes "snap") (codes "snap-07.manifest.bj") ≡ other
unfolding classify body_of classify_rest classify_body split_data as_data parse_u64 parse_digits
    role_is_wellformed all_role_chars name_eq
padded = refl

parse_u64-u64_digits_example : parse_u64 (u64_digits (2 ^ 64 - 1)) ≡ some (2 ^ 64 - 1)
parse_u64-u64_digits_example = parse_u64-u64_digits (2 ^ 64 - 1) (omega arith)
