-- ===== src/Snapstore.antt =====
-- src/snapstore.c: the names of a snapshot store's files, built and recognized.
pub mod Numbers
use Prim.Native.String.{String}
use binjson_structures.Shared.{
  ℕ, zero, suc, ◌+◌, ◌-◌, ◌*◌, ◌/◌, ◌%◌, ◌^◌, Bool, true, false, not, ◌&&◌, ◌||◌, Option, none,
  some, List, [], ◌∷◌, length, take, drop, get_or, ltb, leb, ◌==◌, if◌then◌else◌,
}
use binjson_structures.Shared.Result.{host}
use binjson_structures.Shared.State.{Action, ◌>>=◌, ◌>>◌, check, actions}
use binjson_structures.Dbuf.{Dbuf, dbuf_put}
use binjson_structures.Dbuf.Capacity.{Platform}
use binjson_structures.Cursor.{name_eq}
use binjson_structures.Entrylog.Record.{codes}

-- A letter, a digit, "_" or "-".
abbrev pub is_role_char : ℕ → Bool
is_role_char c =
    leb 65 c && leb c 90
    || (leb 97 c && leb c 122 || (leb 48 c && leb c 57 || (c == 95 || c == 45)))

unfoldable pub all_role_chars : List ℕ → Bool
all_role_chars [] = true
all_role_chars (c ∷ cs) = is_role_char c && all_role_chars cs

unfoldable pub role_is_wellformed : List ℕ → Bool
unfolding all_role_chars
role_is_wellformed role = not (length role == 0) && all_role_chars role

-- The decimal digits of `v` before `acc`, on fuel: 20 digits are enough for uint64_t.
unfoldable pub digits_from : ℕ → ℕ → List ℕ → List ℕ
digits_from zero v acc = acc
digits_from (suc n) v acc =
    let more = digits_from n (v / 10) ((48 + v % 10) ∷ acc) in
    if v / 10 == 0 then (48 + v % 10) ∷ acc else more

unfoldable pub u64_digits : ℕ → List ℕ
unfolding digits_from
u64_digits v = digits_from 20 v []

unfoldable pub parse_digits : ℕ → List ℕ → Option ℕ
parse_digits v [] = some v
parse_digits v (c ∷ cs) =
    let more = parse_digits (v * 10 + (c - 48)) cs in
    if ltb c 48 || ltb 57 c
    then none
    else if ltb ((2 ^ 64 - 1 - (c - 48)) / 10) v
    then none
    else more

unfoldable pub parse_u64 : List ℕ → Option ℕ
unfolding parse_digits
parse_u64 p =
    if length p == 0 || ltb 20 (length p)
    then none
    else if ltb 1 (length p) && get_or p 0 0 == 48
    then none
    else parse_digits 0 p

module _ (plat : Platform) where
  unfoldable pub put_u64 : ℕ → Action Dbuf Unit
  unfolding u64_digits dbuf_put
  put_u64 v = dbuf_put plat (u64_digits v)

  unfoldable pub put_cstr : String → Action Dbuf Unit
  unfolding dbuf_put
  put_cstr s = dbuf_put plat (codes s)

  unfoldable pub sst_manifest_name : List ℕ → ℕ → Action Dbuf Unit
  unfolding actions put_u64 put_cstr
  sst_manifest_name prefix gen = do
    dbuf_put plat prefix
    put_cstr "-"
    put_u64 gen
    put_cstr ".manifest.bj"

  -- SST_ERR_ROLE is the code -42.
  unfoldable pub sst_data_name : List ℕ → ℕ → List ℕ → Action Dbuf Unit
  unfolding actions role_is_wellformed put_u64 put_cstr
  sst_data_name prefix gen role = do
    check (role_is_wellformed role) (host 42)
    dbuf_put plat prefix
    put_cstr "-"
    put_u64 gen
    put_cstr "-"
    dbuf_put plat role
    put_cstr ".bj"

  unfoldable pub sst_log_name : List ℕ → ℕ → Action Dbuf Unit
  unfolding actions put_u64 put_cstr
  sst_log_name prefix gen = do dbuf_put plat prefix; put_cstr "-log-"; put_u64 gen; put_cstr ".bj"

-- `sst_kind`, with what `classify` writes for it.
pub data SstKind : Type 0 where
  other : SstKind
  manifest log_file : ℕ → SstKind
  data_file : ℕ → List ℕ → SstKind

-- The body before a suffix.
unfoldable pub body_of : List ℕ → List ℕ → Option (List ℕ)
unfolding name_eq
body_of p suffix =
    let n = length p - length suffix in
    if leb (length suffix) (length p) && name_eq (drop n p) suffix then some (take n p) else none

abbrev pub as_manifest : Option ℕ → SstKind
as_manifest none = other
as_manifest (some gen) = manifest gen

abbrev pub as_log : Option ℕ → SstKind
as_log none = other
as_log (some gen) = log_file gen

unfoldable pub as_data : List ℕ → Option ℕ → SstKind
unfolding role_is_wellformed
as_data role none = other
as_data role (some gen) = if role_is_wellformed role then data_file gen role else other

-- The first "-" splits the generation, here read so far, from the role.
unfoldable pub split_data : List ℕ → List ℕ → ℕ → SstKind
unfolding parse_u64 as_data
split_data body [] i = other
split_data body (c ∷ cs) i =
    let later = split_data body cs (i + 1) in
    if c == 45 then as_data (drop (i + 1) body) (parse_u64 (take i body)) else later

unfoldable pub classify_body : Option (List ℕ) → SstKind
unfolding name_eq parse_u64 split_data
classify_body none = other
classify_body (some body) =
    if ltb 4 (length body) && name_eq (take 4 body) (codes "log-")
    then as_log (parse_u64 (drop 4 body))
    else split_data body body 0

unfoldable pub classify_rest : List ℕ → Option (List ℕ) → SstKind
unfolding parse_u64 body_of classify_body
classify_rest p (some body) = as_manifest (parse_u64 body)
classify_rest p none = classify_body (body_of p (codes ".bj"))

unfoldable pub classify : List ℕ → List ℕ → SstKind
unfolding name_eq body_of classify_rest
classify prefix name =
    let p = drop (length prefix + 1) name in
    if leb (length name) (length prefix + 1)
    then other
    else if not (name_eq (take (length prefix) name) prefix && get_or name (length prefix) 0 == 45)
    then other
    else classify_rest p (body_of p (codes ".manifest.bj"))
