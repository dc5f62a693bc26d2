-- ===== src/Entrylog/Record.antt =====
-- The records of src/entrylog.c: how they are built and parsed.
use Prim.Native.String.{String}
use Prim.Native.Char.{code}
use binjson_structures.Shared.{ℕ, zero, suc, Bool, true, false, List, [], ◌∷◌, ◌==◌, if◌then◌else◌}
use binjson_structures.Shared.Result.{Result, unknown_type}
use binjson_structures.Shared.State.{Action, ◌>>=◌, ◌>>◌, pure, check}
use binjson_structures.Wire.{Wire}
use binjson_structures.Cursor.{
  Cur, take_type, take_u32, take_span, take_key, object_begin, read_u64, read_int31, skip_value,
  name_eq, readers,
}

-- The bytes of a name.
abbrev pub codes : String → List ℕ
codes String.[] = []
codes (String.◌∷◌ c s) = code c ∷ codes s

-- What the builder of binjson is asked to write: a flat object of named values.
pub data Value : Type 0 where
  int : ℕ → Value
  binary : List ℕ → Value

-- `bj_builder_reset` to `bj_builder_data`, a parameter of the model.
abbrev pub Builder : Type 0
Builder = List (List ℕ × Value) → Result (List ℕ)

pub record ElMeta : Type 0 where
  pub last_index : ℕ
  pub last_term : ℕ
  pub current_term : ℕ
  pub voted_for : ℕ
  pub commit_index : ℕ
  pub n_ents : ℕ

unfoldable pub entry_fields : ℕ → ℕ → ℕ → List ℕ → List (List ℕ × Value)
entry_fields index term type payload =
    (codes "index", int index)
    ∷ (codes "term", int term)
    ∷ (codes "type", int type)
    ∷ (codes "payload", binary payload)
    ∷ []

unfoldable pub metadata_fields : ℕ → ℕ → ElMeta → List (List ℕ × Value)
metadata_fields base_index base_term m =
    (codes "baseIndex", int base_index)
    ∷ (codes "baseTerm", int base_term)
    ∷ (codes "lastIndex", int m.last_index)
    ∷ (codes "lastTerm", int m.last_term)
    ∷ (codes "currentTerm", int m.current_term)
    ∷ (codes "votedFor", int m.voted_for)
    ∷ (codes "commitIndex", int m.commit_index)
    ∷ []

-- `erec`
pub record Erec : Type 0 where
  pub is_entry : Bool
  pub is_metadata : Bool
  pub index : ℕ
  pub term : ℕ
  pub etype : ℕ
  pub payload : List ℕ
  pub base_index : ℕ
  pub base_term : ℕ
  pub last_index : ℕ
  pub last_term : ℕ
  pub current_term : ℕ
  pub voted_for : ℕ
  pub commit_index : ℕ

abbrev pub blank : Erec
blank = record {
  is_entry = false;
  is_metadata = false;
  index = 0;
  term = 0;
  etype = 0;
  payload = [];
  base_index = 0;
  base_term = 0;
  last_index = 0;
  last_term = 0;
  current_term = 0;
  voted_for = 0;
  commit_index = 0;
}

module _ (w : Wire) where
  unfoldable pub take_binary : Action Cur (List ℕ)
  unfolding readers
  take_binary = do
    t ← take_type
    check (t == w.type_binary) unknown_type
    len ← take_u32
    take_span len

  -- One field of a record, by its name.
  unfoldable pub parse_field : List ℕ → Erec → Action Cur Erec
  unfolding readers take_binary
  parse_field kn r =
      if name_eq kn (codes "index")
      then (do v ← read_u64 w; pure (record r { index = v }))
      else if name_eq kn (codes "term")
      then (do v ← read_u64 w; pure (record r { term = v }))
      else if name_eq kn (codes "type")
      then (do v ← read_int31 w; pure (record r { etype = v }))
      else if name_eq kn (codes "payload")
      then (do v ← take_binary; pure (record r { payload = v; is_entry = true }))
      else if name_eq kn (codes "baseIndex")
      then (do v ← read_u64 w; pure (record r { base_index = v }))
      else if name_eq kn (codes "baseTerm")
      then (do v ← read_u64 w; pure (record r { base_term = v }))
      else if name_eq kn (codes "lastIndex")
      then (do v ← read_u64 w; pure (record r { last_index = v }))
      else if name_eq kn (codes "lastTerm")
      then (do v ← read_u64 w; pure (record r { last_term = v }))
      else if name_eq kn (codes "currentTerm")
      then (do v ← read_u64 w; pure (record r { current_term = v; is_metadata = true }))
      else if name_eq kn (codes "votedFor")
      then (do v ← read_u64 w; pure (record r { voted_for = v }))
      else if name_eq kn (codes "commitIndex")
      then (do v ← read_u64 w; pure (record r { commit_index = v }))
      else (do skip_value w; pure r)

  -- The fields that are left.
  unfoldable pub parse_fields : ℕ → Erec → Action Cur Erec
  unfolding readers parse_field
  parse_fields zero r = pure r
  parse_fields (suc count) r = do kn ← take_key; r' ← parse_field kn r; parse_fields count r'

  unfoldable pub parse_record : List ℕ → Result Erec
  unfolding readers parse_fields
  parse_record rec =
      ((do count ← object_begin w; parse_fields count blank) (record { d = rec; pos = 0 })).0
