-- ===== src/Tests/Host.antt =====
-- A host that keeps its file in memory, and concrete values for the other parameters.
use binjson_structures.Shared.{
  ℕ, zero, suc, ◌+◌, ◌-◌, ◌^◌, ◌≤◌, ◌≡◌, refl, sym, ap, arith, true, none, some, List, [], ◌∷◌,
  ◌++◌, length, take, drop,
}
use binjson_structures.Shared.Result.{Result, ok, err, Err, eof}
use binjson_structures.Dbuf.Capacity.{Platform}
use binjson_structures.Wire.{Wire}
use binjson_structures.BjFile.Io.{Host, bytes_read}
use binjson_structures.BjFile.Pending.{FileHost}
use binjson_structures.Entrylog.State.{Env}

abbrev pub plat : Platform
plat = record { size_max = 2 ^ 32 - 1; can_alloc = λ n. true }

-- Every value is a type byte and one byte more.
abbrev pub wire : Wire
wire = record {
  type_null = 0;
  type_false = 1;
  type_true = 2;
  type_int = 3;
  type_float = 4;
  type_string = 5;
  type_binary = 6;
  type_date = 7;
  type_pointer = 8;
  type_array = 9;
  type_object = 10;
  value_size = λ d pos. ok 2;
}

abbrev pub overwrite : List ℕ → ℕ → List ℕ → List ℕ
overwrite c off b = take off c ++ (b ++ drop (off + length b) c)

abbrev pub memory : Host
memory = record {
  Ctx = List ℕ;
  size = λ c. length c;
  read = λ c off n. (bytes_read (take n (drop off c)), c);
  write = λ c off b. (ok tt, overwrite c off b);
  truncate = none;
  sync = none;
}

-- The same file on a medium that takes one byte of a write and then fails.
abbrev pub torn : Host
torn = record memory { write = λ c off b. (err eof, overwrite c off (take 1 b)) }

-- The same file with a `sync` that always fails.
abbrev pub failing : Host
failing = record memory { sync = some (λ c. (err eof, c)) }

pub written :
    (c c' w : List ℕ) → ◌≡◌ {A = Result (Unit {0}) × List ℕ} (ok tt, w) (ok tt, c') → c' ≡ w
written c c' w e = sym (ap (λ r. r.1) e)

pub not_failed :
    {P : Type 0} (c' w : List ℕ) (e : Err)
    → ◌≡◌ {A = Result (Unit {0}) × List ℕ} (ok tt, w) (err e, c')
    → P
not_failed c' w e h = cc (ap (λ r. r.0) h)

pub not_written :
    {P : Type 0} (c' w : List ℕ) → ◌≡◌ {A = Result (Unit {0}) × List ℕ} (err eof, w) (ok tt, c') → P
not_written c' w h = cc (ap (λ r. r.0) h)

take-overwrite : (off : ℕ) (c x : List ℕ) → off ≤ length c → take off (take off c ++ x) ≡ take off c
take-overwrite zero c x h = refl
take-overwrite (suc off) [] x h = absurd (omega arith)
take-overwrite (suc off) (y ∷ c) x h =
    ap (λ (r : List ℕ). y ∷ r) (take-overwrite off c x (omega arith))

pub torn_prefix :
    (c c' : List ℕ) (off : ℕ) (b : List ℕ) (e : Err)
    → off ≤ length c
    → torn.write c off b ≡ (err e, c')
    → take off c' ≡ take off c
torn_prefix c c' off b e h w = rw (← ap (λ r. r.1) w) (take-overwrite off c _ h)

abbrev pub memory_file : FileHost memory
memory_file = record {
  contents = λ c. c;
  write_ok = λ c c' off b h e. written c c' _ e;
  write_err = λ c c' off b x h e. not_failed c' _ x e;
}

abbrev pub failing_file : FileHost failing
failing_file = record {
  contents = λ c. c;
  write_ok = λ c c' off b h e. written c c' _ e;
  write_err = λ c c' off b x h e. not_failed c' _ x e;
}

abbrev pub torn_file : FileHost torn
torn_file = record {
  contents = λ c. c;
  write_ok = λ c c' off b h e. not_written c' _ e;
  write_err = λ c c' off b x h e. torn_prefix c c' off b x h e;
}

abbrev pub env : Env
env = record {
  host = memory;
  plat = plat;
  wire = wire;
  build = λ fields. ok (1 ∷ 2 ∷ []);
  build_array = λ objects. ok (3 ∷ 4 ∷ []);
  encode_header = λ type. ok (9 ∷ 9 ∷ []);
}
