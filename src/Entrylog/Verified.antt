-- ===== src/Entrylog/Verified.antt =====
-- What a successful elog_verify of src/entrylog.c says of the log.
use native.Mathlib.Numerals.{add-one}
use binjson_structures.Shared.{
  ℕ, zero, suc, ◌+◌, ◌-◌, ◌≤◌, ◌<◌, ◌≡◌, refl, sym, ap, ◌∙◌, arith, true, List, [], ◌∷◌, length,
  take, drop, get_or, ltb, ◌==◌, Bool-cases, inl, inr, ==_iff, ltb-false→le,
}
use binjson_structures.Shared.Words.{sub64}
use binjson_structures.Shared.Result.{Result, Err, ok, err, verify, Result-cases, ok-injective}
use binjson_structures.Shared.State.{actions}
use binjson_structures.BjFile.Reading.{bjfile_read_record}
use binjson_structures.Entrylog.State.{ElEnt, Env, Log, LogFile}
use binjson_structures.Entrylog.Record.{Erec, parse_record}
use binjson_structures.Entrylog.Append.{no_entry}
use binjson_structures.Entrylog.Read.{
  read_entry, stored_record, with_file, verify_entries, elog_verify,
}
use binjson_structures.Entrylog.Invariant.Table.{Ascending, tail_term}

-- The terms of the `k` entries from `i` on rise from `prev` to `last`.
pub record Rises (ents : List ElEnt) (k i prev last : ℕ) : Type 0 where
  pub ascending : Ascending prev (take k (drop i ents))
  pub tail : last ≡ tail_term prev (take k (drop i ents))

drop-get :
    (i : ℕ) (ents : List ElEnt)
    → i < length ents
    → drop i ents ≡ get_or ents i no_entry ∷ drop (suc i) ents
drop-get i [] h = absurd (omega arith)
drop-get zero (e ∷ es) h = refl
drop-get (suc i) (e ∷ es) h = drop-get i es (omega arith)

Rises-suc :
    (ents : List ElEnt) (k i prev last : ℕ)
    → i < length ents
    → prev ≤ (get_or ents i no_entry).term
    → Rises ents k (suc i) (get_or ents i no_entry).term last
    → Rises ents (suc k) i prev last
Rises-suc ents k i prev last h le r =
    let split = drop-get i ents h in
    record { ascending = rw split (le, r.ascending); tail = rw split r.tail }

refused :
    {A S : Type 0} {x : Err} {a : A} {s s' : S} → ◌≡◌ {A = Result A × S} (err x, s) (ok a, s') → ⊥
refused e = cc (ap (λ q. q.0) e)

module _ (env : Env) where
  -- What `read_entry` found where the table says that entry `index` stands, by a read that starts from
  -- the file `f` and leaves `g`: an entry record that names this index.
  abbrev Readable : Log env → ℕ → LogFile env → LogFile env → Erec → Type 0
  Readable t index f g r =
      (rec : List ℕ) × (bjfile_read_record env.host env.plat env.wire
          (get_or t.ents (index - t.base_index - 1) no_entry).off f
        ≡ (ok rec, g))
      × (parse_record env.wire rec ≡ ok r)
      × (r.is_entry ≡ true)
      × (r.index ≡ index)

  -- The records of the `k` entries from place `i` on, read one after the other, from the file `f` to
  -- the file `g`: each is an entry with the index of its place and the term that the table has.
  abbrev Walked : Log env → ℕ → ℕ → LogFile env → LogFile env → Type 0
  Walked t zero i f g = f ≡ g
  Walked t (suc k) i f g =
      (r : Erec) × (f' : LogFile env) × Readable t (t.base_index + 1 + i) f f' r
      × (r.term ≡ (get_or t.ents i no_entry).term)
      × Walked t k (suc i) f' g

  -- The stored records agree with the table, from the first live entry to the last, and reading them
  -- changes only the file; the live entries ascend from the base term to the last term, which the
  -- current term has reached; the commit index is not behind the last one; the entries are as many as
  -- the indexes.
  pub record Sound (t u : Log env) : Type 0 where
    pub walked : Walked t t.m.n_ents 0 t.f u.f
    pub same : u ≡ record t { f = u.f }
    pub ascending : Ascending t.base_term (take t.m.n_ents t.ents)
    pub tail : t.m.last_term ≡ tail_term t.base_term (take t.m.n_ents t.ents)
    pub reached : t.m.last_term ≤ t.m.current_term
    pub commit_hi : t.m.commit_index ≤ t.m.last_index
    pub count : sub64 t.m.last_index t.base_index ≡ t.m.n_ents

  abbrev Answer : Log env → ℕ → LogFile env → Result Erec → Type 0
  Answer t index g (ok r) = Readable t index t.f g r
  Answer t index g (err e) = Unit

  -- Reading an entry changes the file's buffers alone.
  read_entry_lem :
      (index : ℕ) (t : Log env)
      → (r : Result Erec) × (f : LogFile env) × (read_entry env index t ≡ (r, record t { f = f }))
        × Answer t index f r
  unfolding read_entry stored_record with_file actions
  read_entry_lem index t =
      let g : LogFile env = (stored_record env index t).1.f in
      elim (Result-cases (stored_record env index t).0) [
        | inr (x, e) ↦ (err x, g, rw e refl, tt)
        | inl (rec, e) ↦ elim (Result-cases (parse_record env.wire rec)) [
          | inr (x, bad) ↦ (err x, g, rw (e, bad) refl, tt)
          | inl (r, good) ↦ elim (Bool-cases r.is_entry) [
            | inr other ↦ (err verify, g, rw (e, good, other) refl, tt)
            | inl entry ↦ elim (Bool-cases (r.index == index)) [
              | inr other ↦ (err verify, g, rw (e, good, entry, other) refl, tt)
              | inl at ↦ (
                ok r,
                g,
                rw (e, good, entry, at) refl,
                (rec, ap (λ q. (q, g)) e, good, entry, (==_iff _ _).0 at),
              )
            ]
          ]
        ]
      ]

  -- What the loop has found after `k` entries from place `i` on.
  record Checked (t u : Log env) (k i prev last : ℕ) : Type 0 where
    rises : Rises t.ents k i prev last
    walked : Walked t k i t.f u.f
    same : u ≡ record t { f = u.f }

  Checked-suc :
      (t u : Log env) (k i prev last : ℕ) (r : Erec) (f : LogFile env)
      → i < length t.ents
      → prev ≤ r.term
      → r.term ≡ (get_or t.ents i no_entry).term
      → Readable t (t.base_index + 1 + i) t.f f r
      → Checked (record t { f = f }) u k (suc i) r.term last
      → Checked t u (suc k) i prev last
  Checked-suc t u k i prev last r f h le term read c = record {
    rises = Rises-suc t.ents k i prev last h (rw (← term) le) (rw (← term) c.rises);
    walked = (r, f, read, term, c.walked);
    same = c.same;
  }

  verify_entries_lem :
      (k i prev last : ℕ) (t u : Log env)
      → i + k ≤ length t.ents
      → verify_entries env k i prev t ≡ (ok last, u)
      → Checked t u k i prev last
  unfolding verify_entries actions
  verify_entries_lem zero i prev last t u h e = record {
    rises = record { ascending = tt; tail = sym (ok-injective _ _ (ap (λ r. r.0) e)) };
    walked = ap (λ r. r.1.f) e;
    same = rw (← ap (λ r. r.1) e) refl;
  }
  verify_entries_lem (suc k) i prev last t u h e =
      let (r, f, same, found) = read_entry_lem (t.base_index + 1 + i) t in
      elim (Result-cases r) [
        | inr (x, bad) ↦ absurd (refused (rw (same, bad) at e))
        | inl (x, good) ↦
            let e1 = rw (same, good) at e in
            elim (Bool-cases (ltb x.term prev)) [
              | inl falls ↦ absurd (refused (rw falls at e1))
              | inr rises ↦
                  let e2 = rw rises at e1 in
                  elim (Bool-cases (x.term == (get_or t.ents i no_entry).term)) [
                    | inr other ↦ absurd (refused (rw other at e2))
                    | inl equal ↦
                        let e3 = rw (equal, add-one i) at e2 in
                        Checked-suc t u k i prev last x f (omega arith) (ltb-false→le _ _ rises)
                          ((==_iff _ _).0 equal) (rw good at found)
                          (verify_entries_lem k (suc i) x.term last (record t { f = f }) u
                            (omega arith) e3)
                  ]
            ]
      ]

  -- Where elog_verify accepts a log whose table holds all live entries: the records that it reads at
  -- the live entries' offsets, in turn, are entry records, each with the index and the term that the
  -- table gives it, and only the file has changed; the live entries' terms never fall from the base term on and end in the last term, the current term has reached it, the
  -- commit index is at most the last index, and there is one entry for each index of the log.
  pub elog_verify_lem :
      (t u : Log env) → t.m.n_ents ≤ length t.ents → elog_verify env t ≡ (ok tt, u) → Sound t u
  unfolding elog_verify actions
  elog_verify_lem t u stored e =
      let (r, t', run) : (r : Result ℕ) × (t' : Log env) × (verify_entries env t.m.n_ents 0
              t.base_term t
            ≡ (r, t')) =
        (
          (verify_entries env t.m.n_ents 0 t.base_term t).0,
          (verify_entries env t.m.n_ents 0 t.base_term t).1,
          refl,
        ) in
      elim (Result-cases r) [
        | inr (x, bad) ↦ absurd (refused (rw (run, bad) at e))
        | inl (last, good) ↦
            let checked =
              verify_entries_lem t.m.n_ents 0 t.base_term last t t' (omega arith)
                (rw good at run) in
            let e1 = rw (run, good) at e in
            elim (Bool-cases (t.m.last_term == last)) [
              | inr other ↦ absurd (refused (rw other at e1))
              | inl equal ↦
                  let e2 = rw equal at e1 in
                  elim (Bool-cases (ltb t.m.current_term t.m.last_term)) [
                    | inl behind ↦ absurd (refused (rw behind at e2))
                    | inr reached ↦
                        let e3 = rw reached at e2 in
                        elim (Bool-cases (ltb t.m.last_index t.m.commit_index)) [
                          | inl beyond ↦ absurd (refused (rw beyond at e3))
                          | inr within ↦
                              let e4 = rw within at e3 in
                              elim (Bool-cases (sub64 t.m.last_index t.base_index == t.m.n_ents)) [
                                | inr other ↦ absurd (refused (rw other at e4))
                                | inl count ↦
                                    let end : t' ≡ u = ap (λ q. q.1) (rw count at e4) in
                                    record {
                                      walked = rw (← end) checked.walked;
                                      same = rw (← end) checked.same;
                                      ascending = checked.rises.ascending;
                                      tail = (==_iff _ _).0 equal ∙ checked.rises.tail;
                                      reached = ltb-false→le _ _ reached;
                                      commit_hi = ltb-false→le _ _ within;
                                      count = (==_iff _ _).0 count;
                                    }
                              ]
                        ]
                  ]
            ]
      ]
