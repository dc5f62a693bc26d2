-- ===== src/Entrylog/Invariant/Push.antt =====
-- Appends in src/entrylog.c keep the table well formed, on every branch.
use native.Mathlib.Numerals.{add-one}
use binjson_structures.Shared.{
  ℕ, ◌+◌, ◌^◌, ◌≤◌, ◌<◌, ◌≡◌, refl, sym, arith, true, false, ◌||◌, List, [], ◌∷◌, ◌++◌, length,
  take, ltb, leb, ◌==◌, if◌then◌else◌, Bool-cases, inl, inr, ltb→lt, ◌*◌,
}
use binjson_structures.Shared.Words.{add64, sub64}
use binjson_structures.Shared.Result.{Result, ok, err, oom}
use binjson_structures.Shared.State.{bind_result}
use binjson_structures.Entrylog.Record.{ElMeta}
use binjson_structures.Entrylog.State.{
  double_ents, ElEnt, Env, Log, LogFile, store, ents_reserve, encode_entry,
}
use binjson_structures.Entrylog.Append.{
  is_negative_int, max_entries, appended, push_entry, elog_append,
}
use binjson_structures.Entrylog.Invariant.Table.{
  Ascending-snoc, tail_term-snoc, take-store, take-suc-store, length-store, IsConsistent, IsValid,
}

-- A number that a range test lets pass.
pub in_term : (a b c : ℕ) → (ltb a b || ltb c a) ≡ false → (b ≤ a) × (a ≤ c)
in_term a b c e = ground arith

module _ (env : Env) where
  -- The table after one more entry.
  store-IsConsistent :
      (base_index base_term : ℕ) (ents : List ElEnt) (i : ℕ) (e : ElEnt) (m : ElMeta)
      → m.n_ents ≤ i
      → i ≤ length ents
      → IsConsistent base_index base_term ents m
      → IsConsistent base_index base_term (store ents i e) m
  store-IsConsistent base_index base_term ents i e m h l c =
      let same = take-store m.n_ents ents i e h l in
      record {
        bounds = c.bounds;
        few = c.few;
        stored = (let s = c.stored in omega (arith, length-store ents i e l));
        ascending = rw same c.ascending;
        tail = rw same c.tail;
        reached = c.reached;
        commit_lo = c.commit_lo;
        commit_hi = c.commit_hi;
      }

  -- The metadata after one more entry.
  push-IsConsistent :
      (base_index base_term : ℕ) (ents : List ElEnt) (off term : ℕ) (m : ElMeta)
      → m.last_term ≤ term
      → term ≤ m.current_term
      → m.n_ents < 0x7fffffff
      → base_index + 2 ^ 32 < 2 ^ 64
      → IsConsistent base_index base_term ents m
      → IsConsistent base_index base_term
          (store ents m.n_ents (record { off = off; term = term }))
          (record m { n_ents = m.n_ents + 1; last_index = add64 m.last_index 1; last_term = term })
  push-IsConsistent base_index base_term ents off term m lo hi few wide c = record {
    bounds = (let b = c.bounds in omega arith);
    few = omega arith;
    stored = (let s = c.stored in omega (arith, length-store ents m.n_ents e s));
    ascending =
        rw taken (Ascending-snoc base_term (take m.n_ents ents) e c.ascending (rw (← c.tail) lo));
    tail = rw taken (sym (tail_term-snoc base_term (take m.n_ents ents) e));
    reached = hi;
    commit_lo = c.commit_lo;
    commit_hi = (let b = c.bounds in let k = c.commit_hi in omega arith);
  }
    where
      e : ElEnt
      e = record { off = off; term = term }

      taken : take (m.n_ents + 1) (store ents m.n_ents e) ≡ take m.n_ents ents ++ (e ∷ [])
      taken = rw add-one (take-suc-store ents m.n_ents e c.stored)

  appended-IsValid :
      (t : Log env) (term : ℕ) (r : Result ℕ × LogFile env)
      → t.m.last_term ≤ term
      → term ≤ t.m.current_term
      → t.m.n_ents < 0x7fffffff
      → IsValid t
      → IsValid (appended env (add64 t.m.last_index 1) term t r).1
  unfolding appended
  appended-IsValid t term (err e, f) lo hi few v = record {
    wide = v.wide;
    live = v.committed;
    committed = v.committed;
    ahead = omega arith;
    commit_ahead = omega arith;
    same_term = refl;
    same_vote = refl;
  }
  appended-IsValid t term (ok off, f) lo hi few v = record {
    wide = v.wide;
    live = push-IsConsistent t.base_index t.base_term t.ents off term t.m lo hi few v.wide v.live;
    committed =
        store-IsConsistent t.base_index t.base_term t.ents t.m.n_ents
          (record { off = off; term = term }) t.cm v.ahead v.live.stored v.committed;
    ahead = (let a = v.ahead in omega arith);
    commit_ahead = v.commit_ahead;
    same_term = v.same_term;
    same_vote = v.same_vote;
  }

  -- Reserving room changes the capacity alone.
  pub ents_reserve_lem :
      (need : ℕ) (t : Log env)
      → (r : Result (Unit {0})) × (n : ℕ) × (ents_reserve env need t
          ≡ (r, record t { cap_ents = n }))
  unfolding ents_reserve
  ents_reserve_lem need t = elim (Bool-cases (leb need t.cap_ents)) [
    | inl roomy ↦ (ok tt, t.cap_ents, rw roomy)
    | inr tight ↦
        let nc : ℕ = double_ents need (if t.cap_ents == 0 then 16 else t.cap_ents * 2) need in
        elim (Bool-cases (env.plat.can_alloc (nc * 16))) [
          | inl served ↦ (ok tt, nc, rw (tight, served))
          | inr refused ↦ (err oom, t.cap_ents, rw (tight, refused))
        ]
  ]

  recap-IsValid : (n : ℕ) (t : Log env) → IsValid t → IsValid (record t { cap_ents = n })
  recap-IsValid n t v = record {
    wide = v.wide;
    live = v.live;
    committed = v.committed;
    ahead = v.ahead;
    commit_ahead = v.commit_ahead;
    same_term = v.same_term;
    same_vote = v.same_vote;
  }

  -- The append once its guards have passed and room was asked for.
  after_reserve :
      (term type : ℕ) (payload : List ℕ) (t : Log env) (r : Result (Unit {0})) (n : ℕ)
      → t.m.last_term ≤ term
      → term ≤ t.m.current_term
      → t.m.n_ents < 0x7fffffff
      → IsValid t
      → IsValid
          (bind_result (r, record t { cap_ents = n }) (λ _. push_entry env term type payload)).1
  unfolding push_entry
  after_reserve term type payload t (err e) n lo hi few v = recap-IsValid n t v
  after_reserve term type payload t (ok u) n lo hi few v =
      appended-IsValid (record t { cap_ents = n }) term
        (encode_entry env (add64 t.m.last_index 1) term type payload t.f) lo hi few
        (recap-IsValid n t v)

  room_left :
      (t : Log env)
      → IsValid t
      → ltb (sub64 t.m.last_index t.base_index) max_entries ≡ true
      → t.m.n_ents < 0x7fffffff
  room_left t v e =
      let b = v.live.bounds in let w = v.wide in let f = v.live.few in omega (arith, ltb→lt _ _ e)

  pub elog_append-IsValid :
      (term type : ℕ) (payload : List ℕ) (t : Log env)
      → IsValid t
      → IsValid (elog_append env term type payload t).1
  unfolding elog_append
  elog_append-IsValid term type payload t v = elim (Bool-cases (is_negative_int type)) [
    | inl negative ↦ rw negative v
    | inr nonneg ↦ elim (Bool-cases (ltb term t.m.last_term || ltb t.m.current_term term)) [
      | inl refused ↦ rw (nonneg, refused) v
      | inr allowed ↦ elim (Bool-cases (ltb (sub64 t.m.last_index t.base_index) max_entries)) [
        | inr full ↦ rw (nonneg, allowed, full) v
        | inl room ↦
            let (r, n, e) = ents_reserve_lem (t.m.n_ents + 1) t in
            let (lo, hi) = in_term term t.m.last_term t.m.current_term allowed in
            rw (nonneg, allowed, room, e)
              (after_reserve term type payload t r n lo hi (room_left t v room) v)
      ]
    ]
  ]
