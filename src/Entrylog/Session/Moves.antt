-- ===== src/Entrylog/Session/Moves.antt =====
-- What no call of src/entrylog.c undoes: the term, the vote within a term, the entries up to the
-- committed commit index.
use binjson_structures.Shared.{
  ℕ, ◌+◌, ◌-◌, ◌≤◌, ◌≡◌, ◌≢◌, refl, sym, ap, ◌∙◌, arith, true, not, ◌||◌, List, length, take, ltb,
  leb, ◌==◌, Bool-cases, inl, inr, take-take,
}
use binjson_structures.Shared.Words.{add64, sub64}
use binjson_structures.Shared.Result.{Result, ok, err, Result-cases}
use binjson_structures.Shared.State.{bind_result}
use binjson_structures.Entrylog.Record.{ElMeta}
use binjson_structures.Entrylog.State.{
  Elog, Env, Log, LogFile, encode_entry, commit_state, settle, write_state,
}
use binjson_structures.Entrylog.Append.{
  is_negative_int, max_entries, appended, push_entry, elog_append, elog_sync, next_hard,
  elog_set_hard_state, elog_set_commit_index, cut, elog_truncate_from,
}
use binjson_structures.Entrylog.Invariant.Table.{IsValid, take-store}
use binjson_structures.Entrylog.Invariant.Push.{ents_reserve_lem}

-- The term does not fall, and a vote cast in a term stays.
pub record Keeps (a b : ElMeta) : Type 0 where
  pub term : a.current_term ≤ b.current_term
  pub vote : b.current_term ≡ a.current_term → a.voted_for ≢ 0 → b.voted_for ≡ a.voted_for

pub Keeps-refl : (a : ElMeta) → Keeps a a
Keeps-refl a = record { term = omega arith; vote = λ e h. refl }

pub Keeps-trans : {a b c : ElMeta} → Keeps a b → Keeps b c → Keeps a c
Keeps-trans {a} {b} {c} f g = record {
  term = omega arith;
  vote = λ e h.
      let middle : b.current_term ≡ a.current_term =
        (let p = f.term in let q = g.term in omega arith) in
      let last : c.current_term ≡ b.current_term =
        (let p = f.term in let q = g.term in omega arith) in
      let cast = f.vote middle h in g.vote last (rw cast h) ∙ cast;
}

Keeps-same :
    (a b : ElMeta) → b.current_term ≡ a.current_term → b.voted_for ≡ a.voted_for → Keeps a b
Keeps-same a b p q = record { term = omega arith; vote = λ e h. q }

pub record Moves {Ctx : Type 0} (t u : Elog Ctx) : Type 0 where
  pub base_index : u.base_index ≡ t.base_index
  pub base_term : u.base_term ≡ t.base_term
  pub hard : Keeps t.m u.m
  pub commit : t.cm.commit_index ≤ u.cm.commit_index
  pub prefix :
      take (t.cm.commit_index - t.base_index) u.ents
      ≡ take (t.cm.commit_index - t.base_index) t.ents

pub Moves-refl : {Ctx : Type 0} (t : Elog Ctx) → Moves t t
Moves-refl t = record {
  base_index = refl;
  base_term = refl;
  hard = Keeps-refl t.m;
  commit = omega arith;
  prefix = refl;
}

take_shorter :
    {A : Type 0} (k n : ℕ) (xs ys : List A) → k ≤ n → take n xs ≡ take n ys → take k xs ≡ take k ys
take_shorter k n xs ys h e = sym (take-take k n xs h) ∙ ap (take k) e ∙ take-take k n ys h

pub Moves-trans : {Ctx : Type 0} {t u v : Elog Ctx} → Moves t u → Moves u v → Moves t v
Moves-trans {t} {u} {v} f g = record {
  base_index = g.base_index ∙ f.base_index;
  base_term = g.base_term ∙ f.base_term;
  hard = Keeps-trans f.hard g.hard;
  commit = (let a = f.commit in let b = g.commit in omega arith);
  prefix =
      (let a = f.commit in
        let b = f.base_index in
        take_shorter (t.cm.commit_index - t.base_index) (u.cm.commit_index - u.base_index) v.ents
          u.ents (omega arith) g.prefix
        ∙ f.prefix);
}

module _ (env : Env) where
  -- A commit of `m` in place of the live metadata.
  settle-Moves :
      (t : Log env) (m : ElMeta) (r : Result (Unit {0}) × LogFile env)
      → IsValid t
      → Keeps t.m m
      → t.cm.commit_index ≤ m.commit_index
      → Moves t (settle env (record t { m = m }) r).1
  unfolding settle
  settle-Moves t m (ok u, f) v k c = record {
    base_index = refl;
    base_term = refl;
    hard = k;
    commit = c;
    prefix = refl;
  }
  settle-Moves t m (err e, f) v k c = record {
    base_index = refl;
    base_term = refl;
    hard = Keeps-same t.m t.cm (sym v.same_term) (sym v.same_vote);
    commit = omega arith;
    prefix = refl;
  }

  commit_state-Moves :
      (t : Log env) (m : ElMeta)
      → IsValid t
      → Keeps t.m m
      → t.cm.commit_index ≤ m.commit_index
      → Moves t (commit_state env true (record t { m = m })).1
  unfolding commit_state
  commit_state-Moves t m v k c =
      settle-Moves t m (write_state env true t.base_index t.base_term m t.f) v k c

  pub elog_sync-Moves : (t : Log env) → IsValid t → Moves t (elog_sync env t).1
  unfolding elog_sync
  elog_sync-Moves t v = commit_state-Moves t t.m v (Keeps-refl t.m) v.commit_ahead

  pub elog_truncate_from-Moves :
      (index : ℕ) (t : Log env) → IsValid t → Moves t (elog_truncate_from env index t).1
  unfolding elog_truncate_from
  elog_truncate_from-Moves index t v =
      elim (Bool-cases (leb index t.base_index || ltb (add64 t.m.last_index 1) index)) [
        | inl outside ↦ rw outside (Moves-refl t)
        | inr inside ↦ elim (Bool-cases (not (length t.f.wb == 0))) [
          | inl pending ↦ rw (inside, pending) (Moves-refl t)
          | inr clean ↦ elim (Bool-cases (index == add64 t.m.last_index 1)) [
            | inl at_end ↦ rw (inside, clean, at_end) (Moves-refl t)
            | inr within ↦ elim (Bool-cases (leb index t.m.commit_index)) [
              | inl committed ↦ rw (inside, clean, within, committed) (Moves-refl t)
              | inr free ↦
                  rw (inside, clean, within, free)
                    (commit_state-Moves t (cut env index t) v (cut-Keeps index t)
                      (cut-commit index t v.commit_ahead))
            ]
          ]
        ]
      ]
    where
      cut-Keeps : (index : ℕ) (t : Log env) → Keeps t.m (cut env index t)
      cut-Keeps index t = unfold cut in Keeps-same t.m _ refl refl

      cut-commit :
          (index : ℕ) (t : Log env)
          → t.cm.commit_index ≤ t.m.commit_index
          → t.cm.commit_index ≤ (cut env index t).commit_index
      cut-commit index t h = unfold cut in h

  -- A call that changes the live metadata in neither hard state nor anything that is committed.
  staged-Moves :
      (t : Log env) (m : ElMeta) (n : ℕ)
      → m.current_term ≡ t.m.current_term
      → m.voted_for ≡ t.m.voted_for
      → Moves t (record t { m = m; cap_ents = n })
  staged-Moves t m n p q = record {
    base_index = refl;
    base_term = refl;
    hard = Keeps-same t.m m p q;
    commit = omega arith;
    prefix = refl;
  }

  pub elog_set_commit_index-Moves :
      (index : ℕ) (t : Log env) → Moves t (elog_set_commit_index env index t).1
  unfolding elog_set_commit_index
  elog_set_commit_index-Moves index t =
      elim (Bool-cases (ltb index t.base_index || ltb t.m.last_index index)) [
        | inl outside ↦ rw outside (Moves-refl t)
        | inr inside ↦ elim (Bool-cases (ltb index t.m.commit_index)) [
          | inl lower ↦ rw (inside, lower) (Moves-refl t)
          | inr higher ↦
              rw (inside, higher)
                (staged-Moves t (record (t.m) { commit_index = index }) t.cap_ents refl refl)
        ]
      ]

  next_hard-Keeps :
      (term vote : ℕ) (m m' : ElMeta)
      → next_hard env term vote m ≡ ok m'
      → Keeps m m' × (m'.commit_index ≡ m.commit_index)
  unfolding next_hard
  next_hard-Keeps term vote m m' e = ground arith

  pub elog_set_hard_state-Moves :
      (term vote : ℕ) (t : Log env) → IsValid t → Moves t (elog_set_hard_state env term vote t).1
  unfolding elog_set_hard_state
  elog_set_hard_state-Moves term vote t v = elim (Result-cases (next_hard env term vote t.m)) [
    | inr (x, e) ↦ rw e (Moves-refl t)
    | inl (m', e) ↦
        let (keeps, same) = next_hard-Keeps term vote t.m m' e in
        let ahead = v.commit_ahead in rw e (commit_state-Moves t m' v keeps (omega arith))
  ]

  appended-Moves :
      (t : Log env) (n index term : ℕ) (r : Result ℕ × LogFile env)
      → IsValid t
      → Moves t (appended env index term (record t { cap_ents = n }) r).1
  unfolding appended
  appended-Moves t n index term (err e, f) v = record {
    base_index = refl;
    base_term = refl;
    hard = Keeps-same t.m t.cm (sym v.same_term) (sym v.same_vote);
    commit = omega arith;
    prefix = refl;
  }
  appended-Moves t n index term (ok off, f) v =
      let b = v.live.bounds in
      let h = v.live.commit_hi in
      let a = v.commit_ahead in
      record {
        base_index = refl;
        base_term = refl;
        hard = Keeps-same t.m _ refl refl;
        commit = omega arith;
        prefix =
            take-store (t.cm.commit_index - t.base_index) t.ents t.m.n_ents _ (omega arith)
              v.live.stored;
      }

  reserved-Moves :
      (term type : ℕ) (payload : List ℕ) (t : Log env) (r : Result (Unit {0})) (n : ℕ)
      → IsValid t
      → Moves t
          (bind_result (r, record t { cap_ents = n }) (λ _. push_entry env term type payload)).1
  unfolding push_entry
  reserved-Moves term type payload t (err e) n v = staged-Moves t t.m n refl refl
  reserved-Moves term type payload t (ok u) n v =
      appended-Moves t n (add64 t.m.last_index 1) term
        (encode_entry env (add64 t.m.last_index 1) term type payload t.f) v

  pub elog_append-Moves :
      (term type : ℕ) (payload : List ℕ) (t : Log env)
      → IsValid t
      → Moves t (elog_append env term type payload t).1
  unfolding elog_append
  elog_append-Moves term type payload t v = elim (Bool-cases (is_negative_int type)) [
    | inl negative ↦ rw negative (Moves-refl t)
    | inr nonneg ↦ elim (Bool-cases (ltb term t.m.last_term || ltb t.m.current_term term)) [
      | inl refused ↦ rw (nonneg, refused) (Moves-refl t)
      | inr allowed ↦ elim (Bool-cases (ltb (sub64 t.m.last_index t.base_index) max_entries)) [
        | inr full ↦ rw (nonneg, allowed, full) (Moves-refl t)
        | inl room ↦
            let (r, n, e) = ents_reserve_lem env (t.m.n_ents + 1) t in
            rw (nonneg, allowed, room, e) (reserved-Moves term type payload t r n v)
      ]
    ]
  ]
