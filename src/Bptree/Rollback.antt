-- ===== src/Bptree/Rollback.antt =====
-- src/bplustree.c: a bpt_add or bpt_delete that fails leaves the tree as it was.
use binjson_structures.Shared.{ℕ, ◌≡◌, ◌∙◌, sym, refl, ap, inl, inr, not, ◌||◌, List, Bool-cases}
use binjson_structures.Shared.Result.{Result, ok, err}
use binjson_structures.Shared.State.{Action, bind_result, actions}
use binjson_structures.Bptree.Key.{Key, key_storable}
use binjson_structures.Bptree.Node.{Pages, Bpt, on_pages}
use binjson_structures.Bptree.Insert.{add_root, finish, changed, bpt_add}
use binjson_structures.Bptree.Delete.{delete_root, bpt_delete}
use binjson_structures.Bptree.Frame.{Discards, Frame, Inside, add_root-Stays, delete_root-Stays}

module _ {F C : Type 0} (p : Pages F) (seen : F → C) (laws : Discards p seen) where
  -- After a success, nothing is left that a discard would take back, and only the file, the root, the
  -- next id and the size differ; after a failure, the tree is the one before the call and what counts
  -- of its file too.
  abbrev pub RolledBack : Bpt F → Result (Unit {0}) × Bpt F → Type 0
  RolledBack t (ok u, s) = Frame p t s × (seen (p.discard s.f) ≡ seen s.f)
  RolledBack t (err e, s) = (s ≡ record t { f = s.f }) × (seen s.f ≡ seen t.f)

  -- What `finish` goes back to.
  abbrev Back : Bpt F → Result (Unit {0}) × Bpt F → Type 0
  Back t (ok u, s) = Frame p t s × (seen (p.discard s.f) ≡ seen s.f)
  Back t (err e, s) = Inside p seen laws t s

  finish-Back :
      (t : Bpt F) (r : Result (Unit {0}) × Bpt F)
      → seen (p.discard t.f) ≡ seen t.f
      → Back t r
      → RolledBack t (finish p t r)
  unfolding finish
  finish-Back t (ok u, s) clean h = h
  finish-Back t (err e, s) clean h = (
    ap
        (λ (x : Bpt F). record x {
          f = p.discard s.f;
          m = record (x.m) { root = t.m.root; next_id = t.m.next_id; size = t.m.size };
        })
        h.0,
    h.1 ∙ clean,
  )

  commit-Back :
      (t s : Bpt F) (r : Result (Unit {0}) × F)
      → Inside p seen laws t s
      → p.commit s.f ≡ r
      → Back t (r.0, record s { f = r.1 })
  commit-Back t s (ok u, g) h e =
      (ap (λ (x : Bpt F). record x { f = g }) h.0, laws.commit_ok s.f g e)
  commit-Back t s (err x, g) h e =
      (ap (λ (y : Bpt F). record y { f = g }) h.0, laws.commit_err s.f g x e ∙ h.1)

  bind_result-Back :
      (t : Bpt F) (r : Result (Unit {0}) × Bpt F)
      → Inside p seen laws t r.1
      → Back t (bind_result r (λ u. on_pages p p.commit))
  unfolding on_pages
  bind_result-Back t (ok u, s) h = commit-Back t s (p.commit s.f) h refl
  bind_result-Back t (err e, s) h = h

  changed-RolledBack :
      (t : Bpt F) (m : Action (Bpt F) Unit)
      → seen (p.discard t.f) ≡ seen t.f
      → Inside p seen laws t (m t).1
      → RolledBack t (changed p m t)
  unfolding changed actions
  changed-RolledBack t m clean h =
      finish-Back t (bind_result (m t) (λ x. on_pages p p.commit)) clean
        (bind_result-Back t (m t) h)

  -- Over file operations of which only a successful commit changes what a discard goes back to, and
  -- leaves nothing to discard: on a tree whose file has nothing to discard, a `bpt_add` or a
  -- `bpt_delete` that fails leaves the tree as it was, the metadata and what counts of the file
  -- included, and one that succeeds changes only the file, the root, the next id and the size, and
  -- leaves again nothing to discard.
  pub changes-RolledBack :
      (t : Bpt F) (key : Key) (val : List ℕ)
      → seen (p.discard t.f) ≡ seen t.f
      → RolledBack t (bpt_add p key val t) × RolledBack t (bpt_delete p key t)
  unfolding bpt_add bpt_delete
  changes-RolledBack t key val clean = elim (Bool-cases (t.read_only || not (key_storable key))) [
    | inl refused ↦ rw refused ((refl, refl), (refl, refl))
    | inr writable ↦ rw writable (
      changed-RolledBack t (add_root p key val) clean
          (add_root-Stays p seen laws t key val t (refl, refl)),
      changed-RolledBack t (delete_root p key) clean
          (delete_root-Stays p seen laws t key t (refl, refl)),
    )
  ]

-- Where nothing counts of a file, every file's operations go with a discard.
any-Discards : {F : Type 0} (p : Pages F) → Discards {C = Unit {0}} p (λ f. tt)
any-Discards p = record {
  parse = λ c f. refl;
  save = λ n f. refl;
  store = λ v f. refl;
  metadata = λ m f. refl;
  commit_ok = λ f g e. refl;
  commit_err = λ f g x e. refl;
}

module _ {F : Type 0} (p : Pages F) where
  -- A `bpt_add` changes only the file, the root, the next id and the size, if it fails also.
  pub bpt_add-Frame : (t : Bpt F) (key : Key) (val : List ℕ) → Frame p t (bpt_add p key val t).1
  bpt_add-Frame t key val =
      framed (bpt_add p key val t)
        (changes-RolledBack p (λ f. tt) (any-Discards p) t key val refl).0
    where
      framed :
          (r : Result (Unit {0}) × Bpt F)
          → RolledBack p (λ f. tt) (any-Discards p) t r
          → Frame p t r.1
      framed (ok u, s) h = h.0
      framed (err e, s) h =
          h.0
          ∙ ap
              (λ (y : Bpt F). record t {
                f = s.f;
                m = record (t.m) { root = y.m.root; next_id = y.m.next_id; size = y.m.size };
              })
              (sym h.0)
