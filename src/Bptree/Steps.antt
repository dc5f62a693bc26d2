-- ===== src/Bptree/Steps.antt =====
-- What one read, write or copy of src/bplustree.c does to the tree's state.
use binjson_structures.Shared.{
  ℕ, ◌≡◌, ◌⊎◌, refl, ap, ◌∙◌, inl, inr, Bool, true, false, some, List, [], ◌∷◌,
}
use binjson_structures.Shared.Words.{All}
use binjson_structures.Shared.Result.{Result, ok, err, Err, oom}
use binjson_structures.Shared.State.{Action, bind_result, actions, pure, check, ◌>>◌}
use binjson_structures.Bptree.Key.{Key}
use binjson_structures.Bptree.Node.{
  Node, leaf, BptMeta, Pages, Bpt, on_pages, built, key_copy, take_id,
}
use binjson_structures.Bptree.Tree.{View, Content, content}
use binjson_structures.Bptree.Laws.{
  Later, Later_refl, Later_trans, Laws, Ends, Ends_bind, IsWritable, IsBlob, IsPointer,
}

module _ {F : Type 0} (view : View F) where
  abbrev pub moved : Bpt F → F → ℕ → Bpt F
  moved t f n = record t { f = f; m = record (t.m) { next_id = n } }

  -- On the way, only the file and the next id change, and the file keeps what it held.
  pub record Steps (t t' : Bpt F) : Type 0 where
    pub later : Later view t.f t'.f
    pub same : t' ≡ moved t t'.f t'.m.next_id

  pub Steps-refl : (t : Bpt F) → Steps t t
  Steps-refl t = record { later = Later_refl view t.f; same = refl }

  pub Steps-trans : (t u w : Bpt F) → Steps t u → Steps u w → Steps t w
  Steps-trans t u w a b = record {
    later = Later_trans view t.f u.f w.f a.later b.later;
    same = b.same ∙ ap (λ (s : Bpt F). moved s w.f w.m.next_id) a.same;
  }

  pub IsWritable-move :
      (Kept : Key → Type 0) (f g : F) (q : Content)
      → Later view f g
      → IsWritable view Kept f q
      → IsWritable view Kept g q
  IsWritable-move Kept f g q m w = record {
    keys = w.keys;
    values = blobs q.values w.values;
    children = pointers q.children w.children;
    shape = w.shape;
  }
    where
      blobs : (bs : List (List ℕ)) → All (IsBlob view f) bs → All (IsBlob view g) bs
      blobs [] h = tt
      blobs (b ∷ bs) (h, hs) = ((h.0, m.values b h.0 h.1), blobs bs hs)

      pointers : (cs : List ℕ) → All (IsPointer view f) cs → All (IsPointer view g) cs
      pointers [] h = tt
      pointers (c ∷ cs) (h, hs) = ((h.0, m.nodes c h.0 h.1), pointers cs hs)

  module _ (Kept : Key → Type 0) (Value : List ℕ → Type 0) (MayFail : Err → Type 0) (p : Pages F)
      (laws : Laws view Kept Value MayFail p) where
    paged :
        {A : Type 0} (P : A → F → Type 0) (t : Bpt F) (r : Result A × F)
        → Ends (λ a g. P a g × Later view t.f g) MayFail r
        → Ends (λ (a : A) (t' : Bpt F). P a t'.f × Steps t t') MayFail (r.0, record t { f = r.1 })
    paged P t (ok a, g) (h, l) = (h, record { later = l; same = refl })
    paged P t (err e, g) h = h

    flushed :
        (t : Bpt F) (r : Result (Unit {0}) × F)
        → Ends (λ u g. Later view t.f g) MayFail r
        → Ends
            (λ u (t' : Bpt F). (t'.m ≡ t.m) × Later view t.f t'.f)
            MayFail
            (r.0, record t { f = r.1 })
    flushed t (ok u, g) l = (refl, l)
    flushed t (err e, g) h = h

    pub parse_step :
        (c : ℕ) (q : Content) (t : Bpt F)
        → view.node_at t.f c ≡ some q
        → Ends
            (λ (n : Node) (t' : Bpt F). (content n ≡ q) × Steps t t')
            MayFail
            (on_pages p (p.parse_node c) t)
    unfolding on_pages
    parse_step c q t h = paged (λ n g. content n ≡ q) t (p.parse_node c t.f) (laws.parse c q t.f h)

    pub save_step :
        (n : Node) (t : Bpt F)
        → IsWritable view Kept t.f (content n)
        → Ends
            (λ (c : ℕ) (t' : Bpt F). (view.node_at t'.f c ≡ some (content n)) × Steps t t')
            MayFail
            (on_pages p (p.save_node n) t)
    unfolding on_pages
    save_step n t h =
        paged (λ c g. view.node_at g c ≡ some (content n)) t (p.save_node n t.f) (laws.save n t.f h)

    pub store_step :
        (v : List ℕ) (t : Bpt F)
        → Value v
        → Ends
            (λ (b : List ℕ) (t' : Bpt F). (view.value_at t'.f b ≡ some v) × Steps t t')
            MayFail
            (on_pages p (p.store_value v) t)
    unfolding on_pages
    store_step v t h =
        paged (λ b g. view.value_at g b ≡ some v) t (p.store_value v t.f) (laws.store v t.f h)

    copied :
        {A : Type 0} (a : A) (b : Bool) (t : Bpt F)
        → (b ≡ true) ⊎ MayFail oom
        → Ends (λ (a' : A) (t' : Bpt F). (a' ≡ a) × (t' ≡ t)) MayFail ((do check b oom; pure a) t)
    unfolding actions
    copied a true t h = (refl, refl)
    copied a false t (inl h) = elim (differ h) [ ]
      where
        differ : false ≡ true → ⊥
        differ e = cc
    copied a false t (inr h) = h

    pub built_step :
        (n : Node) (t : Bpt F)
        → Ends (λ (n' : Node) (t' : Bpt F). (n' ≡ n) × (t' ≡ t)) MayFail (built p n t)
    unfolding built
    built_step n t = copied n (p.copies n) t (laws.copies n)

    pub key_copy_step :
        (k : Key) (t : Bpt F)
        → Ends (λ (k' : Key) (t' : Bpt F). (k' ≡ k) × (t' ≡ t)) MayFail (key_copy p k t)
    unfolding key_copy
    key_copy_step k t =
        copied k (p.copies (leaf 0 (k ∷ []) [])) t (laws.copies (leaf 0 (k ∷ []) []))

    pub take_id_step : (t : Bpt F) → Ends (λ (i : ℕ) (t' : Bpt F). Steps t t') MayFail (take_id p t)
    unfolding take_id
    take_id_step t = record { later = Later_refl view t.f; same = refl }

    pub built_bind :
        {B : Type 0} (Q : B → Bpt F → Type 0) (n : Node) (t : Bpt F) (k : Node → Action (Bpt F) B)
        → Ends Q MayFail (k n t)
        → Ends Q MayFail (bind_result (built p n t) k)
    built_bind Q n t k h =
        Ends_bind _ Q MayFail (built p n t) k (built_step n t) (λ n' t' e. rw (e.0, e.1) h)

    pub key_copy_bind :
        {B : Type 0} (Q : B → Bpt F → Type 0) (x : Key) (t : Bpt F) (k : Key → Action (Bpt F) B)
        → Ends Q MayFail (k x t)
        → Ends Q MayFail (bind_result (key_copy p x t) k)
    key_copy_bind Q x t k h =
        Ends_bind _ Q MayFail (key_copy p x t) k (key_copy_step x t) (λ n' t' e. rw (e.0, e.1) h)

    pub save_bind :
        {B : Type 0} (Q : B → Bpt F → Type 0) (n : Node) (t : Bpt F) (k : ℕ → Action (Bpt F) B)
        → IsWritable view Kept t.f (content n)
        → ((c : ℕ) (t' : Bpt F)
            → view.node_at t'.f c ≡ some (content n)
            → Steps t t'
            → Ends Q MayFail (k c t'))
        → Ends Q MayFail (bind_result (on_pages p (p.save_node n) t) k)
    save_bind Q n t k w next =
        Ends_bind _ Q MayFail (on_pages p (p.save_node n) t) k (save_step n t w)
          (λ c t' e. next c t' e.0 e.1)

    -- The metadata and the commit change nothing but the file.
    pub metadata_step :
        (m : BptMeta) (t : Bpt F)
        → Ends
            (λ u (t' : Bpt F). (t'.m ≡ t.m) × Later view t.f t'.f)
            MayFail
            (on_pages p (p.save_metadata m) t)
    unfolding on_pages
    metadata_step m t = flushed t (p.save_metadata m t.f) (laws.metadata m t.f)

    pub commit_step :
        (t : Bpt F)
        → Ends
            (λ u (t' : Bpt F). (t'.m ≡ t.m) × Later view t.f t'.f)
            MayFail
            (on_pages p p.commit t)
    unfolding on_pages
    commit_step t = flushed t (p.commit t.f) (laws.commit t.f)
