-- ===== src/Node/Linked.antt =====
-- A log that grows by blocks each of which follows the one before it: what the synchronizer keeps.
use godcoin_js_legacy.Prelude.{
  ◌+◌, ◌≡◌, inl, inr, refl, sym, ◌∙◌, List, [], ◌∷◌, ◌++◌, Bool, true, Option, none, some, ok,
  assert, assert-eq-ok, eqb, eqb_iff, not_genesis,
}
use mathlib.Core.Path.{subst}
use mathlib.Core.List.{append_assoc, append-nil}
use godcoin_js_legacy.Neon.{Neon, SignedBlock}
use godcoin_js_legacy.Packages.{Packages}
use godcoin_js_legacy.Indexer.Logged.{Writes}
use godcoin_js_legacy.ChainStore.{ChainStore, append_block, fs_write, frame}
use godcoin_js_legacy.ChainStore.Log.{frames}

module _ ⦃n : Neon⦄ where
  -- a block that comes right behind another
  pub record Behind (before block : SignedBlock) : Type 0 where
    pub next_height : before.height + 1 ≡ block.height
    pub linked : block.previous_hash ≡ n.calc_hash before
    pub signed :
        n.verify (block.sig_pair).key (block.sig_pair).signature (n.encode_header block) ≡ true

  -- a block behind the head, or the first one
  abbrev pub Next : Option SignedBlock → SignedBlock → Type 0
  Next none block = block.height ≡ 0
  Next (some before) block = Behind before block

  abbrev pub Linked : Option SignedBlock → List SignedBlock → Type 0
  Linked top [] = Unit
  Linked top (b ∷ bs) = Next top b × Linked (some b) bs

module _ ⦃n : Neon⦄ ⦃p : Packages⦄ where
  abbrev pub append_all : List SignedBlock → ChainStore → ChainStore
  append_all [] s = s
  append_all (b ∷ bs) s = append_all bs (append_block b s)

  -- the log has grown by linked blocks
  abbrev pub Grown : ChainStore → ChainStore → Type 0
  Grown s t = (bs : List SignedBlock) × Linked s.block_head bs × (t ≡ append_all bs s)

  Grown-trans :
      (bs : List SignedBlock) (s t u : ChainStore)
      → Linked s.block_head bs
      → t ≡ append_all bs s
      → Grown t u
      → Grown s u
  unfolding append_block
  Grown-trans [] s t u linked e g = subst (λ x. Grown x u) e g
  Grown-trans (b ∷ bs) s t u (next, linked) e g =
      let (cs, later, e') = Grown-trans bs (append_block b s) t u linked e g in
      (b ∷ cs, (next, later), e')

  infixr 5 ◌⨟◌
  pub ◌⨟◌ : {s t u : ChainStore} → Grown s t → Grown t u → Grown s u
  ◌⨟◌ {s} {t} {u} (bs, linked, e) g = Grown-trans bs s t u linked e g

  pub same_store : {s t : ChainStore} → t ≡ s → Grown s t
  same_store e = ([], tt, e)

  -- the bytes of the log after `bs`
  pub append_all-file :
      (bs : List SignedBlock) (s : ChainStore) → (append_all bs s).file ≡ s.file ++ frames bs
  unfolding append_block fs_write
  append_all-file [] s = sym (append-nil s.file)
  append_all-file (b ∷ bs) s =
      append_all-file bs (append_block b s)
      ∙ append_assoc s.file (frame (n.encode_with_tx b)) (frames bs)

  -- what the synchronizer has validated of a block, by the head
  abbrev pub Validated : Option SignedBlock → SignedBlock → Type 0
  Validated none block = Unit
  Validated (some before) block = Behind before block

  genesis_or_valid :
      (o : Option SignedBlock) (block : SignedBlock) (z : Bool)
      → eqb block.height 0 ≡ z
      → Validated o block
      → elim o [ none ↦ assert z not_genesis | some _ ↦ ok tt ] ≡ ok tt
      → Next o block
  genesis_or_valid none block z e valid h =
      (eqb_iff block.height 0).0 (e ∙ assert-eq-ok z not_genesis h)
  genesis_or_valid (some before) block z e valid h = valid

  pub Writes-Grown :
      (block : SignedBlock) (s t : ChainStore)
      → Validated s.block_head block
      → Writes block s t
      → Grown s t
  Writes-Grown block s t valid (inl same) = same_store same
  Writes-Grown block s t valid (inr (first, e)) = (
    block ∷ [],
    (genesis_or_valid s.block_head block (eqb block.height 0) refl valid first, tt),
    e,
  )
