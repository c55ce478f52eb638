-- ===== src/BranchDb/Previewed.antt =====
-- What a merge preview is, and what it adds to the metadata document.
use backstitch.Prelude.{
  ◌≡◌, refl, ap, ◌∙◌, ◌||◌, none, some, ◌++◌, Str, bytes, Outcome, ok, Eq, beq_refl, arith,
}
use backstitch.Prelude.Maps.{get, insert}
use backstitch.History.Ref.{new}
use backstitch.BranchDb.Store.{
  Branch, BranchesMetadataDoc, DbError, Documents, Store, resolve_username, shadow_of_state,
  shadow_of, get_latest_ref_on_branch, get_branch_name,
}
use backstitch.BranchDb.Merging.{merge_into_doc, create_merge_preview_branch}
use backstitch.BranchDb.Forked.{
  HasShadow, AcceptsBranch, with_doc, after_add, accepts_with_doc, add_branch_writes,
  hydrate-after_add,
}

module _ {D H : Type 0} ⦃e : Eq D⦄ (docs : Documents D H) where
  open docs use {am, created}

  -- the branch that a preview of a merge makes
  abbrev pub preview : Store docs → D → D → Str → am.Doc → D → Str → am.Doc → Branch D H
  preview s id source source_name source_doc target target_name target_doc = record {
    name = target_name ++ (bytes " <- " ++ source_name);
    id = id;
    forked_from = some (new ⦃o = am.hash_ord⦄ source (am.get_heads source_doc));
    merge_into = some (new ⦃o = am.hash_ord⦄ target (am.get_heads target_doc));
    reverted_to = none;
    created_by = resolve_username docs s;
  }

  abbrev pub with_source : D → am.Doc → am.Doc
  with_source id source_doc = (am.merge (created id) source_doc).0

  abbrev pub with_both : D → am.Doc → am.Doc → am.Doc
  with_both id source_doc target_doc = (am.merge (with_source id source_doc) target_doc).0

  has-with_both :
      (id : D) (source_doc target_doc : am.Doc)
      → (am.merge (created id) source_doc).1 ≡ none
      → (am.merge (with_source id source_doc) target_doc).1 ≡ none
      → (h : H)
      → am.has (with_both id source_doc target_doc) h
        ≡ am.has (created id) h || (am.has source_doc h || am.has target_doc h)
  has-with_both id source_doc target_doc first second h = ground (
    arith,
    am.has_merge (with_source id source_doc) target_doc h second,
    am.has_merge (created id) source_doc h first,
  )

  shadow_is :
      (s : Store docs) (branch : D) (d : am.Doc)
      → HasShadow docs s branch d
      → shadow_of_state docs branch (get s.db.branch_sync_states branch) ≡ ok d
  unfolding shadow_of
  shadow_is s branch d shadow = ap (λ (p : Store docs × Outcome (DbError D) am.Doc). p.1) shadow

  HasShadow-with_doc :
      (s : Store docs) (id branch : D) (written d : am.Doc)
      → HasShadow docs s branch d
      → HasShadow docs (with_doc docs s id written) branch d
  unfolding shadow_of
  HasShadow-with_doc s id branch written d shadow =
      ap (λ (o : Outcome (DbError D) am.Doc). (with_doc docs s id written, o))
        (shadow_is s branch d shadow)

  merge_into_doc_writes :
      (s : Store docs) (id branch : D) (d : am.Doc)
      → HasShadow docs s branch d
      → merge_into_doc docs id branch s ≡ (with_doc docs s id (am.merge (s.db.repo id) d).0, ok tt)
  unfolding merge_into_doc
  merge_into_doc_writes s id branch d shadow = rw (shadow) refl

  latest_ref :
      (s : Store docs) (branch : D) (d : am.Doc)
      → HasShadow docs s branch d
      → get_latest_ref_on_branch docs branch s
        ≡ (s, ok (new ⦃o = am.hash_ord⦄ branch (am.get_heads d)))
  unfolding get_latest_ref_on_branch
  latest_ref s branch d shadow = rw (shadow_is s branch d shadow) refl

  -- the store with the preview's document, at each merge
  abbrev started : Store docs → D → Store docs
  started s id = with_doc docs s id (created id)

  abbrev merged : Store docs → D → am.Doc → Store docs
  merged s id d = with_doc docs s id (am.merge (s.db.repo id) d).0

  abbrev previewed : Store docs → D → am.Doc → am.Doc → Store docs
  previewed s id source_doc target_doc = merged (merged (started s id) id source_doc) id target_doc

  previewed-doc :
      (s : Store docs) (id : D) (source_doc target_doc : am.Doc)
      → (previewed s id source_doc target_doc).db.repo id ≡ with_both id source_doc target_doc
  previewed-doc s id source_doc target_doc = rw (beq_refl id) refl

  preview_writes :
      (s : Store docs) (id source target handle : D) (source_name target_name : Str)
      (source_doc target_doc : am.Doc) (m : BranchesMetadataDoc D H)
      → get_branch_name docs source s ≡ (s, ok source_name)
      → get_branch_name docs target s ≡ (s, ok target_name)
      → HasShadow docs s source source_doc
      → HasShadow docs s target target_doc
      → (accepts : AcceptsBranch docs s handle m
          (preview s id source source_name source_doc target target_name target_doc))
      → create_merge_preview_branch docs (some id) source target s
        ≡ (after_add docs (previewed s id source_doc target_doc) handle accepts.written, ok id)
  unfolding create_merge_preview_branch
  preview_writes s id source target handle source_name target_name source_doc target_doc m
        named_source named_target shadow_source shadow_target accepts =
      let branch = preview s id source source_name source_doc target target_name target_doc in
      let u = started s id in
      let v = merged u id source_doc in
      rw
        (
          named_source,
          named_target,
          latest_ref s source source_doc shadow_source,
          latest_ref s target target_doc shadow_target,
          merge_into_doc_writes u id source source_doc
              (HasShadow-with_doc s id source (created id) source_doc shadow_source),
          merge_into_doc_writes v id target target_doc (
              HasShadow-with_doc u id target _ target_doc
                (HasShadow-with_doc s id target (created id) target_doc shadow_target)),
          add_branch_writes docs (merged v id target_doc) handle m branch (
              accepts_with_doc docs v id _ handle m branch (
                accepts_with_doc docs u id _ handle m branch
                  (accepts_with_doc docs s id (created id) handle m branch accepts))),
        )
        refl

  -- For two branches of the metadata document that have shadow documents, if the merges go well
  -- and the metadata document can be written, a merge preview succeeds: its document has
  -- exactly the changes of the two and those that the repo gives a new document, and the
  -- metadata document gains a branch that is named after both, forked from the latest ref of
  -- the source and to be merged into that of the target, and is otherwise as before.
  pub create_merge_preview_branch-has :
      (s : Store docs) (id source target handle : D) (source_name target_name : Str)
      (source_doc target_doc : am.Doc) (m : BranchesMetadataDoc D H)
      → get_branch_name docs source s ≡ (s, ok source_name)
      → get_branch_name docs target s ≡ (s, ok target_name)
      → HasShadow docs s source source_doc
      → HasShadow docs s target target_doc
      → (am.merge (created id) source_doc).1 ≡ none
      → (am.merge (with_source id source_doc) target_doc).1 ≡ none
      → AcceptsBranch docs s handle m
          (preview s id source source_name source_doc target target_name target_doc)
      → let t = create_merge_preview_branch docs (some id) source target s in
        (t.1 ≡ ok id)
        × ((h : H)
            → am.has (t.0.db.repo id) h
              ≡ am.has (created id) h || (am.has source_doc h || am.has target_doc h))
        × (docs.hydrate (t.0.metadata_docs handle)
            ≡ some (record m {
              branches =
                  insert m.branches id
                    (preview s id source source_name source_doc target target_name target_doc);
            }))
  create_merge_preview_branch-has s id source target handle source_name target_name source_doc
        target_doc m named_source named_target shadow_source shadow_target first second accepts =
      rw
        (preview_writes s id source target handle source_name target_name source_doc target_doc m
          named_source named_target shadow_source shadow_target accepts)
        (
          refl,
          (λ h.
              ap (λ d. am.has d h) (previewed-doc s id source_doc target_doc)
              ∙ has-with_both id source_doc target_doc first second h),
          hydrate-after_add docs s handle m
              (preview s id source source_name source_doc target target_name target_doc) accepts,
        )
