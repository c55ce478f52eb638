-- ===== src/BranchDb/Merged.antt =====
-- What a merge leaves of the changes of the two branches.
use mathlib.Core.Path.{subst}
use backstitch.Prelude.{
  ◌≡◌, ap, ◌∙◌, sym, Bool, false, ◌||◌, Option, none, some, Option-cases, inl, inr, Outcome, ok,
  err, panic, Eq, ◌==◌, arith,
}
use backstitch.Prelude.Maps.{get}
use backstitch.Prelude.Actions.{continue_with_steps, unwrap}
use backstitch.BranchDb.Store.{
  Branch, MergeMetadata, DbError, Documents, Store, resolve_username, shadow_of, get_branch_state,
}
use backstitch.BranchDb.Merging.{
  branch_of, metadata_from, merge_shadows, merge_metadata_of, commit_merge_metadata, merge_distinct,
  merge_branch,
}
use backstitch.BranchDb.Kept.{
  HasAll, shadow_in, its_shadow, HasAll-write_shadow, HasAll-reconcile_target,
}

module _ {D H : Type 0} ⦃e : Eq D⦄ (docs : Documents D H) where
  open docs use {am}

  HasAll-merge_shadows :
      (s t : Store docs) (source target : D) (source_doc target_doc : am.Doc)
      → shadow_of docs source s ≡ (s, ok source_doc)
      → shadow_of docs target s ≡ (s, ok target_doc)
      → (am.merge target_doc source_doc).1 ≡ none
      → merge_shadows docs source target s ≡ (t, ok tt)
      → HasAll docs (λ h. am.has source_doc h || am.has target_doc h) target t
  unfolding merge_shadows
  HasAll-merge_shadows s t source target source_doc target_doc from to merges done =
      let (state, (found, has_doc)) =
        shadow_in docs target (get s.db.branch_sync_states target) target_doc
          (ap (λ (q : Store docs × Outcome (DbError D) am.Doc). q.1) to) in
      HasAll-write_shadow docs (λ h. am.has source_doc h || am.has target_doc h) s t target state
        (am.merge target_doc source_doc).0 found (rw (from, to) at done)
        (λ h q. ground (arith, am.has_merge target_doc source_doc h merges, q))

  HasAll-commit :
      (p : H → Bool) (s t : Store docs) (target : D) (metadata : Option (MergeMetadata D H))
      → HasAll docs p target s
      → commit_merge_metadata docs target metadata s ≡ (t, ok tt)
      → HasAll docs p target t
  unfolding commit_merge_metadata
  HasAll-commit p s t target none has_all done =
      subst (HasAll docs p target)
        (ap (λ (q : Store docs × Outcome (DbError D) (Unit {0})). q.0) done) has_all
  HasAll-commit p s t target (some m) (state, d, (found, has_doc, has)) done =
      let shadow : shadow_of docs target s ≡ (s, ok d) =
        its_shadow docs s target state d found has_doc in
      HasAll-write_shadow docs p s t target state
        (docs.commit_merge d (resolve_username docs s) target m) found (rw shadow at done)
        (λ h q. docs.has_commit_merge d _ target m h (has h q))

  unwrap_state :
      {A : Type 0} (o : Option A) (s t : Store docs) (a : A)
      → unwrap {E = DbError D} o s ≡ (t, ok a)
      → s ≡ t
  unwrap_state none s t a h = absurd (cc (ap (λ q. q.1) h))
  unwrap_state (some x) s t a h = ap (λ q. q.0) h

  metadata_from_state :
      (forked_from : D) (o : Outcome (DbError D) (Branch D H)) (s t : Store docs)
      (a : Option (MergeMetadata D H))
      → metadata_from docs forked_from o s ≡ (t, ok a)
      → s ≡ t
  metadata_from_state forked_from (ok st) s t a h =
      let (u, original, (read, then_give)) =
        continue_with_steps (unwrap st.forked_from s) _ t a h in
      unwrap_state st.forked_from s u original read ∙ ap (λ q. q.0) then_give
  metadata_from_state forked_from (err x) s t a h = ap (λ q. q.0) h
  metadata_from_state forked_from panic s t a h = absurd (cc (ap (λ q. q.1) h))

  -- The metadata of the merge is only read.
  metadata_state :
      (st : Branch D H) (forked_from : D) (s t : Store docs) (a : Option (MergeMetadata D H))
      → merge_metadata_of docs st forked_from s ≡ (t, ok a)
      → s ≡ t
  unfolding merge_metadata_of
  metadata_state st forked_from s t a h = elim (Option-cases st.merge_into) [
    | inl plain ↦ ap (λ q. q.0) (rw (plain, merge_metadata_of) at h)
    | inr (target_ref, preview) ↦
        metadata_from_state forked_from (get_branch_state docs forked_from s).1 s t a
          (rw (preview, merge_metadata_of) at h)
  ]

  HasAll-merge_distinct :
      (st : Branch D H) (s t : Store docs) (source target : D) (source_doc target_doc : am.Doc)
      → shadow_of docs source s ≡ (s, ok source_doc)
      → shadow_of docs target s ≡ (s, ok target_doc)
      → (am.merge target_doc source_doc).1 ≡ none
      → merge_distinct docs st source target s ≡ (t, ok tt)
      → HasAll docs (λ h. am.has source_doc h || am.has target_doc h) target t
  HasAll-merge_distinct st s t source target source_doc target_doc from to merges done =
      let p : H → Bool = λ h. am.has source_doc h || am.has target_doc h in
      let (u, x, (merged, then_unwrap)) =
        continue_with_steps (merge_shadows docs source target s) _ t tt done in
      let (v, forked_from, (unwrapped, then_metadata)) =
        continue_with_steps (unwrap (branch_of docs st.forked_from) u) _ t tt then_unwrap in
      let (w, metadata, (found, then_commit)) =
        continue_with_steps (merge_metadata_of docs st forked_from v) _ t tt then_metadata in
      let (z, y, (committed, then_reconcile)) =
        continue_with_steps (commit_merge_metadata docs target metadata w) _ t tt then_commit in
      let at_u : HasAll docs p target u =
        HasAll-merge_shadows s u source target source_doc target_doc from to merges merged in
      let at_w : HasAll docs p target w =
        subst (HasAll docs p target)
          (unwrap_state (branch_of docs st.forked_from) u v forked_from unwrapped
            ∙ metadata_state st forked_from v w metadata found)
          at_u in
      HasAll-reconcile_target docs p z t target (HasAll-commit p w z target metadata at_w committed)
        then_reconcile

  -- A merge of a branch into another that succeeds, its documents' merge included, leaves a
  -- shadow document of the target that has every change that the shadow documents of the source
  -- and of the target had.
  pub merge_branch-HasAll :
      (s t : Store docs) (source target : D) (source_doc target_doc : am.Doc)
      → (source == target) ≡ false
      → shadow_of docs source s ≡ (s, ok source_doc)
      → shadow_of docs target s ≡ (s, ok target_doc)
      → (am.merge target_doc source_doc).1 ≡ none
      → merge_branch docs source target s ≡ (t, ok tt)
      → HasAll docs (λ h. am.has source_doc h || am.has target_doc h) target t
  unfolding merge_branch get_branch_state
  merge_branch-HasAll s t source target source_doc target_doc other from to merges done =
      let (u, st, (known, merging)) =
        continue_with_steps (get_branch_state docs source s) _ t tt done in
      HasAll-merge_distinct st s t source target source_doc target_doc from to merges (
        subst (λ v. merge_distinct docs st source target v ≡ (t, ok tt)) (sym (ap (λ q. q.0) known))
          (rw other at merging))
