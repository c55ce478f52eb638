-- ===== src/BranchDb/Forked.antt =====
-- What a fork leaves in the store.
use backstitch.Prelude.{◌≡◌, refl, ap, ◌∙◌, none, some, Str, Outcome, ok, Eq, beq_refl}
use backstitch.Prelude.Maps.{insert}
use backstitch.History.Ref.{new}
use backstitch.BranchDb.State.{write_doc}
use backstitch.BranchDb.Store.{
  Branch, BranchesMetadataDoc, DbError, Documents, Store, resolve_username, shadow_of,
}
use backstitch.BranchDb.Branches.{add_branch_to_meta, clone_branch, fork_branch}

module _ {D H : Type 0} ⦃e : Eq D⦄ (docs : Documents D H) (s : Store docs) where
  open docs use {am}

  -- the branch has a shadow document
  abbrev pub HasShadow : D → am.Doc → Type 0
  HasShadow branch d = shadow_of docs branch s ≡ (s, ok d)

  -- The metadata document can be read, and can be written with the branch put into it.
  pub record AcceptsBranch (handle : D) (m : BranchesMetadataDoc D H) (branch : Branch D H)
      : Type 0 where
    pub cached : BranchesMetadataDoc D H
    pub written : docs.MetaDoc
    pub known : s.metadata_state ≡ some (handle, cached)
    pub reads : docs.hydrate (s.metadata_docs handle) ≡ some m
    pub writes :
        docs.reconcile
          (s.metadata_docs handle)
          (record m { branches = insert m.branches branch.id branch })
        ≡ some written

-- the branch that a fork of a document makes
abbrev pub forked :
    {D H : Type 0} (docs : Documents D H) → Store docs → D → Str → D → docs.am.Doc → Branch D H
forked docs s id name source d = record {
  name = name;
  id = id;
  forked_from = some (new ⦃o = docs.am.hash_ord⦄ source (docs.am.get_heads d));
  merge_into = none;
  reverted_to = none;
  created_by = resolve_username docs s;
}

module _ {D H : Type 0} ⦃e : Eq D⦄ (docs : Documents D H) where
  open docs use {am}

  pub written_doc : {A : Type 0} (f : D → A) (id : D) (a : A) → write_doc f id a id ≡ a
  written_doc f id a = rw (beq_refl id) refl

  abbrev pub after_add : Store docs → D → docs.MetaDoc → Store docs
  after_add s handle written = record s { metadata_docs = write_doc s.metadata_docs handle written }

  pub add_branch_writes :
      (s : Store docs) (handle : D) (m : BranchesMetadataDoc D H) (branch : Branch D H)
      (accepts : AcceptsBranch docs s handle m branch)
      → add_branch_to_meta docs branch s ≡ (after_add s handle accepts.written, ok tt)
  unfolding add_branch_to_meta
  add_branch_writes s handle m branch accepts =
      rw (accepts.known, accepts.reads, accepts.writes) refl

  -- What the metadata document says after a branch was added.
  pub hydrate-after_add :
      (s : Store docs) (handle : D) (m : BranchesMetadataDoc D H) (branch : Branch D H)
      (accepts : AcceptsBranch docs s handle m branch)
      → docs.hydrate ((after_add s handle accepts.written).metadata_docs handle)
        ≡ some (record m { branches = insert m.branches branch.id branch })
  hydrate-after_add s handle m branch accepts =
      ap docs.hydrate (written_doc s.metadata_docs handle accepts.written)
      ∙ docs.hydrate_reconcile (s.metadata_docs handle) accepts.written
          (record m { branches = insert m.branches branch.id branch }) accepts.writes

  abbrev pub with_doc : Store docs → D → am.Doc → Store docs
  with_doc s id d = record s { db = record s.db { repo = write_doc s.db.repo id d } }

  -- The metadata document does not depend on the documents of the branches.
  abbrev pub accepts_with_doc :
      (s : Store docs) (id : D) (d : am.Doc) (handle : D) (m : BranchesMetadataDoc D H)
      (branch : Branch D H)
      → AcceptsBranch docs s handle m branch
      → AcceptsBranch docs (with_doc s id d) handle m branch
  accepts_with_doc s id d handle m branch accepts = record {
    cached = accepts.cached;
    written = accepts.written;
    known = accepts.known;
    reads = accepts.reads;
    writes = accepts.writes;
  }

  clone_branch_writes :
      (s : Store docs) (id source : D) (d : am.Doc)
      → HasShadow docs s source d
      → clone_branch docs (some id) source s ≡ (with_doc s id d, ok id)
  unfolding clone_branch
  clone_branch_writes s id source d shadow =
      rw (ap (λ (p : Store docs × Outcome (DbError D) am.Doc). p.1) shadow) refl

  fork_branch_writes :
      (s : Store docs) (id : D) (name : Str) (source handle : D) (d : am.Doc)
      (m : BranchesMetadataDoc D H)
      → HasShadow docs s source d
      → (accepts : AcceptsBranch docs s handle m (forked docs s id name source d))
      → fork_branch docs (some id) name source s
        ≡ (after_add (with_doc s id d) handle accepts.written, ok id)
  unfolding fork_branch
  fork_branch_writes s id name source handle d m shadow accepts =
      rw
        (
          ap (λ (p : Store docs × Outcome (DbError D) am.Doc). p.1) shadow,
          clone_branch_writes s id source d shadow,
          add_branch_writes (with_doc s id d) handle m (forked docs s id name source d)
              (accepts_with_doc s id d handle m (forked docs s id name source d) accepts),
        )
        refl

  -- A fork of a branch with a shadow document succeeds if the metadata document can be written:
  -- the new document is the shadow document of the source, and the metadata document gains a
  -- branch forked from the latest ref of the source and is otherwise as before.
  pub fork_branch-hydrate :
      (s : Store docs) (id : D) (name : Str) (source handle : D) (d : am.Doc)
      (m : BranchesMetadataDoc D H)
      → HasShadow docs s source d
      → AcceptsBranch docs s handle m (forked docs s id name source d)
      → let t = fork_branch docs (some id) name source s in
        (t.1 ≡ ok id)
        × (t.0.db.repo id ≡ d)
        × (docs.hydrate (t.0.metadata_docs handle)
            ≡ some (record m { branches = insert m.branches id (forked docs s id name source d) }))
  fork_branch-hydrate s id name source handle d m shadow accepts =
      rw (fork_branch_writes s id name source handle d m shadow accepts) (
        refl,
        written_doc s.db.repo id d,
        hydrate-after_add s handle m (forked docs s id name source d) accepts,
      )
