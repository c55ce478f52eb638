-- ===== src/Driver/Normalized.antt =====
-- `commit` of backstitch/src/project/driver.rs: the files on disk that the store has normalized, which
-- a later sync writes back.
use backstitch.Prelude.{
  ◌≡◌, refl, sym, ap, ◌∙◌, Bool, true, false, Option, none, some, [], ◌∷◌, Eq, ◌==◌, Bool-cases,
  inl, inr, arith, if◌then◌else◌,
}
use backstitch.Prelude.Maps.{Map, get, insert, remove, get-insert, get-remove, Distinct}
use backstitch.Driver.{DriverInner}

-- CommitStatus
pub record CommitStatus (H : Type 0) : Type 0 where
  pub hash_before_commit : Option H
  pub hash_after_commit : Option H

-- the hash of a file on disk whose committed content differs from it
abbrev pub normalized_from : {H : Type 0} ⦃eh : Eq H⦄ → CommitStatus H → Option H
normalized_from status = elim status.hash_after_commit [
  | none ↦ none
  | some hash_after ↦ elim status.hash_before_commit [
    | none ↦ none
    | some hash_before ↦ if hash_after == hash_before then none else some hash_before
  ]
]

-- what is queued of a file after its change, if it has one
abbrev pub requeued : {H : Type 0} ⦃eh : Eq H⦄ → Option (CommitStatus H) → Option H → Option H
requeued none old = old
requeued (some status) old = normalized_from status

module _ {K H : Type 0} ⦃e : Eq K⦄ ⦃eh : Eq H⦄ where
  abbrev insert_some : Map K H → K → Option H → Map K H
  insert_some m path none = m
  insert_some m path (some hash) = insert m path hash

  -- the loop over the committed changes
  unfoldable pub queue_normalizations : Map K (CommitStatus H) → Map K H → Map K H
  queue_normalizations [] normalized_files = normalized_files
  queue_normalizations ((path, status) ∷ changes) normalized_files =
      queue_normalizations changes
        (insert_some (remove normalized_files path) path (normalized_from status))

  get-insert_some :
      (m : Map K H) (p path : K) (o : Option H)
      → get (insert_some (remove m p) p o) path ≡ (if p == path then o else get m path)
  get-insert_some m p path none = get-remove m p path
  get-insert_some m p path (some h) =
      ground (arith, get-insert (remove m p) p path h, get-remove m p path)

  -- After a commit, a file is queued exactly if it was committed with another content than it has on
  -- disk, with the hash of the content on disk, or if it was queued before and not committed.
  pub get-queue_normalizations :
      (changes : Map K (CommitStatus H)) (normalized_files : Map K H) (path : K)
      → Distinct changes
      → get (queue_normalizations changes normalized_files) path
        ≡ requeued (get changes path) (get normalized_files path)
  unfolding queue_normalizations get
  get-queue_normalizations [] normalized_files path d = refl
  get-queue_normalizations ((p, status) ∷ changes) normalized_files path d =
      get-queue_normalizations changes _ path d.1
      ∙ ap (requeued (get changes path))
          (get-insert_some normalized_files p path (normalized_from status))
      ∙ elim (Bool-cases (p == path)) [
        | inl here ↦
            let same : p ≡ path = (e.beq_iff p path).0 here in
            let gone : get changes path ≡ none = ap (get changes) (sym same) ∙ d.0 in
            rw (here, gone) refl
        | inr other ↦ rw other refl
      ]

-- the state after `commit`, given what `SyncFileSystemToAutomerge::commit` returns, and whether it asks
-- for an ingestion
unfoldable pub commit :
    {K C H D R Disk : Type 0} ⦃e : Eq K⦄ ⦃eh : Eq H⦄
    → DriverInner K C H D R Disk
    → Option (R × Map K (CommitStatus H))
    → DriverInner K C H D R Disk × Bool
unfolding queue_normalizations
commit s none = (s, false)
commit s (some (new_ref, committed_changes)) = (
  record s {
    pending_normalized_files = queue_normalizations committed_changes s.pending_normalized_files;
    checked_out_ref = some new_ref;
  },
  true,
)
