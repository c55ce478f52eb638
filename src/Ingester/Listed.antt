-- ===== src/Ingester/Listed.antt =====
-- `get_changes` of backstitch/src/project/change_ingester.rs: the commits of the branch that is checked
-- out, of its shadow and of its canonical document.
use backstitch.Prelude.{
  ℕ, suc, Bool, false, not, ◌&&◌, ◌||◌, Option, none, some, List, [], ◌∷◌, ◌++◌, map, Str, bytes,
  Outcome, ok, ◌>>=◌, ltb, Eq, ◌==◌, contains, if◌then◌else◌,
}
use backstitch.Scene.Numbers.{ℤ}
use backstitch.Ingester.Summary.{CommitMetadata, CommitInfo}

-- ChangeMetadata of automerge
pub record Change (H : Type 0) : Type 0 where
  pub hash : H
  pub timestamp : ℤ
  pub message : Option Str

abbrev pub hashes : {H : Type 0} → List (Change H) → List H
hashes [] = []
hashes (c ∷ changes) = c.hash ∷ hashes changes

abbrev pub or_none : {A : Type 0} → Option (List A) → List A
or_none none = []
or_none (some l) = l

module _ {H : Type 0} ⦃eh : Eq H⦄ where
  -- the canonical changes that are not in the shadow document
  abbrev pub only_canonical : List H → List (Change H) → List (Change H)
  only_canonical shadow_hashes [] = []
  only_canonical shadow_hashes (c ∷ changes) =
      let rest = only_canonical shadow_hashes changes in
      if contains shadow_hashes c.hash then rest else c ∷ rest

  -- membership in `intersecting_hashes`, which is a symmetric difference
  abbrev pub in_one_only : List H → List H → H → Bool
  in_one_only shadow_hashes canon_hashes h =
      (contains shadow_hashes h && not (contains canon_hashes h))
      || (contains canon_hashes h && not (contains shadow_hashes h))

  abbrev pub acked : Option (List H) → H → Bool
  acked none h = false
  acked (some heads) h = contains heads h

abbrev text_or_invalid : Option Str → Str
text_or_invalid none = bytes "Invalid data"
text_or_invalid (some text) = text

module _ {D H : Type 0} ⦃ed : Eq D⦄ ⦃eh : Eq H⦄ where
  abbrev parse_message :
      (Str → Option (CommitMetadata D H)) → Option Str → Option (CommitMetadata D H)
  parse_message parse none = none
  parse_message parse (some m) = parse m

  abbrev pub commit_info : (Str → Option (CommitMetadata D H)) → Change H → CommitInfo D H
  commit_info parse c = record {
    hash = c.hash;
    timestamp = c.timestamp;
    metadata = parse_message parse c.message;
    synced = false;
    summary = [];
  }

  -- One more than `synced_until_index`: one more than the last position, counted from `i`, whose change
  -- the server acknowledged, or `until` where there is none.
  unfoldable pub synced_until : Option (List H) → ℕ → ℕ → List (CommitInfo D H) → ℕ
  synced_until last_acked_heads i until [] = until
  synced_until last_acked_heads i until (c ∷ changes) =
      synced_until last_acked_heads (suc i) (if acked last_acked_heads c.hash then suc i else until)
        changes

  -- whether the commit has valid metadata and is on the branch
  abbrev pub is_on : D → Option (CommitMetadata D H) → Bool
  is_on branch none = false
  is_on branch (some metadata) = elim metadata.branch_id [ none ↦ false | some id ↦ id == branch ]

  module _ (summarize : CommitInfo D H → Outcome (Unit {0}) (Option Str)) where
    -- the loop over the changes from the i-th on
    unfoldable pub list_commits :
        D → (H → Bool) → ℕ → ℕ → List (CommitInfo D H) → Outcome (Unit {0}) (List (CommitInfo D H))
    list_commits branch unsynced until i [] = ok []
    list_commits branch unsynced until i (change ∷ changes) =
        if not (is_on branch change.metadata)
        then list_commits branch unsynced until (suc i) changes
        else do
          summary ← summarize change
          rest ← list_commits branch unsynced until (suc i) changes
          ok (
              record change {
                synced = ltb i until && not (unsynced change.hash);
                summary = text_or_invalid summary;
              }
              ∷ rest)

    -- The branch is that of the ref that is checked out; the changes are none for an error.
    unfoldable pub get_changes :
        (Str → Option (CommitMetadata D H))
        → Option D
        → Option (List H)
        → Option (List (Change H))
        → Option (List (Change H))
        → Outcome (Unit {0}) (List (CommitInfo D H))
    unfolding list_commits synced_until
    get_changes parse none last_acked_heads shadow canonical = ok []
    get_changes parse (some branch) last_acked_heads shadow canonical =
        let shadow_hashes = hashes (or_none shadow) in
        let canon_hashes = hashes (or_none canonical) in
        let changes =
          map (commit_info parse)
            (or_none shadow ++ only_canonical shadow_hashes (or_none canonical)) in
        list_commits branch (in_one_only shadow_hashes canon_hashes)
          (synced_until last_acked_heads 0 0 changes) 0 changes
