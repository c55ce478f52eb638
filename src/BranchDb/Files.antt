-- ===== src/BranchDb/Files.antt =====
-- backstitch/src/project/branch_db/file.rs: the files that a branch has at a ref, and their hashes.
use backstitch.Prelude.{
  Bool, true, false, not, ◌||◌, Option, none, some, List, [], ◌∷◌, Str, Outcome, ok, err, panic,
  ◌&&◌, Eq, contains, is_empty, list_eq, nat_eq, if◌then◌else◌,
}
use backstitch.Prelude.Maps.{Map, get}
use backstitch.Prelude.Actions.{◌>>=◌, give, require, unwrap, current}
use backstitch.History.Ref.{HistoryRef, is_valid}
use backstitch.Fs.Traversal.{ChangeType, created, get_file_changes}
use backstitch.BranchDb.Store.{
  no_filters, bad_branch_document, invalid_ref, Documents, Store, On, resolve_username, shadow_of,
}
use backstitch.BranchDb.Merging.{write_shadow}

-- what `hydrate_content_at` returns of an entry: a content, the document that has it, or an error
pub data Hydrated (D C : Type 0) : Type 0 where
  content : C → Hydrated D C
  link : D → Hydrated D C
  bad : Hydrated D C

-- An entry of the map of files: the values under `hash`, none for an error, each a hash or not one.
pub record Entry (D C K : Type 0) : Type 0 where
  pub hashes : Option (List (Option K))
  -- a scene that does not hydrate is a panic
  pub hydrated : Outcome (Unit {0}) (Hydrated D C)

-- what hydrates; the calls below panic before they look at an entry that does not
abbrev pub settled : {D C : Type 0} → Outcome (Unit {0}) (Hydrated D C) → Hydrated D C
settled (ok h) = h
settled (err e) = bad
settled panic = bad

abbrev pub is_panic : {A : Type 0} → Outcome (Unit {0}) A → Bool
is_panic (ok a) = false
is_panic (err e) = false
is_panic panic = true

-- no single hash is stored, so that the content is hydrated
abbrev pub is_slow : {K : Type 0} → Option (List (Option K)) → Bool
is_slow none = true
is_slow (some []) = true
is_slow (some (some k ∷ [])) = false
is_slow (some (none ∷ [])) = true
is_slow (some (a ∷ b ∷ rest)) = true

-- PendingHash
pub data PendingHash (D K : Type 0) : Type 0 where
  hash : K → PendingHash D K
  linked : D → PendingHash D K

-- What is read of the documents by automerge, with `C` the contents of files and `K` their hashes.
pub record FileReads {D H : Type 0} (docs : Documents D H) (C K : Type 0) : Type 0 where
  pub hash_eq : Eq K
  pub to_hash : C → K
  -- the entries of `files` that are objects, at some heads; none without `files`
  pub files_at : docs.am.Doc → List H → Option (Map Str (Entry D C K))
  -- the content of a binary document
  pub linked_content : docs.am.Doc → Option C
  -- the transaction that puts the hashes that are marked
  pub put_hashes : docs.am.Doc → List H → Map Str (K × Bool) → Option Str → docs.am.Doc
  -- `should_ignore(&globalize_path(&path), false)`
  pub is_ignored : Str → Bool

module _ {D H : Type 0} ⦃e : Eq D⦄ {docs : Documents D H} {C K : Type 0}
    (reads : FileReads docs C K) where
  open reads use {to_hash, files_at, linked_content, put_hashes, is_ignored}

  abbrev pub slow_hash : Hydrated D C → Bool → Option (PendingHash D K × Bool)
  slow_hash (content c) should_reinsert = some (hash (to_hash c), should_reinsert)
  slow_hash (link id) should_reinsert = some (linked id, should_reinsert)
  slow_hash bad should_reinsert = none

  -- the hash that is stored, if there is one and only one, and otherwise the slow one
  abbrev pub hash_of_entry :
      Option (List (Option K)) → Hydrated D C → Option (PendingHash D K × Bool)
  hash_of_entry none h = slow_hash h true
  hash_of_entry (some []) h = slow_hash h true
  hash_of_entry (some (some k ∷ [])) h = some (hash k, false)
  hash_of_entry (some (none ∷ [])) h = slow_hash h true
  hash_of_entry (some (a ∷ b ∷ rest)) h = slow_hash h false

  abbrev content_of_handle : Store docs → Option (Option D) → Option C
  content_of_handle s (some (some handle)) = linked_content (s.db.repo handle)
  content_of_handle s _ = none

  unfoldable pub get_linked_file : Store docs → D → Option C
  get_linked_file s doc_id = content_of_handle s (get s.db.binary_states doc_id)

  abbrev with_flag : Bool → Option C → Option (K × Bool)
  with_flag should_reinsert none = none
  with_flag should_reinsert (some c) = some (to_hash c, should_reinsert)

  abbrev pub resolve_hash : Store docs → Option (PendingHash D K × Bool) → Option (K × Bool)
  resolve_hash s none = none
  resolve_hash s (some (hash k, should_reinsert)) = some (k, should_reinsert)
  resolve_hash s (some (linked id, should_reinsert)) =
      with_flag should_reinsert (get_linked_file s id)

  abbrev pub put_hash : Str → Option (K × Bool) → Map Str (K × Bool) → Map Str (K × Bool)
  put_hash path none hashes = hashes
  put_hash path (some h) hashes = (path, h) ∷ hashes

  -- the loop over the pending hashes; each path is met once
  unfoldable pub new_hashes : Store docs → Map Str (Entry D C K) → Map Str (K × Bool)
  unfolding get_linked_file
  new_hashes s [] = []
  new_hashes s ((path, entry) ∷ entries) =
      let rest = new_hashes s entries in
      if is_ignored path
      then rest
      else put_hash path (resolve_hash s (hash_of_entry entry.hashes (settled entry.hydrated))) rest

  abbrev asks_reinsert : Option (PendingHash D K × Bool) → Bool
  asks_reinsert none = false
  asks_reinsert (some (pending, should_reinsert)) = should_reinsert

  abbrev pub reinserting : Map Str (Entry D C K) → Bool
  reinserting [] = false
  reinserting ((path, entry) ∷ entries) =
      (if is_ignored path
        then false
        else asks_reinsert (hash_of_entry entry.hashes (settled entry.hydrated)))
      || reinserting entries

  abbrev pub without_flags : Map Str (K × Bool) → Map Str K
  without_flags [] = []
  without_flags ((path, (k, should_reinsert)) ∷ hashes) = (path, k) ∷ without_flags hashes

  -- some entry is hydrated for its hash, and panics
  abbrev pub hash_panics : Map Str (Entry D C K) → Bool
  hash_panics [] = false
  hash_panics ((path, entry) ∷ entries) =
      (is_slow entry.hashes && is_panic entry.hydrated) || hash_panics entries

  unfoldable pub get_hash_index : HistoryRef D H → On docs (Map Str K)
  unfolding new_hashes shadow_of write_shadow resolve_username
  get_hash_index ref_ = do
    d ← shadow_of docs ref_.branch
    entries ← require (files_at d ref_.heads) (bad_branch_document ref_.branch)
    _ ← if hash_panics entries then unwrap none else give tt
    s ← current
    let hashes = new_hashes s entries
    _ ←
        if reinserting entries
        then write_shadow docs ref_.branch
            (put_hashes d ref_.heads hashes (resolve_username docs s))
        else give tt
    give (without_flags hashes)

  abbrev all_created : Map Str K → Map Str ChangeType
  all_created [] = []
  all_created ((path, k) ∷ index) = (path, created) ∷ all_created index

  abbrev compare_index : Option (HistoryRef D H) → Map Str K → On docs (Map Str ChangeType)
  compare_index none new_index = give (all_created new_index)
  compare_index (some old_ref) new_index =
      if not (is_valid old_ref) then give (all_created new_index) else (do
        old_index ← get_hash_index old_ref
        give (get_file_changes ⦃eh = reads.hash_eq⦄ old_index new_index))

  unfoldable pub get_changed_files_between_refs :
      Option (HistoryRef D H) → HistoryRef D H → On docs (Map Str ChangeType)
  unfolding get_hash_index get_file_changes
  get_changed_files_between_refs old_ref new_ref =
      if not (is_valid new_ref)
      then require none (invalid_ref new_ref.branch)
      else (do new_index ← get_hash_index new_ref; compare_index old_ref new_index)

  -- the content of an entry, with that of the document it links
  abbrev pub content_at : Store docs → Hydrated D C → Option C
  content_at s (content c) = some c
  content_at s (link id) = get_linked_file s id
  content_at s bad = none

  abbrev pub put_content : Str → Option C → Map Str C → Map Str C
  put_content path none files = files
  put_content path (some c) files = (path, c) ∷ files

  unfoldable pub read_files : Store docs → List Str → Map Str (Entry D C K) → Map Str C
  unfolding get_linked_file
  read_files s filters [] = []
  read_files s filters ((path, entry) ∷ entries) =
      let files = read_files s filters entries in
      if not (contains filters path)
      then files
      else put_content path (content_at s (settled entry.hydrated)) files

  -- some file that is asked for panics
  abbrev pub read_panics : List Str → Map Str (Entry D C K) → Bool
  read_panics filters [] = false
  read_panics filters ((path, entry) ∷ entries) =
      (contains filters path && is_panic entry.hydrated) || read_panics filters entries

  unfoldable pub get_files_at_ref : HistoryRef D H → List Str → On docs (Map Str C)
  unfolding read_files shadow_of
  get_files_at_ref desired_ref filters = if is_empty filters then require none no_filters else (do
    d ← shadow_of docs desired_ref.branch
    entries ← require (files_at d desired_ref.heads) (bad_branch_document desired_ref.branch)
    _ ← if read_panics filters entries then unwrap none else give tt
    s ← current
    give (read_files s filters entries))
