-- ===== src/Diff/Listing.antt =====
-- The files that a project diff lists.
use backstitch.Prelude.{
  ℕ, zero, suc, ◌≡◌, refl, sym, ap, ◌∙◌, some, List, [], ◌∷◌, ◌++◌, map, append_assoc, append-nil,
  Str, ok, ◌>>=◌, >>=_steps, ok-injective, is_empty, inl, inr, Bool-cases, list_eq, nat_eq, arith,
  if◌then◌else◌,
}
use backstitch.Prelude.Maps.{Map, get, keys}
use backstitch.History.Ids.{Ids}
use backstitch.History.Ref.{HistoryRef, ref_beq}
use backstitch.Fs.Traversal.{ChangeType}
use backstitch.Scene.Serialize.{sort_by, insert_by}
use backstitch.Scene.Document.{str_le}
use backstitch.Diff.Contents.{FileContent, SimilarHunk}
use backstitch.Diff.Instances.{InstancePath, set_types}
use backstitch.Diff.Project.{
  Diff, scene, text_resource_diff, binary_resource, text, get_diff_file_path, ProjectDiff, Progress,
  DiffStore, set_types_at, set_all_types, diff_file, diff_files, no_progress, path_le,
  diff_contents, get_diff,
}
use backstitch.Diff.FilePaths.{has_content, paths_of, file_path}

map-insert_by :
    (d : Diff) (ds : List Diff)
    → map get_diff_file_path (insert_by path_le d ds)
      ≡ insert_by str_le (get_diff_file_path d) (map get_diff_file_path ds)
unfolding insert_by get_diff_file_path
map-insert_by d [] = refl
map-insert_by d (x ∷ ds) = elim (Bool-cases (path_le d x)) [
  | inl before ↦ rw before refl
  | inr after ↦ rw after (ap (λ l. get_diff_file_path x ∷ l) (map-insert_by d ds))
]

map-sort_by :
    (ds : List Diff)
    → map get_diff_file_path (sort_by path_le ds) ≡ sort_by str_le (map get_diff_file_path ds)
unfolding sort_by
map-sort_by [] = refl
map-sort_by (d ∷ ds) =
    map-insert_by d (sort_by path_le ds)
    ∙ ap (insert_by str_le (get_diff_file_path d)) (map-sort_by ds)

-- Setting types leaves the paths.
map-set_types_at :
    (old_needed new_needed : Map Str FileContent) (idx : ℕ) (needed : Map ℕ InstancePath)
    (ds out : List Diff)
    → set_types_at old_needed new_needed idx needed ds ≡ ok out
    → map get_diff_file_path out ≡ map get_diff_file_path ds
unfolding set_types_at get_diff_file_path
map-set_types_at old_needed new_needed idx needed [] out h = absurd (cc)
map-set_types_at old_needed new_needed zero needed (scene d ∷ rest) out h =
    let s = >>=_steps (set_types old_needed new_needed needed d.changed_nodes) _ out h in
    ap (map get_diff_file_path) (sym (ok-injective s.1.1))
map-set_types_at old_needed new_needed zero needed (text_resource_diff d ∷ rest) out h =
    ap (map get_diff_file_path) (sym (ok-injective h))
map-set_types_at old_needed new_needed zero needed (binary_resource d ∷ rest) out h =
    ap (map get_diff_file_path) (sym (ok-injective h))
map-set_types_at old_needed new_needed zero needed (text d ∷ rest) out h =
    ap (map get_diff_file_path) (sym (ok-injective h))
map-set_types_at old_needed new_needed (suc idx) needed (d ∷ rest) out h =
    let s = >>=_steps (set_types_at old_needed new_needed idx needed rest) _ out h in
    ap (map get_diff_file_path) (sym (ok-injective s.1.1))
    ∙ ap (λ l. get_diff_file_path d ∷ l)
        (map-set_types_at old_needed new_needed idx needed rest s.0 s.1.0)

map-set_all_types :
    (old_needed new_needed : Map Str FileContent) (needed : Map ℕ (Map ℕ InstancePath))
    (ds out : List Diff)
    → set_all_types old_needed new_needed needed ds ≡ ok out
    → map get_diff_file_path out ≡ map get_diff_file_path ds
unfolding set_all_types
map-set_all_types old_needed new_needed [] ds out h =
    ap (map get_diff_file_path) (sym (ok-injective h))
map-set_all_types old_needed new_needed ((idx, n) ∷ needed) ds out h =
    let s = >>=_steps (set_types_at old_needed new_needed idx n ds) _ out h in
    map-set_all_types old_needed new_needed needed s.0 out s.1.1
    ∙ map-set_types_at old_needed new_needed idx n ds s.0 s.1.0

-- the changed files that have a content at one of the refs
abbrev pub listed : Map Str FileContent → Map Str FileContent → Map Str ChangeType → List Str
listed olds news [] = []
listed olds news ((path, change_type) ∷ rest) =
    (if has_content (get olds path) (get news path) then path ∷ [] else []) ++ listed olds news rest

module _ (ids : Ids) (iter_hunks : Str → Str → List SimilarHunk) (store : DiffStore ids)
    (fuel : ℕ) where
  open ids use {DocumentId, ChangeHash}

  module _ (before after : HistoryRef DocumentId ChangeHash) (olds news : Map Str FileContent) where
    files_path :
        (changed : Map Str ChangeType) (p next : Progress)
        → diff_files ids iter_hunks store fuel before after olds news changed p ≡ ok next
        → paths_of next ≡ paths_of p ++ listed olds news changed
    unfolding diff_files
    files_path [] p next h = ap paths_of (sym (ok-injective h)) ∙ sym (append-nil (paths_of p))
    files_path ((path, change_type) ∷ rest) p next h =
        let old = get olds path in
        let new = get news path in
        let s =
          >>=_steps
            (diff_file ids iter_hunks store fuel before after olds news path change_type old new p)
            _ next h in
        files_path rest s.0 next s.1.1
        ∙ ap (λ l. l ++ listed olds news rest)
            (file_path ids iter_hunks store fuel before after olds news path change_type old new p
              s.0 s.1.0)
        ∙ append_assoc (paths_of p) (if has_content old new then path ∷ [] else [])
            (listed olds news rest)

    contents_path :
        (changed : Map Str ChangeType) (result : ProjectDiff)
        → diff_contents ids iter_hunks store fuel before after changed olds news ≡ ok result
        → map get_diff_file_path result.file_diffs ≡ sort_by str_le (listed olds news changed)
    unfolding diff_contents
    contents_path changed result h =
        let s =
          >>=_steps
            (diff_files ids iter_hunks store fuel before after olds news changed no_progress) _
            result h in
        let t = >>=_steps (set_all_types _ _ s.0.diff_idx_to_needed_map s.0.diffs) _ result s.1.1 in
        ap (λ (r : ProjectDiff). map get_diff_file_path r.file_diffs) (sym (ok-injective t.1.1))
        ∙ map-sort_by t.0
        ∙ ap (sort_by str_le) (
            map-set_all_types _ _ s.0.diff_idx_to_needed_map s.0.diffs t.0 t.1.0
            ∙ files_path changed no_progress s.0 s.1.0)

    -- If the diff of two refs is made, its files are the changed files that have a content at
    -- one of the two refs, each once for each of its changes, in the order of their paths.
    pub map-get_diff :
        (changed : Map Str ChangeType) (result : ProjectDiff)
        → store.get_changed_files_between_refs before after ≡ some changed
        → store.get_files_at_ref before (keys changed) ≡ some olds
        → store.get_files_at_ref after (keys changed) ≡ some news
        → get_diff ids iter_hunks store fuel before after ≡ ok (some result)
        → map get_diff_file_path result.file_diffs ≡ sort_by str_le (listed olds news changed)
    unfolding get_diff
    map-get_diff changed result found old new h =
        elim (Bool-cases (ref_beq ⦃d = ids.doc_eq⦄ ⦃h = ids.hash_ord.eq⦄ before after)) [
          | inl same ↦ absurd (ground (arith, rw same at h))
          | inr other ↦ elim (Bool-cases (is_empty changed)) [
            | inl nothing ↦ absurd (ground (arith, rw (other, found, nothing) at h))
            | inr some_change ↦ loaded (rw (other, found, some_change, new, old) at h)
          ]
        ]
      where
        loaded :
            (do
              d ← diff_contents ids iter_hunks store fuel before after changed olds news
              ok (some d))
              ≡ ok (some result)
            → map get_diff_file_path result.file_diffs ≡ sort_by str_le (listed olds news changed)
        loaded e =
            let s =
              >>=_steps (diff_contents ids iter_hunks store fuel before after changed olds news) _
                (some result) e in
            contents_path changed result (s.1.0 ∙ ap ok (cc (ok-injective s.1.1)))
