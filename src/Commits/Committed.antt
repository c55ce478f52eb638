-- ===== src/Commits/Committed.antt =====
-- A commit of entries, and what is read of every path after it.
use backstitch.Prelude.{
  ◌≡◌, refl, sym, ap, ◌∙◌, Bool, true, false, Option, none, some, List, [], ◌∷◌, ◌++◌, Str, bytes,
  Outcome, ok, >>=_steps, ok-injective, ◌==◌, list_eq, nat_eq, inl, inr, Bool-cases, Option-cases,
  if◌then◌else◌,
}
use backstitch.Scene.{GodotScene}
use backstitch.Diff.Contents.{FileContent, string}
use backstitch.Ingester.Summary.{ChangedFile}
use backstitch.BranchDb.Files.{Hydrated, content, link, bad}
use backstitch.Commits.Entries.{
  scene_or_text, link_of, Kind, absent, map_object, other_object, scalar, Value, text_object,
  text_scalar, byte_scalar, structured, other, FilesMap, Entry, binary_entry, text_entry,
  scene_entry, delete_entry, content_key, url_key, structured_key, text_map, with_text, commit_text,
  scene_map, commit_scene, commit_entry, commit_entries, hydrate_content_at,
}
use backstitch.Commits.Views.{
  IsMap, View, no_values, view, view-hash, view-put_map, view-delete_url, view-delete_structured,
  view-update_text, view-reconcile, view-delete,
}
use backstitch.Commits.Contents.{
  with_url, with_scene, with_content, path_in, scene_read, content_in, committed_at,
  kind-put_map_here, at_path, twice, view-commit_binary, IsText-with_text, without_content,
  view-with_text,
}

module _ {T D K : Type 0} (files : FilesMap T) (laws : IsMap files) (hash_bytes : K → Str)
    (show_id : D → Str) where
  open files use {
    kind, value, put_map, put, update_text, delete_key, delete, reconcile, hydrate_scene,
  }

  kind-with_text :
      (v : Option Value) (t : T) (p : Str)
      → kind (with_text files hash_bytes show_id v t p) p ≡ kind t p
  kind-with_text (some (text_object s)) t p = refl
  kind-with_text none t p = laws.kind-put t p content_key p _
  kind-with_text (some (text_scalar s)) t p = laws.kind-put t p content_key p _
  kind-with_text (some (byte_scalar s)) t p = laws.kind-put t p content_key p _
  kind-with_text (some (structured s)) t p = laws.kind-put t p content_key p _
  kind-with_text (some other) t p = laws.kind-put t p content_key p _

  view-commit_text :
      (t : T) (p q text : Str) (hash : K)
      → kind t p ≡ map_object
      → view files laws (commit_text files hash_bytes show_id t p text hash) q
        ≡ (if p == q then with_content (some (text_object text)) no_values else view files laws t q)
  unfolding commit_text
  view-commit_text t p q text hash is_map =
      let deleted = delete_key t p url_key in
      let cleared = delete_key deleted p structured_key in
      let texted = with_text files hash_bytes show_id (value cleared p content_key) cleared p in
      let is_cleared : kind cleared p ≡ map_object =
        laws.kind-delete_key deleted p structured_key p
        ∙ (laws.kind-delete_key t p url_key p ∙ is_map) in
      let is_texted : kind texted p ≡ map_object =
        kind-with_text (value cleared p content_key) cleared p ∙ is_cleared in
      let (s, is_text) =
        IsText-with_text files laws hash_bytes show_id (value cleared p content_key) cleared p refl
          is_cleared in
      let write = with_content (some (text_object text)) in
      view-hash files laws (update_text texted p content_key text) p q _
        (laws.kind-update_text texted p content_key p text ∙ is_texted)
      ∙ view-update_text files laws texted p q s text is_text
      ∙ sym (twice (p == q) write without_content (view files laws texted q))
      ∙ at_path (p == q) write _ _ (
          view-with_text files laws hash_bytes show_id (value cleared p content_key) cleared p q
            is_cleared)
      ∙ twice (p == q) write without_content (view files laws cleared q)
      ∙ at_path (p == q) write _ _ (
          view-delete_structured files laws deleted p q
          ∙ at_path (p == q) (with_scene none) _ _ (view-delete_url files laws t p q)
          ∙ twice (p == q) (with_scene none) (with_url none) (view files laws t q))
      ∙ twice (p == q) write (λ v. with_scene none (with_url none v)) (view files laws t q)

  -- the entry at a path is a map, and what is read of other paths stays
  abbrev Opens : T → T → Str → Type 0
  Opens t u p =
      (kind u p ≡ map_object)
      × ((q : Str) → (p == q) ≡ false → view files laws u q ≡ view files laws t q)

  opened_anew : (t : T) (p : Str) → Opens t (put_map t p) p
  opened_anew t p = (
    kind-put_map_here files laws hash_bytes show_id t p,
    λ q apart.
        view-put_map files laws t p q
        ∙ ap (λ b. if b then no_values else view files laws t q) apart,
  )

  text_map_lem :
      (k : Kind) (t : T) (p : Str)
      → kind t p ≡ k
      → Opens t (text_map files hash_bytes show_id k t p).0 p
  text_map_lem map_object t p was = (was, λ q apart. refl)
  text_map_lem absent t p was = opened_anew t p
  text_map_lem other_object t p was = opened_anew t p
  text_map_lem scalar t p was = opened_anew t p

  scene_map_lem :
      (k : Kind) (t : T) (p q : Str)
      → (p == q) ≡ false
      → view files laws (scene_map files hash_bytes show_id k t p) q ≡ view files laws t q
  scene_map_lem map_object t p q apart = refl
  scene_map_lem other_object t p q apart = refl
  scene_map_lem absent t p q apart = (opened_anew t p).1 q apart
  scene_map_lem scalar t p q apart = (opened_anew t p).1 q apart

  abbrev pub Read : Type 0
  Read = Outcome (Unit {0}) (Hydrated D FileContent)

  module _ (parse_automerge_url : Str → Option D)
      (parses : (d : D) → parse_automerge_url (bytes "automerge:" ++ show_id d) ≡ some d) where
    -- what is read of the values of an entry
    abbrev read : View → Read
    read v = scene_or_text files parse_automerge_url v.scene_value v.content_value v.url_value

    read_at :
        (b : Bool) (v w old : View) (r : Read)
        → v ≡ (if b then w else old)
        → read w ≡ r
        → read v ≡ (if b then r else read old)
    read_at true v w old r same is_read = ap read same ∙ is_read
    read_at false v w old r same is_read = ap read same

    hydrate-commit_text :
        (t : T) (p q text : Str) (hash : K)
        → read (
            view files laws
              (commit_text files hash_bytes show_id
                (text_map files hash_bytes show_id (kind t p) t p).0
                p
                text
                hash)
              q)
          ≡ (if p == q then ok (content (string text)) else read (view files laws t q))
    hydrate-commit_text t p q text hash =
        let opened = (text_map files hash_bytes show_id (kind t p) t p).0 in
        let (is_map, same) = text_map_lem (kind t p) t p refl in
        read_at (p == q) _ (with_content (some (text_object text)) no_values)
          (view files laws opened q) (ok (content (string text)))
          (view-commit_text opened p q text hash is_map) refl
        ∙ elim (Bool-cases (p == q)) [
          | inl here ↦ rw here refl
          | inr apart ↦ rw apart (ap read (same q apart))
        ]

    read_scene :
        (o : Option GodotScene) (v : View)
        → read (with_scene (some (structured o)) v) ≡ scene_read o
    read_scene none v = refl
    read_scene (some scene) v = refl

    hydrate-commit_scene :
        (t : T) (p q : Str) (scene : GodotScene) (hash : K) (r : T)
        → commit_scene files hash_bytes show_id t p scene hash ≡ ok r
        → read (view files laws r q)
          ≡ (if p == q then scene_read (hydrate_scene scene) else read (view files laws t q))
    unfolding commit_scene
    hydrate-commit_scene t p q scene hash r done =
        let opened = scene_map files hash_bytes show_id (kind t p) t p in
        elim (Option-cases (reconcile opened p structured_key scene)) [
          | inl failed ↦ absurd (cc (rw failed at done))
          | inr (u, written) ↦
              let (is_map, same_kind) =
                laws.kind-reconcile opened u p structured_key p scene written in
              ap (λ x. read (view files laws x q)) (sym (ok-injective (rw written at done)))
              ∙ ap read (view-hash files laws u p q _ (same_kind ∙ is_map))
              ∙ read_at (p == q) _
                  (with_scene (some (structured (hydrate_scene scene))) (view files laws opened q))
                  (view files laws opened q) (scene_read (hydrate_scene scene))
                  (view-reconcile files laws opened u p q scene written)
                  (read_scene (hydrate_scene scene) (view files laws opened q))
              ∙ elim (Bool-cases (p == q)) [
                | inl here ↦ rw here refl
                | inr apart ↦ rw apart (ap read (scene_map_lem (kind t p) t p q apart))
              ]
        ]

    hydrate-commit_entry :
        (entry : Entry D K) (t : T) (q : Str) (r : T × ChangedFile)
        → commit_entry files hash_bytes show_id entry t ≡ ok r
        → hydrate_content_at files parse_automerge_url r.0 q ≡ (
            if path_in entry == q
            then content_in hydrate_scene entry
            else hydrate_content_at files parse_automerge_url t q)
    unfolding commit_entry hydrate_content_at
    hydrate-commit_entry (binary_entry p handle hash) t q r done =
        ap (λ (x : T × ChangedFile). read (view files laws x.0 q)) (sym (ok-injective done))
        ∙ read_at (p == q) _ _ (view files laws t q) (ok (link handle))
            (view-commit_binary files laws hash_bytes show_id t p q handle hash)
            (ap (λ o. ok (link_of files parse_automerge_url o)) (parses handle))
    hydrate-commit_entry (text_entry p text hash) t q r done =
        ap (λ (x : T × ChangedFile). read (view files laws x.0 q)) (sym (ok-injective done))
        ∙ hydrate-commit_text t p q text hash
    hydrate-commit_entry (scene_entry p scene hash) t q r done =
        let (u, (committed, rest)) =
          >>=_steps (commit_scene files hash_bytes show_id t p scene hash) _ r done in
        ap (λ (x : T × ChangedFile). read (view files laws x.0 q)) (sym (ok-injective rest))
        ∙ hydrate-commit_scene t p q scene hash u committed
    hydrate-commit_entry (delete_entry p) t q r done =
        ap (λ (x : T × ChangedFile). read (view files laws x.0 q)) (sym (ok-injective done))
        ∙ read_at (p == q) _ no_values (view files laws t q) (ok bad) (view-delete files laws t p q)
            refl

    -- After a commit of entries that does not panic, what is read of a path is what the last
    -- entry of the path commits: its text, its scene as it hydrates, a panic where the scene
    -- does not hydrate, the link to its document, or an error for a removal. Where no entry has
    -- the path, it is what was read before. The map of files reads back what is written, a
    -- scene as it hydrates, and the url of a document parses to it.
    pub hydrate-commit_entries :
        (entries : List (Entry D K)) (t : T) (q : Str) (r : T × List ChangedFile)
        → commit_entries files hash_bytes show_id entries t ≡ ok r
        → hydrate_content_at files parse_automerge_url r.0 q
          ≡ committed_at hydrate_scene entries q (hydrate_content_at files parse_automerge_url t q)
    unfolding commit_entries
    hydrate-commit_entries [] t q r done =
        ap (λ (x : T × List ChangedFile). hydrate_content_at files parse_automerge_url x.0 q)
          (sym (ok-injective done))
    hydrate-commit_entries (entry ∷ entries) t q r done =
        let (first, (committed, then_rest)) =
          >>=_steps (commit_entry files hash_bytes show_id entry t) _ r done in
        let (rest, (committed_rest, put_together)) =
          >>=_steps (commit_entries files hash_bytes show_id entries first.0) _ r then_rest in
        ap (λ (x : T × List ChangedFile). hydrate_content_at files parse_automerge_url x.0 q)
          (sym (ok-injective put_together))
        ∙ hydrate-commit_entries entries first.0 q rest committed_rest
        ∙ ap (committed_at hydrate_scene entries q) (hydrate-commit_entry entry t q first committed)
