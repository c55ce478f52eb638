-- ===== src/Commits/Given.antt =====
-- What a commit of files writes: the entries that are made of them.
use backstitch.Prelude.{
  ◌≡◌, sym, ap, ◌∙◌, Option, none, some, List, [], ◌∷◌, Str, Outcome, ok, Eq, ◌==◌, list_eq, nat_eq,
  ok-injective, if◌then◌else◌,
}
use backstitch.Prelude.Maps.{Map}
use backstitch.Prelude.Actions.{continue_with, give, continue_with_steps}
use backstitch.Scene.{GodotScene}
use backstitch.Diff.Contents.{FileContent, string, binary, scene_content}
use backstitch.BranchDb.State.{BranchSyncState}
use backstitch.BranchDb.Files.{Hydrated, content, link, bad}
use backstitch.BranchDb.Store.{DbError, Documents, Store}
use backstitch.Commits.Entries.{Entry, binary_entry, text_entry, scene_entry, delete_entry}
use backstitch.Commits.Contents.{path_in, scene_read, content_in, committed_at}
use backstitch.Commits.Changes.{Transactions, create_new_binary_doc, next_id, later_ids, entries_of}

-- What the content of a file is read as, and the ids that are left after it.
abbrev pub link_to : {D : Type 0} → Option D → Hydrated D FileContent
link_to none = bad
link_to (some id) = link id

abbrev pub given :
    {D : Type 0}
    → (GodotScene → Option GodotScene)
    → List (Option D)
    → Option FileContent
    → Outcome (Unit {0}) (Hydrated D FileContent)
given hydrate_scene ids none = ok bad
given hydrate_scene ids (some (string s)) = ok (content (string s))
given hydrate_scene ids (some (binary s)) = ok (link_to (next_id ids))
given hydrate_scene ids (some (scene_content scene)) = scene_read (hydrate_scene scene)

abbrev pub ids_after : {D : Type 0} → Option FileContent → List (Option D) → List (Option D)
ids_after none ids = ids
ids_after (some (string s)) ids = ids
ids_after (some (binary s)) ids = later_ids ids
ids_after (some (scene_content scene)) ids = ids

-- What is read of a path after files are committed: the last that is given for it.
abbrev pub given_at :
    {D : Type 0}
    → (GodotScene → Option GodotScene)
    → List (Option D)
    → List (Str × Option FileContent)
    → Str
    → Outcome (Unit {0}) (Hydrated D FileContent)
    → Outcome (Unit {0}) (Hydrated D FileContent)
given_at hydrate_scene ids [] path before = before
given_at hydrate_scene ids ((p, c) ∷ rest) path before =
    given_at hydrate_scene (ids_after c ids) rest path
      (if p == path then given hydrate_scene ids c else before)

module _ {D H K : Type 0} ⦃e : Eq D⦄ (docs : Documents D H) (txs : Transactions docs K) where
  open docs use {am}

  abbrev pub states : Store docs → Map D (BranchSyncState D H am.Doc)
  states s = s.db.branch_sync_states

  -- a new document of a binary file leaves the states of the branches
  states-create_new_binary_doc :
      (o : Option D) (text : Str) (s t : Store docs) (id : D)
      → create_new_binary_doc docs txs o text s ≡ (t, ok id)
      → (o ≡ some id) × (states s ≡ states t)
  unfolding create_new_binary_doc
  states-create_new_binary_doc none text s t id done =
      absurd (cc (ap (λ (q : Store docs × Outcome (DbError D) D). q.1) done))
  states-create_new_binary_doc (some x) text s t id done = (
    ap some (ok-injective (ap (λ (q : Store docs × Outcome (DbError D) D). q.1) done)),
    ap (λ (q : Store docs × Outcome (DbError D) D). states q.0) done,
  )

  -- the entries commit what is given for the files, and making them leaves the states
  abbrev pub Commits :
      List (Option D)
      → List (Str × Option FileContent)
      → Store docs
      → Store docs
      → List (Entry D K)
      → Type 0
  Commits ids contents s t entries =
      (states s ≡ states t)
      × ((path : Str) (before : Outcome (Unit {0}) (Hydrated D FileContent))
          → committed_at txs.files.hydrate_scene entries path before
            ≡ given_at txs.files.hydrate_scene ids contents path before)

  Commits-cons :
      (entry : Entry D K) (ids : List (Option D)) (rest : List (Str × Option FileContent))
      (s t : Store docs) (entries : List (Entry D K))
      → ((u : Store docs) (es : List (Entry D K))
          → entries_of docs txs ids rest s ≡ (u, ok es)
          → Commits ids rest s u es)
      → continue_with (entries_of docs txs ids rest s) (λ es. give (entry ∷ es)) ≡ (t, ok entries)
      → (states s ≡ states t)
        × ((path : Str) (before : Outcome (Unit {0}) (Hydrated D FileContent))
            → committed_at txs.files.hydrate_scene entries path before
              ≡ given_at txs.files.hydrate_scene ids rest path (
                  if path_in entry == path
                  then content_in txs.files.hydrate_scene entry
                  else before))
  Commits-cons entry ids rest s t entries ih done =
      let (u, es, (made, put)) =
        continue_with_steps (entries_of docs txs ids rest s) _ t entries done in
      let (same, reads) = ih u es made in
      (
        same ∙ ap (λ (q : Store docs × Outcome (DbError D) (List (Entry D K))). states q.0) put,
        λ path before.
            ap (λ x. committed_at txs.files.hydrate_scene x path before)
              (sym (
                ok-injective
                  (ap (λ (q : Store docs × Outcome (DbError D) (List (Entry D K))). q.1) put)))
            ∙ reads path _,
      )

  pub entries_of_lem :
      (ids : List (Option D)) (contents : List (Str × Option FileContent)) (s t : Store docs)
      (entries : List (Entry D K))
      → entries_of docs txs ids contents s ≡ (t, ok entries)
      → Commits ids contents s t entries
  unfolding entries_of
  entries_of_lem ids [] s t entries done = (
    ap (λ (q : Store docs × Outcome (DbError D) (List (Entry D K))). states q.0) done,
    λ path before.
        ap (λ x. committed_at txs.files.hydrate_scene x path before)
          (sym (
            ok-injective
              (ap (λ (q : Store docs × Outcome (DbError D) (List (Entry D K))). q.1) done))),
  )
  entries_of_lem ids ((p, none) ∷ rest) s t entries done =
      Commits-cons (delete_entry p) ids rest s t entries (λ u es. entries_of_lem ids rest s u es)
        done
  entries_of_lem ids ((p, some (string x)) ∷ rest) s t entries done =
      Commits-cons (text_entry p x (txs.to_hash (string x))) ids rest s t entries
        (λ u es. entries_of_lem ids rest s u es) done
  entries_of_lem ids ((p, some (scene_content x)) ∷ rest) s t entries done =
      Commits-cons (scene_entry p x (txs.to_hash (scene_content x))) ids rest s t entries
        (λ u es. entries_of_lem ids rest s u es) done
  entries_of_lem ids ((p, some (binary x)) ∷ rest) s t entries done =
      let (u, id, (made, then_rest)) =
        continue_with_steps (create_new_binary_doc docs txs (next_id ids) x s) _ t entries done in
      let (is_id, same) = states-create_new_binary_doc (next_id ids) x s u id made in
      let (same_rest, reads) =
        Commits-cons (binary_entry p id (txs.to_hash (binary x))) (later_ids ids) rest u t entries
          (λ v es. entries_of_lem (later_ids ids) rest u v es) then_rest in
      (
        same ∙ same_rest,
        λ path before.
            reads path before
            ∙ ap
                (λ o.
                  given_at txs.files.hydrate_scene (later_ids ids) rest path
                    (if p == path then ok (link_to o) else before))
                (sym is_id),
      )
