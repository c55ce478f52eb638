-- ===== src/Diff/FilePaths.antt =====
-- What the diff of one changed file puts on the list.
use mathlib.Core.Path.{subst}
use backstitch.Prelude.{
  ℕ, ◌≡◌, refl, sym, ap, ◌∙◌, Bool, true, false, ◌||◌, Option, none, some, List, [], ◌∷◌, ◌++◌, map,
  append-nil, Str, bytes, Outcome, ok, err, panic, ◌>>=◌, >>=_steps, ok-injective, inl, inr,
  Bool-cases, list_beq, list_eq, nat_eq, if◌then◌else◌,
}
use backstitch.Prelude.Maps.{Map, has_value}
use backstitch.History.Ids.{Ids}
use backstitch.History.Ref.{HistoryRef}
use backstitch.Fs.Traversal.{ChangeType}
use backstitch.Scene.{GodotScene, StillRunning}
use backstitch.Diff.Nodes.{get_sub_resource_diff}
use backstitch.Diff.Contents.{
  FileContent, string, binary, scene_content, SimilarHunk, TextDiff, BinaryResourceDiff, create,
  hunks_of, content_to_cow, get_resource, get_text_diff, get_binary_resource_diff,
}
use backstitch.Diff.Scenes.{
  SceneDiff, TextResourceDiff, type_of_either, all_node_ids, all_sub_resource_ids,
  get_main_resource, diff_nodes, diff_sub_resources, get_scene_diff, get_text_resource_diff,
}
use backstitch.Diff.Instances.{as_scene, resolve_nodes}
use backstitch.Diff.Project.{
  Diff, scene, text_resource_diff, binary_resource, text, is_scene, is_string, is_binary,
  get_diff_file_path, Progress, push_diff, DiffStore, diff_text, diff_scene, diff_resource,
  diff_binary, diff_file,
}

map-append :
    (ds : List Diff) (d : Diff)
    → map get_diff_file_path (ds ++ d ∷ []) ≡ map get_diff_file_path ds ++ get_diff_file_path d ∷ []
map-append [] d = refl
map-append (x ∷ ds) d = ap (λ l. get_diff_file_path x ∷ l) (map-append ds d)

-- `diff_file` puts the path at the end exactly when one of the sides has a content.
abbrev pub has_content : Option FileContent → Option FileContent → Bool
has_content old new = has_value old || has_value new

abbrev pub paths_of : Progress → List Str
paths_of progress = map get_diff_file_path progress.diffs

pushed :
    (d : Diff) (p next : Progress) (path : Str)
    → get_diff_file_path d ≡ path
    → push_diff d p ≡ next
    → paths_of next ≡ paths_of p ++ path ∷ []
pushed d p next path e h =
    ap paths_of (sym h) ∙ map-append p.diffs d ∙ ap (λ x. paths_of p ++ x ∷ []) e

-- a chain of which the last step gives the value
last_step :
    {A B : Type 0} (P : B → Type 0) (m : Outcome StillRunning A) (f : A → B)
    → ((a : A) → P (f a))
    → (b : B) → (do a ← m; ok (f a)) ≡ ok b
    → P b
last_step P (ok a) f p b h = subst P (ok-injective h) (p a)
last_step P (err e) f p b h = absurd (cc)
last_step P panic f p b h = absurd (cc)

content_of_scene :
    (old new : Option FileContent)
    → is_scene old || is_scene new ≡ true
    → has_content old new ≡ true
content_of_scene (some old) new h = refl
content_of_scene none (some new) h = refl
content_of_scene none none h = h

content_of_binary :
    (old new : Option FileContent)
    → is_binary old || is_binary new ≡ true
    → has_content old new ≡ true
content_of_binary (some old) new h = refl
content_of_binary none (some new) h = refl
content_of_binary none none h = h

content_of_string :
    (old new : Option FileContent)
    → is_string old || is_string new ≡ true
    → has_content old new ≡ true
content_of_string (some old) new h = refl
content_of_string none (some new) h = refl
content_of_string none none h = h

no_content :
    (old new : Option FileContent)
    → is_scene old || is_scene new ≡ false
    → is_binary old || is_binary new ≡ false
    → is_string old || is_string new ≡ false
    → has_content old new ≡ false
no_content (some (string s)) new a b c = c
no_content (some (binary s)) new a b c = b
no_content (some (scene_content s)) new a b c = a
no_content none (some (string s)) a b c = c
no_content none (some (binary s)) a b c = b
no_content none (some (scene_content s)) a b c = a
no_content none none a b c = refl

module _ (ids : Ids) (iter_hunks : Str → Str → List SimilarHunk) (store : DiffStore ids)
    (fuel : ℕ) where
  open ids use {DocumentId, ChangeHash}

  module _ (before after : HistoryRef DocumentId ChangeHash) (olds news : Map Str FileContent)
      (path : Str) where
    text_path :
        (change_type : ChangeType) (old new : Option FileContent) (p next : Progress)
        → diff_text ids iter_hunks store fuel before after olds news path change_type old new p
          ≡ ok next
        → paths_of next ≡ paths_of p ++ path ∷ []
    unfolding get_diff_file_path get_text_diff create
    text_path change_type old new p next h =
        let s = >>=_steps (get_text_diff ids iter_hunks fuel path change_type old new) _ next h in
        pushed (text s.0) p next path (its_path s.0 s.1.0) (ok-injective s.1.1)
      where
        its_path :
            (d : TextDiff)
            → get_text_diff ids iter_hunks fuel path change_type old new ≡ ok d
            → d.path ≡ path
        its_path d e =
            let olds = >>=_steps (content_to_cow ids fuel old) _ d e in
            let news = >>=_steps (content_to_cow ids fuel new) _ d olds.1.1 in
            last_step (λ (t : TextDiff). t.path ≡ path) (hunks_of (iter_hunks olds.0 news.0)) _
              (λ _. refl) d news.1.1

    scene_path :
        (old new : Option GodotScene) (p next : Progress)
        → diff_scene ids iter_hunks store fuel before after olds news path old new p ≡ ok next
        → paths_of next ≡ paths_of p ++ path ∷ []
    unfolding get_scene_diff get_diff_file_path
    scene_path old new p next h =
        let s = >>=_steps (get_scene_diff ids fuel old new before after path) _ next h in
        let r = >>=_steps (resolve_nodes old new olds news 0 s.0.changed_nodes) _ next s.1.1 in
        let its_path : s.0.path ≡ path =
          last_step (λ (t : SceneDiff). t.path ≡ path)
            (diff_nodes ids fuel old new before after (all_node_ids old new)) _ (λ _. refl) s.0
            s.1.0 in
        ap paths_of (sym (ok-injective r.1.1))
        ∙ map-append p.diffs (scene (record s.0 { changed_nodes = r.0.0 }))
        ∙ ap (λ x. paths_of p ++ x ∷ []) its_path

    resource_path :
        (old new : Option GodotScene) (p next : Progress)
        → diff_resource ids iter_hunks store fuel before after olds news path old new p ≡ ok next
        → paths_of next ≡ paths_of p ++ path ∷ []
    unfolding get_text_resource_diff get_diff_file_path
    resource_path old new p next h =
        let s = >>=_steps (get_text_resource_diff ids fuel old new before after path) _ next h in
        let subs =
          >>=_steps
            (diff_sub_resources ids fuel old new before after (all_sub_resource_ids old new)) _ s.0
            s.1.0 in
        pushed (text_resource_diff s.0) p next path
          (last_step (λ (t : TextResourceDiff). t.path ≡ path)
            (get_sub_resource_diff ids fuel old new before after [] (get_main_resource old)
              (get_main_resource new))
            _ (λ _. refl) s.0 subs.1.1)
          (ok-injective s.1.1)

    binary_path :
        (change_type : ChangeType) (old new : Option FileContent) (p next : Progress)
        → diff_binary ids iter_hunks store fuel before after olds news path change_type old new p
          ≡ ok next
        → paths_of next ≡ paths_of p ++ path ∷ []
    unfolding get_binary_resource_diff get_diff_file_path
    binary_path change_type old new p next h =
        let s =
          >>=_steps (get_binary_resource_diff ids path change_type old new before after) _ next h in
        let first = >>=_steps (get_resource ids path old before) _ s.0 s.1.0 in
        pushed (binary_resource s.0) p next path
          (last_step (λ (t : BinaryResourceDiff). t.path ≡ path) (get_resource ids path new after) _
            (λ _. refl) s.0 first.1.1)
          (ok-injective s.1.1)

    pub file_path :
        (change_type : ChangeType) (old new : Option FileContent) (p next : Progress)
        → diff_file ids iter_hunks store fuel before after olds news path change_type old new p
          ≡ ok next
        → paths_of next ≡ paths_of p ++ (if has_content old new then path ∷ [] else [])
    unfolding diff_file
    file_path change_type old new p next h = elim (Bool-cases (is_scene old || is_scene new)) [
      | inl s ↦ rw (content_of_scene old new s) (scene_file (rw s at h))
      | inr not_scene ↦ elim (Bool-cases (is_binary old || is_binary new)) [
        | inl b ↦
            rw (content_of_binary old new b)
              (binary_path change_type old new p next (rw (not_scene, b) at h))
        | inr not_binary ↦ elim (Bool-cases (is_string old || is_string new)) [
          | inl t ↦
              rw (content_of_string old new t)
                (text_path change_type old new p next (rw (not_scene, not_binary, t) at h))
          | inr not_string ↦ rw (no_content old new not_scene not_binary not_string) (
              ap paths_of (sym (ok-injective (rw (not_scene, not_binary, not_string) at h)))
              ∙ sym (append-nil (paths_of p)))
        ]
      ]
    ]
      where
        scene_file :
            (if is_string old || is_string new
                then diff_text ids iter_hunks store fuel before after olds news path change_type old
                    new p
                else if list_beq
                    (type_of_either (as_scene old) (as_scene new))
                    (bytes "PackedScene")
                then diff_scene ids iter_hunks store fuel before after olds news path
                    (as_scene old)
                    (as_scene new)
                    p
                else diff_resource ids iter_hunks store fuel before after olds news path
                    (as_scene old)
                    (as_scene new)
                    p)
              ≡ ok next
            → paths_of next ≡ paths_of p ++ path ∷ []
        scene_file e = elim (Bool-cases (is_string old || is_string new)) [
          | inl t ↦ text_path change_type old new p next (rw t at e)
          | inr not_string ↦
              elim (Bool-cases
                (list_beq (type_of_either (as_scene old) (as_scene new)) (bytes "PackedScene"))) [
                  | inl packed ↦
                      scene_path (as_scene old) (as_scene new) p next (rw (not_string, packed) at e)
                  | inr other ↦
                      resource_path (as_scene old) (as_scene new) p next
                        (rw (not_string, other) at e)
                ]
        ]
