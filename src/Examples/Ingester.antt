-- ===== src/Examples/Ingester.antt =====
-- The commits of a branch of which one is in both documents and one only in the shadow document.
use backstitch.Prelude.{
  ℕ, ◌≡◌, refl, Bool, true, false, Option, none, some, List, [], ◌∷◌, Str, bytes, Outcome, ok,
  nat_eq, All,
}
use backstitch.Fs.Traversal.{created}
use backstitch.Scene.Numbers.{pos}
use backstitch.Ingester.Summary.{CommitMetadata, CommitInfo, get_change_summary}
use backstitch.Ingester.Listed.{Change, get_changes}
use backstitch.Ingester.Synced.{IsSyncedCommit, get_changes-IsSyncedCommit}

abbrev change : ℕ → Change ℕ
change hash = record { hash = hash; timestamp = pos 0; message = some (bytes "{}") }

abbrev one_file : CommitMetadata ℕ ℕ
one_file = record {
  username = some (bytes "Ada");
  branch_id = some 1;
  merge_metadata = none;
  reverted_to = none;
  changed_files = some (record { change_type = created; path = bytes "res://a.gd" } ∷ []);
  is_setup = some false;
}

abbrev summarize : CommitInfo ℕ ℕ → Outcome (Unit {0}) (Option Str)
summarize =
    get_change_summary (λ d. bytes "doc") (λ h. bytes "0123456789") (λ p. some (bytes "a.gd"))
      (λ d. some (bytes "main"))

abbrev listed : ℕ → Bool → CommitInfo ℕ ℕ
listed hash synced = record {
  hash = hash;
  timestamp = pos 0;
  metadata = some one_file;
  synced = synced;
  summary = bytes "Ada added a.gd";
}

abbrev infos : List (CommitInfo ℕ ℕ)
infos = listed 5 true ∷ listed 6 false ∷ []

two_commits :
    get_changes summarize
      (λ m. some one_file)
      (some 1)
      (some (5 ∷ []))
      (some (change 5 ∷ change 6 ∷ []))
      (some (change 5 ∷ []))
    ≡ ok infos
unfolding get_changes get_change_summary
two_commits = refl

get_changes-IsSyncedCommit_example :
    All (IsSyncedCommit 1 (5 ∷ 6 ∷ []) (5 ∷ []) (5 ∷ 6 ∷ []) (some (5 ∷ []))) infos
get_changes-IsSyncedCommit_example =
    get_changes-IsSyncedCommit summarize (λ m. some one_file) 1 (some (5 ∷ []))
      (some (change 5 ∷ change 6 ∷ [])) (some (change 5 ∷ [])) infos two_commits
