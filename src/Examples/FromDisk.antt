-- ===== src/Examples/FromDisk.antt =====
-- The choice of the files to commit: the file 1 changed, 2 is to be skipped, 3 is new and 4 is gone.
use backstitch.Prelude.{
  ℕ, ◌≡◌, refl, Option, none, some, List, [], ◌∷◌, nat_eq, ◌&&◌, option_beq, if◌then◌else◌,
}
use backstitch.Prelude.Maps.{Map, get, Distinct, has_value}
use backstitch.Fs.Traversal.{ChangeType, created, modified, deleted, change_of}
use backstitch.Commits.FromDisk.{changes_to_commit, get-changes_to_commit}

abbrev skipped : Map ℕ ℕ
skipped = (2, 21) ∷ (1, 99) ∷ []

abbrev at_ref : Map ℕ ℕ
at_ref = (1, 10) ∷ (2, 20) ∷ (4, 40) ∷ []

abbrev on_disk : Map ℕ ℕ
on_disk = (1, 11) ∷ (2, 21) ∷ (3, 30) ∷ []

chosen : changes_to_commit skipped at_ref on_disk ≡ (1, modified) ∷ (3, created) ∷ (4, deleted) ∷ []
unfolding changes_to_commit backstitch.Fs.Traversal.mark_present backstitch.Prelude.Maps.insert get
chosen = refl

on_disk-Distinct : Distinct on_disk
unfolding get
on_disk-Distinct = (refl, (refl, (refl, tt)))

get-changes_to_commit_example : get (changes_to_commit skipped at_ref on_disk) 2 ≡ (
    if has_value (get skipped 2) && option_beq (get skipped 2) (get on_disk 2)
    then none
    else change_of (get at_ref 2) (get on_disk 2))
get-changes_to_commit_example = get-changes_to_commit skipped at_ref on_disk 2 on_disk-Distinct
