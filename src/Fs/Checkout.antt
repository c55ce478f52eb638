-- ===== src/Fs/Checkout.antt =====
-- backstitch/src/project/fs/sync_automerge_to_fs.rs, and `get_all_files` of
-- backstitch/src/project/fs/fs_traversal.rs: how a ref is checked out onto the disk.
pub mod Applied
pub mod Lookups
pub mod Goal
use backstitch.Prelude.{
  ◌≡◌, Bool, true, false, not, Option, none, some, List, [], ◌∷◌, ◌++◌, Eq, ◌==◌, contains,
  option_beq, is_empty, if◌then◌else◌,
}
use backstitch.Prelude.Maps.{Map, get, insert, keys, has_value}
use backstitch.Fs.Traversal.{ChangeType, created, deleted, modified, get_file_changes}

mutual
  -- A file or a directory, with what jwalk reads below it: entries that are hidden or that it cannot
  -- read are left out.
  pub data Item (K : Type 0) : Type 0 where
    file_item : K → Item K
    dir_item : K → Items K → Item K

  pub data Items (K : Type 0) : Type 0 where
    no_items : Items K
    more_items : Item K → Items K → Items K

-- The disk, the index of file hashes, the ignore rules and the branch store, as the checkout uses
-- them. `K` are the paths on disk below the project's directory, `L` the paths of the project's files
-- behind `res://`, `C` contents, `H` hashes and `R` refs. Fs.Paths has the two functions on paths.
pub record Host (K L C H R : Type 0) : Type 1 where
  pub path_eq : Eq K
  pub local_eq : Eq L
  pub hash_eq : Eq H
  pub ref_eq : Eq R
  pub Disk : Type 0
  pub read : Disk → K → Option C
  -- what is under the project's directory
  pub tree : Disk → Items K
  -- a write or a removal, and whether it went well
  pub write : Disk → K → C → Disk × Bool
  pub remove_file : Disk → K → Disk × Bool
  -- `FileSystemIndex::get_hash`, none for an error
  pub get_hash : Disk → K → Option H
  pub to_hash : C → H
  -- `should_ignore(path, false)` and `should_ignore(path, true)`
  pub should_ignore : K → Bool
  pub ignores_dir : K → Bool
  pub localize_path : K → L
  pub globalize_path : L → K
  -- of BranchDb, none for an error
  pub get_hash_index : R → Option (Map L H)
  pub get_files_at_ref : R → List L → Option (Map L C)

module _ {K L C H R : Type 0} (host : Host K L C H R) where
  open host use {
    Disk, read, tree, ignores_dir, write, remove_file, get_hash, to_hash, should_ignore,
    localize_path, globalize_path, get_hash_index, get_files_at_ref,
  }

  abbrev add_hash : K → Option H → Map K H → Map K H
  add_hash file none found = found
  add_hash file (some hash) found = insert ⦃e = host.path_eq⦄ found file hash

  -- the walk over the files, which leaves out what is ignored and all below an ignored directory
  abbrev mutual
    pub walk_item : Item K → List K
    walk_item (file_item path) = if should_ignore path then [] else path ∷ []
    walk_item (dir_item path items) =
        let found = walk_items items in if ignores_dir path then [] else found

    pub walk_items : Items K → List K
    walk_items no_items = []
    walk_items (more_items item items) = walk_item item ++ walk_items items

  -- the hashes of the files that can be hashed
  unfoldable pub hash_files : Disk → List K → Map K H
  hash_files disk [] = []
  hash_files disk (file ∷ rest) = add_hash file (get_hash disk file) (hash_files disk rest)

  unfoldable pub get_all_files : Disk → Map K H
  unfolding hash_files
  get_all_files disk = hash_files disk (walk_items (tree disk))

  -- `.into_iter().map(|(k, v)| (localize_path(&k), v)).collect()`
  unfoldable pub localize_all : Map K H → Map L H
  localize_all [] = []
  localize_all ((k, h) ∷ m) = insert ⦃e = host.local_eq⦄ (localize_all m) (localize_path k) h

  abbrev pub Changes : Type 0
  Changes = Map K (ChangeType × Option C)

  abbrev join_one : L → ChangeType → Option C → Changes → Changes
  join_one path deleted content rest = (globalize_path path, (deleted, none)) ∷ rest
  join_one path change none rest = rest
  join_one path change (some content) rest = (globalize_path path, (change, some content)) ∷ rest

  -- the `filter_map` that joins each change with its content
  unfoldable pub join_changes : Map L ChangeType → Map L C → Changes
  join_changes [] contents = []
  join_changes ((path, change) ∷ changes) contents =
      join_one path change (get ⦃e = host.local_eq⦄ contents path) (join_changes changes contents)

  unfoldable pub propose : R → Disk → Map L H → Option Changes
  unfolding get_all_files localize_all join_changes
  propose goal_ref disk goal_files =
      let changes =
        get_file_changes ⦃e = host.local_eq⦄ ⦃eh = host.hash_eq⦄ (localize_all (get_all_files disk))
          goal_files in
      if is_empty changes
      then some []
      else elim (get_files_at_ref goal_ref (keys ⦃e = host.local_eq⦄ changes)) [
        | none ↦ none
        | some contents ↦ some (join_changes changes contents)
      ]

  -- `none` where the goal is checked out already and where the store fails
  unfoldable pub checkout_ref : Option R → R → Disk → Option Changes
  unfolding propose
  checkout_ref current_ref goal_ref disk =
      if option_beq ⦃e = host.ref_eq⦄ current_ref (some goal_ref)
      then none
      else elim (get_hash_index goal_ref) [
        | none ↦ none
        | some goal_files ↦ propose goal_ref disk goal_files
      ]

  abbrev same_hash : Option H → H → Bool
  same_hash none hash = false
  same_hash (some existing_hash) hash = host.hash_eq.beq hash existing_hash

  unfoldable pub compare_hashes : Disk → K → C → Bool
  compare_hashes disk path content = same_hash (get_hash disk path) (to_hash content)

  -- the disk after the call, and whether it wrote
  unfoldable pub handle_file_update : Disk → K → C → Disk × Bool
  unfolding compare_hashes
  handle_file_update disk path content =
      if should_ignore path
      then (disk, false)
      else if compare_hashes disk path content
      then (disk, false)
      else write disk path content

  -- `canonicalize` fails where the file is gone
  unfoldable pub handle_file_delete : Disk → K → Disk × Bool
  handle_file_delete disk path =
      if should_ignore path
      then (disk, false)
      else if not (has_value (read disk path))
      then (disk, false)
      else remove_file disk path

  -- one future of `checkout_futures` in driver.rs; an update without content panics there, and
  -- `join_changes` makes none
  unfoldable pub apply_change : Disk → K → ChangeType → Option C → Disk × Bool
  unfolding handle_file_update handle_file_delete
  apply_change disk path deleted content = handle_file_delete disk path
  apply_change disk path change (some content) = handle_file_update disk path content
  apply_change disk path change none = (disk, false)

  -- all of them; their paths differ, so their order does not matter
  unfoldable pub apply_changes : Disk → Changes → Disk
  unfolding apply_change
  apply_changes disk [] = disk
  apply_changes disk ((path, (change, content)) ∷ rest) =
      apply_changes (apply_change disk path change content).0 rest
