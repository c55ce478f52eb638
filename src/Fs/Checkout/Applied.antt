-- ===== src/Fs/Checkout/Applied.antt =====
-- What the changes of a checkout make of the files on the disk, and what that relies on.
use mathlib.Core.Option
use mathlib.Core.Path.{subst}
use backstitch.Prelude.{
  refl, ap, ◌||◌, false, List, ◌++◌, ◌≡◌, Bool, not, ◌&&◌, sym, ◌∙◌, true, Option, none, some, [],
  ◌∷◌, contains, Bool-cases, Option-cases, inl, inr, arith, if◌then◌else◌,
}
use backstitch.Prelude.Maps.{get, has_value, Distinct}
use backstitch.Fs.Traversal.{ChangeType, created, deleted, modified}
use backstitch.Fs.Checkout.{
  Item, Items, file_item, dir_item, no_items, more_items, walk_item, walk_items, Host, Changes,
  compare_hashes, handle_file_update, handle_file_delete, apply_change, apply_changes,
}

module _ {K L C H R : Type 0} (host : Host K L C H R) where
  open host use {
    Disk, read, tree, ignores_dir, write, remove_file, get_hash, to_hash, should_ignore,
    localize_path, globalize_path, get_hash_index, get_files_at_ref, path_eq, local_eq, hash_eq,
  }

  -- whether a file stands among items, and whether a directory that is ignored hides it
  abbrev mutual
    pub stands_at : Item K → K → Bool
    stands_at (file_item path) k = path_eq.beq path k
    stands_at (dir_item path items) k = stands items k

    pub stands : Items K → K → Bool
    stands no_items k = false
    stands (more_items item items) k = stands_at item k || stands items k

  abbrev mutual
    pub hides_at : Item K → K → Bool
    hides_at (file_item path) k = false
    hides_at (dir_item path items) k = if ignores_dir path then stands items k else hides items k

    pub hides : Items K → K → Bool
    hides no_items k = false
    hides (more_items item items) k = hides_at item k || hides items k

  contains-++ :
      (xs ys : List K) (k : K)
      → contains ⦃e = path_eq⦄ (xs ++ ys) k
        ≡ contains ⦃e = path_eq⦄ xs k || contains ⦃e = path_eq⦄ ys k
  contains-++ [] ys k = refl
  contains-++ (x ∷ xs) ys k = ground (arith, contains-++ xs ys k)

  -- The walk finds the files that no ignored directory hides and that are not ignored.
  mutual
    contains-walk_item :
        (item : Item K) (k : K)
        → hides_at item k ≡ false
        → contains ⦃e = path_eq⦄ (walk_item host item) k ≡ stands_at item k && not (should_ignore k)
    contains-walk_item (file_item path) k h = elim (Bool-cases (path_eq.beq path k)) [
      | inl here ↦ ground (arith, here, ap should_ignore ((path_eq.beq_iff path k).0 here))
      | inr other ↦ ground (arith, other)
    ]
    contains-walk_item (dir_item path items) k h = elim (Bool-cases (ignores_dir path)) [
      | inl ignored ↦ rw ignored (ground (arith, rw ignored at h))
      | inr kept ↦ rw kept (contains-walk_items items k (rw kept at h))
    ]

    pub contains-walk_items :
        (items : Items K) (k : K)
        → hides items k ≡ false
        → contains ⦃e = path_eq⦄ (walk_items host items) k ≡ stands items k && not (should_ignore k)
    contains-walk_items no_items k h = refl
    contains-walk_items (more_items item items) k h =
        contains-++ (walk_item host item) (walk_items host items) k
        ∙ ground (
          arith,
          contains-walk_item item k (ground (arith, h)),
          contains-walk_items items k (ground (arith, h)),
        )

  -- What the checkout relies on: the tree has the files that are there but those that are hidden, a
  -- write or a removal that succeeds is read back, the index has the hash of what the disk holds, and
  -- the two kinds of paths of the project translate into each other.
  pub record HostLaws : Type 0 where
    -- neither hidden nor below a hidden directory
    pub visible : K → Bool
    pub tree_read : (d : Disk) (k : K) → visible k ≡ true → stands (tree d) k ≡ has_value (read d k)
    pub read_write :
        (d : Disk) (k j : K) (c : C)
        → (write d k c).1 ≡ true
        → read (write d k c).0 j ≡ (if host.path_eq.beq k j then some c else read d j)
    pub read_remove :
        (d : Disk) (k j : K)
        → (remove_file d k).1 ≡ true
        → read (remove_file d k).0 j ≡ (if host.path_eq.beq k j then none else read d j)
    pub get_hash_read : (d : Disk) (k : K) → get_hash d k ≡ Option.map to_hash (read d k)
    pub localize_globalize : (l : L) → localize_path (globalize_path l) ≡ l
    pub globalize_localize : (k : K) → globalize_path (localize_path k) ≡ k

  -- Every write and every removal succeeds.
  pub record Succeeds : Type 0 where
    pub writes : (d : Disk) (k : K) (c : C) → (write d k c).1 ≡ true
    pub removes : (d : Disk) (k : K) → (remove_file d k).1 ≡ true

  -- The hash of a file on disk, if it is there.
  abbrev pub hash_of : Disk → K → Option H
  hash_of disk k = Option.map to_hash (read disk k)

  -- What a change makes of a file with a given hash.
  abbrev pub changed : Option (ChangeType × Option C) → Option H → Option H
  changed none old = old
  changed (some (deleted, content)) old = none
  changed (some (created, some c)) old = some (to_hash c)
  changed (some (modified, some c)) old = some (to_hash c)
  changed (some (created, none)) old = old
  changed (some (modified, none)) old = old

  module _ (laws : HostLaws) (succeeds : Succeeds) where
    open laws use {read_write, read_remove, get_hash_read}

    compare_hashes_read :
        (disk : Disk) (k : K) (c : C)
        → compare_hashes host disk k c ≡ true
        → hash_of disk k ≡ some (to_hash c)
    unfolding compare_hashes
    compare_hashes_read disk k c h = elim (Option-cases (get_hash disk k)) [
      | inl gone ↦ absurd (ground arith)
      | inr (old, there) ↦ ground (arith, get_hash_read disk k, hash_eq.beq_iff (to_hash c) old)
    ]

    update_self :
        (disk : Disk) (k : K) (c : C)
        → hash_of (handle_file_update host disk k c).0 k
          ≡ (if should_ignore k then hash_of disk k else some (to_hash c))
    unfolding handle_file_update
    update_self disk k c = elim (Bool-cases (should_ignore k)) [
      | inl ignored ↦ rw ignored
      | inr kept ↦ elim (Bool-cases (compare_hashes host disk k c)) [
        | inl same ↦ rw (kept, same) (compare_hashes_read disk k c same)
        | inr differ ↦
            rw (kept, differ)
              (ground
                (arith, read_write disk k k c (succeeds.writes disk k c), path_eq.beq_iff k k))
      ]
    ]

    hash_of-handle_file_update :
        (disk : Disk) (path k : K) (c : C)
        → hash_of (handle_file_update host disk path c).0 k ≡ (
            if path_eq.beq path k
            then (if should_ignore k then hash_of disk k else some (to_hash c))
            else hash_of disk k)
    unfolding handle_file_update
    hash_of-handle_file_update disk path k c = elim (Bool-cases (path_eq.beq path k)) [
      | inl here ↦ rw here (
          subst
            (λ p.
              hash_of (handle_file_update host disk p c).0 k
              ≡ (if should_ignore k then hash_of disk k else some (to_hash c)))
            (sym ((path_eq.beq_iff path k).0 here)) (update_self disk k c))
      | inr other ↦
          rw other (ground (arith, read_write disk path k c (succeeds.writes disk path c)))
    ]

    hash_of-handle_file_delete :
        (disk : Disk) (path k : K)
        → hash_of (handle_file_delete host disk path).0 k ≡ (
            if path_eq.beq path k
            then (if should_ignore k then hash_of disk k else none)
            else hash_of disk k)
    unfolding handle_file_delete
    hash_of-handle_file_delete disk path k =
        ground (arith, read_remove disk path k (succeeds.removes disk path), path_eq.beq_iff path k)

    hash_of-apply_change :
        (disk : Disk) (path k : K) (change : ChangeType) (content : Option C)
        → hash_of (apply_change host disk path change content).0 k ≡ (
            if path_eq.beq path k
            then (if should_ignore k
                then hash_of disk k
                else changed (some (change, content)) (hash_of disk k))
            else hash_of disk k)
    unfolding apply_change
    hash_of-apply_change disk path k deleted content = hash_of-handle_file_delete disk path k
    hash_of-apply_change disk path k created (some c) = hash_of-handle_file_update disk path k c
    hash_of-apply_change disk path k modified (some c) = hash_of-handle_file_update disk path k c
    hash_of-apply_change disk path k created none = ground arith
    hash_of-apply_change disk path k modified none = ground arith

    -- What a list of changes of different files leaves of each file: nothing happens to a file that is
    -- ignored or has no change, and else its change has been made.
    pub hash_of-apply_changes :
        (disk : Disk) (changes : Changes host) (k : K)
        → Distinct ⦃e = path_eq⦄ changes
        → hash_of (apply_changes host disk changes) k ≡ (
            if should_ignore k
            then hash_of disk k
            else changed (get ⦃e = path_eq⦄ changes k) (hash_of disk k))
    unfolding apply_changes get
    hash_of-apply_changes disk [] k d = ground arith
    hash_of-apply_changes disk ((path, (change, content)) ∷ rest) k d =
        hash_of-apply_changes (apply_change host disk path change content).0 rest k d.1
        ∙ rw (hash_of-apply_change disk path k change content)
            (elim (Bool-cases (path_eq.beq path k)) [
              | inl here ↦
                  let gone : get ⦃e = path_eq⦄ rest k ≡ none =
                    subst (λ p. get ⦃e = path_eq⦄ rest p ≡ none) ((path_eq.beq_iff path k).0 here)
                      d.0 in
                  rw (here, gone) (ground arith)
              | inr other ↦ rw other
            ])
