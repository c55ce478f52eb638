-- ===== src/Fs/Checkout/Goal.antt =====
-- Where the changes that a checkout proposes lead.
use mathlib.Core.Option
use backstitch.Prelude.{
  ◌≡◌, refl, sym, ap, ◌∙◌, true, false, Option, none, some, List, [], ◌∷◌, contains, option_beq,
  is_empty, Bool-cases, Option-cases, inl, inr, arith, if◌then◌else◌,
}
use backstitch.Prelude.Maps.{Map, get, keys, has_value, Distinct, contains-keys_eq}
use backstitch.Fs.Traversal.{
  ChangeType, get_file_changes, change_of, get_file_changes-change_of, Distinct-get_file_changes,
}
use backstitch.Fs.Checkout.{
  Host, get_all_files, localize_all, Changes, join_changes, propose, checkout_ref, apply_changes,
}
use backstitch.Fs.Checkout.Applied.{
  HostLaws, Succeeds, hides, hash_of, hash_of-apply_changes, changed,
}
use backstitch.Fs.Checkout.Lookups.{
  get-get_all_files, get-localize_all, joined, get-join_changes, Distinct-join_changes,
}

module _ {K L C H R : Type 0} (host : Host K L C H R) (laws : HostLaws host)
    (succeeds : Succeeds host) where
  open host use {
    Disk, tree, read, get_hash, to_hash, should_ignore, localize_path, globalize_path,
    get_hash_index, get_files_at_ref, path_eq, local_eq, hash_eq, ref_eq,
  }

  -- a change, made, is the goal's state
  changed-joined :
      (d g : Option H) (c : Option C)
      → (has_value (change_of ⦃eh = hash_eq⦄ d g) ≡ true → Option.map to_hash c ≡ g)
      → changed host (joined host laws (change_of ⦃eh = hash_eq⦄ d g) c) d ≡ g
  changed-joined none none c h = refl
  changed-joined none (some a) none h = h refl
  changed-joined none (some a) (some c) h = h refl
  changed-joined (some b) none c h = refl
  changed-joined (some b) (some a) c h = elim (Bool-cases (hash_eq.beq b a)) [
    | inl same ↦ rw same (ap some ((hash_eq.beq_iff b a).0 same))
    | inr other ↦ modified_content c a b other (h (rw other refl))
  ]
    where
      modified_content :
          (c : Option C) (a b : H)
          → hash_eq.beq b a ≡ false
          → Option.map to_hash c ≡ some a
          → changed host (joined host laws (change_of ⦃eh = hash_eq⦄ (some b) (some a)) c) (some b)
            ≡ some a
      modified_content none a b other h = absurd (ground arith)
      modified_content (some c) a b other h = rw other h

  -- the changes that a checkout of `goal_files` finds
  abbrev to_goal : Disk → Map L H → Map L ChangeType
  to_goal disk goal_files =
      get_file_changes ⦃e = local_eq⦄ ⦃eh = hash_eq⦄ (localize_all host (get_all_files host disk))
        goal_files

  get-to_goal :
      (disk : Disk) (goal_files : Map L H) (l : L)
      → Distinct ⦃e = local_eq⦄ goal_files
      → laws.visible (globalize_path l) ≡ true
      → hides host (tree disk) (globalize_path l) ≡ false
      → should_ignore (globalize_path l) ≡ false
      → get ⦃e = local_eq⦄ (to_goal disk goal_files) l
        ≡ change_of ⦃eh = hash_eq⦄
            (hash_of host disk (globalize_path l))
            (get ⦃e = local_eq⦄ goal_files l)
  get-to_goal disk goal_files l once seen shown kept =
      get_file_changes-change_of ⦃e = local_eq⦄ ⦃eh = hash_eq⦄
        (localize_all host (get_all_files host disk)) goal_files l once
      ∙ rw
          (
            get-localize_all host laws (get_all_files host disk) l,
            get-get_all_files host laws disk (globalize_path l) seen shown,
            kept,
          )
          refl

  joined-goal :
      (disk : Disk) (goal_files : Map L H) (contents : Map L C) (l : L)
      → Distinct ⦃e = local_eq⦄ goal_files
      → laws.visible (globalize_path l) ≡ true
      → hides host (tree disk) (globalize_path l) ≡ false
      → (contains ⦃e = local_eq⦄ (keys ⦃e = local_eq⦄ (to_goal disk goal_files)) l ≡ true
          → Option.map to_hash (get ⦃e = local_eq⦄ contents l) ≡ get ⦃e = local_eq⦄ goal_files l)
      → hash_of host
          (apply_changes host disk (join_changes host (to_goal disk goal_files) contents))
          (globalize_path l)
        ≡ (if should_ignore (globalize_path l)
            then hash_of host disk (globalize_path l)
            else get ⦃e = local_eq⦄ goal_files l)
  joined-goal disk goal_files contents l once seen shown content =
      hash_of-apply_changes host laws succeeds disk _ (globalize_path l) (
        Distinct-join_changes host laws _ contents
          (Distinct-get_file_changes ⦃e = local_eq⦄ ⦃eh = hash_eq⦄ _ goal_files))
      ∙ elim (Bool-cases (should_ignore (globalize_path l))) [
        | inl ignored ↦ rw ignored refl
        | inr kept ↦
            rw
              (
                kept,
                get-join_changes host laws (to_goal disk goal_files) contents l
                    (Distinct-get_file_changes ⦃e = local_eq⦄ ⦃eh = hash_eq⦄ _ goal_files),
                get-to_goal disk goal_files l once seen shown kept,
              )
              (changed-joined _ _ _ (λ h. content (
                contains-keys_eq ⦃e = local_eq⦄ (to_goal disk goal_files) l
                ∙ ap has_value (get-to_goal disk goal_files l once seen shown kept)
                ∙ h)))
      ]

  empty-goal :
      (disk : Disk) (goal_files : Map L H) (l : L)
      → Distinct ⦃e = local_eq⦄ goal_files
      → laws.visible (globalize_path l) ≡ true
      → hides host (tree disk) (globalize_path l) ≡ false
      → is_empty (to_goal disk goal_files) ≡ true
      → hash_of host disk (globalize_path l) ≡ (
          if should_ignore (globalize_path l)
          then hash_of host disk (globalize_path l)
          else get ⦃e = local_eq⦄ goal_files l)
  unfolding get
  empty-goal disk goal_files l once seen shown empty =
      elim (Bool-cases (should_ignore (globalize_path l))) [
        | inl ignored ↦ rw ignored refl
        | inr kept ↦
            let gone : get ⦃e = local_eq⦄ (to_goal disk goal_files) l ≡ none =
              get_none_of_is_empty (to_goal disk goal_files) empty in
            rw kept
              (unchanged _ _ (sym (get-to_goal disk goal_files l once seen shown kept) ∙ gone))
      ]
    where
      get_none_of_is_empty :
          (m : Map L ChangeType) → is_empty m ≡ true → get ⦃e = local_eq⦄ m l ≡ none
      get_none_of_is_empty [] h = refl
      get_none_of_is_empty (x ∷ m) h = absurd (ground arith)

      unchanged : (d g : Option H) → change_of ⦃eh = hash_eq⦄ d g ≡ none → d ≡ g
      unchanged none none h = refl
      unchanged none (some a) h = absurd (ground arith)
      unchanged (some b) none h = absurd (ground arith)
      unchanged (some b) (some a) h = ap some ((hash_eq.beq_iff b a).0 (ground arith))

  -- If the store has a ref, and the content of each of its files with the hash that its index
  -- gives, and if every write and removal succeeds, then applying the changes that a checkout
  -- of the ref proposes leaves every file of the project that is not ignored with the hash that
  -- the ref has of it, and absent where the ref has it not; an ignored file stays as it was.
  -- The file is not hidden and not below a directory that is hidden or ignored; the hash index
  -- has each path once, the index of the disk has the hash of what the disk holds, and the
  -- paths of the project's files on the disk and behind res:// translate into each other.
  pub checkout_ref-apply_changes :
      (current : Option R) (goal_ref : R) (disk : Disk) (goal_files : Map L H)
      (changes : Changes host) (l : L)
      → get_hash_index goal_ref ≡ some goal_files
      → Distinct ⦃e = local_eq⦄ goal_files
      → laws.visible (globalize_path l) ≡ true
      → hides host (tree disk) (globalize_path l) ≡ false
      → ((paths : List L) (contents : Map L C)
          → get_files_at_ref goal_ref paths ≡ some contents
          → (j : L) → contains ⦃e = local_eq⦄ paths j ≡ true
          → Option.map to_hash (get ⦃e = local_eq⦄ contents j) ≡ get ⦃e = local_eq⦄ goal_files j)
      → checkout_ref host current goal_ref disk ≡ some changes
      → hash_of host (apply_changes host disk changes) (globalize_path l) ≡ (
          if should_ignore (globalize_path l)
          then hash_of host disk (globalize_path l)
          else get ⦃e = local_eq⦄ goal_files l)
  unfolding checkout_ref propose apply_changes
  checkout_ref-apply_changes current goal_ref disk goal_files changes l index once seen shown
        content proposed =
      elim (Bool-cases (option_beq ⦃e = ref_eq⦄ current (some goal_ref))) [
        | inl same ↦ absurd (ground arith)
        | inr other ↦ elim (Bool-cases (is_empty (to_goal disk goal_files))) [
          | inl empty ↦
              let none_left : changes ≡ [] = ground arith in
              rw none_left (empty-goal disk goal_files l once seen shown empty)
          | inr more ↦
              elim (Option-cases
                (get_files_at_ref goal_ref (keys ⦃e = local_eq⦄ (to_goal disk goal_files)))) [
                  | inl failed ↦ absurd (ground arith)
                  | inr (contents, found) ↦
                      let made : changes ≡ join_changes host (to_goal disk goal_files) contents =
                        ground arith in
                      rw made (
                        joined-goal disk goal_files contents l once seen shown
                          (content _ contents found l))
                ]
        ]
      ]
