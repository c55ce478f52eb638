-- ===== src/Fs/Checkout/Lookups.antt =====
-- What the maps of the checkout hold of a path: the files on disk, their localized paths, and the
-- changes joined with their contents.
use mathlib.Core.Path.{subst}
use backstitch.Prelude.{
  ◌≡◌, refl, sym, ap, ◌∙◌, ◌&&◌, true, false, Option, none, some, List, [], ◌∷◌, contains,
  Bool-cases, inl, inr, arith, if◌then◌else◌,
}
use backstitch.Prelude.Maps.{Map, get, has_value, get-insert, Distinct}
use backstitch.Fs.Traversal.{ChangeType, created, deleted, modified}
use backstitch.Fs.Checkout.{
  Host, walk_items, hash_files, get_all_files, localize_all, Changes, join_one, join_changes,
  add_hash,
}
use backstitch.Fs.Checkout.Applied.{HostLaws, hides, contains-walk_items, hash_of}

module _ {K L C H R : Type 0} (host : Host K L C H R) (laws : HostLaws host) where
  open host use {
    Disk, read, tree, get_hash, to_hash, should_ignore, localize_path, globalize_path,
    get_hash_index, get_files_at_ref, path_eq, local_eq, hash_eq, ref_eq,
  }
  open laws use {get_hash_read, localize_globalize, globalize_localize}

  get-add_hash :
      (f k : K) (o : Option H) (found : Map K H)
      → get ⦃e = path_eq⦄ (add_hash host f o found) k ≡ (
          if path_eq.beq f k
          then (if has_value o then o else get ⦃e = path_eq⦄ found k)
          else get ⦃e = path_eq⦄ found k)
  get-add_hash f k none found = ground arith
  get-add_hash f k (some h) found = get-insert ⦃e = path_eq⦄ found f k h ∙ ground arith

  get-hash_files :
      (disk : Disk) (fs : List K) (k : K)
      → get ⦃e = path_eq⦄ (hash_files host disk fs) k
        ≡ (if contains ⦃e = path_eq⦄ fs k then get_hash disk k else none)
  unfolding hash_files get
  get-hash_files disk [] k = refl
  get-hash_files disk (f ∷ fs) k = elim (Bool-cases (path_eq.beq f k)) [
    | inl here ↦
        let same : f ≡ k = (path_eq.beq_iff f k).0 here in
        rw (here, same)
          (ground (
            arith,
            get-hash_files disk fs k,
            get-add_hash k k (get_hash disk k) (hash_files host disk fs),
            path_eq.beq_iff k k,
          ))
    | inr other ↦ rw other (
        ground (
          arith,
          get-hash_files disk fs k,
          get-add_hash f k (get_hash disk f) (hash_files host disk fs),
        ))
  ]

  pub get-get_all_files :
      (disk : Disk) (k : K)
      → laws.visible k ≡ true
      → hides host (tree disk) k ≡ false
      → get ⦃e = path_eq⦄ (get_all_files host disk) k
        ≡ (if should_ignore k then none else hash_of host disk k)
  unfolding get_all_files
  get-get_all_files disk k seen shown =
      get-hash_files disk (walk_items host (tree disk)) k
      ∙ ground (
        arith,
        contains-walk_items host (tree disk) k shown,
        laws.tree_read disk k seen,
        get_hash_read disk k,
      )

  same_path : (k : K) (l : L) → local_eq.beq (localize_path k) l ≡ path_eq.beq k (globalize_path l)
  same_path k l = elim (Bool-cases (local_eq.beq (localize_path k) l)) [
    | inl a ↦
        a
        ∙ sym (
            (path_eq.beq_iff k (globalize_path l)).1 (
              sym (globalize_localize k)
              ∙ ap globalize_path ((local_eq.beq_iff (localize_path k) l).0 a)))
    | inr b ↦ elim (Bool-cases (path_eq.beq k (globalize_path l))) [
      | inl c ↦
          let same : localize_path k ≡ l =
            ap localize_path ((path_eq.beq_iff k (globalize_path l)).0 c) ∙ localize_globalize l in
          absurd (ground (arith, local_eq.beq_iff (localize_path k) l))
      | inr d ↦ b ∙ sym d
    ]
  ]

  pub get-localize_all :
      (m : Map K H) (l : L)
      → get ⦃e = local_eq⦄ (localize_all host m) l ≡ get ⦃e = path_eq⦄ m (globalize_path l)
  unfolding localize_all get
  get-localize_all [] l = refl
  get-localize_all ((k, h) ∷ m) l =
      get-insert ⦃e = local_eq⦄ (localize_all host m) (localize_path k) l h
      ∙ rw (same_path k l, get-localize_all m l)

  global_same : (l j : L) → path_eq.beq (globalize_path l) (globalize_path j) ≡ local_eq.beq l j
  global_same l j = sym (same_path (globalize_path l) j) ∙ rw localize_globalize

  -- the change of a path with its content
  abbrev pub joined : Option ChangeType → Option C → Option (ChangeType × Option C)
  joined none content = none
  joined (some deleted) content = some (deleted, none)
  joined (some created) none = none
  joined (some created) (some c) = some (created, some c)
  joined (some modified) none = none
  joined (some modified) (some c) = some (modified, some c)

  get-join_one :
      (p l : L) (change : ChangeType) (content : Option C) (rest : Changes host)
      → get ⦃e = path_eq⦄ (join_one host p change content rest) (globalize_path l) ≡ (
          if local_eq.beq p l && has_value (joined (some change) content)
          then joined (some change) content
          else get ⦃e = path_eq⦄ rest (globalize_path l))
  unfolding get
  get-join_one p l deleted content rest = ground (arith, global_same p l)
  get-join_one p l created none rest = ground arith
  get-join_one p l created (some c) rest = ground (arith, global_same p l)
  get-join_one p l modified none rest = ground arith
  get-join_one p l modified (some c) rest = ground (arith, global_same p l)

  pub get-join_changes :
      (changes : Map L ChangeType) (contents : Map L C) (l : L)
      → Distinct ⦃e = local_eq⦄ changes
      → get ⦃e = path_eq⦄ (join_changes host changes contents) (globalize_path l)
        ≡ joined (get ⦃e = local_eq⦄ changes l) (get ⦃e = local_eq⦄ contents l)
  unfolding join_changes get
  get-join_changes [] contents l d = refl
  get-join_changes ((p, change) ∷ changes) contents l d =
      get-join_one p l change (get ⦃e = local_eq⦄ contents p) (join_changes host changes contents)
      ∙ elim (Bool-cases (local_eq.beq p l)) [
        | inl here ↦
            let same : p ≡ l = (local_eq.beq_iff p l).0 here in
            let gone : get ⦃e = local_eq⦄ changes l ≡ none =
              subst (λ x. get ⦃e = local_eq⦄ changes x ≡ none) same d.0 in
            rw (here, same) (ground (arith, get-join_changes changes contents l d.1, gone))
        | inr other ↦ rw other (get-join_changes changes contents l d.1)
      ]

  Distinct-join_one :
      (p : L) (change : ChangeType) (content : Option C) (rest : Changes host)
      → get ⦃e = path_eq⦄ rest (globalize_path p) ≡ none
      → Distinct ⦃e = path_eq⦄ rest
      → Distinct ⦃e = path_eq⦄ (join_one host p change content rest)
  Distinct-join_one p deleted content rest gone d = (gone, d)
  Distinct-join_one p created none rest gone d = d
  Distinct-join_one p created (some c) rest gone d = (gone, d)
  Distinct-join_one p modified none rest gone d = d
  Distinct-join_one p modified (some c) rest gone d = (gone, d)

  pub Distinct-join_changes :
      (changes : Map L ChangeType) (contents : Map L C)
      → Distinct ⦃e = local_eq⦄ changes
      → Distinct ⦃e = path_eq⦄ (join_changes host changes contents)
  unfolding join_changes
  Distinct-join_changes [] contents d = tt
  Distinct-join_changes ((p, change) ∷ changes) contents d =
      Distinct-join_one p change _ _
        (get-join_changes changes contents p d.1
          ∙ ap (λ o. joined o (get ⦃e = local_eq⦄ contents p)) d.0)
        (Distinct-join_changes changes contents d.1)
