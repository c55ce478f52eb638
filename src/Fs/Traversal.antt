-- ===== src/Fs/Traversal.antt =====
-- `get_file_changes` of backstitch/src/project/fs/fs_traversal.rs, and `ChangeType` of
-- backstitch/src/helpers/utils.rs.
use backstitch.Prelude.{
  ◌≡◌, refl, ap, ◌∙◌, not, Option, none, some, List, [], ◌∷◌, Eq, ◌==◌, contains, Bool-cases, inl,
  inr, arith, if◌then◌else◌,
}
use backstitch.Prelude.Maps.{
  Map, get, insert, keys, get-insert, Distinct, Distinct-insert, contains-keys_eq,
}

pub data ChangeType : Type 0 where
  created deleted modified : ChangeType

-- What a path's change is, from its hashes on both sides.
abbrev pub change_of : {H : Type 0} ⦃eh : Eq H⦄ → Option H → Option H → Option ChangeType
change_of none none = none
change_of none (some a) = some created
change_of (some b) none = some deleted
change_of (some b) (some a) = if b == a then none else some modified

-- what the two loops say of a path, over what stood there
abbrev over : {A : Type 0} → Option A → Option A → Option A
over none o = o
over (some a) o = some a

abbrev of_present : {H : Type 0} ⦃eh : Eq H⦄ → Option H → Option H → Option ChangeType
of_present b none = none
of_present b (some a) = change_of b (some a)

module _ {K H : Type 0} ⦃e : Eq K⦄ ⦃eh : Eq H⦄ where
  -- one entry of `after` against what `before` has of its path
  abbrev pub mark_entry : Option H → K → H → Map K ChangeType → Map K ChangeType
  mark_entry none path after_hash changes = insert changes path created
  mark_entry (some before_hash) path after_hash changes =
      if not (before_hash == after_hash) then insert changes path modified else changes

  -- the loop over the entries of `after`
  unfoldable pub mark_present : Map K H → Map K H → Map K ChangeType → Map K ChangeType
  mark_present before [] changes = changes
  mark_present before ((path, after_hash) ∷ after) changes =
      mark_present before after (mark_entry (get before path) path after_hash changes)

  -- the loop over the paths of `before` that `after` has not
  unfoldable pub mark_deleted : List K → Map K H → Map K ChangeType → Map K ChangeType
  mark_deleted [] after changes = changes
  mark_deleted (path ∷ paths) after changes =
      mark_deleted paths after
        (if contains (keys after) path then changes else insert changes path deleted)

  unfoldable pub get_file_changes : Map K H → Map K H → Map K ChangeType
  unfolding mark_present mark_deleted
  get_file_changes before after = mark_deleted (keys before) after (mark_present before after [])

  get-mark_entry :
      (b : Option H) (p path : K) (h : H) (changes : Map K ChangeType)
      → get (mark_entry b p h changes) path
        ≡ (if p == path then over (change_of b (some h)) (get changes path) else get changes path)
  get-mark_entry none p path h changes = ground (arith, get-insert changes p path created)
  get-mark_entry (some b) p path h changes = ground (arith, get-insert changes p path modified)

  get-mark_present :
      (before after : Map K H) (changes : Map K ChangeType) (path : K)
      → Distinct after
      → get (mark_present before after changes) path
        ≡ over (of_present (get before path) (get after path)) (get changes path)
  unfolding mark_present get
  get-mark_present before [] changes path d = refl
  get-mark_present before ((p, h) ∷ after) changes path d =
      get-mark_present before after (mark_entry (get before p) p h changes) path d.1
      ∙ elim (Bool-cases (p == path)) [
        | inl here ↦
            let same : p ≡ path = (e.beq_iff p path).0 here in
            rw (get-mark_entry (get before p) p path h changes, here)
              (ground (arith, d.0, same, ap (get after) same, ap (get before) same))
        | inr other ↦ rw (get-mark_entry (get before p) p path h changes, other)
      ]

  get-mark_deleted :
      (paths : List K) (after : Map K H) (changes : Map K ChangeType) (path : K)
      → get (mark_deleted paths after changes) path ≡ (
          if contains paths path
          then (if contains (keys after) path then get changes path else some deleted)
          else get changes path)
  unfolding mark_deleted
  get-mark_deleted [] after changes path = refl
  get-mark_deleted (p ∷ paths) after changes path =
      get-mark_deleted paths after _ path ∙ elim (Bool-cases (p == path)) [
        | inl here ↦
            let same : p ≡ path = (e.beq_iff p path).0 here in
            ground (arith, ap (contains (keys after)) same, get-insert changes p path deleted)
        | inr other ↦ ground (arith, get-insert changes p path deleted)
      ]

  -- For every path, the changes from one set of files to another hold what became of it: created if
  -- only the second has it, deleted if only the first has it, modified if both have it with different
  -- hashes, and nothing otherwise.
  pub get_file_changes-change_of :
      (before after : Map K H) (path : K)
      → Distinct after
      → get (get_file_changes before after) path ≡ change_of (get before path) (get after path)
  unfolding get_file_changes get
  get_file_changes-change_of before after path d =
      rw
        (
          get-mark_deleted (keys before) after (mark_present before after []) path,
          get-mark_present before after [] path d,
          contains-keys_eq before path,
          contains-keys_eq after path,
        )
        (ground arith)

  Distinct-mark_entry :
      (b : Option H) (p : K) (h : H) (changes : Map K ChangeType)
      → Distinct changes
      → Distinct (mark_entry b p h changes)
  Distinct-mark_entry none p h changes d = Distinct-insert changes p created d
  Distinct-mark_entry (some b) p h changes d = elim (Bool-cases (b == h)) [
    | inl same ↦ rw same d
    | inr other ↦ rw other (Distinct-insert changes p modified d)
  ]

  Distinct-mark_present :
      (before after : Map K H) (changes : Map K ChangeType)
      → Distinct changes
      → Distinct (mark_present before after changes)
  unfolding mark_present
  Distinct-mark_present before [] changes d = d
  Distinct-mark_present before ((p, h) ∷ after) changes d =
      Distinct-mark_present before after _ (Distinct-mark_entry (get before p) p h changes d)

  Distinct-mark_deleted :
      (paths : List K) (after : Map K H) (changes : Map K ChangeType)
      → Distinct changes
      → Distinct (mark_deleted paths after changes)
  unfolding mark_deleted
  Distinct-mark_deleted [] after changes d = d
  Distinct-mark_deleted (p ∷ paths) after changes d =
      Distinct-mark_deleted paths after _ (elim (Bool-cases (contains (keys after) p)) [
        | inl there ↦ rw there d
        | inr gone ↦ rw gone (Distinct-insert changes p deleted d)
      ])

  pub Distinct-get_file_changes :
      (before after : Map K H) → Distinct (get_file_changes before after)
  unfolding get_file_changes
  Distinct-get_file_changes before after =
      Distinct-mark_deleted (keys before) after _ (Distinct-mark_present before after [] tt)
