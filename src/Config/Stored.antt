-- ===== src/Config/Stored.antt =====
-- How settings are read after they are written.
use backstitch.Prelude.{
  ◌≡◌, refl, sym, ap, ◌∙◌, true, ◌&&◌, Option, none, some, Outcome, ok, err, panic, Str, list_eq,
  [], nat_eq, option_eq, ◌==◌, inl, inr, Bool-cases, beq_refl, if◌then◌else◌,
}
use backstitch.Prelude.Maps.{Map, get, insert, remove, get-insert, get-remove}
use backstitch.Prelude.Actions.{continue_with, continue_with_steps, require}
use backstitch.Config.Backing.{
  serialize, Files, Toml, Backing, atomic_write, lookup, put, on_disk, insert_in, remove_in, key_in,
  table_in, write_backing, reload_if, reload_backing, get_value, set_value,
}

-- The table of a value that is made of a table is that table.
abbrev pub AreTables : {V : Type 0} → Toml V → Type 0
AreTables {V} toml = (table : Map Str V) → toml.as_table (toml.of_table table) ≡ some table

module _ {V : Type 0} (toml : Toml V) where
  lookup-insert :
      (table part : Map Str V) (section name other : Str)
      → AreTables toml
      → lookup toml (insert table section (toml.of_table part)) name other
        ≡ (if section == name then get part other else lookup toml table name other)
  lookup-insert table part section name other tables = elim (Bool-cases (section == name)) [
    | inl here ↦ rw (get-insert table section name (toml.of_table part), here, tables part) refl
    | inr apart ↦ rw (get-insert table section name (toml.of_table part), apart) refl
  ]

  get-insert_in :
      (part : Option (Map Str V)) (key other : Str) (v : V)
      → get (insert_in part key v) other ≡ (if key == other then some v else key_in part other)
  unfolding get
  get-insert_in none key other v = get-insert [] key other v
  get-insert_in (some part) key other v = get-insert part key other v

  same_section :
      (section name : Str) (table : Map Str V) (other : Str)
      → (section == name) ≡ true
      → key_in (table_in toml (get table section)) other ≡ lookup toml table name other
  same_section section name table other here =
      ap (λ x. key_in (table_in toml (get table x)) other) ((list_eq.beq_iff section name).0 here)

  abbrev nothing : Option V
  nothing = none

  lookup-remove_in :
      (table : Map Str V) (section key name other : Str) (part : Option (Map Str V))
      → AreTables toml
      → table_in toml (get table section) ≡ part
      → lookup toml (remove_in toml table section part key) name other
        ≡ (if (section == name) && (key == other) then none else lookup toml table name other)
  lookup-remove_in table section key name other none tables found =
      elim (Bool-cases (section == name)) [
        | inl here ↦
            rw here (
              absent here
              ∙ sym (ap (λ x. if key == other then none else x) (absent here) ∙ if_none))
        | inr apart ↦ rw apart refl
      ]
    where
      absent : (section == name) ≡ true → lookup toml table name other ≡ none
      absent here =
          sym (same_section section name table other here) ∙ ap (λ p. key_in p other) found

      if_none : (if key == other then nothing else nothing) ≡ nothing
      if_none = elim (Bool-cases (key == other)) [
        | inl same ↦ rw same refl
        | inr apart ↦ rw apart refl
      ]
  lookup-remove_in table section key name other (some part) tables found =
      lookup-insert table (remove part key) section name other tables
      ∙ elim (Bool-cases (section == name)) [
        | inl here ↦ rw here (
            get-remove part key other
            ∙ ap (λ x. if key == other then none else x)
                (ap (λ p. key_in p other) (sym found) ∙ same_section section name table other here))
        | inr apart ↦ rw apart refl
      ]

  lookup-put :
      (table : Map Str V) (section key : Str) (value : Option V) (name other : Str)
      → AreTables toml
      → lookup toml (put toml table section key value) name other
        ≡ (if (section == name) && (key == other) then value else lookup toml table name other)
  lookup-put table section key none name other tables =
      lookup-remove_in table section key name other _ tables refl
  lookup-put table section key (some v) name other tables =
      lookup-insert table (insert_in (table_in toml (get table section)) key v) section name other
        tables
      ∙ elim (Bool-cases (section == name)) [
        | inl here ↦ rw here (
            get-insert_in (table_in toml (get table section)) key other v
            ∙ ap (λ x. if key == other then some v else x)
                (same_section section name table other here))
        | inr apart ↦ rw apart refl
      ]

abbrev value_of : {E A : Type 0} → A → Outcome E A → A
value_of x (ok a) = a
value_of x (err e) = x
value_of x panic = x

module _ {W M V : Type 0} (files : Files W M) (toml : Toml V) where
  -- After a write, what is known of the file is what the disk has.
  abbrev IsFresh : Backing W M V → Type 0
  IsFresh s = files.metadata s.disk ≡ ok s.metadata

  IsFresh-reload_backing :
      (s : Backing W M V) → IsFresh s → reload_backing files toml s ≡ (s, ok tt)
  unfolding reload_backing reload_if
  IsFresh-reload_backing s fresh =
      rw (fresh, beq_refl ⦃e = option_eq ⦃e = files.metadata_eq⦄⦄ s.metadata) refl

  require_keeps :
      (o : Option Str) (s u : Backing W M V) (contents : Str)
      → require o serialize s ≡ (u, ok contents)
      → s ≡ u
  require_keeps none s u contents h = ap (λ p. p.0) h
  require_keeps (some a) s u contents h = ap (λ p. p.0) h

  write_backing_steps :
      (s t : Backing W M V)
      → write_backing files toml s ≡ (t, ok tt)
      → IsFresh t × (t.table ≡ s.table)
  unfolding write_backing
  write_backing_steps s t done =
      let (u, contents, (required, then_written)) =
        continue_with_steps (require (toml.to_string_pretty s.table) serialize s) _ t tt done in
      let (v, _, (written, then_read)) =
        continue_with_steps (on_disk files toml (atomic_write files contents) u) _ t tt
          then_written in
      let (w, metadata, (was_read, was_set)) =
        continue_with_steps (on_disk files toml (λ d. (d, files.metadata d)) v) _ t tt then_read in
      (
        ap files.metadata (sym (ap (λ p. p.0.disk) was_read ∙ ap (λ p. p.0.disk) was_set))
            ∙ ap (λ p. p.1) was_read
            ∙ ap ok (ap (λ p. p.0.metadata) was_set),
        sym (
            ap (λ p. p.table) (require_keeps (toml.to_string_pretty s.table) s u contents required)
            ∙ ap (λ p. p.0.table) written
            ∙ ap (λ p. p.0.table) was_read
            ∙ ap (λ p. p.0.table) was_set),
      )

  -- After a write or a removal of a setting that succeeds, the reads of all settings succeed:
  -- that setting has the value that was written, or none, and each other the one that a read
  -- gave before, where that read succeeded.
  pub get_value-set_value :
      (s t u : Backing W M V) (section key name other : Str) (value found : Option V)
      → AreTables toml
      → set_value files toml section key value s ≡ (t, ok tt)
      → get_value files toml name other s ≡ (u, ok found)
      → get_value files toml name other t
        ≡ (t, ok (if (section == name) && (key == other) then value else found))
  unfolding get_value set_value
  get_value-set_value s t u section key name other value found tables done before =
      let (v, _, (reloaded, then_written)) =
        continue_with_steps (reload_backing files toml s) _ t tt done in
      let (w, _, (reloaded_before, then_looked)) =
        continue_with_steps (reload_backing files toml s) _ u found before in
      let (fresh, same_table) = write_backing_steps _ t then_written in
      ap
        (λ p.
          continue_with {A = Unit {0}} {B = Option V} p
            (λ _ v. (v, ok (lookup toml v.table name other))))
        (IsFresh-reload_backing t fresh)
      ∙ ap (λ x. (t, ok x))
          (ap (λ x. lookup toml x name other) same_table
            ∙ lookup-put toml v.table section key value name other tables
            ∙ ap (λ x. if (section == name) && (key == other) then value else x)
                (ap (λ p. lookup toml p.0.table name other) (sym reloaded ∙ reloaded_before)
                  ∙ ap (λ p. value_of found p.1) then_looked))

  -- Where a setting can be written, all settings can be read.
  pub get_value_before :
      (s t : Backing W M V) (section key name other : Str) (value : Option V)
      → set_value files toml section key value s ≡ (t, ok tt)
      → (u : Backing W M V) × (found : Option V) × (get_value files toml name other s
          ≡ (u, ok found))
  unfolding get_value set_value
  get_value_before s t section key name other value done =
      let (v, _, (reloaded, then_written)) =
        continue_with_steps (reload_backing files toml s) _ t tt done in
      (
        v,
        lookup toml v.table name other,
        ap
            (λ p.
              continue_with {A = Unit {0}} {B = Option V} p
                (λ _ w. (w, ok (lookup toml w.table name other))))
            reloaded,
      )
