-- ===== src/Config/Backing.antt =====
-- backstitch/src/project/config/file_backed_toml.rs: a table of settings with its copy on the disk.
use backstitch.Prelude.{
  Option, none, some, Outcome, ok, err, panic, Str, [], Eq, list_eq, nat_eq, option_eq, ◌==◌, Bool,
  if◌then◌else◌,
}
use backstitch.Prelude.Maps.{Map, get, insert, remove}
use backstitch.Prelude.Actions.{Action, ◌>>=◌, give, require, current}

pub data FileBackedTomlError : Type 0 where
  io : FileBackedTomlError
  serialize : FileBackedTomlError

-- The calls of `tokio::fs`, on a disk of type `W`, for the path of the file and that of the temporary
-- one; `M` is a time of modification with a length. A missing file is `none`.
pub record Files (W M : Type 0) : Type 0 where
  pub metadata_eq : Eq M
  pub metadata : W → Outcome FileBackedTomlError (Option M)
  pub read_to_string : W → Outcome FileBackedTomlError (Option Str)
  pub create : Action W FileBackedTomlError (Unit {0})
  pub write_all : Str → Action W FileBackedTomlError (Unit {0})
  pub sync_all : Action W FileBackedTomlError (Unit {0})
  pub rename : Action W FileBackedTomlError (Unit {0})
  pub remove_file : Action W FileBackedTomlError (Unit {0})

-- The crate `toml`, with the values that it reads and writes. A table is a value.
pub record Toml (V : Type 0) : Type 0 where
  pub as_table : V → Option (Map Str V)
  pub of_table : Map Str V → V
  pub to_string_pretty : Map Str V → Option Str
  pub parse : Str → Option (Map Str V)

-- FileBackedTomlInner, with the disk
pub record Backing (W M V : Type 0) : Type 0 where
  pub disk : W
  pub table : Map Str V
  pub metadata : Option M

-- the end of `atomic_write`: the temporary file is removed on failure
abbrev clean_up :
    {W M : Type 0}
    → Files W M
    → W × Outcome FileBackedTomlError (Unit {0})
    → W × Outcome FileBackedTomlError (Unit {0})
clean_up files (w, ok done) = (w, ok done)
clean_up files (w, err e) = ((files.remove_file w).0, err e)
clean_up files (w, panic) = (w, panic)

unfoldable pub atomic_write :
    {W M : Type 0} → Files W M → Str → Action W FileBackedTomlError (Unit {0})
atomic_write files contents w =
    clean_up files
      ((do _ ← files.create; _ ← files.write_all contents; _ ← files.sync_all; files.rename) w)

abbrev pub table_in : {V : Type 0} → Toml V → Option V → Option (Map Str V)
table_in toml none = none
table_in toml (some v) = toml.as_table v

abbrev pub key_in : {V : Type 0} → Option (Map Str V) → Str → Option V
key_in none key = none
key_in (some section) key = get section key

abbrev pub lookup : {V : Type 0} → Toml V → Map Str V → Str → Str → Option V
lookup toml table section key = key_in (table_in toml (get table section)) key

-- `insert` into the table of a section, which is new where there was none
abbrev pub insert_in : {V : Type 0} → Option (Map Str V) → Str → V → Map Str V
insert_in none key v = insert [] key v
insert_in (some section) key v = insert section key v

abbrev pub remove_in :
    {V : Type 0} → Toml V → Map Str V → Str → Option (Map Str V) → Str → Map Str V
remove_in toml table name none key = table
remove_in toml table name (some section) key =
    insert table name (toml.of_table (remove section key))

abbrev pub put : {V : Type 0} → Toml V → Map Str V → Str → Str → Option V → Map Str V
put toml table section key (some v) =
    insert table section (toml.of_table (insert_in (table_in toml (get table section)) key v))
put toml table section key none =
    remove_in toml table section (table_in toml (get table section)) key

module _ {W M V : Type 0} (files : Files W M) (toml : Toml V) where
  abbrev pub on_disk :
      {A : Type 0} → Action W FileBackedTomlError A → Action (Backing W M V) FileBackedTomlError A
  on_disk m s =
      (record { disk = (m s.disk).0; table = s.table; metadata = s.metadata }, (m s.disk).1)

  abbrev set_table : Map Str V → Action (Backing W M V) FileBackedTomlError (Unit {0})
  set_table table s = (record { disk = s.disk; table = table; metadata = s.metadata }, ok tt)

  abbrev set_metadata : Option M → Action (Backing W M V) FileBackedTomlError (Unit {0})
  set_metadata metadata s = (record { disk = s.disk; table = s.table; metadata = metadata }, ok tt)

  abbrev metadata_now : Action (Backing W M V) FileBackedTomlError (Option M)
  metadata_now = on_disk (λ w. (w, files.metadata w))

  unfoldable pub write_backing : Action (Backing W M V) FileBackedTomlError (Unit {0})
  write_backing = do
    s ← current
    contents ← require (toml.to_string_pretty s.table) serialize
    _ ← on_disk (atomic_write files contents)
    metadata ← metadata_now
    set_metadata metadata

  -- a file that does not parse is written again from the table
  abbrev parsed : Option (Map Str V) → Action (Backing W M V) FileBackedTomlError (Map Str V)
  parsed (some table) = give table
  parsed none = do _ ← write_backing; s ← current; give s.table

  abbrev contents_read : Option Str → Action (Backing W M V) FileBackedTomlError (Map Str V)
  contents_read none = do _ ← on_disk (atomic_write files []); give []
  contents_read (some str) = parsed (toml.parse str)

  unfoldable pub read_or_create_file : Action (Backing W M V) FileBackedTomlError (Map Str V)
  unfolding write_backing
  read_or_create_file = do str ← on_disk (λ w. (w, files.read_to_string w)); contents_read str

  -- the file is read if its metadata is not what was met last
  unfoldable pub reload_if : Bool → Action (Backing W M V) FileBackedTomlError (Unit {0})
  unfolding read_or_create_file
  reload_if is_same = if is_same then give tt else (do
    table ← read_or_create_file
    metadata ← metadata_now
    _ ← set_metadata metadata
    set_table table)

  unfoldable pub reload_backing : Action (Backing W M V) FileBackedTomlError (Unit {0})
  unfolding reload_if
  reload_backing = do
    metadata ← metadata_now
    s ← current
    reload_if (◌==◌ ⦃same = option_eq ⦃e = files.metadata_eq⦄⦄ metadata s.metadata)

  unfoldable pub get_value : Str → Str → Action (Backing W M V) FileBackedTomlError (Option V)
  unfolding reload_backing
  get_value section key = do _ ← reload_backing; s ← current; give (lookup toml s.table section key)

  unfoldable pub set_value :
      Str → Str → Option V → Action (Backing W M V) FileBackedTomlError (Unit {0})
  unfolding reload_backing write_backing
  set_value section key value = do
    _ ← reload_backing
    s ← current
    _ ← set_table (put toml s.table section key value)
    write_backing

-- `new`, at a disk: the file is read at the first call
abbrev pub new_backing : {W M V : Type 0} → W → Backing W M V
new_backing w = record { disk = w; table = []; metadata = none }
