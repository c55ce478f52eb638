-- ===== src/Examples/Config.antt =====
-- A setting written to a project that has no file of settings yet, and then a second one.
use backstitch.Prelude.{
  ℕ, suc, ◌≡◌, refl, ap, Option, none, some, List, [], ◌∷◌, ok, Str, nat_eq, list_eq, option_eq,
  if◌then◌else◌, bytes, is_empty, All,
}
use backstitch.Prelude.Maps.{Map, get}
use backstitch.Config.Backing.{
  FileBackedTomlError, Files, Toml, Backing, new_backing, get_value, set_value, lookup, put,
}
use backstitch.Config.Settings.{Texts, Parsed, set_available_servers, available_servers}
use backstitch.Config.Servers.{IsPlain, available_servers-set_available_servers}
use backstitch.Config.Stored.{AreTables, get_value-set_value}

mutual
  data Value : Type 0 where
    text : Str → Value
    section : Entries → Value

  data Entries : Type 0 where
    no_entries : Entries
    entry : Str → Value → Entries → Entries

unfoldable to_map : Entries → Map Str Value
to_map no_entries = []
to_map (entry key v parts) = (key, v) ∷ to_map parts

unfoldable of_map : Map Str Value → Entries
of_map [] = no_entries
of_map ((key, v) ∷ table) = entry key v (of_map table)

abbrev as_table : Value → Option (Map Str Value)
unfolding to_map
as_table (text n) = none
as_table (section parts) = some (to_map parts)

to_map-of_map : (table : Map Str Value) → to_map (of_map table) ≡ table
unfolding to_map of_map
to_map-of_map [] = refl
to_map-of_map ((key, v) ∷ table) = ap (λ rest. (key, v) ∷ rest) (to_map-of_map table)

-- the settings as they are, with no text of them
abbrev toml : Toml Value
unfolding of_map
toml = record {
  as_table = as_table;
  of_table = λ table. section (of_map table);
  to_string_pretty = λ table. some [];
  parse = λ str. some [];
}

record Disk : Type 0 where
  time : ℕ
  temporary : Str
  contents : Option Str

abbrev stamp : Option Str → ℕ → Option ℕ
stamp none time = none
stamp (some str) time = some time

abbrev files : Files Disk ℕ
files = record {
  metadata_eq = nat_eq;
  metadata = λ w. ok (stamp w.contents w.time);
  read_to_string = λ w. ok w.contents;
  create = λ w. (record { time = w.time; temporary = []; contents = w.contents }, ok tt);
  write_all = λ str w. (record { time = w.time; temporary = str; contents = w.contents }, ok tt);
  sync_all = λ w. (w, ok tt);
  rename = λ w. (record { time = suc w.time; temporary = []; contents = some w.temporary }, ok tt);
  remove_file = λ w. (record { time = w.time; temporary = []; contents = w.contents }, ok tt);
}

abbrev no_file : Disk
no_file = record { time = 3; temporary = []; contents = none }

abbrev written : Backing Disk ℕ Value
written = (set_value files toml (7 ∷ []) (1 ∷ []) (some (text (5 ∷ []))) (new_backing no_file)).0

get_value-set_value_example :
    get_value files toml (7 ∷ []) (1 ∷ []) written ≡ (written, ok (some (text (5 ∷ []))))
unfolding set_value get_value toml as_table backstitch.Config.Backing.atomic_write get
get_value-set_value_example =
    get_value-set_value files toml (new_backing no_file) written (new_backing no_file) (7 ∷ [])
      (1 ∷ []) (7 ∷ []) (1 ∷ []) (some (text (5 ∷ []))) none
      (λ table. ap some (to_map-of_map table)) refl refl

abbrev as_str : Value → Option Str
as_str (text s) = some s
as_str (section parts) = none

abbrev texts : Texts Value
texts = record { as_str = as_str; of_str = text }

abbrev urls : Parsed Str
urls = record { from_str = λ s. if is_empty s then none else some s; to_string = λ s. s }

abbrev two_servers : List Str
two_servers = bytes "a:" ∷ bytes "c:" ∷ []

abbrev empty_project : Backing Disk ℕ Value
empty_project = new_backing no_file

abbrev with_servers : Backing Disk ℕ Value
with_servers = (set_available_servers files toml texts urls two_servers empty_project).0

tables : AreTables toml
unfolding toml as_table
tables table = ap some (to_map-of_map table)

two_servers-IsPlain : All (IsPlain urls) two_servers
unfolding backstitch.Text.Patterns.split_once_text backstitch.Text.strip_prefix
two_servers-IsPlain =
    ((refl, refl, (refl, (refl, tt)), refl), ((refl, refl, (refl, (refl, tt)), refl), tt))

available_servers-set_available_servers_example :
    (set_available_servers files toml texts urls two_servers empty_project ≡ (with_servers, ok tt))
    × (available_servers files toml texts urls with_servers ≡ (with_servers, ok two_servers))
unfolding set_available_servers toml backstitch.Config.Backing.atomic_write
available_servers-set_available_servers_example =
    available_servers-set_available_servers files toml texts urls empty_project with_servers
      two_servers tables (λ str. refl) two_servers-IsPlain (refl, (refl, tt)) refl
