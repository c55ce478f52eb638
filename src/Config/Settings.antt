-- ===== src/Config/Settings.antt =====
-- backstitch/src/project/config.rs: the settings of a project and of a user.
use backstitch.Prelude.{
  ℕ, Bool, Option, none, some, List, [], ◌∷◌, Str, bytes, Outcome, ok, err, panic, Eq, ◌==◌,
  is_empty, nat_eq, list_eq, if◌then◌else◌,
}
use backstitch.Prelude.Actions.{Action}
use backstitch.Text.{split, join}
use backstitch.Text.Patterns.{contains_text}
use backstitch.Config.Backing.{FileBackedTomlError, Files, Toml, Backing, get_value, set_value}

-- the values of the crate `toml` that are texts
pub record Texts (V : Type 0) : Type 0 where
  pub as_str : V → Option Str
  pub of_str : Str → V

-- `Url` of the crate `url`, or `DocumentId` of samod, with its text
pub record Parsed (U : Type 0) : Type 0 where
  pub from_str : Str → Option U
  pub to_string : U → Str

-- SECTION
abbrev pub section_name : Str
section_name = bytes "backstitch"

abbrev server_key : Str
server_key = bytes "server_url"

abbrev pub servers_key : Str
servers_key = bytes "available_servers"

-- a comma, the separator of the servers
abbrev pub comma : ℕ
comma = 44

-- "Remap legacy TCP to new HTTP"
abbrev pub is_legacy : Str → Bool
is_legacy s = contains_text (bytes "alpha.backstitch.dev:8085") s

abbrev pub remap : Str → Str
remap s = if is_legacy s then bytes "https://alpha.backstitch.dev/" else s

abbrev pub if_any : Option Str → Option Str
if_any none = none
if_any (some s) = if is_empty s then none else some s

-- a value that is a text, and not empty
abbrev pub setting : {V : Type 0} → Texts V → Option V → Option Str
setting texts none = none
setting texts (some value) = if_any (texts.as_str value)

abbrev pub value_of_setting : {V : Type 0} → Texts V → Option Str → Option V
value_of_setting texts none = none
value_of_setting texts (some s) = some (texts.of_str s)

-- errors are logged
abbrev pub logged_get :
    {S V : Type 0}
    → Texts V
    → S × Outcome FileBackedTomlError (Option V)
    → S × Outcome FileBackedTomlError (Option Str)
logged_get texts (s, ok value) = (s, ok (setting texts value))
logged_get texts (s, err e) = (s, ok none)
logged_get texts (s, panic) = (s, panic)

abbrev pub logged_set :
    {S : Type 0}
    → S × Outcome FileBackedTomlError (Unit {0})
    → S × Outcome FileBackedTomlError (Unit {0})
logged_set (s, ok done) = (s, ok tt)
logged_set (s, err e) = (s, ok tt)
logged_set (s, panic) = (s, panic)

abbrev pub mapped : {S E A B : Type 0} → (A → B) → S × Outcome E A → S × Outcome E B
mapped f (s, ok a) = (s, ok (f a))
mapped f (s, err e) = (s, err e)
mapped f (s, panic) = (s, panic)

-- an `IndexSet` of items, in the order in which they come first
abbrev pub without : {U : Type 0} ⦃e : Eq U⦄ → U → List U → List U
without x [] = []
without x (y ∷ ys) = let rest = without x ys in if y == x then rest else y ∷ rest

abbrev pub index_set : {U : Type 0} ⦃e : Eq U⦄ → List U → List U
index_set [] = []
index_set (x ∷ xs) = x ∷ without x (index_set xs)

abbrev cons_parsed : {U : Type 0} → Option U → List U → List U
cons_parsed none us = us
cons_parsed (some u) us = u ∷ us

abbrev pub parse_servers : {U : Type 0} → Parsed U → List Str → List U
parse_servers urls [] = []
parse_servers urls (s ∷ parts) = cons_parsed (urls.from_str (remap s)) (parse_servers urls parts)

abbrev pub texts_of : {U : Type 0} → Parsed U → List U → List Str
texts_of urls [] = []
texts_of urls (u ∷ us) = urls.to_string u ∷ texts_of urls us

abbrev pub servers_of : {U : Type 0} ⦃e : Eq U⦄ → Parsed U → Option Str → List U
servers_of urls none = []
servers_of urls (some servers) = index_set (parse_servers urls (split comma servers))

module _ {W M V : Type 0} (files : Files W M) (toml : Toml V) (texts : Texts V) where
  unfoldable pub get_string : Str → Action (Backing W M V) FileBackedTomlError (Option Str)
  unfolding get_value
  get_string key s = logged_get texts (get_value files toml section_name key s)

  unfoldable pub set_string :
      Str → Option Str → Action (Backing W M V) FileBackedTomlError (Unit {0})
  unfolding set_value
  set_string key value s =
      logged_set (set_value files toml section_name key (value_of_setting texts value) s)

  module _ {U : Type 0} (urls : Parsed U) where
    abbrev parse_server : Option Str → Option U
    parse_server none = none
    parse_server (some s) = urls.from_str (remap s)

    unfoldable pub server_url : Action (Backing W M V) FileBackedTomlError (Option U)
    unfolding get_string
    server_url s = mapped parse_server (get_string server_key s)

    abbrev text_of : Option U → Option Str
    text_of none = none
    text_of (some u) = some (urls.to_string u)

    unfoldable pub set_server_url : Option U → Action (Backing W M V) FileBackedTomlError (Unit {0})
    unfolding set_string
    set_server_url value = set_string server_key (text_of value)

    unfoldable pub available_servers :
        ⦃e : Eq U⦄ → Action (Backing W M V) FileBackedTomlError (List U)
    unfolding get_string
    available_servers s = mapped (servers_of urls) (get_string servers_key s)

    unfoldable pub set_available_servers :
        List U → Action (Backing W M V) FileBackedTomlError (Unit {0})
    unfolding set_string
    set_available_servers servers =
        set_string servers_key (some (join comma (texts_of urls servers)))
