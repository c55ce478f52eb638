-- ===== src/Config/Servers.antt =====
-- How the servers of a project are read after they are written.
use backstitch.Prelude.{
  ◌≡◌, refl, ap, ◌∙◌, false, none, some, List, [], ◌∷◌, Str, Eq, contains, is_empty, nat_eq,
  list_eq, All, arith, if◌then◌else◌, ok,
}
use backstitch.Text.{join}
use backstitch.Text.Laws.{Avoids, split-join}
use backstitch.Config.Backing.{Files, Toml, Backing, set_value}
use backstitch.Config.Stored.{AreTables, get_value_before, get_value-set_value}
use backstitch.Config.Settings.{
  section_name, servers_key, Texts, Parsed, comma, is_legacy, if_any, value_of_setting, logged_get,
  logged_set, mapped, without, index_set, parse_servers, texts_of, servers_of, available_servers,
  set_available_servers,
}

-- A server whose text parses to it, is not empty and has neither a comma nor the legacy address.
abbrev pub IsPlain : {U : Type 0} → Parsed U → U → Type 0
IsPlain urls u =
    (urls.from_str (urls.to_string u) ≡ some u)
    × (is_empty (urls.to_string u) ≡ false)
    × Avoids comma (urls.to_string u)
    × (is_legacy (urls.to_string u) ≡ false)

abbrev pub HasNoRepeat : {U : Type 0} ⦃e : Eq U⦄ → List U → Type 0
HasNoRepeat [] = Unit
HasNoRepeat (x ∷ xs) = (contains xs x ≡ false) × HasNoRepeat xs

module _ {U : Type 0} ⦃e : Eq U⦄ where
  without_absent : (x : U) (xs : List U) → contains xs x ≡ false → without x xs ≡ xs
  without_absent x [] absent = refl
  without_absent x (y ∷ ys) absent = ground (arith, without_absent x ys)

  index_set_no_repeat : (xs : List U) → HasNoRepeat xs → index_set xs ≡ xs
  index_set_no_repeat [] h = refl
  index_set_no_repeat (x ∷ xs) h =
      ap (λ ys. x ∷ without x ys) (index_set_no_repeat xs h.1)
      ∙ ap (λ ys. x ∷ ys) (without_absent x xs h.0)

module _ {U : Type 0} (urls : Parsed U) where
  parse_servers-texts_of :
      (us : List U) → All (IsPlain urls) us → parse_servers urls (texts_of urls us) ≡ us
  parse_servers-texts_of [] plain = refl
  parse_servers-texts_of (u ∷ us) plain =
      rw (plain.0.3, plain.0.0, parse_servers-texts_of us plain.1) refl

  texts_of-Avoids : (us : List U) → All (IsPlain urls) us → All (Avoids comma) (texts_of urls us)
  texts_of-Avoids [] plain = tt
  texts_of-Avoids (u ∷ us) plain = (plain.0.2, texts_of-Avoids us plain.1)

is_empty-join :
    (t : Str) (ts : List Str) → is_empty t ≡ false → is_empty (join comma (t ∷ ts)) ≡ false
unfolding join
is_empty-join [] ts h = cc
is_empty-join (c ∷ t) [] h = refl
is_empty-join (c ∷ t) (q ∷ ts) h = refl

module _ {U : Type 0} ⦃e : Eq U⦄ (urls : Parsed U) where
  servers_of-join :
      (us : List U)
      → All (IsPlain urls) us
      → HasNoRepeat us
      → servers_of urls (if_any (some (join comma (texts_of urls us)))) ≡ us
  unfolding join
  servers_of-join [] plain distinct = refl
  servers_of-join (u ∷ us) plain distinct =
      ap (λ b. servers_of urls (if b then none else some (join comma (texts_of urls (u ∷ us)))))
        (is_empty-join (urls.to_string u) (texts_of urls us) plain.0.1)
      ∙ ap (λ parts. index_set (parse_servers urls parts))
          (split-join comma (urls.to_string u) (texts_of urls us)
            (texts_of-Avoids urls (u ∷ us) plain))
      ∙ ap index_set (parse_servers-texts_of urls (u ∷ us) plain)
      ∙ index_set_no_repeat (u ∷ us) distinct

module _ {W M V U : Type 0} ⦃e : Eq U⦄ (files : Files W M) (toml : Toml V) (texts : Texts V)
    (urls : Parsed U) where
  -- A write of available servers whose setting is written without an error leaves them to be
  -- read as they were, in their order, if none stands there twice and the text of each parses
  -- to it, is not empty, and has neither a comma nor the legacy address.
  pub available_servers-set_available_servers :
      (s t : Backing W M V) (us : List U)
      → AreTables toml
      → ((str : Str) → texts.as_str (texts.of_str str) ≡ some str)
      → All (IsPlain urls) us
      → HasNoRepeat us
      → set_value files toml section_name servers_key
          (value_of_setting texts (some (join comma (texts_of urls us))))
          s
        ≡ (t, ok tt)
      → (set_available_servers files toml texts urls us s ≡ (t, ok tt))
        × (available_servers files toml texts urls t ≡ (t, ok us))
  unfolding available_servers set_available_servers
  available_servers-set_available_servers s t us tables law plain distinct done =
      let (u, found, before) =
        get_value_before files toml s t section_name servers_key section_name servers_key
          (value_of_setting texts (some (join comma (texts_of urls us)))) done in
      (
        ap logged_set done,
        ap (λ p. mapped (servers_of urls) (logged_get texts p))
              (get_value-set_value files toml s t u section_name servers_key section_name
                servers_key (value_of_setting texts (some (join comma (texts_of urls us)))) found
                tables done before)
            ∙ ap (λ o. (t, ok (servers_of urls (if_any o)))) (law (join comma (texts_of urls us)))
            ∙ ap (λ vs. (t, ok vs)) (servers_of-join urls us plain distinct),
      )
