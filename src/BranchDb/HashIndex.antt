-- ===== src/BranchDb/HashIndex.antt =====
-- The hashes of a ref, and which of its files differ between two refs.
use mathlib.Core.Path.{subst}
use backstitch.Prelude.{
  ◌≡◌, refl, sym, ap, ◌∙◌, Bool, true, false, Option, none, some, List, [], ◌∷◌, Str, ok, Eq,
  list_eq, nat_eq, list_beq, list_beq_iff, inl, inr, Bool-cases, Option-cases, arith, if◌then◌else◌,
}
use backstitch.Prelude.Maps.{Map, get, Distinct, ForEach}
use backstitch.History.Ref.{HistoryRef, is_valid}
use backstitch.Fs.Traversal.{ChangeType, change_of, get_file_changes, get_file_changes-change_of}
use backstitch.BranchDb.Store.{Documents, Store, shadow_of}
use backstitch.BranchDb.Files.{
  settled, hash_panics, Hydrated, content, link, bad, Entry, FileReads, slow_hash, hash_of_entry,
  get_linked_file, resolve_hash, new_hashes, reinserting, without_flags, get_hash_index,
  get_changed_files_between_refs, content_at,
}

module _ {D H : Type 0} ⦃e : Eq D⦄ {docs : Documents D H} {C K : Type 0}
    (reads : FileReads docs C K) where
  open reads use {to_hash, files_at, is_ignored, put_hashes}

  -- a hash without its mark
  abbrev unmarked : Option (K × Bool) → Option K
  unmarked none = none
  unmarked (some (k, should_reinsert)) = some k

  abbrev pub hash_of : Option C → Option K
  hash_of none = none
  hash_of (some c) = some (to_hash c)

  -- the content of a file at a ref, whose entries are given
  abbrev pub content_of : Store docs → Option (Entry D C K) → Option C
  content_of s none = none
  content_of s (some entry) = content_at reads s (settled entry.hydrated)

  -- A single hash that is stored is that of the content.
  abbrev pub IsHonest : Store docs → Map Str (Entry D C K) → Type 0
  IsHonest s entries =
      ForEach
        (λ path (entry : Entry D C K).
          (k : K)
          → entry.hashes ≡ some (some k ∷ [])
          → hash_of (content_at reads s (settled entry.hydrated)) ≡ some k)
        entries

  -- Each entry hydrates.
  abbrev pub Hydrates : Map Str (Entry D C K) → Type 0
  Hydrates [] = Unit
  Hydrates ((path, entry) ∷ entries) =
      ((h : Hydrated D C) × (entry.hydrated ≡ ok h)) × Hydrates entries

  hash_panics-Hydrates :
      (entries : Map Str (Entry D C K)) → Hydrates entries → hash_panics reads entries ≡ false
  hash_panics-Hydrates [] h = refl
  hash_panics-Hydrates ((path, entry) ∷ entries) ((c, hydrates), rest) =
      rw hydrates (ground (arith, hash_panics-Hydrates entries rest))

  unmarked-slow_hash :
      (s : Store docs) (h : Hydrated D C) (should_reinsert : Bool)
      → unmarked (resolve_hash reads s (slow_hash reads h should_reinsert))
        ≡ hash_of (content_at reads s h)
  unmarked-slow_hash s (content c) should_reinsert = refl
  unmarked-slow_hash s bad should_reinsert = refl
  unmarked-slow_hash s (link id) should_reinsert =
      elim (Option-cases (get_linked_file reads s id)) [
        | inl absent ↦ rw absent refl
        | inr (c, found) ↦ rw found refl
      ]

  unmarked-hash_of_entry :
      (s : Store docs) (hashes : Option (List (Option K))) (h : Hydrated D C)
      → ((k : K) → hashes ≡ some (some k ∷ []) → hash_of (content_at reads s h) ≡ some k)
      → unmarked (resolve_hash reads s (hash_of_entry reads hashes h))
        ≡ hash_of (content_at reads s h)
  unmarked-hash_of_entry s none h honest = unmarked-slow_hash s h true
  unmarked-hash_of_entry s (some []) h honest = unmarked-slow_hash s h true
  unmarked-hash_of_entry s (some (some k ∷ [])) h honest = sym (honest k refl)
  unmarked-hash_of_entry s (some (none ∷ [])) h honest = unmarked-slow_hash s h true
  unmarked-hash_of_entry s (some (a ∷ b ∷ rest)) h honest = unmarked-slow_hash s h false

  -- what the loop finds for an entry
  abbrev resolved : Store docs → Option (Entry D C K) → Option (K × Bool)
  resolved s none = none
  resolved s (some entry) =
      resolve_hash reads s (hash_of_entry reads entry.hashes (settled entry.hydrated))

  -- the lookup in the hashes of the entries
  abbrev FindsHashes : Store docs → Map Str (Entry D C K) → Str → Type 0
  FindsHashes s entries path =
      get (new_hashes reads s entries) path
      ≡ (if is_ignored path then none else resolved s (get entries path))

  FindsHashes-here :
      (s : Store docs) (p path : Str) (entry : Entry D C K) (entries : Map Str (Entry D C K))
      → list_beq p path ≡ true
      → get entries path ≡ none
      → is_ignored p ≡ is_ignored path
      → FindsHashes s entries path
      → FindsHashes s ((p, entry) ∷ entries) path
  unfolding new_hashes get
  FindsHashes-here s p path entry entries same absent ig later = elim (Bool-cases (is_ignored p)) [
    | inl ignored ↦ rw (ignored, sym ig ∙ ignored) (later ∙ rw (sym ig ∙ ignored) refl)
    | inr kept ↦
        rw (kept, sym ig ∙ kept, same)
          (elim (Option-cases
            (resolve_hash reads s (hash_of_entry reads entry.hashes (settled entry.hydrated)))) [
              | inl nothing ↦ rw nothing (later ∙ rw (sym ig ∙ kept, absent) refl)
              | inr (h, it) ↦ rw (it, same) refl
            ])
  ]

  FindsHashes-later :
      (s : Store docs) (p path : Str) (entry : Entry D C K) (entries : Map Str (Entry D C K))
      → list_beq p path ≡ false
      → FindsHashes s entries path
      → FindsHashes s ((p, entry) ∷ entries) path
  unfolding new_hashes get
  FindsHashes-later s p path entry entries other later = elim (Bool-cases (is_ignored p)) [
    | inl ignored ↦ rw (ignored, other) later
    | inr kept ↦
        rw (kept, other)
          (elim (Option-cases
            (resolve_hash reads s (hash_of_entry reads entry.hashes (settled entry.hydrated)))) [
              | inl nothing ↦ rw nothing later
              | inr (h, it) ↦ rw (it, other) later
            ])
  ]

  get-new_hashes :
      (s : Store docs) (entries : Map Str (Entry D C K)) (path : Str)
      → Distinct entries
      → FindsHashes s entries path
  unfolding new_hashes get
  get-new_hashes s [] path d = ground arith
  get-new_hashes s ((p, entry) ∷ entries) path d = elim (Bool-cases (list_beq p path)) [
    | inl same ↦
        let here : p ≡ path = (list_beq_iff p path).0 same in
        FindsHashes-here s p path entry entries same (subst (λ x. get entries x ≡ none) here d.0)
          (ap is_ignored here) (get-new_hashes s entries path d.1)
    | inr other ↦ FindsHashes-later s p path entry entries other (get-new_hashes s entries path d.1)
  ]

  get-without_flags :
      (hashes : Map Str (K × Bool)) (path : Str)
      → get (without_flags reads hashes) path ≡ unmarked (get hashes path)
  unfolding get
  get-without_flags [] path = refl
  get-without_flags ((p, (k, should_reinsert)) ∷ hashes) path =
      ground (arith, get-without_flags hashes path)

  resolved-content_of :
      (s : Store docs) (entries : Map Str (Entry D C K)) (path : Str)
      → IsHonest s entries
      → unmarked (resolved s (get entries path)) ≡ hash_of (content_of s (get entries path))
  resolved-content_of s entries path honest = elim (Option-cases (get entries path)) [
    | inl absent ↦ rw absent refl
    | inr (entry, found) ↦ rw found (
        unmarked-hash_of_entry s entry.hashes (settled entry.hydrated)
          (λ k stored. honest path entry found k stored))
  ]

  -- For a branch with a shadow document that has files at the heads of a ref, each under one
  -- path: if each of them hydrates without a panic, and each single hash that is stored is that
  -- of the file's content, then the hash index succeeds and gives each path that is not ignored
  -- the hash of its content, where that can be read, and nothing else, whether a hash was
  -- stored, computed anew or computed from a linked document.
  pub get_hash_index-content_of :
      (s : Store docs) (ref_ : HistoryRef D H) (d : docs.am.Doc) (entries : Map Str (Entry D C K))
      → shadow_of docs ref_.branch s ≡ (s, ok d)
      → files_at d ref_.heads ≡ some entries
      → Distinct entries
      → IsHonest s entries
      → Hydrates entries
      → (index : Map Str K) × (((get_hash_index reads ref_ s).1 ≡ ok index)
          × ((path : Str)
              → get index path
                ≡ (if is_ignored path then none else hash_of (content_of s (get entries path)))))
  unfolding get_hash_index
  get_hash_index-content_of s ref_ d entries shadow found distinct honest hydrates =
      (without_flags reads (new_hashes reads s entries), (returned, its_hashes))
    where
      returned :
          (get_hash_index reads ref_ s).1 ≡ ok (without_flags reads (new_hashes reads s entries))
      returned = elim (Bool-cases (reinserting reads entries)) [
        | inl marked ↦ rw (shadow, found, hash_panics-Hydrates entries hydrates, marked) refl
        | inr none_marked ↦
            rw (shadow, found, hash_panics-Hydrates entries hydrates, none_marked) refl
      ]

      its_hashes :
          (path : Str)
          → get (without_flags reads (new_hashes reads s entries)) path
            ≡ (if is_ignored path then none else hash_of (content_of s (get entries path)))
      its_hashes path = elim (Bool-cases (is_ignored path)) [
        | inl ignored ↦
            get-without_flags (new_hashes reads s entries) path
            ∙ ap unmarked (get-new_hashes s entries path distinct)
            ∙ rw ignored refl
        | inr kept ↦
            get-without_flags (new_hashes reads s entries) path
            ∙ ap unmarked (get-new_hashes s entries path distinct)
            ∙ rw kept (resolved-content_of s entries path honest)
      ]

  -- Between two refs with heads whose hash indices are read, the one of the new ref first, a
  -- path counts as created, deleted or modified exactly as the hashes that the two indices give
  -- it tell, if the new index has each path once.
  pub get_changed_files_between_refs-change_of :
      (s t u : Store docs) (old_ref new_ref : HistoryRef D H) (old_index new_index : Map Str K)
      → is_valid old_ref ≡ true
      → is_valid new_ref ≡ true
      → get_hash_index reads new_ref s ≡ (t, ok new_index)
      → get_hash_index reads old_ref t ≡ (u, ok old_index)
      → Distinct new_index
      → (changes : Map Str ChangeType) × ((get_changed_files_between_refs reads
              (some old_ref)
              new_ref
              s
            ≡ (u, ok changes))
          × ((path : Str)
              → get changes path
                ≡ change_of ⦃eh = reads.hash_eq⦄ (get old_index path) (get new_index path)))
  unfolding get_changed_files_between_refs
  get_changed_files_between_refs-change_of s t u old_ref new_ref old_index new_index old_valid
        new_valid new_found old_found distinct =
      (
        get_file_changes ⦃eh = reads.hash_eq⦄ old_index new_index,
        (
          rw (new_valid, new_found, old_valid, old_found) refl,
          λ path. get_file_changes-change_of ⦃eh = reads.hash_eq⦄ old_index new_index path distinct,
        ),
      )
