-- ===== src/Examples/Fs.antt =====
-- Files on disk and their checkout at concrete inputs: a disk is a map from numbered paths to
-- numbered contents, and a content is its own hash.
use mathlib.Core.Option
use backstitch.Prelude.{
  ℕ, ◌≡◌, refl, sym, ap, ◌∙◌, true, Option, none, some, List, [], ◌∷◌, nat_eq, contains, eqb, not,
  arith,
}
use backstitch.Prelude.Maps.{
  Map, get, insert, remove, keys, get-insert, get-remove, contains-keys_eq, Distinct, has_value,
}
use backstitch.Fs.Traversal.{created, deleted, modified, get_file_changes}
use backstitch.Fs.Checkout.{
  Items, file_item, dir_item, no_items, more_items, Host, checkout_ref, Changes, apply_changes,
}
use backstitch.Fs.Checkout.Applied.{HostLaws, Succeeds, stands, hash_of}
use backstitch.Fs.Checkout.Goal.{checkout_ref-apply_changes}

abbrev pub goal : Map ℕ ℕ
goal = (0, 7) ∷ (1, 8) ∷ []

abbrev items_of : List ℕ → Items ℕ
items_of [] = no_items
items_of (k ∷ ks) = more_items (file_item k) (items_of ks)

abbrev pub host : Host ℕ ℕ ℕ ℕ ℕ
host = record {
  path_eq = nat_eq;
  local_eq = nat_eq;
  hash_eq = nat_eq;
  ref_eq = nat_eq;
  Disk = Map ℕ ℕ;
  read = λ d k. get d k;
  tree = λ d. more_items (dir_item 100 (more_items (file_item 101) no_items)) (items_of (keys d));
  ignores_dir = λ k. eqb k 100;
  write = λ d k c. (insert d k c, true);
  remove_file = λ d k. (remove d k, true);
  get_hash = λ d k. get d k;
  to_hash = λ c. c;
  should_ignore = λ k. eqb k 9;
  localize_path = λ k. k;
  globalize_path = λ l. l;
  get_hash_index = λ r. some goal;
  get_files_at_ref = λ r paths. some goal;
}

pub same_option : (o : Option ℕ) → o ≡ Option.map (λ (c : ℕ). c) o
same_option none = refl
same_option (some c) = refl

stands-items_of : (ks : List ℕ) (k : ℕ) → stands host (items_of ks) k ≡ contains ks k
stands-items_of [] k = refl
stands-items_of (x ∷ ks) k = ground (arith, stands-items_of ks k)

-- all but the file in the ignored directory
pub not_101 :
    (d : Map ℕ ℕ) (k : ℕ)
    → not (eqb 101 k) ≡ true
    → stands host (host.tree d) k ≡ has_value (get d k)
not_101 d k h = ground (arith, h, stands-items_of (keys d) k, contains-keys_eq d k)

abbrev pub laws : HostLaws host
laws = record {
  visible = λ k. not (eqb 101 k);
  tree_read = not_101;
  read_write = λ d k j c done. get-insert d k j c;
  read_remove = λ d k j done. get-remove d k j;
  get_hash_read = λ d k. same_option (get d k);
  localize_globalize = λ l. refl;
  globalize_localize = λ k. refl;
}

abbrev pub succeeds : Succeeds host
succeeds = record { writes = λ d k c. refl; removes = λ d k. refl }

abbrev pub disk : Map ℕ ℕ
disk = (1, 5) ∷ (2, 6) ∷ (9, 3) ∷ []

abbrev pub changes : Changes host
changes = (0, (created, some 7)) ∷ (1, (modified, some 8)) ∷ (2, (deleted, none)) ∷ []

pub proposed : checkout_ref host none 4 disk ≡ some changes
unfolding checkout_ref insert get get_file_changes
proposed = refl

changes_differ : Distinct changes
unfolding get
changes_differ = (refl, (refl, (refl, tt)))

pub get_files_content :
    (paths : List ℕ) (contents : Map ℕ ℕ)
    → some goal ≡ some contents
    → (j : ℕ) → contains paths j ≡ true
    → Option.map (λ (c : ℕ). c) (get contents j) ≡ get goal j
get_files_content paths contents found j there =
    let same : contents ≡ goal = cc in sym (same_option (get contents j)) ∙ ap (λ m. get m j) same

checkout_ref-apply_changes_example : hash_of host (apply_changes host disk changes) 1 ≡ some 8
unfolding get
checkout_ref-apply_changes_example =
    checkout_ref-apply_changes host laws succeeds none 4 disk goal changes 1 refl (refl, (refl, tt))
      refl refl get_files_content proposed
