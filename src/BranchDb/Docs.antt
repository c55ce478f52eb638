-- ===== src/BranchDb/Docs.antt =====
-- The documents of the automerge crate: an interface of the operations that the program calls, with
-- what the crate documents of them. A document is a set of changes; its heads are the changes that
-- no other change of it depends on.
use backstitch.Prelude.{◌≡◌, Bool, ◌||◌, Option, none, List}
use backstitch.Prelude.Sorting.{Ord, SameItems}

-- `AutomergeError`
pub data AutomergeError : Type 0 where
  automerge_error : AutomergeError

pub record Automerge (H : Type 0) : Type 1 where
  pub hash_ord : Ord H
  pub Doc : Type 0
  pub get_heads : Doc → List H
  pub fork : Doc → Doc
  -- `self.merge(other)` writes to `self`, and tells of an error
  pub merge : Doc → Doc → Doc × Option AutomergeError
  -- whether a change is in the document
  pub has : Doc → H → Bool
  pub has_fork : (d : Doc) (h : H) → has (fork d) h ≡ has d h
  pub has_merge :
      (a b : Doc) (h : H) → (merge a b).1 ≡ none → has (merge a b).0 h ≡ has a h || has b h
  -- the heads are determined by the changes
  pub heads_of_changes :
      (a b : Doc)
      → ((h : H) → has a h ≡ has b h)
      → SameItems ⦃o = hash_ord⦄ (get_heads a) (get_heads b)
