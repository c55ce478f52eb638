-- ===== src/BranchDb/Reconcile.antt =====
-- `try_reconcile_branch` of backstitch/src/project/branch_db/branch_sync.rs, and what a reconcile
-- does to the two documents of a branch.
pub mod Settles
use backstitch.Prelude.{
  ℕ, ◌≡◌, refl, Bool, true, false, not, ◌&&◌, ◌||◌, Option, none, some, List, Outcome, ok, err,
  list_beq, Eq, all, if◌then◌else◌, arith,
}
use backstitch.Prelude.Maps.{Map}
use backstitch.Prelude.Sorting.{Ord, SameItems, sort, sort-eq_iff}
use backstitch.BranchDb.Docs.{Automerge, AutomergeError}
use backstitch.BranchDb.State.{BinaryDocStatus, pending, failed, okay, BranchSyncState}

unfoldable pub are_heads_equivalent : {H : Type 0} ⦃o : Ord H⦄ → List H → List H → Bool
are_heads_equivalent ⦃o⦄ a b = list_beq ⦃e = o.eq⦄ (sort a) (sort b)

abbrev pub is_not_pending : BinaryDocStatus → Bool
is_not_pending pending = false
is_not_pending failed = true
is_not_pending okay = true

unfoldable pub resolved_all_canonical_binary_docs : {D : Type 0} → Map D BinaryDocStatus → Bool
resolved_all_canonical_binary_docs docs = all (λ entry. is_not_pending entry.1) docs

-- What a call of `try_reconcile_branch` leaves: the state of the branch, its canonical document,
-- whether it sent on `branch_change_tx`, and how it returned.
pub record Reconciled (D H Doc : Type 0) : Type 0 where
  pub state : BranchSyncState D H Doc
  pub canonical : Doc
  pub notified : Bool
  pub result : Outcome AutomergeError (Unit {0})

module _ {H : Type 0} (am : Automerge H) where
  open am use {Doc, get_heads, fork, hash_ord}

  -- the shadow document is still what the last reconcile left
  abbrev pub shadow_is_at : Option Doc → List H → Bool
  shadow_is_at none heads = false
  shadow_is_at (some shadow) heads = are_heads_equivalent ⦃o = hash_ord⦄ heads (get_heads shadow)

  -- `get_or_insert_with(|| d.fork())`
  abbrev pub shadow_or_fork : Option Doc → Doc → Doc
  shadow_or_fork none d = fork d
  shadow_or_fork (some shadow) d = shadow

module _ {D H : Type 0} (am : Automerge H) where
  open am use {Doc, get_heads, merge, hash_ord}

  unfoldable pub is_up_to_date : BranchSyncState D H Doc → Bool
  is_up_to_date state =
      are_heads_equivalent ⦃o = hash_ord⦄ state.last_reconciled state.last_tracked
      && shadow_is_at am state.shadow_doc state.last_reconciled

  -- the second merge of the closure, and what follows the closure
  merge_back : BranchSyncState D H Doc → Doc → Doc × Option AutomergeError → Reconciled D H Doc
  merge_back state shadow (d, some e) = record {
    state = record state { shadow_doc = some shadow };
    canonical = d;
    notified = false;
    result = err e;
  }
  merge_back state shadow (d, none) = record {
    state = record state {
      shadow_doc = some shadow;
      shadow_doc_init = true;
      last_reconciled = get_heads d;
      last_tracked = get_heads d;
    };
    canonical = d;
    notified = true;
    result = ok tt;
  }

  -- the first merge of the closure
  merge_shadow : BranchSyncState D H Doc → Doc → Doc × Option AutomergeError → Reconciled D H Doc
  unfolding merge_back
  merge_shadow state d (shadow, some e) = record {
    state = record state { shadow_doc = some shadow };
    canonical = d;
    notified = false;
    result = err e;
  }
  merge_shadow state d (shadow, none) = merge_back state shadow (merge d shadow)

  -- the state and the canonical document of a branch, which both stay locked for the whole call
  unfoldable pub try_reconcile_branch : BranchSyncState D H Doc → Doc → Reconciled D H Doc
  unfolding merge_shadow
  try_reconcile_branch state d =
      if not (resolved_all_canonical_binary_docs state.canonical_binary_docs)
      then record { state = state; canonical = d; notified = false; result = ok tt }
      else if is_up_to_date state
      then record { state = state; canonical = d; notified = false; result = ok tt }
      else merge_shadow state d (merge (shadow_or_fork am state.shadow_doc d) d)
