-- ===== src/Examples/BranchDb.antt =====
-- The sync of branches at concrete inputs: a document has some of two changes, and no change
-- depends on the other.
use mathlib.Core.Path.{subst}
use backstitch.Prelude.{
  ℕ, ◌≡◌, refl, sym, ap, ◌≢◌, ◌↔◌, Bool-cases, eqb, eqb_iff, inl, inr, Bool, true, false, ◌||◌,
  Option, none, some, List, [], ◌∷◌, ◌++◌, nat_eq, ok, if◌then◌else◌, arith,
}
use backstitch.Prelude.Maps.{get, ForEach}
use backstitch.Prelude.Sorting.{Ord, SameItems}
use backstitch.BranchDb.Docs.{Automerge, AutomergeError}
use backstitch.BranchDb.State.{okay, pending, failed, is_pending, BranchSyncState, BranchDb}
use backstitch.BranchDb.Reconcile.{are_heads_equivalent, try_reconcile_branch}
use backstitch.BranchDb.Reconcile.Settles.{
  IsSynced, try_reconcile_branch-IsSynced, try_reconcile_branch_settles,
}
use backstitch.BranchDb.Sync.{
  update_branch_sync_state, ingest_binary_doc, canonical_branch_status, has_binary_doc,
}
use backstitch.BranchDb.Sync.Reachable.{
  Reach, here, next, track, arrive, IsSound, Reach-IsSound, all_arrived_ready,
}
use backstitch.Examples.Flags.{bool_ord}

pub data Changes : Type 0 where
  changes : Bool → Bool → Changes

abbrev pub has : Changes → Bool → Bool
has (changes a b) false = a
has (changes a b) true = b

abbrev pub get_heads : Changes → List Bool
get_heads (changes a b) = (if a then false ∷ [] else []) ++ (if b then true ∷ [] else [])

abbrev pub merge : Changes → Changes → Changes × Option AutomergeError
merge (changes a b) (changes c d) = (changes (a || c) (b || d), none)

pub has_merge :
    (a b : Changes) (h : Bool) → (merge a b).1 ≡ none → has (merge a b).0 h ≡ has a h || has b h
has_merge (changes a b) (changes c d) false e = refl
has_merge (changes a b) (changes c d) true e = refl

pub heads_of_changes :
    (a b : Changes)
    → ((h : Bool) → has a h ≡ has b h)
    → SameItems ⦃o = bool_ord⦄ (get_heads a) (get_heads b)
heads_of_changes (changes a b) (changes c d) same h = rw (same false, same true) refl

abbrev pub two_changes : Automerge Bool
two_changes = record {
  hash_ord = bool_ord;
  Doc = Changes;
  get_heads = get_heads;
  fork = λ d. d;
  merge = merge;
  has = has;
  has_fork = λ d h. refl;
  has_merge = has_merge;
  heads_of_changes = heads_of_changes;
}

-- branch 1, whose canonical document has both changes and links the binary document 2
abbrev tracked_state : BranchSyncState ℕ Bool Changes
tracked_state = record {
  shadow_doc = none;
  shadow_doc_init = false;
  canonical_doc = 1;
  last_tracked = false ∷ [];
  last_reconciled = [];
  canonical_binary_docs = (2, okay) ∷ [];
}

abbrev empty_db : BranchDb ℕ Bool Changes
empty_db = record {
  binary_states = [];
  branch_sync_states = [];
  repo = λ id. changes true true;
  sent = 0;
}

abbrev tracked : BranchDb ℕ Bool Changes
tracked = (update_branch_sync_state two_changes empty_db 1 (false ∷ []) (2 ∷ [])).0

abbrev arrived : BranchDb ℕ Bool Changes
arrived = (ingest_binary_doc two_changes tracked 2 (some 2)).0

reconciles : (try_reconcile_branch two_changes tracked_state (changes true true)).result ≡ ok tt
unfolding try_reconcile_branch backstitch.BranchDb.Reconcile.resolved_all_canonical_binary_docs
    backstitch.BranchDb.Reconcile.is_up_to_date are_heads_equivalent backstitch.Prelude.Sorting.sort
reconciles = refl

try_reconcile_branch-IsSynced_example :
    (shadow : Changes) × IsSynced two_changes tracked_state
      (changes true true)
      (try_reconcile_branch two_changes tracked_state (changes true true))
      shadow
unfolding backstitch.BranchDb.Reconcile.resolved_all_canonical_binary_docs
    backstitch.BranchDb.Reconcile.is_up_to_date are_heads_equivalent backstitch.Prelude.Sorting.sort
try_reconcile_branch-IsSynced_example =
    try_reconcile_branch-IsSynced two_changes tracked_state (changes true true) refl refl reconciles

try_reconcile_branch_settles_example :
    let after = try_reconcile_branch two_changes tracked_state (changes true true) in
    try_reconcile_branch two_changes after.state after.canonical
    ≡ record { state = after.state; canonical = after.canonical; notified = false; result = ok tt }
try_reconcile_branch_settles_example =
    try_reconcile_branch_settles two_changes tracked_state (changes true true) reconciles

empty_IsSound : IsSound two_changes empty_db
unfolding backstitch.Prelude.Maps.get
empty_IsSound = record {
  agrees = record { branches = λ b st found. absurd (cc) };
  ready = record { branches = λ b st found. absurd (cc) };
}

tracked_done : (update_branch_sync_state two_changes empty_db 1 (false ∷ []) (2 ∷ [])).1 ≡ ok tt
unfolding update_branch_sync_state backstitch.BranchDb.Reconcile.resolved_all_canonical_binary_docs
    backstitch.BranchDb.Sync.link_docs get
tracked_done = refl

arrived_done : (ingest_binary_doc two_changes tracked 2 (some 2)).1 ≡ ok tt
unfolding ingest_binary_doc update_branch_sync_state
    backstitch.BranchDb.Reconcile.resolved_all_canonical_binary_docs
    backstitch.BranchDb.Sync.link_docs get backstitch.Prelude.Maps.insert
    backstitch.BranchDb.Sync.ingest_for_branch backstitch.BranchDb.Sync.reconcile_branch
    try_reconcile_branch backstitch.BranchDb.Reconcile.is_up_to_date are_heads_equivalent
    backstitch.Prelude.Sorting.sort backstitch.BranchDb.State.new_sync_state
arrived_done = refl

arrived_reached : Reach two_changes empty_db arrived
arrived_reached =
    next (next here (track empty_db 1 (false ∷ []) (2 ∷ []) (refl, tt) tracked_done))
      (arrive tracked 2 (some 2) arrived_done)

tracked_IsSound : IsSound two_changes tracked
tracked_IsSound =
    Reach-IsSound two_changes
      (next here (track empty_db 1 (false ∷ []) (2 ∷ []) (refl, tt) tracked_done)) empty_IsSound

Reach-IsSound_example : IsSound two_changes arrived
Reach-IsSound_example = Reach-IsSound two_changes arrived_reached empty_IsSound

abbrev ready_state : BranchSyncState ℕ Bool Changes
ready_state = record {
  shadow_doc = some (changes true true);
  shadow_doc_init = true;
  canonical_doc = 1;
  last_tracked = false ∷ true ∷ [];
  last_reconciled = false ∷ true ∷ [];
  canonical_binary_docs = (2, okay) ∷ [];
}

arrived_there : get arrived.branch_sync_states 1 ≡ some ready_state
unfolding ingest_binary_doc get update_branch_sync_state
    backstitch.BranchDb.Reconcile.resolved_all_canonical_binary_docs
    backstitch.BranchDb.Sync.link_docs backstitch.Prelude.Maps.insert
    backstitch.BranchDb.Sync.ingest_for_branch backstitch.BranchDb.Sync.reconcile_branch
    try_reconcile_branch backstitch.BranchDb.Reconcile.is_up_to_date are_heads_equivalent
    backstitch.Prelude.Sorting.sort backstitch.BranchDb.State.new_sync_state
arrived_there = refl

arrived_two : has_binary_doc two_changes arrived 2 ≡ true
unfolding ingest_binary_doc has_binary_doc get update_branch_sync_state
    backstitch.BranchDb.Reconcile.resolved_all_canonical_binary_docs
    backstitch.BranchDb.Sync.link_docs backstitch.Prelude.Maps.insert
    backstitch.BranchDb.Sync.ingest_for_branch backstitch.BranchDb.Sync.reconcile_branch
    try_reconcile_branch backstitch.BranchDb.Reconcile.is_up_to_date are_heads_equivalent
    backstitch.Prelude.Sorting.sort backstitch.BranchDb.State.new_sync_state
arrived_two = refl

arrived_docs :
    ForEach (λ id s. has_binary_doc two_changes arrived id ≡ true) ready_state.canonical_binary_docs
unfolding get
arrived_docs id s found = elim (Bool-cases (eqb 2 id)) [
  | inl two ↦
      subst (λ j. has_binary_doc two_changes arrived j ≡ true) ((eqb_iff 2 id).0 two) arrived_two
  | inr other ↦ absurd (cc (rw other at found))
]

all_arrived_ready_example :
    (ready_state.shadow_doc_init ≡ true)
    × (canonical_branch_status two_changes arrived 1 ≢ is_pending)
all_arrived_ready_example =
    all_arrived_ready two_changes empty_db arrived 1 ready_state empty_IsSound arrived_reached
      arrived_there arrived_docs
