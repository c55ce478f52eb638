-- ===== src/Examples/Driver.antt =====
-- A sync that checks out the latest ref of a requested branch, and the wait for the server.
use backstitch.Prelude.{◌⊎◌, Bool, List, ℕ, ◌≡◌, refl, true, false, none, some, [], ◌∷◌, nat_eq}
use backstitch.Prelude.Maps.{get}
use backstitch.Fs.Checkout.Applied.{hash_of}
use backstitch.Driver.{
  Branches, get_ref_for_sync, DriverInner, sync_correct_ref, connected, failed,
  ensure_server_connection,
}
use backstitch.Driver.Choice.{get_ref_for_sync-first_of}
use backstitch.Driver.Connecting.{ensure_server_connection-failures}
use backstitch.Driver.Branching.{
  BranchStore, Asking, confirm_revert_preview_branch, GoesBack,
  confirm_revert_preview_branch-GoesBack,
}
use backstitch.Driver.Normalized.{CommitStatus}
use backstitch.Driver.Settled.{sync_correct_ref-checks_out, sync_correct_ref_settles}
use backstitch.Examples.Fs.{goal, host, laws, succeeds, disk, changes, proposed, get_files_content}

-- each branch is named by its latest ref
abbrev branches : Branches ℕ ℕ
branches = record {
  branch = λ r. r;
  get_latest_ref_on_branch = λ b. some b;
  get_main_branch = some 0;
}

abbrev asked : DriverInner ℕ ℕ ℕ ℕ ℕ host.Disk
asked = record {
  disk = disk;
  checked_out_ref = none;
  requested_checkout = some 4;
  safe_to_update_editor = true;
  pending_normalized_files = [];
  sent = [];
}

chosen : get_ref_for_sync branches (some 4) none ≡ (some 4, none)
unfolding get_ref_for_sync
chosen = refl

get_ref_for_sync-first_of_example : get_ref_for_sync branches (some 4) (some 5) ≡ (some 4, none)
get_ref_for_sync-first_of_example = get_ref_for_sync-first_of branches (some 4) (some 5)

sync_correct_ref-checks_out_example :
    ((sync_correct_ref host branches asked).checked_out_ref ≡ some 4)
    × (hash_of host (sync_correct_ref host branches asked).disk 1 ≡ some 8)
unfolding get
sync_correct_ref-checks_out_example =
    sync_correct_ref-checks_out host laws succeeds branches asked 4 none goal changes 1 refl refl
      chosen refl (refl, (refl, tt)) refl refl get_files_content proposed

sync_correct_ref_settles_example :
    sync_correct_ref host branches (sync_correct_ref host branches asked)
    ≡ sync_correct_ref host branches asked
sync_correct_ref_settles_example =
    sync_correct_ref_settles host branches asked 4 none changes refl refl chosen proposed refl

ensure_server_connection-failures_example :
    ensure_server_connection false 3 (failed ∷ failed ∷ connected none ∷ []) ≡ some true
ensure_server_connection-failures_example =
    ensure_server_connection-failures 3 (failed ∷ failed ∷ connected none ∷ [])

abbrev committed : List (ℕ × CommitStatus ℕ)
committed =
    (1, record { hash_before_commit = some 5; hash_after_commit = some 6 })
    ∷ (2, record { hash_before_commit = some 6; hash_after_commit = some 6 })
    ∷ []

-- a store that has one preview branch, 7, forked from the ref 3
abbrev preview : BranchStore ℕ ℕ
preview = record {
  Db = Bool;
  branch = λ r. r;
  get_checked_out_ref = λ db. some 7;
  get_branch_state = λ db id. some (id, some 3);
  fork_branch = λ db name id. (db, none);
  merge_branch = λ db source target. (db, true);
  delete_branch = λ db id. (false, db);
  create_merge_preview_branch = λ db source target. (db, none);
  create_revert_preview_branch = λ db id ref_. (db, none);
  confirm_revert_preview_branch = λ db id. (db, true);
}

abbrev previewing : Asking preview
previewing = record { db = true; requested_checkout = none }

confirm_revert_preview_branch-GoesBack_example :
    ((confirm_revert_preview_branch preview previewing).requested_checkout ≡ none)
    ⊎ ((ref_ : ℕ) × (id : ℕ) × (forked_from : ℕ) × (preview.get_branch_state true ref_
          ≡ some (id, some forked_from))
        × GoesBack preview previewing ref_
        × ((confirm_revert_preview_branch preview previewing).requested_checkout
            ≡ some forked_from))
confirm_revert_preview_branch-GoesBack_example =
    confirm_revert_preview_branch-GoesBack preview previewing
