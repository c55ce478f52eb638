-- ===== src/Driver.antt =====
-- backstitch/src/project/driver.rs: which ref the sync checks out, the checkout under the guard of the
-- main thread, and the wait for the server.
pub mod Choice
pub mod Settled
pub mod Normalized
pub mod Branching
pub mod Connecting
use mathlib.Core.Option
use backstitch.Prelude.{
  ℕ, Str, ◌+◌, Bool, true, false, not, Option, none, some, List, [], ◌∷◌, ◌++◌, map, Eq, contains,
  option_beq, is_empty, ltb, if◌then◌else◌,
}
use backstitch.Prelude.Maps.{Map, get, keys}
use backstitch.Fs.Traversal.{ChangeType}
use backstitch.Fs.Checkout.{
  Host, Changes, checkout_ref, handle_file_update, apply_change, apply_changes,
}

-- The branches of BranchDb at the time of a sync, none for an error.
pub record Branches (D R : Type 0) : Type 0 where
  pub branch : R → D
  pub get_latest_ref_on_branch : D → Option R
  pub get_main_branch : Option D

-- an `if let` that returns, and what follows it
abbrev pub or_else : {R : Type 0} → Option R → Option R → Option R
or_else (some r) rest = some r
or_else none rest = rest

module _ {D R : Type 0} (branches : Branches D R) where
  abbrev pub latest_on : Option D → Option R
  latest_on none = none
  latest_on (some b) = branches.get_latest_ref_on_branch b

  -- what `get_ref_for_sync` does once the request gave nothing
  abbrev pub without_request : Option R → Option R
  without_request checked_out =
      or_else (latest_on (Option.map branches.branch checked_out))
        (latest_on branches.get_main_branch)

  -- the ref, and the request that is left
  unfoldable pub get_ref_for_sync : Option D → Option R → Option R × Option D
  get_ref_for_sync requested checked_out = elim (latest_on requested) [
    | none ↦ (without_request checked_out, requested)
    | some latest ↦ (some latest, none)
  ]

-- The fields of DriverInner that the sync reads and writes, with the disk. `sent` are the events sent
-- on `file_changes_tx`.
pub record DriverInner (K C H D R Disk : Type 0) : Type 0 where
  pub disk : Disk
  pub checked_out_ref : Option R
  pub requested_checkout : Option D
  pub safe_to_update_editor : Bool
  pub pending_normalized_files : Map K H
  pub sent : List (K × (ChangeType × Option C))

module _ {K L C H R : Type 0} (host : Host K L C H R) where
  open host use {Disk, get_hash, localize_path}

  -- one round of the loop over the pending files
  abbrev normalize_with : Disk → K → H → Option H → Option C → Disk
  normalize_with disk path hash (some current_hash) (some content) =
      if not (host.hash_eq.beq hash current_hash)
      then disk
      else (handle_file_update host disk path content).0
  normalize_with disk path hash _ _ = disk

  unfoldable pub normalize : Disk → Map L C → Map K H → Disk
  normalize disk contents [] = disk
  normalize disk contents ((path, hash) ∷ pending) =
      normalize
        (normalize_with disk path hash (get_hash disk path)
          (get ⦃e = host.local_eq⦄ contents (localize_path path)))
        contents pending

  -- the changes that were written, which become events
  unfoldable pub written : Disk → Changes host → Changes host
  written disk [] = []
  written disk ((path, (change, content)) ∷ rest) =
      let applied = apply_change host disk path change content in
      let events = written applied.0 rest in
      if applied.1 then (path, (change, content)) ∷ events else events

module _ {K L C H D R : Type 0} (host : Host K L C H R) where
  open host use {Disk, localize_path, get_files_at_ref}

  unfoldable pub resolve_pending_normalized_files :
      DriverInner K C H D R Disk → R → DriverInner K C H D R Disk
  unfolding normalize
  resolve_pending_normalized_files s ref_ =
      elim (get_files_at_ref ref_
        (map localize_path (keys ⦃e = host.path_eq⦄ s.pending_normalized_files))) [
          | none ↦ s
          | some contents ↦ record s {
            disk = normalize host s.disk contents s.pending_normalized_files;
            pending_normalized_files = [];
          }
        ]

  abbrev pub resolve_checked_out :
      DriverInner K C H D R Disk → Option R → DriverInner K C H D R Disk
  resolve_checked_out s none = s
  resolve_checked_out s (some ref_) = resolve_pending_normalized_files s ref_

  abbrev pub check_out :
      DriverInner K C H D R Disk → R → Option (Changes host) → DriverInner K C H D R Disk
  check_out s goal_ref none = s
  check_out s goal_ref (some changes) = record s {
    disk = apply_changes host s.disk changes;
    checked_out_ref = some goal_ref;
    sent = s.sent ++ written host s.disk changes;
  }

  -- What stands below the guard, on the state at that time: `checked_out_ref` and
  -- `proposed_changes` were read before it.
  unfoldable pub sync_guarded :
      DriverInner K C H D R Disk → Option R → R → Option (Changes host) → DriverInner K C H D R Disk
  unfolding resolve_pending_normalized_files written
  sync_guarded s checked_out_ref goal_ref proposed_changes =
      if not (option_beq ⦃e = host.ref_eq⦄ s.checked_out_ref checked_out_ref)
      then s
      else if not s.safe_to_update_editor
      then s
      else check_out (resolve_checked_out s checked_out_ref) goal_ref proposed_changes

  -- what follows the proposal
  abbrev pub sync_with :
      DriverInner K C H D R Disk → R → Option (Changes host) → DriverInner K C H D R Disk
  sync_with s goal_ref none =
      if is_empty s.pending_normalized_files
      then s
      else sync_guarded s s.checked_out_ref goal_ref none
  sync_with s goal_ref (some changes) = sync_guarded s s.checked_out_ref goal_ref (some changes)

  -- what follows the choice of a ref
  abbrev pub sync_for :
      DriverInner K C H D R Disk → Option R × Option D → DriverInner K C H D R Disk
  sync_for s (none, requested) = record s { requested_checkout = requested }
  sync_for s (some goal_ref, requested) =
      sync_with (record s { requested_checkout = requested }) goal_ref
        (checkout_ref host s.checked_out_ref goal_ref s.disk)

  -- A whole call, where no other task runs between its start and its end and the token is not
  -- cancelled.
  unfoldable pub sync_correct_ref :
      Branches D R → DriverInner K C H D R Disk → DriverInner K C H D R Disk
  unfolding sync_guarded
  sync_correct_ref branches s =
      if not s.safe_to_update_editor
      then s
      else sync_for s (get_ref_for_sync branches s.requested_checkout s.checked_out_ref)

-- RemoteConnectionEvent
pub data RemoteConnectionEvent : Type 0 where
  connected : (username : Option Str) → RemoteConnectionEvent
  failed cancelled : RemoteConnectionEvent

-- the loop over the events: none while it waits for the next one
unfoldable pub await_connection : ℕ → ℕ → List RemoteConnectionEvent → Option Bool
await_connection retries attempt [] = none
await_connection retries attempt (connected username ∷ events) = some true
await_connection retries attempt (cancelled ∷ events) = some false
await_connection retries attempt (failed ∷ events) =
    let rest = await_connection retries (attempt + 1) events in
    if ltb attempt retries then rest else some false

unfoldable pub ensure_server_connection : Bool → ℕ → List RemoteConnectionEvent → Option Bool
unfolding await_connection
ensure_server_connection is_connected retries events =
    if is_connected then some true else await_connection retries 0 events
