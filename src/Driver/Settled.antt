-- ===== src/Driver/Settled.antt =====
-- What a sync leaves, and that it settles.
use mathlib.Core.Option
use backstitch.Prelude.{
  ◌≡◌, refl, ◌++◌, sym, ap, ◌∙◌, Bool, true, false, not, Option, none, some, List, [], contains,
  option_beq_iff, is_empty, map, Bool-cases, Option-cases, inl, inr, if◌then◌else◌,
}
use backstitch.Prelude.Maps.{Map, get, keys, Distinct}
use backstitch.Fs.Checkout.{Host, checkout_ref, apply_changes, Changes}
use backstitch.Fs.Checkout.Applied.{HostLaws, Succeeds, hides, hash_of}
use backstitch.Fs.Checkout.Goal.{checkout_ref-apply_changes}
use backstitch.Driver.Choice.{latest_on-get_ref_for_sync}
use backstitch.Driver.{
  resolve_checked_out, check_out, sync_with, sync_for, normalize, Branches, get_ref_for_sync,
  latest_on, DriverInner, sync_correct_ref, sync_guarded, written, resolve_pending_normalized_files,
}

stays :
    {D R : Type 0} (branches : Branches D R) (requested : Option D) (checked_out : Option R)
    (goal_ref : R)
    → checked_out ≡ some goal_ref
    → latest_on branches requested ≡ none
    → branches.get_latest_ref_on_branch (branches.branch goal_ref) ≡ some goal_ref
    → get_ref_for_sync branches requested checked_out ≡ (some goal_ref, requested)
unfolding get_ref_for_sync
stays branches requested checked_out goal_ref out none_asked latest =
    rw (none_asked, out, latest, get_ref_for_sync) refl

module _ {K L C H R : Type 0} (host : Host K L C H R) where
  open host use {Disk, ref_eq}

  checked_out_already :
      (current : Option R) (goal_ref : R) (disk : Disk)
      → current ≡ some goal_ref
      → checkout_ref host current goal_ref disk ≡ none
  unfolding checkout_ref
  checked_out_already current goal_ref disk out =
      rw ((option_beq_iff ⦃e = ref_eq⦄ current (some goal_ref)).1 out, checkout_ref) refl

module _ {K L C H D R : Type 0} (host : Host K L C H R) where
  open host use {
    Disk, tree, ref_eq, local_eq, to_hash, globalize_path, should_ignore, get_hash_index,
    get_files_at_ref,
  }

  resolve_nothing :
      (s : DriverInner K C H D R Disk) (checked_out : Option R)
      → s.pending_normalized_files ≡ []
      → resolve_checked_out host s checked_out ≡ s
  unfolding resolve_pending_normalized_files normalize
  resolve_nothing s none pending = refl
  resolve_nothing s (some r) pending =
      elim (Option-cases (
        get_files_at_ref r
          (map host.localize_path (keys ⦃e = host.path_eq⦄ s.pending_normalized_files)))) [
            | inl failed ↦ rw (failed, resolve_pending_normalized_files) refl
            | inr (contents, found) ↦
                rw (found, resolve_pending_normalized_files)
                  (ap
                      (λ (p : Map K H). record s {
                        disk = normalize host s.disk contents p;
                        pending_normalized_files = [];
                      })
                      pending
                    ∙ ap (λ (p : Map K H). record s { pending_normalized_files = p }) (sym pending))
          ]

  -- the state that a checkout of a goal leaves
  abbrev checked_out_at :
      DriverInner K C H D R Disk → R → Option D → Changes host → DriverInner K C H D R Disk
  checked_out_at s goal_ref requested changes = record s {
    disk = apply_changes host s.disk changes;
    checked_out_ref = some goal_ref;
    requested_checkout = requested;
    sent = s.sent ++ written host s.disk changes;
  }

  sync_guarded-same :
      (s : DriverInner K C H D R Disk) (goal_ref : R) (changes : Changes host)
      → s.safe_to_update_editor ≡ true
      → s.pending_normalized_files ≡ []
      → sync_guarded host s s.checked_out_ref goal_ref (some changes)
        ≡ checked_out_at s goal_ref s.requested_checkout changes
  unfolding sync_guarded
  sync_guarded-same s goal_ref changes safe pending =
      let updated : DriverInner K C H D R Disk =
        check_out host (resolve_checked_out host s s.checked_out_ref) goal_ref (some changes) in
      ap (λ (b : Bool). if not b then s else if not s.safe_to_update_editor then s else updated)
        ((option_beq_iff ⦃e = ref_eq⦄ s.checked_out_ref s.checked_out_ref).1 refl)
      ∙ ap (λ (b : Bool). if not b then s else updated) safe
      ∙ ap (λ (t : DriverInner K C H D R Disk). check_out host t goal_ref (some changes))
          (resolve_nothing s s.checked_out_ref pending)

  sync_correct_ref-goal :
      (branches : Branches D R) (s : DriverInner K C H D R Disk) (goal_ref : R)
      (requested : Option D) (changes : Changes host)
      → s.safe_to_update_editor ≡ true
      → s.pending_normalized_files ≡ []
      → get_ref_for_sync branches s.requested_checkout s.checked_out_ref
        ≡ (some goal_ref, requested)
      → checkout_ref host s.checked_out_ref goal_ref s.disk ≡ some changes
      → sync_correct_ref host branches s ≡ checked_out_at s goal_ref requested changes
  unfolding sync_correct_ref
  sync_correct_ref-goal branches s goal_ref requested changes safe pending chosen proposed =
      ap
        (λ (b : Bool).
          if not b
          then s
          else sync_for host s (get_ref_for_sync branches s.requested_checkout s.checked_out_ref))
        safe
      ∙ ap (sync_for host s) chosen
      ∙ ap (sync_with host (record s { requested_checkout = requested }) goal_ref) proposed
      ∙ sync_guarded-same (record s { requested_checkout = requested }) goal_ref changes safe
          pending

  -- If every write and removal succeeds, a sync that may update the editor, has no files left
  -- to normalize and goes for a ref that is not checked out records the ref as the one checked
  -- out and leaves every file that is not ignored with the hash that the ref has of it, an
  -- ignored file as it was. The store has the ref and the content of each of its files; the
  -- file is not hidden and not below a directory that is hidden or ignored; the index has the
  -- hash of what the disk holds, and the paths of the project's files on the disk and behind
  -- res:// translate into each other.
  pub sync_correct_ref-checks_out :
      (laws : HostLaws host) (succeeds : Succeeds host) (branches : Branches D R)
      (s : DriverInner K C H D R Disk) (goal_ref : R) (requested : Option D) (goal_files : Map L H)
      (changes : Changes host) (l : L)
      → s.safe_to_update_editor ≡ true
      → s.pending_normalized_files ≡ []
      → get_ref_for_sync branches s.requested_checkout s.checked_out_ref
        ≡ (some goal_ref, requested)
      → get_hash_index goal_ref ≡ some goal_files
      → Distinct ⦃e = local_eq⦄ goal_files
      → laws.visible (globalize_path l) ≡ true
      → hides host (tree s.disk) (globalize_path l) ≡ false
      → ((paths : List L) (contents : Map L C)
          → get_files_at_ref goal_ref paths ≡ some contents
          → (j : L) → contains ⦃e = local_eq⦄ paths j ≡ true
          → Option.map to_hash (get ⦃e = local_eq⦄ contents j) ≡ get ⦃e = local_eq⦄ goal_files j)
      → checkout_ref host s.checked_out_ref goal_ref s.disk ≡ some changes
      → ((sync_correct_ref host branches s).checked_out_ref ≡ some goal_ref)
        × (hash_of host (sync_correct_ref host branches s).disk (globalize_path l) ≡ (
            if should_ignore (globalize_path l)
            then hash_of host s.disk (globalize_path l)
            else get ⦃e = local_eq⦄ goal_files l))
  sync_correct_ref-checks_out laws succeeds branches s goal_ref requested goal_files changes l safe
        pending chosen index once seen shown content proposed =
      rw (sync_correct_ref-goal branches s goal_ref requested changes safe pending chosen proposed)
        (
          refl,
          checkout_ref-apply_changes host laws succeeds s.checked_out_ref goal_ref s.disk goal_files
              changes l index once seen shown content proposed,
        )

  sync_again :
      (branches : Branches D R) (s : DriverInner K C H D R Disk) (goal_ref : R)
      → s.checked_out_ref ≡ some goal_ref
      → s.pending_normalized_files ≡ []
      → latest_on branches s.requested_checkout ≡ none
      → branches.get_latest_ref_on_branch (branches.branch goal_ref) ≡ some goal_ref
      → sync_correct_ref host branches s ≡ s
  unfolding sync_correct_ref
  sync_again branches s goal_ref out pending none_asked latest =
      elim (Bool-cases s.safe_to_update_editor) [
        | inr unsafe ↦
            ap
              (λ (b : Bool).
                if not b
                then s
                else sync_for host s
                    (get_ref_for_sync branches s.requested_checkout s.checked_out_ref))
              unsafe
        | inl safe ↦
            ap
              (λ (b : Bool).
                if not b
                then s
                else sync_for host s
                    (get_ref_for_sync branches s.requested_checkout s.checked_out_ref))
              safe
            ∙ ap (sync_for host s) (
                stays branches s.requested_checkout s.checked_out_ref goal_ref out none_asked
                  latest)
            ∙ ap (sync_with host s goal_ref)
                (checked_out_already host s.checked_out_ref goal_ref s.disk out)
            ∙ ap
                (λ (p : Map K H).
                  if is_empty p then s else sync_guarded host s s.checked_out_ref goal_ref none)
                pending
      ]

  -- After a sync that may update the editor, has no files left to normalize and checked a ref
  -- out, the next one changes nothing if the ref is still the latest of its branch.
  pub sync_correct_ref_settles :
      (branches : Branches D R) (s : DriverInner K C H D R Disk) (goal_ref : R)
      (requested : Option D) (changes : Changes host)
      → s.safe_to_update_editor ≡ true
      → s.pending_normalized_files ≡ []
      → get_ref_for_sync branches s.requested_checkout s.checked_out_ref
        ≡ (some goal_ref, requested)
      → checkout_ref host s.checked_out_ref goal_ref s.disk ≡ some changes
      → branches.get_latest_ref_on_branch (branches.branch goal_ref) ≡ some goal_ref
      → sync_correct_ref host branches (sync_correct_ref host branches s)
        ≡ sync_correct_ref host branches s
  sync_correct_ref_settles branches s goal_ref requested changes safe pending chosen proposed
        latest =
      rw (sync_correct_ref-goal branches s goal_ref requested changes safe pending chosen proposed)
        (sync_again branches (checked_out_at s goal_ref requested changes) goal_ref refl pending
          (ap (λ (p : Option R × Option D). latest_on branches p.1) (sym chosen)
            ∙ latest_on-get_ref_for_sync branches s.requested_checkout s.checked_out_ref)
          latest)
