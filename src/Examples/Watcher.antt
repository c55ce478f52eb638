-- ===== src/Examples/Watcher.antt =====
-- A poll that finds a document at its third call, and a watcher of two branches.
use backstitch.Prelude.{
  ℕ, ◌≡◌, refl, Bool, true, false, Option, none, some, List, [], ◌∷◌, Outcome, ok, nat_eq, eqb,
  contains, arith, if◌then◌else◌,
}
use backstitch.Prelude.Maps.{get}
use backstitch.Watcher.Polling.{Finds, poll_document, first_found, poll_document-first_found}
use backstitch.Watcher.Tracking.{ingested, failed, pending, Watcher, track_branches, send_state}
use backstitch.Watcher.Tasks.{
  Reach, start, ingest_metadata, sends, new_watcher, IsConsistent, Reach-IsConsistent,
  send_state-Reach,
}

abbrev third_call : Finds ℕ
third_call n = ok (if eqb n 2 then some 7 else none)

poll_document-first_found_example : poll_document third_call 3 1200 ≡ first_found third_call 3 0
poll_document-first_found_example =
    poll_document-first_found third_call 1200 2 (omega arith) (omega arith) (omega arith)

finds_it : poll_document third_call 3 1200 ≡ ok (some 7)
unfolding poll_document
finds_it = refl

gives_up : poll_document third_call 2 700 ≡ ok none
unfolding poll_document
gives_up = refl

abbrev two_tracked : Watcher ℕ
two_tracked = record { tracked_branches = (1, pending) ∷ (2, pending) ∷ []; running = 2 ∷ 1 ∷ [] }

abbrev one_ingested : Watcher ℕ
one_ingested = record { tracked_branches = (1, ingested) ∷ (2, pending) ∷ []; running = 2 ∷ [] }

tracked_first : track_branches (1 ∷ 2 ∷ []) new_watcher ≡ two_tracked
unfolding track_branches get backstitch.Prelude.Maps.insert
tracked_first = refl

two_tracked_reached : Reach two_tracked
unfolding track_branches get backstitch.Prelude.Maps.insert
two_tracked_reached = ingest_metadata new_watcher (1 ∷ 2 ∷ []) start

one_ingested_reached : Reach one_ingested
unfolding send_state get backstitch.Prelude.Maps.insert
one_ingested_reached = sends two_tracked one_ingested 1 true two_tracked_reached refl refl

Reach-IsConsistent_example : IsConsistent one_ingested
Reach-IsConsistent_example = Reach-IsConsistent one_ingested one_ingested_reached

send_state-Reach_example :
    (v : Watcher ℕ) × ((send_state failed 2 one_ingested ≡ ok v)
      × (get v.tracked_branches 2 ≡ some failed))
send_state-Reach_example = send_state-Reach one_ingested 2 failed one_ingested_reached refl
