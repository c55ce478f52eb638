-- ===== src/Watcher/Polling.antt =====
-- `poll_document` of backstitch/src/project/document_watcher.rs: the repo is asked for a document again
-- and again until it has it or the time is over.
use Prim.Native.Nat.{◌%◌, ◌*◌}
use backstitch.Prelude.{
  ℕ, zero, suc, ◌+◌, ◌≤◌, ◌<◌, ◌≡◌, refl, Bool, true, false, Option, none, some, Outcome, ok, err,
  panic, ltb, arith, if◌then◌else◌,
}
use backstitch.Scene.{StillRunning, still_running}

-- `duration`, in milliseconds
abbrev pub duration : ℕ
duration = 500

-- the range of `u64`
abbrev pub u64_range : ℕ
u64_range = 18446744073709551616

-- `find(...).await.unwrap()` of the n-th call: `err` for a repo that has stopped
abbrev pub Finds : Type 0 → Type 0
Finds Handle = ℕ → Outcome (Unit {0}) (Option Handle)

-- the end of a round, which the time may end
abbrev pub after_find :
    {Handle : Type 0}
    → Outcome (Unit {0}) (Option Handle)
    → Bool
    → Outcome StillRunning (Option Handle)
    → Outcome StillRunning (Option Handle)
after_find (ok (some h)) is_over later = ok (some h)
after_find (ok none) is_over later = if is_over then ok none else later
after_find (err e) is_over later = panic
after_find panic is_over later = panic

module _ {Handle : Type 0} (find : Finds Handle) where
  -- the loop, at its n-th round
  unfoldable pub poll : ℕ → ℕ → ℕ → ℕ → Outcome StillRunning (Option Handle)
  poll zero timeout time n = err still_running
  poll (suc fuel) timeout time n =
      let next = (time + duration) % u64_range in
      after_find (find n) (ltb timeout next) (poll fuel timeout next (suc n))

  unfoldable pub poll_document : ℕ → ℕ → Outcome StillRunning (Option Handle)
  unfolding poll
  poll_document fuel timeout = poll fuel timeout 0 0

  -- What a call of find decides: a document is found, a repo that has stopped is a panic, and no
  -- document leaves it to the next call.
  abbrev pub decided :
      Outcome (Unit {0}) (Option Handle) → Option (Outcome StillRunning (Option Handle))
  decided (ok none) = none
  decided (ok (some h)) = some (ok (some h))
  decided (err e) = some panic
  decided panic = some panic

  abbrev pub or_later :
      Option (Outcome StillRunning (Option Handle))
      → Outcome StillRunning (Option Handle)
      → Outcome StillRunning (Option Handle)
  or_later none later = later
  or_later (some result) later = result

  -- what the first of `count` calls from the n-th on that decides gives, and none where none decides
  unfoldable pub first_found : ℕ → ℕ → Outcome StillRunning (Option Handle)
  first_found zero n = ok none
  first_found (suc count) n = or_later (decided (find n)) (first_found count (suc n))

  over_or_last :
      (o : Outcome (Unit {0}) (Option Handle)) (later : Outcome StillRunning (Option Handle))
      → after_find o true later ≡ or_later (decided o) (ok none)
  over_or_last (ok (some h)) later = refl
  over_or_last (ok none) later = refl
  over_or_last (err e) later = refl
  over_or_last panic later = refl

  after_find-decided :
      (o : Outcome (Unit {0}) (Option Handle)) (later : Outcome StillRunning (Option Handle))
      → after_find o false later ≡ or_later (decided o) later
  after_find-decided (ok (some h)) later = refl
  after_find-decided (ok none) later = refl
  after_find-decided (err e) later = refl
  after_find-decided panic later = refl

  next_time : (n : ℕ) → (suc n) * 500 < u64_range → (n * 500 + duration) % u64_range ≡ (suc n) * 500
  next_time n small = omega arith

  poll-first_found :
      (timeout rounds n left : ℕ)
      → rounds * 500 ≤ timeout
      → timeout < (rounds + 1) * 500
      → timeout + 500 < u64_range
      → n + left ≡ rounds
      → poll (suc left) timeout (n * 500) n ≡ first_found (suc left) n
  unfolding poll first_found
  poll-first_found timeout rounds n zero low high fits sum =
      rw (next_time n (omega arith), last_round) (over_or_last (find n) _)
    where
      last_round : ltb timeout (suc n * 500) ≡ true
      last_round = ground arith
  poll-first_found timeout rounds n (suc left) low high fits sum =
      rw
        (
          next_time n (omega arith),
          more_rounds,
          poll-first_found timeout rounds (suc n) left low high fits (omega arith),
        )
        (after_find-decided (find n) _)
    where
      more_rounds : ltb timeout (suc n * 500) ≡ false
      more_rounds = ground arith

  -- With a timeout that leaves room for an interval in 64 bits, the poll for a document ends:
  -- it gives the document of the first of its timeout / 500 + 1 calls of find that does not
  -- give none, or a panic where that call finds the repo stopped, and none if all of them give
  -- none.
  pub poll_document-first_found :
      (timeout rounds : ℕ)
      → rounds * 500 ≤ timeout
      → timeout < (rounds + 1) * 500
      → timeout + 500 < u64_range
      → poll_document (suc rounds) timeout ≡ first_found (suc rounds) 0
  unfolding poll_document
  poll_document-first_found timeout rounds low high fits =
      poll-first_found timeout rounds 0 rounds low high fits (omega arith)
