-- ===== src/Watcher/Tasks.antt =====
-- The tasks of the watcher in any order.
use mathlib.Core.Path.{subst}
use backstitch.Prelude.{
  ◌≡◌, refl, sym, ap, ◌∙◌, Bool, true, false, Option, none, some, List, [], ◌∷◌, ok, ok-injective,
  Eq, ◌==◌, beq_refl, contains, inl, inr, Bool-cases, Option-cases, arith, if◌then◌else◌,
}
use backstitch.Prelude.Maps.{get, insert, get-insert}
use backstitch.Watcher.Tracking.{
  BranchIngestState, pending, ingested, failed, Watcher, track, track_branches, remove_one,
  send_state,
}

-- `Watcher::new`
abbrev pub new_watcher : {D : Type 0} → Watcher D
new_watcher = record { tracked_branches = []; running = [] }

abbrev is_pending : Option BranchIngestState → Bool
is_pending (some pending) = true
is_pending (some ingested) = false
is_pending (some failed) = false
is_pending none = false

state_of_pending :
    (o : Option BranchIngestState)
    → is_pending o ≡ true
    → (state : BranchIngestState) × (o ≡ some state)
state_of_pending none h = absurd (cc)
state_of_pending (some state) h = (state, refl)

module _ {D : Type 0} ⦃e : Eq D⦄ where
  -- no item stands twice
  abbrev pub Single : List D → Type 0
  Single [] = Unit
  Single (x ∷ xs) = (contains xs x ≡ false) × Single xs

  -- The states of the watcher: a metadata document is ingested; a task sends that its branch is
  -- ingested, behind the ingest, or that the poll failed; a task stops without sending, as it is
  -- cancelled or panics. The end of a poll that finds the document, and the ingest, change nothing here.
  pub data Reach : Watcher D → Type 0 where
    start : Reach new_watcher
    ingest_metadata : (w : Watcher D) (ids : List D) → Reach w → Reach (track_branches ids w)
    sends :
        (w v : Watcher D) (id : D) (found : Bool)
        → Reach w
        → contains w.running id ≡ true
        → send_state (if found then ingested else failed) id w ≡ ok v
        → Reach v
    stops :
        (w : Watcher D) (id : D)
        → Reach w
        → contains w.running id ≡ true
        → Reach (record w { running = remove_one id w.running })

  -- The branch of a task that runs is pending, and no two tasks have the same branch.
  pub record IsConsistent (w : Watcher D) : Type 0 where
    pub waits :
        (id : D) → contains w.running id ≡ true → is_pending (get w.tracked_branches id) ≡ true
    pub single : Single w.running

  not_running :
      (id : D) (w : Watcher D)
      → IsConsistent w
      → get w.tracked_branches id ≡ none
      → contains w.running id ≡ false
  not_running id w c absent = elim (Bool-cases (contains w.running id)) [
    | inl runs ↦ absurd (cc (sym (ap is_pending absent) ∙ c.waits id runs))
    | inr rests ↦ rests
  ]

  track-IsConsistent :
      (id : D) (w : Watcher D)
      → IsConsistent w
      → IsConsistent (track id (get w.tracked_branches id) w)
  track-IsConsistent id w c = elim (Option-cases (get w.tracked_branches id)) [
    | inr (state, known) ↦ rw known c
    | inl absent ↦ rw absent (record {
      waits = λ x runs. elim (Bool-cases (id == x)) [
        | inl here ↦ rw (get-insert w.tracked_branches id x pending, here) refl
        | inr other ↦
            rw (get-insert w.tracked_branches id x pending, other) (c.waits x (rw other at runs))
      ];
      single = (not_running id w c absent, c.single);
    })
  ]

  track_branches-IsConsistent :
      (ids : List D) (w : Watcher D) → IsConsistent w → IsConsistent (track_branches ids w)
  unfolding track_branches
  track_branches-IsConsistent [] w c = c
  track_branches-IsConsistent (id ∷ ids) w c =
      track_branches-IsConsistent ids (track id (get w.tracked_branches id) w)
        (track-IsConsistent id w c)

  contains-remove_one :
      (id x : D) (xs : List D)
      → Single xs
      → contains (remove_one id xs) x ≡ (if id == x then false else contains xs x)
  contains-remove_one id x [] s = ground arith
  contains-remove_one id x (y ∷ xs) s =
      ground
        (arith, e.beq_iff y id, e.beq_iff id x, e.beq_iff y x, contains-remove_one id x xs s.1, s.0)

  remove_one-Single : (id : D) (xs : List D) → Single xs → Single (remove_one id xs)
  remove_one-Single id [] s = tt
  remove_one-Single id (x ∷ xs) s = elim (Bool-cases (x == id)) [
    | inl here ↦ rw here s.1
    | inr other ↦
        rw other (ground (arith, contains-remove_one id x xs s.1, s.0), remove_one-Single id xs s.1)
  ]

  -- a task that still runs behind the end of another is of another branch
  still_running :
      (id x : D) (w : Watcher D)
      → IsConsistent w
      → contains (remove_one id w.running) x ≡ true
      → ((id == x) ≡ false) × (is_pending (get w.tracked_branches x) ≡ true)
  still_running id x w c runs =
      let rest : (if id == x then false else contains w.running x) ≡ true =
        sym (contains-remove_one id x w.running c.single) ∙ runs in
      elim (Bool-cases (id == x)) [
        | inl here ↦ absurd (cc (rw here at rest))
        | inr other ↦ (other, c.waits x (rw other at rest))
      ]

  send_state-IsConsistent :
      (state : BranchIngestState) (id : D) (w v : Watcher D)
      → IsConsistent w
      → send_state state id w ≡ ok v
      → IsConsistent v
  unfolding send_state
  send_state-IsConsistent state id w v c sent = elim (Option-cases (get w.tracked_branches id)) [
    | inl absent ↦ absurd (cc (rw (absent, send_state) at sent))
    | inr (old, known) ↦
        subst IsConsistent (ok-injective (rw (known, send_state) at sent)) (record {
          waits = λ x runs.
              let (other, pends) = still_running id x w c runs in
              rw (get-insert w.tracked_branches id x state, other) pends;
          single = remove_one-Single id w.running c.single;
        })
  ]

  -- At every state of the watcher, whatever metadata documents it ingests, in whatever order
  -- its tasks send their states, and whichever of them are cancelled or panic: the branch of a
  -- task that has neither sent a state nor stopped is pending, and no two such tasks have the
  -- same branch.
  pub Reach-IsConsistent : (w : Watcher D) → Reach w → IsConsistent w
  unfolding get
  Reach-IsConsistent _ start = record { waits = λ id runs. absurd (cc); single = tt }
  Reach-IsConsistent _ (ingest_metadata w ids r) =
      track_branches-IsConsistent ids w (Reach-IsConsistent w r)
  Reach-IsConsistent _ (sends w v id found r runs sent) =
      send_state-IsConsistent _ id w v (Reach-IsConsistent w r) sent
  Reach-IsConsistent _ (stops w id r runs) = record {
    waits = λ x still. (still_running id x w (Reach-IsConsistent w r) still).1;
    single = remove_one-Single id w.running (Reach-IsConsistent w r).single;
  }

  -- At every state that the watcher reaches, a task that has neither sent a state nor stopped
  -- finds its branch tracked when it sends one, so that its panic is out of reach, and the
  -- branch then has the state that the task sends.
  pub send_state-Reach :
      (w : Watcher D) (id : D) (state : BranchIngestState)
      → Reach w
      → contains w.running id ≡ true
      → (v : Watcher D) × ((send_state state id w ≡ ok v)
          × (get v.tracked_branches id ≡ some state))
  unfolding send_state
  send_state-Reach w id state r runs =
      let (old, known) =
        state_of_pending (get w.tracked_branches id) ((Reach-IsConsistent w r).waits id runs) in
      (
        record {
          tracked_branches = insert w.tracked_branches id state;
          running = remove_one id w.running;
        },
        (
          rw (known, send_state) refl,
          get-insert w.tracked_branches id id state ∙ rw (beq_refl id) refl,
        ),
      )
