-- ===== src/BranchDb/Sync/Reachable.antt =====
-- What the sync of branches promises at every state that its operations lead to, whatever the order
-- in which documents are tracked, arrive and change.
use backstitch.Prelude.{
  ◌≡◌, refl, ◌≢◌, true, false, Option, none, some, List, [], ◌∷◌, ok, Eq, any, all, contains, inl,
  inr, arith,
}
use backstitch.Prelude.Maps.{Map, get, insert, ForEach, ForEach-insert, Distinct, all_of_get}
use backstitch.BranchDb.Docs.{Automerge}
use backstitch.BranchDb.State.{
  BinaryDocStatus, pending, failed, okay, is_pending, BranchSyncState, BranchDb, write_doc,
}
use backstitch.BranchDb.Reconcile.{resolved_all_canonical_binary_docs, is_not_pending}
use backstitch.BranchDb.Sync.{
  status_of, status_of_docs, link_docs, is_status_pending, update_branch_sync_state,
  ingest_binary_doc, clear_branch_states, canonical_branch_status, has_binary_doc,
}
use backstitch.BranchDb.Sync.Agreement.{Agrees, update_branch_sync_state-Agrees}
use backstitch.BranchDb.Sync.Arrival.{ingest_binary_doc-Agrees}
use backstitch.BranchDb.Sync.Ready.{
  IsReady, AllReady, ingest_binary_doc-AllReady, state_or_new-Shadowed, announce-AllReady,
  tracked-AllReady,
}

module _ {D : Type 0} ⦃e : Eq D⦄ where
  -- The items of a `HashSet`.
  abbrev pub NoRepeat : List D → Type 0
  NoRepeat [] = Unit
  NoRepeat (x ∷ xs) = (contains xs x ≡ false) × NoRepeat xs

  get-link_docs :
      (states : Map D (Option D)) (ids : List D) (id : D)
      → contains ids id ≡ false
      → get (link_docs states ids) id ≡ none
  unfolding link_docs get
  get-link_docs states [] id h = refl
  get-link_docs states (i ∷ ids) id h = ground (arith, get-link_docs states ids id)

  Distinct-link_docs :
      (states : Map D (Option D)) (ids : List D) → NoRepeat ids → Distinct (link_docs states ids)
  unfolding link_docs
  Distinct-link_docs states [] h = tt
  Distinct-link_docs states (i ∷ ids) h =
      (get-link_docs states ids i h.0, Distinct-link_docs states ids h.1)

none_pending :
    {D : Type 0} (docs : Map D BinaryDocStatus)
    → all (λ entry. is_not_pending entry.1) docs ≡ true
    → any (λ entry. is_status_pending entry.1) docs ≡ false
none_pending [] h = refl
none_pending ((id, pending) ∷ docs) h = absurd (cc)
none_pending ((id, failed) ∷ docs) h = none_pending docs h
none_pending ((id, okay) ∷ docs) h = none_pending docs h

resolved-status :
    {D : Type 0} (docs : Map D BinaryDocStatus)
    → resolved_all_canonical_binary_docs docs ≡ true
    → status_of_docs docs ≢ is_pending
unfolding resolved_all_canonical_binary_docs
resolved-status docs r = ground (arith, none_pending docs r)

resolved_of_entries :
    {D : Type 0} (docs : Map D BinaryDocStatus)
    → all (λ (entry : D × BinaryDocStatus). is_not_pending entry.1) docs ≡ true
    → resolved_all_canonical_binary_docs docs ≡ true
unfolding resolved_all_canonical_binary_docs
resolved_of_entries docs h = h

module _ {D H : Type 0} ⦃e : Eq D⦄ (am : Automerge H) where
  open am use {Doc}

  update_branch_sync_state-AllReady :
      (db : BranchDb D H Doc) (handle : D) (heads : List H) (linked_docs : List D)
      → NoRepeat linked_docs
      → AllReady am db
      → (update_branch_sync_state am db handle heads linked_docs).1 ≡ ok tt
      → AllReady am (update_branch_sync_state am db handle heads linked_docs).0
  unfolding update_branch_sync_state
  update_branch_sync_state-AllReady db handle heads linked_docs once ready done =
      announce-AllReady am _
        (tracked-AllReady am db handle _ ready
          (state_or_new-Shadowed am (get db.branch_sync_states handle) handle
            (λ st found. (ready.branches handle st found).shadowed))
          (Distinct-link_docs db.binary_states linked_docs once))
        done

  -- One change of the state: a branch is tracked at new heads, a binary document arrives or is given
  -- up, the maps are cleared, the program edits a shadow document, or the repo changes a document.
  -- The first two are taken where no merge fails.
  pub data Step : BranchDb D H Doc → BranchDb D H Doc → Type 0 where
    track :
        (db : BranchDb D H Doc) (handle : D) (heads : List H) (linked_docs : List D)
        → NoRepeat linked_docs
        → (update_branch_sync_state am db handle heads linked_docs).1 ≡ ok tt
        → Step db (update_branch_sync_state am db handle heads linked_docs).0
    arrive :
        (db : BranchDb D H Doc) (id : D) (handle : Option D)
        → (ingest_binary_doc am db id handle).1 ≡ ok tt
        → Step db (ingest_binary_doc am db id handle).0
    clear : (db : BranchDb D H Doc) → Step db (clear_branch_states am db)
    edit :
        (db : BranchDb D H Doc) (branch : D) (state : BranchSyncState D H Doc) (old new : Doc)
        → get db.branch_sync_states branch ≡ some state
        → state.shadow_doc ≡ some old
        → Step db (record db {
          branch_sync_states =
              insert db.branch_sync_states branch (record state { shadow_doc = some new });
        })
    receive :
        (db : BranchDb D H Doc) (id : D) (doc : Doc)
        → Step db (record db { repo = write_doc db.repo id doc })

  pub data Reach (start : BranchDb D H Doc) : BranchDb D H Doc → Type 0 where
    here : Reach start start
    next : {mid end : BranchDb D H Doc} → Reach start mid → Step mid end → Reach start end

  pub record IsSound (db : BranchDb D H Doc) : Type 0 where
    pub agrees : Agrees am db
    pub ready : AllReady am db

  Step-IsSound : {a b : BranchDb D H Doc} → Step a b → IsSound a → IsSound b
  unfolding clear_branch_states get
  Step-IsSound (track db handle heads linked_docs once done) s = record {
    agrees = update_branch_sync_state-Agrees am db handle heads linked_docs s.agrees;
    ready = update_branch_sync_state-AllReady db handle heads linked_docs once s.ready done;
  }
  Step-IsSound (arrive db id handle done) s = record {
    agrees = ingest_binary_doc-Agrees am db id handle s.agrees done;
    ready = ingest_binary_doc-AllReady am db id handle s.ready done;
  }
  Step-IsSound (clear db) s = record {
    agrees = record { branches = λ b st found. absurd (cc) };
    ready = record { branches = λ b st found. absurd (cc) };
  }
  Step-IsSound (edit db branch state old new there shadow) s = record {
    agrees = record {
      branches =
          ForEach-insert
            (λ b (st : BranchSyncState D H Doc).
              ForEach (λ id x. x ≡ status_of (get db.binary_states id)) st.canonical_binary_docs)
            db.branch_sync_states branch _ s.agrees.branches (s.agrees.branches branch state there);
    };
    ready = record {
      branches =
          ForEach-insert (λ b (st : BranchSyncState D H Doc). IsReady st) db.branch_sync_states
            branch _ s.ready.branches (edited (s.ready.branches branch state there));
    };
  }
    where
      edited : IsReady state → IsReady (record state { shadow_doc = some new })
      edited r = record {
        resolved = r.resolved;
        shadowed = elim r.shadowed [ inl gone ↦ absurd (cc) | inr init ↦ inr init ];
        distinct = r.distinct;
      }
  Step-IsSound (receive db id doc) s = record {
    agrees = record { branches = s.agrees.branches };
    ready = record { branches = s.ready.branches };
  }

  -- Every state that the operations of the branch sync lead to from a sound one is sound: each
  -- branch's record of its linked documents is what binary_states says, a branch whose linked
  -- documents are all resolved has released its waiters, one with a shadow document too, and no
  -- document is recorded twice.
  pub Reach-IsSound : {a b : BranchDb D H Doc} → Reach a b → IsSound a → IsSound b
  Reach-IsSound here s = s
  Reach-IsSound (next r step) s = Step-IsSound step (Reach-IsSound r s)

  arrived-is_not_pending :
      (db : BranchDb D H Doc) (branch : D) (state : BranchSyncState D H Doc) (id : D)
      (s : BinaryDocStatus)
      → IsSound db
      → get db.branch_sync_states branch ≡ some state
      → get state.canonical_binary_docs id ≡ some s
      → has_binary_doc am db id ≡ true
      → is_not_pending s ≡ true
  unfolding has_binary_doc
  arrived-is_not_pending db branch state id s sound there linked arrived =
      ground (arith, sound.agrees.branches branch state there id s linked)

  -- At every state that the operations lead to from a sound one: when all the binary documents that
  -- a branch links have arrived or were given up, the waiters for its shadow document are released,
  -- and its status is not pending.
  pub all_arrived_ready :
      (start db : BranchDb D H Doc) (branch : D) (state : BranchSyncState D H Doc)
      → IsSound start
      → Reach start db
      → get db.branch_sync_states branch ≡ some state
      → ForEach (λ id s. has_binary_doc am db id ≡ true) state.canonical_binary_docs
      → (state.shadow_doc_init ≡ true) × (canonical_branch_status am db branch ≢ is_pending)
  unfolding canonical_branch_status
  all_arrived_ready start db branch state sound reach there arrived =
      let now = Reach-IsSound reach sound in
      let ready = now.ready.branches branch state there in
      let resolved : resolved_all_canonical_binary_docs state.canonical_binary_docs ≡ true =
        resolved_of_entries state.canonical_binary_docs (
          all_of_get is_not_pending state.canonical_binary_docs ready.distinct (λ id s linked.
            arrived-is_not_pending db branch state id s now there linked (arrived id s linked))) in
      (
        ready.resolved resolved,
        rw (there, canonical_branch_status) (resolved-status state.canonical_binary_docs resolved),
      )
