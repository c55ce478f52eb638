-- ===== src/Connection/Acked.antt =====
-- What is known of the heads that the server has acknowledged, over the events of its peers. A state
-- that tells no acknowledged heads while it tells heads takes them away.
use backstitch.Prelude.{
  ◌≡◌, refl, ap, ◌∙◌, Bool, true, false, Option, none, some, List, [], ◌∷◌, Eq, inl, inr, ◌==◌,
  Bool-cases, beq_refl, arith, if◌then◌else◌,
}
use backstitch.Prelude.Maps.{Map, get, get-insert, Distinct, has_value}
use backstitch.Connection.Peers.{
  PeerDocState, ConnectionInfo, acked_something, got_beheaded, update_doc, update_docs,
  update_server_info, first_peer, watch,
}

-- what is known of a document, of what was known and what is new
abbrev pub newest :
    {H R : Type 0}
    → Option (PeerDocState H R)
    → Option (PeerDocState H R)
    → Option (PeerDocState H R)
newest old none = old
newest old (some new) = if got_beheaded new old then old else some new

abbrev pub has_acked : {H R : Type 0} → Option (PeerDocState H R) → Bool
has_acked none = false
has_acked (some state) = acked_something state.last_acked_heads

-- A state, if there is one, tells of acknowledged heads, be it that there are none.
abbrev pub tells_heads : {H R : Type 0} → Option (PeerDocState H R) → Bool
tells_heads none = true
tells_heads (some state) = has_value state.last_acked_heads

module _ {H R : Type 0} where
  newest-has_acked :
      (old : Option (PeerDocState H R)) (heads : Option (List H)) (r : R)
      → has_acked old ≡ true
      → has_value heads ≡ true
      → has_acked (newest old (some (record { last_acked_heads = heads; others = r }))) ≡ true
  newest-has_acked old none r h told = cc
  newest-has_acked none (some []) r h told = cc
  newest-has_acked (some state) (some []) r h told = rw h h
  newest-has_acked none (some (x ∷ heads)) r h told = refl
  newest-has_acked (some state) (some (x ∷ heads)) r h told = refl

  has_acked-newest :
      (old new : Option (PeerDocState H R))
      → has_acked old ≡ true
      → tells_heads new ≡ true
      → has_acked (newest old new) ≡ true
  has_acked-newest old none h told = h
  has_acked-newest old (some new) h told =
      newest-has_acked old new.last_acked_heads new.others h told

module _ {D H R : Type 0} ⦃e : Eq D⦄ where
  get-update_doc_same :
      (docs : Map D (PeerDocState H R)) (d : D) (new : PeerDocState H R)
      → get (update_doc docs d new) d ≡ newest (get docs d) (some new)
  unfolding update_doc
  get-update_doc_same docs d new = ground (arith, get-insert docs d d new, beq_refl d)

  get-update_doc_other :
      (docs : Map D (PeerDocState H R)) (id d : D) (new : PeerDocState H R)
      → (id == d) ≡ false
      → get (update_doc docs id new) d ≡ get docs d
  unfolding update_doc
  get-update_doc_other docs id d new other = ground (arith, get-insert docs id d new)

  -- After the update with documents that each stand there once, a document has its new state,
  -- and its old one where the new documents do not have it or have it without heads while the
  -- old one has some.
  pub get-update_docs :
      (docs new : Map D (PeerDocState H R)) (d : D)
      → Distinct new
      → get (update_docs docs new) d ≡ newest (get docs d) (get new d)
  unfolding update_docs get
  get-update_docs docs [] d distinct = refl
  get-update_docs docs ((id, state) ∷ new) d distinct = elim (Bool-cases (id == d)) [
    | inl here ↦ rw here (
        get-update_docs (update_doc docs id state) new d distinct.1
        ∙ ap (newest (get (update_doc docs id state) d)) (absent here)
        ∙ same_doc here)
    | inr other ↦ rw other (
        get-update_docs (update_doc docs id state) new d distinct.1
        ∙ ap (λ old. newest old (get new d)) (get-update_doc_other docs id d state other))
  ]
    where
      absent : (id == d) ≡ true → get new d ≡ none
      absent here = ground (arith, e.beq_iff id d, distinct.0)

      same_doc :
          (id == d) ≡ true → get (update_doc docs id state) d ≡ newest (get docs d) (some state)
      same_doc here =
          ap (λ x. get (update_doc docs x state) d) ((e.beq_iff id d).0 here)
          ∙ get-update_doc_same docs d state

module _ {D H R T S : Type 0} ⦃e : Eq D⦄ where
  abbrev pub known_acked : Option (ConnectionInfo D H R T S) → D → Bool
  known_acked none d = false
  known_acked (some info) d = has_acked (get info.docs d)

  -- There is a peer, the server, which tells of acknowledged heads of a document.
  abbrev pub IsTold : D → List (ConnectionInfo D H R T S) → Type 0
  IsTold d [] = ⊥
  IsTold d (server ∷ peers) = Distinct server.docs × (tells_heads (get server.docs d) ≡ true)

  abbrev pub AreTold : D → List (List (ConnectionInfo D H R T S)) → Type 0
  AreTold d [] = Unit
  AreTold d (peers ∷ events) = IsTold d peers × AreTold d events

  known_acked-update_server_info :
      (old : Option (ConnectionInfo D H R T S)) (peers : List (ConnectionInfo D H R T S)) (d : D)
      → known_acked old d ≡ true
      → IsTold d peers
      → known_acked (update_server_info old (first_peer peers)) d ≡ true
  unfolding update_server_info
  known_acked-update_server_info none peers d h told = cc
  known_acked-update_server_info (some info) [] d h told = elim told [ ]
  known_acked-update_server_info (some info) (server ∷ peers) d h told =
      ap has_acked (get-update_docs info.docs server.docs d told.0)
      ∙ has_acked-newest (get info.docs d) (get server.docs d) h told.1

  -- If the server is known to have acknowledged heads of a document, then it still is after any
  -- events that each have a first peer, which has each document once and tells of acknowledged
  -- heads, be it that there are none, wherever it has the document.
  pub known_acked-watch :
      (same : Option (ConnectionInfo D H R T S) → Option (ConnectionInfo D H R T S) → Bool)
      (info : Option (ConnectionInfo D H R T S)) (events : List (List (ConnectionInfo D H R T S)))
      (d : D)
      → known_acked info d ≡ true
      → AreTold d events
      → known_acked (watch same info events) d ≡ true
  unfolding watch
  known_acked-watch same info [] d h told = h
  known_acked-watch same info (peers ∷ events) d h told =
      known_acked-watch same (update_server_info info (first_peer peers)) events d
        (known_acked-update_server_info info peers d h told.0) told.1
