-- ===== src/Connection/Peers.antt =====
-- backstitch/src/project/peer_watcher.rs: what is known of the server over the events of its peers.
use backstitch.Prelude.{
  Bool, false, not, ◌&&◌, Option, none, some, List, [], ◌∷◌, Eq, is_empty, if◌then◌else◌,
}
use backstitch.Prelude.Maps.{Map, get, insert}

-- `PeerDocState` of samod: the heads that the code asks for, and the fields that it only copies
pub record PeerDocState (H R : Type 0) : Type 0 where
  pub last_acked_heads : Option (List H)
  pub others : R

-- `ConnectionInfo` of samod, with `T` the times
pub record ConnectionInfo (D H R T S : Type 0) : Type 0 where
  pub last_received : T
  pub last_sent : T
  pub docs : Map D (PeerDocState H R)
  pub others : S

abbrev acked_nothing : {H : Type 0} → Option (List H) → Bool
acked_nothing none = false
acked_nothing (some heads) = is_empty heads

abbrev pub acked_something : {H : Type 0} → Option (List H) → Bool
acked_something none = false
acked_something (some heads) = not (is_empty heads)

-- "If we got beheaded, skip this doc."
abbrev pub got_beheaded : {H R : Type 0} → PeerDocState H R → Option (PeerDocState H R) → Bool
got_beheaded new_doc_state none = false
got_beheaded new_doc_state (some old_doc_state) =
    acked_nothing new_doc_state.last_acked_heads && acked_something old_doc_state.last_acked_heads

module _ {D H R : Type 0} ⦃e : Eq D⦄ where
  unfoldable pub update_doc :
      Map D (PeerDocState H R) → D → PeerDocState H R → Map D (PeerDocState H R)
  update_doc docs doc_id new_doc_state =
      if got_beheaded new_doc_state (get docs doc_id)
      then docs
      else insert docs doc_id new_doc_state

  -- the loop over the documents of the new information
  unfoldable pub update_docs :
      Map D (PeerDocState H R) → Map D (PeerDocState H R) → Map D (PeerDocState H R)
  unfolding update_doc
  update_docs docs [] = docs
  update_docs docs ((doc_id, new_doc_state) ∷ rest) =
      update_docs (update_doc docs doc_id new_doc_state) rest

  module _ {T S : Type 0} where
    unfoldable pub update_server_info :
        Option (ConnectionInfo D H R T S)
        → Option (ConnectionInfo D H R T S)
        → Option (ConnectionInfo D H R T S)
    unfolding update_docs
    update_server_info old_info none = none
    update_server_info none (some new_info) = some new_info
    update_server_info (some info) (some new_info) = some (record {
      last_received = new_info.last_received;
      last_sent = new_info.last_sent;
      docs = update_docs info.docs new_info.docs;
      others = info.others;
    })

    abbrev pub first_peer : List (ConnectionInfo D H R T S) → Option (ConnectionInfo D H R T S)
    first_peer [] = none
    first_peer (server ∷ peers) = some server

    -- `send_if_modified` at new peers: what is known then, and whether receivers are woken. `same` is
    -- the equality of samod's `ConnectionInfo`.
    abbrev pub peers_changed :
        (Option (ConnectionInfo D H R T S) → Option (ConnectionInfo D H R T S) → Bool)
        → Option (ConnectionInfo D H R T S)
        → List (ConnectionInfo D H R T S)
        → Option (ConnectionInfo D H R T S) × Bool
    peers_changed same old_info peers =
        let new_info = update_server_info old_info (first_peer peers) in
        (new_info, not (same new_info old_info))

    -- the loop of the watcher, until it is cancelled
    unfoldable pub watch :
        (Option (ConnectionInfo D H R T S) → Option (ConnectionInfo D H R T S) → Bool)
        → Option (ConnectionInfo D H R T S)
        → List (List (ConnectionInfo D H R T S))
        → Option (ConnectionInfo D H R T S)
    unfolding update_server_info
    watch same info [] = info
    watch same info (peers ∷ events) = watch same (peers_changed same info peers).0 events
