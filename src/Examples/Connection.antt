-- ===== src/Examples/Connection.antt =====
-- A server that acknowledged the heads of a document, and then tells of it twice.
use backstitch.Prelude.{
  ℕ, ◌≡◌, refl, Bool, true, false, Option, none, some, List, [], ◌∷◌, Eq, nat_eq, if◌then◌else◌,
  eqb,
}
use backstitch.Prelude.Maps.{Map, get}
use backstitch.Connection.Peers.{
  PeerDocState, ConnectionInfo, update_docs, update_server_info, peers_changed, watch,
}
use backstitch.Connection.Acked.{known_acked, known_acked-watch}

abbrev doc : List ℕ → PeerDocState ℕ ℕ
doc heads = record { last_acked_heads = some heads; others = 0 }

abbrev server : ℕ → Map ℕ (PeerDocState ℕ ℕ) → ConnectionInfo ℕ ℕ ℕ ℕ ℕ
server time docs = record { last_received = time; last_sent = time; docs = docs; others = 9 }

-- the document 1 loses its heads, the document 2 gets new ones
abbrev told_docs : Map ℕ (PeerDocState ℕ ℕ)
told_docs = (2, doc (6 ∷ [])) ∷ (1, doc []) ∷ []

abbrev known_docs : Map ℕ (PeerDocState ℕ ℕ)
known_docs = (1, doc (5 ∷ [])) ∷ []

heads_kept : get (update_docs known_docs told_docs) 1 ≡ some (doc (5 ∷ []))
unfolding update_docs get backstitch.Prelude.Maps.insert
heads_kept = refl

abbrev same_time : Option (ConnectionInfo ℕ ℕ ℕ ℕ ℕ) → Option (ConnectionInfo ℕ ℕ ℕ ℕ ℕ) → Bool
same_time none none = true
same_time (some a) (some b) = eqb a.last_received b.last_received
same_time _ _ = false

abbrev two_events : List (List (ConnectionInfo ℕ ℕ ℕ ℕ ℕ))
two_events = (server 4 told_docs ∷ []) ∷ (server 5 told_docs ∷ []) ∷ []

known_acked-watch_example :
    known_acked (watch same_time (some (server 3 known_docs)) two_events) 1 ≡ true
unfolding get
known_acked-watch_example =
    known_acked-watch same_time (some (server 3 known_docs)) two_events 1 refl
      (((refl, (refl, tt)), refl), (((refl, (refl, tt)), refl), tt))

woken :
    peers_changed same_time (some (server 3 known_docs)) (server 4 [] ∷ [])
    ≡ (some (server 4 known_docs), true)
unfolding update_server_info update_docs
woken = refl

forgotten : watch same_time (some (server 3 known_docs)) ([] ∷ []) ≡ none
unfolding watch update_server_info
forgotten = refl
