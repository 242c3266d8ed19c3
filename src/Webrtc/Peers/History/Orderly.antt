-- ===== src/Webrtc/Peers/History/Orderly.antt =====
-- Whose connections are open after a history in which every peer gets one offer, before it is
-- closed.
use media_stream.Base.{
  is_some, ℕ, ◌≡◌, refl, String, true, false, none, some, List, [], ◌∷◌, arith, if◌then◌else◌,
  get_elem?, Option-cases,
}
use media_stream.Base.Int.{ℤ}
use media_stream.GoMap
use media_stream.GoMap.{
  GoMap, get-put, get-remove, get-empty, KeysDistinct, AllEntries, put-KeysDistinct,
  remove-KeysDistinct, AllEntries-of_lookup, AllEntries-mono, get-lookup,
}
use media_stream.Webrtc.Peers.{
  Peer, PeerManager, no_connection, new_peer_manager, close_peer, close_peers, close_peer_manager,
  send_packet,
}
use media_stream.Webrtc.Peers.Answering.{create_offer}
use media_stream.Webrtc.Peers.History.{
  PeerEvent, creates, removes, changes, offers, sends, closes_all, serve_peer, serve_peers,
}
use media_stream.Webrtc.Peers.History.Connections.{
  is_connected, Held, IsKept, create_peer-IsKept, remove_peer-IsKept, state_changed-IsKept,
  modify-IsKept, create_offer-Held, send_packet-Held, close_peer_manager-IsKept, peers-close_peer,
}

-- A new peer's UUID is not in use, and a peer gets one offer, before it is closed.
abbrev pub IsOrderly : PeerManager → PeerEvent → Type 0
IsOrderly m (creates stream_id id) = GoMap.get m.peers id ≡ none
IsOrderly m (offers r offer codec pion) =
    (p : Peer)
    → get_elem? m.heap r ≡ some p
    → (p.close_done ≡ false) × (p.connection ≡ no_connection)
IsOrderly m _ = Unit {0}

abbrev pub AllOrderly : PeerManager → List PeerEvent → Type 0
AllOrderly m [] = Unit {0}
AllOrderly m (e ∷ es) = IsOrderly m e × AllOrderly (serve_peer m e) es

serve_peer-IsKept :
    (m : PeerManager) (e : PeerEvent) → IsOrderly m e → IsKept m → IsKept (serve_peer m e)
unfolding serve_peer
serve_peer-IsKept m (creates stream_id id) o v = create_peer-IsKept m stream_id id o v
serve_peer-IsKept m (removes id) o v = remove_peer-IsKept m id v
serve_peer-IsKept m (changes r s) o v = state_changed-IsKept m r s v
serve_peer-IsKept m (offers r offer codec pion) o v =
    modify-IsKept m r (λ p. (create_offer p offer codec pion).0)
      (λ p e h. create_offer-Held m r p offer codec pion (o p e).0 h) v
serve_peer-IsKept m (sends r packet written) o v =
    modify-IsKept m r (λ p. (send_packet p packet written).0)
      (λ p e h. send_packet-Held m r p packet written h) v
serve_peer-IsKept m closes_all o v = close_peer_manager-IsKept m v

serve_peers-IsKept :
    (m : PeerManager) (es : List PeerEvent) → AllOrderly m es → IsKept m → IsKept (serve_peers m es)
unfolding serve_peers
serve_peers-IsKept m [] o v = v
serve_peers-IsKept m (e ∷ es) o v =
    serve_peers-IsKept (serve_peer m e) es o.1 (serve_peer-IsKept m e o.0 v)

new_peer_manager-IsKept : (n : ℤ) → IsKept (new_peer_manager n)
unfolding new_peer_manager GoMap.empty
new_peer_manager-IsKept n = record { distinct = tt; held = λ r p e. cc }

-- The entries that Close walks leave no key behind.
close_peers-get :
    (entries : List (String × ℕ)) (m : PeerManager) (k : String)
    → GoMap.get (close_peers entries m).peers k
      ≡ (if is_some (GoMap.lookup k entries) then none else GoMap.get m.peers k)
unfolding close_peers GoMap.lookup
close_peers-get [] m k = refl
close_peers-get ((id, r) ∷ entries) m k = ground (
  arith,
  close_peers-get entries
      (record (close_peer m r) { peers = GoMap.remove (close_peer m r).peers id }) k,
  peers-close_peer m r,
  get-remove m.peers id k,
)

close_peer_manager-get :
    (m : PeerManager) (k : String) → GoMap.get (close_peer_manager m).peers k ≡ none
unfolding close_peer_manager
close_peer_manager-get m k = ground (
  arith,
  close_peers-get m.peers.entries m k,
  get-lookup m.peers k,
  Option-cases (GoMap.lookup k m.peers.entries),
)

all_closed :
    (m : PeerManager) (r : ℕ) (p : Peer)
    → IsKept m
    → get_elem? (close_peer_manager m).heap r ≡ some p
    → (p.close_done ≡ true) × (is_connected p.connection ≡ false)
all_closed m r p v e =
    ground (arith, (close_peer_manager-IsKept m v).held r p e, close_peer_manager-get m p.id)

-- In any history of a new manager in which new peers get unused ids and no peer gets its offer
-- twice or once it is closed, every peer is either the manager's under its id and not closed, or
-- closed and without an open connection: no connection is lost, whatever step of its offer failed.
-- When the manager is then closed, all peers are closed and no connection is open.
pub no_connection_is_lost :
    (max_peers : ℤ) (es : List PeerEvent)
    → AllOrderly (new_peer_manager max_peers) es
    → ((r : ℕ) (p : Peer)
        → get_elem? (serve_peers (new_peer_manager max_peers) es).heap r ≡ some p
        → Held (serve_peers (new_peer_manager max_peers) es) r p)
      × ((r : ℕ) (p : Peer)
          → get_elem? (close_peer_manager (serve_peers (new_peer_manager max_peers) es)).heap r
            ≡ some p
          → (p.close_done ≡ true) × (is_connected p.connection ≡ false))
no_connection_is_lost max_peers es o =
    let v =
      serve_peers-IsKept (new_peer_manager max_peers) es o (new_peer_manager-IsKept max_peers) in
    (v.held, λ r p e. all_closed (serve_peers (new_peer_manager max_peers) es) r p v e)
