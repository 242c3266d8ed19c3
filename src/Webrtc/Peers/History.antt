-- ===== src/Webrtc/Peers/History.antt =====
-- Histories of the peers.
pub mod Connections
pub mod Notices
pub mod Orderly
use media_stream.Base.{
  ℕ, ◌+◌, ◌≤◌, ◌≡◌, refl, String, Bool, true, false, Option, none, some, List, [], ◌∷◌, ◌++◌, arith,
  if◌then◌else◌, ◌==◌, length, get_elem?, set, get_elem?-some_lt, get_elem?-set_self,
  get_elem?-set_ne, Result, ok, err, Option-cases, Bool-cases, inl, inr, ◌∙◌, subst, sym, zero, suc,
}
use media_stream.Base.Int.{ℤ, pos, pos_part, leb_ℤ}
use media_stream.GoMap
use media_stream.GoMap.{size-put-le, size-remove-le}
use media_stream.Core.Stream.{Packet}
use media_stream.Webrtc.Peers.Answering.{Pion, create_offer, create_offer_lem}
use media_stream.Webrtc.Peers.{
  closed_peer, Peer, PeerManager, PeerError, ConnectionState, ice_connected, ice_failed, ice_closed,
  ice_other, peer_failed, peer_closed, peer_other, new_peer_manager, new_peer, create_peer,
  close_peer, remove_peer, close_peers, close_peer_manager, set_connected, state_changed,
  send_packet,
}

-- A goroutine that onClose started is a removal like any other.
pub data PeerEvent : Type 0 where
  creates : String → String → PeerEvent
  removes : String → PeerEvent
  changes : ℕ → ConnectionState → PeerEvent
  offers : ℕ → List ℕ → String → Pion → PeerEvent
  sends : ℕ → Packet → Bool → PeerEvent
  closes_all : PeerEvent

pub after_create : PeerManager → Result PeerError (PeerManager × ℕ) → PeerManager
after_create m (ok (m', r)) = m'
after_create m (err e) = m

pub after_remove : PeerManager → Result PeerError PeerManager → PeerManager
after_remove m (ok m') = m'
after_remove m (err e) = m

-- A change of one peer that does not close it.
abbrev modify : PeerManager → ℕ → (Peer → Peer) → PeerManager
modify m r f = elim (get_elem? m.heap r) [
  | none ↦ m
  | some p ↦ record m { heap = set m.heap r (f p) }
]

unfoldable pub serve_peer : PeerManager → PeerEvent → PeerManager
unfolding after_create after_remove
serve_peer m (creates stream_id id) = after_create m (create_peer m stream_id id)
serve_peer m (removes id) = after_remove m (remove_peer m id)
serve_peer m (changes r s) = state_changed m r s
serve_peer m (offers r offer codec pion) = modify m r (λ p. (create_offer p offer codec pion).0)
serve_peer m (sends r packet written) = modify m r (λ p. (send_packet p packet written).0)
serve_peer m closes_all = close_peer_manager m

unfoldable pub serve_peers : PeerManager → List PeerEvent → PeerManager
unfolding serve_peer
serve_peers m [] = m
serve_peers m (e ∷ es) = serve_peers (serve_peer m e) es
