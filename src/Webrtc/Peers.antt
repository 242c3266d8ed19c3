-- ===== src/Webrtc/Peers.antt =====
-- `Peer` and `Manager` of go-legacy/internal/webrtc/peer.go and manager.go. A peer is shared by the
-- manager's map, the stream that it subscribes to and the callbacks of its connection, so it lives
-- on a heap. Of the connection itself (pion/webrtc) only whether it is open is kept: its state
-- changes and the outcome of a write are arguments.
pub mod Answering
pub mod History
use media_stream.Base.{
  ℕ, String, Bool, true, false, Option, none, some, List, [], ◌∷◌, ◌++◌, ◌||◌, not, if◌then◌else◌,
  length, get_elem?, set, Result, ok, err,
}
use media_stream.Base.Int.{ℤ, pos, leb_ℤ, eq_ℤ}
use media_stream.GoMap
use media_stream.GoMap.{GoMap}
use media_stream.Core.Stream.{Packet, add64}

-- The field pc, and whether Close was called on it.
pub data Connection : Type 0 where
  no_connection open_connection closed_connection : Connection

-- `close_done` is closeOnce, `has_track` is `videoTrack != nil`, `has_audio_track` the same of
-- audioTrack, and `track_codec` the codec that the video track was created for.
pub record Peer : Type 0 where
  pub id : String
  pub stream_id : String
  pub connected : Bool
  pub close_done : Bool
  pub connection : Connection
  pub has_track : Bool
  pub track_codec : String
  pub has_audio_track : Bool
  pub packets_sent : ℕ
  pub bytes_sent : ℕ

-- `notified` lists the peers whose onClose was called, the last one first.
pub record PeerManager : Type 0 where
  pub heap : List Peer
  pub peers : GoMap ℕ
  pub max_peers : ℤ
  pub notified : List ℕ

pub data PeerError : Type 0 where
  max_peers_reached : ℤ → PeerError
  peer_not_found : String → PeerError
  not_ready write_rtp_failed : PeerError

-- webrtc.ICEConnectionState and PeerConnectionState, as far as the code tells them apart.
pub data ConnectionState : Type 0 where
  ice_connected ice_failed ice_closed ice_other : ConnectionState
  peer_failed peer_closed peer_other : ConnectionState

-- NewManager
unfoldable pub new_peer_manager : ℤ → PeerManager
unfolding GoMap.empty
new_peer_manager max_peers = record {
  heap = [];
  peers = GoMap.empty;
  max_peers = if eq_ℤ max_peers (pos 0) then pos 1000 else max_peers;
  notified = [];
}

-- NewPeer; `id` is the new UUID.
abbrev pub new_peer : String → String → Peer
new_peer id stream_id = record {
  id = id;
  stream_id = stream_id;
  connected = false;
  close_done = false;
  connection = no_connection;
  has_track = false;
  track_codec = "";
  has_audio_track = false;
  packets_sent = 0;
  bytes_sent = 0;
}

unfoldable pub create_peer : PeerManager → String → String → Result PeerError (PeerManager × ℕ)
unfolding GoMap.put
create_peer m stream_id id =
    if leb_ℤ m.max_peers (pos (GoMap.size m.peers))
    then err (max_peers_reached m.max_peers)
    else ok (
      record m {
        heap = m.heap ++ new_peer id stream_id ∷ [];
        peers = GoMap.put m.peers id (length m.heap);
      },
      length m.heap,
    )

unfoldable pub get_peer : PeerManager → String → Result PeerError ℕ
unfolding GoMap.get
get_peer m id = elim (GoMap.get m.peers id) [ none ↦ err (peer_not_found id) | some r ↦ ok r ]

abbrev pub close_connection : Connection → Connection
close_connection open_connection = closed_connection
close_connection c = c

abbrev pub closed_peer : Peer → Peer
closed_peer p = record p {
  connected = false;
  close_done = true;
  connection = close_connection p.connection;
}

-- Peer.Close
unfoldable pub close_peer : PeerManager → ℕ → PeerManager
close_peer m r = elim (get_elem? m.heap r) [
  | none ↦ m
  | some p ↦
      if p.close_done
      then m
      else record m { heap = set m.heap r (closed_peer p); notified = r ∷ m.notified }
]

unfoldable pub remove_peer : PeerManager → String → Result PeerError PeerManager
unfolding close_peer GoMap.get GoMap.remove
remove_peer m id = elim (GoMap.get m.peers id) [
  | none ↦ err (peer_not_found id)
  | some r ↦
      (let closed = close_peer m r in ok (record closed { peers = GoMap.remove closed.peers id }))
]

unfoldable pub close_peers : List (String × ℕ) → PeerManager → PeerManager
unfolding close_peer GoMap.remove
close_peers [] m = m
close_peers ((id, r) ∷ entries) m =
    let closed = close_peer m r in
    close_peers entries (record closed { peers = GoMap.remove closed.peers id })

-- Manager.Close
unfoldable pub close_peer_manager : PeerManager → PeerManager
unfolding close_peers
close_peer_manager m = close_peers m.peers.entries m

-- Peer.SetConnected
unfoldable pub set_connected : PeerManager → ℕ → Bool → PeerManager
set_connected m r connected = elim (get_elem? m.heap r) [
  | none ↦ m
  | some p ↦ record m { heap = set m.heap r (record p { connected = connected }) }
]

-- The handlers of setupEventHandlers.
unfoldable pub state_changed : PeerManager → ℕ → ConnectionState → PeerManager
unfolding set_connected close_peer
state_changed m r ice_connected = set_connected m r true
state_changed m r ice_failed = close_peer (set_connected m r false) r
state_changed m r ice_closed = close_peer (set_connected m r false) r
state_changed m r ice_other = m
state_changed m r peer_failed = close_peer m r
state_changed m r peer_closed = close_peer m r
state_changed m r peer_other = m

-- Peer.OnPacket; `written` says whether the track took the packet.
unfoldable pub send_packet : Peer → Packet → Bool → Peer × Option PeerError
send_packet p packet written =
    if not p.connected || not p.has_track
    then (p, some not_ready)
    else if written
    then (
      record p {
        packets_sent = add64 p.packets_sent 1;
        bytes_sent = add64 p.bytes_sent (length packet.payload);
      },
      none,
    )
    else (p, some write_rtp_failed)
