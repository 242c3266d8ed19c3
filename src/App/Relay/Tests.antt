-- ===== src/App/Relay/Tests.antt =====
-- The theorems on a packet's way, at a server with one camera.
use media_stream.Base.{ℕ, ◌≡◌, ◌≢◌, refl, true, false, some, [], ◌∷◌, arith, get_elem?}
use media_stream.GoMap
use media_stream.GoMap.{GoMap}
use media_stream.Core.Stream.{Stream, Packet, Worker, add64, new_stream, subscribe}
use media_stream.Core.Stream.Events.{IsValid}
use media_stream.Base.{inr}
use media_stream.Core.Channel.{make}
use media_stream.Core.Stream.Window.{IsOpen}
use media_stream.Database.{StreamRow}
use media_stream.Webrtc.Peers.{Peer, new_peer}
use media_stream.App.{App}
use media_stream.App.Fixtures.{gate_client, one_camera}
use media_stream.App.Relay.{relay_packet, distributor_turn, find_peer, worker_turn}
use media_stream.App.Relay.Viewing.{sent_by_peer}
use media_stream.App.Relay.Subscribing.{watched, camera_to_viewer}

abbrev packet : ℕ → Packet
packet n = record { header = n; payload = 7 ∷ 7 ∷ [] }

abbrev gate_stream : Stream
gate_stream = new_stream "gate" "Gate" 500

gate_stream-IsOpen : IsOpen gate_stream
unfolding new_stream
gate_stream-IsOpen = record {
  not_closed = refl;
  buffer_open = refl;
  has_room = omega arith;
  within = omega arith;
}

gate_stream-IsValid : IsValid gate_stream
unfolding new_stream
gate_stream-IsValid = record { subscribed = tt; distinct = tt; pending = tt; marked = inr refl }

abbrev viewer : Peer
viewer = record (new_peer "viewer" "gate") { connected = true; has_track = true }

abbrev viewed_camera : App (GoMap StreamRow)
viewed_camera = record one_camera {
  webrtc_manager = record one_camera.webrtc_manager {
    heap = viewer ∷ [];
    peers = record { entries = ("viewer", 0) ∷ [] };
  };
}

abbrev watched_stream : Stream
watched_stream = record gate_stream {
  subscribers = record { entries = ("viewer", 0) ∷ [] };
  workers =
      record { sub = "viewer"; packet_chan = make 100; cancelled = false; running = true } ∷ [];
}

camera_to_viewer_example :
    (app1 app2 : App (GoMap StreamRow)) × (relay_packet
        (watched viewed_camera 0 watched_stream)
        0
        (packet 7)
      ≡ some app1)
    × (distributor_turn app1 0 ≡ some app2)
    × (u : Stream) × (v : Worker) × (get_elem? (worker_turn app2 0 0 true).stream_manager.heap 0
        ≡ some u)
    × (u.packet_buffer.items ≡ [])
    × (u.packets_sent ≡ add64 gate_stream.packets_sent 1)
    × (u.bytes_sent ≡ add64 gate_stream.bytes_sent 2)
    × (get_elem? u.workers 0 ≡ some v)
    × (v.packet_chan.items ≡ [])
    × (get_elem? (worker_turn app2 0 0 true).webrtc_manager.heap 0
        ≡ some (sent_by_peer viewer (packet 7)))
    × ((j : ℕ)
        → 0 ≢ j
        → get_elem? (worker_turn app2 0 0 true).webrtc_manager.heap j
          ≡ get_elem? viewed_camera.webrtc_manager.heap j)
unfolding new_stream subscribe find_peer GoMap.put GoMap.get GoMap.lookup GoMap.without
camera_to_viewer_example =
    camera_to_viewer viewed_camera 0 0 0 gate_client gate_stream watched_stream viewer (packet 7)
      refl refl refl gate_stream-IsOpen gate_stream-IsValid refl refl refl refl refl refl
