-- ===== src/App/Relay/Subscribing.antt =====
-- One packet from a camera to a peer that has subscribed: the client that reads it, the stream's
-- distributor, the worker that the subscription made, and the peer.
use media_stream.Base.{
  ℕ, ◌≡◌, ◌≢◌, refl, subst, true, false, String, some, [], ◌∷◌, ◌++◌, arith, get_elem?,
  get_elem?-some_lt, get_elem?-set_self, get_elem?-append_length, length, ok,
}
use media_stream.GoMap
use media_stream.Core.Channel.{make}
use media_stream.Core.Stream.{
  Stream, Packet, Worker, add64, selecting, snapshot, subscribe, worker_chan_cap,
}
use media_stream.Core.Stream.Events.{IsValid, after_result}
use media_stream.Core.Stream.Fanout.{has}
use media_stream.Core.Stream.Safety.{Keeps, subscribe-Keeps}
use media_stream.Core.Stream.Window.{IsOpen}
use media_stream.Rtsp.Client.{Client}
use media_stream.Webrtc.Peers.{Peer}
use media_stream.App.{App}
use media_stream.App.Offers.{set_stream}
use media_stream.App.Relay.{relay_packet, distributor_turn, find_peer, worker_turn}
use media_stream.App.Relay.Viewing.{Ready, sent_by_peer, packet_to_viewer}

abbrev worker_of : String → Worker
worker_of id = record {
  sub = id;
  packet_chan = make worker_chan_cap;
  cancelled = false;
  running = true;
}

abbrev subscribed : Stream → String → Stream
subscribed s id = record s {
  subscribers = GoMap.put s.subscribers id (length s.workers);
  workers = s.workers ++ worker_of id ∷ [];
}

subscribe-subscribed : (s t : Stream) (id : String) → subscribe s id ≡ ok t → t ≡ subscribed s id
unfolding subscribe
subscribe-subscribed s t id h = ground arith

subscribed-has :
    (s : Stream) (id : String) → has (length s.workers) (snapshot (subscribed s id)) ≡ true
unfolding GoMap.put
subscribed-has s id = ground arith

subscribed-IsValid :
    (s t : Stream) (id : String) → IsValid s → subscribe s id ≡ ok t → IsValid (subscribed s id)
subscribed-IsValid s t id v h =
    subst IsValid (subscribe-subscribed s t id h)
      (subst (λ o. Keeps (after_result s o)) h (subscribe-Keeps s id v))

module _ {S : Type 0} where
  -- The application after a subscription to the stream at the pointer.
  abbrev pub watched : App S → ℕ → Stream → App S
  watched app i t = record app { stream_manager = set_stream app.stream_manager i t }

  subscribed-Ready :
      (app : App S) (r i q : ℕ) (c : Client) (s t : Stream) (peer : Peer)
      → get_elem? app.clients r ≡ some c
      → c.stream ≡ i
      → get_elem? app.stream_manager.heap i ≡ some s
      → IsOpen s
      → IsValid s
      → s.distributor ≡ selecting
      → s.packet_buffer.items ≡ []
      → find_peer app.webrtc_manager.heap peer.id ≡ some (q, peer)
      → peer.connected ≡ true
      → peer.has_track ≡ true
      → subscribe s peer.id ≡ ok t
      → Ready
          (watched app i (subscribed s peer.id))
          r
          i
          (length s.workers)
          q
          c
          (subscribed s peer.id)
          (worker_of peer.id)
          peer
  subscribed-Ready app r i q c s t peer h f g o v d b p k l e = record {
    client_at = h;
    feeds = f;
    stream_at =
        get_elem?-set_self app.stream_manager.heap i (subscribed s peer.id)
          (get_elem?-some_lt app.stream_manager.heap i g);
    is_open = record {
      not_closed = o.not_closed;
      buffer_open = o.buffer_open;
      has_room = o.has_room;
      within = o.within;
    };
    valid = subscribed-IsValid s t peer.id v e;
    waits = d;
    no_backlog = b;
    has_worker = subscribed-has s peer.id;
    worker_at = get_elem?-append_length s.workers (worker_of peer.id);
    worker_runs = refl;
    idle = refl;
    has_room = ground arith;
    subscriber = p;
    connected = k;
    has_track = l;
  }

-- A packet that the client of a camera reads reaches a peer that has subscribed to the camera's
-- stream, with nothing else queued or in between. The stream is open, its buffer is empty and its
-- distributor waits; a connected peer that has a track, and is the one that its id finds, subscribes
-- without an error. Then, when the client has handed the packet to the stream, the distributor has
-- had one turn, and the worker that the subscription made one round whose write succeeds, nothing
-- has panicked, the buffer and the worker's channel are empty again, and the counters of sent packets
-- and bytes of the stream and of this peer have grown by this packet. No other peer changes.
pub camera_to_viewer :
    {S : Type 0} (app : App S) (r i q : ℕ) (c : Client) (s t : Stream) (peer : Peer) (p : Packet)
    → get_elem? app.clients r ≡ some c
    → c.stream ≡ i
    → get_elem? app.stream_manager.heap i ≡ some s
    → IsOpen s
    → IsValid s
    → s.distributor ≡ selecting
    → s.packet_buffer.items ≡ []
    → find_peer app.webrtc_manager.heap peer.id ≡ some (q, peer)
    → peer.connected ≡ true
    → peer.has_track ≡ true
    → subscribe s peer.id ≡ ok t
    → (app1 app2 : App S) × (relay_packet (watched app i t) r p ≡ some app1)
      × (distributor_turn app1 i ≡ some app2)
      × (u : Stream) × (v : Worker) × (get_elem?
            (worker_turn app2 i (length s.workers) true).stream_manager.heap
            i
          ≡ some u)
      × (u.packet_buffer.items ≡ [])
      × (u.packets_sent ≡ add64 s.packets_sent 1)
      × (u.bytes_sent ≡ add64 s.bytes_sent (length p.payload))
      × (get_elem? u.workers (length s.workers) ≡ some v)
      × (v.packet_chan.items ≡ [])
      × (get_elem? (worker_turn app2 i (length s.workers) true).webrtc_manager.heap q
          ≡ some (sent_by_peer peer p))
      × ((j : ℕ)
          → q ≢ j
          → get_elem? (worker_turn app2 i (length s.workers) true).webrtc_manager.heap j
            ≡ get_elem? app.webrtc_manager.heap j)
camera_to_viewer app r i q c s t peer p h f g o v d b n k l e =
    rw (subscribe-subscribed s t peer.id e) (
      packet_to_viewer (watched app i (subscribed s peer.id)) r i (length s.workers) q c
        (subscribed s peer.id) (worker_of peer.id) peer p
        (subscribed-Ready app r i q c s t peer h f g o v d b n k l e))
