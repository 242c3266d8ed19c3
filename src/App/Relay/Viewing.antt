-- ===== src/App/Relay/Viewing.antt =====
-- One packet from a camera to a viewer: the client that reads it, the stream's distributor, the
-- viewer's worker and the peer.
use media_stream.Base.{
  ℕ, ◌+◌, ◌<◌, ◌≡◌, refl, sym, ap, subst, ◌∙◌, true, some, List, [], ◌∷◌, arith, get_elem?,
  get_elem?-some_lt, get_elem?-set_self, get_elem?-set_ne, ◌≢◌, set, length, String, Option-cases,
  Bool-cases, inl, inr, str_eq,
}
use media_stream.Core.Channel.{try_recv}
use media_stream.Core.Stream.{Stream, Packet, Worker, add64, selecting, snapshot, worker_round}
use media_stream.Core.Stream.Events.{IsValid}
use media_stream.Core.Stream.Fanout.{rounds, has, distribute_turn}
use media_stream.Core.Stream.Window.{IsOpen, keep_last-short, after_write}
use media_stream.Core.Stream.Workers.{offer}
use media_stream.Rtsp.Client.{Client, handle_rtp_packet}
use media_stream.Webrtc.Peers.{Peer, send_packet}
use media_stream.App.{App}
use media_stream.App.Offers.{set_stream}
use media_stream.App.Relay.{
  relay_packet, distributor_turn, find_peer, next_packet, served_peer, worker_turn,
}
use media_stream.App.Relay.Delivery.{with_both, relay_packet-lem}

abbrev pub sent_by_peer : Peer → Packet → Peer
sent_by_peer peer p = record peer {
  packets_sent = add64 peer.packets_sent 1;
  bytes_sent = add64 peer.bytes_sent (length p.payload);
}

-- The stream after its worker at `w` has sent the packet.
abbrev sent_by_worker : Stream → ℕ → Worker → List Packet → Packet → Stream
sent_by_worker s w worker rest p = record s {
  workers =
      set s.workers w (record worker { packet_chan = record worker.packet_chan { items = rest } });
  packets_sent = add64 s.packets_sent 1;
  bytes_sent = add64 s.bytes_sent (length p.payload);
}

module _ {S : Type 0} where
  distributor_turn-lem :
      (app : App S) (i : ℕ) (s t : Stream)
      → get_elem? app.stream_manager.heap i ≡ some s
      → rounds (length (snapshot s) + 2) s ≡ some t
      → distributor_turn app i
        ≡ some (record app { stream_manager = set_stream app.stream_manager i t })
  unfolding distributor_turn
  distributor_turn-lem app i s t g e = rw (g, e, distributor_turn) refl

  worker_turn-lem :
      (app : App S) (i w q : ℕ) (s : Stream) (worker : Worker) (peer : Peer) (p : Packet)
      (rest : List Packet)
      → get_elem? app.stream_manager.heap i ≡ some s
      → get_elem? s.workers w ≡ some worker
      → worker.running ≡ true
      → worker.packet_chan.items ≡ p ∷ rest
      → find_peer app.webrtc_manager.heap worker.sub ≡ some (q, peer)
      → peer.connected ≡ true
      → peer.has_track ≡ true
      → worker_turn app i w true ≡ record app {
        stream_manager = set_stream app.stream_manager i (sent_by_worker s w worker rest p);
        webrtc_manager = record app.webrtc_manager {
          heap = set app.webrtc_manager.heap q (sent_by_peer peer p);
        };
      }
  unfolding worker_turn next_packet served_peer worker_round send_packet try_recv
  worker_turn-lem app i w q s worker peer p rest g e u h k c t = ground arith

-- The stream after WritePacket into an empty buffer.
abbrev received : Stream → Packet → Stream
received s p = record s {
  packet_buffer = record s.packet_buffer { items = p ∷ [] };
  packets_received = add64 s.packets_received 1;
  bytes_received = add64 s.bytes_received (length p.payload);
}

after_write-received :
    (s : Stream) (p : Packet)
    → IsOpen s
    → s.packet_buffer.items ≡ []
    → after_write s p ≡ received s p
after_write-received s p o e = ground (arith, e, keep_last-short s.packet_buffer.cap (p ∷ []))

received-IsValid : (s : Stream) (p : Packet) → IsValid s → IsValid (received s p)
received-IsValid s p v = record {
  subscribed = v.subscribed;
  distinct = v.distinct;
  pending = v.pending;
  marked = v.marked;
}

-- What a packet finds on its way: the stream is open and its buffer empty, its distributor waits,
-- the viewer's worker runs with an empty channel that has room, and its subscriber is a connected
-- peer.
pub record Ready {S : Type 0} (app : App S) (r i w q : ℕ) (c : Client) (s : Stream)
    (worker : Worker) (peer : Peer) : Type 0 where
  pub client_at : get_elem? app.clients r ≡ some c
  pub feeds : c.stream ≡ i
  pub stream_at : get_elem? app.stream_manager.heap i ≡ some s
  pub is_open : IsOpen s
  pub valid : IsValid s
  pub waits : s.distributor ≡ selecting
  pub no_backlog : s.packet_buffer.items ≡ []
  pub has_worker : has w (snapshot s) ≡ true
  pub worker_at : get_elem? s.workers w ≡ some worker
  pub worker_runs : worker.running ≡ true
  pub idle : worker.packet_chan.items ≡ []
  pub has_room : 0 < worker.packet_chan.cap
  pub subscriber : find_peer app.webrtc_manager.heap worker.sub ≡ some (q, peer)
  pub connected : peer.connected ≡ true
  pub has_track : peer.has_track ≡ true

module _ {S : Type 0} where
  relay_packet-received :
      (app : App S) (r i w q : ℕ) (c : Client) (s : Stream) (worker : Worker) (peer : Peer)
      (p : Packet)
      → Ready app r i w q c s worker peer
      → relay_packet app r p ≡ some (with_both app r i (handle_rtp_packet c p) (received s p))
  relay_packet-received app r i w q c s worker peer p v =
      relay_packet-lem app r i c s p v.client_at v.feeds v.stream_at v.is_open
      ∙ ap (λ t. some (with_both app r i (handle_rtp_packet c p) t))
          (after_write-received s p v.is_open v.no_backlog)

find_peer-at :
    (peers : List Peer) (id : String) (q : ℕ) (peer : Peer)
    → find_peer peers id ≡ some (q, peer)
    → get_elem? peers q ≡ some peer
unfolding find_peer
find_peer-at [] id q peer h = absurd (ground arith)
find_peer-at (p ∷ ps) id q peer h = elim (Bool-cases (str_eq p.id id)) [
  | inl e ↦ ground (arith, h, e)
  | inr e ↦ elim (Option-cases (find_peer ps id)) [
    | inl n ↦ absurd (ground (arith, h, e, n))
    | inr ((r, found), n) ↦ ground (arith, h, e, n, find_peer-at ps id r found n)
  ]
]

offer-idle :
    (worker : Worker) (p : Packet)
    → worker.packet_chan.items ≡ []
    → 0 < worker.packet_chan.cap
    → offer p worker ≡ record worker { packet_chan = record worker.packet_chan { items = p ∷ [] } }
offer-idle worker p e h = ground (arith, e)

pub packet_to_viewer :
    {S : Type 0} (app : App S) (r i w q : ℕ) (c : Client) (s : Stream) (worker : Worker)
    (peer : Peer) (p : Packet)
    → Ready app r i w q c s worker peer
    → (app1 app2 : App S) × (relay_packet app r p ≡ some app1)
      × (distributor_turn app1 i ≡ some app2)
      × (t : Stream) × (v : Worker) × (get_elem? (worker_turn app2 i w true).stream_manager.heap i
          ≡ some t)
      × (t.packet_buffer.items ≡ [])
      × (t.packets_sent ≡ add64 s.packets_sent 1)
      × (t.bytes_sent ≡ add64 s.bytes_sent (length p.payload))
      × (get_elem? t.workers w ≡ some v)
      × (v.packet_chan.items ≡ [])
      × (get_elem? (worker_turn app2 i w true).webrtc_manager.heap q ≡ some (sent_by_peer peer p))
      × ((j : ℕ)
          → q ≢ j
          → get_elem? (worker_turn app2 i w true).webrtc_manager.heap j
            ≡ get_elem? app.webrtc_manager.heap j)
packet_to_viewer {S} app r i w q c s worker peer p v =
    let app1 = with_both app r i (handle_rtp_packet c p) (received s p) in
    let in1 =
      get_elem?-set_self app.stream_manager.heap i (received s p)
        (get_elem?-some_lt app.stream_manager.heap i v.stream_at) in
    let turn = distribute_turn (received s p) p [] (received-IsValid s p v.valid) v.waits refl in
    let handed = record (received s p) {
      packet_buffer = record s.packet_buffer { items = [] };
      workers = turn.0;
      distributor = selecting;
    } in
    let app2 = record app1 { stream_manager = set_stream app1.stream_manager i handed } in
    let in2 =
      get_elem?-set_self app1.stream_manager.heap i handed
        (get_elem?-some_lt app1.stream_manager.heap i in1) in
    let took = record worker { packet_chan = record worker.packet_chan { items = p ∷ [] } } in
    let got : get_elem? turn.0 w ≡ some took =
      turn.2 w worker v.worker_at ∙ rw (v.has_worker, offer-idle worker p v.idle v.has_room) refl in
    let rested = record took { packet_chan = record took.packet_chan { items = [] } } in
    let sent = sent_by_worker handed w took [] p in
    let worked =
      worker_turn-lem app2 i w q handed took peer p [] in2 got v.worker_runs refl v.subscriber
        v.connected v.has_track in
    (
      app1,
      app2,
      relay_packet-received app r i w q c s worker peer p v,
      distributor_turn-lem app1 i (received s p) handed in1 turn.1,
      sent,
      rested,
      subst (λ (a : App S). get_elem? a.stream_manager.heap i ≡ some sent) (sym worked)
          (get_elem?-set_self app2.stream_manager.heap i sent
            (get_elem?-some_lt app2.stream_manager.heap i in2)),
      refl,
      refl,
      refl,
      get_elem?-set_self turn.0 w rested (get_elem?-some_lt turn.0 w got),
      refl,
      subst (λ (a : App S). get_elem? a.webrtc_manager.heap q ≡ some (sent_by_peer peer p))
          (sym worked)
          (get_elem?-set_self app.webrtc_manager.heap q (sent_by_peer peer p) (
            get_elem?-some_lt app.webrtc_manager.heap q
              (find_peer-at app.webrtc_manager.heap took.sub q peer v.subscriber))),
      λ j n.
          subst
            (λ (a : App S). get_elem? a.webrtc_manager.heap j ≡ get_elem? app.webrtc_manager.heap j)
            (sym worked) (get_elem?-set_ne app.webrtc_manager.heap q j (sent_by_peer peer p) n),
    )
