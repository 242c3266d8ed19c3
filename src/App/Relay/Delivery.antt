-- ===== src/App/Relay/Delivery.antt =====
-- What the packets of a camera do to its stream and its viewers.
use media_stream.Base.{
  ℕ, ◌+◌, ◌%◌, ◌^◌, ◌<◌, ◌≡◌, ◌≢◌, refl, ap, ◌∙◌, String, some, List, [], ◌∷◌, ◌++◌, arith,
  get_elem?, get_elem?-some_lt, get_elem?-set_self, get_elem?-set_ne, set, length,
}
use media_stream.GoMap
use media_stream.GoMap.{GoMap}
use media_stream.Core.Stream.{Stream, Packet}
use media_stream.Core.Stream.Lasting.{Lasts}
use media_stream.Core.Stream.Window.{
  IsOpen, keep_last, after_write, after_writes, counted, after_write-IsOpen, write_packet-window,
  items-after_writes, received-after_writes,
}
use media_stream.Rtsp.Client.{Client, handle_rtp_packet, handle_rtp_packets}
use media_stream.App.{App}
use media_stream.App.Offers.{set_stream}
use media_stream.App.Running.{IsRunning}
use media_stream.App.Changes.{Follows, client-IsRunning, set_stream-IsRunning}
use media_stream.App.Relay.{relay_packet, relay}

-- The application after a client and its stream have changed.
pub record Relayed {S : Type 0} (app app' : App S) (r i : ℕ) (c : Client) (s : Stream)
    : Type 0 where
  pub client_at : get_elem? app'.clients r ≡ some c
  pub stream_at : get_elem? app'.stream_manager.heap i ≡ some s
  pub others :
      (j : ℕ) → i ≢ j → get_elem? app'.stream_manager.heap j ≡ get_elem? app.stream_manager.heap j
  pub running : IsRunning app'

pub after_write-Lasts : (s : Stream) (p : Packet) → Lasts s (after_write s p)
after_write-Lasts s p = ground arith

pub handle_rtp_packet-Follows : (c : Client) (p : Packet) → Follows c (handle_rtp_packet c p)
unfolding handle_rtp_packet
handle_rtp_packet-Follows c p = (refl, refl)

handle_rtp_packets-received :
    (c : Client) (ps : List Packet)
    → c.packets_received < 2 ^ 64
    → (handle_rtp_packets c ps).packets_received ≡ (c.packets_received + length ps) % 2 ^ 64
unfolding handle_rtp_packets handle_rtp_packet
handle_rtp_packets-received c [] h = omega arith
handle_rtp_packets-received c (p ∷ ps) h =
    let ih = handle_rtp_packets-received (handle_rtp_packet c p) ps in ground (arith, ih)

module _ {S : Type 0} where
  abbrev pub with_both : App S → ℕ → ℕ → Client → Stream → App S
  with_both app r i c s = record app {
    clients = set app.clients r c;
    stream_manager = set_stream app.stream_manager i s;
  }

  relay_packet-at :
      (app : App S) (r : ℕ) (c : Client) (s : Stream) (p : Packet)
      → get_elem? app.clients r ≡ some c
      → get_elem? app.stream_manager.heap c.stream ≡ some s
      → IsOpen s
      → relay_packet app r p
        ≡ some (with_both app r c.stream (handle_rtp_packet c p) (after_write s p))
  unfolding relay_packet
  relay_packet-at app r c s p h g v = rw (h, g, write_packet-window s p v, relay_packet) refl

  pub relay_packet-lem :
      (app : App S) (r i : ℕ) (c : Client) (s : Stream) (p : Packet)
      → get_elem? app.clients r ≡ some c
      → c.stream ≡ i
      → get_elem? app.stream_manager.heap i ≡ some s
      → IsOpen s
      → relay_packet app r p ≡ some (with_both app r i (handle_rtp_packet c p) (after_write s p))
  relay_packet-lem app r i c s p h e g v =
      relay_packet-at app r c s p h (ap (get_elem? app.stream_manager.heap) e ∙ g) v
      ∙ ap (λ j. some (with_both app r j (handle_rtp_packet c p) (after_write s p))) e

  pub with_both-Relayed :
      (app : App S) (r i : ℕ) (c d : Client) (s t : Stream)
      → IsRunning app
      → get_elem? app.clients r ≡ some c
      → get_elem? app.stream_manager.heap i ≡ some s
      → Follows c d
      → Lasts s t
      → Relayed app (with_both app r i d t) r i d t
  with_both-Relayed app r i c d s t v h g f l = record {
    client_at = get_elem?-set_self app.clients r d (get_elem?-some_lt app.clients r h);
    stream_at =
        get_elem?-set_self app.stream_manager.heap i t
          (get_elem?-some_lt app.stream_manager.heap i g);
    others = λ j n. get_elem?-set_ne app.stream_manager.heap i j t n;
    running =
        set_stream-IsRunning (record app { clients = set app.clients r d }) i s t
          (client-IsRunning app r c d v h f) g l;
  }

  pub Relayed-trans :
      (a b e : App S) (r i : ℕ) (c d : Client) (s t : Stream)
      → Relayed a b r i c s
      → Relayed b e r i d t
      → Relayed a e r i d t
  Relayed-trans a b e r i c d s t f g = record {
    client_at = g.client_at;
    stream_at = g.stream_at;
    others = λ j n. g.others j n ∙ f.others j n;
    running = g.running;
  }

  relay-Relayed :
      (app : App S) (r i : ℕ) (c : Client) (s : Stream) (ps : List Packet)
      → IsRunning app
      → get_elem? app.clients r ≡ some c
      → c.stream ≡ i
      → get_elem? app.stream_manager.heap i ≡ some s
      → IsOpen s
      → (app' : App S) × (relay app r ps ≡ some app')
        × Relayed app app' r i (handle_rtp_packets c ps) (after_writes s ps)
  unfolding relay handle_rtp_packets after_writes
  relay-Relayed app r i c s [] v h e g o =
      (app, refl, record { client_at = h; stream_at = g; others = λ j n. refl; running = v })
  relay-Relayed app r i c s (p ∷ ps) v h e g o =
      let mid = with_both app r i (handle_rtp_packet c p) (after_write s p) in
      let first =
        with_both-Relayed app r i c (handle_rtp_packet c p) s (after_write s p) v h g
          (handle_rtp_packet-Follows c p) (after_write-Lasts s p) in
      let rest =
        relay-Relayed mid r i (handle_rtp_packet c p) (after_write s p) ps first.running
          first.client_at ((handle_rtp_packet-Follows c p).1 ∙ e) first.stream_at
          (after_write-IsOpen s p o) in
      (
        rest.0,
        rw (relay_packet-lem app r i c s p h e g o, relay) rest.1,
        Relayed-trans app mid rest.0 r i _ _ _ _ first rest.2,
      )

-- The packets that the client behind a camera's id reads with nothing else in between: on an open
-- stream with counters below 2^64 nothing panics, and the application still runs; the buffer holds
-- the last `cap` packets of what it held and what was read, in order; the client has counted every
-- packet and the stream those that found room, both modulo 2^64; no other stream changes.
relay_window :
    {S : Type 0} (app : App S) (id : String) (r i : ℕ) (c : Client) (s : Stream) (ps : List Packet)
    → IsRunning app
    → GoMap.get app.rtsp_clients id ≡ some r
    → get_elem? app.clients r ≡ some c
    → GoMap.get app.stream_manager.streams id ≡ some i
    → get_elem? app.stream_manager.heap i ≡ some s
    → IsOpen s
    → s.packets_received < 2 ^ 64
    → c.packets_received < 2 ^ 64
    → (app' : App S) × (d : Client) × (t : Stream) × (relay app r ps ≡ some app')
      × Relayed app app' r i d t
      × (t.packet_buffer.items ≡ keep_last s.packet_buffer.cap (s.packet_buffer.items ++ ps))
      × (t.packets_received ≡ (s.packets_received + counted s ps) % 2 ^ 64)
      × (d.packets_received ≡ (c.packets_received + length ps) % 2 ^ 64)
relay_window app id r i c s ps v k h m g o n l =
    let a = v.served id r k in
    let same : a.client ≡ c = ground (arith, h, a.at) in
    let fed : c.stream ≡ i = ground (arith, same, m, a.fed) in
    let done = relay-Relayed app r i c s ps v h fed g o in
    (
      done.0,
      handle_rtp_packets c ps,
      after_writes s ps,
      done.1,
      done.2,
      items-after_writes s ps o,
      received-after_writes s ps o n,
      handle_rtp_packets-received c ps l,
    )
