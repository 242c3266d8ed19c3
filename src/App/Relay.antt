-- ===== src/App/Relay.antt =====
-- A packet's way through the application: from the client that reads a camera to the stream
-- (OnPacket in createRTSPClient of go-legacy/cmd/server/main.go), and from a worker of the stream
-- to its peer (the call of OnPacket in `run` of internal/core/stream_manager.go). What the HLS
-- manager returns is only logged.
pub mod Delivery
mod Tests
pub mod Viewing
pub mod Subscribing
pub mod Rounds
pub mod Order
use media_stream.Base.{
  ℕ, Bool, true, false, not, Option, none, some, List, [], ◌∷◌, is_some, if◌then◌else◌, get_elem?,
  set, length, ◌+◌, String, str_eq, suc,
}
use media_stream.Core.Stream.{
  Stream, Packet, Worker, Distributor, selecting, write_packet, worker_round, snapshot, distribute,
}
use media_stream.Core.Stream.Fanout.{rounds}
use media_stream.Core.Stream.Events.{after_write}
use media_stream.Rtsp.Client.{Client, handle_rtp_packet}
use media_stream.Webrtc.Peers.{Peer, send_packet}
use media_stream.App.{App}
use media_stream.App.Offers.{set_stream}

module _ {S : Type 0} where
  -- handleRTPPacket of the client that the pointer leads to, with its callback; `none` is a panic.
  unfoldable pub relay_packet : App S → ℕ → Packet → Option (App S)
  unfolding handle_rtp_packet write_packet
  relay_packet app r p = elim (get_elem? app.clients r) [
    | none ↦ some app
    | some c ↦ elim (get_elem? app.stream_manager.heap c.stream) [
      | none ↦ none
      | some s ↦ elim (after_write (write_packet s p)) [
        | none ↦ none
        | some t ↦ some (record app {
          clients = set app.clients r (handle_rtp_packet c p);
          stream_manager = set_stream app.stream_manager c.stream t;
        })
      ]
    ]
  ]

  unfoldable pub relay : App S → ℕ → List Packet → Option (App S)
  unfolding relay_packet
  relay app r [] = some app
  relay app r (p ∷ ps) = elim (relay_packet app r p) [ none ↦ none | some app' ↦ relay app' r ps ]

module _ {S : Type 0} where
  -- The stream at `i` after one turn of its distributor: a receive, a send for each subscriber and
  -- the end of the loop. `none` is a panic.
  unfoldable pub distributor_turn : App S → ℕ → Option (App S)
  unfolding rounds
  distributor_turn app i = elim (get_elem? app.stream_manager.heap i) [
    | none ↦ some app
    | some s ↦ elim (rounds (length (snapshot s) + 2) s) [
      | none ↦ none
      | some t ↦ some (record app { stream_manager = set_stream app.stream_manager i t })
    ]
  ]

-- The packet that the next round of the worker takes.
unfoldable pub next_packet : Stream → ℕ → Option Packet
next_packet s w = elim (get_elem? s.workers w) [
  | none ↦ none
  | some worker ↦ if worker.running then get_elem? worker.packet_chan.items 0 else none
]

-- The peer with the id, which is a UUID of its own, and its pointer.
unfoldable pub find_peer : List Peer → String → Option (ℕ × Peer)
find_peer [] id = none
find_peer (p ∷ ps) id =
    let rest = find_peer ps id in
    if str_eq p.id id
    then some (0, p)
    else elim rest [ none ↦ none | some (q, found) ↦ some (suc q, found) ]

-- The peer that is the subscriber of the worker, `w.sub` of run; a subscriber that is no peer is not
-- modelled.
unfoldable pub served_peer : List Peer → Stream → ℕ → Option (ℕ × Peer)
unfolding find_peer
served_peer peers s w = elim (get_elem? s.workers w) [
  | none ↦ none
  | some worker ↦ find_peer peers worker.sub
]

module _ {S : Type 0} where
  -- A round of the worker at `w` of the stream at `i`: it calls OnPacket of its subscriber, a peer;
  -- `written` says whether the peer's track takes the packet.
  unfoldable pub worker_turn : App S → ℕ → ℕ → Bool → App S
  unfolding next_packet served_peer worker_round send_packet
  worker_turn app i w written = elim (get_elem? app.stream_manager.heap i) [
    | none ↦ app
    | some s ↦ elim (next_packet s w) [
      | none ↦ record app {
        stream_manager = set_stream app.stream_manager i (worker_round s w false);
      }
      | some p ↦ elim (served_peer app.webrtc_manager.heap s w) [
        | none ↦ app
        | some (q, peer) ↦
            (let outcome = send_packet peer p written in
              record app {
                stream_manager =
                    set_stream app.stream_manager i (worker_round s w (not (is_some outcome.1)));
                webrtc_manager = record app.webrtc_manager {
                  heap = set app.webrtc_manager.heap q outcome.0;
                };
              })
      ]
    ]
  ]

-- The packet that the next round of the distributor takes.
unfoldable pub taken_by : Stream → Distributor → Option Packet
taken_by s selecting = get_elem? s.packet_buffer.items 0
taken_by s other = none

-- What may follow what at one camera: its client reads a packet, or the stream's distributor goes
-- on by one round, a receive or a send.
pub data Move : Type 0 where
  reads : Packet → Move
  goes_on : Move

abbrev pub prepend : Option Packet → List Packet → List Packet
prepend none ps = ps
prepend (some p) ps = p ∷ ps

module _ {S : Type 0} where
  unfoldable pub read_move : Option (App S) → Option (App S × Option Packet)
  read_move none = none
  read_move (some app) = some (app, none)

  -- A move of the client at `r` or of the distributor of the stream at `i`, with the packet that the
  -- distributor takes; `none` is a panic.
  unfoldable pub move : App S → ℕ → ℕ → Move → Option (App S × Option Packet)
  unfolding read_move relay_packet distribute taken_by
  move app r i (reads p) = read_move (relay_packet app r p)
  move app r i goes_on = elim (get_elem? app.stream_manager.heap i) [
    | none ↦ some (app, none)
    | some s ↦ elim (distribute s) [
      | none ↦ none
      | some t ↦ some (
        record app { stream_manager = set_stream app.stream_manager i t },
        taken_by s s.distributor,
      )
    ]
  ]

  -- Moves in any order, with the packets that the distributor takes, the first one first.
  unfoldable pub run_moves : App S → ℕ → ℕ → List Move → Option (App S × List Packet)
  unfolding move
  run_moves app r i [] = some (app, [])
  run_moves app r i (m ∷ ms) = elim (move app r i m) [
    | none ↦ none
    | some (mid, o) ↦ elim (run_moves mid r i ms) [
      | none ↦ none
      | some (app', ps) ↦ some (app', prepend o ps)
    ]
  ]
