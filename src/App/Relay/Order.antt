-- ===== src/App/Relay/Order.antt =====
-- The order of a camera's packets, whatever order the client and the distributor go on in.
use media_stream.Base.{ℕ, ◌≡◌, ◌≤◌, Option, some, List, [], ◌∷◌, ◌++◌, length}
use media_stream.GoMap
use media_stream.Core.Stream.{Stream, Packet}
use media_stream.Core.Stream.Events.{IsValid}
use media_stream.Core.Stream.Window.{IsOpen}
use media_stream.Rtsp.Client.{Client}
use media_stream.App.{App}
use media_stream.App.Relay.{Move, reads, goes_on, prepend, move, run_moves}
use media_stream.App.Relay.Delivery.{Relayed}
use media_stream.App.Relay.Rounds.{Sublist}

abbrev read_by : Move → List Packet
read_by (reads p) = p ∷ []
read_by goes_on = []

-- The packets that the client reads.
abbrev pub reads_of : List Move → List Packet
reads_of [] = []
reads_of (m ∷ ms) = read_by m ++ reads_of ms

-- The application after a move. What was in the buffer and what is read are packets that are lost,
-- the one that is taken, and what is in the buffer.
record Moved {S : Type 0} (app : App S) (r i : ℕ) (s : Stream) (m : Move) : Type 0 where
  pub after : App S
  pub client : Client
  pub stream : Stream
  pub taken : Option Packet
  pub moves : move app r i m ≡ some (after, taken)
  pub relayed : Relayed app after r i client stream
  pub feeds : client.stream ≡ i
  pub is_open : IsOpen stream
  pub valid : IsValid stream
  pub lost : List Packet
  pub in_order :
      s.packet_buffer.items ++ read_by m ≡ lost ++ prepend taken stream.packet_buffer.items

module _ {S : Type 0} where
  -- The application after some moves. What was in the buffer and what is read are packets that have
  -- left it and those that are in it; the packets that the distributor took are among the former.
  pub record Ordered (app : App S) (r i : ℕ) (s : Stream) (ms : List Move) : Type 0 where
    pub after : App S
    pub client : Client
    pub stream : Stream
    pub taken : List Packet
    pub plays : run_moves app r i ms ≡ some (after, taken)
    pub relayed : Relayed app after r i client stream
    pub within : length stream.packet_buffer.items ≤ stream.packet_buffer.cap
    pub gone : List Packet
    pub in_order : s.packet_buffer.items ++ reads_of ms ≡ gone ++ stream.packet_buffer.items
    pub from_gone : Sublist taken gone
