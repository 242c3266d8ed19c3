-- ===== src/Core/Stream.antt =====
-- `Stream` of go-legacy/internal/core/stream_manager.go: the packet buffer that publishers write,
-- the goroutine that copies each packet to the subscribers' channels, and a worker for each
-- subscriber. Workers are shared by pointer (the map, the distributor's snapshot and the worker's
-- own goroutine), so they live on a heap and a pointer is an index of it. Locks make the bodies of
-- the methods atomic; what the locks leave open is an interleaving of the events below.
pub mod Window
pub mod Workers
pub mod Events
pub mod Lasting
pub mod Safety
pub mod Races
pub mod Fanout
use media_stream.Base.{
  ℕ, ◌+◌, ◌%◌, ◌^◌, String, Bool, true, false, Option, none, some, List, [], ◌∷◌, ◌++◌, map,
  if◌then◌else◌, length, get_elem?, set, Result, ok, err,
}
use media_stream.GoMap
use media_stream.GoMap.{GoMap}
use media_stream.Core.Channel.{
  Chan, make, close, try_send, try_recv, sent, full, panicked, received, drained, waiting,
}

-- rtp.Packet: the code reads the payload's length only; `header` stands for the rest.
pub record Packet : Type 0 where
  pub header : ℕ
  pub payload : List ℕ

-- subscriberWorker; `sub` is the id of its subscriber, `running` until its goroutine returns.
pub record Worker : Type 0 where
  pub sub : String
  pub packet_chan : Chan Packet
  pub cancelled : Bool
  pub running : Bool

-- Where the goroutine of distributePackets stands: at its `select`, in the loop over its copy of
-- the workers with those that are left, or returned.
pub data Distributor : Type 0 where
  selecting : Distributor
  sending : Packet → List ℕ → Distributor
  stopped : Distributor

pub record Stream : Type 0 where
  pub id : String
  pub name : String
  pub video_codec : String
  pub subscribers : GoMap ℕ
  pub workers : List Worker
  pub packets_received : ℕ
  pub packets_sent : ℕ
  pub bytes_received : ℕ
  pub bytes_sent : ℕ
  pub packet_buffer : Chan Packet
  pub closed : Bool
  pub distributor : Distributor

pub data Error : Type 0 where
  stream_closed : Error
  subscriber_exists subscriber_not_found : String → Error

-- atomic.Uint64.Add
abbrev pub add64 : ℕ → ℕ → ℕ
add64 a b = (a + b) % 2 ^ 64

abbrev pub worker_chan_cap : ℕ
worker_chan_cap = 100

-- The literal of CreateStream.
unfoldable pub new_stream : String → String → ℕ → Stream
unfolding GoMap.empty
new_stream id name buffer_size = record {
  id = id;
  name = name;
  video_codec = "";
  subscribers = GoMap.empty;
  workers = [];
  packets_received = 0;
  packets_sent = 0;
  bytes_received = 0;
  bytes_sent = 0;
  packet_buffer = make buffer_size;
  closed = false;
  distributor = selecting;
}

-- What WritePacket does: it returns nil or the error, it waits in its last send with the packet
-- not yet in the buffer, or it panics.
pub data Write : Type 0 where
  accepted : Stream → Write
  rejected : Error → Stream → Write
  blocked : Stream → Write
  panics : Write

-- The first half of WritePacket, up to the drop, either ends the call or has dropped the oldest
-- packet.
pub data Attempt : Type 0 where
  finished : Write → Attempt
  made_room : Stream → Attempt

unfoldable pub drop_oldest : Stream → Stream
unfolding try_recv
drop_oldest s = elim (try_recv s.packet_buffer) [
  | received p rest ↦ record s { packet_buffer = rest }
  | drained ↦ s
  | waiting ↦ s
]

-- The first `select` of WritePacket, after its check of `closed`.
unfoldable pub write_select : Stream → Packet → Attempt
unfolding drop_oldest try_send
write_select s p = elim (try_send s.packet_buffer p) [
  | sent c ↦ finished (
      accepted (record s {
        packet_buffer = c;
        packets_received = add64 s.packets_received 1;
        bytes_received = add64 s.bytes_received (length p.payload);
      }))
  | full ↦ made_room (drop_oldest s)
  | panicked ↦ finished panics
]

unfoldable pub write_begin : Stream → Packet → Attempt
unfolding write_select
write_begin s p = if s.closed then finished (rejected stream_closed s) else write_select s p

-- The send that waits for room.
unfoldable pub write_send : Stream → Packet → Write
unfolding try_send
write_send s p = elim (try_send s.packet_buffer p) [
  | sent c ↦ accepted (record s { packet_buffer = c })
  | full ↦ blocked s
  | panicked ↦ panics
]

-- From the second check of `closed` on.
unfoldable pub write_end : Stream → Packet → Write
unfolding write_send
write_end s p = if s.closed then rejected stream_closed s else write_send s p

-- WritePacket with nothing in between.
unfoldable pub write_packet : Stream → Packet → Write
unfolding write_begin write_end
write_packet s p = elim (write_begin s p) [ finished w ↦ w | made_room s' ↦ write_end s' p ]

unfoldable pub subscribe : Stream → String → Result Error Stream
unfolding GoMap.get GoMap.put
subscribe s id =
    if GoMap.contains s.subscribers id
    then err (subscriber_exists id)
    else ok (record s {
      subscribers = GoMap.put s.subscribers id (length s.workers);
      workers = s.workers ++ worker ∷ [];
    })
  where
    worker : Worker
    worker = record {
      sub = id;
      packet_chan = make worker_chan_cap;
      cancelled = false;
      running = true;
    }

-- worker.cancel(); close(worker.packetChan)
unfoldable pub stop_worker : ℕ → List Worker → List Worker
stop_worker r ws = elim (get_elem? ws r) [
  | none ↦ ws
  | some w ↦ set ws r (record w { cancelled = true; packet_chan = close w.packet_chan })
]

unfoldable pub unsubscribe : Stream → String → Result Error Stream
unfolding GoMap.get GoMap.remove stop_worker
unsubscribe s id = elim (GoMap.get s.subscribers id) [
  | none ↦ err (subscriber_not_found id)
  | some r ↦
      ok (record s {
        subscribers = GoMap.remove s.subscribers id;
        workers = stop_worker r s.workers;
      })
]

abbrev pub snapshot : Stream → List ℕ
snapshot s = map (λ e. e.1) s.subscribers.entries

-- One send of the inner loop of distributePackets; `none` is the panic.
unfoldable pub deliver : Packet → ℕ → List Worker → Option (List Worker)
unfolding try_send
deliver p r ws = elim (get_elem? ws r) [
  | none ↦ some ws
  | some w ↦ elim (try_send w.packet_chan p) [
    | sent c ↦ some (set ws r (record w { packet_chan = c }))
    | full ↦ some ws
    | panicked ↦ none
  ]
]

-- case pkt, ok := <-s.packetBuffer, and the copy of the workers that follows it
unfoldable pub take_packet : Stream → Stream
unfolding try_recv
take_packet s = elim (try_recv s.packet_buffer) [
  | received p rest ↦ record s { packet_buffer = rest; distributor = sending p (snapshot s) }
  | drained ↦ record s { distributor = stopped }
  | waiting ↦ s
]

-- One round of distributePackets: a receive, or the next send of its loop.
unfoldable pub distribute_from : Stream → Distributor → Option Stream
distribute_from s selecting = some (take_packet s)
distribute_from s (sending p []) = some (record s { distributor = selecting })
distribute_from s (sending p (r ∷ rest)) = elim (deliver p r s.workers) [
  | none ↦ none
  | some ws ↦ some (record s { workers = ws; distributor = sending p rest })
]
distribute_from s stopped = some s

unfoldable pub distribute : Stream → Option Stream
unfolding distribute_from take_packet deliver
distribute s = distribute_from s s.distributor

-- One round of `run` for the worker at `r`; `sent_ok` says whether OnPacket returned nil.
unfoldable pub worker_round : Stream → ℕ → Bool → Stream
unfolding try_recv
worker_round s r sent_ok = elim (get_elem? s.workers r) [
  | none ↦ s
  | some w ↦
      if w.running
      then elim (try_recv w.packet_chan) [
        | received p rest ↦
            (let t = record s { workers = set s.workers r (record w { packet_chan = rest }) } in
              if sent_ok
              then record t {
                packets_sent = add64 s.packets_sent 1;
                bytes_sent = add64 s.bytes_sent (length p.payload);
              }
              else t)
        | drained ↦ record s { workers = set s.workers r (record w { running = false }) }
        | waiting ↦ s
      ]
      else s
]

-- case <-w.ctx.Done()
unfoldable pub worker_done : Stream → ℕ → Stream
worker_done s r = elim (get_elem? s.workers r) [
  | none ↦ s
  | some w ↦
      if w.cancelled
      then record s { workers = set s.workers r (record w { running = false }) }
      else s
]

unfoldable pub set_video_codec : Stream → String → Stream
set_video_codec s codec = record s { video_codec = codec }

abbrev pub get_video_codec : Stream → String
get_video_codec s = s.video_codec

-- The part of RemoveStream that acts on the stream.
unfoldable pub shut : Stream → Stream
shut s = record s { closed = true; packet_buffer = close s.packet_buffer }
