-- ===== src/Core/Tests.antt =====
-- The theorems on streams at concrete values.
use media_stream.Base.{
  ℕ, ◌+◌, ◌%◌, ◌^◌, ◌≡◌, ◌≢◌, refl, true, false, none, some, List, [], ◌∷◌, arith, get_elem?, inr,
  if◌then◌else◌,
}
use media_stream.Core.Channel.{try_recv}
use media_stream.Core.Stream.{
  Packet, Worker, Stream, selecting, sending, new_stream, write_packet, accepted,
}
use media_stream.Core.Stream.Window.{IsOpen, write_all, keep_last, counted, write_all-window}
use media_stream.Core.Stream.Workers.{is_open, offer}
use media_stream.Core.Stream.Events.{step, subscribes, unsubscribes, shuts, IsValid}
use media_stream.Core.Stream.Safety.{Reach, created, next, calm_never_panics}
use media_stream.Core.Stream.Fanout.{rounds, has, distribute_turn}

abbrev packet : ℕ → Packet
packet n = record { header = n; payload = 7 ∷ 7 ∷ [] }

abbrev idle_worker : Worker
idle_worker = record {
  sub = "viewer";
  packet_chan = record { cap = 100; items = []; closed = false };
  cancelled = false;
  running = true;
}

-- A stream with one subscriber, a buffer for two packets, and one packet in it.
abbrev camera : Stream
camera = record {
  id = "cam";
  name = "cam";
  video_codec = "H264";
  subscribers = record { entries = ("viewer", 0) ∷ [] };
  workers = idle_worker ∷ [];
  packets_received = 1;
  packets_sent = 0;
  bytes_received = 2;
  bytes_sent = 0;
  packet_buffer = record { cap = 2; items = packet 1 ∷ []; closed = false };
  closed = false;
  distributor = selecting;
}

camera-IsOpen : IsOpen camera
camera-IsOpen = record {
  not_closed = refl;
  buffer_open = refl;
  has_room = omega arith;
  within = omega arith;
}

camera-IsValid : IsValid camera
unfolding is_open
camera-IsValid = record {
  subscribed = (refl, tt);
  distinct = (tt, tt);
  pending = tt;
  marked = inr refl;
}

write_all-window_example :
    (t : Stream) × (write_all camera (packet 2 ∷ packet 3 ∷ packet 4 ∷ []) ≡ accepted t)
    × (t.packet_buffer.items ≡ keep_last 2 (packet 1 ∷ packet 2 ∷ packet 3 ∷ packet 4 ∷ []))
    × (t.packets_received ≡ (1 + counted camera (packet 2 ∷ packet 3 ∷ packet 4 ∷ [])) % 2 ^ 64)
write_all-window_example =
    write_all-window camera (packet 2 ∷ packet 3 ∷ packet 4 ∷ []) camera-IsOpen (omega arith)

-- Four packets in all, of which the buffer keeps the last two and the counter has two.
four_packets :
    write_all camera (packet 2 ∷ packet 3 ∷ packet 4 ∷ [])
    ≡ accepted (record camera {
      packet_buffer = record { cap = 2; items = packet 3 ∷ packet 4 ∷ []; closed = false };
      packets_received = 2;
      bytes_received = 4;
    })
unfolding write_all write_packet try_recv
four_packets = refl

distribute_turn_example :
    (ws : List Worker) × (rounds 3 camera
      ≡ some (record camera {
        packet_buffer = record { cap = 2; items = []; closed = false };
        workers = ws;
        distributor = selecting;
      }))
    × ((i : ℕ) (w : Worker)
        → get_elem? (idle_worker ∷ []) i ≡ some w
        → get_elem? ws i ≡ some (if has i (0 ∷ []) then offer (packet 1) w else w))
distribute_turn_example = distribute_turn camera (packet 1) [] camera-IsValid refl refl

abbrev watched : Stream
watched = record {
  id = "cam";
  name = "cam";
  video_codec = "";
  subscribers = record { entries = ("viewer", 0) ∷ [] };
  workers = idle_worker ∷ [];
  packets_received = 0;
  packets_sent = 0;
  bytes_received = 0;
  bytes_sent = 0;
  packet_buffer = record { cap = 2; items = []; closed = false };
  closed = false;
  distributor = selecting;
}

watched-Reach : Reach "cam" "cam" 2 watched
unfolding step new_stream
watched-Reach = next (subscribes "viewer") created tt refl

calm_never_panics_example : step watched (unsubscribes "viewer") ≢ none
calm_never_panics_example =
    calm_never_panics "cam" "cam" 2 watched (unsubscribes "viewer") watched-Reach refl

-- The distributor holds a packet for the viewer, who leaves.
abbrev serving : Stream
serving = record camera { distributor = sending (packet 1) (0 ∷ []) }

abbrev left : Stream
left = record serving {
  subscribers = record { entries = [] };
  workers =
      record idle_worker {
        packet_chan = record { cap = 100; items = []; closed = true };
        cancelled = true;
      }
      ∷ [];
}

viewer_leaves : step serving (unsubscribes "viewer") ≡ some left
unfolding step
viewer_leaves = refl

viewer_open : is_open serving.workers 0 ≡ true
unfolding is_open
viewer_open = refl

abbrev removed : Stream
removed = record camera {
  closed = true;
  packet_buffer = record { cap = 2; items = packet 1 ∷ []; closed = true };
}

camera-removed : step camera shuts ≡ some removed
unfolding step
camera-removed = refl
