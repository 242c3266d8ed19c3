-- ===== src/Core/Stream/Events.antt =====
-- The events of a stream under concurrent use, what makes one calm, and what calm events keep.
use media_stream.Base.{
  ℕ, ◌≡◌, ◌⊎◌, Bool, true, false, Option, none, some, String, List, if◌then◌else◌, Result, ok, err,
}
use media_stream.Core.Stream.{
  Packet, Worker, Distributor, selecting, sending, stopped, Stream, Error, Write, accepted,
  rejected, blocked, panics, Attempt, finished, made_room, write_select, write_end, write_send,
  write_packet, subscribe, unsubscribe, snapshot, distribute, worker_round, worker_done,
  set_video_codec, shut,
}
use media_stream.Core.Stream.Workers.{AllOpen, Distinct}

-- What the goroutines that share a stream do to it. `selects` and `resumes` are WritePacket's two
-- sends, each after a check that another goroutine may since have made out of date; `writes` is a
-- whole call. `distributes` and `works` are rounds of the stream's goroutines.
pub data Event : Type 0 where
  writes selects ends resumes : Packet → Event
  distributes cancels_distribution shuts : Event
  subscribes unsubscribes sets_codec : String → Event
  works : ℕ → Bool → Event
  ends_worker : ℕ → Event

abbrev pub after_write : Write → Option Stream
after_write (accepted s) = some s
after_write (rejected e s) = some s
after_write (blocked s) = some s
after_write panics = none

abbrev pub after_attempt : Attempt → Option Stream
after_attempt (finished w) = after_write w
after_attempt (made_room s) = some s

abbrev pub after_result : Stream → Result Error Stream → Option Stream
after_result s (ok t) = some t
after_result s (err e) = some s

unfoldable pub cancel_distribution : Stream → Distributor → Stream
cancel_distribution s selecting = record s { distributor = stopped }
cancel_distribution s d = s

-- `none` is a panic, which ends the process. To close a closed channel is one.
unfoldable pub step : Stream → Event → Option Stream
unfolding cancel_distribution write_packet write_select write_end write_send distribute subscribe
    unsubscribe set_video_codec worker_round worker_done shut
step s (writes p) = after_write (write_packet s p)
step s (selects p) = after_attempt (write_select s p)
step s (ends p) = after_write (write_end s p)
step s (resumes p) = after_write (write_send s p)
step s distributes = distribute s
step s cancels_distribution = some (cancel_distribution s s.distributor)
step s shuts = if s.packet_buffer.closed then none else some (shut s)
step s (subscribes id) = after_result s (subscribe s id)
step s (unsubscribes id) = after_result s (unsubscribe s id)
step s (sets_codec c) = some (set_video_codec s c)
step s (works r sent_ok) = some (worker_round s r sent_ok)
step s (ends_worker r) = some (worker_done s r)

abbrev pub PendingOpen : List Worker → Distributor → Type 0
PendingOpen ws (sending p rs) = AllOpen ws rs
PendingOpen ws _ = Unit {0}

abbrev pub is_sending : Distributor → Bool
is_sending (sending p rs) = true
is_sending _ = false

-- Every subscribed worker and every worker of the distributor's copy has an open channel, no two
-- subscribers share a worker, and the buffer is closed only behind the `closed` mark.
pub record IsValid (s : Stream) : Type 0 where
  pub subscribed : AllOpen s.workers (snapshot s)
  pub distinct : Distinct (snapshot s)
  pub pending : PendingOpen s.workers s.distributor
  pub marked : (s.closed ≡ true) ⊎ (s.packet_buffer.closed ≡ false)

-- Nothing came between: no unsubscription while the distributor walks its copy, no shutdown
-- between a writer's check and its send, and no second shutdown.
abbrev pub IsCalm : Stream → Event → Type 0
IsCalm s (unsubscribes id) = is_sending s.distributor ≡ false
IsCalm s (selects p) = s.packet_buffer.closed ≡ false
IsCalm s (resumes p) = s.packet_buffer.closed ≡ false
IsCalm s shuts = s.packet_buffer.closed ≡ false
IsCalm s _ = Unit {0}
