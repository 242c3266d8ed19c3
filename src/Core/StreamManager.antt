-- ===== src/Core/StreamManager.antt =====
-- `StreamManager` of go-legacy/internal/core/stream_manager.go. Streams are shared by pointer (the
-- manager's map, RTSP paths, RTSP clients, offers in progress), so they live on a heap: a pointer
-- is an index, which stays readable after RemoveStream has taken the stream off the map.
pub mod Laws
pub mod Shutdown
use media_stream.Base.{
  ℕ, String, Bool, true, false, Option, none, some, List, [], ◌∷◌, ◌++◌, if◌then◌else◌, length,
  get_elem?, set, Result, ok, err,
}
use media_stream.Base.Int.{ℤ, pos, negsuc, pos_part, leb_ℤ}
use media_stream.GoMap
use media_stream.GoMap.{GoMap}
use media_stream.Core.Channel.{close}
use media_stream.Core.Stream.{Stream, new_stream, shut}

pub record StreamManager : Type 0 where
  pub heap : List Stream
  pub streams : GoMap ℕ
  pub video_buffer_size : ℕ
  pub ctx_done : Bool

pub data ManagerError : Type 0 where
  stream_exists stream_not_found : String → ManagerError

abbrev pub default_buffer_size : ℕ
default_buffer_size = 500

-- NewStreamManager
unfoldable pub new_stream_manager : ℤ → StreamManager
unfolding GoMap.empty
new_stream_manager buffer_size = record {
  heap = [];
  streams = GoMap.empty;
  video_buffer_size =
      if leb_ℤ buffer_size (pos 0) then default_buffer_size else pos_part buffer_size;
  ctx_done = false;
}

-- CreateStream returns the pointer of the new stream.
unfoldable pub create_stream :
    StreamManager → String → String → Result ManagerError (StreamManager × ℕ)
unfolding GoMap.get GoMap.put
create_stream m id name =
    if GoMap.contains m.streams id
    then err (stream_exists id)
    else ok (
      record m {
        heap = m.heap ++ new_stream id name m.video_buffer_size ∷ [];
        streams = GoMap.put m.streams id (length m.heap);
      },
      length m.heap,
    )

unfoldable pub get_stream : StreamManager → String → Result ManagerError ℕ
unfolding GoMap.get
get_stream m id = elim (GoMap.get m.streams id) [ none ↦ err (stream_not_found id) | some r ↦ ok r ]

-- `none` is a panic: a pointer that leads nowhere, or the second close of a channel.
unfoldable pub remove_stream : StreamManager → String → Option (Result ManagerError StreamManager)
unfolding GoMap.get GoMap.remove
remove_stream m id = elim (GoMap.get m.streams id) [
  | none ↦ some (err (stream_not_found id))
  | some r ↦ elim (get_elem? m.heap r) [
    | none ↦ none
    | some s ↦
        if s.packet_buffer.closed
        then none
        else some
            (ok (record m { heap = set m.heap r (shut s); streams = GoMap.remove m.streams id }))
  ]
]

copy_entries : List (String × ℕ) → GoMap ℕ
copy_entries [] = GoMap.empty
copy_entries ((id, r) ∷ rest) = GoMap.put (copy_entries rest) id r

-- ListStreams
unfoldable pub list_streams : StreamManager → GoMap ℕ
unfolding copy_entries
list_streams m = copy_entries m.streams.entries

-- The loop of Close: it closes each buffer, and leaves the stream's `closed` as it is.
unfoldable pub close_entries : List (String × ℕ) → StreamManager → Option StreamManager
unfolding GoMap.remove
close_entries [] m = some m
close_entries ((id, r) ∷ rest) m = elim (get_elem? m.heap r) [
  | none ↦ none
  | some s ↦
      if s.packet_buffer.closed
      then none
      else close_entries rest (record m {
        heap = set m.heap r (record s { packet_buffer = close s.packet_buffer });
        streams = GoMap.remove m.streams id;
      })
]

-- Close
unfoldable pub close_manager : StreamManager → Option StreamManager
unfolding close_entries
close_manager m = close_entries m.streams.entries (record m { ctx_done = true })
