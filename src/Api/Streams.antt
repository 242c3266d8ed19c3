-- ===== src/Api/Streams.antt =====
-- The handlers of go-legacy/internal/api/server.go on streams and on paths of version 3, with the
-- callbacks and the managers that cmd/server/main.go gives the server: `startStreamHandler` and
-- `stopStreamHandler` are methods of the application, and none of them is nil. A handler returns the
-- new state, the status and what the body holds. `none` for a request's body is a failure of
-- ShouldBindJSON; `now` is time.Now() of the repository.
pub mod Races
pub mod Serving
pub mod Safety
pub mod Peers
pub mod Loads
pub mod Lifetime
pub mod Outcomes
pub mod Requests
pub mod Toggling
pub mod Tests
use media_stream.Base.{
  ℕ, ◌+◌, String, Bool, true, false, Option, none, some, List, [], ◌∷◌, str_eq, not, map,
  if◌then◌else◌, length, get_elem?, Result, ok, err,
}
use media_stream.GoMap
use media_stream.Core.Stream.{Stream}
use media_stream.Core.StreamManager.{StreamManager, create_stream, get_stream, remove_stream}
use media_stream.Database.{StreamRow, SqlEngine, DbError, create, find, list_all, modify, erase}
use media_stream.App.{App, AppError, start_on_demand_stream, stop_stream}
use media_stream.Api.PathsHandler.{
  HttpStatus, http_ok, http_created, http_bad_request, http_not_found, http_internal_error,
}

-- The body of a request to handlePathAdd.
pub record PathRequest : Type 0 where
  pub source : String
  pub source_on_demand : Bool
  pub rtsp_transport : String

-- "runtime_info" of a response.
pub record RuntimeInfo : Type 0 where
  pub codec : String
  pub subscriber_count : ℕ
  pub packets_received : ℕ
  pub packets_sent : ℕ
  pub bytes_received : ℕ
  pub bytes_sent : ℕ

abbrev stream_info : Stream → RuntimeInfo
stream_info s = record {
  codec = s.video_codec;
  subscriber_count = GoMap.size s.subscribers;
  packets_received = s.packets_received;
  packets_sent = s.packets_sent;
  bytes_received = s.bytes_received;
  bytes_sent = s.bytes_sent;
}

unfoldable pub runtime_info : StreamManager → String → Option RuntimeInfo
unfolding get_stream
runtime_info m id = elim (get_stream m id) [
  | err e ↦ none
  | ok r ↦ elim (get_elem? m.heap r) [ none ↦ none | some s ↦ some (stream_info s) ]
]

-- What handleCreateStream fills in.
abbrev pub with_defaults : StreamRow → StreamRow
with_defaults r = record r {
  id = if str_eq r.id "" then r.name else r.id;
  rtsp_transport = if str_eq r.rtsp_transport "" then "tcp" else r.rtsp_transport;
}

-- The row that handlePathAdd creates; Create sets its times.
abbrev pub path_row : String → PathRequest → StreamRow
path_row name r = record {
  id = name;
  name = name;
  source = r.source;
  source_on_demand = r.source_on_demand;
  rtsp_transport = if str_eq r.rtsp_transport "" then "tcp" else r.rtsp_transport;
  created_at = 0;
  updated_at = 0;
}

-- A stream of the list, with what runs under its id.
abbrev row_info : StreamManager → StreamRow → StreamRow × Option RuntimeInfo
row_info m r = (r, runtime_info m r.id)

-- The manager after a CreateStream whose error is only logged.
unfoldable pub ensure_stream : StreamManager → String → String → StreamManager
ensure_stream m id name = elim (create_stream m id name) [ err e ↦ m | ok (m', r) ↦ m' ]

module _ {S : Type 0} where
  -- The state after a step whose error is only logged.
  unfoldable pub attempted : App S → Result AppError (App S) → App S
  attempted app (err e) = app
  attempted app (ok app') = app'

  -- The end of handleDeleteStream; `none` is a panic.
  unfoldable pub remove_managed : App S → String → Option (App S)
  unfolding remove_stream
  remove_managed app id = elim (remove_stream app.stream_manager id) [
    | none ↦ none
    | some (err e) ↦ some app
    | some (ok m) ↦ some (record app { stream_manager = m })
  ]

module _ {S : Type 0} (E : SqlEngine S) (url_ok : String → Bool) where
  -- The start of a stream that is not on demand.
  unfoldable pub start_always_on : App S → StreamRow → App S
  unfolding start_on_demand_stream attempted
  start_always_on app r =
      if r.source_on_demand then app else attempted app (start_on_demand_stream E url_ok app r.id)

  unfoldable pub handle_create_stream : App S → Option StreamRow → ℕ → App S × HttpStatus
  unfolding create ensure_stream start_always_on
  handle_create_stream app none now = (app, http_bad_request)
  handle_create_stream app (some body) now =
      let r = with_defaults body in
      elim (create E app.db r now) [
        | err e ↦ (app, http_internal_error)
        | ok s ↦ (
          start_always_on
              (record app { db = s; stream_manager = ensure_stream app.stream_manager r.id r.name })
              r,
          http_created,
        )
      ]

  unfoldable pub handle_list_streams : App S → HttpStatus × List (StreamRow × Option RuntimeInfo)
  unfolding list_all runtime_info
  handle_list_streams app = elim (list_all E app.db) [
    | err e ↦ (http_internal_error, [])
    | ok rows ↦ (http_ok, map (row_info app.stream_manager) rows)
  ]

  unfoldable pub handle_get_stream :
      App S → String → HttpStatus × Option (StreamRow × Option RuntimeInfo)
  unfolding find runtime_info
  handle_get_stream app id = elim (find E app.db id) [
    | err e ↦ (http_not_found, none)
    | ok r ↦ (http_ok, some (r, runtime_info app.stream_manager id))
  ]

  unfoldable pub handle_update_stream : App S → String → Option StreamRow → ℕ → App S × HttpStatus
  unfolding modify stop_stream attempted start_always_on
  handle_update_stream app id none now = (app, http_bad_request)
  handle_update_stream app id (some body) now =
      let r : StreamRow = record body { id = id } in
      elim (modify E app.db r now) [
        | err e ↦ (app, http_internal_error)
        | ok s ↦
            (let updated = record app { db = s } in
              (start_always_on (attempted updated (stop_stream updated id)) r, http_ok))
      ]

  -- handleDeleteStream up to its RemoveStream.
  unfoldable pub delete_begin : App S → String → Result DbError (App S)
  unfolding erase stop_stream attempted
  delete_begin app id = elim (erase E app.db id) [
    | err e ↦ err e
    | ok s ↦
        (let deleted = record app { db = s } in ok (attempted deleted (stop_stream deleted id)))
  ]

  unfoldable pub handle_delete_stream : App S → String → Option (App S × HttpStatus)
  unfolding delete_begin remove_managed
  handle_delete_stream app id = elim (delete_begin app id) [
    | err e ↦ some (app, http_internal_error)
    | ok stopped ↦ elim (remove_managed stopped id) [
      | none ↦ none
      | some app' ↦ some (app', http_ok)
    ]
  ]

  unfoldable pub handle_start_stream : App S → String → App S × HttpStatus
  unfolding start_on_demand_stream
  handle_start_stream app id = elim (start_on_demand_stream E url_ok app id) [
    | err e ↦ (app, http_internal_error)
    | ok app' ↦ (app', http_ok)
  ]

  -- handlePathsList: the names and the sources.
  unfoldable pub handle_paths_list : App S → HttpStatus × List (String × String)
  unfolding list_all
  handle_paths_list app = elim (list_all E app.db) [
    | err e ↦ (http_internal_error, [])
    | ok rows ↦ (http_ok, map (λ r. (r.id, r.source)) rows)
  ]

  unfoldable pub handle_path_add : App S → String → Option PathRequest → ℕ → App S × HttpStatus
  unfolding create
  handle_path_add app name none now = (app, http_bad_request)
  handle_path_add app name (some body) now = elim (create E app.db (path_row name body) now) [
    | err e ↦ (app, http_internal_error)
    | ok s ↦ (record app { db = s }, http_ok)
  ]

  unfoldable pub handle_path_delete : App S → String → App S × HttpStatus
  unfolding erase
  handle_path_delete app name = elim (erase E app.db name) [
    | err e ↦ (app, http_internal_error)
    | ok s ↦ (record app { db = s }, http_ok)
  ]
