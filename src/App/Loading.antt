-- ===== src/App/Loading.antt =====
-- The start and the end of the application: loadStreamsFromConfigAndDB and cleanup of
-- go-legacy/cmd/server/main.go.
use media_stream.Base.{
  ℕ, ◌+◌, String, Bool, true, false, Option, none, some, List, [], ◌∷◌, if◌then◌else◌, Result, ok,
  err,
}
use media_stream.Core.StreamManager.{create_stream, close_manager}
use media_stream.Core.ConfigStore.{PathConfig}
use media_stream.Database.{StreamRow, SqlEngine, DbError, create, find, list_all}
use media_stream.Rtsp.Client.{Client}
use media_stream.Process.{stop_all}
use media_stream.Webrtc.Peers.{close_peer_manager}
use media_stream.App.{App, AppError, row_config, start_rtsp_client, stop_at}

-- The row of a path of config.yaml; Create sets its times.
abbrev pub config_row : String → PathConfig → StreamRow
config_row id c = record {
  id = id;
  name = id;
  source = c.source;
  source_on_demand = c.source_on_demand;
  rtsp_transport = c.rtsp_transport;
  created_at = 0;
  updated_at = 0;
}

module _ {S : Type 0} (E : SqlEngine S) where
  -- One path: its row is created if Get does not find one. An error of Create is only logged.
  unfoldable pub sync_path : S → String → PathConfig → ℕ → S
  unfolding find create
  sync_path s id c now = elim (find E s id) [
    | ok existing ↦ s
    | err missing ↦ elim (create E s (config_row id c) now) [ err e ↦ s | ok s' ↦ s' ]
  ]

  -- The loop over config.Paths.
  unfoldable pub sync_paths : S → List (String × PathConfig) → ℕ → S
  unfolding sync_path
  sync_paths s [] now = s
  sync_paths s ((id, c) ∷ rest) now = sync_paths (sync_path s id c now) rest now

module _ {S : Type 0} (url_ok : String → Bool) where
  -- One row: the application, and whether the row counts as loaded.
  unfoldable pub load_started : App S → Result AppError (App S) → App S × Bool
  load_started app (err e) = (app, false)
  load_started app (ok app') = (app', true)

  unfoldable pub load_row : App S → StreamRow → App S × Bool
  unfolding start_rtsp_client load_started
  load_row app r = elim (create_stream app.stream_manager r.id r.name) [
    | err e ↦ (app, false)
    | ok (m, stream) ↦
        (let with = record app { stream_manager = m } in
          if r.source_on_demand
          then (with, true)
          else load_started with (start_rtsp_client with r.id (row_config r) url_ok))
  ]

  -- The loop over the rows, and the number loaded.
  unfoldable pub load_rows : App S → List StreamRow → ℕ → App S × ℕ
  unfolding load_row
  load_rows app [] loaded = (app, loaded)
  load_rows app (r ∷ rows) loaded =
      let next = load_row app r in load_rows next.0 rows (if next.1 then loaded + 1 else loaded)

module _ {S : Type 0} (E : SqlEngine S) (url_ok : String → Bool) where
  -- loadStreamsFromConfigAndDB
  unfoldable pub load_streams : App S → ℕ → App S × Result DbError ℕ
  unfolding sync_paths list_all load_rows
  load_streams app now =
      let synced = record app { db = sync_paths E app.db app.paths.entries now } in
      elim (list_all E synced.db) [
        | err e ↦ (synced, err e)
        | ok rows ↦ (let loaded = load_rows url_ok synced rows 0 in (loaded.0, ok loaded.1))
      ]

unfoldable pub stop_clients : List (String × ℕ) → List Client → List Client
unfolding stop_at
stop_clients [] clients = clients
stop_clients ((id, r) ∷ rest) clients = stop_clients rest (stop_at clients r)

-- cleanup, but for the two servers and the connection of the database; `none` is a panic. The
-- callbacks of the peers that it closes are steps of their own.
unfoldable pub cleanup : {S : Type 0} → App S → Option (App S)
unfolding stop_all stop_clients close_peer_manager close_manager
cleanup app = elim (close_manager app.stream_manager) [
  | none ↦ none
  | some m ↦ some (record app {
    process_manager = stop_all app.process_manager;
    clients = stop_clients app.rtsp_clients.entries app.clients;
    webrtc_manager = close_peer_manager app.webrtc_manager;
    stream_manager = m;
  })
]
