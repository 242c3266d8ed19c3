-- ===== src/App.antt =====
-- The `Application` of go-legacy/cmd/server/main.go: the managers, the repository and the RTSP
-- clients that it runs. Clients live on a heap: the map, and the goroutine of each client, hold a
-- pointer. Calls of the HLS manager are left out: their outcome is only logged.
pub mod Loading
pub mod Offers
pub mod Answering
pub mod Running
pub mod Stopping
pub mod Reading
pub mod Loaded
pub mod Relay
pub mod Startup
pub mod Masking
pub mod Fixtures
pub mod Tests
pub mod Changes
pub mod Waiting
pub mod PeerOrder
use media_stream.Base.{
  ℕ, ◌+◌, ◌-◌, ◌*◌, ◌^◌, ◌%◌, suc, String, Bool, true, false, Option, none, some, List, [], ◌∷◌,
  ◌++◌, str_eq, ltb, if◌then◌else◌, length, get_elem?, set, Result, ok, err,
}
use media_stream.Base.Int.{ℤ, pos, negsuc}
use media_stream.GoMap
use media_stream.GoMap.{GoMap}
use media_stream.Core.Stream.{Stream}
use media_stream.Core.StreamManager.{StreamManager, new_stream_manager, create_stream, get_stream}
use media_stream.Core.ConfigStore.{PathConfig}
use media_stream.Database.{StreamRow, SqlEngine, DbError, find}
use media_stream.Rtsp.Client.{ClientConfig, Client, new_client, stop_client}
use media_stream.Process.{Manager, new_manager, is_running, stop}
use media_stream.Webrtc.Peers.{PeerManager, new_peer_manager}

-- `paths` and the three numbers are of `config`: its Paths and its RTSP.Client.
pub record App (S : Type 0) : Type 0 where
  pub paths : GoMap PathConfig
  pub timeout : ℤ
  pub retry_count : ℤ
  pub retry_delay : ℤ
  pub stream_manager : StreamManager
  pub webrtc_manager : PeerManager
  pub process_manager : Manager
  pub db : S
  pub clients : List Client
  pub rtsp_clients : GoMap ℕ
  pub peer_streams : GoMap String

pub data AppError : Type 0 where
  stream_missing : String → AppError
  stream_not_created : String → AppError
  no_config : DbError → AppError
  client_failed : String → AppError
  process_not_stopped : String → AppError
  not_running : String → AppError

-- Two's complement of 64 bits.
abbrev pub int64 : ℕ → ℤ
int64 n = let m = n % 2 ^ 64 in if ltb m (2 ^ 63) then pos m else negsuc (2 ^ 64 - 1 - m)

-- time.Duration(n) * time.Second
unfoldable pub seconds : ℤ → ℤ
seconds (pos n) = int64 (n * 1_000_000_000)
seconds (negsuc n) = int64 (2 ^ 64 - (suc n * 1_000_000_000) % 2 ^ 64)

-- core.PathConfig of a row.
abbrev pub row_config : StreamRow → PathConfig
row_config r = record {
  source = r.source;
  source_on_demand = r.source_on_demand;
  rtsp_transport = r.rtsp_transport;
  run_on_demand = "";
  run_on_demand_restart = false;
  run_on_demand_close_after = "";
}

-- The managers that initializeApplication makes; `max_peers` is of config.WebRTC.
unfoldable pub new_app : {S : Type 0} → GoMap PathConfig → ℤ → ℤ → ℤ → ℤ → ℤ → S → App S
unfolding new_stream_manager new_peer_manager new_manager GoMap.empty
new_app paths timeout retry_count retry_delay video_buffer_size max_peers db = record {
  paths = paths;
  timeout = timeout;
  retry_count = retry_count;
  retry_delay = retry_delay;
  stream_manager = new_stream_manager video_buffer_size;
  webrtc_manager = new_peer_manager max_peers;
  process_manager = new_manager;
  db = db;
  clients = [];
  rtsp_clients = GoMap.empty;
  peer_streams = GoMap.empty;
}

-- The context of the client that the pointer leads to is cancelled.
unfoldable pub stop_at : List Client → ℕ → List Client
unfolding stop_client
stop_at clients r = elim (get_elem? clients r) [
  | none ↦ clients
  | some c ↦ set clients r (stop_client c)
]

module _ {S : Type 0} where
  -- The client that createRTSPClient makes; `url_ok` says which URLs url.Parse takes.
  unfoldable pub make_client :
      App S → String → String → ℕ → (String → Bool) → Result AppError Client
  unfolding new_client seconds
  make_client app url transport stream url_ok =
      elim (new_client
        (record {
          url = url;
          transport = if str_eq transport "" then "tcp" else transport;
          timeout = seconds app.timeout;
          retry_count = app.retry_count;
          retry_delay = seconds app.retry_delay;
        })
        stream (url_ok url)) [ err e ↦ err (client_failed url) | ok c ↦ ok c ]

  -- createRTSPClient, and the entry of rtspClients that every caller makes of its result.
  unfoldable pub run_client :
      App S → String → String → String → ℕ → (String → Bool) → Result AppError (App S)
  unfolding make_client GoMap.put
  run_client app id url transport stream url_ok =
      elim (make_client app url transport stream url_ok) [
        | err e ↦ err e
        | ok c ↦ ok (record app {
          clients = app.clients ++ c ∷ [];
          rtsp_clients = GoMap.put app.rtsp_clients id (length app.clients);
        })
      ]

  -- startRTSPClient
  unfoldable pub start_rtsp_client :
      App S → String → PathConfig → (String → Bool) → Result AppError (App S)
  unfolding run_client
  start_rtsp_client app id config url_ok = elim (get_stream app.stream_manager id) [
    | err e ↦ err (stream_missing id)
    | ok stream ↦ run_client app id config.source config.rtsp_transport stream url_ok
  ]

  -- The result of addStream: it keeps the stream when the client fails.
  unfoldable pub kept_stream : App S → Result AppError (App S) → App S × Option AppError
  kept_stream app (err e) = (app, some e)
  kept_stream app (ok app') = (app', none)

  -- addStream
  unfoldable pub add_stream : App S → String → String → (String → Bool) → App S × Option AppError
  unfolding run_client kept_stream
  add_stream app id url url_ok = elim (create_stream app.stream_manager id id) [
    | err e ↦ (app, some (stream_not_created id))
    | ok (m, stream) ↦
        (let with = record app { stream_manager = m } in
          kept_stream with (run_client with id url "tcp" stream url_ok))
  ]

  -- stopStream
  unfoldable pub stop_stream : App S → String → Result AppError (App S)
  unfolding is_running stop stop_at GoMap.get GoMap.remove
  stop_stream app id =
      if is_running app.process_manager id
      then elim (stop app.process_manager id) [
        | err e ↦ err (process_not_stopped id)
        | ok m ↦ ok (record app { process_manager = m })
      ]
      else elim (GoMap.get app.rtsp_clients id) [
        | none ↦ err (not_running id)
        | some r ↦ ok (record app {
          clients = stop_at app.clients r;
          rtsp_clients = GoMap.remove app.rtsp_clients id;
        })
      ]

module _ {S : Type 0} (E : SqlEngine S) (url_ok : String → Bool) where
  -- The configuration that startOnDemandStream takes: config.yaml's, or else the row's.
  unfoldable pub on_demand_config : App S → String → Result AppError PathConfig
  unfolding GoMap.get find
  on_demand_config app id = elim (GoMap.get app.paths id) [
    | some config ↦ ok config
    | none ↦ elim (find E app.db id) [ err e ↦ err (no_config e) | ok r ↦ ok (row_config r) ]
  ]

  -- startOnDemandStream of an id that has no client.
  unfoldable pub start_absent : App S → String → Result AppError (App S)
  unfolding on_demand_config run_client
  start_absent app id = elim (get_stream app.stream_manager id) [
    | err e ↦ err (stream_missing id)
    | ok stream ↦ elim (on_demand_config app id) [
      | err e ↦ err e
      | ok config ↦ run_client app id config.source config.rtsp_transport stream url_ok
    ]
  ]

  -- startOnDemandStream
  unfoldable pub start_on_demand_stream : App S → String → Result AppError (App S)
  unfolding start_absent GoMap.get
  start_on_demand_stream app id =
      if GoMap.contains app.rtsp_clients id then ok app else start_absent app id
