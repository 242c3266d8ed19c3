-- ===== src/Cctv/Manager.antt =====
-- CCTVManager of go-legacy/internal/cctv/manager.go. The contexts and timeouts of its requests are
-- part of what the server does with them, an argument; maskURL only serves a log line.
pub mod Syncing
use media_stream.Base.{
  ℕ, ◌≡◌, String, Bool, true, false, Option, none, some, List, [], ◌∷◌, if◌then◌else◌, Result, ok,
  err,
}
use media_stream.Base.Int.{ℤ, pos, eq_ℤ}
use media_stream.GoMap
use media_stream.GoMap.{GoMap}
use media_stream.Core.ConfigStore.{PathConfig}
use media_stream.App.{seconds}
use media_stream.Cctv.ApiClient.{
  ApiClient, CctvInfo, Server, Json, ApiError, new_api_client, set_request_timeout, sign_in,
  sync_cctvs, list_cctvs,
}

pub record CctvStream : Type 0 where
  pub id : String
  pub name : String
  pub url : String
  pub source_on_demand : Bool
  pub rtsp_transport : String

pub record CctvManager : Type 0 where
  pub api_client : ApiClient
  pub username : String
  pub password : String
  pub request_timeout_sec : ℤ
  pub cctvs : GoMap CctvStream
  pub ctx_done : Bool

pub data CctvError : Type 0 where
  authentication_failed sync_failed fetch_failed : ApiError → CctvError
  cctv_not_found : String → CctvError

-- NewCCTVManager
unfoldable pub new_cctv_manager : String → String → String → ℤ → CctvManager
unfolding GoMap.empty new_api_client seconds
new_cctv_manager api_url username password timeout_sec =
    let timeout = if eq_ℤ timeout_sec (pos 0) then pos 30 else timeout_sec in
    record {
      api_client = set_request_timeout (new_api_client api_url) (seconds timeout);
      username = username;
      password = password;
      request_timeout_sec = timeout;
      cctvs = GoMap.empty;
      ctx_done = false;
    }

-- CCTVManager.Stop
abbrev pub stop_cctv_manager : CctvManager → CctvManager
stop_cctv_manager m = record m { ctx_done = true }

unfoldable pub authenticate : Json → Server → CctvManager → CctvManager × Option ApiError
unfolding sign_in
authenticate json server m =
    let (c, failure) = sign_in json server m.api_client m.username m.password in
    (record m { api_client = c }, failure)

abbrev pub cctv_stream : CctvInfo → CctvStream
cctv_stream info = record {
  id = info.name;
  name = info.name;
  url = info.url;
  source_on_demand = true;
  rtsp_transport = "tcp";
}

unfoldable pub add_cctvs : List CctvInfo → GoMap CctvStream → GoMap CctvStream
unfolding GoMap.put
add_cctvs [] cctvs = cctvs
add_cctvs (info ∷ infos) cctvs = add_cctvs infos (GoMap.put cctvs info.name (cctv_stream info))

unfoldable pub fetch_cctvs : Json → Server → CctvManager → CctvManager × Option ApiError
unfolding list_cctvs add_cctvs GoMap.empty
fetch_cctvs json server m = elim (list_cctvs json server m.api_client) [
  | err e ↦ (m, some e)
  | ok infos ↦ (record m { cctvs = add_cctvs infos GoMap.empty }, none)
]

-- The error of fetchCCTVs as its callers return it.
unfoldable pub wrap_fetch : CctvManager × Option ApiError → CctvManager × Option CctvError
wrap_fetch (m, some e) = (m, some (fetch_failed e))
wrap_fetch (m, none) = (m, none)

-- CCTVManager.Start; the server may have changed between the requests.
unfoldable pub start_cctvs : Json → Server → Server → CctvManager → CctvManager × Option CctvError
unfolding authenticate fetch_cctvs wrap_fetch
start_cctvs json server1 server2 m =
    let (m1, failure1) = authenticate json server1 m in
    elim failure1 [
      | some e ↦ (m1, some (authentication_failed e))
      | none ↦ wrap_fetch (fetch_cctvs json server2 m1)
    ]

-- ManualSync, after the authentication.
unfoldable pub sync_and_fetch :
    Json → Server → Server → CctvManager → CctvManager × Option CctvError
unfolding sync_cctvs fetch_cctvs wrap_fetch
sync_and_fetch json server1 server2 m = elim (sync_cctvs json server1 m.api_client) [
  | some e ↦ (m, some (sync_failed e))
  | none ↦ wrap_fetch (fetch_cctvs json server2 m)
]

unfoldable pub manual_sync :
    Json → Server → Server → Server → CctvManager → CctvManager × Option CctvError
unfolding authenticate sync_and_fetch
manual_sync json server1 server2 server3 m =
    let (m1, failure1) = authenticate json server1 m in
    elim failure1 [
      | some e ↦ (m1, some (authentication_failed e))
      | none ↦ sync_and_fetch json server2 server3 m1
    ]

abbrev pub get_cctvs : CctvManager → GoMap CctvStream
get_cctvs m = m.cctvs

unfoldable pub get_cctv : CctvManager → String → Option CctvStream
unfolding GoMap.get
get_cctv m id = GoMap.get m.cctvs id

unfoldable pub get_stream_config : CctvManager → String → Result CctvError PathConfig
unfolding GoMap.get
get_stream_config m id = elim (GoMap.get m.cctvs id) [
  | none ↦ err (cctv_not_found id)
  | some cctv ↦ ok (record {
    source = cctv.url;
    source_on_demand = cctv.source_on_demand;
    rtsp_transport = cctv.rtsp_transport;
    run_on_demand = "";
    run_on_demand_restart = false;
    run_on_demand_close_after = "";
  })
]
