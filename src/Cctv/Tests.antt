-- ===== src/Cctv/Tests.antt =====
-- The theorems on the camera API, with a server of two cameras of one name.
use media_stream.Base.{◌≡◌, refl, String, true, none, some, List, [], ◌∷◌, str_eq, if◌then◌else◌}
use media_stream.Base.Int.{pos}
use media_stream.GoMap
use media_stream.GoMap.{GoMap}
use media_stream.Cctv.ApiClient.{
  ApiClient, CctvInfo, Server, Json, answered, new_api_client, sign_in, accept_sign_in,
  read_sign_in, signed_in, list_cctvs, cctvs_answered, decode_cctvs,
}
use media_stream.Cctv.Manager.{
  new_cctv_manager, CctvManager, start_cctvs, manual_sync, get_cctv, authenticate, fetch_cctvs,
  wrap_fetch, add_cctvs,
}
use media_stream.Cctv.Manager.Syncing.{Synced, manual_sync-Synced}

abbrev two_gates : List CctvInfo
two_gates =
    record { name = "gate"; url = "rtsp://10.0.0.5/live" }
    ∷ record { name = "gate"; url = "rtsp://10.0.0.6/live" }
    ∷ []

-- The bodies of the server, and what they hold.
abbrev camera_json : Json
camera_json = record {
  read_tokens = λ (body : String). if str_eq body "tokens" then some ("t1", "r1") else none;
  read_sync = λ (body : String). if str_eq body "sync" then some ("completed", "") else none;
  read_array = λ (body : String). if str_eq body "cameras" then some two_gates else none;
  read_object = λ (body : String). none;
}

abbrev says : String → Server
says body request = answered (record { status = 200; cookies = []; body = some body })

abbrev known_client : ApiClient
known_client = record {
  base_url = "http://api";
  timeout = pos 30_000_000_000;
  access_token = "t0";
  refresh_token = "r0";
  cookies = [];
}

-- An empty answer after a wrong password passes, with the token of before.
old_token :
    sign_in camera_json (says "") known_client "user" "wrong"
    ≡ (record known_client { cookies = [] }, none)
unfolding sign_in accept_sign_in read_sign_in signed_in
old_token = refl

abbrev new_cameras : CctvManager
new_cameras = new_cctv_manager "http://api" "user" "secret" (pos 0)

manual_sync-Synced_example :
    Synced camera_json
      (says "cameras")
      new_cameras
      (start_cctvs camera_json (says "tokens") (says "cameras") new_cameras)
    × Synced camera_json
        (says "cameras")
        new_cameras
        (manual_sync camera_json (says "tokens") (says "cameras") (says "cameras") new_cameras)
manual_sync-Synced_example =
    manual_sync-Synced camera_json (says "tokens") (says "cameras") (says "cameras") new_cameras

-- The start keeps the second camera of the name.
second_gate :
    get_cctv (start_cctvs camera_json (says "tokens") (says "cameras") new_cameras).0 "gate"
    ≡ some (record {
      id = "gate";
      name = "gate";
      url = "rtsp://10.0.0.6/live";
      source_on_demand = true;
      rtsp_transport = "tcp";
    })
unfolding get_cctv start_cctvs authenticate fetch_cctvs wrap_fetch add_cctvs sign_in accept_sign_in
    read_sign_in signed_in list_cctvs cctvs_answered decode_cctvs new_cctv_manager new_api_client
    GoMap.get GoMap.put GoMap.without GoMap.lookup GoMap.empty
second_gate = refl
