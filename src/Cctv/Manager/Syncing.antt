-- ===== src/Cctv/Manager/Syncing.antt =====
-- What a sync leaves in the manager, and what a failed one does.
use media_stream.Base.{
  ◌≡◌, refl, ap, ◌∙◌, String, true, false, Option, none, some, List, [], ◌∷◌, arith, str_eq,
  map_some, if◌then◌else◌, Result, ok, err, inl, inr, Option-cases, Result-cases,
}
use media_stream.GoMap
use media_stream.GoMap.{GoMap, get-put, get-empty}
use media_stream.Core.ConfigStore.{PathConfig}
use media_stream.Cctv.ApiClient.{
  ApiClient, CctvInfo, Server, Json, ApiError, sync_cctvs, list_cctvs, is_authenticated,
}
use media_stream.Cctv.Manager.{
  CctvStream, CctvManager, CctvError, authenticate, cctv_stream, add_cctvs, fetch_cctvs, wrap_fetch,
  start_cctvs, sync_and_fetch, manual_sync, get_cctv, get_stream_config, authentication_failed,
  sync_failed, fetch_failed, cctv_not_found,
}

-- The last camera of that name.
abbrev pub last_named : String → List CctvInfo → Option CctvInfo
last_named k [] = none
last_named k (info ∷ infos) = elim (last_named k infos) [
  | some found ↦ some found
  | none ↦ if str_eq info.name k then some info else none
]

get-add_cctvs :
    (infos : List CctvInfo) (cctvs : GoMap CctvStream) (k : String)
    → GoMap.get (add_cctvs infos cctvs) k
      ≡ elim (last_named k infos) [ some info ↦ some (cctv_stream info) | none ↦ GoMap.get cctvs k ]
unfolding add_cctvs
get-add_cctvs [] cctvs k = refl
get-add_cctvs (info ∷ infos) cctvs k = ground (
  arith,
  get-add_cctvs infos (GoMap.put cctvs info.name (cctv_stream info)) k,
  get-put cctvs info.name k (cctv_stream info),
  Option-cases (last_named k infos),
)

-- The configuration of a camera, or the error where there is none.
abbrev pub camera_config : String → Option CctvInfo → Result CctvError PathConfig
camera_config id none = err (cctv_not_found id)
camera_config id (some info) = ok (record {
  source = info.url;
  source_on_demand = true;
  rtsp_transport = "tcp";
  run_on_demand = "";
  run_on_demand_restart = false;
  run_on_demand_close_after = "";
})

-- The manager has the cameras of the list, the last one of each name.
abbrev pub Lists : CctvManager → List CctvInfo → Type 0
Lists m infos =
    (k : String)
    → (get_cctv m k ≡ map_some cctv_stream (last_named k infos))
      × (get_stream_config m k ≡ camera_config k (last_named k infos))

fetched-Lists :
    (m : CctvManager) (infos : List CctvInfo)
    → Lists (record m { cctvs = add_cctvs infos GoMap.empty }) infos
unfolding get_cctv get_stream_config
fetched-Lists m infos k = (
  ground (
    arith,
    get-add_cctvs infos GoMap.empty k,
    get-empty {V = CctvStream} k,
    Option-cases (last_named k infos),
  ),
  ground (
    arith,
    get-add_cctvs infos GoMap.empty k,
    get-empty {V = CctvStream} k,
    Option-cases (last_named k infos),
  ),
)

-- What fetchCCTVs does: it fails and changes nothing, or lists the cameras.
pub data Fetched (json : Json) (server : Server) (m : CctvManager)
    : CctvManager × Option ApiError → Type 0 where
  kept : (e : ApiError) → Fetched json server m (m, some e)
  listed :
      (m' : CctvManager) (infos : List CctvInfo)
      → list_cctvs json server m.api_client ≡ ok infos
      → m'.api_client ≡ m.api_client
      → Lists m' infos
      → Fetched json server m (m', none)

fetch_cctvs-Fetched :
    (json : Json) (server : Server) (m : CctvManager)
    → Fetched json server m (fetch_cctvs json server m)
unfolding fetch_cctvs
fetch_cctvs-Fetched json server m = elim (Result-cases (list_cctvs json server m.api_client)) [
  | inl (e, h) ↦ rw (h, fetch_cctvs) (kept e)
  | inr (infos, h) ↦ rw (h, fetch_cctvs) (listed _ infos h refl (fetched-Lists m infos))
]

-- What a start or a manual sync does: it fails and the cameras are those of before, or the list of
-- the server is read and kept.
pub data Synced (json : Json) (server : Server) (m : CctvManager)
    : CctvManager × Option CctvError → Type 0 where
  unchanged :
      (m' : CctvManager) (e : CctvError) → m'.cctvs ≡ m.cctvs → Synced json server m (m', some e)
  renewed :
      (m' : CctvManager) (infos : List CctvInfo)
      → is_authenticated m'.api_client ≡ true
      → list_cctvs json server m'.api_client ≡ ok infos
      → Lists m' infos
      → Synced json server m (m', none)

listed-is_authenticated :
    (json : Json) (server : Server) (c : ApiClient) (infos : List CctvInfo)
    → list_cctvs json server c ≡ ok infos
    → is_authenticated c ≡ true
unfolding list_cctvs
listed-is_authenticated json server c infos h = ground (arith, h)

wrap_fetch-Synced :
    (json : Json) (server : Server) (m m1 : CctvManager) (r : CctvManager × Option ApiError)
    → m1.cctvs ≡ m.cctvs
    → Fetched json server m1 r
    → Synced json server m (wrap_fetch r)
unfolding wrap_fetch
wrap_fetch-Synced json server m m1 (_, _) s (kept e) = unchanged m1 (fetch_failed e) s
wrap_fetch-Synced json server m m1 (_, _) s (listed m' infos h same l) =
    let here : list_cctvs json server m'.api_client ≡ ok infos =
      ap (list_cctvs json server) same ∙ h in
    renewed m' infos (listed-is_authenticated json server m'.api_client infos here) here l

cctvs-authenticate :
    (json : Json) (server : Server) (m : CctvManager)
    → (authenticate json server m).0.cctvs ≡ m.cctvs
unfolding authenticate
cctvs-authenticate json server m = refl

sync_and_fetch-Synced :
    (json : Json) (server1 server2 : Server) (m m1 : CctvManager)
    → m1.cctvs ≡ m.cctvs
    → Synced json server2 m (sync_and_fetch json server1 server2 m1)
unfolding sync_and_fetch
sync_and_fetch-Synced json server1 server2 m m1 s =
    elim (Option-cases (sync_cctvs json server1 m1.api_client)) [
      | inr (e, h) ↦ rw (h, sync_and_fetch) (unchanged m1 (sync_failed e) s)
      | inl h ↦
          rw (h, sync_and_fetch)
            (wrap_fetch-Synced json server2 m m1 (fetch_cctvs json server2 m1) s
              (fetch_cctvs-Fetched json server2 m1))
    ]

-- Start and ManualSync, whatever the server answers to their requests: if they fail, the cameras
-- are those of before. If they return nil, the client is
-- authenticated, the last request got a list of cameras that could be read, and of every name the
-- manager has the last camera of the list, on demand and over TCP, and no other camera.
pub manual_sync-Synced :
    (json : Json) (server1 server2 server3 : Server) (m : CctvManager)
    → Synced json server2 m (start_cctvs json server1 server2 m)
      × Synced json server3 m (manual_sync json server1 server2 server3 m)
unfolding start_cctvs manual_sync
manual_sync-Synced json server1 server2 server3 m =
    let m1 = (authenticate json server1 m).0 in
    let same = cctvs-authenticate json server1 m in
    elim (Option-cases (authenticate json server1 m).1) [
      | inr (e, h) ↦
          rw (h, start_cctvs, manual_sync)
            (
              unchanged m1 (authentication_failed e) same,
              unchanged m1 (authentication_failed e) same,
            )
      | inl h ↦
          rw (h, start_cctvs, manual_sync)
            (
              wrap_fetch-Synced json server2 m m1 (fetch_cctvs json server2 m1) same
                  (fetch_cctvs-Fetched json server2 m1),
              sync_and_fetch-Synced json server2 server3 m m1 same,
            )
    ]
