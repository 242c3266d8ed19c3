-- ===== src/Core/StoreTests.antt =====
-- The theorems on the stream manager, the path store and the configuration, at concrete values.
use media_stream.Base.{
  ℕ, ◌≡◌, ◌≢◌, ◌↔◌, refl, String, true, false, none, some, List, [], ◌∷◌, arith, ok, err, get_elem?,
  if◌then◌else◌, str_eq, map_some, eq_iff, subst, Bool-cases, inl, inr,
}
use media_stream.Base.Int.{pos}
use media_stream.GoMap
use media_stream.GoMap.{GoMap}
use media_stream.Core.Stream.{
  Packet, Stream, selecting, new_stream, write_packet, panics, rejected, stream_closed,
}
use media_stream.Core.StreamManager.{
  StreamManager, stream_not_found, create_stream, get_stream, remove_stream, close_manager,
}
use media_stream.Core.StreamManager.Laws.{Managed, IsValid, create_stream-new, remove_stream-shut}
use media_stream.Core.StreamManager.Shutdown.{close_manager-panics}
use media_stream.Core.ConfigStore.{
  PathConfig, absent, ConfigStore, get_path, validate_path_config, new_config_store,
}
use media_stream.Core.ConfigStore.Yaml.{
  Request, adds, deletes, updates, serve_one, serve, serve-yaml,
}
use media_stream.Core.ConfigStore.Restart.{reread, restart-durable}
use media_stream.Core.Config.{Config, zero_config, parsed, set_defaults, load_config}
use media_stream.Core.Config.Accepted.{IsAccepted, load_config-IsAccepted}

abbrev cam : Stream
cam = record {
  id = "cam";
  name = "cam";
  video_codec = "";
  subscribers = record { entries = [] };
  workers = [];
  packets_received = 0;
  packets_sent = 0;
  bytes_received = 0;
  bytes_sent = 0;
  packet_buffer = record { cap = 500; items = []; closed = false };
  closed = false;
  distributor = selecting;
}

abbrev one_camera : StreamManager
one_camera = record {
  heap = cam ∷ [];
  streams = record { entries = ("cam", 0) ∷ [] };
  video_buffer_size = 500;
  ctx_done = false;
}

one_camera-IsValid : IsValid one_camera
unfolding GoMap.get GoMap.lookup
one_camera-IsValid = record {
  distinct = (refl, tt);
  managed = λ id r e. elim (Bool-cases (str_eq "cam" id)) [
    | inl q ↦
        let first : ◌≡◌ {A = ℕ} 0 r = ground arith in
        subst (λ j. Managed (cam ∷ []) j r) ((eq_iff "cam" id).0 q)
          (subst (Managed (cam ∷ []) "cam") first (record {
            stream = cam;
            at = refl;
            named = refl;
            not_closed = refl;
            buffer_open = refl;
          }))
    | inr q ↦ absurd (ground arith)
  ];
}

create_stream-new_example :
    (m' : StreamManager) × (r : ℕ) × (create_stream one_camera "gate" "gate" ≡ ok (m', r))
    × IsValid m'
    × (get_elem? m'.heap r ≡ some (new_stream "gate" "gate" 500))
    × ((k : String) → get_stream m' k ≡ (if str_eq "gate" k then ok r else get_stream one_camera k))
    × ((i : ℕ) (s : Stream) → get_elem? one_camera.heap i ≡ some s → get_elem? m'.heap i ≡ some s)
unfolding GoMap.get
create_stream-new_example = create_stream-new one_camera "gate" "gate" one_camera-IsValid refl

remove_stream-shut_example :
    (m' : StreamManager) × (s : Stream) × (remove_stream one_camera "cam" ≡ some (ok m'))
    × IsValid m'
    × ((k : String)
        → get_stream m' k
          ≡ (if str_eq "cam" k then err (stream_not_found k) else get_stream one_camera k))
    × (get_elem? m'.heap 0 ≡ some s)
    × ((p : Packet) → write_packet s p ≡ rejected stream_closed s)
    × ((i : ℕ) → 0 ≢ i → get_elem? m'.heap i ≡ get_elem? one_camera.heap i)
unfolding GoMap.get
remove_stream-shut_example = remove_stream-shut one_camera "cam" 0 one_camera-IsValid refl

close_manager-panics_example :
    (m' : StreamManager) × (close_manager one_camera ≡ some m')
    × ((k : String) → GoMap.get m'.streams k ≡ none)
    × ((k : String) (r : ℕ)
        → GoMap.get one_camera.streams k ≡ some r
        → (s : Stream) × (get_elem? m'.heap r ≡ some s)
          × ((p : Packet) → write_packet s p ≡ panics))
close_manager-panics_example = close_manager-panics one_camera one_camera-IsValid

abbrev from_source : PathConfig
from_source = record {
  source = "rtsp://10.0.0.1/a";
  source_on_demand = true;
  rtsp_transport = "tcp";
  run_on_demand = "";
  run_on_demand_restart = false;
  run_on_demand_close_after = "";
}

abbrev transcoded : PathConfig
transcoded = record {
  source = "";
  source_on_demand = false;
  rtsp_transport = "";
  run_on_demand = "ffmpeg";
  run_on_demand_restart = true;
  run_on_demand_close_after = "15s";
}

abbrev yaml_file : GoMap PathConfig
yaml_file = record { entries = ("gate", from_source) ∷ [] }

abbrev api_requests : List Request
api_requests =
    adds "gate" transcoded true
    ∷ deletes "gate" true
    ∷ updates "gate" transcoded true
    ∷ adds "hall" from_source false
    ∷ []

serve-yaml_example :
    get_path (serve (new_config_store yaml_file absent) api_requests) "gate" ≡ some from_source
unfolding GoMap.get
serve-yaml_example = serve-yaml yaml_file absent api_requests "gate" from_source refl

restart-durable_example :
    get_path
      (new_config_store yaml_file
        (serve_one
          (serve (new_config_store yaml_file absent) api_requests)
          (adds "yard" transcoded true)).0.file)
      "yard"
    ≡ (if GoMap.contains yaml_file "yard"
        then GoMap.get yaml_file "yard"
        else map_some reread (
            get_path
              (serve_one
                (serve (new_config_store yaml_file absent) api_requests)
                (adds "yard" transcoded true)).0
              "yard"))
unfolding serve serve_one new_config_store validate_path_config GoMap.get
restart-durable_example =
    restart-durable yaml_file absent api_requests (adds "yard" transcoded true) "yard" refl refl

abbrev small_store : ConfigStore
small_store = record { paths = yaml_file; yaml_paths = yaml_file; file = absent }

abbrev settings : Config
settings = record zero_config {
  server = record { http_port = pos 8080; ws_port = pos 8081; production = false };
  rtsp = record zero_config.rtsp {
    server = record zero_config.rtsp.server { enabled = true };
    pool = record { max_streams = pos 100; health_check_interval = pos 0 };
  };
  webrtc = record zero_config.webrtc {
    settings = record zero_config.webrtc.settings { max_peers = pos 100 };
  };
  hls = record zero_config.hls { enabled = true };
}

load_config-IsAccepted_example :
    (load_config (parsed settings) ≡ ok settings)
    ↔ ((settings ≡ set_defaults settings) × IsAccepted settings)
load_config-IsAccepted_example = load_config-IsAccepted settings settings
