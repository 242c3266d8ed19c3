-- ===== src/Core/Config.antt =====
-- LoadConfig, setDefaults and Validate of go-legacy/internal/core/config.go.
pub mod Accepted
use media_stream.Base.{
  String, Bool, true, false, ◌&&◌, ◌||◌, Option, none, some, List, [], str_eq, map_some,
  if◌then◌else◌, Result, ok, err,
}
use media_stream.Base.Int.{ℤ, pos, leb_ℤ, ltb_ℤ, eq_ℤ}
use media_stream.GoMap
use media_stream.GoMap.{GoMap}
use media_stream.Core.ConfigStore.{PathConfig}

pub record ServerConfig : Type 0 where
  pub http_port : ℤ
  pub ws_port : ℤ
  pub production : Bool

pub record ApiConfig : Type 0 where
  pub enabled : Bool
  pub base_url : String
  pub username : String
  pub password : String
  pub request_timeout_sec : ℤ
  pub on_demand_wait_sec : ℤ

pub record RtspServerConfig : Type 0 where
  pub enabled : Bool
  pub port : ℤ
  pub protocols : List String
  pub read_timeout : ℤ
  pub write_timeout : ℤ

pub record TestStreamConfig : Type 0 where
  pub url : String
  pub name : String

pub record RtspClientConfig : Type 0 where
  pub timeout : ℤ
  pub retry_count : ℤ
  pub retry_delay : ℤ
  pub tcp_transport : Bool
  pub on_demand_wait_sec : ℤ

pub record RtspPoolConfig : Type 0 where
  pub max_streams : ℤ
  pub health_check_interval : ℤ

pub record RtspConfig : Type 0 where
  pub server : RtspServerConfig
  pub test_stream : TestStreamConfig
  pub client : RtspClientConfig
  pub pool : RtspPoolConfig

pub record WebrtcSettings : Type 0 where
  pub max_peers : ℤ
  pub video_codecs : List String
  pub audio_codecs : List String

-- An ICEServerConfig is the list of its URLs.
pub record WebrtcConfig : Type 0 where
  pub ice_servers : List (List String)
  pub settings : WebrtcSettings

pub record HlsConfig : Type 0 where
  pub enabled : Bool
  pub segment_duration : ℤ
  pub segment_count : ℤ
  pub output_dir : String
  pub cleanup_threshold : ℤ
  pub enable_compression : Bool

-- MediaConfig, with BufferConfig and CodecConfig.
pub record MediaConfig : Type 0 where
  pub video_buffer_size : ℤ
  pub audio_buffer_size : ℤ
  pub h264_profile : String
  pub max_bitrate : ℤ

pub record LoggingConfig : Type 0 where
  pub level : String
  pub output : String
  pub file_path : String
  pub max_size : ℤ
  pub max_backups : ℤ
  pub max_age : ℤ

pub record MetricsConfig : Type 0 where
  pub enabled : Bool
  pub port : ℤ
  pub interval : ℤ

pub record PerformanceConfig : Type 0 where
  pub worker_pool_size : ℤ
  pub read_buffer_size : ℤ
  pub write_buffer_size : ℤ
  pub gc_percent : ℤ

pub record Config : Type 0 where
  pub server : ServerConfig
  pub database_path : String
  pub api : Option ApiConfig
  pub paths : GoMap PathConfig
  pub rtsp : RtspConfig
  pub webrtc : WebrtcConfig
  pub hls : HlsConfig
  pub media : MediaConfig
  pub logging : LoggingConfig
  pub metrics : MetricsConfig
  pub performance : PerformanceConfig

-- The zero value, which `var config Config` is.
abbrev pub zero_config : Config
zero_config = record {
  server = record { http_port = pos 0; ws_port = pos 0; production = false };
  database_path = "";
  api = none;
  paths = record { entries = [] };
  rtsp = record {
    server = record {
      enabled = false;
      port = pos 0;
      protocols = [];
      read_timeout = pos 0;
      write_timeout = pos 0;
    };
    test_stream = record { url = ""; name = "" };
    client = record {
      timeout = pos 0;
      retry_count = pos 0;
      retry_delay = pos 0;
      tcp_transport = false;
      on_demand_wait_sec = pos 0;
    };
    pool = record { max_streams = pos 0; health_check_interval = pos 0 };
  };
  webrtc = record {
    ice_servers = [];
    settings = record { max_peers = pos 0; video_codecs = []; audio_codecs = [] };
  };
  hls = record {
    enabled = false;
    segment_duration = pos 0;
    segment_count = pos 0;
    output_dir = "";
    cleanup_threshold = pos 0;
    enable_compression = false;
  };
  media = record {
    video_buffer_size = pos 0;
    audio_buffer_size = pos 0;
    h264_profile = "";
    max_bitrate = pos 0;
  };
  logging = record {
    level = "";
    output = "";
    file_path = "";
    max_size = pos 0;
    max_backups = pos 0;
    max_age = pos 0;
  };
  metrics = record { enabled = false; port = pos 0; interval = pos 0 };
  performance = record {
    worker_pool_size = pos 0;
    read_buffer_size = pos 0;
    write_buffer_size = pos 0;
    gc_percent = pos 0;
  };
}

pub data ConfigError : Type 0 where
  read_failed parse_failed : ConfigError
  invalid_http_port invalid_ws_port : ℤ → ConfigError
  max_streams_not_positive max_peers_not_positive : ConfigError
  segment_duration_not_positive segment_count_not_positive threshold_below_count : ConfigError

-- x == 0, and then the default
abbrev pub or_default : ℤ → ℤ → ℤ
or_default x d = if eq_ℤ x (pos 0) then d else x

abbrev pub or_default_text : String → String → String
or_default_text x d = if str_eq x "" then d else x

unfoldable pub api_defaults : ApiConfig → ApiConfig
api_defaults a =
    if a.enabled
    then record a {
      request_timeout_sec = or_default a.request_timeout_sec (pos 30);
      on_demand_wait_sec = or_default a.on_demand_wait_sec (pos 2);
    }
    else a

unfoldable pub hls_defaults : HlsConfig → HlsConfig
hls_defaults h = record h {
  segment_duration = or_default h.segment_duration (pos 2);
  segment_count = or_default h.segment_count (pos 10);
  output_dir = or_default_text h.output_dir "hls";
  cleanup_threshold = or_default h.cleanup_threshold (pos 20);
}

unfoldable pub set_defaults : Config → Config
unfolding api_defaults hls_defaults
set_defaults c = record c {
  database_path = or_default_text c.database_path "data/streams.db";
  api = map_some api_defaults c.api;
  rtsp = record c.rtsp {
    client = record c.rtsp.client {
      on_demand_wait_sec = or_default c.rtsp.client.on_demand_wait_sec (pos 2);
    };
  };
  hls = hls_defaults c.hls;
}

abbrev pub not_positive : ℤ → Bool
not_positive x = leb_ℤ x (pos 0)

unfoldable pub validate_hls : HlsConfig → Option ConfigError
validate_hls h =
    if h.enabled
    then (if not_positive h.segment_duration
        then some segment_duration_not_positive
        else if not_positive h.segment_count
        then some segment_count_not_positive
        else if ltb_ℤ h.cleanup_threshold h.segment_count
        then some threshold_below_count
        else none)
    else none

-- `none` is nil.
unfoldable pub validate : Config → Option ConfigError
validate c =
    if not_positive c.server.http_port || ltb_ℤ (pos 65535) c.server.http_port
    then some (invalid_http_port c.server.http_port)
    else if not_positive c.server.ws_port || ltb_ℤ (pos 65535) c.server.ws_port
    then some (invalid_ws_port c.server.ws_port)
    else if not_positive c.rtsp.pool.max_streams
    then some max_streams_not_positive
    else if not_positive c.webrtc.settings.max_peers
    then some max_peers_not_positive
    else validate_hls c.hls

-- What os.ReadFile and yaml.Unmarshal make of the file.
pub data ConfigFile : Type 0 where
  unreadable malformed : ConfigFile
  parsed : Config → ConfigFile

unfoldable pub load_parsed : Config → Result ConfigError Config
load_parsed c = elim (validate c) [ none ↦ ok c | some e ↦ err e ]

unfoldable pub load_config : ConfigFile → Result ConfigError Config
unfolding set_defaults validate validate_hls load_parsed
load_config unreadable = err read_failed
load_config malformed = err parse_failed
load_config (parsed c) = load_parsed (set_defaults c)
