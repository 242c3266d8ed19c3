-- ===== src/App/Startup/Tests.antt =====
-- A start with an empty database, where the HTTP port is taken.
use media_stream.Base.{true, false}
use media_stream.Base.Int.{pos}
use media_stream.Core.Config.{Config, zero_config, parsed}
use media_stream.Database.Table.{table}
use media_stream.App.Fixtures.{every_url, no_rows}
use media_stream.App.Startup.{Machine, boot}
use media_stream.App.Startup.Running.{Boots, boot-Boots}

abbrev config : Config
config = record zero_config {
  server = record { http_port = pos 8080; ws_port = pos 8081; production = false };
  rtsp = record zero_config.rtsp {
    server = record zero_config.rtsp.server { enabled = true };
    pool = record { max_streams = pos 100; health_check_interval = pos 0 };
  };
  webrtc = record zero_config.webrtc {
    settings = record zero_config.webrtc.settings { max_peers = pos 100 };
  };
  hls = record zero_config.hls { enabled = true };
}

abbrev port_taken : Machine
port_taken = record {
  makes_directory = true;
  opens_database = true;
  pings_database = true;
  migrates_database = true;
  binds_http = false;
  starts_rtsp = true;
}

boot-Boots_example :
    Boots table every_url false
      (parsed config)
      port_taken
      no_rows
      9
      (boot table every_url false (parsed config) port_taken no_rows 9)
boot-Boots_example = boot-Boots table every_url false (parsed config) port_taken no_rows 9
