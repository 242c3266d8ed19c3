-- ===== src/App/Fixtures.antt =====
-- A server with one camera, for the tests.
use media_stream.Base.{String, Bool, true, false, [], ◌∷◌}
use media_stream.Base.Int.{pos}
use media_stream.GoMap.{GoMap}
use media_stream.Core.Stream.{new_stream}
use media_stream.Core.ConfigStore.{PathConfig}
use media_stream.Database.{StreamRow}
use media_stream.Database.Contract.{stamp}
use media_stream.Rtsp.Client.{Client}
use media_stream.App.{App}

abbrev pub gate_row : StreamRow
gate_row = record {
  id = "gate";
  name = "Gate";
  source = "rtsp://10.0.0.5/live";
  source_on_demand = false;
  rtsp_transport = "tcp";
  created_at = 0;
  updated_at = 0;
}

abbrev pub every_url : String → Bool
every_url u = true

abbrev pub no_rows : GoMap StreamRow
no_rows = record { entries = [] }

abbrev pub one_row : GoMap StreamRow
one_row = record { entries = ("gate", stamp 9 gate_row) ∷ [] }

-- config.yaml has no path, or the path of the gate with another source.
abbrev pub no_paths : GoMap PathConfig
no_paths = record { entries = [] }

abbrev pub empty_server : App (GoMap StreamRow)
empty_server = record {
  paths = no_paths;
  timeout = pos 10;
  retry_count = pos 3;
  retry_delay = pos 5;
  stream_manager = record {
    heap = [];
    streams = record { entries = [] };
    video_buffer_size = 500;
    ctx_done = false;
  };
  webrtc_manager = record {
    heap = [];
    peers = record { entries = [] };
    max_peers = pos 100;
    notified = [];
  };
  process_manager = record { heap = []; processes = record { entries = [] } };
  db = no_rows;
  clients = [];
  rtsp_clients = record { entries = [] };
  peer_streams = record { entries = [] };
}

abbrev pub gate_client : Client
gate_client = record {
  url = "rtsp://10.0.0.5/live";
  transport = "tcp";
  timeout = pos 10_000_000_000;
  retry_count = pos 3;
  retry_delay = pos 5_000_000_000;
  stream = 0;
  ctx_done = false;
  connected = false;
  packets_received = 0;
  bytes_received = 0;
}

abbrev pub one_camera : App (GoMap StreamRow)
one_camera = record empty_server {
  stream_manager = record {
    heap = new_stream "gate" "Gate" 500 ∷ [];
    streams = record { entries = ("gate", 0) ∷ [] };
    video_buffer_size = 500;
    ctx_done = false;
  };
  db = one_row;
  clients = gate_client ∷ [];
  rtsp_clients = record { entries = ("gate", 0) ∷ [] };
}
