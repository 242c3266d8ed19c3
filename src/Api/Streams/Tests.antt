-- ===== src/Api/Streams/Tests.antt =====
-- The theorems on the application and its requests, at a server with one camera.
use media_stream.Base.{
  ℕ, ◌≡◌, ◌⊎◌, refl, subst, String, true, false, none, some, [], ◌∷◌, arith, str_eq, is_some,
  get_elem?, if◌then◌else◌, ok, err,
}
use media_stream.Base.Int.{pos}
use media_stream.GoMap
use media_stream.GoMap.{GoMap}
use media_stream.Core.StreamManager.{new_stream_manager, create_stream, get_stream}
use media_stream.Core.ConfigStore.{PathConfig}
use media_stream.Database.{StreamRow, list_all, create, find, affected, modify, erase}
use media_stream.Database.Contract.{stamp}
use media_stream.Database.Table.{table, table_laws}
use media_stream.Rtsp.Client.{Client, stop_client, new_client}
use media_stream.Process.{new_manager, is_running}
use media_stream.Webrtc.Peers.{new_peer_manager}
use media_stream.App.{
  App, stream_missing, stop_stream, stop_at, new_app, seconds, make_client, run_client,
  on_demand_config, start_absent, start_on_demand_stream,
}
use media_stream.App.Running.{IsRunning}
use media_stream.App.Reading.{Reads}
use media_stream.App.Fixtures.{
  gate_row, every_url, no_rows, one_row, no_paths, empty_server, one_camera, gate_client,
}
use media_stream.Api.PathsHandler.{http_ok, http_created, http_internal_error}
use media_stream.Api.Streams.{
  PathRequest, ensure_stream, attempted, start_always_on, handle_create_stream,
  handle_update_stream, delete_begin, remove_managed, handle_delete_stream, handle_path_add,
  handle_path_delete,
}
use media_stream.Api.Streams.Safety.{create-IsRunning}
use media_stream.App.Loading.{load_streams, load_rows, sync_paths}
use media_stream.Api.Streams.Serving.{creates, serve_app}
use media_stream.Api.Streams.Safety.{Deleted}
use media_stream.Api.Streams.Races.{Stranded, start_overtakes_delete}
use media_stream.Api.Streams.Outcomes.{update_restarts}
use media_stream.Api.Streams.Toggling.{Restored, start_then_stop, v3_paths_miss_streams}
use media_stream.Api.Streams.Requests.{create_runs, delete_is_complete}
use media_stream.Api.Streams.Lifetime.{here, next, clients_feed_their_streams, new_app-IsRunning}

empty_server-IsRunning : IsRunning empty_server
unfolding new_app new_stream_manager new_peer_manager new_manager GoMap.empty
empty_server-IsRunning =
    new_app-IsRunning table every_url no_paths (pos 10) (pos 3) (pos 5) (pos 500) (pos 100) no_rows

gate_created : (handle_create_stream table every_url empty_server (some gate_row) 9).0 ≡ one_camera
unfolding handle_create_stream create ensure_stream create_stream start_always_on attempted
    start_on_demand_stream start_absent get_stream on_demand_config find run_client make_client
    new_client seconds table GoMap.get GoMap.put GoMap.without GoMap.lookup
gate_created = refl

pub one_camera-IsRunning : IsRunning one_camera
one_camera-IsRunning =
    subst IsRunning gate_created
      (create-IsRunning table every_url empty_server (some gate_row) 9 empty_server-IsRunning)

gate_load : (load_streams table every_url empty_server 9).0 ≡ empty_server
unfolding load_streams sync_paths list_all load_rows table
gate_load = refl

new_server : new_app no_paths (pos 10) (pos 3) (pos 5) (pos 500) (pos 100) no_rows ≡ empty_server
unfolding new_app new_stream_manager new_peer_manager new_manager GoMap.empty
new_server = refl

gate_request :
    serve_app table every_url
      (load_streams table every_url
        (new_app no_paths (pos 10) (pos 3) (pos 5) (pos 500) (pos 100) no_rows)
        9).0
      (creates (some gate_row) 9)
    ≡ some one_camera
unfolding serve_app
gate_request = rw (new_server, gate_load, gate_created) refl

clients_feed_their_streams_example : IsRunning one_camera
clients_feed_their_streams_example =
    clients_feed_their_streams table every_url no_paths (pos 10) (pos 3) (pos 5) (pos 500) (pos 100)
      no_rows 9 one_camera (next _ one_camera (creates (some gate_row) 9) here tt gate_request)

create_runs_example :
    (app' : App (GoMap StreamRow)) × (handle_create_stream table every_url empty_server
        (some gate_row)
        9
      ≡ (app', http_created))
    × IsRunning app'
    × Reads app' "gate" "rtsp://10.0.0.5/live"
unfolding create find table GoMap.get GoMap.put GoMap.without GoMap.lookup
create_runs_example =
    create_runs table every_url table_laws empty_server gate_row (stamp 9 gate_row) 9 one_row
      empty_server-IsRunning refl refl refl refl refl

delete_is_complete_example :
    (handle_delete_stream table every_url one_camera "gate"
      ≡ some (one_camera, http_internal_error))
    ⊎ ((app' : App (GoMap StreamRow)) × (handle_delete_stream table every_url one_camera "gate"
          ≡ some (app', http_ok))
        × IsRunning app'
        × (is_some (table_laws.row one_row "gate") ≡ true)
        × ((k : String)
            → table_laws.row app'.db k
              ≡ (if str_eq "gate" k then none else table_laws.row one_row k))
        × Deleted table every_url one_camera "gate" app'.db app')
delete_is_complete_example =
    delete_is_complete table every_url table_laws one_camera "gate" one_camera-IsRunning

abbrev yaml_gate : PathConfig
yaml_gate = record {
  source = "rtsp://10.0.0.9/old";
  source_on_demand = false;
  rtsp_transport = "tcp";
  run_on_demand = "";
  run_on_demand_restart = false;
  run_on_demand_close_after = "";
}

abbrev yaml_camera : App (GoMap StreamRow)
yaml_camera = record one_camera { paths = record { entries = ("gate", yaml_gate) ∷ [] } }

yaml_camera-IsRunning : IsRunning yaml_camera
yaml_camera-IsRunning =
    let v = one_camera-IsRunning in
    record { managed = v.managed; no_process = v.no_process; served = v.served }

-- The camera's row is erased and its client halted.
abbrev half_deleted : App (GoMap StreamRow)
half_deleted = record yaml_camera {
  db = record { entries = [] };
  clients = stop_client gate_client ∷ [];
  rtsp_clients = record { entries = [] };
}

start_overtakes_delete_example :
    (started over : App (GoMap StreamRow)) × (start_on_demand_stream table every_url half_deleted
        "gate"
      ≡ ok started)
    × (remove_managed started "gate" ≡ some over)
    × Stranded over "gate" "rtsp://10.0.0.9/old" 0
unfolding delete_begin erase affected attempted stop_stream is_running stop_at table GoMap.get
    GoMap.lookup GoMap.remove GoMap.without
start_overtakes_delete_example =
    start_overtakes_delete table every_url yaml_camera half_deleted "gate" 0 yaml_gate
      yaml_camera-IsRunning refl refl refl refl

-- The request moves the camera, and the client stays at the source of config.yaml.
update_restarts_example :
    (app' : App (GoMap StreamRow)) × (handle_update_stream table every_url yaml_camera "gate"
        (some (record gate_row { source = "rtsp://10.0.0.6/new" }))
        12
      ≡ (app', http_ok))
    × Reads app' "gate" "rtsp://10.0.0.9/old"
    × ((r : ℕ) (c : Client)
        → GoMap.get yaml_camera.rtsp_clients "gate" ≡ some r
        → get_elem? yaml_camera.clients r ≡ some c
        → get_elem? app'.clients r ≡ some (stop_client c))
unfolding modify affected find table GoMap.get GoMap.put GoMap.without GoMap.lookup
update_restarts_example =
    update_restarts table every_url table_laws yaml_camera "gate"
      (record gate_row { source = "rtsp://10.0.0.6/new" })
      (record gate_row { source = "rtsp://10.0.0.6/new"; created_at = 9; updated_at = 12 }) 12
      (record {
        entries =
            (
              "gate",
              record gate_row { source = "rtsp://10.0.0.6/new"; created_at = 9; updated_at = 12 },
            )
            ∷ [];
      })
      0 yaml_camera-IsRunning refl refl refl refl refl

abbrev idle_camera : App (GoMap StreamRow)
idle_camera = record one_camera { clients = []; rtsp_clients = record { entries = [] } }

idle_camera-IsRunning : IsRunning idle_camera
unfolding GoMap.get GoMap.lookup
idle_camera-IsRunning = record {
  managed = one_camera-IsRunning.managed;
  no_process = one_camera-IsRunning.no_process;
  served = λ id r e. absurd (ground arith);
}

start_then_stop_example :
    (start_on_demand_stream table every_url one_camera "gate" ≡ ok one_camera)
    × ((app' : App (GoMap StreamRow)) × (stop_stream one_camera "gate" ≡ ok app')
        × Restored table every_url idle_camera "gate" one_camera app')
unfolding start_on_demand_stream start_absent get_stream on_demand_config find run_client
    make_client new_client seconds table GoMap.get GoMap.put GoMap.without GoMap.lookup
start_then_stop_example =
    start_then_stop table every_url idle_camera one_camera "gate" idle_camera-IsRunning refl refl

abbrev hall_path : PathRequest
hall_path = record { source = "rtsp://10.0.0.7/live"; source_on_demand = true; rtsp_transport = "" }

v3_paths_miss_streams_example :
    ((app' : App (GoMap StreamRow))
      → handle_path_add table every_url one_camera "hall" (some hall_path) 12 ≡ (app', http_ok)
      → GoMap.get one_camera.stream_manager.streams "hall" ≡ none
      → start_on_demand_stream table every_url app' "hall" ≡ err (stream_missing "hall"))
    × ((app' : App (GoMap StreamRow)) (url : String)
        → handle_path_delete table every_url one_camera "hall" ≡ (app', http_ok)
        → Reads one_camera "hall" url
        → Reads app' "hall" url)
v3_paths_miss_streams_example =
    v3_paths_miss_streams table every_url one_camera "hall" hall_path 12 one_camera-IsRunning
