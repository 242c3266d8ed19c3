-- ===== src/Api/Tests.antt =====
-- The theorems on the path handlers, at one YAML path with a running process.
use media_stream.Base.{false, some, [], ◌∷◌}
use media_stream.Base.Int.{pos}
use media_stream.GoMap
use media_stream.GoMap.{GoMap}
use media_stream.Core.ConfigStore.{PathConfig, absent}
use media_stream.Process.{Manager, launch, new_manager, start, is_running, logged}
use media_stream.Process.Listing.{IsValid}
use media_stream.Process.Events.{starts, run, step}
use media_stream.Process.History.{run-listing}
use media_stream.Api.PathsHandler.{PathsHandler}

abbrev transcoded : PathConfig
transcoded = record {
  source = "";
  source_on_demand = false;
  rtsp_transport = "";
  run_on_demand = "ffmpeg";
  run_on_demand_restart = false;
  run_on_demand_close_after = "15s";
}

abbrev one_path : GoMap PathConfig
one_path = record { entries = ("gate", transcoded) ∷ [] }

abbrev running : Manager
running = record {
  heap = launch "gate" "ffmpeg" false (pos 15) 41 100 ∷ [];
  processes = record { entries = ("gate", 0) ∷ [] };
}

running-IsValid : IsValid running
unfolding run step new_manager start logged is_running GoMap.empty GoMap.get GoMap.put
running-IsValid = (run-listing (starts "gate" "ffmpeg" false (pos 15) (some 41) 100 ∷ []) "gate").0

abbrev handler : PathsHandler
handler = record {
  config_store = record { paths = one_path; yaml_paths = one_path; file = absent };
  process_manager = running;
}

abbrev two_paths : GoMap PathConfig
two_paths = record { entries = ("gate", transcoded) ∷ ("hall", transcoded) ∷ [] }
