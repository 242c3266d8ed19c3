-- ===== src/Api/PathsHandler.antt =====
-- go-legacy/internal/api/paths_handler.go. A handler returns the status and the new state. The body
-- is what ShouldBindJSON makes of it, `none` where it fails. The handlers tell the store's errors
-- apart by their text, here by their constructor.
pub mod Outcomes
use media_stream.Base.{
  ℕ, String, Bool, true, false, Option, none, some, List, [], ◌∷◌, ◌==◌, str_eq, if◌then◌else◌,
  length,
}
use media_stream.GoMap
use media_stream.GoMap.{GoMap}
use media_stream.Core.ConfigStore.{
  PathConfig, ConfigStore, StoreError, path_not_found, cannot_update_yaml, cannot_delete_yaml,
  path_exists, invalid_path, save_failed, read_failed, parse_failed, is_yaml_path, get_path,
  get_all_paths, add_path, update_path, delete_path,
}
use media_stream.Process.{Manager, is_running, stop, logged}

pub record PathsHandler : Type 0 where
  pub config_store : ConfigStore
  pub process_manager : Manager

pub data HttpStatus : Type 0 where
  http_ok http_created http_multi_status http_bad_request : HttpStatus
  http_forbidden http_not_found http_internal_error : HttpStatus

pub record PathResponse : Type 0 where
  pub id : String
  pub config : PathConfig
  pub is_yaml : Bool
  pub running : Bool

-- GetAllPaths
unfoldable pub list_paths : PathsHandler → GoMap PathConfig
unfolding get_all_paths
list_paths h = get_all_paths h.config_store

-- GetPath
unfoldable pub show_path : PathsHandler → String → HttpStatus × Option PathResponse
unfolding is_running GoMap.get
show_path h id = elim (get_path h.config_store id) [
  | none ↦ (http_not_found, none)
  | some c ↦ (
    http_ok,
    some (record {
      id = id;
      config = c;
      is_yaml = is_yaml_path h.config_store id;
      running = if str_eq c.run_on_demand "" then false else is_running h.process_manager id;
    }),
  )
]

-- What the loop of AddPaths has so far.
pub record Added : Type 0 where
  pub store : ConfigStore
  pub added : List String
  pub errors : List (String × StoreError)

note : String → Added → ConfigStore × Option StoreError → Added
note id a (s, none) = record { store = s; added = id ∷ a.added; errors = a.errors }
note id a (s, some e) = record { store = s; added = a.added; errors = (id, e) ∷ a.errors }

-- The loop of AddPaths; `writes` says of each path whether its save succeeds.
unfoldable pub add_each : (String → Bool) → List (String × PathConfig) → Added → Added
unfolding note add_path
add_each writes [] a = a
add_each writes ((id, c) ∷ rest) a =
    add_each writes rest (note id a (add_path a.store id c (writes id)))

unfoldable pub added_status : Added → HttpStatus
added_status a =
    if length a.added == 0
    then http_bad_request
    else if length a.errors == 0
    then http_created
    else http_multi_status

-- AddPaths
unfoldable pub add_paths :
    PathsHandler → Option (GoMap PathConfig) → (String → Bool) → PathsHandler × HttpStatus
unfolding add_each added_status
add_paths h none writes = (h, http_bad_request)
add_paths h (some body) writes =
    if GoMap.size body == 0
    then (h, http_bad_request)
    else (let a =
          add_each writes body.entries
            (record { store = h.config_store; added = []; errors = [] }) in
        (record h { config_store = a.store }, added_status a))

unfoldable pub error_status : Option StoreError → HttpStatus
error_status none = http_ok
error_status (some (path_not_found id)) = http_not_found
error_status (some (cannot_update_yaml id)) = http_forbidden
error_status (some (cannot_delete_yaml id)) = http_forbidden
error_status (some (path_exists id)) = http_internal_error
error_status (some (invalid_path e)) = http_internal_error
error_status (some save_failed) = http_internal_error
error_status (some read_failed) = http_internal_error
error_status (some parse_failed) = http_internal_error

-- UpdatePath
unfoldable pub replace_path :
    PathsHandler → String → Option PathConfig → Bool → PathsHandler × HttpStatus
unfolding error_status update_path
replace_path h id none writes = (h, http_bad_request)
replace_path h id (some c) writes =
    let t = update_path h.config_store id c writes in
    (record h { config_store = t.0 }, error_status t.1)

-- The process of a path, stopped before the path is deleted.
unfoldable pub stop_first : Manager → String → Manager
unfolding is_running stop logged
stop_first m id = if is_running m id then logged m (stop m id) else m

-- DeletePath
unfoldable pub remove_path : PathsHandler → String → Bool → PathsHandler × HttpStatus
unfolding stop_first error_status delete_path
remove_path h id writes =
    let t = delete_path h.config_store id writes in
    (
      record { config_store = t.0; process_manager = stop_first h.process_manager id },
      error_status t.1,
    )
