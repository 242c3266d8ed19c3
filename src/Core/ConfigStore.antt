-- ===== src/Core/ConfigStore.antt =====
-- go-legacy/internal/core/config_store.go, with `PathConfig` of go-legacy/internal/core/config.go:
-- the paths that the API adds at run time, kept beside those of the YAML file and saved as JSON.
-- The disk is an argument: what the runtime file holds, and whether a write succeeds.
pub mod Validation
pub mod Yaml
pub mod Restart
use media_stream.Base.{
  String, Bool, true, false, not, ◌&&◌, Option, none, some, List, [], ◌∷◌, str_eq, if◌then◌else◌,
}
use media_stream.GoMap
use media_stream.GoMap.{GoMap}

pub record PathConfig : Type 0 where
  pub source : String
  pub source_on_demand : Bool
  pub rtsp_transport : String
  pub run_on_demand : String
  pub run_on_demand_restart : Bool
  pub run_on_demand_close_after : String

-- What encoding/json keeps of a PathConfig. Two fields have the tag "runOnDemandCloseAfter", at one
-- depth, and the package's documented rule for such a conflict is to ignore both.
pub record SavedConfig : Type 0 where
  pub source : String
  pub source_on_demand : Bool
  pub rtsp_transport : String
  pub run_on_demand : String

abbrev pub marshal : PathConfig → SavedConfig
marshal c = record {
  source = c.source;
  source_on_demand = c.source_on_demand;
  rtsp_transport = c.rtsp_transport;
  run_on_demand = c.run_on_demand;
}

abbrev pub unmarshal : SavedConfig → PathConfig
unmarshal c = record {
  source = c.source;
  source_on_demand = c.source_on_demand;
  rtsp_transport = c.rtsp_transport;
  run_on_demand = c.run_on_demand;
  run_on_demand_restart = false;
  run_on_demand_close_after = "";
}

-- The file at filePath, as ReadFile and Unmarshal find it.
pub data RuntimeFile : Type 0 where
  absent unreadable corrupt : RuntimeFile
  saved : GoMap SavedConfig → RuntimeFile

pub record ConfigStore : Type 0 where
  pub paths : GoMap PathConfig
  pub yaml_paths : GoMap PathConfig
  pub file : RuntimeFile

pub data Invalid : Type 0 where
  empty_id no_source_or_run both_source_and_run : Invalid

pub data StoreError : Type 0 where
  path_exists path_not_found cannot_update_yaml cannot_delete_yaml : String → StoreError
  invalid_path : Invalid → StoreError
  save_failed read_failed parse_failed : StoreError

abbrev pub is_yaml_path : ConfigStore → String → Bool
is_yaml_path s id = GoMap.contains s.yaml_paths id

abbrev pub get_path : ConfigStore → String → Option PathConfig
get_path s id = GoMap.get s.paths id

-- `none` is nil.
unfoldable pub validate_path_config : String → PathConfig → Option Invalid
validate_path_config id c =
    if str_eq id ""
    then some empty_id
    else if str_eq c.source "" && str_eq c.run_on_demand ""
    then some no_source_or_run
    else if not (str_eq c.source "") && not (str_eq c.run_on_demand "")
    then some both_source_and_run
    else none

-- The loop of saveToFileUnsafe over the paths.
unfoldable pub runtime_paths : GoMap PathConfig → List (String × PathConfig) → GoMap SavedConfig
unfolding GoMap.get GoMap.put GoMap.empty
runtime_paths yaml [] = GoMap.empty
runtime_paths yaml ((id, c) ∷ rest) =
    let saved_rest = runtime_paths yaml rest in
    if GoMap.contains yaml id then saved_rest else GoMap.put saved_rest id (marshal c)

-- saveToFileUnsafe; `writes` is whether WriteFile succeeds, and one that fails is taken to leave the
-- file as it was (it could also leave it cut off, which is not modelled). Marshal does not fail on strings and
-- booleans.
unfoldable pub save_to_file : ConfigStore → Bool → ConfigStore × Option StoreError
unfolding runtime_paths
save_to_file s writes =
    if writes
    then (record s { file = saved (runtime_paths s.yaml_paths s.paths.entries) }, none)
    else (s, some save_failed)

unfoldable pub add_path : ConfigStore → String → PathConfig → Bool → ConfigStore × Option StoreError
unfolding validate_path_config save_to_file
add_path s id c writes =
    if GoMap.contains s.paths id
    then (s, some (path_exists id))
    else elim (validate_path_config id c) [
      | some e ↦ (s, some (invalid_path e))
      | none ↦ save_to_file (record s { paths = GoMap.put s.paths id c }) writes
    ]

unfoldable pub update_path :
    ConfigStore → String → PathConfig → Bool → ConfigStore × Option StoreError
unfolding validate_path_config save_to_file
update_path s id c writes =
    if not (GoMap.contains s.paths id)
    then (s, some (path_not_found id))
    else if is_yaml_path s id
    then (s, some (cannot_update_yaml id))
    else elim (validate_path_config id c) [
      | some e ↦ (s, some (invalid_path e))
      | none ↦ save_to_file (record s { paths = GoMap.put s.paths id c }) writes
    ]

unfoldable pub delete_path : ConfigStore → String → Bool → ConfigStore × Option StoreError
unfolding save_to_file
delete_path s id writes =
    if not (GoMap.contains s.paths id)
    then (s, some (path_not_found id))
    else if is_yaml_path s id
    then (s, some (cannot_delete_yaml id))
    else save_to_file (record s { paths = GoMap.remove s.paths id }) writes

-- The loop of LoadFromFile over the paths of the file.
unfoldable pub load_entries :
    GoMap PathConfig → List (String × SavedConfig) → GoMap PathConfig → GoMap PathConfig
unfolding GoMap.get GoMap.put
load_entries yaml [] paths = paths
load_entries yaml ((id, c) ∷ rest) paths =
    let loaded = load_entries yaml rest paths in
    if GoMap.contains yaml id then loaded else GoMap.put loaded id (unmarshal c)

unfoldable pub load_file : ConfigStore → RuntimeFile → ConfigStore × Option StoreError
load_file s absent = (s, none)
load_file s unreadable = (s, some read_failed)
load_file s corrupt = (s, some parse_failed)
load_file s (saved m) = (record s { paths = load_entries s.yaml_paths m.entries s.paths }, none)

unfoldable pub load_from_file : ConfigStore → ConfigStore × Option StoreError
unfolding load_file load_entries
load_from_file s = load_file s s.file

-- A loop that copies the entries of one map into another.
unfoldable pub copy_entries : List (String × PathConfig) → GoMap PathConfig → GoMap PathConfig
unfolding GoMap.put
copy_entries [] m = m
copy_entries ((id, c) ∷ rest) m = GoMap.put (copy_entries rest m) id c

-- NewConfigStore; an error of LoadFromFile is logged only.
unfoldable pub new_config_store : GoMap PathConfig → RuntimeFile → ConfigStore
unfolding load_from_file copy_entries GoMap.empty
new_config_store yaml file =
    let copied = copy_entries yaml.entries GoMap.empty in
    (load_from_file (record { paths = copied; yaml_paths = copied; file = file })).0

-- GetAllPaths
unfoldable pub get_all_paths : ConfigStore → GoMap PathConfig
unfolding copy_entries GoMap.empty
get_all_paths s = copy_entries s.paths.entries GoMap.empty
