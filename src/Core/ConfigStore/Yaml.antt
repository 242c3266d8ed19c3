-- ===== src/Core/ConfigStore/Yaml.antt =====
-- The paths of the YAML file under the requests of the API.
use media_stream.Base.{
  ◌≡◌, refl, ◌∙◌, String, Bool, Option, none, some, List, [], ◌∷◌, arith, eq_iff, if◌then◌else◌,
  or_else, map_some,
}
use media_stream.GoMap
use media_stream.GoMap.{GoMap, lookup, get-put, get-remove, get-empty}
use media_stream.Core.ConfigStore.{
  PathConfig, SavedConfig, marshal, unmarshal, RuntimeFile, absent, unreadable, corrupt, saved,
  ConfigStore, StoreError, get_path, runtime_paths, save_to_file, add_path, update_path,
  delete_path, load_entries, load_file, load_from_file, copy_entries, new_config_store,
}

pub get-copy_entries :
    (l : List (String × PathConfig)) (m : GoMap PathConfig) (k : String)
    → GoMap.get (copy_entries l m) k ≡ or_else (lookup k l) (GoMap.get m k)
unfolding copy_entries lookup
get-copy_entries [] m k = refl
get-copy_entries ((id, c) ∷ rest) m k =
    ground (arith, get-put (copy_entries rest m) id k c, get-copy_entries rest m k)

-- A map copied entry by entry is the same map.
pub get-copied :
    (m : GoMap PathConfig) (k : String)
    → GoMap.get (copy_entries m.entries GoMap.empty) k ≡ GoMap.get m k
get-copied m k =
    get-copy_entries m.entries GoMap.empty k
    ∙ (unfold GoMap.get in ground (arith, get-empty {V = PathConfig} k))

pub get-load_entries :
    (yaml : GoMap PathConfig) (l : List (String × SavedConfig)) (m : GoMap PathConfig) (k : String)
    → GoMap.get (load_entries yaml l m) k ≡ (
        if GoMap.contains yaml k
        then GoMap.get m k
        else or_else (map_some unmarshal (lookup k l)) (GoMap.get m k))
unfolding load_entries lookup
get-load_entries yaml [] m k = ground arith
get-load_entries yaml ((id, c) ∷ rest) m k = ground (
  arith,
  get-put (load_entries yaml rest m) id k (unmarshal c),
  get-load_entries yaml rest m k,
  eq_iff id k,
)

pub get-runtime_paths :
    (yaml : GoMap PathConfig) (l : List (String × PathConfig)) (k : String)
    → GoMap.get (runtime_paths yaml l) k
      ≡ (if GoMap.contains yaml k then none else map_some marshal (lookup k l))
unfolding runtime_paths lookup
get-runtime_paths yaml [] k = ground (arith, get-empty {V = SavedConfig} k)
get-runtime_paths yaml ((id, c) ∷ rest) k = ground (
  arith,
  get-put (runtime_paths yaml rest) id k (marshal c),
  get-runtime_paths yaml rest k,
  eq_iff id k,
)

-- What the API asks of the store, each with whether its save will succeed.
pub data Request : Type 0 where
  adds updates : String → PathConfig → Bool → Request
  deletes : String → Bool → Request
  saves : Bool → Request
  loads : Request

unfoldable pub serve_one : ConfigStore → Request → ConfigStore × Option StoreError
unfolding add_path update_path delete_path load_from_file
serve_one s (adds id c w) = add_path s id c w
serve_one s (updates id c w) = update_path s id c w
serve_one s (deletes id w) = delete_path s id w
serve_one s (saves w) = save_to_file s w
serve_one s loads = load_from_file s

unfoldable pub serve : ConfigStore → List Request → ConfigStore
serve s [] = s
serve s (r ∷ rs) = serve (serve_one s r).0 rs

-- The store has the YAML paths as they were read, and shows each of them.
pub record KeepsYaml (yaml : GoMap PathConfig) (s : ConfigStore) : Type 0 where
  pub read_only : (k : String) → GoMap.get s.yaml_paths k ≡ GoMap.get yaml k
  pub shown :
      (k : String) (c : PathConfig)
      → GoMap.get s.yaml_paths k ≡ some c
      → GoMap.get s.paths k ≡ some c

load-KeepsYaml :
    (yaml : GoMap PathConfig) (s : ConfigStore) (f : RuntimeFile)
    → KeepsYaml yaml s
    → KeepsYaml yaml (load_file s f).0
unfolding load_file
load-KeepsYaml yaml s absent h = h
load-KeepsYaml yaml s unreadable h = h
load-KeepsYaml yaml s corrupt h = h
load-KeepsYaml yaml s (saved m) h = record {
  read_only = h.read_only;
  shown = λ k c e. ground (arith, get-load_entries s.yaml_paths m.entries s.paths k, h.shown k c);
}

pub serve_one-KeepsYaml :
    (yaml : GoMap PathConfig) (s : ConfigStore) (r : Request)
    → KeepsYaml yaml s
    → KeepsYaml yaml (serve_one s r).0
unfolding serve_one
serve_one-KeepsYaml yaml s (adds id c w) h = record {
  read_only = λ k. ground (arith, h.read_only k);
  shown = λ k d e. ground (arith, get-put s.paths id k c, h.shown k d, eq_iff id k);
}
serve_one-KeepsYaml yaml s (updates id c w) h = record {
  read_only = λ k. ground (arith, h.read_only k);
  shown = λ k d e. ground (arith, get-put s.paths id k c, h.shown k d, eq_iff id k);
}
serve_one-KeepsYaml yaml s (deletes id w) h = record {
  read_only = λ k. ground (arith, h.read_only k);
  shown = λ k d e. ground (arith, get-remove s.paths id k, h.shown k d, eq_iff id k);
}
serve_one-KeepsYaml yaml s (saves w) h = record {
  read_only = λ k. ground (arith, h.read_only k);
  shown = λ k d e. ground (arith, h.shown k d);
}
serve_one-KeepsYaml yaml s loads h = load-KeepsYaml yaml s s.file h

pub new_config_store-KeepsYaml :
    (yaml : GoMap PathConfig) (file : RuntimeFile) → KeepsYaml yaml (new_config_store yaml file)
unfolding new_config_store
new_config_store-KeepsYaml yaml file =
    load-KeepsYaml yaml _ file (record { read_only = λ k. get-copied yaml k; shown = λ k c e. e })

pub serve-KeepsYaml :
    (yaml : GoMap PathConfig) (s : ConfigStore) (rs : List Request)
    → KeepsYaml yaml s
    → KeepsYaml yaml (serve s rs)
unfolding serve
serve-KeepsYaml yaml s [] h = h
serve-KeepsYaml yaml s (r ∷ rs) h =
    serve-KeepsYaml yaml (serve_one s r).0 rs (serve_one-KeepsYaml yaml s r h)

-- Whatever the runtime file holds at the start and whatever the API then asks, with saves that fail
-- or succeed, every path of the YAML file is shown with the configuration that it has there.
pub serve-yaml :
    (yaml : GoMap PathConfig) (file : RuntimeFile) (rs : List Request) (k : String) (c : PathConfig)
    → GoMap.get yaml k ≡ some c
    → get_path (serve (new_config_store yaml file) rs) k ≡ some c
serve-yaml yaml file rs k c e =
    let h = serve-KeepsYaml yaml _ rs (new_config_store-KeepsYaml yaml file) in
    h.shown k c (h.read_only k ∙ e)
