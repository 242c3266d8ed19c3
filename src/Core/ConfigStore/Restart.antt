-- ===== src/Core/ConfigStore/Restart.antt =====
-- What survives a restart of the server: the runtime file that the last request wrote, read again by
-- NewConfigStore.
use media_stream.Base.{
  ◌≡◌, refl, ◌∙◌, ap, String, Bool, true, false, none, some, List, arith, eq_iff, if◌then◌else◌,
  map_some,
}
use media_stream.GoMap
use media_stream.GoMap.{GoMap, lookup, get-put, get-lookup}
use media_stream.Core.ConfigStore.{
  PathConfig, RuntimeFile, saved, ConfigStore, get_path, runtime_paths, add_path, copy_entries,
  validate_path_config, new_config_store, save_failed, path_exists,
}
use media_stream.Core.ConfigStore.Yaml.{
  Request, adds, updates, deletes, saves, loads, serve_one, serve, KeepsYaml, serve-KeepsYaml,
  new_config_store-KeepsYaml, serve_one-KeepsYaml, get-copied, get-load_entries, get-runtime_paths,
}

-- What is left of a configuration that was written and read again: the restart flag is off and the
-- delay is empty, since their common JSON name hides both.
abbrev pub reread : PathConfig → PathConfig
reread c = record c { run_on_demand_restart = false; run_on_demand_close_after = "" }

-- The paths that a new server shows, where the file holds what `s` would write.
restart-saved :
    (yaml : GoMap PathConfig) (s : ConfigStore) (k : String)
    → KeepsYaml yaml s
    → get_path (new_config_store yaml (saved (runtime_paths s.yaml_paths s.paths.entries))) k
      ≡ (if GoMap.contains yaml k then GoMap.get yaml k else map_some reread (get_path s k))
unfolding new_config_store
restart-saved yaml s k h =
    let file = runtime_paths s.yaml_paths s.paths.entries in
    let copied = copy_entries yaml.entries GoMap.empty in
    ground (
      arith,
      get-load_entries copied file.entries copied k,
      get-copied yaml k,
      get-lookup file k,
      get-runtime_paths s.yaml_paths s.paths.entries k,
      get-lookup s.paths k,
      h.read_only k,
    )

abbrev pub is_write : Request → Bool
is_write loads = false
is_write _ = true

-- A request that writes and reports no error has left in the file what the store then shows.
serve_one-file :
    (s : ConfigStore) (r : Request)
    → is_write r ≡ true
    → (serve_one s r).1 ≡ none
    → (serve_one s r).0.file
      ≡ saved (runtime_paths (serve_one s r).0.yaml_paths (serve_one s r).0.paths.entries)
unfolding serve_one
serve_one-file s (adds id c w) b e = ground arith
serve_one-file s (updates id c w) b e = ground arith
serve_one-file s (deletes id w) b e = ground arith
serve_one-file s (saves w) b e = ground arith
serve_one-file s loads b e = cc

-- After any history, a request that writes and returns nil is durable: a server restarted on the
-- file that it left shows each YAML path as it is in the YAML file, and of every other path exactly
-- those that the old server showed, each as `reread` leaves it.
pub restart-durable :
    (yaml : GoMap PathConfig) (file : RuntimeFile) (rs : List Request) (r : Request) (k : String)
    → is_write r ≡ true
    → (serve_one (serve (new_config_store yaml file) rs) r).1 ≡ none
    → get_path
        (new_config_store yaml (serve_one (serve (new_config_store yaml file) rs) r).0.file)
        k
      ≡ (if GoMap.contains yaml k
          then GoMap.get yaml k
          else map_some reread (get_path (serve_one (serve (new_config_store yaml file) rs) r).0 k))
restart-durable yaml file rs r k b e =
    let s = serve (new_config_store yaml file) rs in
    let h = serve-KeepsYaml yaml _ rs (new_config_store-KeepsYaml yaml file) in
    ap (λ f. get_path (new_config_store yaml f) k) (serve_one-file s r b e)
    ∙ restart-saved yaml (serve_one s r).0 k (serve_one-KeepsYaml yaml s r h)

-- A valid new path whose save fails is refused with the error of the save, and stays all the same:
-- the server shows it, the file does not have it, and to add it again is refused as a duplicate.
add_path-unsaved :
    (s : ConfigStore) (id : String) (c : PathConfig)
    → get_path s id ≡ none
    → validate_path_config id c ≡ none
    → (s' : ConfigStore) × (add_path s id c false ≡ (s', some save_failed))
      × (get_path s' id ≡ some c)
      × (s'.file ≡ s.file)
      × ((w : Bool) → add_path s' id c w ≡ (s', some (path_exists id)))
unfolding add_path
add_path-unsaved s id c fresh valid =
    let there : GoMap.get (GoMap.put s.paths id c) id ≡ some c =
      get-put s.paths id id c ∙ ground (arith, eq_iff id id) in
    (
      record s { paths = GoMap.put s.paths id c },
      ground arith,
      there,
      refl,
      λ w. ground (arith, there),
    )
