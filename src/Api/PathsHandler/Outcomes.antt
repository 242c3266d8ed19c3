-- ===== src/Api/PathsHandler/Outcomes.antt =====
-- The statuses of the handlers against what they leave.
use media_stream.Base.{
  ℕ, ◌+◌, ◌≡◌, refl, String, Bool, true, Option, none, some, List, [], ◌∷◌, arith, length, ◌↔◌, ◌<◌,
}
use media_stream.GoMap
use media_stream.GoMap.{GoMap}
use media_stream.Core.ConfigStore.{PathConfig, ConfigStore, StoreError, add_path, delete_path}
use media_stream.Process.{logged}
use media_stream.Process.Listing.{IsValid, is_running-listed, stop-present, without_process}
use media_stream.Api.PathsHandler.{
  PathsHandler, http_forbidden, http_created, http_multi_status, http_bad_request, Added, note,
  add_each, added_status, add_paths, remove_path, stop_first, error_status,
}

note-count :
    (id : String) (a : Added) (t : ConfigStore × Option StoreError)
    → length (note id a t).added + length (note id a t).errors
      ≡ length a.added + length a.errors + 1
unfolding note
note-count id a (s, none) = omega arith
note-count id a (s, some e) = omega arith

-- Each path of the body is either added or has an error.
add_each-count :
    (writes : String → Bool) (l : List (String × PathConfig)) (a : Added)
    → length (add_each writes l a).added + length (add_each writes l a).errors
      ≡ length a.added + length a.errors + length l
unfolding add_each
add_each-count writes [] a = omega arith
add_each-count writes ((id, c) ∷ rest) a =
    let t = add_path a.store id c (writes id) in
    omega (arith, add_each-count writes rest (note id a t), note-count id a t)

-- The loop of AddPaths on a body, from the handler's store.
abbrev pub outcome : PathsHandler → GoMap PathConfig → (String → Bool) → Added
outcome h body writes =
    add_each writes body.entries (record { store = h.config_store; added = []; errors = [] })

-- POST of a body with paths: each path is either added or has an error, whatever saves fail. The
-- answer is 201 exactly if all were added, 400 exactly if none was, and 207 exactly if some were
-- added and some were not.
add_paths-added :
    (h : PathsHandler) (body : GoMap PathConfig) (writes : String → Bool)
    → 0 < GoMap.size body
    → (length (outcome h body writes).added + length (outcome h body writes).errors
        ≡ GoMap.size body)
      × (((add_paths h (some body) writes).1 ≡ http_created)
          ↔ (length (outcome h body writes).added ≡ GoMap.size body))
      × (((add_paths h (some body) writes).1 ≡ http_bad_request)
          ↔ (length (outcome h body writes).errors ≡ GoMap.size body))
      × (((add_paths h (some body) writes).1 ≡ http_multi_status) ↔ (
          (0 < length (outcome h body writes).added) × (0 < length (outcome h body writes).errors)))
unfolding add_paths added_status
add_paths-added h body writes some_paths =
    let sum =
      add_each-count writes body.entries
        (record { store = h.config_store; added = []; errors = [] }) in
    (omega (arith, sum), ground (arith, sum), ground (arith, sum), ground (arith, sum))

-- DELETE of a YAML path whose process runs is answered 403 and leaves the store as it is, but its
-- process is stopped and off the process manager's map all the same.
remove_path_of_yaml :
    (h : PathsHandler) (id : String) (r : ℕ) (writes : Bool)
    → IsValid h.process_manager
    → GoMap.get h.process_manager.processes id ≡ some r
    → GoMap.contains h.config_store.paths id ≡ true
    → GoMap.contains h.config_store.yaml_paths id ≡ true
    → remove_path h id writes
      ≡ (record h { process_manager = without_process h.process_manager id r }, http_forbidden)
unfolding remove_path stop_first delete_path error_status logged
remove_path_of_yaml h id r writes v e there yaml =
    rw
      (
        is_running-listed h.process_manager id r v e,
        stop-present h.process_manager id r e,
        there,
        yaml,
        remove_path,
        stop_first,
        delete_path,
      )
      refl
