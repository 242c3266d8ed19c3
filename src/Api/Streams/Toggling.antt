-- ===== src/Api/Streams/Toggling.antt =====
-- A start and the stop after it, and what the requests of version 3 leave running.
use media_stream.Base.{
  ℕ, ◌≡◌, refl, sym, ◌∙◌, subst, String, Bool, true, false, none, some, arith, str_eq, eq_refl,
  eq_iff, is_some, length, get_elem?, Result, ok, err, inl, inr, Bool-cases, Option-cases,
  Result-cases,
}
use media_stream.GoMap
use media_stream.GoMap.{GoMap, get-put, get-remove}
use media_stream.Core.StreamManager.{get_stream}
use media_stream.Database.{SqlEngine, create, erase}
use media_stream.Rtsp.Client.{Client, stop_client}
use media_stream.App.{
  App, AppError, stream_missing, on_demand_config, start_absent, start_on_demand_stream,
  stop_stream,
}
use media_stream.App.Reading.{Reads}
use media_stream.App.Running.{IsRunning, IsRunning?, Started, failed, started}
use media_stream.App.Stopping.{
  IsSource, start_configured, without_client, without_client-IsRunning, without_client-stopped,
  Stopped, idle, stopped, stop_stream-Stopped, start_on_demand_stream-IsRunning,
}
use media_stream.Api.PathsHandler.{http_ok}
use media_stream.Api.Streams.{PathRequest, path_row, handle_path_add, handle_path_delete}
use media_stream.Api.Streams.Safety.{with_db-IsRunning}
use media_stream.Api.Streams.Requests.{no_client}

module _ {S : Type 0} (E : SqlEngine S) (url_ok : String → Bool) where
  -- What a start and a stop have left: the clients that run are those that ran, and the one that
  -- was started is cancelled.
  abbrev pub Restored : App S → String → App S → App S → Type 0
  Restored app id mid app' =
      IsRunning app'
      × ((k : String) → GoMap.get app'.rtsp_clients k ≡ GoMap.get app.rtsp_clients k)
      × ((r : ℕ) (c : Client)
          → GoMap.get mid.rtsp_clients id ≡ some r
          → get_elem? mid.clients r ≡ some c
          → get_elem? app'.clients r ≡ some (stop_client c))

  stop_started :
      (app mid : App S) (id : String) (o : Result AppError (App S))
      → IsRunning mid
      → GoMap.get app.rtsp_clients id ≡ none
      → ((k : String)
          → str_eq id k ≡ false
          → GoMap.get mid.rtsp_clients k ≡ GoMap.get app.rtsp_clients k)
      → is_some (GoMap.get mid.rtsp_clients id) ≡ true
      → Stopped mid id o
      → (app' : App S) × (o ≡ ok app') × Restored app id mid app'
  stop_started app mid id o v n k m (idle h) = absurd (ground (arith, h, m))
  stop_started app mid id o v n k m (stopped r c h e) = (
    without_client mid id r c,
    refl,
    (
      without_client-IsRunning mid id r c v h,
      λ j. elim (Bool-cases (str_eq id j)) [
        | inl q ↦ ground (arith, get-remove mid.rtsp_clients id j, eq_iff id j, n, q)
        | inr q ↦ ground (arith, get-remove mid.rtsp_clients id j, k j q, q)
      ],
      λ i d f g. without_client-stopped mid id r i c d h e f g,
    ),
  )

  -- What a start has left of the map.
  abbrev Mapped : App S → String → Result AppError (App S) → Type 0
  Mapped app id (err e) = Unit
  Mapped app id (ok mid) =
      (is_some (GoMap.get mid.rtsp_clients id) ≡ true)
      × ((k : String)
          → str_eq id k ≡ false
          → GoMap.get mid.rtsp_clients k ≡ GoMap.get app.rtsp_clients k)

  Started-Mapped :
      (app : App S) (id : String) (stream : ℕ) (P : String → Type 0) (o : Result AppError (App S))
      → Started app id stream P o
      → Mapped app id o
  Started-Mapped app id stream P o (failed e) = tt
  Started-Mapped app id stream P o (started c p s n) = (
    ground (arith, get-put app.rtsp_clients id id (length app.clients), eq_refl id),
    λ k q. ground (arith, get-put app.rtsp_clients id k (length app.clients), q),
  )

  start_absent-Mapped : (app : App S) (id : String) → Mapped app id (start_absent E url_ok app id)
  unfolding start_absent get_stream
  start_absent-Mapped app id = elim (Option-cases (GoMap.get app.stream_manager.streams id)) [
    | inl h ↦ rw (h, start_absent, get_stream) tt
    | inr (stream, h) ↦
        Started-Mapped app id stream (IsSource E url_ok app id) (start_absent E url_ok app id)
          (start_configured E url_ok app id stream (on_demand_config E url_ok app id) refl h)
  ]

  not_running_start :
      (app : App S) (id : String)
      → GoMap.get app.rtsp_clients id ≡ none
      → start_on_demand_stream E url_ok app id ≡ start_absent E url_ok app id
  unfolding start_on_demand_stream
  not_running_start app id n = rw (n, start_on_demand_stream) refl

  -- In an application whose clients run, startOnDemandStream of an id without a client, where it
  -- returns nil, starts one: to start it again changes nothing, and stopStream then returns nil,
  -- cancels the new client, and leaves the map of clients as it was.
  pub start_then_stop :
      (app mid : App S) (id : String)
      → IsRunning app
      → GoMap.get app.rtsp_clients id ≡ none
      → start_on_demand_stream E url_ok app id ≡ ok mid
      → (start_on_demand_stream E url_ok mid id ≡ ok mid)
        × ((app' : App S) × (stop_stream mid id ≡ ok app') × Restored app id mid app')
  unfolding start_on_demand_stream
  start_then_stop app mid id v n h =
      let starts : start_absent E url_ok app id ≡ ok mid = sym (not_running_start app id n) ∙ h in
      let w = subst IsRunning? h (start_on_demand_stream-IsRunning E url_ok app id v) in
      let m = subst (Mapped app id) starts (start_absent-Mapped app id) in
      (
        rw (m.0, start_on_demand_stream) refl,
        stop_started app mid id (stop_stream mid id) w n m.1 m.0 (stop_stream-Stopped mid id w),
      )

  no_stream_start :
      (app : App S) (id : String)
      → IsRunning app
      → GoMap.get app.stream_manager.streams id ≡ none
      → start_on_demand_stream E url_ok app id ≡ err (stream_missing id)
  unfolding start_absent get_stream
  no_stream_start app id v h =
      not_running_start app id (no_client app id v h) ∙ rw (h, start_absent, get_stream) refl

  path_add-db :
      (app app' : App S) (id : String) (body : PathRequest) (now : ℕ)
      → handle_path_add E url_ok app id (some body) now ≡ (app', http_ok)
      → (s : S) × (record app { db = s } ≡ app')
  unfolding handle_path_add
  path_add-db app app' id body now h =
      elim (Result-cases (create E app.db (path_row id body) now)) [
        | inl (e, g) ↦ absurd (ground arith)
        | inr (s, g) ↦ (s, ground arith)
      ]

  path_delete-db :
      (app app' : App S) (id : String)
      → handle_path_delete E url_ok app id ≡ (app', http_ok)
      → (s : S) × (record app { db = s } ≡ app')
  unfolding handle_path_delete
  path_delete-db app app' id h = elim (Result-cases (erase E app.db id)) [
    | inl (e, g) ↦ absurd (ground arith)
    | inr (s, g) ↦ (s, ground arith)
  ]

  with_db-Reads :
      (app : App S) (id url : String) (s : S)
      → Reads app id url
      → Reads (record app { db = s }) id url
  with_db-Reads app id url s a = record {
    pointer = a.pointer;
    client = a.client;
    mapped = a.mapped;
    at = a.at;
    reads = a.reads;
    running = a.running;
  }

  -- In an application whose clients run, the requests of version 3 write the database alone. After
  -- an handlePathAdd that returns 200 for a path whose stream the manager does not have,
  -- startOnDemandStream reports that there is no stream; and after an handlePathDelete that returns
  -- 200 a client that read a URL under the path reads it as before.
  pub v3_paths_miss_streams :
      (app : App S) (id : String) (body : PathRequest) (now : ℕ)
      → IsRunning app
      → ((app' : App S)
          → handle_path_add E url_ok app id (some body) now ≡ (app', http_ok)
          → GoMap.get app.stream_manager.streams id ≡ none
          → start_on_demand_stream E url_ok app' id ≡ err (stream_missing id))
        × ((app' : App S) (url : String)
            → handle_path_delete E url_ok app id ≡ (app', http_ok)
            → Reads app id url
            → Reads app' id url)
  v3_paths_miss_streams app id body now v = (
    λ app' h n.
        let w = path_add-db app app' id body now h in
        subst (λ t. start_on_demand_stream E url_ok t id ≡ err (stream_missing id)) w.1
          (no_stream_start (record app { db = w.0 }) id (with_db-IsRunning E url_ok app w.0 v) n),
    λ app' url h r.
        let w = path_delete-db app app' id h in
        subst (λ t. Reads t id url) w.1 (with_db-Reads app id url w.0 r),
  )
