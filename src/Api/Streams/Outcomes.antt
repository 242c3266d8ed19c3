-- ===== src/Api/Streams/Outcomes.antt =====
-- What the requests on streams have done, down to the client that reads the camera.
use media_stream.Base.{
  ℕ, ◌≡◌, refl, sym, subst, String, Bool, true, false, Option, none, some, arith, eq_refl,
  get_elem?, ok, inl, inr, Option-cases,
}
use media_stream.GoMap
use media_stream.GoMap.{GoMap, get-put}
use media_stream.Core.StreamManager.{get_stream}
use media_stream.Core.ConfigStore.{PathConfig}
use media_stream.Database.{StreamRow, SqlEngine, find, modify}
use media_stream.Database.Contract.{SqlLaws, merge, find-row, modify-row}
use media_stream.Rtsp.Client.{Client, stop_client}
use media_stream.App.{
  App, row_config, on_demand_config, start_absent, start_on_demand_stream, stop_stream,
}
use media_stream.App.Reading.{Keeps, Reads, run_client-Reads}
use media_stream.App.Running.{IsRunning}
use media_stream.Api.PathsHandler.{http_ok}
use media_stream.Api.Streams.{attempted, start_always_on, handle_update_stream}
use media_stream.Api.Streams.Safety.{attempted-stop_stream, with_db-IsRunning}

-- The source that an on-demand start takes: config.yaml's where it has the id, or the row's.
abbrev pub source_of : Option PathConfig → String → String
source_of (some c) source = c.source
source_of none source = source

module _ {S : Type 0} (E : SqlEngine S) (url_ok : String → Bool) where
  start_absent-Reads :
      (app : App S) (id : String) (stream : ℕ) (c : PathConfig)
      → GoMap.get app.stream_manager.streams id ≡ some stream
      → on_demand_config E url_ok app id ≡ ok c
      → url_ok c.source ≡ true
      → (app' : App S) × (start_absent E url_ok app id ≡ ok app')
        × Reads app' id c.source
        × Keeps app app'
  unfolding start_absent get_stream
  start_absent-Reads app id stream c f g h =
      rw (f, g, start_absent, get_stream)
        (run_client-Reads app id c.source c.rtsp_transport stream url_ok h)

  start_always_on-Reads :
      (app : App S) (r : StreamRow) (stream : ℕ) (c : PathConfig)
      → r.source_on_demand ≡ false
      → GoMap.get app.rtsp_clients r.id ≡ none
      → GoMap.get app.stream_manager.streams r.id ≡ some stream
      → on_demand_config E url_ok app r.id ≡ ok c
      → url_ok c.source ≡ true
      → Reads (start_always_on E url_ok app r) r.id c.source
        × Keeps app (start_always_on E url_ok app r)
  unfolding start_always_on start_on_demand_stream attempted
  start_always_on-Reads app r stream c d n f g h =
      let a = start_absent-Reads app r.id stream c f g h in
      rw (d, a.1, n, start_always_on, start_on_demand_stream, attempted) (a.2, a.3)

  config_of :
      (app : App S) (id : String) (r : StreamRow)
      → find E app.db id ≡ ok r
      → (c : PathConfig) × (on_demand_config E url_ok app id ≡ ok c)
        × (c.source ≡ source_of (GoMap.get app.paths id) r.source)
  unfolding on_demand_config
  config_of app id r h = elim (Option-cases (GoMap.get app.paths id)) [
    | inl e ↦ (row_config r, rw (e, h, on_demand_config) refl, rw e refl)
    | inr (c, e) ↦ (c, rw (e, on_demand_config) refl, rw e refl)
  ]

  -- Of a stream that is always on.
  pub always_on-Reads :
      (app : App S) (r : StreamRow) (row : StreamRow) (stream : ℕ)
      → r.source_on_demand ≡ false
      → GoMap.get app.rtsp_clients r.id ≡ none
      → GoMap.get app.stream_manager.streams r.id ≡ some stream
      → find E app.db r.id ≡ ok row
      → row.source ≡ r.source
      → url_ok (source_of (GoMap.get app.paths r.id) r.source) ≡ true
      → Reads (start_always_on E url_ok app r) r.id (source_of (GoMap.get app.paths r.id) r.source)
        × Keeps app (start_always_on E url_ok app r)
  always_on-Reads app r row stream d n f g e h =
      let c = config_of app r.id row g in
      let same : c.0.source ≡ source_of (GoMap.get app.paths r.id) r.source = rw (sym e) c.2 in
      let t = start_always_on-Reads app r stream c.0 d n f c.1 (rw same h) in
      (subst (Reads (start_always_on E url_ok app r) r.id) same t.0, t.1)

  module _ (L : SqlLaws E) where
    -- In an application whose clients run, handleUpdateStream with a request for a stream that is
    -- always on, where the row is updated and can be read, the manager has the stream, and the
    -- source parses, restarts the client: the one that ran is cancelled, and the one that runs
    -- reads the source that config.yaml has for the id. The source of the request is read only if
    -- config.yaml has none.
    pub update_restarts :
        (app : App S) (id : String) (body row : StreamRow) (now : ℕ) (s : S) (stream : ℕ)
        → IsRunning app
        → modify E app.db (record body { id = id }) now ≡ ok s
        → find E s id ≡ ok row
        → body.source_on_demand ≡ false
        → GoMap.get app.stream_manager.streams id ≡ some stream
        → url_ok (source_of (GoMap.get app.paths id) body.source) ≡ true
        → (app' : App S) × (handle_update_stream E url_ok app id (some body) now ≡ (app', http_ok))
          × Reads app' id (source_of (GoMap.get app.paths id) body.source)
          × ((r : ℕ) (c : Client)
              → GoMap.get app.rtsp_clients id ≡ some r
              → get_elem? app.clients r ≡ some c
              → get_elem? app'.clients r ≡ some (stop_client c))
    unfolding handle_update_stream
    update_restarts app id body row now s stream v m f d g h =
        let new : StreamRow = record body { id = id } in
        let updated : App S = record app { db = s } in
        let mid : App S = attempted updated (stop_stream updated id) in
        let halted = (attempted-stop_stream updated id (with_db-IsRunning E url_ok app s v)).1 in
        let old = modify-row E L app.db s new now m in
        let written : L.row s id ≡ some (merge (record new { updated_at = now }) old.0) =
          ground (arith, old.2 id, eq_refl id) in
        let read = find-row E L s id row f in
        let t =
          always_on-Reads mid new row stream d halted.0 (rw halted.2 g) (rw halted.3 f)
            (ground (arith, read, written)) (rw halted.4 h) in
        (
          start_always_on E url_ok mid new,
          rw (m, handle_update_stream) refl,
          subst
              (λ paths.
                Reads (start_always_on E url_ok mid new) id
                  (source_of (GoMap.get paths id) body.source))
              halted.4 t.0,
          λ r c e k. t.1 r (stop_client c) (halted.1 r c e k),
        )
