-- ===== src/Api/Streams/Requests.antt =====
-- Creating, deleting, starting and stopping streams, and the paths of version 3.
use media_stream.Base.{
  ℕ, ◌≡◌, ◌⊎◌, refl, subst, String, Bool, true, false, none, some, arith, str_eq, eq_refl,
  if◌then◌else◌, is_some, length, ok, inl, inr, Option-cases,
}
use media_stream.GoMap
use media_stream.GoMap.{GoMap, get-put, get-remove}
use media_stream.Core.StreamManager.{create_stream}
use media_stream.Core.StreamManager.Laws.{with_stream}
use media_stream.Database.{StreamRow, SqlEngine, create, find}
use media_stream.Database.Contract.{SqlLaws, stamp, create-row, find-row, erase-row}
use media_stream.App.{App}
use media_stream.App.Reading.{Reads}
use media_stream.App.Running.{IsRunning}
use media_stream.Api.PathsHandler.{HttpStatus, http_ok, http_created, http_internal_error}
use media_stream.Api.Streams.{
  with_defaults, ensure_stream, start_always_on, handle_create_stream, handle_delete_stream,
}
use media_stream.Api.Streams.Safety.{Deleted, delete-cases, create-IsRunning}
use media_stream.Api.Streams.Outcomes.{source_of, always_on-Reads}

module _ {S : Type 0} where
  pub no_client :
      (app : App S) (id : String)
      → IsRunning app
      → GoMap.get app.stream_manager.streams id ≡ none
      → GoMap.get app.rtsp_clients id ≡ none
  no_client app id v h = elim (Option-cases (GoMap.get app.rtsp_clients id)) [
    | inl e ↦ e
    | inr (r, e) ↦ absurd (ground (arith, h, (v.served id r e).fed))
  ]

module _ {S : Type 0} (E : SqlEngine S) (url_ok : String → Bool) (L : SqlLaws E) where
  -- In an application whose clients run, handleCreateStream of a stream that is always on, under an
  -- id that the manager does not have, where the row is created and can be read and the source
  -- parses, answers 201 and puts a stream under the id and a client that feeds it; the client reads
  -- config.yaml's source for the id, or else the request's.
  pub create_runs :
      (app : App S) (body row : StreamRow) (now : ℕ) (s : S)
      → IsRunning app
      → create E app.db (with_defaults body) now ≡ ok s
      → find E s (with_defaults body).id ≡ ok row
      → body.source_on_demand ≡ false
      → GoMap.get app.stream_manager.streams (with_defaults body).id ≡ none
      → url_ok (source_of (GoMap.get app.paths (with_defaults body).id) body.source) ≡ true
      → (app' : App S) × (handle_create_stream E url_ok app (some body) now ≡ (app', http_created))
        × IsRunning app'
        × Reads app'
            (with_defaults body).id
            (source_of (GoMap.get app.paths (with_defaults body).id) body.source)
  unfolding handle_create_stream ensure_stream create_stream
  create_runs app body row now s v m f d g h =
      let r : StreamRow = with_defaults body in
      let with : App S = record app {
        db = s;
        stream_manager = with_stream app.stream_manager r.id r.name;
      } in
      let written = create-row E L app.db s r now m in
      let stored : L.row s r.id ≡ some (stamp now r) =
        ground (arith, written.1 r.id, eq_refl r.id) in
      let read = find-row E L s r.id row f in
      let there : GoMap.get with.stream_manager.streams r.id
          ≡ some (length app.stream_manager.heap) =
        ground (
          arith,
          get-put app.stream_manager.streams r.id r.id (length app.stream_manager.heap),
          eq_refl r.id,
        ) in
      let t =
        always_on-Reads E url_ok with r row (length app.stream_manager.heap) d
          (no_client app r.id v g) there f (ground (arith, read, stored)) h in
      let done : handle_create_stream E url_ok app (some body) now
          ≡ (start_always_on E url_ok with r, http_created) =
        rw (m, g, handle_create_stream, ensure_stream, create_stream) refl in
      (
        start_always_on E url_ok with r,
        done,
        subst (λ (p : App S × HttpStatus). IsRunning p.0) done
            (create-IsRunning E url_ok app (some body) now v),
        t.0,
      )

  -- In an application whose clients run, handleDeleteStream does not panic. It returns 500 and
  -- changes nothing, or it returns 200; then the id had a row and has none, every other row is as
  -- it was, no client runs under the id and the one that did is cancelled, and the manager has no
  -- stream under the id and has shut the one it had.
  pub delete_is_complete :
      (app : App S) (id : String)
      → IsRunning app
      → (handle_delete_stream E url_ok app id ≡ some (app, http_internal_error))
        ⊎ ((app' : App S) × (handle_delete_stream E url_ok app id ≡ some (app', http_ok))
            × IsRunning app'
            × (is_some (L.row app.db id) ≡ true)
            × ((k : String) → L.row app'.db k ≡ (if str_eq id k then none else L.row app.db k))
            × Deleted E url_ok app id app'.db app')
  delete_is_complete app id v = elim (delete-cases E url_ok app id v) [
    | inl h ↦ inl h
    | inr (s, app', h, e, w, d) ↦
        let gone = erase-row E L app.db s id e in
        inr (app', h, w, gone.0, λ k. rw d.0 (gone.1 k), (refl, d.1, d.2, d.3, d.4))
  ]
