-- ===== src/Api/Streams/Safety.antt =====
-- No event stops a client that the application has, or leaves one without its stream.
use media_stream.Base.{
  ℕ, ◌≡◌, refl, ◌∙◌, String, Bool, Option, none, some, arith, eq_refl, get_elem?-set_self,
  get_elem?-some_lt, subst, Result-cases, if_cases, get_elem?, set, Result, ok, err, inl, inr,
  Option-cases, ◌⊎◌,
}
use media_stream.GoMap
use media_stream.GoMap.{GoMap, get-remove, get-empty}
use media_stream.Core.Stream.{Stream, shut}
use media_stream.Core.StreamManager.{create_stream, remove_stream}
use media_stream.Core.StreamManager.Laws.{without_stream}
use media_stream.Database.{StreamRow, SqlEngine, create, modify, erase}
use media_stream.Rtsp.Client.{Client, stop_client}
use media_stream.App.{App, AppError, start_on_demand_stream, stop_stream}
use media_stream.App.Running.{IsRunning, IsRunning?}
use media_stream.App.Stopping.{
  Stopped, idle, stopped, stop_stream-Stopped, without_client-IsRunning, without_client-stopped,
  start_on_demand_stream-IsRunning,
}
use media_stream.App.Changes.{with_rest-IsRunning, created-IsRunning, removed-IsRunning}
use media_stream.Api.PathsHandler.{http_ok, http_internal_error}
use media_stream.Api.Streams.{
  ensure_stream, attempted, remove_managed, start_always_on, with_defaults, handle_create_stream,
  handle_update_stream, delete_begin, handle_delete_stream,
}

-- What is left where nothing panicked.
abbrev pub Left : {S : Type 0} → Option (App S) → Type 0
Left none = Unit
Left (some app) = IsRunning app

module _ {S : Type 0} where
  attempted-IsRunning :
      (app : App S) (o : Result AppError (App S))
      → IsRunning app
      → IsRunning? o
      → IsRunning (attempted app o)
  unfolding attempted
  attempted-IsRunning app (err e) v w = v
  attempted-IsRunning app (ok app') v w = w

  pub ensure_stream-IsRunning :
      (app : App S) (id name : String)
      → IsRunning app
      → IsRunning (record app { stream_manager = ensure_stream app.stream_manager id name })
  unfolding ensure_stream create_stream
  ensure_stream-IsRunning app id name v =
      elim (Option-cases (GoMap.get app.stream_manager.streams id)) [
        | inl h ↦ rw (h, ensure_stream, create_stream) (created-IsRunning app id name v h)
        | inr (r, h) ↦ rw (h, ensure_stream, create_stream) v
      ]

  -- What stopStream has left, whatever it returned: no client runs under the id, and the one that
  -- did is cancelled.
  abbrev pub Halted : App S → String → App S → Type 0
  Halted app id app' =
      (GoMap.get app'.rtsp_clients id ≡ none)
      × ((r : ℕ) (c : Client)
          → GoMap.get app.rtsp_clients id ≡ some r
          → get_elem? app.clients r ≡ some c
          → get_elem? app'.clients r ≡ some (stop_client c))
      × (app'.stream_manager ≡ app.stream_manager)
      × (app'.db ≡ app.db)
      × (app'.paths ≡ app.paths)

  Stopped-Halted :
      (app : App S) (id : String) (o : Result AppError (App S))
      → IsRunning app
      → Stopped app id o
      → IsRunning (attempted app o) × Halted app id (attempted app o)
  unfolding attempted
  Stopped-Halted app id o v (idle h) =
      (v, (h, λ r c e. absurd (ground (arith, e, h)), refl, refl, refl))
  Stopped-Halted app id o v (stopped r c h e) = (
    without_client-IsRunning app id r c v h,
    (
      ground (arith, get-remove app.rtsp_clients id id, eq_refl id),
      λ i d f g. without_client-stopped app id r i c d h e f g,
      refl,
      refl,
      refl,
    ),
  )

  pub attempted-stop_stream :
      (app : App S) (id : String)
      → IsRunning app
      → IsRunning (attempted app (stop_stream app id))
        × Halted app id (attempted app (stop_stream app id))
  attempted-stop_stream app id v =
      Stopped-Halted app id (stop_stream app id) v (stop_stream-Stopped app id v)

  -- What RemoveStream has left of the application: the id leads nowhere, and the stream that it led
  -- to is shut.
  abbrev pub Unmanaged : App S → String → App S → Type 0
  Unmanaged app id app' =
      (GoMap.get app'.stream_manager.streams id ≡ none)
      × ((r : ℕ)
          → GoMap.get app.stream_manager.streams id ≡ some r
          → (s : Stream) × (get_elem? app'.stream_manager.heap r ≡ some (shut s)))
      × (app'.rtsp_clients ≡ app.rtsp_clients)
      × (app'.clients ≡ app.clients)
      × (app'.db ≡ app.db)

  -- RemoveStream of an id without a client does not panic.
  pub remove_managed-Unmanaged :
      (app : App S) (id : String)
      → IsRunning app
      → GoMap.get app.rtsp_clients id ≡ none
      → (app' : App S) × (remove_managed app id ≡ some app')
        × IsRunning app'
        × Unmanaged app id app'
  unfolding remove_managed remove_stream
  remove_managed-Unmanaged app id v n =
      elim (Option-cases (GoMap.get app.stream_manager.streams id)) [
        | inl h ↦
            rw (h, remove_managed, remove_stream)
              (app, refl, v, (h, λ r e. absurd (ground (arith, e)), refl, refl, refl))
        | inr (r, h) ↦
            let a = v.managed.managed id r h in
            (
              record app { stream_manager = without_stream app.stream_manager id r a.stream },
              rw (h, a.at, a.buffer_open, remove_managed, remove_stream) refl,
              removed-IsRunning app id r a.stream v n h,
              (
                ground (arith, get-remove app.stream_manager.streams id id, eq_refl id),
                λ i e. (
                  a.stream,
                  subst
                      (λ j.
                        get_elem? (set app.stream_manager.heap r (shut a.stream)) j
                        ≡ some (shut a.stream))
                      (ground (arith, h, e))
                      (get_elem?-set_self app.stream_manager.heap r (shut a.stream)
                        (get_elem?-some_lt app.stream_manager.heap r a.at)),
                ),
                refl,
                refl,
                refl,
              ),
            )
      ]

module _ {S : Type 0} (E : SqlEngine S) (url_ok : String → Bool) where
  start_always_on-IsRunning :
      (app : App S) (r : StreamRow) → IsRunning app → IsRunning (start_always_on E url_ok app r)
  unfolding start_always_on
  start_always_on-IsRunning app r v =
      if_cases IsRunning r.source_on_demand (λ h. v)
        (λ h.
          attempted-IsRunning app (start_on_demand_stream E url_ok app r.id) v
            (start_on_demand_stream-IsRunning E url_ok app r.id v))

  pub with_db-IsRunning : (app : App S) (s : S) → IsRunning app → IsRunning (record app { db = s })
  with_db-IsRunning app s v = with_rest-IsRunning app s app.webrtc_manager app.peer_streams v

  pub create-IsRunning :
      (app : App S) (body : Option StreamRow) (now : ℕ)
      → IsRunning app
      → IsRunning (handle_create_stream E url_ok app body now).0
  unfolding handle_create_stream
  create-IsRunning app none now v = v
  create-IsRunning app (some body) now v =
      let r : StreamRow = with_defaults body in
      elim (Result-cases (create E app.db r now)) [
        | inl (e, h) ↦ rw (h, handle_create_stream) v
        | inr (s, h) ↦
            rw (h, handle_create_stream)
              (start_always_on-IsRunning
                (record app {
                  db = s;
                  stream_manager = ensure_stream app.stream_manager r.id r.name;
                })
                r
                (ensure_stream-IsRunning (record app { db = s }) r.id r.name
                  (with_db-IsRunning app s v)))
      ]

  pub update-IsRunning :
      (app : App S) (id : String) (body : Option StreamRow) (now : ℕ)
      → IsRunning app
      → IsRunning (handle_update_stream E url_ok app id body now).0
  unfolding handle_update_stream
  update-IsRunning app id none now v = v
  update-IsRunning app id (some body) now v =
      let r : StreamRow = record body { id = id } in
      elim (Result-cases (modify E app.db r now)) [
        | inl (e, h) ↦ rw (h, handle_update_stream) v
        | inr (s, h) ↦
            rw (h, handle_update_stream)
              (start_always_on-IsRunning
                (attempted (record app { db = s }) (stop_stream (record app { db = s }) id)) r
                (attempted-stop_stream (record app { db = s }) id (with_db-IsRunning app s v)).0)
      ]

  -- What handleDeleteStream has done with a row: erased it, halted its client, removed its stream.
  abbrev pub Deleted : App S → String → S → App S → Type 0
  Deleted app id s app' =
      (app'.db ≡ s)
      × (GoMap.get app'.rtsp_clients id ≡ none)
      × ((r : ℕ) (c : Client)
          → GoMap.get app.rtsp_clients id ≡ some r
          → get_elem? app.clients r ≡ some c
          → get_elem? app'.clients r ≡ some (stop_client c))
      × (GoMap.get app'.stream_manager.streams id ≡ none)
      × ((r : ℕ)
          → GoMap.get app.stream_manager.streams id ≡ some r
          → (t : Stream) × (get_elem? app'.stream_manager.heap r ≡ some (shut t)))

  Halted-Deleted :
      (app mid app' : App S) (id : String) (s : S)
      → Halted (record app { db = s }) id mid
      → Unmanaged mid id app'
      → Deleted app id s app'
  Halted-Deleted app mid app' id s h u =
      (u.4 ∙ h.3, rw u.2 h.0, λ r c e f. rw u.3 (h.1 r c e f), u.0, λ r e. u.1 r (rw h.2 e))

  pub delete-cases :
      (app : App S) (id : String)
      → IsRunning app
      → (handle_delete_stream E url_ok app id ≡ some (app, http_internal_error))
        ⊎ ((s : S) × (app' : App S) × (handle_delete_stream E url_ok app id ≡ some (app', http_ok))
            × (erase E app.db id ≡ ok s)
            × IsRunning app'
            × Deleted app id s app')
  unfolding handle_delete_stream delete_begin
  delete-cases app id v = elim (Result-cases (erase E app.db id)) [
    | inl (e, h) ↦ inl (rw (h, handle_delete_stream, delete_begin) refl)
    | inr (s, h) ↦
        let d : App S = record app { db = s } in
        let mid : App S = attempted d (stop_stream d id) in
        let m = attempted-stop_stream d id (with_db-IsRunning app s v) in
        let u = remove_managed-Unmanaged mid id m.0 m.1.0 in
        inr (
          s,
          u.0,
          rw (h, handle_delete_stream, delete_begin, u.1) refl,
          h,
          u.2,
          Halted-Deleted app mid u.0 id s m.1 u.3,
        )
  ]
