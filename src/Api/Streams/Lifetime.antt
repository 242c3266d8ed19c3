-- ===== src/Api/Streams/Lifetime.antt =====
-- The life of the application, from its start and its load through any sequence of events, each of
-- which is served before the next one.
use media_stream.Base.{
  ℕ, ◌≡◌, ◌∙◌, subst, sym, String, Bool, false, Option, none, some, arith, inl, inr, Bool-cases,
  Result-cases,
}
use media_stream.Base.Int.{ℤ}
use media_stream.GoMap
use media_stream.GoMap.{GoMap, get-empty}
use media_stream.Core.Stream.Lasting.{is_shutdown}
use media_stream.Core.StreamManager.{new_stream_manager, get_stream}
use media_stream.Core.ConfigStore.{PathConfig}
use media_stream.Database.{SqlEngine, create, erase}
use media_stream.Process.{new_manager}
use media_stream.App.{App, new_app, start_on_demand_stream}
use media_stream.App.Loading.{load_streams}
use media_stream.App.Running.{IsRunning, IsRunning?}
use media_stream.App.Stopping.{start_on_demand_stream-IsRunning}
use media_stream.App.Changes.{with_rest-IsRunning}
use media_stream.App.Offers.{offer_begin, on_peer_closed, cleanup_peer}
use media_stream.Api.Streams.{
  PathRequest, delete_begin, remove_managed, path_row, handle_start_stream, handle_path_add,
  handle_path_delete,
}
use media_stream.Api.Streams.Serving.{
  AppEvent, creates, updates, deletes, begins_delete, ends_delete, after_delete_begin, starts,
  deletes_path, announces, begins_offer, closes_peer, adds_path, adds_peer, answers, changes_stream,
  runs_client, after_begin, serve_app,
}
use media_stream.Api.Streams.Safety.{
  Left, remove_managed-Unmanaged, ensure_stream-IsRunning, create-IsRunning, update-IsRunning,
  delete-cases,
}
use media_stream.Api.Streams.Loads.{load_streams-IsRunning}
use media_stream.Api.Streams.Races.{delete_begin-Begun}
use media_stream.Api.Streams.Peers.{
  drop_peer-IsRunning, cleanup_peer-IsRunning, offer_peer-IsRunning, offer_answered-IsRunning,
  change_stream-Left, run_at-IsRunning,
}

module _ {S : Type 0} (E : SqlEngine S) (url_ok : String → Bool) where
  -- Not the shutdown of a stream by itself, which is part of RemoveStream; and a deletion goes on to
  -- its RemoveStream only if no client has been started since it stopped the one under the id.
  abbrev pub Allowed : App S → AppEvent → Type 0
  Allowed app (changes_stream r e) = is_shutdown e ≡ false
  Allowed app (ends_delete id) = GoMap.get app.rtsp_clients id ≡ none
  Allowed app _ = Unit

  start-IsRunning :
      (app : App S) (id : String)
      → IsRunning app
      → IsRunning (handle_start_stream E url_ok app id).0
  unfolding handle_start_stream
  start-IsRunning app id v =
      let w = start_on_demand_stream-IsRunning E url_ok app id v in
      elim (Result-cases (start_on_demand_stream E url_ok app id)) [
        | inl (e, h) ↦ rw (h, handle_start_stream) v
        | inr (app', h) ↦ rw (h, handle_start_stream) (subst IsRunning? h w)
      ]

  begin-IsRunning :
      (app : App S) (id : String)
      → IsRunning app
      → IsRunning (after_begin app (offer_begin E url_ok app id))
  unfolding offer_begin after_begin
  begin-IsRunning app id v = elim (Result-cases (get_stream app.stream_manager id)) [
    | inl (e, h) ↦ rw (h, offer_begin) v
    | inr (r, h) ↦ elim (Bool-cases (GoMap.contains app.rtsp_clients id)) [
      | inl g ↦ rw (h, g, offer_begin) v
      | inr g ↦
          let w = start_on_demand_stream-IsRunning E url_ok app id v in
          elim (Result-cases (start_on_demand_stream E url_ok app id)) [
            | inl (e, o) ↦ rw (h, o, g, offer_begin) v
            | inr (app', o) ↦ rw (h, o, g, offer_begin) (subst IsRunning? o w)
          ]
    ]
  ]

  path_add-IsRunning :
      (app : App S) (id : String) (body : Option PathRequest) (now : ℕ)
      → IsRunning app
      → IsRunning (handle_path_add E url_ok app id body now).0
  unfolding handle_path_add
  path_add-IsRunning app id none now v = v
  path_add-IsRunning app id (some body) now v =
      elim (Result-cases (create E app.db (path_row id body) now)) [
        | inl (e, h) ↦ rw (h, handle_path_add) v
        | inr (s, h) ↦
            rw (h, handle_path_add)
              (with_rest-IsRunning app s app.webrtc_manager app.peer_streams v)
      ]

  path_delete-IsRunning :
      (app : App S) (id : String) → IsRunning app → IsRunning (handle_path_delete E url_ok app id).0
  unfolding handle_path_delete
  path_delete-IsRunning app id v = elim (Result-cases (erase E app.db id)) [
    | inl (e, h) ↦ rw (h, handle_path_delete) v
    | inr (s, h) ↦
        rw (h, handle_path_delete) (with_rest-IsRunning app s app.webrtc_manager app.peer_streams v)
  ]

  delete-Left :
      (app : App S) (id : String) → IsRunning app → Left (serve_app E url_ok app (deletes id))
  unfolding serve_app
  delete-Left app id v = elim (delete-cases E url_ok app id v) [
    | inl h ↦ rw (h, serve_app) v
    | inr (s, app', h, e, w, d) ↦ rw (h, serve_app) w
  ]

  begin_delete-IsRunning :
      (app : App S) (id : String)
      → IsRunning app
      → IsRunning (after_delete_begin app (delete_begin E url_ok app id))
  unfolding after_delete_begin
  begin_delete-IsRunning app id v = elim (Result-cases (delete_begin E url_ok app id)) [
    | inl (e, h) ↦ rw h v
    | inr (mid, h) ↦ rw h ((delete_begin-Begun E url_ok app mid id v h).0)
  ]

  end_delete-Left :
      (app : App S) (id : String)
      → GoMap.get app.rtsp_clients id ≡ none
      → IsRunning app
      → Left (remove_managed app id)
  end_delete-Left app id n v = let u = remove_managed-Unmanaged app id v n in rw u.1 u.2

  serve_app-Left :
      (app : App S) (e : AppEvent) → Allowed app e → IsRunning app → Left (serve_app E url_ok app e)
  unfolding serve_app on_peer_closed
  serve_app-Left app (creates body now) a v = create-IsRunning E url_ok app body now v
  serve_app-Left app (updates id body now) a v = update-IsRunning E url_ok app id body now v
  serve_app-Left app (deletes id) a v = delete-Left app id v
  serve_app-Left app (begins_delete id) a v = begin_delete-IsRunning app id v
  serve_app-Left app (ends_delete id) a v = end_delete-Left app id a v
  serve_app-Left app (starts id) a v = start-IsRunning app id v
  serve_app-Left app (deletes_path id) a v = path_delete-IsRunning app id v
  serve_app-Left app (announces id) a v = ensure_stream-IsRunning app id id v
  serve_app-Left app (begins_offer id) a v = begin-IsRunning app id v
  serve_app-Left app (closes_peer id) a v =
      drop_peer-IsRunning (cleanup_peer app id) id (cleanup_peer-IsRunning app id v)
  serve_app-Left app (adds_path id body now) a v = path_add-IsRunning app id body now v
  serve_app-Left app (adds_peer stream_id id) a v = offer_peer-IsRunning app stream_id id v
  serve_app-Left app (answers stream_id id r answer) a v =
      offer_answered-IsRunning app stream_id id r answer v
  serve_app-Left app (changes_stream r e) a v = change_stream-Left app r e a v
  serve_app-Left app (runs_client r t) a v = run_at-IsRunning app r t v

  -- The application after some events that did not panic.
  pub data Reach (start : App S) : App S → Type 0 where
    here : Reach start start
    next :
        (app app' : App S) (e : AppEvent)
        → Reach start app
        → Allowed app e
        → serve_app E url_ok app e ≡ some app'
        → Reach start app'

  Reach-IsRunning : (start app : App S) → IsRunning start → Reach start app → IsRunning app
  Reach-IsRunning start app v here = v
  Reach-IsRunning start app v (next mid end e r a h) =
      subst Left h (serve_app-Left mid e a (Reach-IsRunning start mid v r))

  no_entry : (id : String) (r : ℕ) → GoMap.get (GoMap.empty {V = ℕ}) id ≡ some r → ⊥
  no_entry id r e =
      let p : ◌≡◌ {A = Option ℕ} none (some r) = sym (get-empty {V = ℕ} id) ∙ e in
      absurd (ground arith)

  pub new_app-IsRunning :
      (paths : GoMap PathConfig) (timeout retries delay buffer peers : ℤ) (db : S)
      → IsRunning (new_app paths timeout retries delay buffer peers db)
  unfolding new_app new_stream_manager new_manager GoMap.empty
  new_app-IsRunning paths timeout retries delay buffer peers db = record {
    managed = record { distinct = tt; managed = λ id r e. absurd (no_entry id r e) };
    no_process = λ id. get-empty {V = ℕ} id;
    served = λ id r e. absurd (no_entry id r e);
  }

  -- If each request, and each stage of an offer, is served as a whole before the next event, but for
  -- deletions, which others may overlap as long as no client runs under the id when the RemoveStream
  -- comes, then from the start on, and whatever requests, stages of offers, events of streams and
  -- attempts of clients follow the load without a panic (a stream being shut by its removal alone),
  -- every entry of the application's client map leads to a client that is not cancelled and that
  -- feeds the stream which the manager has under the same id.
  pub clients_feed_their_streams :
      (paths : GoMap PathConfig) (timeout retries delay buffer peers : ℤ) (db : S) (now : ℕ)
      (app : App S)
      → Reach
          (load_streams E url_ok (new_app paths timeout retries delay buffer peers db) now).0
          app
      → IsRunning app
  clients_feed_their_streams paths timeout retries delay buffer peers db now app r =
      let start = new_app paths timeout retries delay buffer peers db in
      Reach-IsRunning (load_streams E url_ok start now).0 app
        (load_streams-IsRunning E url_ok start now
          (new_app-IsRunning paths timeout retries delay buffer peers db))
        r
