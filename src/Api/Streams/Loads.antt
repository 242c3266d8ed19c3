-- ===== src/Api/Streams/Loads.antt =====
-- The load at the start, which leaves every client running.
use media_stream.Base.{
  ℕ, ◌≡◌, String, Bool, List, [], ◌∷◌, Result, ok, err, inl, inr, Option-cases, Result-cases,
  if_cases,
}
use media_stream.GoMap
use media_stream.GoMap.{GoMap, get-empty}
use media_stream.Core.StreamManager.{create_stream, get_stream}
use media_stream.Core.StreamManager.Laws.{with_stream}
use media_stream.Core.ConfigStore.{PathConfig}
use media_stream.Database.{StreamRow, SqlEngine, list_all}
use media_stream.App.{App, AppError, row_config, start_rtsp_client}
use media_stream.App.Loading.{load_started, load_row, load_rows, load_streams, sync_paths}
use media_stream.App.Running.{IsRunning, IsRunning?, run_client-Started, Started-IsRunning}
use media_stream.App.Changes.{with_rest-IsRunning, created-IsRunning}

module _ {S : Type 0} (url_ok : String → Bool) where
  load_started-IsRunning :
      (app : App S) (o : Result AppError (App S))
      → IsRunning app
      → IsRunning? o
      → IsRunning (load_started url_ok app o).0
  unfolding load_started
  load_started-IsRunning app (err e) v w = v
  load_started-IsRunning app (ok app') v w = w

  start_rtsp_client-IsRunning :
      (app : App S) (id : String) (c : PathConfig)
      → IsRunning app
      → IsRunning? (start_rtsp_client app id c url_ok)
  unfolding start_rtsp_client get_stream
  start_rtsp_client-IsRunning app id c v =
      elim (Option-cases (GoMap.get app.stream_manager.streams id)) [
        | inl h ↦ rw (h, start_rtsp_client, get_stream) tt
        | inr (stream, h) ↦
            rw (h, start_rtsp_client, get_stream)
              (Started-IsRunning app id stream (λ u. u ≡ c.source) _ v h
                (run_client-Started app id c.source c.rtsp_transport stream url_ok))
      ]

  load_row-IsRunning :
      (app : App S) (r : StreamRow) → IsRunning app → IsRunning (load_row url_ok app r).0
  unfolding load_row create_stream
  load_row-IsRunning app r v = elim (Option-cases (GoMap.get app.stream_manager.streams r.id)) [
    | inr (stream, h) ↦ rw (h, load_row, create_stream) v
    | inl h ↦
        let w = created-IsRunning app r.id r.name v h in
        let with : App S = record app {
          stream_manager = with_stream app.stream_manager r.id r.name;
        } in
        rw (h, load_row, create_stream)
          (if_cases (λ (t : App S × Bool). IsRunning t.0) r.source_on_demand (λ d. w)
            (λ d.
              load_started-IsRunning with (start_rtsp_client with r.id (row_config r) url_ok) w
                (start_rtsp_client-IsRunning with r.id (row_config r) w)))
  ]

  load_rows-IsRunning :
      (app : App S) (rows : List StreamRow) (n : ℕ)
      → IsRunning app
      → IsRunning (load_rows url_ok app rows n).0
  unfolding load_rows
  load_rows-IsRunning app [] n v = v
  load_rows-IsRunning app (r ∷ rows) n v =
      load_rows-IsRunning (load_row url_ok app r).0 rows _ (load_row-IsRunning app r v)

module _ {S : Type 0} (E : SqlEngine S) (url_ok : String → Bool) where
  pub load_streams-IsRunning :
      (app : App S) (now : ℕ) → IsRunning app → IsRunning (load_streams E url_ok app now).0
  unfolding load_streams
  load_streams-IsRunning app now v =
      let s = sync_paths E app.db app.paths.entries now in
      let synced : App S = record app { db = s } in
      let w = with_rest-IsRunning app s app.webrtc_manager app.peer_streams v in
      elim (Result-cases (list_all E s)) [
        | inl (e, h) ↦ rw (h, load_streams) w
        | inr (rows, h) ↦ rw (h, load_streams) (load_rows-IsRunning url_ok synced rows 0 w)
      ]
