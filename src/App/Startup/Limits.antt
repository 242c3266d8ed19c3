-- ===== src/App/Startup/Limits.antt =====
-- The limit on peers of a server that has started is the configuration's.
use media_stream.Base.{
  ℕ, ◌≡◌, refl, ◌∙◌, String, Bool, List, [], ◌∷◌, arith, Result, ok, err, Result-cases, inl, inr,
  ap, if_cases,
}
use media_stream.Base.Int.{ℤ, pos, ◌<ℤ◌}
use media_stream.Core.StreamManager.{create_stream, get_stream}
use media_stream.Core.ConfigStore.{PathConfig}
use media_stream.Core.Config.{Config, ConfigFile, parsed, unreadable, malformed, load_config}
use media_stream.Core.Config.Accepted.{IsAccepted, load_config-IsAccepted}
use media_stream.Database.{StreamRow, SqlEngine, list_all}
use media_stream.Webrtc.Peers.{PeerManager, new_peer_manager}
use media_stream.App.{
  App, AppError, new_app, row_config, start_rtsp_client, run_client, make_client,
}
use media_stream.App.Loading.{sync_paths, load_started, load_row, load_rows, load_streams}
use media_stream.App.Startup.{configured_app}

-- The peers after a start that may have failed.
Keeps : {S : Type 0} → PeerManager → Result AppError (App S) → Type 0
Keeps m (ok app) = app.webrtc_manager ≡ m
Keeps m (err e) = Unit {0}

module _ {S : Type 0} (url_ok : String → Bool) where
  run_client-Keeps :
      (app : App S) (id url transport : String) (stream : ℕ)
      → Keeps app.webrtc_manager (run_client app id url transport stream url_ok)
  unfolding Keeps run_client
  run_client-Keeps app id url transport stream =
      elim (Result-cases (make_client app url transport stream url_ok)) [
        | inl (e, h) ↦ rw (h, run_client) tt
        | inr (c, h) ↦ rw (h, run_client) refl
      ]

  start_rtsp_client-Keeps :
      (app : App S) (id : String) (c : PathConfig)
      → Keeps app.webrtc_manager (start_rtsp_client app id c url_ok)
  unfolding Keeps start_rtsp_client
  start_rtsp_client-Keeps app id c = elim (Result-cases (get_stream app.stream_manager id)) [
    | inl (e, h) ↦ rw (h, start_rtsp_client) tt
    | inr (stream, h) ↦
        rw (h, start_rtsp_client) (run_client-Keeps app id c.source c.rtsp_transport stream)
  ]

  load_started-Keeps :
      (app : App S) (m : PeerManager) (o : Result AppError (App S))
      → app.webrtc_manager ≡ m
      → Keeps m o
      → (load_started url_ok app o).0.webrtc_manager ≡ m
  unfolding Keeps load_started
  load_started-Keeps app m (ok app') h k = k
  load_started-Keeps app m (err e) h k = h

  load_row-keeps :
      (app : App S) (r : StreamRow) → (load_row url_ok app r).0.webrtc_manager ≡ app.webrtc_manager
  unfolding load_row
  load_row-keeps app r = elim (Result-cases (create_stream app.stream_manager r.id r.name)) [
    | inl (e, h) ↦ rw (h, load_row) refl
    | inr (made, h) ↦
        let with : App S = record app { stream_manager = made.0 } in
        rw (h, load_row)
          (if_cases (λ (t : App S × Bool). t.0.webrtc_manager ≡ app.webrtc_manager)
            r.source_on_demand (λ d. refl)
            (λ d.
              load_started-Keeps with app.webrtc_manager
                (start_rtsp_client with r.id (row_config r) url_ok) refl
                (start_rtsp_client-Keeps with r.id (row_config r))))
  ]

  load_rows-keeps :
      (app : App S) (rows : List StreamRow) (n : ℕ)
      → (load_rows url_ok app rows n).0.webrtc_manager ≡ app.webrtc_manager
  unfolding load_rows
  load_rows-keeps app [] n = refl
  load_rows-keeps app (r ∷ rows) n =
      load_rows-keeps (load_row url_ok app r).0 rows _ ∙ load_row-keeps app r

module _ {S : Type 0} (E : SqlEngine S) (url_ok : String → Bool) where
  load_streams-keeps :
      (app : App S) (now : ℕ)
      → (load_streams E url_ok app now).0.webrtc_manager ≡ app.webrtc_manager
  unfolding load_streams
  load_streams-keeps app now =
      let s = sync_paths E app.db app.paths.entries now in
      let synced : App S = record app { db = s } in
      elim (Result-cases (list_all E s)) [
        | inl (e, h) ↦ rw (h, load_streams) refl
        | inr (rows, h) ↦ rw (h, load_streams) (load_rows-keeps url_ok synced rows 0)
      ]

max_peers-positive : (n : ℤ) → pos 0 <ℤ n → (new_peer_manager n).max_peers ≡ n
unfolding new_peer_manager
max_peers-positive n h = ground (arith, h)

-- What LoadConfig accepts is acceptable.
pub loaded-IsAccepted :
    (file : ConfigFile) (config : Config) → load_config file ≡ ok config → IsAccepted config
unfolding load_config
loaded-IsAccepted unreadable config h = absurd (ground (arith, h))
loaded-IsAccepted malformed config h = absurd (ground (arith, h))
loaded-IsAccepted (parsed c) config h = ((load_config-IsAccepted c config).0 h).1

pub max_peers-booted :
    {S : Type 0} (E : SqlEngine S) (url_ok : String → Bool) (config : Config) (db : S) (now : ℕ)
    → IsAccepted config
    → (load_streams E url_ok (configured_app config db) now).0.webrtc_manager.max_peers
      ≡ config.webrtc.settings.max_peers
unfolding new_app
max_peers-booted E url_ok config db now v =
    ap (λ (m : PeerManager). m.max_peers)
      (load_streams-keeps E url_ok (configured_app config db) now)
    ∙ max_peers-positive config.webrtc.settings.max_peers v.peers
