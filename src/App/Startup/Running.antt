-- ===== src/App/Startup/Running.antt =====
-- When the start succeeds, and what then holds.
use media_stream.Base.{
  Result, err, ℕ, ◌≡◌, refl, String, Bool, true, false, List, [], ◌∷◌, ◌++◌, ◌&&◌, ◌||◌, not, arith,
  if◌then◌else◌, ok, subst, sym, ◌∙◌, Result-cases, Bool-cases, inl, inr,
}
use media_stream.Core.Config.{Config, ConfigError, ConfigFile, load_config}
use media_stream.Database.{SqlEngine}
use media_stream.App.{App}
use media_stream.App.Loading.{load_streams}
use media_stream.App.Running.{IsRunning}
use media_stream.Api.Streams.Loads.{load_streams-IsRunning}
use media_stream.Api.Streams.Lifetime.{new_app-IsRunning}
use media_stream.Core.Config.Accepted.{IsAccepted}
use media_stream.App.Startup.Limits.{loaded-IsAccepted, max_peers-booted}
use media_stream.App.Startup.{
  configured_app, Machine, Resource, sql_pool, rtsp_listener, inactivity_monitor, open_database,
  http_listener, start_rtsp_server, Booted, serving, initialization_failed, version_shown,
  config_refused, initialize_application, load_booted, boot,
}

-- What has to work. The HTTP port is not among it.
abbrev pub can_serve : Config → Machine → Bool
can_serve config os =
    os.makes_directory
    && os.opens_database
    && os.pings_database
    && os.migrates_database
    && (not config.rtsp.server.enabled || os.starts_rtsp)

-- The file is accepted, and what it asks for works.
abbrev pub accepted : Machine → Result ConfigError Config → Bool
accepted os (err e) = false
accepted os (ok config) = can_serve config os

-- The last one first: the monitor, the RTSP server where the configuration has it, the HTTP
-- listener where its port was free, and the database.
abbrev pub held_open : Config → Machine → List Resource
held_open config os =
    inactivity_monitor ∷ (if config.rtsp.server.enabled then rtsp_listener ∷ [] else [])
    ++ (if os.binds_http then http_listener ∷ [] else [])
    ++ sql_pool ∷ []

abbrev pub is_serving : {S : Type 0} → Booted S → Bool
is_serving (serving app opened) = true
is_serving other = false

module _ {S : Type 0} where
  initialize-serving :
      (config : Config) (os : Machine) (db : S)
      → can_serve config os ≡ true
      → initialize_application config os db
        ≡ serving (configured_app config db) (held_open config os)
  unfolding initialize_application open_database start_rtsp_server
  initialize-serving config os db h = ground (arith, h)

  initialize-is_serving :
      (config : Config) (os : Machine) (db : S)
      → is_serving (initialize_application config os db) ≡ can_serve config os
  unfolding initialize_application open_database start_rtsp_server
  initialize-is_serving config os db = ground arith

module _ {S : Type 0} (E : SqlEngine S) (url_ok : String → Bool) where
  load_booted-is_serving :
      (now : ℕ) (b : Booted S) → is_serving (load_booted E url_ok now b) ≡ is_serving b
  unfolding load_booted
  load_booted-is_serving now version_shown = refl
  load_booted-is_serving now (config_refused e) = refl
  load_booted-is_serving now (initialization_failed e opened) = refl
  load_booted-is_serving now (serving app opened) = refl

  boot-is_serving :
      (show_version : Bool) (file : ConfigFile) (os : Machine) (db : S) (now : ℕ)
      → is_serving (boot E url_ok show_version file os db now)
        ≡ (not show_version && accepted os (load_config file))
  unfolding boot
  boot-is_serving true file os db now = refl
  boot-is_serving false file os db now = elim (Result-cases (load_config file)) [
    | inl (e, h) ↦ rw (h, boot) refl
    | inr (config, h) ↦
        rw (h, boot)
          (load_booted-is_serving now (initialize_application config os db)
            ∙ initialize-is_serving config os db)
  ]

  -- The application of a start that succeeds.
  abbrev booted : Config → S → ℕ → App S
  booted config db now = (load_streams E url_ok (configured_app config db) now).0

  -- How main ends or goes on.
  pub data Boots (show_version : Bool) (file : ConfigFile) (os : Machine) (db : S) (now : ℕ)
      : Booted S → Type 0 where
    stops :
        (b : Booted S)
        → is_serving b ≡ false
        → (not show_version && accepted os (load_config file)) ≡ false
        → Boots show_version file os db now b
    serves :
        (config : Config)
        → show_version ≡ false
        → load_config file ≡ ok config
        → can_serve config os ≡ true
        → IsAccepted config
        → IsRunning (booted config db now)
        → (booted config db now).webrtc_manager.max_peers ≡ config.webrtc.settings.max_peers
        → Boots show_version file os db now (serving (booted config db now) (held_open config os))

  booted-IsRunning : (config : Config) (db : S) (now : ℕ) → IsRunning (booted config db now)
  booted-IsRunning config db now = load_streams-IsRunning E url_ok (configured_app config db) now (
      new_app-IsRunning E url_ok config.paths config.rtsp.client.timeout
        config.rtsp.client.retry_count config.rtsp.client.retry_delay config.media.video_buffer_size
        config.webrtc.settings.max_peers db)

  boot-booted :
      (file : ConfigFile) (config : Config) (os : Machine) (db : S) (now : ℕ)
      → load_config file ≡ ok config
      → can_serve config os ≡ true
      → boot E url_ok false file os db now ≡ serving (booted config db now) (held_open config os)
  unfolding boot load_booted
  boot-booted file config os db now h c = rw (h, boot, initialize-serving config os db c) refl

  boot-stops :
      (show_version : Bool) (file : ConfigFile) (os : Machine) (db : S) (now : ℕ)
      → (not show_version && accepted os (load_config file)) ≡ false
      → Boots show_version file os db now (boot E url_ok show_version file os db now)
  boot-stops show_version file os db now h =
      stops (boot E url_ok show_version file os db now)
        (boot-is_serving show_version file os db now ∙ h) h

  -- main gets as far as the wait for a signal exactly if it was not asked for the version,
  -- LoadConfig accepts the file, the database can be opened and migrated, and the RTSP server,
  -- where it is enabled, starts; neither the HTTP port nor an error of the load matters. The
  -- configuration is then within the bounds of Validate, the application is the one that the load
  -- leaves, it runs, its limit on peers is the file's, and what is open is the database, the HTTP
  -- listener exactly if its port could be bound, the RTSP server where it is enabled, and the
  -- inactivity monitor.
  pub boot-Boots :
      (show_version : Bool) (file : ConfigFile) (os : Machine) (db : S) (now : ℕ)
      → Boots show_version file os db now (boot E url_ok show_version file os db now)
  boot-Boots true file os db now = boot-stops true file os db now refl
  boot-Boots false file os db now = elim (Result-cases (load_config file)) [
    | inl (e, h) ↦ boot-stops false file os db now (rw (h, accepted) refl)
    | inr (config, h) ↦ elim (Bool-cases (can_serve config os)) [
      | inr n ↦ boot-stops false file os db now (rw (h, accepted) n)
      | inl c ↦ subst (Boots false file os db now) (sym (boot-booted file config os db now h c)) (
          serves config refl h c (loaded-IsAccepted file config h) (booted-IsRunning config db now)
            (max_peers-booted E url_ok config db now (loaded-IsAccepted file config h)))
    ]
  ]
