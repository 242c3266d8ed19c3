-- ===== src/App/Startup.antt =====
-- `main` and initializeApplication of go-legacy/cmd/server/main.go, up to the wait for a signal,
-- New of internal/database/database.go, and Start of the two servers. What the operating system,
-- the SQL driver and gortsplib answer are arguments; log lines and the tuning of the collector are
-- left out.
pub mod Limits
pub mod Running
mod Tests
use media_stream.Base.{
  ℕ, ◌≡◌, String, Bool, true, false, Option, none, some, List, [], ◌∷◌, ◌++◌, if◌then◌else◌, Result,
  ok, err,
}
use media_stream.Base.Int.{ℤ}
use media_stream.GoMap.{GoMap}
use media_stream.Core.ConfigStore.{PathConfig}
use media_stream.Core.Config.{Config, ConfigFile, ConfigError, load_config}
use media_stream.Database.{SqlEngine}
use media_stream.App.{App, new_app}
use media_stream.App.Loading.{load_streams}

-- What the process meets when it starts. InitLogger returns no error.
pub record Machine : Type 0 where
  pub makes_directory : Bool
  pub opens_database : Bool
  pub pings_database : Bool
  pub migrates_database : Bool
  pub binds_http : Bool
  pub starts_rtsp : Bool

-- What the process holds open, the last one first.
pub data Resource : Type 0 where
  sql_pool http_listener rtsp_listener inactivity_monitor : Resource

pub data BootError : Type 0 where
  directory_not_made database_not_opened database_not_pinged database_not_migrated : BootError
  rtsp_not_started : BootError

-- database.New: what stays open, and the error. Nothing closes the pool when Ping or migrate fails.
unfoldable pub open_database : Machine → List Resource × Option BootError
open_database os =
    if os.makes_directory
    then (if os.opens_database
        then (if os.pings_database
            then (sql_pool ∷ [], if os.migrates_database then none else some database_not_migrated)
            else (sql_pool ∷ [], some database_not_pinged))
        else ([], some database_not_opened))
    else ([], some directory_not_made)

-- Server.Start of the API: it listens in a goroutine, and an error is only logged.
abbrev pub start_api_server : Machine → List Resource → List Resource
start_api_server os opened = if os.binds_http then http_listener ∷ opened else opened

-- The stage of the RTSP server.
unfoldable pub start_rtsp_server :
    Config → Machine → List Resource → List Resource × Option BootError
start_rtsp_server config os opened =
    if config.rtsp.server.enabled
    then (if os.starts_rtsp
        then (rtsp_listener ∷ opened, none)
        else (opened, some rtsp_not_started))
    else (opened, none)

-- How far the start came. A failed initialization ends the process by Fatal, which runs none of the
-- deferred calls.
pub data Booted (S : Type 0) : Type 0 where
  version_shown : Booted S
  config_refused : ConfigError → Booted S
  initialization_failed : BootError → List Resource → Booted S
  serving : App S → List Resource → Booted S

-- The application with its managers, as far as the configuration sets them up.
abbrev pub configured_app : {S : Type 0} → Config → S → App S
configured_app config db =
    new_app config.paths config.rtsp.client.timeout config.rtsp.client.retry_count
      config.rtsp.client.retry_delay config.media.video_buffer_size config.webrtc.settings.max_peers
      db

module _ {S : Type 0} where
  -- initializeApplication; `db` is what the database holds.
  unfoldable pub initialize_application : Config → Machine → S → Booted S
  unfolding open_database start_rtsp_server
  initialize_application config os db =
      let (opened, failure) = open_database os in
      elim failure [
        | some e ↦ initialization_failed e opened
        | none ↦
            (let (all, rtsp_failure) = start_rtsp_server config os (start_api_server os opened) in
              elim rtsp_failure [
                | some e ↦ initialization_failed e all
                | none ↦ serving (configured_app config db) (inactivity_monitor ∷ all)
              ])
      ]

  -- loadStreamsFromConfigAndDB, whose error is only logged.
  unfoldable pub load_booted : SqlEngine S → (String → Bool) → ℕ → Booted S → Booted S
  unfolding load_streams
  load_booted E url_ok now (serving app opened) = serving (load_streams E url_ok app now).0 opened
  load_booted E url_ok now stopped = stopped

  -- main; `show_version` is the flag.
  unfoldable pub boot :
      SqlEngine S → (String → Bool) → Bool → ConfigFile → Machine → S → ℕ → Booted S
  unfolding load_config initialize_application load_booted
  boot E url_ok show_version file os db now =
      if show_version then version_shown else elim (load_config file) [
        | err e ↦ config_refused e
        | ok config ↦ load_booted E url_ok now (initialize_application config os db)
      ]
