-- ===== src/Api/Hls.antt =====
-- The HLS handlers, handleHealth, handleStats and corsMiddleware of
-- go-legacy/internal/api/server.go. The HLS manager is an argument: its package, internal/hls, is
-- not in the repository. As for the streams, `startStreamHandler` is the application's and not nil.
pub mod Playlist
pub mod Tests
use media_stream.Base.{
  ℕ, zero, suc, ◌+◌, String, Bool, true, false, Option, none, some, List, [], ◌∷◌, str_eq,
  if◌then◌else◌, length, Result, ok, err,
}
use media_stream.GoMap
use media_stream.Database.{SqlEngine}
use media_stream.Signaling.{SignalServer, get_client_count}
use media_stream.App.{App, start_on_demand_stream}

-- What the HLS manager returns when a request comes: `M` are its muxers, `B` what it says of a
-- stream.
pub record HlsView (M B : Type 0) : Type 0 where
  pub enabled : Bool
  pub muxer : String → Option M
  pub all_streams : List B
  pub get_stream_info : String → Option B
  pub stats : String → Option B

-- A response: of the muxer, with what the manager says, or a status with an error. A panic is
-- recovered by gin, which answers 500.
pub data HlsReply (M B : Type 0) : Type 0 where
  hls_served : M → HlsReply M B
  hls_listed : List B → HlsReply M B
  hls_described : B → HlsReply M B
  hls_refused : ℕ → HlsReply M B
  hls_panicked : HlsReply M B

module _ {M B : Type 0} where
  -- s.hlsManager != nil && s.hlsManager.IsEnabled()
  abbrev pub enabled_hls : Option (HlsView M B) → Option (HlsView M B)
  enabled_hls none = none
  enabled_hls (some hls) = if hls.enabled then some hls else none

  -- The response about one stream.
  abbrev pub described_or_404 : Option B → HlsReply M B
  described_or_404 none = hls_refused 404
  described_or_404 (some b) = hls_described b

  unfoldable pub handle_hls_streams_list : Option (HlsView M B) → HlsReply M B
  handle_hls_streams_list hls = elim (enabled_hls hls) [
    | none ↦ hls_refused 503
    | some h ↦ hls_listed h.all_streams
  ]

  unfoldable pub handle_hls_stream_info : Option (HlsView M B) → String → HlsReply M B
  handle_hls_stream_info hls id = elim (enabled_hls hls) [
    | none ↦ hls_refused 503
    | some h ↦ described_or_404 (h.get_stream_info id)
  ]

  unfoldable pub handle_hls_stream_stats : Option (HlsView M B) → String → HlsReply M B
  handle_hls_stream_stats hls id = elim (enabled_hls hls) [
    | none ↦ hls_refused 503
    | some h ↦ described_or_404 (h.stats id)
  ]

  unfoldable pub handle_hls_segment : Option (HlsView M B) → String → HlsReply M B
  handle_hls_segment hls id = elim (enabled_hls hls) [
    | none ↦ hls_refused 503
    | some h ↦ elim (h.muxer id) [ none ↦ hls_refused 404 | some x ↦ hls_served x ]
  ]

  -- The refusal of handleHLSPlaylist, whose message calls IsEnabled again, also on a nil manager;
  -- `nil_panics` says whether that panics.
  abbrev pub refuse_playlist : Bool → Option (HlsView M B) → HlsReply M B
  refuse_playlist nil_panics none = if nil_panics then hls_panicked else hls_refused 503
  refuse_playlist nil_panics (some h) = hls_refused 503

-- The loop of handleHLSPlaylist: `later i` is what GetMuxer returns after the wait number i, of
-- half a second.
unfoldable pub wait_muxer : {M : Type 0} → ℕ → (ℕ → Option M) → ℕ → Option M
wait_muxer zero later i = none
wait_muxer (suc n) later i =
    let rest = wait_muxer n later (suc i) in elim (later i) [ some x ↦ some x | none ↦ rest ]

abbrev pub max_retries : ℕ
max_retries = 10

module _ {S M B : Type 0} (E : SqlEngine S) (url_ok : String → Bool) where
  -- handleHLSPlaylist where there is no muxer yet.
  unfoldable pub start_playlist : App S → String → (ℕ → Option M) → App S × HlsReply M B
  unfolding start_on_demand_stream wait_muxer
  start_playlist app id later = elim (start_on_demand_stream E url_ok app id) [
    | err e ↦ (app, hls_refused 503)
    | ok app' ↦ elim (wait_muxer max_retries later 0) [
      | none ↦ (app', hls_refused 503)
      | some x ↦ (app', hls_served x)
    ]
  ]

  unfoldable pub handle_hls_playlist :
      Bool → App S → Option (HlsView M B) → String → (ℕ → Option M) → App S × HlsReply M B
  unfolding start_playlist
  handle_hls_playlist nil_panics app hls id later = elim (enabled_hls hls) [
    | none ↦ (app, refuse_playlist nil_panics hls)
    | some h ↦ elim (h.muxer id) [
      | some x ↦ (app, hls_served x)
      | none ↦ start_playlist app id later
    ]
  ]

-- The numbers of HealthHandler and StatsHandler.
pub record Health : Type 0 where
  pub streams : ℕ
  pub clients : ℕ
  pub peers : ℕ

unfoldable pub health : {S : Type 0} → App S → SignalServer → Health
health app signaling = record {
  streams = GoMap.size app.rtsp_clients;
  clients = get_client_count signaling;
  peers = GoMap.size app.webrtc_manager.peers;
}

-- corsMiddleware around a handler; `none` is the empty answer 204 to OPTIONS.
unfoldable pub with_cors : {A R : Type 0} → String → (A → A × R) → A → A × Option R
with_cors method handler a =
    if str_eq method "OPTIONS" then (a, none) else (let (b, r) = handler a in (b, some r))
