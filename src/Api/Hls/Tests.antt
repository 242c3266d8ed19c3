-- ===== src/Api/Hls/Tests.antt =====
-- A playlist of a server with one camera, whose muxer is there after the fourth wait.
use media_stream.Base.{ℕ, ◌≡◌, refl, String, true, Option, none, some, [], ◌==◌, if◌then◌else◌}
use media_stream.GoMap
use media_stream.GoMap.{GoMap}
use media_stream.Database.Table.{table}
use media_stream.App.{start_on_demand_stream}
use media_stream.App.Running.{IsRunning}
use media_stream.App.Fixtures.{every_url, one_camera}
use media_stream.Api.Streams.Tests.{one_camera-IsRunning}
use media_stream.Api.Hls.{HlsView, hls_served, start_playlist, wait_muxer, handle_hls_playlist}
use media_stream.Api.Hls.Playlist.{Played, handle_hls_playlist-Played}

-- Muxers are numbers here, and what the manager says of a stream is a text.
abbrev no_muxers : HlsView ℕ String
no_muxers = record {
  enabled = true;
  muxer = λ (id : String). none;
  all_streams = [];
  get_stream_info = λ (id : String). none;
  stats = λ (id : String). none;
}

abbrev fourth : ℕ → Option ℕ
fourth n = if n == 3 then some 7 else none

handle_hls_playlist-Played_example :
    Played table every_url one_camera no_muxers "gate" fourth
      (handle_hls_playlist table every_url true one_camera (some no_muxers) "gate" fourth)
    × IsRunning
        (handle_hls_playlist table every_url true one_camera (some no_muxers) "gate" fourth).0
handle_hls_playlist-Played_example =
    handle_hls_playlist-Played table every_url true one_camera no_muxers "gate" fourth refl
      one_camera-IsRunning

fourth_wait :
    handle_hls_playlist table every_url true one_camera (some no_muxers) "gate" fourth
    ≡ (one_camera, hls_served 7)
unfolding handle_hls_playlist start_playlist wait_muxer start_on_demand_stream GoMap.get
    GoMap.lookup
fourth_wait = refl
