-- ===== src/App/Tests.antt =====
-- The theorems on offers and on the load, at a server with one camera.
use media_stream.Base.{
  ℕ, ◌≡◌, refl, String, true, false, none, some, [], ◌∷◌, ◌==◌, if◌then◌else◌, arith, ok, err,
}
use media_stream.GoMap
use media_stream.GoMap.{GoMap}
use media_stream.Core.Stream.{new_stream}
use media_stream.Database.{StreamRow, list_all}
use media_stream.Database.Contract.{stamp}
use media_stream.Database.Table.{table}
use media_stream.Webrtc.Peers.{peer_not_found, get_peer}
use media_stream.App.{App}
use media_stream.App.Fixtures.{gate_row, every_url, one_row, empty_server, one_camera}
use media_stream.App.Loading.{load_streams, sync_paths}
use media_stream.App.Loaded.{AllRows, IsLoaded, load_reads_rows}
use media_stream.App.Offers.{wait_codec, offer_answered, on_peer_closed}
use media_stream.Webrtc.Peers.Answering.{Pion}
use media_stream.App.Answering.{handle_webrtc_offer}
use media_stream.App.Answering.Whole.{handle_webrtc_offer-OfferEnd}
use media_stream.App.Answering.Ends.{OfferEnd}
use media_stream.App.PeerOrder.{HasSubscriber, close_order_decides}
use media_stream.App.Waiting.{Waited, wait_is_bounded}

abbrev late_codec : ℕ → String
late_codec n = if n == 3 then "H264" else ""

wait_is_bounded_example :
    Waited late_codec 5_000_000_000 0 (wait_codec 51 late_codec 5_000_000_000 0 0)
wait_is_bounded_example = wait_is_bounded 50 5_000_000_000 late_codec (omega arith)

gate_subscriber : HasSubscriber one_camera 0 "peer" false
unfolding HasSubscriber new_stream GoMap.empty GoMap.get GoMap.lookup
gate_subscriber = (new_stream "gate" "Gate" 500, refl, refl)

close_order_decides_example :
    ((app' : App (GoMap StreamRow)) × (offer_answered one_camera "gate" "peer" 0 (some "answer")
        ≡ (app', ok "answer"))
      × (GoMap.get (on_peer_closed app' "peer").peer_streams "peer" ≡ none)
      × (get_peer (on_peer_closed app' "peer").webrtc_manager "peer" ≡ err (peer_not_found "peer"))
      × HasSubscriber (on_peer_closed app' "peer") 0 "peer" false)
    × ((app' : App (GoMap StreamRow)) × (offer_answered
            (on_peer_closed one_camera "peer")
            "gate"
            "peer"
            0
            (some "answer")
          ≡ (app', ok "answer"))
        × (GoMap.get app'.peer_streams "peer" ≡ some "gate")
        × (get_peer app'.webrtc_manager "peer" ≡ err (peer_not_found "peer"))
        × HasSubscriber app' 0 "peer" true)
unfolding GoMap.get GoMap.lookup
close_order_decides_example =
    close_order_decides one_camera "gate" "peer" 0 "answer" refl refl gate_subscriber

load_reads_rows_example :
    (app' : App (GoMap StreamRow)) × (load_streams table every_url
        (record empty_server { db = one_row })
        12
      ≡ (app', ok 1))
    × AllRows (IsLoaded every_url app') (stamp 9 gate_row ∷ [])
unfolding list_all sync_paths table GoMap.get GoMap.lookup
load_reads_rows_example =
    load_reads_rows table every_url (record empty_server { db = one_row }) 12
      (stamp 9 gate_row ∷ []) refl (tt, tt) (refl, tt)

-- The description is missing in the end.
abbrev no_description : Pion
no_description = record {
  connects = true;
  makes_video_track = true;
  adds_video_track = true;
  makes_audio_track = true;
  adds_audio_track = true;
  takes_offer = true;
  answers = true;
  takes_answer = true;
  description = none;
}

-- The camera runs, and its offer is refused at the end.
handle_webrtc_offer-OfferEnd_example : OfferEnd one_camera "gate" "peer" 0 (
    handle_webrtc_offer table every_url one_camera "gate" "peer"
      (72 ∷ 50 ∷ 54 ∷ 52 ∷ [])
      no_description)
unfolding GoMap.get GoMap.lookup
handle_webrtc_offer-OfferEnd_example =
    handle_webrtc_offer-OfferEnd table every_url one_camera "gate" "peer" 0 (72 ∷ 50 ∷ 54 ∷ 52 ∷ [])
      no_description refl refl gate_subscriber
