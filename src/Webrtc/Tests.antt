-- ===== src/Webrtc/Tests.antt =====
-- The theorems on codecs and peers, at concrete values.
use media_stream.Base.{ℕ, ◌≡◌, ◌≤◌, ◌↔◌, ◌⊎◌, refl, String, true, false, List, [], ◌∷◌, get_elem?}
use media_stream.Base.Int.{pos}
use media_stream.GoMap
use media_stream.Webrtc.Codec.{to_upper, supports_h264, supports_h265, select_video_codec}
use media_stream.Webrtc.Codec.Choice.{select_video_codec_lem}
use media_stream.Webrtc.Peers.{
  close_peer_manager, remove_peer, state_changed, create_peer, new_peer_manager, ice_connected,
  ice_failed, peer_closed,
}
use media_stream.Base.{some, err, arith, subst}
use media_stream.Webrtc.Peers.{Peer, no_connection, new_peer, create_peer}
use media_stream.Webrtc.Peers.Answering.{
  Pion, create_offer, create_peer_connection, add_video, add_audio, audio_track_not_created,
  Equipped, create_offer_lem,
}
use media_stream.Webrtc.Peers.History.Connections.{is_connected, Held}
use media_stream.Webrtc.Peers.History.Orderly.{AllOrderly, no_connection_is_lost}
use media_stream.Webrtc.Peers.History.{
  PeerEvent, creates, removes, offers, serve_peer, changes, closes_all, serve_peers,
}
use media_stream.Webrtc.Peers.History.Notices.{count, calls, limit, peers-IsSound}

-- "a h265"
abbrev small_offer : List ℕ
small_offer = 97 ∷ 32 ∷ 104 ∷ 50 ∷ 54 ∷ 53 ∷ []

select_video_codec_lem_example :
    ((select_video_codec small_offer "H264" ≡ "H264")
      ⊎ (select_video_codec small_offer "H264" ≡ "H265"))
    × ((select_video_codec small_offer "H264" ≡ "H265") ↔ (
        (supports_h265 small_offer ≡ true)
        × ((◌≡◌ {A = String} "H264" "H265") ⊎ (supports_h264 small_offer ≡ false))))
    × (supports_h264 small_offer ≡ true → select_video_codec small_offer "H264" ≡ "H264")
    × (supports_h265 small_offer ≡ true → select_video_codec small_offer "H265" ≡ "H265")
    × (select_video_codec (to_upper small_offer) "H264" ≡ select_video_codec small_offer "H264")
select_video_codec_lem_example = select_video_codec_lem small_offer "H264"

-- The client offers H.265 only: the stream's H264 is not chosen.
falls_back : select_video_codec small_offer "H264" ≡ "H265"
unfolding select_video_codec
falls_back = refl

abbrev visit : List PeerEvent
visit =
    creates "gate" "p1"
    ∷ creates "gate" "p2"
    ∷ changes 0 ice_connected
    ∷ changes 0 ice_failed
    ∷ changes 0 peer_closed
    ∷ removes "p1"
    ∷ closes_all
    ∷ []

peers-IsSound_example :
    (GoMap.size (serve_peers (new_peer_manager (pos 1)) visit).peers ≤ limit (pos 1))
    × ((r : ℕ)
        → count r (serve_peers (new_peer_manager (pos 1)) visit).notified
          ≡ calls (get_elem? (serve_peers (new_peer_manager (pos 1)) visit).heap r))
peers-IsSound_example = peers-IsSound (pos 1) visit

-- A peer that its connection and the manager close has its onClose called once.
closed_once : (serve_peers (new_peer_manager (pos 1)) visit).notified ≡ 0 ∷ []
unfolding serve_peers close_peer_manager remove_peer state_changed create_peer new_peer_manager
closed_once = refl

abbrev all_works : Pion
all_works = record {
  connects = true;
  makes_video_track = true;
  adds_video_track = true;
  makes_audio_track = true;
  adds_audio_track = true;
  takes_offer = true;
  answers = true;
  takes_answer = true;
  description = some "answer";
}

abbrev no_audio : Pion
no_audio = record all_works { makes_audio_track = false }

create_offer_lem_example :
    ((create_offer (new_peer "p1" "gate") small_offer "H264" no_audio).1
      ≡ err audio_track_not_created)
    × Equipped
        (new_peer "p1" "gate")
        (create_offer (new_peer "p1" "gate") small_offer "H264" no_audio).0
        (select_video_codec small_offer "H264")
        no_audio
create_offer_lem_example = create_offer_lem (new_peer "p1" "gate") small_offer "H264" no_audio

-- The second offer fails once its connection is there, and the handler removes the peer.
abbrev offers_made : List PeerEvent
offers_made =
    creates "gate" "p1"
    ∷ offers 0 small_offer "H264" all_works
    ∷ creates "gate" "p2"
    ∷ offers 1 small_offer "H264" no_audio
    ∷ removes "p2"
    ∷ []

new_one :
    (id : String) (p : Peer)
    → some (new_peer id "gate") ≡ some p
    → (p.close_done ≡ false) × (p.connection ≡ no_connection)
new_one id p e =
    let same : new_peer id "gate" ≡ p = ground (arith, e) in
    subst (λ (q : Peer). (q.close_done ≡ false) × (q.connection ≡ no_connection)) same (refl, refl)

offers_made-AllOrderly : AllOrderly (new_peer_manager (pos 2)) offers_made
unfolding serve_peer create_peer new_peer_manager create_offer create_peer_connection add_video
    add_audio GoMap.empty GoMap.get GoMap.put GoMap.lookup GoMap.without select_video_codec
offers_made-AllOrderly = (refl, (new_one "p1", (refl, (new_one "p2", (tt, tt)))))

no_connection_is_lost_example :
    ((r : ℕ) (p : Peer)
      → get_elem? (serve_peers (new_peer_manager (pos 2)) offers_made).heap r ≡ some p
      → Held (serve_peers (new_peer_manager (pos 2)) offers_made) r p)
    × ((r : ℕ) (p : Peer)
        → get_elem? (close_peer_manager (serve_peers (new_peer_manager (pos 2)) offers_made)).heap r
          ≡ some p
        → (p.close_done ≡ true) × (is_connected p.connection ≡ false))
no_connection_is_lost_example = no_connection_is_lost (pos 2) offers_made offers_made-AllOrderly
