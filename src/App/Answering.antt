-- ===== src/App/Answering.antt =====
-- handleWebRTCOffer of go-legacy/cmd/server/main.go as a whole, where no other goroutine comes
-- between its stages (App/Offers), with CreateOffer of internal/webrtc/peer.go in it. The wait for
-- the codec changes nothing by itself.
pub mod Ends
pub mod Whole
use media_stream.Base.{ℕ, String, Bool, Option, none, some, List, get_elem?, set, Result, ok, err}
use media_stream.Database.{SqlEngine}
use media_stream.Webrtc.Peers.{Peer, PeerManager, create_peer}
use media_stream.Webrtc.Peers.Answering.{Pion, AnswerError, create_offer}
use media_stream.App.{App}
use media_stream.App.Offers.{OfferError, peer_not_created, Offer, offer_begin, offer_answered}

-- GetVideoCodec of the stream at the pointer.
abbrev pub codec_at : {S : Type 0} → App S → ℕ → String
codec_at app r = elim (get_elem? app.stream_manager.heap r) [ none ↦ "" | some s ↦ s.video_codec ]

abbrev pub answer_of : Result AnswerError String → Option String
answer_of (ok answer) = some answer
answer_of (err e) = none

-- The manager after CreateOffer of the peer at the pointer.
abbrev pub with_changed : PeerManager → ℕ → Peer → PeerManager
with_changed m q p = record m { heap = set m.heap q p }

module _ {S : Type 0} where
  -- From CreatePeer, whose new UUID is `id`, to the end, for the stream at `r`.
  unfoldable pub offer_created :
      App S → String → String → ℕ → List ℕ → Pion → App S × Result OfferError String
  unfolding create_peer create_offer offer_answered
  offer_created app stream_id id r offer pion = elim (create_peer app.webrtc_manager stream_id id) [
    | err e ↦ (app, err peer_not_created)
    | ok (m, q) ↦ elim (get_elem? m.heap q) [
      | none ↦ (app, err peer_not_created)
      | some p ↦
          (let made = create_offer p offer (codec_at app r) pion in
            offer_answered (record app { webrtc_manager = with_changed m q made.0 }) stream_id id r
              (answer_of made.1))
    ]
  ]

module _ {S : Type 0} (E : SqlEngine S) (url_ok : String → Bool) where
  unfoldable pub handle_webrtc_offer :
      App S → String → String → List ℕ → Pion → App S × Result OfferError String
  unfolding offer_begin offer_created
  handle_webrtc_offer app stream_id id offer pion = elim (offer_begin E url_ok app stream_id) [
    | err e ↦ (app, err e)
    | ok (app', begun) ↦ offer_created app' stream_id id begun.stream offer pion
  ]
