-- ===== src/App/Offers.antt =====
-- handleWebRTCOffer and cleanupPeer of go-legacy/cmd/server/main.go, and the goroutine that a closed
-- peer starts (CreatePeer of go-legacy/internal/webrtc/manager.go). An offer is served in stages,
-- between which other goroutines run. The answer of pion/webrtc is an argument.
use media_stream.Base.{
  ℕ, zero, suc, ◌+◌, String, Bool, true, false, Option, none, some, str_eq, ltb, if◌then◌else◌,
  get_elem?, set, Result, ok, err,
}
use media_stream.GoMap
use media_stream.Core.Stream.{Stream, subscribe, unsubscribe}
use media_stream.Core.StreamManager.{StreamManager, get_stream}
use media_stream.Database.{SqlEngine}
use media_stream.Webrtc.Peers.{create_peer, remove_peer}
use media_stream.App.{App, start_on_demand_stream}

pub data OfferError : Type 0 where
  offer_without_stream offer_not_started : OfferError
  peer_not_created no_answer not_subscribed : OfferError

-- An offer after its stream was found: the pointer of the stream, and whether the handler polls for
-- its codec.
pub record Offer : Type 0 where
  pub stream : ℕ
  pub polls : Bool

-- The loop that waits for the codec, with fuel: `codec n` is what GetVideoCodec returns in round n.
-- It returns the time waited, in nanoseconds; `none` means that the fuel ran out.
abbrev pub poll_interval : ℕ
poll_interval = 100_000_000

unfoldable pub wait_codec : ℕ → (ℕ → String) → ℕ → ℕ → ℕ → Option ℕ
wait_codec zero codec max_wait round elapsed = none
wait_codec (suc fuel) codec max_wait round elapsed =
    let rest = wait_codec fuel codec max_wait (suc round) (elapsed + poll_interval) in
    if ltb elapsed max_wait
    then (if str_eq (codec round) "" then rest else some elapsed)
    else some elapsed

-- A change of the stream that a pointer leads to.
abbrev pub set_stream : StreamManager → ℕ → Stream → StreamManager
set_stream m r s = record m { heap = set m.heap r s }

module _ {S : Type 0} where
  -- RemovePeer where the error is ignored.
  unfoldable pub drop_peer : App S → String → App S
  unfolding remove_peer
  drop_peer app id = elim (remove_peer app.webrtc_manager id) [
    | err e ↦ app
    | ok m ↦ record app { webrtc_manager = m }
  ]

  -- cleanupPeer
  unfoldable pub cleanup_peer : App S → String → App S
  unfolding GoMap.get GoMap.remove get_stream unsubscribe
  cleanup_peer app id = elim (GoMap.get app.peer_streams id) [
    | none ↦ app
    | some stream_id ↦
        (let unmapped = record app { peer_streams = GoMap.remove app.peer_streams id } in
          elim (get_stream app.stream_manager stream_id) [
            | err e ↦ unmapped
            | ok r ↦ elim (get_elem? app.stream_manager.heap r) [
              | none ↦ unmapped
              | some s ↦ elim (unsubscribe s id) [
                | err e ↦ unmapped
                | ok s' ↦ record unmapped { stream_manager = set_stream app.stream_manager r s' }
              ]
            ]
          ])
  ]

  -- The goroutine of onClose.
  unfoldable pub on_peer_closed : App S → String → App S
  unfolding cleanup_peer drop_peer
  on_peer_closed app id = drop_peer (cleanup_peer app id) id

  -- The stage that creates the peer, whose new UUID is `id`.
  unfoldable pub offer_peer : App S → String → String → Result OfferError (App S)
  unfolding create_peer
  offer_peer app stream_id id = elim (create_peer app.webrtc_manager stream_id id) [
    | err e ↦ err peer_not_created
    | ok (m, r) ↦ ok (record app { webrtc_manager = m })
  ]

  -- The last stage: the answer, the subscription and the entry of peerStreams.
  unfoldable pub offer_answered :
      App S → String → String → ℕ → Option String → App S × Result OfferError String
  unfolding drop_peer subscribe GoMap.put
  offer_answered app stream_id id r none = (drop_peer app id, err no_answer)
  offer_answered app stream_id id r (some answer) = elim (get_elem? app.stream_manager.heap r) [
    | none ↦ (drop_peer app id, err not_subscribed)
    | some s ↦ elim (subscribe s id) [
      | err e ↦ (drop_peer app id, err not_subscribed)
      | ok s' ↦ (
        record app {
          stream_manager = set_stream app.stream_manager r s';
          peer_streams = GoMap.put app.peer_streams id stream_id;
        },
        ok answer,
      )
    ]
  ]

module _ {S : Type 0} (E : SqlEngine S) (url_ok : String → Bool) where
  -- The stage that finds the stream and starts it where it has no client.
  unfoldable pub offer_begin : App S → String → Result OfferError (App S × Offer)
  unfolding get_stream start_on_demand_stream GoMap.get
  offer_begin app stream_id = elim (get_stream app.stream_manager stream_id) [
    | err e ↦ err offer_without_stream
    | ok r ↦
        if GoMap.contains app.rtsp_clients stream_id
        then ok (app, record { stream = r; polls = false })
        else elim (start_on_demand_stream E url_ok app stream_id) [
          | err e ↦ err offer_not_started
          | ok app' ↦ ok (app', record { stream = r; polls = true })
        ]
  ]
