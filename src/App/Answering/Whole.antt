-- ===== src/App/Answering/Whole.antt =====
-- An offer from the search for its stream to the answer.
use media_stream.Base.{
  ℕ, ◌≡◌, refl, sym, subst, ◌∙◌, String, Bool, false, none, some, List, length, get_elem?, Result,
  ok, err, Result-cases, Bool-cases, inl, inr,
}
use media_stream.GoMap
use media_stream.GoMap.{GoMap}
use media_stream.Core.Stream.{Stream}
use media_stream.Core.StreamManager.{StreamManager, get_stream}
use media_stream.Database.{SqlEngine}
use media_stream.Webrtc.Peers.{PeerManager}
use media_stream.Webrtc.Peers.Answering.{Pion}
use media_stream.App.{
  App, AppError, start_on_demand_stream, start_absent, on_demand_config, run_client, make_client,
}
use media_stream.App.Offers.{OfferError, offer_not_started, offer_begin}
use media_stream.App.PeerOrder.{HasSubscriber}
use media_stream.App.Answering.{offer_created, handle_webrtc_offer}
use media_stream.App.Answering.Ends.{
  OfferEnd, answered, refused, NotOpen, get_elem?-past, offer_created-OfferEnd,
}

-- A start changes neither the peers, nor the streams, nor the mapping.
record Alike {S : Type 0} (app app' : App S) : Type 0 where
  peers : app'.webrtc_manager ≡ app.webrtc_manager
  streams : app'.stream_manager ≡ app.stream_manager
  mapping : app'.peer_streams ≡ app.peer_streams

Alike? : {S : Type 0} → App S → Result AppError (App S) → Type 0
Alike? app (ok app') = Alike app app'
Alike? app (err e) = Unit {0}

run_client-Alike :
    {S : Type 0} (app : App S) (id url transport : String) (stream : ℕ) (url_ok : String → Bool)
    → Alike? app (run_client app id url transport stream url_ok)
unfolding Alike? run_client
run_client-Alike app id url transport stream url_ok =
    elim (Result-cases (make_client app url transport stream url_ok)) [
      | inl (e, h) ↦ rw (h, run_client) tt
      | inr (c, h) ↦ rw (h, run_client) (record { peers = refl; streams = refl; mapping = refl })
    ]

module _ {S : Type 0} (E : SqlEngine S) (url_ok : String → Bool) where
  start_absent-Alike : (app : App S) (id : String) → Alike? app (start_absent E url_ok app id)
  unfolding Alike? start_absent
  start_absent-Alike app id = elim (Result-cases (get_stream app.stream_manager id)) [
    | inl (e, h) ↦ rw (h, start_absent) tt
    | inr (stream, h) ↦ elim (Result-cases (on_demand_config E url_ok app id)) [
      | inl (e, g) ↦ rw (h, g, start_absent) tt
      | inr (c, g) ↦
          rw (h, g, start_absent) (run_client-Alike app id c.source c.rtsp_transport stream url_ok)
    ]
  ]

  start_on_demand_stream-Alike :
      (app : App S) (id : String) → Alike? app (start_on_demand_stream E url_ok app id)
  unfolding Alike? start_on_demand_stream
  start_on_demand_stream-Alike app id = elim (Bool-cases (GoMap.contains app.rtsp_clients id)) [
    | inl h ↦
        rw (h, start_on_demand_stream) (record { peers = refl; streams = refl; mapping = refl })
    | inr h ↦ rw (h, start_on_demand_stream) (start_absent-Alike app id)
  ]

OfferEnd-Alike :
    {S : Type 0} (app app' : App S) (stream_id id : String) (r : ℕ)
    (o : App S × Result OfferError String)
    → Alike app app'
    → OfferEnd app' stream_id id r o
    → OfferEnd app stream_id id r o
OfferEnd-Alike app app' stream_id id r (b, ok _) a (answered _ answer p h e c d m s) =
    answered b answer p
      (subst (λ (x : PeerManager). GoMap.get b.webrtc_manager.peers id ≡ some (length x.heap))
        a.peers h)
      (subst (λ (x : PeerManager). get_elem? b.webrtc_manager.heap (length x.heap) ≡ some p) a.peers
        e)
      c d m s
OfferEnd-Alike app app' stream_id id r (b, err _) a (refused _ e h n s m) =
    refused b e h (subst (λ (x : PeerManager). NotOpen b.webrtc_manager (length x.heap)) a.peers n)
      (s ∙ a.streams) (m ∙ a.mapping)

HasSubscriber-Alike :
    {S : Type 0} (app app' : App S) (r : ℕ) (id : String) (b : Bool)
    → Alike app app'
    → HasSubscriber app r id b
    → HasSubscriber app' r id b
unfolding HasSubscriber
HasSubscriber-Alike app app' r id b a h =
    subst
      (λ (m : StreamManager).
        (s : Stream) × (get_elem? m.heap r ≡ some s) × (GoMap.contains s.subscribers id ≡ b))
      (sym a.streams) h

module _ {S : Type 0} (E : SqlEngine S) (url_ok : String → Bool) where
  begun-OfferEnd :
      (app app' : App S) (stream_id id : String) (r : ℕ) (offer : List ℕ) (pion : Pion)
      → Alike app app'
      → GoMap.get app.webrtc_manager.peers id ≡ none
      → HasSubscriber app r id false
      → OfferEnd app stream_id id r (offer_created app' stream_id id r offer pion)
  begun-OfferEnd app app' stream_id id r offer pion a f n =
      OfferEnd-Alike app app' stream_id id r (offer_created app' stream_id id r offer pion) a (
        offer_created-OfferEnd app' stream_id id r offer pion
          (subst (λ (m : PeerManager). GoMap.get m.peers id ≡ none) (sym a.peers) f)
          (HasSubscriber-Alike app app' r id false a n))

  -- handleWebRTCOffer of a stream that the manager has at `r`, with no other goroutine in between, a
  -- new id of the peer that is no subscriber of the stream, and whatever pion/webrtc does. Either
  -- the answer is returned, and the peer is the manager's, with an open connection, a subscriber of
  -- the stream and mapped to it. Or an error is returned, because the stream could not be started or
  -- a later stage failed: then the manager has no peer of that id, no connection that the offer made
  -- is open, and the streams, their subscribers and the mapping are as before.
  pub handle_webrtc_offer-OfferEnd :
      (app : App S) (stream_id id : String) (r : ℕ) (offer : List ℕ) (pion : Pion)
      → GoMap.get app.stream_manager.streams stream_id ≡ some r
      → GoMap.get app.webrtc_manager.peers id ≡ none
      → HasSubscriber app r id false
      → OfferEnd app stream_id id r (handle_webrtc_offer E url_ok app stream_id id offer pion)
  unfolding handle_webrtc_offer offer_begin get_stream Alike?
  handle_webrtc_offer-OfferEnd app stream_id id r offer pion g f n =
      elim (Bool-cases (GoMap.contains app.rtsp_clients stream_id)) [
        | inl h ↦
            rw (handle_webrtc_offer, offer_begin, get_stream, g, h)
              (offer_created-OfferEnd app stream_id id r offer pion f n)
        | inr h ↦ elim (Result-cases (start_on_demand_stream E url_ok app stream_id)) [
          | inl (e, k) ↦
              rw (handle_webrtc_offer, offer_begin, get_stream, g, k, h)
                (refused app offer_not_started f (get_elem?-past app.webrtc_manager) refl refl)
          | inr (app', k) ↦
              rw (handle_webrtc_offer, offer_begin, get_stream, g, k, h)
                (begun-OfferEnd app app' stream_id id r offer pion
                  (subst (Alike? app) k (start_on_demand_stream-Alike E url_ok app stream_id)) f n)
        ]
      ]
