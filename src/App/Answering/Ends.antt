-- ===== src/App/Answering/Ends.antt =====
-- How an offer ends.
use media_stream.Base.{
  ℕ, ◌≡◌, refl, sym, ap, subst, String, true, false, Option, none, some, List, [], ◌∷◌, ◌++◌, arith,
  eq_refl, length, get_elem?, set, get_elem?-some_lt, get_elem?-append_length, get_elem?-set_self,
  Result, ok, err, Result-cases, Bool-cases, inl, inr,
}
use media_stream.Base.Int.{pos, leb_ℤ}
use media_stream.GoMap
use media_stream.GoMap.{GoMap, get-put, get-remove}
use media_stream.Webrtc.Peers.{
  Peer, PeerManager, new_peer, open_connection, closed_peer, create_peer, close_peer, remove_peer,
}
use media_stream.Webrtc.Peers.Answering.{
  Pion, create_peer_connection, create_offer, create_offer_lem,
}
use media_stream.Webrtc.Peers.History.Connections.{is_connected, closed_not_open, with_peer}
use media_stream.App.{App}
use media_stream.App.Offers.{OfferError, peer_not_created, no_answer, offer_answered, drop_peer}
use media_stream.App.PeerOrder.{HasSubscriber, answered-lem}
use media_stream.App.Answering.{codec_at, answer_of, with_changed, offer_created}

-- Every peer that the pointer may lead to has no open connection.
abbrev pub NotOpen : PeerManager → ℕ → Type 0
NotOpen m q = (p : Peer) → get_elem? m.heap q ≡ some p → is_connected p.connection ≡ false

-- The peer is the manager's, open, subscribed to the stream and mapped to it; or it is not the
-- manager's, no connection of it is open, and the streams and the mapping are as before.
pub data OfferEnd {S : Type 0} (app : App S) (stream_id id : String) (r : ℕ)
    : App S × Result OfferError String → Type 0 where
  answered :
      (app' : App S) (answer : String) (p : Peer)
      → GoMap.get app'.webrtc_manager.peers id ≡ some (length app.webrtc_manager.heap)
      → get_elem? app'.webrtc_manager.heap (length app.webrtc_manager.heap) ≡ some p
      → p.connection ≡ open_connection
      → p.close_done ≡ false
      → GoMap.get app'.peer_streams id ≡ some stream_id
      → HasSubscriber app' r id true
      → OfferEnd app stream_id id r (app', ok answer)
  refused :
      (app' : App S) (e : OfferError)
      → GoMap.get app'.webrtc_manager.peers id ≡ none
      → NotOpen app'.webrtc_manager (length app.webrtc_manager.heap)
      → app'.stream_manager ≡ app.stream_manager
      → app'.peer_streams ≡ app.peer_streams
      → OfferEnd app stream_id id r (app', err e)

-- An answer needs a connection.
create_offer-connects :
    (p : Peer) (offer : List ℕ) (codec : String) (pion : Pion) (answer : String)
    → (create_offer p offer codec pion).1 ≡ ok answer
    → pion.connects ≡ true
unfolding create_offer create_peer_connection
create_offer-connects p offer codec pion answer h = ground (arith, h)

pub get_elem?-past : (m : PeerManager) → NotOpen m (length m.heap)
get_elem?-past m p e = absurd (omega (arith, get_elem?-some_lt m.heap (length m.heap) e))

-- The manager with the new peer after its CreateOffer.
abbrev offered : PeerManager → String → String → Peer → PeerManager
offered m stream_id id p = with_changed (with_peer m stream_id id) (length m.heap) p

get_elem?-offered :
    (m : PeerManager) (stream_id id : String) (p : Peer)
    → get_elem? (offered m stream_id id p).heap (length m.heap) ≡ some p
get_elem?-offered m stream_id id p =
    let heap = m.heap ++ new_peer id stream_id ∷ [] in
    get_elem?-set_self heap (length m.heap) p (
      get_elem?-some_lt heap (length m.heap)
        (get_elem?-append_length m.heap (new_peer id stream_id)))

module _ {S : Type 0} where
  with_manager : App S → PeerManager → App S
  with_manager app m = record app { webrtc_manager = m }

  dropped :
      (app : App S) (q : ℕ) (id : String) (p : Peer)
      → GoMap.get app.webrtc_manager.peers id ≡ some q
      → get_elem? app.webrtc_manager.heap q ≡ some p
      → p.close_done ≡ false
      → (GoMap.get (drop_peer app id).webrtc_manager.peers id ≡ none)
        × NotOpen (drop_peer app id).webrtc_manager q
        × ((drop_peer app id).stream_manager ≡ app.stream_manager)
        × ((drop_peer app id).peer_streams ≡ app.peer_streams)
  unfolding drop_peer remove_peer close_peer
  dropped app q id p h e c =
      let closed = set app.webrtc_manager.heap q (closed_peer p) in
      let at =
        get_elem?-set_self app.webrtc_manager.heap q (closed_peer p)
          (get_elem?-some_lt app.webrtc_manager.heap q e) in
      rw (h, drop_peer, remove_peer, e, close_peer, c)
        (
          ground (arith, get-remove app.webrtc_manager.peers id id, eq_refl id),
          (λ (x : Peer) (g : get_elem? closed q ≡ some x).
              (let same : closed_peer p ≡ x = ground (arith, at, g) in
                subst (λ (y : Peer). is_connected y.connection ≡ false) same
                  (closed_not_open p.connection))),
          refl,
          refl,
        )

  refused_answer :
      (app : App S) (stream_id id : String) (r : ℕ) (p : Peer)
      → p.close_done ≡ false
      → OfferEnd app stream_id id r (
          offer_answered
            (with_manager app (offered app.webrtc_manager stream_id id p))
            stream_id
            id
            r
            none)
  unfolding offer_answered with_manager
  refused_answer app stream_id id r p c =
      let m = app.webrtc_manager in
      let there : GoMap.get (offered m stream_id id p).peers id ≡ some (length m.heap) =
        ground (arith, get-put m.peers id id (length m.heap), eq_refl id) in
      let d =
        dropped (with_manager app (offered m stream_id id p)) (length m.heap) id p there
          (get_elem?-offered m stream_id id p) c in
      refused _ no_answer d.0 d.1 d.2 d.3

  given_answer :
      (app : App S) (stream_id id : String) (r : ℕ) (p : Peer) (answer : String)
      → p.close_done ≡ false
      → p.connection ≡ open_connection
      → HasSubscriber app r id false
      → OfferEnd app stream_id id r (
          offer_answered
            (with_manager app (offered app.webrtc_manager stream_id id p))
            stream_id
            id
            r
            (some answer))
  unfolding with_manager HasSubscriber
  given_answer app stream_id id r p answer c o n =
      let m = app.webrtc_manager in
      let a = answered-lem (with_manager app (offered m stream_id id p)) stream_id id r answer n in
      subst (OfferEnd app stream_id id r) (sym a.1) (
        answered a.0 answer p
          (rw a.3 (ground (arith, get-put m.peers id id (length m.heap), eq_refl id)))
          (rw a.3 (get_elem?-offered m stream_id id p)) o c
          (rw a.2 (ground (arith, get-put app.peer_streams id id stream_id, eq_refl id))) a.5)

  offer_created-full :
      (app : App S) (stream_id id : String) (r : ℕ) (offer : List ℕ) (pion : Pion)
      → leb_ℤ app.webrtc_manager.max_peers (pos (GoMap.size app.webrtc_manager.peers)) ≡ true
      → offer_created app stream_id id r offer pion ≡ (app, err peer_not_created)
  unfolding offer_created create_peer
  offer_created-full app stream_id id r offer pion h = rw (h, offer_created, create_peer) refl

  offer_created-room :
      (app : App S) (stream_id id : String) (r : ℕ) (offer : List ℕ) (pion : Pion) (p : Peer)
      (o : Option String)
      → leb_ℤ app.webrtc_manager.max_peers (pos (GoMap.size app.webrtc_manager.peers)) ≡ false
      → (create_offer (new_peer id stream_id) offer (codec_at app r) pion).0 ≡ p
      → answer_of (create_offer (new_peer id stream_id) offer (codec_at app r) pion).1 ≡ o
      → offer_created app stream_id id r offer pion
        ≡ offer_answered
            (with_manager app (offered app.webrtc_manager stream_id id p))
            stream_id
            id
            r
            o
  unfolding offer_created create_peer with_manager
  offer_created-room app stream_id id r offer pion p o h e g =
      rw
        (
          h,
          offer_created,
          create_peer,
          get_elem?-append_length app.webrtc_manager.heap (new_peer id stream_id),
          e,
          g,
        )
        refl

  -- An offer whose id is new and not a subscriber of the stream ends in one of two ways, whatever
  -- pion/webrtc does and whether or not the manager has room. Either the answer is returned, and
  -- the peer is the manager's, with an open connection, a subscriber of the stream and mapped to
  -- it; or an error is returned, the manager has no peer of that id, no connection that CreateOffer
  -- made is open, and the streams, their subscribers and the mapping are as before.
  pub offer_created-OfferEnd :
      (app : App S) (stream_id id : String) (r : ℕ) (offer : List ℕ) (pion : Pion)
      → GoMap.get app.webrtc_manager.peers id ≡ none
      → HasSubscriber app r id false
      → OfferEnd app stream_id id r (offer_created app stream_id id r offer pion)
  offer_created-OfferEnd app stream_id id r offer pion f n =
      let made = create_offer (new_peer id stream_id) offer (codec_at app r) pion in
      let v = (create_offer_lem (new_peer id stream_id) offer (codec_at app r) pion).1 in
      elim (Bool-cases
        (leb_ℤ app.webrtc_manager.max_peers (pos (GoMap.size app.webrtc_manager.peers)))) [
          | inl h ↦
              subst (OfferEnd app stream_id id r)
                (sym (offer_created-full app stream_id id r offer pion h))
                (refused app peer_not_created f (get_elem?-past app.webrtc_manager) refl refl)
          | inr h ↦ elim (Result-cases made.1) [
            | inl (e, g) ↦
                subst (OfferEnd app stream_id id r)
                  (sym (
                    offer_created-room app stream_id id r offer pion made.0 none h refl
                      (ap answer_of g)))
                  (refused_answer app stream_id id r made.0 v.same_close)
            | inr (answer, g) ↦
                let connects =
                  create_offer-connects (new_peer id stream_id) offer (codec_at app r) pion answer
                    g in
                subst (OfferEnd app stream_id id r)
                  (sym (
                    offer_created-room app stream_id id r offer pion made.0 (some answer) h refl
                      (ap answer_of g)))
                  (given_answer app stream_id id r made.0 answer v.same_close
                    (ground (arith, v.opened, connects)) n)
          ]
        ]
