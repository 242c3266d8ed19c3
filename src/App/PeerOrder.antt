-- ===== src/App/PeerOrder.antt =====
-- An offer and the close of its peer, in both orders.
use media_stream.Base.{
  ℕ, ◌≡◌, refl, String, Bool, true, false, none, some, arith, eq_refl, get_elem?, get_elem?-some_lt,
  get_elem?-set_self, ok, err, inl, inr, Option-cases,
}
use media_stream.GoMap
use media_stream.GoMap.{GoMap, get-put, get-remove}
use media_stream.Core.Stream.{Stream, subscribe, unsubscribe}
use media_stream.Core.StreamManager.{get_stream}
use media_stream.Webrtc.Peers.{PeerManager, peer_not_found, close_peer, remove_peer, get_peer}
use media_stream.App.{App}
use media_stream.App.Offers.{offer_answered, on_peer_closed, cleanup_peer, drop_peer, set_stream}

-- The stream that the pointer leads to has, or does not have, the peer as a subscriber.
unfoldable pub HasSubscriber : {S : Type 0} → App S → ℕ → String → Bool → Type 0
HasSubscriber app r id b =
    (s : Stream) × (get_elem? app.stream_manager.heap r ≡ some s)
    × (GoMap.contains s.subscribers id ≡ b)

subscribe-has :
    (s : Stream) (id : String)
    → GoMap.contains s.subscribers id ≡ false
    → (t : Stream) × (subscribe s id ≡ ok t) × (GoMap.contains t.subscribers id ≡ true)
unfolding subscribe
subscribe-has s id h =
    rw (h, subscribe) (_, refl, ground (arith, get-put s.subscribers id id _, eq_refl id))

unsubscribe-has :
    (s : Stream) (id : String)
    → GoMap.contains s.subscribers id ≡ true
    → (t : Stream) × (unsubscribe s id ≡ ok t) × (GoMap.contains t.subscribers id ≡ false)
unfolding unsubscribe
unsubscribe-has s id h = elim (Option-cases (GoMap.get s.subscribers id)) [
  | inl e ↦ absurd (ground arith)
  | inr (r, e) ↦
      rw (e, unsubscribe) (_, refl, ground (arith, get-remove s.subscribers id id, eq_refl id))
]

get_peer-gone :
    (m : PeerManager) (id : String)
    → GoMap.get m.peers id ≡ none
    → get_peer m id ≡ err (peer_not_found id)
unfolding get_peer
get_peer-gone m id h = rw (h, get_peer) refl

module _ {S : Type 0} where
  -- The manager does not have the peer, and the rest is as it was.
  Dropped : App S → String → App S → Type 0
  Dropped app id app' =
      (get_peer app'.webrtc_manager id ≡ err (peer_not_found id))
      × (app'.stream_manager ≡ app.stream_manager)
      × (app'.peer_streams ≡ app.peer_streams)

  drop_peer-Dropped : (app : App S) (id : String) → Dropped app id (drop_peer app id)
  unfolding drop_peer remove_peer get_peer Dropped
  drop_peer-Dropped app id = elim (Option-cases (GoMap.get app.webrtc_manager.peers id)) [
    | inl h ↦ rw (h, drop_peer, remove_peer) (get_peer-gone app.webrtc_manager id h, refl, refl)
    | inr (r, h) ↦
        rw (h, drop_peer, remove_peer)
          (
            get_peer-gone
                (record (close_peer app.webrtc_manager r) {
                  peers = GoMap.remove (close_peer app.webrtc_manager r).peers id;
                })
                id
                (ground
                  (arith, get-remove (close_peer app.webrtc_manager r).peers id id, eq_refl id)),
            refl,
            refl,
          )
  ]

  -- handleWebRTCOffer's last stage with the stream at hand.
  pub answered-lem :
      (app : App S) (stream_id id : String) (r : ℕ) (answer : String)
      → HasSubscriber app r id false
      → (app' : App S) × (offer_answered app stream_id id r (some answer) ≡ (app', ok answer))
        × (app'.peer_streams ≡ GoMap.put app.peer_streams id stream_id)
        × (app'.webrtc_manager ≡ app.webrtc_manager)
        × (app'.stream_manager.streams ≡ app.stream_manager.streams)
        × HasSubscriber app' r id true
  unfolding offer_answered HasSubscriber
  answered-lem app stream_id id r answer (s, h, n) =
      let t = subscribe-has s id n in
      (
        record app {
          stream_manager = set_stream app.stream_manager r t.0;
          peer_streams = GoMap.put app.peer_streams id stream_id;
        },
        rw (h, t.1, offer_answered) refl,
        refl,
        refl,
        refl,
        (
          t.0,
          get_elem?-set_self app.stream_manager.heap r t.0
              (get_elem?-some_lt app.stream_manager.heap r h),
          t.2,
        ),
      )

  -- cleanupPeer with the peer subscribed and mapped.
  cleanup_peer-mapped :
      (app : App S) (stream_id id : String) (r : ℕ)
      → GoMap.get app.peer_streams id ≡ some stream_id
      → GoMap.get app.stream_manager.streams stream_id ≡ some r
      → HasSubscriber app r id true
      → (GoMap.get (cleanup_peer app id).peer_streams id ≡ none)
        × HasSubscriber (cleanup_peer app id) r id false
  unfolding cleanup_peer get_stream HasSubscriber
  cleanup_peer-mapped app stream_id id r m f (s, h, n) =
      let t = unsubscribe-has s id n in
      rw (m, f, h, t.1, cleanup_peer, get_stream)
        (
          ground (arith, get-remove app.peer_streams id id, eq_refl id),
          (
            t.0,
            get_elem?-set_self app.stream_manager.heap r t.0
                (get_elem?-some_lt app.stream_manager.heap r h),
            t.2,
          ),
        )

  cleanup_peer-unmapped :
      (app : App S) (id : String) → GoMap.get app.peer_streams id ≡ none → cleanup_peer app id ≡ app
  unfolding cleanup_peer
  cleanup_peer-unmapped app id h = rw (h, cleanup_peer) refl

  -- An offer, of a stream that the manager has, whose peer has no entry in peerStreams and no
  -- subscription yet. If the peer closes after the offer is answered, its goroutine takes the
  -- entry, the subscription and the peer away. If the peer closes before (while the answer is being
  -- made), its goroutine takes the peer away and finds no entry; the offer is then answered all the
  -- same, and the entry and the subscription of a peer that the manager does not have are there.
  pub close_order_decides :
      (app : App S) (stream_id id : String) (r : ℕ) (answer : String)
      → GoMap.get app.peer_streams id ≡ none
      → GoMap.get app.stream_manager.streams stream_id ≡ some r
      → HasSubscriber app r id false
      → ((app' : App S) × (offer_answered app stream_id id r (some answer) ≡ (app', ok answer))
          × (GoMap.get (on_peer_closed app' id).peer_streams id ≡ none)
          × (get_peer (on_peer_closed app' id).webrtc_manager id ≡ err (peer_not_found id))
          × HasSubscriber (on_peer_closed app' id) r id false)
        × ((app' : App S) × (offer_answered (on_peer_closed app id) stream_id id r (some answer)
              ≡ (app', ok answer))
            × (GoMap.get app'.peer_streams id ≡ some stream_id)
            × (get_peer app'.webrtc_manager id ≡ err (peer_not_found id))
            × HasSubscriber app' r id true)
  unfolding on_peer_closed Dropped HasSubscriber
  close_order_decides app stream_id id r answer n f h =
      let a = answered-lem app stream_id id r answer h in
      let mapped : GoMap.get a.0.peer_streams id ≡ some stream_id =
        rw a.2 (ground (arith, get-put app.peer_streams id id stream_id, eq_refl id)) in
      let c = cleanup_peer-mapped a.0 stream_id id r mapped (rw a.4 f) a.5 in
      let d = drop_peer-Dropped (cleanup_peer a.0 id) id in
      let e = drop_peer-Dropped app id in
      let b = answered-lem (drop_peer app id) stream_id id r answer (rw e.1 h) in
      (
        (a.0, a.1, rw d.2 c.0, d.0, rw d.1 c.1),
        rw (cleanup_peer-unmapped app id n) (
          b.0,
          b.1,
          rw (b.2, e.2) (ground (arith, get-put app.peer_streams id id stream_id, eq_refl id)),
          rw b.3 e.0,
          b.5,
        ),
      )
