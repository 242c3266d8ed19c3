-- ===== src/Api/Streams/Peers.antt =====
-- The offers, the peers, and the events of streams and clients keep the clients running.
use media_stream.Base.{
  ℕ, ◌≡◌, String, false, Option, none, some, arith, get_elem?, inl, inr, Option-cases, Result-cases,
}
use media_stream.GoMap
use media_stream.GoMap.{GoMap, get-empty}
use media_stream.Core.Stream.{Stream, subscribe, unsubscribe}
use media_stream.Core.Stream.Events.{Event, step}
use media_stream.Core.Stream.Lasting.{
  Lasts?, is_shutdown, step-Lasts, subscribe-Lasts, unsubscribe-Lasts,
}
use media_stream.Core.StreamManager.{get_stream}
use media_stream.Rtsp.Client.{Attempt}
use media_stream.Webrtc.Peers.{create_peer, remove_peer}
use media_stream.App.{App}
use media_stream.App.Running.{IsRunning}
use media_stream.App.Changes.{with_rest-IsRunning, set_stream-IsRunning, attempt-IsRunning}
use media_stream.App.Offers.{offer_peer, offer_answered, cleanup_peer, drop_peer, set_stream}
use media_stream.Api.Streams.Serving.{after_peer, after_step, change_stream, run_at}
use media_stream.Api.Streams.Safety.{Left}

module _ {S : Type 0} where
  pub drop_peer-IsRunning :
      (app : App S) (id : String) → IsRunning app → IsRunning (drop_peer app id)
  unfolding drop_peer
  drop_peer-IsRunning app id v = elim (Result-cases (remove_peer app.webrtc_manager id)) [
    | inl (e, h) ↦ rw (h, drop_peer) v
    | inr (m, h) ↦ rw (h, drop_peer) (with_rest-IsRunning app app.db m app.peer_streams v)
  ]

  pub cleanup_peer-IsRunning :
      (app : App S) (id : String) → IsRunning app → IsRunning (cleanup_peer app id)
  unfolding cleanup_peer get_stream
  cleanup_peer-IsRunning app id v = elim (Option-cases (GoMap.get app.peer_streams id)) [
    | inl h ↦ rw (h, cleanup_peer) v
    | inr (stream_id, h) ↦
        let w =
          with_rest-IsRunning app app.db app.webrtc_manager (GoMap.remove app.peer_streams id) v in
        elim (Option-cases (GoMap.get app.stream_manager.streams stream_id)) [
          | inl g ↦ rw (h, g, cleanup_peer, get_stream) w
          | inr (r, g) ↦
              let a = v.managed.managed stream_id r g in
              elim (Result-cases (unsubscribe a.stream id)) [
                | inl (e, u) ↦ rw (h, g, a.at, u, cleanup_peer, get_stream) w
                | inr (t, u) ↦
                    rw (h, g, a.at, u, cleanup_peer, get_stream)
                      (set_stream-IsRunning
                        (record app { peer_streams = GoMap.remove app.peer_streams id }) r a.stream
                        t w a.at (ground (arith, u, unsubscribe-Lasts a.stream id)))
              ]
        ]
  ]

  pub offer_peer-IsRunning :
      (app : App S) (stream_id id : String)
      → IsRunning app
      → IsRunning (after_peer app (offer_peer app stream_id id))
  unfolding offer_peer after_peer
  offer_peer-IsRunning app stream_id id v =
      elim (Result-cases (create_peer app.webrtc_manager stream_id id)) [
        | inl (e, h) ↦ rw (h, offer_peer) v
        | inr ((m, r), h) ↦ rw (h, offer_peer) (with_rest-IsRunning app app.db m app.peer_streams v)
      ]

  pub offer_answered-IsRunning :
      (app : App S) (stream_id id : String) (r : ℕ) (answer : Option String)
      → IsRunning app
      → IsRunning (offer_answered app stream_id id r answer).0
  unfolding offer_answered
  offer_answered-IsRunning app stream_id id r none v = drop_peer-IsRunning app id v
  offer_answered-IsRunning app stream_id id r (some answer) v =
      elim (Option-cases (get_elem? app.stream_manager.heap r)) [
        | inl h ↦ rw (h, offer_answered) (drop_peer-IsRunning app id v)
        | inr (s, h) ↦ elim (Result-cases (subscribe s id)) [
          | inl (e, g) ↦ rw (h, g, offer_answered) (drop_peer-IsRunning app id v)
          | inr (t, g) ↦
              rw (h, g, offer_answered)
                (with_rest-IsRunning
                  (record app { stream_manager = set_stream app.stream_manager r t }) app.db
                  app.webrtc_manager (GoMap.put app.peer_streams id stream_id)
                  (set_stream-IsRunning app r s t v h (ground (arith, g, subscribe-Lasts s id))))
        ]
      ]

  after_step-Left :
      (app : App S) (r : ℕ) (s : Stream) (o : Option Stream)
      → IsRunning app
      → get_elem? app.stream_manager.heap r ≡ some s
      → Lasts? s o
      → Left (after_step app r o)
  unfolding after_step
  after_step-Left app r s none v h l = tt
  after_step-Left app r s (some t) v h l = set_stream-IsRunning app r s t v h l

  pub change_stream-Left :
      (app : App S) (r : ℕ) (e : Event)
      → is_shutdown e ≡ false
      → IsRunning app
      → Left (change_stream app r e)
  unfolding change_stream
  change_stream-Left app r e n v = elim (Option-cases (get_elem? app.stream_manager.heap r)) [
    | inl h ↦ rw (h, change_stream) v
    | inr (s, h) ↦ rw (h, change_stream) (after_step-Left app r s (step s e) v h (step-Lasts s e n))
  ]

  pub run_at-IsRunning :
      (app : App S) (r : ℕ) (a : Attempt) → IsRunning app → IsRunning (run_at app r a)
  unfolding run_at
  run_at-IsRunning app r a v = elim (Option-cases (get_elem? app.clients r)) [
    | inl h ↦ rw (h, run_at) v
    | inr (c, h) ↦ rw (h, run_at) (attempt-IsRunning app r c a v h)
  ]
