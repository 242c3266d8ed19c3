-- ===== src/Webrtc/Peers/History/Notices.antt =====
-- How many peers there are after a history, and how often each one's onClose was called.
use media_stream.Base.{
  ℕ, ◌+◌, ◌≤◌, ◌≡◌, refl, String, Bool, true, false, Option, none, some, List, [], ◌∷◌, ◌++◌, arith,
  if◌then◌else◌, ◌==◌, length, get_elem?, set, get_elem?-some_lt, get_elem?-set_self,
  get_elem?-set_ne, Option-cases, Bool-cases, inl, inr, ◌∙◌, subst, sym, zero, suc,
}
use media_stream.Base.Int.{ℤ, pos, negsuc, pos_part, leb_ℤ}
use media_stream.GoMap
use media_stream.GoMap.{size-put-le, size-remove-le}
use media_stream.Core.Stream.{Packet}
use media_stream.Webrtc.Peers.Answering.{create_offer, create_offer_lem}
use media_stream.Webrtc.Peers.{
  closed_peer, Peer, PeerManager, ConnectionState, ice_connected, ice_failed, ice_closed, ice_other,
  peer_failed, peer_closed, peer_other, new_peer_manager, new_peer, create_peer, close_peer,
  remove_peer, close_peers, close_peer_manager, set_connected, state_changed, send_packet,
}
use media_stream.Webrtc.Peers.History.{
  PeerEvent, creates, removes, changes, offers, sends, closes_all, after_create, after_remove,
  modify, serve_peer, serve_peers,
}

abbrev pub count : ℕ → List ℕ → ℕ
count r [] = 0
count r (i ∷ is) = if i == r then count r is + 1 else count r is

-- How often the peer's onClose has been called: once if it is closed.
abbrev pub calls : Option Peer → ℕ
calls none = 0
calls (some p) = if p.close_done then 1 else 0

-- How many peers a manager may hold at once: 1000 by default, and none with a negative setting.
abbrev pub limit : ℤ → ℕ
limit (pos zero) = 1000
limit (pos (suc n)) = suc n
limit (negsuc n) = 0

pub record IsSound (n : ℤ) (m : PeerManager) : Type 0 where
  pub same_limit : m.max_peers ≡ n
  pub bounded : GoMap.size m.peers ≤ pos_part n
  pub once : (r : ℕ) → count r m.notified ≡ calls (get_elem? m.heap r)

calls-append :
    (heap : List Peer) (p : Peer) (r : ℕ)
    → p.close_done ≡ false
    → calls (get_elem? (heap ++ p ∷ []) r) ≡ calls (get_elem? heap r)
calls-append [] p zero h = ground arith
calls-append [] p (suc r) h = refl
calls-append (q ∷ heap) p zero h = refl
calls-append (q ∷ heap) p (suc r) h = calls-append heap p r h

calls-set :
    (heap : List Peer) (r i : ℕ) (p q : Peer)
    → get_elem? heap r ≡ some p
    → q.close_done ≡ p.close_done
    → calls (get_elem? (set heap r q) i) ≡ calls (get_elem? heap i)
calls-set [] r i p q e h = refl
calls-set (x ∷ heap) zero zero p q e h = ground (arith, e)
calls-set (x ∷ heap) zero (suc i) p q e h = refl
calls-set (x ∷ heap) (suc r) zero p q e h = refl
calls-set (x ∷ heap) (suc r) (suc i) p q e h = calls-set heap r i p q e h

calls-close :
    (heap : List Peer) (r i : ℕ) (p q : Peer)
    → get_elem? heap r ≡ some p
    → p.close_done ≡ false
    → q.close_done ≡ true
    → calls (get_elem? (set heap r q) i)
      ≡ (if r == i then calls (get_elem? heap i) + 1 else calls (get_elem? heap i))
calls-close heap r i p q e h k = elim (Bool-cases (r == i)) [
  | inl s ↦
      let same : r ≡ i = ground arith in
      let here : get_elem? heap i ≡ some p = subst (λ j. get_elem? heap j ≡ some p) same e in
      let written : get_elem? (set heap r q) i ≡ some q =
        subst (λ j. get_elem? (set heap r q) j ≡ some q) same
          (get_elem?-set_self heap r q (get_elem?-some_lt heap r e)) in
      rw (s, here, written, h, k) refl
  | inr s ↦ rw (s, get_elem?-set_ne heap r i q (λ same. ground arith)) refl
]

send_packet-close_done :
    (p : Peer) (packet : Packet) (written : Bool)
    → (send_packet p packet written).0.close_done ≡ p.close_done
unfolding send_packet
send_packet-close_done p packet written = ground arith

module _ {n : ℤ} where
  modify-IsSound :
      (m : PeerManager) (r : ℕ) (f : Peer → Peer)
      → ((p : Peer) → (f p).close_done ≡ p.close_done)
      → IsSound n m
      → IsSound n (modify m r f)
  modify-IsSound m r f h v = elim (Option-cases (get_elem? m.heap r)) [
    | inl e ↦ rw (e, modify) v
    | inr (p, e) ↦
        rw (e, modify)
          (record {
            same_limit = v.same_limit;
            bounded = v.bounded;
            once = λ i. v.once i ∙ sym (calls-set m.heap r i p (f p) e (h p));
          })
  ]

  close_peer-IsSound : (m : PeerManager) (r : ℕ) → IsSound n m → IsSound n (close_peer m r)
  unfolding close_peer
  close_peer-IsSound m r v = elim (Option-cases (get_elem? m.heap r)) [
    | inl e ↦ rw (e, close_peer) v
    | inr (p, e) ↦ elim (Bool-cases p.close_done) [
      | inl q ↦ rw (e, close_peer, q) v
      | inr q ↦
          rw (e, close_peer, q)
            (record {
              same_limit = v.same_limit;
              bounded = v.bounded;
              once =
                  λ i. ground (arith, v.once i, calls-close m.heap r i p (closed_peer p) e q refl);
            })
    ]
  ]

  without_peer-IsSound :
      (m : PeerManager) (id : String)
      → IsSound n m
      → IsSound n (record m { peers = GoMap.remove m.peers id })
  without_peer-IsSound m id v = record {
    same_limit = v.same_limit;
    bounded = omega (arith, v.bounded, size-remove-le m.peers id);
    once = v.once;
  }

  create_peer-IsSound :
      (m : PeerManager) (stream_id id : String)
      → IsSound n m
      → IsSound n (after_create m (create_peer m stream_id id))
  unfolding create_peer after_create
  create_peer-IsSound m stream_id id v =
      elim (Bool-cases (leb_ℤ m.max_peers (pos (GoMap.size m.peers)))) [
        | inl h ↦ rw h v
        | inr h ↦ rw h (record {
          same_limit = v.same_limit;
          bounded = ground (arith, v.same_limit, size-put-le m.peers id (length m.heap));
          once = λ r. v.once r ∙ sym (calls-append m.heap (new_peer id stream_id) r refl);
        })
      ]

  remove_peer-IsSound :
      (m : PeerManager) (id : String) → IsSound n m → IsSound n (after_remove m (remove_peer m id))
  unfolding remove_peer after_remove
  remove_peer-IsSound m id v = elim (Option-cases (GoMap.get m.peers id)) [
    | inl h ↦ rw (h, remove_peer) v
    | inr (r, h) ↦
        rw (h, remove_peer) (without_peer-IsSound (close_peer m r) id (close_peer-IsSound m r v))
  ]

  close_peers-IsSound :
      (entries : List (String × ℕ)) (m : PeerManager)
      → IsSound n m
      → IsSound n (close_peers entries m)
  unfolding close_peers
  close_peers-IsSound [] m v = v
  close_peers-IsSound ((id, r) ∷ entries) m v =
      close_peers-IsSound entries _
        (without_peer-IsSound (close_peer m r) id (close_peer-IsSound m r v))

  set_connected-IsSound :
      (m : PeerManager) (r : ℕ) (b : Bool) → IsSound n m → IsSound n (set_connected m r b)
  unfolding set_connected
  set_connected-IsSound m r b v = modify-IsSound m r (λ p. record p { connected = b }) (λ p. refl) v

  state_changed-IsSound :
      (m : PeerManager) (r : ℕ) (s : ConnectionState)
      → IsSound n m
      → IsSound n (state_changed m r s)
  unfolding state_changed
  state_changed-IsSound m r ice_connected v = set_connected-IsSound m r true v
  state_changed-IsSound m r ice_failed v =
      close_peer-IsSound (set_connected m r false) r (set_connected-IsSound m r false v)
  state_changed-IsSound m r ice_closed v =
      close_peer-IsSound (set_connected m r false) r (set_connected-IsSound m r false v)
  state_changed-IsSound m r ice_other v = v
  state_changed-IsSound m r peer_failed v = close_peer-IsSound m r v
  state_changed-IsSound m r peer_closed v = close_peer-IsSound m r v
  state_changed-IsSound m r peer_other v = v

  serve_peer-IsSound : (m : PeerManager) (e : PeerEvent) → IsSound n m → IsSound n (serve_peer m e)
  unfolding serve_peer
  serve_peer-IsSound m (creates stream_id id) v = create_peer-IsSound m stream_id id v
  serve_peer-IsSound m (removes id) v = remove_peer-IsSound m id v
  serve_peer-IsSound m (changes r s) v = state_changed-IsSound m r s v
  serve_peer-IsSound m (offers r offer codec pion) v =
      modify-IsSound m r (λ p. (create_offer p offer codec pion).0)
        (λ p. (create_offer_lem p offer codec pion).1.same_close) v
  serve_peer-IsSound m (sends r packet written) v =
      modify-IsSound m r (λ p. (send_packet p packet written).0)
        (λ p. send_packet-close_done p packet written) v
  serve_peer-IsSound m closes_all v =
      unfold close_peer_manager in close_peers-IsSound m.peers.entries m v

  serve_peers-IsSound :
      (m : PeerManager) (es : List PeerEvent) → IsSound n m → IsSound n (serve_peers m es)
  unfolding serve_peers
  serve_peers-IsSound m [] v = v
  serve_peers-IsSound m (e ∷ es) v =
      serve_peers-IsSound (serve_peer m e) es (serve_peer-IsSound m e v)

new_peer_manager-IsSound : (n : ℤ) → IsSound (new_peer_manager n).max_peers (new_peer_manager n)
unfolding new_peer_manager
new_peer_manager-IsSound n = record {
  same_limit = refl;
  bounded = unfold GoMap.empty in omega arith;
  once = λ r. refl;
}

new_peer_manager-limit : (n : ℤ) → pos_part (new_peer_manager n).max_peers ≡ limit n
unfolding new_peer_manager
new_peer_manager-limit (pos zero) = refl
new_peer_manager-limit (pos (suc n)) = ground arith
new_peer_manager-limit (negsuc n) = ground arith

-- After any history of a new manager, its map holds at most maxPeers peers (1000 where that is 0,
-- none where it is negative), and each peer ever created has had its onClose called once if it is
-- closed and never if it is not, however often it was closed by the manager or by its connection.
pub peers-IsSound :
    (max_peers : ℤ) (es : List PeerEvent)
    → (GoMap.size (serve_peers (new_peer_manager max_peers) es).peers ≤ limit max_peers)
      × ((r : ℕ)
          → count r (serve_peers (new_peer_manager max_peers) es).notified
            ≡ calls (get_elem? (serve_peers (new_peer_manager max_peers) es).heap r))
peers-IsSound max_peers es =
    let v =
      serve_peers-IsSound (new_peer_manager max_peers) es (new_peer_manager-IsSound max_peers) in
    (omega (arith, v.bounded, new_peer_manager-limit max_peers), v.once)
