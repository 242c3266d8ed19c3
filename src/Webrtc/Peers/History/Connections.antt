-- ===== src/Webrtc/Peers/History/Connections.antt =====
-- Whose connections are open: a peer that is not closed is one that the manager has, and a closed
-- peer has no open connection.
use media_stream.Base.{
  ℕ, ap, ◌≡◌, ◌⊎◌, refl, sym, ◌∙◌, subst, String, Bool, true, false, none, some, List, [], ◌∷◌,
  ◌++◌, arith, ◌==◌, eq_iff, length, get_elem?, set, get_elem?-append_cases, get_elem?-some_lt,
  get_elem?-set_self, get_elem?-set_ne, Option-cases, Bool-cases, inl, inr,
}
use media_stream.Base.Int.{pos, leb_ℤ}
use media_stream.GoMap
use media_stream.GoMap.{
  GoMap, get-put, get-remove, get-empty, KeysDistinct, AllEntries, put-KeysDistinct,
  remove-KeysDistinct, AllEntries-of_lookup, AllEntries-mono, get-lookup,
}
use media_stream.Webrtc.Peers.{
  Peer, PeerManager, Connection, no_connection, open_connection, closed_connection, closed_peer,
  close_connection, new_peer, ConnectionState, ice_connected, ice_failed, ice_closed, ice_other,
  peer_failed, peer_closed, peer_other, create_peer, close_peer, remove_peer, close_peers,
  close_peer_manager, set_connected, state_changed, send_packet,
}
use media_stream.Core.Stream.{Packet}
use media_stream.Webrtc.Peers.Answering.{
  Pion, create_offer, create_peer_connection, add_video, add_audio,
}
use media_stream.Webrtc.Peers.History.{modify, after_create, after_remove}

abbrev pub is_connected : Connection → Bool
is_connected open_connection = true
is_connected c = false

-- A peer that is not closed is the manager's under its id; a closed one has no open connection.
abbrev pub Held : PeerManager → ℕ → Peer → Type 0
Held m r p =
    ((p.close_done ≡ false) × (GoMap.get m.peers p.id ≡ some r))
    ⊎ ((p.close_done ≡ true) × (is_connected p.connection ≡ false))

pub record IsKept (m : PeerManager) : Type 0 where
  pub distinct : KeysDistinct m.peers.entries
  pub held : (r : ℕ) (p : Peer) → get_elem? m.heap r ≡ some p → Held m r p

pub closed_not_open : (c : Connection) → is_connected (close_connection c) ≡ false
closed_not_open no_connection = refl
closed_not_open open_connection = refl
closed_not_open closed_connection = refl

set_peer-IsKept :
    (m : PeerManager) (r : ℕ) (p q : Peer)
    → get_elem? m.heap r ≡ some p
    → Held m r q
    → IsKept m
    → IsKept (record m { heap = set m.heap r q })
set_peer-IsKept m r p q e h v = record {
  distinct = v.distinct;
  held = λ i x g. elim (Bool-cases (r == i)) [
    | inl s ↦
        let same : r ≡ i = ground arith in
        let written : get_elem? (set m.heap r q) i ≡ some q =
          subst (λ j. get_elem? (set m.heap r q) j ≡ some q) same
            (get_elem?-set_self m.heap r q (get_elem?-some_lt m.heap r e)) in
        let found : x ≡ q = ground (arith, g, written) in
        subst (λ j. Held m j x) same (subst (Held m r) (sym found) h)
    | inr s ↦ v.held i x (sym (get_elem?-set_ne m.heap r i q (λ same. ground arith)) ∙ g)
  ];
}

close_peer-IsKept : (m : PeerManager) (r : ℕ) → IsKept m → IsKept (close_peer m r)
unfolding close_peer
close_peer-IsKept m r v = elim (Option-cases (get_elem? m.heap r)) [
  | inl e ↦ rw (e, close_peer) v
  | inr (p, e) ↦ elim (Bool-cases p.close_done) [
    | inl q ↦ rw (e, close_peer, q) v
    | inr q ↦
        rw (e, close_peer, q)
          (let w =
              set_peer-IsKept m r p (closed_peer p) e (inr (refl, closed_not_open p.connection))
                v in
            record { distinct = w.distinct; held = w.held })
  ]
]

pub modify-IsKept :
    (m : PeerManager) (r : ℕ) (f : Peer → Peer)
    → ((p : Peer) → get_elem? m.heap r ≡ some p → Held m r p → Held m r (f p))
    → IsKept m
    → IsKept (modify m r f)
modify-IsKept m r f h v = elim (Option-cases (get_elem? m.heap r)) [
  | inl e ↦ rw (e, modify) v
  | inr (p, e) ↦ rw (e, modify) (set_peer-IsKept m r p (f p) e (h p e (v.held r p e)) v)
]

without_peer-IsKept :
    (m : PeerManager) (id : String)
    → ((r : ℕ) (p : Peer)
        → get_elem? m.heap r ≡ some p
        → GoMap.get m.peers id ≡ some r
        → p.close_done ≡ true)
    → IsKept m
    → IsKept (record m { peers = GoMap.remove m.peers id })
without_peer-IsKept m id h v = record {
  distinct = remove-KeysDistinct m.peers id v.distinct;
  held = λ r p e. ground (arith, v.held r p e, h r p e, get-remove m.peers id p.id, eq_iff id p.id);
}

closed_at :
    (m : PeerManager) (r : ℕ) (p : Peer)
    → get_elem? (close_peer m r).heap r ≡ some p
    → p.close_done ≡ true
unfolding close_peer
closed_at m r p h = elim (Option-cases (get_elem? m.heap r)) [
  | inl e ↦ absurd (ground (arith, e))
  | inr (q, e) ↦ elim (Bool-cases q.close_done) [
    | inl c ↦ ground (arith, e, c)
    | inr c ↦
        ground
          (arith, e, c, get_elem?-set_self m.heap r (closed_peer q) (get_elem?-some_lt m.heap r e))
  ]
]

pub peers-close_peer : (m : PeerManager) (r : ℕ) → (close_peer m r).peers ≡ m.peers
unfolding close_peer
peers-close_peer m r = ground (arith, Option-cases (get_elem? m.heap r))

-- Close and delete of an entry that leads where the map does.
drop_entry-IsKept :
    (m : PeerManager) (id : String) (r : ℕ)
    → ((i : ℕ) → GoMap.get m.peers id ≡ some i → i ≡ r)
    → IsKept m
    → IsKept (record (close_peer m r) { peers = GoMap.remove (close_peer m r).peers id })
drop_entry-IsKept m id r h v =
    without_peer-IsKept (close_peer m r) id
      (λ i p e g.
        (let here : i ≡ r = h i (rw (peers-close_peer m r) at g) in
          closed_at m r p (subst (λ j. get_elem? (close_peer m r).heap j ≡ some p) here e)))
      (close_peer-IsKept m r v)

abbrev pub with_peer : PeerManager → String → String → PeerManager
with_peer m stream_id id = record m {
  heap = m.heap ++ new_peer id stream_id ∷ [];
  peers = GoMap.put m.peers id (length m.heap);
}

new_peer-IsKept :
    (m : PeerManager) (stream_id id : String)
    → GoMap.get m.peers id ≡ none
    → IsKept m
    → IsKept (with_peer m stream_id id)
new_peer-IsKept m stream_id id h v = record {
  distinct = put-KeysDistinct m.peers id (length m.heap) v.distinct;
  held = λ r p e. elim (get_elem?-append_cases m.heap (new_peer id stream_id) p r e) [
    | inl old ↦
        ground (arith, v.held r p old, get-put m.peers id p.id (length m.heap), eq_iff id p.id)
    | inr (at, new) ↦
        subst (Held (with_peer m stream_id id) r) new
          (inl (refl, ground (arith, at, get-put m.peers id id (length m.heap), eq_iff id id)))
  ];
}

-- Every entry that is left leads where the map does.
abbrev Follows : PeerManager → List (String × ℕ) → Type 0
Follows m entries = AllEntries (λ id r. (i : ℕ) → GoMap.get m.peers id ≡ some i → i ≡ r) entries

Follows-remove :
    (m m' : PeerManager) (id : String) (entries : List (String × ℕ))
    → m'.peers ≡ GoMap.remove m.peers id
    → Follows m entries
    → Follows m' entries
Follows-remove m m' id [] e f = tt
Follows-remove m m' id ((k, r) ∷ entries) e f = (
  λ i g. f.0 i (ground (arith, e, g, get-remove m.peers id k)),
  Follows-remove m m' id entries e f.1,
)

close_peers-IsKept :
    (entries : List (String × ℕ)) (m : PeerManager)
    → Follows m entries
    → IsKept m
    → IsKept (close_peers entries m)
unfolding close_peers
close_peers-IsKept [] m f v = v
close_peers-IsKept ((id, r) ∷ entries) m f v =
    let next = record (close_peer m r) { peers = GoMap.remove (close_peer m r).peers id } in
    close_peers-IsKept entries next
      (Follows-remove m next id entries (ap (λ p. GoMap.remove p id) (peers-close_peer m r)) f.1)
      (drop_entry-IsKept m id r f.0 v)

peers-Follows : (m : PeerManager) → KeysDistinct m.peers.entries → Follows m m.peers.entries
peers-Follows m d =
    AllEntries-of_lookup (λ id r. (i : ℕ) → GoMap.get m.peers id ≡ some i → i ≡ r) m.peers.entries d
      (λ id r e i g. ground (arith, e, g, get-lookup m.peers id))

pub close_peer_manager-IsKept : (m : PeerManager) → IsKept m → IsKept (close_peer_manager m)
unfolding close_peer_manager
close_peer_manager-IsKept m v = close_peers-IsKept m.peers.entries m (peers-Follows m v.distinct) v

pub remove_peer-IsKept :
    (m : PeerManager) (id : String) → IsKept m → IsKept (after_remove m (remove_peer m id))
unfolding remove_peer after_remove
remove_peer-IsKept m id v = elim (Option-cases (GoMap.get m.peers id)) [
  | inl h ↦ rw (h, remove_peer) v
  | inr (r, h) ↦ rw (h, remove_peer) (drop_entry-IsKept m id r (λ i g. ground (arith, g, h)) v)
]

pub create_peer-IsKept :
    (m : PeerManager) (stream_id id : String)
    → GoMap.get m.peers id ≡ none
    → IsKept m
    → IsKept (after_create m (create_peer m stream_id id))
unfolding create_peer after_create
create_peer-IsKept m stream_id id h v =
    elim (Bool-cases (leb_ℤ m.max_peers (pos (GoMap.size m.peers)))) [
      | inl e ↦ rw e v
      | inr e ↦ rw e (new_peer-IsKept m stream_id id h v)
    ]

set_connected-IsKept :
    (m : PeerManager) (r : ℕ) (b : Bool) → IsKept m → IsKept (set_connected m r b)
unfolding set_connected
set_connected-IsKept m r b v = modify-IsKept m r (λ p. record p { connected = b }) (λ p e h. h) v

pub state_changed-IsKept :
    (m : PeerManager) (r : ℕ) (s : ConnectionState) → IsKept m → IsKept (state_changed m r s)
unfolding state_changed
state_changed-IsKept m r ice_connected v = set_connected-IsKept m r true v
state_changed-IsKept m r ice_failed v =
    close_peer-IsKept (set_connected m r false) r (set_connected-IsKept m r false v)
state_changed-IsKept m r ice_closed v =
    close_peer-IsKept (set_connected m r false) r (set_connected-IsKept m r false v)
state_changed-IsKept m r ice_other v = v
state_changed-IsKept m r peer_failed v = close_peer-IsKept m r v
state_changed-IsKept m r peer_closed v = close_peer-IsKept m r v
state_changed-IsKept m r peer_other v = v

pub send_packet-Held :
    (m : PeerManager) (r : ℕ) (p : Peer) (packet : Packet) (written : Bool)
    → Held m r p
    → Held m r (send_packet p packet written).0
unfolding send_packet
send_packet-Held m r p packet written h = ground (arith, h)

pub create_offer-Held :
    (m : PeerManager) (r : ℕ) (p : Peer) (offer : List ℕ) (codec : String) (pion : Pion)
    → p.close_done ≡ false
    → Held m r p
    → Held m r (create_offer p offer codec pion).0
unfolding create_offer create_peer_connection add_video add_audio
create_offer-Held m r p offer codec pion c h = ground (arith, h)
