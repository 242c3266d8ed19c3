-- ===== src/Core/Stream/Fanout.antt =====
-- One packet from the buffer to the subscribers: the rounds of distributePackets, against an offer
-- of the packet to each subscriber's worker.
use media_stream.Base.{
  ℕ, zero, suc, ◌+◌, ◌≡◌, refl, ◌∙◌, Bool, true, false, ◌||◌, Option, none, some, List, [], ◌∷◌,
  arith, ◌==◌, if◌then◌else◌, length, get_elem?, set, get_elem?-set_self, get_elem?-set_ne,
  get_elem?-some_lt, inl, inr, Option-cases,
}
use native.Mathlib.Decide.{ℕ_discrete}
use media_stream.Core.Channel.{try_recv}
use media_stream.Core.Stream.{Packet, Worker, Stream, selecting, sending, snapshot, distribute}
use media_stream.Core.Stream.Workers.{
  is_open, is_open-some, is_open-set, AllOpen, AllOpen-mono, Avoids, Distinct, offer, deliver-offer,
}
use media_stream.Core.Stream.Events.{IsValid}

-- So many rounds of distributePackets; `none` once one panics.
unfoldable pub rounds : ℕ → Stream → Option Stream
rounds zero s = some s
rounds (suc n) s = elim (distribute s) [ none ↦ none | some t ↦ rounds n t ]

-- The pointer is one of the list.
abbrev pub has : ℕ → List ℕ → Bool
has i [] = false
has i (r ∷ rs) = (r == i) || has i rs

offer_at : Packet → ℕ → List Worker → List Worker
offer_at p r ws = elim (get_elem? ws r) [ none ↦ ws | some w ↦ set ws r (offer p w) ]

offer_all : Packet → List ℕ → List Worker → List Worker
offer_all p [] ws = ws
offer_all p (r ∷ rs) ws = offer_all p rs (offer_at p r ws)

offer_at-elem :
    (p : Packet) (r i : ℕ) (ws : List Worker) (w : Worker)
    → get_elem? ws i ≡ some w
    → get_elem? (offer_at p r ws) i ≡ some (if r == i then offer p w else w)
unfolding offer_at
offer_at-elem p r i ws w e = elim (ℕ_discrete r i) [
  | yes q ↦ ground (arith, q, get_elem?-set_self ws i (offer p w) (get_elem?-some_lt ws i e))
  | no ne ↦ elim (Option-cases (get_elem? ws r)) [
    | inl h ↦ ground arith
    | inr (v, h) ↦ ground (arith, get_elem?-set_ne ws r i (offer p v) ne)
  ]
]

Avoids-has : (r : ℕ) (rs : List ℕ) → Avoids r rs → has r rs ≡ false
Avoids-has r [] h = refl
Avoids-has r (i ∷ rs) h = ground (arith, Avoids-has r rs h.1)

offer_all-elem :
    (p : Packet) (rs : List ℕ) (i : ℕ) (ws : List Worker) (w : Worker)
    → Distinct rs
    → get_elem? ws i ≡ some w
    → get_elem? (offer_all p rs ws) i ≡ some (if has i rs then offer p w else w)
unfolding offer_all
offer_all-elem p [] i ws w d e = e
offer_all-elem p (r ∷ rs) i ws w d e =
    offer_all-elem p rs i (offer_at p r ws) (if r == i then offer p w else w) d.1
      (offer_at-elem p r i ws w e)
    ∙ ground (arith, Avoids-has r rs d.0)

distribute-send :
    (s : Stream) (p : Packet) (r : ℕ) (rs : List ℕ)
    → s.distributor ≡ sending p (r ∷ rs)
    → is_open s.workers r ≡ true
    → distribute s
      ≡ some (record s { workers = offer_at p r s.workers; distributor = sending p rs })
unfolding distribute offer_at
distribute-send s p r rs d h =
    let (w, e, o) = is_open-some s.workers r h in ground (arith, deliver-offer p r s.workers w e o)

distribute-last :
    (s : Stream) (p : Packet)
    → s.distributor ≡ sending p []
    → distribute s ≡ some (record s { distributor = selecting })
unfolding distribute
distribute-last s p d = ground arith

distribute-take :
    (s : Stream) (p : Packet) (rest : List Packet)
    → s.distributor ≡ selecting
    → s.packet_buffer.items ≡ p ∷ rest
    → distribute s
      ≡ some (record s {
        packet_buffer = record s.packet_buffer { items = rest };
        distributor = sending p (snapshot s);
      })
unfolding distribute try_recv
distribute-take s p rest d e = ground arith

offer_at-open :
    (p : Packet) (r i : ℕ) (ws : List Worker)
    → is_open ws r ≡ true
    → is_open ws i ≡ true
    → is_open (offer_at p r ws) i ≡ true
unfolding offer_at
offer_at-open p r i ws h k =
    let (w, e, o) = is_open-some ws r h in
    rw (e, offer_at) (is_open-set ws r i (offer p w) (ground arith) k)

sending_rounds :
    (s : Stream) (p : Packet) (rs : List ℕ)
    → s.distributor ≡ sending p rs
    → AllOpen s.workers rs
    → rounds (suc (length rs)) s
      ≡ some (record s { workers = offer_all p rs s.workers; distributor = selecting })
unfolding rounds offer_all
sending_rounds s p [] d h = rw (distribute-last s p d, rounds) refl
sending_rounds s p (r ∷ rs) d h =
    rw (distribute-send s p r rs d h.0, rounds)
      (sending_rounds (record s { workers = offer_at p r s.workers; distributor = sending p rs }) p
        rs refl
        (AllOpen-mono s.workers (offer_at p r s.workers) rs (λ i. offer_at-open p r i s.workers h.0)
          h.1))

rounds-take :
    (s : Stream) (p : Packet) (rest : List Packet) (n : ℕ) {o : Option Stream}
    → s.distributor ≡ selecting
    → s.packet_buffer.items ≡ p ∷ rest
    → rounds n (record s {
      packet_buffer = record s.packet_buffer { items = rest };
      distributor = sending p (snapshot s);
    })
      ≡ o
    → rounds (suc n) s ≡ o
unfolding rounds
rounds-take s p rest n d e h = rw (distribute-take s p rest d e, rounds) h

-- From a valid stream whose distributor is at its `select`, with a packet in the buffer and nobody
-- else acting, one turn of distributePackets (a receive, a send for each subscriber, and the end of
-- the loop) does not panic. It takes the oldest packet off the buffer and offers it once to each
-- subscriber's worker: the packet is appended where the worker's channel has room and dropped where
-- it has none. Workers that are not subscribed, and all else but the turn itself, stay as they were.
pub distribute_turn :
    (s : Stream) (p : Packet) (rest : List Packet)
    → IsValid s
    → s.distributor ≡ selecting
    → s.packet_buffer.items ≡ p ∷ rest
    → (ws : List Worker) × (rounds (length (snapshot s) + 2) s
        ≡ some (record s {
          packet_buffer = record s.packet_buffer { items = rest };
          workers = ws;
          distributor = selecting;
        }))
      × ((i : ℕ) (w : Worker)
          → get_elem? s.workers i ≡ some w
          → get_elem? ws i ≡ some (if has i (snapshot s) then offer p w else w))
distribute_turn s p rest v d e = (
  offer_all p (snapshot s) s.workers,
  rw two (
      rounds-take s p rest (suc (length (snapshot s))) d e
        (sending_rounds _ p (snapshot s) refl v.subscribed)),
  λ i w. offer_all-elem p (snapshot s) i s.workers w v.distinct,
)
  where
    two : length (snapshot s) + 2 ≡ suc (suc (length (snapshot s)))
    two = omega arith
