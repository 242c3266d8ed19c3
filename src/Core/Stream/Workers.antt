-- ===== src/Core/Stream/Workers.antt =====
-- The heap of workers: which channels are open, and what a send, a new worker and a stop do to it.
use media_stream.Base.{
  ℕ, ◌≡◌, ◌≢◌, ◌<◌, refl, Bool, true, false, not, none, some, String, List, [], ◌∷◌, ◌++◌, map,
  arith, ltb, if◌then◌else◌, length, get_elem?, set, set-get_elem?, get_elem?-set_self,
  get_elem?-set_ne, get_elem?-some_lt, get_elem?-append_left, get_elem?-append_length, inl, inr,
  Option-cases,
}
use native.Mathlib.Decide.{ℕ_discrete}
use media_stream.GoMap.{lookup, without}
use media_stream.Core.Stream.{Packet, Worker, deliver, stop_worker}

-- There is a worker at `r`, and its channel is open.
unfoldable pub is_open : List Worker → ℕ → Bool
is_open ws r = elim (get_elem? ws r) [ none ↦ false | some w ↦ not w.packet_chan.closed ]

pub is_open-some :
    (ws : List Worker) (r : ℕ)
    → is_open ws r ≡ true
    → (w : Worker) × (get_elem? ws r ≡ some w) × (w.packet_chan.closed ≡ false)
unfolding is_open
is_open-some ws r h = ground arith

is_open-lt : (ws : List Worker) (r : ℕ) → is_open ws r ≡ true → r < length ws
is_open-lt ws r h = let (w, e, _) = is_open-some ws r h in get_elem?-some_lt ws r e

pub is_open-append :
    (ws : List Worker) (w : Worker) (r : ℕ) → is_open ws r ≡ true → is_open (ws ++ w ∷ []) r ≡ true
unfolding is_open
is_open-append ws w r h =
    let (v, e, o) = is_open-some ws r h in ground (arith, get_elem?-append_left ws (w ∷ []) r e)

pub is_open-fresh :
    (ws : List Worker) (w : Worker)
    → w.packet_chan.closed ≡ false
    → is_open (ws ++ w ∷ []) (length ws) ≡ true
unfolding is_open
is_open-fresh ws w h = ground (arith, get_elem?-append_length ws w)

is_open-set_ne :
    (ws : List Worker) (i j : ℕ) (w : Worker) → i ≢ j → is_open (set ws i w) j ≡ is_open ws j
unfolding is_open
is_open-set_ne ws i j w h = ground (arith, get_elem?-set_ne ws i j w h)

-- A write of an open worker closes nothing.
pub is_open-set :
    (ws : List Worker) (i j : ℕ) (w : Worker)
    → w.packet_chan.closed ≡ false
    → is_open ws j ≡ true
    → is_open (set ws i w) j ≡ true
unfolding is_open
is_open-set ws i j w o h = elim (ℕ_discrete i j) [
  | yes e ↦ ground (arith, e, get_elem?-set_self ws i w (ground (arith, e, is_open-lt ws j h)))
  | no ne ↦ ground (arith, get_elem?-set_ne ws i j w ne)
]

-- Nor does a write that keeps the channel as open as it was.
pub is_open-set_same :
    (ws : List Worker) (i j : ℕ) (v w : Worker)
    → get_elem? ws i ≡ some v
    → w.packet_chan.closed ≡ v.packet_chan.closed
    → is_open ws j ≡ true
    → is_open (set ws i w) j ≡ true
unfolding is_open
is_open-set_same ws i j v w e c h = elim (ℕ_discrete i j) [
  | yes p ↦ ground (arith, p, get_elem?-set_self ws i w (get_elem?-some_lt ws i e))
  | no ne ↦ ground (arith, get_elem?-set_ne ws i j w ne)
]

-- The workers of a list of pointers are open.
abbrev pub AllOpen : List Worker → List ℕ → Type 0
AllOpen ws [] = Unit {0}
AllOpen ws (r ∷ rs) = (is_open ws r ≡ true) × AllOpen ws rs

abbrev pub Avoids : ℕ → List ℕ → Type 0
Avoids r [] = Unit {0}
Avoids r (i ∷ rs) = (i ≢ r) × Avoids r rs

abbrev pub Distinct : List ℕ → Type 0
Distinct [] = Unit {0}
Distinct (r ∷ rs) = Avoids r rs × Distinct rs

pub AllOpen-mono :
    (ws vs : List Worker) (rs : List ℕ)
    → ((i : ℕ) → is_open ws i ≡ true → is_open vs i ≡ true)
    → AllOpen ws rs
    → AllOpen vs rs
AllOpen-mono ws vs [] f h = tt
AllOpen-mono ws vs (r ∷ rs) f h = (f r h.0, AllOpen-mono ws vs rs f h.1)

pub AllOpen-append :
    (ws : List Worker) (w : Worker) (rs : List ℕ) → AllOpen ws rs → AllOpen (ws ++ w ∷ []) rs
AllOpen-append ws w rs = AllOpen-mono ws (ws ++ w ∷ []) rs (is_open-append ws w)

pub Avoids-length : (ws : List Worker) (rs : List ℕ) → AllOpen ws rs → Avoids (length ws) rs
Avoids-length ws [] h = tt
Avoids-length ws (r ∷ rs) h = (omega (arith, is_open-lt ws r h.0), Avoids-length ws rs h.1)

abbrev pub refs : List (String × ℕ) → List ℕ
refs = map (λ e. e.1)

pub AllOpen-without :
    (ws : List Worker) (k : String) (l : List (String × ℕ))
    → AllOpen ws (refs l)
    → AllOpen ws (refs (without k l))
unfolding without
AllOpen-without ws k [] h = tt
AllOpen-without ws k ((j, r) ∷ l) h = ground (arith, AllOpen-without ws k l)

pub Avoids-without :
    (r : ℕ) (k : String) (l : List (String × ℕ)) → Avoids r (refs l) → Avoids r (refs (without k l))
unfolding without
Avoids-without r k [] h = tt
Avoids-without r k ((j, i) ∷ l) h = ground (arith, Avoids-without r k l)

pub Distinct-without :
    (k : String) (l : List (String × ℕ)) → Distinct (refs l) → Distinct (refs (without k l))
unfolding without
Distinct-without k [] h = tt
Distinct-without k ((j, i) ∷ l) h = ground (arith, Distinct-without k l, Avoids-without i k l)

Avoids-lookup :
    (r i : ℕ) (k : String) (l : List (String × ℕ)) → Avoids r (refs l) → lookup k l ≡ some i → i ≢ r
unfolding lookup
Avoids-lookup r i k [] h e = cc
Avoids-lookup r i k ((j, v) ∷ l) h e = ground (arith, Avoids-lookup r i k l h.1)

-- Once a key is gone, so is its pointer.
pub Avoids-without-lookup :
    (r : ℕ) (k : String) (l : List (String × ℕ))
    → Distinct (refs l)
    → lookup k l ≡ some r
    → Avoids r (refs (without k l))
unfolding lookup without
Avoids-without-lookup r k [] d e = tt
Avoids-without-lookup r k ((j, v) ∷ l) d e =
    ground
      (arith, Avoids-without v k l d.0, Avoids-without-lookup r k l d.1, Avoids-lookup v r k l d.0)

pub AllOpen-lookup :
    (ws : List Worker) (r : ℕ) (k : String) (l : List (String × ℕ))
    → AllOpen ws (refs l)
    → lookup k l ≡ some r
    → is_open ws r ≡ true
unfolding lookup
AllOpen-lookup ws r k [] h e = cc
AllOpen-lookup ws r k ((j, v) ∷ l) h e = ground (arith, AllOpen-lookup ws r k l h.1)

is_open-stop_worker :
    (ws : List Worker) (r i : ℕ) → i ≢ r → is_open (stop_worker r ws) i ≡ is_open ws i
unfolding stop_worker
is_open-stop_worker ws r i h = elim (Option-cases (get_elem? ws r)) [
  | inl e ↦ rw (e, stop_worker) refl
  | inr (w, e) ↦ rw (e, stop_worker) (is_open-set_ne ws r i _ (λ p. h (omega arith)))
]

-- Stopping a worker leaves those open that are others.
pub AllOpen-stop_worker :
    (ws : List Worker) (r : ℕ) (rs : List ℕ)
    → Avoids r rs
    → AllOpen ws rs
    → AllOpen (stop_worker r ws) rs
AllOpen-stop_worker ws r [] a h = tt
AllOpen-stop_worker ws r (i ∷ rs) a h =
    (rw (is_open-stop_worker ws r i a.0) h.0, AllOpen-stop_worker ws r rs a.1 h.1)

-- A worker that is handed a packet: it queues it if its channel has room.
abbrev pub offer : Packet → Worker → Worker
offer p w =
    if ltb (length w.packet_chan.items) w.packet_chan.cap
    then record w { packet_chan = record w.packet_chan { items = w.packet_chan.items ++ p ∷ [] } }
    else w

-- A send to an open worker is an offer, and does not panic.
pub deliver-offer :
    (p : Packet) (r : ℕ) (ws : List Worker) (w : Worker)
    → get_elem? ws r ≡ some w
    → w.packet_chan.closed ≡ false
    → deliver p r ws ≡ some (set ws r (offer p w))
unfolding deliver
deliver-offer p r ws w e o = ground (arith, set-get_elem? ws r {a = w} e)

pub deliver-some :
    (p : Packet) (r : ℕ) (ws : List Worker)
    → is_open ws r ≡ true
    → (vs : List Worker) × (deliver p r ws ≡ some vs)
      × ((i : ℕ) → is_open ws i ≡ true → is_open vs i ≡ true)
deliver-some p r ws h =
    let (w, e, o) = is_open-some ws r h in
    (
      set ws r (offer p w),
      deliver-offer p r ws w e o,
      λ i. is_open-set ws r i (offer p w) (ground arith),
    )
