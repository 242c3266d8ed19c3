-- ===== src/Core/Stream/Window.antt =====
-- The packet buffer under WritePacket, with no other goroutine in between: a window over the last
-- packets written, against `keep_last`.
use Prim.Native.Nat.{min}
use mathlib.Core.List.{append-nil, append_assoc}
use media_stream.Base.{
  ℕ, ◌+◌, ◌-◌, ◌%◌, ◌^◌, ◌≤◌, ◌<◌, ◌≡◌, refl, sym, ◌∙◌, ap, false, List, [], ◌∷◌, ◌++◌, arith, leb,
  ltb, if◌then◌else◌, length, length-append, inl, inr, Bool-cases,
}
use media_stream.Core.Channel.{try_recv}
use media_stream.Core.Stream.{Stream, Packet, Write, accepted, add64, write_packet}

module _ {A : Type 0} where
  -- The last n elements.
  pub keep_last : ℕ → List A → List A
  keep_last n [] = []
  keep_last n (x ∷ xs) =
      let rest = keep_last n xs in if leb (length (x ∷ xs)) n then x ∷ xs else rest

  pub keep_last-short : (n : ℕ) (xs : List A) → length xs ≤ n → keep_last n xs ≡ xs
  unfolding keep_last
  keep_last-short n [] h = refl
  keep_last-short n (x ∷ xs) h = ground arith

  pub keep_last-long :
      (n : ℕ) (x : A) (xs : List A) → n ≤ length xs → keep_last n (x ∷ xs) ≡ keep_last n xs
  unfolding keep_last
  keep_last-long n x xs h = ground arith

  -- A window of a window's continuation is the window of the whole.
  pub keep_last-keep_last :
      (n : ℕ) (xs ys : List A) → keep_last n (keep_last n xs ++ ys) ≡ keep_last n (xs ++ ys)
  unfolding keep_last
  keep_last-keep_last n [] ys = refl
  keep_last-keep_last n (x ∷ xs) ys = elim (Bool-cases (leb (length (x ∷ xs)) n)) [
    | inl e ↦ rw (e, keep_last) refl
    | inr e ↦
        ground (
          arith,
          e,
          keep_last-keep_last n xs ys,
          keep_last-long n x (xs ++ ys),
          length-append xs ys,
        )
  ]

pub keep_last-suffix :
    {A : Type 0} (n : ℕ) (xs : List A) → (ds : List A) × (xs ≡ ds ++ keep_last n xs)
unfolding keep_last
keep_last-suffix n [] = ([], refl)
keep_last-suffix n (x ∷ xs) = elim (Bool-cases (leb (length (x ∷ xs)) n)) [
  | inl e ↦ rw (e, keep_last) ([], refl)
  | inr e ↦
      let rest = keep_last-suffix n xs in rw (e, keep_last) (x ∷ rest.0, ap (λ ys. x ∷ ys) rest.1)
]

-- The stream is not closed, and its buffer holds no more than it can.
pub record IsOpen (s : Stream) : Type 0 where
  pub not_closed : s.closed ≡ false
  pub buffer_open : s.packet_buffer.closed ≡ false
  pub has_room : 0 < s.packet_buffer.cap
  pub within : length s.packet_buffer.items ≤ s.packet_buffer.cap

-- The stream after a successful WritePacket.
abbrev pub after_write : Stream → Packet → Stream
after_write s p =
    if ltb (length s.packet_buffer.items) s.packet_buffer.cap
    then record s {
      packet_buffer = record s.packet_buffer {
        items = keep_last s.packet_buffer.cap (s.packet_buffer.items ++ p ∷ []);
      };
      packets_received = add64 s.packets_received 1;
      bytes_received = add64 s.bytes_received (length p.payload);
    }
    else record s {
      packet_buffer = record s.packet_buffer {
        items = keep_last s.packet_buffer.cap (s.packet_buffer.items ++ p ∷ []);
      };
    }

write_packet-cases :
    (s : Stream) (p : Packet) (b : List Packet)
    → s.packet_buffer.items ≡ b
    → IsOpen s
    → write_packet s p ≡ accepted (after_write s p)
unfolding write_packet try_recv
write_packet-cases s p [] e v = ground (arith, keep_last-short s.packet_buffer.cap (p ∷ []))
write_packet-cases s p (q ∷ b) e v = ground (
  arith,
  length-append b (p ∷ []),
  keep_last-short s.packet_buffer.cap (q ∷ b ++ p ∷ []),
  keep_last-long s.packet_buffer.cap q (b ++ p ∷ []),
  keep_last-short s.packet_buffer.cap (b ++ p ∷ []),
)

-- On an open stream WritePacket succeeds, and the buffer then holds the last `cap` of what it held
-- and the new packet. The packet and its bytes are counted exactly when the buffer had room;
-- nothing else of the stream changes.
pub write_packet-window :
    (s : Stream) (p : Packet) → IsOpen s → write_packet s p ≡ accepted (after_write s p)
write_packet-window s p v = write_packet-cases s p s.packet_buffer.items refl v

length-keep_last-le : {A : Type 0} (n : ℕ) (xs : List A) → length (keep_last n xs) ≤ n
unfolding keep_last
length-keep_last-le n [] = omega arith
length-keep_last-le n (x ∷ xs) = ground (arith, length-keep_last-le n xs)

length-keep_last : {A : Type 0} (n : ℕ) (xs : List A) → length (keep_last n xs) ≡ min n (length xs)
unfolding keep_last
length-keep_last n [] = omega arith
length-keep_last n (x ∷ xs) = ground (arith, length-keep_last n xs)

pub after_write-IsOpen : (s : Stream) (p : Packet) → IsOpen s → IsOpen (after_write s p)
after_write-IsOpen s p v =
    ground (arith, length-keep_last-le s.packet_buffer.cap (s.packet_buffer.items ++ p ∷ []))

-- One producer that writes packet after packet, and stops at the first write that does not return
-- nil.
unfoldable pub write_all : Stream → List Packet → Write
write_all s [] = accepted s
write_all s (p ∷ ps) = elim (write_packet s p) [ accepted t ↦ write_all t ps | other ↦ other ]

unfoldable pub after_writes : Stream → List Packet → Stream
after_writes s [] = s
after_writes s (p ∷ ps) = after_writes (after_write s p) ps

write_all-after_writes :
    (s : Stream) (ps : List Packet) → IsOpen s → write_all s ps ≡ accepted (after_writes s ps)
unfolding write_all after_writes
write_all-after_writes s [] v = refl
write_all-after_writes s (p ∷ ps) v =
    rw (write_packet-window s p v, write_all)
      (write_all-after_writes (after_write s p) ps (after_write-IsOpen s p v))

cap-after_write :
    (s : Stream) (p : Packet) → (after_write s p).packet_buffer.cap ≡ s.packet_buffer.cap
cap-after_write s p = ground arith

pub items-after_write :
    (s : Stream) (p : Packet)
    → (after_write s p).packet_buffer.items
      ≡ keep_last s.packet_buffer.cap (s.packet_buffer.items ++ p ∷ [])
items-after_write s p = ground arith

pub items-after_writes :
    (s : Stream) (ps : List Packet)
    → IsOpen s
    → (after_writes s ps).packet_buffer.items
      ≡ keep_last s.packet_buffer.cap (s.packet_buffer.items ++ ps)
unfolding after_writes
items-after_writes s [] v =
    rw append-nil (sym (keep_last-short s.packet_buffer.cap s.packet_buffer.items v.within))
items-after_writes s (p ∷ ps) v =
    items-after_writes (after_write s p) ps (after_write-IsOpen s p v)
    ∙ rw (cap-after_write s p, items-after_write s p)
        (keep_last-keep_last s.packet_buffer.cap (s.packet_buffer.items ++ p ∷ []) ps
          ∙ ap (keep_last s.packet_buffer.cap) (append_assoc s.packet_buffer.items (p ∷ []) ps))

-- The packets that find room.
abbrev pub counted : Stream → List Packet → ℕ
counted s ps = min (length ps) (s.packet_buffer.cap - length s.packet_buffer.items)

received-after_write :
    (s : Stream) (p : Packet)
    → (after_write s p).packets_received ≡ (
        if ltb (length s.packet_buffer.items) s.packet_buffer.cap
        then add64 s.packets_received 1
        else s.packets_received)
received-after_write s p = ground arith

counted-cons :
    (s : Stream) (p : Packet) (ps : List Packet)
    → IsOpen s
    → counted s (p ∷ ps)
      ≡ (if ltb (length s.packet_buffer.items) s.packet_buffer.cap then 1 else 0)
        + counted (after_write s p) ps
counted-cons s p ps v = ground (
  arith,
  length-keep_last s.packet_buffer.cap (s.packet_buffer.items ++ p ∷ []),
  length-append s.packet_buffer.items (p ∷ []),
)

pub received-after_writes :
    (s : Stream) (ps : List Packet)
    → IsOpen s
    → s.packets_received < 2 ^ 64
    → (after_writes s ps).packets_received ≡ (s.packets_received + counted s ps) % 2 ^ 64
unfolding after_writes
received-after_writes s [] v h = omega arith
received-after_writes s (p ∷ ps) v h =
    let ih = received-after_writes (after_write s p) ps (after_write-IsOpen s p v) in
    ground (arith, ih, received-after_write s p, counted-cons s p ps v)

-- Whatever a producer writes to an open stream is accepted. The buffer then holds the last `cap`
-- packets of what it held and what was written, in order, and packets_received has grown, modulo
-- 2^64, by the number of packets that found room: the packets that pushed an older one out are not
-- counted.
pub write_all-window :
    (s : Stream) (ps : List Packet)
    → IsOpen s
    → s.packets_received < 2 ^ 64
    → (t : Stream) × (write_all s ps ≡ accepted t)
      × (t.packet_buffer.items ≡ keep_last s.packet_buffer.cap (s.packet_buffer.items ++ ps))
      × (t.packets_received ≡ (s.packets_received + counted s ps) % 2 ^ 64)
write_all-window s ps v h = (
  after_writes s ps,
  write_all-after_writes s ps v,
  items-after_writes s ps v,
  received-after_writes s ps v h,
)
