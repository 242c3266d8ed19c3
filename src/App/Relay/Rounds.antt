-- ===== src/App/Relay/Rounds.antt =====
-- What a write and a round of the distributor do to the packets of a stream.
use media_stream.Base.{
  ◌≡◌, refl, subst, Option, none, some, List, [], ◌∷◌, ◌++◌, arith, ltb, length, inl, inr,
  Bool-cases, Option-cases,
}
use media_stream.Core.Channel.{try_recv}
use media_stream.Core.Stream.{
  Stream, Packet, Distributor, selecting, sending, stopped, distribute, distribute_from,
  take_packet, deliver,
}
use media_stream.Core.Stream.Events.{IsValid}
use media_stream.Core.Stream.Lasting.{Lasts}
use media_stream.Core.Stream.Safety.{Keeps, distribute-Keeps}
use media_stream.Core.Stream.Window.{IsOpen, after_write}
use media_stream.App.Relay.{taken_by, prepend}

-- The first list is the second one with some elements left out.
pub data Sublist : List Packet → List Packet → Type 0 where
  both_empty : Sublist [] []
  left_out : (p : Packet) (ps qs : List Packet) → Sublist ps qs → Sublist ps (p ∷ qs)
  kept : (p : Packet) (ps qs : List Packet) → Sublist ps qs → Sublist (p ∷ ps) (p ∷ qs)

pub left_out_all : (ds ps qs : List Packet) → Sublist ps qs → Sublist ps (ds ++ qs)
left_out_all [] ps qs h = h
left_out_all (d ∷ ds) ps qs h = left_out d ps (ds ++ qs) (left_out_all ds ps qs h)

pub prepend-Sublist :
    (o : Option Packet) (ps qs : List Packet)
    → Sublist ps qs
    → Sublist (prepend o ps) (prepend o qs)
prepend-Sublist none ps qs h = h
prepend-Sublist (some p) ps qs h = kept p ps qs h

pub prepend-append :
    (o : Option Packet) (ps qs : List Packet) → prepend o ps ++ qs ≡ prepend o (ps ++ qs)
prepend-append none ps qs = refl
prepend-append (some p) ps qs = refl

pub after_write-IsValid : (s : Stream) (p : Packet) → IsValid s → IsValid (after_write s p)
after_write-IsValid s p v =
    elim (Bool-cases (ltb (length s.packet_buffer.items) s.packet_buffer.cap)) [
      | inl e ↦ rw e (record {
        subscribed = v.subscribed;
        distinct = v.distinct;
        pending = v.pending;
        marked = v.marked;
      })
      | inr e ↦ rw e (record {
        subscribed = v.subscribed;
        distinct = v.distinct;
        pending = v.pending;
        marked = v.marked;
      })
    ]

-- A round of the distributor leaves the stream open and takes at most the first packet.
pub record Rounded (s t : Stream) (o : Option Packet) : Type 0 where
  pub open_after : IsOpen t
  pub lasts : Lasts s t
  pub took : s.packet_buffer.items ≡ prepend o t.packet_buffer.items

take_packet-Rounded :
    (s : Stream) (b : List Packet)
    → s.packet_buffer.items ≡ b
    → IsOpen s
    → Rounded s (take_packet s) (taken_by s selecting)
unfolding take_packet try_recv taken_by
take_packet-Rounded s [] e v = record {
  open_after = ground (arith, e);
  lasts = ground (arith, e);
  took = ground (arith, e);
}
take_packet-Rounded s (p ∷ b) e v = record {
  open_after = ground (arith, e);
  lasts = ground (arith, e);
  took = ground (arith, e);
}

distribute_from-Rounded :
    (s t : Stream) (d : Distributor)
    → IsOpen s
    → distribute_from s d ≡ some t
    → Rounded s t (taken_by s d)
unfolding distribute_from taken_by
distribute_from-Rounded s t selecting v h =
    let same : take_packet s ≡ t = ground arith in
    subst (λ u. Rounded s u (taken_by s selecting)) same
      (take_packet-Rounded s s.packet_buffer.items refl v)
distribute_from-Rounded s t (sending p []) v h = record {
  open_after = ground (arith, h);
  lasts = ground (arith, h);
  took = ground (arith, h);
}
distribute_from-Rounded s t (sending p (r ∷ rest)) v h =
    elim (Option-cases (deliver p r s.workers)) [
      | inl e ↦ absurd (ground (arith, e, h))
      | inr (ws, e) ↦ record {
        open_after = ground (arith, h, e);
        lasts = ground (arith, h, e);
        took = ground (arith, h, e);
      }
    ]
distribute_from-Rounded s t stopped v h = record {
  open_after = ground (arith, h);
  lasts = ground (arith, h);
  took = ground (arith, h);
}

-- A round does not panic.
pub distribute-Rounded :
    (s : Stream)
    → IsValid s
    → IsOpen s
    → (t : Stream) × (distribute s ≡ some t) × IsValid t × Rounded s t (taken_by s s.distributor)
unfolding distribute
distribute-Rounded s v o =
    let keeps = distribute-Keeps s s.distributor refl v in
    elim (Option-cases (distribute_from s s.distributor)) [
      | inl e ↦ absurd (subst Keeps e keeps)
      | inr (t, e) ↦ (t, e, subst Keeps e keeps, distribute_from-Rounded s t s.distributor o e)
    ]
