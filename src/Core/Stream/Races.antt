-- ===== src/Core/Stream/Races.antt =====
-- What the locks leave open: two interleavings in which a goroutine acts on a check that another
-- has made out of date, and panics.
use media_stream.Base.{
  ℕ, ◌≡◌, true, none, some, String, List, ◌∷◌, arith, get_elem?-set_self, get_elem?-some_lt,
}
use media_stream.GoMap
use media_stream.Core.Channel.{close}
use media_stream.Core.Stream.{Packet, Stream, sending}
use media_stream.Core.Stream.Workers.{is_open, is_open-some}
use media_stream.Core.Stream.Events.{step, selects, writes, shuts, unsubscribes, distributes}

-- Unsubscribe closes the channel of a worker that the distributor has copied and not yet served:
-- the send to that worker, which comes next, panics.
unsubscribe_while_sending :
    (s : Stream) (p : Packet) (k : String) (r : ℕ) (rest : List ℕ) (t : Stream)
    → s.distributor ≡ sending p (r ∷ rest)
    → GoMap.get s.subscribers k ≡ some r
    → is_open s.workers r ≡ true
    → step s (unsubscribes k) ≡ some t
    → step t distributes ≡ none
unfolding step
unsubscribe_while_sending s p k r rest t d e o q =
    let (w, g, _) = is_open-some s.workers r o in
    ground (
      arith,
      get_elem?-set_self s.workers r
          (record w { cancelled = true; packet_chan = close w.packet_chan })
          (get_elem?-some_lt s.workers r g),
    )

-- RemoveStream shuts a stream: a later WritePacket returns the error and changes nothing, but one
-- that had passed its check of `closed` panics at its send.
shut_before_send :
    (s t : Stream) (p : Packet)
    → step s shuts ≡ some t
    → (step t (writes p) ≡ some t) × (step t (selects p) ≡ none)
unfolding step
shut_before_send s t p q = (ground arith, ground arith)
