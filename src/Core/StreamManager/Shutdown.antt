-- ===== src/Core/StreamManager/Shutdown.antt =====
-- StreamManager.Close. It closes the buffers of the streams and leaves them unmarked, so that a
-- publisher that is still running panics at its next packet.
use media_stream.Base.{
  ℕ, ◌≡◌, ◌≢◌, refl, ◌∙◌, String, true, false, none, some, List, [], ◌∷◌, arith, if◌then◌else◌,
  is_some, get_elem?, set, get_elem?-some_lt, get_elem?-set_self, get_elem?-set_ne, subst, sym,
}
use media_stream.GoMap
use media_stream.GoMap.{
  KeysDistinct, AllEntries, AllEntries-mono, AllEntries-of_lookup, AllEntries-lookup, lookup,
  get-remove,
}
use media_stream.Core.Channel.{close}
use media_stream.Core.Stream.{Stream, Packet, write_packet, panics}
use media_stream.Core.StreamManager.{StreamManager, close_entries, close_manager}
use media_stream.Core.StreamManager.Laws.{Managed, Managed-injective, Managed-set_ne, IsValid}

-- The stream's buffer is closed, and its `closed` mark is not set.
pub record Abandoned (heap : List Stream) (r : ℕ) : Type 0 where
  pub stream : Stream
  pub at : get_elem? heap r ≡ some stream
  pub not_marked : stream.closed ≡ false
  pub buffer_closed : stream.packet_buffer.closed ≡ true

abbrev close_buffer : Stream → Stream
close_buffer s = record s { packet_buffer = close s.packet_buffer }

Abandoned-panics :
    (heap : List Stream) (r : ℕ) (a : Abandoned heap r) (p : Packet)
    → write_packet a.stream p ≡ panics
unfolding write_packet
Abandoned-panics heap r a p = ground arith

-- Behind the first entry, no other leads to its stream.
elsewhere :
    (heap : List Stream) (id : String) (r : ℕ) (rest : List (String × ℕ))
    → KeysDistinct ((id, r) ∷ rest)
    → AllEntries (Managed heap) ((id, r) ∷ rest)
    → AllEntries (λ k i. r ≢ i) rest
elsewhere heap id r rest d a =
    AllEntries-mono (Managed heap) (λ k i. r ≢ i) rest
      (λ k i e b p.
        let same : id ≡ k = Managed-injective heap id k i (subst (Managed heap id) p a.0) b in
        cc (d.0, subst (λ j. lookup j rest ≡ some i) (sym same) e))
      d.1 a.1

-- The loop of Close over `l`: it does not panic, abandons the streams of `l`, takes the keys of `l`
-- off the map, and leaves the rest.
record Closes (l : List (String × ℕ)) (m : StreamManager) : Type 0 where
  after : StreamManager
  runs : close_entries l m ≡ some after
  abandons : AllEntries (λ k r. Abandoned after.heap r) l
  frames : (i : ℕ) → AllEntries (λ k r. i ≢ r) l → get_elem? after.heap i ≡ get_elem? m.heap i
  empties :
      (k : String)
      → GoMap.get after.streams k ≡ (if is_some (lookup k l) then none else GoMap.get m.streams k)

abbrev first_closed : StreamManager → String → ℕ → Stream → StreamManager
first_closed m id r s = record m {
  heap = set m.heap r (close_buffer s);
  streams = GoMap.remove m.streams id;
}

close_entries-step :
    (id : String) (r : ℕ) (rest : List (String × ℕ)) (m : StreamManager) (a : Managed m.heap id r)
    → close_entries ((id, r) ∷ rest) m ≡ close_entries rest (first_closed m id r a.stream)
unfolding close_entries
close_entries-step id r rest m a = rw (a.at, close_entries) (rw a.buffer_open refl)

close_entries-Closes :
    (l : List (String × ℕ)) (m : StreamManager)
    → KeysDistinct l
    → AllEntries (Managed m.heap) l
    → Closes l m
close_entries-Closes [] m d a = record {
  after = m;
  runs = unfold close_entries in refl;
  abandons = tt;
  frames = λ i h. refl;
  empties = λ k. unfold lookup in refl;
}
close_entries-Closes ((id, r) ∷ rest) m d a =
    let w = a.0.stream in
    let other = elsewhere m.heap id r rest d a in
    let c = close_entries-Closes rest (first_closed m id r w) d.1 (
      AllEntries-mono (Managed m.heap) (Managed (set m.heap r (close_buffer w))) rest
        (λ k i e b.
          Managed-set_ne m.heap (close_buffer w) r k i
            (AllEntries-lookup (λ k i. r ≢ i) k i rest other e) b)
        d.1 a.1) in
    record {
      after = c.after;
      runs = close_entries-step id r rest m a.0 ∙ c.runs;
      abandons = (
        record {
          stream = close_buffer w;
          at =
              c.frames r
                (AllEntries-mono (λ k i. r ≢ i) (λ k i. r ≢ i) rest (λ k i e h. h) d.1 other)
              ∙ get_elem?-set_self m.heap r (close_buffer w) (get_elem?-some_lt m.heap r a.0.at);
          not_marked = a.0.not_closed;
          buffer_closed = refl;
        },
        c.abandons,
      );
      frames =
          λ i h. c.frames i h.1 ∙ get_elem?-set_ne m.heap r i (close_buffer w) (λ p. h.0 (sym p));
      empties = λ k. c.empties k ∙ unfold lookup in ground (arith, get-remove m.streams id k);
    }

-- From a valid manager, Close does not panic and leaves the map empty. But it does not mark the
-- streams as closed: whoever still holds the pointer of a stream that the manager had (a publisher,
-- an RTSP client) panics at the next WritePacket, a send on a closed channel.
pub close_manager-panics :
    (m : StreamManager)
    → IsValid m
    → (m' : StreamManager) × (close_manager m ≡ some m')
      × ((k : String) → GoMap.get m'.streams k ≡ none)
      × ((k : String) (r : ℕ)
          → GoMap.get m.streams k ≡ some r
          → (s : Stream) × (get_elem? m'.heap r ≡ some s)
            × ((p : Packet) → write_packet s p ≡ panics))
close_manager-panics m v =
    let c =
      close_entries-Closes m.streams.entries (record m { ctx_done = true }) v.distinct
        (AllEntries-of_lookup (Managed m.heap) m.streams.entries v.distinct
          (λ k r e. v.managed k r (unfold GoMap.get in e))) in
    (
      c.after,
      unfold close_manager in c.runs,
      λ k. c.empties k ∙ (unfold GoMap.get in ground arith),
      λ k r e.
          let a =
            AllEntries-lookup (λ k i. Abandoned c.after.heap i) k r m.streams.entries c.abandons
              (unfold GoMap.get in e) in
          (a.stream, a.at, Abandoned-panics c.after.heap r a),
    )
