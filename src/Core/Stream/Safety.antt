-- ===== src/Core/Stream/Safety.antt =====
-- No event panics, as long as no goroutine acts between another's check and its send.
use media_stream.Base.{
  ℕ, ◌≡◌, refl, subst, inl, inr, Bool, true, false, Option, none, some, String, List, [], ◌∷◌,
  arith, length, Option-cases, Bool-cases, get_elem?, set, ◌≢◌,
}
use media_stream.GoMap
use media_stream.Core.Channel.{try_recv}
use media_stream.Core.Stream.{
  Packet, Worker, Distributor, selecting, sending, stopped, Stream, new_stream, write_select,
  write_end, write_send, write_packet, subscribe, unsubscribe, snapshot, distribute,
  distribute_from, take_packet, worker_round, worker_done, set_video_codec, shut, stop_worker,
}
use media_stream.Core.Stream.Workers.{
  is_open, AllOpen, AllOpen-append, Avoids-length, AllOpen-without, Avoids-without,
  Distinct-without, Avoids-without-lookup, refs, is_open-append, AllOpen-stop_worker, AllOpen-mono,
  deliver-some, is_open-set_same, is_open-fresh,
}
use media_stream.Core.Stream.Events.{
  Event, writes, selects, ends, resumes, distributes, cancels_distribution, shuts, subscribes,
  unsubscribes, sets_codec, works, ends_worker, after_write, after_attempt, after_result,
  cancel_distribution, step, PendingOpen, is_sending, IsValid, IsCalm,
}

-- The panic-free step and what it keeps.
abbrev pub Keeps : Option Stream → Type 0
Keeps none = ⊥
Keeps (some t) = IsValid t

new_stream-IsValid : (id name : String) (n : ℕ) → IsValid (new_stream id name n)
unfolding new_stream
new_stream-IsValid id name n = record {
  subscribed = tt;
  distinct = tt;
  pending = tt;
  marked = inr refl;
}

select-Keeps :
    (s : Stream) (p : Packet)
    → IsValid s
    → s.packet_buffer.closed ≡ false
    → Keeps (after_attempt (write_select s p))
unfolding write_select try_recv
select-Keeps s p v h = select_from s.packet_buffer.items refl
  where
    select_from :
        (b : List Packet) → s.packet_buffer.items ≡ b → Keeps (after_attempt (write_select s p))
    select_from [] e = ground arith
    select_from (q ∷ b) e = ground arith

send-Keeps :
    (s : Stream) (p : Packet)
    → IsValid s
    → s.packet_buffer.closed ≡ false
    → Keeps (after_write (write_send s p))
unfolding write_send
send-Keeps s p v h = ground arith

end-Keeps : (s : Stream) (p : Packet) → IsValid s → Keeps (after_write (write_end s p))
unfolding write_end
end-Keeps s p v = ground arith

write-Keeps : (s : Stream) (p : Packet) → IsValid s → Keeps (after_write (write_packet s p))
unfolding write_packet try_recv
write-Keeps s p v = write_from s.packet_buffer.items refl
  where
    write_from :
        (b : List Packet) → s.packet_buffer.items ≡ b → Keeps (after_write (write_packet s p))
    write_from [] e = ground arith
    write_from (q ∷ b) e = ground arith

pub distribute-Keeps :
    (s : Stream) (d : Distributor) → s.distributor ≡ d → IsValid s → Keeps (distribute_from s d)
unfolding distribute_from take_packet try_recv
distribute-Keeps s selecting e v = take_from s.packet_buffer.items refl
  where
    take_from : (b : List Packet) → s.packet_buffer.items ≡ b → Keeps (some (take_packet s))
    take_from [] i = ground arith
    take_from (q ∷ b) i = ground arith
distribute-Keeps s (sending p []) e v = ground arith
distribute-Keeps s (sending p (r ∷ rest)) e v =
    let pend : AllOpen s.workers (r ∷ rest) = subst (PendingOpen s.workers) e v.pending in
    let (ws, q, keep) = deliver-some p r s.workers pend.0 in
    rw (q, distribute_from)
      record {
        subscribed = AllOpen-mono s.workers ws (snapshot s) keep v.subscribed;
        distinct = v.distinct;
        pending = AllOpen-mono s.workers ws rest keep pend.1;
        marked = v.marked;
      }
distribute-Keeps s stopped e v = v

PendingOpen-mono :
    (ws vs : List Worker) (d : Distributor)
    → ((i : ℕ) → is_open ws i ≡ true → is_open vs i ≡ true)
    → PendingOpen ws d
    → PendingOpen vs d
PendingOpen-mono ws vs selecting f h = tt
PendingOpen-mono ws vs (sending p rs) f h = AllOpen-mono ws vs rs f h
PendingOpen-mono ws vs stopped f h = tt

PendingOpen-idle : (ws : List Worker) (d : Distributor) → is_sending d ≡ false → PendingOpen ws d
PendingOpen-idle ws selecting h = tt
PendingOpen-idle ws (sending p rs) h = cc
PendingOpen-idle ws stopped h = tt

pub subscribe-Keeps :
    (s : Stream) (id : String) → IsValid s → Keeps (after_result s (subscribe s id))
unfolding subscribe
subscribe-Keeps s id v = elim (Bool-cases (GoMap.contains s.subscribers id)) [
  | inl e ↦ rw (e, subscribe) v
  | inr e ↦
      rw (e, subscribe)
        record {
          subscribed = (
            is_open-fresh s.workers _ refl,
            AllOpen-append s.workers _ (refs (GoMap.without id s.subscribers.entries))
                (AllOpen-without s.workers id s.subscribers.entries v.subscribed),
          );
          distinct = (
            Avoids-without (length s.workers) id s.subscribers.entries
                (Avoids-length s.workers (snapshot s) v.subscribed),
            Distinct-without id s.subscribers.entries v.distinct,
          );
          pending =
              PendingOpen-mono s.workers _ s.distributor (is_open-append s.workers _) v.pending;
          marked = v.marked;
        }
]

unsubscribe-Keeps :
    (s : Stream) (id : String)
    → is_sending s.distributor ≡ false
    → IsValid s
    → Keeps (after_result s (unsubscribe s id))
unfolding unsubscribe
unsubscribe-Keeps s id calm v = elim (Option-cases (GoMap.get s.subscribers id)) [
  | inl e ↦ rw (e, unsubscribe) v
  | inr (r, e) ↦
      rw (e, unsubscribe)
        record {
          subscribed =
              AllOpen-stop_worker s.workers r (refs (GoMap.without id s.subscribers.entries))
                (Avoids-without-lookup r id s.subscribers.entries v.distinct e)
                (AllOpen-without s.workers id s.subscribers.entries v.subscribed);
          distinct = Distinct-without id s.subscribers.entries v.distinct;
          pending = PendingOpen-idle (stop_worker r s.workers) s.distributor calm;
          marked = v.marked;
        }
]

-- A write of a worker whose channel stays as open as it was.
set-IsValid :
    (s : Stream) (r : ℕ) (v w : Worker)
    → get_elem? s.workers r ≡ some v
    → w.packet_chan.closed ≡ v.packet_chan.closed
    → IsValid s
    → IsValid (record s { workers = set s.workers r w })
set-IsValid s r v w e c h =
    let keep : (i : ℕ) → is_open s.workers i ≡ true → is_open (set s.workers r w) i ≡ true =
      λ i. is_open-set_same s.workers r i v w e c in
    record {
      subscribed = AllOpen-mono s.workers (set s.workers r w) (snapshot s) keep h.subscribed;
      distinct = h.distinct;
      pending = PendingOpen-mono s.workers (set s.workers r w) s.distributor keep h.pending;
      marked = h.marked;
    }

round-IsValid :
    (s : Stream) (r : ℕ) (b : Bool) (w : Worker) (l : List Packet)
    → get_elem? s.workers r ≡ some w
    → w.packet_chan.items ≡ l
    → IsValid s
    → IsValid (worker_round s r b)
unfolding worker_round try_recv
round-IsValid s r b w [] e i h =
    ground (arith, set-IsValid s r w (record w { running = false }) e refl h)
round-IsValid s r b w (p ∷ rest) e i h = ground (
  arith,
  set-IsValid s r w (record w { packet_chan = record w.packet_chan { items = rest } }) e refl h,
)

worker_round-IsValid : (s : Stream) (r : ℕ) (b : Bool) → IsValid s → IsValid (worker_round s r b)
unfolding worker_round try_recv
worker_round-IsValid s r b h = elim (Option-cases (get_elem? s.workers r)) [
  | inl e ↦ rw (e, worker_round) h
  | inr (w, e) ↦ round-IsValid s r b w w.packet_chan.items e refl h
]

worker_done-IsValid : (s : Stream) (r : ℕ) → IsValid s → IsValid (worker_done s r)
unfolding worker_done
worker_done-IsValid s r h = elim (Option-cases (get_elem? s.workers r)) [
  | inl e ↦ rw (e, worker_done) h
  | inr (w, e) ↦ ground (arith, set-IsValid s r w (record w { running = false }) e refl h)
]

cancel-IsValid : (s : Stream) (d : Distributor) → IsValid s → IsValid (cancel_distribution s d)
unfolding cancel_distribution
cancel-IsValid s selecting v = ground arith
cancel-IsValid s (sending p rs) v = v
cancel-IsValid s stopped v = v

step-Keeps : (s : Stream) (e : Event) → IsValid s → IsCalm s e → Keeps (step s e)
unfolding step set_video_codec shut
step-Keeps s (writes p) v calm = write-Keeps s p v
step-Keeps s (selects p) v calm = select-Keeps s p v calm
step-Keeps s (ends p) v calm = end-Keeps s p v
step-Keeps s (resumes p) v calm = send-Keeps s p v calm
step-Keeps s distributes v calm = unfold distribute in distribute-Keeps s s.distributor refl v
step-Keeps s cancels_distribution v calm = cancel-IsValid s s.distributor v
step-Keeps s shuts v calm = ground arith
step-Keeps s (subscribes id) v calm = subscribe-Keeps s id v
step-Keeps s (unsubscribes id) v calm = unsubscribe-Keeps s id calm v
step-Keeps s (sets_codec c) v calm = ground arith
step-Keeps s (works r b) v calm = worker_round-IsValid s r b v
step-Keeps s (ends_worker r) v calm = worker_done-IsValid s r v

Keeps-some : (o : Option Stream) → Keeps o → (t : Stream) × (o ≡ some t) × IsValid t
Keeps-some none h = absurd h
Keeps-some (some t) h = (t, refl, h)

-- A calm event of a valid stream does not panic, and leaves the stream valid.
pub step-IsValid :
    (s : Stream) (e : Event)
    → IsValid s
    → IsCalm s e
    → (t : Stream) × (step s e ≡ some t) × IsValid t
step-IsValid s e v calm = Keeps-some (step s e) (step-Keeps s e v calm)

-- The streams that calm events reach from the literal of CreateStream.
pub data Reach (id name : String) (n : ℕ) : Stream → Type 0 where
  created : Reach id name n (new_stream id name n)
  next :
      {s t : Stream} (e : Event)
      → Reach id name n s
      → IsCalm s e
      → step s e ≡ some t
      → Reach id name n t

Reach-IsValid : {id name : String} {n : ℕ} {s : Stream} → Reach id name n s → IsValid s
Reach-IsValid {id} {name} {n} created = new_stream-IsValid id name n
Reach-IsValid (next {s = s} {t = t} e r calm q) =
    subst Keeps q (step-Keeps s e (Reach-IsValid r) calm)

-- Whatever history of calm events a stream has had since CreateStream, the next calm event does not
-- panic: no send on a closed channel and no second close.
pub calm_never_panics :
    (id name : String) (n : ℕ) (s : Stream) (e : Event)
    → Reach id name n s
    → IsCalm s e
    → step s e ≢ none
calm_never_panics id name n s e r calm h =
    let (t, q, _) = step-IsValid s e (Reach-IsValid r) calm in cc
