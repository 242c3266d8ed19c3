-- ===== src/Core/Stream/Lasting.antt =====
-- What no event of a stream but its shutdown changes: the id, and whether it is closed.
use media_stream.Base.{
  ℕ, ◌≡◌, refl, ◌∙◌, Bool, true, false, Option, none, some, String, [], ◌∷◌, arith, get_elem?,
  if_cases, Option-cases,
}
use media_stream.GoMap
use media_stream.Core.Channel.{try_send, try_recv, recv_from}
use media_stream.Core.Stream.{
  Packet, Distributor, selecting, sending, stopped, Stream, Attempt, finished, made_room,
  drop_oldest, write_select, write_begin, write_end, write_send, write_packet, subscribe,
  unsubscribe, take_packet, distribute_from, distribute, deliver, worker_round, worker_done,
  set_video_codec,
}
use media_stream.Core.Stream.Events.{
  Event, writes, selects, ends, resumes, distributes, cancels_distribution, shuts, subscribes,
  unsubscribes, sets_codec, works, ends_worker, cancel_distribution, after_write, after_attempt,
  after_result, step,
}

abbrev pub Lasts : Stream → Stream → Type 0
Lasts s t =
    (t.id ≡ s.id) × (t.closed ≡ s.closed) × (t.packet_buffer.closed ≡ s.packet_buffer.closed)

-- The stream that a step leaves, where it does not panic.
abbrev pub Lasts? : Stream → Option Stream → Type 0
Lasts? s none = Unit
Lasts? s (some t) = Lasts s t

same : (s : Stream) → Lasts s s
same s = (refl, refl, refl)

drop_oldest-Lasts : (s : Stream) → Lasts s (drop_oldest s)
unfolding drop_oldest try_recv recv_from
drop_oldest-Lasts s = ground arith

write_select-Lasts : (s : Stream) (p : Packet) → Lasts? s (after_attempt (write_select s p))
unfolding write_select try_send
write_select-Lasts s p = ground (arith, drop_oldest-Lasts s)

write_send-Lasts : (s : Stream) (p : Packet) → Lasts? s (after_write (write_send s p))
unfolding write_send try_send
write_send-Lasts s p = ground arith

write_end-Lasts : (s : Stream) (p : Packet) → Lasts? s (after_write (write_end s p))
unfolding write_end
write_end-Lasts s p =
    if_cases (λ w. Lasts? s (after_write w)) s.closed (λ h. same s) (λ h. write_send-Lasts s p)

take_packet-Lasts : (s : Stream) → Lasts s (take_packet s)
unfolding take_packet try_recv recv_from
take_packet-Lasts s = ground arith

worker_round-Lasts : (s : Stream) (r : ℕ) (sent_ok : Bool) → Lasts s (worker_round s r sent_ok)
unfolding worker_round try_recv
worker_round-Lasts s r sent_ok = ground (arith, Option-cases (get_elem? s.workers r))

worker_done-Lasts : (s : Stream) (r : ℕ) → Lasts s (worker_done s r)
unfolding worker_done
worker_done-Lasts s r = ground (arith, Option-cases (get_elem? s.workers r))

pub subscribe-Lasts : (s : Stream) (id : String) → Lasts? s (after_result s (subscribe s id))
unfolding subscribe
subscribe-Lasts s id = ground arith

pub unsubscribe-Lasts : (s : Stream) (id : String) → Lasts? s (after_result s (unsubscribe s id))
unfolding unsubscribe
unsubscribe-Lasts s id = ground (arith, Option-cases (GoMap.get s.subscribers id))

Lasts?-trans : (s t : Stream) (o : Option Stream) → Lasts s t → Lasts? t o → Lasts? s o
Lasts?-trans s t none a b = tt
Lasts?-trans s t (some u) a b = (b.0 ∙ a.0, b.1 ∙ a.1, b.2 ∙ a.2)

-- The second half of WritePacket, after the first.
write_rest :
    (s : Stream) (p : Packet) (a : Attempt)
    → Lasts? s (after_attempt a)
    → Lasts? s (after_write (elim a [ finished w ↦ w | made_room s' ↦ write_end s' p ]))
write_rest s p (finished w) h = h
write_rest s p (made_room t) h =
    Lasts?-trans s t (after_write (write_end t p)) h (write_end-Lasts t p)

write_packet-Lasts : (s : Stream) (p : Packet) → Lasts? s (after_write (write_packet s p))
unfolding write_packet write_begin
write_packet-Lasts s p = write_rest s p (write_begin s p) (
    if_cases (λ a. Lasts? s (after_attempt a)) s.closed (λ h. same s) (λ h. write_select-Lasts s p))

distribute_from-Lasts : (s : Stream) (d : Distributor) → Lasts? s (distribute_from s d)
unfolding distribute_from
distribute_from-Lasts s selecting = take_packet-Lasts s
distribute_from-Lasts s (sending p []) = same s
distribute_from-Lasts s (sending p (r ∷ rest)) =
    ground (arith, Option-cases (deliver p r s.workers))
distribute_from-Lasts s stopped = same s

cancel_distribution-Lasts : (s : Stream) (d : Distributor) → Lasts s (cancel_distribution s d)
unfolding cancel_distribution
cancel_distribution-Lasts s selecting = same s
cancel_distribution-Lasts s (sending p rest) = same s
cancel_distribution-Lasts s stopped = same s

-- Whether the event is the shutdown, which RemoveStream makes.
abbrev pub is_shutdown : Event → Bool
is_shutdown shuts = true
is_shutdown _ = false

pub step-Lasts : (s : Stream) (e : Event) → is_shutdown e ≡ false → Lasts? s (step s e)
unfolding step distribute set_video_codec
step-Lasts s (writes p) h = write_packet-Lasts s p
step-Lasts s (selects p) h = write_select-Lasts s p
step-Lasts s (ends p) h = write_end-Lasts s p
step-Lasts s (resumes p) h = write_send-Lasts s p
step-Lasts s distributes h = distribute_from-Lasts s s.distributor
step-Lasts s cancels_distribution h = cancel_distribution-Lasts s s.distributor
step-Lasts s shuts h = absurd (ground (arith, h))
step-Lasts s (subscribes id) h = subscribe-Lasts s id
step-Lasts s (unsubscribes id) h = unsubscribe-Lasts s id
step-Lasts s (sets_codec c) h = same s
step-Lasts s (works r sent_ok) h = worker_round-Lasts s r sent_ok
step-Lasts s (ends_worker r) h = worker_done-Lasts s r
