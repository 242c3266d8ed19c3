-- ===== src/Signaling/Closing.antt =====
-- What the end of a client and of the server leave behind.
use media_stream.Base.{
  ℕ, ◌≡◌, ◌≢◌, refl, ◌∙◌, String, true, false, none, some, List, [], ◌∷◌, ◌==◌, arith, get_elem?,
  get_elem?-some_lt, get_elem?-set_self, get_elem?-set_ne, Result, Bool-cases, Option-cases, inl,
  inr,
}
use media_stream.Signaling.{
  SignalClient, SignalServer, OfferJob, registered, without_key, at_client, retired,
  unregister_client, hang_up, read_ended, send_reply, offer_reply, offer_handled, hang_up_all,
  close_signal_server,
}
use media_stream.Signaling.History.{replies, serve_signal, panics_at}

at_client-at :
    (s : SignalServer) (r : ℕ) (c : SignalClient) (f : SignalClient → SignalClient)
    → get_elem? s.heap r ≡ some c
    → get_elem? (at_client s r f).heap r ≡ some (f c)
at_client-at s r c f e =
    rw (e, at_client) (get_elem?-set_self s.heap r (f c) (get_elem?-some_lt s.heap r e))

at_client-elsewhere :
    (s : SignalServer) (i r : ℕ) (f : SignalClient → SignalClient)
    → i ≢ r
    → get_elem? (at_client s i f).heap r ≡ get_elem? s.heap r
at_client-elsewhere s i r f n = elim (Option-cases (get_elem? s.heap i)) [
  | inl e ↦ rw (e, at_client) refl
  | inr (b, e) ↦ rw (e, at_client) (get_elem?-set_ne s.heap i r (f b) n)
]

read_ended-registered :
    (s : SignalServer) (r : ℕ) (c : SignalClient)
    → registered r s.clients ≡ true
    → get_elem? s.heap r ≡ some c
    → get_elem? (read_ended s r).heap r ≡ some (hang_up (retired c))
unfolding read_ended unregister_client
read_ended-registered s r c h e = at_client-at (unregister_client s r) r (retired c) hang_up (
    rw (h, unregister_client)
      (at_client-at (record s { clients = without_key r s.clients }) r c retired e))

read_ended-unregistered :
    (s : SignalServer) (r : ℕ) (c : SignalClient)
    → registered r s.clients ≡ false
    → get_elem? s.heap r ≡ some c
    → get_elem? (read_ended s r).heap r ≡ some (hang_up c)
unfolding read_ended unregister_client
read_ended-unregistered s r c h e =
    at_client-at (unregister_client s r) r c hang_up (rw (h, unregister_client) e)

-- The channel and the calls of a client, once it is on the heap.
abbrev pub Untouched : SignalServer → ℕ → SignalClient → Type 0
Untouched s r c =
    (d : SignalClient) × (get_elem? s.heap r ≡ some d)
    × (d.send ≡ c.send)
    × (d.close_calls ≡ c.close_calls)

at_client-Untouched :
    (s : SignalServer) (i r : ℕ) (c : SignalClient)
    → Untouched s r c
    → Untouched (at_client s i hang_up) r c
at_client-Untouched s i r c (d, e, p, q) = elim (Bool-cases (i == r)) [
  | inl h ↦
      (let same : i ≡ r = ground (arith, h) in
        rw same (hang_up d, at_client-at s r d hang_up e, p, q))
  | inr h ↦ (d, at_client-elsewhere s i r hang_up (ground (arith, h)) ∙ e, p, q)
]

hang_up_all-Untouched :
    (l : List ℕ) (s : SignalServer) (r : ℕ) (c : SignalClient)
    → Untouched s r c
    → Untouched (hang_up_all l s) r c × ((hang_up_all l s).clients ≡ s.clients)
unfolding hang_up_all
hang_up_all-Untouched [] s r c u = (u, refl)
hang_up_all-Untouched (i ∷ l) s r c u =
    let rest =
      hang_up_all-Untouched l (at_client s i hang_up) r c (at_client-Untouched s i r c u) in
    (rest.0, ground (arith, rest.1, Option-cases (get_elem? s.heap i)))

-- A browser that goes away while its offer is being handled: the end of readPump closes the channel
-- of the client, and the reply then panics, whether the offer succeeded or failed.
pub late_reply_panics :
    (s : SignalServer) (r : ℕ) (c : SignalClient) (job : OfferJob) (outcome : Result String String)
    → registered r s.clients ≡ true
    → get_elem? s.heap r ≡ some c
    → serve_signal (read_ended s r) (replies r job outcome) ≡ none
unfolding serve_signal offer_handled
late_reply_panics s r c job outcome h e = ground (
  arith,
  panics_at (read_ended s r) r (hang_up (retired c)) (offer_reply outcome job)
      (read_ended-registered s r c h e),
  Option-cases (send_reply (read_ended s r) r (offer_reply outcome job)),
)

-- After Close, a client that the server had is never closed: when its readPump ends, its channel is
-- as it was and onClose has not been called for it.
close_forgets :
    (s : SignalServer) (r : ℕ) (c : SignalClient)
    → get_elem? s.heap r ≡ some c
    → Untouched (read_ended (close_signal_server s) r) r c
unfolding close_signal_server
close_forgets s r c e =
    let t = hang_up_all-Untouched s.clients (record s { clients = [] }) r c (c, e, refl, refl) in
    let d = t.0 in
    (hang_up d.0, read_ended-unregistered (close_signal_server s) r d.0 (rw t.1 refl) d.1, d.2, d.3)
