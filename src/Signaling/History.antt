-- ===== src/Signaling/History.antt =====
-- Histories of the signaling server: which clients are open, and how often onClose is called.
use media_stream.Base.{
  ℕ, ◌≤◌, ◌<◌, ◌≡◌, refl, sym, ◌∙◌, subst, String, Bool, true, false, Option, none, some, List, [],
  ◌∷◌, ◌++◌, ◌==◌, not, arith, ltb, is_some, if◌then◌else◌, length, get_elem?, set,
  get_elem?-append_cases, get_elem?-some_lt, get_elem?-set_self, get_elem?-set_ne, length-append,
  length-set, Result, Bool-cases, Option-cases, inl, inr,
}
use media_stream.Core.Channel.{try_send, try_send-room, try_recv, recv_from}
use media_stream.Signaling.{
  Reply, SignalClient, SignalServer, OfferJob, send_cap, new_signal_server, new_signal_client,
  registered, without_key, connect, at_client, retired, unregister_client, hang_up, read_ended,
  write_round, send_reply, offer_reply, offer_handled, hang_up_all, close_signal_server,
}

-- What the pumps, the goroutines of offers and the server do. handleMessage by itself changes
-- nothing.
pub data SignalEvent : Type 0 where
  connects : String → SignalEvent
  loses : ℕ → SignalEvent
  writes : ℕ → Bool → SignalEvent
  replies : ℕ → OfferJob → Result String String → SignalEvent
  closes : SignalEvent

-- `none` is a panic.
unfoldable pub serve_signal : SignalServer → SignalEvent → Option SignalServer
unfolding connect read_ended write_round offer_handled close_signal_server
serve_signal s (connects id) = some (connect s id)
serve_signal s (loses r) = some (read_ended s r)
serve_signal s (writes r written) = some (at_client s r (λ c. write_round c written))
serve_signal s (replies r job outcome) = offer_handled s r job outcome
serve_signal s closes = some (close_signal_server s)

-- A client that the server has is open; onClose was called once for a client whose channel is closed
-- and never for another; at most 256 replies wait.
abbrev pub ClientSound : Bool → SignalClient → Type 0
ClientSound known c =
    (known ≡ true → c.send.closed ≡ false)
    × (c.close_calls ≡ (if c.send.closed then 1 else 0))
    × (length c.send.items ≤ c.send.cap)
    × (c.send.cap ≡ send_cap)

pub record IsSound (s : SignalServer) : Type 0 where
  pub known : (r : ℕ) → registered r s.clients ≡ true → r < length s.heap
  pub sound :
      (r : ℕ) (c : SignalClient)
      → get_elem? s.heap r ≡ some c
      → ClientSound (registered r s.clients) c

registered-without_key :
    (r i : ℕ) (l : List ℕ)
    → registered i (without_key r l) ≡ (if r == i then false else registered i l)
registered-without_key r i [] = ground arith
registered-without_key r i (k ∷ l) = ground (arith, registered-without_key r i l)

-- A change of one client, and of whether the server has it.
at_client-IsSound :
    (s : SignalServer) (clients : List ℕ) (r : ℕ) (f : SignalClient → SignalClient)
    → IsSound s
    → ((i : ℕ) → registered i clients ≡ true → registered i s.clients ≡ true)
    → ((c : SignalClient)
        → get_elem? s.heap r ≡ some c
        → ClientSound (registered r s.clients) c
        → ClientSound (registered r clients) (f c))
    → IsSound (at_client (record s { clients = clients }) r f)
at_client-IsSound s clients r f v k g = elim (Option-cases (get_elem? s.heap r)) [
  | inl e ↦
      rw (e, at_client)
        (record {
          known = λ i h. v.known i (k i h);
          sound = λ i c h. (let w = v.sound i c h in (λ q. w.0 (k i q), w.1, w.2, w.3));
        })
  | inr (b, e) ↦
      rw (e, at_client)
        (record {
          known = λ i h. ground (arith, v.known i (k i h), length-set s.heap r (f b));
          sound = λ i c h. elim (Bool-cases (r == i)) [
            | inl q ↦
                let same : r ≡ i = ground (arith, q) in
                let changed : f b ≡ c = ground (
                  arith,
                  same,
                  h,
                  get_elem?-set_self s.heap r (f b) (get_elem?-some_lt s.heap r e),
                ) in
                subst (λ j. ClientSound (registered j clients) c) same
                  (subst (ClientSound (registered r clients)) changed (g b e (v.sound r b e)))
            | inr q ↦
                (let w =
                    v.sound i c (sym (get_elem?-set_ne s.heap r i (f b) (ground (arith, q))) ∙ h) in
                  (λ j. w.0 (k i j), w.1, w.2, w.3))
          ];
        })
]

connect-IsSound : (s : SignalServer) (id : String) → IsSound s → IsSound (connect s id)
unfolding connect
connect-IsSound s id v = record {
  known = λ r h. ground (
    arith,
    Bool-cases (length s.heap == r),
    v.known r,
    length-append s.heap (new_signal_client id ∷ []),
  );
  sound = λ r c h. elim (get_elem?-append_cases s.heap (new_signal_client id) c r h) [
    | inl e ↦
        (let w = v.sound r c e in
          (λ k. w.0 (ground (arith, k, get_elem?-some_lt s.heap r e)), w.1, w.2, w.3))
    | inr (e, q) ↦
        subst (ClientSound (registered r (length s.heap ∷ s.clients))) q
          (λ k. refl, refl, omega arith, refl)
  ];
}

unregister_client-IsSound : (s : SignalServer) (r : ℕ) → IsSound s → IsSound (unregister_client s r)
unfolding unregister_client
unregister_client-IsSound s r v = elim (Bool-cases (registered r s.clients)) [
  | inr h ↦ rw (h, unregister_client) v
  | inl h ↦
      rw (h, unregister_client)
        (at_client-IsSound s (without_key r s.clients) r retired v
          (λ i k. ground (arith, k, registered-without_key r i s.clients))
          (λ c e w. (
            λ k. absurd (ground (arith, k, registered-without_key r r s.clients)),
            ground (arith, w.1, w.0 h),
            w.2,
            w.3,
          )))
]

-- A change of one client that the server keeps or does not have.
changed-IsSound :
    (s : SignalServer) (r : ℕ) (f : SignalClient → SignalClient)
    → IsSound s
    → ((b : Bool) (c : SignalClient) → ClientSound b c → ClientSound b (f c))
    → IsSound (at_client s r f)
changed-IsSound s r f v g =
    at_client-IsSound s s.clients r f v (λ i k. k) (λ c e w. g (registered r s.clients) c w)

read_ended-IsSound : (s : SignalServer) (r : ℕ) → IsSound s → IsSound (read_ended s r)
unfolding read_ended
read_ended-IsSound s r v =
    changed-IsSound (unregister_client s r) r hang_up (unregister_client-IsSound s r v) (λ b c w. w)

write_round-Sound :
    (b : Bool) (c : SignalClient) (written : Bool)
    → ClientSound b c
    → ClientSound b (write_round c written)
unfolding write_round try_recv recv_from
write_round-Sound b c written w = ground (arith, w)

hang_up_all-IsSound : (l : List ℕ) (s : SignalServer) → IsSound s → IsSound (hang_up_all l s)
unfolding hang_up_all
hang_up_all-IsSound [] s v = v
hang_up_all-IsSound (r ∷ l) s v =
    hang_up_all-IsSound l (at_client s r hang_up) (changed-IsSound s r hang_up v (λ b c w. w))

close-IsSound : (s : SignalServer) → IsSound s → IsSound (close_signal_server s)
unfolding close_signal_server
close-IsSound s v =
    hang_up_all-IsSound s.clients (record s { clients = [] })
      (record {
        known = λ r h. absurd (ground arith);
        sound =
            λ r c h. (let w = v.sound r c h in (λ k. absurd (ground (arith, k)), w.1, w.2, w.3));
      })

-- What is left where nothing panicked.
abbrev pub Left : Option SignalServer → Type 0
Left none = Unit
Left (some s) = IsSound s

pushed-IsSound :
    (s : SignalServer) (r : ℕ) (c : SignalClient) (reply : Reply)
    → IsSound s
    → get_elem? s.heap r ≡ some c
    → ltb (length c.send.items) c.send.cap ≡ true
    → IsSound (record s {
      heap =
          set s.heap r (record c { send = record c.send { items = c.send.items ++ reply ∷ [] } });
    })
pushed-IsSound s r c reply v e u =
    let f : SignalClient → SignalClient =
      λ d. record d { send = record d.send { items = d.send.items ++ reply ∷ [] } } in
    let t =
      at_client-IsSound s s.clients r f v (λ i k. k)
        (λ d h w.
          (w.0, w.1, ground (arith, e, h, u, length-append d.send.items (reply ∷ [])), w.3)) in
    let here : at_client s r f ≡ record s { heap = set s.heap r (f c) } = rw (e, at_client) refl in
    subst IsSound here t

send_reply-room :
    (s : SignalServer) (r : ℕ) (c : SignalClient) (reply : Reply)
    → get_elem? s.heap r ≡ some c
    → c.send.closed ≡ false
    → ltb (length c.send.items) c.send.cap ≡ true
    → send_reply s r reply
      ≡ some (record s {
        heap =
            set s.heap r (record c { send = record c.send { items = c.send.items ++ reply ∷ [] } });
      })
unfolding send_reply
send_reply-room s r c reply e q u =
    rw (e, try_send-room c.send reply q (ground (arith, u)), send_reply) refl

send_reply-Left :
    (s : SignalServer) (r : ℕ) (reply : Reply) → IsSound s → Left (send_reply s r reply)
unfolding send_reply try_send
send_reply-Left s r reply v = elim (Option-cases (get_elem? s.heap r)) [
  | inl e ↦ rw (e, send_reply) v
  | inr (c, e) ↦ elim (Bool-cases c.send.closed) [
    | inl q ↦ rw (e, q, send_reply, try_send) tt
    | inr q ↦ elim (Bool-cases (ltb (length c.send.items) c.send.cap)) [
      | inr u ↦ rw (e, q, u, send_reply, try_send) v
      | inl u ↦
          subst Left (sym (send_reply-room s r c reply e q u)) (pushed-IsSound s r c reply v e u)
    ]
  ]
]

serve_signal-Left : (s : SignalServer) (e : SignalEvent) → IsSound s → Left (serve_signal s e)
unfolding serve_signal offer_handled
serve_signal-Left s (connects id) v = connect-IsSound s id v
serve_signal-Left s (loses r) v = read_ended-IsSound s r v
serve_signal-Left s (writes r written) v =
    changed-IsSound s r (λ c. write_round c written) v (λ b c w. write_round-Sound b c written w)
serve_signal-Left s (replies r job outcome) v = send_reply-Left s r (offer_reply outcome job) v
serve_signal-Left s closes v = close-IsSound s v

pub data Reach : SignalServer → Type 0 where
  here : Reach new_signal_server
  next : (s t : SignalServer) (e : SignalEvent) → Reach s → serve_signal s e ≡ some t → Reach t

Reach-IsSound : (s : SignalServer) → Reach s → IsSound s
Reach-IsSound s here = record {
  known = λ r h. absurd (ground arith);
  sound = λ r c h. absurd (ground arith);
}
Reach-IsSound s (next t u e r h) = subst Left h (serve_signal-Left t e (Reach-IsSound t r))

pub panics_at :
    (s : SignalServer) (r : ℕ) (c : SignalClient) (reply : Reply)
    → get_elem? s.heap r ≡ some c
    → is_some (send_reply s r reply) ≡ not c.send.closed
unfolding send_reply try_send
panics_at s r c reply e = ground (arith, e)

-- Whatever connections, losses, writes, replies and closes the server has seen without a panic: a
-- client that it has is open, onClose was called once for each client whose channel is closed and
-- for no other, and at most 256 replies wait for a client. The next event panics only if it is the
-- reply of an offer to a client whose channel is closed, and then it does.
pub clients_closed_once :
    (s : SignalServer)
    → Reach s
    → IsSound s
      × ((id : String) → is_some (serve_signal s (connects id)) ≡ true)
      × ((r : ℕ) → is_some (serve_signal s (loses r)) ≡ true)
      × ((r : ℕ) (written : Bool) → is_some (serve_signal s (writes r written)) ≡ true)
      × (is_some (serve_signal s closes) ≡ true)
      × ((r : ℕ) (c : SignalClient) (job : OfferJob) (outcome : Result String String)
          → get_elem? s.heap r ≡ some c
          → is_some (serve_signal s (replies r job outcome)) ≡ not c.send.closed)
unfolding serve_signal offer_handled
clients_closed_once s h = (
  Reach-IsSound s h,
  λ id. refl,
  λ r. refl,
  λ r written. refl,
  refl,
  λ r c job outcome. panics_at s r c (offer_reply outcome job),
)
