-- ===== src/App/Changes.antt =====
-- Changes of the application that keep its clients running: of the stream manager, of a stream, of a
-- client, and of the parts that have nothing to do with them.
use media_stream.Base.{
  ℕ, ◌≡◌, refl, sym, subst, String, true, none, some, List, [], ◌∷◌, arith, ◌==◌, eq_iff, get_elem?,
  set, get_elem?-some_lt, get_elem?-set_self, inl, inr, Bool-cases, Option-cases, length,
}
use media_stream.GoMap
use media_stream.GoMap.{GoMap, get-put, get-remove, get-empty}
use media_stream.Core.Stream.{Stream, Packet}
use media_stream.Core.Stream.Lasting.{Lasts}
use media_stream.Core.StreamManager.{StreamManager}
use media_stream.Core.StreamManager.Laws
use media_stream.Core.StreamManager.Laws.{
  Managed, Managed-set_ne, with_stream, with_stream-IsValid, without_stream, without_stream-IsValid,
}
use media_stream.Rtsp.Client.{
  Client, Attempt, run, play, describe, handle_rtp_packets, handle_rtp_packet,
}
use media_stream.Webrtc.Peers.{PeerManager}
use media_stream.App.{App}
use media_stream.App.Running.{Served, Served-moved, Served-set_ne, IsRunning}

-- Neither the database nor the peers matter.
abbrev pub with_rest : {S : Type 0} → App S → S → PeerManager → GoMap String → App S
with_rest app s peers peer_streams = record app {
  db = s;
  webrtc_manager = peers;
  peer_streams = peer_streams;
}

pub with_rest-IsRunning :
    {S : Type 0} (app : App S) (s : S) (peers : PeerManager) (peer_streams : GoMap String)
    → IsRunning app
    → IsRunning (with_rest app s peers peer_streams)
with_rest-IsRunning app s peers peer_streams v = record {
  managed = v.managed;
  no_process = v.no_process;
  served = v.served;
}

-- A manager in which the ids of the clients lead where they did.
pub with_manager-IsRunning :
    {S : Type 0} (app : App S) (m : StreamManager)
    → IsRunning app
    → Laws.IsValid m
    → ((k : String) (r : ℕ)
        → GoMap.get app.rtsp_clients k ≡ some r
        → GoMap.get m.streams k ≡ GoMap.get app.stream_manager.streams k)
    → IsRunning (record app { stream_manager = m })
with_manager-IsRunning app m v w f = record {
  managed = w;
  no_process = v.no_process;
  served = λ k r e. Served-moved app.stream_manager m app.clients k r (f k r e) (v.served k r e);
}

-- A stream that was not there is new to every client.
pub created-IsRunning :
    {S : Type 0} (app : App S) (id name : String)
    → IsRunning app
    → GoMap.get app.stream_manager.streams id ≡ none
    → IsRunning (record app { stream_manager = with_stream app.stream_manager id name })
created-IsRunning app id name v h =
    with_manager-IsRunning app (with_stream app.stream_manager id name) v
      (with_stream-IsValid app.stream_manager id name v.managed)
      (λ k r e. ground (
        arith,
        (v.served k r e).fed,
        get-put app.stream_manager.streams id k (length app.stream_manager.heap),
        eq_iff id k,
      ))

-- A stream that no client feeds can go.
pub removed-IsRunning :
    {S : Type 0} (app : App S) (id : String) (r : ℕ) (s : Stream)
    → IsRunning app
    → GoMap.get app.rtsp_clients id ≡ none
    → GoMap.get app.stream_manager.streams id ≡ some r
    → IsRunning (record app { stream_manager = without_stream app.stream_manager id r s })
removed-IsRunning app id r s v h e =
    with_manager-IsRunning app (without_stream app.stream_manager id r s) v
      (without_stream-IsValid app.stream_manager id r s v.managed e)
      (λ k i c. ground (arith, h, c, get-remove app.stream_manager.streams id k, eq_iff id k))

Managed-set_self :
    (heap : List Stream) (s t : Stream) (r : ℕ) (id : String)
    → get_elem? heap r ≡ some s
    → Lasts s t
    → Managed heap id r
    → Managed (set heap r t) id r
Managed-set_self heap s t r id h l a =
    let same : a.stream ≡ s = ground (arith, h, a.at) in
    record {
      stream = t;
      at = get_elem?-set_self heap r t (get_elem?-some_lt heap r h);
      named = ground (arith, same, l, a.named);
      not_closed = ground (arith, same, l, a.not_closed);
      buffer_open = ground (arith, same, l, a.buffer_open);
    }

Managed-set :
    (heap : List Stream) (s t : Stream) (r i : ℕ) (id : String)
    → get_elem? heap r ≡ some s
    → Lasts s t
    → Managed heap id i
    → Managed (set heap r t) id i
Managed-set heap s t r i id h l a = elim (Bool-cases (r == i)) [
  | inl q ↦
      let same : r ≡ i = ground (arith, q) in
      subst (Managed (set heap r t) id) same
        (Managed-set_self heap s t r id h l (subst (Managed heap id) (sym same) a))
  | inr q ↦ Managed-set_ne heap t r id i (ground (arith, q)) a
]

-- A change of a stream that keeps its id and keeps it open or closed.
pub set_stream-IsRunning :
    {S : Type 0} (app : App S) (r : ℕ) (s t : Stream)
    → IsRunning app
    → get_elem? app.stream_manager.heap r ≡ some s
    → Lasts s t
    → IsRunning (record app {
      stream_manager = record app.stream_manager { heap = set app.stream_manager.heap r t };
    })
set_stream-IsRunning app r s t v h l =
    with_manager-IsRunning app
      (record app.stream_manager { heap = set app.stream_manager.heap r t }) v
      (record {
        distinct = v.managed.distinct;
        managed =
            λ id i e. Managed-set app.stream_manager.heap s t r i id h l (v.managed.managed id i e);
      })
      (λ k i e. refl)

-- What a client keeps whatever its attempt meets.
abbrev pub Follows : Client → Client → Type 0
Follows c d = (d.ctx_done ≡ c.ctx_done) × (d.stream ≡ c.stream)

handle_rtp_packets-Follows : (c : Client) (ps : List Packet) → Follows c (handle_rtp_packets c ps)
unfolding handle_rtp_packets handle_rtp_packet
handle_rtp_packets-Follows c [] = (refl, refl)
handle_rtp_packets-Follows c (p ∷ ps) = handle_rtp_packets-Follows (handle_rtp_packet c p) ps

run-Follows : (c : Client) (a : Attempt) → Follows c (run c a).0
unfolding run describe play
run-Follows c a = ground (
  arith,
  Option-cases a.described,
  handle_rtp_packets-Follows (record c { connected = true }) a.packets,
)

Served-Follows :
    (m : StreamManager) (clients : List Client) (c d : Client) (i r : ℕ) (id : String)
    → get_elem? clients i ≡ some c
    → Follows c d
    → Served m clients id r
    → Served m (set clients i d) id r
Served-Follows m clients c d i r id h f a = elim (Bool-cases (i == r)) [
  | inl q ↦
      let same : i ≡ r = ground (arith, q) in
      let there : a.client ≡ c = ground (arith, h, a.at, same) in
      record {
        client = d;
        at =
            subst (λ j. get_elem? (set clients i d) j ≡ some d) same
              (get_elem?-set_self clients i d (get_elem?-some_lt clients i h));
        running = ground (arith, there, f, a.running);
        fed = ground (arith, there, f, a.fed);
      }
  | inr q ↦ Served-set_ne m clients d i id r (ground (arith, q)) a
]

-- A client that stays on its stream and is not cancelled may change; no other does.
pub client-IsRunning :
    {S : Type 0} (app : App S) (i : ℕ) (c d : Client)
    → IsRunning app
    → get_elem? app.clients i ≡ some c
    → Follows c d
    → IsRunning (record app { clients = set app.clients i d })
client-IsRunning app i c d v h f = record {
  managed = v.managed;
  no_process = v.no_process;
  served = λ k r e. Served-Follows app.stream_manager app.clients c d i r k h f (v.served k r e);
}

-- An attempt of a client changes no other, and does not cancel it.
pub attempt-IsRunning :
    {S : Type 0} (app : App S) (i : ℕ) (c : Client) (a : Attempt)
    → IsRunning app
    → get_elem? app.clients i ≡ some c
    → IsRunning (record app { clients = set app.clients i (run c a).0 })
attempt-IsRunning app i c a v h = client-IsRunning app i c (run c a).0 v h (run-Follows c a)
