-- ===== src/App/Running.antt =====
-- What holds of the application's clients: each one runs, and feeds the stream of its id.
use media_stream.Base.{
  ℕ, ◌≡◌, ◌≢◌, refl, ◌∙◌, subst, String, Bool, true, false, none, some, List, [], ◌∷◌, ◌++◌, arith,
  str_eq, eq_iff, length, get_elem?, set, get_elem?-append_left, get_elem?-append_length,
  get_elem?-set_ne, Result, ok, err, inl, inr, Bool-cases,
}
use media_stream.GoMap
use media_stream.GoMap.{GoMap, get-put, get-remove}
use media_stream.Core.StreamManager.{StreamManager}
use media_stream.Core.StreamManager.Laws
use media_stream.Core.StreamManager.Laws.{
  Managed, Managed-injective, with_stream, create_stream-new,
}
use media_stream.Rtsp.Client.{Client, new_client}
use media_stream.App.{App, AppError, make_client, run_client}

-- The pointer leads to a client whose context is not cancelled and whose packets go to the stream
-- that the manager has under the id.
pub record Served (m : StreamManager) (clients : List Client) (id : String) (r : ℕ) : Type 0 where
  pub client : Client
  pub at : get_elem? clients r ≡ some client
  pub running : client.ctx_done ≡ false
  pub fed : GoMap.get m.streams id ≡ some client.stream

pub record IsRunning {S : Type 0} (app : App S) : Type 0 where
  pub managed : Laws.IsValid app.stream_manager
  pub no_process : (id : String) → GoMap.get app.process_manager.processes id ≡ none
  pub served :
      (id : String) (r : ℕ)
      → GoMap.get app.rtsp_clients id ≡ some r
      → Served app.stream_manager app.clients id r

Served-append :
    (m : StreamManager) (clients : List Client) (c : Client) (id : String) (r : ℕ)
    → Served m clients id r
    → Served m (clients ++ c ∷ []) id r
Served-append m clients c id r a = record {
  client = a.client;
  at = get_elem?-append_left clients (c ∷ []) r a.at;
  running = a.running;
  fed = a.fed;
}

Served-new :
    (m : StreamManager) (clients : List Client) (c : Client) (id : String)
    → c.ctx_done ≡ false
    → GoMap.get m.streams id ≡ some c.stream
    → Served m (clients ++ c ∷ []) id (length clients)
Served-new m clients c id n f = record {
  client = c;
  at = get_elem?-append_length clients c;
  running = n;
  fed = f;
}

-- The same client, where the id still leads to the same stream.
pub Served-moved :
    (m m' : StreamManager) (clients : List Client) (id : String) (r : ℕ)
    → (GoMap.get m'.streams id ≡ GoMap.get m.streams id)
    → Served m clients id r
    → Served m' clients id r
Served-moved m m' clients id r e a = record {
  client = a.client;
  at = a.at;
  running = a.running;
  fed = e ∙ a.fed;
}

pub Served-set_ne :
    (m : StreamManager) (clients : List Client) (c : Client) (i : ℕ) (id : String) (r : ℕ)
    → i ≢ r
    → Served m clients id r
    → Served m (set clients i c) id r
Served-set_ne m clients c i id r h a = record {
  client = a.client;
  at = get_elem?-set_ne clients i r c h ∙ a.at;
  running = a.running;
  fed = a.fed;
}

-- Two ids never share a client.
pub Served-injective :
    (m : StreamManager) (clients : List Client) (j k : String) (r : ℕ)
    → Laws.IsValid m
    → Served m clients j r
    → Served m clients k r
    → j ≡ k
Served-injective m clients j k r v a b =
    let same : a.client ≡ b.client = ground (arith, a.at, b.at) in
    let to_same : GoMap.get m.streams k ≡ some a.client.stream = rw same b.fed in
    Managed-injective m.heap j k a.client.stream (v.managed j a.client.stream a.fed)
      (v.managed k a.client.stream to_same)

-- The application with a client more.
abbrev pub with_client : {S : Type 0} → App S → String → Client → App S
with_client app id c = record app {
  clients = app.clients ++ c ∷ [];
  rtsp_clients = GoMap.put app.rtsp_clients id (length app.clients);
}

with_client-IsRunning :
    {S : Type 0} (app : App S) (id : String) (c : Client)
    → IsRunning app
    → c.ctx_done ≡ false
    → GoMap.get app.stream_manager.streams id ≡ some c.stream
    → IsRunning (with_client app id c)
with_client-IsRunning app id c v n f = record {
  managed = v.managed;
  no_process = v.no_process;
  served = λ k r e. elim (Bool-cases (str_eq id k)) [
    | inl q ↦
        subst (λ j. Served app.stream_manager (app.clients ++ c ∷ []) j r) ((eq_iff id k).0 q)
          (subst (Served app.stream_manager (app.clients ++ c ∷ []) id)
            (ground (arith, q, get-put app.rtsp_clients id k (length app.clients)))
            (Served-new app.stream_manager app.clients c id n f))
    | inr q ↦
        Served-append app.stream_manager app.clients c k r
          (v.served k r (ground (arith, q, get-put app.rtsp_clients id k (length app.clients))))
  ];
}

-- What createRTSPClient makes: a client on the URL and the stream, whose context is not cancelled.
pub make_client-ok :
    {S : Type 0} (app : App S) (url transport : String) (stream : ℕ) (url_ok : String → Bool)
    → url_ok url ≡ true
    → (c : Client) × (make_client app url transport stream url_ok ≡ ok c)
      × (c.url ≡ url)
      × (c.stream ≡ stream)
      × (c.ctx_done ≡ false)
unfolding make_client new_client
make_client-ok app url transport stream url_ok h = rw (h, make_client) (_, refl, refl, refl, refl)

-- What a start has done: nothing, or a new client on the stream and one of the URLs that `P` allows.
pub data Started {S : Type 0} (app : App S) (id : String) (stream : ℕ) (P : String → Type 0)
    : Result AppError (App S) → Type 0 where
  failed : (e : AppError) → Started app id stream P (err e)
  started :
      (c : Client)
      → P c.url
      → c.stream ≡ stream
      → c.ctx_done ≡ false
      → Started app id stream P (ok (with_client app id c))

pub run_client-Started :
    {S : Type 0} (app : App S) (id url transport : String) (stream : ℕ) (url_ok : String → Bool)
    → Started app id stream (λ u. u ≡ url) (run_client app id url transport stream url_ok)
unfolding run_client make_client new_client
run_client-Started app id url transport stream url_ok = elim (Bool-cases (url_ok url)) [
  | inl h ↦ rw (h, run_client) (started _ refl refl refl)
  | inr h ↦ rw (h, run_client) (failed _)
]

abbrev pub IsRunning? : {S : Type 0} → Result AppError (App S) → Type 0
IsRunning? (err e) = Unit
IsRunning? (ok app) = IsRunning app

pub Started-IsRunning :
    {S : Type 0} (app : App S) (id : String) (stream : ℕ) (P : String → Type 0)
    (o : Result AppError (App S))
    → IsRunning app
    → GoMap.get app.stream_manager.streams id ≡ some stream
    → Started app id stream P o
    → IsRunning? o
Started-IsRunning app id stream P o v f (failed e) = tt
Started-IsRunning app id stream P o v f (started c p s n) =
    with_client-IsRunning app id c v n (rw s f)
