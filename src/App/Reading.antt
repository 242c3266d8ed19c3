-- ===== src/App/Reading.antt =====
-- What it means that a client reads a camera under an id, and that createRTSPClient makes one.
use media_stream.Base.{
  ℕ, ◌≡◌, refl, String, Bool, true, false, some, [], ◌∷◌, arith, eq_refl, length, get_elem?,
  get_elem?-append_length, get_elem?-append_left, ok,
}
use media_stream.GoMap
use media_stream.GoMap.{GoMap, get-put}
use media_stream.Rtsp.Client.{Client}
use media_stream.App.{App, run_client}
use media_stream.App.Running.{with_client, make_client-ok}

-- Every client that there was is there as it was.
abbrev pub Keeps : {S : Type 0} → App S → App S → Type 0
Keeps app app' =
    (i : ℕ) (d : Client) → get_elem? app.clients i ≡ some d → get_elem? app'.clients i ≡ some d

-- Under the id runs a client that reads the URL.
pub record Reads {S : Type 0} (app : App S) (id url : String) : Type 0 where
  pub pointer : ℕ
  pub client : Client
  pub mapped : GoMap.get app.rtsp_clients id ≡ some pointer
  pub at : get_elem? app.clients pointer ≡ some client
  pub reads : client.url ≡ url
  pub running : client.ctx_done ≡ false

pub with_client-Reads :
    {S : Type 0} (app : App S) (id url : String) (c : Client)
    → c.url ≡ url
    → c.ctx_done ≡ false
    → Reads (with_client app id c) id url
with_client-Reads app id url c u n = record {
  pointer = length app.clients;
  client = c;
  mapped = ground (arith, get-put app.rtsp_clients id id (length app.clients), eq_refl id);
  at = get_elem?-append_length app.clients c;
  reads = u;
  running = n;
}

pub run_client-Reads :
    {S : Type 0} (app : App S) (id url transport : String) (stream : ℕ) (url_ok : String → Bool)
    → url_ok url ≡ true
    → (app' : App S) × (run_client app id url transport stream url_ok ≡ ok app')
      × Reads app' id url
      × Keeps app app'
unfolding run_client
run_client-Reads app id url transport stream url_ok h =
    let m = make_client-ok app url transport stream url_ok h in
    (
      with_client app id m.0,
      rw (m.1, run_client) refl,
      with_client-Reads app id url m.0 m.2 m.4,
      λ i d. get_elem?-append_left app.clients (m.0 ∷ []) i,
    )
