-- ===== src/Api/Streams/Races.antt =====
-- Requests that overlap. No lock is held over a handler, so that another request may come between
-- the steps of handleDeleteStream.
use media_stream.Base.{
  ℕ, ◌≡◌, refl, subst, String, Bool, true, false, some, none, arith, eq_refl, get_elem?,
  get_elem?-some_lt, get_elem?-set_self, get_elem?-append_length, length, ok, inl, inr,
  Result-cases,
}
use media_stream.GoMap
use media_stream.GoMap.{get-put, get-remove}
use media_stream.Core.Stream.{Stream, shut}
use media_stream.Core.StreamManager.{get_stream, remove_stream}
use media_stream.Core.StreamManager.Laws.{without_stream}
use media_stream.Core.ConfigStore.{PathConfig}
use media_stream.Database.{SqlEngine, erase}
use media_stream.Rtsp.Client.{Client}
use media_stream.App.{
  App, run_client, on_demand_config, start_absent, start_on_demand_stream, stop_stream,
}
use media_stream.App.Running.{IsRunning, with_client, make_client-ok}
use media_stream.Api.Streams.{attempted, delete_begin, remove_managed}
use media_stream.Api.Streams.Safety.{attempted-stop_stream, with_db-IsRunning}

-- A client that runs under the id feeds a stream that is shut and that the manager does not have.
pub record Stranded {S : Type 0} (app : App S) (id url : String) (i : ℕ) : Type 0 where
  pub pointer : ℕ
  pub client : Client
  pub stream : Stream
  pub unmanaged : GoMap.get app.stream_manager.streams id ≡ none
  pub mapped : GoMap.get app.rtsp_clients id ≡ some pointer
  pub at : get_elem? app.clients pointer ≡ some client
  pub reads : client.url ≡ url
  pub running : client.ctx_done ≡ false
  pub feeds : client.stream ≡ i
  pub stream_shut : get_elem? app.stream_manager.heap i ≡ some (shut stream)

module _ {S : Type 0} (E : SqlEngine S) (url_ok : String → Bool) where
  -- What an erased row and a halted client leave.
  abbrev pub Begun : App S → String → App S → Type 0
  Begun app id mid =
      IsRunning mid
      × (GoMap.get mid.rtsp_clients id ≡ none)
      × (mid.stream_manager ≡ app.stream_manager)
      × (mid.paths ≡ app.paths)

  pub delete_begin-Begun :
      (app mid : App S) (id : String)
      → IsRunning app
      → delete_begin E url_ok app id ≡ ok mid
      → Begun app id mid
  unfolding delete_begin
  delete_begin-Begun app mid id v h = elim (Result-cases (erase E app.db id)) [
    | inl (e, g) ↦ absurd (ground (arith, h, g))
    | inr (s, g) ↦
        let d : App S = record app { db = s } in
        let a = attempted-stop_stream d id (with_db-IsRunning E url_ok app s v) in
        let same : attempted d (stop_stream d id) ≡ mid = ground (arith, h, g) in
        subst (Begun app id) same (a.0, a.1.0, a.1.2, a.1.4)
  ]

  start-with_client :
      (app : App S) (id : String) (i : ℕ) (config : PathConfig)
      → GoMap.get app.rtsp_clients id ≡ none
      → GoMap.get app.stream_manager.streams id ≡ some i
      → GoMap.get app.paths id ≡ some config
      → url_ok config.source ≡ true
      → (c : Client) × (start_on_demand_stream E url_ok app id ≡ ok (with_client app id c))
        × (c.url ≡ config.source)
        × (c.stream ≡ i)
        × (c.ctx_done ≡ false)
  unfolding start_on_demand_stream start_absent get_stream on_demand_config run_client
  start-with_client app id i config n h p u =
      let m = make_client-ok app config.source config.rtsp_transport i url_ok u in
      (
        m.0,
        rw
            (
              n, h, p, m.1, start_on_demand_stream, start_absent, get_stream, on_demand_config,
              run_client,
            )
            refl,
        m.2,
        m.3,
        m.4,
      )

  remove-Stranded :
      (app : App S) (id : String) (i : ℕ) (c : Client)
      → IsRunning app
      → GoMap.get app.stream_manager.streams id ≡ some i
      → c.stream ≡ i
      → c.ctx_done ≡ false
      → (over : App S) × (remove_managed (with_client app id c) id ≡ some over)
        × Stranded over id c.url i
  unfolding remove_managed remove_stream
  remove-Stranded app id i c v h f n =
      let a = v.managed.managed id i h in
      (
        record (with_client app id c) {
          stream_manager = without_stream app.stream_manager id i a.stream;
        },
        rw (h, a.at, a.buffer_open, remove_managed, remove_stream) refl,
        record {
          pointer = length app.clients;
          client = c;
          stream = a.stream;
          unmanaged = ground (arith, get-remove app.stream_manager.streams id id, eq_refl id);
          mapped = ground (arith, get-put app.rtsp_clients id id (length app.clients), eq_refl id);
          at = get_elem?-append_length app.clients c;
          reads = refl;
          running = n;
          feeds = f;
          stream_shut =
              get_elem?-set_self app.stream_manager.heap i (shut a.stream)
                (get_elem?-some_lt app.stream_manager.heap i a.at);
        },
      )

  -- A start that comes between the stop and the RemoveStream of a handleDeleteStream undoes the
  -- deletion halfway. In an application whose clients run, if the row is erased, the manager has the
  -- stream, and config.yaml has the id with a source that parses, then the start succeeds, the
  -- removal does not panic, and what they leave is a client that runs under the id and reads the
  -- source of config.yaml, and that feeds a stream which is shut and no longer managed.
  pub start_overtakes_delete :
      (app mid : App S) (id : String) (i : ℕ) (config : PathConfig)
      → IsRunning app
      → delete_begin E url_ok app id ≡ ok mid
      → GoMap.get app.stream_manager.streams id ≡ some i
      → GoMap.get app.paths id ≡ some config
      → url_ok config.source ≡ true
      → (started over : App S) × (start_on_demand_stream E url_ok mid id ≡ ok started)
        × (remove_managed started id ≡ some over)
        × Stranded over id config.source i
  start_overtakes_delete app mid id i config v b h p u =
      let m = delete_begin-Begun app mid id v b in
      let there : GoMap.get mid.stream_manager.streams id ≡ some i = rw m.2 h in
      let c = start-with_client mid id i config m.1 there (rw m.3 p) u in
      let r = remove-Stranded mid id i c.0 m.0 there c.3 c.4 in
      (with_client mid id c.0, r.0, c.1, r.1, subst (λ url. Stranded r.0 id url i) c.2 r.2)
