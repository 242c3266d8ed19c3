-- ===== src/App/Stopping.antt =====
-- startOnDemandStream and stopStream on an application whose clients feed the streams of their ids.
use media_stream.Base.{
  ℕ, ◌≡◌, ◌≢◌, refl, sym, subst, String, Bool, false, none, some, arith, str_eq, eq_iff, get_elem?,
  set, get_elem?-some_lt, get_elem?-set_self, Result, ok, err, inl, inr, Bool-cases, Option-cases,
}
use media_stream.GoMap
use media_stream.GoMap.{GoMap, get-remove}
use media_stream.Core.StreamManager.{get_stream}
use media_stream.Core.ConfigStore.{PathConfig}
use media_stream.Database.{SqlEngine}
use media_stream.Rtsp.Client.{Client, stop_client}
use media_stream.Process.{is_running}
use media_stream.App.{
  App, AppError, not_running, on_demand_config, start_absent, start_on_demand_stream, stop_stream,
  stop_at,
}
use media_stream.App.Running.{
  Served, Served-injective, IsRunning, IsRunning?, Started, failed, started, run_client-Started,
  Started-IsRunning, Served-set_ne,
}

-- The application without the client of an id.
abbrev pub without_client : {S : Type 0} → App S → String → ℕ → Client → App S
without_client app id r c = record app {
  clients = set app.clients r (stop_client c);
  rtsp_clients = GoMap.remove app.rtsp_clients id;
}

other_client :
    {S : Type 0} (app : App S) (j k : String) (r i : ℕ)
    → IsRunning app
    → GoMap.get app.rtsp_clients j ≡ some r
    → GoMap.get app.rtsp_clients k ≡ some i
    → str_eq j k ≡ false
    → r ≢ i
other_client app j k r i v h e q p =
    let same = subst (Served app.stream_manager app.clients j) p (v.served j r h) in
    ground (
      arith,
      Served-injective app.stream_manager app.clients j k i v.managed same (v.served k i e),
      eq_iff j k,
    )

pub without_client-IsRunning :
    {S : Type 0} (app : App S) (id : String) (r : ℕ) (c : Client)
    → IsRunning app
    → GoMap.get app.rtsp_clients id ≡ some r
    → IsRunning (without_client app id r c)
without_client-IsRunning app id r c v h = record {
  managed = v.managed;
  no_process = v.no_process;
  served = λ k i e. elim (Bool-cases (str_eq id k)) [
    | inl q ↦ absurd (ground (arith, q, get-remove app.rtsp_clients id k))
    | inr q ↦
        let here : GoMap.get app.rtsp_clients k ≡ some i =
          ground (arith, q, get-remove app.rtsp_clients id k) in
        Served-set_ne app.stream_manager app.clients (stop_client c) r k i
          (other_client app id k r i v h here q) (v.served k i here)
  ];
}

-- The client that ran under the id is cancelled.
pub without_client-stopped :
    {S : Type 0} (app : App S) (id : String) (r i : ℕ) (c d : Client)
    → GoMap.get app.rtsp_clients id ≡ some r
    → get_elem? app.clients r ≡ some c
    → GoMap.get app.rtsp_clients id ≡ some i
    → get_elem? app.clients i ≡ some d
    → get_elem? (without_client app id r c).clients i ≡ some (stop_client d)
without_client-stopped app id r i c d h e f g =
    let same : r ≡ i = ground (arith, h, f) in
    let kept : c ≡ d = ground (arith, same, e, g) in
    subst (λ j. get_elem? (set app.clients r (stop_client c)) j ≡ some (stop_client d)) same
      (rw (sym kept)
        (get_elem?-set_self app.clients r (stop_client c) (get_elem?-some_lt app.clients r e)))

-- What stopStream has done.
pub data Stopped {S : Type 0} (app : App S) (id : String) : Result AppError (App S) → Type 0 where
  idle : GoMap.get app.rtsp_clients id ≡ none → Stopped app id (err (not_running id))
  stopped :
      (r : ℕ) (c : Client)
      → GoMap.get app.rtsp_clients id ≡ some r
      → get_elem? app.clients r ≡ some c
      → Stopped app id (ok (without_client app id r c))

pub stop_stream-Stopped :
    {S : Type 0} (app : App S) (id : String) → IsRunning app → Stopped app id (stop_stream app id)
unfolding stop_stream is_running stop_at
stop_stream-Stopped app id v = elim (Option-cases (GoMap.get app.rtsp_clients id)) [
  | inl h ↦ rw (v.no_process id, h, stop_stream, is_running) (idle h)
  | inr (r, h) ↦
      rw (v.no_process id, h, (v.served id r h).at, stop_stream, is_running, stop_at)
        (stopped r (v.served id r h).client h (v.served id r h).at)
]

module _ {S : Type 0} (E : SqlEngine S) (url_ok : String → Bool) where
  -- The source that startOnDemandStream takes for the id.
  pub IsSource : App S → String → String → Type 0
  IsSource app id url =
      (c : PathConfig) × (on_demand_config E url_ok app id ≡ ok c) × (url ≡ c.source)

  Started-source :
      (app : App S) (id : String) (stream : ℕ) (c : PathConfig) (o : Result AppError (App S))
      → on_demand_config E url_ok app id ≡ ok c
      → Started app id stream (λ u. u ≡ c.source) o
      → Started app id stream (IsSource app id) o
  unfolding IsSource
  Started-source app id stream c o h (failed e) = failed e
  Started-source app id stream c o h (started d p s n) = started d (c, h, p) s n

  pub start_configured :
      (app : App S) (id : String) (stream : ℕ) (o : Result AppError PathConfig)
      → on_demand_config E url_ok app id ≡ o
      → GoMap.get app.stream_manager.streams id ≡ some stream
      → Started app id stream (IsSource app id) (start_absent E url_ok app id)
  unfolding start_absent get_stream
  start_configured app id stream (err e) h f = rw (f, start_absent, get_stream, h) (failed e)
  start_configured app id stream (ok c) h f =
      rw (f, start_absent, get_stream, h)
        (Started-source app id stream c _ h
          (run_client-Started app id c.source c.rtsp_transport stream url_ok))

  pub start_absent-IsRunning :
      (app : App S) (id : String) → IsRunning app → IsRunning? (start_absent E url_ok app id)
  unfolding start_absent get_stream
  start_absent-IsRunning app id v = elim (Option-cases (GoMap.get app.stream_manager.streams id)) [
    | inl h ↦ rw (h, start_absent, get_stream) tt
    | inr (stream, h) ↦
        Started-IsRunning app id stream (IsSource app id) (start_absent E url_ok app id) v h
          (start_configured app id stream (on_demand_config E url_ok app id) refl h)
  ]

  pub start_on_demand_stream-IsRunning :
      (app : App S) (id : String)
      → IsRunning app
      → IsRunning? (start_on_demand_stream E url_ok app id)
  unfolding start_on_demand_stream
  start_on_demand_stream-IsRunning app id v =
      elim (Bool-cases (GoMap.contains app.rtsp_clients id)) [
        | inl h ↦ rw (h, start_on_demand_stream) v
        | inr h ↦ rw (h, start_on_demand_stream) (start_absent-IsRunning app id v)
      ]
