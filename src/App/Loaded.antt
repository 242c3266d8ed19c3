-- ===== src/App/Loaded.antt =====
-- What loadStreamsFromConfigAndDB has loaded.
use media_stream.Base.{
  ◌≡◌, refl, ◌∙◌, String, Bool, true, false, none, some, List, [], ◌∷◌, ◌||◌, ◌+◌, ℕ, arith, str_eq,
  eq_refl, eq_iff, is_some, length, get_elem?-append_left, Result, ok, err, is_ok, if◌then◌else◌,
  if_cases, inl, inr, Bool-cases,
}
use media_stream.GoMap
use media_stream.GoMap.{GoMap, get-put}
use media_stream.Core.StreamManager.{StreamManager, create_stream, get_stream}
use media_stream.Core.StreamManager.Laws.{with_stream}
use media_stream.Database.{StreamRow, SqlEngine, list_all}
use media_stream.Rtsp.Client.{new_client}
use media_stream.App.{App, AppError, row_config, make_client, run_client, start_rtsp_client}
use media_stream.App.Loading.{load_started, load_row, load_rows, load_streams, sync_paths}
use media_stream.App.Running.{Started, failed, started, with_client, run_client-Started}
use media_stream.App.Reading.{Keeps, Reads, with_client-Reads}

-- Only what stands under the id may have changed, and the clients that there were have not.
pub record Framed {S : Type 0} (app : App S) (id : String) (app' : App S) : Type 0 where
  pub same_stream :
      (k : String)
      → str_eq id k ≡ false
      → GoMap.get app'.stream_manager.streams k ≡ GoMap.get app.stream_manager.streams k
  pub same_client :
      (k : String)
      → str_eq id k ≡ false
      → GoMap.get app'.rtsp_clients k ≡ GoMap.get app.rtsp_clients k
  pub kept : Keeps app app'

-- What the load makes of a row: a stream, and, if it is not on demand, a client on its source.
abbrev pub IsLoaded : {S : Type 0} → (String → Bool) → App S → StreamRow → Type 0
IsLoaded url_ok app r =
    (is_some (GoMap.get app.stream_manager.streams r.id) ≡ true)
    × (r.source_on_demand ≡ false → url_ok r.source ≡ true → Reads app r.id r.source)

abbrev pub AllRows : (StreamRow → Type 0) → List StreamRow → Type 0
AllRows P [] = Unit
AllRows P (r ∷ rows) = P r × AllRows P rows

-- The ids of the rows are distinct, as the primary key makes them.
abbrev pub DistinctIds : List StreamRow → Type 0
DistinctIds [] = Unit
DistinctIds (r ∷ rows) = AllRows (λ q. str_eq r.id q.id ≡ false) rows × DistinctIds rows

-- The manager has none of them.
abbrev pub Absent : StreamManager → StreamRow → Type 0
Absent m r = GoMap.get m.streams r.id ≡ none

-- Whether the row counts as loaded.
abbrev pub loads : (String → Bool) → StreamRow → Bool
loads url_ok r = r.source_on_demand || url_ok r.source

abbrev pub count_loads : (String → Bool) → List StreamRow → ℕ
count_loads url_ok [] = 0
count_loads url_ok (r ∷ rows) =
    if loads url_ok r then count_loads url_ok rows + 1 else count_loads url_ok rows

run_client-is_ok :
    {S : Type 0} (app : App S) (id url transport : String) (stream : ℕ) (url_ok : String → Bool)
    → is_ok (run_client app id url transport stream url_ok) ≡ url_ok url
unfolding run_client make_client new_client
run_client-is_ok app id url transport stream url_ok = elim (Bool-cases (url_ok url)) [
  | inl h ↦ rw (h, run_client) refl
  | inr h ↦ rw (h, run_client) refl
]

module _ {S : Type 0} (url_ok : String → Bool) where
  Framed-IsLoaded :
      (app app' : App S) (id : String) (r : StreamRow)
      → str_eq id r.id ≡ false
      → Framed app id app'
      → IsLoaded url_ok app r
      → IsLoaded url_ok app' r
  Framed-IsLoaded app app' id r n f l = (
    rw (f.same_stream r.id n) l.0,
    λ d u.
        (let a = l.1 d u in
          record {
            pointer = a.pointer;
            client = a.client;
            mapped = f.same_client r.id n ∙ a.mapped;
            at = f.kept a.pointer a.client a.at;
            reads = a.reads;
            running = a.running;
          }),
  )

  Started-Framed :
      (app : App S) (id : String) (stream : ℕ) (P : String → Type 0) (o : Result AppError (App S))
      → Started app id stream P o
      → Framed app id (load_started url_ok app o).0
  unfolding load_started
  Started-Framed app id stream P o (failed e) = record {
    same_stream = λ k n. refl;
    same_client = λ k n. refl;
    kept = λ i d h. h;
  }
  Started-Framed app id stream P o (started c p s n) = record {
    same_stream = λ k q. refl;
    same_client = λ k q. ground (arith, get-put app.rtsp_clients id k (length app.clients), q);
    kept = λ i d. get_elem?-append_left app.clients (c ∷ []) i;
  }

  -- What a row that was absent has become.
  abbrev RowDone : App S → StreamRow → App S × Bool → Type 0
  RowDone app r out = Framed app r.id out.0 × IsLoaded url_ok out.0 r × (out.1 ≡ loads url_ok r)

  Framed-trans : (a b c : App S) (id : String) → Framed a id b → Framed b id c → Framed a id c
  Framed-trans a b c id f g = record {
    same_stream = λ k n. g.same_stream k n ∙ f.same_stream k n;
    same_client = λ k n. g.same_client k n ∙ f.same_client k n;
    kept = λ i d h. g.kept i d (f.kept i d h);
  }

  Framed-with_stream :
      (app : App S) (id name : String)
      → Framed app id (record app { stream_manager = with_stream app.stream_manager id name })
  Framed-with_stream app id name = record {
    same_stream = λ k n.
        ground (arith, get-put app.stream_manager.streams id k (length app.stream_manager.heap), n);
    same_client = λ k n. refl;
    kept = λ i d h. h;
  }

  -- A row that is not on demand, whose stream was just created.
  Started-row :
      (app : App S) (r : StreamRow) (stream : ℕ) (o : Result AppError (App S))
      → r.source_on_demand ≡ false
      → GoMap.get app.stream_manager.streams r.id ≡ some stream
      → Started app r.id stream (λ u. u ≡ r.source) o
      → is_ok o ≡ url_ok r.source
      → RowDone app r (load_started url_ok app o)
  unfolding load_started
  Started-row app r stream o d h (failed e) b = (
    Started-Framed app r.id stream (λ u. u ≡ r.source) (err e) (failed e),
    (ground (arith, h), λ x u. absurd (ground (arith, u, b))),
    ground (arith, d, b),
  )
  Started-row app r stream o d h (started c p s n) b = (
    Started-Framed app r.id stream (λ u. u ≡ r.source) (ok (with_client app r.id c))
        (started c p s n),
    (ground (arith, h), λ x u. with_client-Reads app r.id r.source c p n),
    ground (arith, d, b),
  )

  start_rtsp_client-row :
      (app : App S) (r : StreamRow) (stream : ℕ)
      → r.source_on_demand ≡ false
      → GoMap.get app.stream_manager.streams r.id ≡ some stream
      → RowDone app r (load_started url_ok app (start_rtsp_client app r.id (row_config r) url_ok))
  unfolding start_rtsp_client get_stream
  start_rtsp_client-row app r stream d h =
      rw (h, start_rtsp_client, get_stream)
        (Started-row app r stream (run_client app r.id r.source r.rtsp_transport stream url_ok) d h
          (run_client-Started app r.id r.source r.rtsp_transport stream url_ok)
          (run_client-is_ok app r.id r.source r.rtsp_transport stream url_ok))

  load_row-RowDone :
      (app : App S) (r : StreamRow)
      → Absent app.stream_manager r
      → RowDone app r (load_row url_ok app r)
  unfolding load_row create_stream
  load_row-RowDone app r h =
      let with : App S = record app {
        stream_manager = with_stream app.stream_manager r.id r.name;
      } in
      let there : GoMap.get with.stream_manager.streams r.id
          ≡ some (length app.stream_manager.heap) =
        ground (
          arith,
          get-put app.stream_manager.streams r.id r.id (length app.stream_manager.heap),
          eq_refl r.id,
        ) in
      let f = Framed-with_stream app r.id r.name in
      rw (h, load_row, create_stream)
        (if_cases (RowDone app r) r.source_on_demand
          (λ d. (f, (ground (arith, there), λ x. absurd (ground (arith, d, x))), ground (arith, d)))
          (λ d.
            let t = start_rtsp_client-row with r (length app.stream_manager.heap) d there in
            (Framed-trans app with _ r.id f t.0, t.1, t.2)))

  Absent-Framed :
      (app app' : App S) (r : StreamRow) (rows : List StreamRow)
      → Framed app r.id app'
      → AllRows (λ q. str_eq r.id q.id ≡ false) rows
      → AllRows (Absent app.stream_manager) rows
      → AllRows (Absent app'.stream_manager) rows
  Absent-Framed app app' r [] f d a = tt
  Absent-Framed app app' r (q ∷ rows) f d a =
      (f.same_stream q.id d.0 ∙ a.0, Absent-Framed app app' r rows f d.1 a.1)

  load_rows-kept :
      (app : App S) (r : StreamRow) (rows : List StreamRow) (n : ℕ)
      → AllRows (λ q. str_eq r.id q.id ≡ false) rows
      → DistinctIds rows
      → AllRows (Absent app.stream_manager) rows
      → IsLoaded url_ok app r
      → IsLoaded url_ok (load_rows url_ok app rows n).0 r
  unfolding load_rows
  load_rows-kept app r [] n d e a l = l
  load_rows-kept app r (q ∷ rows) n d e a l =
      let t = load_row-RowDone app q a.0 in
      load_rows-kept (load_row url_ok app q).0 r rows _ d.1 e.1
        (Absent-Framed app (load_row url_ok app q).0 q rows t.0 e.0 a.1)
        (Framed-IsLoaded app (load_row url_ok app q).0 q.id r
          (ground (arith, d.0, eq_iff r.id q.id, eq_iff q.id r.id)) t.0 l)

  load_rows-all :
      (app : App S) (rows : List StreamRow) (n : ℕ)
      → DistinctIds rows
      → AllRows (Absent app.stream_manager) rows
      → AllRows (IsLoaded url_ok (load_rows url_ok app rows n).0) rows
        × ((load_rows url_ok app rows n).1 ≡ n + count_loads url_ok rows)
  unfolding load_rows
  load_rows-all app [] n d a = (tt, omega arith)
  load_rows-all app (r ∷ rows) n d a =
      let t = load_row-RowDone app r a.0 in
      let after = (load_row url_ok app r).0 in
      let b = Absent-Framed app after r rows t.0 d.0 a.1 in
      let m = if (load_row url_ok app r).1 then n + 1 else n in
      let rest = load_rows-all after rows m d.1 b in
      ((load_rows-kept after r rows m d.0 d.1 b t.1, rest.0), ground (arith, t.2, rest.1))

module _ {S : Type 0} (E : SqlEngine S) (url_ok : String → Bool) where
  -- If the database lists rows with distinct ids that the manager does not have, each of them is
  -- loaded: it has a stream, and, if it is not on demand and its URL parses, a client that reads the
  -- source of the row. The rows that count as loaded are the others and those.
  pub load_reads_rows :
      (app : App S) (now : ℕ) (rows : List StreamRow)
      → list_all E (sync_paths E app.db app.paths.entries now) ≡ ok rows
      → DistinctIds rows
      → AllRows (Absent app.stream_manager) rows
      → (app' : App S) × (load_streams E url_ok app now ≡ (app', ok (count_loads url_ok rows)))
        × AllRows (IsLoaded url_ok app') rows
  unfolding load_streams
  load_reads_rows app now rows h d a =
      let synced : App S = record app { db = sync_paths E app.db app.paths.entries now } in
      let t = load_rows-all url_ok synced rows 0 d a in
      ((load_rows url_ok synced rows 0).0, rw (h, t.1, load_streams) (ground arith), t.0)
