-- ===== src/Logger/Rotation.antt =====
-- Where the lines go after midnight: those of the package's functions, and those of a component
-- that was given the logger of an earlier day.
use media_stream.Base.{
  ℕ, ◌+◌, ◌≡◌, ◌≢◌, refl, sym, ap, subst, ◌∙◌, String, true, false, Option, none, some, List, [],
  ◌∷◌, ◌++◌, arith, ◌==◌, length, get_elem?, set, get_elem?-some_lt, get_elem?-set_self,
  get_elem?-set_ne, get_elem?-append_left, get_elem?-append_length, Option-cases, Bool-cases, inl,
  inr,
}
use media_stream.Logger.Path.{get_daily_file_path, get_daily_file_path-injective}
use media_stream.Logger.{
  LogConfig, FileWriter, ZapLogger, LoggerState, get_file_writer, is_file_output, close_writer,
  init_logger_core, init_logger, daily_rotation, rotations, line_file, package_line_file,
}

-- The writer at `w` writes to the file.
Writes : List FileWriter → ℕ → List ℕ → Type 0
Writes writers w file = (f : FileWriter) × (get_elem? writers w ≡ some f) × (f.filename ≡ file)

close_writer-Writes :
    (writers : List FileWriter) (o : Option ℕ) (w : ℕ) (file : List ℕ)
    → Writes writers w file
    → Writes (close_writer writers o) w file
unfolding Writes
close_writer-Writes writers none w file h = h
close_writer-Writes writers (some i) w file (f, e, n) = elim (Option-cases (get_elem? writers i)) [
  | inl g ↦ rw (g, close_writer) (f, e, n)
  | inr (x, g) ↦ elim (Bool-cases (i == w)) [
    | inl q ↦
        let same : i ≡ w = ground (arith, q) in
        let found : x ≡ f = ground (arith, e, g, same) in
        let closed = record x { closes = x.closes + 1 } in
        rw (g, close_writer)
          (
            closed,
            subst (λ j. get_elem? (set writers i closed) j ≡ some closed) same
                (get_elem?-set_self writers i closed (get_elem?-some_lt writers i g)),
            ap (λ (y : FileWriter). y.filename) found ∙ n,
          )
    | inr q ↦
        rw (g, close_writer)
          (
            f,
            get_elem?-set_ne writers i w (record x { closes = x.closes + 1 }) (ground (arith, q))
                ∙ e,
            n,
          )
  ]
]

append-Writes :
    (writers : List FileWriter) (f : FileWriter) (w : ℕ) (file : List ℕ)
    → Writes writers w file
    → Writes (writers ++ f ∷ []) w file
unfolding Writes
append-Writes writers f w file (x, e, n) = (x, get_elem?-append_left writers (f ∷ []) w e, n)

-- The last day of a list that begins with one.
unfoldable pub last : List ℕ → List (List ℕ) → List ℕ
last day [] = day
last day (next ∷ days) = last next days

-- The package's logger writes to the file of the day, and the rotation goes on.
record Rotates {L : Type 0} (cfg : LogConfig) (day : List ℕ) (st : LoggerState L) : Type 0 where
  configured : st.log_config ≡ some cfg
  goes_on : st.ctx_done ≡ false
  logger : ZapLogger L
  writer : ℕ
  is_log : st.log ≡ some logger
  to_writer : logger.to_file ≡ some writer
  writes : Writes st.writers writer (get_daily_file_path cfg.file_path day)

module _ {L : Type 0} (parse_level : String → Option L) (info : L) where
  init_logger_core-Rotates :
      (st : LoggerState L) (cfg : LogConfig) (day : List ℕ)
      → is_file_output cfg ≡ true
      → st.log_config ≡ some cfg
      → st.ctx_done ≡ false
      → Rotates cfg day (init_logger_core parse_level info st cfg day)
  unfolding init_logger_core get_file_writer Writes
  init_logger_core-Rotates st cfg day h c g =
      rw (h, init_logger_core)
        (record {
          configured = c;
          goes_on = g;
          logger = _;
          writer = length st.writers;
          is_log = refl;
          to_writer = refl;
          writes = (get_file_writer cfg day, get_elem?-append_length st.writers _, refl);
        })

  init_logger_core-Writes :
      (st : LoggerState L) (cfg : LogConfig) (day : List ℕ) (w : ℕ) (file : List ℕ)
      → Writes st.writers w file
      → Writes (init_logger_core parse_level info st cfg day).writers w file
  unfolding init_logger_core
  init_logger_core-Writes st cfg day w file h = elim (Bool-cases (is_file_output cfg)) [
    | inl e ↦ rw (e, init_logger_core) (append-Writes st.writers (get_file_writer cfg day) w file h)
    | inr e ↦ rw (e, init_logger_core) h
  ]

  daily_rotation-init :
      (st : LoggerState L) (cfg : LogConfig) (day : List ℕ)
      → st.log_config ≡ some cfg
      → st.ctx_done ≡ false
      → daily_rotation parse_level info st day
        ≡ init_logger_core parse_level info
            (record st { writers = close_writer st.writers st.file_writer })
            cfg
            day
  unfolding daily_rotation
  daily_rotation-init st cfg day c g = ground (arith, c, g)

  rotations-kept :
      (st : LoggerState L) (cfg : LogConfig) (day : List ℕ) (days : List (List ℕ)) (w : ℕ)
      (file : List ℕ)
      → is_file_output cfg ≡ true
      → Rotates cfg day st
      → Writes st.writers w file
      → Rotates cfg (last day days) (rotations parse_level info st days)
        × Writes (rotations parse_level info st days).writers w file
  unfolding rotations last
  rotations-kept st cfg day [] w file h v k = (v, k)
  rotations-kept st cfg day (next ∷ days) w file h v k =
      let closed = record st { writers = close_writer st.writers st.file_writer } in
      let step = daily_rotation-init st cfg next v.configured v.goes_on in
      rotations-kept (daily_rotation parse_level info st next) cfg next days w file h
        (subst (Rotates cfg next) (sym step)
          (init_logger_core-Rotates closed cfg next h v.configured v.goes_on))
        (subst (λ (s : LoggerState L). Writes s.writers w file) (sym step)
          (init_logger_core-Writes closed cfg next w file
            (close_writer-Writes st.writers st.file_writer w file k)))

  line_file-Writes :
      (st : LoggerState L) (logger : ZapLogger L) (w : ℕ) (file : List ℕ)
      → logger.to_file ≡ some w
      → Writes st.writers w file
      → line_file st logger ≡ some file
  unfolding line_file Writes
  line_file-Writes st logger w file t (f, e, n) = rw (t, e, line_file) (ap some n)

  package_line_file-Rotates :
      (st : LoggerState L) (cfg : LogConfig) (day : List ℕ)
      → Rotates cfg day st
      → package_line_file st ≡ some (get_daily_file_path cfg.file_path day)
  unfolding package_line_file
  package_line_file-Rotates st cfg day v =
      rw (v.is_log, package_line_file)
        (line_file-Writes st v.logger v.writer (get_daily_file_path cfg.file_path day) v.to_writer
          v.writes)

  -- With an output to a file, and until Close, each midnight moves the lines of the package's
  -- functions to the file of the new day. A component that holds the logger which InitLogger made,
  -- as all components do, goes on to write to the file of the day on which it was made; from the
  -- second day on that is another file.
  pub components_keep_first_file :
      (st : LoggerState L) (cfg : LogConfig) (first : List ℕ) (days : List (List ℕ))
      → is_file_output cfg ≡ true
      → last first days ≢ first
      → (logger : ZapLogger L) × ((init_logger parse_level info st cfg first).0.log ≡ some logger)
        × (package_line_file
              (rotations parse_level info (init_logger parse_level info st cfg first).0 days)
            ≡ some (get_daily_file_path cfg.file_path (last first days)))
        × (line_file
              (rotations parse_level info (init_logger parse_level info st cfg first).0 days)
              logger
            ≡ some (get_daily_file_path cfg.file_path first))
        × (get_daily_file_path cfg.file_path (last first days)
            ≢ get_daily_file_path cfg.file_path first)
  unfolding init_logger
  components_keep_first_file st cfg first days h n =
      let started =
        init_logger_core parse_level info (record st { log_config = some cfg; ctx_done = false })
          cfg first in
      let v =
        init_logger_core-Rotates (record st { log_config = some cfg; ctx_done = false }) cfg first h
          refl refl in
      let file = get_daily_file_path cfg.file_path first in
      let after = rotations-kept started cfg first days v.writer file h v v.writes in
      (
        v.logger,
        v.is_log,
        package_line_file-Rotates (rotations parse_level info started days) cfg (last first days)
            after.0,
        line_file-Writes (rotations parse_level info started days) v.logger v.writer file
            v.to_writer after.1,
        λ e. n (get_daily_file_path-injective cfg.file_path (last first days) first e),
      )
