-- ===== src/Logger.antt =====
-- go-legacy/pkg/logger/logger.go: the package's variables as a state, and its functions. Texts that
-- name files are bytes. A writer of lumberjack writes to the file of its name, also after a Close;
-- the output of the lines, the levels of zap and the clock are arguments.
pub mod Path
pub mod Rotation
mod Tests
use media_stream.Base.{
  ℕ, ◌+◌, ◌-◌, String, Bool, true, false, Option, none, some, List, [], ◌∷◌, ◌++◌, str_eq, ◌==◌,
  ◌&&◌, ◌||◌, not, if◌then◌else◌, length, get_elem?, set,
}
use media_stream.Base.Int.{ℤ}
use media_stream.Logger.Path.{get_daily_file_path}

pub record LogConfig : Type 0 where
  pub level : String
  pub output : String
  pub file_path : List ℕ
  pub max_size : ℤ
  pub max_backups : ℤ
  pub max_age : ℤ

-- lumberjack.Logger, and how often it was closed.
pub record FileWriter : Type 0 where
  pub filename : List ℕ
  pub max_size : ℤ
  pub max_backups : ℤ
  pub max_age : ℤ
  pub closes : ℕ

-- zap.Logger, by the outputs of its core; `L` are the levels.
pub record ZapLogger (L : Type 0) : Type 0 where
  pub level : L
  pub to_stdout : Bool
  pub to_file : Option ℕ

-- The variables of the package, with the writers that they and the loggers point to.
pub record LoggerState (L : Type 0) : Type 0 where
  pub writers : List FileWriter
  pub log : Option (ZapLogger L)
  pub log_config : Option LogConfig
  pub file_writer : Option ℕ
  pub ctx_done : Bool

-- getFileWriter on a day; the directory that it makes and what it prints are left out.
unfoldable pub get_file_writer : LogConfig → List ℕ → FileWriter
unfolding get_daily_file_path
get_file_writer cfg day = record {
  filename = get_daily_file_path cfg.file_path day;
  max_size = cfg.max_size;
  max_backups = cfg.max_backups;
  max_age = cfg.max_age;
  closes = 0;
}

abbrev pub is_file_output : LogConfig → Bool
is_file_output cfg = str_eq cfg.output "file" || str_eq cfg.output "both"

-- Close of a writer.
abbrev pub close_writer : List FileWriter → Option ℕ → List FileWriter
close_writer writers none = writers
close_writer writers (some w) = elim (get_elem? writers w) [
  | none ↦ writers
  | some f ↦ set writers w (record f { closes = f.closes + 1 })
]

abbrev pub new_state : (L : Type 0) → LoggerState L
new_state L = record {
  writers = [];
  log = none;
  log_config = none;
  file_writer = none;
  ctx_done = false;
}

module _ {L : Type 0} (parse_level : String → Option L) (info : L) where
  -- The level of the configuration, or info.
  abbrev pub level_of : LogConfig → L
  level_of cfg = elim (parse_level cfg.level) [ none ↦ info | some l ↦ l ]

  -- initLoggerCore, which returns no error.
  unfoldable pub init_logger_core : LoggerState L → LogConfig → List ℕ → LoggerState L
  unfolding get_file_writer
  init_logger_core st cfg day =
      if is_file_output cfg
      then record st {
        writers = st.writers ++ get_file_writer cfg day ∷ [];
        file_writer = some (length st.writers);
        log = some (record {
          level = level_of cfg;
          to_stdout = str_eq cfg.output "both";
          to_file = some (length st.writers);
        });
      }
      else record st {
        log = some (record { level = level_of cfg; to_stdout = true; to_file = none });
      }

  -- InitLogger, and whether it starts dailyRotation.
  unfoldable pub init_logger : LoggerState L → LogConfig → List ℕ → LoggerState L × Bool
  unfolding init_logger_core
  init_logger st cfg day = (
    init_logger_core (record st { log_config = some cfg; ctx_done = false }) cfg day,
    is_file_output cfg,
  )

  -- A round of dailyRotation, at the midnight that begins the day.
  unfoldable pub daily_rotation : LoggerState L → List ℕ → LoggerState L
  unfolding init_logger_core
  daily_rotation st day = if st.ctx_done then st else elim st.log_config [
    | none ↦ st
    | some cfg ↦
        init_logger_core (record st { writers = close_writer st.writers st.file_writer }) cfg day
  ]

  -- The midnights of so many days.
  unfoldable pub rotations : LoggerState L → List (List ℕ) → LoggerState L
  unfolding daily_rotation
  rotations st [] = st
  rotations st (day ∷ days) = rotations (daily_rotation st day) days

-- Close
unfoldable pub close_logger : {L : Type 0} → LoggerState L → LoggerState L
close_logger st = record st { ctx_done = true; writers = close_writer st.writers st.file_writer }

-- The file that a line of the logger is written to.
unfoldable pub line_file : {L : Type 0} → LoggerState L → ZapLogger L → Option (List ℕ)
line_file st logger = elim logger.to_file [
  | none ↦ none
  | some w ↦ elim (get_elem? st.writers w) [ none ↦ none | some f ↦ some f.filename ]
]

-- The same of the package's functions Info, Debug, Warn and Error, which do nothing before
-- InitLogger.
unfoldable pub package_line_file : {L : Type 0} → LoggerState L → Option (List ℕ)
unfolding line_file
package_line_file st = elim st.log [ none ↦ none | some logger ↦ line_file st logger ]
