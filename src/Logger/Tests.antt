-- ===== src/Logger/Tests.antt =====
-- The theorem on the rotation with an output to both, over one midnight.
use media_stream.Base.{ℕ, ◌≡◌, ◌≢◌, refl, String, Option, none, some, List, [], ◌∷◌, arith}
use media_stream.Base.Int.{pos}
use media_stream.Logger.{
  LogConfig, ZapLogger, new_state, init_logger, rotations, line_file, package_line_file,
}
use media_stream.Logger.Path.{get_daily_file_path, ext, trim_suffix}
use media_stream.Logger.Rotation.{last, components_keep_first_file}

-- "l/m.log", "1" and "2"
abbrev log_path : List ℕ
log_path = 108 ∷ 47 ∷ 109 ∷ 46 ∷ 108 ∷ 111 ∷ 103 ∷ []

abbrev both_outputs : LogConfig
both_outputs = record {
  level = "loud";
  output = "both";
  file_path = log_path;
  max_size = pos 100;
  max_backups = pos 7;
  max_age = pos 30;
}

abbrev monday : List ℕ
monday = 49 ∷ []

abbrev tuesday : List ℕ
tuesday = 50 ∷ []

-- "l/m-1.log"
monday_file :
    get_daily_file_path log_path monday ≡ 108 ∷ 47 ∷ 109 ∷ 45 ∷ 49 ∷ 46 ∷ 108 ∷ 111 ∷ 103 ∷ []
unfolding get_daily_file_path ext trim_suffix
monday_file = refl

abbrev no_level : String → Option ℕ
no_level name = none

components_keep_first_file_example :
    (logger : ZapLogger ℕ) × ((init_logger no_level 0 (new_state ℕ) both_outputs monday).0.log
      ≡ some logger)
    × (package_line_file (
          rotations no_level 0
            (init_logger no_level 0 (new_state ℕ) both_outputs monday).0
            (tuesday ∷ []))
        ≡ some (get_daily_file_path log_path (last monday (tuesday ∷ []))))
    × (line_file
          (rotations no_level 0
            (init_logger no_level 0 (new_state ℕ) both_outputs monday).0
            (tuesday ∷ []))
          logger
        ≡ some (get_daily_file_path log_path monday))
    × (get_daily_file_path log_path (last monday (tuesday ∷ []))
        ≢ get_daily_file_path log_path monday)
components_keep_first_file_example =
    components_keep_first_file no_level 0 (new_state ℕ) both_outputs monday (tuesday ∷ []) refl
      (unfold last in (λ e. ground (arith, e)))
