-- ===== src/Core/ConfigStore/Validation.antt =====
-- validatePathConfig against a description of the valid configurations.
use media_stream.Base.{◌≡◌, ◌≢◌, ◌⊎◌, ◌↔◌, String, none, arith, eq_iff}
use media_stream.Core.ConfigStore.{PathConfig, validate_path_config}

-- A path has an id, and either a source or a command, not both.
abbrev pub IsWellFormed : String → PathConfig → Type 0
IsWellFormed id c =
    (id ≢ "")
    × ((((c.source ≢ "") × (c.run_on_demand ≡ "")) ⊎ ((c.source ≡ "") × (c.run_on_demand ≢ ""))))

-- The validation passes exactly the well-formed configurations.
validate_path_config-IsWellFormed :
    (id : String) (c : PathConfig) → (validate_path_config id c ≡ none) ↔ IsWellFormed id c
unfolding validate_path_config
validate_path_config-IsWellFormed id c = (
  λ h. ground (arith, eq_iff id "", eq_iff c.source "", eq_iff c.run_on_demand ""),
  λ h. ground (arith, eq_iff id "", eq_iff c.source "", eq_iff c.run_on_demand ""),
)
