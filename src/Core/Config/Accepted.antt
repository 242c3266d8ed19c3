-- ===== src/Core/Config/Accepted.antt =====
-- Which configurations LoadConfig accepts, and what an accepted one guarantees.
use media_stream.Base.{
  ◌≡◌, ◌≢◌, refl, ◌↔◌, String, true, Option, none, some, arith, eq_iff, ok, Bool-cases, inl, inr, ℕ,
  zero, suc, sym, subst, Option-cases, map_some, ap,
}
use media_stream.Base.Int.{ℤ, pos, negsuc, ◌≤ℤ◌, ◌<ℤ◌}
use media_stream.Core.Config.{
  Config, HlsConfig, parsed, set_defaults, validate, validate_hls, load_config, load_parsed,
  or_default, or_default_text, ApiConfig, api_defaults,
}

-- Ports in range, limits positive, and with HLS on, positive segments within the threshold.
pub record IsAccepted (c : Config) : Type 0 where
  pub http : (pos 0 <ℤ c.server.http_port) × (c.server.http_port ≤ℤ pos 65535)
  pub ws : (pos 0 <ℤ c.server.ws_port) × (c.server.ws_port ≤ℤ pos 65535)
  pub streams : pos 0 <ℤ c.rtsp.pool.max_streams
  pub peers : pos 0 <ℤ c.webrtc.settings.max_peers
  pub hls :
      c.hls.enabled ≡ true
      → (pos 0 <ℤ c.hls.segment_duration)
        × (pos 0 <ℤ c.hls.segment_count)
        × (c.hls.segment_count ≤ℤ c.hls.cleanup_threshold)

validate_hls-none :
    (h : HlsConfig)
    → (validate_hls h ≡ none) ↔ (
        h.enabled ≡ true
        → (pos 0 <ℤ h.segment_duration)
          × (pos 0 <ℤ h.segment_count)
          × (h.segment_count ≤ℤ h.cleanup_threshold))
unfolding validate_hls
validate_hls-none h = (
  λ e on. ground arith,
  λ f. elim (Bool-cases h.enabled) [ inl e ↦ ground (arith, f e) | inr e ↦ ground arith ],
)

-- Validate returns nil on exactly the acceptable configurations.
validate-IsAccepted : (c : Config) → (validate c ≡ none) ↔ IsAccepted c
unfolding validate
validate-IsAccepted c = (
  λ e. record {
    http = ground arith;
    ws = ground arith;
    streams = ground arith;
    peers = ground arith;
    hls = (validate_hls-none c.hls).0 (ground arith);
  },
  λ a. ground (arith, (validate_hls-none c.hls).1 a.hls),
)

load_parsed_iff : (c d : Config) → (load_parsed c ≡ ok d) ↔ ((d ≡ c) × IsAccepted d)
unfolding load_parsed
load_parsed_iff c d = (
  λ e. elim (Option-cases (validate c)) [
    | inl n ↦
        let same : d ≡ c = ground arith in
        (same, subst IsAccepted (sym same) ((validate-IsAccepted c).0 n))
    | inr (x, n) ↦ absurd (ground arith)
  ],
  λ h. let n = (validate-IsAccepted c).1 (subst IsAccepted h.0 h.1) in ground arith,
)

-- LoadConfig returns a configuration exactly if it is the one of the file with the defaults filled
-- in and it is acceptable.
pub load_config-IsAccepted :
    (c d : Config) → (load_config (parsed c) ≡ ok d) ↔ ((d ≡ set_defaults c) × IsAccepted d)
unfolding load_config
load_config-IsAccepted c d = load_parsed_iff (set_defaults c) d

or_default_lem :
    (x : ℤ) (n : ℕ)
    → (or_default (or_default x (pos (suc n))) (pos (suc n)) ≡ or_default x (pos (suc n)))
      × (or_default x (pos (suc n)) ≢ pos 0)
      × (x ≢ pos 0 → or_default x (pos (suc n)) ≡ x)
or_default_lem (pos zero) n = (ground arith, ground arith, λ h. ground arith)
or_default_lem (pos (suc m)) n = (ground arith, ground arith, λ h. ground arith)
or_default_lem (negsuc m) n = (ground arith, ground arith, λ h. ground arith)

or_default_text_lem :
    (x d : String)
    → d ≢ ""
    → (or_default_text (or_default_text x d) d ≡ or_default_text x d) × (or_default_text x d ≢ "")
or_default_text_lem x d h =
    (ground (arith, eq_iff x "", eq_iff d ""), λ e. ground (arith, eq_iff x "", eq_iff d ""))

api_defaults_idem : (a : ApiConfig) → api_defaults (api_defaults a) ≡ api_defaults a
unfolding api_defaults
api_defaults_idem a =
    ground (
      arith,
      (or_default_lem a.request_timeout_sec 29).0,
      (or_default_lem a.on_demand_wait_sec 1).0,
    )

api_idem :
    (o : Option ApiConfig)
    → map_some api_defaults (map_some api_defaults o) ≡ map_some api_defaults o
api_idem none = refl
api_idem (some a) = ap some (api_defaults_idem a)

set_defaults_idem : (c : Config) → set_defaults (set_defaults c) ≡ set_defaults c
unfolding set_defaults
set_defaults_idem c = λ i. record c {
  database_path =
      (or_default_text_lem c.database_path "data/streams.db"
          (ground (arith, eq_iff "data/streams.db" ""))).0
        i;
  api = api_idem c.api i;
  rtsp = record c.rtsp {
    client = record c.rtsp.client {
      on_demand_wait_sec = (or_default_lem c.rtsp.client.on_demand_wait_sec 1).0 i;
    };
  };
  hls = record c.hls {
    segment_duration = (or_default_lem c.hls.segment_duration 1).0 i;
    segment_count = (or_default_lem c.hls.segment_count 9).0 i;
    output_dir = (or_default_text_lem c.hls.output_dir "hls" (ground (arith, eq_iff "hls" ""))).0 i;
    cleanup_threshold = (or_default_lem c.hls.cleanup_threshold 19).0 i;
  };
}

-- The defaults replace zeros and empty texts only, are not zero or empty themselves, and to fill
-- them in a second time changes nothing.
set_defaults_lem :
    (c : Config)
    → (set_defaults (set_defaults c) ≡ set_defaults c)
      × ((set_defaults c).database_path ≢ "")
      × ((set_defaults c).hls.output_dir ≢ "")
      × ((set_defaults c).hls.segment_duration ≢ pos 0)
      × ((set_defaults c).hls.segment_count ≢ pos 0)
      × ((set_defaults c).hls.cleanup_threshold ≢ pos 0)
      × (c.hls.segment_count ≢ pos 0 → (set_defaults c).hls.segment_count ≡ c.hls.segment_count)
unfolding set_defaults
set_defaults_lem c =
    let path =
      or_default_text_lem c.database_path "data/streams.db"
        (ground (arith, eq_iff "data/streams.db" "")) in
    let dir = or_default_text_lem c.hls.output_dir "hls" (ground (arith, eq_iff "hls" "")) in
    let duration = or_default_lem c.hls.segment_duration 1 in
    let count = or_default_lem c.hls.segment_count 9 in
    let threshold = or_default_lem c.hls.cleanup_threshold 19 in
    (set_defaults_idem c, path.1, dir.1, duration.1, count.1, threshold.1, count.2)
