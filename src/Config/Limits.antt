-- ===== src/Config/Limits.antt =====
-- core/src/config.cc: `AppConfig::Validate` and the bounds it brings the settings into.
use Prim.Native.String.{String}
use text.Mathlib.TextEquality.{eq_iff}
use text.Mathlib.Text.{◌==◌ as ◌=ₛ◌}
use cast_mirror.Prelude.{
  ℕ, ◌≤◌, ◌≡◌, refl, sym, ◌⊎◌, true, false, not, ◌&&◌, ◌||◌, ◌==◌, ltb, if◌then◌else◌, arith,
}
use cast_mirror.Prelude.Int.{ℤ, pos, ltb_ℤ, ◌≤ℤ◌}
use cast_mirror.Config.{AppConfig}

-- `std::clamp`
unfoldable pub clamp_ℤ : ℤ → ℤ → ℤ → ℤ
clamp_ℤ v lo hi = if ltb_ℤ v lo then lo else if ltb_ℤ hi v then hi else v

unfoldable pub clamp : ℕ → ℕ → ℕ → ℕ
clamp v lo hi = if ltb v lo then lo else if ltb hi v then hi else v

unfoldable pub clamp_kbps : ℕ → ℕ
clamp_kbps v = if v == 0 then 0 else clamp v 1000 25000

unfoldable pub valid_fps : ℤ → ℤ
valid_fps fps = if ltb_ℤ fps (pos 0) || ltb_ℤ (pos 60) fps then pos 0 else fps

unfoldable pub valid_schema : ℤ → ℤ
valid_schema version = if ltb_ℤ version (pos 1) then pos 3 else version

unfoldable pub valid_kind : String → String
valid_kind kind = if not (kind =ₛ "monitor") && not (kind =ₛ "window") then "monitor" else kind

unfoldable pub validate : AppConfig → AppConfig
validate cfg = record cfg {
  reconnect_window_s = clamp_ℤ cfg.reconnect_window_s (pos 10) (pos 600);
  bitrate_kbps_auto = clamp_kbps cfg.bitrate_kbps_auto;
  bitrate_kbps_high = clamp_kbps cfg.bitrate_kbps_high;
  bitrate_kbps_balanced = clamp_kbps cfg.bitrate_kbps_balanced;
  bitrate_kbps_smooth = clamp_kbps cfg.bitrate_kbps_smooth;
  bitrate_kbps_game = clamp_kbps cfg.bitrate_kbps_game;
  bitrate_kbps_cinema = clamp_kbps cfg.bitrate_kbps_cinema;
  max_bitrate_kbps = clamp cfg.max_bitrate_kbps 1000 25000;
  capture_fps = valid_fps cfg.capture_fps;
  target_delay_ms = clamp_ℤ cfg.target_delay_ms (pos 100) (pos 400);
  window_width = clamp_ℤ cfg.window_width (pos 760) (pos 1600);
  window_height = clamp_ℤ cfg.window_height (pos 560) (pos 1200);
  launch_timeout_s = clamp_ℤ cfg.launch_timeout_s (pos 3) (pos 15);
  answer_timeout_s = clamp_ℤ cfg.answer_timeout_s (pos 3) (pos 10);
  audio_bitrate_bps = clamp cfg.audio_bitrate_bps 64000 256000;
  schema_version = valid_schema cfg.schema_version;
  last_source_kind = valid_kind cfg.last_source_kind;
  adaptive_enabled = true;
  low_latency_mode = false;
}

abbrev pub IsBetween : ℤ → ℤ → ℤ → Type 0
IsBetween lo hi v = (lo ≤ℤ v) × (v ≤ℤ hi)

abbrev pub IsKbps : ℕ → Type 0
IsKbps v = (v ≡ 0) ⊎ ((1000 ≤ v) × (v ≤ 25000))

-- What every session may rely on.
pub record IsValid (cfg : AppConfig) : Type 0 where
  pub reconnect_window_s : IsBetween (pos 10) (pos 600) cfg.reconnect_window_s
  pub bitrate_kbps_auto : IsKbps cfg.bitrate_kbps_auto
  pub bitrate_kbps_high : IsKbps cfg.bitrate_kbps_high
  pub bitrate_kbps_balanced : IsKbps cfg.bitrate_kbps_balanced
  pub bitrate_kbps_smooth : IsKbps cfg.bitrate_kbps_smooth
  pub bitrate_kbps_game : IsKbps cfg.bitrate_kbps_game
  pub bitrate_kbps_cinema : IsKbps cfg.bitrate_kbps_cinema
  pub max_bitrate_kbps : (1000 ≤ cfg.max_bitrate_kbps) × (cfg.max_bitrate_kbps ≤ 25000)
  pub capture_fps : IsBetween (pos 0) (pos 60) cfg.capture_fps
  pub target_delay_ms : IsBetween (pos 100) (pos 400) cfg.target_delay_ms
  pub window_width : IsBetween (pos 760) (pos 1600) cfg.window_width
  pub window_height : IsBetween (pos 560) (pos 1200) cfg.window_height
  pub launch_timeout_s : IsBetween (pos 3) (pos 15) cfg.launch_timeout_s
  pub answer_timeout_s : IsBetween (pos 3) (pos 10) cfg.answer_timeout_s
  pub audio_bitrate_bps : (64000 ≤ cfg.audio_bitrate_bps) × (cfg.audio_bitrate_bps ≤ 256000)
  pub schema_version : pos 1 ≤ℤ cfg.schema_version
  pub last_source_kind : (cfg.last_source_kind ≡ "monitor") ⊎ (cfg.last_source_kind ≡ "window")
  pub adaptive_enabled : cfg.adaptive_enabled ≡ true
  pub low_latency_mode : cfg.low_latency_mode ≡ false

clamp_ℤ-IsBetween : (v lo hi : ℤ) → lo ≤ℤ hi → IsBetween lo hi (clamp_ℤ v lo hi)
unfolding clamp_ℤ
clamp_ℤ-IsBetween v lo hi h = ground arith

clamp_between : (v lo hi : ℕ) → lo ≤ hi → (lo ≤ clamp v lo hi) × (clamp v lo hi ≤ hi)
unfolding clamp
clamp_between v lo hi h = ground arith

clamp_kbps-IsKbps : (v : ℕ) → IsKbps (clamp_kbps v)
unfolding clamp_kbps clamp
clamp_kbps-IsKbps v = ground arith

valid_fps-IsBetween : (v : ℤ) → IsBetween (pos 0) (pos 60) (valid_fps v)
unfolding valid_fps
valid_fps-IsBetween v = ground arith

clamp_ℤ_id : (v lo hi : ℤ) → IsBetween lo hi v → clamp_ℤ v lo hi ≡ v
unfolding clamp_ℤ
clamp_ℤ_id v lo hi h = ground arith

clamp_id : (v lo hi : ℕ) → lo ≤ v → v ≤ hi → clamp v lo hi ≡ v
unfolding clamp
clamp_id v lo hi h k = ground arith

clamp_kbps_id : (v : ℕ) → IsKbps v → clamp_kbps v ≡ v
unfolding clamp_kbps clamp
clamp_kbps_id v h = ground arith

valid_fps_id : (v : ℤ) → IsBetween (pos 0) (pos 60) v → valid_fps v ≡ v
unfolding valid_fps
valid_fps_id v h = ground arith

valid_schema_pos : (v : ℤ) → pos 1 ≤ℤ valid_schema v
unfolding valid_schema
valid_schema_pos v = ground arith

valid_schema_id : (v : ℤ) → pos 1 ≤ℤ v → valid_schema v ≡ v
unfolding valid_schema
valid_schema_id v h = ground arith

abbrev IsKind : String → Type 0
IsKind kind = (kind ≡ "monitor") ⊎ (kind ≡ "window")

valid_kind-IsKind : (kind : String) → IsKind (valid_kind kind)
unfolding valid_kind
valid_kind-IsKind kind = ground (arith, eq_iff kind "monitor", eq_iff kind "window")

valid_kind_id : (kind : String) → IsKind kind → valid_kind kind ≡ kind
unfolding valid_kind
valid_kind_id kind h = ground (arith, eq_iff kind "monitor", eq_iff kind "window")

-- Whatever the settings were, `Validate` brings every limited one into its bounds, names a known kind of source,
-- and sets the two retired switches.
pub validate-IsValid : (cfg : AppConfig) → IsValid (validate cfg)
unfolding validate
validate-IsValid cfg = record {
  reconnect_window_s = clamp_ℤ-IsBetween _ (pos 10) (pos 600) (omega arith);
  bitrate_kbps_auto = clamp_kbps-IsKbps _;
  bitrate_kbps_high = clamp_kbps-IsKbps _;
  bitrate_kbps_balanced = clamp_kbps-IsKbps _;
  bitrate_kbps_smooth = clamp_kbps-IsKbps _;
  bitrate_kbps_game = clamp_kbps-IsKbps _;
  bitrate_kbps_cinema = clamp_kbps-IsKbps _;
  max_bitrate_kbps = clamp_between _ 1000 25000 (omega arith);
  capture_fps = valid_fps-IsBetween _;
  target_delay_ms = clamp_ℤ-IsBetween _ (pos 100) (pos 400) (omega arith);
  window_width = clamp_ℤ-IsBetween _ (pos 760) (pos 1600) (omega arith);
  window_height = clamp_ℤ-IsBetween _ (pos 560) (pos 1200) (omega arith);
  launch_timeout_s = clamp_ℤ-IsBetween _ (pos 3) (pos 15) (omega arith);
  answer_timeout_s = clamp_ℤ-IsBetween _ (pos 3) (pos 10) (omega arith);
  audio_bitrate_bps = clamp_between _ 64000 256000 (omega arith);
  schema_version = valid_schema_pos _;
  last_source_kind = valid_kind-IsKind _;
  adaptive_enabled = refl;
  low_latency_mode = refl;
}

-- Settings within the bounds are left as they are, so validating twice is validating once.
pub validate_id : (cfg : AppConfig) → IsValid cfg → validate cfg ≡ cfg
unfolding validate
validate_id cfg v = λ i. record cfg {
  reconnect_window_s = clamp_ℤ_id cfg.reconnect_window_s (pos 10) (pos 600) v.reconnect_window_s i;
  bitrate_kbps_auto = clamp_kbps_id _ v.bitrate_kbps_auto i;
  bitrate_kbps_high = clamp_kbps_id _ v.bitrate_kbps_high i;
  bitrate_kbps_balanced = clamp_kbps_id _ v.bitrate_kbps_balanced i;
  bitrate_kbps_smooth = clamp_kbps_id _ v.bitrate_kbps_smooth i;
  bitrate_kbps_game = clamp_kbps_id _ v.bitrate_kbps_game i;
  bitrate_kbps_cinema = clamp_kbps_id _ v.bitrate_kbps_cinema i;
  max_bitrate_kbps = clamp_id _ _ _ v.max_bitrate_kbps.0 v.max_bitrate_kbps.1 i;
  capture_fps = valid_fps_id cfg.capture_fps v.capture_fps i;
  target_delay_ms = clamp_ℤ_id cfg.target_delay_ms (pos 100) (pos 400) v.target_delay_ms i;
  window_width = clamp_ℤ_id cfg.window_width (pos 760) (pos 1600) v.window_width i;
  window_height = clamp_ℤ_id cfg.window_height (pos 560) (pos 1200) v.window_height i;
  launch_timeout_s = clamp_ℤ_id cfg.launch_timeout_s (pos 3) (pos 15) v.launch_timeout_s i;
  answer_timeout_s = clamp_ℤ_id cfg.answer_timeout_s (pos 3) (pos 10) v.answer_timeout_s i;
  audio_bitrate_bps = clamp_id _ _ _ v.audio_bitrate_bps.0 v.audio_bitrate_bps.1 i;
  schema_version = valid_schema_id cfg.schema_version v.schema_version i;
  last_source_kind = valid_kind_id _ v.last_source_kind i;
  adaptive_enabled = sym v.adaptive_enabled i;
  low_latency_mode = sym v.low_latency_mode i;
}
