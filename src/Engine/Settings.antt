-- ===== src/Engine/Settings.antt =====
-- What casting makes of the settings.
use cast_mirror.Prelude.{ℕ, ◌≡◌, refl, sym, ap, ◌∙◌, Bool, Option, none, some, ltb, if_cases}
use cast_mirror.Prelude.Int.{ℤ, pos, ltb_ℤ}
use cast_mirror.Stream.{QualityPreset, auto, high, balanced, smooth, game, cinema}
use cast_mirror.Config.{AppConfig}
use cast_mirror.Config.Limits.{IsValid, validate, validate_id, clamp_ℤ, clamp, valid_fps}
use cast_mirror.Config.Files.{Files, Saved, Outcomes, JsonText, save}
use cast_mirror.Config.Options.{
  CaptureSource, SessionOptions, set_preset_bitrate_kbps, no_overrides, build_session_options,
  preset_delay,
}
use cast_mirror.Engine.{Discovery, CastDevice, CastEngine, keep_options, keep_bitrate}
use cast_mirror.Engine.Calls.{
  launch, stop_active, correct_port, release, detach, stop_detached, keep_settings, release_active,
  register, is_held,
}

-- What a user sees set for a session, apart from the bitrates.
pub record Shown : Type 0 where
  pub quality_preset : QualityPreset
  pub audio_enabled : Bool
  pub target_delay_ms : ℤ
  pub capture_fps : ℤ
  pub audio_bitrate_bps : ℕ
  pub silence_host_speakers : Bool

abbrev pub shown : AppConfig → Shown
shown cfg = record {
  quality_preset = cfg.quality_preset;
  audio_enabled = cfg.audio_enabled;
  target_delay_ms = cfg.target_delay_ms;
  capture_fps = cfg.capture_fps;
  audio_bitrate_bps = cfg.audio_bitrate_bps;
  silence_host_speakers = cfg.silence_host_speakers;
}

shown-set :
    (preset : QualityPreset) (kbps : ℕ) (cfg : AppConfig)
    → shown (record (set_preset_bitrate_kbps cfg preset kbps) { max_bitrate_kbps = kbps })
      ≡ shown cfg
unfolding set_preset_bitrate_kbps
shown-set auto kbps cfg = refl
shown-set high kbps cfg = refl
shown-set balanced kbps cfg = refl
shown-set smooth kbps cfg = refl
shown-set game kbps cfg = refl
shown-set cinema kbps cfg = refl

shown-keep_bitrate :
    (options : SessionOptions) (cfg : AppConfig) → shown (keep_bitrate options cfg) ≡ shown cfg
unfolding keep_bitrate
shown-keep_bitrate options cfg =
    if_cases {A = AppConfig} (λ c. shown c ≡ shown cfg) (ltb 0 options.video_bitrate_kbps) _ _
      (shown-set options.preset options.video_bitrate_kbps cfg) refl

-- `Validate`, on what is shown.
abbrev shown_valid : Shown → Shown
shown_valid s = record s {
  target_delay_ms = clamp_ℤ s.target_delay_ms (pos 100) (pos 400);
  capture_fps = valid_fps s.capture_fps;
  audio_bitrate_bps = clamp s.audio_bitrate_bps 64000 256000;
}

shown-validate : (cfg : AppConfig) → shown (validate cfg) ≡ shown_valid (shown cfg)
unfolding validate
shown-validate cfg = refl

shown_valid_id : (cfg : AppConfig) → IsValid cfg → shown_valid (shown cfg) ≡ shown cfg
shown_valid_id cfg v = sym (shown-validate cfg) ∙ ap shown (validate_id cfg v)

abbrev pub plain_options : AppConfig → Option CaptureSource → SessionOptions
plain_options cfg source = build_session_options cfg (record no_overrides { source = source })

abbrev pub game_options : AppConfig → SessionOptions
game_options cfg = build_session_options cfg (record no_overrides { preset = some game })

module _ (d : Discovery) (json : JsonText) where
  shown-save :
      (o : Outcomes json.Text) (cfg : AppConfig) (files : Files json.Text) (s : Shown)
      → shown cfg ≡ s
      → shown_valid s ≡ s
      → shown (save json o cfg files).config ≡ s
  unfolding save
  shown-save o cfg files s k v =
      if_cases {A = Saved json.Text} (λ r. shown r.config ≡ s) o.makes_dir _ _
        (shown-validate cfg ∙ ap shown_valid k ∙ v) k

  shown-keep_options :
      (dev : CastDevice) (display_id : ℤ) (source : Option CaptureSource) (cfg : AppConfig)
      → preset_delay cfg.quality_preset cfg.target_delay_ms ≡ cfg.target_delay_ms
      → shown (keep_options dev display_id (plain_options cfg source) cfg) ≡ shown cfg
  unfolding keep_options build_session_options
  shown-keep_options dev display_id source cfg delay =
      shown-keep_bitrate (plain_options cfg source) _ ∙ (λ i. record (shown cfg) {
        target_delay_ms =
            if_cases {A = ℤ} (λ t. t ≡ cfg.target_delay_ms)
              (ltb_ℤ (pos 0) (preset_delay cfg.quality_preset cfg.target_delay_ms)) _ _ delay refl
              i;
      })

  config-release : (id : ℕ) (e : CastEngine d json.Text) → (release d json id e).config ≡ e.config
  unfolding release
  config-release id e =
      if_cases {A = CastEngine d json.Text} (λ r. r.config ≡ e.config) _ _ _ refl refl

  config-stop_detached :
      (previous : Option ℕ) (e : CastEngine d json.Text)
      → (stop_detached d json previous e).config ≡ e.config
  unfolding stop_detached
  config-stop_detached none e = refl
  config-stop_detached (some id) e = config-release id _

  config-release_active :
      (active : Option ℕ) (e : CastEngine d json.Text)
      → (release_active d json active e).config ≡ e.config
  unfolding release_active
  config-release_active none e = refl
  config-release_active (some id) e =
      if_cases {A = CastEngine d json.Text} (λ r. r.config ≡ e.config) (is_held id e.held) _ _ refl
        refl

  pub config-launch :
      (o : Outcomes json.Text) (found : CastDevice) (display_id : ℤ) (options : SessionOptions)
      (e : CastEngine d json.Text)
      → (launch d json o found display_id options e).config
        ≡ (save json o
            (keep_options (correct_port d json found e.discovery).0 display_id options e.config)
            e.files).config
  unfolding launch keep_settings stop_active detach register
  config-launch o found display_id options e =
      let kept = keep_settings d json o found display_id options e in
      config-release_active _ _ ∙ config-stop_detached kept.active_session (detach d json kept)

  -- Starting a cast on any source with the options built from valid settings, without other overrides, leaves the preset, the
  -- sound switches, the delay, the frame rate and the sound's bitrate as they were set, where the preset has no delay of its own
  -- or it is the one that is set.
  pub shown-launch :
      (o : Outcomes json.Text) (found : CastDevice) (display_id : ℤ) (source : Option CaptureSource)
      (e : CastEngine d json.Text)
      → IsValid e.config
      → preset_delay e.config.quality_preset e.config.target_delay_ms ≡ e.config.target_delay_ms
      → shown (launch d json o found display_id (plain_options e.config source) e).config
        ≡ shown e.config
  shown-launch o found display_id source e v delay =
      ap shown (config-launch o found display_id (plain_options e.config source) e)
      ∙ shown-save o _ e.files (shown e.config)
          (shown-keep_options _ display_id source e.config delay) (shown_valid_id e.config v)

  game_delay-save :
      (o : Outcomes json.Text) (cfg : AppConfig) (files : Files json.Text)
      → cfg.target_delay_ms ≡ pos 150
      → (save json o cfg files).config.target_delay_ms ≡ pos 150
  unfolding save validate clamp_ℤ
  game_delay-save o cfg files k =
      if_cases {A = Saved json.Text} (λ r. r.config.target_delay_ms ≡ pos 150) o.makes_dir _ _
        (ap (λ x. clamp_ℤ x (pos 100) (pos 400)) k) k

  -- A cast with the Game preset and no other overrides leaves its delay of 150 ms in the settings, whatever they were: a session with
  -- the Auto preset that is built from them has it too.
  pub game_delay_stays :
      (o : Outcomes json.Text) (found : CastDevice) (display_id : ℤ) (e : CastEngine d json.Text)
      → (build_session_options
          (launch d json o found display_id (game_options e.config) e).config
          (record no_overrides { preset = some auto })).target_delay_ms
        ≡ pos 150
  unfolding build_session_options preset_delay keep_options
  game_delay_stays o found display_id e =
      ap (λ c. c.target_delay_ms) (config-launch o found display_id (game_options e.config) e)
      ∙ game_delay-save o _ e.files
          (ap (λ s. s.target_delay_ms) (shown-keep_bitrate (game_options e.config) _))
