-- ===== src/Engine/Windows.antt =====
-- A window that was cast, and the next cast to the last device.
use Prim.Native.String.{String}
use text.Mathlib.Text.{◌==◌ as ◌=ₛ◌}
use cast_mirror.Prelude.{
  ℕ, Bool, Option, none, ◌≡◌, refl, ap, ◌∙◌, false, List, [], ◌∷◌, All, some, ltb, if_cases,
}
use cast_mirror.Prelude.Int.{ℤ}
use cast_mirror.Stream.{QualityPreset, auto, high, balanced, smooth, game, cinema}
use cast_mirror.Config.{AppConfig}
use cast_mirror.Config.Limits.{validate, valid_kind}
use cast_mirror.Config.Files.{Files, Saved, Outcomes, JsonText, save}
use cast_mirror.Config.Options.{CaptureSource, SessionOptions, window, set_preset_bitrate_kbps}
use cast_mirror.Engine.{
  Discovery, CastDevice, CastEngine, keep_options, keep_bitrate, kind_to_string, kind_from_string,
  display_source,
}
use cast_mirror.Engine.Calls.{
  launch, find_target, begin_target, begin_casting, begin_casting_source,
}
use cast_mirror.Engine.Settings.{config-launch}
use cast_mirror.Engine.LastDevice.{WindowInfo, last_source, recalled_source, last_window}

-- What the settings say of the last source.
record Recalled : Type 0 where
  last_display_id : ℤ
  last_source_kind : String
  last_source_name : String

abbrev recalled : AppConfig → Recalled
recalled cfg = record {
  last_display_id = cfg.last_display_id;
  last_source_kind = cfg.last_source_kind;
  last_source_name = cfg.last_source_name;
}

recalled-set :
    (preset : QualityPreset) (kbps : ℕ) (cfg : AppConfig)
    → recalled (record (set_preset_bitrate_kbps cfg preset kbps) { max_bitrate_kbps = kbps })
      ≡ recalled cfg
unfolding set_preset_bitrate_kbps
recalled-set auto kbps cfg = refl
recalled-set high kbps cfg = refl
recalled-set balanced kbps cfg = refl
recalled-set smooth kbps cfg = refl
recalled-set game kbps cfg = refl
recalled-set cinema kbps cfg = refl

recalled-keep_bitrate :
    (options : SessionOptions) (cfg : AppConfig)
    → recalled (keep_bitrate options cfg) ≡ recalled cfg
unfolding keep_bitrate
recalled-keep_bitrate options cfg =
    if_cases {A = AppConfig} (λ c. recalled c ≡ recalled cfg) (ltb 0 options.video_bitrate_kbps) _ _
      (recalled-set options.preset options.video_bitrate_kbps cfg) refl

recalled-validate :
    (cfg : AppConfig) (r : Recalled)
    → recalled cfg ≡ r
    → valid_kind r.last_source_kind ≡ r.last_source_kind
    → recalled (validate cfg) ≡ r
unfolding validate
recalled-validate cfg r e k = λ i. record {
  last_display_id = (e i).last_display_id;
  last_source_kind = (ap (λ q. valid_kind q.last_source_kind) e ∙ k) i;
  last_source_name = (e i).last_source_name;
}

-- No window has that title.
abbrev pub IsGone : String → List WindowInfo → Type 0
IsGone name = All (λ w. (w.title =ₛ name) ≡ false)

last_window-gone :
    (name : String) (display_id : ℤ) (windows : List WindowInfo)
    → IsGone name windows
    → last_window name display_id windows ≡ display_source display_id
unfolding last_window
last_window-gone name display_id [] h = refl
last_window-gone name display_id (w ∷ ws) (e, h) = rw e (last_window-gone name display_id ws h)

abbrev window_settings : CaptureSource → Recalled
window_settings source = record {
  last_display_id = source.id;
  last_source_kind = "window";
  last_source_name = source.name;
}

gone-last_source :
    (cfg : AppConfig) (source : CaptureSource) (windows : List WindowInfo)
    → recalled cfg ≡ window_settings source
    → (source.name =ₛ "") ≡ false
    → IsGone source.name windows
    → last_source cfg windows ≡ some (display_source source.id)
unfolding last_source recalled_source
gone-last_source cfg source windows e named gone =
    ap
      (λ r.
        recalled_source (kind_from_string r.last_source_kind) r.last_source_name
          (last_window r.last_source_name r.last_display_id windows))
      e
    ∙ rw named (ap some (last_window-gone source.name source.id windows gone))

abbrev pub window_options : SessionOptions → CaptureSource → SessionOptions
window_options options source = record options { source = some source }

module _ (d : Discovery) (json : JsonText) where
  recalled-save :
      (o : Outcomes json.Text) (cfg : AppConfig) (files : Files json.Text) (source : CaptureSource)
      → recalled cfg ≡ window_settings source
      → recalled (save json o cfg files).config ≡ window_settings source
  unfolding save valid_kind
  recalled-save o cfg files source e =
      if_cases {A = Saved json.Text} (λ r. recalled r.config ≡ window_settings source) o.makes_dir _
        _ (recalled-validate cfg (window_settings source) e refl) e

  recalled-launch :
      (o : Outcomes json.Text) (found : CastDevice) (options : SessionOptions)
      (source : CaptureSource) (e : CastEngine d json.Text)
      → source.kind ≡ window
      → recalled (launch d json o found source.id (window_options options source) e).config
        ≡ window_settings source
  unfolding keep_options
  recalled-launch o found options source e k =
      ap recalled (config-launch d json o found source.id (window_options options source) e)
      ∙ recalled-save o _ e.files source (
          recalled-keep_bitrate (window_options options source) _
          ∙ (λ i. record (window_settings source) { last_source_kind = kind_to_string (k i) }))

  launched_window-last_source :
      (o : Outcomes json.Text) (found : CastDevice) (options : SessionOptions)
      (source : CaptureSource) (e : CastEngine d json.Text) (windows : List WindowInfo)
      → source.kind ≡ window
      → (source.name =ₛ "") ≡ false
      → IsGone source.name windows
      → last_source
          (launch d json o found source.id (window_options options source) e).config
          windows
        ≡ some (display_source source.id)
  launched_window-last_source o found options source e windows k named gone =
      gone-last_source _ source windows (recalled-launch o found options source e k) named gone

  from_target :
      (target : Option CastDevice) (o : Outcomes json.Text) (device_id : String)
      (options : SessionOptions) (source : CaptureSource) (e : CastEngine d json.Text)
      (windows : List WindowInfo) (id : ℕ)
      → (begin_target d json target o device_id source.id (window_options options source) e).1
        ≡ some id
      → source.kind ≡ window
      → (source.name =ₛ "") ≡ false
      → IsGone source.name windows
      → last_source
          (begin_target d json target o device_id source.id
            (window_options options source)
            e).0.config
          windows
        ≡ some (display_source source.id)
  unfolding begin_target
  from_target none o device_id options source e windows id started k named gone = absurd (cc)
  from_target (some found) o device_id options source e windows id started k named gone =
      launched_window-last_source o found options source e windows k named gone

  -- The start of a cast of a window with a name, by `StartCasting` with a source and any other options, leaves the
  -- window's number as the display to fall back to, where a device was found and a session starts: where no window has
  -- that name any more, the next cast to the last device takes the display of that number for its source.
  pub gone_window-last_source :
      (is_ipv4 : Bool) (o : Outcomes json.Text) (device_id : String) (source : CaptureSource)
      (options : SessionOptions) (e : CastEngine d json.Text) (windows : List WindowInfo) (id : ℕ)
      → (begin_casting_source d json is_ipv4 o device_id source options e).1 ≡ some id
      → source.kind ≡ window
      → (source.name =ₛ "") ≡ false
      → IsGone source.name windows
      → last_source
          (begin_casting_source d json is_ipv4 o device_id source options e).0.config
          windows
        ≡ some (display_source source.id)
  unfolding begin_casting begin_target
  gone_window-last_source is_ipv4 o device_id source options e windows id started k named gone =
      let (target, s) = find_target d json is_ipv4 e.config device_id e.discovery in
      from_target target o device_id options source (record e { discovery = s }) windows id started
        k named gone
