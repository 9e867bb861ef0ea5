-- ===== src/Config/Reloading.antt =====
-- Loading what was saved, and the settings that any document gives.
use cast_mirror.Prelude.{◌≡◌, refl, sym, ap, ◌∙◌, inl, inr, true, some, arith, if_cases, never}
use cast_mirror.Config.{Json, VideoCodec, AppConfig}
use cast_mirror.Config.Limits.{IsValid, validate, validate-IsValid, validate_id, valid_schema}
use cast_mirror.Config.Document.{from_json}
use cast_mirror.Config.Written.{to_json}
use cast_mirror.Config.Reading.{reparsed, Fits, reloaded}
use cast_mirror.Config.RoundTrip.{document_back}
use cast_mirror.Config.Files.{
  content, IsWritten, found, Files, Outcomes, Saved, JsonText, load, save, Replaces, save-IsWhole,
}

module _ (json : JsonText) where
  config-save :
      (o : Outcomes json.Text) (cfg : AppConfig) (files : Files json.Text)
      → (save json o cfg files).result ≡ true
      → (save json o cfg files).config ≡ validate cfg
  unfolding save
  config-save o cfg files =
      if_cases {A = Saved json.Text} (λ s. s.result ≡ true → s.config ≡ validate cfg) o.makes_dir _
        _ (λ _. refl) (λ h. never refl h)

  save-IsWritten :
      (o : Outcomes json.Text) (cfg : AppConfig) (files : Files json.Text)
      → Replaces o
      → (save json o cfg files).result ≡ true
      → IsWritten (json.dump (to_json (validate cfg))) (save json o cfg files).files
  save-IsWritten o cfg files r done = elim (save-IsWhole json o cfg files r) [
    | inl written ↦ written
    | inr (_, undone) ↦ never undone done
  ]

  -- A parser that gives every document that was written back, with its integers without a sign as unsigned.
  abbrev pub ReadsBack : Type 0
  ReadsBack = (j : Json) (t : json.Text) → json.dump j ≡ some t → json.parse t ≡ some (reparsed j)

  pub validate-Fits : (cfg : AppConfig) → Fits cfg → Fits (validate cfg)
  unfolding validate valid_schema
  validate-Fits cfg f = record {
    last_display_id = f.last_display_id;
    last_source_id = f.last_source_id;
    schema_version = ground (arith, f.schema_version);
    device_profiles = f.device_profiles;
  }

  reloaded-IsValid :
      (cfg : AppConfig) (codec : VideoCodec) → IsValid cfg → IsValid (reloaded cfg codec)
  reloaded-IsValid cfg codec v = record {
    reconnect_window_s = v.reconnect_window_s;
    bitrate_kbps_auto = v.bitrate_kbps_auto;
    bitrate_kbps_high = v.bitrate_kbps_high;
    bitrate_kbps_balanced = v.bitrate_kbps_balanced;
    bitrate_kbps_smooth = v.bitrate_kbps_smooth;
    bitrate_kbps_game = v.bitrate_kbps_game;
    bitrate_kbps_cinema = v.bitrate_kbps_cinema;
    max_bitrate_kbps = v.max_bitrate_kbps;
    capture_fps = v.capture_fps;
    target_delay_ms = v.target_delay_ms;
    window_width = v.window_width;
    window_height = v.window_height;
    launch_timeout_s = v.launch_timeout_s;
    answer_timeout_s = v.answer_timeout_s;
    audio_bitrate_bps = v.audio_bitrate_bps;
    schema_version = omega arith;
    last_source_kind = v.last_source_kind;
    adaptive_enabled = v.adaptive_enabled;
    low_latency_mode = v.low_latency_mode;
  }

  load_text :
      (t : json.Text) (j : Json) (cfg : AppConfig)
      → json.parse t ≡ some j
      → load json (content t) cfg ≡ (validate (from_json j cfg), true)
  unfolding load
  load_text t j cfg e = rw (load, e) refl

  -- With such a parser, where a save of settings whose integers fit their types returns true, and the rename or the copy
  -- worked, loading the file over any settings returns true and gives the saved settings again, except that the preferred
  -- codecs, which are not written, are those of the settings before and of a new profile, and that the schema is the current
  -- one.
  pub load-save :
      (o : Outcomes json.Text) (cfg before : AppConfig) (files : Files json.Text)
      → ReadsBack
      → Replaces o
      → Fits cfg
      → (save json o cfg files).result ≡ true
      → load json (found (save json o cfg files).files.target) before
        ≡ (reloaded (save json o cfg files).config before.preferred_video_codec, true)
  load-save o cfg before files reads r f done =
      let (t, dumped, there) = save-IsWritten o cfg files r done in
      let codec = before.preferred_video_codec in
      let v = validate-IsValid cfg in
      ap (λ x. load json (found x) before) there
      ∙ load_text t _ before (reads _ t dumped)
      ∙ ap (λ c. (validate c, true)) (document_back _ before v (validate-Fits cfg f))
      ∙ ap (λ c. (c, true)) (validate_id _ (reloaded-IsValid _ codec v))
      ∙ ap (λ c. (reloaded c codec, true)) (sym (config-save o cfg files done))
