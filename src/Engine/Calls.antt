-- ===== src/Engine/Calls.antt =====
-- core/src/cast_engine.cc: the engine's calls.
use Prim.Native.String.{String, ◌++◌ as ◌<>◌}
use cast_mirror.Prelude.{
  ℕ, suc, Bool, true, false, ◌==◌, ◌||◌, List, [], ◌∷◌, Option, none, some, if◌then◌else◌,
}
use cast_mirror.Prelude.Int.{ℤ}
use cast_mirror.Stream.{QualityPreset}
use cast_mirror.Config.{AppConfig}
use cast_mirror.Config.Files.{Outcomes, JsonText, save}
use cast_mirror.Config.Options.{
  CaptureSource, SessionOptions, set_preset_bitrate_kbps, no_overrides, build_session_options,
}
use cast_mirror.Engine.{
  CastDevice, Discovery, SessionCall, start, stop, set_live_video_bitrate_kbps,
  set_live_audio_bitrate_bps, remembered_device, has_stale_port, keep_options, CastEngine,
}

abbrev pub is_active_session : ℕ → Option ℕ → Bool
is_active_session id none = false
is_active_session id (some active) = active == id

unfoldable pub is_held : ℕ → List ℕ → Bool
is_held id [] = false
is_held id (j ∷ ids) = j == id || is_held id ids

-- One reference less.
unfoldable pub drop_one : ℕ → List ℕ → List ℕ
drop_one id [] = []
drop_one id (j ∷ ids) = let rest = drop_one id ids in if j == id then ids else j ∷ rest

abbrev pub hold : Option ℕ → List ℕ → List ℕ
hold none ids = ids
hold (some id) ids = id ∷ ids

module _ (d : Discovery) (json : JsonText) where
  -- `ConfigStore::Save`, after a change of the settings.
  abbrev pub save_settings :
      Outcomes json.Text → AppConfig → CastEngine d json.Text → CastEngine d json.Text
  save_settings o cfg e =
      let saved = save json o cfg e.files in record e { config = saved.config; files = saved.files }

  -- A call of the session that is active, if one is.
  unfoldable pub call_session :
      Option ℕ → SessionCall → CastEngine d json.Text → CastEngine d json.Text
  call_session none c e = e
  call_session (some id) c e = record e { calls = (id, c) ∷ e.calls }

  unfoldable pub call_active : SessionCall → CastEngine d json.Text → CastEngine d json.Text
  call_active c e = call_session e.active_session c e

  -- A call drops its reference; the last one to a session ends it, by a destructor that calls `Stop`.
  unfoldable pub release : ℕ → CastEngine d json.Text → CastEngine d json.Text
  release id e =
      let held = drop_one id e.held in
      if is_held id held || is_active_session id e.active_session
      then record e { held = held }
      else record e { held = held; calls = (id, stop) ∷ e.calls }

  -- `std::move(active_session_)` under the lock, and what it gives.
  unfoldable pub detach : CastEngine d json.Text → CastEngine d json.Text
  detach e = record e { active_session = none; held = hold e.active_session e.held }

  unfoldable pub stop_detached : Option ℕ → CastEngine d json.Text → CastEngine d json.Text
  stop_detached none e = e
  stop_detached (some id) e = release id (record e { calls = (id, stop) ∷ e.calls })

  -- The two, where nothing comes between.
  unfoldable pub stop_active : CastEngine d json.Text → CastEngine d json.Text
  stop_active e = stop_detached e.active_session (detach e)

  -- The device that a start is for, and the discovery with it.
  unfoldable pub find_target : Bool → AppConfig → String → d.State → Option CastDevice × d.State
  find_target is_ipv4 cfg device_id s = elim (d.find_device_by_id device_id s) [
    | some dev ↦ (some dev, s)
    | none ↦ elim (d.find_device_by_ip device_id s) [
      | some dev ↦ (some dev, s)
      | none ↦ elim (remembered_device is_ipv4 cfg device_id) [
        | some dev ↦ (some dev, d.add_or_update_device dev s)
        | none ↦ (none, s)
      ]
    ]
  ]

  unfoldable pub correct_port : CastDevice → d.State → CastDevice × d.State
  correct_port dev s =
      if has_stale_port dev
      then (record dev { port = 8009 }, d.add_or_update_device (record dev { port = 8009 }) s)
      else (dev, s)

  -- The settings of a session are kept.
  unfoldable pub keep_settings :
      Outcomes json.Text
      → CastDevice
      → ℤ
      → SessionOptions
      → CastEngine d json.Text
      → CastEngine d json.Text
  keep_settings o found display_id options e =
      let (dev, s) = correct_port found e.discovery in
      save_settings o (keep_options dev display_id options e.config) (record e { discovery = s })

  -- The reference that a new session takes the place of is dropped.
  unfoldable pub release_active : Option ℕ → CastEngine d json.Text → CastEngine d json.Text
  release_active none e = e
  release_active (some id) e =
      if is_held id e.held
      then record e { active_session = none }
      else record e { active_session = none; calls = (id, stop) ∷ e.calls }

  -- A new session becomes the active one, and its `Start` is called.
  unfoldable pub register :
      CastDevice → ℤ → SessionOptions → CastEngine d json.Text → CastEngine d json.Text
  register dev display_id options e =
      let over = release_active e.active_session e in
      record over {
        session_logging = true;
        last_error = "";
        active_session = some over.started;
        started = suc over.started;
        calls = (over.started, start dev display_id options) ∷ over.calls;
        held = over.started ∷ over.held;
      }

  -- From the device that was found to the call of `Start`, where no other call comes between.
  unfoldable pub launch :
      Outcomes json.Text
      → CastDevice
      → ℤ
      → SessionOptions
      → CastEngine d json.Text
      → CastEngine d json.Text
  launch o found display_id options e =
      let dev = (correct_port found e.discovery).0 in
      register dev display_id options (stop_active (keep_settings o found display_id options e))

  -- The rest, with the number of the session if a device was found.
  unfoldable pub begin_target :
      Option CastDevice
      → Outcomes json.Text
      → String
      → ℤ
      → SessionOptions
      → CastEngine d json.Text
      → CastEngine d json.Text × Option ℕ
  begin_target none o device_id display_id options e = (
    record e {
      last_error =
          "Target device not found: " <> device_id
          <> ". Please verify the TV is online or add by IP.";
    },
    none,
  )
  begin_target (some found) o device_id display_id options e =
      (launch o found display_id options e, some e.started)

  -- `StartCasting` up to the call of `Start`.
  unfoldable pub begin_casting :
      Bool
      → Outcomes json.Text
      → String
      → ℤ
      → SessionOptions
      → CastEngine d json.Text
      → CastEngine d json.Text × Option ℕ
  begin_casting is_ipv4 o device_id display_id options e =
      let (target, s) = find_target is_ipv4 e.config device_id e.discovery in
      begin_target target o device_id display_id options (record e { discovery = s })

  -- What `StartCasting` does with the result of `Start`, up to its return.
  unfoldable pub end_casting : ℕ → Bool → CastEngine d json.Text → CastEngine d json.Text
  end_casting id true e = release id e
  end_casting id false e =
      let over = record e { failed = id ∷ e.failed } in
      release id (
        if is_active_session id e.active_session
        then record over { active_session = none; session_logging = false }
        else over)

  -- The overload with a source.
  abbrev pub begin_casting_source :
      Bool
      → Outcomes json.Text
      → String
      → CaptureSource
      → SessionOptions
      → CastEngine d json.Text
      → CastEngine d json.Text × Option ℕ
  begin_casting_source is_ipv4 o device_id source options =
      begin_casting is_ipv4 o device_id source.id (record options { source = some source })

  -- The overload for callers that know a preset, audio and a bitrate.
  abbrev pub begin_casting_preset :
      Bool
      → Outcomes json.Text
      → String
      → ℤ
      → QualityPreset
      → Bool
      → ℕ
      → CastEngine d json.Text
      → CastEngine d json.Text × Option ℕ
  begin_casting_preset is_ipv4 o device_id display_id preset audio_enabled bitrate_kbps e =
      begin_casting is_ipv4 o device_id display_id
        (build_session_options e.config (record no_overrides {
          preset = some preset;
          enable_audio = some audio_enabled;
          video_bitrate_kbps = some bitrate_kbps;
        }))
        e

  unfoldable pub stop_casting : CastEngine d json.Text → CastEngine d json.Text
  stop_casting e = record (stop_active e) { session_logging = false }

  -- `Initialize` with what `Load` makes of the settings, and `Shutdown`.
  unfoldable pub initialize_engine : AppConfig → CastEngine d json.Text → CastEngine d json.Text
  initialize_engine loaded e =
      if e.is_initialized then e else record e { config = loaded; is_initialized = true }

  unfoldable pub shutdown : Outcomes json.Text → CastEngine d json.Text → CastEngine d json.Text
  shutdown o e =
      let quiet = stop_casting (record e { is_initialized = false }) in
      if e.is_initialized then save_settings o quiet.config quiet else e

  unfoldable pub set_live_video :
      Outcomes json.Text → ℕ → CastEngine d json.Text → CastEngine d json.Text
  set_live_video o kbps e =
      let cfg = set_preset_bitrate_kbps e.config e.config.quality_preset kbps in
      save_settings o (record cfg { max_bitrate_kbps = kbps })
        (call_active (set_live_video_bitrate_kbps kbps) e)

  unfoldable pub set_live_audio :
      Outcomes json.Text → ℕ → CastEngine d json.Text → CastEngine d json.Text
  set_live_audio o bps e =
      let cfg = e.config in
      save_settings o (record cfg { audio_bitrate_bps = bps })
        (call_active (set_live_audio_bitrate_bps bps) e)
