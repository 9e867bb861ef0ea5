-- ===== src/Engine/Sessions.antt =====
-- The sessions that an engine starts, over any calls of it.
use Prim.Native.String.{String}
use cast_mirror.Prelude.{ℕ, Bool, List, [], ◌∷◌, Option, none}
use cast_mirror.Prelude.Int.{ℤ}
use cast_mirror.Config.{AppConfig}
use cast_mirror.Config.Files.{Outcomes, JsonText}
use cast_mirror.Config.Options.{SessionOptions}
use cast_mirror.Engine.{
  CastDevice, Discovery, set_stream_frozen, set_audio_muted, set_adaptive_resolution_change_allowed,
  set_playout_delay_ms, CastEngine,
}
use cast_mirror.Engine.Calls.{
  detach, stop_detached, keep_settings, register, call_active, begin_casting, end_casting,
  stop_casting, initialize_engine, shutdown, set_live_video, set_live_audio,
}
use cast_mirror.Engine.LastDevice.{WindowInfo, begin_casting_last}
use cast_mirror.Engine.Accounts.{AllAccounted}

-- What threads call of the engine, at any times, whole or by the steps that `StartCasting` and `StopCasting` consist of:
-- the settings are kept, the session is detached, the one that was detached is stopped, and a new one is registered.
-- `ended` is the return of a session's `Start`.
pub data Call (Text : Type 0) : Type 0 where
  begin : Bool → Outcomes Text → String → ℤ → SessionOptions → Call Text
  keep : Outcomes Text → CastDevice → ℤ → SessionOptions → Call Text
  detached : Call Text
  stopped : Option ℕ → Call Text
  registered : CastDevice → ℤ → SessionOptions → Call Text
  begin_last : Bool → Outcomes Text → List WindowInfo → Call Text
  ended : ℕ → Bool → Call Text
  stop_all : Call Text
  init : AppConfig → Call Text
  shut : Outcomes Text → Call Text
  live_video live_audio : Outcomes Text → ℕ → Call Text
  freeze mute allow_resolution : Bool → Call Text
  playout_delay : ℤ → Call Text

module _ (d : Discovery) (json : JsonText) where
  unfoldable pub call : CastEngine d json.Text → Call json.Text → CastEngine d json.Text
  call e (begin is_ipv4 o id display options) =
      (begin_casting d json is_ipv4 o id display options e).0
  call e (keep o found display options) = keep_settings d json o found display options e
  call e detached = detach d json e
  call e (stopped previous) = stop_detached d json previous e
  call e (registered dev display options) = register d json dev display options e
  call e (begin_last is_ipv4 o windows) = (begin_casting_last d json is_ipv4 o windows e).0
  call e (ended id ok) = end_casting d json id ok e
  call e stop_all = stop_casting d json e
  call e (init loaded) = initialize_engine d json loaded e
  call e (shut o) = shutdown d json o e
  call e (live_video o kbps) = set_live_video d json o kbps e
  call e (live_audio o bps) = set_live_audio d json o bps e
  call e (freeze b) = call_active d json (set_stream_frozen b) e
  call e (mute b) = call_active d json (set_audio_muted b) e
  call e (allow_resolution b) = call_active d json (set_adaptive_resolution_change_allowed b) e
  call e (playout_delay ms) = call_active d json (set_playout_delay_ms ms) e

  unfoldable pub run : CastEngine d json.Text → List (Call json.Text) → CastEngine d json.Text
  run e [] = e
  run e (c ∷ cs) = run (call e c) cs

  abbrev pub IsRegistered : CastEngine d json.Text → Type 0
  IsRegistered e = AllAccounted e.active_session e.started e.calls e.failed e.held

  -- No session is active, whatever the field says.
  abbrev NoneActive : CastEngine d json.Text → Type 0
  NoneActive e = AllAccounted none e.started e.calls e.failed e.held
