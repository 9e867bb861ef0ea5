-- ===== src/Client/Tests.antt =====
-- Witnesses.
use cast_mirror.Prelude.{ℕ, ◌≡◌, List, [], ◌∷◌, Option, none, some, arith, true, false}
use cast_mirror.Prelude.Int.{pos}
use cast_mirror.Config.{Json, null, AppConfig, default_config}
use cast_mirror.Config.Limits.{validate, validate-IsValid}
use cast_mirror.Config.Document.{members}
use cast_mirror.Config.Reading.{reparsed}
use cast_mirror.Config.Files.{JsonText, Outcomes, copied}
use cast_mirror.Engine.{Discovery}
use cast_mirror.Client.{
  Client, build_config_json, merge_config_json, castmirror_get_config_json, cached_or_built,
  json_out_size_hint,
}
use cast_mirror.Client.Merging.{with_client_settings, merge_config_json-build_config_json}
use cast_mirror.Client.Buffers.{bitrate, writes, get, get_after_query}

abbrev edited : AppConfig
edited = record default_config {
  target_delay_ms = pos 4;
  ui_theme = "dark";
  bitrate_kbps_high = 400;
}

merge_config_json-build_config_json_example :
    merge_config_json (members (reparsed (build_config_json (validate edited)))) default_config
    ≡ with_client_settings (validate edited) default_config
merge_config_json-build_config_json_example =
    merge_config_json-build_config_json (validate edited) default_config (validate-IsValid edited)

abbrev plain : JsonText
plain = record { Text = Json; empty = null; parse = λ j. some (reparsed j); dump = λ j. some j }

abbrev nowhere : Discovery
nowhere = record {
  State = Unit {0};
  find_device_by_id = λ id s. none;
  find_device_by_ip = λ ip s. none;
  add_or_update_device = λ dev s. s;
}

abbrev written : Json → List ℕ
written j = 123 ∷ 125 ∷ []

abbrev unread : List ℕ → Option Json
unread bytes = none

abbrev client : Client nowhere plain written unread
client = record {
  engine = record {
    config = default_config;
    files = record { target = none; backup = none; tmp = none };
    discovery = tt;
    is_initialized = true;
    active_session = none;
    session_logging = false;
    last_error = "";
    started = 0;
    calls = [];
    failed = [];
    held = [];
  };
  cache = none;
}

abbrev working : Outcomes Json
working = record {
  makes_dir = true;
  opens = true;
  partial = none;
  backs_up = copied;
  renames = true;
  copies = copied;
  removes = true;
}

get_after_query_example :
    (get nowhere plain written unread 8192 (
      writes nowhere plain written unread
        (get nowhere plain written unread 0 client).1
        (bitrate working 6000 ∷ []))).0
    ≡ (123 ∷ 125 ∷ 0 ∷ [], 2)
unfolding castmirror_get_config_json cached_or_built json_out_size_hint
get_after_query_example =
    get_after_query nowhere plain written unread client (bitrate working 6000 ∷ []) 8192
      (omega arith)
