-- ===== src/Config/Loaded.antt =====
-- What any document, written by anyone, makes of the settings.
use Prim.Native.String.{String}
use text.Mathlib.Text.{◌==◌ as ◌=ₛ◌}
use cast_mirror.Prelude.{
  ℕ, ◌+◌, ◌-◌, ◌<◌, ◌≤◌, ◌⊎◌, Option, some, ◌≡◌, refl, inl, inr, false, List, [], ◌∷◌, arith,
  if_branches, if_cases, Option-cases,
}
use cast_mirror.Prelude.Int.{ℤ, pos, negsuc, ◌≤ℤ◌}
use cast_mirror.Config.{
  Json, null, other, boolean, number_integer, number_unsigned, string, object, Members, nil, member,
  AppConfig, DeviceProfile, assign, get_int64, config_read_int, config_read_u32,
}
use cast_mirror.Config.Limits.{validate, clamp_ℤ, IsBetween}
use cast_mirror.Config.Document.{
  from_json, find, members, read, read_fields, read_profile, read_profiles, read_device_profiles,
  migrate_source, lacks_source, from_display, migrated_auto, read_schema,
}
use cast_mirror.Config.Reading.{IsInt, IsU32, FitsProfile, AreProfiles, Fits, has}
use cast_mirror.Config.Reloading.{validate-Fits}
use cast_mirror.Config.Files.{Found, missing, unreadable, content, JsonText, load}

config_read_int-IsInt : (j : Json) (out : ℤ) → IsInt out → IsInt (config_read_int j out)
unfolding config_read_int
config_read_int-IsInt j out h = elim (Option-cases (get_int64 j)) [
  | inl e ↦ rw (config_read_int, e) h
  | inr (raw, e) ↦ rw (config_read_int, e) (ground arith)
]

config_read_u32-IsU32 : (j : Json) (out : ℕ) → IsU32 out → IsU32 (config_read_u32 j out)
unfolding config_read_u32
config_read_u32-IsU32 j out h = elim (Option-cases (get_int64 j)) [
  | inl e ↦ rw (config_read_u32, e) h
  | inr (negsuc n, e) ↦ rw (config_read_u32, e) h
  | inr (pos n, e) ↦ rw (config_read_u32, e) (ground arith)
]

read_keeps :
    {A : Type 0} (P : A → Type 0) (f : Json → A → A)
    → ((j : Json) (out : A) → P out → P (f j out))
    → (m : Members) (k : String) (out : A) → P out
    → P (read f m k out)
unfolding read
read_keeps P f keeps m k out h = elim (Option-cases (find k m)) [
  | inl e ↦ rw (read, e) h
  | inr (j, e) ↦ rw (read, e) (keeps j out h)
]

abbrev read_int-IsInt :
    (m : Members) (k : String) (out : ℤ) → IsInt out → IsInt (read config_read_int m k out)
read_int-IsInt = read_keeps IsInt config_read_int config_read_int-IsInt

read_profile-FitsProfile : (m : Members) → FitsProfile (read_profile m)
unfolding read_profile
read_profile-FitsProfile m = record {
  target_width = read_int-IsInt m _ _ (omega arith);
  target_height = read_int-IsInt m _ _ (omega arith);
  target_fps = read_int-IsInt m _ _ (omega arith);
  bitrate_kbps = read_keeps IsU32 config_read_u32 config_read_u32-IsU32 m _ _ (omega arith);
  target_delay_ms = read_int-IsInt m _ _ (omega arith);
}

-- Assigning a key that is new to `seen` keeps the entries fit and their keys apart.
assign-AreProfiles :
    (seen : List String) (k : String) (p : DeviceProfile) (m : List (String × DeviceProfile))
    → has k seen ≡ false
    → FitsProfile p
    → AreProfiles seen m
    → AreProfiles seen (assign k p m)
unfolding assign has
assign-AreProfiles seen k p [] new fits h = (new, fits, tt)
assign-AreProfiles seen k p ((j, q) ∷ m) new fits (new', fits', h) =
    if_branches (AreProfiles seen) (j =ₛ k) _ _ (λ _. (new', fits, h))
      (λ e. (new', fits', assign-AreProfiles (j ∷ seen) k p m (ground (arith, e, new)) fits h))

read_profiles-AreProfiles :
    (m : Members) (acc : List (String × DeviceProfile))
    → AreProfiles [] acc
    → AreProfiles [] (read_profiles m acc)
unfolding read_profiles has
read_profiles-AreProfiles nil acc h = h
read_profiles-AreProfiles (member k (object v) m) acc h =
    read_profiles-AreProfiles m _
      (assign-AreProfiles [] k _ acc refl (read_profile-FitsProfile v) h)
read_profiles-AreProfiles (member k null m) acc h = read_profiles-AreProfiles m acc h
read_profiles-AreProfiles (member k other m) acc h = read_profiles-AreProfiles m acc h
read_profiles-AreProfiles (member k (boolean b) m) acc h = read_profiles-AreProfiles m acc h
read_profiles-AreProfiles (member k (number_integer i) m) acc h = read_profiles-AreProfiles m acc h
read_profiles-AreProfiles (member k (number_unsigned n) m) acc h = read_profiles-AreProfiles m acc h
read_profiles-AreProfiles (member k (string s) m) acc h = read_profiles-AreProfiles m acc h

read_device_profiles-AreProfiles :
    (j : Json) (out : List (String × DeviceProfile))
    → AreProfiles [] out
    → AreProfiles [] (read_device_profiles j out)
unfolding read_device_profiles
read_device_profiles-AreProfiles (object m) out h = read_profiles-AreProfiles m [] tt
read_device_profiles-AreProfiles null out h = h
read_device_profiles-AreProfiles other out h = h
read_device_profiles-AreProfiles (boolean b) out h = h
read_device_profiles-AreProfiles (number_integer i) out h = h
read_device_profiles-AreProfiles (number_unsigned n) out h = h
read_device_profiles-AreProfiles (string s) out h = h

read_fields-Fits : (m : Members) (cfg : AppConfig) → Fits cfg → Fits (read_fields m cfg)
unfolding read_fields
read_fields-Fits m cfg f = record {
  last_display_id = read_int-IsInt m _ _ f.last_display_id;
  last_source_id = read_int-IsInt m _ _ f.last_source_id;
  schema_version = f.schema_version;
  device_profiles =
      read_keeps (AreProfiles []) read_device_profiles read_device_profiles-AreProfiles m _ _
        f.device_profiles;
}

migrate_source-Fits :
    (m : Members) (version : ℤ) (cfg : AppConfig) → Fits cfg → Fits (migrate_source m version cfg)
unfolding migrate_source from_display
migrate_source-Fits m version cfg f =
    if_cases Fits (lacks_source m version) (from_display cfg) cfg
      (record {
        last_display_id = f.last_display_id;
        last_source_id = f.last_display_id;
        schema_version = f.schema_version;
        device_profiles = f.device_profiles;
      })
      f

from_json-Fits : (j : Json) (cfg : AppConfig) → Fits cfg → Fits (from_json j cfg)
unfolding from_json
from_json-Fits j cfg f =
    let g = read_fields-Fits (members j) cfg f in
    let read_cfg = read_fields (members j) cfg in
    let h =
      migrate_source-Fits (members j) (read_schema (members j) cfg.schema_version)
        (record read_cfg {
          bitrate_kbps_auto = migrated_auto (members j) read_cfg.bitrate_kbps_auto;
        })
        (record {
          last_display_id = g.last_display_id;
          last_source_id = g.last_source_id;
          schema_version = g.schema_version;
          device_profiles = g.device_profiles;
        }) in
    record {
      last_display_id = h.last_display_id;
      last_source_id = h.last_source_id;
      schema_version = omega arith;
      device_profiles = h.device_profiles;
    }

-- Whatever the file holds and whatever its text is read as, the settings after `Load` fit their types where those
-- before did: no identifier leaves the range of an `int`, the profiles have a key each, and their sizes, delays and
-- bitrates are in range.
pub load-Fits :
    (json : JsonText) (f : Found json.Text) (cfg : AppConfig) → Fits cfg → Fits (load json f cfg).0
unfolding load
load-Fits json missing cfg h = h
load-Fits json unreadable cfg h = h
load-Fits json (content t) cfg h = elim (Option-cases (json.parse t)) [
  | inl e ↦ rw (load, e) (validate-Fits json cfg h)
  | inr (j, e) ↦ rw (load, e) (validate-Fits json _ (from_json-Fits j cfg h))
]

-- What an `int` becomes by an entry of the document: an integer of its range is taken, any other is not, but that an
-- unsigned one counts as negative where it is 2 ^ 63 or more, and all else leaves it as it was.
abbrev pub IsTaken : Option Json → ℤ → ℤ → Type 0
IsTaken (some (number_integer i)) old new =
    (IsInt i × (new ≡ i)) ⊎ (((i ≤ℤ negsuc 2147483648) ⊎ (pos 2147483648 ≤ℤ i)) × (new ≡ old))
IsTaken (some (number_unsigned n)) old new =
    ((n < 2147483648) × (new ≡ pos n))
    ⊎ ((2147483648 ≤ n) × (n + 2147483648 < 18446744073709551616) × (new ≡ old))
    ⊎ ((18446744073709551616 ≤ n + 2147483648) × (new ≡ negsuc (18446744073709551615 - n)))
IsTaken _ old new = new ≡ old

-- The value that was taken, moved to the nearest bound where it is out of them.
abbrev pub IsBounded : Option Json → ℤ → ℤ → ℤ → ℤ → Type 0
IsBounded entry old lo hi new =
    (v : ℤ) × IsTaken entry old v
    × (((v ≤ℤ lo) × (new ≡ lo)) ⊎ ((hi ≤ℤ v) × (new ≡ hi)) ⊎ (IsBetween lo hi v × (new ≡ v)))

-- The integers of loaded settings.
pub record AreTaken (m : Members) (old new : AppConfig) : Type 0 where
  pub last_display_id : IsTaken (find "last_display_id" m) old.last_display_id new.last_display_id
  pub reconnect_window_s :
      IsBounded
        (find "reconnect_window_s" m)
        old.reconnect_window_s
        (pos 10)
        (pos 600)
        new.reconnect_window_s
  pub target_delay_ms :
      IsBounded
        (find "target_delay_ms" m)
        old.target_delay_ms
        (pos 100)
        (pos 400)
        new.target_delay_ms
  pub window_width :
      IsBounded (find "window_width" m) old.window_width (pos 760) (pos 1600) new.window_width
  pub window_height :
      IsBounded (find "window_height" m) old.window_height (pos 560) (pos 1200) new.window_height
  pub launch_timeout_s :
      IsBounded
        (find "launch_timeout_s" m)
        old.launch_timeout_s
        (pos 3)
        (pos 15)
        new.launch_timeout_s
  pub answer_timeout_s :
      IsBounded
        (find "answer_timeout_s" m)
        old.answer_timeout_s
        (pos 3)
        (pos 10)
        new.answer_timeout_s

config_read_int-IsTaken : (j : Json) (out : ℤ) → IsTaken (some j) out (config_read_int j out)
unfolding config_read_int get_int64
config_read_int-IsTaken (number_integer i) out = ground arith
config_read_int-IsTaken (number_unsigned n) out = ground arith
config_read_int-IsTaken null out = refl
config_read_int-IsTaken other out = refl
config_read_int-IsTaken (boolean b) out = refl
config_read_int-IsTaken (string s) out = refl
config_read_int-IsTaken (object m) out = refl

read-IsTaken :
    (m : Members) (k : String) (out : ℤ) → IsTaken (find k m) out (read config_read_int m k out)
unfolding read
read-IsTaken m k out = elim (Option-cases (find k m)) [
  | inl e ↦ rw (e, read) refl
  | inr (j, e) ↦ rw (e, read) (config_read_int-IsTaken j out)
]

clamp_ℤ-IsBounded :
    (m : Members) (k : String) (old lo hi : ℤ)
    → IsBounded (find k m) old lo hi (clamp_ℤ (read config_read_int m k old) lo hi)
unfolding clamp_ℤ
clamp_ℤ-IsBounded m k old lo hi = (read config_read_int m k old, read-IsTaken m k old, ground arith)

validate-AreTaken :
    (m : Members) (cfg : AppConfig) (auto : ℕ)
    → AreTaken m cfg
        (validate (record (read_fields m cfg) { bitrate_kbps_auto = auto; schema_version = pos 3 }))
unfolding validate read_fields
validate-AreTaken m cfg auto = record {
  last_display_id = read-IsTaken m _ _;
  reconnect_window_s = clamp_ℤ-IsBounded m _ _ _ _;
  target_delay_ms = clamp_ℤ-IsBounded m _ _ _ _;
  window_width = clamp_ℤ-IsBounded m _ _ _ _;
  window_height = clamp_ℤ-IsBounded m _ _ _ _;
  launch_timeout_s = clamp_ℤ-IsBounded m _ _ _ _;
  answer_timeout_s = clamp_ℤ-IsBounded m _ _ _ _;
}

AreTaken-from_display :
    (m : Members) (cfg x : AppConfig)
    → AreTaken m cfg (validate (record x { schema_version = pos 3 }))
    → AreTaken m cfg (validate (record (from_display x) { schema_version = pos 3 }))
unfolding from_display validate
AreTaken-from_display m cfg x h = record {
  last_display_id = h.last_display_id;
  reconnect_window_s = h.reconnect_window_s;
  target_delay_ms = h.target_delay_ms;
  window_width = h.window_width;
  window_height = h.window_height;
  launch_timeout_s = h.launch_timeout_s;
  answer_timeout_s = h.answer_timeout_s;
}

-- Where the text of the file is read as a document, each of the `int` settings listed here is, after `Load`, the
-- document's value if that is an integer of the type's range, and else what it was before, moved to the nearest of its
-- bounds, if it has any; an unsigned number of 2 ^ 64 - 2 ^ 31 or more is taken for a negative one.
pub load-AreTaken :
    (json : JsonText) (t : json.Text) (j : Json) (cfg : AppConfig)
    → json.parse t ≡ some j
    → AreTaken (members j) cfg (load json (content t) cfg).0
unfolding load from_json migrate_source from_display
load-AreTaken json t j cfg e =
    let m = members j in
    let auto = migrated_auto m (read_fields m cfg).bitrate_kbps_auto in
    let x = record (read_fields m cfg) { bitrate_kbps_auto = auto } in
    rw (load, e)
      (if_cases (λ c. AreTaken m cfg (validate (record c { schema_version = pos 3 })))
        (lacks_source m (read_schema m cfg.schema_version)) (from_display x) x
        (AreTaken-from_display m cfg x (validate-AreTaken m cfg auto))
        (validate-AreTaken m cfg auto))
