-- ===== src/Config/Reading.antt =====
-- Saved settings, written as a document and read back. A parser gives an integer without a sign back as unsigned.
use Prim.Native.String.{String}
use text.Mathlib.Text.{◌==◌ as ◌=ₛ◌}
use cast_mirror.Prelude.{
  ℕ, ◌≤◌, ◌≡◌, refl, sym, ap, ◌∙◌, Bool, false, ◌||◌, List, [], ◌∷◌, ◌++◌, append_assoc, append-nil,
  none, arith,
}
use cast_mirror.Prelude.Int.{ℤ, pos, negsuc}
use cast_mirror.Stream.{QualityPreset, auto, high, balanced, smooth, game, cinema}
use cast_mirror.Config.{
  Json, null, other, boolean, number_integer, number_unsigned, string, object, Members, nil, member,
  DeviceProfile, VideoCodec, h264, AppConfig, lookup, assign, get_int64, config_read_int,
  config_read_u32, quality_preset_to_string, quality_preset_from_string,
}
use cast_mirror.Config.Limits.{IsBetween}
use cast_mirror.Config.Document.{
  find, members, read, read_preset, read_profile, read_profiles, read_device_profiles,
}
use cast_mirror.Config.Written.{profile_to_json, profiles_to_json}

unfoldable mutual
  pub reparsed : Json → Json
  reparsed (number_integer (pos n)) = number_unsigned n
  reparsed (number_integer (negsuc n)) = number_integer (negsuc n)
  reparsed null = null
  reparsed other = other
  reparsed (boolean b) = boolean b
  reparsed (number_unsigned n) = number_unsigned n
  reparsed (string s) = string s
  reparsed (object m) = object (reparsed_members m)

  pub reparsed_members : Members → Members
  reparsed_members nil = nil
  reparsed_members (member k v m) = member k (reparsed v) (reparsed_members m)

abbrev pub IsInt : ℤ → Type 0
IsInt = IsBetween (negsuc 2147483647) (pos 2147483647)

abbrev pub IsU32 : ℕ → Type 0
IsU32 n = n ≤ 4294967295

-- The fields of a profile are `int`s and a `uint32_t`.
pub record FitsProfile (p : DeviceProfile) : Type 0 where
  pub target_width : IsInt p.target_width
  pub target_height : IsInt p.target_height
  pub target_fps : IsInt p.target_fps
  pub bitrate_kbps : IsU32 p.bitrate_kbps
  pub target_delay_ms : IsInt p.target_delay_ms

unfoldable pub has : String → List String → Bool
has k [] = false
has k (j ∷ js) = j =ₛ k || has k js

-- The entries of a `std::map`: no key is among the keys before it; and every profile fits its fields.
abbrev pub AreProfiles : List String → List (String × DeviceProfile) → Type 0
AreProfiles seen [] = Unit {0}
AreProfiles seen ((k, p) ∷ m) = (has k seen ≡ false) × FitsProfile p × AreProfiles (k ∷ seen) m

-- What the types of the fields promise where `Validate` sets no bound.
pub record Fits (c : AppConfig) : Type 0 where
  pub last_display_id : IsInt c.last_display_id
  pub last_source_id : IsInt c.last_source_id
  pub schema_version : IsInt c.schema_version
  pub device_profiles : AreProfiles [] c.device_profiles

-- The document has no entry for a codec.
abbrev pub without_codec : DeviceProfile → DeviceProfile
without_codec p = record p { preferred_video_codec = h264 }

abbrev pub without_codecs : List (String × DeviceProfile) → List (String × DeviceProfile)
without_codecs [] = []
without_codecs ((k, p) ∷ m) = (k, without_codec p) ∷ without_codecs m

-- The settings that a document of `c` gives, where those before had the codec.
abbrev pub reloaded : AppConfig → VideoCodec → AppConfig
reloaded c codec = record c {
  schema_version = pos 3;
  preferred_video_codec = codec;
  device_profiles = without_codecs c.device_profiles;
}

pub int_back : (v out : ℤ) → IsInt v → config_read_int (reparsed (number_integer v)) out ≡ v
unfolding config_read_int get_int64 reparsed
int_back (pos n) out h = ground arith
int_back (negsuc n) out h = ground arith

pub u32_back : (v out : ℕ) → IsU32 v → config_read_u32 (number_unsigned v) out ≡ v
unfolding config_read_u32 get_int64
u32_back v out h = ground arith

pub preset_back : (p : QualityPreset) → quality_preset_from_string (quality_preset_to_string p) ≡ p
unfolding quality_preset_from_string quality_preset_to_string
preset_back auto = refl
preset_back high = refl
preset_back balanced = refl
preset_back smooth = refl
preset_back game = refl
preset_back cinema = refl

profile_back :
    (p : DeviceProfile)
    → FitsProfile p
    → read_profile (members (reparsed (profile_to_json p))) ≡ without_codec p
unfolding read_profile read read_preset find profile_to_json reparsed
profile_back p h = λ i. record (without_codec p) {
  target_width = int_back p.target_width (pos 0) h.target_width i;
  target_height = int_back p.target_height (pos 0) h.target_height i;
  target_fps = int_back p.target_fps (pos 0) h.target_fps i;
  bitrate_kbps = u32_back p.bitrate_kbps 0 h.bitrate_kbps i;
  target_delay_ms = int_back p.target_delay_ms (pos 200) h.target_delay_ms i;
  preset = preset_back p.preset i;
}

module _ {V : Type 0} where
  assign_new :
      (k : String) (v : V) (m : List (String × V))
      → lookup k m ≡ none
      → assign k v m ≡ m ++ (k, v) ∷ []
  unfolding assign lookup
  assign_new k v [] h = refl
  assign_new k v ((j, w) ∷ m) h = ground (arith, assign_new k v m)

  lookup-append :
      (j k : String) (v : V) (m : List (String × V))
      → lookup j m ≡ none
      → (k =ₛ j) ≡ false
      → lookup j (m ++ (k, v) ∷ []) ≡ none
  unfolding lookup
  lookup-append j k v [] h n = ground (arith, n)
  lookup-append j k v ((i, w) ∷ m) h n = ground (arith, lookup-append j k v m)

-- No key outside `seen` has an entry.
abbrev Seen : List String → List (String × DeviceProfile) → Type 0
Seen seen m = (j : String) → has j seen ≡ false → lookup j m ≡ none

Seen-append :
    (seen : List String) (k : String) (p : DeviceProfile) (m : List (String × DeviceProfile))
    → Seen seen m
    → Seen (k ∷ seen) (m ++ (k, p) ∷ [])
unfolding has
Seen-append seen k p m s j h = lookup-append j k p m (s j (ground arith)) (ground arith)

profiles_back_after :
    (seen : List String) (acc m : List (String × DeviceProfile))
    → Seen seen acc
    → AreProfiles seen m
    → read_profiles (reparsed_members (profiles_to_json m)) acc ≡ acc ++ without_codecs m
unfolding read_profiles profiles_to_json reparsed profile_to_json
profiles_back_after seen acc [] s h = sym (append-nil acc)
profiles_back_after seen acc ((k, p) ∷ m) s (new, fits, rest) =
    let step : assign k (read_profile (members (reparsed (profile_to_json p)))) acc
        ≡ acc ++ (k, without_codec p) ∷ [] =
      ap (λ q. assign k q acc) (profile_back p fits)
      ∙ assign_new k (without_codec p) acc (s k new) in
    ap (read_profiles (reparsed_members (profiles_to_json m))) step
    ∙ profiles_back_after (k ∷ seen) _ m (Seen-append seen k (without_codec p) acc s) rest
    ∙ append_assoc acc ((k, without_codec p) ∷ []) (without_codecs m)

pub profiles_back :
    (m out : List (String × DeviceProfile))
    → AreProfiles [] m
    → read_device_profiles (reparsed (object (profiles_to_json m))) out ≡ without_codecs m
unfolding read_device_profiles reparsed lookup
profiles_back m out h = profiles_back_after [] [] m (λ j _. refl) h
