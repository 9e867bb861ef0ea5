-- ===== src/Mdns/Text.antt =====
-- The keys of TXT entries, the device that they describe, and the whole handling of a datagram.
use cast_mirror.Prelude.{
  ℕ, ◌%◌, ◌^◌, ◌||◌, ltb, ◌==◌, if◌then◌else◌, List, [], ◌∷◌, ◌++◌, Option, none, some, length,
}
use cast_mirror.Prelude.Int.{ℤ}
use cast_mirror.Prelude.Reads.{◌>>=◌, is_some}
use cast_mirror.Capability.{codes}
use cast_mirror.Devices.{
  CastDevice, DeviceStatus, ready, busy, same_text, is_empty, DeviceDiscovery, add_from_mdns,
}
use cast_mirror.Mdns.{Found, read_response}

-- The parts of an entry before and after its first '='.
unfoldable pub split_entry : List ℕ → Option (List ℕ × List ℕ)
split_entry [] = none
split_entry (c ∷ entry) =
    if c == 61
    then some ([], entry)
    else elim (split_entry entry) [ some r ↦ some (c ∷ r.0, r.1) | none ↦ none ]

unfoldable pub lookup : List ℕ → List (List ℕ × List ℕ) → Option (List ℕ)
lookup key [] = none
lookup key ((k, v) ∷ keys) = if same_text k key then some v else lookup key keys

-- A key and its value, a missing '=' giving the empty value, with the limits on their sizes.
unfoldable pub entry_pair : List ℕ → Option (List ℕ × List ℕ)
entry_pair entry = elim (split_entry entry) as (λ _. Option (List ℕ × List ℕ)) [
  | some (key, val) ↦
      if is_empty key || ltb 64 (length key) || ltb 255 (length val) then none else some (key, val)
  | none ↦ if ltb 64 (length entry) then none else some (entry, [])
]

-- The first of two equal keys counts.
unfoldable pub add_pair : List (List ℕ × List ℕ) → Option (List ℕ × List ℕ) → List (List ℕ × List ℕ)
add_pair keys none = keys
add_pair keys (some (key, val)) =
    if is_some (lookup key keys) then keys else keys ++ (key, val) ∷ []

-- The loop of `ParseTxtRecord`.
unfoldable pub parse_entries : List (List ℕ × List ℕ) → List (List ℕ) → List (List ℕ × List ℕ)
parse_entries keys [] = keys
parse_entries keys (entry ∷ entries) =
    parse_entries
      (if is_empty entry || ltb 255 (length entry) then keys else add_pair keys (entry_pair entry))
      entries

unfoldable pub parse_txt_record : List (List ℕ) → List (List ℕ × List ℕ)
parse_txt_record = parse_entries []

abbrev pub or_default {ℓ} : {A : Type ℓ} → Option A → A → A
or_default none d = d
or_default (some a) d = a

-- kCapVideoOut | kCapAudioOut
abbrev pub default_capabilities : ℕ
default_capabilities = 5

module _ (stoul : List ℕ → Option ℕ) (inet_ntop : List ℕ → List ℕ) where
  abbrev pub capabilities_of : Option (List ℕ) → ℕ
  capabilities_of none = default_capabilities
  capabilities_of (some ca) = elim (stoul ca) [ some n ↦ n % 2 ^ 32 | none ↦ default_capabilities ]

  abbrev pub status_of : Option (List ℕ) → DeviceStatus
  status_of none = ready
  status_of (some st) = if same_text st (codes "1") then busy else ready

  -- `ParseFromMdnsData` at a time.
  unfoldable pub parse_from_mdns_data : List ℕ → List ℕ → ℕ → List (List ℕ) → ℤ → CastDevice
  parse_from_mdns_data name ip port txt_entries now =
      let keys = parse_txt_record txt_entries in
      record {
        ip_address = ip;
        port = if port == 8009 || port == 8008 then port else 8009;
        id = or_default (lookup (codes "id") keys) ip;
        name =
            or_default (lookup (codes "fn") keys)
              (if is_empty name then codes "Chromecast-" ++ ip else name);
        model_name = or_default (lookup (codes "md") keys) (codes "Chromecast");
        capabilities = capabilities_of (lookup (codes "ca") keys);
        status = status_of (lookup (codes "st") keys);
        last_seen = now;
      }

  abbrev pub address_of : Option (List ℕ) → List ℕ → List ℕ
  address_of none sender_ip = sender_ip
  address_of (some a) sender_ip = inet_ntop a

  -- The device of what a datagram held: only one that publishes its id or its name.
  unfoldable pub device_of : Found → List ℕ → ℤ → Option CastDevice
  device_of f sender_ip now =
      let keys = parse_txt_record f.txt_entries in
      let ip = address_of f.parsed_address sender_ip in
      if is_some (lookup (codes "id") keys) || is_some (lookup (codes "fn") keys)
      then some (parse_from_mdns_data [] ip f.parsed_port f.txt_entries now)
      else none

  abbrev pub merge : DeviceDiscovery → Option CastDevice → ℤ → DeviceDiscovery
  merge s none now = s
  merge s (some device) now = add_from_mdns s device now

  abbrev pub merge_found : DeviceDiscovery → Option Found → List ℕ → ℤ → DeviceDiscovery
  merge_found s none sender_ip now = s
  merge_found s (some f) sender_ip now = merge s (device_of f sender_ip now) now

  -- `ProcessMdnsResponse` at a time.
  unfoldable pub process_mdns_response :
      DeviceDiscovery → List ℕ → List ℕ → ℤ → Option DeviceDiscovery
  process_mdns_response s bytes sender_ip now = do
    found ← read_response bytes
    some (merge_found s found sender_ip now)
