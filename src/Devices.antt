-- ===== src/Devices.antt =====
-- core/src/device_discovery.cc (`AddOrUpdateDevice`, `ExpireStaleDevices`, `RemoveDevice`, the
-- lookups), core/include/castcore/device_selection.h and `CastDevice` of
-- core/include/castcore/types.h: the list of devices. Texts are lists of bytes. Every call holds the
-- list's lock; a callback is what the call gives back, the list as the callback sees it.
pub mod Registry
pub mod Expiry
mod Tests
use cast_mirror.Prelude.{
  ℕ, suc, ◌+◌, ◌*◌, Bool, true, false, ◌&&◌, ◌||◌, not, ◌==◌, if◌then◌else◌, List, [], ◌∷◌, ◌++◌,
  Option, none, some,
}
use cast_mirror.Prelude.Int.{ℤ, pos, negsuc, ◌-ℤ◌, ltb_ℤ}
use cast_mirror.Capability.{codes, starts_with}

pub data DeviceStatus : Type 0 where
  ready busy offline : DeviceStatus

pub record CastDevice : Type 0 where
  pub id : List ℕ
  pub name : List ℕ
  pub model_name : List ℕ
  pub ip_address : List ℕ
  pub port : ℕ
  pub status : DeviceStatus
  pub capabilities : ℕ
  pub last_seen : ℤ

-- `==` of two texts.
unfoldable pub same_text : List ℕ → List ℕ → Bool
same_text [] [] = true
same_text (a ∷ s) (b ∷ t) = a == b && same_text s t
same_text _ _ = false

abbrev pub is_empty {ℓ} : {A : Type ℓ} → List A → Bool
is_empty [] = true
is_empty (x ∷ xs) = false

pub record DeviceDiscovery : Type 0 where
  pub devices : List CastDevice
  pub mdns_ids : List (List ℕ)

-- The port, where the endpoint is not one that the user gave.
unfoldable pub normalize : CastDevice → CastDevice
normalize d =
    let custom_endpoint =
      same_text d.model_name (codes "Custom Chromecast")
      || starts_with (codes "127.") d.ip_address in
    record d {
      port =
          if not custom_endpoint && not (d.port == 8009) && not (d.port == 8008)
          then 8009
          else d.port;
    }

-- The test of `find_if`.
unfoldable pub is_same_device : CastDevice → CastDevice → Bool
is_same_device new d =
    not (is_empty new.id) && same_text d.id new.id
    || is_empty new.id && same_text d.ip_address new.ip_address
    || same_text d.ip_address new.ip_address

abbrev pub or_old : List ℕ → List ℕ → List ℕ
or_old [] old = old
or_old (c ∷ s) old = c ∷ s

unfoldable pub update : CastDevice → CastDevice → ℤ → CastDevice
update old new now = record {
  id = or_old new.id old.id;
  name = or_old new.name old.name;
  model_name = or_old new.model_name old.model_name;
  ip_address = new.ip_address;
  port = new.port;
  status = new.status;
  capabilities = new.capabilities;
  last_seen = now;
}

-- The first match is updated; without one, the device is added at the end.
unfoldable pub upsert : List CastDevice → CastDevice → ℤ → List CastDevice
upsert [] new now = record new { last_seen = now } ∷ []
upsert (d ∷ devices) new now =
    if is_same_device new d then update d new now ∷ devices else d ∷ upsert devices new now

unfoldable pub add_or_update_device : DeviceDiscovery → CastDevice → ℤ → DeviceDiscovery
add_or_update_device s device now = record s { devices = upsert s.devices (normalize device) now }

unfoldable pub has_text : List ℕ → List (List ℕ) → Bool
has_text t [] = false
has_text t (u ∷ texts) = same_text t u || has_text t texts

unfoldable pub erase_text : List ℕ → List (List ℕ) → List (List ℕ)
erase_text t [] = []
erase_text t (u ∷ texts) = if same_text t u then erase_text t texts else u ∷ erase_text t texts

abbrev pub insert_text : List ℕ → List (List ℕ) → List (List ℕ)
insert_text t texts = if has_text t texts then texts else t ∷ texts

-- What mDNS found is merged, and its id noted.
unfoldable pub add_from_mdns : DeviceDiscovery → CastDevice → ℤ → DeviceDiscovery
add_from_mdns s device now =
    let added = add_or_update_device s device now in
    record added { mdns_ids = insert_text device.id added.mdns_ids }

-- The loop of `ExpireStaleDevices`: the devices and the ids that are kept, and how many are removed. The time to live
-- is in seconds.
unfoldable pub expire :
    ℤ → ℕ → List CastDevice → List (List ℕ) → List CastDevice × List (List ℕ) × ℕ
expire now ttl [] ids = ([], ids, 0)
expire now ttl (d ∷ devices) ids =
    if has_text d.id ids && ltb_ℤ (pos (ttl * 1000000000)) (now -ℤ d.last_seen)
    then (let r = expire now ttl devices (erase_text d.id ids) in (r.0, r.1, suc r.2))
    else (let r = expire now ttl devices ids in (d ∷ r.0, r.1, r.2))

unfoldable pub expire_stale_devices : DeviceDiscovery → ℤ → ℕ → DeviceDiscovery × ℕ
expire_stale_devices s now ttl =
    let r = expire now ttl s.devices s.mdns_ids in (record s { devices = r.0; mdns_ids = r.1 }, r.2)

unfoldable pub without_id : List ℕ → List CastDevice → List CastDevice
without_id id [] = []
without_id id (d ∷ devices) =
    if same_text d.id id then without_id id devices else d ∷ without_id id devices

unfoldable pub remove_device : DeviceDiscovery → List ℕ → DeviceDiscovery
remove_device s id = record s { devices = without_id id s.devices }

unfoldable pub find_by_id : List ℕ → List CastDevice → Option CastDevice
find_by_id id [] = none
find_by_id id (d ∷ devices) = if same_text d.id id then some d else find_by_id id devices

unfoldable pub find_by_ip : List ℕ → List CastDevice → Option CastDevice
find_by_ip ip [] = none
find_by_ip ip (d ∷ devices) = if same_text d.ip_address ip then some d else find_by_ip ip devices

-- `IndexOfPreferredDevice`; `none` is -1.
unfoldable pub index_where {ℓ} : {A : Type ℓ} → (A → Bool) → List A → Option ℕ
index_where test [] = none
index_where test (d ∷ devices) =
    if test d
    then some 0
    else elim (index_where test devices) [ some i ↦ some (suc i) | none ↦ none ]

unfoldable pub index_of_preferred_device : List CastDevice → List ℕ → List ℕ → Option ℕ
index_of_preferred_device devices id ip =
    elim (if is_empty id then none else index_where (λ d. same_text d.id id) devices)
      as (λ _. Option ℕ) [
        | some i ↦ some i
        | none ↦ if is_empty ip then none else index_where (λ d. same_text d.ip_address ip) devices
      ]

-- `IndexOfPreferredDisplay` over the ids of the displays, where they are not negative.
unfoldable pub index_of_preferred_display : List ℕ → ℕ → Option ℕ
index_of_preferred_display displays display_id =
    elim (index_where (λ id. id == display_id) displays) as (λ _. Option ℕ) [
      | some i ↦ some i
      | none ↦ if is_empty displays then none else some 0
    ]
