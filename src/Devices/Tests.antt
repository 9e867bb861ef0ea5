-- ===== src/Devices/Tests.antt =====
-- Two devices and one that changes its address, and the theorems at concrete inputs.
use cast_mirror.Prelude.{ℕ, ◌+◌, ◌≡◌, refl, List, [], ◌∷◌, map, none, some, length}
use cast_mirror.Prelude.Int.{pos}
use cast_mirror.Capability.{codes}
use cast_mirror.Devices.{
  CastDevice, ready, DeviceDiscovery, normalize, without_id, same_text, is_same_device, update,
  upsert, index_where, add_or_update_device, expire, remove_device, index_of_preferred_device,
  index_of_preferred_display,
}
use cast_mirror.Devices.Registry.{Listed, add_or_update_device-Listed}
use cast_mirror.Devices.Expiry.{AreDistinct, Fresh, live, expire-live}

abbrev device : List ℕ → List ℕ → ℕ → CastDevice
device id ip seen = record {
  id = id;
  name = codes "TV";
  model_name = codes "Chromecast";
  ip_address = ip;
  port = 8010;
  status = ready;
  capabilities = 5;
  last_seen = pos seen;
}

abbrev two : List CastDevice
two = device (codes "a") (codes "10.0.0.2") 0 ∷ device (codes "b") (codes "10.0.0.3") 0 ∷ []

abbrev ids : List (List ℕ)
ids = codes "a" ∷ codes "b" ∷ []

abbrev discovery : DeviceDiscovery
discovery = record { devices = two; mdns_ids = ids }

abbrev moved : CastDevice
moved = device (codes "b") (codes "10.0.0.4") 0

-- The new address replaces the old one.
ips_after :
    map (λ d. d.ip_address) (add_or_update_device discovery moved (pos 5)).devices
    ≡ codes "10.0.0.2" ∷ codes "10.0.0.4" ∷ []
unfolding add_or_update_device upsert is_same_device normalize same_text update
ips_after = refl

-- A device that takes over the address of another leaves its own entry in the list.
ids_after :
    map
      (λ d. d.id)
      (add_or_update_device discovery (device (codes "b") (codes "10.0.0.2") 0) (pos 5)).devices
    ≡ codes "b" ∷ codes "b" ∷ []
unfolding add_or_update_device upsert is_same_device normalize same_text update
ids_after = refl

removed : map (λ d. d.id) (remove_device discovery (codes "a")).devices ≡ codes "b" ∷ []
unfolding remove_device without_id same_text
removed = refl

-- The address counts where the id is gone.
preferred : index_of_preferred_device two (codes "z") (codes "10.0.0.3") ≡ some 1
unfolding index_of_preferred_device index_where same_text
preferred = refl

add_or_update_device-Listed_example :
    (d : CastDevice) × Listed
      (add_or_update_device discovery moved (pos 5)).devices
      (normalize moved)
      (pos 5)
      d
add_or_update_device-Listed_example = add_or_update_device-Listed discovery moved (pos 5) refl

-- The second device is fresh.
abbrev mixed : List CastDevice
mixed =
    device (codes "a") (codes "10.0.0.2") 0 ∷ device (codes "b") (codes "10.0.0.3") 9000000000 ∷ []

expire-live_example :
    ((expire (pos 10000000000) 5 mixed ids).0 ≡ live (pos 10000000000) 5 ids mixed)
    × (length (live (pos 10000000000) 5 ids mixed) + (expire (pos 10000000000) 5 mixed ids).2
        ≡ length mixed)
unfolding AreDistinct Fresh same_text
expire-live_example = expire-live (pos 10000000000) 5 ids mixed ((refl, tt), (tt, tt))

-- A display that is gone gives way to the first.
preferred_display :
    (index_of_preferred_display (4 ∷ 6 ∷ []) 6 ≡ some 1)
    × (index_of_preferred_display (4 ∷ 6 ∷ []) 5 ≡ some 0)
    × (index_of_preferred_display [] 5 ≡ none)
unfolding index_of_preferred_display index_where
preferred_display = (refl, refl, refl)
