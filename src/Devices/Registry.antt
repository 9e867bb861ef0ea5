-- ===== src/Devices/Registry.antt =====
-- Lookups after a device is added or updated.
use cast_mirror.Prelude.{
  ℕ, true, false, ◌≡◌, refl, List, [], ◌∷◌, Bool-cases, inl, inr, some, arith,
}
use cast_mirror.Prelude.Int.{ℤ}
use cast_mirror.Devices.{
  CastDevice, DeviceDiscovery, same_text, is_empty, normalize, is_same_device, or_old, update,
  upsert, add_or_update_device, find_by_id, find_by_ip,
}

pub same_text_refl : (s : List ℕ) → same_text s s ≡ true
unfolding same_text
same_text_refl [] = refl
same_text_refl (a ∷ s) = ground (arith, same_text_refl s)

pub same_text_eq : (s t : List ℕ) → same_text s t ≡ true → s ≡ t
unfolding same_text
same_text_eq [] [] h = refl
same_text_eq [] (b ∷ t) h = cc
same_text_eq (a ∷ s) [] h = cc
same_text_eq (a ∷ s) (b ∷ t) h = ground (arith, same_text_eq s t)

-- A device that both lookups give, with what the call said of it.
abbrev pub Listed : List CastDevice → CastDevice → ℤ → CastDevice → Type 0
Listed devices new now d =
    (find_by_ip new.ip_address devices ≡ some d)
    × (find_by_id new.id devices ≡ some d)
    × (d.id ≡ new.id)
    × (d.ip_address ≡ new.ip_address)
    × (d.port ≡ new.port)
    × (d.last_seen ≡ now)

not_same :
    (new d : CastDevice)
    → is_empty new.id ≡ false
    → is_same_device new d ≡ false
    → (same_text d.id new.id ≡ false) × (same_text d.ip_address new.ip_address ≡ false)
unfolding is_same_device
not_same new d named h = ground arith

or_old_new : (s t : List ℕ) → is_empty s ≡ false → or_old s t ≡ s
or_old_new [] t h = cc
or_old_new (c ∷ s) t h = refl

upsert-Listed :
    (devices : List CastDevice) (new : CastDevice) (now : ℤ)
    → is_empty new.id ≡ false
    → (d : CastDevice) × Listed (upsert devices new now) new now d
unfolding upsert find_by_id find_by_ip update
upsert-Listed [] new now named = (
  record new { last_seen = now },
  (rw (same_text_refl) refl, rw (same_text_refl) refl, refl, refl, refl, refl),
)
upsert-Listed (d ∷ devices) new now named = elim (Bool-cases (is_same_device new d)) [
  | inl e ↦ (
    update d new now,
    (
      rw (upsert, e, find_by_ip, same_text_refl) refl,
      rw (upsert, e, or_old_new new.id d.id named, find_by_id, same_text_refl) refl,
      or_old_new new.id d.id named,
      refl,
      refl,
      refl,
    ),
  )
  | inr e ↦
      let (x, (by_ip, by_id, i, ip, port, seen)) = upsert-Listed devices new now named in
      let (id_differs, ip_differs) = not_same new d named e in
      (
        x,
        (
          rw (upsert, e, find_by_ip, ip_differs) by_ip,
          rw (upsert, e, find_by_id, id_differs) by_id,
          i,
          ip,
          port,
          seen,
        ),
      )
]

-- After a device that has an id is added or updated, the lookup by its address and the lookup by its id give one and
-- the same device, which has this id and address, the port that was normalized and the time of the call.
pub add_or_update_device-Listed :
    (s : DeviceDiscovery) (device : CastDevice) (now : ℤ)
    → is_empty device.id ≡ false
    → (d : CastDevice) × Listed (add_or_update_device s device now).devices (normalize device) now d
unfolding add_or_update_device normalize
add_or_update_device-Listed s device now named =
    upsert-Listed s.devices (normalize device) now named
