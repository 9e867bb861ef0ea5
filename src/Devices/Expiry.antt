-- ===== src/Devices/Expiry.antt =====
-- What the loop of `ExpireStaleDevices` keeps, against one test on each device.
use cast_mirror.Prelude.{
  ℕ, ◌+◌, ◌*◌, Bool, false, ◌&&◌, if◌then◌else◌, ◌≡◌, refl, sym, ap, ◌∙◌, List, [], ◌∷◌, Bool-cases,
  inl, inr, length, arith,
}
use cast_mirror.Prelude.Int.{ℤ, pos, ◌-ℤ◌, ltb_ℤ}
use cast_mirror.Devices.{CastDevice, same_text, has_text, erase_text, expire}
use cast_mirror.Devices.Registry.{same_text_eq}

-- A device that mDNS found, not seen for longer than the time to live.
unfoldable pub is_stale : ℤ → ℕ → List (List ℕ) → CastDevice → Bool
is_stale now ttl ids d = has_text d.id ids && ltb_ℤ (pos (ttl * 1000000000)) (now -ℤ d.last_seen)

unfoldable pub live : ℤ → ℕ → List (List ℕ) → List CastDevice → List CastDevice
live now ttl ids [] = []
live now ttl ids (d ∷ devices) =
    if is_stale now ttl ids d then live now ttl ids devices else d ∷ live now ttl ids devices

-- No other device has the id.
unfoldable pub Fresh : List ℕ → List CastDevice → Type 0
Fresh id [] = Unit
Fresh id (d ∷ devices) = (same_text d.id id ≡ false) × Fresh id devices

unfoldable pub AreDistinct : List CastDevice → Type 0
AreDistinct [] = Unit
AreDistinct (d ∷ devices) = Fresh d.id devices × AreDistinct devices

has_text-erase_text :
    (t u : List ℕ) (ids : List (List ℕ))
    → same_text t u ≡ false
    → has_text t (erase_text u ids) ≡ has_text t ids
unfolding has_text erase_text
has_text-erase_text t u [] differs = refl
has_text-erase_text t u (i ∷ ids) differs = elim (Bool-cases (same_text u i)) [
  | inl e ↦
      let other : same_text t i ≡ false = ap (same_text t) (sym (same_text_eq u i e)) ∙ differs in
      rw (erase_text, e, has_text-erase_text t u ids differs, has_text, other) refl
  | inr e ↦ rw (erase_text, e, has_text, has_text-erase_text t u ids differs) refl
]

live-erase_text :
    (now : ℤ) (ttl : ℕ) (id : List ℕ) (ids : List (List ℕ)) (devices : List CastDevice)
    → Fresh id devices
    → live now ttl (erase_text id ids) devices ≡ live now ttl ids devices
unfolding live is_stale Fresh
live-erase_text now ttl id ids [] fresh = refl
live-erase_text now ttl id ids (d ∷ devices) (differs, fresh) =
    rw (live, live-erase_text now ttl id ids devices fresh, has_text-erase_text d.id id ids differs)
      refl

-- Where no two devices have one id, the loop keeps just the devices that are not stale by the ids it starts with, and
-- the number it gives is the number of the others.
pub expire-live :
    (now : ℤ) (ttl : ℕ) (ids : List (List ℕ)) (devices : List CastDevice)
    → AreDistinct devices
    → ((expire now ttl devices ids).0 ≡ live now ttl ids devices)
      × (length (live now ttl ids devices) + (expire now ttl devices ids).2 ≡ length devices)
unfolding expire live is_stale AreDistinct
expire-live now ttl ids [] distinct = (refl, refl)
expire-live now ttl ids (d ∷ devices) (fresh, distinct) =
    elim (Bool-cases (is_stale now ttl ids d)) [
      | inl e ↦
          let (kept, count) = expire-live now ttl (erase_text d.id ids) devices distinct in
          let same = live-erase_text now ttl d.id ids devices fresh in
          (
            rw (expire, live, e, kept, same) refl,
            rw (expire, live, e, sym same) (omega (arith, count)),
          )
      | inr e ↦
          let (kept, count) = expire-live now ttl ids devices distinct in
          (rw (expire, live, e, kept) refl, rw (expire, live, e) (omega (arith, count)))
    ]
