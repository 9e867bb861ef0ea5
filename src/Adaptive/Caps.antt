-- ===== src/Adaptive/Caps.antt =====
-- The user's bitrate cap.
use cast_mirror.Prelude.{ℕ, ◌≤◌, ◌<◌, true, false, ◌≡◌, arith}
use cast_mirror.Prelude.Int.{ℤ}
use cast_mirror.Prelude.Double.{Double}
use cast_mirror.Stream.{StreamStats}
use cast_mirror.Adaptive.State.{AdaptiveController}
use cast_mirror.Adaptive.Check.{
  Window, apply_caps, go_down, window_of, take_window, adapt_delay, track_rtt, under_pressure,
  lift_stability_cap, ramp_up, upshift, without_pressure, derive_target, check_enabled,
  check_adaptation,
}

-- A cap is set, unchanged, and kept.
abbrev pub Capped : {W : Type 0} → ℕ → AdaptiveController W → Type 0
Capped k c = (0 < k) × (c.user_bitrate_cap_kbps ≡ k) × (c.current_bitrate_kbps ≤ k)

module _ {W : Type 0} (d : Double W) (k : ℕ) where
  under_pressure-Capped :
      (c : AdaptiveController W) (w : Window W) (now : ℤ)
      → Capped k c
      → Capped k (under_pressure d c w now)
  unfolding under_pressure go_down apply_caps
  under_pressure-Capped c w now v = ground arith

  lift-Capped : (c : AdaptiveController W) → Capped k c → Capped k (lift_stability_cap d c)
  unfolding lift_stability_cap
  lift-Capped c v = ground arith

  ramp_up-Capped : (c : AdaptiveController W) → Capped k c → Capped k (ramp_up d c)
  unfolding ramp_up apply_caps
  ramp_up-Capped c v = ground arith

  upshift-Capped : (c : AdaptiveController W) (now : ℤ) → Capped k c → Capped k (upshift d c now)
  unfolding upshift apply_caps
  upshift-Capped c now v = ground arith

  without_pressure-Capped :
      (c : AdaptiveController W) (now : ℤ) → Capped k c → Capped k (without_pressure d c now)
  unfolding without_pressure
  without_pressure-Capped c now v = upshift-Capped _ now (ramp_up-Capped _ (lift-Capped _ v))

  check_enabled-Capped :
      (c : AdaptiveController W) (w : Window W) (now : ℤ) (out : StreamStats)
      → Capped k c
      → Capped k (check_enabled d c w now out).controller
  unfolding check_enabled
  check_enabled-Capped c w now out v =
      let tracked = track_rtt d (adapt_delay d c w now) w in
      let t : Capped k tracked = unfold track_rtt adapt_delay in ground arith in
      unfold derive_target in
      ground (arith, under_pressure-Capped tracked w now t, without_pressure-Capped tracked now t)

-- While adaptation is enabled, no evaluation takes the bitrate over the user's cap: if it is within
-- a cap that is set, it still is, whatever the feedback, and the cap stays.
pub check_adaptation-Capped :
    {W : Type 0} (d : Double W) (c : AdaptiveController W) (now : ℤ) (out : StreamStats)
    → c.enabled ≡ true
    → 0 < c.user_bitrate_cap_kbps
    → c.current_bitrate_kbps ≤ c.user_bitrate_cap_kbps
    → let c' = (check_adaptation d c now out).controller in
      (c'.user_bitrate_cap_kbps ≡ c.user_bitrate_cap_kbps)
      × (c'.current_bitrate_kbps ≤ c.user_bitrate_cap_kbps)
unfolding check_adaptation
check_adaptation-Capped {W} d c now out on pos le =
    let c1 : AdaptiveController W = record c { last_eval_time = now; recent_feedback = false } in
    let k = c.user_bitrate_cap_kbps in
    let t : Capped k (take_window d c1) = unfold take_window in ground arith in
    ground (arith, check_enabled-Capped d k (take_window d c1) (window_of d c1) now out t)
