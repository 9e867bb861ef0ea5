-- ===== src/Adaptive/Feedback.antt =====
-- `OnFeedback`: what one RTCP feedback leaves in the controller's window.
use cast_mirror.Prelude.{
  ℕ, ◌+◌, ◌*◌, ◌^◌, Bool, true, false, ◌||◌, ◌==◌, if◌then◌else◌, List, [], ◌∷◌,
}
use cast_mirror.Prelude.Double.{Double}
use cast_mirror.Rtcp.{PacketNack, RtcpFeedback}
use cast_mirror.Adaptive.State.{AdaptiveController}

-- The set of NACK keys: a list without repetitions.
unfoldable pub contains : ℕ → List ℕ → Bool
contains k [] = false
contains k (j ∷ keys) = k == j || contains k keys

unfoldable pub insert_key : ℕ → List ℕ → List ℕ
unfolding contains
insert_key k keys = if contains k keys then keys else k ∷ keys

unfoldable pub insert_nacks : List PacketNack → List ℕ → List ℕ
insert_nacks [] keys = keys
insert_nacks (n ∷ nacks) keys =
    insert_nacks nacks (insert_key (n.frame_id * 2 ^ 16 + n.packet_id) keys)

module _ {W : Type 0} (d : Double W) where
  -- `keep * old + alpha * sample`, with the weights in hundredths.
  abbrev pub smooth_by : ℕ → ℕ → W → W → W
  smooth_by keep alpha old sample =
      d.add (d.mul (d.ratio keep 100) old) (d.mul (d.ratio alpha 100) sample)

  -- The part that a measured round-trip time updates.
  unfoldable pub on_rtt : AdaptiveController W → RtcpFeedback → AdaptiveController W
  on_rtt c fb =
      let sample_rtt = d.ratio (fb.rtt * 1000) 65536 in
      let sample_jitter = d.ratio fb.jitter 1 in
      let rtt_diff = d.abs (d.sub sample_rtt c.ewma_rtt_ms) in
      let jitter_sample = if d.lt (d.ratio 0 1) sample_jitter then sample_jitter else rtt_diff in
      let rtt =
        if c.ewma_initialized then smooth_by 80 20 c.ewma_rtt_ms sample_rtt else sample_rtt in
      let jitter =
        if c.ewma_initialized
        then smooth_by 90 10 c.ewma_jitter_ms jitter_sample
        else sample_jitter in
      record c {
        ewma_rtt_ms = rtt;
        ewma_jitter_ms = jitter;
        ewma_initialized = true;
        recent_rtt_ms = rtt;
        recent_jitter_ms = jitter;
      }

  unfoldable pub on_feedback : AdaptiveController W → RtcpFeedback → AdaptiveController W
  on_feedback c fb =
      let measured = if fb.has_rtt then on_rtt c fb else c in
      record measured {
        recent_loss_fraction =
            if fb.has_report_block then d.ratio fb.fraction_lost 256 else c.recent_loss_fraction;
        recent_nack_keys = insert_nacks fb.nacks c.recent_nack_keys;
        recent_pli = c.recent_pli || fb.picture_loss_indicator;
        recent_feedback = true;
      }
