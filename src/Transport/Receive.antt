-- ===== src/Transport/Receive.antt =====
-- One datagram of the receive loop, from the parse on: what the statistics, the cache and the two
-- callbacks get of it. Packets that are sent again are the result's; the loop itself, the sockets and
-- the test of the datagram's origin are left out.
use cast_mirror.Prelude.{
  ℕ, suc, ◌+◌, ◌*◌, ◌%◌, ◌^◌, ◌<◌, Bool, true, false, if◌then◌else◌, ◌≡◌, ◌≢◌, refl, ap, ◌∙◌, List,
  [], ◌∷◌, ◌++◌, Option, none, some, length,
}
use cast_mirror.Prelude.Int.{ℤ}
use cast_mirror.Prelude.Double.{Double}
use cast_mirror.Prelude.Reads.{◌>>=◌, is_some}
use cast_mirror.Prelude.Maps.{find}
use cast_mirror.Rtp.{RtpPacket}
use cast_mirror.Rtcp.{PacketNack, RtcpFeedback, parse_compound_by_ssrc}
use cast_mirror.Rtcp.Safety.{parse_internal_total}
use cast_mirror.Transport.{
  at, PacketCache, cached_frames, erase_acked, resend, requested, retransmit_packet,
}
use cast_mirror.Transport.Cache.{erase_acked_keeps_last}
use cast_mirror.Transport.Reports.{Smoothed, update_ewma_rtt}

pub record Receiver (W : Type 0) : Type 0 where
  pub cache : PacketCache
  pub smoothed : Smoothed W
  pub last_rtt_ms : W
  pub last_jitter_ms : W
  pub last_loss_fraction : W
  pub total_nacks_received : ℕ
  pub total_pli_received : ℕ

-- What the handling of a datagram does outside the transport: the packets that it sends, whether it
-- asks for a key frame, and the feedback that it hands on.
pub record Effects : Type 0 where
  pub resent : List RtpPacket
  pub picture_lost : Bool
  pub feedback : Option RtcpFeedback

-- The loop over the requests; each reads the clock.
unfoldable pub retransmit_all :
    PacketCache → (ℕ → ℤ) → ℕ → ℕ → List PacketNack → PacketCache × List RtpPacket
retransmit_all c clock i ssrc [] = (c, [])
retransmit_all c clock i ssrc (n ∷ nacks) =
    let r = retransmit_packet c (clock i) ssrc n.frame_id n.packet_id in
    let rest = retransmit_all r.0 clock (suc i) ssrc nacks in (rest.0, r.1 ++ rest.1)

module _ {W : Type 0} (d : Double W) where
  unfoldable pub count_feedback : Receiver W → RtcpFeedback → Receiver W
  count_feedback t fb =
      let smoothed =
        if fb.has_rtt
        then update_ewma_rtt d t.smoothed (d.ratio (fb.rtt * 1000) 65536)
        else t.smoothed in
      record t {
        smoothed = smoothed;
        last_loss_fraction =
            if fb.has_report_block then d.ratio fb.fraction_lost 256 else t.last_loss_fraction;
        last_rtt_ms = if fb.has_rtt then smoothed.ewma_rtt_ms else t.last_rtt_ms;
        last_jitter_ms = if fb.has_rtt then smoothed.ewma_jitter_ms else t.last_jitter_ms;
        total_nacks_received = (t.total_nacks_received + length fb.nacks) % 2 ^ 32;
        total_pli_received =
            if fb.picture_loss_indicator
            then (t.total_pli_received + 1) % 2 ^ 32
            else t.total_pli_received;
      }

  -- What is done with a parsed feedback.
  unfoldable pub handle_feedback : Receiver W → (ℕ → ℤ) → RtcpFeedback → Receiver W × Effects
  handle_feedback t clock fb =
      let counted = count_feedback t fb in
      let erased = erase_acked t.cache fb.sender_ssrc fb.checkpoint_frame_id in
      let r = retransmit_all erased clock 0 fb.sender_ssrc fb.nacks in
      (
        record counted { cache = r.0 },
        record { resent = r.1; picture_lost = fb.picture_loss_indicator; feedback = some fb },
      )

  unfoldable pub receive : Receiver W → (ℕ → ℕ) → (ℕ → ℤ) → List ℕ → Option (Receiver W × Effects)
  receive t system_clock clock bytes = do
    (parsed, fb) ← parse_compound_by_ssrc system_clock bytes t.cache.last_sent_frame_id
    some (
        if parsed
        then handle_feedback t clock fb
        else (t, record { resent = []; picture_lost = false; feedback = none }))

-- Requests change nothing of what is cached.
resend_packets :
    (c : PacketCache) (now : ℤ) (ssrc fid : ℕ) (packets : List RtpPacket)
    → (resend c now ssrc fid packets).0.packet_cache ≡ c.packet_cache
unfolding resend
resend_packets c now ssrc fid [] = refl
resend_packets c now ssrc fid (p ∷ packets) = refl

retransmit_all_packets :
    (c : PacketCache) (clock : ℕ → ℤ) (i ssrc : ℕ) (nacks : List PacketNack)
    → (retransmit_all c clock i ssrc nacks).0.packet_cache ≡ c.packet_cache
unfolding retransmit_all retransmit_packet
retransmit_all_packets c clock i ssrc [] = refl
retransmit_all_packets c clock i ssrc (n ∷ nacks) =
    let packets = requested (at [] n.frame_id (cached_frames c ssrc)) n.packet_id in
    retransmit_all_packets (resend c (clock i) ssrc n.frame_id packets).0 clock (suc i) ssrc nacks
    ∙ resend_packets c (clock i) ssrc n.frame_id packets

-- Whatever datagram arrives, its handling gives a result: no read is out of bounds.
pub receive_total :
    {W : Type 0} (d : Double W) (t : Receiver W) (system_clock : ℕ → ℕ) (clock : ℕ → ℤ)
    (bytes : List ℕ)
    → is_some (receive d t system_clock clock bytes) ≡ true
unfolding receive parse_compound_by_ssrc
receive_total d t system_clock clock bytes =
    let (parsed, fb, e) =
      parse_internal_total system_clock bytes 0 (some t.cache.last_sent_frame_id) in
    rw (e) refl

-- A feedback, with a checkpoint that is not 2 ^ 31 frames or more ahead of the last frame sent,
-- takes that frame out of its stream's cache only if it is the frame that the checkpoint
-- acknowledges, whatever it requests.
pub handle_feedback_keeps_last :
    {W : Type 0} (d : Double W) (t : Receiver W) (clock : ℕ → ℤ) (fb : RtcpFeedback)
    → let last = at 0 fb.sender_ssrc t.cache.last_sent_frame_id in
      last < 2 ^ 32
      → fb.checkpoint_frame_id < 2 ^ 32
      → fb.checkpoint_frame_id < last + 2 ^ 31
      → fb.checkpoint_frame_id ≢ last
      → find last (cached_frames (handle_feedback d t clock fb).0.cache fb.sender_ssrc)
        ≡ find last (cached_frames t.cache fb.sender_ssrc)
unfolding handle_feedback
handle_feedback_keeps_last d t clock fb small wide near ne =
    let last = at 0 fb.sender_ssrc t.cache.last_sent_frame_id in
    let erased = erase_acked t.cache fb.sender_ssrc fb.checkpoint_frame_id in
    ap (λ m. find last (at [] fb.sender_ssrc m))
      (retransmit_all_packets erased clock 0 fb.sender_ssrc fb.nacks)
    ∙ erase_acked_keeps_last t.cache fb.sender_ssrc fb.checkpoint_frame_id small wide near ne
