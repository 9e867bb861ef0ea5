-- ===== src/Transport/Send.antt =====
-- `SendPackets` and the token bucket that paces it. What becomes of each packet is an argument, since
-- the socket, the waiting for tokens and a concurrent `Stop` decide it.
use cast_mirror.Prelude.{
  ℕ, ◌+◌, ◌%◌, ◌^◌, ◌≤◌, Bool, true, false, ◌&&◌, not, ltb, leb, ◌==◌, if◌then◌else◌, ◌≡◌, refl,
  List, [], ◌∷◌, Option, none, length, get_or,
}
use cast_mirror.Prelude.Bytes.{of_be32}
use cast_mirror.Prelude.Int.{ℤ, pos, negsuc, ◌-ℤ◌}
use cast_mirror.Prelude.Time.{is_unset}
use cast_mirror.Prelude.Maps.{insert}
use cast_mirror.Prelude.Double.{Double}
use cast_mirror.Rtp.{RtpPacket}
use cast_mirror.Transport.{at, PacketCache, cache_frame, get_cached_frame_count}
use cast_mirror.Transport.Cache.{cache_frame-bounded}
use cast_mirror.Transport.Reports.{SenderReportState, no_reports, maybe_send_sender_report, Pacing}

-- `SendDatagram` took the packet, or did not; or the session stopped before it; or the socket was
-- closed before it.
pub data Attempt : Type 0 where
  sent dropped stopped closed : Attempt

-- The local variables of the sending loop, with how it ended.
pub record Progress : Type 0 where
  pub packets_sent_ok : ℕ
  pub octets_this_frame : ℕ
  pub ended : Attempt

-- A packet without data is never sent, and packets with no attempt are behind a stop.
unfoldable pub send_loop : List RtpPacket → List Attempt → ℕ → ℕ → Progress
send_loop [] attempts n octets = record {
  packets_sent_ok = n;
  octets_this_frame = octets;
  ended = sent;
}
send_loop (p ∷ packets) [] n octets = record {
  packets_sent_ok = n;
  octets_this_frame = octets;
  ended = stopped;
}
send_loop (p ∷ packets) (sent ∷ attempts) n octets =
    let len = length p.bytes in
    let ok = ltb 0 len in
    send_loop packets attempts (if ok then n + 1 else n)
      (if ok then (octets + len) % 2 ^ 32 else octets)
send_loop (p ∷ packets) (dropped ∷ attempts) n octets = send_loop packets attempts n octets
send_loop (p ∷ packets) (stopped ∷ attempts) n octets = record {
  packets_sent_ok = n;
  octets_this_frame = octets;
  ended = stopped;
}
send_loop (p ∷ packets) (closed ∷ attempts) n octets = record {
  packets_sent_ok = n;
  octets_this_frame = octets;
  ended = closed;
}

-- What is read of the first packet's header; a shorter one counts as video of the ssrc 0.
unfoldable pub is_video_frame : List ℕ → Bool
is_video_frame bytes = if leb 12 (length bytes) then not (get_or bytes 1 0 % 128 == 127) else true

unfoldable pub word_at : List ℕ → ℕ → ℕ
word_at bytes i =
    if leb 12 (length bytes)
    then of_be32 (get_or bytes i 0) (get_or bytes (i + 1) 0) (get_or bytes (i + 2) 0)
        (get_or bytes (i + 3) 0)
    else 0

pub record Sender : Type 0 where
  pub cache : PacketCache
  pub sr_state : List (ℕ × SenderReportState)
  pub total_packets_sent : ℕ
  pub total_frames_sent : ℕ

-- The report after a frame, on an open socket.
unfoldable pub report_frame :
    Sender → RtpPacket → Progress → ℤ → ℕ → List (ℕ × SenderReportState) × Option (List ℕ)
report_frame s p r now unix_us =
    let ssrc = word_at p.bytes 8 in
    let timebase = if is_video_frame p.bytes then 90000 else 48000 in
    let reported =
      maybe_send_sender_report (at no_reports ssrc s.sr_state) ssrc (word_at p.bytes 4)
        p.capture_time timebase r.packets_sent_ok r.octets_this_frame now unix_us in
    if ssrc == 0 then (s.sr_state, none) else (insert ssrc reported.0 s.sr_state, reported.1)

-- The end of `SendPackets`: the statistics, with the report that was or was not sent.
unfoldable pub finish_frame :
    Sender
    → Bool
    → Progress
    → List (ℕ × SenderReportState) × Option (List ℕ)
    → Bool × Sender × Option (List ℕ)
finish_frame s video r reported =
    let any = ltb 0 r.packets_sent_ok in
    (
      any,
      record s {
        sr_state = reported.0;
        total_packets_sent = (s.total_packets_sent + r.packets_sent_ok) % 2 ^ 32;
        total_frames_sent =
            if any && video then (s.total_frames_sent + 1) % 2 ^ 32 else s.total_frames_sent;
      },
      reported.1,
    )

-- What follows the loop, by how it ended. The session may stop between the last packet and the report.
unfoldable pub after_loop :
    Sender → RtpPacket → Bool → ℤ → ℕ → Progress → Attempt → Bool × Sender × Option (List ℕ)
after_loop s p open_after now unix_us r closed = (false, s, none)
after_loop s p open_after now unix_us r stopped =
    finish_frame s (is_video_frame p.bytes) r (s.sr_state, none)
after_loop s p open_after now unix_us r _ = finish_frame s (is_video_frame p.bytes) r (
    if ltb 0 r.packets_sent_ok && open_after
    then report_frame s p r now unix_us
    else (s.sr_state, none))

-- `SendPackets` of a running session: what it returns, the sender after it, and its report.
unfoldable pub send_packets :
    Sender → List RtpPacket → List Attempt → Bool → ℤ → ℕ → Bool × Sender × Option (List ℕ)
send_packets s [] attempts open_after now unix_us = (false, s, none)
send_packets s (p ∷ packets) attempts open_after now unix_us =
    let cached = record s {
      cache =
          cache_frame s.cache (word_at p.bytes 8) p.frame_id (is_video_frame p.bytes) (p ∷ packets);
    } in
    let r = send_loop (p ∷ packets) attempts 0 0 in
    after_loop cached p open_after now unix_us r r.ended

after_loop-cache :
    (s : Sender) (p : RtpPacket) (open_after : Bool) (now : ℤ) (unix_us : ℕ) (r : Progress)
    (ended : Attempt)
    → (after_loop s p open_after now unix_us r ended).1.cache ≡ s.cache
unfolding after_loop finish_frame
after_loop-cache s p open_after now unix_us r sent = refl
after_loop-cache s p open_after now unix_us r dropped = refl
after_loop-cache s p open_after now unix_us r stopped = refl
after_loop-cache s p open_after now unix_us r closed = refl

-- After any call with a packet, however it ends, the first packet's stream has at most 30 frames in
-- the cache, or 50 where the packet is not video.
pub send_packets-bounded :
    (s : Sender) (p : RtpPacket) (packets : List RtpPacket) (attempts : List Attempt)
    (open_after : Bool) (now : ℤ) (unix_us : ℕ)
    → get_cached_frame_count
        (send_packets s (p ∷ packets) attempts open_after now unix_us).1.cache
        (word_at p.bytes 8)
      ≤ (if is_video_frame p.bytes then 30 else 50)
unfolding send_packets
send_packets-bounded s p packets attempts open_after now unix_us =
    let r = send_loop (p ∷ packets) attempts 0 0 in
    let ssrc = word_at p.bytes 8 in
    let video = is_video_frame p.bytes in
    let cached = record s { cache = cache_frame s.cache ssrc p.frame_id video (p ∷ packets) } in
    rw (after_loop-cache cached p open_after now unix_us r r.ended)
      (cache_frame-bounded s.cache ssrc p.frame_id video (p ∷ packets))

-- Times in nanoseconds, so the tokens of an interval of `n` of them are 10 * n / 2000000.
module _ {W : Type 0} (d : Double W) where
  abbrev of_nanoseconds : ℕ → ℤ → W
  of_nanoseconds k (pos n) = d.ratio n k
  of_nanoseconds k (negsuc n) = d.sub (d.ratio 0 1) (d.ratio (n + 1) k)

  abbrev least : W → W → W
  least a b = if d.lt b a then b else a

  -- `ConsumePacingTokens`: the bucket after it, and whether the packets may go.
  unfoldable pub consume_pacing_tokens : Pacing W → ℤ → ℕ → Pacing W × Bool
  consume_pacing_tokens s now packet_count =
      let refill = d.mul (of_nanoseconds 1000000 (now -ℤ s.pacing_last_refill)) (d.ratio 10 2) in
      let tokens =
        if is_unset s.pacing_last_refill
        then d.ratio 10 1
        else least (d.ratio 10 1) (d.add s.pacing_tokens refill) in
      let count = d.ratio packet_count 1 in
      if d.le count tokens
      then (record { pacing_tokens = d.sub tokens count; pacing_last_refill = now }, true)
      else (record { pacing_tokens = tokens; pacing_last_refill = now }, false)
