-- ===== src/Transport/Tests.antt =====
-- A stream of two packets, and the theorems at concrete inputs.
use cast_mirror.Prelude.{
  ℕ, ◌*◌, ◌≤◌, true, false, if◌then◌else◌, ◌≡◌, ◌≢◌, refl, List, [], ◌∷◌, some, All, arith,
}
use cast_mirror.Prelude.Int.{ℤ, pos, ◌-ℤ◌}
use cast_mirror.Prelude.Double.{fixed_point}
use cast_mirror.Prelude.Maps.{find, insert}
use cast_mirror.Rtp.{RtpPacket}
use cast_mirror.Rtcp.{RtcpFeedback, no_feedback}
use cast_mirror.Transport.{
  at, PacketCache, empty_cache, cached_frames, get_cached_frame_count, cache_frame, store, evict,
  is_due, add_if_due, resend, requested, retransmit_packet, safe_cache_erase_limit,
}
use cast_mirror.Transport.Cache.{cache_frame-bounded, cache_frame_kept}
use cast_mirror.Transport.Retransmission.{retransmit_packet_suppressed, cached_frame_resent}
use cast_mirror.Transport.Receive.{Receiver, handle_feedback, handle_feedback_keeps_last}
use cast_mirror.Transport.Send.{
  sent, dropped, Sender, send_packets, send_loop, after_loop, finish_frame, word_at, is_video_frame,
  send_packets-bounded,
}

abbrev packet : ℕ → RtpPacket
packet id = record {
  bytes = 128 ∷ 96 ∷ 0 ∷ 1 ∷ 0 ∷ 0 ∷ 0 ∷ 9 ∷ 0 ∷ 0 ∷ 0 ∷ 5 ∷ 77 ∷ [];
  sequence_number = 1;
  frame_id = 7;
  packet_id = id;
  max_packet_id = 1;
  is_key_frame = true;
  capture_time = pos 0;
}

abbrev frame : List RtpPacket
frame = packet 0 ∷ packet 1 ∷ []

abbrev cached : PacketCache
cached = cache_frame empty_cache 5 7 true frame

abbrev ms : ℕ → ℤ
ms n = pos (n * 1000000)

-- A checkpoint too far ahead keeps the cache; one slightly ahead keeps the newest frame.
limits :
    (safe_cache_erase_limit 100 60 ≡ 0)
    × (safe_cache_erase_limit 65 60 ≡ 59)
    × (safe_cache_erase_limit 50 60 ≡ 50)
    × (safe_cache_erase_limit 0 60 ≡ 0)
unfolding safe_cache_erase_limit
limits = (refl, refl, refl, refl)

resent_all : (retransmit_packet cached (ms 100) 5 7 65535).1 ≡ frame
unfolding retransmit_packet requested resend add_if_due is_due at find insert cache_frame store
    evict
resent_all = refl

cache_frame-bounded_example : get_cached_frame_count (cache_frame cached 5 8 true frame) 5 ≤ 30
cache_frame-bounded_example = cache_frame-bounded cached 5 8 true frame

cache_frame_kept_example :
    find 7 (cached_frames cached 5) ≡ some (store frame (at [] 7 (cached_frames empty_cache 5)))
unfolding at find
cache_frame_kept_example = cache_frame_kept empty_cache 5 7 true frame tt tt

cached_frame_resent_example : (retransmit_packet cached (ms 100) 5 7 1).1 ≡ packet 1 ∷ []
unfolding at find
cached_frame_resent_example =
    cached_frame_resent empty_cache (ms 100) 5 7 true (packet 0 ∷ []) (packet 1) [] tt tt
      (omega arith) tt refl

retransmit_packet_suppressed_example :
    let first = retransmit_packet cached (ms 100) 5 7 65535 in
    let second = retransmit_packet first.0 (ms 150) 5 7 1 in
    All (λ p. All (λ q. q.packet_id ≢ p.packet_id) second.1) first.1
unfolding ◌-ℤ◌
retransmit_packet_suppressed_example =
    retransmit_packet_suppressed cached (ms 100) (ms 150) 5 7 65535 1 refl refl

abbrev receiver : Receiver ℤ
receiver = record {
  cache = cached;
  smoothed = record { ewma_rtt_ms = pos 0; ewma_jitter_ms = pos 0; ewma_initialized = false };
  last_rtt_ms = pos 0;
  last_jitter_ms = pos 0;
  last_loss_fraction = pos 0;
  total_nacks_received = 0;
  total_pli_received = 0;
}

abbrev feedback : RtcpFeedback
feedback = record no_feedback {
  sender_ssrc = 5;
  checkpoint_frame_id = 6;
  nacks = record { frame_id = 7; packet_id = 1 } ∷ [];
}

handle_feedback_keeps_last_example :
    find 7 (cached_frames (handle_feedback fixed_point receiver (λ i. ms 100) feedback).0.cache 5)
    ≡ find 7 (cached_frames cached 5)
unfolding cache_frame at find insert
handle_feedback_keeps_last_example =
    handle_feedback_keeps_last fixed_point receiver (λ i. ms 100) feedback (omega arith)
      (omega arith) (omega arith) (omega arith)

abbrev sender : Sender
sender = record {
  cache = empty_cache;
  sr_state = [];
  total_packets_sent = 0;
  total_frames_sent = 0;
}

sent_one : (send_packets sender frame (sent ∷ dropped ∷ []) false (ms 10) 0).0 ≡ true
unfolding send_packets send_loop after_loop finish_frame
sent_one = refl

send_packets-bounded_example :
    get_cached_frame_count
      (send_packets sender
        (packet 0 ∷ packet 1 ∷ [])
        (sent ∷ dropped ∷ [])
        true
        (ms 10)
        1700000000000000).1.cache
      (word_at (packet 0).bytes 8)
    ≤ (if is_video_frame (packet 0).bytes then 30 else 50)
send_packets-bounded_example =
    send_packets-bounded sender (packet 0) (packet 1 ∷ []) (sent ∷ dropped ∷ []) true (ms 10)
      1700000000000000
