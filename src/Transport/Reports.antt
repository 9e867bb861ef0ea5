-- ===== src/Transport/Reports.antt =====
-- Sender reports and the smoothed round-trip time. The statistics of one stream are the
-- `SenderReportState`; the doubles are a parameter.
use cast_mirror.Prelude.{
  ℕ, ◌+◌, ◌-◌, ◌*◌, ◌/◌, ◌%◌, ◌^◌, ◌<◌, Bool, true, false, ◌&&◌, not, if◌then◌else◌, ◌≡◌, ap,
  Option, some, none, List, ◌∷◌, ◌++◌, arith,
}
use cast_mirror.Prelude.Bytes.{be32}
use cast_mirror.Prelude.Int.{ℤ, pos, negsuc, ◌-ℤ◌, ◌*ℤ◌}
use cast_mirror.Prelude.Reads.{read8, read32, is_some}
use cast_mirror.Prelude.Time.{quot, millis, at_least, is_unset}
use cast_mirror.Prelude.Double.{Double}
use cast_mirror.Rtcp.{now_mid32}

pub record SenderReportState : Type 0 where
  pub last_rtp_timestamp : ℕ
  pub packets : ℕ
  pub octets : ℕ
  pub last_sr : ℤ

-- The default member values.
abbrev pub no_reports : SenderReportState
no_reports = record { last_rtp_timestamp = 0; packets = 0; octets = 0; last_sr = pos 0 }

-- `static_cast<uint32_t>` of an integer.
abbrev pub to_u32 : ℤ → ℕ
to_u32 (pos n) = n % 2 ^ 32
to_u32 (negsuc n) = 2 ^ 32 - 1 - n % 2 ^ 32

-- The NTP time of a time in microseconds since the epoch.
unfoldable pub ntp_sec : ℕ → ℕ
ntp_sec unix_us = (unix_us / 1000000 + 2208988800) % 2 ^ 32

unfoldable pub ntp_frac : ℕ → ℕ
ntp_frac unix_us = unix_us % 1000000 * 2 ^ 32 / 1000000 % 2 ^ 32

-- The frame's timestamp advanced to `now`; times are in nanoseconds, the timebase in Hz.
unfoldable pub rtp_now : ℕ → ℤ → ℕ → ℤ → ℕ
rtp_now rtp_timestamp capture_time rtp_timebase now =
    if is_unset capture_time
    then rtp_timestamp
    else (rtp_timestamp
        + to_u32 (quot (quot (now -ℤ capture_time) 1000 *ℤ pos rtp_timebase) 1000000))
      % 2 ^ 32

-- The 28 bytes of a sender report.
unfoldable pub report_bytes : ℕ → ℕ → ℕ → SenderReportState → List ℕ
report_bytes ssrc unix_us rtp st =
    128 ∷ 200 ∷ 0 ∷ 6 ∷ be32 ssrc
    ++ be32 (ntp_sec unix_us)
    ++ be32 (ntp_frac unix_us)
    ++ be32 rtp
    ++ be32 st.packets
    ++ be32 st.octets

-- `MaybeSendSenderReport` on an open socket, for a stream whose ssrc is not 0: the statistics after
-- it, and the report that it sends. The arguments after the timebase are what was just sent, the
-- steady clock and the system clock.
unfoldable pub maybe_send_sender_report :
    SenderReportState → ℕ → ℕ → ℤ → ℕ → ℕ → ℕ → ℤ → ℕ → SenderReportState × Option (List ℕ)
maybe_send_sender_report st ssrc rtp_timestamp capture_time timebase packets octets now unix_us =
    let counted = record st {
      last_rtp_timestamp = rtp_timestamp;
      packets = (st.packets + packets) % 2 ^ 32;
      octets = (st.octets + octets) % 2 ^ 32;
    } in
    if not (is_unset st.last_sr) && not (at_least 40 (millis (now -ℤ st.last_sr)))
    then (counted, none)
    else (
      record counted { last_sr = now },
      some (report_bytes ssrc unix_us (rtp_now rtp_timestamp capture_time timebase now) counted),
    )

-- Both clocks count the fraction in parts of a second, 2 ^ 32 and 2 ^ 16 of them.
fraction_mid : (u : ℕ) → u < 1000000 → u * 2 ^ 32 / 1000000 / 65536 ≡ u * 65536 / 1000000
fraction_mid u h = omega arith

-- The middle 32 bits of the NTP time in a report, which a receiver echoes, are those that the parser
-- of the echo computes for the same time.
pub report_bytes-mid32 :
    (ssrc unix_us rtp : ℕ) (st : SenderReportState)
    → read32 (report_bytes ssrc unix_us rtp st) 10 ≡ some (now_mid32 unix_us)
unfolding report_bytes read32 read8 now_mid32 ntp_sec ntp_frac
report_bytes-mid32 ssrc t rtp st = ap some (omega (arith, fraction_mid (t % 1000000) (omega arith)))

-- Two reports of a stream are at least 40 ms apart: where a call sends a report at a time that is
-- not 0, a second call sends one only if 40 ms or more went by.
pub reports_apart :
    (st : SenderReportState) (ssrc ts ts' : ℕ) (capture capture' : ℤ) (timebase n n' o o' : ℕ)
    (now now' : ℤ) (us us' : ℕ)
    → is_unset now ≡ false
    → let first = maybe_send_sender_report st ssrc ts capture timebase n o now us in
      is_some first.1 ≡ true
      → is_some (maybe_send_sender_report first.0 ssrc ts' capture' timebase n' o' now' us').1
        ≡ true
      → at_least 40 (millis (now' -ℤ now)) ≡ true
unfolding maybe_send_sender_report
reports_apart st ssrc ts ts' capture capture' timebase n n' o o' now now' us us' set first second =
    ground arith

-- Every call counts what was sent, whether or not it sends a report.
pub maybe_send_sender_report_counts :
    (st : SenderReportState) (ssrc ts : ℕ) (capture : ℤ) (timebase n o : ℕ) (now : ℤ) (us : ℕ)
    → let st' = (maybe_send_sender_report st ssrc ts capture timebase n o now us).0 in
      (st'.packets ≡ (st.packets + n) % 2 ^ 32) × (st'.octets ≡ (st.octets + o) % 2 ^ 32)
unfolding maybe_send_sender_report
maybe_send_sender_report_counts st ssrc ts capture timebase n o now us = ground arith

-- `UpdateEwmaRtt` and `ConsumePacingTokens`: the smoothed values and the token bucket.
pub record Smoothed (W : Type 0) : Type 0 where
  pub ewma_rtt_ms : W
  pub ewma_jitter_ms : W
  pub ewma_initialized : Bool

pub record Pacing (W : Type 0) : Type 0 where
  pub pacing_tokens : W
  pub pacing_last_refill : ℤ

module _ {W : Type 0} (d : Double W) where
  unfoldable pub update_ewma_rtt : Smoothed W → W → Smoothed W
  update_ewma_rtt s sample_ms =
      if s.ewma_initialized
      then record {
        ewma_rtt_ms = d.add (d.mul (d.ratio 8 10) s.ewma_rtt_ms) (d.mul (d.ratio 2 10) sample_ms);
        ewma_jitter_ms =
            d.add (d.mul (d.ratio 9 10) s.ewma_jitter_ms)
              (d.mul (d.ratio 1 10) (d.abs (d.sub sample_ms s.ewma_rtt_ms)));
        ewma_initialized = true;
      }
      else record { ewma_rtt_ms = sample_ms; ewma_jitter_ms = d.ratio 0 1; ewma_initialized = true }
