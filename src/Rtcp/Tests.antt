-- ===== src/Rtcp/Tests.antt =====
-- The parser on small datagrams, and its theorems at concrete inputs.
use cast_mirror.Prelude.{ℕ, ◌%◌, Bool, true, ◌≡◌, refl, [], ◌∷◌, none, some, arith}
use cast_mirror.Prelude.Maps.{find}
use cast_mirror.Rtcp.{RtcpFeedback, expand_frame_id, parse_internal, parse_compound_by_ssrc}
use cast_mirror.Rtcp.Frames.{expand_frame_id-mod}
use cast_mirror.Rtcp.Safety.{parse_internal_total}
use cast_mirror.Rtcp.Receiver.{nack_burst}
use cast_mirror.Rtcp.Exchange.{burst_feedback, nack_burst_parsed}

abbrev frozen : ℕ → ℕ
frozen n = 0

-- Frame 300 after frame 299, and a truncated id that crosses a multiple of 256.
expand_near_wrap : expand_frame_id 2 254 ≡ 258
unfolding expand_frame_id
expand_near_wrap = refl

-- The sum that the code compares with wraps.
expanded_at_wrap : expand_frame_id 255 4294967295 ≡ 4294967039
unfolding expand_frame_id
expanded_at_wrap = refl

expand_frame_id-mod_example : expand_frame_id (258 % 256) 254 ≡ 258
expand_frame_id-mod_example = expand_frame_id-mod 258 254 (omega arith) (omega arith) (omega arith)

-- A length field that points past the end.
parse_internal_total_example :
    (parsed : Bool) × (fb : RtcpFeedback) × (parse_internal frozen
        (0x80 ∷ 201 ∷ 255 ∷ 255 ∷ 0 ∷ [])
        7
        none
      ≡ some (parsed, fb))
parse_internal_total_example = parse_internal_total frozen (0x80 ∷ 201 ∷ 255 ∷ 255 ∷ 0 ∷ []) 7 none

nack_burst_parsed_example :
    parse_compound_by_ssrc frozen (nack_burst 258 (3 ∷ 65535 ∷ [])) ((2, 254) ∷ [])
    ≡ some (true, burst_feedback 258 (3 ∷ 65535 ∷ []))
unfolding find
nack_burst_parsed_example =
    nack_burst_parsed frozen 258 254 (3 ∷ 65535 ∷ []) ((2, 254) ∷ []) refl (omega arith)
      (omega arith) (omega arith) (omega arith) (omega arith)
