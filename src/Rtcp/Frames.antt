-- ===== src/Rtcp/Frames.antt =====
-- `ExpandFrameId`: the 32-bit frame id that an 8-bit truncated one stands for.
use cast_mirror.Prelude.{ℕ, ◌+◌, ◌%◌, ◌^◌, ◌≤◌, ◌<◌, ◌≡◌, arith}
use cast_mirror.Rtcp.{expand_frame_id}

-- A truncated id expands to the frame that it came from, if that lies within 127 frames of the
-- reference, before it or ahead of it, and the reference is not within 256 of the wrap.
pub expand_frame_id-mod :
    (id reference : ℕ)
    → id ≤ reference + 127
    → reference ≤ id + 127
    → reference + 256 < 2 ^ 32
    → expand_frame_id (id % 256) reference ≡ id
unfolding expand_frame_id
expand_frame_id-mod id reference h k w = ground arith

-- Whatever byte arrives, the expanded id keeps it as its low byte, and is at most 128 frames away
-- from the reference, if the reference is at least 128 and not within 256 of the wrap.
pub expand_frame_id-near :
    (truncated reference : ℕ)
    → truncated < 256
    → 128 ≤ reference
    → reference + 256 < 2 ^ 32
    → (expand_frame_id truncated reference % 256 ≡ truncated)
      × (expand_frame_id truncated reference ≤ reference + 128)
      × (reference ≤ expand_frame_id truncated reference + 128)
unfolding expand_frame_id
expand_frame_id-near truncated reference h k w = ground arith
