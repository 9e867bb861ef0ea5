-- ===== src/Pacer.antt =====
-- core/include/castcore/frame_pacer.h: captured frames, which come when the desktop changes, become a
-- stream of a steady rate. Time points are nanoseconds, pixels are a list of bytes, and a borrowed
-- frame is its value.
pub mod Timestamps
mod Tests
use cast_mirror.Prelude.{
  ℕ, ◌+◌, ◌-◌, ◌*◌, ◌/◌, min, Bool, true, false, ◌&&◌, ◌||◌, not, ltb, if◌then◌else◌, Option, none,
  some, List, [], length,
}
use cast_mirror.Prelude.Int.{ℤ, pos, ◌+ℤ◌, ◌-ℤ◌, ◌*ℤ◌, ltb_ℤ}
use cast_mirror.Prelude.Time.{quot}

-- The fields of `CapturedVideoFrame` that a pacer reads or moves.
pub record CapturedVideoFrame : Type 0 where
  pub pixels : List ℕ
  pub timestamp : ℤ

abbrev pub no_frame : CapturedVideoFrame
no_frame = record { pixels = []; timestamp = pos 0 }

pub record FramePacer : Type 0 where
  pub target_fps : ℕ
  pub next_emit : ℤ
  pub last_emit_ts : ℤ
  pub last_emit_now : ℤ
  pub pending : CapturedVideoFrame
  pub pending_crop : ℤ × ℤ
  pub have_pending : Bool
  pub spare : List ℕ
  pub last : CapturedVideoFrame
  pub last_crop : ℤ × ℤ
  pub have_last : Bool

-- What a tick emits, with its crop offsets.
pub record Decision : Type 0 where
  pub frame : Option CapturedVideoFrame
  pub crop : ℤ × ℤ
  pub fresh : Bool

-- `SetTargetFps`; a number that is not positive changes nothing.
unfoldable pub set_target_fps : FramePacer → ℕ → FramePacer
set_target_fps p fps = record p { target_fps = if ltb 0 fps then fps else p.target_fps }

unfoldable pub reset : FramePacer → ℤ → FramePacer
reset p now = record p {
  next_emit = now;
  last_emit_now = now;
  last_emit_ts = pos 0;
  have_pending = false;
  have_last = false;
  pending = no_frame;
  last = no_frame;
  spare = [];
}

unfoldable pub submit : FramePacer → CapturedVideoFrame → ℤ × ℤ → FramePacer
submit p frame crop = record p { pending = frame; pending_crop = crop; have_pending = true }

-- `TakeSupersededBuffer`
unfoldable pub take_superseded_buffer : FramePacer → FramePacer × List ℕ
take_superseded_buffer p = (record p { spare = [] }, p.spare)

-- `Interval`, in nanoseconds.
unfoldable pub interval : FramePacer → ℕ
interval p = 1000000 / (if ltb 0 p.target_fps then p.target_fps else 60) * 1000

unfoldable pub has_frame : FramePacer → Bool
has_frame p = p.have_last || p.have_pending

unfoldable pub wait_slice_ms : FramePacer → ℤ → ℕ
wait_slice_ms p now =
    if not (ltb_ℤ now p.next_emit)
    then 0
    else elim (quot (p.next_emit -ℤ now) 1000000) [ pos ms ↦ min ms 100 | _ ↦ 0 ]

-- The deadline after the resync test.
unfoldable pub resync : FramePacer → ℤ → FramePacer
resync p now =
    let slack = pos (4 * interval p) in
    if ltb_ℤ (p.next_emit +ℤ slack) now || ltb_ℤ (now +ℤ slack) p.next_emit
    then record p { next_emit = now }
    else p

-- A staged frame becomes the last one.
unfoldable pub take_pending : FramePacer → FramePacer
take_pending p =
    if p.have_pending
    then record p {
      spare =
          if p.have_last && ltb (length p.spare) (length p.last.pixels)
          then p.last.pixels
          else p.spare;
      last = p.pending;
      last_crop = p.pending_crop;
      pending = record p.pending { pixels = [] };
      have_pending = false;
      have_last = true;
    }
    else p

-- The microseconds since the last emit, at least 1000 of them, in nanoseconds.
unfoldable pub elapsed_step : FramePacer → ℤ → ℤ
elapsed_step p now =
    let elapsed = quot (now -ℤ p.last_emit_now) 1000 in
    (if ltb_ℤ (pos 1000) elapsed then elapsed else pos 1000) *ℤ pos 1000

-- The stamp of the frame that is emitted.
unfoldable pub stamp : FramePacer → Bool → ℤ → ℤ
stamp p fresh now =
    if not fresh || not (ltb_ℤ p.last_emit_ts p.last.timestamp)
    then p.last_emit_ts +ℤ elapsed_step p now
    else p.last.timestamp

-- A tick that is due.
unfoldable pub emit : FramePacer → Bool → ℤ → FramePacer × Decision
emit p fresh now =
    let frame = record p.last { timestamp = stamp p fresh now } in
    if p.have_last
    then (
      record p {
        last = frame;
        last_emit_ts = frame.timestamp;
        last_emit_now = now;
        next_emit = p.next_emit +ℤ pos (interval p);
      },
      record { frame = some frame; crop = p.last_crop; fresh = fresh },
    )
    else (
      record p { next_emit = p.next_emit +ℤ pos (interval p) },
      record { frame = none; crop = (pos 0, pos 0); fresh = fresh },
    )

unfoldable pub tick : FramePacer → ℤ → FramePacer × Decision
tick p now =
    let synced = resync p now in
    if ltb_ℤ now synced.next_emit
    then (synced, record { frame = none; crop = (pos 0, pos 0); fresh = false })
    else emit (take_pending synced) synced.have_pending now
