-- ===== src/Media/Timeline.antt =====
-- The stamps of the audio frames that are sent, whichever clock supplied them.
use cast_mirror.Prelude.{ℕ, Bool, ◌&&◌, if◌then◌else◌, ◌≡◌, List, [], ◌∷◌, Option, none, some}
use cast_mirror.Prelude.Int.{ℤ, pos, ◌+ℤ◌, ◌≤ℤ◌}
use cast_mirror.Rtp.{EncodedFrame}
use cast_mirror.Media.{
  steady_us, CapturedAudioFrame, AudioPath, AudioOutcome, Answers, frame_us, silence,
  process_audio_frame,
}

-- What a frame of `n` microseconds does to the last stamp.
Stepped : ℤ → ℕ → ℤ → Option EncodedFrame → Type 0
Stepped t n t' none = t' ≡ t
Stepped t n t' (some f) = (t' ≡ steady_us f.capture_time) × (t +ℤ pos n ≤ℤ steady_us f.capture_time)

abbrev StampedAt : ℤ → Option EncodedFrame → Type 0
StampedAt t none = Unit {0}
StampedAt t (some f) = f.capture_time ≡ t

-- What the threads call: a captured frame with the time of a silent one and its zeros, or the mute switch.
pub data Call : Type 0 where
  captured : CapturedAudioFrame → ℤ → List ℕ → Answers → Call
  mute : Bool → Call

abbrev frame_of : AudioPath → CapturedAudioFrame → ℤ → List ℕ → CapturedAudioFrame
frame_of a frame now zeros = if a.is_audio_muted && a.is_streaming then silence now zeros else frame

pub stamps_of : ℕ → Option EncodedFrame → List (ℤ × ℕ) → List (ℤ × ℕ)
stamps_of n none rest = rest
stamps_of n (some f) rest = (steady_us f.capture_time, n) ∷ rest

abbrev pub Advance : ℤ → List (ℤ × ℕ) → Type 0
Advance t [] = Unit {0}
Advance t ((u, n) ∷ rest) = (t +ℤ pos n ≤ℤ u) × Advance u rest

module _ (stream : List ℕ → List ℕ → ℕ → ℕ) where
  unfoldable pub stamps : AudioPath → List Call → List (ℤ × ℕ)
  stamps a [] = []
  stamps a (mute m ∷ calls) = stamps (record a { is_audio_muted = m }) calls
  stamps a (captured frame now zeros answers ∷ calls) =
      let r = process_audio_frame stream a frame now zeros answers in
      stamps_of (frame_us (frame_of a frame now zeros)) r.sent_frame (stamps r.path calls)

  abbrev OutcomeStepped : ℤ → ℕ → AudioOutcome → Type 0
  OutcomeStepped t n r = Stepped t n r.path.last_audio_emit_us r.sent_frame
