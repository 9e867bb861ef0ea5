-- ===== src/Transport.antt =====
-- core/src/cast_transport.cc and core/include/castcore/cast_transport.h: what the transport keeps of
-- the frames that it sent, for retransmission, and what it does with a receiver's feedback. Ids and
-- counters are `uint32_t`s, packet ids `uint16_t`s; a checkpoint or frame id is below 2 ^ 32. Times
-- are the steady clock's. Sockets, threads and waiting are the operating system's.
pub mod Cache
pub mod Retransmission
pub mod Reports
pub mod Send
pub mod Receive
mod Tests
use cast_mirror.Prelude.{
  ℕ, zero, suc, ◌+◌, ◌-◌, ◌*◌, ◌%◌, ◌^◌, Bool, true, false, ◌&&◌, ◌||◌, not, ltb, leb, ◌==◌,
  if◌then◌else◌, List, [], ◌∷◌, ◌++◌, Option, none, some, length,
}
use cast_mirror.Prelude.Int.{ℤ, pos, ◌-ℤ◌, ltb_ℤ}
use cast_mirror.Prelude.Time.{is_unset}
use cast_mirror.Prelude.Maps.{find, insert}
use cast_mirror.Rtp.{RtpPacket}

-- `m[key]` for reading: a missing key gives the default value.
unfoldable pub at {ℓ} : {V : Type ℓ} → V → ℕ → List (ℕ × V) → V
at d k m = elim (find k m) [ some v ↦ v | none ↦ d ]

-- `std::map`s of packets by packet id, and of those by frame id.
abbrev pub FrameCache : Type 0
FrameCache = List (ℕ × List (ℕ × RtpPacket))

abbrev pub SentTimes : Type 0
SentTimes = List (ℕ × List (ℕ × ℤ))

-- The members that `cache_mutex_` guards.
pub record PacketCache : Type 0 where
  pub packet_cache : List (ℕ × FrameCache)
  pub last_sent_frame_id : List (ℕ × ℕ)
  pub last_retransmit_time : List (ℕ × SentTimes)

-- What `Stop` leaves of it.
abbrev pub empty_cache : PacketCache
empty_cache = record { packet_cache = []; last_sent_frame_id = []; last_retransmit_time = [] }

abbrev pub cached_frames : PacketCache → ℕ → FrameCache
cached_frames c ssrc = at [] ssrc c.packet_cache

-- `GetCachedFrameCount`
unfoldable pub get_cached_frame_count : PacketCache → ℕ → ℕ
get_cached_frame_count c ssrc = length (cached_frames c ssrc)

-- `frame_cache[current_fid][pkt.packet_id] = pkt` for each packet.
unfoldable pub store : List RtpPacket → List (ℕ × RtpPacket) → List (ℕ × RtpPacket)
store [] frame = frame
store (p ∷ packets) frame = store packets (insert p.packet_id p frame)

-- `while (frame_cache.size() > max_frames) frame_cache.erase(frame_cache.begin())`
unfoldable pub evict : ℕ → FrameCache → FrameCache
evict max_frames [] = []
evict max_frames (f ∷ frames) =
    if ltb max_frames (length (f ∷ frames)) then evict max_frames frames else f ∷ frames

-- The frames of an ssrc that are kept: 30 of video, 50 of audio.
abbrev pub max_cached_frames : Bool → ℕ
max_cached_frames is_video_frame = if is_video_frame then 30 else 50

-- The part of `SendPackets` that caches a frame.
unfoldable pub cache_frame : PacketCache → ℕ → ℕ → Bool → List RtpPacket → PacketCache
cache_frame c ssrc current_fid is_video_frame packets =
    let frame_cache = cached_frames c ssrc in
    let frame = store packets (at [] current_fid frame_cache) in
    record c {
      last_sent_frame_id = insert ssrc current_fid c.last_sent_frame_id;
      packet_cache =
          insert ssrc
            (evict (max_cached_frames is_video_frame) (insert current_fid frame frame_cache))
            c.packet_cache;
    }

-- `SafeCacheEraseLimit`, with the difference as the `uint32_t` that the code casts to `int32_t`.
unfoldable pub safe_cache_erase_limit : ℕ → ℕ → ℕ
safe_cache_erase_limit checkpoint last_sent =
    let diff = (checkpoint + 2 ^ 32 - last_sent) % 2 ^ 32 in
    if checkpoint == 0
    then 0
    else if ltb 0 diff && ltb diff (2 ^ 31)
    then (if ltb 32 diff then 0 else if ltb 0 last_sent then last_sent - 1 else 0)
    else checkpoint

-- `while (it != end() && it->first <= erase_to) it = erase(it)`
unfoldable pub erase_up_to {ℓ} : {V : Type ℓ} → ℕ → List (ℕ × V) → List (ℕ × V)
erase_up_to erase_to [] = []
erase_up_to erase_to ((j, v) ∷ m) = if leb j erase_to then erase_up_to erase_to m else (j, v) ∷ m

-- A change at a key, where it is present.
unfoldable pub modify {ℓ} : {V : Type ℓ} → ℕ → (V → V) → List (ℕ × V) → List (ℕ × V)
modify k f m = elim (find k m) [ some v ↦ insert k (f v) m | none ↦ m ]

-- What a feedback's checkpoint erases.
unfoldable pub erase_acked : PacketCache → ℕ → ℕ → PacketCache
erase_acked c sender_ssrc checkpoint =
    let erase_to = safe_cache_erase_limit checkpoint (at 0 sender_ssrc c.last_sent_frame_id) in
    if not (sender_ssrc == 0) && ltb 0 erase_to
    then record c {
      packet_cache = modify sender_ssrc (erase_up_to erase_to) c.packet_cache;
      last_retransmit_time = modify sender_ssrc (erase_up_to erase_to) c.last_retransmit_time;
    }
    else c

abbrev pub retransmit_suppress_ns : ℕ
retransmit_suppress_ns = 80000000

-- The `add_if_due` lambda on one packet: the times of its frame, and the packets to send.
unfoldable pub is_due : ℤ → ℤ → Bool
is_due now last = is_unset last || not (ltb_ℤ (now -ℤ last) (pos retransmit_suppress_ns))

unfoldable pub add_if_due : ℤ → List RtpPacket → List (ℕ × ℤ) → List (ℕ × ℤ) × List RtpPacket
add_if_due now [] times = (times, [])
add_if_due now (p ∷ packets) times =
    if is_due now (at (pos 0) p.packet_id times)
    then (let r = add_if_due now packets (insert p.packet_id now times) in (r.0, p ∷ r.1))
    else add_if_due now packets times

abbrev pub values {ℓ} : {V : Type ℓ} → List (ℕ × V) → List V
values [] = []
values ((k, v) ∷ m) = v ∷ values m

-- The packets of a frame that a request names; 0xFFFF names them all.
unfoldable pub requested : List (ℕ × RtpPacket) → ℕ → List RtpPacket
requested frame packet_id =
    if packet_id == 65535
    then values frame
    else elim (find packet_id frame) [ some p ↦ p ∷ [] | none ↦ [] ]

-- The times of a frame's packets.
abbrev pub frame_times : PacketCache → ℕ → ℕ → List (ℕ × ℤ)
frame_times c ssrc frame_id = at [] frame_id (at [] ssrc c.last_retransmit_time)

-- The requested packets, once they are found: those of them that are due.
unfoldable pub resend : PacketCache → ℤ → ℕ → ℕ → List RtpPacket → PacketCache × List RtpPacket
resend c now ssrc frame_id [] = (c, [])
resend c now ssrc frame_id (p ∷ packets) =
    let by_frame = at [] ssrc c.last_retransmit_time in
    let r = add_if_due now (p ∷ packets) (frame_times c ssrc frame_id) in
    (
      record c {
        last_retransmit_time = insert ssrc (insert frame_id r.0 by_frame) c.last_retransmit_time;
      },
      r.1,
    )

-- `RetransmitPacket` up to the sending: the cache after it, and the packets that it sends.
unfoldable pub retransmit_packet : PacketCache → ℤ → ℕ → ℕ → ℕ → PacketCache × List RtpPacket
retransmit_packet c now ssrc frame_id packet_id =
    resend c now ssrc frame_id (requested (at [] frame_id (cached_frames c ssrc)) packet_id)
