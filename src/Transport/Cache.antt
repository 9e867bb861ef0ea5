-- ===== src/Transport/Cache.antt =====
-- The retransmission cache: what it holds is bounded, and what it keeps.
use cast_mirror.Prelude.{
  ℕ, suc, ◌+◌, ◌^◌, ◌≤◌, ◌<◌, Bool, if◌then◌else◌, ◌≡◌, ◌≢◌, refl, inl, inr, List, [], ◌∷◌, none,
  some, length, arith, Option-cases,
}
use cast_mirror.Prelude.Maps.{find, insert, find-insert, IsOrdered, insert-Above, Above-mono}
use cast_mirror.Rtp.{RtpPacket}
use cast_mirror.Transport.{
  at, FrameCache, PacketCache, cached_frames, get_cached_frame_count, store, evict,
  max_cached_frames, cache_frame, safe_cache_erase_limit, erase_up_to, modify, erase_acked,
}

pub at-insert {ℓ} :
    {V : Type ℓ} (d : V) (k : ℕ) (v : V) (m : List (ℕ × V)) → at d k (insert k v m) ≡ v
unfolding at
at-insert d k v m = ground (arith, find-insert k k v m)

evict_bound : (n : ℕ) (frames : FrameCache) → length (evict n frames) ≤ n
unfolding evict
evict_bound n [] = omega arith
evict_bound n (f ∷ frames) = ground (arith, evict_bound n frames)

-- No key is above the bound.
abbrev pub UpTo {ℓ} : {V : Type ℓ} → ℕ → List (ℕ × V) → Type 0
UpTo n [] = Unit {0}
UpTo n ((j, v) ∷ m) = (j ≤ n) × UpTo n m

-- The entry with the greatest key is the last to go.
evict_keeps :
    (n k : ℕ) (frames : FrameCache)
    → IsOrdered frames
    → 0 < n
    → UpTo k frames
    → find k (evict n frames) ≡ find k frames
unfolding evict find
evict_keeps n k [] o pos u = refl
evict_keeps n k ((j, f) ∷ []) o pos u = ground arith
evict_keeps n k ((j, f) ∷ (i, g) ∷ frames) o pos u = ground (
  arith,
  evict_keeps n k ((i, g) ∷ frames) (Above-mono 0 (suc j) ((i, g) ∷ frames) (omega arith) o.1) pos
      u.1,
)

insert-UpTo {ℓ} :
    {V : Type ℓ} (n k : ℕ) (v : V) (m : List (ℕ × V)) → k ≤ n → UpTo n m → UpTo n (insert k v m)
unfolding insert
insert-UpTo n k v [] h u = (h, tt)
insert-UpTo n k v ((j, w) ∷ m) h u = ground (arith, insert-UpTo n k v m)

-- After a frame is cached, its stream has at most 30 frames of video or 50 of audio in the cache,
-- however many there were before.
pub cache_frame-bounded :
    (c : PacketCache) (ssrc current_fid : ℕ) (is_video_frame : Bool) (packets : List RtpPacket)
    → get_cached_frame_count (cache_frame c ssrc current_fid is_video_frame packets) ssrc
      ≤ (if is_video_frame then 30 else 50)
unfolding cache_frame get_cached_frame_count
cache_frame-bounded c ssrc fid video packets =
    let frames = cached_frames c ssrc in
    let frame = store packets (at [] fid frames) in
    rw (at-insert) (evict_bound (max_cached_frames video) (insert fid frame frames))

-- Where no cached frame of its stream has a greater id, the frame that is cached is in the cache
-- afterwards, with its packets.
pub cache_frame_kept :
    (c : PacketCache) (ssrc fid : ℕ) (is_video_frame : Bool) (packets : List RtpPacket)
    → IsOrdered (cached_frames c ssrc)
    → UpTo fid (cached_frames c ssrc)
    → find fid (cached_frames (cache_frame c ssrc fid is_video_frame packets) ssrc)
      ≡ some (store packets (at [] fid (cached_frames c ssrc)))
unfolding cache_frame
cache_frame_kept c ssrc fid video packets o u =
    let frames = cached_frames c ssrc in
    let frame = store packets (at [] fid frames) in
    let kept =
      evict_keeps (max_cached_frames video) fid (insert fid frame frames)
        (insert-Above 0 fid frame frames (omega arith) o) (grind arith)
        (insert-UpTo fid fid frame frames (omega arith) u) in
    rw (at-insert, kept, find-insert) (grind arith)

pub erase_up_to_keeps {ℓ} :
    {V : Type ℓ} (erase_to k : ℕ) (m : List (ℕ × V))
    → erase_to < k
    → find k (erase_up_to erase_to m) ≡ find k m
unfolding erase_up_to find
erase_up_to_keeps n k [] h = refl
erase_up_to_keeps n k ((j, v) ∷ m) h = ground (arith, erase_up_to_keeps n k m h)

erase_limit_below :
    (checkpoint last_sent : ℕ)
    → last_sent < 2 ^ 32
    → checkpoint < last_sent + 2 ^ 31
    → checkpoint < 2 ^ 32
    → checkpoint ≢ last_sent
    → 0 < safe_cache_erase_limit checkpoint last_sent
    → safe_cache_erase_limit checkpoint last_sent < last_sent
unfolding safe_cache_erase_limit
erase_limit_below checkpoint last_sent small near wide ne h = ground arith

pub at-some {ℓ} :
    {V : Type ℓ} (d : V) (k : ℕ) (m : List (ℕ × V)) (v : V) → find k m ≡ some v → at d k m ≡ v
unfolding at
at-some d k m v e = rw (at, e) refl

modify-some {ℓ} :
    {V : Type ℓ} (k : ℕ) (f : V → V) (m : List (ℕ × V)) (v : V)
    → find k m ≡ some v
    → modify k f m ≡ insert k (f v) m
unfolding modify
modify-some k f m v e = rw (modify, e) refl

modify-none {ℓ} :
    {V : Type ℓ} (k : ℕ) (f : V → V) (m : List (ℕ × V)) → find k m ≡ none → modify k f m ≡ m
unfolding modify
modify-none k f m e = rw (modify, e) refl

modify-at {ℓ} :
    {V : Type ℓ} (k i : ℕ) (f : List (ℕ × V) → List (ℕ × V)) (m : List (ℕ × List (ℕ × V)))
    → ((x : List (ℕ × V)) → find i (f x) ≡ find i x)
    → find i (at [] k (modify k f m)) ≡ find i (at [] k m)
modify-at k i f m same = elim (Option-cases (find k m)) [
  | inl e ↦ rw (modify-none k f m e) refl
  | inr (v, e) ↦ rw (modify-some k f m v e, at-insert, at-some [] k m v e) (same v)
]

erased_keeps :
    (limit last ssrc : ℕ) (m : List (ℕ × FrameCache))
    → limit < last
    → find last (at [] ssrc (modify ssrc (erase_up_to limit) m)) ≡ find last (at [] ssrc m)
erased_keeps limit last ssrc m h =
    modify-at ssrc last (erase_up_to limit) m (λ x. erase_up_to_keeps limit last x h)

-- Feedback for a stream, with a checkpoint that is not 2 ^ 31 frames or more ahead of the last frame
-- sent, takes that frame out of the cache only if it is the frame that the checkpoint acknowledges.
pub erase_acked_keeps_last :
    (c : PacketCache) (ssrc checkpoint : ℕ)
    → let last = at 0 ssrc c.last_sent_frame_id in
      last < 2 ^ 32
      → checkpoint < 2 ^ 32
      → checkpoint < last + 2 ^ 31
      → checkpoint ≢ last
      → find last (cached_frames (erase_acked c ssrc checkpoint) ssrc)
        ≡ find last (cached_frames c ssrc)
unfolding erase_acked
erase_acked_keeps_last c ssrc checkpoint small wide near ne =
    let last = at 0 ssrc c.last_sent_frame_id in
    let limit = safe_cache_erase_limit checkpoint last in
    let below = erase_limit_below checkpoint last small near wide ne in
    ground (arith, erased_keeps limit last ssrc c.packet_cache)
