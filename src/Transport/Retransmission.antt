-- ===== src/Transport/Retransmission.antt =====
-- Retransmission: what a request brings, and how often.
use cast_mirror.Prelude.{
  ℕ, Bool, true, false, ◌==◌, if◌then◌else◌, ◌≡◌, ◌≢◌, refl, ap, ◌∙◌, List, [], ◌∷◌, ◌++◌, some,
  arith, All, if_cases,
}
use cast_mirror.Prelude.Int.{ℤ, pos, ◌-ℤ◌, ltb_ℤ}
use cast_mirror.Prelude.Time.{is_unset}
use cast_mirror.Prelude.Maps.{IsOrdered, find, insert, find-insert}
use cast_mirror.Rtp.{RtpPacket}
use cast_mirror.Transport.{
  at, PacketCache, cached_frames, is_due, add_if_due, requested, retransmit_packet, resend,
  frame_times, store, cache_frame,
}
use cast_mirror.Transport.Cache.{at-insert, at-some, UpTo, cache_frame_kept}

at-insert_cases {ℓ} :
    {V : Type ℓ} (d : V) (k j : ℕ) (v : V) (m : List (ℕ × V))
    → at d j (insert k v m) ≡ (if k == j then v else at d j m)
unfolding at
at-insert_cases d k j v m = ground (arith, find-insert k j v m)

-- A time once set to `now` stays.
time_stays :
    (now : ℤ) (packets : List RtpPacket) (times : List (ℕ × ℤ)) (k : ℕ)
    → at (pos 0) k times ≡ now
    → at (pos 0) k (add_if_due now packets times).0 ≡ now
unfolding add_if_due
time_stays now [] times k h = h
time_stays now (p ∷ packets) times k h =
    let set = at-insert_cases (pos 0) p.packet_id k now times in
    ground (
      arith,
      time_stays now packets times k,
      time_stays now packets (insert p.packet_id now times) k,
    )

SetTo : ℤ → List (ℕ × ℤ) × List RtpPacket → Type 0
SetTo now r = All (λ p. at (pos 0) p.packet_id r.0 ≡ now) r.1

-- What is sent has its time set.
sent_times :
    (now : ℤ) (packets : List RtpPacket) (times : List (ℕ × ℤ))
    → SetTo now (add_if_due now packets times)
unfolding add_if_due SetTo
sent_times now [] times = tt
sent_times now (p ∷ packets) times =
    let set = insert p.packet_id now times in
    let r = add_if_due now packets set in
    if_cases (SetTo now) (is_due now (at (pos 0) p.packet_id times)) (r.0, p ∷ r.1)
      (add_if_due now packets times)
      (
        time_stays now packets set p.packet_id (at-insert (pos 0) p.packet_id now times),
        sent_times now packets set,
      )
      (sent_times now packets times)

-- A packet whose time is recent is not sent.
none_sent :
    (now : ℤ) (packets : List RtpPacket) (times : List (ℕ × ℤ)) (k : ℕ)
    → is_due now (at (pos 0) k times) ≡ false
    → All (λ q. q.packet_id ≢ k) (add_if_due now packets times).1
unfolding add_if_due
none_sent now [] times k h = tt
none_sent now (p ∷ packets) times k h =
    let set = at-insert_cases (pos 0) p.packet_id k now times in
    ground
      (arith, none_sent now packets times k, none_sent now packets (insert p.packet_id now times) k)

not_due :
    (now next : ℤ)
    → is_unset now ≡ false
    → ltb_ℤ (next -ℤ now) (pos 80000000) ≡ true
    → is_due next now ≡ false
unfolding is_due
not_due now next set soon = rw (set, soon) refl

All-map {ℓ κ κ'} :
    {A : Type ℓ} (P : A → Type κ) (Q : A → Type κ') (xs : List A)
    → ((a : A) → P a → Q a)
    → All P xs
    → All Q xs
All-map P Q [] f h = tt
All-map P Q (x ∷ xs) f h = (f x h.0, All-map P Q xs f h.1)

resend_times :
    (c : PacketCache) (now : ℤ) (ssrc fid : ℕ) (packets : List RtpPacket)
    → let r = resend c now ssrc fid packets in
      All (λ p. at (pos 0) p.packet_id (frame_times r.0 ssrc fid) ≡ now) r.1
unfolding resend SetTo
resend_times c now ssrc fid [] = tt
resend_times c now ssrc fid (p ∷ packets) =
    let by_frame = at [] ssrc c.last_retransmit_time in
    let sent = sent_times now (p ∷ packets) (frame_times c ssrc fid) in
    let r = add_if_due now (p ∷ packets) (frame_times c ssrc fid) in
    rw
      (
        at-insert [] ssrc (insert fid r.0 by_frame) c.last_retransmit_time,
        at-insert [] fid r.0 by_frame,
      )
      sent

resend_none :
    (c : PacketCache) (now : ℤ) (ssrc fid : ℕ) (packets : List RtpPacket) (k : ℕ)
    → is_due now (at (pos 0) k (frame_times c ssrc fid)) ≡ false
    → All (λ q. q.packet_id ≢ k) (resend c now ssrc fid packets).1
unfolding resend
resend_none c now ssrc fid [] k h = tt
resend_none c now ssrc fid (p ∷ packets) k h =
    none_sent now (p ∷ packets) (frame_times c ssrc fid) k h

-- Within 80 ms of a request's answer, at a time that is not 0, a second request for packets of the
-- same frame, for one or for all, brings none of the packets that the first brought.
pub retransmit_packet_suppressed :
    (c : PacketCache) (now next : ℤ) (ssrc frame_id first_id second_id : ℕ)
    → is_unset now ≡ false
    → ltb_ℤ (next -ℤ now) (pos 80000000) ≡ true
    → let first = retransmit_packet c now ssrc frame_id first_id in
      let second = retransmit_packet first.0 next ssrc frame_id second_id in
      All (λ p. All (λ q. q.packet_id ≢ p.packet_id) second.1) first.1
unfolding retransmit_packet
retransmit_packet_suppressed c now next ssrc fid first_id second_id set soon =
    let packets = requested (at [] fid (cached_frames c ssrc)) first_id in
    let first = resend c now ssrc fid packets in
    let again = requested (at [] fid (cached_frames first.0 ssrc)) second_id in
    All-map (λ p. at (pos 0) p.packet_id (frame_times first.0 ssrc fid) ≡ now)
      (λ p. All (λ q. q.packet_id ≢ p.packet_id) (resend first.0 next ssrc fid again).1) first.1
      (λ p e.
        resend_none first.0 next ssrc fid again p.packet_id (rw (e) (not_due now next set soon)))
      (resend_times c now ssrc fid packets)

find-store :
    (k : ℕ) (packets : List RtpPacket) (m : List (ℕ × RtpPacket))
    → All (λ q. q.packet_id ≢ k) packets
    → find k (store packets m) ≡ find k m
unfolding store
find-store k [] m h = refl
find-store k (q ∷ packets) m h =
    grind (arith, find-store k packets (insert q.packet_id q m) h.1, find-insert q.packet_id k q m)

find-store_last :
    (before : List RtpPacket) (p : RtpPacket) (after : List RtpPacket) (m : List (ℕ × RtpPacket))
    → All (λ q. q.packet_id ≢ p.packet_id) after
    → find p.packet_id (store (before ++ p ∷ after) m) ≡ some p
unfolding store
find-store_last [] p after m h = grind (
  arith,
  find-store p.packet_id after (insert p.packet_id p m) h,
  find-insert p.packet_id p.packet_id p m,
)
find-store_last (q ∷ before) p after m h = find-store_last before p after (insert q.packet_id q m) h

requested_one :
    (frame : List (ℕ × RtpPacket)) (k : ℕ) (p : RtpPacket)
    → k ≢ 65535
    → find k frame ≡ some p
    → requested frame k ≡ p ∷ []
unfolding requested
requested_one frame k p h e = ground arith

sent_first : (now : ℤ) (p : RtpPacket) → (add_if_due now (p ∷ []) []).1 ≡ p ∷ []
unfolding add_if_due is_due at find
sent_first now p = refl

resend_fresh :
    (c : PacketCache) (now : ℤ) (ssrc fid : ℕ) (p : RtpPacket)
    → frame_times c ssrc fid ≡ []
    → (resend c now ssrc fid (p ∷ [])).1 ≡ p ∷ []
unfolding resend
resend_fresh c now ssrc fid p e = rw (e) (sent_first now p)

-- A packet of a frame just cached is sent again, alone, at the first request for it, where its
-- stream's cache is in order and has no later frame, no later packet of the frame has its id, which
-- is not 65535, and none of the frame was requested before.
pub cached_frame_resent :
    (c : PacketCache) (now : ℤ) (ssrc fid : ℕ) (is_video_frame : Bool) (before : List RtpPacket)
    (p : RtpPacket) (after : List RtpPacket)
    → IsOrdered (cached_frames c ssrc)
    → UpTo fid (cached_frames c ssrc)
    → p.packet_id ≢ 65535
    → All (λ q. q.packet_id ≢ p.packet_id) after
    → frame_times c ssrc fid ≡ []
    → let cached = cache_frame c ssrc fid is_video_frame (before ++ p ∷ after) in
      (retransmit_packet cached now ssrc fid p.packet_id).1 ≡ p ∷ []
unfolding retransmit_packet cache_frame
cached_frame_resent c now ssrc fid video before p after o u named last fresh =
    let packets = before ++ p ∷ after in
    let cached = cache_frame c ssrc fid video packets in
    let frame = store packets (at [] fid (cached_frames c ssrc)) in
    let kept =
      at-some [] fid (cached_frames cached ssrc) frame
        (cache_frame_kept c ssrc fid video packets o u) in
    let stored = find-store_last before p after (at [] fid (cached_frames c ssrc)) last in
    let one = requested_one frame p.packet_id p named stored in
    ap (λ f. (resend cached now ssrc fid (requested f p.packet_id)).1) kept
    ∙ ap (λ r. (resend cached now ssrc fid r).1) one
    ∙ resend_fresh cached now ssrc fid p fresh
