-- ===== src/Frames/Tests.antt =====
-- Frames of 100 bytes and rollovers on small columns.
use emulator_test.Prelude.{
  ℕ, ◌≡◌, ◌+◌, ◌*◌, ◌<◌, refl, List, [], ◌∷◌, map, ok, Option, none, some, arith,
}
use emulator_test.Prelude.Int.{ℤ, pos, ◌-ℤ◌}
use emulator_test.Number.{whole_number, whole-IsOrdered}
use emulator_test.Frames.{Packet, Frame, estimate_frame, check_rollover}
use emulator_test.Frames.Bytes.{HasFrames, bytes, estimate_frame-bytes}
use emulator_test.Frames.Times.{IsTimeline, estimate_frame-IsTimeline}
use emulator_test.Frames.Rollover.{wire, check_rollover-wraps}

abbrev packets : List (Packet ℤ)
packets =
    record { seq = pos 1; time = pos 4; len = 80 }
    ∷ record { seq = pos 81; time = pos 9; len = 60 }
    ∷ record { seq = pos 141; time = pos 7; len = 70 }
    ∷ record { seq = pos 211; time = pos 8; len = 10 }
    ∷ []

abbrev frames : List (Frame ℤ × Option ℤ)
frames =
    (record { frame = 1; completion_time = pos 9; completion_time_raw = pos 9 }, none)
    ∷ (record { frame = 2; completion_time = pos 9; completion_time_raw = pos 7 }, some (pos 0))
    ∷ []

two_frames : estimate_frame (λ df. df) (λ df. df) packets 100 ≡ ok frames
unfolding estimate_frame ◌-ℤ◌
two_frames = refl

estimate_frame-bytes_example :
    (k : ℕ) × (left : ℕ) × (left < 100)
    × (bytes packets ≡ k * 100 + left)
    × HasFrames k (estimate_frame (λ df. df) (λ df. df) packets 100)
estimate_frame-bytes_example =
    estimate_frame-bytes (λ df. df) (λ df. df) packets 100 (omega arith) (ground arith)

estimate_frame-IsTimeline_example : IsTimeline whole-IsOrdered 1 (pos 0) none frames
estimate_frame-IsTimeline_example =
    estimate_frame-IsTimeline whole-IsOrdered (λ df. df) (λ df. df) packets 100 frames two_frames

-- The stream passes 2^32, falls back by a retransmission and passes it again.
check_rollover-wraps_example :
    check_rollover (λ df. df) (map wire (4294967000 ∷ 4294967400 ∷ 4294967100 ∷ 4294967500 ∷ []))
    ≡ pos 104 ∷ pos 204 ∷ []
check_rollover-wraps_example =
    check_rollover-wraps (λ df. df)
      (map wire (4294967000 ∷ 4294967400 ∷ 4294967100 ∷ 4294967500 ∷ [])) 4294967000
      (4294967400 ∷ 4294967100 ∷ 4294967500 ∷ []) refl (ground arith)
