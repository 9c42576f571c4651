-- ===== src/Frames/Rollover.antt =====
-- The rollovers of a TCP sequence number, seen from the position in the stream.
use emulator_test.Prelude.{
  ℕ, ◌+◌, ◌/◌, ◌%◌, ◌≤◌, ◌<◌, ◌≡◌, refl, List, [], ◌∷◌, map, ltb, arith, if◌then◌else◌,
}
use emulator_test.Prelude.Int.{ℤ, pos, negsuc, ◌-ℤ◌, ltb_ℤ}
use emulator_test.Frames.{rollover_loop, check_rollover}

-- The sequence number on the wire at a position of the stream.
abbrev pub wire : ℕ → ℤ
wire u = pos (u % 4294967296)

-- Neighbours less than 2^31 apart forwards, and at most that backwards.
abbrev pub Near : ℕ → List ℕ → Type 0
Near u [] = Unit
Near u (v ∷ vs) = (v < u + 2147483648) × (u ≤ v + 2147483648) × Near v vs

-- The sequence numbers behind a step into a later window of 2^32.
abbrev pub wraps : ℕ → List ℕ → List ℤ
wraps u [] = []
wraps u (v ∷ vs) =
    let rest = wraps v vs in if ltb (u / 4294967296) (v / 4294967296) then wire v ∷ rest else rest

rolls_over :
    (u v : ℕ)
    → v < u + 2147483648
    → u ≤ v + 2147483648
    → ltb_ℤ (wire v -ℤ wire u) (negsuc 2147483647) ≡ ltb (u / 4294967296) (v / 4294967296)
unfolding ◌-ℤ◌
rolls_over u v h1 h2 = ground arith

rollover_loop-wraps :
    (u : ℕ) (vs : List ℕ) → Near u vs → rollover_loop (wire u) (map wire vs) ≡ wraps u vs
unfolding rollover_loop
rollover_loop-wraps u [] h = refl
rollover_loop-wraps u (v ∷ vs) (h1, h2, h) =
    rw (rolls_over u v h1 h2) (rw (rollover_loop-wraps v vs h) refl)

-- Where neighbours in time are less than 2^31 bytes apart forwards, and at most that backwards,
-- `check_rollover` returns exactly the sequence numbers at the steps into a later window of 2^32.
pub check_rollover-wraps :
    (sort_by_time : List ℤ → List ℤ) (df : List ℤ) (u : ℕ) (vs : List ℕ)
    → sort_by_time df ≡ map wire (u ∷ vs)
    → Near u vs
    → check_rollover sort_by_time df ≡ wraps u vs
unfolding check_rollover
check_rollover-wraps sort_by_time df u vs sorted h =
    rw (sorted, check_rollover) (rollover_loop-wraps u vs h)
