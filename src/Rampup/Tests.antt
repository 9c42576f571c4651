-- ===== src/Rampup/Tests.antt =====
-- Runs of the ramp-up times, and the theorems at a concrete run.
use emulator_test.Prelude.{
  ℕ, ◌≡◌, refl, false, List, [], ◌∷◌, length, count, All, arith, ok, raised, index_error,
}
use emulator_test.Prelude.Int.{ℤ, pos, abs, ◌-ℤ◌, ◌+ℤ◌, eq_ℤ, ltb_ℤ}
use emulator_test.Number.{whole_number, whole-IsOrdered}
use emulator_test.Closest.{find_closest_indices}
use emulator_test.Rampup.{Rampup, calculate_rampup_time}
use emulator_test.Rampup.Bounds.{Lifts, calculate_rampup_time_lem}
use emulator_test.Rampup.LastHandover.{calculate_rampup_time_raises}
use emulator_test.Rampup.Stable.{Measures, Keeps, calculate_rampup_time-Measures}

abbrev times : List ℤ
times = pos 0 ∷ pos 1 ∷ pos 2 ∷ pos 3 ∷ pos 4 ∷ pos 5 ∷ []

abbrev thuputs : List ℤ
thuputs = pos 90 ∷ pos 10 ∷ pos 20 ∷ pos 90 ∷ pos 90 ∷ pos 90 ∷ []

abbrev no_noise : ℕ → ℤ
no_noise k = pos 0

-- The first handover takes two samples; the second starts at full throughput, is measured as -1, and
-- gets the first one's time.
two_handovers :
    calculate_rampup_time (pos 1 ∷ pos 4 ∷ []) times thuputs (pos 80) (pos 40) no_noise
    ≡ ok (record { times = pos 2 ∷ pos 2 ∷ []; handovers = 2; undone = 1; start_full = 0 })
unfolding calculate_rampup_time find_closest_indices abs ◌-ℤ◌ ◌+ℤ◌ eq_ℤ
two_handovers = refl

no_handover : calculate_rampup_time [] times thuputs (pos 80) (pos 40) no_noise ≡ raised index_error
unfolding calculate_rampup_time find_closest_indices
no_handover = refl

no_noise-Lifts : Lifts whole-IsOrdered no_noise
unfolding eq_ℤ ◌+ℤ◌
no_noise-Lifts k t h = ground arith

calculate_rampup_time_lem_example :
    (r : Rampup ℤ) × (calculate_rampup_time
        (pos 1 ∷ pos 4 ∷ [])
        times
        thuputs
        (pos 80)
        (pos 40)
        no_noise
      ≡ ok r)
    × (length r.times ≡ 2)
    × (r.handovers ≡ 2)
    × All (λ t. ltb_ℤ t (pos 0) ≡ false) r.times
unfolding find_closest_indices abs ◌-ℤ◌ eq_ℤ
calculate_rampup_time_lem_example =
    calculate_rampup_time_lem whole-IsOrdered no_noise (pos 1 ∷ pos 4 ∷ []) times thuputs (pos 80)
      (pos 40) (1 ∷ 4 ∷ []) (omega arith) refl (omega arith) refl no_noise-Lifts

calculate_rampup_time_raises_example :
    calculate_rampup_time (pos 1 ∷ pos 6 ∷ []) times thuputs (pos 80) (pos 40) no_noise
    ≡ raised index_error
unfolding find_closest_indices abs ◌-ℤ◌ eq_ℤ
calculate_rampup_time_raises_example =
    calculate_rampup_time_raises (pos 1 ∷ pos 6 ∷ []) times thuputs (pos 80) (pos 40) no_noise 5
      (1 ∷ 5 ∷ []) (omega arith) refl refl refl

-- The second handover is the last one: it starts at full throughput, one sample behind its closest one.
calculate_rampup_time-Measures_example :
    (r : Rampup ℤ) × (rs : List ℤ) × (calculate_rampup_time
        (pos 1 ∷ pos 4 ∷ [])
        times
        thuputs
        (pos 80)
        (pos 40)
        no_noise
      ≡ ok r)
    × Measures (pos 80) (pos 40) times thuputs (1 ∷ 4 ∷ []) rs
    × Keeps rs r.times
    × (r.undone ≡ count (λ t. ltb_ℤ t (pos 0)) rs)
    × (r.start_full ≡ count (λ t. eq_ℤ t (pos 0)) rs)
unfolding find_closest_indices abs ◌-ℤ◌ eq_ℤ
calculate_rampup_time-Measures_example =
    calculate_rampup_time-Measures (pos 80) (pos 40) (pos 1 ∷ pos 4 ∷ []) times thuputs no_noise
      (1 ∷ 4 ∷ []) (omega arith) refl refl (omega arith)
