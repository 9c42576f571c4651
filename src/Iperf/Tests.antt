-- ===== src/Iperf/Tests.antt =====
-- Runs of the throughput log's functions at concrete logs.
use emulator_test.Prelude.{◌≡◌, refl, List, [], ◌∷◌, ok, raised, zero_division}
use emulator_test.Prelude.Int.{ℤ, pos, ◌+ℤ◌, quotient, eq_ℤ}
use emulator_test.Number.{whole_number}
use emulator_test.Iperf.{Interval, average_throughput}

abbrev log : List (Interval ℤ)
log =
    record { start = pos 0; finish = pos 2; bits_per_second = pos 4000000 }
    ∷ record { start = pos 2; finish = pos 4; bits_per_second = pos 8000000 }
    ∷ record { start = pos 4; finish = pos 6; bits_per_second = pos 16000000 }
    ∷ []

average_of_two : average_throughput log (pos 0) (pos 3) ≡ ok (pos 6)
unfolding average_throughput ◌+ℤ◌ quotient eq_ℤ
average_of_two = refl

average_of_none : average_throughput log (pos 7) (pos 9) ≡ raised zero_division
unfolding average_throughput ◌+ℤ◌ quotient eq_ℤ
average_of_none = refl
