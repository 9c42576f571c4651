-- ===== src/Summary/Tests.antt =====
-- The averages around handovers and of a run.
use emulator_test.Prelude.{
  List, [], ◌∷◌, none, some, IsOrElse, ok, raised, zero_division, name_error, ◌≡◌, refl, inr,
  length, count, arith,
}
use emulator_test.Prelude.Int.{ℤ, pos, ltb_ℤ, eq_ℤ, ◌+ℤ◌, ◌-ℤ◌, quotient}
use emulator_test.Number.{whole_number, whole-IsFaithful, whole-IsOrdered}
use emulator_test.Text.{Text, codes, split, text_eq, int_of}
use emulator_test.Iperf.{Interval}
use emulator_test.Summary.{begin_or_default, end_or_default, read_log, log_handovers}
use emulator_test.Handover.{link_thuputs}
use emulator_test.Summary.Links.{largest, link_averages, samples_of, Prints, link_averages_lem}
use emulator_test.Summary.Run.{red, green, handover_lines, report}
use emulator_test.Summary.Outcome.{Ends, report_lem}

abbrev times : List ℤ
times = pos 1 ∷ pos 3 ∷ pos 9 ∷ []

abbrev thuputs : List ℤ
thuputs = pos 10 ∷ pos 20 ∷ pos 30 ∷ []

-- The interval that ends at 2000 lies behind the range.
abbrev log : List (Interval ℤ)
log =
    record { start = pos 0; finish = pos 2; bits_per_second = pos 5000000 }
    ∷ record { start = pos 6; finish = pos 8; bits_per_second = pos 7000000 }
    ∷ record { start = pos 1500; finish = pos 2000; bits_per_second = pos 9000000 }
    ∷ []

abbrev m2ho_log : List (Interval ℤ)
m2ho_log =
    record { start = pos 0; finish = pos 2; bits_per_second = pos 6000000 }
    ∷ record { start = pos 4; finish = pos 6; bits_per_second = pos 12000000 }
    ∷ []

abbrev trace : List Text
trace = codes "5000,HO,1,2,30\n" ∷ codes "9000,HO,1,2,30\n" ∷ []

abbrev total : List ℤ → ℤ
total xs = pos (length xs)

abbrev same : ℤ → ℤ
same x = x

-- A handover to mmWave at 5, with the number of samples for their average.
link_averages_lem_example :
    (time_end : ℤ) × (largest times ≡ ok time_end)
    × (sub6 : List ℤ) × (mmw : List ℤ) × (link_thuputs
          (pos 5 ∷ [])
          (pos 2 ∷ [])
          times
          thuputs
          time_end
        ≡ ok (sub6, mmw))
    × Prints whole-IsOrdered sub6 mmw
        (λ x. count (λ y. ltb_ℤ x y) (samples_of whole-IsOrdered time_end times thuputs))
        (link_averages total same (pos 5 ∷ []) (pos 2 ∷ []) times thuputs)
link_averages_lem_example =
    link_averages_lem whole-IsOrdered total same (pos 5 ∷ []) (pos 2 ∷ []) (pos 1)
      (pos 3 ∷ pos 9 ∷ []) thuputs (omega arith) (inr refl, tt)

report_lem_example :
    (b : ℤ) × (e : ℤ) × IsOrElse none (pos 0) b
    × IsOrElse none (pos 1200) e
    × Ends whole-IsOrdered whole-IsFaithful total same b e
        (some log)
        (some m2ho_log)
        (some trace)
        (report total same none none (some log) (some m2ho_log) (some trace))
report_lem_example =
    report_lem whole-IsOrdered whole-IsFaithful total same none none (some log) (some m2ho_log)
      (some trace)

-- Handovers at 3 and at 7, the first of them to another link
two_runs :
    report total same none none (some log) (some m2ho_log) (some trace)
    ≡ ok (record {
      average = pos 6;
      m2ho_average = pos 9;
      curve = (pos 1, pos 5) ∷ (pos 7, pos 7) ∷ [];
      lines = (pos 3, red) ∷ (pos 7, green) ∷ [];
      links = record { sub6_avg = pos 1; sub6_max = pos 5; mmw_avg = pos 1; mmw_max = pos 7 };
      m2ho_links = record { sub6_avg = pos 1; sub6_max = pos 6; mmw_avg = pos 1; mmw_max = pos 12 };
    })
unfolding report begin_or_default end_or_default read_log log_handovers handover_lines link_averages
    quotient ◌+ℤ◌ ◌-ℤ◌ eq_ℤ split text_eq int_of
two_runs = refl

no_log : report total same none none none (some m2ho_log) (some trace) ≡ raised name_error
unfolding report begin_or_default end_or_default read_log quotient ◌+ℤ◌ eq_ℤ
no_log = refl

no_m2ho_log : report total same none none (some log) none (some trace) ≡ raised name_error
unfolding report begin_or_default end_or_default read_log log_handovers handover_lines link_averages
    quotient ◌+ℤ◌ ◌-ℤ◌ eq_ℤ split text_eq int_of
no_m2ho_log = refl

out_of_range :
    report total same (some (pos 2000)) none (some log) none (some trace) ≡ raised zero_division
unfolding report begin_or_default end_or_default read_log quotient ◌+ℤ◌ eq_ℤ
out_of_range = refl
