-- ===== src/Iperf/Average.antt =====
-- The average that the scripts print, against the samples that it is taken over.
use emulator_test.Prelude.{
  ◌≡◌, ◌↔◌, refl, ap, List, [], ◌∷◌, ◌++◌, map, keep, append-snoc, append-nil, arith, length,
  raised, zero_division,
}
use emulator_test.Number.{Number, IsFaithful, divide}
use emulator_test.Iperf.{
  Interval, midpoint, megabits, within, parse_loop, parse_iperf3_log, mean, average_throughput,
}
use emulator_test.Iperf.Window.{zip, seconds, in_window, filter_time_range-eq}

module _ {ℓ} {F : Type ℓ} ⦃n : Number F⦄ where
  parse_loop-eq :
      (is : List (Interval F)) (ts thuputs : List F)
      → parse_loop is ts thuputs ≡ (ts ++ map midpoint is, thuputs ++ map megabits is)
  unfolding parse_loop
  parse_loop-eq [] ts thuputs = simp append-nil
  parse_loop-eq (i ∷ is) ts thuputs =
      rw (parse_loop-eq is (ts ++ midpoint i ∷ []) (thuputs ++ megabits i ∷ [])) (simp append-snoc)

  -- The two columns of a log
  pub parse_iperf3_log-eq :
      (is : List (Interval F)) → parse_iperf3_log is ≡ (map midpoint is, map megabits is)
  unfolding parse_iperf3_log
  parse_iperf3_log-eq is = parse_loop-eq is [] []

  -- The intervals of the log whose midpoint lies in the window.
  abbrev pub covered : List (Interval F) → F → F → List (Interval F)
  covered is start finish = keep (λ i. within start finish (midpoint i)) is

  columns-covered :
      (is : List (Interval F)) (start finish : F)
      → seconds (in_window start finish (zip (map midpoint is) (map megabits is)))
        ≡ map megabits (covered is start finish)
  columns-covered [] start finish = refl
  columns-covered (i ∷ is) start finish = ground (arith, columns-covered is start finish)

  -- The printed average is the mean of the throughputs, in Mbps, of exactly those intervals of the log
  -- whose midpoint is from `start` to `finish`.
  pub average_throughput-eq :
      (is : List (Interval F)) (start finish : F)
      → average_throughput is start finish ≡ mean (map megabits (covered is start finish))
  unfolding average_throughput parse_iperf3_log
  average_throughput-eq is start finish = rw (parse_loop-eq is [] []) (
      rw (filter_time_range-eq (map midpoint is) (map megabits is) start finish)
        (ap mean (columns-covered is start finish)))

  module _ (laws : IsFaithful F) where
    mean_raises :
        (xs : List (Interval F)) → (mean (map megabits xs) ≡ raised zero_division) ↔ (xs ≡ [])
    unfolding mean divide
    mean_raises [] = ground (arith, laws.zero_eq)
    mean_raises (x ∷ xs) = ground (arith, laws.suc_ne (length (map megabits xs)))

    -- Printing the average raises ZeroDivisionError exactly when no interval has its midpoint in the
    -- window.
    pub average_throughput_raises :
        (is : List (Interval F)) (start finish : F)
        → (average_throughput is start finish ≡ raised zero_division)
          ↔ (covered is start finish ≡ [])
    average_throughput_raises is start finish =
        rw average_throughput-eq (mean_raises (covered is start finish))
