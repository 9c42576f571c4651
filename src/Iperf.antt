-- ===== src/Iperf.antt =====
-- The iperf3 throughput log of scripts/processing/metrics.py and scripts/processing/parse-logs.py,
-- which hold the same two functions, and the average that both scripts print. The log is taken as
-- `json.load` gives it: the three numbers that are read of each interval's `sum`.
pub mod Window
pub mod Average
mod Tests
use emulator_test.Prelude.{ℕ, List, [], ◌∷◌, ◌++◌, ◌&&◌, Bool, length, if◌then◌else◌, Result, ◌>>=◌}
use emulator_test.Prelude.Int.{ℤ, pos}
use emulator_test.Number.{Number, number, divide}

pub record Interval {ℓ} (F : Type ℓ) : Type ℓ where
  pub start : F
  pub finish : F
  pub bits_per_second : F

module _ {ℓ} {F : Type ℓ} ⦃n : Number F⦄ where
  unfoldable pub midpoint : Interval F → F
  midpoint i = n.over (n.plus i.start i.finish) (number 2)

  unfoldable pub megabits : Interval F → F
  megabits i = n.over i.bits_per_second (number 1000000)

  -- The loop over `data["intervals"]`, which appends to both lists.
  parse_loop : List (Interval F) → List F → List F → List F × List F
  parse_loop [] ts thuputs = (ts, thuputs)
  parse_loop (i ∷ is) ts thuputs =
      parse_loop is (ts ++ midpoint i ∷ []) (thuputs ++ megabits i ∷ [])

  unfoldable pub parse_iperf3_log : List (Interval F) → List F × List F
  unfolding parse_loop midpoint megabits
  parse_iperf3_log is = parse_loop is [] []

  -- `start_time <= t <= end_time`
  abbrev pub within : F → F → F → Bool
  within start finish t = n.le start t && n.le t finish

  module _ {κ} {A : Type κ} (start finish : F) where
    -- `zip` stops at the end of the shorter list.
    filter_loop : List F → List A → List F → List A → List F × List A
    filter_loop [] data_left out_t out_d = (out_t, out_d)
    filter_loop (t ∷ ts) [] out_t out_d = (out_t, out_d)
    filter_loop (t ∷ ts) (x ∷ xs) out_t out_d =
        let inside = within start finish t in
        filter_loop ts xs (if inside then out_t ++ t ∷ [] else out_t)
          (if inside then out_d ++ x ∷ [] else out_d)

  unfoldable pub filter_time_range {κ} : {A : Type κ} → List F → List A → F → F → List F × List A
  unfolding filter_loop
  filter_time_range data_times samples start finish =
      filter_loop start finish data_times samples [] []

  -- Python's `sum` of a list of numbers.
  unfoldable pub sum_from : F → List F → F
  sum_from acc [] = acc
  sum_from acc (x ∷ xs) = sum_from (n.plus acc x) xs

  -- `sum(xs) / len(xs)`
  unfoldable pub mean : List F → Result F
  unfolding sum_from divide
  mean xs = divide (sum_from (number 0) xs) (number (length xs))

  -- What the scripts print of a log: the average over the samples from `start` to `finish`.
  unfoldable pub average_throughput : List (Interval F) → F → F → Result F
  unfolding parse_iperf3_log filter_time_range mean
  average_throughput log start finish =
      let (ts, thuputs) = parse_iperf3_log log in
      let (_, kept) = filter_time_range ts thuputs start finish in mean kept
