-- ===== src/Summary.antt =====
-- `calculate_ho_thuput` of scripts/processing/metrics.py and the first part of its main block, which
-- reads two iperf3 logs and a trace, averages the logs and keeps the handovers of the run. The whole block
-- is in Summary/Run.antt.
pub mod Averages
pub mod Links
pub mod Run
pub mod Samples
pub mod OnLinks
pub mod Outcome
mod Tests
use emulator_test.Prelude.{List, [], ◌∷◌, Option, none, some, Result, ok, ◌>>=◌}
use emulator_test.Prelude.Int.{ℤ}
use emulator_test.Number.{Number, number}
use emulator_test.Text.{Text}
use emulator_test.Iperf.{Interval, parse_iperf3_log, filter_time_range, mean}
use emulator_test.Trace.{parse_trace}

module _ {ℓ} {F : Type ℓ} ⦃n : Number F⦄ where
  unfoldable pub calculate_ho_thuput : List F → List F → List F → F → Result (List F)
  unfolding filter_time_range mean
  calculate_ho_thuput [] thuput_times thuput windowsz = ok []
  calculate_ho_thuput (t ∷ ts) thuput_times thuput windowsz = do
    avg ← mean (filter_time_range thuput_times thuput (n.minus t windowsz) (n.plus t windowsz)).1
    rest ← calculate_ho_thuput ts thuput_times thuput windowsz
    ok (avg ∷ rest)

  -- The range that the command line gives, or the whole run.
  unfoldable pub begin_or_default : Option F → F
  begin_or_default none = number 0
  begin_or_default (some t) = t

  unfoldable pub end_or_default : Option F → F
  end_or_default none = number 1200
  end_or_default (some t) = t

  -- A log that exists is parsed, cut to the range and averaged.
  unfoldable pub read_log :
      Option (List (Interval F)) → F → F → Result (Option ((List F × List F) × F))
  unfolding parse_iperf3_log filter_time_range mean
  read_log none begin finish = ok none
  read_log (some log) begin finish = do
    let (ts, xs) = parse_iperf3_log log
    let kept = filter_time_range ts xs begin finish
    avg ← mean kept.1
    ok (some (kept, avg))

  unfoldable pub log_handovers : Option (List Text) → F → F → Option (List F × List ℤ)
  unfolding parse_trace filter_time_range
  log_handovers none begin finish = none
  log_handovers (some lines) begin finish =
      let (ho_times, target_links) = parse_trace (some lines) (number 2) in
      some (filter_time_range ho_times target_links begin finish)
