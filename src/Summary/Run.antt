-- ===== src/Summary/Run.antt =====
-- The main block of scripts/processing/metrics.py, up to the parts behind `if False`. Logs and trace are
-- `none` where the file does not exist: the names that its reading binds are then not there. What is
-- printed, drawn and saved before an exception is left out.
use emulator_test.Prelude.{
  List, [], ◌∷◌, Option, if◌then◌else◌, Result, ok, raised, name_error, index_error, or_raise,
  ◌>>=◌,
}
use emulator_test.Prelude.Int.{ℤ, pos, eq_ℤ}
use emulator_test.Number.{Number}
use emulator_test.Text.{Text}
use emulator_test.Iperf.{Interval}
use emulator_test.Iperf.Window.{zip}
use emulator_test.Summary.{begin_or_default, end_or_default, read_log, log_handovers}
use emulator_test.Summary.Links.{LinkAverages, link_averages}

-- `tab:green` and `tab:red`
pub data Colour : Type 0 where
  green red : Colour

-- What is printed and drawn
pub record Report {ℓ} (F : Type ℓ) : Type ℓ where
  pub average : F
  pub m2ho_average : F
  pub curve : List (F × F)
  pub lines : List (F × Colour)
  pub links : LinkAverages F
  pub m2ho_links : LinkAverages F

module _ {ℓ} {F : Type ℓ} where
  -- The loop of `axvline`, on the handovers left and `prev_link`
  unfoldable pub handover_lines : ℤ → List F → List ℤ → Result (List (F × Colour))
  handover_lines prev_link [] links = ok []
  handover_lines prev_link (t ∷ ts) [] = raised index_error
  handover_lines prev_link (t ∷ ts) (l ∷ ls) = do
    rest ← handover_lines (if eq_ℤ l prev_link then prev_link else l) ts ls
    ok ((t, (if eq_ℤ l prev_link then green else red)) ∷ rest)

module _ {ℓ} {F : Type ℓ} ⦃n : Number F⦄ where
  unfoldable pub report :
      (mean : List F → F) (round_2 : F → F) (begin finish : Option F)
      (log m2ho_log : Option (List (Interval F)))
      → Option (List Text)
      → Result (Report F)
  report mean round_2 begin finish log m2ho_log trace = do
    let begin_time = begin_or_default begin
    let end_time = end_or_default finish
    read ← read_log log begin_time end_time
    m2ho_read ← read_log m2ho_log begin_time end_time
    let handovers = log_handovers trace begin_time end_time
    ((thuput_times, thuputs), average) ← or_raise read name_error
    (ho_times, target_links) ← or_raise handovers name_error
    lines ← handover_lines (pos 1) ho_times target_links
    links ← link_averages mean round_2 ho_times target_links thuput_times thuputs
    ((m_thuput_times, m_thuputs), m_average) ← or_raise m2ho_read name_error
    m_links ← link_averages mean round_2 ho_times target_links m_thuput_times m_thuputs
    ok (record {
      average = average;
      m2ho_average = m_average;
      curve = zip thuput_times thuputs;
      lines = lines;
      links = links;
      m2ho_links = m_links;
    })
