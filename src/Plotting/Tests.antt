-- ===== src/Plotting/Tests.antt =====
-- plotting.py at a file of three rows.
use emulator_test.Prelude.{
  ◌≡◌, refl, [], ◌∷◌, map, keep, false, none, some, if◌then◌else◌, raised, index_error,
  argument_type_error,
}
use emulator_test.Prelude.Int.{ℤ, pos}
use emulator_test.Number.{whole_number}
use emulator_test.Text.{Text, codes, text_eq}
use emulator_test.Plotting.{PlotRow, Plotter, is_column, is_empty, init, plotting_main, parse_time}
use emulator_test.Plotting.Range.{figures, curve_points, in_range, plotting_main_lem}

abbrev cell_at : ℤ → Text → ℤ
cell_at v name = v

abbrev row_at : ℤ → ℤ → PlotRow ℤ ℤ
row_at offset v = record { time_offset = offset; cell = cell_at v }

abbrev plotter : Plotter ℤ ℤ
plotter = record {
  columns = codes "timestamp" ∷ codes "rtt" ∷ [];
  rows = row_at (pos 0) (pos 7) ∷ row_at (pos 4) (pos 8) ∷ row_at (pos 9) (pos 9) ∷ [];
}

plotting_main_lem_example :
    map curve_points
      (figures (plotting_main (λ cs. cs) plotter false (codes "rtt") (some (pos 3)) none none))
    ≡ (if is_empty (keep (λ r. in_range (some (pos 3)) none r.time_offset) plotter.rows)
        then []
        else if is_column (codes "rtt") plotter.columns
        then ((map
                (λ (r : PlotRow ℤ ℤ). (r.time_offset, r.cell (codes "rtt")))
                (keep (λ r. in_range (some (pos 3)) none r.time_offset) plotter.rows)
              ∷ [])
            ∷ [])
        else [])
plotting_main_lem_example =
    plotting_main_lem (λ cs. cs) plotter (codes "rtt") (some (pos 3)) none none

no_rows : init {F = ℤ} (λ t. t) (λ d. d) (λ s. s) (codes "timestamp" ∷ []) [] ≡ raised index_error
unfolding init is_column text_eq
no_rows = refl

-- Neither a time of day nor a number.
no_time :
    parse_time {F = ℤ} (λ t. none) (λ t. none) (λ k. pos k) (some (codes "noon"))
    ≡ raised argument_type_error
unfolding parse_time
no_time = refl
