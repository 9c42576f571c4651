-- ===== src/Plot.antt =====
-- scripts/processing/plot.py: `MetricsPlotter` and `main`. The x-values are the column `timestamp` divided by
-- 10^9, which a data frame without it does not have.
pub mod Curves
use emulator_test.Prelude.{
  List, [], ◌∷◌, ◌++◌, map, Bool, true, false, not, Option, none, some, if◌then◌else◌, Result, ok,
  raised, key_error, ◌>>=◌,
}
use emulator_test.Number.{Number, number}
use emulator_test.Text.{Text, codes, comma}
use emulator_test.Plotting.{Figure, Action, says, save_or_show, is_column}

-- The columns of the csv file and its rows, each with its timestamp and its cells.
pub record Metrics {ℓ} (F V : Type ℓ) : Type ℓ where
  pub columns : List Text
  pub rows : List (F × (Text → V))

-- `", ".join`
join : List Text → Text
join [] = []
join (t ∷ []) = t
join (t ∷ u ∷ ts) = t ++ codes ", " ++ join (u ∷ ts)

-- `title or default`
title_or : Option Text → Text → Text
title_or none default = default
title_or (some []) default = default
title_or (some (c ∷ cs)) default = c ∷ cs

module _ {ℓ} {F V : Type ℓ} ⦃n : Number F⦄ where
  not_found : Metrics F V → Text → List (Action F V)
  unfolding join
  not_found self metric =
      says (codes "Error: Metric '" ++ metric ++ codes "' not found in data")
      ∷ says (codes "Available metrics: " ++ join self.columns)
      ∷ []

  -- `self.data["timestamp"]/1e9` and `self.data[metric]`
  points : Metrics F V → Text → Result (List (F × V))
  points self metric =
      if is_column (codes "timestamp") self.columns
      then ok
          (map (λ (timestamp, cell). (n.over timestamp (number 1000000000), cell metric)) self.rows)
      else raised key_error

  pub plot_single :
      Metrics F V → Text → Option Text → Option Text → Result (Bool × List (Action F V))
  unfolding points title_or not_found
  plot_single self metric title output =
      if is_column metric self.columns
      then (do
        drawn ← points self metric
        ok (
          true,
          save_or_show output record {
            title = title_or title (metric ++ codes " over Time");
            curves = ([], drawn) ∷ [];
          },
        ))
      else ok (false, not_found self metric)

  -- The first metric that is no column.
  unknown : Metrics F V → List Text → Option Text
  unknown self [] = none
  unknown self (metric ∷ metrics) =
      if is_column metric self.columns then unknown self metrics else some metric

  curves_of : Metrics F V → List Text → Result (List (Text × List (F × V)))
  unfolding points
  curves_of self [] = ok []
  curves_of self (metric ∷ metrics) = do
    drawn ← points self metric
    rest ← curves_of self metrics
    ok ((metric, drawn) ∷ rest)

  pub plot_multiple_metrics :
      Metrics F V → List Text → Option Text → Option Text → Result (Bool × List (Action F V))
  unfolding unknown curves_of title_or not_found
  plot_multiple_metrics self metrics title output = elim (unknown self metrics) [
    | some metric ↦ ok (false, not_found self metric)
    | none ↦ (do
      curves ← curves_of self metrics
      ok (
        true,
        save_or_show output
            record { title = title_or title (codes "Multiple Metrics over Time"); curves = curves },
      ))
  ]

  module _ (sorted : List Text → List Text) where
    list_available_metrics : Metrics F V → List (Action F V)
    list_available_metrics self =
        says (codes "\nAvailable metrics:")
        ∷ map (λ m. says (codes "- " ++ m)) (sorted self.columns)

    -- `main` on the plotter, behind the parser of the arguments: `--metrics` that is missing is no metric.
    pub plot_main : Metrics F V → Bool → List Text → Option Text → Result (List (Action F V))
    unfolding list_available_metrics plot_single plot_multiple_metrics
    plot_main plotter true metrics output = ok (list_available_metrics plotter)
    plot_main plotter false [] output = ok (
        says (codes "Error: Please specify at least one metric to plot using -m/--metrics")
        ∷ list_available_metrics plotter)
    plot_main plotter false (metric ∷ []) output = do
      (drawn, actions) ← plot_single plotter metric none output
      ok actions
    plot_main plotter false (metric ∷ other ∷ metrics) output = do
      (drawn, actions) ← plot_multiple_metrics plotter (metric ∷ other ∷ metrics) none output
      ok actions
