-- ===== src/Plot/Curves.antt =====
-- What plot.py draws of the metrics that are asked for.
use emulator_test.Prelude.{
  ◌≡◌, refl, ap, List, [], ◌∷◌, map, Bool, true, false, Option, none, some, if◌then◌else◌, ◌&&◌, ok,
  Bool-cases, inl, inr,
}
use emulator_test.Number.{Number, number}
use emulator_test.Text.{Text, codes}
use emulator_test.Plotting.{Figure, Action, save_or_show, is_column}
use emulator_test.Plotting.Range.{figures, curve_points, figures-save_or_show}
use emulator_test.Plot.{
  Metrics, points, not_found, title_or, unknown, curves_of, plot_single, plot_multiple_metrics,
  plot_main,
}

unfoldable pub are_columns : List Text → List Text → Bool
are_columns columns [] = true
are_columns columns (metric ∷ metrics) = is_column metric columns && are_columns columns metrics

module _ {ℓ} {F V : Type ℓ} ⦃n : Number F⦄ where
  -- Each row's time in seconds with its cell.
  pub metric_points : Metrics F V → Text → List (F × V)
  metric_points self metric =
      map (λ (timestamp, cell). (n.over timestamp (number 1000000000), cell metric)) self.rows

  module _ (self : Metrics F V) (timed : is_column (codes "timestamp") self.columns ≡ true) where
    points-eq : (metric : Text) → points self metric ≡ ok (metric_points self metric)
    unfolding points metric_points
    points-eq metric = rw timed refl

    curves_of-eq :
        (metrics : List Text)
        → curves_of self metrics ≡ ok (map (λ m. (m, metric_points self m)) metrics)
    unfolding curves_of
    curves_of-eq [] = refl
    curves_of-eq (metric ∷ metrics) = rw (points-eq metric, curves_of-eq metrics) refl

    figures-not_found : (metric : Text) → figures (not_found self metric) ≡ []
    unfolding not_found figures
    figures-not_found metric = refl

    map-points :
        (metrics : List Text)
        → map (λ (c : Text × List (F × V)). c.1) (map (λ m. (m, metric_points self m)) metrics)
          ≡ map (metric_points self) metrics
    map-points [] = refl
    map-points (m ∷ ms) = ap (◌∷◌ (metric_points self m)) (map-points ms)

    all_known :
        (metrics : List Text)
        → are_columns self.columns metrics ≡ true
        → unknown self metrics ≡ none
    unfolding unknown are_columns
    all_known [] h = refl
    all_known (metric ∷ metrics) h = elim (Bool-cases (is_column metric self.columns)) [
      | inl known ↦ rw known (all_known metrics (rw known at h))
      | inr not_known ↦ absurd cc
    ]

    one_unknown :
        (metrics : List Text)
        → are_columns self.columns metrics ≡ false
        → (metric : Text) × (unknown self metrics ≡ some metric)
    unfolding unknown are_columns
    one_unknown [] h = absurd cc
    one_unknown (metric ∷ metrics) h = elim (Bool-cases (is_column metric self.columns)) [
      | inl known ↦ rw known (one_unknown metrics (rw known at h))
      | inr not_known ↦ (metric, rw not_known refl)
    ]

    figure_of : Text → List Text → Figure F V
    figure_of title metrics = record {
      title = title;
      curves = map (λ m. (m, metric_points self m)) metrics;
    }

    multiple_known :
        (metrics : List Text) (output : Option Text)
        → are_columns self.columns metrics ≡ true
        → plot_multiple_metrics self metrics none output
          ≡ ok (true, save_or_show output (figure_of (codes "Multiple Metrics over Time") metrics))
    unfolding plot_multiple_metrics title_or figure_of
    multiple_known metrics output known =
        rw (all_known metrics known, curves_of-eq metrics, plot_multiple_metrics) refl

    multiple_unknown :
        (metrics : List Text) (output : Option Text)
        → are_columns self.columns metrics ≡ false
        → (metric : Text) × (plot_multiple_metrics self metrics none output
            ≡ ok (false, not_found self metric))
    unfolding plot_multiple_metrics
    multiple_unknown metrics output h =
        let (metric, found) = one_unknown metrics h in
        (metric, rw (found, plot_multiple_metrics) refl)

    -- Of a file with the column `timestamp`, `plot_main` draws one figure with a curve of all rows for each of
    -- the metrics, in order, when each of them is a column; when one is not, it saves and shows nothing.
    pub plot_main_lem :
        (sorted : List Text → List Text) (metric : Text) (metrics : List Text)
        (output : Option Text)
        → (actions : List (Action F V)) × (plot_main sorted self false (metric ∷ metrics) output
            ≡ ok actions)
          × (map curve_points (figures actions) ≡ (
              if are_columns self.columns (metric ∷ metrics)
              then map (metric_points self) (metric ∷ metrics) ∷ []
              else []))
    unfolding plot_main plot_single are_columns curve_points figure_of
    plot_main_lem sorted metric [] output = elim (Bool-cases (is_column metric self.columns)) [
      | inl known ↦
          rw (known, points-eq metric)
            (_, refl, ap (map curve_points) (figures-save_or_show output _))
      | inr not_known ↦ rw not_known (_, refl, ap (map curve_points) (figures-not_found metric))
    ]
    plot_main_lem sorted metric (other ∷ metrics) output =
        let ms = metric ∷ other ∷ metrics in
        elim (Bool-cases (are_columns self.columns ms)) [
          | inl known ↦
              let shape = multiple_known ms output known in
              let one =
                figures-save_or_show output (figure_of (codes "Multiple Metrics over Time") ms) in
              (
                save_or_show output (figure_of (codes "Multiple Metrics over Time") ms),
                rw shape refl,
                rw (known, one) (ap (λ c. c ∷ []) (map-points ms)),
              )
          | inr not_known ↦
              let (m, shape) = multiple_unknown ms output not_known in
              (not_found self m, rw shape refl, rw (not_known, figures-not_found m) refl)
        ]
