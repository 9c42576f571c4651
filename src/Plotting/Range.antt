-- ===== src/Plotting/Range.antt =====
-- What plotting.py draws of a range of times.
use emulator_test.Prelude.{
  ◌≡◌, refl, sym, ap, List, [], ◌∷◌, ◌++◌, map, Bool, true, false, keep, Option, none, some,
  if◌then◌else◌, ◌&&◌, Bool-cases, inl, inr,
}
use emulator_test.Number.{Number}
use emulator_test.Text.{Text, codes}
use emulator_test.Plotting.{
  PlotRow, Plotter, Figure, Action, says, saves, shows, is_column, is_empty, save_or_show,
  filter_time_range, plot_metric, plotting_main, from_start, to_end,
}

module _ {ℓ} {F V : Type ℓ} where
  -- The figures that are saved or shown.
  unfoldable pub figures : List (Action F V) → List (Figure F V)
  figures [] = []
  figures (says t ∷ actions) = figures actions
  figures (saves name figure ∷ actions) = figure ∷ figures actions
  figures (shows figure ∷ actions) = figure ∷ figures actions

  unfoldable pub curve_points : Figure F V → List (List (F × V))
  curve_points figure = map (λ c. c.1) figure.curves

  pub figures-save_or_show :
      (output : Option Text) (figure : Figure F V)
      → figures (save_or_show output figure) ≡ figure ∷ []
  unfolding figures save_or_show
  figures-save_or_show none figure = refl
  figures-save_or_show (some []) figure = refl
  figures-save_or_show (some (c ∷ cs)) figure = refl

  pub figures-says : (texts : List Text) → figures (map says texts) ≡ []
  unfolding figures
  figures-says [] = refl
  figures-says (t ∷ ts) = figures-says ts

module _ {ℓ} {F : Type ℓ} ⦃n : Number F⦄ where
  pub in_range : Option F → Option F → F → Bool
  in_range none none t = true
  in_range none (some end) t = n.le t end
  in_range (some start) none t = n.le start t
  in_range (some start) (some end) t = n.le start t && n.le t end

module _ {ℓ} {F V : Type ℓ} ⦃n : Number F⦄ where
  keep-all : (rows : List (PlotRow F V)) → keep (λ r. true) rows ≡ rows
  keep-all [] = refl
  keep-all (r ∷ rows) = ap (◌∷◌ r) (keep-all rows)

  keep-keep :
      (p q : PlotRow F V → Bool) (rows : List (PlotRow F V))
      → keep q (keep p rows) ≡ keep (λ r. p r && q r) rows
  keep-keep p q [] = refl
  keep-keep p q (r ∷ rows) = elim (Bool-cases (p r)) [
    | inl here ↦ rw here (ap (λ rest. if q r then r ∷ rest else rest) (keep-keep p q rows))
    | inr out ↦ rw out (keep-keep p q rows)
  ]

  filter_time_range-keep :
      (self : Plotter F V) (start end : Option F)
      → filter_time_range self start end ≡ keep (λ r. in_range start end r.time_offset) self.rows
  unfolding filter_time_range in_range from_start to_end
  filter_time_range-keep self none none = sym (keep-all self.rows)
  filter_time_range-keep self none (some end) = refl
  filter_time_range-keep self (some start) none = refl
  filter_time_range-keep self (some start) (some end) = keep-keep _ _ self.rows

  module _ (sorted : List Text → List Text) (plotter : Plotter F V) (metric : Text)
      (start end : Option F) where
    no_rows :
        is_empty (filter_time_range plotter start end) ≡ true
        → (out : List Text) × (plot_metric sorted plotter metric start end ≡ (map says out, none))
    unfolding plot_metric
    no_rows h = (codes "No data in specified time range" ∷ [], rw (h, plot_metric) refl)

    no_metric :
        is_empty (filter_time_range plotter start end) ≡ false
        → is_column metric plotter.columns ≡ false
        → (out : List Text) × (plot_metric sorted plotter metric start end ≡ (map says out, none))
    unfolding plot_metric
    no_metric h unknown = (
      (codes "Metric '" ++ metric ++ codes "' not found in data. Available metrics:")
          ∷ sorted plotter.columns,
      rw (h, unknown, plot_metric) refl,
    )

    one_curve :
        is_empty (filter_time_range plotter start end) ≡ false
        → is_column metric plotter.columns ≡ true
        → (title : Text) × (plot_metric sorted plotter metric start end ≡ (
          [],
          some record {
            title = title;
            curves =
                (
                  [],
                  map (λ r. (r.time_offset, r.cell metric)) (filter_time_range plotter start end),
                )
                ∷ [];
          },
        ))
    unfolding plot_metric
    one_curve h known = (metric ++ codes " over Time", rw (h, known, plot_metric) refl)

  -- `plotting_main` that does not list the metrics draws one figure, with one curve of exactly the rows in
  -- the range, in order, when there is such a row and the metric is a column; else it saves and shows
  -- nothing.
  pub plotting_main_lem :
      (sorted : List Text → List Text) (plotter : Plotter F V) (metric : Text)
      (start end : Option F) (output : Option Text)
      → (let rows = keep (λ r. in_range start end r.time_offset) plotter.rows in
          map curve_points (figures (plotting_main sorted plotter false metric start end output))
          ≡ (if is_empty rows
              then []
              else if is_column metric plotter.columns
              then ((map (λ r. (r.time_offset, r.cell metric)) rows ∷ []) ∷ [])
              else []))
  unfolding plotting_main curve_points
  plotting_main_lem sorted plotter metric start end output =
      let same = filter_time_range-keep plotter start end in
      elim (Bool-cases (is_empty (filter_time_range plotter start end))) [
        | inl none_there ↦
            let (out, shape) = no_rows sorted plotter metric start end none_there in
            rw⁻¹ same (rw (none_there, shape, figures-says out) refl)
        | inr rows_there ↦ elim (Bool-cases (is_column metric plotter.columns)) [
          | inl known ↦
              let (title, shape) = one_curve sorted plotter metric start end rows_there known in
              rw⁻¹ same (rw (rows_there, known, shape, figures-save_or_show output _) refl)
          | inr not_known ↦
              let (out, shape) = no_metric sorted plotter metric start end rows_there not_known in
              rw⁻¹ same (rw (rows_there, not_known, shape, figures-says out) refl)
        ]
      ]
