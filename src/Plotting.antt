-- ===== src/Plotting.antt =====
-- scripts/processing/plotting.py: `MetricsPlotter`, `parse_time` and `main`. A cell of the csv file is a value
-- of `V`. pandas' conversions, `strptime`, `float` and `sorted` are arguments. matplotlib's part is a
-- `Figure`, and what is printed, saved and shown is a list of actions.
pub mod Range
mod Tests
use emulator_test.Prelude.{
  ℕ, ◌+◌, ◌*◌, List, [], ◌∷◌, ◌++◌, map, Bool, true, false, not, keep, Option, none, some,
  if◌then◌else◌, Result, ok, raised, index_error, key_error, argument_type_error, or_raise, ◌>>=◌,
}
use emulator_test.Prelude.Int.{ℤ, ◌-ℤ◌}
use emulator_test.Number.{Number}
use emulator_test.Text.{Text, codes, text_eq}

-- A row of the data frame: its time since the first row in seconds, and its cells.
pub record PlotRow {ℓ} (F V : Type ℓ) : Type ℓ where
  pub time_offset : F
  pub cell : Text → V

pub record Plotter {ℓ} (F V : Type ℓ) : Type ℓ where
  pub columns : List Text
  pub rows : List (PlotRow F V)

-- A title, and each curve with its label.
pub record Figure {ℓ} (F V : Type ℓ) : Type ℓ where
  pub title : Text
  pub curves : List (Text × List (F × V))

pub data Action {ℓ} (F V : Type ℓ) : Type ℓ where
  says : Text → Action F V
  saves : Text → Figure F V → Action F V
  shows : Figure F V → Action F V

-- `name in df.columns`
unfoldable pub is_column : Text → List Text → Bool
is_column name [] = false
is_column name (c ∷ cs) = if text_eq name c then true else is_column name cs

-- A column that is assigned stands behind the others when it is new.
add_column : List Text → Text → List Text
add_column columns name = if is_column name columns then columns else columns ++ name ∷ []

assign {ℓ} : {V : Type ℓ} → (Text → V) → Text → V → Text → V
assign cell name v other = if text_eq other name then v else cell other

module _ {ℓ} {F V : Type ℓ} where
  -- Saved under the name that is given, or else shown.
  unfoldable pub save_or_show : Option Text → Figure F V → List (Action F V)
  save_or_show (some (c ∷ cs)) figure =
      saves (c ∷ cs) figure ∷ says (codes "Plot saved to " ++ c ∷ cs) ∷ []
  save_or_show (some []) figure = shows figure ∷ []
  save_or_show none figure = shows figure ∷ []

  module _ (to_datetime : ℤ → V) (total_seconds : ℤ → F) (of_seconds : F → V) where
    plot_row : ℤ → ℤ × (Text → V) → PlotRow F V
    plot_row first (timestamp, cell) =
        let offset = total_seconds (timestamp -ℤ first) in
        record {
          time_offset = offset;
          cell =
              assign (assign cell (codes "datetime") (to_datetime timestamp)) (codes "time_offset")
                (of_seconds offset);
        }

    -- `__init__` on the columns and on the rows, each with its timestamp in nanoseconds.
    unfoldable pub init : List Text → List (ℤ × (Text → V)) → Result (Plotter F V)
    unfolding add_column assign plot_row
    init columns rows =
        if is_column (codes "timestamp") columns
        then (elim rows [
          | [] ↦ raised index_error
          | (first, cell) ∷ rest ↦ ok record {
            columns = add_column (add_column columns (codes "datetime")) (codes "time_offset");
            rows = map (plot_row first) ((first, cell) ∷ rest);
          }
        ])
        else raised key_error

-- `df.empty`
unfoldable pub is_empty {ℓ} : {A : Type ℓ} → List A → Bool
is_empty [] = true
is_empty (x ∷ xs) = false

module _ {ℓ} {F V : Type ℓ} ⦃n : Number F⦄ where
  from_start : Option F → List (PlotRow F V) → List (PlotRow F V)
  from_start none rows = rows
  from_start (some start) rows = keep (λ r. n.le start r.time_offset) rows

  to_end : Option F → List (PlotRow F V) → List (PlotRow F V)
  to_end none rows = rows
  to_end (some end) rows = keep (λ r. n.le r.time_offset end) rows

  unfoldable pub filter_time_range : Plotter F V → Option F → Option F → List (PlotRow F V)
  unfolding from_start to_end
  filter_time_range self start end = to_end end (from_start start self.rows)

  module _ (sorted : List Text → List Text) where
    -- What is printed, and the plot if there is one. The joined names are printed line by line.
    unfoldable pub plot_metric :
        Plotter F V → Text → Option F → Option F → List (Action F V) × Option (Figure F V)
    unfolding is_column
    plot_metric self metric_name start end =
        let plot_df = filter_time_range self start end in
        if is_empty plot_df
        then (says (codes "No data in specified time range") ∷ [], none)
        else if is_column metric_name self.columns
        then (
          [],
          some record {
            title = metric_name ++ codes " over Time";
            curves = ([], map (λ row. (row.time_offset, row.cell metric_name)) plot_df) ∷ [];
          },
        )
        else (
          says (codes "Metric '" ++ metric_name ++ codes "' not found in data. Available metrics:")
              ∷ map says (sorted self.columns),
          none,
        )

    get_available_metrics : Plotter F V → List Text
    get_available_metrics self = sorted self.columns

    -- `main` on the plotter, behind the parser of the arguments.
    pub plotting_main :
        Plotter F V → Bool → Text → Option F → Option F → Option Text → List (Action F V)
    unfolding plot_metric get_available_metrics
    plotting_main plotter list metric start end output =
        if list
        then says (codes "Available metrics:")
          ∷ map (λ m. says (codes "  " ++ m)) (get_available_metrics plotter)
        else (let (said, plt) = plot_metric plotter metric start end in
            elim plt [ none ↦ said | some figure ↦ said ++ save_or_show output figure ])

-- `strptime` of a text gives the hour, the minute and the second, or nothing where it raises.
unfoldable pub parse_time {ℓ} :
    {F : Type ℓ} (strptime : Text → Option (ℕ × ℕ × ℕ)) (float : Text → Option F) (whole : ℕ → F)
    → Option Text
    → Result (Option F)
parse_time strptime float whole none = ok none
parse_time strptime float whole (some time_str) = elim (strptime time_str) [
  | some (hour, minute, second) ↦ ok (some (whole (hour * 3600 + minute * 60 + second)))
  | none ↦ (do seconds ← or_raise (float time_str) argument_type_error; ok (some seconds))
]
