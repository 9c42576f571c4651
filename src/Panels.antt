-- ===== src/Panels.antt =====
-- scripts/processing/plot-logs.py. The csv files are arguments, as `exists` and `read` of a name, and so are
-- pandas' `sort_values` and `mean`; the figure is the list of its subplots. The switched-off parts are left
-- out.
pub mod Subplots
pub mod Curves
pub mod Files
mod Tests
use emulator_test.Prelude.{
  ℕ, zero, suc, ◌+◌, List, [], ◌∷◌, ◌++◌, map, Bool, true, false, ◌&&◌, ◌==◌, keep, Option, none,
  some, if◌then◌else◌, Result, ok, raised, index_error, or_raise, ◌>>=◌,
}
use emulator_test.Number.{Number, number}
use emulator_test.Text.{Text, codes}

-- A row of either csv file, with the column that is drawn.
pub record LogRow {ℓ} (F : Type ℓ) : Type ℓ where
  pub time : F
  pub value : F

-- The arguments behind the parser.
pub record Args {ℓ} (F : Type ℓ) : Type ℓ where
  pub auto : Option Text
  pub name : Option Text
  pub throughput : Option Text
  pub jitter : Option Text
  pub ss : Option Text
  pub begin : Option F
  pub end : Option F

pub data Subplot {ℓ} (F : Type ℓ) : Type ℓ where
  empty : Subplot F
  drawn : (ylabel : Text) → List (F × F) → Subplot F

-- `exit(1)`, or the saved figure and the average that is printed of a throughput.
pub data Drawing {ℓ} (F : Type ℓ) : Type ℓ where
  exits : Drawing F
  saved : (file_name : Text) → List (Subplot F) → Option F → Drawing F

-- `x is not None` as a number, and `if x`
given : Option Text → ℕ
given none = 0
given (some x) = 1

is_set : Option Text → Bool
is_set none = false
is_set (some []) = false
is_set (some (c ∷ cs)) = true

-- A file of the prefix takes the place of the argument.
pub detect : (Text → Bool) → Text → Option Text → Option Text
detect exists fname otherwise = if exists fname then some fname else otherwise

-- `test-unspec.png` where there is no name
file_name_of : Option Text → Text
file_name_of none = codes "test-unspec.png"
file_name_of (some name) = codes "test-" ++ name ++ codes ".png"

module _ {ℓ} {F : Type ℓ} where
  unfoldable pub detect_files : (Text → Bool) → Args F → Args F
  unfolding detect
  detect_files exists args = elim args.auto [
    | none ↦ args
    | some auto ↦ record args {
      throughput =
          detect exists (codes "output/" ++ auto ++ codes "-iperf-throughput.csv") args.throughput;
      ss = detect exists (codes "output/" ++ auto ++ codes "-ss-server.csv") args.ss;
    }
  ]

  pub n_subfig : Args F → ℕ
  unfolding given
  n_subfig args = given args.throughput + given args.jitter + given args.ss

  pub empty_subplots : ℕ → List (Subplot F)
  empty_subplots zero = []
  empty_subplots (suc k) = empty ∷ empty_subplots k

  -- `axes[fig_id]`, which raises IndexError where there is none
  draw_at : ℕ → Subplot F → List (Subplot F) → Option (List (Subplot F))
  draw_at i p [] = none
  draw_at zero p (q ∷ qs) = some (p ∷ qs)
  draw_at (suc i) p (q ∷ qs) = elim (draw_at i p qs) [ none ↦ none | some rest ↦ some (q ∷ rest) ]

  -- `args.begin` and `args.end`, which are 0 and 1200 where they are not given
  pub time_or : Option F → F → F
  time_or none default = default
  time_or (some t) default = t

module _ {ℓ} {F : Type ℓ} ⦃n : Number F⦄ (sort_by_time : List (LogRow F) → List (LogRow F)) where
  pub filter_times : List (LogRow F) → F → F → List (LogRow F)
  filter_times raw_df start end =
      sort_by_time (keep (λ r. n.le start r.time && n.le r.time end) raw_df)

  -- A file is drawn into the next subplot, from the figure's `fig_id` and `axes`.
  draw_file :
      (Text → Result (List (LogRow F)))
      → Text
      → F
      → F
      → Option Text
      → ℕ × List (Subplot F)
      → Result ((ℕ × List (Subplot F)) × Option (List (LogRow F)))
  unfolding filter_times
  draw_file read ylabel begin end none figure = ok (figure, none)
  draw_file read ylabel begin end (some []) figure = ok (figure, none)
  draw_file read ylabel begin end (some (c ∷ cs)) (fig_id, axes) = do
    raw_df ← read (c ∷ cs)
    axes' ←
        or_raise
          (draw_at fig_id
            (drawn ylabel (map (λ r. (r.time, r.value)) (filter_times raw_df begin end))) axes)
          index_error
    ok ((suc fig_id, axes'), some (filter_times raw_df begin end))

  average : (List F → F) → Option (List (LogRow F)) → Option F
  average mean none = none
  average mean (some df) = some (mean (map (λ r. r.value) df))

  -- The main block, from the detected arguments on.
  draw_files :
      (read_throughput read_ss : Text → Result (List (LogRow F))) (mean : List F → F)
      → Args F
      → Result (Drawing F)
  unfolding draw_file average time_or empty_subplots
  draw_files read_throughput read_ss mean args =
      let begin_time = time_or args.begin (number 0) in
      let end_time = time_or args.end (number 1200) in
      if n_subfig args == 0 then ok exits else (do
        (figure, df_iperf) ←
            draw_file read_throughput (codes "Thuput(Mbps)") begin_time end_time args.throughput
              (0, empty_subplots (n_subfig args))
        ((fig_id, axes), df_ss) ←
            draw_file read_ss (codes "bbr minRTT") begin_time end_time args.ss figure
        ok (saved (file_name_of args.name) axes (average mean df_iperf)))

  pub plot_logs :
      (exists : Text → Bool) (read_throughput read_ss : Text → Result (List (LogRow F)))
      (mean : List F → F)
      → Args F
      → Result (Drawing F)
  unfolding draw_files detect_files
  plot_logs exists read_throughput read_ss mean args =
      draw_files read_throughput read_ss mean (detect_files exists args)
