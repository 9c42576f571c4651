-- ===== src/Panels/Subplots.antt =====
-- The subplots that plot-logs.py draws.
use mathlib.Core.Path.{fun_ext}
use emulator_test.Prelude.{
  ℕ, ◌≡◌, refl, sym, ap, ◌⊎◌, inl, inr, List, [], ◌∷◌, ◌++◌, map, length, count, Bool, Option, none,
  some, IsOrElse, Result, ok,
}
use emulator_test.Number.{Number, number}
use emulator_test.Text.{Text, codes}
use emulator_test.Panels.{
  LogRow, Args, Drawing, exits, saved, given, n_subfig, empty_subplots, draw_at, time_or,
  file_name_of, filter_times, draw_file, average, draw_files, plot_logs,
}
use emulator_test.Panels.Curves.{point, Sorts, filter_times-IsCurve}
use emulator_test.Panels.Files.{
  is_given, IsDetected, drawn_all, named, IsAverage, values-points, args_of,
  detect_files-IsDetected, time_or-IsOrElse, Shows, Draws,
}

module _ {ℓ} {F : Type ℓ} ⦃n : Number F⦄ (sort_by_time : List (LogRow F) → List (LogRow F))
    (sorts : Sorts sort_by_time) (mean : List F → F)
    (throughput_rows ss_rows : Text → List (LogRow F)) where
  -- The panel of a file
  abbrev panel : Text → (Text → List (LogRow F)) → F → F → Option Text → List (Text × List (F × F))
  panel ylabel rows begin end none = []
  panel ylabel rows begin end (some []) = []
  panel ylabel rows begin end (some (c ∷ cs)) =
      (ylabel, map point (filter_times sort_by_time (rows (c ∷ cs)) begin end)) ∷ []

  abbrev mean_of : F → F → Option Text → Option F
  mean_of begin end none = none
  mean_of begin end (some []) = none
  mean_of begin end (some (c ∷ cs)) =
      some
        (mean (map (λ r. r.value) (filter_times sort_by_time (throughput_rows (c ∷ cs)) begin end)))

  panel-Shows :
      (ylabel : Text) (rows : Text → List (LogRow F)) (begin end : F) (t : Option Text)
      (files : List (Text × List (LogRow F))) (ps : List (Text × List (F × F)))
      → Shows begin end files ps
      → Shows begin end (named ylabel rows t ++ files) (panel ylabel rows begin end t ++ ps)
  panel-Shows ylabel rows begin end none files ps h = h
  panel-Shows ylabel rows begin end (some []) files ps h = h
  panel-Shows ylabel rows begin end (some (c ∷ cs)) files ps h =
      (refl, filter_times-IsCurve sort_by_time sorts (rows (c ∷ cs)) begin end, h)

  panel-Shows_last :
      (ylabel : Text) (rows : Text → List (LogRow F)) (begin end : F) (s : Option Text)
      → Shows begin end (named ylabel rows s) (panel ylabel rows begin end s)
  panel-Shows_last ylabel rows begin end none = tt
  panel-Shows_last ylabel rows begin end (some []) = tt
  panel-Shows_last ylabel rows begin end (some (d ∷ ds)) =
      (refl, filter_times-IsCurve sort_by_time sorts (rows (d ∷ ds)) begin end, tt)

  mean_of-IsAverage :
      (begin end : F) (t : Option Text) (ps : List (Text × List (F × F)))
      → IsAverage mean t
          (panel (codes "Thuput(Mbps)") throughput_rows begin end t ++ ps)
          (mean_of begin end t)
  mean_of-IsAverage begin end none ps = refl
  mean_of-IsAverage begin end (some []) ps = refl
  mean_of-IsAverage begin end (some (c ∷ cs)) ps =
      ap (λ xs. some (mean xs))
        (sym (values-points (filter_times sort_by_time (throughput_rows (c ∷ cs)) begin end)))

  module _ (auto name : Option Text) (begin end : Option F) where
    abbrev begin_time : F
    begin_time = time_or begin (number 0)

    abbrev end_time : F
    end_time = time_or end (number 1200)

    abbrev panels : Option Text → Option Text → List (Text × List (F × F))
    panels t s =
        panel (codes "Thuput(Mbps)") throughput_rows begin_time end_time t
        ++ panel (codes "bbr minRTT") ss_rows begin_time end_time s

    abbrev result_of : Option Text → Option Text → Option Text → Result (Drawing F)
    result_of t j s =
        draw_files sort_by_time (λ f. ok (throughput_rows f)) (λ f. ok (ss_rows f)) mean
          (args_of auto name t j s begin end)

    abbrev IsSaved : ℕ → Option Text → Option Text → Option Text → Type ℓ
    IsSaved k t j s =
        (result_of t j s
          ≡ ok (
              saved (file_name_of name) (drawn_all (panels t s) ++ empty_subplots k)
                (mean_of begin_time end_time t)))
        × (length (drawn_all (panels t s) ++ empty_subplots k) ≡ count is_given (t ∷ j ∷ s ∷ []))

    draw_files-IsSaved :
        (t j s : Option Text)
        → ((t ≡ none) × (j ≡ none) × (s ≡ none) × (result_of t j s ≡ ok exits))
          ⊎ ((k : ℕ) × IsSaved k t j s)
    unfolding draw_files draw_file n_subfig given empty_subplots draw_at average
    draw_files-IsSaved none none none = inl (refl, refl, refl, refl)
    draw_files-IsSaved none none (some []) = inr (1, (refl, refl))
    draw_files-IsSaved none none (some (d ∷ ds)) = inr (0, (refl, refl))
    draw_files-IsSaved none (some f) none = inr (1, (refl, refl))
    draw_files-IsSaved none (some f) (some []) = inr (2, (refl, refl))
    draw_files-IsSaved none (some f) (some (d ∷ ds)) = inr (1, (refl, refl))
    draw_files-IsSaved (some []) none none = inr (1, (refl, refl))
    draw_files-IsSaved (some []) none (some []) = inr (2, (refl, refl))
    draw_files-IsSaved (some []) none (some (d ∷ ds)) = inr (1, (refl, refl))
    draw_files-IsSaved (some []) (some f) none = inr (2, (refl, refl))
    draw_files-IsSaved (some []) (some f) (some []) = inr (3, (refl, refl))
    draw_files-IsSaved (some []) (some f) (some (d ∷ ds)) = inr (2, (refl, refl))
    draw_files-IsSaved (some (c ∷ cs)) none none = inr (0, (refl, refl))
    draw_files-IsSaved (some (c ∷ cs)) none (some []) = inr (1, (refl, refl))
    draw_files-IsSaved (some (c ∷ cs)) none (some (d ∷ ds)) = inr (0, (refl, refl))
    draw_files-IsSaved (some (c ∷ cs)) (some f) none = inr (1, (refl, refl))
    draw_files-IsSaved (some (c ∷ cs)) (some f) (some []) = inr (2, (refl, refl))
    draw_files-IsSaved (some (c ∷ cs)) (some f) (some (d ∷ ds)) = inr (1, (refl, refl))

    draw_files-Draws :
        (t j s : Option Text)
        → Draws mean throughput_rows ss_rows t j s begin_time end_time (result_of t j s)
    draw_files-Draws t j s = elim (draw_files-IsSaved t j s) [
      | inl nothing ↦ inl nothing
      | inr (k, (done, size)) ↦ inr (
        file_name_of name,
        panels t s,
        k,
        mean_of begin_time end_time t,
        done,
        size,
        panel-Shows (codes "Thuput(Mbps)") throughput_rows begin_time end_time t
            (named (codes "bbr minRTT") ss_rows s)
            (panel (codes "bbr minRTT") ss_rows begin_time end_time s)
            (panel-Shows_last (codes "bbr minRTT") ss_rows begin_time end_time s),
        mean_of-IsAverage begin_time end_time t
            (panel (codes "bbr minRTT") ss_rows begin_time end_time s),
      )
    ]

  -- Where every name can be read and `sort_values` sorts: with a prefix, a throughput and a sockets file
  -- of this prefix take the place of the arguments if they exist. `plot_logs` exits when no file is given
  -- or detected. Else it saves a figure with a subplot for each file: first those that are drawn, that
  -- of the throughput before that of the sockets, each under its label, and behind them empty ones.
  -- A curve shows, by rising time, exactly the points of its file's rows from the begin to the end of the
  -- range, each as often as the rows hold it; the bounds are 0 and 1200 where they are not given. The
  -- average is that of the values of the throughput's curve.
  pub plot_logs_lem :
      (exists : Text → Bool) (read_throughput read_ss : Text → Result (List (LogRow F)))
      (args : Args F)
      → ((f : Text) → read_throughput f ≡ ok (throughput_rows f))
      → ((f : Text) → read_ss f ≡ ok (ss_rows f))
      → (throughput ss : Option Text) × (begin end : F) × IsDetected exists args.auto
          (codes "-iperf-throughput.csv")
          args.throughput
          throughput
        × IsDetected exists args.auto (codes "-ss-server.csv") args.ss ss
        × IsOrElse args.begin (number 0) begin
        × IsOrElse args.end (number 1200) end
        × Draws mean throughput_rows ss_rows throughput args.jitter ss begin end
            (plot_logs sort_by_time exists read_throughput read_ss mean args)
  unfolding plot_logs
  plot_logs_lem exists read_throughput read_ss args read_t read_s =
      let (t, s, is_t, is_s, found) =
        detect_files-IsDetected exists args.auto args.name args.throughput args.jitter args.ss
          args.begin args.end in
      let here = draw_files-Draws args.auto args.name args.begin args.end t args.jitter s in
      let b = time_or args.begin (number 0) in
      let e = time_or args.end (number 1200) in
      (
        t,
        s,
        b,
        e,
        is_t,
        is_s,
        time_or-IsOrElse args.begin 0,
        time_or-IsOrElse args.end 1200,
        rw (found, fun_ext read_t, fun_ext read_s) here,
      )
