-- ===== src/Generate/Output.antt =====
-- The lines that `generate_trace` writes.
use emulator_test.Prelude.{
  ℕ, ◌≤◌, ◌≡◌, ◌≢◌, refl, sym, ap, ◌∙◌, ◌⊎◌, inl, inr, List, [], ◌∷◌, ◌++◌, append-nil,
  append_assoc, map, All, true, length, leb, ◌==◌, some, ok, arith, Bool-cases,
}
use emulator_test.Prelude.Int.{ℤ, pos, ◌+ℤ◌}
use emulator_test.Number.{Number}
use emulator_test.Text.{Text, comma, newline}
use emulator_test.Text.Decimal.{Space}
use emulator_test.Text.Fields.{join, Lacks}
use emulator_test.Generate.{
  last, find_init, fix_last, iperf_command, monitor_command, run_time, generate_trace,
}
use emulator_test.Generate.Init.{
  Event, event_line, IsEvent, init_fields, find_init_lem, last-snoc, last-some,
}

abbrev pub EndsLine : Text → Type 0
EndsLine line = last line ≡ some newline

-- The lines of a file: the last need not end in a newline.
abbrev pub IsFile : List Text → Type 0
IsFile [] = Unit
IsFile (line ∷ []) = line ≢ []
IsFile (line ∷ next ∷ lines) = EndsLine line × IsFile (next ∷ lines)

abbrev pub concat : List Text → Text
concat [] = []
concat (line ∷ lines) = line ++ concat lines

-- The same text in whole lines, with a newline at the end if there was none.
abbrev pub IsFixed : List Text → List Text → Type 0
IsFixed lines fixed =
    All EndsLine fixed
    × (length fixed ≡ length lines)
    × ((concat fixed ≡ concat lines) ⊎ (concat fixed ≡ concat lines ++ newline ∷ []))

fix_one :
    (line : Text)
    → line ≢ []
    → (fixed : List Text) × (fix_last (line ∷ []) ≡ ok fixed) × IsFixed (line ∷ []) fixed
unfolding fix_last
fix_one [] h = absurd (h refl)
fix_one (d ∷ line) h =
    let (c, found) = last-some d line in
    elim (Bool-cases (c == newline)) [
      | inl e ↦
          let same : c ≡ newline = ground (arith, e) in
          (
            (d ∷ line) ∷ [],
            rw found (rw e refl),
            ((found ∙ ap (λ x. some x) same, tt), refl, inl refl),
          )
      | inr e ↦ (
        ((d ∷ line) ++ newline ∷ []) ∷ [],
        rw found (rw e refl),
        (
          (last-snoc (d ∷ line) newline, tt),
          refl,
          inr (append-nil _ ∙ ap (λ t. t ++ newline ∷ []) (sym (append-nil (d ∷ line)))),
        ),
      )
    ]

fix_last_lem :
    (lines : List Text)
    → 1 ≤ length lines
    → IsFile lines
    → (fixed : List Text) × (fix_last lines ≡ ok fixed) × IsFixed lines fixed
unfolding fix_last
fix_last_lem [] size h = absurd (omega (arith, size))
fix_last_lem (line ∷ []) size h = fix_one line h
fix_last_lem (line ∷ next ∷ lines) size (h, hs) =
    let (fixed, eq, (ends, same, text)) = fix_last_lem (next ∷ lines) (omega arith) hs in
    (
      line ∷ fixed,
      rw eq refl,
      (
        (h, ends),
        omega arith,
        elim text [
          | inl e ↦ inl (ap (λ t. line ++ t) e)
          | inr e ↦ inr (
              ap (λ t. line ++ t) e
              ∙ sym (append_assoc line (concat (next ∷ lines)) (newline ∷ [])))
        ],
      ),
    )

-- A trace: events that are no INIT lines, an INIT line, and anything behind it.
abbrev pub trace_lines : List Event → Text → List Text → ℕ → Text → List Text → List Text
trace_lines es time fields stamp space after =
    map event_line es ++ join comma (init_fields time fields stamp space) ∷ after

module _ {ℓ} {F : Type ℓ} ⦃n : Number F⦄ (truncate : F → ℤ) where
  generate_trace-eq :
      (lines fixed : List Text) (stamp : ℤ) (iperf_log ss_log : Text)
      → 3 ≤ length lines
      → find_init lines ≡ ok stamp
      → fix_last lines ≡ ok fixed
      → generate_trace truncate lines (iperf_log ∷ ss_log ∷ [])
        ≡ ok (
            some (
              fixed
              ++ iperf_command iperf_log (run_time truncate stamp)
                ∷ monitor_command ss_log (run_time truncate stamp +ℤ pos 1)
                ∷ []))
  unfolding generate_trace
  generate_trace-eq lines fixed stamp iperf_log ss_log size h fix =
      let long : leb 3 (length lines) ≡ true = ground (arith, size) in rw long (rw h (rw fix refl))

  -- For a trace of at least three lines in which an INIT line that ends in its time comes behind lines of
  -- at least two fields that are no INIT lines, `generate_trace` writes the trace and two more lines: the
  -- iperf3 command for the run's time, which is that time in seconds, less 5 and cut off, and the
  -- monitor's command for one second more. What stands before them are whole lines, as many as the
  -- trace has, with the text of the trace and a newline if it did not end in one.
  pub generate_trace_lem :
      (es : List Event) (time : Text) (fields : List Text) (stamp : ℕ) (space : Text)
      (after : List Text) (iperf_log ss_log : Text)
      → 3 ≤ length (trace_lines es time fields stamp space after)
      → IsFile (trace_lines es time fields stamp space after)
      → All IsEvent es
      → All (Lacks comma) (init_fields time fields stamp space)
      → All Space space
      → (fixed : List Text) × (generate_trace truncate
            (trace_lines es time fields stamp space after)
            (iperf_log ∷ ss_log ∷ [])
          ≡ ok (
              some (
                fixed
                ++ iperf_command iperf_log (run_time truncate (pos stamp))
                  ∷ monitor_command ss_log (run_time truncate (pos stamp) +ℤ pos 1)
                  ∷ [])))
        × IsFixed (trace_lines es time fields stamp space after) fixed
  generate_trace_lem es time fields stamp space after iperf_log ss_log size file hes h hs =
      let lines = trace_lines es time fields stamp space after in
      let (fixed, fix, whole) = fix_last_lem lines (omega (arith, size)) file in
      (
        fixed,
        generate_trace-eq lines fixed (pos stamp) iperf_log ss_log size
            (find_init_lem es time fields stamp space after hes h hs) fix,
        whole,
      )
