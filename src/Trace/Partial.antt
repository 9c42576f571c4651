-- ===== src/Trace/Partial.antt =====
-- What `parse_trace` leaves behind when a line is malformed.
use emulator_test.Prelude.{
  ◌≤◌, ◌+◌, ◌≡◌, refl, ◌∙◌, ◌⊎◌, inl, inr, List, [], ◌∷◌, ◌&&◌, length, length-append, Bool, true,
  false, Option, none, some, arith, Bool-cases, leb, raised, index_error, Result-cases,
}
use emulator_test.Prelude.Int.{ℤ, pos, eq_ℤ}
use emulator_test.Number.{Number}
use emulator_test.Text.{Text, comma, split}
use emulator_test.Trace.{
  int_field, handover_time, read_handover, read_line, trace_loop, parse_trace,
}
use emulator_test.Handover.{filter_ho_types}
use emulator_test.Handover.Types.{filter_ho_types-eq}

module _ {ℓ} {F : Type ℓ} ⦃n : Number F⦄ where
  -- At most one time has no link.
  abbrev pub Lags : List F × List ℤ → Type 0
  Lags (ts, ls) = (length ls ≤ length ts) × (length ts ≤ length ls + 1)

  -- The reading went on with as many links as times, or stopped.
  abbrev Keeps : (List F × List ℤ) × Bool → Type 0
  Keeps (s, fine) = Lags s × (fine ≡ true → length s.0 ≡ length s.1)

  read_handover-Keeps :
      (tokens : List Text) (offset : F) (ts : List F) (ls : List ℤ)
      → length ts ≡ length ls
      → Keeps (read_handover tokens offset (ts, ls))
  unfolding read_handover
  read_handover-Keeps tokens offset ts ls h = elim (Result-cases (int_field tokens 0)) [
    | inl (ms, read) ↦ elim (Result-cases (int_field tokens 3)) [
      | inl (link, read') ↦ ground (
        arith,
        read,
        read',
        length-append ts (handover_time ms offset ∷ []),
        length-append ls (link ∷ []),
      )
      | inr (e, failed) ↦
          ground (arith, read, failed, length-append ts (handover_time ms offset ∷ []))
    ]
    | inr (e, failed) ↦ ground (arith, failed)
  ]

  read_line-Keeps :
      (line : Text) (offset : F) (ts : List F) (ls : List ℤ)
      → length ts ≡ length ls
      → Keeps (read_line line offset (ts, ls))
  unfolding read_line
  read_line-Keeps line offset ts ls h =
      ground (arith, read_handover-Keeps (split comma line) offset ts ls h)

  trace_loop-Lags :
      (lines : List Text) (offset : F) (s : List F × List ℤ)
      → length s.0 ≡ length s.1
      → Lags (trace_loop lines offset s)
  unfolding trace_loop
  trace_loop-Lags [] offset (ts, ls) h = omega arith
  trace_loop-Lags (line ∷ lines) offset (ts, ls) h = ground (
    arith,
    read_line-Keeps line offset ts ls h,
    trace_loop-Lags lines offset (read_line line offset (ts, ls)).0,
  )

  parse_trace-Lags : (source : Option (List Text)) (offset : F) → Lags (parse_trace source offset)
  unfolding parse_trace
  parse_trace-Lags none offset = omega arith
  parse_trace-Lags (some lines) offset = trace_loop-Lags lines offset ([], []) refl

  -- Whatever the trace, `parse_trace` returns as many links as times, or one time too many: then
  -- `filter_ho_types` raises IndexError for every type but [0, 0].
  pub parse_trace_then_filter :
      (source : Option (List Text)) (offset : F) (from to initial : ℤ)
      → (eq_ℤ from (pos 0) && eq_ℤ to (pos 0)) ≡ false
      → let (times, links) = parse_trace source offset in
        (length times ≡ length links)
        ⊎ ((length times ≡ length links + 1)
            × (filter_ho_types times links from to initial ≡ raised index_error))
  parse_trace_then_filter source offset from to initial h =
      let (times, links) = parse_trace source offset in
      let lags = parse_trace-Lags source offset in
      elim (Bool-cases (leb (length times) (length links))) [
        | inl matched ↦ inl (ground (arith, matched, lags))
        | inr short ↦ inr (
          ground (arith, short, lags),
          filter_ho_types-eq times links from to initial h ∙ rw short refl,
        )
      ]
