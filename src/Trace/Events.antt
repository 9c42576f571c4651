-- ===== src/Trace/Events.antt =====
-- `parse_trace` on the lines of a trace in the format of README.md.
use emulator_test.Prelude.{
  ℕ, ◌≡◌, refl, ap, Bool, ◌∙◌, List, [], ◌∷◌, ◌++◌, map, append-nil, append-snoc, All, false, some,
  arith, ok, true,
}
use emulator_test.Prelude.Int.{ℤ, pos}
use emulator_test.Number.{Number}
use emulator_test.Text.{Text, codes, comma, split, int_of, text_eq, str_of}
use emulator_test.Text.Decimal.{int_of-str_of}
use emulator_test.Text.Fields.{Lacks, split-append, str_of-Lacks, text_eq_refl}
use emulator_test.Trace.{
  int_field, handover_time, read_handover, read_tokens, read_line, trace_loop, parse_trace,
}

-- A line of a trace: a handover, or any other event. `rest` is what follows the last comma read.
pub data Line : Type 0 where
  handover : ℕ → Text → ℕ → Text → Line
  event : Text → Text → Text → Line

-- `time_ms,HO,queue_num,new_mark,...` and `time_ms,EVENT_TYPE,params...`
abbrev pub printed : Line → Text
printed (handover time queue mark rest) =
    str_of time ++ comma ∷ (codes "HO" ++ comma ∷ (queue ++ comma ∷ (str_of mark ++ comma ∷ rest)))
printed (event time kind rest) = time ++ comma ∷ (kind ++ comma ∷ rest)

-- No field holds a comma, and only handovers are of the type `HO`.
abbrev pub IsPlain : Line → Type 0
IsPlain (handover time queue mark rest) = Lacks comma queue
IsPlain (event time kind rest) =
    Lacks comma time × Lacks comma kind × (text_eq kind (codes "HO") ≡ false)

number-Lacks : (n : ℕ) → Lacks comma (str_of n)
number-Lacks n = str_of-Lacks comma n (λ c d. omega arith)

split-handover :
    (time : ℕ) (queue : Text) (mark : ℕ) (rest : Text)
    → Lacks comma queue
    → split comma (printed (handover time queue mark rest))
      ≡ str_of time ∷ codes "HO" ∷ queue ∷ str_of mark ∷ split comma rest
split-handover time queue mark rest h =
    rw (split-append comma (str_of time) _ (number-Lacks time)) (
      rw
        (split-append comma (codes "HO") (queue ++ comma ∷ (str_of mark ++ comma ∷ rest))
          (omega arith))
        (rw (split-append comma queue (str_of mark ++ comma ∷ rest) h)
          (rw (split-append comma (str_of mark) rest (number-Lacks mark)) refl)))

int_of-number : (n : ℕ) → int_of (str_of n) ≡ ok (pos n)
int_of-number n = rw append-nil at (int_of-str_of n [] tt)

module _ {ℓ} {F : Type ℓ} ⦃n : Number F⦄ where
  abbrev pub times_of : F → List Line → List F
  times_of offset [] = []
  times_of offset (handover time queue mark rest ∷ lines) =
      handover_time (pos time) offset ∷ times_of offset lines
  times_of offset (event time kind rest ∷ lines) = times_of offset lines

abbrev pub marks_of : List Line → List ℤ
marks_of [] = []
marks_of (handover time queue mark rest ∷ lines) = pos mark ∷ marks_of lines
marks_of (event time kind rest ∷ lines) = marks_of lines

module _ {ℓ} {F : Type ℓ} ⦃n : Number F⦄ where
  read_handover-eq :
      (tokens : List Text) (offset : F) (ts : List F) (ls : List ℤ) (ms link : ℤ)
      → int_field tokens 0 ≡ ok ms
      → int_field tokens 3 ≡ ok link
      → read_handover tokens offset (ts, ls)
        ≡ ((ts ++ handover_time ms offset ∷ [], ls ++ link ∷ []), true)
  unfolding read_handover
  read_handover-eq tokens offset ts ls ms link h h' = ground arith

  read_line-handover :
      (time : ℕ) (queue : Text) (mark : ℕ) (rest : Text) (offset : F) (ts : List F) (ls : List ℤ)
      → Lacks comma queue
      → read_line (printed (handover time queue mark rest)) offset (ts, ls)
        ≡ ((ts ++ handover_time (pos time) offset ∷ [], ls ++ pos mark ∷ []), true)
  unfolding read_line int_field
  read_line-handover time queue mark rest offset ts ls h =
      ap (λ tokens. read_tokens tokens offset (ts, ls)) (split-handover time queue mark rest h)
      ∙ rw (text_eq_refl (codes "HO")) (
          read_handover-eq (str_of time ∷ codes "HO" ∷ queue ∷ str_of mark ∷ split comma rest)
            offset ts ls (pos time) (pos mark) (int_of-number time) (int_of-number mark))

  read_line-event :
      (time kind rest : Text) (offset : F) (ts : List F) (ls : List ℤ)
      → IsPlain (event time kind rest)
      → read_line (printed (event time kind rest)) offset (ts, ls) ≡ ((ts, ls), true)
  unfolding read_line
  read_line-event time kind rest offset ts ls h =
      ap (λ tokens. read_tokens tokens offset (ts, ls))
        (split-append comma time (kind ++ comma ∷ rest) h.0
          ∙ ap (λ r. time ∷ r) (split-append comma kind rest h.1))
      ∙ rw h.2 refl

  trace_loop-cons :
      (line : Text) (lines : List Text) (offset : F) (s s' : List F × List ℤ)
      → read_line line offset s ≡ (s', true)
      → trace_loop (line ∷ lines) offset s ≡ trace_loop lines offset s'
  unfolding trace_loop
  trace_loop-cons line lines offset s s' h =
      ap
        (λ (r : (List F × List ℤ) × Bool). elim r.1 as (λ _. List F × List ℤ) [
          | true ↦ trace_loop lines offset r.0
          | false ↦ r.0
        ])
        h

  trace_loop-eq :
      (offset : F) (lines : List Line) (ts : List F) (ls : List ℤ)
      → All IsPlain lines
      → trace_loop (map printed lines) offset (ts, ls)
        ≡ (ts ++ times_of offset lines, ls ++ marks_of lines)
  unfolding trace_loop
  trace_loop-eq offset [] ts ls h = simp append-nil
  trace_loop-eq offset (handover time queue mark rest ∷ lines) ts ls h =
      trace_loop-cons (printed (handover time queue mark rest)) (map printed lines) offset (ts, ls)
        (ts ++ handover_time (pos time) offset ∷ [], ls ++ pos mark ∷ [])
        (read_line-handover time queue mark rest offset ts ls h.0)
      ∙ (rw
          (trace_loop-eq offset lines (ts ++ handover_time (pos time) offset ∷ [])
            (ls ++ pos mark ∷ []) h.1)
          (simp append-snoc))
  trace_loop-eq offset (event time kind rest ∷ lines) ts ls h =
      trace_loop-cons (printed (event time kind rest)) (map printed lines) offset (ts, ls) (ts, ls)
        (read_line-event time kind rest offset ts ls h.0)
      ∙ trace_loop-eq offset lines ts ls h.1

  -- Of a trace of handovers and other events, whose fields hold no comma, `parse_trace` gives exactly the
  -- handovers, in order: each time in seconds less the offset, and each new mark.
  pub parse_trace-eq :
      (offset : F) (lines : List Line)
      → All IsPlain lines
      → parse_trace (some (map printed lines)) offset ≡ (times_of offset lines, marks_of lines)
  unfolding parse_trace
  parse_trace-eq offset lines h = trace_loop-eq offset lines [] [] h
