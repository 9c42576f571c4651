-- ===== src/Trace.antt =====
-- `parse_trace` of scripts/processing/metrics.py, which reads the handovers of a trace such as those of
-- input/: the lines are what `readlines` gives, newlines included. A trace that cannot be opened, and
-- any other error, ends the reading with what has been read.
pub mod Events
pub mod Partial
mod Tests
use emulator_test.Prelude.{
  ℕ, Bool, true, false, List, [], ◌∷◌, ◌++◌, get_elem?, Option, none, some, if◌then◌else◌, Result,
  ok, raised, or_raise, index_error, ◌>>=◌,
}
use emulator_test.Prelude.Int.{ℤ}
use emulator_test.Number.{Number, number}
use emulator_test.Text.{Text, codes, comma, split, int_of, text_eq}

-- `int(tokens[k])`
unfoldable pub int_field : List Text → ℕ → Result ℤ
int_field tokens k = do t ← or_raise (get_elem? tokens k) index_error; int_of t

module _ {ℓ} {F : Type ℓ} ⦃n : Number F⦄ where
  -- `(int(tokens[0]) / 1000) - offset`
  pub handover_time : ℤ → F → F
  handover_time ms offset = n.minus (n.over (n.of_ℤ ms) (number 1000)) offset

  -- The handover times and the links they lead to, after what one handover line appends, and whether no error came.
  read_handover : List Text → F → List F × List ℤ → (List F × List ℤ) × Bool
  unfolding int_field handover_time
  read_handover tokens offset (times, links) = elim (int_field tokens 0) [
    | raised e ↦ ((times, links), false)
    | ok ms ↦
        let times' = times ++ handover_time ms offset ∷ [] in
        elim (int_field tokens 3) [
          | raised e ↦ ((times', links), false)
          | ok link ↦ ((times', links ++ link ∷ []), true)
        ]
  ]

  read_tokens : List Text → F → List F × List ℤ → (List F × List ℤ) × Bool
  unfolding read_handover
  read_tokens tokens offset s = elim (get_elem? tokens 1) [
    | none ↦ (s, false)
    | some kind ↦ if text_eq kind (codes "HO") then read_handover tokens offset s else (s, true)
  ]

  read_line : Text → F → List F × List ℤ → (List F × List ℤ) × Bool
  unfolding read_tokens
  read_line line offset s = read_tokens (split comma line) offset s

  trace_loop : List Text → F → List F × List ℤ → List F × List ℤ
  trace_loop [] offset s = s
  trace_loop (line ∷ lines) offset s =
      let (s', fine) = read_line line offset s in
      elim fine [ true ↦ trace_loop lines offset s' | false ↦ s' ]

  -- `none` is a file that cannot be opened.
  unfoldable pub parse_trace : Option (List Text) → F → List F × List ℤ
  unfolding read_line trace_loop
  parse_trace none offset = ([], [])
  parse_trace (some lines) offset = trace_loop lines offset ([], [])
