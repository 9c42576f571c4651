-- ===== src/Generate.antt =====
-- `generate_trace` of scripts/run/generate_input.py, which appends the commands of a run to a trace. The
-- traces are the lines that `readlines` gives; the function catches every exception, and then writes
-- nothing. `truncate` is `int` of a float.
pub mod Init
pub mod Output
mod Tests
use emulator_test.Prelude.{
  ℕ, suc, List, [], ◌∷◌, ◌++◌, length, get_elem?, leb, ◌==◌, Option, none, some, if◌then◌else◌,
  Result, ok, raised, index_error, name_error, or_raise, ◌>>=◌,
}
use emulator_test.Prelude.Int.{ℤ, pos, negsuc, ◌+ℤ◌}
use emulator_test.Number.{Number, number}
use emulator_test.Text.{Text, codes, comma, newline, split, int_of, str_of, text_eq}

-- `xs[-1]`
unfoldable pub last {ℓ} : {A : Type ℓ} → List A → Option A
last [] = none
last (x ∷ []) = some x
last (x ∷ y ∷ xs) = last (y ∷ xs)

-- The search for the execution time: it is not bound where no line is an INIT line.
pub find_init : List Text → Result ℤ
unfolding last
find_init [] = raised name_error
find_init (line ∷ lines) =
    let rest = find_init lines in
    do
      kind ← or_raise (get_elem? (split comma line) 1) index_error
      token ← or_raise (last (split comma line)) index_error
      if text_eq kind (codes "INIT") then int_of token else rest

-- `lines[-1]` gets a line break if it has none.
pub fix_last : List Text → Result (List Text)
unfolding last
fix_last [] = raised index_error
fix_last (line ∷ []) = do
  c ← or_raise (last line) index_error
  ok ((if c == newline then line else line ++ newline ∷ []) ∷ [])
fix_last (line ∷ next ∷ lines) = do fixed ← fix_last (next ∷ lines); ok (line ∷ fixed)

-- An integer in a format string.
unfoldable pub show : ℤ → Text
show (pos n) = str_of n
show (negsuc n) = b'-' ∷ str_of (suc n)

unfoldable pub iperf_command : Text → ℤ → Text
unfolding show
iperf_command logname execution_time =
    codes "2000,CMD,iperf3 -c 10.0.0.2 -p 5257 -t "
    ++ show execution_time
    ++ codes " -i 0.1 -J --logfile "
    ++ logname
    ++ codes " &\n"

unfoldable pub monitor_command : Text → ℤ → Text
unfolding show
monitor_command logname execution_time =
    codes "1000,CMD,/data/ztliu/emulator-test/scripts/run/monitor.sh "
    ++ logname
    ++ codes " "
    ++ show execution_time
    ++ codes " &\n"

module _ {ℓ} {F : Type ℓ} ⦃n : Number F⦄ (truncate : F → ℤ) where
  -- `int(execution_time / 1000 - 5)`
  unfoldable pub run_time : ℤ → ℤ
  run_time execution_time =
      truncate (n.minus (n.over (n.of_ℤ execution_time) (number 1000)) (number 5))

  -- The lines that are written; nothing where the trace is skipped.
  unfoldable pub generate_trace : List Text → List Text → Result (Option (List Text))
  unfolding find_init fix_last iperf_command monitor_command run_time
  generate_trace lines extras =
      if leb 3 (length lines)
      then (do
        init_time ← find_init lines
        fixed ← fix_last lines
        iperf_log ← or_raise (get_elem? extras 0) index_error
        ss_log ← or_raise (get_elem? extras 1) index_error
        ok (
            some (
              fixed
              ++ iperf_command iperf_log (run_time init_time)
                ∷ monitor_command ss_log (run_time init_time +ℤ pos 1)
                ∷ [])))
      else ok none
