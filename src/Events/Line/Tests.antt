-- ===== src/Events/Line/Tests.antt =====
-- A short trace, as text, and numbers as `strtol` reads them.
use emulator_test.Prelude.{◌≡◌, refl, List, [], ◌∷◌, arith}
use emulator_test.Prelude.Int.{pos, negsuc}
use emulator_test.Text.{codes, str_of}
use emulator_test.Events.Line.{is_token, strtol, init, ho, unknown, read_input}
use emulator_test.Events.Line.Numbers.{IsPiece}
use emulator_test.Events.Line.Printed.{
  Entry, name_of, entry_text, numbers, command, add_entries, trace_text,
}
use emulator_test.Events.Line.Input.{read_input-trace_text}

hexadecimal : strtol (codes " 0x1F,") ≡ pos 31
unfolding strtol
hexadecimal = refl

octal : strtol (codes "-017") ≡ negsuc 14
unfolding strtol
octal = refl

abbrev events : List Entry
events =
    numbers init 0 (0 ∷ 1 ∷ 50000 ∷ [])
    ∷ command 1000 (codes "iperf3 -c 10.0.0.2 -t 30 &")
    ∷ numbers ho 9000 (0 ∷ 1 ∷ 30 ∷ 1 ∷ 10 ∷ 0 ∷ [])
    ∷ numbers unknown 9001 (1 ∷ 1 ∷ 10 ∷ [])
    ∷ []

command-IsPiece : IsPiece (codes "iperf3 -c 10.0.0.2 -t 30 &")
unfolding is_token
command-IsPiece = record { no_comma = omega arith; no_newline = omega arith; full = refl }

read_input-trace_text_example : read_input (trace_text events) ≡ add_entries events []
unfolding entry_text str_of name_of
read_input-trace_text_example = read_input-trace_text events (
  (refl, omega arith, omega arith, omega arith),
  (
    (omega arith, command-IsPiece, omega arith),
    (
      (refl, omega arith, omega arith, omega arith),
      ((refl, omega arith, omega arith, omega arith), tt),
    ),
  ),
)
