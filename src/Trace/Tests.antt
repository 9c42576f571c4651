-- ===== src/Trace/Tests.antt =====
-- A run on the first lines of a trace, and the theorems at concrete traces.
use emulator_test.Prelude.{
  ◌+◌, ◌≡◌, refl, ◌⊎◌, List, [], ◌∷◌, map, length, some, arith, raised, index_error,
}
use emulator_test.Prelude.Int.{pos, ◌-ℤ◌, quotient, eq_ℤ}
use emulator_test.Number.{whole_number}
use emulator_test.Text.{Text, codes, split, int_of, text_eq}
use emulator_test.Trace.{parse_trace}
use emulator_test.Trace.Events.{Line, handover, event, printed, times_of, marks_of, parse_trace-eq}
use emulator_test.Trace.Partial.{parse_trace_then_filter}
use emulator_test.Handover.{filter_ho_types}

abbrev lines : List Line
lines =
    event (codes "0") (codes "INIT") (codes "0,1,216000")
    ∷ handover 7899 (codes "0") 2 (codes "199,1,26,0")
    ∷ handover 13602 (codes "0") 1 (codes "33,4,4,0")
    ∷ []

abbrev broken : List Text
broken = codes "0,INIT,0,1,216000" ∷ codes "7899,HO,0" ∷ codes "13602,HO,0,2,33,4,4,0" ∷ []

-- The last line has no link: its time is kept.
parse_broken : parse_trace (some broken) (pos 2) ≡ (pos 5 ∷ [], [])
unfolding parse_trace split int_of text_eq quotient ◌-ℤ◌
parse_broken = refl

parse_trace-eq_example :
    parse_trace (some (map printed lines)) (pos 2) ≡ (times_of (pos 2) lines, marks_of lines)
unfolding text_eq
parse_trace-eq_example =
    parse_trace-eq (pos 2) lines ((omega arith, omega arith, refl), omega arith)

parse_trace_then_filter_example :
    let (times, links) = parse_trace (some broken) (pos 2) in
    (length times ≡ length links)
    ⊎ ((length times ≡ length links + 1)
        × (filter_ho_types times links (pos 1) (pos 2) (pos 1) ≡ raised index_error))
unfolding eq_ℤ
parse_trace_then_filter_example =
    parse_trace_then_filter (some broken) (pos 2) (pos 1) (pos 2) (pos 1) refl
