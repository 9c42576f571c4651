-- ===== src/Generate/Tests.antt =====
-- The commands appended to a small trace.
use emulator_test.Prelude.{List, [], ◌∷◌, ◌++◌, some, ok, raised, name_error, All, ◌≡◌, refl, arith}
use emulator_test.Prelude.Int.{ℤ, pos, quotient, ◌-ℤ◌, ◌+ℤ◌}
use emulator_test.Number.{whole_number}
use emulator_test.Text.{Text, is_space, codes, comma, split, text_eq, str_of}
use emulator_test.Text.Decimal.{Space}
use emulator_test.Text.Fields.{Lacks}
use emulator_test.Generate.{last, generate_trace, iperf_command, monitor_command, run_time}
use emulator_test.Generate.Init.{Event, IsEvent, init_fields}
use emulator_test.Generate.Output.{IsFile, IsFixed, trace_lines, generate_trace_lem}

abbrev events : List Event
events = record { time = codes "0"; kind = codes "CMD"; fields = codes "ls\n" ∷ [] } ∷ []

abbrev after : List Text
after = codes "90,HO,1,2,30" ∷ []

abbrev trace : List Text
trace = trace_lines events (codes "0") (codes "1" ∷ []) 60000 (codes "\n") after

are_events : All IsEvent events
unfolding text_eq
are_events = ground arith

fields_Lacks : All (Lacks comma) (init_fields (codes "0") (codes "1" ∷ []) 60000 (codes "\n"))
unfolding str_of
fields_Lacks = ground arith

spaces : All Space (codes "\n")
unfolding is_space
spaces = (refl, tt)

is_file : IsFile trace
unfolding last str_of
is_file = (refl, (refl, λ e. cc))

seconds : run_time (λ z. z) (pos 60000) ≡ pos 55
unfolding run_time quotient ◌-ℤ◌
seconds = refl

no_init :
    generate_trace {F = ℤ} (λ z. z) (codes "0,a\n" ∷ codes "0,b\n" ∷ codes "0,c\n" ∷ []) []
    ≡ raised name_error
unfolding generate_trace split text_eq
no_init = refl

generate_trace_lem_example :
    (fixed : List Text) × (generate_trace (λ z. z) trace (codes "a.json" ∷ codes "b.log" ∷ [])
      ≡ ok (
          some (
            fixed
            ++ codes "2000,CMD,iperf3 -c 10.0.0.2 -p 5257 -t 55 -i 0.1 -J --logfile a.json &\n"
              ∷ codes "1000,CMD,/data/ztliu/emulator-test/scripts/run/monitor.sh b.log 56 &\n"
              ∷ [])))
    × IsFixed trace fixed
unfolding iperf_command monitor_command run_time quotient ◌-ℤ◌ ◌+ℤ◌ str_of
generate_trace_lem_example =
    generate_trace_lem (λ z. z) events (codes "0") (codes "1" ∷ []) 60000 (codes "\n") after
      (codes "a.json") (codes "b.log") (omega arith) is_file are_events fields_Lacks spaces
