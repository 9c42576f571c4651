-- ===== src/PacketLog/Tests.antt =====
-- The packet log's readers on a small log.
use emulator_test.Prelude.{◌≡◌, List, [], ◌∷◌, ok, arith, All}
use emulator_test.Prelude.Int.{ℤ, pos, quotient, ◌-ℤ◌}
use emulator_test.Number.{whole_number}
use emulator_test.Text.{codes}
use emulator_test.PacketLog.{Row, process_server_log}
use emulator_test.PacketLog.Search.{Line, packet, noise, log_text, IsQuietLine}
use emulator_test.PacketLog.Server.{process_server_log-log_text}

abbrev log : List Line
log =
    packet (codes "00:01 ") 3000 5001 7 1
    ∷ noise (codes "up")
    ∷ packet (codes "00:02 ") 5000 50730 9 2
    ∷ packet (codes "") 8000 5001 8 1
    ∷ []

log_quiet : All IsQuietLine log
log_quiet = ground arith

abbrev first_row : Row ℤ
first_row = record { epoch = pos 3; seq = pos 7; srcport = pos 5001; ack = pos 1; time = pos 0 }

abbrev last_row : Row ℤ
last_row = record { epoch = pos 8; seq = pos 8; srcport = pos 5001; ack = pos 1; time = pos 5 }

process_server_log-log_text_example :
    process_server_log (log_text log) (pos 5001) ≡ ok (first_row ∷ last_row ∷ [])
unfolding quotient ◌-ℤ◌
process_server_log-log_text_example = process_server_log-log_text 5001 log log_quiet
