-- ===== src/Transit/Tests.antt =====
-- Three packets of the server and three of the client, with a `groupby` and a `merge` on whole numbers.
use mathlib.Core.List.{Memᴰ}
use emulator_test.Prelude.{◌≡◌, refl, suc, List, [], ◌∷◌, length, Bool, false, none, some, ok}
use emulator_test.Prelude.Int.{ℤ, pos, quotient, ◌-ℤ◌, eq_ℤ}
use emulator_test.Number.{whole_number}
use emulator_test.Text.{Text, codes, int_of, drop_prefix}
use emulator_test.PacketLog.{Row, process_server_log, find_packets}
use emulator_test.Frames.{check_rollover}
use emulator_test.Transit.{
  ClientRow, TransitRow, written, or_default, client_range, server_range, client_epochs,
  server_epochs, packet_metrics,
}
use emulator_test.Transit.Earliest.{IsTransit}
use emulator_test.Transit.Pipeline.{packet_metrics_lem}
use emulator_test.Transit.Joins.{group_min, join, group_min-IsGroupMin, join-IsInnerJoin}

abbrev first_client : ClientRow ℤ
first_client = record { time = pos 0; epoch = pos 12; src_port = pos 5001; seq = pos 7 }

abbrev second_client : ClientRow ℤ
second_client = record { time = pos 1; epoch = pos 15; src_port = pos 5001; seq = pos 8 }

abbrev client : List (ClientRow ℤ)
client =
    first_client
    ∷ second_client
    ∷ record { time = pos 3; epoch = pos 19; src_port = pos 5001; seq = pos 7 }
    ∷ []

abbrev server_log : Text
server_log = codes "packet,4000,5001,7,1 packet,9000,22,8,1 packet,6000,5001,8,1"

abbrev server : List (Row ℤ)
server =
    record { epoch = pos 4; seq = pos 7; srcport = pos 5001; ack = pos 1; time = pos 0 }
    ∷ record { epoch = pos 6; seq = pos 8; srcport = pos 5001; ack = pos 1; time = pos 2 }
    ∷ []

reads_log : process_server_log server_log (pos 5001) ≡ ok server
unfolding process_server_log find_packets eq_ℤ int_of drop_prefix quotient ◌-ℤ◌
reads_log = refl

no_na : ℤ → Bool
no_na x = false

never_na : (x : ℤ) → no_na x ≡ false
unfolding no_na
never_na x = refl

packet_metrics_lem_example :
    (rows : List (TransitRow ℤ)) × (jitters : List ℤ) × (packet_metrics group_min join no_na
        (λ df. df)
        (λ df. df)
        (λ seqs. seqs)
        server_log
        client
        none
        (some (pos 2))
      ≡ ok (written rows (pos 0 ∷ jitters)))
    × (length rows ≡ suc (length jitters))
    × ((r : TransitRow ℤ)
        → Memᴰ r rows
        → IsTransit
            (server_epochs (
              server_range
                (λ df. df)
                (or_default none (pos 0))
                (or_default (some (pos 2)) (pos 1200))
                server))
            (client_epochs (first_client ∷ second_client ∷ []))
            r)
unfolding client_range server_range or_default check_rollover eq_ℤ ◌-ℤ◌ server_epochs client_epochs
packet_metrics_lem_example =
    packet_metrics_lem group_min join no_na (λ df. df) (λ df. df) (λ seqs. seqs) server_log client
      none (some (pos 2)) first_client (second_client ∷ []) server (pos 7) (pos 4) (pos 12)
      group_min-IsGroupMin join-IsInnerJoin never_na refl refl reads_log (Memᴰ.head refl)
      (Memᴰ.head refl)
