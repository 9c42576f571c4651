-- ===== src/Matching/Tests.antt =====
-- The matching at a retransmission and an acknowledgement number that differs.
use mathlib.Core.List.{Memᴰ}
use emulator_test.Prelude.{◌≡◌, refl, List, [], ◌∷◌, All, some}
use emulator_test.Prelude.Int.{ℤ, pos, eq_ℤ}
use emulator_test.Matching.{Packet, Line, header, matched, lookup, sender_dict, map_packets}
use emulator_test.Matching.Earliest.{FirstSend, sender_dict_lem}
use emulator_test.Matching.Rows.{IsRow, Distinct, row_seqs, map_packets_lem}

abbrev sends : List Packet
sends = (pos 5, pos 70, pos 1) ∷ (pos 6, pos 80, pos 1) ∷ (pos 9, pos 70, pos 2) ∷ []

abbrev received : List Packet
received = (pos 12, pos 70, pos 1) ∷ (pos 13, pos 80, pos 4) ∷ (pos 14, pos 70, pos 1) ∷ []

one_row : map_packets sends received ≡ header ∷ matched (pos 70) (pos 1) (pos 5) (pos 12) ∷ []
unfolding map_packets eq_ℤ
one_row = refl

sender_dict_lem_example : FirstSend (pos 70) sends (some (pos 5, pos 1))
unfolding sender_dict eq_ℤ
sender_dict_lem_example = sender_dict_lem sends (pos 70)

map_packets_lem_example :
    (rows : List Line) × (map_packets sends received ≡ header ∷ rows)
    × All (IsRow sends received) rows
    × Distinct (row_seqs rows)
    × ((rt seq ack st : ℤ)
        → Memᴰ (rt, seq, ack) received
        → lookup seq (sender_dict sends) ≡ some (st, ack)
        → Memᴰ seq (row_seqs rows))
map_packets_lem_example = map_packets_lem sends received
