-- ===== src/Matching.antt =====
-- `map_packets` of scripts/processing/rfc-jitter.py: the packets of the client's capture that the
-- emulator has logged, each with its first send time; and `parse_clientts`, which reads the capture.
pub mod Earliest
pub mod Rows
mod Tests
use emulator_test.Prelude.{
  List, [], ◌∷◌, Bool, true, false, Option, none, some, if◌then◌else◌, Result, ok, or_raise,
  index_error, value_error, get_elem?, ◌>>=◌,
}
use emulator_test.Number.{Number, number}
use emulator_test.Text.{Text, int_of}
use emulator_test.Prelude.Int.{ℤ, ltb_ℤ, eq_ℤ}

-- A packet of either side: the time, the sequence and the acknowledgement number.
abbrev pub Packet : Type 0
Packet = ℤ × ℤ × ℤ

-- A send time and acknowledgement number.
abbrev pub Send : Type 0
Send = ℤ × ℤ

-- A dictionary from the sequence number.
abbrev pub Senders : Type 0
Senders = List (ℤ × Send)

unfoldable pub lookup : ℤ → Senders → Option Send
lookup seq [] = none
lookup seq ((k, v) ∷ d) = if eq_ℤ k seq then some v else lookup seq d

-- `d[seq] = v`: in place where the key is there, else at the end.
store : ℤ → Send → Senders → Senders
store seq v [] = (seq, v) ∷ []
store seq v ((k, w) ∷ d) =
    let rest = store seq v d in if eq_ℤ k seq then (k, v) ∷ d else (k, w) ∷ rest

-- One round of the first loop: a later send of a known packet is passed over.
record_send : Senders → Packet → Senders
unfolding lookup store
record_send d (send_time, seq, ack) = elim (lookup seq d) [
  | none ↦ store seq (send_time, ack) d
  | some (first, _) ↦ if ltb_ℤ first send_time then d else store seq (send_time, ack) d
]

build : Senders → List Packet → Senders
unfolding record_send
build d [] = d
build d (p ∷ ps) = build (record_send d p) ps

-- The head line of the result and its rows: sequence and acknowledgement number, send and receive time.
pub data Line : Type 0 where
  header : Line
  matched : ℤ → ℤ → ℤ → ℤ → Line

member : ℤ → List ℤ → Bool
member seq [] = false
member seq (k ∷ seen) = if eq_ℤ k seq then true else member seq seen

-- The second loop; `seen` are the sequence numbers that have a row.
match_rows : Senders → List ℤ → List Packet → List Line
unfolding lookup member
match_rows d seen [] = []
match_rows d seen ((receive_time, seq, ack) ∷ ps) = elim (lookup seq d) [
  | none ↦ match_rows d seen ps
  | some (send_time, sender_ack) ↦ elim (eq_ℤ ack sender_ack) [
    | false ↦ match_rows d seen ps
    | true ↦ elim (member seq seen) [
      | true ↦ match_rows d seen ps
      | false ↦ matched seq ack send_time receive_time ∷ match_rows d (seq ∷ seen) ps
    ]
  ]
]

unfoldable pub sender_dict : List Packet → Senders
unfolding build
sender_dict sender = build [] sender

unfoldable pub map_packets : List Packet → List Packet → List Line
unfolding sender_dict match_rows
map_packets sender receiver = header ∷ match_rows (sender_dict sender) [] receiver

-- `parse_clientts` on the rows of the csv file: times in seconds become milliseconds, cut off. `float` of
-- a text gives nothing where it raises, and `truncate` is `int` of a float.
unfoldable pub parse_clientts {ℓ} :
    {F : Type ℓ} ⦃n : Number F⦄ (float : Text → Option F) (truncate : F → ℤ)
    → List (List Text)
    → Result (List Packet)
parse_clientts float truncate [] = ok []
parse_clientts ⦃n⦄ float truncate (row ∷ rows) = do
  time ← or_raise (get_elem? row 0) index_error
  seconds ← or_raise (float time) value_error
  seq ← or_raise (get_elem? row 1) index_error
  tcp_seq ← int_of seq
  ack ← or_raise (get_elem? row 2) index_error
  tcp_ack ← int_of ack
  rest ← parse_clientts float truncate rows
  ok ((truncate (n.times seconds (number 1000)), tcp_seq, tcp_ack) ∷ rest)
