-- ===== src/PacketLog/Server.antt =====
-- What the two readers of a packet log return for a log of the emulator.
use emulator_test.Prelude.{
  ℕ, ◌≡◌, refl, ap, List, [], ◌∷◌, map, All, if◌then◌else◌, ◌==◌, inl, inr, Result, ok, raised,
  key_error, Bool-cases,
}
use emulator_test.Prelude.Int.{ℤ, pos, eq_ℤ-pos}
use emulator_test.Number.{Number, number}
use emulator_test.Text.{codes, str_of, text_eq}
use emulator_test.Text.Decimal.{int_of-printed}
use emulator_test.Text.Fields.{text_eq-str_of}
use emulator_test.PacketLog.{
  Row, read_row, select, row_of, timed, epoch_seconds, process_server_log, read_ts, select_ts,
  parse_serverts,
}
use emulator_test.PacketLog.Search.{
  Line, packet, noise, log_text, IsQuietLine, packets, groups, find_packets-log_text,
}

-- The time, sequence and acknowledgement numbers of the packets of a port.
abbrev pub sent : ℕ → List Line → List (ℤ × ℤ × ℤ)
sent p [] = []
sent p (packet prefix ts port seq ack ∷ ls) =
    if port == p then (pos ts, pos seq, pos ack) ∷ sent p ls else sent p ls
sent p (noise t ∷ ls) = sent p ls

module _ {ℓ} {F : Type ℓ} ⦃n : Number F⦄ where
  seconds : ℤ × ℤ × ℤ → F × ℤ × ℤ
  unfolding epoch_seconds
  seconds (ts, seq, ack) = (epoch_seconds ts, seq, ack)

  -- A packet as a row: its time in seconds, and that since the first packet.
  abbrev pub row : ℤ → ℤ → ℤ × ℤ × ℤ → Row F
  row target first (ts, seq, ack) = record {
    epoch = n.over (n.of_ℤ ts) (number 1000);
    seq = seq;
    srcport = target;
    ack = ack;
    time = n.minus (n.over (n.of_ℤ ts) (number 1000)) (n.over (n.of_ℤ first) (number 1000));
  }

  abbrev pub rows : ℤ → List (ℤ × ℤ × ℤ) → Result (List (Row F))
  rows target [] = raised key_error
  rows target (s ∷ ss) = ok (map (row target s.0) (s ∷ ss))

  read_row-groups :
      (ts port seq ack : ℕ)
      → read_row {F = F} (groups ts port seq ack) ≡ ok (epoch_seconds (pos ts), pos seq, pos ack)
  unfolding read_row
  read_row-groups ts port seq ack =
      rw (int_of-printed ts) (rw (int_of-printed seq) (rw (int_of-printed ack) refl))

  select-packets :
      (p : ℕ) (ls : List Line) → select (pos p) (packets ls) ≡ ok (map seconds (sent p ls))
  unfolding select seconds
  select-packets p [] = refl
  select-packets p (packet prefix ts port seq ack ∷ ls) =
      rw (int_of-printed port, select)
        (rw (read_row-groups ts port seq ack) (
          rw (select-packets p ls) (
            rw (eq_ℤ-pos port p)
              (elim (Bool-cases (port == p)) [ inl e ↦ rw e refl | inr e ↦ rw e refl ]))))
  select-packets p (noise t ∷ ls) = select-packets p ls

  rows_of :
      (p : ℕ) (first : ℤ) (ss : List (ℤ × ℤ × ℤ))
      → map (row_of (pos p) (epoch_seconds first)) (map seconds ss) ≡ map (row (pos p) first) ss
  unfolding row_of seconds epoch_seconds
  rows_of p first [] = refl
  rows_of p first (s ∷ ss) = ap (λ r. row (pos p) first s ∷ r) (rows_of p first ss)

  timed-seconds : (p : ℕ) (ss : List (ℤ × ℤ × ℤ)) → timed (pos p) (map seconds ss) ≡ rows (pos p) ss
  unfolding timed seconds
  timed-seconds p [] = refl
  timed-seconds p (s ∷ ss) = ap ok (rows_of p s.0 (s ∷ ss))

  -- Of a log that the emulator has written, `process_server_log` returns the packets of the port, in
  -- order, with the written numbers and the time since the first of them; `KeyError` when there is none.
  pub process_server_log-log_text :
      (p : ℕ) (ls : List Line)
      → All IsQuietLine ls
      → process_server_log (log_text ls) (pos p) ≡ rows (pos p) (sent p ls)
  unfolding process_server_log
  process_server_log-log_text p ls h =
      rw (find_packets-log_text ls h) (rw (select-packets p ls) (timed-seconds p (sent p ls)))

port_test : (port : ℕ) → text_eq (str_of port) (codes "50730") ≡ (port == 50730)
unfolding str_of
port_test port = text_eq-str_of port 50730

select_ts-packets : (ls : List Line) → select_ts (packets ls) ≡ ok (sent 50730 ls)
unfolding select_ts read_ts
select_ts-packets [] = refl
select_ts-packets (packet prefix ts port seq ack ∷ ls) = rw (int_of-printed ts) (
    rw (int_of-printed seq) (
      rw (int_of-printed ack) (
        rw (select_ts-packets ls, select_ts)
          (rw (port_test port)
            (elim (Bool-cases (port == 50730)) [ inl e ↦ rw e refl | inr e ↦ rw e refl ])))))
select_ts-packets (noise t ∷ ls) = select_ts-packets ls

-- Of a log that the emulator has written, `parse_serverts` returns the three numbers of the packets
-- with source port 50730, in order.
pub parse_serverts-log_text :
    (ls : List Line) → All IsQuietLine ls → parse_serverts (log_text ls) ≡ ok (sent 50730 ls)
unfolding parse_serverts
parse_serverts-log_text ls h = rw (find_packets-log_text ls h) (select_ts-packets ls)
