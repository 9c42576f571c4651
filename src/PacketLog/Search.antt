-- ===== src/PacketLog/Search.antt =====
-- The pattern of the packet log on the lines that the emulator's `packet_logging` writes.
use emulator_test.Prelude.{
  ℕ, ◌-◌, ◌≡◌, ◌≢◌, refl, ap, ◌∙◌, ◌⊎◌, inr, List, [], ◌∷◌, ◌++◌, append_assoc, length,
  length-append, All, false, none, some, arith,
}
use mathlib.Core.Path.{subst}
use emulator_test.Text.{Text, codes, comma, newline, drop_prefix, is_digit_char, str_of}
use emulator_test.Text.Decimal.{Digit, str_of-digits}
use emulator_test.PacketLog.{Groups, take_digits, digits1, match_packet, find_from, find_packets}

take_digits-append :
    (ds : Text) (c : ℕ) (r : Text)
    → All Digit ds
    → is_digit_char c ≡ false
    → take_digits (ds ++ c ∷ r) ≡ (ds, c ∷ r)
unfolding take_digits is_digit_char
take_digits-append [] c r h stop = ground arith
take_digits-append (d ∷ ds) c r h stop = ground (arith, h.0, take_digits-append ds c r h.1 stop)

-- A decimal number in front of a character that is no digit is one group.
digits1-str_of :
    (n c : ℕ) (r : Text)
    → is_digit_char c ≡ false
    → digits1 (str_of n ++ c ∷ r) ≡ some (str_of n, c ∷ r)
unfolding digits1
digits1-str_of n c r stop =
    let (d, ds, e, digits, _) = str_of-digits n in
    rw e (ground (arith, take_digits-append (d ∷ ds) c r digits stop))

-- What `packet_logging` writes of a packet: the time in ms, the source port, and the sequence and
-- acknowledgement numbers, in the format of src/worker.c.
abbrev pub body : ℕ → ℕ → ℕ → ℕ → Text → Text
body ts port seq ack rest =
    codes "packet,"
    ++ (str_of ts ++ comma ∷ (str_of port ++ comma ∷ (str_of seq ++ comma ∷ (str_of ack ++ rest))))

comma_stops : is_digit_char comma ≡ false
unfolding is_digit_char
comma_stops = refl

newline_stops : is_digit_char newline ≡ false
unfolding is_digit_char
newline_stops = refl

abbrev pub groups : ℕ → ℕ → ℕ → ℕ → Groups
groups ts port seq ack = record {
  epoch = str_of ts;
  port = str_of port;
  seq = str_of seq;
  ack = str_of ack;
}

match_packet-body :
    (ts port seq ack : ℕ) (r : Text)
    → match_packet (body ts port seq ack (newline ∷ r))
      ≡ some (
        groups ts port seq ack,
        length (body ts port seq ack (newline ∷ r)) - length (newline ∷ r),
      )
unfolding match_packet drop_prefix
match_packet-body ts port seq ack r =
    rw
      (digits1-str_of ts comma
        (str_of port ++ comma ∷ (str_of seq ++ comma ∷ (str_of ack ++ newline ∷ r))) comma_stops)
      (rw
        (digits1-str_of port comma (str_of seq ++ comma ∷ (str_of ack ++ newline ∷ r)) comma_stops)
        (rw (digits1-str_of seq comma (str_of ack ++ newline ∷ r) comma_stops)
          (rw (digits1-str_of ack newline r newline_stops) refl)))

find_from-skip : (w s : Text) → find_from (length w) (w ++ s) ≡ find_from 0 s
unfolding find_from
find_from-skip [] s = refl
find_from-skip (c ∷ w) s = find_from-skip w s

-- The body of a packet behind its first character.
abbrev body_tail : ℕ → ℕ → ℕ → ℕ → Text
body_tail ts port seq ack =
    codes "acket,"
    ++ (str_of ts ++ comma ∷ (str_of port ++ comma ∷ (str_of seq ++ comma ∷ str_of ack)))

body-eq :
    (ts port seq ack : ℕ) (rest : Text)
    → body ts port seq ack rest ≡ b'p' ∷ (body_tail ts port seq ack ++ rest)
body-eq ts port seq ack rest = simp append_assoc

find_from-step :
    (c : ℕ) (w s : Text) (g : Groups)
    → match_packet (c ∷ (w ++ s)) ≡ some (g, length (c ∷ (w ++ s)) - length s)
    → find_from 0 (c ∷ (w ++ s)) ≡ g ∷ find_from 0 s
unfolding find_from
find_from-step c w s g h =
    let short : length (c ∷ (w ++ s)) - length s - 1 ≡ length w =
      omega (arith, length-append w s) in
    rw (h, find_from) (rw short (ap (λ r. g ∷ r) (find_from-skip w s)))

find_from-body :
    (ts port seq ack : ℕ) (r : Text)
    → find_from 0 (body ts port seq ack (newline ∷ r))
      ≡ groups ts port seq ack ∷ find_from 0 (newline ∷ r)
find_from-body ts port seq ack r = rw body-eq (
    find_from-step b'p' (body_tail ts port seq ack) (newline ∷ r) (groups ts port seq ack) (
      subst (λ b. match_packet b ≡ some (groups ts port seq ack, length b - length (newline ∷ r)))
        (body-eq ts port seq ack (newline ∷ r)) (match_packet-body ts port seq ack r)))

-- Nowhere `p` and `a` in a row: what stands between the packets of a log starts no match.
abbrev pub IsQuiet : Text → Type 0
IsQuiet [] = Unit
IsQuiet (c ∷ []) = Unit
IsQuiet (c ∷ d ∷ s) = ((c ≢ b'p') ⊎ (d ≢ b'a')) × IsQuiet (d ∷ s)

no_match : (c d : ℕ) (s : Text) → (c ≢ b'p') ⊎ (d ≢ b'a') → match_packet (c ∷ d ∷ s) ≡ none
unfolding match_packet drop_prefix
no_match c d s h = ground arith

find_from-IsQuiet :
    (w : Text) (d : ℕ) (s : Text)
    → IsQuiet w
    → d ≢ b'a'
    → find_from 0 (w ++ d ∷ s) ≡ find_from 0 (d ∷ s)
unfolding find_from
find_from-IsQuiet [] d s q h = refl
find_from-IsQuiet (c ∷ []) d s q h = rw (no_match c d s (inr h), find_from) refl
find_from-IsQuiet (c ∷ e ∷ w) d s q h =
    rw (no_match c e (w ++ d ∷ s) q.0, find_from) (find_from-IsQuiet (e ∷ w) d s q.1 h)

-- A line of the log: a prefix and a packet, or something else.
pub data Line : Type 0 where
  packet : Text → ℕ → ℕ → ℕ → ℕ → Line
  noise : Text → Line

abbrev pub log_text : List Line → Text
log_text [] = []
log_text (packet prefix ts port seq ack ∷ ls) =
    prefix ++ body ts port seq ack (newline ∷ log_text ls)
log_text (noise t ∷ ls) = t ++ newline ∷ log_text ls

abbrev pub IsQuietLine : Line → Type 0
IsQuietLine (packet prefix ts port seq ack) = IsQuiet prefix
IsQuietLine (noise t) = IsQuiet t

abbrev pub packets : List Line → List Groups
packets [] = []
packets (packet prefix ts port seq ack ∷ ls) = groups ts port seq ack ∷ packets ls
packets (noise t ∷ ls) = packets ls

newline_no_match : (s : Text) → match_packet (newline ∷ s) ≡ none
unfolding match_packet drop_prefix
newline_no_match s = refl

find_from-newline : (s : Text) → find_from 0 (newline ∷ s) ≡ find_from 0 s
unfolding find_from
find_from-newline s = rw (newline_no_match s, find_from) refl

-- Of a log in which only packets are written with `p` and `a` in a row, the pattern finds the four
-- numbers of every packet, in order, and nothing else.
pub find_packets-log_text :
    (ls : List Line) → All IsQuietLine ls → find_packets (log_text ls) ≡ packets ls
unfolding find_packets
find_packets-log_text [] h = refl
find_packets-log_text (packet prefix ts port seq ack ∷ ls) h =
    find_from-IsQuiet prefix b'p' _ h.0 (omega arith)
    ∙ find_from-body ts port seq ack (log_text ls)
    ∙ ap (λ r. groups ts port seq ack ∷ r)
        (find_from-newline (log_text ls) ∙ find_packets-log_text ls h.1)
find_packets-log_text (noise t ∷ ls) h =
    find_from-IsQuiet t newline (log_text ls) h.0 (omega arith)
    ∙ find_from-newline (log_text ls)
    ∙ find_packets-log_text ls h.1
