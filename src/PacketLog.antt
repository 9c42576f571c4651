-- ===== src/PacketLog.antt =====
-- The emulator's packet log, as `process_server_log` of scripts/processing/parse-logs.py and
-- `parse_serverts` of scripts/processing/rfc-jitter.py read it: `re.findall` of
-- `packet,(\d+),(\d+),(\d+),(\d+)` on the whole text, and a selection by port.
pub mod Search
pub mod Server
mod Tests
use emulator_test.Prelude.{
  ℕ, zero, suc, ◌-◌, List, [], ◌∷◌, map, length, Bool, true, false, Option, none, some,
  if◌then◌else◌, Result, ok, raised, key_error, ◌>>=◌,
}
use emulator_test.Prelude.Int.{ℤ, pos, eq_ℤ}
use emulator_test.Number.{Number, number}
use emulator_test.Text.{Text, codes, comma, drop_prefix, int_of, is_digit_char, text_eq}

-- The four groups of a match.
pub record Groups : Type 0 where
  pub epoch : Text
  pub port : Text
  pub seq : Text
  pub ack : Text

-- The digits at the front of a text, and what follows.
take_digits : Text → Text × Text
take_digits [] = ([], [])
take_digits (c ∷ s) =
    let (ds, rest) = take_digits s in if is_digit_char c then (c ∷ ds, rest) else ([], c ∷ s)

-- `\d+`, greedy: what may follow is no digit, so nothing is given back.
unfoldable pub digits1 : Text → Option (Text × Text)
unfolding take_digits
digits1 s = elim (take_digits s).0 [ [] ↦ none | c ∷ ds ↦ some (c ∷ ds, (take_digits s).1) ]

infixl 5 ◌▷◌
abbrev pub ◌▷◌ {ℓ κ} : {A : Type ℓ} {B : Type κ} → Option A → (A → Option B) → Option B
none ▷ f = none
some a ▷ f = f a

-- A match of the pattern at the front of a text: its groups, and how many characters it takes.
match_packet : Text → Option (Groups × ℕ)
unfolding digits1
match_packet s = drop_prefix (codes "packet,") s ▷ λ s1. digits1 s1 ▷ λ (epoch, r1).
    drop_prefix (comma ∷ []) r1 ▷ λ s2. digits1 s2 ▷ λ (port, r2).
    drop_prefix (comma ∷ []) r2 ▷ λ s3. digits1 s3 ▷ λ (seq, r3).
    drop_prefix (comma ∷ []) r3 ▷ λ s4. digits1 s4 ▷ λ (ack, r4).
    some (record { epoch = epoch; port = port; seq = seq; ack = ack }, length s - length r4)

-- The matches from left to right, without overlap: `skip` characters are left of the last one.
find_from : ℕ → Text → List Groups
find_from skip [] = []
find_from (suc skip) (c ∷ s) = find_from skip s
find_from zero (c ∷ s) = elim (match_packet (c ∷ s)) [
  | none ↦ find_from zero s
  | some (groups, taken) ↦ groups ∷ find_from (taken - 1) s
]

unfoldable pub find_packets : Text → List Groups
unfolding match_packet find_from
find_packets text = find_from zero text

pub record Row {ℓ} (F : Type ℓ) : Type ℓ where
  pub epoch : F
  pub seq : ℤ
  pub srcport : ℤ
  pub ack : ℤ
  pub time : F

module _ {ℓ} {F : Type ℓ} ⦃n : Number F⦄ where
  -- `float(epoch) / 1000`; the text is digits, of which `float` and `int` read the same number.
  pub epoch_seconds : ℤ → F
  epoch_seconds ms = n.over (n.of_ℤ ms) (number 1000)

  -- What one match of the port adds.
  read_row : Groups → Result (F × ℤ × ℤ)
  unfolding epoch_seconds
  read_row g = do
    epoch ← int_of g.epoch
    seq ← int_of g.seq
    ack ← int_of g.ack
    ok (epoch_seconds epoch, seq, ack)

  -- The rows of one port, before their times are set.
  select : ℤ → List Groups → Result (List (F × ℤ × ℤ))
  unfolding read_row
  select target [] = ok []
  select target (g ∷ gs) =
      let rest = select target gs in
      let kept = (do row ← read_row g; rows ← rest; ok (row ∷ rows)) in
      do port ← int_of g.port; if eq_ℤ port target then kept else rest

  -- `df["time"] = df["epoch"] - df.iloc[0]["epoch"]`
  row_of : ℤ → F → F × ℤ × ℤ → Row F
  row_of target first (epoch, seq, ack) = record {
    epoch = epoch;
    seq = seq;
    srcport = target;
    ack = ack;
    time = n.minus epoch first;
  }

  -- With no row of the port the data frame has no column `epoch`.
  timed : ℤ → List (F × ℤ × ℤ) → Result (List (Row F))
  unfolding row_of
  timed target [] = raised key_error
  timed target (r ∷ rs) = ok (map (row_of target r.0) (r ∷ rs))

  unfoldable pub process_server_log : Text → ℤ → Result (List (Row F))
  unfolding find_packets select timed
  process_server_log text target_port = do
    rows ← select target_port (find_packets text)
    timed target_port rows

-- `parse_serverts` compares the port as text, with a fixed one.
read_ts : Groups → Result (ℤ × ℤ × ℤ)
read_ts g = do epoch ← int_of g.epoch; seq ← int_of g.seq; ack ← int_of g.ack; ok (epoch, seq, ack)

select_ts : List Groups → Result (List (ℤ × ℤ × ℤ))
unfolding read_ts
select_ts [] = ok []
select_ts (g ∷ gs) =
    let rest = select_ts gs in
    let kept = (do row ← read_ts g; rows ← rest; ok (row ∷ rows)) in
    if text_eq g.port (codes "50730") then kept else rest

unfoldable pub parse_serverts : Text → Result (List (ℤ × ℤ × ℤ))
unfolding find_packets select_ts
parse_serverts text = select_ts (find_packets text)
