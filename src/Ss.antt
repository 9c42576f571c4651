-- ===== src/Ss.antt =====
-- The `ss` log's lines, as `parse_bbr_info` and `parse_ss_line` of scripts/processing/parse-logs.py and
-- `TCPLogParser.parse_line` of scripts/processing/parse_ss.py read them. `float` of a text and
-- `datetime.fromtimestamp` are arguments: nothing where they raise.
pub mod Pairs
pub mod Log
pub mod Csv
pub mod Header
pub mod Main
pub mod Dated
mod Tests
use emulator_test.Prelude.{
  ℕ, zero, suc, ◌+◌, List, [], ◌∷◌, ◌++◌, length, Bool, true, false, not, ◌||◌, ◌&&◌, leb, ◌==◌,
  Option, none, some, if◌then◌else◌, Result, ok, raised, value_error, or_raise, ◌>>=◌,
}
use emulator_test.Prelude.Int.{ℤ}
use emulator_test.Number.{Number, number}
use emulator_test.Text.{
  Text, codes, comma, newline, split, strip, int_of, is_digit, is_digit_char, contains, remove,
  drop_prefix, text_eq,
}
use emulator_test.PacketLog.{digits1, ◌▷◌}

-- The text up to the first `)`, on one line.
until_close : Text → Option Text
until_close [] = none
until_close (c ∷ s) =
    let rest = until_close s in
    if c == b')' then some [] else if c == newline then none else rest ▷ λ t. some (c ∷ t)

-- `re.search(r"\((.*?)\)", s)`: the group.
search_parens : Text → Option Text
unfolding until_close
search_parens [] = none
search_parens (c ∷ s) =
    let next = search_parens s in
    if c == b'(' then (elim (until_close s) [ none ↦ next | some t ↦ some t ]) else next

-- `re.search(r"time:(\d+)", s)`: the group.
pub search_time : Text → Option Text
search_time [] = none
search_time (c ∷ s) = elim (drop_prefix (codes "time:") (c ∷ s) ▷ digits1) [
  | none ↦ search_time s
  | some (ds, _) ↦ some ds
]

-- `re.search(r"bbr:\((.*?)\)", s)`: the text of the match.
pub search_bbr : Text → Option Text
unfolding until_close
search_bbr [] = none
search_bbr (c ∷ s) = elim (drop_prefix (codes "bbr:(") (c ∷ s) ▷ until_close) [
  | none ↦ search_bbr s
  | some t ↦ some (codes "bbr:(" ++ t ++ b')' ∷ [])
]

-- `\w`, on ASCII
unfoldable pub is_word : ℕ → Bool
is_word c = is_digit_char c || leb b'a' c && leb c b'z' || leb b'A' c && leb c b'Z' || c == b'_'

-- The longest piece at the front whose characters pass a test, and what follows.
span : (ℕ → Bool) → Text → Text × Text
span p [] = ([], [])
span p (c ∷ s) = let (t, rest) = span p s in if p c then (c ∷ t, rest) else ([], c ∷ s)

not_empty : Text → Option Text
not_empty [] = none
not_empty (c ∷ s) = some (c ∷ s)

-- `(\w+):([^ ]+)` at the front of a text.
match_pair : Text → Option (Text × Text)
unfolding span not_empty is_word
match_pair s = not_empty (span is_word s).0 ▷ λ key.
    drop_prefix (b':' ∷ []) (span is_word s).1 ▷ λ rest.
    not_empty (span (λ c. not (c == 32)) rest).0 ▷ λ value. some (key, value)

-- The matches from left to right; `skip` characters are left of the last one.
pairs_from : ℕ → Text → List (Text × Text)
unfolding match_pair
pairs_from skip [] = []
pairs_from (suc skip) (c ∷ s) = pairs_from skip s
pairs_from zero (c ∷ s) = elim (match_pair (c ∷ s)) [
  | none ↦ pairs_from zero s
  | some (key, value) ↦ (key, value) ∷ pairs_from (length key + length value) s
]

unfoldable pub find_pairs : Text → List (Text × Text)
unfolding pairs_from
find_pairs line = pairs_from zero line

-- `d[key] = value`: in place where the key is there, else at the end.
unfoldable pub set_key {ℓ} : {V : Type ℓ} → Text → V → List (Text × V) → List (Text × V)
set_key key v [] = (key, v) ∷ []
set_key key v ((k, w) ∷ d) =
    let rest = set_key key v d in if text_eq k key then (k, v) ∷ d else (k, w) ∷ rest

-- A value of `bbr_params`.
pub data Param {ℓ} (F : Type ℓ) : Type ℓ where
  num : F → Param F
  word : Text → Param F

-- A value of `metrics`.
pub data Metric {ℓ} (F D : Type ℓ) : Type ℓ where
  plain : Param F → Metric F D
  timestamp : ℤ → Metric F D
  datetime : D → Metric F D
  info : List (Text × Param F) → Metric F D

abbrev pub Metrics {ℓ} : (F D : Type ℓ) → Type ℓ
Metrics F D = List (Text × Metric F D)

-- `key, value = param.split(":")` raises where there are not two.
two_fields : List Text → Result (Text × Text)
two_fields (key ∷ value ∷ []) = ok (key, value)
two_fields _ = raised value_error

module _ {ℓ} {F : Type ℓ} (float : Text → Option F) where
  -- The value of a BBR parameter; `float` may raise.
  param_value : Text → Result (Param F)
  param_value value =
      if contains (codes "Mbps") value
      then (do x ← or_raise (float (remove (codes "Mbps") value)) value_error; ok (num x))
      else if is_digit (remove (b'.' ∷ []) value)
      then (do x ← or_raise (float value) value_error; ok (num x))
      else ok (word value)

  param_loop : List (Text × Param F) → List Text → Result (List (Text × Param F))
  unfolding param_value two_fields set_key
  param_loop params [] = ok params
  param_loop params (param ∷ rest) = elim (contains (b':' ∷ []) param) [
    | false ↦ param_loop params rest
    | true ↦ do
      (key, text) ← two_fields (split b':' param)
      value ← param_value text
      param_loop (set_key (strip (remove (codes "bbr") key)) value params) rest
  ]

  unfoldable pub parse_bbr_info : Text → Result (List (Text × Param F))
  unfolding search_parens param_loop
  parse_bbr_info bbr_str = elim (search_parens bbr_str) [
    | none ↦ ok []
    | some group ↦ param_loop [] (split comma group)
  ]

  -- The value of a pair: where `float` raises, the text stays.
  pub pair_value : Text → Param F
  pair_value value =
      let or_text : Option F → Param F = λ o. elim o [ none ↦ word value | some x ↦ num x ] in
      if is_digit (remove (b'.' ∷ []) value)
      then or_text (float value)
      else if contains (codes "%") value
      then or_text (float (remove (codes "%") value))
      else if contains (codes "Mbps") value
      then or_text (float (remove (codes "Mbps") value))
      else word value

module _ {ℓ} {F D : Type ℓ} ⦃n : Number F⦄ (float : Text → Option F) where
  pub pair_loop : Metrics F D → List (Text × Text) → Metrics F D
  unfolding pair_value set_key
  pair_loop metrics [] = metrics
  pair_loop metrics ((key, value) ∷ pairs) =
      pair_loop (set_key key (plain (pair_value float value)) metrics) pairs

  -- From the BBR part on, for the metrics that stand already.
  pub add_metrics : Metrics F D → Text → Result (Metrics F D)
  unfolding search_bbr parse_bbr_info find_pairs pair_loop set_key
  add_metrics metrics line = elim (search_bbr line) [
    | none ↦ ok (pair_loop metrics (find_pairs line))
    | some part ↦ do
      bbr_info ← parse_bbr_info float part
      ok (pair_loop (set_key (codes "bbr") (info bbr_info) metrics) (find_pairs (remove part line)))
  ]

  -- `parse_ss_line`
  unfoldable pub parse_ss_line : Text → Result (Option (Metrics F D))
  unfolding search_time add_metrics
  parse_ss_line line = elim (search_time line) [
    | none ↦ ok none
    | some digits ↦ do
      stamp ← int_of digits
      metrics ←
          add_metrics
            ((codes "epoch", plain (num (n.over (n.of_ℤ stamp) (number 1000000000)))) ∷ []) line
      ok (some metrics)
  ]

  -- `TCPLogParser.parse_line`
  unfoldable pub parse_line : (fromtimestamp : F → Option D) → Text → Result (Option (Metrics F D))
  unfolding search_time add_metrics
  parse_line fromtimestamp line = elim (search_time line) [
    | none ↦ ok none
    | some digits ↦ do
      stamp ← int_of digits
      date ← or_raise (fromtimestamp (n.over (n.of_ℤ stamp) (number 1000000000))) value_error
      metrics ←
          add_metrics
            ((codes "timestamp", timestamp stamp) ∷ (codes "datetime", datetime date) ∷ []) line
      ok (some metrics)
  ]
