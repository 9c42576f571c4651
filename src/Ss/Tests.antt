-- ===== src/Ss/Tests.antt =====
-- The readers of the `ss` log on small lines, with whole numbers for floats.
use emulator_test.Prelude.{
  List, [], ◌∷◌, ◌++◌, Option, none, some, ok, raised, value_error, type_error, true, if◌then◌else◌,
  ◌≡◌, refl, All, false, arith,
}
use emulator_test.Prelude.Int.{ℤ, pos, quotient, ◌-ℤ◌}
use emulator_test.Number.{whole_number}
use emulator_test.Text.{
  Text, codes, int_of, strip, text_eq, contains, remove, drop_prefix, split, is_digit,
  is_digit_char,
}
use emulator_test.PacketLog.{digits1}
use emulator_test.Ss.{
  is_word, search_bbr, Metrics, Param, num, word, plain, info, find_pairs, parse_ss_line,
  parse_line,
}
use emulator_test.Ss.Pairs.{IsField, find_pairs-line_text}
use emulator_test.Ss.Log.{read_ss, parse_file, read_ss-parse_file}
use emulator_test.Ss.Header.{csv_table}
use emulator_test.Ss.Dated.{IsFree}
use emulator_test.Ss.Main.{Library, saved, of_dates, output_name, main, Reports, main_lem}
use emulator_test.Ss.Csv.{flatten, get, bbr_key, flatten_lem}

abbrev whole_float : Text → Option ℤ
whole_float s = elim (int_of s) [ raised _ ↦ none | ok z ↦ some z ]

abbrev no_date : ℤ → Option ℤ
no_date z = some z

abbrev fields : List (Text × Text)
fields = (codes "rtt", codes "12/5") ∷ (codes "cwnd", codes "10") ∷ []

are_fields : All IsField fields
unfolding is_word is_digit_char
are_fields = ground arith

find_pairs-line_text_example : find_pairs (codes "rtt:12/5 cwnd:10") ≡ fields
find_pairs-line_text_example = find_pairs-line_text fields are_fields

abbrev line : Text
line = codes "time:3000000000 bbr:(bw:7Mbps,mode:up) cwnd:10"

abbrev params : List (Text × Param ℤ)
params = (codes "bw", num (pos 7)) ∷ (codes "mode", word (codes "up")) ∷ []

abbrev metrics : Metrics ℤ ℤ
metrics =
    (codes "epoch", plain (num (pos 3)))
    ∷ (codes "bbr", info params)
    ∷ (codes "time", plain (num (pos 3000000000)))
    ∷ (codes "cwnd", plain (num (pos 10)))
    ∷ []

one_line : parse_ss_line whole_float line ≡ ok (some metrics)
unfolding parse_ss_line quotient drop_prefix digits1 is_digit_char int_of split contains remove
    is_digit text_eq
one_line = refl

-- Two colons in a BBR parameter.
abbrev bad : Text
bad = codes "time:1 bbr:(a:b:c)"

bad_ss : parse_ss_line {F = ℤ} {D = ℤ} whole_float (strip bad) ≡ raised value_error
unfolding parse_ss_line strip quotient drop_prefix digits1 is_digit_char int_of split contains
bad_ss = refl

bad_file : parse_line whole_float no_date (strip bad) ≡ raised value_error
unfolding parse_line strip quotient drop_prefix digits1 is_digit_char int_of split contains
bad_file = refl

read_ss-parse_file_example :
    (read_ss {D = ℤ} whole_float (line ∷ bad ∷ line ∷ []) ≡ read_ss whole_float (line ∷ []))
    × (parse_file whole_float no_date (line ∷ bad ∷ line ∷ [])
        ≡ parse_file whole_float no_date (line ∷ []) ++ parse_file whole_float no_date (line ∷ []))
read_ss-parse_file_example =
    read_ss-parse_file whole_float no_date (line ∷ []) bad (line ∷ []) value_error value_error
      bad_ss bad_file

flatten_lem_example :
    (row : Metrics ℤ ℤ) × (flatten metrics ≡ ok row)
    × ((key : Text) (value : Param ℤ)
        → get key params ≡ some value
        → get (bbr_key key) row ≡ some (plain value))
    × ((key : Text)
        → text_eq (codes "bbr") key ≡ false
        → All (λ p. text_eq (bbr_key p.0) key ≡ false) params
        → get key row ≡ get key metrics)
unfolding text_eq
flatten_lem_example = flatten_lem metrics params refl ((refl, tt), (tt, tt))

abbrev flat : Metrics ℤ ℤ
flat =
    (codes "epoch", plain (num (pos 3)))
    ∷ (codes "time", plain (num (pos 3000000000)))
    ∷ (codes "cwnd", plain (num (pos 10)))
    ∷ (codes "bbr_bw", plain (num (pos 7)))
    ∷ (codes "bbr_mode", plain (word (codes "up")))
    ∷ []

abbrev names : List Text
names = codes "bbr_mode" ∷ codes "bbr_bw" ∷ codes "cwnd" ∷ codes "time" ∷ codes "epoch" ∷ []

one_row : csv_table (λ k. k) (metrics ∷ []) ≡ ok (some (names, flat ∷ []))
unfolding csv_table text_eq
one_row = refl

-- A log of two lines, with the seconds as dates.
abbrev lib : Library ℤ ℤ ℤ
lib = record {
  float = whole_float;
  fromtimestamp = λ t. some t;
  minus_dates = λ d e. d -ℤ e;
  sorted = λ k. k;
  stem = λ path. path;
  read = λ path.
      if text_eq path (codes "ss")
      then some (line ∷ codes "time:8000000000 cwnd:9" ∷ [])
      else if text_eq path (codes "dates")
      then some (codes "time:1 datetime:x" ∷ [])
      else none;
  write = λ path columns rows. true;
}

abbrev two_lines : List Text
two_lines = line ∷ codes "time:8000000000 cwnd:9" ∷ []

lib_lines : lib.read (codes "ss") ≡ some two_lines
unfolding text_eq
lib_lines = refl

two_lines-IsFree : All (λ l. IsFree (strip l)) two_lines
unfolding search_bbr find_pairs strip text_eq drop_prefix remove is_digit_char
two_lines-IsFree =
    let no : false ≡ false = refl in (((no, no), ((no, no), tt)), (((no, no), ((no, no), tt)), tt))

main_lem_example :
    Reports lib
      (output_name lib.stem (codes "ss") none)
      (parse_file lib.float lib.fromtimestamp two_lines)
      (main lib (codes "ss") none)
main_lem_example =
    main_lem lib (codes "ss") none two_lines lib_lines two_lines-IsFree (λ key keys m. m)

main_saves : main lib (codes "ss") none ≡ ok (saved 2 (some (of_dates (pos 5))))
unfolding main text_eq csv_table parse_file parse_line strip drop_prefix digits1 is_digit_char
    int_of split contains remove is_digit ◌-ℤ◌ quotient
main_saves = refl

-- A pair under the key of the date takes its place.
main_raises : main lib (codes "dates") none ≡ raised type_error
unfolding main text_eq csv_table parse_file parse_line strip drop_prefix digits1 is_digit_char
    int_of is_digit remove contains
main_raises = refl
