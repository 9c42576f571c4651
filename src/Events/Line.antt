-- ===== src/Events/Line.antt =====
-- The text of a trace: `parse_event` and `get_event_type` of src/event.c and the loop of src/emulator.c
-- over the lines. `strtok`, `strtol` and `fgets` are those of C's library, with 64 bits in a `long` and 32
-- in an `int`. A token that is missing is a NULL pointer, which ends the emulator.
pub mod Numbers
pub mod Printed
pub mod Input
mod Tests
use emulator_test.Prelude.{
  ℕ, zero, suc, ◌+◌, ◌-◌, ◌*◌, ◌%◌, ◌^◌, List, [], ◌∷◌, Bool, true, false, ◌&&◌, ◌||◌, leb, ltb,
  ◌==◌, length, Option, none, some, if◌then◌else◌, keep, map,
}
use emulator_test.Prelude.Int.{ℤ, pos, negsuc, sub_ℕ}
use emulator_test.Text.{Text, codes, comma, newline, split, text_eq}
use emulator_test.Scheduler.{Event}
use emulator_test.Events.{
  Act, unsigned, parse_cmd, parse_ho, parse_init, parse_handle_dup, parse_init_sched,
  parse_handle_solution,
}

-- `strtok(s, ",")`, until there is no token: the pieces between commas that are not empty.
unfoldable pub is_token : Text → Bool
is_token [] = false
is_token (c ∷ s) = true

pub tokens : Text → List Text
unfolding is_token split
tokens s = keep is_token (split comma s)

-- A digit up to base 36, or nothing.
digit_of : ℕ → Option ℕ
digit_of c =
    if leb b'0' c && leb c b'9'
    then some (c - b'0')
    else if leb b'a' c && leb c b'z'
    then some (c - b'a' + 10)
    else if leb b'A' c && leb c b'Z'
    then some (c - b'A' + 10)
    else none

-- The digits of a base at the front, behind those of a number.
pub digits_from : ℕ → ℕ → Text → ℕ
unfolding digit_of
digits_from base n [] = n
digits_from base n (c ∷ s) = elim (digit_of c) [
  | none ↦ n
  | some d ↦ let rest = digits_from base (n * base + d) s in if ltb d base then rest else n
]

is_hex : Text → Bool
unfolding digit_of
is_hex [] = false
is_hex (c ∷ s) = elim (digit_of c) [ none ↦ false | some d ↦ ltb d 16 ]

-- Behind a zero: hexadecimal digits behind an `x`, or octal ones.
pub behind_zero : Text → ℕ
unfolding digits_from is_hex
behind_zero [] = 0
behind_zero (c ∷ s) =
    if (c == b'x' || c == b'X') && is_hex s then digits_from 16 0 s else digits_from 8 0 (c ∷ s)

magnitude : Text → ℕ
unfolding behind_zero digits_from
magnitude [] = 0
magnitude (c ∷ s) = if c == b'0' then behind_zero s else digits_from 10 0 (c ∷ s)

-- `isspace`
is_blank : ℕ → Bool
is_blank c = c == 32 || leb 9 c && leb c 13

skip_blanks : Text → Text
unfolding is_blank
skip_blanks [] = []
skip_blanks (c ∷ s) = if is_blank c then skip_blanks s else c ∷ s

-- A `long` is at most 2^63 - 1 and at least -2^63.
clamped : Bool → ℕ → ℤ
clamped true n = if ltb (2 ^ 63) n then negsuc (2 ^ 63 - 1) else sub_ℕ 0 n
clamped false n = if leb (2 ^ 63) n then pos (2 ^ 63 - 1) else pos n

signed : Text → ℤ
unfolding clamped magnitude
signed [] = pos 0
signed (c ∷ s) =
    if c == b'-'
    then clamped true (magnitude s)
    else if c == b'+'
    then clamped false (magnitude s)
    else clamped false (magnitude (c ∷ s))

-- A `long` in an `int`.
to_int : ℤ → ℤ
unfolding unsigned
to_int z =
    let bits = unsigned 32 z in if ltb bits (2 ^ 31) then pos bits else negsuc (2 ^ 32 - 1 - bits)

-- `int n = strtol(s, NULL, 0)`
pub strtol : Text → ℤ
unfolding to_int signed skip_blanks
strtol s = to_int (signed (skip_blanks s))

-- `strtol(s, NULL, 0)` where the `long` is kept
pub long_of : Text → ℤ
unfolding signed skip_blanks
long_of s = signed (skip_blanks s)

-- The numbers of a SOL_INIT_SCHED line: its threshold and its pace are not cut to an `int`.
pub sched_fields : List Text → List ℤ
unfolding strtol long_of
sched_fields (queue ∷ enable_rw ∷ sample_interval ∷ threshold ∷ pace ∷ params) =
    strtol queue
    ∷ strtol enable_rw
    ∷ strtol sample_interval
    ∷ long_of threshold
    ∷ long_of pace
    ∷ map strtol params
sched_fields params = map strtol params

pub data EventType : Type 0 where
  init cmd ho sol_handledup sol_init_sched sol_ho unknown : EventType

pub get_event_type : Text → EventType
get_event_type s =
    if text_eq s (codes "INIT")
    then init
    else if text_eq s (codes "CMD")
    then cmd
    else if text_eq s (codes "HO")
    then ho
    else if text_eq s (codes "SOL_HANDLEDUP")
    then sol_handledup
    else if text_eq s (codes "SOL_INIT_SCHED")
    then sol_init_sched
    else if text_eq s (codes "SOL_HO")
    then sol_ho
    else unknown

-- The schedule and what is returned.
abbrev pub Parsed : Type 0
Parsed = Option (List (Event Act) × ℤ)

succeeds : Option (List (Event Act)) → Parsed
succeeds none = none
succeeds (some scheduler) = some (scheduler, pos 0)

-- The `switch`, on the tokens behind the type.
dispatch : EventType → List (Event Act) → ℤ → List Text → Parsed
unfolding succeeds strtol sched_fields
dispatch unknown scheduler time_ms params = some (scheduler, negsuc 0)
dispatch init scheduler time_ms params = succeeds (parse_init scheduler time_ms (map strtol params))
dispatch cmd scheduler time_ms [] = none
dispatch cmd scheduler time_ms (command ∷ params) =
    some (parse_cmd scheduler time_ms command, pos 0)
dispatch ho scheduler time_ms params = succeeds (parse_ho scheduler time_ms (map strtol params))
dispatch sol_handledup scheduler time_ms params =
    succeeds (parse_handle_dup scheduler time_ms (map strtol params))
dispatch sol_init_sched scheduler time_ms params =
    succeeds (parse_init_sched scheduler time_ms (sched_fields params))
dispatch sol_ho scheduler time_ms params =
    succeeds (parse_handle_solution scheduler time_ms (map strtol params))

parse_tokens : List (Event Act) → List Text → Parsed
unfolding dispatch strtol get_event_type
parse_tokens scheduler (time ∷ event ∷ params) =
    dispatch (get_event_type event) scheduler (strtol time) params
parse_tokens scheduler tokens = none

pub parse_event : List (Event Act) → Text → Parsed
unfolding parse_tokens tokens
parse_event scheduler text = parse_tokens scheduler (tokens text)

-- `fgets` into a buffer with room for so many characters: the line and what is left to read.
fgets : ℕ → Text → Text × Text
fgets zero s = ([], s)
fgets (suc n) [] = ([], [])
fgets (suc n) (c ∷ s) =
    let (line, rest) = fgets n s in if c == newline then (c ∷ [], s) else (c ∷ line, rest)

-- The next line, with what has been added; the result of `parse_event` is not looked at.
abbrev go_on : (List (Event Act) → Option (List (Event Act))) → Parsed → Option (List (Event Act))
go_on next none = none
go_on next (some (scheduler, _)) = next scheduler

-- The loop over the file, with CSV_MAX_LINESZ = 512.
read_lines : ℕ → List (Event Act) → Text → Option (List (Event Act))
unfolding parse_event fgets
read_lines fuel scheduler [] = some scheduler
read_lines zero scheduler (c ∷ s) = none
read_lines (suc fuel) scheduler (c ∷ s) =
    let (line, rest) = fgets 511 (c ∷ s) in
    go_on (λ scheduler'. read_lines fuel scheduler' rest) (parse_event scheduler line)

-- Each round reads a character at least.
pub read_input : Text → Option (List (Event Act))
unfolding read_lines
read_input text = read_lines (length text) [] text
