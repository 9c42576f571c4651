-- ===== src/Events/Line/Printed.antt =====
-- Reading back the text of a trace.
use emulator_test.Prelude.{
  ℕ, ◌^◌, ◌≤◌, ◌<◌, ◌≡◌, refl, ap, ◌∙◌, List, [], ◌∷◌, ◌++◌, Bool, true, false, length, Option,
  none, some, map, All, arith,
}
use emulator_test.Prelude.Int.{ℤ, pos, negsuc}
use emulator_test.Text.{Text, codes, comma, newline, text_eq, str_of}
use emulator_test.Text.Fields.{join}
use emulator_test.Scheduler.{Event}
use emulator_test.Events.{
  Act, parse_cmd, parse_ho, parse_init, parse_handle_dup, parse_init_sched, parse_handle_solution,
}
use emulator_test.Events.Line.{
  is_token, tokens, strtol, EventType, init, cmd, ho, sol_handledup, sol_init_sched, sol_ho,
  unknown, get_event_type, Parsed, succeeds, dispatch, parse_tokens, parse_event,
}
use emulator_test.Events.Line.Numbers.{
  IsPiece, ended, tokens-line, numbers_read, sched_fields_read, number_read, str_of-IsPiece,
}

-- An event of the trace: one with numbers, whose type is none of the last two, or a command.
pub data Entry : Type 0 where
  numbers : EventType → (time : ℕ) → List ℕ → Entry
  command : (time : ℕ) → Text → Entry

unfoldable pub name_of : EventType → Text
name_of init = codes "INIT"
name_of ho = codes "HO"
name_of sol_handledup = codes "SOL_HANDLEDUP"
name_of sol_init_sched = codes "SOL_INIT_SCHED"
name_of sol_ho = codes "SOL_HO"
name_of cmd = codes "CMD"
name_of unknown = codes "SOL_HANDLERW"

-- The line of an event in the format of README.md.
unfoldable pub entry_text : Entry → Text
unfolding name_of
entry_text (numbers kind time fields) =
    join comma (str_of time ∷ name_of kind ∷ map str_of fields) ++ newline ∷ []
entry_text (command time text) = join comma (str_of time ∷ codes "CMD" ∷ text ∷ []) ++ newline ∷ []

-- What an event adds to the schedule, by its numbers.
pub scheduled : EventType → List (Event Act) → ℤ → List ℤ → Option (List (Event Act))
scheduled init scheduler time_ms fields = parse_init scheduler time_ms fields
scheduled ho scheduler time_ms fields = parse_ho scheduler time_ms fields
scheduled sol_handledup scheduler time_ms fields = parse_handle_dup scheduler time_ms fields
scheduled sol_init_sched scheduler time_ms fields = parse_init_sched scheduler time_ms fields
scheduled sol_ho scheduler time_ms fields = parse_handle_solution scheduler time_ms fields
scheduled cmd scheduler time_ms fields = none
scheduled unknown scheduler time_ms fields = some scheduler

-- A command keeps the newline of its line.
pub add_entry : Entry → List (Event Act) → Option (List (Event Act))
unfolding scheduled
add_entry (numbers kind time fields) scheduler =
    scheduled kind scheduler (pos time) (map (λ n. pos n) fields)
add_entry (command time text) scheduler =
    some (parse_cmd scheduler (pos time) (text ++ newline ∷ []))

unfoldable pub add_entries : List Entry → List (Event Act) → Option (List (Event Act))
unfolding add_entry
add_entries [] scheduler = some scheduler
add_entries (e ∷ es) scheduler = elim (add_entry e scheduler) [
  | none ↦ none
  | some scheduler' ↦ add_entries es scheduler'
]

unfoldable pub trace_text : List Entry → Text
unfolding entry_text
trace_text [] = []
trace_text (e ∷ es) = entry_text e ++ trace_text es

abbrev pub IsSmall : List ℕ → Type 0
IsSmall = All (λ n. n < 2 ^ 31)

-- A type whose fields are numbers.
abbrev pub is_numeric : EventType → Bool
is_numeric cmd = false
is_numeric _ = true

-- Numbers that fit an `int`, at least one field, no comma and no newline in a command, and a line that
-- `fgets` reads at once.
abbrev pub IsPrintable : Entry → Type 0
IsPrintable (numbers kind time fields) =
    (is_numeric kind ≡ true)
    × (0 < length fields)
    × IsSmall (time ∷ fields)
    × (length (entry_text (numbers kind time fields)) ≤ 511)
IsPrintable (command time text) =
    (time < 2 ^ 31) × IsPiece text × (length (entry_text (command time text)) ≤ 511)

name-IsPiece : (kind : EventType) → IsPiece (name_of kind)
unfolding name_of is_token
name-IsPiece init = record { no_comma = omega arith; no_newline = omega arith; full = refl }
name-IsPiece ho = record { no_comma = omega arith; no_newline = omega arith; full = refl }
name-IsPiece cmd = record { no_comma = omega arith; no_newline = omega arith; full = refl }
name-IsPiece sol_handledup = record {
  no_comma = omega arith;
  no_newline = omega arith;
  full = refl;
}
name-IsPiece sol_init_sched = record {
  no_comma = omega arith;
  no_newline = omega arith;
  full = refl;
}
name-IsPiece sol_ho = record { no_comma = omega arith; no_newline = omega arith; full = refl }
name-IsPiece unknown = record { no_comma = omega arith; no_newline = omega arith; full = refl }

fields-IsPiece : (ns : List ℕ) → All IsPiece (map str_of ns)
fields-IsPiece [] = tt
fields-IsPiece (n ∷ ns) = (str_of-IsPiece n, fields-IsPiece ns)

type-name : (kind : EventType) → get_event_type (name_of kind) ≡ kind
unfolding get_event_type name_of text_eq
type-name init = refl
type-name ho = refl
type-name cmd = refl
type-name sol_handledup = refl
type-name sol_init_sched = refl
type-name sol_ho = refl
type-name unknown = refl

-- The pieces of an event's line behind its time.
pub behind_time : Entry → List Text
behind_time (numbers kind time fields) = name_of kind ∷ map str_of fields
behind_time (command time text) = codes "CMD" ∷ text ∷ []

pub time_of : Entry → ℕ
time_of (numbers kind time fields) = time
time_of (command time text) = time

pub entry_text_lem :
    (e : Entry) → entry_text e ≡ join comma (str_of (time_of e) ∷ behind_time e) ++ newline ∷ []
unfolding entry_text time_of behind_time
entry_text_lem (numbers kind time fields) = refl
entry_text_lem (command time text) = refl

pub entry-IsPiece : (e : Entry) → IsPrintable e → All IsPiece (str_of (time_of e) ∷ behind_time e)
unfolding time_of behind_time name_of
entry-IsPiece (numbers kind time fields) h =
    (str_of-IsPiece time, (name-IsPiece kind, fields-IsPiece fields))
entry-IsPiece (command time text) h = (str_of-IsPiece time, (name-IsPiece cmd, (h.1, tt)))

-- What is returned with a schedule.
pub code_of : Entry → ℤ
code_of (numbers unknown time fields) = negsuc 0
code_of _ = pos 0

abbrev pub with_code : ℤ → Option (List (Event Act)) → Parsed
with_code code none = none
with_code code (some scheduler) = some (scheduler, code)

succeeds_lem : (o : Option (List (Event Act))) → succeeds o ≡ with_code (pos 0) o
unfolding succeeds
succeeds_lem none = refl
succeeds_lem (some scheduler) = refl

dispatch_lem :
    (kind : EventType) (scheduler : List (Event Act)) (time f : ℕ) (fs : List ℕ)
    → is_numeric kind ≡ true
    → IsSmall (f ∷ fs)
    → dispatch kind scheduler (pos time) (ended (str_of f) (map str_of fs))
      ≡ with_code
          (code_of (numbers kind time (f ∷ fs)))
          (scheduled kind scheduler (pos time) (map (λ n. pos n) (f ∷ fs)))
unfolding dispatch code_of scheduled
dispatch_lem init scheduler time f fs _ h = rw (numbers_read f fs h) (succeeds_lem _)
dispatch_lem ho scheduler time f fs _ h = rw (numbers_read f fs h) (succeeds_lem _)
dispatch_lem sol_handledup scheduler time f fs _ h = rw (numbers_read f fs h) (succeeds_lem _)
dispatch_lem sol_init_sched scheduler time f fs _ h = rw (sched_fields_read f fs h) (succeeds_lem _)
dispatch_lem sol_ho scheduler time f fs _ h = rw (numbers_read f fs h) (succeeds_lem _)
dispatch_lem cmd scheduler time f fs n h = cc
dispatch_lem unknown scheduler time f fs _ h = refl

type-name_cmd : get_event_type (codes "CMD") ≡ cmd
unfolding name_of
type-name_cmd = type-name cmd

command_parsed :
    (scheduler : List (Event Act)) (time : ℕ) (text : Text)
    → time < 2 ^ 31
    → dispatch cmd scheduler (strtol (str_of time)) ((text ++ newline ∷ []) ∷ [])
      ≡ some (parse_cmd scheduler (pos time) (text ++ newline ∷ []), pos 0)
unfolding dispatch
command_parsed scheduler time text small = rw (number_read time small) refl

tokens_parsed :
    (e : Entry) (scheduler : List (Event Act))
    → IsPrintable e
    → parse_tokens scheduler (ended (str_of (time_of e)) (behind_time e))
      ≡ with_code (code_of e) (add_entry e scheduler)
unfolding parse_tokens add_entry time_of behind_time ended code_of
tokens_parsed (numbers kind time []) scheduler h = absurd (omega arith)
tokens_parsed (numbers kind time (f ∷ fs)) scheduler (numeric, _, (small, fields), _) =
    rw (type-name kind, number_read time small)
      (dispatch_lem kind scheduler time f fs numeric fields)
tokens_parsed (command time text) scheduler (small, _, _) =
    ap (λ kind. dispatch kind scheduler (strtol (str_of time)) ((text ++ newline ∷ []) ∷ []))
      (type-name_cmd)
    ∙ command_parsed scheduler time text small

-- A line is read back.
pub parse_event-entry :
    (e : Entry) (scheduler : List (Event Act))
    → IsPrintable e
    → parse_event scheduler (entry_text e) ≡ with_code (code_of e) (add_entry e scheduler)
unfolding parse_event
parse_event-entry e scheduler h =
    let found =
      ap tokens (entry_text_lem e)
      ∙ tokens-line (str_of (time_of e)) (behind_time e) (entry-IsPiece e h) in
    ap (parse_tokens scheduler) found ∙ tokens_parsed e scheduler h
