-- ===== src/Events/Line/Input.antt =====
-- The loop over the lines of a printed trace.
use emulator_test.Prelude.{
  ℕ, zero, suc, ◌≤◌, ◌≡◌, ◌≢◌, refl, sym, ap, ◌∙◌, List, [], ◌∷◌, ◌++◌, false, ◌==◌, length, Option,
  none, some, All, All-append, arith, length-append,
}
use emulator_test.Prelude.Int.{ℤ}
use emulator_test.Text.{Text, comma, newline, str_of}
use emulator_test.Text.Fields.{join, Lacks}
use emulator_test.Scheduler.{Event}
use emulator_test.Events.{Act}
use emulator_test.Events.Line.{Parsed, go_on, parse_event, fgets, read_lines, read_input}
use emulator_test.Events.Line.Numbers.{IsPiece}
use emulator_test.Events.Line.Printed.{
  Entry, entry_text, add_entry, add_entries, trace_text, IsPrintable, with_code, code_of, time_of,
  behind_time, entry_text_lem, entry-IsPiece, parse_event-entry,
}

fgets-line :
    (room : ℕ) (l rest : Text)
    → Lacks newline l
    → length (l ++ newline ∷ []) ≤ room
    → fgets room ((l ++ newline ∷ []) ++ rest) ≡ (l ++ newline ∷ [], rest)
unfolding fgets
fgets-line zero [] rest h fits = absurd (omega arith)
fgets-line zero (c ∷ l) rest h fits = absurd (omega arith)
fgets-line (suc room) [] rest h fits = refl
fgets-line (suc room) (c ∷ l) rest (other, h) fits =
    let differs : (c == newline) ≡ false = ground arith in
    let more = fgets-line room l rest h (omega arith) in rw (differs, more) refl

join-Lacks :
    (t : Text) (ts : List Text) → All IsPiece (t ∷ ts) → Lacks newline (join comma (t ∷ ts))
join-Lacks t [] (h, _) = h.no_newline
join-Lacks t (u ∷ ts) (h, hs) =
    All-append (λ (c : ℕ). c ≢ newline) t (comma ∷ join comma (u ∷ ts)) h.no_newline
      ((λ e. absurd (omega arith)), join-Lacks u ts hs)

-- What the loop does next.
abbrev continue : ℕ → Text → Parsed → Option (List (Event Act))
continue fuel rest = go_on (λ scheduler. read_lines fuel scheduler rest)

abbrev step : ℕ → List (Event Act) → Text × Text → Option (List (Event Act))
step fuel scheduler (line, rest) = continue fuel rest (parse_event scheduler line)

read_lines-cons :
    (fuel : ℕ) (scheduler : List (Event Act)) (c : ℕ) (s : Text)
    → read_lines (suc fuel) scheduler (c ∷ s) ≡ step fuel scheduler (fgets 511 (c ∷ s))
unfolding read_lines
read_lines-cons fuel scheduler c s = refl

read_line :
    (fuel : ℕ) (scheduler : List (Event Act)) (l rest : Text)
    → Lacks newline l
    → length (l ++ newline ∷ []) ≤ 511
    → read_lines (suc fuel) scheduler ((l ++ newline ∷ []) ++ rest)
      ≡ continue fuel rest (parse_event scheduler (l ++ newline ∷ []))
read_line fuel scheduler [] rest h fits =
    read_lines-cons fuel scheduler newline rest
    ∙ ap (step fuel scheduler) (fgets-line 511 [] rest h fits)
read_line fuel scheduler (c ∷ l) rest h fits =
    read_lines-cons fuel scheduler c ((l ++ newline ∷ []) ++ rest)
    ∙ ap (step fuel scheduler) (fgets-line 511 (c ∷ l) rest h fits)

read_lines-nil :
    (fuel : ℕ) (scheduler : List (Event Act)) → read_lines fuel scheduler [] ≡ some scheduler
unfolding read_lines
read_lines-nil zero scheduler = refl
read_lines-nil (suc fuel) scheduler = refl

printed_fits : (e : Entry) → IsPrintable e → length (entry_text e) ≤ 511
printed_fits (Entry.numbers kind time fields) (_, _, _, fits) = fits
printed_fits (Entry.command time text) (_, _, fits) = fits

after_entry :
    (code : ℤ) (o : Option (List (Event Act))) (fuel : ℕ) (rest : Text)
    (next : List (Event Act) → Option (List (Event Act)))
    → ((scheduler : List (Event Act)) → read_lines fuel scheduler rest ≡ next scheduler)
    → continue fuel rest (with_code code o)
      ≡ elim o as (λ _. Option (List (Event Act))) [ none ↦ none | some scheduler ↦ next scheduler ]
after_entry code none fuel rest next h = refl
after_entry code (some scheduler) fuel rest next h = h scheduler

read_lines-trace_text :
    (fuel : ℕ) (es : List Entry) (scheduler : List (Event Act))
    → length es ≤ fuel
    → All IsPrintable es
    → read_lines fuel scheduler (trace_text es) ≡ add_entries es scheduler
unfolding trace_text add_entries
read_lines-trace_text fuel [] scheduler enough h = read_lines-nil fuel scheduler
read_lines-trace_text zero (e ∷ es) scheduler enough h = absurd (omega arith)
read_lines-trace_text (suc fuel) (e ∷ es) scheduler enough (he, hs) =
    let l = join comma (str_of (time_of e) ∷ behind_time e) in
    let text = entry_text_lem e in
    let lacks = join-Lacks (str_of (time_of e)) (behind_time e) (entry-IsPiece e he) in
    let fits = printed_fits e he in
    ap (λ t. read_lines (suc fuel) scheduler (t ++ trace_text es)) text
    ∙ read_line fuel scheduler l (trace_text es) lacks (rw (← text) fits)
    ∙ ap (λ t. continue fuel (trace_text es) (parse_event scheduler t)) (sym text)
    ∙ ap (continue fuel (trace_text es)) (parse_event-entry e scheduler he)
    ∙ after_entry (code_of e) (add_entry e scheduler) fuel (trace_text es) (add_entries es)
        (λ s. read_lines-trace_text fuel es s (omega arith) hs)

text_long : (es : List Entry) → length es ≤ length (trace_text es)
unfolding trace_text
text_long [] = omega arith
text_long (e ∷ es) =
    let longer = length-append (entry_text e) (trace_text es) in
    let ends = length-append (join comma (str_of (time_of e) ∷ behind_time e)) (newline ∷ []) in
    let text = ap (length {A = ℕ}) (entry_text_lem e) in omega (arith, text_long es)

-- Of a trace in the format of README.md, whose numbers fit an `int`, whose events have a field at least,
-- whose commands hold no comma and no newline and are not empty, and whose lines have at most 511
-- characters, what is read is the schedule that the events add one after the other by their numbers:
-- a command keeps the newline, an event of another type adds nothing, and one with too few fields
-- ends the emulator.
pub read_input-trace_text :
    (es : List Entry) → All IsPrintable es → read_input (trace_text es) ≡ add_entries es []
unfolding read_input
read_input-trace_text es h = read_lines-trace_text (length (trace_text es)) es [] (text_long es) h
