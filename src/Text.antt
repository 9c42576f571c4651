-- ===== src/Text.antt =====
-- What the scripts use of Python's `str`, on the code points of an ASCII text.
pub mod Decimal
pub mod Fields
use Prim.Native.Char.{code}
use Prim.Native.String.{String}
use emulator_test.Prelude.{
  ℕ, zero, suc, ◌+◌, ◌-◌, length, ◌*◌, ◌/◌, ◌%◌, Bool, true, false, not, List, [], ◌∷◌, ◌++◌, ◌&&◌,
  ◌||◌, leb, ◌==◌, if◌then◌else◌, Result, ok, raised, value_error, ◌>>=◌, Option, none, some,
}
use emulator_test.Prelude.Int.{ℤ, pos, negsuc, sub_ℕ}

abbrev pub Text : Type 0
Text = List ℕ

abbrev pub codes : String → Text
codes String.[] = []
codes (String.◌∷◌ c s) = code c ∷ codes s

abbrev pub comma : ℕ
comma = b','

abbrev pub newline : ℕ
newline = 10

unfoldable pub text_eq : Text → Text → Bool
text_eq [] [] = true
text_eq [] (d ∷ t) = false
text_eq (c ∷ s) [] = false
text_eq (c ∷ s) (d ∷ t) = c == d && text_eq s t

unfoldable pub is_digit_char : ℕ → Bool
is_digit_char c = leb b'0' c && leb c b'9'

-- The ASCII whitespace of `str.strip`.
unfoldable pub is_space : ℕ → Bool
is_space c = c == 32 || leb 9 c && leb c 13 || leb 28 c && leb c 31

lstrip : Text → Text
lstrip [] = []
lstrip (c ∷ s) = if is_space c then lstrip s else c ∷ s

rstrip_cons : ℕ → Text → Text
rstrip_cons c [] = if is_space c then [] else c ∷ []
rstrip_cons c (d ∷ s) = c ∷ d ∷ s

rstrip : Text → Text
rstrip [] = []
rstrip (c ∷ s) = rstrip_cons c (rstrip s)

unfoldable pub strip : Text → Text
unfolding lstrip rstrip rstrip_cons is_space
strip s = rstrip (lstrip s)

cons_head : ℕ → List Text → List Text
cons_head c [] = (c ∷ []) ∷ []
cons_head c (t ∷ ts) = (c ∷ t) ∷ ts

-- `s.split(sep)` at a separator of one character.
unfoldable pub split : ℕ → Text → List Text
unfolding cons_head
split sep [] = [] ∷ []
split sep (c ∷ s) = if c == sep then [] ∷ split sep s else cons_head c (split sep s)

-- The digits of `int(s)`, with single underscores between them; the flag says that a digit came last.
scan : ℕ → Bool → Text → Result ℕ
scan n true [] = ok n
scan n false [] = raised value_error
scan n digit_last (c ∷ s) =
    let next = scan (n * 10 + (c - b'0')) true s in
    let skip = scan n false s in
    if is_digit_char c then next else if c == b'_' && digit_last then skip else raised value_error

signed : Text → Result ℤ
unfolding scan is_digit_char
signed [] = raised value_error
signed (c ∷ s) =
    if c == b'-'
    then (do n ← scan 0 false s; ok (sub_ℕ 0 n))
    else if c == b'+'
    then (do n ← scan 0 false s; ok (pos n))
    else (do n ← scan 0 false (c ∷ s); ok (pos n))

-- `int(s)`
unfoldable pub int_of : Text → Result ℤ
unfolding signed strip
int_of s = signed (strip s)

-- The decimal digits of `str(n)`, in front of a text; each round divides by ten.
emit : ℕ → ℕ → Text → Text
emit zero n out = out
emit (suc f) n out =
    let d = b'0' + n % 10 in
    let rest = emit f (n / 10) (d ∷ out) in if n / 10 == 0 then d ∷ out else rest

unfoldable pub str_of : ℕ → Text
unfolding emit
str_of n = emit (suc n) n []

-- `s.isdigit()`
all_digits : Text → Bool
all_digits [] = true
all_digits (c ∷ s) = is_digit_char c && all_digits s

unfoldable pub is_digit : Text → Bool
unfolding all_digits is_digit_char
is_digit [] = false
is_digit (c ∷ s) = all_digits (c ∷ s)

-- The rest of a text behind a prefix.
unfoldable pub drop_prefix : Text → Text → Option Text
drop_prefix [] s = some s
drop_prefix (p ∷ ps) [] = none
drop_prefix (p ∷ ps) (c ∷ s) = let rest = drop_prefix ps s in if p == c then rest else none

-- `needle in s`
unfoldable pub contains : Text → Text → Bool
unfolding drop_prefix
contains needle [] = elim (drop_prefix needle []) [ none ↦ false | some _ ↦ true ]
contains needle (c ∷ s) = elim (drop_prefix needle (c ∷ s)) [
  | none ↦ contains needle s
  | some _ ↦ true
]

-- How many characters of a needle follow its first.
tail_length : Text → ℕ
tail_length [] = 0
tail_length (c ∷ s) = length s

-- `s.replace(needle, "")` for a needle that is not empty: occurrences go from the left, with no overlap.
-- `skip` characters are left of the last one found.
remove_from : Text → ℕ → Text → Text
remove_from needle skip [] = []
remove_from needle (suc skip) (c ∷ s) = remove_from needle skip s
remove_from needle zero (c ∷ s) = elim (drop_prefix needle (c ∷ s)) [
  | none ↦ c ∷ remove_from needle zero s
  | some _ ↦ remove_from needle (tail_length needle) s
]

unfoldable pub remove : Text → Text → Text
unfolding remove_from drop_prefix tail_length
remove needle s = remove_from needle 0 s
