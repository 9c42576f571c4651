-- ===== src/Events/Line/Numbers.antt =====
-- `strtok` and `strtol` on printed numbers.
use emulator_test.Prelude.{
  ℕ, zero, suc, ◌+◌, ◌-◌, ◌*◌, ◌%◌, ◌^◌, ◌<◌, ◌≡◌, ◌≢◌, refl, sym, ap, ◌∙◌, List, [], ◌∷◌, ◌++◌,
  true, false, leb, ltb, ◌==◌, keep, map, All, All-append, append-nil, append_assoc, arith,
}
use emulator_test.Prelude.Int.{ℤ, pos}
use emulator_test.Text.{Text, comma, newline, split, str_of}
use emulator_test.Text.Decimal.{Digit, value, str_of-digits, str_of-leading}
use emulator_test.Text.Fields.{join, Lacks, split-field, split-append, str_of-Lacks}
use emulator_test.Events.{unsigned}
use emulator_test.Events.Line.{
  is_token, tokens, digit_of, digits_from, behind_zero, magnitude, is_blank, skip_blanks, clamped,
  signed, to_int, strtol, long_of, sched_fields,
}

-- A text that ends a number.
pub record Stops (r : Text) : Type 0 where
  pub no_digit : (base n : ℕ) → digits_from base n r ≡ n
  pub no_octal : behind_zero r ≡ 0

digits-value : (n : ℕ) (s r : Text) → All Digit s → Stops r → digits_from 10 n (s ++ r) ≡ value n s
unfolding digits_from digit_of
digits-value n [] r h stops = stops.no_digit 10 n
digits-value n (c ∷ s) r h stops = ground (arith, digits-value (n * 10 + (c - b'0')) s r h.1 stops)

pub end-Stops : Stops []
unfolding digits_from behind_zero
end-Stops = record { no_digit = λ base n. refl; no_octal = refl }

pub newline-Stops : Stops (newline ∷ [])
unfolding digits_from digit_of behind_zero
newline-Stops = record { no_digit = λ base n. refl; no_octal = refl }

str_of_zero : (r : Text) → Stops r → magnitude (str_of 0 ++ r) ≡ 0
unfolding magnitude str_of
str_of_zero r stops = stops.no_octal

-- A decimal number is read back, whatever follows that is no digit.
magnitude-str_of : (n : ℕ) (r : Text) → Stops r → magnitude (str_of n ++ r) ≡ n
unfolding magnitude
magnitude-str_of zero r stops = str_of_zero r stops
magnitude-str_of (suc n) r stops =
    let (c, s, e, digits, stands) = str_of-digits (suc n) in
    let decimal = str_of-leading (suc n) c s (omega arith) e in
    rw (e, decimal) (digits-value 0 (c ∷ s) r digits stops ∙ stands)

Digit-signed :
    (c : ℕ) (t : Text) → Digit c → signed (skip_blanks (c ∷ t)) ≡ clamped false (magnitude (c ∷ t))
unfolding signed skip_blanks is_blank
Digit-signed c t h =
    let solid : is_blank c ≡ false = ground arith in
    let plus : (c == b'+') ≡ false = ground arith in
    let minus : (c == b'-') ≡ false = ground arith in rw solid (rw (minus, plus) refl)

fits_long : (n : ℕ) → n < 2 ^ 31 → leb (2 ^ 63) n ≡ false
fits_long n h = ground arith

fits_int : (n : ℕ) → n < 2 ^ 31 → ltb (n % 2 ^ 32) (2 ^ 31) ≡ true
fits_int n h = let same : n % 2 ^ 32 ≡ n = omega arith in rw same (ground arith)

signed-str_of :
    (n : ℕ) (r : Text) → Stops r → signed (skip_blanks (str_of n ++ r)) ≡ clamped false n
signed-str_of n r stops =
    let (c, s, e, digits, stands) = str_of-digits n in
    rw e (Digit-signed c (s ++ r) digits.0)
    ∙ ap (λ t. clamped false (magnitude (t ++ r))) (sym e)
    ∙ ap (clamped false) (magnitude-str_of n r stops)

-- A printed number that fits an `int` is read back.
pub strtol-str_of : (n : ℕ) (r : Text) → Stops r → n < 2 ^ 31 → strtol (str_of n ++ r) ≡ pos n
unfolding strtol to_int clamped unsigned
strtol-str_of n r stops small =
    let long = fits_long n small in
    let int = fits_int n small in
    let same : n % 2 ^ 32 ≡ n = omega arith in
    rw (signed-str_of n r stops) (rw long (rw int (ap pos same)))

long_of-str_of : (n : ℕ) (r : Text) → Stops r → n < 2 ^ 31 → long_of (str_of n ++ r) ≡ pos n
unfolding long_of clamped
long_of-str_of n r stops small = rw (signed-str_of n r stops) (rw (fits_long n small) refl)

-- A token that `strtok` finds.
pub record IsPiece (t : Text) : Type 0 where
  pub no_comma : Lacks comma t
  pub no_newline : Lacks newline t
  pub full : is_token t ≡ true

pub number_read : (n : ℕ) → n < 2 ^ 31 → strtol (str_of n) ≡ pos n
number_read n h = ap strtol (sym (append-nil (str_of n))) ∙ strtol-str_of n [] end-Stops h

pub str_of-IsPiece : (n : ℕ) → IsPiece (str_of n)
unfolding is_token
str_of-IsPiece n =
    let (c, s, e, _, _) = str_of-digits n in
    record {
      no_comma = str_of-Lacks comma n (λ d h. λ e. absurd (omega arith));
      no_newline = str_of-Lacks newline n (λ d h. λ e. absurd (omega arith));
      full = rw e refl;
    }

-- The pieces of a line, the last of them with the newline.
unfoldable pub ended : Text → List Text → List Text
ended t [] = (t ++ newline ∷ []) ∷ []
ended t (u ∷ ts) = t ∷ ended u ts

split-ended :
    (t : Text) (ts : List Text)
    → All IsPiece (t ∷ ts)
    → split comma (join comma (t ∷ ts) ++ newline ∷ []) ≡ ended t ts
unfolding ended
split-ended t [] (h, _) = split-field comma (t ++ newline ∷ []) (
    All-append (λ (c : ℕ). c ≢ comma) t (newline ∷ []) h.no_comma ((λ e. absurd (omega arith)), tt))
split-ended t (u ∷ ts) (h, hs) =
    ap (split comma) (append_assoc t (comma ∷ join comma (u ∷ ts)) (newline ∷ []))
    ∙ split-append comma t (join comma (u ∷ ts) ++ newline ∷ []) h.no_comma
    ∙ ap (◌∷◌ t) (split-ended u ts hs)

full_newline : (t : Text) → is_token (t ++ newline ∷ []) ≡ true
unfolding is_token
full_newline [] = refl
full_newline (c ∷ t) = refl

keep-ended :
    (t : Text) (ts : List Text) → All IsPiece (t ∷ ts) → keep is_token (ended t ts) ≡ ended t ts
unfolding ended
keep-ended t [] (h, _) = rw (full_newline t) refl
keep-ended t (u ∷ ts) (h, hs) = rw (h.full) (ap (◌∷◌ t) (keep-ended u ts hs))

-- `strtok` finds the pieces of a line.
pub tokens-line :
    (t : Text) (ts : List Text)
    → All IsPiece (t ∷ ts)
    → tokens (join comma (t ∷ ts) ++ newline ∷ []) ≡ ended t ts
unfolding tokens
tokens-line t ts h = ap (keep is_token) (split-ended t ts h) ∙ keep-ended t ts h

pub numbers_read :
    (n : ℕ) (ns : List ℕ)
    → All (λ k. k < 2 ^ 31) (n ∷ ns)
    → map strtol (ended (str_of n) (map str_of ns)) ≡ map (λ k. pos k) (n ∷ ns)
unfolding ended
numbers_read n [] (h, _) = ap (λ z. z ∷ []) (strtol-str_of n (newline ∷ []) newline-Stops h)
numbers_read n (m ∷ ns) (h, hs) = rw (number_read n h) (ap (◌∷◌ (pos n)) (numbers_read m ns hs))

-- A text whose `long` fits an `int`
abbrev Fits : Text → Type 0
Fits t = long_of t ≡ strtol t

str_of-Fits : (n : ℕ) (r : Text) → Stops r → n < 2 ^ 31 → Fits (str_of n ++ r)
str_of-Fits n r stops small = long_of-str_of n r stops small ∙ sym (strtol-str_of n r stops small)

ended-Fits :
    (n : ℕ) (ns : List ℕ)
    → All (λ k. k < 2 ^ 31) (n ∷ ns)
    → All Fits (ended (str_of n) (map str_of ns))
unfolding ended
ended-Fits n [] (h, _) = (str_of-Fits n (newline ∷ []) newline-Stops h, tt)
ended-Fits n (m ∷ ns) (h, hs) =
    (rw (append-nil (str_of n)) at (str_of-Fits n [] end-Stops h), ended-Fits m ns hs)

sched_fields-Fits : (ts : List Text) → All Fits ts → sched_fields ts ≡ map strtol ts
unfolding sched_fields
sched_fields-Fits [] h = refl
sched_fields-Fits (a ∷ []) h = refl
sched_fields-Fits (a ∷ b ∷ []) h = refl
sched_fields-Fits (a ∷ b ∷ c ∷ []) h = refl
sched_fields-Fits (a ∷ b ∷ c ∷ d ∷ []) h = refl
sched_fields-Fits (a ∷ b ∷ c ∷ d ∷ e ∷ ts) (_, (_, (_, (hd, (he, _))))) =
    let behind : ℤ → ℤ → List ℤ = λ x y. strtol a ∷ strtol b ∷ strtol c ∷ x ∷ y ∷ map strtol ts in
    ap (λ x. behind x (long_of e)) hd ∙ ap (λ y. behind (strtol d) y) he

pub sched_fields_read :
    (n : ℕ) (ns : List ℕ)
    → All (λ k. k < 2 ^ 31) (n ∷ ns)
    → sched_fields (ended (str_of n) (map str_of ns)) ≡ map (λ k. pos k) (n ∷ ns)
sched_fields_read n ns h =
    sched_fields-Fits (ended (str_of n) (map str_of ns)) (ended-Fits n ns h) ∙ numbers_read n ns h
