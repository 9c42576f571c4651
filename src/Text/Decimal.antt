-- ===== src/Text/Decimal.antt =====
-- `str` and `int` on natural numbers.
use mathlib.Core.Path.{subst}
use emulator_test.Prelude.{
  append-nil, ℕ, zero, suc, ◌+◌, ◌-◌, ◌*◌, ◌/◌, ◌%◌, ◌≤◌, ◌<◌, ◌≡◌, refl, ap, ◌∙◌, true, false, [],
  ◌∷◌, ◌++◌, All, arith, Bool-cases, inl, inr, ◌==◌, ok,
}
use emulator_test.Prelude.Int.{pos}
use emulator_test.Text.{
  Text, is_digit_char, is_space, lstrip, rstrip, rstrip_cons, strip, scan, signed, int_of, emit,
  str_of,
}

abbrev pub Digit : ℕ → Type 0
Digit c = (b'0' ≤ c) × (c ≤ b'9')

-- The number that digits stand for, read behind a number.
abbrev pub value : ℕ → Text → ℕ
value n [] = n
value n (c ∷ s) = value (n * 10 + (c - b'0')) s

emit-digits : (f n : ℕ) (out : Text) → All Digit out → All Digit (emit f n out)
unfolding emit
emit-digits zero n out h = h
emit-digits (suc f) n out h = elim (Bool-cases (n / 10 == 0)) [
  | inl last ↦ rw last (omega arith, h)
  | inr more ↦ rw more (emit-digits f (n / 10) ((b'0' + n % 10) ∷ out) (omega arith, h))
]

value-emit : (f n : ℕ) (out : Text) → n < f → value 0 (emit f n out) ≡ value n out
unfolding emit
value-emit zero n out h = elim h [ ]
value-emit (suc f) n out h = elim (Bool-cases (n / 10 == 0)) [
  | inl last ↦
      let same : 0 * 10 + (b'0' + n % 10 - b'0') ≡ n = ground arith in
      rw last (ap (λ (m : ℕ). value m out) same)
  | inr more ↦
      let below : n / 10 < f = ground arith in
      let same : n / 10 * 10 + (b'0' + n % 10 - b'0') ≡ n = omega arith in
      rw more
        (value-emit f (n / 10) ((b'0' + n % 10) ∷ out) below ∙ ap (λ (m : ℕ). value m out) same)
]

-- `emit` puts something before the text.
emit-cons : (f n : ℕ) (out : Text) → (c : ℕ) × (s : Text) × (emit (suc f) n out ≡ c ∷ s)
unfolding emit
emit-cons zero n out = (b'0' + n % 10, out, ground arith)
emit-cons (suc f) n out = elim (Bool-cases (n / 10 == 0)) [
  | inl last ↦ (b'0' + n % 10, out, rw last refl)
  | inr more ↦ rw more (emit-cons f (n / 10) ((b'0' + n % 10) ∷ out))
]

-- `str(n)` is a digit and more digits, that stand for `n`.
pub str_of-digits :
    (n : ℕ) → (c : ℕ) × (s : Text) × (str_of n ≡ c ∷ s) × All Digit (c ∷ s) × (value 0 (c ∷ s) ≡ n)
unfolding str_of
str_of-digits n =
    let (c, s, e) = emit-cons n n [] in
    (
      c,
      s,
      e,
      rw e at (emit-digits (suc n) n [] tt),
      rw e at (value-emit (suc n) n [] (omega arith)),
    )

emit-leading :
    (f n : ℕ) (out : Text)
    → 0 < n
    → n < f
    → (c : ℕ) × (s : Text) × (emit f n out ≡ c ∷ s) × ((c == b'0') ≡ false)
unfolding emit
emit-leading zero n out more below = elim below [ ]
emit-leading (suc f) n out more below = elim (Bool-cases (n / 10 == 0)) [
  | inl last ↦ (b'0' + n % 10, out, rw last refl, ground arith)
  | inr longer ↦
      rw longer (emit-leading f (n / 10) ((b'0' + n % 10) ∷ out) (ground arith) (ground arith))
]

-- A number that is not zero starts with another digit.
pub str_of-leading : (n : ℕ) (c : ℕ) (s : Text) → 0 < n → str_of n ≡ c ∷ s → (c == b'0') ≡ false
unfolding str_of
str_of-leading n c s more e =
    let (d, _, starts, other) = emit-leading (suc n) n [] more (omega arith) in
    let same : d ≡ c = cc in rw (← same) other

scan-digits : (n : ℕ) (s : Text) → All Digit s → scan n true s ≡ ok (value n s)
unfolding scan is_digit_char
scan-digits n [] h = refl
scan-digits n (c ∷ s) h = ground (arith, scan-digits (n * 10 + (c - b'0')) s h.1)

-- A character that is not whitespace.
abbrev pub Solid : ℕ → Type 0
Solid c = is_space c ≡ false

Digit-Solid : (c : ℕ) → Digit c → Solid c
unfolding is_space
Digit-Solid c h = ground arith

lstrip-Solid : (c : ℕ) (s : Text) → Solid c → lstrip (c ∷ s) ≡ c ∷ s
unfolding lstrip
lstrip-Solid c s h = rw h

abbrev pub Space : ℕ → Type 0
Space c = is_space c ≡ true

rstrip_spaces : (w : Text) → All Space w → rstrip w ≡ []
unfolding rstrip rstrip_cons
rstrip_spaces [] h = refl
rstrip_spaces (c ∷ w) h = rw (rstrip_spaces w h.1) (rw h.0)

-- What has no space is what is left in front of spaces.
rstrip-append : (s w : Text) → All Solid s → All Space w → rstrip (s ++ w) ≡ s
unfolding rstrip rstrip_cons
rstrip-append [] w hs hw = rstrip_spaces w hw
rstrip-append (c ∷ []) w hs hw = rw (rstrip_spaces w hw) (rw hs.0)
rstrip-append (c ∷ d ∷ s) w hs hw = rw (rstrip-append (d ∷ s) w hs.1 hw) refl

All-Digit-Solid : (s : Text) → All Digit s → All Solid s
All-Digit-Solid [] h = tt
All-Digit-Solid (c ∷ s) h = (Digit-Solid c h.0, All-Digit-Solid s h.1)

signed-digits : (c : ℕ) (s : Text) → All Digit (c ∷ s) → signed (c ∷ s) ≡ ok (pos (value 0 (c ∷ s)))
unfolding signed scan is_digit_char
signed-digits c s h = ground (arith, scan-digits (0 * 10 + (c - b'0')) s h.1)

-- `int(str(n) + w)` is `n`, where `w` is whitespace, such as the newline that `readlines` keeps.
pub int_of-str_of : (n : ℕ) (w : Text) → All Space w → int_of (str_of n ++ w) ≡ ok (pos n)
unfolding int_of strip
int_of-str_of n w hw =
    let (c, s, e, digits, stands) = str_of-digits n in
    rw (e, lstrip-Solid c (s ++ w) (Digit-Solid c digits.0))
      (rw (rstrip-append (c ∷ s) w (All-Digit-Solid (c ∷ s) digits) hw)
        (signed-digits c s digits ∙ ap (λ (m : ℕ). ok (pos m)) stands))

-- Reading a number back, with nothing around it.
pub int_of-printed : (n : ℕ) → int_of (str_of n) ≡ ok (pos n)
int_of-printed n =
    subst (λ s. int_of s ≡ ok (pos n)) (append-nil (str_of n)) (int_of-str_of n [] tt)
