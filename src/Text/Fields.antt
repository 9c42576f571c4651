-- ===== src/Text/Fields.antt =====
-- `split` on the fields of a line, and decimal fields.
use mathlib.Core.Path.{subst}
use emulator_test.Prelude.Int.{pos}
use emulator_test.Prelude.{
  Bool-cases, inl, inr, ok, ap, sym, ◌∙◌, ◌==◌, ℕ, ◌≡◌, refl, ◌≢◌, ap, List, [], ◌∷◌, ◌++◌, true,
  All, arith,
}
use emulator_test.Text.{int_of, Text, split, text_eq, str_of}
use emulator_test.Text.Decimal.{int_of-printed, Digit, str_of-digits}

-- `sep.join(fields)`
abbrev pub join : ℕ → List Text → Text
join sep [] = []
join sep (t ∷ []) = t
join sep (t ∷ u ∷ ts) = t ++ sep ∷ join sep (u ∷ ts)

abbrev pub Lacks : ℕ → Text → Type 0
Lacks sep = All (λ c. c ≢ sep)

pub split-field : (sep : ℕ) (t : Text) → Lacks sep t → split sep t ≡ t ∷ []
unfolding split
split-field sep [] h = refl
split-field sep (c ∷ t) h = ground (arith, h.0, split-field sep t h.1)

pub split-append :
    (sep : ℕ) (t rest : Text) → Lacks sep t → split sep (t ++ sep ∷ rest) ≡ t ∷ split sep rest
unfolding split
split-append sep [] rest h = ground arith
split-append sep (c ∷ t) rest h = ground (arith, h.0, split-append sep t rest h.1)

-- Splitting gives back the fields that were joined, where none holds the separator.
pub split-join :
    (sep : ℕ) (t : Text) (ts : List Text)
    → All (Lacks sep) (t ∷ ts)
    → split sep (join sep (t ∷ ts)) ≡ t ∷ ts
split-join sep t [] h = split-field sep t h.0
split-join sep t (u ∷ ts) h =
    rw (split-append sep t (join sep (u ∷ ts)) h.0) (ap (λ r. t ∷ r) (split-join sep u ts h.1))

Digit-Lacks : (sep : ℕ) (s : Text) → All Digit s → ((c : ℕ) → Digit c → c ≢ sep) → Lacks sep s
Digit-Lacks sep [] h other = tt
Digit-Lacks sep (c ∷ s) h other = (other c h.0, Digit-Lacks sep s h.1 other)

-- A decimal number holds no character that is no digit.
pub str_of-Lacks : (sep n : ℕ) → ((c : ℕ) → Digit c → c ≢ sep) → Lacks sep (str_of n)
str_of-Lacks sep n other =
    let (c, s, e, digits, _) = str_of-digits n in rw e (Digit-Lacks sep (c ∷ s) digits other)

pub text_eq_refl : (s : Text) → text_eq s s ≡ true
unfolding text_eq
text_eq_refl [] = refl
text_eq_refl (c ∷ s) = ground (arith, text_eq_refl s)

pub text_eq→eq : (s t : Text) → text_eq s t ≡ true → s ≡ t
unfolding text_eq
text_eq→eq [] [] h = refl
text_eq→eq [] (d ∷ t) h = cc
text_eq→eq (c ∷ s) [] h = cc
text_eq→eq (c ∷ s) (d ∷ t) h = ground (arith, text_eq→eq s t)

-- Decimal texts are equal when their numbers are.
pub text_eq-str_of : (m k : ℕ) → text_eq (str_of m) (str_of k) ≡ (m == k)
text_eq-str_of m k = elim (Bool-cases (m == k)) [
  | inl e ↦
      let same : m ≡ k = ground (arith, e) in
      subst (λ j. text_eq (str_of m) (str_of j) ≡ (m == j)) same
        (text_eq_refl (str_of m) ∙ ground arith)
  | inr e ↦ elim (Bool-cases (text_eq (str_of m) (str_of k))) [
    | inl t ↦
        let same : ok (pos m) ≡ ok (pos k) =
          sym (int_of-printed m)
          ∙ ap int_of (text_eq→eq (str_of m) (str_of k) t)
          ∙ int_of-printed k in
        let eq : m ≡ k = cc in absurd (ground (arith, eq, e))
    | inr t ↦ t ∙ sym e
  ]
]
