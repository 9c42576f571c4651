-- ===== src/Ss/Pairs.antt =====
-- `re.findall` of `(\w+):([^ ]+)` on lines of `key:value` fields.
use emulator_test.Prelude.{
  ℕ, ◌+◌, ◌≡◌, ◌≢◌, refl, sym, ap, ◌∙◌, List, [], ◌∷◌, ◌++◌, append_assoc, append-nil, ◌==◌, length,
  length-append, All, Bool, true, false, not, arith, none, some,
}
use emulator_test.Text.{Text, drop_prefix, is_digit_char}
use emulator_test.Ss.{is_word, span, not_empty, match_pair, pairs_from, find_pairs}

span-append :
    (p : ℕ → Bool) (t : Text) (c : ℕ) (s : Text)
    → All (λ d. p d ≡ true) t
    → p c ≡ false
    → span p (t ++ c ∷ s) ≡ (t, c ∷ s)
unfolding span
span-append p [] c s h stop = rw stop refl
span-append p (d ∷ t) c s (hd, h) stop = rw (span-append p t c s h stop) (rw hd refl)

span-All : (p : ℕ → Bool) (t : Text) → All (λ d. p d ≡ true) t → span p t ≡ (t, [])
unfolding span
span-All p [] h = refl
span-All p (d ∷ t) (hd, h) = rw (span-All p t h) (rw hd refl)

abbrev solid : ℕ → Bool
solid c = not (c == 32)

-- A key of word characters and a value without a space, neither empty.
abbrev pub IsField : Text × Text → Type 0
IsField (key, value) =
    (key ≢ []) × All (λ c. is_word c ≡ true) key × (value ≢ []) × All (λ c. c ≢ 32) value

abbrev pub field_text : Text × Text → Text
field_text (key, value) = key ++ b':' ∷ value

-- The fields with a space behind each but the last.
abbrev pub line_text : List (Text × Text) → Text
line_text [] = []
line_text (f ∷ []) = field_text f
line_text (f ∷ g ∷ fs) = field_text f ++ 32 ∷ line_text (g ∷ fs)

colon_stops : is_word b':' ≡ false
unfolding is_word is_digit_char
colon_stops = refl

not_empty-ne : (t : Text) → t ≢ [] → not_empty t ≡ some t
unfolding not_empty
not_empty-ne [] h = absurd (h refl)
not_empty-ne (c ∷ t) h = refl

-- What may follow a value: a space, or the end.
abbrev Ends : Text → Type 0
Ends [] = Unit
Ends (c ∷ s) = c ≡ 32

span-value :
    (value s : Text) → All (λ c. c ≢ 32) value → Ends s → span solid (value ++ s) ≡ (value, s)
unfolding span
span-value [] [] h e = refl
span-value [] (c ∷ s) h e = let stop : solid c ≡ false = ground (arith, e) in rw stop refl
span-value (d ∷ value) s (hd, h) e =
    let go : solid d ≡ true = ground (arith, hd) in rw (span-value value s h e) (rw go refl)

match_pair-field :
    (key value s : Text)
    → IsField (key, value)
    → Ends s
    → match_pair (key ++ b':' ∷ (value ++ s)) ≡ some (key, value)
unfolding match_pair drop_prefix
match_pair-field key value s (hk, hkw, hv, hvw) e =
    rw (span-append is_word key b':' (value ++ s) hkw colon_stops)
      (rw (not_empty-ne key hk) (rw (span-value value s hvw e) (rw (not_empty-ne value hv) refl)))

pairs_from-skip : (w s : Text) → pairs_from (length w) (w ++ s) ≡ pairs_from 0 s
unfolding pairs_from
pairs_from-skip [] s = refl
pairs_from-skip (c ∷ w) s = pairs_from-skip w s

pairs_from-field :
    (key value s : Text)
    → IsField (key, value)
    → Ends s
    → pairs_from 0 (field_text (key, value) ++ s) ≡ (key, value) ∷ pairs_from 0 s
unfolding pairs_from
pairs_from-field [] value s h e = absurd (h.0 refl)
pairs_from-field (c ∷ key) value s h e =
    let found : match_pair (c ∷ ((key ++ b':' ∷ value) ++ s)) ≡ some (c ∷ key, value) =
      ap match_pair (append_assoc (c ∷ key) (b':' ∷ value) s)
      ∙ match_pair-field (c ∷ key) value s h e in
    let size : length (c ∷ key) + length value ≡ length (key ++ b':' ∷ value) =
      omega (arith, length-append key (b':' ∷ value)) in
    rw (found, pairs_from)
      (rw size (ap (λ r. (c ∷ key, value) ∷ r) (pairs_from-skip (key ++ b':' ∷ value) s)))

space_no_pair : (s : Text) → match_pair (32 ∷ s) ≡ none
unfolding match_pair span not_empty is_word is_digit_char
space_no_pair s = refl

pairs_from-space : (s : Text) → pairs_from 0 (32 ∷ s) ≡ pairs_from 0 s
unfolding pairs_from
pairs_from-space s = rw (space_no_pair s, pairs_from) refl

-- Of a line of `key:value` fields with spaces between them, `find_pairs` returns the fields, in order.
pub find_pairs-line_text :
    (fields : List (Text × Text)) → All IsField fields → find_pairs (line_text fields) ≡ fields
unfolding find_pairs pairs_from
find_pairs-line_text [] h = refl
find_pairs-line_text (f ∷ []) (h, _) =
    ap (pairs_from 0) (sym (append-nil (field_text f))) ∙ pairs_from-field f.0 f.1 [] h tt
find_pairs-line_text (f ∷ g ∷ fs) (h, hs) =
    pairs_from-field f.0 f.1 (32 ∷ line_text (g ∷ fs)) h refl
    ∙ ap (λ r. f ∷ r) (pairs_from-space (line_text (g ∷ fs)) ∙ find_pairs-line_text (g ∷ fs) hs)
