-- ===== src/Generate/Init.antt =====
-- The search of `generate_trace` for the execution time.
use emulator_test.Prelude.{ℕ, ◌≡◌, refl, ◌∙◌, List, [], ◌∷◌, ◌++◌, map, All, false, some, ok}
use emulator_test.Prelude.Int.{pos}
use emulator_test.Text.{Text, codes, comma, str_of, text_eq}
use emulator_test.Text.Decimal.{Space, int_of-str_of}
use emulator_test.Text.Fields.{join, Lacks, split-join, text_eq_refl}
use emulator_test.Generate.{last, find_init}

-- A line of a trace that is no INIT line: its time, its kind and the fields behind them.
pub record Event : Type 0 where
  pub time : Text
  pub kind : Text
  pub fields : List Text

abbrev pub event_line : Event → Text
event_line e = join comma (e.time ∷ e.kind ∷ e.fields)

abbrev pub IsEvent : Event → Type 0
IsEvent e =
    Lacks comma e.time
    × Lacks comma e.kind
    × All (Lacks comma) e.fields
    × (text_eq e.kind (codes "INIT") ≡ false)

pub last-snoc {ℓ} : {A : Type ℓ} (xs : List A) (x : A) → last (xs ++ x ∷ []) ≡ some x
unfolding last
last-snoc [] x = refl
last-snoc (y ∷ []) x = refl
last-snoc (y ∷ z ∷ xs) x = last-snoc (z ∷ xs) x

pub last-some {ℓ} : {A : Type ℓ} (x : A) (xs : List A) → (y : A) × (last (x ∷ xs) ≡ some y)
unfolding last
last-some x [] = (x, refl)
last-some x (y ∷ xs) = last-some y xs

-- An INIT line: its last field is the time, with white space such as the newline behind it.
abbrev pub init_fields : Text → List Text → ℕ → Text → List Text
init_fields time fields stamp space = time ∷ codes "INIT" ∷ (fields ++ (str_of stamp ++ space) ∷ [])

find_init-event :
    (e : Event) (lines : List Text) → IsEvent e → find_init (event_line e ∷ lines) ≡ find_init lines
unfolding find_init
find_init-event e lines (ht, hk, hf, other) =
    let (t, found) = last-some e.time (e.kind ∷ e.fields) in
    rw (split-join comma e.time (e.kind ∷ e.fields) (ht, (hk, hf))) (rw found (rw other refl))

find_init-init :
    (time : Text) (fields : List Text) (stamp : ℕ) (space : Text) (lines : List Text)
    → All (Lacks comma) (init_fields time fields stamp space)
    → All Space space
    → find_init (join comma (init_fields time fields stamp space) ∷ lines) ≡ ok (pos stamp)
unfolding find_init
find_init-init time fields stamp space lines h hs =
    rw (split-join comma time (codes "INIT" ∷ (fields ++ (str_of stamp ++ space) ∷ [])) h) (
      rw (last-snoc (time ∷ codes "INIT" ∷ fields) (str_of stamp ++ space))
        (rw (text_eq_refl (codes "INIT")) (int_of-str_of stamp space hs)))

pub find_init_lem :
    (es : List Event) (time : Text) (fields : List Text) (stamp : ℕ) (space : Text)
    (lines : List Text)
    → All IsEvent es
    → All (Lacks comma) (init_fields time fields stamp space)
    → All Space space
    → find_init (map event_line es ++ join comma (init_fields time fields stamp space) ∷ lines)
      ≡ ok (pos stamp)
find_init_lem [] time fields stamp space lines _ h hs =
    find_init-init time fields stamp space lines h hs
find_init_lem (e ∷ es) time fields stamp space lines (he, hes) h hs =
    find_init-event e
      (map event_line es ++ join comma (init_fields time fields stamp space) ∷ lines) he
    ∙ find_init_lem es time fields stamp space lines hes h hs
