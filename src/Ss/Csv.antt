-- ===== src/Ss/Csv.antt =====
-- The flat rows of an `ss` log, and the columns of its csv file: `save_csv` of
-- scripts/processing/parse_ss.py and the end of `parse_ss` in scripts/processing/parse-logs.py.
use mathlib.Core.Path.{subst}
use emulator_test.Prelude.{
  List, [], ◌∷◌, ◌++◌, Option, none, some, Result, ok, raised, attribute_error, ◌>>=◌, ◌≡◌, refl,
  sym, ap, ◌∙◌, false, All, All-map, if◌then◌else◌, Bool-cases, ◌⊎◌, inl, inr,
}
use emulator_test.Text.{Text, codes, text_eq}
use emulator_test.Text.Fields.{text_eq_refl, text_eq→eq}
use emulator_test.Ss.{Param, Metric, plain, info, Metrics, set_key}

module _ {ℓ} {F D : Type ℓ} where
  -- `pop(key)`: the value and the rest of the entry.
  pop : Text → Metrics F D → Option (Metric F D × Metrics F D)
  pop key [] = none
  pop key ((k, v) ∷ entry) =
      let rest = pop key entry in
      if text_eq k key
      then some (v, entry)
      else elim rest [ none ↦ none | some (w, others) ↦ some (w, (k, v) ∷ others) ]

  -- `flat_entry[f"bbr_{k}"] = v`
  spread : List (Text × Param F) → Metrics F D → Metrics F D
  unfolding set_key
  spread [] entry = entry
  spread ((k, v) ∷ params) entry = spread params (set_key (codes "bbr_" ++ k) (plain v) entry)

  -- `bbr_data.items()`, which only the BBR part has.
  items : Metric F D → Result (List (Text × Param F))
  items (info params) = ok params
  items _ = raised attribute_error

  -- One row of `flattened_data`.
  unfoldable pub flatten : Metrics F D → Result (Metrics F D)
  unfolding pop spread items
  flatten entry = elim (pop (codes "bbr") entry) [
    | none ↦ ok entry
    | some (bbr_data, others) ↦ do params ← items bbr_data; ok (spread params others)
  ]

-- `d[key]`, or nothing.
abbrev pub get {κ} : {V : Type κ} → Text → List (Text × V) → Option V
get key [] = none
get key ((k, v) ∷ d) = if text_eq k key then some v else get key d

module _ {κ} {V : Type κ} where
  pub get-set_key : (key : Text) (v : V) (d : List (Text × V)) → get key (set_key key v d) ≡ some v
  unfolding set_key
  get-set_key key v [] = rw (text_eq_refl key) refl
  get-set_key key v ((k, w) ∷ d) = elim (Bool-cases (text_eq k key)) [
    | inl e ↦ rw e (rw (e, get) refl)
    | inr e ↦ rw e (rw (e, get) (get-set_key key v d))
  ]

  pub get-set_key_other :
      (key other : Text) (v : V) (d : List (Text × V))
      → text_eq key other ≡ false
      → get other (set_key key v d) ≡ get other d
  unfolding set_key
  get-set_key_other key other v [] h = rw h refl
  get-set_key_other key other v ((k, w) ∷ d) h = elim (Bool-cases (text_eq k key)) [
    | inl e ↦
        let differs : text_eq k other ≡ false =
          ap (λ t. text_eq t other) (text_eq→eq k key e) ∙ h in
        rw e (rw (differs, get) refl)
    | inr e ↦ elim (Bool-cases (text_eq k other)) [
      | inl same ↦ rw e (rw (same, get) refl)
      | inr differs ↦ rw e (rw (differs, get) (get-set_key_other key other v d h))
    ]
  ]

-- The keys of a dictionary are different.
abbrev pub IsDict {κ} : {V : Type κ} → List (Text × V) → Type κ
IsDict [] = Unit
IsDict ((k, v) ∷ d) = All (λ e. text_eq e.0 k ≡ false) d × IsDict d

abbrev pub bbr_key : Text → Text
bbr_key k = codes "bbr_" ++ k

bbr_key-text_eq : (j k : Text) → text_eq (bbr_key j) (bbr_key k) ≡ text_eq j k
unfolding text_eq
bbr_key-text_eq j k = refl

some-none {ℓ} : {A : Type ℓ} {a : A} → some a ≡ none → ⊥
some-none h = cc

some_injective {ℓ} : {A : Type ℓ} (a b : A) → some a ≡ some b → a ≡ b
some_injective a b h = cc

module _ {ℓ} {F D : Type ℓ} where
  spread-other :
      (params : List (Text × Param F)) (entry : Metrics F D) (key : Text)
      → All (λ p. text_eq (bbr_key p.0) key ≡ false) params
      → get key (spread params entry) ≡ get key entry
  unfolding spread
  spread-other [] entry key h = refl
  spread-other ((k, v) ∷ params) entry key (hk, h) =
      spread-other params (set_key (bbr_key k) (plain v) entry) key h
      ∙ get-set_key_other (bbr_key k) key (plain v) entry hk

  spread-param :
      (params : List (Text × Param F)) (entry : Metrics F D) (key : Text) (value : Param F)
      → IsDict params
      → get key params ≡ some value
      → get (bbr_key key) (spread params entry) ≡ some (plain value)
  unfolding spread
  spread-param [] entry key value h found = cc
  spread-param ((k, v) ∷ params) entry key value (hk, h) found = elim (Bool-cases (text_eq k key)) [
    | inl e ↦
        let key_eq : key ≡ k = sym (text_eq→eq k key e) in
        let value_eq : v ≡ value = some_injective v value (rw e at found) in
        subst (λ j. get (bbr_key j) (spread ((k, v) ∷ params) entry) ≡ some (plain value))
          (sym key_eq)
          (spread-other params (set_key (bbr_key k) (plain v) entry) (bbr_key k) (
              All-map (λ p. text_eq p.0 k ≡ false) (λ p. text_eq (bbr_key p.0) (bbr_key k) ≡ false)
                (λ p differs. bbr_key-text_eq p.0 k ∙ differs) params hk)
            ∙ get-set_key (bbr_key k) (plain v) entry
            ∙ ap (λ x. some (plain x)) value_eq)
    | inr e ↦ spread-param params (set_key (bbr_key k) (plain v) entry) key value h (rw e at found)
  ]

  pop-get :
      (key : Text) (entry : Metrics F D) (v : Metric F D)
      → get key entry ≡ some v
      → (others : Metrics F D) × (pop key entry ≡ some (v, others))
        × ((other : Text) → text_eq key other ≡ false → get other others ≡ get other entry)
  unfolding pop
  pop-get key [] v h = cc
  pop-get key ((k, w) ∷ entry) v h = elim (Bool-cases (text_eq k key)) [
    | inl e ↦
        let same : w ≡ v = some_injective w v (rw e at h) in
        (
          entry,
          rw e (ap (λ x. some (x, entry)) same),
          λ other differs.
              let at_k : text_eq k other ≡ false =
                ap (λ t. text_eq t other) (text_eq→eq k key e) ∙ differs in
              rw at_k refl,
        )
    | inr e ↦
        let (others, popped, kept) = pop-get key entry v (rw e at h) in
        (
          (k, w) ∷ others,
          rw e (rw popped refl),
          λ other differs. elim (Bool-cases (text_eq k other)) [
            | inl at_k ↦ rw at_k refl
            | inr not_k ↦ rw not_k (kept other differs)
          ],
        )
  ]

  -- An entry with a BBR part whose keys differ has a flat row: each parameter stands in it under its key
  -- with `bbr_` in front, and every other key but `bbr` has what it had in the entry.
  pub flatten_lem :
      (entry : Metrics F D) (params : List (Text × Param F))
      → get (codes "bbr") entry ≡ some (info params)
      → IsDict params
      → (row : Metrics F D) × (flatten entry ≡ ok row)
        × ((key : Text) (value : Param F)
            → get key params ≡ some value
            → get (bbr_key key) row ≡ some (plain value))
        × ((key : Text)
            → text_eq (codes "bbr") key ≡ false
            → All (λ p. text_eq (bbr_key p.0) key ≡ false) params
            → get key row ≡ get key entry)
  unfolding flatten items
  flatten_lem entry params h distinct =
      let (others, popped, kept) = pop-get (codes "bbr") entry (info params) h in
      (
        spread params others,
        rw (popped, flatten) refl,
        (λ key value found. spread-param params others key value distinct found),
        λ key differs free. spread-other params others key free ∙ kept key differs,
      )

  pop-none : (key : Text) (entry : Metrics F D) → get key entry ≡ none → pop key entry ≡ none
  unfolding pop
  pop-none key [] h = refl
  pop-none key ((k, w) ∷ entry) h = elim (Bool-cases (text_eq k key)) [
    | inl e ↦ absurd (some-none (rw e at h))
    | inr e ↦ rw e (rw (pop-none key entry (rw e at h)) refl)
  ]

  -- An entry whose BBR part, if it has one, is a dictionary.
  abbrev pub HasInfo : Metrics F D → Type ℓ
  HasInfo entry =
      (get (codes "bbr") entry ≡ none)
      ⊎ ((params : List (Text × Param F)) × (get (codes "bbr") entry ≡ some (info params)))

  pub flatten-HasInfo :
      (entry : Metrics F D) → HasInfo entry → (row : Metrics F D) × (flatten entry ≡ ok row)
  unfolding flatten items
  flatten-HasInfo entry (inl h) = (entry, rw (pop-none (codes "bbr") entry h, flatten) refl)
  flatten-HasInfo entry (inr (params, h)) =
      let (others, popped, _) = pop-get (codes "bbr") entry (info params) h in
      (spread params others, rw (popped, flatten) refl)
