-- ===== src/Transit/Joins.antt =====
-- A `groupby` and a `merge` on whole numbers, for the tests.
use mathlib.Core.List.{Memᴰ}
use mathlib.Core.List.Memᴰ
use mathlib.Core.Path.{ap₂, subst}
use emulator_test.Prelude.{
  ◌≡◌, refl, sym, ap, ◌∙◌, ◌⊎◌, inl, inr, List, [], ◌∷◌, ◌++◌, map, true, ◌&&◌, if◌then◌else◌,
  Bool-cases, arith,
}
use emulator_test.Prelude.Int.{ℤ, leb_ℤ, ltb_ℤ, eq_ℤ, eq_ℤ→eq, eq_ℤ-refl}
use emulator_test.Number.{whole_number, whole-IsOrdered}
use emulator_test.Transit.Earliest.{IsGroupMin, IsInnerJoin, IsEarliest, Memᴰ-map, map-Memᴰ}

abbrev pub Epochs : Type 0
Epochs = List (ℤ × ℤ)

lower : ℤ → ℤ → ℤ → ℤ → ℤ
lower s m k e = if eq_ℤ k s && ltb_ℤ e m then e else m

smallest : ℤ → ℤ → Epochs → ℤ
smallest s m [] = m
smallest s m ((k, e) ∷ rows) = smallest s (lower s m k e) rows

lower-cases : (s m k e : ℤ) → (lower s m k e ≡ m) ⊎ ((lower s m k e ≡ e) × (s ≡ k))
unfolding lower
lower-cases s m k e = elim (Bool-cases (eq_ℤ k s)) [
  | inr other ↦ inl (rw other refl)
  | inl same ↦ elim (Bool-cases (ltb_ℤ e m)) [
    | inl less ↦ inr (rw (same, less) refl, sym (eq_ℤ→eq k s same))
    | inr more ↦ inl (rw (same, more) refl)
  ]
]

lower-le : (s m k e : ℤ) → leb_ℤ (lower s m k e) m ≡ true
unfolding lower
lower-le s m k e = elim (Bool-cases (eq_ℤ k s)) [
  | inr other ↦ rw other (whole-IsOrdered.le_refl m)
  | inl same ↦ rw same (ground arith)
]

lower-le_same : (s m e : ℤ) → leb_ℤ (lower s m s e) e ≡ true
unfolding lower
lower-le_same s m e = rw (eq_ℤ-refl s) (ground arith)

smallest-cases :
    (s m : ℤ) (rows : Epochs) → (smallest s m rows ≡ m) ⊎ Memᴰ (s, smallest s m rows) rows
unfolding smallest
smallest-cases s m [] = inl refl
smallest-cases s m ((k, e) ∷ rows) = elim (smallest-cases s (lower s m k e) rows) [
  | inr later ↦ inr (Memᴰ.tail later)
  | inl here ↦ elim (lower-cases s m k e) [
    | inl old ↦ inl (here ∙ old)
    | inr (new, same) ↦ inr (Memᴰ.head (ap₂ (λ a b. (a, b)) same (here ∙ new)))
  ]
]

smallest-le : (s m : ℤ) (rows : Epochs) → leb_ℤ (smallest s m rows) m ≡ true
unfolding smallest
smallest-le s m [] = whole-IsOrdered.le_refl m
smallest-le s m ((k, e) ∷ rows) =
    whole-IsOrdered.le_trans (smallest s (lower s m k e) rows) (lower s m k e) m
      (smallest-le s (lower s m k e) rows) (lower-le s m k e)

smallest-le_all :
    (s m other : ℤ) (rows : Epochs) → Memᴰ (s, other) rows → leb_ℤ (smallest s m rows) other ≡ true
unfolding smallest
smallest-le_all s m other [] h = absurd (Memᴰ.not-nil h)
smallest-le_all s m other ((k, e) ∷ rows) h = elim (Memᴰ.cases_cons h) [
  | inr later ↦ smallest-le_all s (lower s m k e) other rows later
  | inl here ↦
      let same : s ≡ k = ap (λ r. r.0) here in
      let value : other ≡ e = ap (λ r. r.1) here in
      whole-IsOrdered.le_trans (smallest s (lower s m k e) rows) (lower s m k e) other
        (smallest-le s (lower s m k e) rows) (rw⁻¹ same (rw value (lower-le_same s m e)))
]

pub group_min : Epochs → Epochs
group_min rows = map (λ (s, e). (s, smallest s e rows)) rows

smallest-IsEarliest :
    (s e : ℤ) (rows : Epochs) → Memᴰ (s, e) rows → IsEarliest rows s (smallest s e rows)
unfolding IsEarliest
smallest-IsEarliest s e rows m = (
  (elim (smallest-cases s e rows) [
    | inl same ↦ subst (λ t. Memᴰ (s, t) rows) (sym same) m
    | inr other ↦ other
  ]),
  λ other h. smallest-le_all s e other rows h,
)

pub group_min-IsGroupMin : IsGroupMin group_min
unfolding group_min IsGroupMin
group_min-IsGroupMin rows = (
  (λ seq epoch m.
      let (row, mr, same) = map-Memᴰ (λ (r : ℤ × ℤ). (r.0, smallest r.0 r.1 rows)) rows m in
      subst (λ (r : ℤ × ℤ). IsEarliest rows r.0 r.1) (sym same)
        (smallest-IsEarliest row.0 row.1 rows mr)),
  λ seq epoch m.
      (smallest seq epoch rows, Memᴰ-map (λ (r : ℤ × ℤ). (r.0, smallest r.0 r.1 rows)) m),
)

right_of : ℤ → ℤ → Epochs → List (ℤ × ℤ × ℤ)
right_of s a [] = []
right_of s a ((k, b) ∷ rows) = if eq_ℤ k s then (s, a, b) ∷ right_of s a rows else right_of s a rows

pub join : Epochs → Epochs → List (ℤ × ℤ × ℤ)
join [] right = []
join ((s, a) ∷ left) right = right_of s a right ++ join left right

right_of-row :
    (s a seq a' b : ℤ) (rows : Epochs)
    → Memᴰ (seq, a', b) (right_of s a rows)
    → (◌≡◌ {A = ℤ × ℤ} (seq, a') (s, a)) × Memᴰ (s, b) rows
unfolding right_of
right_of-row s a seq a' b [] m = absurd (Memᴰ.not-nil m)
right_of-row s a seq a' b ((k, c) ∷ rows) m = elim (Bool-cases (eq_ℤ k s)) [
  | inr other ↦
      let (same, later) = right_of-row s a seq a' b rows (rw other at m) in (same, Memᴰ.tail later)
  | inl equal ↦ elim (Memᴰ.cases_cons (rw equal at m)) [
    | inl here ↦ (
      ap (λ r. (r.0, r.1)) here,
      Memᴰ.head (ap₂ (λ x y. (x, y)) (sym (eq_ℤ→eq k s equal)) (ap (λ r. r.2) here)),
    )
    | inr there ↦
        let (same, later) = right_of-row s a seq a' b rows there in (same, Memᴰ.tail later)
  ]
]

row-right_of : (s a b : ℤ) (rows : Epochs) → Memᴰ (s, b) rows → Memᴰ (s, a, b) (right_of s a rows)
unfolding right_of
row-right_of s a b [] m = absurd (Memᴰ.not-nil m)
row-right_of s a b ((k, c) ∷ rows) m = elim (Memᴰ.cases_cons m) [
  | inl here ↦
      let same : s ≡ k = ap (λ r. r.0) here in
      let value : b ≡ c = ap (λ r. r.1) here in
      rw⁻¹ same (rw (eq_ℤ-refl s) (Memᴰ.head (ap (λ x. (s, a, x)) value)))
  | inr later ↦ elim (Bool-cases (eq_ℤ k s)) [
    | inl equal ↦ rw equal (Memᴰ.tail (row-right_of s a b rows later))
    | inr other ↦ rw other (row-right_of s a b rows later)
  ]
]

join-row :
    (left right : Epochs) (seq a b : ℤ)
    → Memᴰ (seq, a, b) (join left right)
    → Memᴰ (seq, a) left × Memᴰ (seq, b) right
unfolding join
join-row [] right seq a b m = absurd (Memᴰ.not-nil m)
join-row ((s, c) ∷ left) right seq a b m = elim (Memᴰ.append_cases (right_of s c right) m) [
  | inl here ↦
      let (same, mb) = right_of-row s c seq a b right here in
      (Memᴰ.head same, subst (λ k. Memᴰ (k, b) right) (sym (ap (λ r. r.0) same)) mb)
  | inr later ↦ let (ma, mb) = join-row left right seq a b later in (Memᴰ.tail ma, mb)
]

row-join :
    (left right : Epochs) (seq a b : ℤ)
    → Memᴰ (seq, a) left
    → Memᴰ (seq, b) right
    → Memᴰ (seq, a, b) (join left right)
unfolding join
row-join [] right seq a b ma mb = absurd (Memᴰ.not-nil ma)
row-join ((s, c) ∷ left) right seq a b ma mb = elim (Memᴰ.cases_cons ma) [
  | inl here ↦ Memᴰ.append_left (join left right) (
      subst (λ (r : ℤ × ℤ). Memᴰ (seq, a, b) (right_of r.0 r.1 right)) here
        (row-right_of seq a b right mb))
  | inr later ↦ Memᴰ.append_right (right_of s c right) (row-join left right seq a b later mb)
]

pub join-IsInnerJoin : IsInnerJoin join
unfolding IsInnerJoin
join-IsInnerJoin left right seq a b = (join-row left right seq a b, row-join left right seq a b)
