-- ===== src/Panels/Curves.antt =====
-- What a curve of plot-logs.py shows of the rows of its file.
use emulator_test.Prelude.{
  ◌≡◌, refl, ap, ◌∙◌, inl, inr, List, [], ◌∷◌, map, Bool, true, not, ◌&&◌, keep, count, All,
  All-map, arith, Bool-cases,
}
use emulator_test.Number.{Number}
use emulator_test.Panels.{LogRow, filter_times}

-- What `points` holds of a row
abbrev pub point {ℓ} : {F : Type ℓ} → LogRow F → F × F
point r = (r.time, r.value)

count-none {ℓ} :
    {A : Type ℓ} (p : A → Bool) (xs : List A)
    → count (λ x. not (p x)) xs ≡ 0
    → All (λ x. p x ≡ true) xs
count-none p [] h = tt
count-none p (x ∷ xs) h = elim (Bool-cases (p x)) [
  | inl e ↦ (e, count-none p xs (ground (arith, h, e)))
  | inr e ↦ absurd (ground (arith, h, e))
]

count-keep-not {ℓ} :
    {A : Type ℓ} (p : A → Bool) (xs : List A) → count (λ x. not (p x)) (keep p xs) ≡ 0
count-keep-not p [] = refl
count-keep-not p (x ∷ xs) = ground (arith, count-keep-not p xs)

count-keep {ℓ} :
    {A : Type ℓ} (p q : A → Bool) (xs : List A)
    → ((x : A) → q x ≡ true → p x ≡ true)
    → count q (keep p xs) ≡ count q xs
count-keep p q [] h = refl
count-keep p q (x ∷ xs) h = ground (arith, h x, count-keep p q xs h)

count-map {ℓ κ} :
    {A : Type ℓ} {B : Type κ} (f : A → B) (p : B → Bool) (xs : List A)
    → count p (map f xs) ≡ count (λ x. p (f x)) xs
count-map f p [] = refl
count-map f p (x ∷ xs) = ground (arith, count-map f p xs)

map-All {ℓ κ μ} :
    {A : Type ℓ} {B : Type κ} (f : A → B) (P : B → Type μ) (xs : List A)
    → All (λ x. P (f x)) xs
    → All P (map f xs)
map-All f P [] h = tt
map-All f P (x ∷ xs) h = (h.0, map-All f P xs h.1)

module _ {ℓ} {F : Type ℓ} ⦃n : Number F⦄ where
  -- Each time is at most the next one.
  abbrev pub Rises : List F → Type 0
  Rises [] = Unit
  Rises (t ∷ []) = Unit
  Rises (t ∷ u ∷ ts) = (n.le t u ≡ true) × Rises (u ∷ ts)

  -- `sort_values(by=["time"])`: the same rows, as often, by rising time.
  abbrev pub Sorts : (List (LogRow F) → List (LogRow F)) → Type ℓ
  Sorts sort_by_time =
      ((p : LogRow F → Bool) (df : List (LogRow F)) → count p (sort_by_time df) ≡ count p df)
      × ((df : List (LogRow F)) → Rises (map (λ r. r.time) (sort_by_time df)))

  abbrev pub InRange : F → F → F → Type 0
  InRange begin end t = (n.le begin t ≡ true) × (n.le t end ≡ true)

  -- By rising time, points of the range only, and each point of the range as often as the rows hold it:
  -- a test that only points of the range pass is passed by as many points as rows.
  abbrev pub IsCurve : F → F → List (LogRow F) → List (F × F) → Type ℓ
  IsCurve begin end rows points =
      Rises (map (λ p. p.0) points)
      × All (λ p. InRange begin end p.0) points
      × ((test : F × F → Bool)
          → ((p : F × F) → test p ≡ true → InRange begin end p.0)
          → count test points ≡ count (λ r. test (point r)) rows)

  times-points : (rows : List (LogRow F)) → map (λ p. p.0) (map point rows) ≡ map (λ r. r.time) rows
  times-points [] = refl
  times-points (r ∷ rows) = ap (λ ts. r.time ∷ ts) (times-points rows)

  module _ (sort_by_time : List (LogRow F) → List (LogRow F)) (sorts : Sorts sort_by_time) where
    pub filter_times-IsCurve :
        (rows : List (LogRow F)) (begin end : F)
        → IsCurve begin end rows (map point (filter_times sort_by_time rows begin end))
    unfolding filter_times
    filter_times-IsCurve rows begin end =
        let inside : LogRow F → Bool = λ r. n.le begin r.time && n.le r.time end in
        let kept = keep inside rows in
        (
          rw times-points (sorts.1 kept),
          map-All point (λ p. InRange begin end p.0) (sort_by_time kept)
              (All-map (λ r. inside r ≡ true) (λ r. InRange begin end r.time)
                (λ r h. (ground (arith, h), ground (arith, h))) (sort_by_time kept)
                (count-none inside (sort_by_time kept)
                  (sorts.0 (λ r. not (inside r)) kept ∙ count-keep-not inside rows))),
          λ test ranged.
              count-map point test (sort_by_time kept)
              ∙ sorts.0 (λ r. test (point r)) kept
              ∙ count-keep inside (λ r. test (point r)) rows
                  (λ r h. ground (arith, ranged (point r) h)),
        )
