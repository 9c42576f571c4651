-- ===== src/Closest/Nearest.antt =====
-- The search for the closest sample, `find_closest_indices` of scripts/processing/metrics.py.
use emulator_test.Prelude.{
  ℕ, zero, suc, ◌<◌, ◌≡◌, ◌≢◌, refl, sym, ◌∙◌, ◌⊎◌, inl, inr, true, false, List, [], ◌∷◌, map,
  get_elem?, some, All, arith, Bool-cases, ok,
}
use mathlib.Core.Bool.{false≢true}
use mathlib.Core.Option.{some-injective}
use mathlib.Core.Path.{subst}
use emulator_test.Number.{Number, IsOrdered}
use emulator_test.Closest.{distance, min_from, minimum, index_of, closest_index}

module _ {ℓ} {F : Type ℓ} ⦃n : Number F⦄ where
  -- `m` is at most every element.
  abbrev pub Below : F → List F → Type 0
  Below m = All (λ x. n.le m x ≡ true)

  -- No element before place `i` equals `m`, and the one there does.
  abbrev FirstAt : F → List F → ℕ → Type 0
  FirstAt m [] i = ⊥
  FirstAt m (x ∷ xs) zero = n.eq x m ≡ true
  FirstAt m (x ∷ xs) (suc i) = (n.eq x m ≡ false) × FirstAt m xs i

  -- One round of `min`, on either branch.
  min_from-lt : (m x : F) (xs : List F) → n.lt x m ≡ true → min_from m (x ∷ xs) ≡ min_from x xs
  unfolding min_from
  min_from-lt m x xs h = rw h

  min_from-ge : (m x : F) (xs : List F) → n.lt x m ≡ false → min_from m (x ∷ xs) ≡ min_from m xs
  unfolding min_from
  min_from-ge m x xs h = rw h

module _ {ℓ} {F : Type ℓ} ⦃n : Number F⦄ (laws : IsOrdered F) where
  Below-le : (m k : F) (xs : List F) → n.le k m ≡ true → Below m xs → Below k xs
  Below-le m k [] h b = tt
  Below-le m k (x ∷ xs) h b = (laws.le_trans k m x h b.0, Below-le m k xs h b.1)

  -- The running minimum is at most where it began and at most everything it met.
  min_from-Below :
      (m : F) (xs : List F) → (n.le (min_from m xs) m ≡ true) × Below (min_from m xs) xs
  unfolding min_from
  min_from-Below m [] = (laws.le_refl m, tt)
  min_from-Below m (x ∷ xs) = elim (Bool-cases (n.lt x m)) [
    | inl less ↦
        let (low, rest) = min_from-Below x xs in
        subst (λ k. (n.le k m ≡ true) × Below k (x ∷ xs)) (sym (min_from-lt m x xs less))
          (
            ground (
              arith,
              less,
              low,
              laws.lt-eq-not-le x m,
              laws.le_total x m,
              laws.le_trans (min_from x xs) x m,
            ),
            (low, rest),
          )
    | inr more ↦
        let (low, rest) = min_from-Below m xs in
        subst (λ k. (n.le k m ≡ true) × Below k (x ∷ xs)) (sym (min_from-ge m x xs more))
          (
            low,
            (
              ground (arith, more, low, laws.lt-eq-not-le x m, laws.le_trans (min_from m xs) m x),
              rest,
            ),
          )
  ]

module _ {ℓ} {F : Type ℓ} ⦃n : Number F⦄ where
  abbrev Occurs : F → List F → Type ℓ
  Occurs k [] = k ≢ k
  Occurs k (x ∷ xs) = (x ≡ k) ⊎ Occurs k xs

  min_from-Occurs : (m : F) (xs : List F) → Occurs (min_from m xs) (m ∷ xs)
  unfolding min_from
  min_from-Occurs m [] = inl refl
  min_from-Occurs m (x ∷ xs) = elim (Bool-cases (n.lt x m)) [
    | inl less ↦
        subst (λ k. Occurs k (m ∷ x ∷ xs)) (sym (min_from-lt m x xs less))
          (inr (min_from-Occurs x xs))
    | inr more ↦
        subst (λ k. Occurs k (m ∷ x ∷ xs)) (sym (min_from-ge m x xs more))
          (elim (min_from-Occurs m xs) [ inl e ↦ inl e | inr o ↦ inr (inr o) ])
  ]

module _ {ℓ} {F : Type ℓ} ⦃n : Number F⦄ (laws : IsOrdered F) where
  index_of_total :
      (k : F) (xs : List F) → Occurs k xs → (i : ℕ) × (index_of k xs ≡ ok i) × FirstAt k xs i
  unfolding index_of
  index_of_total k [] o = absurd (o refl)
  index_of_total k (x ∷ xs) o = elim (Bool-cases (n.eq x k)) [
    | inl same ↦ (zero, rw same refl, same)
    | inr other ↦
        let (i, found, first) = index_of_total k xs (elim o [
          | inl e ↦ absurd (false≢true (sym other ∙ rw e (laws.eq_refl k)))
          | inr o' ↦ o'
        ]) in
        (suc i, rw (other, found) refl, (other, first))
  ]

  -- The element at the first place of the least distance is nearer than all before it.
  nearest_at :
      (d : F → F) (k : F) (bs : List F) (i : ℕ)
      → FirstAt k (map d bs) i
      → Below k (map d bs)
      → (c : F) × (get_elem? bs i ≡ some c)
        × (n.le (d c) k ≡ true)
        × ((j : ℕ) (x : F) → j < i → get_elem? bs j ≡ some x → n.lt (d c) (d x) ≡ true)
  nearest_at d k [] i f b = elim f [ ]
  nearest_at d k (x ∷ bs) zero f b = (x, refl, laws.eq-le (d x) k f, λ j y h e. elim h [ ])
  nearest_at d k (x ∷ bs) (suc i) f b =
      let (c, at, low, before) = nearest_at d k bs i f.1 b.1 in
      (
        c,
        at,
        low,
        elim [
          | zero ↦ λ y h e.
              subst (λ z. n.lt (d c) (d z) ≡ true) (some-injective x y e)
                (ground (
                  arith,
                  f.0,
                  laws.lt-eq-not-le (d c) (d x),
                  laws.le_trans (d x) (d c) k,
                  laws.eq_of_le (d x) k,
                  b.0,
                ))
          | suc j ↦ λ y h e. before j y (omega arith) e
        ],
      )

  Below-map :
      (d : F → F) (k m : F) (bs : List F)
      → n.le m k ≡ true
      → Below k (map d bs)
      → All (λ x. n.le m (d x) ≡ true) bs
  Below-map d k m [] h b = tt
  Below-map d k m (x ∷ bs) h b = (laws.le_trans m k (d x) h b.0, Below-map d k m bs h b.1)

  -- Away from NaN and with a list to search, `find_closest_indices` finds for a value the place of an
  -- element that is nowhere farther from the value than any other, and nearer than all that stand
  -- before it.
  pub closest_index_lem :
      (b : F) (bs : List F) (value : F)
      → (i : ℕ) × (c : F) × (closest_index (b ∷ bs) value ≡ ok i)
        × (get_elem? (b ∷ bs) i ≡ some c)
        × All (λ x. n.le (distance value c) (distance value x) ≡ true) (b ∷ bs)
        × ((j : ℕ) (x : F)
            → j < i
            → get_elem? (b ∷ bs) j ≡ some x
            → n.lt (distance value c) (distance value x) ≡ true)
  unfolding closest_index minimum
  closest_index_lem b bs value =
      let d = distance value in
      let k = min_from (d b) (map d bs) in
      let below = min_from-Below laws (d b) (map d bs) in
      let (i, found, first) =
        index_of_total k (map d (b ∷ bs)) (min_from-Occurs (d b) (map d bs)) in
      let (c, at, low, before) = nearest_at d k (b ∷ bs) i first below in
      (i, c, rw found refl, at, Below-map d k (d c) (b ∷ bs) low below, before)
