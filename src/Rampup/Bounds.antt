-- ===== src/Rampup/Bounds.antt =====
-- The outcome of `calculate_rampup_time` away from NaN.
use emulator_test.Prelude.{
  ℕ, suc, ◌≤◌, ◌<◌, ◌≡◌, refl, sym, ◌∙◌, ap, inl, inr, true, false, List, [], ◌∷◌, drop,
  get_elem?-lt, length-drop-le, length, All, Option, none, some, arith, Bool-cases, if◌then◌else◌,
  ok, returned, ok-injective,
}
use emulator_test.Number.{Number, IsOrdered, number}
use emulator_test.Closest.{closest_index, find_closest_indices}
use emulator_test.Rampup.{
  Rampup, ramp_loop, measured, measure, measures, max_from, substitute, settle, report,
  calculate_rampup_time,
}

module _ {ℓ} {F : Type ℓ} ⦃n : Number F⦄ where
  ramp_loop_total :
      (start stable thresh ramp : F) (ts xs : List F)
      → length ts ≤ length xs
      → (found : Option F) × (ramp_loop start stable thresh ramp ts xs ≡ ok found)
  unfolding ramp_loop
  ramp_loop_total start stable thresh ramp [] xs h = (none, refl)
  ramp_loop_total start stable thresh ramp (t ∷ ts) [] h = absurd (omega arith)
  ramp_loop_total start stable thresh ramp (t ∷ ts) (x ∷ xs) h =
      let (found, ran) =
        ramp_loop_total start stable thresh (n.minus t start) ts xs (omega arith) in
      elim (Bool-cases (n.lt ramp thresh)) [
        | inl early ↦ elim (Bool-cases (n.le stable x)) [
          | inl full ↦ (some (n.minus t start), rw (early, full) refl)
          | inr slow ↦ (found, rw (early, slow) ran)
        ]
        | inr late ↦ (none, rw late refl)
      ]

  pub measure_total :
      (ts xs : List F) (stable thresh : F) (i : ℕ) (start : F)
      → length ts ≤ length xs
      → (r : F) × (measure ts xs stable thresh i start ≡ ok r)
  unfolding measure
  measure_total ts xs stable thresh i start h =
      let (found, ran) =
        ramp_loop_total start stable thresh (number 0) (drop i ts) (drop i xs)
          (length-drop-le i ts xs h) in
      (measured found, rw ran refl)

  -- Every index is that of a sample, and the last one has a sample after it.
  abbrev pub InRange : List F → List ℕ → Type 0
  InRange ts [] = ⊥
  InRange ts (i ∷ []) = suc i < length ts
  InRange ts (i ∷ j ∷ is) = (i < length ts) × InRange ts (j ∷ is)

  measures_total :
      (ts xs : List F) (stable thresh : F) (is : List ℕ)
      → length ts ≤ length xs
      → InRange ts is
      → (r : F) × (rs : List F) × (measures ts xs stable thresh is ≡ ok (r ∷ rs))
        × (length (r ∷ rs) ≡ length is)
  unfolding measures
  measures_total ts xs stable thresh [] h range = elim range [ ]
  measures_total ts xs stable thresh (i ∷ []) h range =
      let (start, at) = get_elem?-lt ts (suc i) range in
      let (r, ran) = measure_total ts xs stable thresh i start h in (r, [], rw (at, ran) refl, refl)
  measures_total ts xs stable thresh (i ∷ j ∷ is) h range =
      let (start, at) = get_elem?-lt ts i range.0 in
      let (r, ran) = measure_total ts xs stable thresh i start h in
      let (r', rs, rest, len) = measures_total ts xs stable thresh (j ∷ is) h range.1 in
      (r, r' ∷ rs, rw (at, ran, rest) refl, ap suc len)

  length-settle :
      (most : F) (random : ℕ → F) (k : ℕ) (rs : List F)
      → length (settle most random k rs) ≡ length rs
  unfolding settle
  length-settle most random k [] = refl
  length-settle most random k (t ∷ rs) =
      ap suc (length-settle most random (if n.eq t (number 0) then suc k else k) rs)

  length-find_closest_indices :
      (los bs : List F) (is : List ℕ) → find_closest_indices los bs ≡ ok is → length is ≡ length los
  unfolding find_closest_indices
  length-find_closest_indices [] bs is h = ap length (sym (ok-injective [] is h))
  length-find_closest_indices (a ∷ los) bs is h =
      let (i, h', found) = returned _ (closest_index bs a) h in
      let (is', e, rest) = returned _ (find_closest_indices los bs) h' in
      ap length (sym (ok-injective (i ∷ is') is e))
      ∙ ap suc (length-find_closest_indices los bs is' rest)

  pub calculate-eq :
      (ho_times ts xs : List F) (stable thresh most : F) (random : ℕ → F) (is : List ℕ)
      (rs : List F)
      → find_closest_indices ho_times ts ≡ ok is
      → measures ts xs stable thresh is ≡ ok rs
      → substitute thresh rs ≡ ok most
      → calculate_rampup_time ho_times ts xs stable thresh random ≡ ok (report most random is rs)
  unfolding calculate_rampup_time
  calculate-eq ho_times ts xs stable thresh most random is rs closest ran stood_in =
      rw (closest, ran, stood_in) refl

module _ {ℓ} {F : Type ℓ} ⦃n : Number F⦄ (laws : IsOrdered F) (random : ℕ → F) where
  -- `random.random()` is not negative: what is added to a time that is zero leaves it so.
  abbrev pub Lifts : Type ℓ
  Lifts =
      (k : ℕ) (t : F)
      → n.eq t (number 0) ≡ true
      → n.lt (n.plus t (n.plus (random k) n.half)) (number 0) ≡ false

  settle_nonneg :
      (most : F) (k : ℕ) (rs : List F)
      → Lifts
      → n.lt most (number 0) ≡ false
      → All (λ t. n.lt t (number 0) ≡ false) (settle most random k rs)
  unfolding settle
  settle_nonneg most k [] lifts h = tt
  settle_nonneg most k (t ∷ rs) lifts h = (
    ground (
      arith,
      lifts k t,
      laws.lt-eq-not-le t (number 0),
      laws.eq_symm t (number 0),
      laws.eq-le (number 0) t,
    ),
    settle_nonneg most (if n.eq t (number 0) then suc k else k) rs lifts h,
  )

  substitute_nonneg :
      (thresh r : F) (rs : List F)
      → n.lt thresh (number 0) ≡ false
      → (most : F) × (substitute thresh (r ∷ rs) ≡ ok most) × (n.lt most (number 0) ≡ false)
  unfolding substitute
  substitute_nonneg thresh r rs h = elim (Bool-cases (n.lt (max_from r rs) (number 0))) [
    | inl none_done ↦ (thresh, rw none_done refl, h)
    | inr some_done ↦ (max_from r rs, rw some_done refl, some_done)
  ]

  -- Away from NaN, with a throughput for each sample, a threshold that is not negative, and a sample
  -- after the one that is closest to the last handover, `calculate_rampup_time` returns: one time for
  -- each handover, none of them negative.
  pub calculate_rampup_time_lem :
      (ho_times ts xs : List F) (stable thresh : F) (is : List ℕ)
      → length ts ≤ length xs
      → find_closest_indices ho_times ts ≡ ok is
      → InRange ts is
      → n.lt thresh (number 0) ≡ false
      → Lifts
      → (r : Rampup F) × (calculate_rampup_time ho_times ts xs stable thresh random ≡ ok r)
        × (length r.times ≡ length ho_times)
        × (r.handovers ≡ length ho_times)
        × All (λ t. n.lt t (number 0) ≡ false) r.times
  unfolding report
  calculate_rampup_time_lem ho_times ts xs stable thresh is h closest range pos_thresh lifts =
      let (r, rs, ran, len) = measures_total ts xs stable thresh is h range in
      let (most, stood_in, up) = substitute_nonneg thresh r rs pos_thresh in
      let len' = length-find_closest_indices ho_times ts is closest in
      (
        report most random is (r ∷ rs),
        calculate-eq ho_times ts xs stable thresh most random is (r ∷ rs) closest ran stood_in,
        length-settle most random 0 (r ∷ rs) ∙ len ∙ len',
        len',
        settle_nonneg most 0 (r ∷ rs) lifts up,
      )
