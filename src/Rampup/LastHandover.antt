-- ===== src/Rampup/LastHandover.antt =====
-- The last handover is measured by other code than the rest, which reads one sample further.
use emulator_test.Prelude.{
  ℕ, suc, ◌≤◌, ◌≡◌, refl, List, [], ◌∷◌, get_elem?, get_elem?-ge, length, arith, Option-cases, inl,
  inr, ok, raised, index_error,
}
use emulator_test.Number.{Number}
use emulator_test.Closest.{find_closest_indices}
use emulator_test.Rampup.{measures, calculate_rampup_time}
use emulator_test.Rampup.Bounds.{measure_total}

-- The last of the indices is `m`.
abbrev pub EndsWith : ℕ → List ℕ → Type 0
EndsWith m [] = ⊥
EndsWith m (i ∷ []) = i ≡ m
EndsWith m (i ∷ j ∷ is) = EndsWith m (j ∷ is)

module _ {ℓ} {F : Type ℓ} ⦃n : Number F⦄ where
  measures_fail :
      (ts xs : List F) (stable thresh : F) (m : ℕ) (is : List ℕ)
      → length ts ≤ length xs
      → EndsWith m is
      → length ts ≤ suc m
      → measures ts xs stable thresh is ≡ raised index_error
  unfolding measures
  measures_fail ts xs stable thresh m [] h e last = elim e [ ]
  measures_fail ts xs stable thresh m (i ∷ []) h e last =
      rw (get_elem?-ge ts (suc i) (omega arith)) refl
  measures_fail ts xs stable thresh m (i ∷ j ∷ is) h e last = elim (Option-cases (get_elem? ts i)) [
    | inl absent ↦ rw absent refl
    | inr (start, at) ↦
        let (r, ran) = measure_total ts xs stable thresh i start h in
        rw (at, ran, measures_fail ts xs stable thresh m (j ∷ is) h e last) refl
  ]

  -- With a throughput for each sample, `calculate_rampup_time` raises IndexError whenever the sample
  -- closest to the last handover is the last sample.
  pub calculate_rampup_time_raises :
      (ho_times ts xs : List F) (stable thresh : F) (random : ℕ → F) (m : ℕ) (is : List ℕ)
      → length ts ≤ length xs
      → find_closest_indices ho_times ts ≡ ok is
      → EndsWith m is
      → suc m ≡ length ts
      → calculate_rampup_time ho_times ts xs stable thresh random ≡ raised index_error
  unfolding calculate_rampup_time
  calculate_rampup_time_raises ho_times ts xs stable thresh random m is h closest e last =
      rw (closest, measures_fail ts xs stable thresh m is h e (omega arith)) refl
