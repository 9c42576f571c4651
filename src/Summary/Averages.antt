-- ===== src/Summary/Averages.antt =====
-- When the averages around handovers exist.
use emulator_test.Prelude.{
  ◌≡◌, ◌≢◌, refl, ap, ◌⊎◌, inl, inr, List, [], ◌∷◌, All, length, suc, Result, ok, raised,
  zero_division,
}
use emulator_test.Number.{Number, number, IsFaithful, divide}
use emulator_test.Iperf.{sum_from, mean}
use emulator_test.Iperf.Window.{zip, seconds, in_window, filter_time_range-eq}
use emulator_test.Summary.{calculate_ho_thuput}

nil_or_not {κ} : {A : Type κ} (xs : List A) → (xs ≡ []) ⊎ (xs ≢ [])
nil_or_not [] = inl refl
nil_or_not (x ∷ xs) = inr (λ e. cc)

module _ {ℓ} {F : Type ℓ} ⦃n : Number F⦄ (laws : IsFaithful F) where
  mean_ok : (xs : List F) → xs ≢ [] → (a : F) × (mean xs ≡ ok a)
  unfolding mean divide
  mean_ok [] h = absurd (h refl)
  mean_ok (x ∷ xs) h = (
    n.over (sum_from (number 0) (x ∷ xs)) (number (suc (length xs))),
    rw (laws.suc_ne (length xs)) refl,
  )

  mean_nil : mean {F = F} [] ≡ raised zero_division
  unfolding mean divide
  mean_nil = rw laws.zero_eq refl

  -- The samples of a window around a time.
  abbrev pub near : List F → List F → F → F → List F
  near times thuput windowsz t =
      seconds (in_window (n.minus t windowsz) (n.plus t windowsz) (zip times thuput))

  -- One mean for each handover, or none at all for want of samples around one of them.
  abbrev pub HasMeans : List F → List F → List F → F → Result (List F) → Type ℓ
  HasMeans ho_times times thuput windowsz r =
      (All (λ t. near times thuput windowsz t ≢ []) ho_times
        × (avgs : List F) × (r ≡ ok avgs)
        × (length avgs ≡ length ho_times))
      ⊎ ((All (λ t. near times thuput windowsz t ≢ []) ho_times → ⊥) × (r ≡ raised zero_division))

  -- `calculate_ho_thuput` returns one mean for each handover when each has a sample from `windowsz`
  -- before it to `windowsz` after it, and else raises ZeroDivisionError.
  pub calculate_ho_thuput_lem :
      (ho_times times thuput : List F) (windowsz : F)
      → HasMeans ho_times times thuput windowsz (calculate_ho_thuput ho_times times thuput windowsz)
  unfolding calculate_ho_thuput
  calculate_ho_thuput_lem [] times thuput windowsz = inl (tt, [], refl, refl)
  calculate_ho_thuput_lem (t ∷ ts) times thuput windowsz =
      rw (filter_time_range-eq times thuput (n.minus t windowsz) (n.plus t windowsz))
        (elim (nil_or_not (near times thuput windowsz t)) [
          | inl none_near ↦ inr ((λ h. h.0 none_near), rw none_near (rw mean_nil refl))
          | inr some_near ↦
              let (a, e) = mean_ok (near times thuput windowsz t) some_near in
              elim (calculate_ho_thuput_lem ts times thuput windowsz) [
                | inl (all, avgs, rest, size) ↦
                    inl ((some_near, all), a ∷ avgs, rw e (rw rest refl), ap suc size)
                | inr (not_all, rest) ↦ inr ((λ h. not_all h.1), rw e (rw rest refl))
              ]
        ])
