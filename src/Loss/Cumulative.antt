-- ===== src/Loss/Cumulative.antt =====
-- The curves of plot_loss.py as distributions.
use mathlib.Core.Path.{subst}
use emulator_test.Prelude.{ℕ, ◌≡◌, ap, ◌∙◌, List, [], ◌∷◌, All}
use emulator_test.Prelude.Int.{ℤ, pos, ◌+ℤ◌, ◌≤ℤ◌, int_laws, eq_of_parts}
use emulator_test.Number.{Number, number}
use emulator_test.Loss.{sum_of, cumsum, numbered, thousandths, cdf, counts, variant}

pub IsAscending : ℤ → List ℤ → Type 0
IsAscending low [] = Unit
IsAscending low (x ∷ xs) = (low ≤ℤ x) × IsAscending x xs

pub last_or : ℤ → List ℤ → ℤ
last_or low [] = low
last_or low (x ∷ xs) = last_or x xs

cumsum-IsAscending :
    (before : ℤ) (d : List ℤ) → All (λ c. pos 0 ≤ℤ c) d → IsAscending before (cumsum before d)
unfolding cumsum IsAscending
cumsum-IsAscending before [] h = tt
cumsum-IsAscending before (x ∷ xs) (here, h) =
    (omega int_laws, cumsum-IsAscending (before +ℤ x) xs h)

+ℤ_assoc : (a b c : ℤ) → a +ℤ b +ℤ c ≡ a +ℤ (b +ℤ c)
+ℤ_assoc a b c = eq_of_parts _ _ (omega int_laws)

+ℤ_zero : (a : ℤ) → a ≡ a +ℤ pos 0
+ℤ_zero a = eq_of_parts _ _ (omega int_laws)

cumsum-last : (before : ℤ) (d : List ℤ) → last_or before (cumsum before d) ≡ before +ℤ sum_of d
unfolding cumsum last_or sum_of
cumsum-last before [] = +ℤ_zero before
cumsum-last before (x ∷ xs) = cumsum-last (before +ℤ x) xs ∙ +ℤ_assoc before x (sum_of xs)

zero_+ℤ : (a : ℤ) → pos 0 +ℤ a ≡ a
zero_+ℤ a = eq_of_parts _ _ (omega int_laws)

module _ {ℓ} {F : Type ℓ} ⦃n : Number F⦄ (round : F → ℤ) where
  unfoldable pub variant_counts : (ones twos zeros : ℕ) → List ℤ
  variant_counts ones twos zeros =
      counts round (thousandths ones) (thousandths twos) (thousandths zeros)

  pub variant_total : (ones twos zeros : ℕ) → ℤ
  variant_total ones twos zeros = sum_of (variant_counts ones twos zeros)

  -- A number of handovers as a share of a variant's total.
  pub share : (ones twos zeros : ℕ) → ℤ → F
  share ones twos zeros k = n.over (n.of_ℤ k) (n.of_ℤ (variant_total ones twos zeros))

  -- Where a variant's four counts are not negative, its curve stands at 0, 1, 2 and 3 losses, and its values
  -- are the shares of ascending numbers of handovers, the last of which is the total.
  pub variant_lem :
      (ones twos zeros : ℕ)
      → All (λ c. pos 0 ≤ℤ c) (variant_counts ones twos zeros)
      → (a : ℤ) × (b : ℤ) × (c : ℤ) × (numbered 0 (variant round ones twos zeros)
          ≡ (0, share ones twos zeros a)
            ∷ (1, share ones twos zeros b)
            ∷ (2, share ones twos zeros c)
            ∷ (3, share ones twos zeros (variant_total ones twos zeros))
            ∷ [])
        × (pos 0 ≤ℤ a)
        × (a ≤ℤ b)
        × (b ≤ℤ c)
        × (c ≤ℤ variant_total ones twos zeros)
  unfolding variant cdf counts cumsum numbered variant_counts variant_total share last_or
      IsAscending
  variant_lem ones twos zeros h =
      let d = variant_counts ones twos zeros in
      let hos : F → ℤ = λ part. round (n.times (number 1249) part) in
      let a = pos 0 +ℤ hos (thousandths zeros) in
      let b = a +ℤ hos (thousandths ones) in
      let c = b +ℤ hos (thousandths twos) in
      let (l0, (l1, (l2, (l3, done)))) = cumsum-IsAscending (pos 0) d h in
      let total = cumsum-last (pos 0) d ∙ zero_+ℤ (sum_of d) in
      let part = share ones twos zeros in
      (
        a,
        b,
        c,
        ap (λ e. (0, part a) ∷ (1, part b) ∷ (2, part c) ∷ (3, part e) ∷ []) total,
        l0,
        l1,
        l2,
        subst (λ e. c ≤ℤ e) total l3,
      )
