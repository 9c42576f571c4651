-- ===== src/Loss.antt =====
-- scripts/processing/plot_loss.py: the distribution of the losses that each variant of TCP mitigates. `round` is
-- an argument. A decimal with three places is the quotient of its thousandths, which is the float that the
-- literal stands for.
pub mod Cumulative
use emulator_test.Prelude.{ℕ, zero, suc, List, [], ◌∷◌, map}
use emulator_test.Prelude.Int.{ℤ, pos, ◌+ℤ◌}
use emulator_test.Number.{Number, number}
use emulator_test.Text.{Text, codes}

-- `sum(d)`
unfoldable pub sum_of : List ℤ → ℤ
sum_of [] = pos 0
sum_of (x ∷ xs) = x +ℤ sum_of xs

-- `np.cumsum(d)`, behind the sum of what precedes.
cumsum : ℤ → List ℤ → List ℤ
cumsum before [] = []
cumsum before (x ∷ xs) = (before +ℤ x) ∷ cumsum (before +ℤ x) xs

-- The points that `range(len(d))` gives a curve.
pub numbered {ℓ} : {F : Type ℓ} → ℕ → List F → List (ℕ × F)
numbered i [] = []
numbered i (y ∷ ys) = (i, y) ∷ numbered (suc i) ys

module _ {ℓ} {F : Type ℓ} ⦃n : Number F⦄ where
  unfoldable pub thousandths : ℕ → F
  thousandths k = n.over (number k) (number 1000)

  -- `cumulative_frequencies / total_tests`, where numpy divides by zero without raising
  unfoldable pub cdf : List ℤ → List F
  unfolding cumsum sum_of
  cdf d = map (λ c. n.over (n.of_ℤ c) (n.of_ℤ (sum_of d))) (cumsum (pos 0) d)

  module _ (round : F → ℤ) where
    -- `d`, of `total_hos` handovers
    unfoldable pub counts : F → F → F → List ℤ
    counts ones twos zeros =
        let more = n.minus (n.minus (n.minus (number 1) ones) twos) zeros in
        round (n.times (number 1249) zeros)
        ∷ round (n.times (number 1249) ones)
        ∷ round (n.times (number 1249) twos)
        ∷ round (n.times (number 1249) more)
        ∷ []

    pub variant : ℕ → ℕ → ℕ → List F
    unfolding thousandths
    variant ones twos zeros = cdf (counts (thousandths ones) (thousandths twos) (thousandths zeros))

    -- `algos` and `cdfs`
    loss_cdfs : List (Text × List F)
    unfolding variant
    loss_cdfs =
        (codes "CUBIC", variant 18 6 973)
        ∷ (codes "Reno", variant 11 8 980)
        ∷ (codes "Highspeed", variant 25 10 960)
        ∷ (codes "BIC", variant 23 30 940)
        ∷ (codes "H-TCP", variant 20 5 970)
        ∷ []

    -- What is plotted.
    pub loss_curves : List (Text × List (ℕ × F))
    unfolding loss_cdfs numbered
    loss_curves = map (λ (algo, ys). (algo, numbered 0 ys)) loss_cdfs
