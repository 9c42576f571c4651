-- ===== src/Jitter/Arrival.antt =====
-- The script compute-iat.py, which walks over the arrival times by index.
use emulator_test.Prelude.{
  ℕ, suc, true, ◌-◌, ◌≡◌, refl, ap, List, [], ◌∷◌, map, length, drop, drop-cons, ok, raised,
  value_error, arith, ◌==◌,
}
use emulator_test.Number.{Number, number}
use emulator_test.Jitter.{smooth, iat_loop, iat_jitter_loop, arrival_columns}
use emulator_test.Jitter.Rfc.{rfc_estimates}

suc_sub : (i : ℕ) → suc i - 1 ≡ i
suc_sub i = omega arith

suc_same : (i : ℕ) → (suc i == suc i) ≡ true
suc_same i = ground arith

module _ {ℓ} {F : Type ℓ} ⦃n : Number F⦄ where
  -- The times between an arrival and the ones behind it, in milliseconds.
  abbrev pub gaps : F → List F → List F
  gaps prev [] = []
  gaps prev (t ∷ ts) = n.times (n.minus t prev) (number 1000) ∷ gaps t ts

  iat_loop-gaps :
      (ts : List F) (i : ℕ) (t : F) (times : List F)
      → drop i times ≡ t ∷ ts
      → iat_loop (length ts) (suc i) times ≡ ok (gaps t ts)
  unfolding iat_loop
  iat_loop-gaps [] i t times h = refl
  iat_loop-gaps (u ∷ ts) i t times h =
      let (at, behind) = drop-cons i times t (u ∷ ts) h in
      rw (drop-cons (suc i) times u ts behind).0
        (rw (suc_sub i) (rw at (rw (iat_loop-gaps ts (suc i) u times behind) refl)))

  iat_jitter_loop-rfc :
      (ts : List F) (i : ℕ) (j t : F) (iat : List F)
      → drop i iat ≡ t ∷ ts
      → iat_jitter_loop (length ts) (suc i) j iat ≡ ok (rfc_estimates j t ts)
  unfolding iat_jitter_loop smooth
  iat_jitter_loop-rfc [] i j t iat h = refl
  iat_jitter_loop-rfc (u ∷ ts) i j t iat h =
      let (at, behind) = drop-cons i iat t (u ∷ ts) h in
      rw (drop-cons (suc i) iat u ts behind).0 (
        rw (suc_sub i)
          (rw at (rw (iat_jitter_loop-rfc ts (suc i) (smooth j t u) u iat behind) refl)))

  length-gaps : (t : F) (ts : List F) → length (gaps t ts) ≡ length ts
  length-gaps t [] = refl
  length-gaps t (u ∷ ts) = ap suc (length-gaps u ts)

  -- From at least one arrival time, the columns of the output are the times in milliseconds, 0 and
  -- the times between neighbours in milliseconds, and 0 and the estimates of RFC 3550 over the second
  -- column; no index is out of range.
  pub arrival_columns-eq :
      (t : F) (ts : List F)
      → arrival_columns (t ∷ ts)
        ≡ ok (
          map (λ s. n.times s (number 1000)) (t ∷ ts),
          number 0 ∷ gaps t ts,
          number 0 ∷ rfc_estimates (number 0) (number 0) (gaps t ts),
        )
  unfolding arrival_columns
  arrival_columns-eq t ts =
      rw (suc_sub (length ts), length)
        (rw (iat_loop-gaps ts 0 t (t ∷ ts) refl) (
          rw (suc_sub (length (gaps t ts)), length)
            (rw
              (iat_jitter_loop-rfc (gaps t ts) 0 (number 0) (number 0) (number 0 ∷ gaps t ts) refl)
              (rw (length-gaps t ts) (rw (suc_same (length ts)) refl)))))

  no_arrivals : arrival_columns {F = F} [] ≡ raised value_error
  unfolding arrival_columns iat_loop iat_jitter_loop
  no_arrivals = refl
