-- ===== src/Rampup/Stable.antt =====
-- What the loops of `calculate_rampup_time` measure, and what becomes of it, against the samples.
use emulator_test.Prelude.{
  ℕ, zero, suc, ◌≤◌, ◌<◌, ◌≡◌, refl, ◌⊎◌, inl, inr, true, false, List, [], ◌∷◌, drop, get_elem?,
  get_elem?-lt, length-drop-le, length, count, none, some, Option, arith, Bool, Bool-cases,
  if◌then◌else◌, ok,
}
use emulator_test.Prelude.Int.{negsuc}
use emulator_test.Number.{Number, number}
use emulator_test.Closest.{find_closest_indices}
use emulator_test.Rampup.{
  Rampup, ramp_loop, measured, measure, measures, max_from, substitute, settle, tally, report,
  calculate_rampup_time,
}
use emulator_test.Rampup.Bounds.{InRange, calculate-eq}

-- Two lists of different lengths
pub data Mismatch {ℓ} : Type ℓ where

module _ {ℓ} {F : Type ℓ} ⦃n : Number F⦄ where
  -- A time that is neither negative nor zero is returned as it was measured.
  abbrev pub Keeps : List F → List F → Type ℓ
  Keeps [] [] = Unit
  Keeps (r ∷ rs) (t ∷ ts) =
      (n.lt r (number 0) ≡ false → n.eq r (number 0) ≡ false → t ≡ r) × Keeps rs ts
  Keeps rs ts = Mismatch

  settle-Keeps :
      (most : F) (random : ℕ → F) (k : ℕ) (rs : List F) → Keeps rs (settle most random k rs)
  unfolding settle
  settle-Keeps most random k [] = tt
  settle-Keeps most random k (r ∷ rs) = (
    λ done slow. rw (done, slow) refl,
    settle-Keeps most random (if n.eq r (number 0) then suc k else k) rs,
  )

  tally-count :
      (test : F → F → Bool) (rs : List F) → tally test rs ≡ count (λ r. test r (number 0)) rs
  unfolding tally
  tally-count test [] = refl
  tally-count test (r ∷ rs) = ground (arith, tally-count test rs)

module _ {ℓ} {F : Type ℓ} ⦃n : Number F⦄ (stable thresh : F) where
  -- Before the sample `k`, all are below the stable throughput and less than `thresh` after `start`.
  abbrev pub Climbs : F → List F → List F → ℕ → Type ℓ
  Climbs start ts xs k =
      (j : ℕ) (u y : F)
      → j < k
      → get_elem? ts j ≡ some u
      → get_elem? xs j ≡ some y
      → (n.lt (n.minus u start) thresh ≡ true) × (n.le stable y ≡ false)

  -- Before each stable sample there is one that is `thresh` or more after `start`.
  abbrev pub TooLate : F → List F → List F → Type ℓ
  TooLate start ts xs =
      (k : ℕ) (t x : F)
      → get_elem? ts k ≡ some t
      → get_elem? xs k ≡ some x
      → n.le stable x ≡ true
      → (j : ℕ) × (u : F) × (j < k)
        × (get_elem? ts j ≡ some u)
        × (n.lt (n.minus u start) thresh ≡ false)

  -- The time from `start` to the first stable sample, or -1 where that comes too late.
  abbrev pub IsRampup : F → List F → List F → F → Type ℓ
  IsRampup start ts xs r =
      ((k : ℕ) × (t : F) × (x : F) × (get_elem? ts k ≡ some t)
        × (get_elem? xs k ≡ some x)
        × (n.le stable x ≡ true)
        × Climbs start ts xs k
        × (r ≡ n.minus t start))
      ⊎ ((r ≡ n.of_ℤ (negsuc 0)) × TooLate start ts xs)

  Climbs-cons :
      (start t x : F) (ts xs : List F) (k : ℕ)
      → n.lt (n.minus t start) thresh ≡ true
      → n.le stable x ≡ false
      → Climbs start ts xs k
      → Climbs start (t ∷ ts) (x ∷ xs) (suc k)
  Climbs-cons start t x ts xs k early slow climbs zero u y below at ay = ground arith
  Climbs-cons start t x ts xs k early slow climbs (suc j) u y below at ay =
      climbs j u y (omega arith) at ay

  TooLate-cons :
      (start t x : F) (ts xs : List F)
      → n.le stable x ≡ false
      → TooLate start ts xs
      → TooLate start (t ∷ ts) (x ∷ xs)
  TooLate-cons start t x ts xs slow late zero t' x' at ax full = absurd (ground arith)
  TooLate-cons start t x ts xs slow late (suc k) t' x' at ax full =
      let (j, u, below, au, over) = late k t' x' at ax full in (suc j, u, omega arith, au, over)

  TooLate-here :
      (start t x : F) (ts xs : List F)
      → n.le stable x ≡ false
      → n.lt (n.minus t start) thresh ≡ false
      → TooLate start (t ∷ ts) (x ∷ xs)
  TooLate-here start t x ts xs slow over zero t' x' at ax full = absurd (ground arith)
  TooLate-here start t x ts xs slow over (suc k) t' x' at ax full = (0, t, omega arith, refl, over)

  ramp_loop-late :
      (start ramp : F) (ts xs : List F)
      → n.lt ramp thresh ≡ false
      → ramp_loop start stable thresh ramp ts xs ≡ ok none
  unfolding ramp_loop
  ramp_loop-late start ramp [] xs late = refl
  ramp_loop-late start ramp (t ∷ ts) [] late = rw late refl
  ramp_loop-late start ramp (t ∷ ts) (x ∷ xs) late = rw late refl

  ramp_loop_lem :
      (start ramp : F) (ts xs : List F)
      → length ts ≤ length xs
      → n.lt ramp thresh ≡ true
      → (found : Option F) × (ramp_loop start stable thresh ramp ts xs ≡ ok found)
        × IsRampup start ts xs (measured found)
  unfolding ramp_loop measured
  ramp_loop_lem start ramp [] xs h early = (none, refl, inr (refl, λ k t x at ax full. cc))
  ramp_loop_lem start ramp (t ∷ ts) [] h early = absurd (omega arith)
  ramp_loop_lem start ramp (t ∷ ts) (x ∷ xs) h early = elim (Bool-cases (n.le stable x)) [
    | inl full ↦ (
      some (n.minus t start),
      rw (early, full) refl,
      inl (0, t, x, refl, refl, full, λ j u y below at ay. absurd (omega arith), refl),
    )
    | inr slow ↦ elim (Bool-cases (n.lt (n.minus t start) thresh)) [
      | inr over ↦ (
        none,
        rw (early, slow) (ramp_loop-late start (n.minus t start) ts xs over),
        inr (refl, TooLate-here start t x ts xs slow over),
      )
      | inl on ↦
          let (found, ran, is) = ramp_loop_lem start (n.minus t start) ts xs (omega arith) on in
          (
            found,
            rw (early, slow) ran,
            elim is [
              | inl (k, t', x', at, ax, full, climbs, e) ↦
                  inl (suc k, t', x', at, ax, full, Climbs-cons start t x ts xs k on slow climbs, e)
              | inr (e, late) ↦ inr (e, TooLate-cons start t x ts xs slow late)
            ],
          )
    ]
  ]

  measure_lem :
      (ts xs : List F) (i : ℕ) (start : F)
      → length ts ≤ length xs
      → n.lt (number 0) thresh ≡ true
      → (r : F) × (measure ts xs stable thresh i start ≡ ok r)
        × IsRampup start (drop i ts) (drop i xs) r
  unfolding measure
  measure_lem ts xs i start h pos_thresh =
      let (found, ran, is) =
        ramp_loop_lem start (number 0) (drop i ts) (drop i xs) (length-drop-le i ts xs h)
          pos_thresh in
      (measured found, rw ran refl, is)

  -- One time for each handover, from its closest sample on. It counts from the time of that sample, and
  -- at the last handover from that of the next one.
  abbrev pub Measures : List F → List F → List ℕ → List F → Type ℓ
  Measures ts xs (i ∷ []) (r ∷ []) =
      (start : F) × (get_elem? ts (suc i) ≡ some start) × IsRampup start (drop i ts) (drop i xs) r
  Measures ts xs (i ∷ j ∷ is) (r ∷ rs) =
      ((start : F) × (get_elem? ts i ≡ some start) × IsRampup start (drop i ts) (drop i xs) r)
      × Measures ts xs (j ∷ is) rs
  Measures ts xs is rs = Mismatch

  measures_lem :
      (ts xs : List F) (is : List ℕ)
      → length ts ≤ length xs
      → n.lt (number 0) thresh ≡ true
      → InRange ts is
      → (r : F) × (rs : List F) × (measures ts xs stable thresh is ≡ ok (r ∷ rs))
        × Measures ts xs is (r ∷ rs)
  unfolding measures
  measures_lem ts xs [] h pos_thresh range = elim range [ ]
  measures_lem ts xs (i ∷ []) h pos_thresh range =
      let (start, at) = get_elem?-lt ts (suc i) range in
      let (r, ran, is) = measure_lem ts xs i start h pos_thresh in
      (r, [], rw (at, ran) refl, (start, at, is))
  measures_lem ts xs (i ∷ j ∷ is) h pos_thresh range =
      let (start, at) = get_elem?-lt ts i range.0 in
      let (r, ran, here) = measure_lem ts xs i start h pos_thresh in
      let (r', rs, rest, later) = measures_lem ts xs (j ∷ is) h pos_thresh range.1 in
      (r, r' ∷ rs, rw (at, ran, rest) refl, ((start, at, here), later))

  substitute-cons :
      (r : F) (rs : List F)
      → substitute thresh (r ∷ rs)
        ≡ ok (if n.lt (max_from r rs) (number 0) then thresh else max_from r rs)
  unfolding substitute
  substitute-cons r rs = refl

  -- With a throughput for each sample, a positive threshold, and a sample after the one that is closest
  -- to the last handover, `calculate_rampup_time` returns. Behind its result stands one measured time for
  -- each handover: of the samples from the closest one on, the time of the first with the stable
  -- throughput, if each sample before it is less than the threshold after the start, less the start; or
  -- -1, if before each such sample there is one that is not. The start is the time of the closest
  -- sample, but for the last handover that of the next one. Measured times that are neither negative nor
  -- zero are returned as they are, and the two printed counts are those of the negative ones and of the
  -- zeros.
  pub calculate_rampup_time-Measures :
      (ho_times ts xs : List F) (random : ℕ → F) (is : List ℕ)
      → length ts ≤ length xs
      → n.lt (number 0) thresh ≡ true
      → find_closest_indices ho_times ts ≡ ok is
      → InRange ts is
      → (r : Rampup F) × (rs : List F) × (calculate_rampup_time ho_times ts xs stable thresh random
          ≡ ok r)
        × Measures ts xs is rs
        × Keeps rs r.times
        × (r.undone ≡ count (λ t. n.lt t (number 0)) rs)
        × (r.start_full ≡ count (λ t. n.eq t (number 0)) rs)
  unfolding report
  calculate_rampup_time-Measures ho_times ts xs random is h pos_thresh closest range =
      let (r, rs, ran, times) = measures_lem ts xs is h pos_thresh range in
      let most = if n.lt (max_from r rs) (number 0) then thresh else max_from r rs in
      (
        report most random is (r ∷ rs),
        r ∷ rs,
        calculate-eq ho_times ts xs stable thresh most random is (r ∷ rs) closest ran
            (substitute-cons r rs),
        times,
        settle-Keeps most random 0 (r ∷ rs),
        tally-count n.lt (r ∷ rs),
        tally-count n.eq (r ∷ rs),
      )
