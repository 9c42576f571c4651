-- ===== src/Summary/Samples.antt =====
-- What the main block of scripts/processing/metrics.py reads of a log and of a trace in a range of time.
use mathlib.Core.List.{foldl}
use emulator_test.Prelude.{
  ◌≡◌, ◌≢◌, refl, ap, ◌⊎◌, inl, inr, suc, List, [], ◌∷◌, length, keep, map, ◌&&◌, Option, none,
  some, Result, ok, raised, zero_division,
}
use emulator_test.Prelude.Int.{ℤ}
use emulator_test.Number.{Number, number, IsFaithful, divide}
use emulator_test.Text.{Text}
use emulator_test.Iperf.{Interval, midpoint, megabits, sum_from, mean}
use emulator_test.Iperf.Window.{zip, firsts, seconds, filter_time_range-eq}
use emulator_test.Iperf.Average.{parse_iperf3_log-eq}
use emulator_test.Trace.{parse_trace}
use emulator_test.Summary.{read_log, log_handovers}

module _ {ℓ κ} {F : Type ℓ} ⦃n : Number F⦄ {A : Type κ} where
  -- What lies from `begin` to `finish`, both included
  abbrev pub in_range : F → F → List (F × A) → List (F × A)
  in_range begin finish = keep (λ p. n.le begin p.0 && n.le p.0 finish)

zip-map {ℓ κ μ} :
    {A : Type ℓ} {B : Type κ} {C : Type μ} (f : A → B) (g : A → C) (xs : List A)
    → zip (map f xs) (map g xs) ≡ map (λ x. (f x, g x)) xs
zip-map f g [] = refl
zip-map f g (x ∷ xs) = ap (λ r. (f x, g x) ∷ r) (zip-map f g xs)

pub length-firsts {ℓ κ} :
    {A : Type ℓ} {B : Type κ} (ps : List (A × B)) → length (firsts ps) ≡ length (seconds ps)
length-firsts [] = refl
length-firsts ((a, b) ∷ ps) = ap (λ k. suc k) (length-firsts ps)

module _ {ℓ} {F : Type ℓ} ⦃n : Number F⦄ where
  -- The time of each interval, halfway through it, and its throughput in Mbps, if it lies in the range
  abbrev pub samples : F → F → List (Interval F) → List (F × F)
  samples begin finish log = in_range begin finish (
      map
        (λ i.
          (n.over (n.plus i.start i.finish) (number 2), n.over i.bits_per_second (number 1000000)))
        log)

  -- The sum, from the left, over the length
  abbrev pub average_of : List F → F
  average_of xs = n.over (foldl n.plus (number 0) xs) (number (length xs))

  -- The handovers of a trace in a range, each with its target link
  abbrev pub handovers : F → F → List Text → List (F × ℤ)
  handovers begin finish lines =
      let (times, links) = parse_trace {F = F} (some lines) (number 2) in
      in_range begin finish (zip times links)

  pub log_handovers-eq :
      (begin finish : F) (lines : List Text)
      → log_handovers (some lines) begin finish
        ≡ some (firsts (handovers begin finish lines), seconds (handovers begin finish lines))
  unfolding log_handovers
  log_handovers-eq begin finish lines =
      ap (λ r. some r)
        (filter_time_range-eq (parse_trace (some lines) (number 2)).0
          (parse_trace (some lines) (number 2)).1 begin finish)

  pub log_handovers-none : (begin finish : F) → log_handovers none begin finish ≡ none
  unfolding log_handovers
  log_handovers-none begin finish = refl

  sum_from-eq : (acc : F) (xs : List F) → sum_from acc xs ≡ foldl n.plus acc xs
  unfolding sum_from
  sum_from-eq acc [] = refl
  sum_from-eq acc (x ∷ xs) = sum_from-eq (n.plus acc x) xs

  -- A log that is missing or has a sample in the range
  abbrev pub HasSamples : F → F → Option (List (Interval F)) → Type ℓ
  HasSamples begin finish none = Unit
  HasSamples begin finish (some log) = samples begin finish log ≢ []

  -- What is kept of a log
  abbrev pub kept_of : F → F → Option (List (Interval F)) → Option ((List F × List F) × F)
  kept_of begin finish none = none
  kept_of begin finish (some log) =
      let ps = samples begin finish log in some ((firsts ps, seconds ps), average_of (seconds ps))

  module _ (laws : IsFaithful F) where
    -- The average of the samples, if there is one
    abbrev IsMean : List (F × F) → Result F → Type ℓ
    IsMean ps r =
        ((ps ≡ []) × (r ≡ raised zero_division)) ⊎ ((ps ≢ []) × (r ≡ ok (average_of (seconds ps))))

    mean-IsMean : (ps : List (F × F)) → IsMean ps (mean (seconds ps))
    unfolding mean divide
    mean-IsMean [] = inl (refl, rw laws.zero_eq refl)
    mean-IsMean ((t, x) ∷ ps) = inr (
      (λ e. cc),
      rw (laws.suc_ne (length (seconds ps))) (
          ap (λ s. ok (n.over s (number (suc (length (seconds ps))))))
            (sum_from-eq (n.plus (number 0) x) (seconds ps))),
    )

    -- Reading a log raises ZeroDivisionError when it has no sample in the range, and else gives the two
    -- columns of its samples and their average.
    read_log-samples :
        (begin finish : F) (log : List (Interval F))
        → let ps = samples begin finish log in
          ((ps ≡ []) × (read_log (some log) begin finish ≡ raised zero_division))
          ⊎ ((ps ≢ [])
              × (read_log (some log) begin finish
                  ≡ ok (some ((firsts ps, seconds ps), average_of (seconds ps)))))
    unfolding read_log midpoint megabits
    read_log-samples begin finish log =
        let ps = samples begin finish log in
        rw (parse_iperf3_log-eq log) (
          rw (filter_time_range-eq (map midpoint log) (map megabits log) begin finish) (
            rw (zip-map midpoint megabits log) (elim (mean-IsMean ps) [
              | inl (nothing, e) ↦ inl (nothing, rw e refl)
              | inr (something, e) ↦ inr (something, rw e refl)
            ])))

    pub read_log-kept_of :
        (begin finish : F) (log : Option (List (Interval F)))
        → ((HasSamples begin finish log → ⊥) × (read_log log begin finish ≡ raised zero_division))
          ⊎ (HasSamples begin finish log
              × (read_log log begin finish ≡ ok (kept_of begin finish log)))
    unfolding read_log
    read_log-kept_of begin finish none = inr (tt, refl)
    read_log-kept_of begin finish (some log) = elim (read_log-samples begin finish log) [
      | inl (nothing, ran) ↦ inl ((λ has. has nothing), ran)
      | inr (has, ran) ↦ inr (has, ran)
    ]
