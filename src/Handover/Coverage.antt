-- ===== src/Handover/Coverage.antt =====
-- Each link's throughput, as the main block of scripts/processing/metrics.py gathers it, against the
-- stretches of the run.
use emulator_test.Prelude.{
  ℕ, ◌≤◌, ◌+◌, ◌≡◌, refl, inl, inr, List, [], ◌∷◌, Bool, length, count, count-append, All, arith,
  Bool-cases, ok,
}
use emulator_test.Prelude.Int.{ℤ, pos, eq_ℤ}
use emulator_test.Number.{Number, IsOrdered, number}
use emulator_test.Iperf.Window.{zip, seconds, in_window, filter_time_range-eq}
use emulator_test.Handover.{collect, link_thuputs}
use emulator_test.Handover.Types.{IsLink}
use emulator_test.Handover.Links.{
  Stretch, stretches, spans, Tiles, stretches-head, stretches-Tiles, filter_link_duration_lem,
}

module _ {ℓ} {F : Type ℓ} ⦃n : Number F⦄ where
  -- How many samples of a window have a throughput that passes a test.
  abbrev pub tally : (F → Bool) → F → F → List (F × F) → ℕ
  tally p start finish samples = count p (seconds (in_window start finish samples))

  abbrev total : (F → Bool) → List (Stretch F) → List (F × F) → ℕ
  total p [] samples = 0
  total p (s ∷ ss) samples = tally p s.start s.finish samples + total p ss samples

  abbrev OnLinks : List (Stretch F) → Type 0
  OnLinks = All (λ s. IsLink s.link)

  stretches-OnLinks :
      (prev : ℤ) (start : F) (ts : List F) (ls : List ℤ) (e : F)
      → IsLink prev
      → All IsLink ls
      → OnLinks (stretches prev start ts ls e)
  stretches-OnLinks prev start [] ls e hp hl = (hp, tt)
  stretches-OnLinks prev start (t ∷ ts) [] e hp hl = (hp, tt)
  stretches-OnLinks prev start (t ∷ ts) (l ∷ ls) e hp hl = elim (Bool-cases (eq_ℤ l prev)) [
    | inl same ↦ rw same (stretches-OnLinks prev start ts ls e hp hl.1)
    | inr new ↦ rw new (hp, stretches-OnLinks l t ts ls e hl.0 hl.1)
  ]

  collect-spans :
      (p : F → Bool) (ss : List (Stretch F)) (ts xs : List F)
      → OnLinks ss
      → count p (collect (spans (pos 1) ss) ts xs) + count p (collect (spans (pos 2) ss) ts xs)
        ≡ total p ss (zip ts xs)
  unfolding collect eq_ℤ
  collect-spans p [] ts xs h = refl
  collect-spans p (s ∷ ss) ts xs h = elim h.0 [
    | inl sub6 ↦ ground (
      arith,
      sub6,
      filter_time_range-eq ts xs s.start s.finish,
      count-append p (seconds (in_window s.start s.finish (zip ts xs)))
          (collect (spans (pos 1) ss) ts xs),
      collect-spans p ss ts xs h.1,
    )
    | inr mmw ↦ ground (
      arith,
      mmw,
      filter_time_range-eq ts xs s.start s.finish,
      count-append p (seconds (in_window s.start s.finish (zip ts xs)))
          (collect (spans (pos 2) ss) ts xs),
      collect-spans p ss ts xs h.1,
    )
  ]

module _ {ℓ} {F : Type ℓ} ⦃n : Number F⦄ (laws : IsOrdered F) where
  tally_split :
      (p : F → Bool) (a b c : F) (samples : List (F × F))
      → tally p a c samples ≤ tally p a b samples + tally p b c samples
  tally_split p a b c [] = omega arith
  tally_split p a b c (s ∷ samples) =
      ground (arith, tally_split p a b c samples, laws.le_total s.0 b)

  Tiles-total :
      (p : F → Bool) (start finish : F) (s : Stretch F) (ss : List (Stretch F))
      (samples : List (F × F))
      → Tiles start finish (s ∷ ss)
      → tally p start finish samples ≤ total p (s ∷ ss) samples
  Tiles-total p start finish s [] samples h = rw (← h.0, ← h.1) (omega arith)
  Tiles-total p start finish s (r ∷ ss) samples h = rw (← h.0) (
      omega (
        arith,
        tally_split p s.start s.finish finish samples,
        Tiles-total p s.finish finish r ss samples h.2,
      ))

  stretches-total :
      (p : F → Bool) (prev : ℤ) (start : F) (ts : List F) (ls : List ℤ) (e : F)
      (samples : List (F × F))
      → tally p start e samples ≤ total p (stretches prev start ts ls e) samples
  stretches-total p prev start ts ls e samples =
      let (f, r, shape) = stretches-head prev start ts ls e in
      rw shape (
        Tiles-total p start e (record { link = prev; start = start; finish = f }) r samples
          (rw shape at (stretches-Tiles prev start ts ls e)))

  -- Where the times are free of NaN, every handover has a target link and the links are 1 and 2, the two
  -- links' samples are gathered without an error, and together they miss no sample of the run: of the
  -- samples from 0 to the run's end, those that pass any test on the throughput are at most those of
  -- sub-6 GHz and mmWave that pass it.
  pub link_thuputs_cover :
      (ho_times : List F) (target_links : List ℤ) (ts xs : List F) (time_end : F)
      → length ho_times ≤ length target_links
      → All IsLink target_links
      → (sub6 mmw : List F) × (link_thuputs ho_times target_links ts xs time_end ≡ ok (sub6, mmw))
        × ((p : F → Bool)
            → count p (seconds (in_window (number 0) time_end (zip ts xs)))
              ≤ count p sub6 + count p mmw)
  unfolding link_thuputs
  link_thuputs_cover ho_times target_links ts xs time_end h links =
      let (d, ran, view, tiles) =
        filter_link_duration_lem ho_times target_links time_end (pos 1) h in
      let ss = stretches (pos 1) (number 0) ho_times target_links time_end in
      (
        collect (spans (pos 1) ss) ts xs,
        collect (spans (pos 2) ss) ts xs,
        rw ran (rw (view (pos 1), view (pos 2)) refl),
        λ p. omega (
          arith,
          stretches-total p (pos 1) (number 0) ho_times target_links time_end (zip ts xs),
          collect-spans p ss ts xs (
              stretches-OnLinks (pos 1) (number 0) ho_times target_links time_end (inl refl) links),
        ),
      )
