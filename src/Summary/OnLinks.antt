-- ===== src/Summary/OnLinks.antt =====
-- The colours of the handovers and what is printed of the links, in the main block of
-- scripts/processing/metrics.py, against the handovers and the samples.
use mathlib.Core.List.{Memᴰ}
use emulator_test.Prelude.{
  ◌≡◌, ◌≢◌, refl, ◌⊎◌, inl, inr, List, [], ◌∷◌, ◌++◌, All, Bool-cases, true, if◌then◌else◌, arith,
  Result, ok, raised, value_error,
}
use emulator_test.Prelude.Int.{ℤ, pos, eq_ℤ, eq_ℤ→eq}
use emulator_test.Number.{Number, number, IsOrdered}
use emulator_test.Iperf.Window.{firsts, seconds, zip-firsts-seconds, filter_time_range-eq}
use emulator_test.Handover.{collect, link_thuputs}
use emulator_test.Handover.Links.{stretches, spans, filter_link_duration_lem}
use emulator_test.Summary.Links.{LinkAverages, largest, largest_lem, link_averages, print_maxima}
use emulator_test.Summary.Samples.{in_range, length-firsts}
use emulator_test.Summary.Run.{Colour, green, red, handover_lines}

module _ {ℓ} {F : Type ℓ} where
  -- A handover is green if its link is that of the handover before it, and red else.
  abbrev pub coloured : ℤ → List (F × ℤ) → List (F × Colour)
  coloured before [] = []
  coloured before ((t, link) ∷ ps) =
      (t, (if eq_ℤ link before then green else red)) ∷ coloured link ps

  pub handover_lines-coloured :
      (before : ℤ) (ps : List (F × ℤ))
      → handover_lines before (firsts ps) (seconds ps) ≡ ok (coloured before ps)
  unfolding handover_lines
  handover_lines-coloured before [] = refl
  handover_lines-coloured before ((t, link) ∷ ps) = elim (Bool-cases (eq_ℤ link before)) [
    | inl same ↦
        rw same (rw (← eq_ℤ→eq link before same) (rw (handover_lines-coloured link ps) refl))
    | inr other ↦ rw other (rw (handover_lines-coloured link ps) refl)
  ]

module _ {ℓ} {F : Type ℓ} ⦃n : Number F⦄ where
  abbrev pub IsMaximum : F → List F → Type ℓ
  IsMaximum m xs = Memᴰ m xs × All (λ x. n.le x m ≡ true) xs

  -- The values of the samples in some intervals, both ends included
  abbrev pub gather : List (F × F) → List (F × F) → List F
  gather [] ps = []
  gather ((start, finish) ∷ intervals) ps =
      seconds (in_range start finish ps) ++ gather intervals ps

  -- The samples on a link: those in its stretches, of a run that starts on link 1
  abbrev pub on_link : ℤ → F → List (F × ℤ) → List (F × F) → List F
  on_link link time_end hos ps =
      gather (spans link (stretches (pos 1) (number 0) (firsts hos) (seconds hos) time_end)) ps

  collect-gather :
      (intervals : List (F × F)) (ps : List (F × F))
      → collect intervals (firsts ps) (seconds ps) ≡ gather intervals ps
  unfolding collect
  collect-gather [] ps = refl
  collect-gather ((start, finish) ∷ intervals) ps =
      rw (filter_time_range-eq (firsts ps) (seconds ps) start finish)
        (rw (zip-firsts-seconds ps) (rw (collect-gather intervals ps) refl))

  link_thuputs-on_link :
      (time_end : F) (hos : List (F × ℤ)) (ps : List (F × F))
      → link_thuputs (firsts hos) (seconds hos) (firsts ps) (seconds ps) time_end
        ≡ ok (on_link (pos 1) time_end hos ps, on_link (pos 2) time_end hos ps)
  unfolding link_thuputs
  link_thuputs-on_link time_end hos ps =
      let ss = stretches (pos 1) (number 0) (firsts hos) (seconds hos) time_end in
      let (d, ran, view, tiles) =
        filter_link_duration_lem (firsts hos) (seconds hos) time_end (pos 1)
          (omega (arith, length-firsts hos)) in
      rw ran (
        rw (view (pos 1), view (pos 2))
          (rw (collect-gather (spans (pos 1) ss) ps, collect-gather (spans (pos 2) ss) ps) refl))

module _ {ℓ} {F : Type ℓ} ⦃n : Number F⦄ (laws : IsOrdered F) (mean : List F → F)
    (round_2 : F → F) where
  -- What is printed of the links, up to the last sample's time: ValueError if one of the two links has
  -- no sample, else each link's rounded mean and its largest sample.
  abbrev pub PrintsLinks : List (F × ℤ) → List (F × F) → Result (LinkAverages F) → Type ℓ
  PrintsLinks hos ps r =
      (time_end : F) × IsMaximum time_end (firsts ps)
      × (let sub6 = on_link (pos 1) time_end hos ps in
          let mmw = on_link (pos 2) time_end hos ps in
          (((sub6 ≡ []) ⊎ (mmw ≡ [])) × (r ≡ raised value_error))
          ⊎ ((a : LinkAverages F) × (r ≡ ok a)
              × (a.sub6_avg ≡ round_2 (mean sub6))
              × IsMaximum a.sub6_max sub6
              × (a.mmw_avg ≡ round_2 (mean mmw))
              × IsMaximum a.mmw_max mmw))

  firsts-nil : (ps : List (F × F)) → firsts ps ≡ [] → ps ≡ []
  firsts-nil [] h = refl
  firsts-nil (p ∷ ps) h = cc

  link_averages-eq :
      (time_end : F) (hos : List (F × ℤ)) (ps : List (F × F))
      → largest (firsts ps) ≡ ok time_end
      → link_averages mean round_2 (firsts hos) (seconds hos) (firsts ps) (seconds ps)
        ≡ print_maxima laws mean round_2
            (on_link (pos 1) time_end hos ps)
            (on_link (pos 2) time_end hos ps)
  unfolding link_averages
  link_averages-eq time_end hos ps found = rw found (rw (link_thuputs-on_link time_end hos ps) refl)

  pub link_averages-PrintsLinks :
      (hos : List (F × ℤ)) (ps : List (F × F))
      → ps ≢ []
      → PrintsLinks hos ps
          (link_averages mean round_2 (firsts hos) (seconds hos) (firsts ps) (seconds ps))
  link_averages-PrintsLinks hos ps some_there = elim (largest_lem laws (firsts ps)) [
    | inl (nothing, e) ↦ absurd (some_there (firsts-nil ps nothing))
    | inr (time_end, found, within, top) ↦
        let sub6 = on_link (pos 1) time_end hos ps in
        let mmw = on_link (pos 2) time_end hos ps in
        rw (link_averages-eq time_end hos ps found) (
          time_end,
          (within, top),
          elim (largest_lem laws sub6) [
            | inl (nothing, e) ↦ inl (inl nothing, rw e refl)
            | inr (m, e, in_sub6, top_sub6) ↦ elim (largest_lem laws mmw) [
              | inl (nothing, e') ↦ inl (inr nothing, rw e (rw e' refl))
              | inr (m', e', in_mmw, top_mmw) ↦ inr (
                record {
                  sub6_avg = round_2 (mean sub6);
                  sub6_max = m;
                  mmw_avg = round_2 (mean mmw);
                  mmw_max = m';
                },
                rw e (rw e' refl),
                refl,
                (in_sub6, top_sub6),
                refl,
                (in_mmw, top_mmw),
              )
            ]
          ],
        )
  ]
