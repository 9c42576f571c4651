-- ===== src/Summary/Outcome.antt =====
-- What the main block of scripts/processing/metrics.py does with two logs and a trace.
use emulator_test.Prelude.{
  ◌≡◌, refl, ◌⊎◌, inl, inr, List, ◌>>=◌, Option, none, some, IsOrElse, Result, ok, raised,
  name_error, zero_division,
}
use emulator_test.Prelude.Int.{ℤ, pos}
use emulator_test.Number.{Number, number, IsFaithful, IsOrdered}
use emulator_test.Text.{Text}
use emulator_test.Iperf.{Interval}
use emulator_test.Iperf.Window.{firsts, seconds, zip-firsts-seconds}
use emulator_test.Summary.{begin_or_default, end_or_default, read_log}
use emulator_test.Summary.Links.{LinkAverages, link_averages}
use emulator_test.Summary.Samples.{
  samples, average_of, handovers, log_handovers-eq, log_handovers-none, HasSamples, kept_of,
  read_log-kept_of,
}
use emulator_test.Summary.OnLinks.{
  coloured, handover_lines-coloured, PrintsLinks, link_averages-PrintsLinks,
}
use emulator_test.Summary.Run.{Report, report}

module _ {ℓ} {F : Type ℓ} ⦃n : Number F⦄ where
  -- All that is printed and drawn
  abbrev pub whole : List (F × ℤ) → (ps m_ps : List (F × F)) → (a m_a : LinkAverages F) → Report F
  whole hos ps m_ps a m_a = record {
    average = average_of (seconds ps);
    m2ho_average = average_of (seconds m_ps);
    curve = ps;
    lines = coloured (pos 1) hos;
    links = a;
    m2ho_links = m_a;
  }

  begin_or_default-IsOrElse : (t : Option F) → IsOrElse t (number 0) (begin_or_default t)
  unfolding begin_or_default
  begin_or_default-IsOrElse none = refl
  begin_or_default-IsOrElse (some t) = refl

  end_or_default-IsOrElse : (t : Option F) → IsOrElse t (number 1200) (end_or_default t)
  unfolding end_or_default
  end_or_default-IsOrElse none = refl
  end_or_default-IsOrElse (some t) = refl

module _ {ℓ} {F : Type ℓ} ⦃n : Number F⦄ (laws : IsOrdered F) (faithful : IsFaithful F)
    (mean : List F → F) (round_2 : F → F) where
  -- Behind the links of the run: those of the run with M2HO, if its log is there.
  abbrev pub AfterLinks :
      (begin finish : F)
      → List (F × ℤ)
      → List (F × F)
      → Option (List (Interval F))
      → Result (LinkAverages F)
      → Result (Report F)
      → Type ℓ
  AfterLinks begin finish hos ps m2ho_log (raised e) r = r ≡ raised e
  AfterLinks begin finish hos ps none (ok a) r = r ≡ raised name_error
  AfterLinks begin finish hos ps (some m2ho_log) (ok a) r =
      let m_ps = samples begin finish m2ho_log in
      (m_printed : Result (LinkAverages F)) × PrintsLinks laws mean round_2 hos m_ps m_printed
      × (r ≡ (m_printed >>= λ m_a. ok (whole hos ps m_ps a m_a)))

  -- Behind the averages: the handovers of the trace and the links of the run, if both files are there.
  abbrev pub AfterAverages :
      (begin finish : F) (log m2ho_log : Option (List (Interval F)))
      → Option (List Text)
      → Result (Report F)
      → Type ℓ
  AfterAverages begin finish none m2ho_log trace r = r ≡ raised name_error
  AfterAverages begin finish (some log) m2ho_log none r = r ≡ raised name_error
  AfterAverages begin finish (some log) m2ho_log (some lines) r =
      let ps = samples begin finish log in
      let hos = handovers begin finish lines in
      (printed : Result (LinkAverages F)) × PrintsLinks laws mean round_2 hos ps printed
      × AfterLinks begin finish hos ps m2ho_log printed r

  abbrev pub Ends :
      (begin finish : F) (log m2ho_log : Option (List (Interval F)))
      → Option (List Text)
      → Result (Report F)
      → Type ℓ
  Ends begin finish log m2ho_log trace r =
      ((HasSamples begin finish log × HasSamples begin finish m2ho_log → ⊥)
        × (r ≡ raised zero_division))
      ⊎ (HasSamples begin finish log
          × HasSamples begin finish m2ho_log
          × AfterAverages begin finish log m2ho_log trace r)

  both-AfterLinks :
      (begin finish : F) (hos : List (F × ℤ)) (ps : List (F × F)) (m2ho_log : List (Interval F))
      (printed m_printed : Result (LinkAverages F))
      → PrintsLinks laws mean round_2 hos (samples begin finish m2ho_log) m_printed
      → AfterLinks begin finish hos ps (some m2ho_log) printed (
          printed >>= λ a.
          m_printed >>= λ m_a. ok (whole hos ps (samples begin finish m2ho_log) a m_a))
  both-AfterLinks begin finish hos ps m2ho_log (raised e) m_printed prints = refl
  both-AfterLinks begin finish hos ps m2ho_log (ok a) m_printed prints = (m_printed, prints, refl)

  one-AfterLinks :
      (begin finish : F) (hos : List (F × ℤ)) (ps : List (F × F))
      (printed : Result (LinkAverages F))
      → AfterLinks begin finish hos ps none printed (printed >>= λ a. raised name_error)
  one-AfterLinks begin finish hos ps (raised e) = refl
  one-AfterLinks begin finish hos ps (ok a) = refl

  after-AfterAverages :
      (begin finish : Option F) (log m2ho_log : Option (List (Interval F)))
      (trace : Option (List Text))
      → let b = begin_or_default begin in
        let e = end_or_default finish in
        HasSamples b e log
        → HasSamples b e m2ho_log
        → read_log log b e ≡ ok (kept_of b e log)
        → read_log m2ho_log b e ≡ ok (kept_of b e m2ho_log)
        → AfterAverages b e log m2ho_log trace (report mean round_2 begin finish log m2ho_log trace)
  unfolding report
  after-AfterAverages begin finish none m2ho_log trace has m_has ran m_ran = rw (ran, m_ran) refl
  after-AfterAverages begin finish (some log) m2ho_log none has m_has ran m_ran =
      rw (ran, m_ran)
        (rw (log_handovers-none (begin_or_default begin) (end_or_default finish)) refl)
  after-AfterAverages begin finish (some log) none (some lines) has m_has ran m_ran =
      let b = begin_or_default begin in
      let e = end_or_default finish in
      let ps = samples b e log in
      let hos = handovers b e lines in
      rw (ran, m_ran)
        (rw (log_handovers-eq b e lines) (
          rw (handover_lines-coloured (pos 1) hos) (
            link_averages mean round_2 (firsts hos) (seconds hos) (firsts ps) (seconds ps),
            link_averages-PrintsLinks laws mean round_2 hos ps has,
            one-AfterLinks b e hos ps
                (link_averages mean round_2 (firsts hos) (seconds hos) (firsts ps) (seconds ps)),
          )))
  after-AfterAverages begin finish (some log) (some m2ho_log) (some lines) has m_has ran m_ran =
      let b = begin_or_default begin in
      let e = end_or_default finish in
      let ps = samples b e log in
      let m_ps = samples b e m2ho_log in
      let hos = handovers b e lines in
      rw (ran, m_ran)
        (rw (log_handovers-eq b e lines) (
          rw (handover_lines-coloured (pos 1) hos, zip-firsts-seconds ps)
            (
              link_averages mean round_2 (firsts hos) (seconds hos) (firsts ps) (seconds ps),
              link_averages-PrintsLinks laws mean round_2 hos ps has,
              both-AfterLinks b e hos ps m2ho_log
                  (link_averages mean round_2 (firsts hos) (seconds hos) (firsts ps) (seconds ps))
                  (link_averages mean round_2 (firsts hos) (seconds hos) (firsts m_ps)
                    (seconds m_ps))
                  (link_averages-PrintsLinks laws mean round_2 hos m_ps m_has),
            )))

  -- Away from NaN, with the bounds that are given, or 0 and 1200: the main block raises
  -- ZeroDivisionError exactly when a log that exists has no interval with its midpoint in the range. Else
  -- it raises NameError if the run's log or the trace does not exist. Else it raises ValueError if the
  -- run has no sample in the stretches of link 1 or none in those of link 2, up to the last sample's
  -- time; else NameError if the log with M2HO does not exist; and else ValueError if that run lacks the
  -- samples of a link. Else it returns: the averages of the two logs are those of their samples, the
  -- plotted curve is the run's samples, each handover is drawn green if its link is that of the one
  -- before, at first link 1, and red else, and for both runs each link has the rounded mean and the
  -- largest of the samples in its stretches.
  pub report_lem :
      (begin finish : Option F) (log m2ho_log : Option (List (Interval F)))
      (trace : Option (List Text))
      → (b : F) × (e : F) × IsOrElse begin (number 0) b
        × IsOrElse finish (number 1200) e
        × Ends b e log m2ho_log trace (report mean round_2 begin finish log m2ho_log trace)
  unfolding report
  report_lem begin finish log m2ho_log trace =
      let b = begin_or_default begin in
      let e = end_or_default finish in
      (
        b,
        e,
        begin_or_default-IsOrElse begin,
        end_or_default-IsOrElse finish,
        elim (read_log-kept_of faithful b e log) [
          | inl (lacks, ran) ↦ inl ((λ h. lacks h.0), rw ran refl)
          | inr (has, ran) ↦ elim (read_log-kept_of faithful b e m2ho_log) [
            | inl (lacks, m_ran) ↦ inl ((λ h. lacks h.1), rw ran (rw m_ran refl))
            | inr (m_has, m_ran) ↦ inr (
              has,
              m_has,
              after-AfterAverages begin finish log m2ho_log trace has m_has ran m_ran,
            )
          ]
        ],
      )
