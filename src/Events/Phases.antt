-- ===== src/Events/Phases.antt =====
-- What a handover of the TCP solution, a SOL_HO line, does over time.
use emulator_test.Prelude.{
  ℕ, suc, ◌+◌, ◌^◌, ◌≤◌, ◌<◌, ◌≡◌, refl, ◌∙◌, List, [], ◌∷◌, Bool, true, false, not, some, keep,
  leb, if◌then◌else◌, inl, inr, Bool-cases, ◌==◌, arith,
}
use mathlib.Core.List.{Perm, Pairwise}
use emulator_test.Prelude.Int.{ℤ, pos}
use emulator_test.Scheduler.{Event}
use emulator_test.Scheduler.Order.{IsAfter}
use emulator_test.Nfqueue.{Netfilter}
use emulator_test.Actions.{System, hist_at, save}
use emulator_test.Actions.Setters.{IsOpen, perform_all-cons}
use emulator_test.Actions.Solution.{
  View, updated_view, Shows, ShowsAfter, ShowsAfter-cons, ShowsAfter-nil, set_dedup-Turns,
  set_rwnd-Turns, burst_on-Turns, burst_off-Turns, adapt_on-Turns, sol_update-Shows,
}
use emulator_test.Events.Solution.{
  event, update_it, freeze_it, burst_it, end_it, adapt_it, at_once, shorter, longer, ordered,
  line_events, solution_line, solution_parsed, line_ordered,
}
use emulator_test.Events.{Act, Link, set_dedup, unsigned, parse_handle_solution}

-- The state of the solution at a time, by whether the freezing, the dropping of duplicates and the burst
-- are over.
abbrev pub phase : Bool → ℤ → ℤ → ℤ → ℕ → Bool → Bool → Bool → View
phase dedup interval burst_interval rtt window thawed smooth done =
    if thawed
    then record {
      dedup = not smooth;
      burst = not done;
      adapt = done;
      window = window;
      interval = if done then rtt else burst_interval;
    }
    else updated_view dedup 10 interval

module _ (net : Netfilter) (k a m : ℕ) (links : List Link) (link : Link) (w : ℕ)
    (found : hist_at (pos m) links ≡ some link) (rw_known : link.hist_rw ≡ pos w)
    (fits : w < 2 ^ 16) (small : m < 10) (sys : System) (v : ℕ) (o : IsOpen sys k a)
    (tuned : (sys.memory a).tune_rwnd ≡ suc v)
    (saved : save sys.tcp.mark (pos (suc v)) sys.tcp.hist_param ≡ some links) (t f s b : ℕ) where
  abbrev bursts : ℤ
  bursts = sys.tcp.burst_sample_interval

  abbrev Ends : List (Event Act) → System → View → Type 0
  Ends = ShowsAfter net k a links m bursts

  -- The first two events, and then others.
  begins :
      (rest : List (Event Act)) (v' : View)
      → ((s1 : System)
          → Shows net k a links m bursts s1
              (updated_view (sys.memory a).do_dedup 10 sys.tcp.sample_interval)
          → Ends rest s1 v')
      → Ends (update_it k m t f s b ∷ freeze_it k m t f s b ∷ rest) sys v'
  begins rest v' continue =
      let (s1, one, h1) =
        sol_update-Shows net k a links m bursts link w found rw_known fits sys v o tuned saved
          refl in
      let (s2, more, h2) =
        ShowsAfter-cons net k a links m bursts (freeze_it k m t f s b) rest s1 _ _ v'
          (set_rwnd-Turns net k a links m bursts _ m small) h1 continue in
      (s2, perform_all-cons net (update_it k m t f s b) _ sys s1 one ∙ more, h2)

  abbrev From : View → List (Event Act) → View → Type 0
  From before rest after =
      (s1 : System) → Shows net k a links m bursts s1 before → Ends rest s1 after

  ends : (view : View) → From view [] view
  ends view s1 h = ShowsAfter-nil net k a links m bursts s1 view h

  dedups :
      (enable : Bool) (time idx : ℕ) (view after : View) (rest : List (Event Act))
      → From (record view { dedup = enable }) rest after
      → From view (event time idx (set_dedup k enable) ∷ rest) after
  dedups enable time idx view after rest next s1 h =
      ShowsAfter-cons net k a links m bursts (event time idx (set_dedup k enable)) rest s1 view
        (record view { dedup = enable }) after (set_dedup-Turns net k a links m bursts view enable)
        h next

  bursting : View → View
  bursting view = record view { burst = true; adapt = false; window = w; interval = bursts }

  bursts_on :
      (view after : View) (rest : List (Event Act))
      → From (bursting view) rest after
      → From view (burst_it k m t f s b ∷ rest) after
  unfolding bursting
  bursts_on view after rest next s1 h =
      ShowsAfter-cons net k a links m bursts (burst_it k m t f s b) rest s1 view (bursting view)
        after (burst_on-Turns net k a links m bursts link w found rw_known fits view) h next

  adapting : View → View
  adapting view = record view { burst = false; adapt = true; window = w; interval = link.rtt }

  -- The end of the burst and the adaptation behind it.
  adapts :
      (view after : View) (rest : List (Event Act))
      → view.window ≡ w
      → From (adapting view) rest after
      → From view (end_it k m t f s b ∷ adapt_it k m t f s b ∷ rest) after
  unfolding adapting
  adapts view after rest same next s1 h =
      ShowsAfter-cons net k a links m bursts (end_it k m t f s b) (adapt_it k m t f s b ∷ rest) s1
        view (record view { burst = false }) after
        (burst_off-Turns net k a links m bursts link w found rw_known fits view same) h
        (λ s2 h2.
          ShowsAfter-cons net k a links m bursts (adapt_it k m t f s b) rest s2
            (record view { burst = false }) (adapting view) after
            (adapt_on-Turns net k a links m bursts link w found rw_known fits
              (record view { burst = false }) (t + f + b))
            h2 next)

  abbrev at_phase : Bool → Bool → Bool → View
  at_phase = phase (sys.memory a).do_dedup sys.tcp.sample_interval bursts link.rtt w

  abbrev before_time : ℕ → List (Event Act) → List (Event Act)
  before_time now = keep (λ e. leb e.time now)

  module _ (now : ℕ) (started : leb t now ≡ true) where
    -- The view at a time, of events in the order of their times.
    abbrev Right : List (Event Act) → Type 0
    Right es =
        Ends (before_time now es) sys
          (at_phase (leb (t + f) now) (leb (t + f + s) now) (leb (t + f + b) now))

    frozen-Right :
        (e1 e2 e3 e4 e5 : Event Act)
        → leb (t + f) now ≡ false
        → leb e1.time now ≡ false
        → leb e2.time now ≡ false
        → leb e3.time now ≡ false
        → leb e4.time now ≡ false
        → leb e5.time now ≡ false
        → Right (update_it k m t f s b ∷ freeze_it k m t f s b ∷ e1 ∷ e2 ∷ e3 ∷ e4 ∷ e5 ∷ [])
    frozen-Right e1 e2 e3 e4 e5 early h1 h2 h3 h4 h5 =
        rw (early, started, h1, h2, h3, h4, h5) (begins [] _ (ends _))

    at_once-Right : (s == 0) ≡ true → Right (at_once k m t f s b)
    unfolding bursting adapting
    at_once-Right z = elim (Bool-cases (leb (t + f) now)) [
      | inr early ↦
          frozen-Right _ _ _ _ _ early early (ground arith) early (ground arith) (ground arith)
      | inl late ↦
          let smooth : leb (t + f + s) now ≡ true = ground arith in
          elim (Bool-cases (leb (t + f + b) now)) [
            | inl done ↦
                rw (started, late, smooth, done)
                  (begins _ _ (
                    dedups true _ _ _ _ _
                      (dedups false _ _ _ _ _ (bursts_on _ _ _ (adapts _ _ [] refl (ends _))))))
            | inr going ↦
                rw (started, late, smooth, going)
                  (begins _ _
                    (dedups true _ _ _ _ _ (dedups false _ _ _ _ _ (bursts_on _ _ [] (ends _)))))
          ]
    ]

    shorter-Right : leb s b ≡ true → Right (shorter k m t f s b)
    unfolding bursting adapting
    shorter-Right short = elim (Bool-cases (leb (t + f) now)) [
      | inr early ↦
          frozen-Right _ _ _ _ _ early early early (ground arith) (ground arith) (ground arith)
      | inl late ↦ elim (Bool-cases (leb (t + f + b) now)) [
        | inl done ↦
            let smooth : leb (t + f + s) now ≡ true = ground arith in
            rw (started, late, smooth, done)
              (begins _ _ (
                dedups true _ _ _ _ _
                  (bursts_on _ _ _ (dedups false _ _ _ _ _ (adapts _ _ [] refl (ends _))))))
        | inr going ↦ elim (Bool-cases (leb (t + f + s) now)) [
          | inl smooth ↦
              rw (started, late, smooth, going)
                (begins _ _
                  (dedups true _ _ _ _ _ (bursts_on _ _ _ (dedups false _ _ _ _ [] (ends _)))))
          | inr kept ↦
              rw (started, late, kept, going)
                (begins _ _ (dedups true _ _ _ _ _ (bursts_on _ _ [] (ends _))))
        ]
      ]
    ]

    longer-Right : leb s b ≡ false → Right (longer k m t f s b)
    unfolding bursting adapting
    longer-Right long = elim (Bool-cases (leb (t + f) now)) [
      | inr early ↦
          frozen-Right _ _ _ _ _ early early early (ground arith) (ground arith) (ground arith)
      | inl late ↦ elim (Bool-cases (leb (t + f + s) now)) [
        | inl smooth ↦
            let done : leb (t + f + b) now ≡ true = ground arith in
            rw (started, late, smooth, done)
              (begins _ _ (
                dedups true _ _ _ _ _
                  (bursts_on _ _ _ (adapts _ _ _ refl (dedups false _ _ _ _ [] (ends _))))))
        | inr kept ↦ elim (Bool-cases (leb (t + f + b) now)) [
          | inl done ↦
              rw (started, late, kept, done)
                (begins _ _ (dedups true _ _ _ _ _ (bursts_on _ _ _ (adapts _ _ [] refl (ends _)))))
          | inr going ↦
              rw (started, late, kept, going)
                (begins _ _ (dedups true _ _ _ _ _ (bursts_on _ _ [] (ends _))))
        ]
      ]
    ]

    ordered-Right : Right (ordered k m t f s b)
    unfolding ordered
    ordered-Right = elim (Bool-cases (s == 0)) [
      | inl z ↦ rw z (at_once-Right z)
      | inr more ↦ elim (Bool-cases (leb s b)) [
        | inl short ↦ rw (more, short) (shorter-Right short)
        | inr long ↦ rw (more, long) (longer-Right long)
      ]
    ]

-- A SOL_HO line with all of its parts enabled, for a link whose mark is below 10, is on an open queue with
-- a window and on links of which the new one has a window of 16 bits. `parse_handle_solution` adds its
-- seven events, and when those up to a time have run in the order of the schedule, at any time from the
-- line's on: the window is 10 until the freezing is over and then the new link's; duplicates are dropped
-- from then on for as long as the line says, a burst is estimated for as long as the line says, and
-- behind it the window is adapted; the ticks have the interval of the burst and then the link's round
-- trip time.
pub parse_handle_solution-phase :
    (qsort : List (Event Act) → List (Event Act)) (net : Netfilter) (sys : System) (a : ℕ)
    (queue : ℤ) (m w v : ℕ) (links : List Link) (link : Link) (t f s b ef ed ea now : ℕ)
    → IsOpen sys (unsigned 16 queue) a
    → (sys.memory a).tune_rwnd ≡ suc v
    → save sys.tcp.mark (pos (suc v)) sys.tcp.hist_param ≡ some links
    → hist_at (pos m) links ≡ some link
    → link.hist_rw ≡ pos w
    → w < 2 ^ 16
    → m < 10
    → t + f + s + suc b < 2 ^ 31
    → t ≤ now
    → Perm (qsort (line_events queue m t f s b ef ed ea)) (line_events queue m t f s b ef ed ea)
    → Pairwise (λ x y. ¬ IsAfter x y) (qsort (line_events queue m t f s b ef ed ea))
    → (parse_handle_solution [] (pos t) (solution_line queue m t f s b ef ed ea)
        ≡ some (line_events queue m t f s b ef ed ea))
      × ShowsAfter net
          (unsigned 16 queue)
          a
          links
          m
          sys.tcp.burst_sample_interval
          (keep (λ e. leb e.time now) (qsort (line_events queue m t f s b ef ed ea)))
          sys
          (phase
            (sys.memory a).do_dedup
            sys.tcp.sample_interval
            sys.tcp.burst_sample_interval
            link.rtt
            w
            (leb (t + f) now)
            (leb (t + f + s) now)
            (leb (t + f + suc b) now))
parse_handle_solution-phase qsort net sys a queue m w v links link t f s b ef ed ea now o tuned
      saved found rw_known fits small time from same sorted =
    (
      solution_parsed queue m t f s b ef ed ea small time,
      rw (line_ordered queue m t f s b ef ed ea qsort same sorted) (
          ordered-Right net (unsigned 16 queue) a m links link w found rw_known fits small sys v o
            tuned saved t f s (suc b) now (ground arith)),
    )
