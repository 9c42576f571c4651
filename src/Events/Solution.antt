-- ===== src/Events/Solution.antt =====
-- The events of a handover of the TCP solution, a SOL_HO line, in the order of their times.
use emulator_test.Prelude.{
  ℕ, suc, ◌+◌, ◌-◌, ◌^◌, ◌<◌, ◌≡◌, refl, sym, ap, List, [], ◌∷◌, true, false, some, map, leb,
  if◌then◌else◌, inl, inr, Bool-cases, ◌==◌, arith,
}
use mathlib.Core.Path.{subst}
use mathlib.Core.List.{Perm, Pairwise, perm_middle}
use mathlib.Core.List.Perm
use emulator_test.Prelude.Int.{ℤ, pos, ◌+ℤ◌, sub_ℕ}
use emulator_test.Worker.{is_positive}
use emulator_test.Scheduler.{Event, scheduler_add_event, add_all}
use emulator_test.Scheduler.Order.{InOrder, IsAfter, qsort-InOrder}
use emulator_test.Scheduler.Unique.{chain-Pairwise, schedule_unique}
use emulator_test.Events.{
  Act, sol_update, set_rwnd, set_dedup, set_burst, set_adapt, unsigned, add_event, add_if,
  parse_handle_solution,
}

Event_Act-set : IsSet (Event Act)
Event_Act-set = hlevel

abbrev pub event : ℕ → ℕ → Act → Event Act
event time idx h = record { time = time; idx = idx; handler = h }

module _ (k m t f s b : ℕ) where
  abbrev pub update_it : Event Act
  update_it = event t 0 (sol_update k m)

  abbrev pub freeze_it : Event Act
  freeze_it = event t 1 (set_rwnd k m)

  abbrev pub dedup_it : Event Act
  dedup_it = event (t + f) 2 (set_dedup k true)

  abbrev pub smooth_it : Event Act
  smooth_it = event (t + f + s) 3 (set_dedup k false)

  abbrev pub burst_it : Event Act
  burst_it = event (t + f) 4 (set_burst k true)

  abbrev pub end_it : Event Act
  end_it = event (t + f + b) 5 (set_burst k false)

  abbrev pub adapt_it : Event Act
  adapt_it = event (t + f + b) 6 (set_adapt k (t + f + b) true)

  -- In the order of the calls.
  pub solution_events : List (Event Act)
  solution_events = update_it ∷ freeze_it ∷ dedup_it ∷ smooth_it ∷ burst_it ∷ end_it ∷ adapt_it ∷ []

  -- In the order of the times: the duplicates are dropped for no time, for at most the burst, or for longer.
  abbrev pub at_once : List (Event Act)
  at_once = update_it ∷ freeze_it ∷ dedup_it ∷ smooth_it ∷ burst_it ∷ end_it ∷ adapt_it ∷ []

  abbrev pub shorter : List (Event Act)
  shorter = update_it ∷ freeze_it ∷ dedup_it ∷ burst_it ∷ smooth_it ∷ end_it ∷ adapt_it ∷ []

  abbrev pub longer : List (Event Act)
  longer = update_it ∷ freeze_it ∷ dedup_it ∷ burst_it ∷ end_it ∷ adapt_it ∷ smooth_it ∷ []

  unfoldable pub ordered : List (Event Act)
  ordered = if s == 0 then at_once else if leb s b then shorter else longer

  cons3 :
      {xs ys : List (Event Act)}
      → Perm xs ys
      → Perm (update_it ∷ freeze_it ∷ dedup_it ∷ xs) (update_it ∷ freeze_it ∷ dedup_it ∷ ys)
  cons3 p = Perm.cons _ (Perm.cons _ (Perm.cons _ p))

  pub ordered-Perm : Perm ordered solution_events
  unfolding ordered solution_events
  ordered-Perm = elim (Bool-cases (s == 0)) [
    | inl z ↦ rw z (Perm.refl _)
    | inr more ↦ elim (Bool-cases (leb s b)) [
      | inl short ↦ rw (more, short) (cons3 (Perm.swap smooth_it burst_it (end_it ∷ adapt_it ∷ [])))
      | inr long ↦ rw (more, long) (cons3 (perm_middle (burst_it ∷ end_it ∷ adapt_it ∷ []) []))
    ]
  ]

  pub ordered-InOrder : 0 < b → Pairwise InOrder ordered
  unfolding ordered InOrder
  ordered-InOrder h = elim (Bool-cases (s == 0)) [
    | inl z ↦ rw z (
        chain-Pairwise at_once (
          ground arith,
          (ground arith, (ground arith, (ground arith, (ground arith, (ground arith, tt))))),
        ))
    | inr more ↦ elim (Bool-cases (leb s b)) [
      | inl short ↦
          rw (more, short)
            (chain-Pairwise shorter (
              ground arith,
              (ground arith, (ground arith, (ground arith, (ground arith, (ground arith, tt))))),
            ))
      | inr long ↦
          rw (more, long)
            (chain-Pairwise longer (
              ground arith,
              (ground arith, (ground arith, (ground arith, (ground arith, (ground arith, tt))))),
            ))
    ]
  ]

  pub qsort-ordered :
      (qsort : List (Event Act) → List (Event Act))
      → 0 < b
      → Perm (qsort solution_events) solution_events
      → Pairwise InOrder (qsort solution_events)
      → qsort solution_events ≡ ordered
  qsort-ordered qsort h same sorted =
      schedule_unique Event_Act-set _ _ (Perm.trans same (Perm.symm ordered-Perm)) sorted
        (ordered-InOrder h)

sum_pos : (x y : ℕ) → pos x +ℤ pos y ≡ pos (x + y)
unfolding ◌+ℤ◌
sum_pos x y =
    let reads : leb 0 (x + y) ≡ true = ground arith in
    let same : x + y - 0 ≡ x + y = omega arith in rw (reads, sub_ℕ) (ap pos same)

bits : (w x : ℕ) → x < 2 ^ w → unsigned w (pos x) ≡ x
unfolding unsigned
bits w x h = grind arith

module _ (queue : ℤ) (m t f s b ef ed ea : ℕ) where
  -- A line with all parts enabled.
  abbrev pub solution_line : List ℤ
  solution_line =
      queue ∷ pos m ∷ pos (suc ef) ∷ pos f ∷ pos (suc ed) ∷ pos s ∷ pos (suc b) ∷ pos (suc ea) ∷ []

  abbrev pub line_events : List (Event Act)
  line_events = solution_events (unsigned 16 queue) m t f s (suc b)

  pub solution_parsed :
      m < 10
      → t + f + s + suc b < 2 ^ 31
      → parse_handle_solution [] (pos t) solution_line ≡ some line_events
  unfolding parse_handle_solution add_event add_if solution_events scheduler_add_event is_positive
  solution_parsed small fits =
      let k = unsigned 16 queue in
      let m16 = bits 16 m (omega arith) in
      let m32 = bits 32 m (omega arith) in
      let t64 = bits 64 t (omega arith) in
      let f64 = bits 64 (t + f) (omega arith) in
      let s64 = bits 64 (t + f + s) (omega arith) in
      let b64 = bits 64 (t + f + suc b) (omega arith) in
      rw (sum_pos t f)
        (rw (sum_pos (t + f) s, sum_pos (t + f) (suc b)) (rw (m16, m32, t64, f64, s64, b64) refl))

  line_calls : List (ℕ × Act)
  line_calls = map (λ e. (e.time, e.handler)) line_events

  line_added : add_all [] line_calls ≡ line_events
  unfolding add_all line_calls solution_events
  line_added = refl

  -- The order in which the events of the line run.
  pub line_ordered :
      (qsort : List (Event Act) → List (Event Act))
      → Perm (qsort line_events) line_events
      → Pairwise (λ a b. ¬ IsAfter a b) (qsort line_events)
      → qsort line_events ≡ ordered (unsigned 16 queue) m t f s (suc b)
  line_ordered qsort same sorted =
      let permutes = subst (λ es. Perm (qsort es) es) (sym line_added) same in
      let in_order =
        subst (λ es. Pairwise InOrder (qsort es)) line_added
          ((qsort-InOrder qsort line_calls permutes (
            subst (λ es. Pairwise (λ a b. ¬ IsAfter a b) (qsort es)) (sym line_added) sorted)).1) in
      qsort-ordered (unsigned 16 queue) m t f s (suc b) qsort (omega arith) same in_order
