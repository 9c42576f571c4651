-- ===== src/Scheduler/Tests.antt =====
-- A schedule of two events that are added late first.
use mathlib.Core.HLevel.{¬_prop}
use mathlib.Core.List.{Pairwise, Pairwise-singleton, reverse_perm, forall_mem-cons, not-mem-nil}
use emulator_test.Prelude.{ℕ, ◌≡◌, refl, List, [], ◌∷◌, map, reverse, arith, some}
use emulator_test.Scheduler.{
  Event, Ticks, Call, handled, ticked, add_all, scheduler_compare_event, scheduler_run,
}
use emulator_test.Scheduler.Order.{numbered, take, InOrder, IsAfter, qsort-InOrder}
use emulator_test.Scheduler.Loop.{
  IsLive, budget, call_of, handled_calls, IsSchedule, scheduler_run_lem,
}

abbrev late_first : List (ℕ × ℕ)
late_first = (70, 1) ∷ (10, 2) ∷ []

abbrev schedule : List (Event ℕ)
schedule = add_all [] late_first

-- The first handler starts ticks from 40 on, each 10 ms behind the last one.
abbrev start_ticks : ℕ → Ticks → Ticks
start_ticks h t = record { fire = 30; sample_interval = 10 }

abbrev no_ticks : Ticks
no_ticks = record { fire = 4294967295; sample_interval = 0 }

runs_schedule :
    scheduler_run reverse start_ticks 200 no_ticks schedule
    ≡ some (handled 10 2 ∷ ticked 40 ∷ ticked 50 ∷ ticked 60 ∷ ticked 70 ∷ handled 70 1 ∷ [])
unfolding scheduler_run add_all
runs_schedule = refl

sorted : Pairwise (λ a b. ¬ IsAfter a b) (reverse schedule)
unfolding add_all IsAfter scheduler_compare_event
sorted =
    Pairwise.cons
      ((forall_mem-cons (λ x. ¬_prop)).1 ((λ e. absurd cc), λ x m. absurd (not-mem-nil m)))
      (Pairwise-singleton _ _)

qsort-InOrder_example :
    (schedule ≡ numbered 0 (take 65535 late_first)) × Pairwise InOrder (reverse schedule)
qsort-InOrder_example = qsort-InOrder reverse late_first (reverse_perm schedule) sorted

start_ticks-IsLive : (h : ℕ) (t : Ticks) → IsLive 100 t → IsLive 100 (start_ticks h t)
unfolding IsLive
start_ticks-IsLive h t l = ground arith

scheduler_run_lem_example :
    (calls : List (Call ℕ)) × (scheduler_run reverse start_ticks 202 no_ticks schedule ≡ some calls)
    × (handled_calls calls ≡ map call_of (reverse schedule))
    × IsSchedule start_ticks no_ticks calls
unfolding IsLive add_all budget
scheduler_run_lem_example =
    scheduler_run_lem start_ticks 100 start_ticks-IsLive reverse 202 no_ticks schedule
      (ground arith) (omega arith, (omega arith, tt)) (omega arith)
