-- ===== src/Scheduler.antt =====
-- The schedule of events, src/scheduler.c. A handler and its data are a value of `H`, `exec` what it does
-- to the two fields of the TCP solution that the loop reads, and `qsort` the C library's. The clock is
-- waited for before a handler runs, so that only the order of the calls is left here.
pub mod Order
pub mod Loop
pub mod Unique
mod Tests
use mathlib.Core.Option
use emulator_test.Prelude.{
  ℕ, zero, suc, ◌+◌, ◌%◌, ◌^◌, List, [], ◌∷◌, ◌++◌, length, Bool, true, false, leb, ltb, Option,
  none, some, if◌then◌else◌,
}
use emulator_test.Prelude.Int.{ℤ, pos, negsuc}

pub record Event {ℓ} (H : Type ℓ) : Type ℓ where
  pub time : ℕ
  pub idx : ℕ
  pub handler : H

-- `fire` and `sample_interval` of `tcp_ctx`
pub record Ticks : Type 0 where
  pub fire : ℕ
  pub sample_interval : ℕ

-- What has run, with the time that was waited for.
pub data Call {ℓ} (H : Type ℓ) : Type ℓ where
  handled : ℕ → H → Call H
  ticked : ℕ → Call H

module _ {ℓ} {H : Type ℓ} where
  -- SCHEDULER_MAX_EVENT is 0xFFFF.
  unfoldable pub scheduler_add_event : List (Event H) → ℕ → H → List (Event H) × ℤ
  scheduler_add_event events time h =
      if leb 65535 (length events)
      then (events, negsuc 0)
      else (events ++ (record { time = time; idx = length events; handler = h }) ∷ [], pos 0)

  -- Calls of `scheduler_add_event` one after the other.
  unfoldable pub add_all : List (Event H) → List (ℕ × H) → List (Event H)
  unfolding scheduler_add_event
  add_all events [] = events
  add_all events ((time, h) ∷ rest) = add_all (scheduler_add_event events time h).0 rest

  unfoldable pub scheduler_compare_event : Event H → Event H → ℤ
  scheduler_compare_event a b =
      if ltb b.time a.time
      then pos 1
      else if ltb a.time b.time
      then negsuc 0
      else if ltb b.idx a.idx
      then pos 1
      else if ltb a.idx b.idx
      then negsuc 0
      else pos 0

  -- The loop on its remaining events.
  schedule_loop : (H → Ticks → Ticks) → ℕ → Ticks → List (Event H) → Option (List (Call H))
  schedule_loop exec fuel t [] = some []
  schedule_loop exec zero t (e ∷ es) = none
  schedule_loop exec (suc fuel) t (e ∷ es) =
      let fire = (t.fire + t.sample_interval) % 2 ^ 64 in
      elim (ltb e.time fire) [
        | true ↦
            Option.map (◌∷◌ (handled e.time e.handler))
              (schedule_loop exec fuel (exec e.handler t) es)
        | false ↦
            Option.map (◌∷◌ (ticked fire))
              (schedule_loop exec fuel (record t { fire = fire }) (e ∷ es))
      ]

  unfoldable pub scheduler_run :
      (List (Event H) → List (Event H))
      → (H → Ticks → Ticks)
      → ℕ
      → Ticks
      → List (Event H)
      → Option (List (Call H))
  unfolding schedule_loop
  scheduler_run qsort exec fuel t events = schedule_loop exec fuel t (qsort events)
