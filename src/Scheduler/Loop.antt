-- ===== src/Scheduler/Loop.antt =====
-- The loop of `scheduler_run`: events and the ticks of the TCP solution.
use emulator_test.Prelude.{
  ℕ, zero, suc, ◌+◌, ◌-◌, ◌%◌, ◌^◌, ◌≤◌, ◌<◌, ◌≡◌, ◌⊎◌, inl, inr, refl, ap, List, [], ◌∷◌, map,
  arith, ltb, true, false, Bool-cases, All, some,
}
use mathlib.Core.Option
use emulator_test.Scheduler.{Event, Ticks, Call, handled, ticked, schedule_loop, scheduler_run}

-- The times stay below 2^63, and either the ticks advance or every event comes before the next one.
unfoldable pub IsLive : ℕ → Ticks → Type 0
IsLive limit t =
    (limit ≤ 2 ^ 62)
    × (t.fire ≤ 2 ^ 62)
    × (t.sample_interval < 2 ^ 31)
    × ((0 < t.sample_interval) ⊎ (limit ≤ t.fire))

module _ {ℓ} {H : Type ℓ} where
  -- An event and the ticks in front of it.
  unfoldable pub budget : ℕ → List (Event H) → ℕ
  budget limit [] = 0
  budget limit (e ∷ es) = suc limit + budget limit es

  pub call_of : Event H → ℕ × H
  call_of e = (e.time, e.handler)

  pub handled_calls : List (Call H) → List (ℕ × H)
  handled_calls [] = []
  handled_calls (handled time h ∷ calls) = (time, h) ∷ handled_calls calls
  handled_calls (ticked fire ∷ calls) = handled_calls calls

  first_time : ℕ → List (ℕ × H) → ℕ
  first_time otherwise [] = otherwise
  first_time otherwise ((time, h) ∷ calls) = time

  -- A tick is not after the next event.
  pub IsInTime : ℕ → List (Call H) → Type 0
  IsInTime fire [] = Unit
  IsInTime fire (handled time h ∷ calls) = fire ≤ time
  IsInTime fire (ticked later ∷ calls) = IsInTime fire calls

  module _ (exec : H → Ticks → Ticks) where
    -- Each tick is an interval behind the last one and not after the next event, and no event runs at or
    -- after the time of a tick that is still to come.
    pub IsSchedule : Ticks → List (Call H) → Type 0
    IsSchedule t [] = Unit
    IsSchedule t (handled time h ∷ calls) =
        (time < t.fire + t.sample_interval) × IsSchedule (exec h t) calls
    IsSchedule t (ticked fire ∷ calls) =
        (fire ≡ t.fire + t.sample_interval)
        × IsInTime fire calls
        × IsSchedule (record t { fire = fire }) calls

    module _ (limit : ℕ)
        (live : (h : H) (t : Ticks) → IsLive limit t → IsLive limit (exec h t)) where
      Returns : ℕ → Ticks → List (Event H) → Type ℓ
      Returns fuel t es =
          (calls : List (Call H)) × (schedule_loop exec fuel t es ≡ some calls)
          × (handled_calls calls ≡ map call_of es)
          × IsSchedule t calls

      loop-handled :
          (fuel : ℕ) (t : Ticks) (e : Event H) (es : List (Event H))
          → ltb e.time ((t.fire + t.sample_interval) % 2 ^ 64) ≡ true
          → schedule_loop exec (suc fuel) t (e ∷ es)
            ≡ Option.map
                (◌∷◌ (handled e.time e.handler))
                (schedule_loop exec fuel (exec e.handler t) es)
      unfolding schedule_loop
      loop-handled fuel t e es before = rw (before, schedule_loop) refl

      loop-ticked :
          (fuel : ℕ) (t : Ticks) (e : Event H) (es : List (Event H))
          → ltb e.time ((t.fire + t.sample_interval) % 2 ^ 64) ≡ false
          → schedule_loop exec (suc fuel) t (e ∷ es) ≡ (
              let fire = (t.fire + t.sample_interval) % 2 ^ 64 in
              Option.map
                (◌∷◌ (ticked fire))
                (schedule_loop exec fuel (record t { fire = fire }) (e ∷ es)))
      unfolding schedule_loop
      loop-ticked fuel t e es due = rw (due, schedule_loop) refl

      event-Returns :
          (fuel : ℕ) (t : Ticks) (e : Event H) (es : List (Event H))
          → IsLive limit t
          → ltb e.time ((t.fire + t.sample_interval) % 2 ^ 64) ≡ true
          → Returns fuel (exec e.handler t) es
          → Returns (suc fuel) t (e ∷ es)
      unfolding Returns IsSchedule IsLive handled_calls call_of
      event-Returns fuel t e es l before (calls, done, all, timed) = (
        handled e.time e.handler ∷ calls,
        rw (loop-handled fuel t e es before, done) refl,
        ap (◌∷◌ (e.time, e.handler)) all,
        (ground (arith, l, before), timed),
      )

      in_time :
          (fire time : ℕ) (h : H) (calls : List (Call H)) (rest : List (ℕ × H))
          → handled_calls calls ≡ (time, h) ∷ rest
          → fire ≤ time
          → IsInTime fire calls
      unfolding handled_calls IsInTime first_time
      in_time fire time h [] rest all le = tt
      in_time fire time h (handled time' h' ∷ calls) rest all le =
          let same : time' ≡ time = ap (first_time 0) all in omega arith
      in_time fire time h (ticked later ∷ calls) rest all le = in_time fire time h calls rest all le

      tick-Returns :
          (fuel : ℕ) (t : Ticks) (e : Event H) (es : List (Event H))
          → IsLive limit t
          → ltb e.time ((t.fire + t.sample_interval) % 2 ^ 64) ≡ false
          → Returns fuel (record t { fire = (t.fire + t.sample_interval) % 2 ^ 64 }) (e ∷ es)
          → Returns (suc fuel) t (e ∷ es)
      unfolding Returns IsSchedule IsLive call_of handled_calls
      tick-Returns fuel t e es l due (calls, done, all, timed) =
          let fire = (t.fire + t.sample_interval) % 2 ^ 64 in
          (
            ticked fire ∷ calls,
            rw (loop-ticked fuel t e es due, done) refl,
            all,
            (
              ground (arith, l),
              in_time fire e.time e.handler calls _ all (ground (arith, due)),
              timed,
            ),
          )

      tick-IsLive :
          (t : Ticks) (time : ℕ)
          → IsLive limit t
          → time < limit
          → ltb time ((t.fire + t.sample_interval) % 2 ^ 64) ≡ false
          → IsLive limit (record t { fire = (t.fire + t.sample_interval) % 2 ^ 64 })
            × (t.fire < (t.fire + t.sample_interval) % 2 ^ 64)
            × ((t.fire + t.sample_interval) % 2 ^ 64 < limit)
      unfolding IsLive
      tick-IsLive t time l small due = ground (arith, l, small, due)

      need : Ticks → List (Event H) → ℕ
      need t [] = 0
      need t (e ∷ es) = suc (limit - t.fire) + budget limit es

      need-le-budget : (t : Ticks) (es : List (Event H)) → need t es ≤ budget limit es
      unfolding need budget
      need-le-budget t [] = omega arith
      need-le-budget t (e ∷ es) = omega arith

      returns :
          (fuel : ℕ) (t : Ticks) (es : List (Event H))
          → IsLive limit t
          → All (λ e. e.time < limit) es
          → need t es ≤ fuel
          → Returns fuel t es
      unfolding Returns need budget schedule_loop IsSchedule handled_calls
      returns fuel t [] l a enough = ([], refl, refl, tt)
      returns zero t (e ∷ es) l (small, a) enough = absurd (omega arith)
      returns (suc fuel) t (e ∷ es) l (small, a) enough =
          elim (Bool-cases (ltb e.time ((t.fire + t.sample_interval) % 2 ^ 64))) [
            | inl before ↦
                let t' = exec e.handler t in
                let le = need-le-budget t' es in
                event-Returns fuel t e es l before
                  (returns fuel t' es (live e.handler t l) a (omega arith))
            | inr due ↦
                let (l', more, below) = tick-IsLive t e.time l small due in
                tick-Returns fuel t e es l due (returns fuel _ (e ∷ es) l' (small, a) (omega arith))
          ]

      -- Where the events' times are below a limit of at most 2^62, the ticks advance by less than
      -- 2^31 ms or every event comes before the next tick, and no handler changes that,
      -- `scheduler_run` ends after at most one round for each event and one for each tick that is
      -- possible in front of it: it runs every event once, in the order of the sorted schedule,
      -- each before the tick that is next then, and each tick an interval behind the last one and
      -- not after the event that follows it.
      pub scheduler_run_lem :
          (qsort : List (Event H) → List (Event H)) (fuel : ℕ) (t : Ticks) (events : List (Event H))
          → IsLive limit t
          → All (λ e. e.time < limit) (qsort events)
          → budget limit (qsort events) ≤ fuel
          → (calls : List (Call H)) × (scheduler_run qsort exec fuel t events ≡ some calls)
            × (handled_calls calls ≡ map call_of (qsort events))
            × IsSchedule t calls
      unfolding scheduler_run Returns
      scheduler_run_lem qsort fuel t events l small enough =
          let le = need-le-budget t (qsort events) in
          returns fuel t (qsort events) l small (omega arith)
