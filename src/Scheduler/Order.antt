-- ===== src/Scheduler/Order.antt =====
-- The order of a schedule: `scheduler_add_event` and `scheduler_compare_event`.
use emulator_test.Prelude.{
  ℕ, zero, suc, ◌+◌, ◌≤◌, ◌<◌, ◌≡◌, ◌≢◌, ◌⊎◌, refl, sym, ap, ◌∙◌, List, [], ◌∷◌, ◌++◌, length,
  length-append, append_assoc, append-nil, arith,
}
use mathlib.Core.HLevel.{¬_prop}
use mathlib.Core.List.{Perm, Pairwise, Mem, not-mem-nil, forall_mem-cons, Pairwise-and_iff}
use mathlib.Core.List.Perm
use mathlib.Core.List.Pairwise
use native.Mathlib.Bridge.{le_prop}
use emulator_test.Prelude.Int.{pos}
use emulator_test.Scheduler.{Event, scheduler_add_event, add_all, scheduler_compare_event}

module _ {ℓ} {A : Type ℓ} where
  pub take : ℕ → List A → List A
  take zero xs = []
  take (suc n) [] = []
  take (suc n) (x ∷ xs) = x ∷ take n xs

module _ {ℓ} {H : Type ℓ} where
  -- Events with their number, in the order of the calls.
  pub numbered : ℕ → List (ℕ × H) → List (Event H)
  numbered i [] = []
  numbered i ((time, h) ∷ rest) =
      record { time = time; idx = i; handler = h } ∷ numbered (suc i) rest

  event_added :
      (events : List (Event H)) (time : ℕ) (h : H)
      → length events < 65535
      → (scheduler_add_event events time h).0
        ≡ events ++ (record { time = time; idx = length events; handler = h }) ∷ []
  unfolding scheduler_add_event
  event_added events time h room = ground arith

  event_refused :
      (events : List (Event H)) (time : ℕ) (h : H)
      → 65535 ≤ length events
      → (scheduler_add_event events time h).0 ≡ events
  unfolding scheduler_add_event
  event_refused events time h full = ground arith

  add_all-full :
      (events : List (Event H)) (calls : List (ℕ × H))
      → 65535 ≤ length events
      → add_all events calls ≡ events
  unfolding add_all
  add_all-full events [] full = refl
  add_all-full events ((time, h) ∷ calls) full =
      rw (event_refused events time h full) (add_all-full events calls full)

  add_all-numbered :
      (room : ℕ) (events : List (Event H)) (calls : List (ℕ × H))
      → room + length events ≡ 65535
      → add_all events calls ≡ events ++ numbered (length events) (take room calls)
  unfolding add_all take numbered
  add_all-numbered zero events calls h =
      add_all-full events calls (omega arith) ∙ sym (append-nil events)
  add_all-numbered (suc room) events [] h = sym (append-nil events)
  add_all-numbered (suc room) events ((time, handler) ∷ calls) h =
      let e : Event H = record { time = time; idx = length events; handler = handler } in
      let longer = length-append events (e ∷ []) in
      let one_more : length (events ++ e ∷ []) ≡ suc (length events) = longer ∙ omega arith in
      let rest = add_all-numbered room (events ++ e ∷ []) calls (omega arith) in
      rw (event_added events time handler (omega arith)) (
        rest
        ∙ append_assoc events (e ∷ []) _
        ∙ ap (λ i. events ++ e ∷ numbered i (take room calls)) one_more)

  unfoldable pub InOrder : Event H → Event H → Type 0
  InOrder a b = (a.time < b.time) ⊎ ((a.time ≡ b.time) × (a.idx < b.idx))

  unfoldable pub IsAfter : Event H → Event H → Type 0
  IsAfter a b = scheduler_compare_event a b ≡ pos 1

  compare-InOrder :
      (a b : Event H) → scheduler_compare_event a b ≢ pos 1 → a.idx ≢ b.idx → InOrder a b
  unfolding scheduler_compare_event InOrder
  compare-InOrder a b h other = ground arith

  numbered_above :
      (i j : ℕ) (calls : List (ℕ × H))
      → j ≤ i
      → (x : Event H) → Mem x (numbered i calls)
      → j ≤ x.idx
  unfolding numbered
  numbered_above i j [] h = λ x m. absurd (not-mem-nil m)
  numbered_above i j ((time, handler) ∷ calls) h =
      (forall_mem-cons (λ x. le_prop)).1 (h, numbered_above (suc i) j calls (omega arith))

  numbered-distinct :
      (i : ℕ) (calls : List (ℕ × H))
      → Pairwise (λ (a b : Event H). a.idx ≢ b.idx) (numbered i calls)
  unfolding numbered
  numbered-distinct i [] = Pairwise.nil
  numbered-distinct i ((time, handler) ∷ calls) =
      Pairwise.cons
        (λ x m. let above = numbered_above (suc i) (suc i) calls (omega arith) x m in ground arith)
        (numbered-distinct (suc i) calls)

  add_all-distinct :
      (calls : List (ℕ × H)) → Pairwise (λ (a b : Event H). a.idx ≢ b.idx) (add_all [] calls)
  add_all-distinct calls =
      rw (add_all-numbered 65535 [] calls refl) (numbered-distinct 0 (take 65535 calls))

  -- Where `qsort` loses no event and leaves none in front of one that it compares as smaller, the schedule
  -- of the events that were added is by time, and by the order of the calls where the times are equal;
  -- and no call behind the first 65535 adds an event.
  pub qsort-InOrder :
      (qsort : List (Event H) → List (Event H)) (calls : List (ℕ × H))
      → Perm (qsort (add_all [] calls)) (add_all [] calls)
      → Pairwise (λ a b. ¬ IsAfter a b) (qsort (add_all [] calls))
      → (add_all [] calls ≡ numbered 0 (take 65535 calls))
        × Pairwise InOrder (qsort (add_all [] calls))
  unfolding IsAfter
  qsort-InOrder qsort calls same sorted =
      let distinct =
        Perm.pairwise {R = λ (a b : Event H). a.idx ≢ b.idx} (λ a b. ¬_prop) (λ a b n e. n (sym e))
          (Perm.symm same) (add_all-distinct calls) in
      (
        add_all-numbered 65535 [] calls refl,
        Pairwise.imp (λ a b (before, other). compare-InOrder a b before other)
            (Pairwise-and_iff.1 (sorted, distinct)),
      )
