-- ===== src/Handover.antt =====
-- The handover statistics of scripts/processing/metrics.py: `filter_ho_types`, `filter_link_duration`
-- and the part of the main block that collects each link's throughput. Links are integers, 1 for sub-6
-- GHz and 2 for mmWave.
pub mod Types
pub mod Links
pub mod Coverage
mod Tests
use emulator_test.Prelude.{
  ℕ, suc, ◌≡◌, ◌⊎◌, List, [], ◌∷◌, ◌++◌, ◌&&◌, Bool, Option, none, some, if◌then◌else◌, Result, ok,
  raised, index_error, ◌>>=◌,
}
use emulator_test.Prelude.Int.{ℤ, pos, negsuc, eq_ℤ}
use emulator_test.Number.{Number, number}
use emulator_test.Iperf.{filter_time_range}

-- `defaultdict(list)`, from a link to its intervals.
abbrev pub Durations {ℓ} : Type ℓ → Type ℓ
Durations F = List (ℤ × List (F × F))

module _ {ℓ} {F : Type ℓ} where
  -- The loop of `filter_ho_types`: `target_links[i]` is read on every round.
  types_loop : ℤ → ℤ → ℤ → List F → List ℤ → List F → Result (List F)
  types_loop from to prev [] links out = ok out
  types_loop from to prev (t ∷ ts) [] out = raised index_error
  types_loop from to prev (t ∷ ts) (l ∷ ls) out =
      types_loop from to l ts ls (if eq_ℤ prev from && eq_ℤ l to then out ++ t ∷ [] else out)

  unfoldable pub filter_ho_types : List F → List ℤ → ℤ → ℤ → ℤ → Result (List F)
  unfolding types_loop
  filter_ho_types ho_times target_links from to initial_link =
      if eq_ℤ from (pos 0) && eq_ℤ to (pos 0)
      then ok ho_times
      else types_loop from to initial_link ho_times target_links []

  unfoldable pub get : ℤ → Durations F → List (F × F)
  get k [] = []
  get k ((j, v) ∷ d) = if eq_ℤ j k then v else get k d

  put : ℤ → List (F × F) → Durations F → Durations F
  put k v [] = (k, v) ∷ []
  put k v ((j, w) ∷ d) = if eq_ℤ j k then (k, v) ∷ d else (j, w) ∷ put k v d

  -- `duration[k].append(v)`
  append_to : ℤ → F × F → Durations F → Durations F
  unfolding get put
  append_to k v d = put k (get k d ++ v ∷ []) d

  -- `xs[-1][1] = t`
  set_end : F → List (F × F) → Option (List (F × F))
  set_end t [] = none
  set_end t (x ∷ []) = some ((x.0, t) ∷ [])
  set_end t (x ∷ y ∷ r) = elim (set_end t (y ∷ r)) [ none ↦ none | some r' ↦ some (x ∷ r') ]

  -- `duration[k][-1][1] = t`
  close : ℤ → F → Durations F → Result (Durations F)
  unfolding get put set_end
  close k t d = elim (set_end t (get k d)) [ none ↦ raised index_error | some xs ↦ ok (put k xs d) ]

module _ {ℓ} {F : Type ℓ} ⦃n : Number F⦄ where
  -- The end of an interval that is not over yet.
  abbrev open_end : F
  open_end = n.of_ℤ (negsuc 0)

  -- One round of the loop of `filter_link_duration`, on the dictionary and `prev_link`.
  visit : ℤ → F → Durations F × ℤ → Result (Durations F × ℤ)
  unfolding append_to close
  visit l t (d, prev) =
      if eq_ℤ l prev
      then ok (d, prev)
      else do d' ← close prev t d; ok (append_to l (t, open_end) d', l)

  duration_loop : List F → List ℤ → Durations F × ℤ → Result (Durations F × ℤ)
  duration_loop [] links s = ok s
  duration_loop (t ∷ ts) [] s = raised index_error
  duration_loop (t ∷ ts) (l ∷ ls) s = do s' ← visit l t s; duration_loop ts ls s'

  unfoldable pub filter_link_duration : List F → List ℤ → F → ℤ → Result (Durations F)
  unfolding visit duration_loop append_to close
  filter_link_duration ho_times target_links time_end initial_link = do
    s ←
        duration_loop ho_times target_links
          (append_to initial_link (number 0, open_end) [], initial_link)
    close s.1 time_end s.0

  -- `for dur in link_durations[link]: ... thuputs.extend(tp)`
  unfoldable pub collect : List (F × F) → List F → List F → List F
  unfolding filter_time_range
  collect [] ts thuputs = []
  collect ((start, finish) ∷ durs) ts thuputs =
      (filter_time_range ts thuputs start finish).1 ++ collect durs ts thuputs

  -- The throughput samples of sub-6 GHz and of mmWave, as the main block gathers them; the run's end is
  -- an argument, where the source takes the last sample's time by `max`.
  unfoldable pub link_thuputs : List F → List ℤ → List F → List F → F → Result (List F × List F)
  unfolding filter_link_duration get collect
  link_thuputs ho_times target_links ts thuputs time_end = do
    d ← filter_link_duration ho_times target_links time_end (pos 1)
    ok (collect (get (pos 1) d) ts thuputs, collect (get (pos 2) d) ts thuputs)
