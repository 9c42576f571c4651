-- ===== src/Closest/Tests.antt =====
-- Runs of the searches for the closest sample, and the theorem at a concrete list.
use emulator_test.Prelude.{
  ℕ, ◌<◌, ◌≡◌, refl, true, List, [], ◌∷◌, get_elem?, some, All, ok, raised, value_error,
}
use emulator_test.Prelude.Int.{ℤ, pos, abs, ◌-ℤ◌, eq_ℤ, leb_ℤ, ltb_ℤ}
use emulator_test.Number.{whole_number, whole-IsOrdered}
use emulator_test.Closest.{distance, closest_index, find_closest_indices, find_closest_values}
use emulator_test.Closest.Nearest.{closest_index_lem}

abbrev samples : List ℤ
samples = pos 1 ∷ pos 4 ∷ pos 6 ∷ pos 9 ∷ []

-- 5 is as near to 4 as to 6: the first wins.
indices : find_closest_indices (pos 5 ∷ pos 20 ∷ pos 0 ∷ []) samples ≡ ok (1 ∷ 3 ∷ 0 ∷ [])
unfolding find_closest_indices abs ◌-ℤ◌ eq_ℤ
indices = refl

values : find_closest_values (pos 5 ∷ pos 20 ∷ []) samples ≡ ok (pos 4 ∷ pos 9 ∷ [])
unfolding find_closest_values abs ◌-ℤ◌
values = refl

nothing_to_search : find_closest_indices (pos 5 ∷ []) [] ≡ raised value_error
unfolding find_closest_indices
nothing_to_search = refl

closest_index_lem_example :
    (i : ℕ) × (c : ℤ) × (closest_index samples (pos 5) ≡ ok i)
    × (get_elem? samples i ≡ some c)
    × All (λ x. leb_ℤ (distance (pos 5) c) (distance (pos 5) x) ≡ true) samples
    × ((j : ℕ) (x : ℤ)
        → j < i
        → get_elem? samples j ≡ some x
        → ltb_ℤ (distance (pos 5) c) (distance (pos 5) x) ≡ true)
closest_index_lem_example =
    closest_index_lem whole-IsOrdered (pos 1) (pos 4 ∷ pos 6 ∷ pos 9 ∷ []) (pos 5)
