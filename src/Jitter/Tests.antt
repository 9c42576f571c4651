-- ===== src/Jitter/Tests.antt =====
-- The estimators on small columns.
use emulator_test.Prelude.{ℕ, ◌≡◌, refl, List, [], ◌∷◌, length, ok, some, get_elem?, false, keep}
use emulator_test.Prelude.Int.{ℤ, pos, negsuc, quotient, abs, ◌-ℤ◌, ◌+ℤ◌}
use emulator_test.Number.{whole_number}
use emulator_test.Jitter.{calculate_jitter, compute_jitter_and_transit}
use emulator_test.Jitter.Rfc.{
  at_rows, in_order, rfc_jitters, calculate_jitter_lem, compute_jitter_and_transit-eq,
}

-- The packet before the last is out of order.
abbrev later : List ℤ
later = pos 40 ∷ negsuc 2 ∷ pos 8 ∷ []

jitters : calculate_jitter (pos 8 ∷ later) ≡ ok (pos 0 ∷ pos 2 ∷ pos 0 ∷ pos 3 ∷ [])
unfolding calculate_jitter quotient abs ◌-ℤ◌ ◌+ℤ◌
jitters = refl

calculate_jitter_lem_example :
    (js : List ℤ) × (calculate_jitter (pos 8 ∷ later) ≡ ok (pos 0 ∷ js))
    × (length js ≡ length later)
    × (pos 0 ∷ at_rows in_order later js ≡ rfc_jitters (pos 8 ∷ keep in_order later))
    × ((i : ℕ) (u : ℤ)
        → get_elem? later i ≡ some u
        → in_order u ≡ false
        → get_elem? js i ≡ some (pos 0))
calculate_jitter_lem_example = calculate_jitter_lem (pos 8) later

compute_jitter_and_transit-eq_example :
    compute_jitter_and_transit
      ((pos 9, pos 5) ∷ (pos 10, pos 18) ∷ (pos 11, pos 51) ∷ (pos 13, pos 12) ∷ [])
    ≡ (pos 10, pos 8, pos 0) ∷ (pos 11, pos 40, pos 2) ∷ []
unfolding quotient abs ◌-ℤ◌ ◌+ℤ◌
compute_jitter_and_transit-eq_example =
    compute_jitter_and_transit-eq
      ((pos 9, pos 5) ∷ (pos 10, pos 18) ∷ (pos 11, pos 51) ∷ (pos 13, pos 12) ∷ [])
