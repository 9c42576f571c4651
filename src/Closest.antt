-- ===== src/Closest.antt =====
-- `find_closest_values` and `find_closest_indices` of scripts/processing/metrics.py.
pub mod Nearest
mod Tests
use emulator_test.Prelude.{
  ℕ, suc, List, [], ◌∷◌, map, if◌then◌else◌, Result, ok, raised, value_error, ◌>>=◌,
}
use emulator_test.Number.{Number}

module _ {ℓ} {F : Type ℓ} ⦃n : Number F⦄ where
  abbrev pub distance : F → F → F
  distance a b = n.absolute (n.minus a b)

  -- Python's `min`: a later element wins only if it is smaller.
  min_from : F → List F → F
  min_from m [] = m
  min_from m (x ∷ xs) = min_from (if n.lt x m then x else m) xs

  minimum : List F → Result F
  unfolding min_from
  minimum [] = raised value_error
  minimum (x ∷ xs) = ok (min_from x xs)

  -- `differences.index(m)`
  index_of : F → List F → Result ℕ
  index_of m [] = raised value_error
  index_of m (x ∷ xs) =
      let rest = index_of m xs in if n.eq x m then ok 0 else (do i ← rest; ok (suc i))

  unfoldable pub closest_index : List F → F → Result ℕ
  unfolding minimum index_of
  closest_index list_b value = do
    closest ← minimum (map (distance value) list_b)
    index_of closest (map (distance value) list_b)

  unfoldable pub find_closest_indices : List F → List F → Result (List ℕ)
  unfolding closest_index
  find_closest_indices [] list_b = ok []
  find_closest_indices (a ∷ list_a) list_b = do
    i ← closest_index list_b a
    is ← find_closest_indices list_a list_b
    ok (i ∷ is)

  -- `min(list_b, key=lambda b: abs(b - a))`
  min_by : F → F → List F → F
  min_by a best [] = best
  min_by a best (b ∷ bs) = min_by a (if n.lt (distance b a) (distance best a) then b else best) bs

  closest_value : List F → F → Result F
  unfolding min_by
  closest_value [] a = raised value_error
  closest_value (b ∷ bs) a = ok (min_by a b bs)

  unfoldable pub find_closest_values : List F → List F → Result (List F)
  unfolding closest_value
  find_closest_values [] list_b = ok []
  find_closest_values (a ∷ list_a) list_b = do
    v ← closest_value list_b a
    vs ← find_closest_values list_a list_b
    ok (v ∷ vs)
