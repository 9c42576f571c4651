-- ===== src/Rampup.antt =====
-- `calculate_rampup_time` of scripts/processing/metrics.py: how long after each handover the throughput
-- takes to reach a stable value. `random.random()` is a function from the number of earlier calls. The
-- three printed counts are fields of the result.
pub mod Bounds
pub mod LastHandover
pub mod Stable
mod Tests
use emulator_test.Prelude.{
  ℕ, suc, ◌+◌, Bool, List, [], ◌∷◌, drop, get_elem?, length, Option, none, some, if◌then◌else◌,
  Result, ok, raised, index_error, value_error, or_raise, ◌>>=◌,
}
use emulator_test.Prelude.Int.{negsuc}
use emulator_test.Number.{Number, number}
use emulator_test.Closest.{find_closest_indices}

pub record Rampup {ℓ} (F : Type ℓ) : Type ℓ where
  pub times : List F
  pub handovers : ℕ
  pub undone : ℕ
  pub start_full : ℕ

module _ {ℓ} {F : Type ℓ} ⦃n : Number F⦄ where
  -- The `while` loop, on what is left of the two lists from `i` on: the ramp-up time once the throughput
  -- is stable, `none` where the samples or the threshold end first.
  ramp_loop : F → F → F → F → List F → List F → Result (Option F)
  ramp_loop start stable thresh ramp [] xs = ok none
  ramp_loop start stable thresh ramp (t ∷ ts) [] =
      if n.lt ramp thresh then raised index_error else ok none
  ramp_loop start stable thresh ramp (t ∷ ts) (x ∷ xs) =
      let rest = ramp_loop start stable thresh (n.minus t start) ts xs in
      if n.lt ramp thresh
      then (if n.le stable x then ok (some (n.minus t start)) else rest)
      else ok none

  -- What is appended for one handover: -1 where the stable throughput was not reached.
  measured : Option F → F
  measured none = n.of_ℤ (negsuc 0)
  measured (some ramp) = ramp

  pub measure : List F → List F → F → F → ℕ → F → Result F
  unfolding ramp_loop measured
  measure ts xs stable thresh i start = do
    found ← ramp_loop start stable thresh (number 0) (drop i ts) (drop i xs)
    ok (measured found)

  -- All handovers but the last start at their closest sample; the last starts one sample later.
  pub measures : List F → List F → F → F → List ℕ → Result (List F)
  unfolding measure
  measures ts xs stable thresh [] = raised index_error
  measures ts xs stable thresh (i ∷ []) = do
    start ← or_raise (get_elem? ts (suc i)) index_error
    r ← measure ts xs stable thresh i start
    ok (r ∷ [])
  measures ts xs stable thresh (i ∷ j ∷ is) = do
    start ← or_raise (get_elem? ts i) index_error
    r ← measure ts xs stable thresh i start
    rs ← measures ts xs stable thresh (j ∷ is)
    ok (r ∷ rs)

  -- Python's `max`: a later element wins only if it is larger.
  unfoldable pub max_from : F → List F → F
  max_from m [] = m
  max_from m (x ∷ xs) = max_from (if n.lt m x then x else m) xs

  -- The value that stands in for the handovers with no ramp-up time.
  pub substitute : F → List F → Result F
  unfolding max_from
  substitute thresh [] = raised value_error
  substitute thresh (x ∷ xs) = let m = max_from x xs in ok (if n.lt m (number 0) then thresh else m)

  -- The last loop, with the number of calls of `random.random()` so far.
  settle : F → (ℕ → F) → ℕ → List F → List F
  settle most random k [] = []
  settle most random k (t ∷ ts) =
      let kept = if n.lt t (number 0) then most else t in
      (if n.eq t (number 0) then n.plus kept (n.plus (random k) n.half) else kept)
      ∷ settle most random (if n.eq t (number 0) then suc k else k) ts

  -- How many elements pass a test.
  pub tally : (F → F → Bool) → List F → ℕ
  tally test [] = 0
  tally test (t ∷ ts) = (if test t (number 0) then 1 else 0) + tally test ts

  -- What is printed and returned.
  pub report : F → (ℕ → F) → List ℕ → List F → Rampup F
  unfolding settle tally
  report most random is rs = record {
    times = settle most random 0 rs;
    handovers = length is;
    undone = tally n.lt rs;
    start_full = tally n.eq rs;
  }

  unfoldable pub calculate_rampup_time :
      List F → List F → List F → F → F → (ℕ → F) → Result (Rampup F)
  unfolding measures substitute report
  calculate_rampup_time ho_times ts xs stable thresh random = do
    is ← find_closest_indices ho_times ts
    rs ← measures ts xs stable thresh is
    most ← substitute thresh rs
    ok (report most random is rs)
