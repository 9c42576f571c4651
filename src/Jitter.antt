-- ===== src/Jitter.antt =====
-- The jitter estimators: `calculate_jitter` of scripts/processing/parse-logs.py,
-- `compute_jitter_and_transit` of scripts/processing/rfc-jitter.py and the script
-- scripts/processing/compute-iat.py. A data frame is the list of the column that is read.
pub mod Rfc
pub mod Arrival
mod Tests
use emulator_test.Prelude.{
  ℕ, zero, suc, ◌-◌, List, [], ◌∷◌, ◌++◌, map, length, get_elem?, Bool, true, false, Option, none,
  some, Result, ok, raised, index_error, value_error, or_raise, ◌>>=◌, ◌==◌, if◌then◌else◌,
}
use emulator_test.Number.{Number, number}

module _ {ℓ} {F : Type ℓ} ⦃n : Number F⦄ where
  -- `jitter + (abs(t - prev) - jitter) / 16`
  unfoldable pub smooth : F → F → F → F
  smooth jitter prev t =
      n.plus jitter (n.over (n.minus (n.absolute (n.minus t prev)) jitter) (number 16))

  -- The rounds of `calculate_jitter` after the first row.
  jitter_loop : F → F → List F → List F
  unfolding smooth
  jitter_loop jitter prev [] = []
  jitter_loop jitter prev (t ∷ ts) = elim (n.lt t (number 0)) [
    | true ↦ number 0 ∷ jitter_loop jitter prev ts
    | false ↦ smooth jitter prev t ∷ jitter_loop (smooth jitter prev t) t ts
  ]

  -- `calculate_jitter` on the column `transit_time`: the column `jitter`.
  unfoldable pub calculate_jitter : List F → Result (List F)
  unfolding jitter_loop
  calculate_jitter [] = raised index_error
  calculate_jitter (t ∷ ts) = ok (number 0 ∷ jitter_loop (number 0) t ts)

  -- A first row has no jitter to update.
  update : F → Option F → F → F
  unfolding smooth
  update jitter none t = jitter
  update jitter (some prev) t = smooth jitter prev t

  match_loop : F → Option F → List (F × F) → List (F × F × F)
  unfolding update
  match_loop jitter prev [] = []
  match_loop jitter prev ((sts, rts) ∷ rows) =
      let transit = n.minus rts sts in
      elim (n.lt transit (number 0)) [
        | true ↦ match_loop jitter prev rows
        | false ↦
            (sts, transit, update jitter prev transit)
            ∷ match_loop (update jitter prev transit) (some transit) rows
      ]

  -- `compute_jitter_and_transit` on the columns `sts` and `rts`.
  unfoldable pub compute_jitter_and_transit : List (F × F) → List (F × F × F)
  unfolding match_loop
  compute_jitter_and_transit rows = match_loop (number 0) none rows

  -- The times between arrivals, `for i in range(i, i + count)`.
  iat_loop : ℕ → ℕ → List F → Result (List F)
  iat_loop zero i times = ok []
  iat_loop (suc count) i times = do
    t ← or_raise (get_elem? times i) index_error
    prev ← or_raise (get_elem? times (i - 1)) index_error
    rest ← iat_loop count (suc i) times
    ok (n.times (n.minus t prev) (number 1000) ∷ rest)

  -- The jitter over those times; `last` is `jitter_ms[-1]`.
  iat_jitter_loop : ℕ → ℕ → F → List F → Result (List F)
  unfolding smooth
  iat_jitter_loop zero i last iat = ok []
  iat_jitter_loop (suc count) i last iat = do
    t ← or_raise (get_elem? iat i) index_error
    prev ← or_raise (get_elem? iat (i - 1)) index_error
    rest ← iat_jitter_loop count (suc i) (smooth last prev t) iat
    ok (smooth last prev t ∷ rest)

  -- The columns of arrival_iat_jitter_ms.csv; pandas wants them of one length.
  unfoldable pub arrival_columns : List F → Result (List F × List F × List F)
  unfolding iat_loop iat_jitter_loop
  arrival_columns times = do
    gaps ← iat_loop (length times - 1) 1 times
    jitters ← iat_jitter_loop (length (number 0 ∷ gaps) - 1) 1 (number 0) (number 0 ∷ gaps)
    if length times == suc (length gaps)
        then ok (map (λ t. n.times t (number 1000)) times, number 0 ∷ gaps, number 0 ∷ jitters)
        else raised value_error
