-- ===== src/Frames.antt =====
-- `estimate_frame`, `check_rollover` and `filter_relative_time_range` of scripts/processing/parse-logs.py. `sort_values` and
-- `drop_duplicates` are pandas': they are arguments.
pub mod Bytes
pub mod Times
pub mod Rollover
mod Tests
use emulator_test.Prelude.{
  ℕ, suc, ◌+◌, ◌-◌, List, [], ◌∷◌, map, Bool, true, false, leb, Option, none, some, Result, ok,
  raised, key_error, if◌then◌else◌, keep, ◌&&◌,
}
use emulator_test.Prelude.Int.{ℤ, negsuc, ◌-ℤ◌, ltb_ℤ}
use emulator_test.Number.{Number, number}

-- The columns of a row that the function reads.
pub record Packet {ℓ} (F : Type ℓ) : Type ℓ where
  pub seq : ℤ
  pub time : F
  pub len : ℕ

pub record Frame {ℓ} (F : Type ℓ) : Type ℓ where
  pub frame : ℕ
  pub completion_time : F
  pub completion_time_raw : F

module _ {ℓ} {F : Type ℓ} ⦃n : Number F⦄ where
  -- `adjusted_time`
  adjust : F → F → F
  adjust prev time = if n.lt time prev then prev else time

  -- The rounds from `accumulated_length`, `frame_number` and `prev_completion_time`.
  frame_loop : ℕ → ℕ → ℕ → F → List (Packet F) → List (Frame F)
  unfolding adjust
  frame_loop frame_size accumulated frame_number prev [] = []
  frame_loop frame_size accumulated frame_number prev (row ∷ rows) =
      let total = accumulated + row.len in
      let adjusted = adjust prev row.time in
      elim (leb frame_size total) [
        | false ↦ frame_loop frame_size total frame_number prev rows
        | true ↦
            record {
              frame = frame_number;
              completion_time = adjusted;
              completion_time_raw = row.time;
            }
            ∷ frame_loop frame_size (total - frame_size) (suc frame_number) adjusted rows
      ]

  -- `diff()`: nothing in the first row.
  diffs : Option F → List (Frame F) → List (Frame F × Option F)
  diffs prev [] = []
  diffs none (f ∷ fs) = (f, none) ∷ diffs (some f.completion_time) fs
  diffs (some prev) (f ∷ fs) =
      (f, some (n.minus f.completion_time prev)) ∷ diffs (some f.completion_time) fs

  -- Without a frame, the data frame has no column `completion_time`.
  with_intervals : List (Frame F) → Result (List (Frame F × Option F))
  unfolding diffs
  with_intervals [] = raised key_error
  with_intervals (f ∷ fs) = ok (diffs none (f ∷ fs))

  unfoldable pub estimate_frame :
      (sort_values drop_duplicates : List (Packet F) → List (Packet F))
      → List (Packet F)
      → ℕ
      → Result (List (Frame F × Option F))
  unfolding frame_loop with_intervals
  estimate_frame sort_values drop_duplicates df frame_size =
      with_intervals (frame_loop frame_size 0 1 (number 0) (drop_duplicates (sort_values df)))

  -- `filter_relative_time_range`
  unfoldable pub filter_relative_time_range :
      (sort_by_time : List (Packet F) → List (Packet F)) → List (Packet F) → F → F → List (Packet F)
  filter_relative_time_range sort_by_time raw_df start_time end_time =
      sort_by_time (keep (λ row. n.le start_time row.time && n.le row.time end_time) raw_df)

-- The sequence numbers whose difference to the one before is below -(2 ** 31).
rollover_loop : ℤ → List ℤ → List ℤ
rollover_loop prev [] = []
rollover_loop prev (seq ∷ seqs) =
    let rest = rollover_loop seq seqs in
    if ltb_ℤ (seq -ℤ prev) (negsuc 2147483647) then seq ∷ rest else rest

-- `check_rollover` on the column `seq`, sorted by the time.
unfoldable pub check_rollover : (sort_by_time : List ℤ → List ℤ) → List ℤ → List ℤ
unfolding rollover_loop
check_rollover sort_by_time df = elim (sort_by_time df) [
  | [] ↦ []
  | seq ∷ seqs ↦ rollover_loop seq seqs
]
