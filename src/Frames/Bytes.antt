-- ===== src/Frames/Bytes.antt =====
-- How many frames the packets make.
use emulator_test.Prelude.{
  ℕ, zero, suc, Option, none, some, Result, ok, raised, key_error, ◌+◌, ◌-◌, ◌*◌, ◌≤◌, ◌<◌, ◌≡◌,
  refl, ap, List, [], ◌∷◌, All, length, leb, leb→le, arith, Bool-cases, inl, inr,
}
use emulator_test.Number.{Number, number}
use emulator_test.Frames.{Packet, Frame, adjust, frame_loop, diffs, with_intervals, estimate_frame}

suc_mul : (k size : ℕ) → suc k * size ≡ size + k * size
suc_mul k size = grind arith

module _ {ℓ} {F : Type ℓ} ⦃n : Number F⦄ where
  abbrev pub bytes : List (Packet F) → ℕ
  bytes [] = 0
  bytes (p ∷ ps) = p.len + bytes ps

  frame_loop-bytes :
      (size acc k : ℕ) (prev : F) (ps : List (Packet F))
      → acc < size
      → All (λ p. p.len ≤ size) ps
      → (left : ℕ) × (left < size)
        × (acc + bytes ps ≡ length (frame_loop size acc k prev ps) * size + left)
  unfolding frame_loop
  frame_loop-bytes size acc k prev [] h _ = (acc, h, omega arith)
  frame_loop-bytes size acc k prev (p ∷ ps) h (le, les) =
      elim (Bool-cases (leb size (acc + p.len))) [
        | inl e ↦
            let fs = frame_loop size (acc + p.len - size) (suc k) (adjust prev p.time) ps in
            let more : length (frame_loop size acc k prev (p ∷ ps)) ≡ suc (length fs) =
              rw (e, frame_loop) refl in
            let full = leb→le size (acc + p.len) e in
            let (left, small, total) =
              frame_loop-bytes size (acc + p.len - size) (suc k) (adjust prev p.time) ps
                (omega arith) les in
            (left, small, rw more (rw (suc_mul (length fs) size) (omega arith)))
        | inr e ↦
            let same : length (frame_loop size acc k prev (p ∷ ps))
                ≡ length (frame_loop size (acc + p.len) k prev ps) =
              rw (e, frame_loop) refl in
            let (left, small, total) =
              frame_loop-bytes size (acc + p.len) k prev ps (ground (arith, e)) les in
            (left, small, rw same (omega arith))
      ]

  length-diffs : (o : Option F) (fs : List (Frame F)) → length (diffs o fs) ≡ length fs
  unfolding diffs
  length-diffs o [] = refl
  length-diffs none (f ∷ fs) = ap suc (length-diffs (some f.completion_time) fs)
  length-diffs (some prev) (f ∷ fs) = ap suc (length-diffs (some f.completion_time) fs)

  -- With no frame an error, else a row for each frame.
  abbrev pub HasFrames : ℕ → Result (List (Frame F × Option F)) → Type ℓ
  HasFrames zero r = r ≡ raised key_error
  HasFrames (suc k) r = (rows : List (Frame F × Option F)) × (r ≡ ok rows) × (length rows ≡ suc k)

  with_intervals-HasFrames : (fs : List (Frame F)) → HasFrames (length fs) (with_intervals fs)
  unfolding with_intervals
  with_intervals-HasFrames [] = refl
  with_intervals-HasFrames (f ∷ fs) = (diffs none (f ∷ fs), refl, length-diffs none (f ∷ fs))

  -- Where no packet is larger than a frame, `estimate_frame` finds as many frames as the bytes of the
  -- sorted packets fill, and less than a frame is left over: `KeyError` for no frame, else that many rows.
  pub estimate_frame-bytes :
      (sort_values drop_duplicates : List (Packet F) → List (Packet F)) (df : List (Packet F))
      (size : ℕ)
      → 0 < size
      → All (λ p. p.len ≤ size) (drop_duplicates (sort_values df))
      → (k : ℕ) × (left : ℕ) × (left < size)
        × (bytes (drop_duplicates (sort_values df)) ≡ k * size + left)
        × HasFrames k (estimate_frame sort_values drop_duplicates df size)
  unfolding estimate_frame
  estimate_frame-bytes sort_values drop_duplicates df size h les =
      let ps = drop_duplicates (sort_values df) in
      let fs = frame_loop size 0 1 (number 0) ps in
      let (left, small, total) = frame_loop-bytes size 0 1 (number 0) ps h les in
      (length fs, left, small, omega (arith, total), with_intervals-HasFrames fs)
