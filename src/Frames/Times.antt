-- ===== src/Frames/Times.antt =====
-- The numbers and the completion times of the frames.
use mathlib.Core.Path.{subst}
use emulator_test.Prelude.{
  ℕ, suc, ◌+◌, ◌-◌, ◌≡◌, refl, sym, ap, ◌∙◌, ◌⊎◌, inl, inr, List, [], ◌∷◌, true, leb, Option, none,
  some, arith, Bool-cases, ok, ok-injective,
}
use emulator_test.Number.{Number, number, IsOrdered}
use emulator_test.Frames.{Packet, Frame, adjust, frame_loop, diffs, with_intervals, estimate_frame}

module _ {ℓ} {F : Type ℓ} ⦃n : Number F⦄ (o : IsOrdered F) where
  abbrev pub since : F → Option F → Option F
  since t none = none
  since t (some before) = some (n.minus t before)

  -- The frames are numbered one by one, and no frame is complete before its packet has come or before
  -- the frame that precedes it; it is complete at one of these two times. Behind it stands the time
  -- since the frame before.
  abbrev pub IsTimeline : ℕ → F → Option F → List (Frame F × Option F) → Type ℓ
  IsTimeline k prev before [] = Unit
  IsTimeline k prev before ((f, interval) ∷ fs) =
      (f.frame ≡ k)
      × (n.le prev f.completion_time ≡ true)
      × (n.le f.completion_time_raw f.completion_time ≡ true)
      × ((f.completion_time ≡ prev) ⊎ (f.completion_time ≡ f.completion_time_raw))
      × (interval ≡ since f.completion_time before)
      × IsTimeline (suc k) f.completion_time (some f.completion_time) fs

  adjust_lem :
      (prev time : F)
      → (n.le prev (adjust prev time) ≡ true)
        × (n.le time (adjust prev time) ≡ true)
        × ((adjust prev time ≡ prev) ⊎ (adjust prev time ≡ time))
  unfolding adjust
  adjust_lem prev time = elim (Bool-cases (n.lt time prev)) [
    | inl e ↦
        let le : n.le time prev ≡ true = elim (o.le_total time prev) [
          | inl l ↦ l
          | inr l ↦
              (let clash = sym e ∙ o.lt-eq-not-le time prev in absurd (ground (arith, clash, l)))
        ] in
        rw e (o.le_refl prev, le, inl refl)
    | inr e ↦
        let eq = sym e ∙ o.lt-eq-not-le time prev in
        let le : n.le prev time ≡ true = ground (arith, eq) in rw e (le, o.le_refl time, inr refl)
  ]

  diffs-cons :
      (before : Option F) (f : Frame F) (fs : List (Frame F))
      → diffs before (f ∷ fs)
        ≡ (f, since f.completion_time before) ∷ diffs (some f.completion_time) fs
  unfolding diffs
  diffs-cons none f fs = refl
  diffs-cons (some b) f fs = refl

  frame_loop-IsTimeline :
      (size acc k : ℕ) (prev : F) (before : Option F) (ps : List (Packet F))
      → IsTimeline k prev before (diffs before (frame_loop size acc k prev ps))
  unfolding frame_loop diffs
  frame_loop-IsTimeline size acc k prev before [] = tt
  frame_loop-IsTimeline size acc k prev before (p ∷ ps) =
      elim (Bool-cases (leb size (acc + p.len))) [
        | inl e ↦
            let t = adjust prev p.time in
            let f : Frame F = record {
              frame = k;
              completion_time = t;
              completion_time_raw = p.time;
            } in
            let fs = frame_loop size (acc + p.len - size) (suc k) t ps in
            let shape : frame_loop size acc k prev (p ∷ ps) ≡ f ∷ fs = rw (e, frame_loop) refl in
            let (late, raw, one) = adjust_lem prev p.time in
            subst (IsTimeline k prev before)
              (sym (ap (diffs before) shape ∙ diffs-cons before f fs))
              (
                refl,
                late,
                raw,
                one,
                refl,
                frame_loop-IsTimeline size (acc + p.len - size) (suc k) t (some t) ps,
              )
        | inr e ↦
            let same : frame_loop size acc k prev (p ∷ ps)
                ≡ frame_loop size (acc + p.len) k prev ps =
              rw (e, frame_loop) refl in
            subst (λ fs. IsTimeline k prev before (diffs before fs)) (sym same)
              (frame_loop-IsTimeline size (acc + p.len) k prev before ps)
      ]

  with_intervals-ok :
      (fs : List (Frame F)) (rows : List (Frame F × Option F))
      → with_intervals fs ≡ ok rows
      → diffs none fs ≡ rows
  unfolding with_intervals
  with_intervals-ok [] rows h = cc
  with_intervals-ok (f ∷ fs) rows h = ok-injective (diffs none (f ∷ fs)) rows h

  -- Away from NaN, the rows that `estimate_frame` returns are numbered from 1, no completion time is
  -- before that of the row above, before 0 or before its packet, each is one of these times, and the
  -- intervals are the differences of neighbours.
  pub estimate_frame-IsTimeline :
      (sort_values drop_duplicates : List (Packet F) → List (Packet F)) (df : List (Packet F))
      (size : ℕ) (rows : List (Frame F × Option F))
      → estimate_frame sort_values drop_duplicates df size ≡ ok rows
      → IsTimeline 1 (number 0) none rows
  unfolding estimate_frame
  estimate_frame-IsTimeline sort_values drop_duplicates df size rows h =
      let ps = drop_duplicates (sort_values df) in
      subst (IsTimeline 1 (number 0) none)
        (with_intervals-ok (frame_loop size 0 1 (number 0) ps) rows h)
        (frame_loop-IsTimeline size 0 1 (number 0) none ps)
