-- ===== src/Handover/Links.antt =====
-- `filter_link_duration` against the stretches of time that the handovers cut the run into.
use emulator_test.Prelude.{
  ◌≤◌, ◌≡◌, refl, ◌∙◌, inl, inr, List, [], ◌∷◌, ◌++◌, false, append-snoc, append-nil, length, arith,
  Bool-cases, if◌then◌else◌, ok, some,
}
use emulator_test.Prelude.Int.{ℤ, eq_ℤ, eq_ℤ-refl, eq_ℤ→eq}
use emulator_test.Number.{Number, number}
use emulator_test.Handover.{
  Durations, get, put, append_to, set_end, close, open_end, visit, duration_loop,
  filter_link_duration,
}

-- A stretch of the run on one link.
pub record Stretch {ℓ} (F : Type ℓ) : Type ℓ where
  pub link : ℤ
  pub start : F
  pub finish : F

module _ {ℓ} {F : Type ℓ} where
  -- The stretches from `start` on: each handover to another link ends one and begins the next.
  abbrev pub stretches : ℤ → F → List F → List ℤ → F → List (Stretch F)
  stretches prev start [] links time_end =
      record { link = prev; start = start; finish = time_end } ∷ []
  stretches prev start (t ∷ ts) [] time_end =
      record { link = prev; start = start; finish = time_end } ∷ []
  stretches prev start (t ∷ ts) (l ∷ ls) time_end =
      if eq_ℤ l prev
      then stretches prev start ts ls time_end
      else record { link = prev; start = start; finish = t } ∷ stretches l t ts ls time_end

  -- The intervals of one link's stretches.
  abbrev pub spans : ℤ → List (Stretch F) → List (F × F)
  spans k [] = []
  spans k (s ∷ ss) = if eq_ℤ s.link k then (s.start, s.finish) ∷ spans k ss else spans k ss

  spans-append : (k : ℤ) (ss rs : List (Stretch F)) → spans k (ss ++ rs) ≡ spans k ss ++ spans k rs
  spans-append k [] rs = refl
  spans-append k (s ∷ ss) rs = ground (arith, spans-append k ss rs)

  -- The stretches run from `start` to `finish` with no gap, and neighbours are on different links.
  abbrev pub Tiles : F → F → List (Stretch F) → Type ℓ
  Tiles start finish [] = start ≡ finish
  Tiles start finish (s ∷ []) = (s.start ≡ start) × (s.finish ≡ finish)
  Tiles start finish (s ∷ r ∷ ss) =
      (s.start ≡ start) × (eq_ℤ r.link s.link ≡ false) × Tiles s.finish finish (r ∷ ss)

  get-put :
      (k j : ℤ) (v : List (F × F)) (d : Durations F)
      → get j (put k v d) ≡ (if eq_ℤ k j then v else get j d)
  unfolding get put
  get-put k j v [] = ground arith
  get-put k j v ((i, w) ∷ d) = ground (arith, get-put k j v d, eq_ℤ→eq i k, eq_ℤ→eq k j)

  set_end-snoc :
      (t : F) (xs : List (F × F)) (x : F × F)
      → set_end t (xs ++ x ∷ []) ≡ some (xs ++ (x.0, t) ∷ [])
  unfolding set_end
  set_end-snoc t [] x = refl
  set_end-snoc t (y ∷ []) x = refl
  set_end-snoc t (y ∷ z ∷ r) x = rw (set_end-snoc t (z ∷ r) x)

  close_lem :
      (k : ℤ) (t s e : F) (xs : List (F × F)) (d : Durations F)
      → get k d ≡ xs ++ (s, e) ∷ []
      → close k t d ≡ ok (put k (xs ++ (s, t) ∷ []) d)
  unfolding close
  close_lem k t s e xs d h = rw (h, close) (rw (set_end-snoc t xs (s, e)))

module _ {ℓ} {F : Type ℓ} ⦃n : Number F⦄ where
  -- While the loop runs, each link has the intervals of the stretches that are over, and the current
  -- link one interval more, which is open.
  abbrev IsOpen : Durations F → List (Stretch F) → ℤ → F → Type ℓ
  IsOpen d over prev start =
      (k : ℤ) → get k d ≡ spans k over ++ (if eq_ℤ prev k then (start, open_end) ∷ [] else [])

  close-IsOpen :
      (d : Durations F) (over : List (Stretch F)) (prev : ℤ) (start t : F)
      → IsOpen d over prev start
      → (d' : Durations F) × (close prev t d ≡ ok d')
        × ((k : ℤ)
            → get k d' ≡ spans k (over ++ record { link = prev; start = start; finish = t } ∷ []))
  close-IsOpen d over prev start t open_ = (
    put prev (spans prev over ++ (start, t) ∷ []) d,
    close_lem prev t start open_end (spans prev over) d
        (ground (arith, open_ prev, eq_ℤ-refl prev)),
    λ k. ground (
      arith,
      get-put prev k (spans prev over ++ (start, t) ∷ []) d,
      spans-append k over (record { link = prev; start = start; finish = t } ∷ []),
      open_ k,
      eq_ℤ→eq prev k,
    ),
  )

  visit-IsOpen :
      (d : Durations F) (over : List (Stretch F)) (prev l : ℤ) (start t : F)
      → IsOpen d over prev start
      → eq_ℤ l prev ≡ false
      → (d' : Durations F) × (visit l t (d, prev) ≡ ok (d', l))
        × IsOpen d' (over ++ record { link = prev; start = start; finish = t } ∷ []) l t
  unfolding visit append_to
  visit-IsOpen d over prev l start t open_ new =
      let (d', closed, view) = close-IsOpen d over prev start t open_ in
      (
        put l (get l d' ++ (t, open_end) ∷ []) d',
        rw (new, closed) refl,
        λ k. ground (
          arith,
          get-put l k (get l d' ++ (t, open_end) ∷ []) d',
          view k,
          eq_ℤ→eq l k,
          append-nil (spans k (over ++ record { link = prev; start = start; finish = t } ∷ [])),
        ),
      )

  duration_loop-IsOpen :
      (ts : List F) (ls : List ℤ) (d : Durations F) (over : List (Stretch F)) (prev : ℤ) (start : F)
      → length ts ≤ length ls
      → IsOpen d over prev start
      → (d' : Durations F) × (over' : List (Stretch F)) × (prev' : ℤ) × (start' : F)
        × (duration_loop ts ls (d, prev) ≡ ok (d', prev'))
        × IsOpen d' over' prev' start'
        × ((e : F)
            → over' ++ record { link = prev'; start = start'; finish = e } ∷ []
              ≡ over ++ stretches prev start ts ls e)
  unfolding duration_loop visit
  duration_loop-IsOpen [] ls d over prev start h o = (d, over, prev, start, refl, o, λ e. refl)
  duration_loop-IsOpen (t ∷ ts) [] d over prev start h o = absurd (omega arith)
  duration_loop-IsOpen (t ∷ ts) (l ∷ ls) d over prev start h o = elim (Bool-cases (eq_ℤ l prev)) [
    | inl same ↦
        let (d', over', prev', start', ran, o', eqs) =
          duration_loop-IsOpen ts ls d over prev start (omega arith) o in
        (d', over', prev', start', rw (same, visit) ran, o', λ e. rw same (eqs e))
    | inr new ↦
        let (d1, visited, o1) = visit-IsOpen d over prev l start t o new in
        let (d', over', prev', start', ran, o', eqs) =
          duration_loop-IsOpen ts ls d1
            (over ++ record { link = prev; start = start; finish = t } ∷ []) l t (omega arith) o1 in
        (
          d',
          over',
          prev',
          start',
          rw visited ran,
          o',
          λ e. rw new (
              eqs e
              ∙ append-snoc over (stretches l t ts ls e)
                  (record { link = prev; start = start; finish = t })),
        )
  ]

module _ {ℓ} {F : Type ℓ} where
  pub stretches-head :
      (prev : ℤ) (start : F) (ts : List F) (ls : List ℤ) (e : F)
      → (f : F) × (r : List (Stretch F)) × (stretches prev start ts ls e
          ≡ record { link = prev; start = start; finish = f } ∷ r)
  stretches-head prev start [] ls e = (e, [], refl)
  stretches-head prev start (t ∷ ts) [] e = (e, [], refl)
  stretches-head prev start (t ∷ ts) (l ∷ ls) e = elim (Bool-cases (eq_ℤ l prev)) [
    | inl same ↦ rw same (stretches-head prev start ts ls e)
    | inr new ↦ rw new (t, stretches l t ts ls e, refl)
  ]

  pub stretches-Tiles :
      (prev : ℤ) (start : F) (ts : List F) (ls : List ℤ) (e : F)
      → Tiles start e (stretches prev start ts ls e)
  stretches-Tiles prev start [] ls e = (refl, refl)
  stretches-Tiles prev start (t ∷ ts) [] e = (refl, refl)
  stretches-Tiles prev start (t ∷ ts) (l ∷ ls) e = elim (Bool-cases (eq_ℤ l prev)) [
    | inl same ↦ rw same (stretches-Tiles prev start ts ls e)
    | inr new ↦
        let (f, r, shape) = stretches-head l t ts ls e in
        rw (new, shape) (refl, new, rw shape at (stretches-Tiles l t ts ls e))
  ]

module _ {ℓ} {F : Type ℓ} ⦃n : Number F⦄ where
  empty-IsOpen :
      (initial : ℤ)
      → IsOpen {F = F} (append_to initial (number 0, open_end) []) [] initial (number 0)
  unfolding append_to get put
  empty-IsOpen initial k = ground arith

  -- Where every handover has a target link, `filter_link_duration` returns. Its dictionary holds, for
  -- each link, the intervals of that link's stretches in order, and the stretches cut the time from 0
  -- to the run's end without a gap, each on another link than the one before: no interval stays open.
  pub filter_link_duration_lem :
      (ts : List F) (ls : List ℤ) (time_end : F) (initial : ℤ)
      → length ts ≤ length ls
      → (d : Durations F) × (filter_link_duration ts ls time_end initial ≡ ok d)
        × ((k : ℤ) → get k d ≡ spans k (stretches initial (number 0) ts ls time_end))
        × Tiles (number 0) time_end (stretches initial (number 0) ts ls time_end)
  unfolding filter_link_duration
  filter_link_duration_lem ts ls time_end initial h =
      let (d1, over, prev, start, ran, o, eqs) =
        duration_loop-IsOpen ts ls (append_to initial (number 0, open_end) []) [] initial (number 0)
          h (empty-IsOpen initial) in
      let (d, closed, view) = close-IsOpen d1 over prev start time_end o in
      (
        d,
        rw ran closed,
        λ k. rw (← eqs time_end) (view k),
        stretches-Tiles initial (number 0) ts ls time_end,
      )
