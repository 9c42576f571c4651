-- ===== src/Jitter/Rfc.antt =====
-- Two of the estimators against the running estimate of RFC 3550 on the packets in order.
use emulator_test.Prelude.{
  ℕ, zero, suc, ◌≡◌, refl, ap, List, [], ◌∷◌, map, length, Bool, false, not, none, some, Bool-cases,
  inl, inr, if◌then◌else◌, keep, ok, get_elem?, arith,
}
use emulator_test.Number.{Number, number}
use emulator_test.Jitter.{
  smooth, jitter_loop, calculate_jitter, update, match_loop, compute_jitter_and_transit,
}

module _ {ℓ} {F : Type ℓ} ⦃n : Number F⦄ where
  -- The estimate J of RFC 3550 after each packet: `J += (|D| - J) / 16`, D the change of the transit time.
  abbrev pub rfc_estimates : F → F → List F → List F
  rfc_estimates jitter prev [] = []
  rfc_estimates jitter prev (t ∷ ts) =
      n.plus jitter (n.over (n.minus (n.absolute (n.minus t prev)) jitter) (number 16))
      ∷ rfc_estimates
          (n.plus jitter (n.over (n.minus (n.absolute (n.minus t prev)) jitter) (number 16))) t ts

  abbrev pub rfc_jitters : List F → List F
  rfc_jitters [] = []
  rfc_jitters (t ∷ ts) = number 0 ∷ rfc_estimates (number 0) t ts

  -- A packet that does not arrive before it was sent.
  abbrev pub in_order : F → Bool
  in_order t = not (n.lt t (number 0))

  -- The entries of a column at the rows that a test of another column selects.
  abbrev pub at_rows : (F → Bool) → List F → List F → List F
  at_rows p [] ys = []
  at_rows p (x ∷ xs) [] = []
  at_rows p (x ∷ xs) (y ∷ ys) = if p x then y ∷ at_rows p xs ys else at_rows p xs ys

  jitter_loop-at_rows :
      (j p : F) (ts : List F)
      → at_rows in_order ts (jitter_loop j p ts) ≡ rfc_estimates j p (keep in_order ts)
  unfolding jitter_loop smooth
  jitter_loop-at_rows j p [] = refl
  jitter_loop-at_rows j p (t ∷ ts) = elim (Bool-cases (n.lt t (number 0))) [
    | inl e ↦ rw (e, jitter_loop) (rw (e, at_rows) (jitter_loop-at_rows j p ts))
    | inr e ↦
        rw (e, jitter_loop)
          (rw (e, at_rows) (ap (λ r. smooth j p t ∷ r) (jitter_loop-at_rows (smooth j p t) t ts)))
  ]

  length-jitter_loop : (j p : F) (ts : List F) → length (jitter_loop j p ts) ≡ length ts
  unfolding jitter_loop
  length-jitter_loop j p [] = refl
  length-jitter_loop j p (t ∷ ts) = elim (Bool-cases (n.lt t (number 0))) [
    | inl e ↦ rw (e, jitter_loop) (ap suc (length-jitter_loop j p ts))
    | inr e ↦ rw (e, jitter_loop) (ap suc (length-jitter_loop (smooth j p t) t ts))
  ]

  jitter_loop-zero :
      (j p : F) (ts : List F) (i : ℕ) (t : F)
      → get_elem? ts i ≡ some t
      → in_order t ≡ false
      → get_elem? (jitter_loop j p ts) i ≡ some (number 0)
  unfolding jitter_loop
  jitter_loop-zero j p [] i t h late = cc
  jitter_loop-zero j p (u ∷ ts) zero t h late = elim (Bool-cases (n.lt u (number 0))) [
    | inl e ↦ rw (e, jitter_loop) refl
    | inr e ↦ absurd (ground (arith, h, late, e))
  ]
  jitter_loop-zero j p (u ∷ ts) (suc i) t h late = elim (Bool-cases (n.lt u (number 0))) [
    | inl e ↦ rw (e, jitter_loop) (jitter_loop-zero j p ts i t h late)
    | inr e ↦ rw (e, jitter_loop) (jitter_loop-zero (smooth j p u) u ts i t h late)
  ]

  -- `calculate_jitter` on at least one row returns one jitter for each row; the later rows out of
  -- order have 0, and the first row and the later ones in order have the estimates of RFC 3550 of
  -- the transit times in those rows.
  pub calculate_jitter_lem :
      (t : F) (ts : List F)
      → (js : List F) × (calculate_jitter (t ∷ ts) ≡ ok (number 0 ∷ js))
        × (length js ≡ length ts)
        × (number 0 ∷ at_rows in_order ts js ≡ rfc_jitters (t ∷ keep in_order ts))
        × ((i : ℕ) (u : F)
            → get_elem? ts i ≡ some u
            → in_order u ≡ false
            → get_elem? js i ≡ some (number 0))
  unfolding calculate_jitter
  calculate_jitter_lem t ts = (
    jitter_loop (number 0) t ts,
    refl,
    length-jitter_loop (number 0) t ts,
    ap (λ r. number 0 ∷ r) (jitter_loop-at_rows (number 0) t ts),
    jitter_loop-zero (number 0) t ts,
  )

  abbrev pub transit : F × F → F
  transit (sts, rts) = n.minus rts sts

  -- The jitters of RFC 3550 with the columns that stand beside them.
  abbrev pub estimate_rows : List (F × F) → List F → List (F × F × F)
  estimate_rows [] js = []
  estimate_rows (r ∷ rows) [] = []
  estimate_rows (r ∷ rows) (j ∷ js) = (r.0, transit r, j) ∷ estimate_rows rows js

  abbrev pub timely : F × F → Bool
  timely r = in_order (transit r)

  match_loop-some :
      (j p : F) (rows : List (F × F))
      → match_loop j (some p) rows
        ≡ estimate_rows (keep timely rows) (rfc_estimates j p (map transit (keep timely rows)))
  unfolding match_loop update smooth
  match_loop-some j p [] = refl
  match_loop-some j p (r ∷ rows) = elim (Bool-cases (n.lt (transit r) (number 0))) [
    | inl e ↦ rw (e, match_loop) (match_loop-some j p rows)
    | inr e ↦
        rw (e, match_loop)
          (ap (λ rs. (r.0, transit r, smooth j p (transit r)) ∷ rs)
            (match_loop-some (smooth j p (transit r)) (transit r) rows))
  ]

  match_loop-none :
      (rows : List (F × F))
      → match_loop (number 0) none rows
        ≡ estimate_rows (keep timely rows) (rfc_jitters (map transit (keep timely rows)))
  unfolding match_loop update
  match_loop-none [] = refl
  match_loop-none (r ∷ rows) = elim (Bool-cases (n.lt (transit r) (number 0))) [
    | inl e ↦ rw (e, match_loop) (match_loop-none rows)
    | inr e ↦
        rw (e, match_loop)
          (ap (λ rs. (r.0, transit r, number 0) ∷ rs) (match_loop-some (number 0) (transit r) rows))
  ]

  -- `compute_jitter_and_transit` returns, for the packets that do not arrive before they were sent
  -- and no others, in order, the send time, the transit time and the jitter of RFC 3550 over the
  -- transit times of those packets, which starts at 0.
  pub compute_jitter_and_transit-eq :
      (rows : List (F × F))
      → compute_jitter_and_transit rows
        ≡ estimate_rows (keep timely rows) (rfc_jitters (map transit (keep timely rows)))
  unfolding compute_jitter_and_transit
  compute_jitter_and_transit-eq rows = match_loop-none rows
