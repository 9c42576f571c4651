-- ===== src/Iperf/Window.antt =====
-- `filter_time_range` against the pairs of its two lists.
use emulator_test.Prelude.{
  ◌≡◌, refl, ap, true, Bool-cases, inl, inr, List, [], ◌∷◌, ◌++◌, append-nil, append-snoc, keep,
  arith,
}
use emulator_test.Number.{Number, IsOrdered}
use emulator_test.Iperf.{within, filter_loop, filter_time_range}

-- `zip`, as a list of pairs.
abbrev pub zip {ℓ κ} : {A : Type ℓ} {B : Type κ} → List A → List B → List (A × B)
zip [] ys = []
zip (x ∷ xs) [] = []
zip (x ∷ xs) (y ∷ ys) = (x, y) ∷ zip xs ys

abbrev pub firsts {ℓ κ} : {A : Type ℓ} {B : Type κ} → List (A × B) → List A
firsts [] = []
firsts ((a, b) ∷ ps) = a ∷ firsts ps

abbrev pub seconds {ℓ κ} : {A : Type ℓ} {B : Type κ} → List (A × B) → List B
seconds [] = []
seconds ((a, b) ∷ ps) = b ∷ seconds ps

pub zip-firsts-seconds {ℓ κ} :
    {A : Type ℓ} {B : Type κ} (ps : List (A × B)) → zip (firsts ps) (seconds ps) ≡ ps
zip-firsts-seconds [] = refl
zip-firsts-seconds ((a, b) ∷ ps) = ap (λ r. (a, b) ∷ r) (zip-firsts-seconds ps)

module _ {ℓ κ} {F : Type ℓ} ⦃n : Number F⦄ {A : Type κ} where
  -- The pairs of a window.
  abbrev pub in_window : F → F → List (F × A) → List (F × A)
  in_window start finish = keep (λ p. within start finish p.0)

  filter_loop-eq :
      (start finish : F) (ts : List F) (xs : List A) (out_t : List F) (out_d : List A)
      → filter_loop start finish ts xs out_t out_d ≡ (
        out_t ++ firsts (in_window start finish (zip ts xs)),
        out_d ++ seconds (in_window start finish (zip ts xs)),
      )
  unfolding filter_loop
  filter_loop-eq start finish [] xs out_t out_d = simp append-nil
  filter_loop-eq start finish (t ∷ ts) [] out_t out_d = simp append-nil
  filter_loop-eq start finish (t ∷ ts) (x ∷ xs) out_t out_d =
      elim (Bool-cases (within start finish t)) [
        | inl inside ↦ rw inside (
            rw (filter_loop-eq start finish ts xs (out_t ++ t ∷ []) (out_d ++ x ∷ []))
              (simp append-snoc))
        | inr outside ↦ rw outside (filter_loop-eq start finish ts xs out_t out_d)
      ]

  -- The two lists that `filter_time_range` returns are the columns of one list of pairs: those pairs of
  -- the two inputs, up to the shorter one's end, whose time is from `start` to `finish`, in order.
  pub filter_time_range-eq :
      (ts : List F) (xs : List A) (start finish : F)
      → filter_time_range ts xs start finish ≡ (
        firsts (in_window start finish (zip ts xs)),
        seconds (in_window start finish (zip ts xs)),
      )
  unfolding filter_time_range
  filter_time_range-eq ts xs start finish = filter_loop-eq start finish ts xs [] []

module _ {ℓ} {F : Type ℓ} ⦃n : Number F⦄ (laws : IsOrdered F) where
  within_wider :
      (a b c d t : F)
      → n.le a c ≡ true
      → n.le d b ≡ true
      → within c d t ≡ true
      → within a b t ≡ true
  within_wider a b c d t ac db h = ground (arith, laws.le_trans a c t, laws.le_trans t d b)

module _ {ℓ κ} {F : Type ℓ} ⦃n : Number F⦄ (laws : IsOrdered F) {A : Type κ} where
  in_window-in_window :
      (a b c d : F) (ps : List (F × A))
      → n.le a c ≡ true
      → n.le d b ≡ true
      → in_window c d (in_window a b ps) ≡ in_window c d ps
  in_window-in_window a b c d [] ac db = refl
  in_window-in_window a b c d (p ∷ ps) ac db =
      ground (arith, within_wider laws a b c d p.0 ac db, in_window-in_window a b c d ps ac db)

  -- Where the order is free of NaN, filtering to a window and then to a narrower one inside it gives
  -- what filtering to the narrower one gives: the run's range loses nothing of a link's interval.
  pub filter_time_range-filter_time_range :
      (ts : List F) (xs : List A) (a b c d : F)
      → n.le a c ≡ true
      → n.le d b ≡ true
      → let (ts', xs') = filter_time_range ts xs a b in
        filter_time_range ts' xs' c d ≡ filter_time_range ts xs c d
  filter_time_range-filter_time_range ts xs a b c d ac db =
      simp (filter_time_range-eq, zip-firsts-seconds)
        (rw (in_window-in_window a b c d (zip ts xs) ac db))
