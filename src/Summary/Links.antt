-- ===== src/Summary/Links.antt =====
-- The averages and the maxima of the two links in the main block of scripts/processing/metrics.py, of
-- both runs. `np.mean`, which raises nothing, and `round` to two digits are arguments.
use mathlib.Core.List.{Memᴰ}
use mathlib.Core.Path.{subst}
use emulator_test.Prelude.{
  ℕ, ◌+◌, ◌≡◌, refl, sym, ap, ◌∙◌, ◌⊎◌, inl, inr, ◌≤◌, List, [], ◌∷◌, All, All-map, length, count,
  Bool, true, false, not, Bool-cases, Result, ok, raised, value_error, ◌>>=◌, arith,
}
use emulator_test.Prelude.Int.{ℤ}
use emulator_test.Number.{Number, number, IsOrdered}
use emulator_test.Iperf.Window.{zip, seconds, in_window}
use emulator_test.Rampup.{max_from}
use emulator_test.Handover.{link_thuputs}
use emulator_test.Handover.Coverage.{link_thuputs_cover}
use emulator_test.Handover.Types.{IsLink}

-- What is printed of a run.
pub record LinkAverages {ℓ} (F : Type ℓ) : Type ℓ where
  pub sub6_avg : F
  pub sub6_max : F
  pub mmw_avg : F
  pub mmw_max : F

module _ {ℓ} {F : Type ℓ} ⦃n : Number F⦄ where
  -- `max` of a list
  unfoldable pub largest : List F → Result F
  unfolding max_from
  largest [] = raised value_error
  largest (x ∷ xs) = ok (max_from x xs)

  unfoldable pub link_averages :
      (mean : List F → F) (round_2 : F → F)
      → List F
      → List ℤ
      → List F
      → List F
      → Result (LinkAverages F)
  unfolding link_thuputs largest
  link_averages mean round_2 ho_times target_links thuput_times thuputs = do
    time_end ← largest thuput_times
    (sub6_thuputs, mmw_thuputs) ← link_thuputs ho_times target_links thuput_times thuputs time_end
    sub6_max ← largest sub6_thuputs
    mmw_max ← largest mmw_thuputs
    ok (record {
      sub6_avg = round_2 (mean sub6_thuputs);
      sub6_max = sub6_max;
      mmw_avg = round_2 (mean mmw_thuputs);
      mmw_max = mmw_max;
    })

count-none {ℓ} :
    {A : Type ℓ} (p : A → Bool) (xs : List A) → All (λ x. p x ≡ false) xs → count p xs ≡ 0
count-none p [] h = refl
count-none p (x ∷ xs) (hx, h) = ground (arith, hx, count-none p xs h)

Memᴰ-insert {ℓ} : {A : Type ℓ} (a b x : A) (xs : List A) → Memᴰ a (b ∷ xs) → Memᴰ a (b ∷ x ∷ xs)
Memᴰ-insert a b x xs (Memᴰ.head same) = Memᴰ.head same
Memᴰ-insert a b x xs (Memᴰ.tail later) = Memᴰ.tail (Memᴰ.tail later)

module _ {ℓ} {F : Type ℓ} ⦃n : Number F⦄ (laws : IsOrdered F) where
  not_larger : (x y : F) → n.le x y ≡ true → n.lt y x ≡ false
  not_larger x y h = laws.lt-eq-not-le y x ∙ ap not h

  le_of_not_lt : (x y : F) → n.lt y x ≡ false → n.le x y ≡ true
  le_of_not_lt x y h = ground (arith, laws.lt-eq-not-le y x, h)

  le_of_lt : (x y : F) → n.lt x y ≡ true → n.le x y ≡ true
  le_of_lt x y h = ground (arith, laws.lt-eq-not-le x y, laws.le_total x y, h)

  max_from-le : (m : F) (xs : List F) → All (λ x. n.le x (max_from m xs) ≡ true) (m ∷ xs)
  unfolding max_from
  max_from-le m [] = (laws.le_refl m, tt)
  max_from-le m (x ∷ xs) = elim (Bool-cases (n.lt m x)) [
    | inl e ↦
        let step : max_from m (x ∷ xs) ≡ max_from x xs = rw e refl in
        let (top, rest) = max_from-le x xs in
        subst (λ most. All (λ y. n.le y most ≡ true) (m ∷ x ∷ xs)) (sym step)
          (laws.le_trans m x (max_from x xs) (le_of_lt m x e) top, (top, rest))
    | inr e ↦
        let step : max_from m (x ∷ xs) ≡ max_from m xs = rw e refl in
        let (top, rest) = max_from-le m xs in
        subst (λ most. All (λ y. n.le y most ≡ true) (m ∷ x ∷ xs)) (sym step)
          (top, (laws.le_trans x m (max_from m xs) (le_of_not_lt x m e) top, rest))
  ]

  max_from-Memᴰ : (m : F) (xs : List F) → Memᴰ (max_from m xs) (m ∷ xs)
  unfolding max_from
  max_from-Memᴰ m [] = Memᴰ.head refl
  max_from-Memᴰ m (x ∷ xs) = elim (Bool-cases (n.lt m x)) [
    | inl e ↦
        let step : max_from m (x ∷ xs) ≡ max_from x xs = rw e refl in
        subst (λ most. Memᴰ most (m ∷ x ∷ xs)) (sym step) (Memᴰ.tail (max_from-Memᴰ x xs))
    | inr e ↦
        let step : max_from m (x ∷ xs) ≡ max_from m xs = rw e refl in
        subst (λ most. Memᴰ most (m ∷ x ∷ xs)) (sym step)
          (Memᴰ-insert (max_from m xs) m x xs (max_from-Memᴰ m xs))
  ]

  -- The maximum of the samples, if there is one: one of them, and at least each of them.
  pub largest_lem :
      (xs : List F)
      → ((xs ≡ []) × (largest xs ≡ raised value_error))
        ⊎ ((m : F) × (largest xs ≡ ok m) × Memᴰ m xs × All (λ x. n.le x m ≡ true) xs)
  unfolding largest
  largest_lem [] = inl (refl, refl)
  largest_lem (x ∷ xs) = inr (max_from x xs, refl, max_from-Memᴰ x xs, max_from-le x xs)

  -- The samples of the run from 0 to its last time.
  abbrev pub samples_of : F → List F → List F → List F
  samples_of time_end ts xs = seconds (in_window (number 0) time_end (zip ts xs))

  -- What is printed of samples of both links: nothing if a link has none, else their maxima.
  abbrev pub Prints : List F → List F → (F → ℕ) → Result (LinkAverages F) → Type ℓ
  Prints sub6 mmw larger r =
      (((sub6 ≡ []) ⊎ (mmw ≡ [])) × (r ≡ raised value_error))
      ⊎ ((a : LinkAverages F) × (r ≡ ok a)
          × Memᴰ a.sub6_max sub6
          × Memᴰ a.mmw_max mmw
          × All (λ x. n.le x a.sub6_max ≡ true) sub6
          × All (λ x. n.le x a.mmw_max ≡ true) mmw
          × ((x : F) → n.le a.sub6_max x ≡ true → n.le a.mmw_max x ≡ true → larger x ≡ 0))

  none_larger :
      (m x : F) (xs : List F)
      → n.le m x ≡ true
      → All (λ y. n.le y m ≡ true) xs
      → count (λ y. n.lt x y) xs ≡ 0
  none_larger m x xs h top =
      count-none (λ y. n.lt x y) xs
        (All-map (λ y. n.le y m ≡ true) (λ y. n.lt x y ≡ false)
          (λ y e. not_larger y x (laws.le_trans y m x e h)) xs top)

  -- The end of `link_averages`, with the samples of both links at hand.
  abbrev pub print_maxima : (List F → F) → (F → F) → List F → List F → Result (LinkAverages F)
  print_maxima mean round_2 sub6 mmw = do
    sub6_max ← largest sub6
    mmw_max ← largest mmw
    ok (record {
      sub6_avg = round_2 (mean sub6);
      sub6_max = sub6_max;
      mmw_avg = round_2 (mean mmw);
      mmw_max = mmw_max;
    })

  print_maxima-Prints :
      (mean : List F → F) (round_2 : F → F) (sub6 mmw samples : List F)
      → ((p : F → Bool) → count p samples ≤ count p sub6 + count p mmw)
      → Prints sub6 mmw (λ x. count (λ y. n.lt x y) samples) (print_maxima mean round_2 sub6 mmw)
  print_maxima-Prints mean round_2 sub6 mmw samples cover = elim (largest_lem sub6) [
    | inl (none_there, e) ↦ inl (inl none_there, rw e refl)
    | inr (m, e, within, top) ↦ elim (largest_lem mmw) [
      | inl (none_there, e') ↦ inl (inr none_there, rw e (rw e' refl))
      | inr (m', e', within', top') ↦ inr (
        record {
          sub6_avg = round_2 (mean sub6);
          sub6_max = m;
          mmw_avg = round_2 (mean mmw);
          mmw_max = m';
        },
        rw e (rw e' refl),
        within,
        within',
        top,
        top',
        λ x h h'. omega (
          arith,
          cover (λ y. n.lt x y),
          none_larger m x sub6 h top,
          none_larger m' x mmw h' top',
        ),
      )
    ]
  ]

  -- Away from NaN, of a run with a sample, with a target link for each handover and links 1 and 2
  -- only: the samples of both links are gathered up to the largest time. `link_averages` raises
  -- ValueError if one of the links has none. Else it returns, the two maxima are the largest samples of
  -- the links, and no sample of the run from 0 to that time is larger than a number that is at least
  -- both.
  pub link_averages_lem :
      (mean : List F → F) (round_2 : F → F) (ho_times : List F) (target_links : List ℤ) (t : F)
      (ts xs : List F)
      → length ho_times ≤ length target_links
      → All IsLink target_links
      → (time_end : F) × (largest (t ∷ ts) ≡ ok time_end)
        × (sub6 mmw : List F) × (link_thuputs ho_times target_links (t ∷ ts) xs time_end
            ≡ ok (sub6, mmw))
        × Prints sub6 mmw
            (λ x. count (λ y. n.lt x y) (samples_of time_end (t ∷ ts) xs))
            (link_averages mean round_2 ho_times target_links (t ∷ ts) xs)
  unfolding largest link_averages
  link_averages_lem mean round_2 ho_times target_links t ts xs h links =
      let time_end = max_from t ts in
      let (sub6, mmw, ran, cover) =
        link_thuputs_cover laws ho_times target_links (t ∷ ts) xs time_end h links in
      (
        time_end,
        refl,
        sub6,
        mmw,
        ran,
        rw ran (print_maxima-Prints mean round_2 sub6 mmw (samples_of time_end (t ∷ ts) xs) cover),
      )
