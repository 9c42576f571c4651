-- ===== src/Panels/Tests.antt =====
-- plot-logs.py with a detected throughput and a jitter file.
use emulator_test.Prelude.{
  ◌≡◌, refl, List, [], ◌∷◌, map, count, inl, inr, Bool, Bool-cases, Option, none, some, IsOrElse,
  ok, arith, if◌then◌else◌,
}
use emulator_test.Prelude.Int.{ℤ, pos, leb_ℤ}
use emulator_test.Number.{whole_number}
use emulator_test.Text.{Text, codes, text_eq}
use emulator_test.Panels.{
  LogRow, Args, saved, drawn, empty, n_subfig, draw_at, file_name_of, plot_logs,
}
use emulator_test.Panels.Curves.{Rises}
use emulator_test.Panels.Files.{IsDetected, Draws}
use emulator_test.Panels.Subplots.{plot_logs_lem}

abbrev args : Args ℤ
args = record {
  auto = some (codes "t1");
  name = none;
  throughput = none;
  jitter = some (codes "j.csv");
  ss = none;
  begin = some (pos 2);
  end = none;
}

abbrev exists : Text → Bool
exists = text_eq (codes "output/t1-iperf-throughput.csv")

abbrev rows : Text → List (LogRow ℤ)
rows f =
    record { time = pos 1; value = pos 30 }
    ∷ record { time = pos 9; value = pos 50 }
    ∷ record { time = pos 4; value = pos 40 }
    ∷ record { time = pos 1201; value = pos 60 }
    ∷ []

abbrev first : List ℤ → ℤ
first [] = pos 0
first (x ∷ xs) = x

abbrev insert : LogRow ℤ → List (LogRow ℤ) → List (LogRow ℤ)
insert r [] = r ∷ []
insert r (x ∷ xs) = if leb_ℤ r.time x.time then r ∷ x ∷ xs else x ∷ insert r xs

-- An insertion sort in the place of `sort_values`
abbrev sort : List (LogRow ℤ) → List (LogRow ℤ)
sort [] = []
sort (r ∷ rs) = insert r (sort rs)

count-insert :
    (p : LogRow ℤ → Bool) (r : LogRow ℤ) (xs : List (LogRow ℤ))
    → count p (insert r xs) ≡ count p (r ∷ xs)
count-insert p r [] = refl
count-insert p r (x ∷ xs) = ground (arith, count-insert p r xs)

count-sort : (p : LogRow ℤ → Bool) (df : List (LogRow ℤ)) → count p (sort df) ≡ count p df
count-sort p [] = refl
count-sort p (r ∷ rs) = ground (arith, count-insert p r (sort rs), count-sort p rs)

insert-Rises :
    (r : LogRow ℤ) (xs : List (LogRow ℤ))
    → Rises (map (λ x. x.time) xs)
    → Rises (map (λ x. x.time) (insert r xs))
insert-Rises r [] h = tt
insert-Rises r (x ∷ []) h = elim (Bool-cases (leb_ℤ r.time x.time)) [
  | inl e ↦ rw e (e, tt)
  | inr e ↦ rw e (ground arith, tt)
]
insert-Rises r (x ∷ y ∷ xs) h = elim (Bool-cases (leb_ℤ r.time x.time)) [
  | inl e ↦ rw e (e, h)
  | inr e ↦ elim (Bool-cases (leb_ℤ r.time y.time)) [
    | inl e' ↦ rw (e, e') (ground arith, (e', h.1))
    | inr e' ↦ let rest = insert-Rises r (y ∷ xs) h.1 in rw (e, e') (h.0, (rw e' at rest))
  ]
]

sort-Rises : (df : List (LogRow ℤ)) → Rises (map (λ x. x.time) (sort df))
sort-Rises [] = tt
sort-Rises (r ∷ rs) = insert-Rises r (sort rs) (sort-Rises rs)

-- The rows from 2 on, in order of time, and an empty subplot for the jitter
drawn_sorted :
    plot_logs sort exists (λ f. ok (rows f)) (λ f. ok (rows f)) first args
    ≡ ok (
        saved
          (codes "test-unspec.png")
          (drawn (codes "Thuput(Mbps)") ((pos 4, pos 40) ∷ (pos 9, pos 50) ∷ []) ∷ empty ∷ [])
          (some (pos 40)))
unfolding plot_logs n_subfig draw_at file_name_of text_eq
drawn_sorted = refl

plot_logs_lem_example :
    (throughput ss : Option Text) × (begin end : ℤ) × IsDetected exists args.auto
      (codes "-iperf-throughput.csv")
      none
      throughput
    × IsDetected exists args.auto (codes "-ss-server.csv") none ss
    × IsOrElse (some (pos 2)) (pos 0) begin
    × IsOrElse none (pos 1200) end
    × Draws first rows rows throughput
        (some (codes "j.csv"))
        ss
        begin
        end
        (plot_logs sort exists (λ f. ok (rows f)) (λ f. ok (rows f)) first args)
plot_logs_lem_example =
    plot_logs_lem sort (count-sort, sort-Rises) first rows rows exists (λ f. ok (rows f))
      (λ f. ok (rows f)) args (λ f. refl) (λ f. refl)
