-- ===== src/Panels/Files.antt =====
-- What plot-logs.py draws of which files, and the files that it detects.
use emulator_test.Prelude.{
  ℕ, ◌≡◌, refl, ap, ◌⊎◌, inl, inr, List, [], ◌∷◌, ◌++◌, map, length, count, Bool, true, false,
  Bool-cases, Option, none, some, IsOrElse, Result, ok,
}
use emulator_test.Number.{Number, number}
use emulator_test.Text.{Text, codes}
use emulator_test.Panels.{
  LogRow, Args, Subplot, drawn, Drawing, exits, saved, detect, detect_files, empty_subplots,
  time_or,
}
use emulator_test.Panels.Curves.{point, IsCurve}

-- Two lists of different lengths
pub data Mismatch {ℓ} : Type ℓ where

abbrev pub is_given : Option Text → Bool
is_given none = false
is_given (some f) = true

-- The file that is drawn: with a prefix, the one of this prefix if it exists, else the argument.
abbrev pub IsDetected : (Text → Bool) → Option Text → Text → Option Text → Option Text → Type 0
IsDetected exists none suffix otherwise file = file ≡ otherwise
IsDetected exists (some auto) suffix otherwise file =
    let fname = codes "output/" ++ auto ++ suffix in
    ((exists fname ≡ true) × (file ≡ some fname)) ⊎ ((exists fname ≡ false) × (file ≡ otherwise))

detect-IsDetected :
    (exists : Text → Bool) (auto suffix : Text) (otherwise : Option Text)
    → IsDetected exists
        (some auto)
        suffix
        otherwise
        (detect exists (codes "output/" ++ auto ++ suffix) otherwise)
unfolding detect
detect-IsDetected exists auto suffix otherwise =
    elim (Bool-cases (exists (codes "output/" ++ auto ++ suffix))) [
      | inl e ↦ inl (e, rw e refl)
      | inr e ↦ inr (e, rw e refl)
    ]

module _ {ℓ} {F : Type ℓ} where
  -- A subplot for each label and curve
  abbrev pub drawn_all : List (Text × List (F × F)) → List (Subplot F)
  drawn_all [] = []
  drawn_all ((ylabel, points) ∷ ps) = drawn ylabel points ∷ drawn_all ps

  -- A file with a name, with its label and its rows
  abbrev pub named : Text → (Text → List (LogRow F)) → Option Text → List (Text × List (LogRow F))
  named ylabel rows none = []
  named ylabel rows (some []) = []
  named ylabel rows (some (c ∷ cs)) = (ylabel, rows (c ∷ cs)) ∷ []

  -- The average is taken over the values of the throughput's curve, which is the first one.
  abbrev pub IsAverage : (List F → F) → Option Text → List (Text × List (F × F)) → Option F → Type ℓ
  IsAverage mean none ps m = m ≡ none
  IsAverage mean (some []) ps m = m ≡ none
  IsAverage mean (some (c ∷ cs)) [] m = Mismatch
  IsAverage mean (some (c ∷ cs)) ((ylabel, points) ∷ ps) m = m ≡ some (mean (map (λ p. p.1) points))

  pub values-points :
      (rows : List (LogRow F)) → map (λ p. p.1) (map point rows) ≡ map (λ r. r.value) rows
  values-points [] = refl
  values-points (r ∷ rows) = ap (λ xs. r.value ∷ xs) (values-points rows)

  abbrev pub args_of : (auto name t j s : Option Text) → Option F → Option F → Args F
  args_of auto name t j s begin end = record {
    auto = auto;
    name = name;
    throughput = t;
    jitter = j;
    ss = s;
    begin = begin;
    end = end;
  }

  pub detect_files-IsDetected :
      (exists : Text → Bool) (auto name t j s : Option Text) (begin end : Option F)
      → (t' s' : Option Text) × IsDetected exists auto (codes "-iperf-throughput.csv") t t'
        × IsDetected exists auto (codes "-ss-server.csv") s s'
        × (detect_files exists (args_of auto name t j s begin end)
            ≡ args_of auto name t' j s' begin end)
  unfolding detect_files
  detect_files-IsDetected exists none name t j s begin end = (t, s, refl, refl, refl)
  detect_files-IsDetected exists (some auto) name t j s begin end = (
    _,
    _,
    detect-IsDetected exists auto (codes "-iperf-throughput.csv") t,
    detect-IsDetected exists auto (codes "-ss-server.csv") s,
    refl,
  )

module _ {ℓ} {F : Type ℓ} ⦃n : Number F⦄ where
  pub time_or-IsOrElse : (t : Option F) (k : ℕ) → IsOrElse t (number k) (time_or t (number k))
  unfolding time_or
  time_or-IsOrElse none k = refl
  time_or-IsOrElse (some t) k = refl

  -- Each file has a curve under its label, in order.
  abbrev pub Shows : F → F → List (Text × List (LogRow F)) → List (Text × List (F × F)) → Type ℓ
  Shows begin end [] [] = Unit
  Shows begin end ((ylabel, rows) ∷ files) ((ylabel', points) ∷ ps) =
      (ylabel' ≡ ylabel) × IsCurve begin end rows points × Shows begin end files ps
  Shows begin end files ps = Mismatch

  abbrev pub Draws :
      (List F → F)
      → (throughput_rows ss_rows : Text → List (LogRow F)) → (throughput jitter ss : Option Text)
      → F
      → F
      → Result (Drawing F)
      → Type ℓ
  Draws mean throughput_rows ss_rows throughput jitter ss begin end result =
      ((throughput ≡ none) × (jitter ≡ none) × (ss ≡ none) × (result ≡ ok exits))
      ⊎ ((file_name : Text) × (ps : List (Text × List (F × F))) × (k : ℕ) × (m : Option F) × (result
            ≡ ok (saved file_name (drawn_all ps ++ empty_subplots k) m))
          × (length (drawn_all ps ++ empty_subplots k)
              ≡ count is_given (throughput ∷ jitter ∷ ss ∷ []))
          × Shows begin end
              (named (codes "Thuput(Mbps)") throughput_rows throughput
                ++ named (codes "bbr minRTT") ss_rows ss)
              ps
          × IsAverage mean throughput ps m)
