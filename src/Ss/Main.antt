-- ===== src/Ss/Main.antt =====
-- `main` of scripts/processing/parse_ss.py: a log is parsed, saved as a csv file and its time span
-- printed. Reading and writing the files, the stem of a path and the difference of two dates are
-- arguments.
use mathlib.Core.List.{Memᴰ}
use mathlib.Core.Path.{subst}
use emulator_test.Prelude.{
  All, All-map, Bool-cases, ◌≡◌, refl, sym, ◌⊎◌, inl, inr, ℕ, List, [], ◌∷◌, ◌++◌, length, Bool,
  true, false, Option, none, some, Result, ok, raised, type_error, key_error, or_raise, ◌>>=◌,
}
use emulator_test.Number.{Number}
use emulator_test.Text.{Text, codes, strip}
use emulator_test.Ss.{num, Metric, plain, datetime, Metrics}
use emulator_test.Ss.Log.{parse_file, parse_file-All}
use emulator_test.Ss.Header.{csv_table, entry_keys, csv_table_lem, csv_table-HasInfo}
use emulator_test.Ss.Csv.{get, HasInfo}
use emulator_test.Ss.Dated.{IsFree, IsDated, parse_line-IsDated}

-- The difference of two values of an entry.
pub data Span {ℓ} (F S : Type ℓ) : Type ℓ where
  of_dates : S → Span F S
  of_numbers : F → Span F S

-- What `main` prints in the end: how many entries, and the time from the first to the last.
pub data Outcome {ℓ} (F S : Type ℓ) : Type ℓ where
  not_parsed not_saved : Outcome F S
  saved : ℕ → Option (Span F S) → Outcome F S

pub last {ℓ} : {A : Type ℓ} → A → List A → A
last x [] = x
last x (y ∷ ys) = last y ys

-- The name of the csv file.
unfoldable pub output_name : (stem : Text → Text) → (log_file : Text) → Option Text → Text
output_name stem log_file none = codes "parsed_" ++ stem log_file ++ codes ".csv"
output_name stem log_file (some output) = output

-- What `main` uses of the system and of the library.
pub record Library {ℓ} (F D S : Type ℓ) : Type ℓ where
  pub float : Text → Option F
  pub fromtimestamp : F → Option D
  pub minus_dates : D → D → S
  pub sorted : List Text → List Text
  pub stem : Text → Text
  -- The lines of a file, or nothing where it is not there or cannot be read.
  pub read : Text → Option (List Text)
  -- Whether the csv writer gets through.
  pub write : Text → List Text → List (Metrics F D) → Bool

module _ {ℓ} {F D S : Type ℓ} ⦃n : Number F⦄ (lib : Library F D S) where
  -- `last_entry - first_entry`: no key "datetime" has the timestamp or the BBR part.
  subtract : Metric F D → Metric F D → Result (Span F S)
  subtract (datetime d) (datetime e) = ok (of_dates (lib.minus_dates d e))
  subtract (plain (num x)) (plain (num y)) = ok (of_numbers (n.minus x y))
  subtract _ _ = raised type_error

  time_span : Metrics F D → List (Metrics F D) → Result (Span F S)
  unfolding subtract last
  time_span entry entries = do
    first_entry ← or_raise (get (codes "datetime") entry) key_error
    last_entry ← or_raise (get (codes "datetime") (last entry entries)) key_error
    subtract last_entry first_entry

  -- `save_csv`: whether the data is saved.
  save_csv : Text → List (Metrics F D) → Result Bool
  save_csv output parsed_data = do
    table ← csv_table lib.sorted parsed_data
    elim table [ none ↦ ok false | some (names, rows) ↦ ok (lib.write output names rows) ]

  report_saved : Bool → List (Metrics F D) → Result (Outcome F S)
  unfolding time_span
  report_saved false parsed_data = ok not_saved
  report_saved true [] = ok (saved 0 none)
  report_saved true (entry ∷ entries) = do
    duration ← time_span entry entries
    ok (saved (length (entry ∷ entries)) (some duration))

  unfoldable pub main : (log_file : Text) (output : Option Text) → Result (Outcome F S)
  unfolding save_csv report_saved
  main log_file output = elim (lib.read log_file) [
    | none ↦ ok not_parsed
    | some lines ↦
        let parsed_data = parse_file lib.float lib.fromtimestamp lines in
        do
          is_saved ← save_csv (output_name lib.stem log_file output) parsed_data
          report_saved is_saved parsed_data
  ]

  -- The date of an entry is that.
  abbrev pub Shows : D → Metrics F D → Type ℓ
  Shows d entry = get (codes "datetime") entry ≡ some (datetime d)

  -- The first and the last of the entries have these dates.
  abbrev pub IsFrom : D → D → List (Metrics F D) → Type ℓ
  IsFrom d e entries =
      (entry : Metrics F D) × (others : List (Metrics F D)) × (entries ≡ entry ∷ others)
      × Shows d entry
      × Shows e (last entry others)

  last-All {κ} :
      (P : Metrics F D → Type κ) (entry : Metrics F D) (entries : List (Metrics F D))
      → All P (entry ∷ entries)
      → P (last entry entries)
  unfolding last
  last-All P entry [] h = h.0
  last-All P entry (next ∷ entries) h = last-All P next entries h.1

  time_span-Shows :
      (d e : D) (entry : Metrics F D) (entries : List (Metrics F D))
      → Shows d entry
      → Shows e (last entry entries)
      → time_span entry entries ≡ ok (of_dates (lib.minus_dates e d))
  unfolding time_span subtract
  time_span-Shows d e entry entries h h' = rw h (rw h' refl)

  -- What `main` returns for entries that have dates.
  abbrev pub Reports : Text → List (Metrics F D) → Result (Outcome F S) → Type ℓ
  Reports output entries r =
      ((entries ≡ []) × (r ≡ ok not_saved))
      ⊎ ((names : List Text) × (rows : List (Metrics F D)) × (csv_table lib.sorted entries
            ≡ ok (some (names, rows)))
          × All (λ row. All (λ k. Memᴰ k names) (entry_keys row)) rows
          × (((lib.write output names rows ≡ false) × (r ≡ ok not_saved))
              ⊎ ((lib.write output names rows ≡ true)
                  × (d : D) × (e : D) × IsFrom d e entries
                  × (r ≡ ok (saved (length entries) (some (of_dates (lib.minus_dates e d))))))))

  report_entries :
      (output : Text) (entries : List (Metrics F D))
      → ((key : Text) (keys : List Text) → Memᴰ key keys → Memᴰ key (lib.sorted keys))
      → All (IsDated lib.float) entries
      → Reports output entries
          (do is_saved ← save_csv output entries; report_saved is_saved entries)
  unfolding save_csv report_saved csv_table
  report_entries output [] keeps dated = inl (refl, refl)
  report_entries output (entry ∷ entries) keeps dated =
      let (names, rows, e) =
        csv_table-HasInfo lib.sorted entry entries
          (All-map (IsDated lib.float) HasInfo (λ m h. h.1) (entry ∷ entries) dated) in
      let columns = csv_table_lem lib.sorted (entry ∷ entries) rows names keeps e in
      let (d, first_date) = dated.0.0 in
      let (f, last_date) = (last-All (IsDated lib.float) entry entries dated).0 in
      inr (
        names,
        rows,
        e,
        columns,
        elim (Bool-cases (lib.write output names rows)) [
          | inl written ↦ inr (
            written,
            d,
            f,
            (entry, entries, refl, first_date, last_date),
            rw e (rw written (rw (time_span-Shows d f entry entries first_date last_date) refl)),
          )
          | inr not_written ↦ inl (not_written, rw e (rw not_written refl))
        ],
      )

  main_read :
      (log_file : Text) (output : Option Text) (lines : List Text)
      → lib.read log_file ≡ some lines
      → main log_file output ≡ (
          save_csv
            (output_name lib.stem log_file output)
            (parse_file lib.float lib.fromtimestamp lines)
          >>= λ is_saved. report_saved is_saved (parse_file lib.float lib.fromtimestamp lines))
  unfolding main
  main_read log_file output lines exists = rw (exists, main) refl

  -- Where no line of a log that can be read has a pair under "datetime" or "bbr", `main` returns: it
  -- does not save what has no entry; else every key of every row is a field name, and if the csv
  -- writer gets through, the time that `main` prints is that from the date of the first entry to the
  -- date of the last, and else nothing is saved.
  pub main_lem :
      (log_file : Text) (output : Option Text) (lines : List Text)
      → lib.read log_file ≡ some lines
      → All (λ line. IsFree (strip line)) lines
      → ((key : Text) (keys : List Text) → Memᴰ key keys → Memᴰ key (lib.sorted keys))
      → Reports
          (output_name lib.stem log_file output)
          (parse_file lib.float lib.fromtimestamp lines)
          (main log_file output)
  main_lem log_file output lines exists free keeps =
      let entries = parse_file lib.float lib.fromtimestamp lines in
      let name = output_name lib.stem log_file output in
      let dated =
        parse_file-All lib.float lib.fromtimestamp IsFree (IsDated lib.float)
          (λ line m f e. parse_line-IsDated lib.float lib.fromtimestamp line m f e) lines free in
      subst (Reports name entries) (sym (main_read log_file output lines exists))
        (report_entries name entries keeps dated)
