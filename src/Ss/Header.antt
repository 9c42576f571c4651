-- ===== src/Ss/Header.antt =====
-- The columns of the csv file that `save_csv` of scripts/processing/parse_ss.py writes. `sorted` is an
-- argument, of which only is used that it loses nothing.
use mathlib.Core.List.{Memᴰ}
use mathlib.Core.Path.{subst}
use emulator_test.Prelude.{
  List, [], ◌∷◌, map, All, All-map, Bool, true, false, ◌≡◌, sym, Bool-cases, inl, inr,
  if◌then◌else◌, Option, none, some, Result, ok, ◌>>=◌, returned, refl,
}
use emulator_test.Text.{Text, text_eq}
use emulator_test.Text.Fields.{text_eq→eq}
use emulator_test.Ss.{Metrics}
use emulator_test.Ss.Csv.{flatten, HasInfo, flatten-HasInfo}

-- `key in headers`
has_header : Text → List Text → Bool
has_header key [] = false
has_header key (h ∷ headers) = if text_eq h key then true else has_header key headers

-- `headers.update(keys)`
update_headers : List Text → List Text → List Text
unfolding has_header
update_headers headers [] = headers
update_headers headers (key ∷ keys) =
    update_headers (if has_header key headers then headers else key ∷ headers) keys

has_header-Memᴰ :
    (key : Text) (headers : List Text) → has_header key headers ≡ true → Memᴰ key headers
unfolding has_header
has_header-Memᴰ key [] h = cc
has_header-Memᴰ key (x ∷ headers) h = elim (Bool-cases (text_eq x key)) [
  | inl e ↦ Memᴰ.head (sym (text_eq→eq x key e))
  | inr e ↦ Memᴰ.tail (has_header-Memᴰ key headers (rw e at h))
]

update_headers-keeps :
    (key : Text) (headers keys : List Text)
    → Memᴰ key headers
    → Memᴰ key (update_headers headers keys)
unfolding update_headers
update_headers-keeps key headers [] m = m
update_headers-keeps key headers (k ∷ keys) m = elim (Bool-cases (has_header k headers)) [
  | inl e ↦ rw e (update_headers-keeps key headers keys m)
  | inr e ↦ rw e (update_headers-keeps key (k ∷ headers) keys (Memᴰ.tail m))
]

update_headers-All :
    (headers keys : List Text) → All (λ k. Memᴰ k (update_headers headers keys)) keys
unfolding update_headers
update_headers-All headers [] = tt
update_headers-All headers (k ∷ keys) = elim (Bool-cases (has_header k headers)) [
  | inl e ↦
      let step : update_headers headers (k ∷ keys) ≡ update_headers headers keys = rw e refl in
      subst (λ hs. All (λ j. Memᴰ j hs) (k ∷ keys)) (sym step)
        (
          update_headers-keeps k headers keys (has_header-Memᴰ k headers e),
          update_headers-All headers keys,
        )
  | inr e ↦
      let step : update_headers headers (k ∷ keys) ≡ update_headers (k ∷ headers) keys =
        rw e refl in
      subst (λ hs. All (λ j. Memᴰ j hs) (k ∷ keys)) (sym step)
        (
          update_headers-keeps k (k ∷ headers) keys (Memᴰ.head refl),
          update_headers-All (k ∷ headers) keys,
        )
]

abbrev pub entry_keys {ℓ} : {F D : Type ℓ} → Metrics F D → List Text
entry_keys entry = map (λ e. e.0) entry

module _ {ℓ} {F D : Type ℓ} where
  all_headers : List Text → List (Metrics F D) → List Text
  unfolding update_headers
  all_headers headers [] = headers
  all_headers headers (entry ∷ entries) =
      all_headers (update_headers headers (entry_keys entry)) entries

  flatten_all : List (Metrics F D) → Result (List (Metrics F D))
  unfolding flatten
  flatten_all [] = ok []
  flatten_all (entry ∷ entries) = do
    flat ← flatten entry
    flats ← flatten_all entries
    ok (flat ∷ flats)

  -- The field names and the rows that the csv writer gets; nothing where there is no data.
  unfoldable pub csv_table :
      (sorted : List Text → List Text)
      → List (Metrics F D)
      → Result (Option (List Text × List (Metrics F D)))
  unfolding flatten_all all_headers
  csv_table sorted [] = ok none
  csv_table sorted (entry ∷ entries) = do
    flats ← flatten_all (entry ∷ entries)
    ok (some (sorted (all_headers [] flats), flats))

  all_headers-keeps :
      (key : Text) (headers : List Text) (entries : List (Metrics F D))
      → Memᴰ key headers
      → Memᴰ key (all_headers headers entries)
  unfolding all_headers
  all_headers-keeps key headers [] m = m
  all_headers-keeps key headers (entry ∷ entries) m =
      all_headers-keeps key (update_headers headers (entry_keys entry)) entries
        (update_headers-keeps key headers (entry_keys entry) m)

  all_headers-All :
      (headers : List Text) (entries : List (Metrics F D))
      → All (λ entry. All (λ k. Memᴰ k (all_headers headers entries)) (entry_keys entry)) entries
  unfolding all_headers
  all_headers-All headers [] = tt
  all_headers-All headers (entry ∷ entries) =
      let next = update_headers headers (entry_keys entry) in
      (
        All-map (λ k. Memᴰ k next) (λ k. Memᴰ k (all_headers next entries))
            (λ k m. all_headers-keeps k next entries m) (entry_keys entry)
            (update_headers-All headers (entry_keys entry)),
        all_headers-All next entries,
      )

  -- Where `sorted` loses no name, every key of every row that the csv writer gets is a field name, so
  -- that it meets no row that it refuses.
  pub csv_table_lem :
      (sorted : List Text → List Text) (entries flats : List (Metrics F D)) (names : List Text)
      → ((key : Text) (keys : List Text) → Memᴰ key keys → Memᴰ key (sorted keys))
      → csv_table sorted entries ≡ ok (some (names, flats))
      → All (λ entry. All (λ k. Memᴰ k names) (entry_keys entry)) flats
  unfolding csv_table
  csv_table_lem sorted [] flats names keeps h = cc
  csv_table_lem sorted (entry ∷ entries) flats names keeps h =
      let (rows, e, _) = returned _ (flatten_all (entry ∷ entries)) h in
      let same_names : sorted (all_headers [] rows) ≡ names = cc in
      let same_rows : rows ≡ flats = cc in
      subst (λ ns. All (λ r. All (λ k. Memᴰ k ns) (entry_keys r)) flats) same_names
        (subst (λ rs. All (λ r. All (λ k. Memᴰ k (sorted (all_headers [] rows))) (entry_keys r)) rs)
          same_rows
          (All-map (λ r. All (λ k. Memᴰ k (all_headers [] rows)) (entry_keys r))
            (λ r. All (λ k. Memᴰ k (sorted (all_headers [] rows))) (entry_keys r))
            (λ r ms.
              All-map (λ k. Memᴰ k (all_headers [] rows))
                (λ k. Memᴰ k (sorted (all_headers [] rows)))
                (λ k m. keeps k (all_headers [] rows) m) (entry_keys r) ms)
            rows (all_headers-All [] rows)))

  flatten_all-HasInfo :
      (entries : List (Metrics F D))
      → All HasInfo entries
      → (rows : List (Metrics F D)) × (flatten_all entries ≡ ok rows)
  unfolding flatten_all
  flatten_all-HasInfo [] h = ([], refl)
  flatten_all-HasInfo (entry ∷ entries) (hd, h) =
      let (row, e) = flatten-HasInfo entry hd in
      let (rows, es) = flatten_all-HasInfo entries h in (row ∷ rows, rw e (rw es refl))

  -- Entries with a BBR part that is a dictionary, or without one, have a table.
  pub csv_table-HasInfo :
      (sorted : List Text → List Text) (entry : Metrics F D) (entries : List (Metrics F D))
      → All HasInfo (entry ∷ entries)
      → (names : List Text) × (rows : List (Metrics F D)) × (csv_table sorted (entry ∷ entries)
          ≡ ok (some (names, rows)))
  unfolding csv_table
  csv_table-HasInfo sorted entry entries h =
      let (rows, e) = flatten_all-HasInfo (entry ∷ entries) h in
      (sorted (all_headers [] rows), rows, rw e refl)
