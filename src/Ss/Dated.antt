-- ===== src/Ss/Dated.antt =====
-- What `parse_line` of scripts/processing/parse_ss.py leaves under the keys that it sets itself.
use mathlib.Core.Path.{subst}
use emulator_test.Prelude.{
  ◌≡◌, refl, ◌∙◌, inl, inr, List, [], ◌∷◌, All, All-map, false, Option, none, some, ok, returned,
  ok-injective, or_raise, ◌>>=◌, value_error,
}
use emulator_test.Number.{Number, number}
use emulator_test.Text.{Text, codes, text_eq, remove, int_of}
use emulator_test.Ss.{
  Metric, plain, datetime, timestamp, info, Metrics, set_key, search_time, search_bbr, find_pairs,
  pair_value, pair_loop, parse_bbr_info, add_metrics, parse_line,
}
use emulator_test.Ss.Csv.{get, get-set_key, get-set_key_other, HasInfo}

-- The pairs of a line, without its BBR part.
abbrev pairs_of : Text → List (Text × Text)
pairs_of line = elim (search_bbr line) [
  | none ↦ find_pairs line
  | some part ↦ find_pairs (remove part line)
]

-- No pair has one of the keys under which the parser puts a date and the BBR part.
abbrev pub IsFree : Text → Type 0
IsFree line =
    All (λ p. (text_eq p.0 (codes "datetime") ≡ false) × (text_eq p.0 (codes "bbr") ≡ false))
      (pairs_of line)

bbr-datetime : text_eq (codes "bbr") (codes "datetime") ≡ false
unfolding text_eq
bbr-datetime = refl

module _ {ℓ} {F D : Type ℓ} ⦃n : Number F⦄ (float : Text → Option F) where
  -- An entry with a date, and whose BBR part, if it has one, is a dictionary.
  abbrev pub IsDated : Metrics F D → Type ℓ
  IsDated entry = ((d : D) × (get (codes "datetime") entry ≡ some (datetime d))) × HasInfo entry

  pair_loop-get :
      (key : Text) (metrics : Metrics F D) (pairs : List (Text × Text))
      → All (λ p. text_eq p.0 key ≡ false) pairs
      → get key (pair_loop float metrics pairs) ≡ get key metrics
  unfolding pair_loop
  pair_loop-get key metrics [] free = refl
  pair_loop-get key metrics ((k, v) ∷ pairs) (differs, free) =
      pair_loop-get key (set_key k (plain (pair_value float v)) metrics) pairs free
      ∙ get-set_key_other k key (plain (pair_value float v)) metrics differs

  pair_loop-IsDated :
      (metrics : Metrics F D) (pairs : List (Text × Text))
      → All
          (λ p. (text_eq p.0 (codes "datetime") ≡ false) × (text_eq p.0 (codes "bbr") ≡ false))
          pairs
      → IsDated metrics
      → IsDated (pair_loop float metrics pairs)
  pair_loop-IsDated metrics pairs free ((d, dated), bbr) =
      let same_date =
        pair_loop-get (codes "datetime") metrics pairs (All-map _ _ (λ p h. h.0) pairs free) in
      let same_bbr =
        pair_loop-get (codes "bbr") metrics pairs (All-map _ _ (λ p h. h.1) pairs free) in
      (
        (d, same_date ∙ dated),
        elim bbr [ inl e ↦ inl (same_bbr ∙ e) | inr (params, e) ↦ inr (params, same_bbr ∙ e) ],
      )

  -- By what is found of the BBR part.
  add_found-IsDated :
      (metrics m : Metrics F D) (line : Text) (found : Option Text)
      → All
          (λ p. (text_eq p.0 (codes "datetime") ≡ false) × (text_eq p.0 (codes "bbr") ≡ false))
          (elim found [ none ↦ find_pairs line | some part ↦ find_pairs (remove part line) ])
      → IsDated metrics
      → (elim found [
        | none ↦ ok (pair_loop float metrics (find_pairs line))
        | some part ↦ do
          bbr_info ← parse_bbr_info float part
          ok (
              pair_loop float
                (set_key (codes "bbr") (info bbr_info) metrics)
                (find_pairs (remove part line)))
      ])
        ≡ ok m
      → IsDated m
  add_found-IsDated metrics m line none free dated h =
      subst IsDated (ok-injective _ m h) (pair_loop-IsDated metrics (find_pairs line) free dated)
  add_found-IsDated metrics m line (some part) free ((d, dated), bbr) h =
      let (params, e, _) = returned _ (parse_bbr_info float part) h in
      subst IsDated (ok-injective _ m e) (
        pair_loop-IsDated (set_key (codes "bbr") (info params) metrics)
          (find_pairs (remove part line)) free
          (
            (
              d,
              get-set_key_other (codes "bbr") (codes "datetime") (info params) metrics bbr-datetime
                  ∙ dated,
            ),
            inr (params, get-set_key (codes "bbr") (info params) metrics),
          ))

  add_metrics-IsDated :
      (metrics m : Metrics F D) (line : Text)
      → IsFree line
      → IsDated metrics
      → add_metrics float metrics line ≡ ok m
      → IsDated m
  unfolding add_metrics
  add_metrics-IsDated metrics m line free dated h =
      add_found-IsDated metrics m line (search_bbr line) free dated h

  first_metrics-IsDated :
      (t : Metric F D) (d : D)
      → IsDated ((codes "timestamp", t) ∷ (codes "datetime", datetime d) ∷ [])
  unfolding text_eq
  first_metrics-IsDated t d = ((d, refl), inl refl)

  -- By the digits behind "time:".
  parse_digits-IsDated :
      (fromtimestamp : F → Option D) (line : Text) (m : Metrics F D) (found : Option Text)
      → IsFree line
      → (elim found [
        | none ↦ ok none
        | some digits ↦ do
          stamp ← int_of digits
          date ← or_raise (fromtimestamp (n.over (n.of_ℤ stamp) (number 1000000000))) value_error
          metrics ←
              add_metrics float
                ((codes "timestamp", timestamp stamp) ∷ (codes "datetime", datetime date) ∷ [])
                line
          ok (some metrics)
      ])
        ≡ ok (some m)
      → IsDated m
  parse_digits-IsDated fromtimestamp line m none free h = cc
  parse_digits-IsDated fromtimestamp line m (some digits) free h =
      let (stamp, e, _) = returned _ (int_of digits) h in
      let (date, e', _) =
        returned _
          (or_raise (fromtimestamp (n.over (n.of_ℤ stamp) (number 1000000000))) value_error) e in
      let (metrics, e'', added) = returned _ (add_metrics float _ line) e' in
      let same : metrics ≡ m = cc in
      subst IsDated same (
        add_metrics-IsDated _ metrics line free (first_metrics-IsDated (timestamp stamp) date)
          added)

  pub parse_line-IsDated :
      (fromtimestamp : F → Option D) (line : Text) (m : Metrics F D)
      → IsFree line
      → parse_line float fromtimestamp line ≡ ok (some m)
      → IsDated m
  unfolding parse_line
  parse_line-IsDated fromtimestamp line m free h =
      parse_digits-IsDated fromtimestamp line m (search_time line) free h
