-- ===== src/Ss/Log.antt =====
-- The loops over the lines of an `ss` log: `parse_ss` of scripts/processing/parse-logs.py stops at a
-- line that raises, `TCPLogParser.parse_file` of scripts/processing/parse_ss.py goes on.
use emulator_test.Prelude.{
  List, [], ◌∷◌, ◌++◌, Option, none, some, PyError, Result, ok, raised, All, ◌≡◌, refl, ap, ◌∙◌,
}
use emulator_test.Number.{Number}
use emulator_test.Text.{Text, strip}
use emulator_test.Ss.{Metrics, parse_ss_line, parse_line}

module _ {ℓ} {A : Type ℓ} where
  -- What a line adds to `parsed_data`.
  abbrev added_or_stop : Result (Option A) → List A → List A
  added_or_stop (raised _) rest = []
  added_or_stop (ok none) rest = rest
  added_or_stop (ok (some metrics)) rest = metrics ∷ rest

  abbrev added_or_skip : Result (Option A) → List A → List A
  added_or_skip (raised _) rest = rest
  added_or_skip (ok none) rest = rest
  added_or_skip (ok (some metrics)) rest = metrics ∷ rest

  -- `parsed_data`, with `break` after an exception.
  break_loop : (Text → Result (Option A)) → List Text → List A
  break_loop parse [] = []
  break_loop parse (line ∷ lines) = added_or_stop (parse (strip line)) (break_loop parse lines)

  -- With `continue` after an exception.
  continue_loop : (Text → Result (Option A)) → List Text → List A
  continue_loop parse [] = []
  continue_loop parse (line ∷ lines) =
      added_or_skip (parse (strip line)) (continue_loop parse lines)

  break_loop-raised :
      (parse : Text → Result (Option A)) (before : List Text) (line : Text) (behind : List Text)
      (e : PyError)
      → parse (strip line) ≡ raised e
      → break_loop parse (before ++ line ∷ behind) ≡ break_loop parse before
  unfolding break_loop
  break_loop-raised parse [] line behind e h = rw (h, break_loop) refl
  break_loop-raised parse (l ∷ before) line behind e h =
      ap (added_or_stop (parse (strip l))) (break_loop-raised parse before line behind e h)

  added_or_skip-append :
      (r : Result (Option A)) (xs ys : List A)
      → added_or_skip r (xs ++ ys) ≡ added_or_skip r xs ++ ys
  added_or_skip-append (raised _) xs ys = refl
  added_or_skip-append (ok none) xs ys = refl
  added_or_skip-append (ok (some metrics)) xs ys = refl

  continue_loop-append :
      (parse : Text → Result (Option A)) (before behind : List Text)
      → continue_loop parse (before ++ behind)
        ≡ continue_loop parse before ++ continue_loop parse behind
  unfolding continue_loop
  continue_loop-append parse [] behind = refl
  continue_loop-append parse (l ∷ before) behind =
      ap (added_or_skip (parse (strip l))) (continue_loop-append parse before behind)
      ∙ added_or_skip-append (parse (strip l)) (continue_loop parse before)
          (continue_loop parse behind)

  added_or_skip-All {κ} :
      (P : A → Type κ) (r : Result (Option A)) (rest : List A)
      → ((a : A) → r ≡ ok (some a) → P a)
      → All P rest
      → All P (added_or_skip r rest)
  added_or_skip-All P (raised _) rest h all = all
  added_or_skip-All P (ok none) rest h all = all
  added_or_skip-All P (ok (some a)) rest h all = (h a refl, all)

module _ {ℓ} {F D : Type ℓ} ⦃n : Number F⦄ (float : Text → Option F) where
  -- The part of `parse_ss` that reads the file.
  unfoldable pub read_ss : List Text → List (Metrics F D)
  unfolding break_loop
  read_ss lines = break_loop (parse_ss_line float) lines

  -- `parse_file`
  unfoldable pub parse_file : (fromtimestamp : F → Option D) → List Text → List (Metrics F D)
  unfolding continue_loop
  parse_file fromtimestamp lines = continue_loop (parse_line float fromtimestamp) lines

  -- A line that raises ends what `parse_ss` reads, while `parse_file` passes over a line that raises
  -- and reads the lines behind it as those before.
  pub read_ss-parse_file :
      (fromtimestamp : F → Option D) (before : List Text) (line : Text) (behind : List Text)
      (e e' : PyError)
      → parse_ss_line {D = D} float (strip line) ≡ raised e
      → parse_line float fromtimestamp (strip line) ≡ raised e'
      → (read_ss (before ++ line ∷ behind) ≡ read_ss before)
        × (parse_file fromtimestamp (before ++ line ∷ behind)
            ≡ parse_file fromtimestamp before ++ parse_file fromtimestamp behind)
  unfolding read_ss parse_file continue_loop
  read_ss-parse_file fromtimestamp before line behind e e' h h' = (
    break_loop-raised (parse_ss_line float) before line behind e h,
    continue_loop-append (parse_line float fromtimestamp) before (line ∷ behind)
        ∙ ap
            (λ r.
              parse_file fromtimestamp before ++ added_or_skip r (parse_file fromtimestamp behind))
            h',
  )

  -- What holds of every entry that a line gives holds of all that `parse_file` keeps.
  pub parse_file-All {κ} :
      (fromtimestamp : F → Option D) (Q : Text → Type 0) (P : Metrics F D → Type κ)
      → ((line : Text) (m : Metrics F D)
          → Q line
          → parse_line float fromtimestamp line ≡ ok (some m)
          → P m)
      → (lines : List Text) → All (λ line. Q (strip line)) lines
      → All P (parse_file fromtimestamp lines)
  unfolding parse_file continue_loop
  parse_file-All fromtimestamp Q P gives [] h = tt
  parse_file-All fromtimestamp Q P gives (line ∷ lines) (hd, h) =
      added_or_skip-All P (parse_line float fromtimestamp (strip line))
        (parse_file fromtimestamp lines) (λ m e. gives (strip line) m hd e)
        (parse_file-All fromtimestamp Q P gives lines h)
