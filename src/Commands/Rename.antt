-- ===== src/Commands/Rename.antt =====
-- What `mod_cmd` makes of the lines of a trace.
use emulator_test.Prelude.{
  ℕ, ◌≡◌, ◌≤◌, ◌<◌, refl, ap, ◌∙◌, List, [], ◌∷◌, ◌++◌, append_assoc, map, length, length-map,
  get_elem?, get_elem?-lt, get_elem?-ge, index_error, All, true, leb, arith, none, some, ok, raised,
  PyError,
}
use emulator_test.Prelude.Int.{pos}
use emulator_test.Text.{Text, codes, comma, split, str_of}
use emulator_test.Text.Decimal.{int_of-printed}
use emulator_test.Text.Fields.{join, Lacks, split-join, str_of-Lacks}
use emulator_test.Commands.{
  cmd_mappings, index, write_comma, reduce_commas, mod_tokens, mod_lines, mod_cmd,
}

-- A line of an old trace: the time, the number of the command and the fields behind it.
pub record Entry : Type 0 where
  pub time : Text
  pub command : ℕ
  pub fields : List Text

abbrev pub IsEntry : Entry → Type 0
IsEntry e = Lacks comma e.time × (e.command < 8) × All (Lacks comma) e.fields

abbrev pub names : List Text
names =
    codes "INIT"
    ∷ codes "CMD"
    ∷ codes "HO"
    ∷ codes "SOL_HANDLEDUP"
    ∷ codes "SOL_HANDLERW"
    ∷ codes "SOL_INIT_SCHED"
    ∷ codes "SOL_HO"
    ∷ codes "UNKNOWN"
    ∷ []

abbrev pub name_of : ℕ → Text
name_of k = elim (get_elem? names k) [ none ↦ [] | some t ↦ t ]

abbrev pub old_line : Entry → Text
old_line e = join comma (e.time ∷ str_of e.command ∷ e.fields)

abbrev pub new_line : Entry → Text
new_line e = join comma (e.time ∷ name_of e.command ∷ e.fields)

reduce_commas-append :
    (a b : Text) (ts : List Text) → reduce_commas (a ++ b) ts ≡ a ++ reduce_commas b ts
unfolding reduce_commas write_comma
reduce_commas-append a b [] = refl
reduce_commas-append a b (t ∷ ts) =
    ap (λ r. reduce_commas r ts) (append_assoc a b (comma ∷ t))
    ∙ reduce_commas-append a (b ++ comma ∷ t) ts

reduce_commas-join : (t : Text) (ts : List Text) → reduce_commas t ts ≡ join comma (t ∷ ts)
unfolding reduce_commas write_comma
reduce_commas-join t [] = refl
reduce_commas-join t (u ∷ ts) =
    reduce_commas-append t (comma ∷ u) ts
    ∙ ap (λ r. t ++ r) (reduce_commas-append (comma ∷ []) u ts)
    ∙ ap (λ r. t ++ comma ∷ r) (reduce_commas-join u ts)

index-name : (k : ℕ) → k < 8 → index cmd_mappings (pos k) ≡ ok (name_of k)
unfolding index cmd_mappings
index-name k h = let (t, e) = get_elem?-lt names k h in rw e refl

str_of-comma : (k : ℕ) → Lacks comma (str_of k)
str_of-comma k = str_of-Lacks comma k (λ c h. ground (arith, h))

mod_line : (e : Entry) → IsEntry e → mod_tokens (split comma (old_line e)) ≡ ok (new_line e)
unfolding mod_tokens
mod_line e (ht, hk, hf) =
    rw (split-join comma e.time (str_of e.command ∷ e.fields) (ht, (str_of-comma e.command, hf))) (
      rw (int_of-printed e.command) (
        rw (index-name e.command hk)
          (ap ok (reduce_commas-join e.time (name_of e.command ∷ e.fields)))))

mod_lines-entries :
    (es : List Entry) → All IsEntry es → mod_lines (map old_line es) ≡ ok (map new_line es)
unfolding mod_lines
mod_lines-entries [] h = refl
mod_lines-entries (e ∷ es) (he, h) = rw (mod_line e he) (rw (mod_lines-entries es h) refl)

-- A trace of at least three lines whose second fields are the numbers 0 to 7 is written with the
-- command's name for the number in each line, and every other field, their order and the line's end
-- as they were.
pub mod_cmd-entries :
    (es : List Entry)
    → 3 ≤ length es
    → All IsEntry es
    → mod_cmd (map old_line es) ≡ ok (some (map new_line es))
unfolding mod_cmd
mod_cmd-entries es h hs =
    let long : leb 3 (length (map old_line es)) ≡ true =
      ground (arith, h, length-map old_line es) in
    rw long (rw (mod_lines-entries es hs) refl)

index-out : (k : ℕ) → 8 ≤ k → index cmd_mappings (pos k) ≡ raised index_error
unfolding index cmd_mappings
index-out k h = let e = get_elem?-ge names k h in rw e refl

mod_line-out :
    (e : Entry)
    → Lacks comma e.time
    → 8 ≤ e.command
    → All (Lacks comma) e.fields
    → mod_tokens (split comma (old_line e)) ≡ raised index_error
unfolding mod_tokens
mod_line-out e ht hk hf =
    rw (split-join comma e.time (str_of e.command ∷ e.fields) (ht, (str_of-comma e.command, hf)))
      (rw (int_of-printed e.command) (rw (index-out e.command hk) refl))

mod_lines-raised :
    (es : List Entry) (line : Text) (lines : List Text) (x : PyError)
    → All IsEntry es
    → mod_tokens (split comma line) ≡ raised x
    → mod_lines (map old_line es ++ line ∷ lines) ≡ raised x
unfolding mod_lines
mod_lines-raised [] line lines x _ h = rw h refl
mod_lines-raised (e ∷ es) line lines x (he, hs) h =
    rw (mod_line e he) (rw (mod_lines-raised es line lines x hs h) refl)

-- A trace of at least three lines in which a command's number, the first such, is 8 or more is not
-- written: `mod_cmd` meets an `IndexError`, whatever the lines behind it are.
pub mod_cmd_raises :
    (es : List Entry) (bad : Entry) (lines : List Text)
    → 3 ≤ length (map old_line es ++ old_line bad ∷ lines)
    → All IsEntry es
    → Lacks comma bad.time
    → 8 ≤ bad.command
    → All (Lacks comma) bad.fields
    → mod_cmd (map old_line es ++ old_line bad ∷ lines) ≡ raised index_error
unfolding mod_cmd
mod_cmd_raises es bad lines h hs ht hk hf =
    let long : leb 3 (length (map old_line es ++ old_line bad ∷ lines)) ≡ true =
      ground (arith, h) in
    rw long (
      rw (mod_lines-raised es (old_line bad) lines index_error hs (mod_line-out bad ht hk hf)) refl)
