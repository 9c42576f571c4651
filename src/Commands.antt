-- ===== src/Commands.antt =====
-- The repair scripts of old traces, input/old_fix.py: `mod_cmd` writes the names of the commands for
-- their numbers, `write_to_new_file` takes out the third line. A file is the list of its lines, as
-- `readlines` gives it; an exception, which the functions catch, leaves the file as it is.
pub mod Rename
mod Tests
use emulator_test.Prelude.{
  ℕ, suc, ◌-◌, List, [], ◌∷◌, ◌++◌, length, get_elem?, Bool, true, false, leb, Option, none, some,
  if◌then◌else◌, Result, ok, raised, index_error, or_raise, ◌>>=◌,
}
use emulator_test.Prelude.Int.{ℤ, pos, negsuc}
use emulator_test.Text.{Text, codes, comma, split, int_of}

cmd_mappings : List Text
cmd_mappings =
    codes "INIT"
    ∷ codes "CMD"
    ∷ codes "HO"
    ∷ codes "SOL_HANDLEDUP"
    ∷ codes "SOL_HANDLERW"
    ∷ codes "SOL_INIT_SCHED"
    ∷ codes "SOL_HO"
    ∷ codes "UNKNOWN"
    ∷ []

-- `xs[i]`; a negative index counts from the end.
index : List Text → ℤ → Result Text
index xs (pos i) = or_raise (get_elem? xs i) index_error
index xs (negsuc i) =
    if leb (suc i) (length xs)
    then or_raise (get_elem? xs (length xs - suc i)) index_error
    else raised index_error

-- `"{},{}".format(a, b)`
write_comma : Text → Text → Text
write_comma a b = a ++ comma ∷ b

-- `reduce(write_comma, tokens)` from the first token.
reduce_commas : Text → List Text → Text
unfolding write_comma
reduce_commas line [] = line
reduce_commas line (token ∷ tokens) = reduce_commas (write_comma line token) tokens

-- One line: the second token is replaced.
mod_tokens : List Text → Result Text
unfolding cmd_mappings index reduce_commas
mod_tokens (first ∷ number ∷ tokens) = do
  k ← int_of number
  name ← index cmd_mappings k
  ok (reduce_commas first (name ∷ tokens))
mod_tokens _ = raised index_error

mod_lines : List Text → Result (List Text)
unfolding mod_tokens
mod_lines [] = ok []
mod_lines (line ∷ lines) = do
  newline ← mod_tokens (split comma line)
  newlines ← mod_lines lines
  ok (newline ∷ newlines)

-- The lines that `mod_cmd` writes; nothing where it skips the file.
unfoldable pub mod_cmd : List Text → Result (Option (List Text))
unfolding mod_lines
mod_cmd lines =
    if leb 3 (length lines) then (do newlines ← mod_lines lines; ok (some newlines)) else ok none

-- `lines.pop(2)` and what is written.
unfoldable pub write_to_new_file : List Text → Option (List Text)
write_to_new_file (first ∷ second ∷ third ∷ lines) = some (first ∷ second ∷ lines)
write_to_new_file _ = none
