-- ===== src/Commands/Tests.antt =====
-- The repair of a small trace.
use emulator_test.Prelude.{List, [], ◌∷◌, some, none, ok, All, ◌≡◌, refl, arith}
use emulator_test.Text.{codes, str_of}
use emulator_test.Commands.{mod_cmd, write_to_new_file}
use emulator_test.Commands.Rename.{Entry, IsEntry, mod_cmd-entries}

abbrev entries : List Entry
entries =
    record { time = codes "0"; command = 0; fields = codes "0\n" ∷ [] }
    ∷ record { time = codes "5"; command = 2; fields = codes "1" ∷ codes "30\n" ∷ [] }
    ∷ record { time = codes "9"; command = 6; fields = codes "2" ∷ codes "40\n" ∷ [] }
    ∷ []

abbrev unknown : Entry
unknown = record { time = codes "7"; command = 9; fields = codes "1\n" ∷ [] }

are_entries : All IsEntry entries
are_entries = ground arith

mod_cmd-entries_example :
    mod_cmd (codes "0,0,0\n" ∷ codes "5,2,1,30\n" ∷ codes "9,6,2,40\n" ∷ [])
    ≡ ok (some (codes "0,INIT,0\n" ∷ codes "5,HO,1,30\n" ∷ codes "9,SOL_HO,2,40\n" ∷ []))
unfolding str_of
mod_cmd-entries_example = mod_cmd-entries entries (omega arith) are_entries

third_line :
    write_to_new_file (codes "a" ∷ codes "b" ∷ codes "c" ∷ codes "d" ∷ [])
    ≡ some (codes "a" ∷ codes "b" ∷ codes "d" ∷ [])
unfolding write_to_new_file
third_line = refl

too_short : mod_cmd (codes "0,0,0" ∷ []) ≡ ok none
unfolding mod_cmd
too_short = refl
