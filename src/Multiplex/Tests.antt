-- ===== src/Multiplex/Tests.antt =====
-- Two files, of which the first has ended.
use sys_prog.Prelude.{
  ◌+◌, ◌%◌, ◌≡◌, refl, arith, Bool, true, false, some, List, [], ◌∷◌, length, ◌⊎◌,
}
use sys_prog.Multiplex.{
  ReadResult, interrupted, read_error, read_bytes, Reader, current_file, close_file, read_file,
  read_round, multiplexed_read,
}
use sys_prog.Multiplex.Turns.{
  InTurn, NoneFailed, count_open, multiplexed_read-InTurn, multiplexed_read-NoneFailed,
}

abbrev two_files : Reader
two_files = record { files = true ∷ true ∷ []; next_file = 0; opened_num = 2 }

two_files-InTurn : InTurn 2 two_files
unfolding count_open
two_files-InTurn = record {
  files_num = refl;
  some_file = omega arith;
  in_files = omega arith;
  counted = refl;
}

abbrev rounds : List (ReadResult × Bool)
rounds = (read_bytes [], true) ∷ (read_bytes (7 ∷ []), true) ∷ (interrupted, true) ∷ []

abbrev one_round_on : Reader
one_round_on = record { files = true ∷ true ∷ []; next_file = 1; opened_num = 2 }

close_test :
    multiplexed_read ((read_error, true) ∷ []) two_files
    ≡ some (record { files = false ∷ true ∷ []; next_file = 1; opened_num = 1 }, [])
unfolding multiplexed_read read_round read_file current_file close_file
close_test = refl

multiplexed_read-InTurn_example :
    InTurn 2 one_round_on
    × ((one_round_on.opened_num ≡ 0)
        ⊎ (current_file one_round_on ≡ (two_files.next_file + length rounds) % 2))
unfolding multiplexed_read read_round read_file current_file
multiplexed_read-InTurn_example =
    multiplexed_read-InTurn 2 rounds two_files one_round_on (7 ∷ []) two_files-InTurn refl

multiplexed_read-NoneFailed_example :
    (one_round_on.files ≡ two_files.files) × (one_round_on.opened_num ≡ two_files.opened_num)
unfolding multiplexed_read read_round read_file current_file NoneFailed
multiplexed_read-NoneFailed_example =
    multiplexed_read-NoneFailed rounds two_files one_round_on (7 ∷ []) (tt, (tt, (tt, tt))) refl
