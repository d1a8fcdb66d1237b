-- ===== src/Multiplex.antt =====
-- OS UNIX+ System V/Signals/laboratory work #22/src/main.c: multiplexed_read, the reading of several
-- files in turn with a time limit on each read.
use sys_prog.Prelude.{
  ℕ, zero, suc, ◌+◌, ◌-◌, Bool, true, false, Option, none, some, List, [], ◌∷◌, ◌++◌, ◌==◌,
  if◌then◌else◌, length, get_or, set,
}
pub mod Turns
mod Tests

-- What a read comes to: an error, the alarm, or symbols, none of them at the end of the file.
pub data ReadResult : Type 0 where
  read_error : ReadResult
  interrupted : ReadResult
  read_bytes : List ℕ → ReadResult

-- Which files are open, -1 being false, and the numbers of the next file and of the open ones.
pub record Reader : Type 0 where
  pub files : List Bool
  pub next_file : ℕ
  pub opened_num : ℕ

-- ++current_file, and back to 0 at the end.
unfoldable pub current_file : Reader → ℕ
current_file r = if r.next_file == length r.files then 0 else r.next_file

unfoldable pub close_file : Reader → Reader
close_file r = record r {
  files = set r.files (current_file r) false;
  next_file = current_file r + 1;
  opened_num = r.opened_num - 1;
}

abbrev pub go_on : Reader → Reader
go_on r = record r { next_file = current_file r + 1 }

-- The read of an open file, where `write` succeeds or not: what is written; none for the return of -1.
unfoldable pub read_file : ReadResult → Bool → Reader → Option (Reader × List ℕ)
read_file read_error write_ok r = some (close_file r, [])
read_file interrupted write_ok r = some (go_on r, [])
read_file (read_bytes bytes) write_ok r = if write_ok then some (go_on r, bytes) else none

-- A round of the loop.
unfoldable pub read_round : ReadResult → Bool → Reader → Option (Reader × List ℕ)
read_round result write_ok r = elim (get_or r.files (current_file r) false) [
  | false ↦ some (go_on r, [])
  | true ↦ read_file result write_ok r
]

abbrev pub written_before : List ℕ → Option (Reader × List ℕ) → Option (Reader × List ℕ)
written_before bytes none = none
written_before bytes (some (r, more)) = some (r, bytes ++ more)

-- The loop, for as many rounds as there are results: it ends where no file is open.
unfoldable pub multiplexed_read : List (ReadResult × Bool) → Reader → Option (Reader × List ℕ)
multiplexed_read [] r = some (r, [])
multiplexed_read ((result, write_ok) ∷ rounds) r =
    if r.opened_num == 0 then some (r, []) else elim (read_round result write_ok r) [
      | none ↦ none
      | some (r', bytes) ↦ written_before bytes (multiplexed_read rounds r')
    ]
