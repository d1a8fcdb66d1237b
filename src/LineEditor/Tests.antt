-- ===== src/LineEditor/Tests.antt =====
-- The editor and the terminal on concrete inputs: 'a' is 97, the space 32, the erase keys 8 and 23.
use sys_prog.Prelude.{
  ℕ, ◌+◌, ◌≤◌, ◌≡◌, refl, Bool, true, some, List, [], ◌∷◌, ◌++◌, arith, ◌==◌, ltb, if◌then◌else◌,
}
use sys_prog.LineEditor.{Out, Keys, Editor, wrap_word, line_max_length, edit}
use sys_prog.LineEditor.Screen.{Row, show, cells}
use sys_prog.LineEditor.Wrap.{IsWord, StartsAt, wrap_word_lem}
use sys_prog.LineEditor.Step.{row_of, edit-shows}
use sys_prog.LineEditor.Terminal.{Termios, Tty, Calls}

abbrev is_space : ℕ → Bool
is_space c = c == 32

abbrev is_print : ℕ → Bool
is_print c = ltb 31 c

abbrev keys : Keys
keys = record { verase = 8; vkill = 21; vwerase = 23; veof = 4 }

abbrev empty_line : Editor
empty_line = record { line = λ j. 0; len = 0 }

abbrev typed : List ℕ
typed = 97 ∷ 8 ∷ 98 ∷ 32 ∷ 23 ∷ 99 ∷ 7 ∷ []

edit-shows_example :
    (e' : Editor) × (os : List Out) × (edit is_space is_print keys typed empty_line ≡ some (e', os))
    × (e'.len ≤ line_max_length)
    × (show os (row_of empty_line) ≡ row_of e')
edit-shows_example = edit-shows is_space is_print keys typed empty_line (omega arith)

-- A space at 37, and a word that the end of the line cuts.
abbrev full_line : Editor
full_line = record { line = λ j. if j == 37 then 32 else 97; len = 40 }

wrap_word_lem_example :
    (e' : Editor) × (os : List Out) × (start : ℕ) × (wrap_word is_space full_line ≡ some (e', os))
    × (e'.len + start ≡ line_max_length)
    × IsWord is_space full_line.line start line_max_length
    × StartsAt is_space full_line.line start
    × (cells full_line.line line_max_length ≡ cells e'.line e'.len ++ cells full_line.line start)
    × ((row : Row) → show os row ≡ cells e'.line e'.len)
wrap_word_lem_example = wrap_word_lem is_space full_line refl

abbrev mode : Termios
mode = record { icanon = true; echo = true; other_lflag = 5; vtime = 3; vmin = 4; rest = 9 }

abbrev tty : Tty
tty = record { is_tty = true; settings = mode; takes = λ t. t }

abbrev good : Calls
good = record { first_get = true; set = true; second_get = true }
