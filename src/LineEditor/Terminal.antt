-- ===== src/LineEditor/Terminal.antt =====
-- OS UNIX+ System V/Terminal Input-Output/laboratory work #17/src/terminal.c: switching the terminal
-- to non-canonical mode and back. The driver is a parameter: what each call answers, and what
-- settings it really takes when it is given some.
use sys_prog.Prelude.{
  ℕ, ◌≡◌, Bool, true, false, ◌&&◌, Option, none, some, arith, ◌==◌, if◌then◌else◌, sym, subst,
}

-- struct termios; the flags of `c_lflag` that the program changes, and all else.
pub record Termios : Type 0 where
  pub icanon : Bool
  pub echo : Bool
  pub other_lflag : ℕ
  pub vtime : ℕ
  pub vmin : ℕ
  pub rest : ℕ

abbrev pub same_bool : Bool → Bool → Bool
same_bool true true = true
same_bool false false = true
same_bool true false = false
same_bool false true = false

-- The terminal: its settings, and how it takes new ones.
pub record Tty : Type 0 where
  pub is_tty : Bool
  pub settings : Termios
  pub takes : Termios → Termios

-- Which of the calls of the driver succeed.
pub record Calls : Type 0 where
  pub first_get : Bool
  pub set : Bool
  pub second_get : Bool

-- The result 0 is `true`, the result -1 `false`.
unfoldable pub compare_term_settings : Termios → Termios → Bool
compare_term_settings a b =
    if same_bool a.icanon b.icanon && same_bool a.echo b.echo && a.other_lflag == b.other_lflag
    then (if a.vtime == b.vtime then (if a.vmin == b.vmin then true else false) else false)
    else false

-- term->c_lflag &= ~(ICANON | ECHO); term->c_cc[VMIN] = 1; term->c_cc[VTIME] = 0;
abbrev pub non_canonical : Termios → Termios
non_canonical t = record t { icanon = false; echo = false; vmin = 1; vtime = 0 }

abbrev pub tcsetattr : Termios → Tty → Tty
tcsetattr t d = record d { settings = d.takes t }

-- The result (the new and the old settings, or NULL), and the terminal.
unfoldable pub set_non_canonical_mode : Calls → Tty → Option (Termios × Termios) × Tty
set_non_canonical_mode c d =
    if d.is_tty && c.first_get
    then (let term = non_canonical d.settings in
        if c.set
        then (let d' = tcsetattr term d in
            if c.second_get
            then (if compare_term_settings term d'.settings
                then (some (term, d.settings), d')
                else (none, d'))
            else (none, d'))
        else (none, d))
    else (none, d)

unfoldable pub set_mode : Calls → Termios → Tty → Bool × Tty
set_mode c mode d =
    if d.is_tty && c.set
    then (let d' = tcsetattr mode d in
        if c.second_get then (compare_term_settings mode d'.settings, d') else (false, d'))
    else (false, d)

-- The settings that the program looks at.
abbrev pub Agrees : Termios → Termios → Type 0
Agrees a b =
    (a.icanon ≡ b.icanon)
    × (a.echo ≡ b.echo)
    × (a.other_lflag ≡ b.other_lflag)
    × (a.vtime ≡ b.vtime)
    × (a.vmin ≡ b.vmin)

pub compare_term_settings-Agrees : (a b : Termios) → compare_term_settings a b ≡ true → Agrees a b
unfolding compare_term_settings
compare_term_settings-Agrees a b h =
    (ground arith, ground arith, ground arith, ground arith, ground arith)

-- Where the mode is set, the old settings are those that the terminal had, and the terminal is left
-- with no line buffering and no echo, reads return after one symbol with no time limit, and the
-- other local flags are as before.
pub set_non_canonical_mode-sets :
    (c : Calls) (d : Tty) {term old : Termios}
    → (set_non_canonical_mode c d).0 ≡ some (term, old)
    → (old ≡ d.settings)
      × Agrees
          (record d.settings { icanon = false; echo = false; vmin = 1; vtime = 0 })
          (set_non_canonical_mode c d).1.settings
unfolding set_non_canonical_mode
set_non_canonical_mode-sets c d {term} {old} h =
    let ok : compare_term_settings (non_canonical d.settings) (d.takes (non_canonical d.settings))
        ≡ true =
      ground arith in
    let agrees =
      compare_term_settings-Agrees (non_canonical d.settings) (d.takes (non_canonical d.settings))
        ok in
    let same : old ≡ d.settings = ground arith in
    let taken : (set_non_canonical_mode c d).1.settings ≡ d.takes (non_canonical d.settings) =
      ground arith in
    (same, subst (Agrees (non_canonical d.settings)) (sym taken) agrees)

-- Where `set_mode` succeeds with the settings that `set_non_canonical_mode` saved, the terminal has
-- again the settings that it had before, as far as the program looks at them.
pub set_mode-set_non_canonical_mode :
    (c c' : Calls) (d : Tty) {term old : Termios}
    → (set_non_canonical_mode c d).0 ≡ some (term, old)
    → (set_mode c' old (set_non_canonical_mode c d).1).0 ≡ true
    → Agrees d.settings (set_mode c' old (set_non_canonical_mode c d).1).1.settings
unfolding set_mode
set_mode-set_non_canonical_mode c c' d {term} {old} h h' =
    let (same, set) = set_non_canonical_mode-sets c d h in
    let d' = (set_non_canonical_mode c d).1 in
    let ok : compare_term_settings old (d'.takes old) ≡ true = ground arith in
    let taken : (set_mode c' old d').1.settings ≡ d'.takes old = ground arith in
    subst (λ t. Agrees t (set_mode c' old d').1.settings) same
      (subst (Agrees old) (sym taken) (compare_term_settings-Agrees old (d'.takes old) ok))
