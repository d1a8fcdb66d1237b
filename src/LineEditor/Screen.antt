-- ===== src/LineEditor/Screen.antt =====
-- What the writes of the editor do to the row of the terminal in which the cursor stands.
use sys_prog.Prelude.{
  ℕ, zero, suc, ◌≤◌, ◌<◌, ◌≡◌, refl, ◌∙◌, ap, Bool, true, some, List, [], ◌∷◌, ◌++◌, arith, ltb,
  replicate, Bool-cases, inl, inr,
}
use sys_prog.LineEditor.{Out, backspace, put, newline, bell, line_max_length, at, erase_while, puts}

-- The symbols before the cursor, the last one first: the backspace sequence wipes one.
abbrev pub Row : Type 0
Row = List ℕ

unfoldable pub show_one : Out → Row → Row
show_one backspace [] = []
show_one backspace (c ∷ row) = row
show_one (put c) row = c ∷ row
show_one newline row = []
show_one bell row = row

unfoldable pub show : List Out → Row → Row
show [] row = row
show (o ∷ os) row = show os (show_one o row)

-- The first `len` symbols of the array, the last one first.
abbrev pub cells : (ℕ → ℕ) → ℕ → Row
cells line zero = []
cells line (suc n) = line n ∷ cells line n

pub show-append : (os os' : List Out) (row : Row) → show (os ++ os') row ≡ show os' (show os row)
unfolding show
show-append [] os' row = refl
show-append (o ∷ os) os' row = show-append os os' (show_one o row)

pub show-puts : (line : ℕ → ℕ) (n : ℕ) → show (puts line n) [] ≡ cells line n
unfolding puts show show_one
show-puts line zero = refl
show-puts line (suc n) =
    show-append (puts line n) (put (line n) ∷ []) [] ∙ ap (λ r. line n ∷ r) (show-puts line n)

pub show-replicate : (line : ℕ → ℕ) (n : ℕ) → show (replicate n backspace) (cells line n) ≡ []
unfolding show show_one
show-replicate line zero = refl
show-replicate line (suc n) = show-replicate line n

pub cells-same :
    (line line' : ℕ → ℕ) (n : ℕ)
    → ((k : ℕ) → k < n → line' k ≡ line k)
    → cells line' n ≡ cells line n
cells-same line line' zero h = refl
cells-same line line' (suc n) h =
    rw (h n (omega arith), cells-same line line' n (λ k lt. h k (omega arith)))

-- A loop that erases symbols stays in the array, and wipes on the screen what it takes away.
pub erase_while-shows :
    (test : ℕ → Bool) (line : ℕ → ℕ) (len : ℕ)
    → len ≤ line_max_length
    → (n : ℕ) × (os : List Out) × (erase_while test line len ≡ some (n, os))
      × (n ≤ len)
      × (show os (cells line len) ≡ cells line n)
unfolding erase_while show show_one at
erase_while-shows test line zero h = (0, [], refl, omega arith, refl)
erase_while-shows test line (suc n) h =
    let (k, os, e, le, s) = erase_while-shows test line n (omega arith) in
    let inside : ltb n line_max_length ≡ true = ground arith in
    elim (Bool-cases (test (line n))) [
      | inl more ↦ rw (inside, more, e) (k, backspace ∷ os, refl, omega arith, s)
      | inr done ↦ rw (inside, done) (suc n, [], refl, omega arith, refl)
    ]
