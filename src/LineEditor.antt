-- ===== src/LineEditor.antt =====
-- OS UNIX+ System V/Terminal Input-Output/laboratory work #17/src/main.c: the line editor that reads
-- a terminal in non-canonical mode symbol by symbol, and terminal.c, which sets that mode.
pub mod Screen
pub mod Wrap
pub mod Step
pub mod Terminal
mod Tests
use sys_prog.Prelude.{
  ℕ, zero, suc, ◌+◌, ◌-◌, Bool, true, false, not, ◌&&◌, Option, none, some, List, [], ◌∷◌, ◌++◌,
  ◌==◌, ltb, if◌then◌else◌, replicate,
}

abbrev pub line_max_length : ℕ
line_max_length = 40

-- One write to the terminal: the backspace sequence (8, ' ', 8), a symbol, a newline, or the bell.
pub data Out : Type 0 where
  backspace : Out
  put : ℕ → Out
  newline : Out
  bell : Out

-- The control characters that the loop compares with.
pub record Keys : Type 0 where
  pub verase : ℕ
  pub vkill : ℕ
  pub vwerase : ℕ
  pub veof : ℕ

-- The local variables `line` and `len`.
pub record Editor : Type 0 where
  pub line : ℕ → ℕ
  pub len : ℕ

infixl 5 ◌>>=◌
abbrev pub ◌>>=◌ : {A B : Type 0} → Option A → (A → Option B) → Option B
none >>= f = none
some a >>= f = f a

-- `line[i]`; `none` is an access out of the bounds of the array.
unfoldable pub at : (ℕ → ℕ) → ℕ → Option ℕ
at line i = if ltb i line_max_length then some (line i) else none

unfoldable pub put_at : (ℕ → ℕ) → ℕ → ℕ → Option (ℕ → ℕ)
put_at line i c = if ltb i line_max_length then some (λ j. if i == j then c else line j) else none

-- while (len > 0 && test(line[len - 1])) { len--; backspace(fd); }
unfoldable pub erase_while : (ℕ → Bool) → (ℕ → ℕ) → ℕ → Option (ℕ × List Out)
erase_while test line zero = some (zero, [])
erase_while test line (suc n) = at line n >>= λ c. elim (test c) [
  | true ↦ erase_while test line n >>= λ r. some (r.0, backspace ∷ r.1)
  | false ↦ some (suc n, [])
]

-- while (len > 0 && !isspace(line[len - 1])) len--;
unfoldable pub word_start : (ℕ → Bool) → (ℕ → ℕ) → ℕ → Option ℕ
word_start isspace line zero = some zero
word_start isspace line (suc n) =
    at line n >>= λ c. elim (isspace c) [ true ↦ some (suc n) | false ↦ word_start isspace line n ]

-- while (len < LINE_MAX_LENGTH) { line[i++] = line[len++]; backspace(fd); }, for `n` rounds.
unfoldable pub move_word : (n i len : ℕ) → (ℕ → ℕ) → Option (ℕ × (ℕ → ℕ))
move_word zero i len line = some (i, line)
move_word (suc n) i len line =
    at line len >>= λ c. put_at line i c >>= λ line'. move_word n (i + 1) (len + 1) line'

-- write(fd, line, i)
unfoldable pub puts : (ℕ → ℕ) → ℕ → List Out
puts line zero = []
puts line (suc n) = puts line n ++ put (line n) ∷ []

-- What one round of the loop does with a symbol.
pub data Round : Type 0 where
  go_on : Editor → List Out → Round
  leave : Round
  fault : Round

abbrev pub after : Option (Editor × List Out) → Round
after none = fault
after (some (e, out)) = go_on e out

module _ (isspace : ℕ → Bool) where
  -- The last word of a full line goes to a new line.
  unfoldable pub wrap_word : Editor → Option (Editor × List Out)
  wrap_word e = word_start isspace e.line e.len >>= λ start.
      move_word (line_max_length - start) 0 start e.line >>= λ r. some (
        record { line = r.1; len = r.0 },
        replicate (line_max_length - start) backspace ++ newline ∷ puts r.1 r.0,
      )

  -- A full line that ends in a space is left, and a new one begins.
  unfoldable pub wrap : Editor → Option (Editor × List Out)
  wrap e =
      if e.len == line_max_length
      then (at e.line (e.len - 1) >>= λ c.
          if isspace c then some (record e { len = 0 }, newline ∷ []) else wrap_word e)
      else some (e, [])

module _ (isprint : ℕ → Bool) where
  unfoldable pub type_symbol : ℕ → Editor → Option (Editor × List Out)
  type_symbol symbol e =
      if isprint symbol
      then (if ltb e.len line_max_length
          then (put_at e.line e.len symbol >>= λ line.
              some (record { line = line; len = e.len + 1 }, put symbol ∷ []))
          else some (e, []))
      else some (e, bell ∷ [])

module _ (isspace isprint : ℕ → Bool) where
  unfoldable pub round : Keys → ℕ → Editor → Round
  round k symbol e =
      if symbol == k.verase
      then (if ltb 0 e.len
          then go_on (record e { len = e.len - 1 }) (backspace ∷ [])
          else go_on e [])
      else if symbol == k.vkill
      then go_on (record e { len = 0 }) (replicate e.len backspace)
      else if symbol == k.vwerase
      then after (
          erase_while isspace e.line e.len >>= λ r.
          erase_while (λ c. not (isspace c)) e.line r.0 >>= λ r'.
          some (record e { len = r'.0 }, r.1 ++ r'.1))
      else if symbol == k.veof && e.len == 0
      then leave
      else after (
          wrap isspace e >>= λ r. type_symbol isprint symbol r.0 >>= λ r'. some (r'.0, r.1 ++ r'.1))

  -- The loop, over the symbols that `read` gives before it fails or the input ends.
  unfoldable pub edit : Keys → List ℕ → Editor → Option (Editor × List Out)
  edit k [] e = some (e, [])
  edit k (c ∷ cs) e = elim (round k c e) [
    | fault ↦ none
    | leave ↦ some (e, [])
    | go_on e' os ↦ edit k cs e' >>= λ r. some (r.0, os ++ r.1)
  ]
