-- ===== src/LineEditor/Wrap.antt =====
-- The word that goes to a new line.
use sys_prog.Prelude.{
  ℕ, zero, suc, ◌+◌, ◌-◌, ◌≤◌, ◌<◌, ◌≡◌, refl, ◌∙◌, ap, Bool, true, false, some, List, ◌∷◌, ◌++◌,
  arith, ◌==◌, ltb, if◌then◌else◌, replicate, Bool-cases, ◌⊎◌, inl, inr,
}
use sys_prog.LineEditor.{
  Out, Editor, backspace, line_max_length, at, put_at, word_start, move_word, wrap_word,
}
use sys_prog.LineEditor.Screen.{Row, show, show_one, cells, show-append, show-puts}

-- No space stands among the symbols from `start` on, before `len`.
abbrev pub IsWord : (ℕ → Bool) → (ℕ → ℕ) → (start len : ℕ) → Type 0
IsWord isspace line start len = (k : ℕ) → start ≤ k → k < len → isspace (line k) ≡ false

abbrev pub StartsAt : (ℕ → Bool) → (ℕ → ℕ) → ℕ → Type 0
StartsAt isspace line zero = Unit {0}
StartsAt isspace line (suc k) = isspace (line k) ≡ true

-- The search ends at the start of the last word.
pub word_start_lem :
    (isspace : ℕ → Bool) (line : ℕ → ℕ) (len : ℕ)
    → len ≤ line_max_length
    → (start : ℕ) × (word_start isspace line len ≡ some start)
      × (start ≤ len)
      × IsWord isspace line start len
      × StartsAt isspace line start
unfolding word_start at
word_start_lem isspace line zero h = (0, refl, omega arith, (λ k a b. absurd (omega arith)), tt)
word_start_lem isspace line (suc n) h =
    let inside : ltb n line_max_length ≡ true = ground arith in
    let (start, e, le, word, begins) = word_start_lem isspace line n (omega arith) in
    elim (Bool-cases (isspace (line n))) [
      | inl space ↦
          rw (inside, space) (suc n, refl, omega arith, (λ k a b. absurd (omega arith)), space)
      | inr letter ↦
          rw (inside, letter, e)
            (
              start,
              refl,
              omega arith,
              (λ k a b. elim (last_or k n b) [
                | inl here ↦ rw here letter
                | inr before ↦ word k a before
              ]),
              begins,
            )
    ]
  where
    last_or : (k n : ℕ) → k < suc n → (k ≡ n) ⊎ (k < n)
    last_or k n b = omega arith

shifted :
    (line line' : ℕ → ℕ) (i len n : ℕ)
    → line' i ≡ line len
    → ((k : ℕ) → k < n → line' (i + 1 + k) ≡ line (len + 1 + k))
    → (k : ℕ) → k < suc n
    → line' (i + k) ≡ line (len + k)
shifted line line' i len n e h zero a =
    let z : i + 0 ≡ i = omega arith in let z' : len + 0 ≡ len = omega arith in rw (z, z') e
shifted line line' i len n e h (suc k) a =
    let z : i + suc k ≡ i + 1 + k = omega arith in
    let z' : len + suc k ≡ len + 1 + k = omega arith in rw (z, z') (h k (omega arith))

-- The copy reads and writes inside the array, and moves `n` symbols forward by `len - i` places.
pub move_word_lem :
    (n i len : ℕ) (line : ℕ → ℕ)
    → i ≤ len
    → len + n ≡ line_max_length
    → (line' : ℕ → ℕ) × (move_word n i len line ≡ some (i + n, line'))
      × ((k : ℕ) → k < i → line' k ≡ line k)
      × ((k : ℕ) → k < n → line' (i + k) ≡ line (len + k))
unfolding move_word at put_at
move_word_lem zero i len line h e =
    (line, ap (λ m. some (m, line)) (omega arith), (λ k a. refl), (λ k a. absurd (omega arith)))
move_word_lem (suc n) i len line h e =
    let (line', m, low, high) =
      move_word_lem n (i + 1) (len + 1) (λ j. if i == j then line len else line j) (omega arith)
        (omega arith) in
    let inside : ltb len line_max_length ≡ true = ground arith in
    let inside' : ltb i line_max_length ≡ true = ground arith in
    rw (inside, inside', m)
      (
        line',
        ap (λ m. some (m, line')) (omega arith),
        (λ k a. low k (omega arith) ∙ ground arith),
        shifted line line' i len n (low i (omega arith) ∙ ground arith)
            (λ k a. high k a ∙ ground arith),
      )

cells-split :
    (line line' : ℕ → ℕ) (start n m : ℕ)
    → start + n ≡ m
    → ((k : ℕ) → k < n → line' k ≡ line (start + k))
    → cells line m ≡ cells line' n ++ cells line start
cells-split line line' start zero m e h = let z : m ≡ start = omega arith in rw z
cells-split line line' start (suc n) m e h =
    let z : m ≡ suc (start + n) = omega arith in
    rw (z, h n (omega arith))
      (ap (λ r. line (start + n) ∷ r)
        (cells-split line line' start n (start + n) refl (λ k a. h k (omega arith))))

-- A full line is split before its last word: the word is alone on the new line, in the array as on
-- the screen, and the rest stays behind.
pub wrap_word_lem :
    (isspace : ℕ → Bool) (e : Editor)
    → e.len ≡ line_max_length
    → (e' : Editor) × (os : List Out) × (start : ℕ) × (wrap_word isspace e ≡ some (e', os))
      × (e'.len + start ≡ line_max_length)
      × IsWord isspace e.line start line_max_length
      × StartsAt isspace e.line start
      × (cells e.line line_max_length ≡ cells e'.line e'.len ++ cells e.line start)
      × ((row : Row) → show os row ≡ cells e'.line e'.len)
unfolding wrap_word show show_one
wrap_word_lem isspace e full =
    let (start, s, le, word, begins) = word_start_lem isspace e.line e.len (omega arith) in
    let n = line_max_length - start in
    let (line', m, low, high) = move_word_lem n 0 start e.line (omega arith) (omega arith) in
    let z : 0 + n ≡ n = omega arith in
    rw (s, m, z)
      (
        record { line = line'; len = n },
        _,
        start,
        refl,
        omega arith,
        rw (← full) word,
        begins,
        cells-split e.line line' start n line_max_length (omega arith)
            (λ k a. let zk : 0 + k ≡ k = omega arith in rw zk at (high k a)),
        (λ row. show-append (replicate n backspace) _ row ∙ show-puts line' n),
      )
