-- ===== src/LineEditor/Step.antt =====
-- One round of the editor, and whole inputs.
use sys_prog.Prelude.{
  ℕ, zero, suc, ◌+◌, ◌-◌, ◌≤◌, ◌≡◌, refl, ◌∙◌, sym, ap, Bool, true, not, ◌&&◌, Option, some, List,
  [], ◌∷◌, ◌++◌, arith, ◌==◌, ltb, if◌then◌else◌, replicate, Bool-cases, ◌⊎◌, inl, inr, ==→eq,
}
use sys_prog.LineEditor.{
  Out, Keys, Editor, backspace, put, newline, bell, line_max_length, at, put_at, erase_while, wrap,
  type_symbol, Round, go_on, leave, after, round, edit, ◌>>=◌,
}
use sys_prog.LineEditor.Screen.{
  Row, show, show_one, cells, show-append, show-replicate, cells-same, erase_while-shows,
}
use sys_prog.LineEditor.Wrap.{wrap_word_lem}

-- The line fits the array, and the row of the screen shows it.
abbrev pub row_of : Editor → Row
row_of e = cells e.line e.len

-- The outcome stays in the array, and the screen goes with it.
abbrev pub Shows : Editor → Option (Editor × List Out) → Type 0
Shows e r =
    (e' : Editor) × (os : List Out) × (r ≡ some (e', os))
    × (e'.len ≤ line_max_length)
    × (show os (row_of e) ≡ row_of e')

wrap-Shows : (isspace : ℕ → Bool) (e : Editor) → e.len ≤ line_max_length → Shows e (wrap isspace e)
unfolding wrap at show show_one
wrap-Shows isspace e h = elim (Bool-cases (e.len == line_max_length)) [
  | inr other ↦ rw other (e, [], refl, h, refl)
  | inl full ↦
      let inside : ltb (e.len - 1) line_max_length ≡ true = ground arith in
      rw (full, inside)
        (elim (Bool-cases (isspace (e.line (e.len - 1)))) [
          | inl space ↦ rw space (record e { len = 0 }, newline ∷ [], refl, omega arith, refl)
          | inr letter ↦
              let (e', os, start, eq, sum, word, begins, cut, shown) =
                wrap_word_lem isspace e (==→eq e.len line_max_length full) in
              rw (letter, eq) (e', os, refl, omega arith, shown (row_of e))
        ])
]

typed-cells :
    (line : ℕ → ℕ) (len c : ℕ)
    → c ∷ cells line len ≡ cells (λ j. if len == j then c else line j) (len + 1)
typed-cells line len c =
    let next : len + 1 ≡ suc len = omega arith in
    let here : (if len == len then c else line len) ≡ c = ground arith in
    rw (next, here)
      (ap (λ r. c ∷ r)
        (sym (cells-same line (λ j. if len == j then c else line j) len (λ k a. ground arith))))

type_symbol-Shows :
    (isprint : ℕ → Bool) (symbol : ℕ) (e : Editor)
    → e.len ≤ line_max_length
    → Shows e (type_symbol isprint symbol e)
unfolding type_symbol put_at show show_one
type_symbol-Shows isprint symbol e h = elim (Bool-cases (isprint symbol)) [
  | inr control ↦ rw control (e, bell ∷ [], refl, h, refl)
  | inl printed ↦ rw printed (elim (Bool-cases (ltb e.len line_max_length)) [
    | inr full ↦ rw full (e, [], refl, h, refl)
    | inl room ↦ rw room (_, put symbol ∷ [], refl, ground arith, typed-cells e.line e.len symbol)
  ])
]

abbrev pub RoundShows : Editor → Round → Type 0
RoundShows e r =
    (e' : Editor) × (os : List Out) × (r ≡ go_on e' os)
    × (e'.len ≤ line_max_length)
    × (show os (row_of e) ≡ row_of e')

after-Shows : (e : Editor) (r : Option (Editor × List Out)) → Shows e r → RoundShows e (after r)
after-Shows e r (e', os, eq, le, s) = (e', os, ap after eq, le, s)

backspace-Shows :
    (line : ℕ → ℕ) (n : ℕ)
    → n ≤ line_max_length
    → RoundShows
        (record { line = line; len = n })
        (if ltb 0 n
          then go_on (record { line = line; len = n - 1 }) (backspace ∷ [])
          else go_on (record { line = line; len = n }) [])
unfolding show show_one
backspace-Shows line zero h = (_, [], refl, h, refl)
backspace-Shows line (suc n) h =
    let back : suc n - 1 ≡ n = omega arith in
    let some_left : ltb 0 (suc n) ≡ true = ground arith in
    rw (some_left, back) (_, backspace ∷ [], refl, omega arith, refl)

module _ (isspace isprint : ℕ → Bool) (k : Keys) (e : Editor) (h : e.len ≤ line_max_length) where
  erase_word-Shows : Shows e (
      erase_while isspace e.line e.len >>= λ r.
      erase_while (λ c. not (isspace c)) e.line r.0 >>= λ r'.
      some (record e { len = r'.0 }, r.1 ++ r'.1))
  erase_word-Shows =
      let (n, os, eq, le, s) = erase_while-shows isspace e.line e.len h in
      let (n', os', eq', le', s') =
        erase_while-shows (λ c. not (isspace c)) e.line n (omega arith) in
      rw (eq, eq') (_, _, refl, omega arith, show-append os os' (row_of e) ∙ ap (show os') s ∙ s')

  type-Shows :
      (symbol : ℕ)
      → Shows e (
          wrap isspace e >>= λ r. type_symbol isprint symbol r.0 >>= λ r'. some (r'.0, r.1 ++ r'.1))
  type-Shows symbol =
      let (e1, os, eq, le, s) = wrap-Shows isspace e h in
      let (e2, os', eq', le', s') = type_symbol-Shows isprint symbol e1 le in
      rw (eq, eq') (e2, _, refl, le', show-append os os' (row_of e) ∙ ap (show os') s ∙ s')

  not_erase :
      (symbol : ℕ)
      → (let r =
            if symbol == k.vkill
            then go_on (record e { len = 0 }) (replicate e.len backspace)
            else if symbol == k.vwerase
            then after (
                erase_while isspace e.line e.len >>= λ r.
                erase_while (λ c. not (isspace c)) e.line r.0 >>= λ r'.
                some (record e { len = r'.0 }, r.1 ++ r'.1))
            else if symbol == k.veof && e.len == 0
            then leave
            else after (
                wrap isspace e >>= λ r.
                type_symbol isprint symbol r.0 >>= λ r'. some (r'.0, r.1 ++ r'.1)) in
          ((r ≡ leave) × (symbol ≡ k.veof) × (e.len ≡ 0)) ⊎ RoundShows e r)
  not_erase symbol = elim (Bool-cases (symbol == k.vkill)) [
    | inl kill ↦ rw kill (inr (_, _, refl, omega arith, show-replicate e.line e.len))
    | inr no_kill ↦ rw no_kill (elim (Bool-cases (symbol == k.vwerase)) [
      | inl word ↦ rw word (inr (after-Shows e _ erase_word-Shows))
      | inr no_word ↦ rw no_word (elim (Bool-cases (symbol == k.veof && e.len == 0)) [
        | inl end ↦ rw end (inl (refl, ground arith, ground arith))
        | inr more ↦ rw more (inr (after-Shows e _ (type-Shows symbol)))
      ])
    ])
  ]

  -- A round goes on, with the line in its array and on the screen, or it leaves at the end-of-file
  -- character on an empty line.
  round-shows :
      (symbol : ℕ)
      → ((round isspace isprint k symbol e ≡ leave) × (symbol ≡ k.veof) × (e.len ≡ 0))
        ⊎ RoundShows e (round isspace isprint k symbol e)
  unfolding round
  round-shows symbol = elim (Bool-cases (symbol == k.verase)) [
    | inl erase ↦ inr (rw erase (backspace-Shows e.line e.len h))
    | inr other ↦ rw other (not_erase symbol)
  ]

-- Whatever is typed, from a line that fits the array: no access is out of its bounds, the line fits
-- it at the end, and the row of the screen in which the cursor stands shows exactly that line.
pub edit-shows :
    (isspace isprint : ℕ → Bool) (k : Keys) (cs : List ℕ) (e : Editor)
    → e.len ≤ line_max_length
    → (e' : Editor) × (os : List Out) × (edit isspace isprint k cs e ≡ some (e', os))
      × (e'.len ≤ line_max_length)
      × (show os (row_of e) ≡ row_of e')
unfolding edit show
edit-shows isspace isprint k [] e h = (e, [], refl, h, refl)
edit-shows isspace isprint k (c ∷ cs) e h = elim (round-shows isspace isprint k e h c) [
  | inl left ↦ (e, [], rw (left.0, edit), h, refl)
  | inr (e1, os, eq, le, s) ↦
      let (e2, os', eq', le', s') = edit-shows isspace isprint k cs e1 le in
      (e2, os ++ os', rw (eq, eq', edit), le', show-append os os' (row_of e) ∙ ap (show os') s ∙ s')
]
