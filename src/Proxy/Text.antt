-- ===== src/Proxy/Text.antt =====
-- What the proxy uses of std::string and atoi.
use sys_prog.Prelude.{
  ℕ, zero, suc, ◌+◌, ◌-◌, ◌*◌, Bool, true, false, ◌&&◌, ◌||◌, Option, none, some, List, [], ◌∷◌,
  ◌==◌, leb, if◌then◌else◌, same_text, take, length, ℤ, pos, negsuc,
}

-- std::string::find of a text: the first position at which it stands.
unfoldable pub find : List ℕ → List ℕ → Option ℕ
find pat [] = if same_text pat [] then some 0 else none
find pat (c ∷ cs) =
    let rest = find pat cs in
    if same_text pat (take (length pat) (c ∷ cs))
    then some 0
    else elim rest [ none ↦ none | some i ↦ some (suc i) ]

-- std::string::find of a character.
unfoldable pub find_char : ℕ → List ℕ → Option ℕ
find_char d [] = none
find_char d (c ∷ cs) =
    let rest = find_char d cs in
    if c == d then some 0 else elim rest [ none ↦ none | some i ↦ some (suc i) ]

abbrev pub is_digit : ℕ → Bool
is_digit c = leb b'0' c && leb c b'9'

abbrev pub is_space : ℕ → Bool
is_space c = (c == 32) || (leb 9 c && leb c 13)

unfoldable pub digits_value : ℕ → List ℕ → ℕ
digits_value n [] = n
digits_value n (c ∷ cs) = elim (is_digit c) [
  | true ↦ digits_value (n * 10 + (c - b'0')) cs
  | false ↦ n
]

abbrev pub minus : ℕ → ℤ
minus zero = pos 0
minus (suc n) = negsuc n

-- atoi, for values that fit an int.
unfoldable pub atoi : List ℕ → ℤ
atoi [] = pos 0
atoi (c ∷ cs) = elim (is_space c) [
  | true ↦ atoi cs
  | false ↦
      if c == b'-'
      then minus (digits_value 0 cs)
      else if c == b'+'
      then pos (digits_value 0 cs)
      else pos (digits_value 0 (c ∷ cs))
]
