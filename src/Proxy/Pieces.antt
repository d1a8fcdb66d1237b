-- ===== src/Proxy/Pieces.antt =====
-- Data.h and Data.cpp: the pieces of a resource that have been received.
use sys_prog.Prelude.{
  ℕ, ◌+◌, Bool, true, false, Option, none, some, List, [], ◌∷◌, ◌++◌, leb, ltb, length, ℤ, pos,
  negsuc,
}

pub record Pieces : Type 0 where
  pub pieces : List (List ℕ)
  pub coherence : Bool
  pub delete_request : Bool
  pub expected_length : ℤ
  pub current_length : ℕ

unfoldable pub new_pieces : Pieces
new_pieces = record {
  pieces = [];
  coherence = false;
  delete_request = false;
  expected_length = pos 0;
  current_length = 0;
}

unfoldable pub push_data : List ℕ → Pieces → Pieces
push_data p d = record d {
  pieces = d.pieces ++ p ∷ [];
  current_length = d.current_length + length p;
}

abbrev pub le_length : ℤ → ℕ → Bool
le_length (pos n) m = leb n m
le_length (negsuc n) m = true

abbrev pub positive : ℤ → Bool
positive (pos n) = ltb 0 n
positive (negsuc n) = false

unfoldable pub is_full : Pieces → Bool
is_full d = le_length d.expected_length d.current_length

-- The first piece, which is taken out; none where there is no piece.
unfoldable pub pop_first : List (List ℕ) → Option (List ℕ × List (List ℕ))
pop_first [] = none
pop_first (p ∷ ps) = some (p, ps)
