-- ===== src/SearchTable/Laws.antt =====
-- The table of `create_search_table` points at the lines of the file, and its longest string fits
-- the buffer.
use sys_prog.Prelude.{
  ℕ, zero, suc, ◌+◌, ◌-◌, ◌≤◌, ◌<◌, ◌≡◌, refl, ap, sym, true, false, ◌⊎◌, inl, inr, Option, none,
  some, List, [], ◌∷◌, ◌++◌, map, arith, ltb, ◌==◌, if◌then◌else◌, length, take, drop, get_elem?,
  Bool-cases, length-append, take-length_append, pos,
}
use mathlib.Core.List.{append_assoc}
use Prim.Native.Nat.{min}
use sys_prog.SearchTable.{
  newline, got, Scan, scan_symbol, scan_loop, scan_start, scan_tail, create_search_table, Answer,
  unexpected, line, print_line, answer, strings_max_num,
}

-- The complete lines of a text, each with its newline, where `cur` has been read of the first.
unfoldable pub lines_from : List ℕ → List ℕ → List (List ℕ)
lines_from cur [] = []
lines_from cur (c ∷ cs) =
    if c == newline then (cur ++ c ∷ []) ∷ lines_from [] cs else lines_from (cur ++ c ∷ []) cs

-- Entry `k` of the table, as `main` reads the line from a text that starts at offset `base`.
abbrev slice : ℕ → List ℕ → Scan → ℕ → List ℕ
slice base text s k =
    take (s.strings_length k) (drop (s.indents k - s.strings_length k - base) text)

-- What a scan that begins in `s` with `cur` read of the current line leaves in `t`.
record Scanned (cur cs : List ℕ) (s t : Scan) : Type 0 where
  grows : s.i ≤ t.i
  longer : s.string_max_length ≤ t.string_max_length
  keeps :
      (k : ℕ) → k < s.i → (t.indents k ≡ s.indents k) × (t.strings_length k ≡ s.strings_length k)
  entries :
      (k : ℕ)
      → s.i ≤ k
      → k < t.i
      → (get_elem? (lines_from cur cs) (k - s.i)
          ≡ some (slice (s.file_length - s.string_length) (cur ++ cs) t k))
        × (t.strings_length k + (s.file_length - s.string_length) ≤ t.indents k)
        × (t.strings_length k ≤ t.string_max_length)
        × (0 < t.strings_length k)

Nat-cases : (i k : ℕ) → i ≤ k → (k ≡ i) ⊎ (i < k)
Nat-cases i k h = omega arith

take-line :
    (cur cs : List ℕ) (c n : ℕ) → n ≡ length cur → take (n + 1) (cur ++ c ∷ cs) ≡ cur ++ c ∷ []
take-line cur cs c n e =
    let len : n + 1 ≡ length (cur ++ c ∷ []) = omega (arith, length-append cur (c ∷ []), e) in
    rw (len, ← append_assoc cur (c ∷ []) cs) (take-length_append (cur ++ c ∷ []) cs)

drop-line :
    (cur cs : List ℕ) (c m n : ℕ) → m ≡ n + 1 + length cur → drop m (cur ++ c ∷ cs) ≡ drop n cs
drop-line [] cs c m n e = let m' : m ≡ suc n = omega arith in rw m'
drop-line (x ∷ cur) cs c m n e =
    let m' : m ≡ suc (n + 1 + length cur) = omega arith in rw m' (drop-line cur cs c _ n refl)

Scanned-self : (cur cs : List ℕ) (s : Scan) → Scanned cur cs s s
Scanned-self cur cs s = record {
  grows = omega arith;
  longer = omega arith;
  keeps = λ k h. (refl, refl);
  entries = λ k h h'. absurd (omega arith);
}

module _ (c : ℕ) (cs cur : List ℕ) (s t : Scan) (e : s.string_length ≡ length cur)
    (h : s.string_length ≤ s.file_length) where
  Scanned-symbol :
      (c == newline) ≡ false
      → Scanned (cur ++ c ∷ []) cs (scan_symbol c s) t
      → Scanned cur (c ∷ cs) s t
  unfolding scan_symbol lines_from
  Scanned-symbol other r = record {
    grows = rw other at r.grows;
    longer = rw other at r.longer;
    keeps = rw other at r.keeps;
    entries = λ k a b.
        let q = rw other at r.entries in
        let base : s.file_length + 1 - (s.string_length + 1) ≡ s.file_length - s.string_length =
          omega arith in
        rw other (rw (base, append_assoc) at (q k a b));
  }

  module _ (hit : (c == newline) ≡ true) (r : Scanned [] cs (scan_symbol c s) t) where
    abbrev Entry : ℕ → Type 0
    Entry k =
        (get_elem? (lines_from cur (c ∷ cs)) (k - s.i)
          ≡ some (slice (s.file_length - s.string_length) (cur ++ c ∷ cs) t k))
        × (t.strings_length k + (s.file_length - s.string_length) ≤ t.indents k)
        × (t.strings_length k ≤ t.string_max_length)
        × (0 < t.strings_length k)

    first : (k : ℕ) → k ≡ s.i → k < t.i → Entry k
    unfolding scan_symbol lines_from
    first k i b =
        let (ends, len) : (t.indents s.i ≡ s.file_length + 1)
            × (t.strings_length s.i ≡ s.string_length + 1) =
          ground (arith, r.keeps s.i) in
        let zero_k : s.i - s.i ≡ 0 = omega arith in
        let off : s.file_length + 1 - (s.string_length + 1) - (s.file_length - s.string_length)
            ≡ 0 =
          omega arith in
        rw (i, zero_k, hit, ends, len, off)
          (
            ap some (sym (take-line cur cs c s.string_length e)),
            omega arith,
            ground (arith, r.longer),
            omega arith,
          )

    later : (k : ℕ) → s.i < k → k < t.i → Entry k
    unfolding scan_symbol lines_from
    later k i b =
        let q = rw hit at r.entries k (ground arith) b in
        let k' : k - s.i ≡ suc (k - (s.i + 1)) = omega arith in
        let shift : drop (t.indents k - t.strings_length k - (s.file_length - s.string_length))
              (cur ++ c ∷ cs)
            ≡ drop (t.indents k - t.strings_length k - (s.file_length + 1)) cs =
          drop-line cur cs c _ _ (omega (arith, q.1)) in
        let at_end : s.file_length + 1 - 0 ≡ s.file_length + 1 = omega arith in
        rw (hit, k', shift) (rw at_end at q.0, omega (arith, q.1), q.2, q.3)

  Scanned-newline :
      (c == newline) ≡ true → Scanned [] cs (scan_symbol c s) t → Scanned cur (c ∷ cs) s t
  unfolding scan_symbol lines_from
  Scanned-newline hit r = record {
    grows = let q = rw hit at r.grows in omega arith;
    longer = let q = rw hit at r.longer in ground arith;
    keeps = λ k a. ground (arith, r.keeps k);
    entries =
        λ k a b. elim (Nat-cases s.i k a) [ inl i ↦ first hit r k i b | inr i ↦ later hit r k i b ];
  }

scan_loop-Scanned :
    (cs cur : List ℕ) (s : Scan)
    → s.string_length ≡ length cur
    → s.string_length ≤ s.file_length
    → Scanned cur cs s (scan_loop (map got cs) s)
unfolding scan_loop scan_symbol
scan_loop-Scanned [] cur s e h = record {
  grows = omega arith;
  longer = omega arith;
  keeps = λ k h. (refl, refl);
  entries = λ k h h'. absurd (omega arith);
}
scan_loop-Scanned (c ∷ cs) cur s e h = elim (Bool-cases (ltb s.i strings_max_num)) [
  | inr full ↦ rw full (Scanned-self cur (c ∷ cs) s)
  | inl room ↦ rw room (elim (Bool-cases (c == newline)) [
    | inl hit ↦
        Scanned-newline c cs cur s _ e h hit
          (scan_loop-Scanned cs [] _ (ground arith) (ground arith))
    | inr other ↦
        Scanned-symbol c cs cur s _ e h other
          (scan_loop-Scanned cs _ _ (ground (arith, length-append cur (c ∷ []))) (ground arith))
  ])
]

-- The scan stops at the hundredth line.
scan_loop-i :
    (cs cur : List ℕ) (s : Scan)
    → s.i ≤ strings_max_num
    → (scan_loop (map got cs) s).i ≡ min strings_max_num (s.i + length (lines_from cur cs))
unfolding scan_loop scan_symbol lines_from
scan_loop-i [] cur s h = omega arith
scan_loop-i (c ∷ cs) cur s h =
    ground
      (arith, scan_loop-i cs [] (scan_symbol c s), scan_loop-i cs (cur ++ c ∷ []) (scan_symbol c s))

abbrev pub reply : Option (List ℕ) → Answer
reply none = unexpected
reply (some l) = line l

lt_of_get_elem? :
    {A : Type 0} (xs : List A) (k : ℕ)
    → ((get_elem? xs k ≡ none) × (length xs ≤ k)) ⊎ (k < length xs)
lt_of_get_elem? [] k = inl (refl, omega arith)
lt_of_get_elem? (x ∷ xs) zero = inr (omega arith)
lt_of_get_elem? (x ∷ xs) (suc k) = ground (arith, lt_of_get_elem? xs k)

print_line-append : (cur : List ℕ) (c : ℕ) → print_line (cur ++ c ∷ []) ≡ line (cur ++ c ∷ [])
print_line-append [] c = refl
print_line-append (x ∷ cur) c = refl

-- A complete line has its newline, so it is printed and does not end the loop.
print_line-lines :
    (cs cur l : List ℕ) (k : ℕ) → get_elem? (lines_from cur cs) k ≡ some l → print_line l ≡ line l
unfolding lines_from
print_line-lines [] cur l k e = cc
print_line-lines (c ∷ cs) cur l zero e = elim (Bool-cases (c == newline)) [
  | inl hit ↦ let q : some (cur ++ c ∷ []) ≡ some l = rw hit at e in cc (q, print_line-append cur c)
  | inr other ↦ print_line-lines cs _ l zero (rw other at e)
]
print_line-lines (c ∷ cs) cur l (suc k) e = elim (Bool-cases (c == newline)) [
  | inl hit ↦ print_line-lines cs [] l k (rw hit at e)
  | inr other ↦ print_line-lines cs _ l (suc k) (rw other at e)
]

module _ (garbage : ℕ → ℕ) (text : List ℕ) where
  abbrev scanned : Scan
  scanned = scan_loop (map got text) (scan_start garbage)

  whole : Scanned [] text (scan_start garbage) scanned
  whole = scan_loop-Scanned text [] (scan_start garbage) refl (omega arith)

  count : scanned.i ≡ min strings_max_num (length (lines_from [] text))
  count = omega (arith, scan_loop-i text [] (scan_start garbage) (omega arith))

  answer-scanned :
      (k : ℕ)
      → k < strings_max_num
      → answer text (scan_tail scanned) (pos (suc k)) ≡ reply (get_elem? (lines_from [] text) k)
  unfolding answer scan_tail
  answer-scanned k few = elim (lt_of_get_elem? (lines_from [] text) k) [
    | inl out ↦ rw out.0 (ground (arith, count, out.1))
    | inr lt ↦
        ground (arith, count, whole.entries k, print_line-lines text [] (slice 0 text scanned k) k)
  ]

module _ (garbage : ℕ → ℕ) (text : List ℕ) {t : Scan}
    (made : create_search_table garbage true (map got text) ≡ some t) (k : ℕ) where
  made-eq : scan_tail (scan_loop (map got text) (scan_start garbage)) ≡ t
  unfolding create_search_table
  made-eq = cc

  -- For a file that is read without failure, whatever the arrays held before: the request for
  -- line k + 1, where k < 100, is answered with the k-th complete line of the file (its newline
  -- included) where there is one, and else with "Unexpected string number".
  pub answer-create_search_table :
      k < strings_max_num → answer text t (pos (suc k)) ≡ reply (get_elem? (lines_from [] text) k)
  answer-create_search_table few = rw (← made-eq) (answer-scanned garbage text k few)

  -- For such a file and each of its complete lines in the table: the line is not longer than the
  -- buffer that `main` allocates for it, and the offset to which `main` seeks is not negative.
  pub create_search_table-fits :
      k < t.i → (t.strings_length k ≤ t.string_max_length) × (t.strings_length k ≤ t.indents k)
  unfolding scan_tail
  create_search_table-fits lt = ground (arith, made-eq, (whole garbage text).entries k)
