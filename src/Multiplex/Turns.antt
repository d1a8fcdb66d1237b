-- ===== src/Multiplex/Turns.antt =====
-- Whose turn it is, and how many files are open.
use sys_prog.Prelude.{
  ℕ, zero, suc, ◌+◌, ◌-◌, ◌%◌, ◌<◌, ◌≤◌, ◌≡◌, refl, ◌∙◌, sym, ap, subst, arith, Bool, true, false,
  Option, none, some, List, [], ◌∷◌, ◌++◌, ◌==◌, length, get_or, set, length-set, Bool-cases,
  Option-cases, inl, inr, ◌⊎◌, ==→eq,
}
use native.Mathlib.Nat.{mod-eq_of_lt, mod_self, mod-add-mod}
use sys_prog.Multiplex.{
  read_file, ReadResult, read_error, interrupted, read_bytes, Reader, current_file, close_file,
  go_on, read_round, multiplexed_read,
}

unfoldable pub count_open : List Bool → ℕ
count_open [] = 0
count_open (true ∷ fs) = suc (count_open fs)
count_open (false ∷ fs) = count_open fs

-- The count of the open files is right, and the next number is one of the array or behind its end.
pub record InTurn (num : ℕ) (r : Reader) : Type 0 where
  pub files_num : length r.files ≡ num
  pub some_file : 0 < num
  pub in_files : r.next_file ≤ num
  pub counted : r.opened_num ≡ count_open r.files

open-pos : (fs : List Bool) (i : ℕ) → get_or fs i false ≡ true → 0 < count_open fs
unfolding count_open
open-pos [] i h = absurd (ground arith)
open-pos (true ∷ fs) i h = omega arith
open-pos (false ∷ fs) zero h = absurd (ground arith)
open-pos (false ∷ fs) (suc i) h = open-pos fs i h

count_open-set :
    (fs : List Bool) (i : ℕ)
    → get_or fs i false ≡ true
    → count_open (set fs i false) ≡ count_open fs - 1
unfolding count_open
count_open-set [] i h = absurd (ground arith)
count_open-set (true ∷ fs) zero h = omega arith
count_open-set (false ∷ fs) zero h = absurd (ground arith)
count_open-set (false ∷ fs) (suc i) h = count_open-set fs i h
count_open-set (true ∷ fs) (suc i) h =
    let ih = count_open-set fs i h in let some = open-pos fs i h in omega arith

pub current_file-mod : (num : ℕ) (r : Reader) → InTurn num r → current_file r ≡ r.next_file % num
unfolding current_file
current_file-mod num r t = elim (Bool-cases (r.next_file == length r.files)) [
  | inl end ↦
      let e : r.next_file ≡ num = ==→eq r.next_file (length r.files) end ∙ t.files_num in
      rw end (sym (ap (λ x. x % num) e ∙ mod_self num))
  | inr before ↦
      rw before (let fs = t.files_num in let le = t.in_files in sym (mod-eq_of_lt (ground arith)))
]

current_file-lt : (num : ℕ) (r : Reader) → InTurn num r → current_file r < num
unfolding current_file
current_file-lt num r t =
    let fs = t.files_num in let le = t.in_files in let some = t.some_file in ground arith

-- A round leaves the count right and the turn with the next file.
record Round (num : ℕ) (r r' : Reader) : Type 0 where
  in_turn : InTurn num r'
  next : r'.next_file ≡ current_file r + 1

go_on-InTurn : (num : ℕ) (r : Reader) → InTurn num r → Round num r (go_on r)
go_on-InTurn num r t =
    let less = current_file-lt num r t in
    record {
      in_turn = record {
        files_num = t.files_num;
        some_file = t.some_file;
        in_files = omega arith;
        counted = t.counted;
      };
      next = refl;
    }

close_file-InTurn :
    (num : ℕ) (r : Reader)
    → InTurn num r
    → get_or r.files (current_file r) false ≡ true
    → Round num r (close_file r)
unfolding close_file
close_file-InTurn num r t its_open =
    let less = current_file-lt num r t in
    record {
      in_turn = record {
        files_num = length-set r.files (current_file r) false ∙ t.files_num;
        some_file = t.some_file;
        in_files = omega arith;
        counted =
            ap (λ n. n - 1) t.counted ∙ sym (count_open-set r.files (current_file r) its_open);
      };
      next = refl;
    }

some-inj : {A : Type 0} {x y : A} → some x ≡ some y → x ≡ y
some-inj {x = x} h = ap (λ o. elim o [ none ↦ x | some z ↦ z ]) h

abbrev Result : Type 0
Result = Option (Reader × List ℕ)

same_result :
    (num : ℕ) (r x r' : Reader) (b bytes : List ℕ)
    → Round num r x
    → ◌≡◌ {A = Result} (some (x, b)) (some (r', bytes))
    → Round num r r'
same_result num r x r' b bytes round e = subst (Round num r) (ap (λ p. p.0) (some-inj e)) round

read_file-Round :
    (num : ℕ) (result : ReadResult) (write_ok : Bool) (r r' : Reader) (bytes : List ℕ)
    → InTurn num r
    → get_or r.files (current_file r) false ≡ true
    → read_file result write_ok r ≡ some (r', bytes)
    → Round num r r'
unfolding read_file
read_file-Round num read_error ok r r' bytes t its_open e =
    same_result num r (close_file r) r' [] bytes (close_file-InTurn num r t its_open) e
read_file-Round num interrupted ok r r' bytes t its_open e =
    same_result num r (go_on r) r' [] bytes (go_on-InTurn num r t) e
read_file-Round num (read_bytes bs) true r r' bytes t its_open e =
    same_result num r (go_on r) r' bs bytes (go_on-InTurn num r t) e
read_file-Round num (read_bytes bs) false r r' bytes t its_open e = absurd (ground arith)

read_round-closed :
    (result : ReadResult) (ok : Bool) (r : Reader)
    → get_or r.files (current_file r) false ≡ false
    → read_round result ok r ≡ some (go_on r, [])
unfolding read_round
read_round-closed result ok r h = rw (read_round, h) refl

read_round-open :
    (result : ReadResult) (ok : Bool) (r : Reader)
    → get_or r.files (current_file r) false ≡ true
    → read_round result ok r ≡ read_file result ok r
unfolding read_round
read_round-open result ok r h = rw (read_round, h) refl

read_round-Round :
    (num : ℕ) (result : ReadResult) (ok : Bool) (r r' : Reader) (bytes : List ℕ)
    → InTurn num r
    → read_round result ok r ≡ some (r', bytes)
    → Round num r r'
read_round-Round num result ok r r' bytes t h =
    elim (Bool-cases (get_or r.files (current_file r) false)) [
      | inr closed ↦
          same_result num r (go_on r) r' [] bytes (go_on-InTurn num r t)
            (sym (read_round-closed result ok r closed) ∙ h)
      | inl its_open ↦
          read_file-Round num result ok r r' bytes t its_open
            (sym (read_round-open result ok r its_open) ∙ h)
    ]

-- The loop, one round on.
multiplexed_read-next :
    (result : ReadResult) (ok : Bool) (rounds : List (ReadResult × Bool)) (r r2 : Reader)
    (out : List ℕ)
    → multiplexed_read ((result, ok) ∷ rounds) r ≡ some (r2, out)
    → ((r.opened_num ≡ 0) × (r2 ≡ r))
      ⊎ ((r' : Reader) × (bytes : List ℕ) × (more : List ℕ) × (read_round result ok r
            ≡ some (r', bytes))
          × (multiplexed_read rounds r' ≡ some (r2, more)))
unfolding multiplexed_read
multiplexed_read-next result ok rounds r r2 out h = elim (Bool-cases (r.opened_num == 0)) [
  | inl end ↦
      let e : ◌≡◌ {A = Result} (some (r, [])) (some (r2, out)) = sym (rw end refl) ∙ h in
      inl (==→eq r.opened_num 0 end, sym (ap (λ p. p.0) (some-inj e)))
  | inr going ↦ elim (Option-cases (read_round result ok r)) [
    | inl failed ↦ absurd (
        let e : ◌≡◌ {A = Result} none (some (r2, out)) = sym (rw (going, failed) refl) ∙ h in
        ground arith)
    | inr (p, one) ↦ elim (Option-cases (multiplexed_read rounds p.0)) [
      | inl failed ↦ absurd (
          let e : ◌≡◌ {A = Result} none (some (r2, out)) = sym (rw (going, one, failed) refl) ∙ h in
          ground arith)
      | inr (q, rest) ↦
          let e : ◌≡◌ {A = Result} (some (q.0, p.1 ++ q.1)) (some (r2, out)) =
            sym (rw (going, one, rest) refl) ∙ h in
          inr (p.0, p.1, q.1, one, rest ∙ ap (λ x. some (x, q.1)) (ap (λ y. y.0) (some-inj e)))
    ]
  ]
]

next_turn :
    (num k : ℕ) (r r1 : Reader)
    → InTurn num r
    → Round num r r1
    → (r1.next_file + k) % num ≡ (r.next_file + suc k) % num
next_turn num k r r1 t round =
    let a : r1.next_file + k ≡ r.next_file % num + suc k =
      let e = round.next in let e' = current_file-mod num r t in omega arith in
    ap (λ x. x % num) a ∙ mod-add-mod r.next_file num (suc k)

-- multiplexed_read, after any number of rounds in which no write has failed, whatever the reads give:
-- the number that it keeps of the open files is right, and either none is open, or it is the turn of
-- the file that many places on, round and round.
pub multiplexed_read-InTurn :
    (num : ℕ) (rounds : List (ReadResult × Bool)) (r r' : Reader) (out : List ℕ)
    → InTurn num r
    → multiplexed_read rounds r ≡ some (r', out)
    → InTurn num r'
      × ((r'.opened_num ≡ 0) ⊎ (current_file r' ≡ (r.next_file + length rounds) % num))
unfolding multiplexed_read
multiplexed_read-InTurn num [] r r' out t h =
    let e = ap (λ p. p.0) (some-inj h) in
    subst (λ x. InTurn num x × ((x.opened_num ≡ 0) ⊎ (current_file x ≡ (r.next_file + 0) % num))) e
      (t, inr (current_file-mod num r t ∙ ap (λ n. n % num) (omega arith)))
multiplexed_read-InTurn num ((result, ok) ∷ rounds) r r2 out t h =
    elim (multiplexed_read-next result ok rounds r r2 out h) [
      | inl (none_open, same) ↦
          subst
            (λ x.
              InTurn num x
              × ((x.opened_num ≡ 0) ⊎ (current_file x ≡ (r.next_file + suc (length rounds)) % num)))
            (sym same) (t, inl none_open)
      | inr (r1, bytes, more, one, rest) ↦
          let round = read_round-Round num result ok r r1 bytes t one in
          let (after, turn) = multiplexed_read-InTurn num rounds r1 r2 more round.in_turn rest in
          (
            after,
            elim turn [
              | inl none_open ↦ inl none_open
              | inr here ↦ inr (here ∙ next_turn num (length rounds) r r1 t round)
            ],
          )
    ]

-- The read has not failed, though it may have given nothing, as at the end of a file.
abbrev pub NotFailed : ReadResult → Type 0
NotFailed read_error = ⊥
NotFailed interrupted = Unit
NotFailed (read_bytes bytes) = Unit

unfoldable pub NoneFailed : List (ReadResult × Bool) → Type 0
NoneFailed [] = Unit
NoneFailed ((result, ok) ∷ rounds) = NotFailed result × NoneFailed rounds

read_file-same :
    (result : ReadResult) (ok : Bool) (r r' : Reader) (bytes : List ℕ)
    → NotFailed result
    → read_file result ok r ≡ some (r', bytes)
    → (r'.files ≡ r.files) × (r'.opened_num ≡ r.opened_num)
unfolding read_file
read_file-same read_error ok r r' bytes f e = absurd f
read_file-same interrupted ok r r' bytes f e =
    let same = ap (λ p. p.0) (some-inj e) in
    (sym (ap (λ x. x.files) same), sym (ap (λ x. x.opened_num) same))
read_file-same (read_bytes bs) true r r' bytes f e =
    let same = ap (λ p. p.0) (some-inj e) in
    (sym (ap (λ x. x.files) same), sym (ap (λ x. x.opened_num) same))
read_file-same (read_bytes bs) false r r' bytes f e = absurd (ground arith)

read_round-same :
    (result : ReadResult) (ok : Bool) (r r' : Reader) (bytes : List ℕ)
    → NotFailed result
    → read_round result ok r ≡ some (r', bytes)
    → (r'.files ≡ r.files) × (r'.opened_num ≡ r.opened_num)
read_round-same result ok r r' bytes f h =
    elim (Bool-cases (get_or r.files (current_file r) false)) [
      | inr closed ↦
          let e : ◌≡◌ {A = Result} (some (go_on r, [])) (some (r', bytes)) =
            sym (read_round-closed result ok r closed) ∙ h in
          let same = ap (λ p. p.0) (some-inj e) in
          (sym (ap (λ x. x.files) same), sym (ap (λ x. x.opened_num) same))
      | inl its_open ↦
          read_file-same result ok r r' bytes f (sym (read_round-open result ok r its_open) ∙ h)
    ]

-- While no read fails, and at the end of a file none does, multiplexed_read closes no file: it counts
-- as many open ones after any number of rounds, and so does not end where one is open.
pub multiplexed_read-NoneFailed :
    (rounds : List (ReadResult × Bool)) (r r' : Reader) (out : List ℕ)
    → NoneFailed rounds
    → multiplexed_read rounds r ≡ some (r', out)
    → (r'.files ≡ r.files) × (r'.opened_num ≡ r.opened_num)
unfolding multiplexed_read NoneFailed
multiplexed_read-NoneFailed [] r r' out f h =
    let same = ap (λ p. p.0) (some-inj h) in
    (sym (ap (λ x. x.files) same), sym (ap (λ x. x.opened_num) same))
multiplexed_read-NoneFailed ((result, ok) ∷ rounds) r r2 out (this, f) h =
    elim (multiplexed_read-next result ok rounds r r2 out h) [
      | inl (none_open, same) ↦ (ap (λ x. x.files) same, ap (λ x. x.opened_num) same)
      | inr (r1, bytes, more, one, rest) ↦
          let (files, num) = read_round-same result ok r r1 bytes this one in
          let (files', num') = multiplexed_read-NoneFailed rounds r1 r2 more f rest in
          (files' ∙ files, num' ∙ num)
    ]
