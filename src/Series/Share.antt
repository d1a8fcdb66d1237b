-- ===== src/Series/Share.antt =====
-- Each index is added up by exactly one thread.
use sys_prog.Prelude.{
  ℕ, zero, suc, ◌+◌, ◌-◌, ◌*◌, ◌%◌, ◌^◌, ◌≤◌, ◌<◌, ◌≡◌, refl, sym, ap, subst, ◌∙◌, true, false,
  List, [], ◌∷◌, arith, ltb, Bool-cases, dec_lt, inl, inr, ◌⊎◌,
}
use native.Mathlib.Nat.{mod-eq_of_lt}
use sys_prog.Series.{indices, block}

abbrev pub In : ℕ → List ℕ → Type 0
In k [] = ⊥
In k (m ∷ ms) = (k ≡ m) ⊎ In k ms

-- No counter wraps as long as the limit and the number of threads are below its range.
indices-more :
    (fuel i n max : ℕ)
    → max + n ≤ 2 ^ 64
    → ltb i max ≡ true
    → indices (suc fuel) i n max ≡ i ∷ indices fuel (i + n) n max
unfolding indices
indices-more fuel i n max small h =
    let next : (i + n) % 2 ^ 64 ≡ i + n = mod-eq_of_lt {n = (i + n)} {m = 2 ^ 64} (ground arith) in
    rw (indices, h) (ap (λ j. i ∷ indices fuel j n max) next)

indices-end : (fuel i n max : ℕ) → ltb i max ≡ false → indices (suc fuel) i n max ≡ []
unfolding indices
indices-end fuel i n max h = rw (indices, h) refl

next_multiple : (i n q : ℕ) → (i + n) + q * n ≡ i + suc q * n
next_multiple i n q = grind arith

-- An index of a thread is `start` and a multiple of the number of threads.
indices-only :
    (fuel i n max k : ℕ)
    → max + n ≤ 2 ^ 64
    → In k (indices fuel i n max)
    → (k < max) × (q : ℕ) × (k ≡ i + q * n)
unfolding indices
indices-only zero i n max k small h = absurd h
indices-only (suc fuel) i n max k small h = elim (Bool-cases (ltb i max)) [
  | inr end ↦ absurd (subst (In k) (indices-end fuel i n max end) h)
  | inl more ↦ elim (subst (In k) (indices-more fuel i n max small more) h) [
    | inl first ↦ (ground arith, 0, omega arith)
    | inr later ↦
        let (lt, q, e) = indices-only fuel (i + n) n max k small later in
        (lt, suc q, e ∙ next_multiple i n q)
  ]
]

indices-all :
    (fuel i n max q : ℕ)
    → max + n ≤ 2 ^ 64
    → 0 < n
    → max ≤ i + fuel
    → i + q * n < max
    → In (i + q * n) (indices fuel i n max)
unfolding indices
indices-all zero i n max q small pos le lt = absurd (omega arith)
indices-all (suc fuel) i n max zero small pos le lt =
    let more : ltb i max ≡ true = ground arith in
    subst (In (i + 0 * n)) (sym (indices-more fuel i n max small more)) (inl (omega arith))
indices-all (suc fuel) i n max (suc q) small pos le lt =
    let far = next_multiple i n q in
    let more : ltb i max ≡ true = ground arith in
    subst (In (i + suc q * n)) (sym (indices-more fuel i n max small more)) (
      inr (
        subst (λ k. In k (indices fuel (i + n) n max)) far
          (indices-all fuel (i + n) n max q small pos (omega arith) (omega arith))))

block_size : (num_steps b : ℕ) → (b + 1) * num_steps ≡ b * num_steps + num_steps
block_size num_steps b =
    let after : b + 1 ≡ suc b = omega arith in
    let far = next_multiple 0 num_steps b in ap (λ m. m * num_steps) after ∙ omega arith

le-mul : (a m : ℕ) → 0 < m → a ≤ a * m
le-mul a zero pos = absurd (omega arith)
le-mul a (suc m) pos = grind arith

-- The remainder by the number of threads, and the quotient.
quotient : (n k : ℕ) → 0 < n → (t : ℕ) × (q : ℕ) × (t < n) × (k ≡ t + q * n)
quotient n zero pos = (0, 0, pos, omega arith)
quotient n (suc k) pos =
    let (t, q, lt, e) = quotient n k pos in
    elim (dec_lt (t + 1) n) [
      | yes less ↦ (t + 1, q, less, omega arith)
      | no full ↦ (0, suc q, pos, (let far = next_multiple 0 n q in omega arith))
    ]

same_remainder : (n t u q r : ℕ) → t < n → u < n → t + q * n ≡ u + r * n → t ≡ u
same_remainder n t u zero zero lt lu e = omega arith
same_remainder n t u zero (suc r) lt lu e = absurd (let far = next_multiple u n r in omega arith)
same_remainder n t u (suc q) zero lt lu e = absurd (let far = next_multiple t n q in omega arith)
same_remainder n t u (suc q) (suc r) lt lu e =
    same_remainder n t u q r lt lu
      (let far = next_multiple t n q in let far' = next_multiple u n r in omega arith)

-- Where no counter wraps, a block is what its loop says.
block-indices :
    (fuel num_steps n t b : ℕ)
    → 0 < n
    → t < n
    → (b + 1) * num_steps + n ≤ 2 ^ 64
    → 0 < num_steps
    → block fuel num_steps n t b ≡ indices fuel (b * num_steps + t) n ((b + 1) * num_steps)
unfolding block
block-indices fuel num_steps n t b pos lt small some_steps =
    let size = block_size num_steps b in
    let few : b + 1 ≤ (b + 1) * num_steps = le-mul (b + 1) num_steps some_steps in
    let first : (b * num_steps + t) % 2 ^ 64 ≡ b * num_steps + t =
      mod-eq_of_lt {n = (b * num_steps + t)} {m = 2 ^ 64} (omega arith) in
    let number : (b + 1) % 2 ^ 64 ≡ b + 1 = mod-eq_of_lt {n = (b + 1)} {m = 2 ^ 64} (omega arith) in
    let last : (b + 1) * num_steps % 2 ^ 64 ≡ (b + 1) * num_steps =
      mod-eq_of_lt {n = ((b + 1) * num_steps)} {m = 2 ^ 64} (omega arith) in
    rw (block, number, first, last) refl

-- With at least one thread, in a block for which no 64-bit counter wraps, and on fuel for as many
-- rounds as a block has indices: each index of the block is added up in it by exactly one of the threads.
pub block-In :
    (fuel num_steps n b k : ℕ)
    → 0 < n
    → (b + 1) * num_steps + n ≤ 2 ^ 64
    → num_steps ≤ fuel
    → b * num_steps ≤ k
    → k < (b + 1) * num_steps
    → (t : ℕ) × (t < n)
      × In k (block fuel num_steps n t b)
      × ((u : ℕ) → u < n → In k (block fuel num_steps n u b) → u ≡ t)
block-In fuel num_steps n b k pos small enough low high =
    let (t, q, lt, e) = quotient n (k - b * num_steps) pos in
    let sum : b * num_steps + t + q * n ≡ k = omega arith in
    let size = block_size num_steps b in
    let is : (u : ℕ)
        → u < n
        → block fuel num_steps n u b ≡ indices fuel (b * num_steps + u) n ((b + 1) * num_steps) =
      λ u less. block-indices fuel num_steps n u b pos less small (omega arith) in
    (
      t,
      lt,
      subst (In k) (sym (is t lt)) (
          subst (λ k. In k (indices fuel (b * num_steps + t) n ((b + 1) * num_steps))) sum
            (indices-all fuel (b * num_steps + t) n ((b + 1) * num_steps) q small pos (omega arith)
              (omega arith))),
      (λ u lu h.
          let (less, r, e') =
            indices-only fuel (b * num_steps + u) n ((b + 1) * num_steps) k small
              (subst (In k) (is u lu) h) in
          same_remainder n u t r q lu lt (omega arith)),
    )

-- The block of ten million indices at which the end of the loop wraps: no thread adds anything up.
block-wrapped : (fuel n t : ℕ) → t < 9000000 → block fuel 10000000 n t 1844674407370 ≡ []
unfolding block indices
block-wrapped zero n t lt = refl
block-wrapped (suc fuel) n t lt =
    let first : (18446744073700000000 + t) % 2 ^ 64 ≡ 18446744073700000000 + t =
      mod-eq_of_lt {n = 18446744073700000000 + t} {m = 2 ^ 64} (omega arith) in
    let over : ltb (18446744073700000000 + t) 448384 ≡ false = ground arith in rw (first, over) refl
