-- ===== src/Sender/Slots.antt =====
-- The slots of the array `recvers`.
use sys_prog.Prelude.{
  ℕ, zero, suc, ◌+◌, ◌≤◌, ◌<◌, ◌≡◌, ◌≢◌, refl, ap, subst, ◌∙◌, Bool, true, false, arith, Bool-cases,
  ℕ_discrete, inl, inr, eq→==, ne→==,
}
use sys_prog.Sender.{array_set, first_dead}

module _ {A : Type 0} (f : ℕ → A) (i : ℕ) (a : A) where
  pub array_set-same : array_set f i a i ≡ a
  unfolding array_set
  array_set-same = rw (eq→== i i refl) refl

  pub array_set-other : (j : ℕ) → i ≢ j → array_set f i a j ≡ f j
  unfolding array_set
  array_set-other j h = rw (ne→== i j h) refl

first_dead-next :
    (n i : ℕ) (alive : ℕ → Bool)
    → alive i ≡ true
    → first_dead (suc n) i alive ≡ first_dead n (i + 1) alive
unfolding first_dead
first_dead-next n i alive h = rw (h, first_dead) refl

first_dead-here : (n i : ℕ) (alive : ℕ → Bool) → alive i ≡ false → first_dead (suc n) i alive ≡ i
unfolding first_dead
first_dead-here n i alive h = rw (h, first_dead) refl

-- All the slots before the one that is found are alive.
pub first_dead-alive :
    (n i : ℕ) (alive : ℕ → Bool)
    → (i ≤ first_dead n i alive)
      × (first_dead n i alive ≤ i + n)
      × ((j : ℕ) → i ≤ j → j < first_dead n i alive → alive j ≡ true)
unfolding first_dead
first_dead-alive zero i alive = (omega arith, omega arith, (λ j a b. absurd (omega arith)))
first_dead-alive (suc n) i alive = elim (Bool-cases (alive i)) [
  | inr dead ↦
      rw (first_dead-here n i alive dead)
        (omega arith, omega arith, (λ j a b. absurd (omega arith)))
  | inl live ↦
      let (a, b, rest) = first_dead-alive n (i + 1) alive in
      rw (first_dead-next n i alive live) (
        omega arith,
        omega arith,
        (λ j low high. elim (ℕ_discrete i j) [
          | yes same ↦ subst (λ j. alive j ≡ true) same live
          | no other ↦ rest j (omega arith) high
        ]),
      )
]

-- The slot that is found is dead, unless the rounds have been used up.
pub first_dead-dead :
    (n i : ℕ) (alive : ℕ → Bool)
    → first_dead n i alive < i + n
    → alive (first_dead n i alive) ≡ false
unfolding first_dead
first_dead-dead zero i alive lt = absurd (omega arith)
first_dead-dead (suc n) i alive lt = elim (Bool-cases (alive i)) [
  | inr dead ↦ ap alive (first_dead-here n i alive dead) ∙ dead
  | inl live ↦
      (let next = first_dead-next n i alive live in
        ap alive next ∙ first_dead-dead n (i + 1) alive (omega arith))
]
