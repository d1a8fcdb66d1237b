-- ===== src/Series/Blocks.antt =====
-- After how many blocks the threads stop.
use sys_prog.Prelude.{
  ℕ, ◌+◌, ◌≤◌, ◌≡◌, refl, subst, Bool, true, false, arith, ◌==◌, ltb, leb, if◌then◌else◌,
  Bool-cases, inl, inr,
}
use sys_prog.Series.{
  Adder, adds, stopped, Sums, with_adder, end_of_block, begun, Adding, at_start, block_ends,
  signalled,
}

-- A thread is at most one block behind the counter's last one and one before it when it stops.
unfoldable pub AdderOk : Bool → ℕ → Adder → Type 0
AdderOk stop g (adds b) = b ≤ g + 1
AdderOk stop g (stopped b) = (stop ≡ true) × (g ≤ b) × (b ≤ g + 1)

abbrev pub SumsOk : Sums → Type 0
SumsOk s = (t : ℕ) → AdderOk s.stop_computations s.global_iter_counter (s.adder t)

with_adder-AdderOk :
    (stop : Bool) (g : ℕ) (f : ℕ → Adder) (t : ℕ) (a : Adder)
    → AdderOk stop g a
    → ((u : ℕ) → AdderOk stop g (f u))
    → (u : ℕ) → AdderOk stop g (with_adder f t a u)
unfolding with_adder
with_adder-AdderOk stop g f t a mine others u = elim (Bool-cases (t == u)) [
  | inl same ↦ rw same mine
  | inr other ↦ rw other (others u)
]

AdderOk-later : (g g' : ℕ) (a : Adder) → g ≤ g' → AdderOk false g a → AdderOk false g' a
unfolding AdderOk
AdderOk-later g g' (adds b) le h = omega arith
AdderOk-later g g' (stopped b) le (h, low, high) = absurd (ground arith)

AdderOk-stop : (stop : Bool) (g : ℕ) (a : Adder) → AdderOk stop g a → AdderOk true g a
unfolding AdderOk
AdderOk-stop stop g (adds b) h = h
AdderOk-stop stop g (stopped b) (h, low, high) = (refl, low, high)

end_of_block-SumsOk :
    (stop : Bool) (g t b : ℕ) (f : ℕ → Adder)
    → ((u : ℕ) → AdderOk stop g (f u))
    → b ≤ g + 1
    → SumsOk
        (end_of_block t b (record { stop_computations = stop; global_iter_counter = g; adder = f }))
unfolding end_of_block AdderOk
end_of_block-SumsOk true g t b f ok le = elim (Bool-cases (leb g b)) [
  | inl last ↦ rw last (with_adder-AdderOk true g f t (stopped b) (refl, ground arith, le) ok)
  | inr more ↦ rw more (with_adder-AdderOk true g f t (adds (b + 1)) (ground arith) ok)
]
end_of_block-SumsOk false g t b f ok le =
    let g' = if ltb g b then b else g in
    let grows : g ≤ g' = ground arith in
    let far : b ≤ g' = ground arith in
    with_adder-AdderOk false g' f t (adds (b + 1)) (omega arith)
      (λ u. AdderOk-later g g' (f u) grows (ok u))

-- In every state that the threads and the signal reach: a thread that adds up a block is at most one
-- block beyond the counter, and a thread that has stopped did so with the block of the counter or
-- with the next one, after the signal.
pub Adding-SumsOk : (s : Sums) → Adding s → SumsOk s
unfolding begun AdderOk
Adding-SumsOk s at_start = λ t. omega arith
Adding-SumsOk s (block_ends {s = before} t b r e) =
    let ok = Adding-SumsOk before r in
    end_of_block-SumsOk before.stop_computations before.global_iter_counter t b before.adder ok
      (subst (AdderOk before.stop_computations before.global_iter_counter) e (ok t))
Adding-SumsOk s (signalled {s = before} r) = λ t.
    AdderOk-stop before.stop_computations before.global_iter_counter (before.adder t)
      (Adding-SumsOk before r t)
