-- ===== src/Dinner/Progress.antt =====
-- No deadlock: each philosopher who waits for a fork waits for one with a greater number than the one
-- it has.
use sys_prog.Prelude.{
  ℕ, zero, suc, ◌+◌, ◌≤◌, ◌<◌, ◌≡◌, ◌≢◌, refl, sym, subst, ◌∙◌, none, some, arith, Option-cases,
  inl, inr,
}
use sys_prog.Dinner.{
  Phil, asks, wants_first, wants_second, eats, downs_second, downs_first, leaves_table, Table,
  with_value, go, food_on_table, served, get_fork, philosopher, laid, Dinner, sit_down, and_then,
  philo, min_fork, max_fork,
}
use sys_prog.Dinner.Dishes.{Leaves}
use sys_prog.Dinner.Forks.{Has, ForksOk, Dinner-ForksOk, min_fork-lt, with_value-other}

-- Nobody else sits at the table.
abbrev RestAsks : Table → Type 0
RestAsks t = (q : ℕ) → philo ≤ q → t.phil q ≡ asks

module _ (p : ℕ) (t : Table) (lt : p < philo) (rest : RestAsks t) where
  go-RestAsks : (x : Phil) (q : ℕ) → philo ≤ q → with_value t.phil p x q ≡ asks
  go-RestAsks x q le = with_value-other t.phil p x q (omega arith) ∙ rest q le

  get_fork-RestAsks : (k : ℕ) (x : Phil) → Leaves RestAsks (get_fork p k x t)
  unfolding get_fork Leaves
  get_fork-RestAsks k x = elim (Option-cases (t.forks k)) [
    | inl nobody ↦ rw (get_fork, nobody) (go-RestAsks x)
    | inr (q, taken) ↦ rw (get_fork, taken) tt
  ]

  served-RestAsks : (n : ℕ) → RestAsks (served p n (record t { food = n }))
  unfolding served
  served-RestAsks zero = go-RestAsks _
  served-RestAsks (suc n) = go-RestAsks _

  philosopher-RestAsks : (x : Phil) → Leaves RestAsks (philosopher p x t)
  unfolding philosopher Leaves
  philosopher-RestAsks asks = served-RestAsks (food_on_table t.food)
  philosopher-RestAsks (wants_first f) = get_fork-RestAsks _ _
  philosopher-RestAsks (wants_second f) = get_fork-RestAsks _ _
  philosopher-RestAsks (eats f) = go-RestAsks _
  philosopher-RestAsks (downs_second f) = go-RestAsks _
  philosopher-RestAsks (downs_first f) = go-RestAsks _
  philosopher-RestAsks leaves_table = tt

Dinner-RestAsks : (t : Table) → Dinner t → RestAsks t
unfolding laid Leaves
Dinner-RestAsks t sit_down = λ q le. refl
Dinner-RestAsks t (and_then {s = before} p r lt eq) =
    subst (Leaves RestAsks) eq
      (philosopher-RestAsks p before lt (Dinner-RestAsks before r) (before.phil p))

-- Some philosopher takes a step.
abbrev pub GoesOn : Table → Type 0
GoesOn t = (p : ℕ) × (p < philo) × (t' : Table) × (philosopher p (t.phil p) t ≡ some t')

get_fork-free :
    (p k : ℕ) (x : Phil) (t : Table)
    → t.forks k ≡ none
    → (t' : Table) × (get_fork p k x t ≡ some t')
unfolding get_fork
get_fork-free p k x t h =
    (go p x (record t { forks = with_value t.forks k (some p) }), rw (get_fork, h) refl)

module _ (t : Table) (ok : ForksOk t) (rest : RestAsks t) where
  sits : (q k : ℕ) → Has (t.phil q) q k → q < philo
  unfolding Has
  sits q k h = let out : ¬ (philo ≤ q) = λ le. subst (λ x. Has x q k) (rest q le) h in omega arith

  moves :
      (p : ℕ) (x : Phil) (t' : Table)
      → p < philo
      → t.phil p ≡ x
      → philosopher p x t ≡ some t'
      → GoesOn t
  moves p x t' lt at e = (p, lt, t', subst (λ x. philosopher p x t ≡ some t') (sym at) e)

  -- Who has a fork goes on, or it waits for a fork with a greater number, and then the owner of that
  -- one does; `n` is how many numbers are left above.
  has-GoesOn : (n k q : ℕ) (x : Phil) → philo ≤ k + n → t.phil q ≡ x → Has x q k → GoesOn t
  unfolding Has philosopher
  has-GoesOn n k q asks le at h = absurd h
  has-GoesOn n k q (wants_first f) le at h = absurd h
  has-GoesOn zero k q (wants_second f) le at h =
      let lt : q < philo = sits q k (subst (λ x. Has x q k) (sym at) h) in
      let (less, inside) = min_fork-lt q lt in absurd (omega arith)
  has-GoesOn (suc n) k q (wants_second f) le at h =
      let lt : q < philo = sits q k (subst (λ x. Has x q k) (sym at) h) in
      let (less, inside) = min_fork-lt q lt in
      elim (Option-cases (t.forks (max_fork q))) [
        | inl nobody ↦
            let (t', e) = get_fork-free q (max_fork q) (eats f) t nobody in
            moves q (wants_second f) t' lt at e
        | inr (r, taken) ↦
            has-GoesOn n (max_fork q) r (t.phil r) (omega arith) refl
              ((ok r).has (max_fork q) taken)
      ]
  has-GoesOn n k q (eats f) le at h =
      moves q (eats f) _ (sits q k (subst (λ x. Has x q k) (sym at) h)) at refl
  has-GoesOn n k q (downs_second f) le at h =
      moves q (downs_second f) _ (sits q k (subst (λ x. Has x q k) (sym at) h)) at refl
  has-GoesOn n k q (downs_first f) le at h =
      moves q (downs_first f) _ (sits q k (subst (λ x. Has x q k) (sym at) h)) at refl
  has-GoesOn n k q leaves_table le at h = absurd h

  -- The fork is free, or its owner or somebody behind it goes on.
  fork-GoesOn :
      (p k : ℕ) (x y : Phil)
      → p < philo
      → t.phil p ≡ x
      → philosopher p x t ≡ get_fork p k y t
      → GoesOn t
  fork-GoesOn p k x y lt at wants = elim (Option-cases (t.forks k)) [
    | inl nobody ↦ let (t', e) = get_fork-free p k y t nobody in moves p x t' lt at (wants ∙ e)
    | inr (q, taken) ↦ has-GoesOn philo k q (t.phil q) (omega arith) refl ((ok q).has k taken)
  ]

  phil-GoesOn : (p : ℕ) (x : Phil) → p < philo → t.phil p ≡ x → x ≢ leaves_table → GoesOn t
  unfolding philosopher
  phil-GoesOn p asks lt at h = moves p asks _ lt at refl
  phil-GoesOn p (wants_first f) lt at h =
      fork-GoesOn p (min_fork p) (wants_first f) (wants_second f) lt at refl
  phil-GoesOn p (wants_second f) lt at h =
      fork-GoesOn p (max_fork p) (wants_second f) (eats f) lt at refl
  phil-GoesOn p (eats f) lt at h = moves p (eats f) _ lt at refl
  phil-GoesOn p (downs_second f) lt at h = moves p (downs_second f) _ lt at refl
  phil-GoesOn p (downs_first f) lt at h = moves p (downs_first f) _ lt at refl
  phil-GoesOn p leaves_table lt at h = absurd (h refl)

-- In every dinner in which a philosopher has not left, some philosopher takes a step: there is no
-- deadlock.
pub Dinner-GoesOn : (t : Table) (p : ℕ) → Dinner t → p < philo → t.phil p ≢ leaves_table → GoesOn t
Dinner-GoesOn t p r lt h =
    phil-GoesOn t (Dinner-ForksOk t r) (Dinner-RestAsks t r) p (t.phil p) lt refl h
