-- ===== src/Dinner/Forks.antt =====
-- Who has which fork, and that the dinner does not stop.
use sys_prog.Prelude.{
  ℕ, zero, suc, ◌<◌, ◌≡◌, ◌≢◌, refl, sym, subst, ◌∙◌, Option, none, some, arith, Option-cases,
  ℕ_discrete, eq→==, ne→==, inl, inr, ◌⊎◌,
}
use sys_prog.Dinner.{
  Phil, asks, wants_first, wants_second, eats, downs_second, downs_first, leaves_table, Table,
  with_value, food_on_table, served, get_fork, down_fork, philosopher, laid, Dinner, sit_down,
  and_then, philo, left_fork, min_fork, max_fork,
}
use sys_prog.Dinner.Dishes.{Leaves}

module _ {A : Type 0} (f : ℕ → A) (i : ℕ) (a : A) where
  with_value-same : with_value f i a i ≡ a
  unfolding with_value
  with_value-same = rw (eq→== i i refl) refl

  pub with_value-other : (j : ℕ) → i ≢ j → with_value f i a j ≡ f j
  unfolding with_value
  with_value-other j h = rw (ne→== i j h) refl

-- The fork with the smaller number is another one, and both are on the table.
pub min_fork-lt : (p : ℕ) → p < philo → (min_fork p < max_fork p) × (max_fork p < philo)
unfolding min_fork max_fork left_fork
min_fork-lt p lt = (ground arith, ground arith)

-- Whether a philosopher has a fork where it stands.
unfoldable pub Has : Phil → ℕ → ℕ → Type 0
Has asks p k = ⊥
Has (wants_first f) p k = ⊥
Has (wants_second f) p k = k ≡ min_fork p
Has (eats f) p k = (k ≡ min_fork p) ⊎ (k ≡ max_fork p)
Has (downs_second f) p k = (k ≡ min_fork p) ⊎ (k ≡ max_fork p)
Has (downs_first f) p k = k ≡ min_fork p
Has leaves_table p k = ⊥

-- A philosopher has exactly the forks that it owns.
pub record PhilOk (forks : ℕ → Option ℕ) (p : ℕ) (x : Phil) : Type 0 where
  pub has : (k : ℕ) → forks k ≡ some p → Has x p k
  pub owns : (k : ℕ) → Has x p k → forks k ≡ some p

abbrev pub ForksOk : Table → Type 0
ForksOk t = (p : ℕ) → PhilOk t.forks p (t.phil p)

go-ForksOk :
    (forks : ℕ → Option ℕ) (phil : ℕ → Phil) (p : ℕ) (x : Phil)
    → PhilOk forks p x
    → ((q : ℕ) → p ≢ q → PhilOk forks q (phil q))
    → (q : ℕ) → PhilOk forks q (with_value phil p x q)
go-ForksOk forks phil p x mine others q = elim (ℕ_discrete p q) [
  | yes same ↦
      subst (λ q. PhilOk forks q (with_value phil p x q)) same
        (subst (PhilOk forks p) (sym (with_value-same phil p x)) mine)
  | no other ↦ subst (PhilOk forks q) (sym (with_value-other phil p x q other)) (others q other)
]

-- A fork that is taken or put down changes nothing for the others.
other-PhilOk :
    (forks : ℕ → Option ℕ) (p k : ℕ) (o : Option ℕ) (q : ℕ) (x : Phil)
    → p ≢ q
    → ((forks k ≡ none) × (o ≡ some p)) ⊎ ((forks k ≡ some p) × (o ≡ none))
    → PhilOk forks q x
    → PhilOk (with_value forks k o) q x
unfolding with_value
other-PhilOk forks p k o q x ne h ok = record {
  has = λ j e. ok.has j (ground arith);
  owns = λ j e. let old = ok.owns j e in ground arith;
}

-- A philosopher that takes the fork k, or puts it down, and has the others as before.
taken-PhilOk :
    (forks : ℕ → Option ℕ) (p k : ℕ) (x y : Phil)
    → PhilOk forks p x
    → ((j : ℕ) → Has y p j → (j ≡ k) ⊎ Has x p j)
    → ((j : ℕ) → Has x p j → Has y p j)
    → Has y p k
    → PhilOk (with_value forks k (some p)) p y
unfolding with_value
taken-PhilOk forks p k x y ok a b c = record {
  has = λ j e. elim (ℕ_discrete k j) [
    | yes same ↦ subst (λ j. Has y p j) same c
    | no other ↦ b j (ok.has j (sym (with_value-other forks k (some p) j other) ∙ e))
  ];
  owns = λ j e. elim (a j e) [
    | inl same ↦ ground arith
    | inr had ↦ let old = ok.owns j had in ground arith
  ];
}

down-PhilOk :
    (forks : ℕ → Option ℕ) (p k : ℕ) (x y : Phil)
    → PhilOk forks p x
    → ((j : ℕ) → Has y p j → Has x p j × (k ≢ j))
    → ((j : ℕ) → k ≢ j → Has x p j → Has y p j)
    → PhilOk (with_value forks k none) p y
unfolding with_value
down-PhilOk forks p k x y ok a b = record {
  has = λ j e. elim (ℕ_discrete k j) [
    | yes same ↦ absurd (ground arith)
    | no other ↦ b j other (ok.has j (sym (with_value-other forks k none j other) ∙ e))
  ];
  owns = λ j e. let (had, other) = a j e in with_value-other forks k none j other ∙ ok.owns j had;
}

module _ (p : ℕ) (t : Table) (lt : p < philo) (ok : ForksOk t) where
  get_fork-ForksOk :
      (k : ℕ) (x y : Phil)
      → PhilOk t.forks p x
      → ((j : ℕ) → Has y p j → (j ≡ k) ⊎ Has x p j)
      → ((j : ℕ) → Has x p j → Has y p j)
      → Has y p k
      → Leaves ForksOk (get_fork p k y t)
  unfolding get_fork Leaves
  get_fork-ForksOk k x y mine a b c = elim (Option-cases (t.forks k)) [
    | inl nobody ↦
        rw (get_fork, nobody)
          (go-ForksOk _ t.phil p y (taken-PhilOk t.forks p k x y mine a b c)
            (λ q ne. other-PhilOk t.forks p k (some p) q (t.phil q) ne (inl (nobody, refl)) (ok q)))
    | inr (q, taken) ↦ rw (get_fork, taken) tt
  ]

  down_fork-ForksOk :
      (k : ℕ) (x y : Phil)
      → PhilOk t.forks p x
      → Has x p k
      → ((j : ℕ) → Has y p j → Has x p j × (k ≢ j))
      → ((j : ℕ) → k ≢ j → Has x p j → Has y p j)
      → ForksOk (down_fork p k y t)
  down_fork-ForksOk k x y mine had a b =
      go-ForksOk _ t.phil p y (down-PhilOk t.forks p k x y mine a b)
        (λ q ne. other-PhilOk t.forks p k none q (t.phil q) ne (inr (mine.owns k had, refl)) (ok q))

  served-ForksOk : (n : ℕ) → PhilOk t.forks p asks → ForksOk (served p n (record t { food = n }))
  unfolding served Has
  served-ForksOk zero mine =
      go-ForksOk t.forks t.phil p leaves_table (record { has = mine.has; owns = mine.owns })
        (λ q ne. ok q)
  served-ForksOk (suc n) mine =
      go-ForksOk t.forks t.phil p _ (record { has = mine.has; owns = mine.owns }) (λ q ne. ok q)

  philosopher-ForksOk : (x : Phil) → PhilOk t.forks p x → Leaves ForksOk (philosopher p x t)
  unfolding philosopher Leaves Has
  philosopher-ForksOk asks mine = served-ForksOk (food_on_table t.food) mine
  philosopher-ForksOk (wants_first f) mine =
      get_fork-ForksOk (min_fork p) (wants_first f) (wants_second f) mine (λ j e. inl e)
        (λ j e. absurd e) refl
  philosopher-ForksOk (wants_second f) mine =
      get_fork-ForksOk (max_fork p) (wants_second f) (eats f) mine
        (λ j e. elim e [ inl l ↦ inr l | inr r ↦ inl r ]) (λ j e. inl e) (inr refl)
  philosopher-ForksOk (eats f) mine =
      go-ForksOk t.forks t.phil p _ (record { has = mine.has; owns = mine.owns }) (λ q ne. ok q)
  philosopher-ForksOk (downs_second f) mine =
      let (less, inside) = min_fork-lt p lt in
      down_fork-ForksOk (max_fork p) (downs_second f) (downs_first f) mine (inr refl)
        (λ j e. (inl e, (λ same. absurd (omega arith))))
        (λ j ne e. elim e [ inl l ↦ l | inr r ↦ absurd (ne (sym r)) ])
  philosopher-ForksOk (downs_first f) mine =
      down_fork-ForksOk (min_fork p) (downs_first f) asks mine refl (λ j e. absurd e)
        (λ j ne e. absurd (ne (sym e)))
  philosopher-ForksOk leaves_table mine = tt

pub Dinner-ForksOk : (t : Table) → Dinner t → ForksOk t
unfolding laid Leaves Has
Dinner-ForksOk t sit_down =
    λ p. record { has = λ k e. absurd (ground arith); owns = λ k e. absurd e }
Dinner-ForksOk t (and_then {s = before} p r lt eq) =
    let ok = Dinner-ForksOk before r in
    subst (Leaves ForksOk) eq (philosopher-ForksOk p before lt ok (before.phil p) (ok p))

-- In every dinner, two philosophers who eat have no fork in common.
pub Dinner-exclusive :
    (t : Table) (p q k f g : ℕ)
    → Dinner t
    → t.phil p ≡ eats f
    → t.phil q ≡ eats g
    → (k ≡ min_fork p) ⊎ (k ≡ max_fork p)
    → (k ≡ min_fork q) ⊎ (k ≡ max_fork q)
    → p ≡ q
unfolding Has
Dinner-exclusive t p q k f g r ep eq hp hq =
    let ok = Dinner-ForksOk t r in
    let a : t.forks k ≡ some p = (ok p).owns k (subst (λ x. Has x p k) (sym ep) hp) in
    let b : t.forks k ≡ some q = (ok q).owns k (subst (λ x. Has x q k) (sym eq) hq) in ground arith
