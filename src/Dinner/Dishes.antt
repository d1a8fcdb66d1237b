-- ===== src/Dinner/Dishes.antt =====
-- How many dishes are eaten.
use sys_prog.Prelude.{
  ℕ, zero, suc, ◌+◌, ◌<◌, ◌≡◌, refl, subst, Option, none, some, arith, Option-cases, inl, inr, ◌⊎◌,
}
use sys_prog.Dinner.{
  Phil, asks, wants_first, wants_second, eats, downs_second, downs_first, leaves_table, Table,
  food_on_table, served, get_fork, philosopher, laid, Dinner, sit_down, and_then,
}

unfoldable pub Leaves : (Table → Type 0) → Option Table → Type 0
Leaves P none = Unit
Leaves P (some s) = P s

-- The food that is left, and the dishes that have been given.
abbrev pub IsServed : ℕ → ℕ → Type 0
IsServed food dishes = ((0 < food) × (food + dishes ≡ 50)) ⊎ ((food ≡ 0) × (dishes ≡ 49))

abbrev FoodOk : Table → Type 0
FoodOk t = IsServed t.food t.dishes

served-FoodOk :
    (p n : ℕ) (t : Table)
    → ((0 < n) × (n + t.dishes ≡ 49)) ⊎ ((n ≡ 0) × (t.dishes ≡ 49))
    → FoodOk (served p n (record t { food = n }))
unfolding served
served-FoodOk p zero t h = elim h [ inl l ↦ absurd (omega arith) | inr r ↦ inr r ]
served-FoodOk p (suc n) t h = elim h [
  | inl l ↦ inl (omega arith, omega arith)
  | inr r ↦ absurd (omega arith)
]

get_fork-FoodOk : (p k : ℕ) (x : Phil) (t : Table) → FoodOk t → Leaves FoodOk (get_fork p k x t)
unfolding get_fork Leaves
get_fork-FoodOk p k x t h = elim (Option-cases (t.forks k)) [
  | inl nobody ↦ rw (get_fork, nobody) h
  | inr (q, taken) ↦ rw (get_fork, taken) tt
]

food_on_table-served :
    (n d : ℕ)
    → IsServed n d
    → ((0 < food_on_table n) × (food_on_table n + d ≡ 49)) ⊎ ((food_on_table n ≡ 0) × (d ≡ 49))
unfolding food_on_table
food_on_table-served zero d h = elim h [ inl l ↦ absurd (omega arith) | inr r ↦ inr (refl, r.1) ]
food_on_table-served (suc zero) d h = elim h [
  | inl l ↦ inr (refl, omega arith)
  | inr r ↦ absurd (omega arith)
]
food_on_table-served (suc (suc n)) d h = elim h [
  | inl l ↦
      let less : food_on_table (suc (suc n)) ≡ suc n = ground arith in
      inl (omega arith, omega arith)
  | inr r ↦ absurd (omega arith)
]

philosopher-FoodOk : (p : ℕ) (x : Phil) (t : Table) → FoodOk t → Leaves FoodOk (philosopher p x t)
unfolding philosopher Leaves
philosopher-FoodOk p asks t h =
    served-FoodOk p (food_on_table t.food) t (food_on_table-served t.food t.dishes h)
philosopher-FoodOk p (wants_first f) t h = get_fork-FoodOk p _ _ t h
philosopher-FoodOk p (wants_second f) t h = get_fork-FoodOk p _ _ t h
philosopher-FoodOk p (eats f) t h = h
philosopher-FoodOk p (downs_second f) t h = h
philosopher-FoodOk p (downs_first f) t h = h
philosopher-FoodOk p leaves_table t h = tt

-- In every dinner, the food that is left and the dishes that have been given are 50 together, until
-- no food is left: then 49 dishes have been given.
pub Dinner-IsServed : (t : Table) → Dinner t → IsServed t.food t.dishes
unfolding laid Leaves
Dinner-IsServed t sit_down = inl (omega arith, refl)
Dinner-IsServed t (and_then {s = before} p r lt eq) =
    subst (Leaves FoodOk) eq
      (philosopher-FoodOk p (before.phil p) before (Dinner-IsServed before r))
