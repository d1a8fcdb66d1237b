-- ===== src/Dinner.antt =====
-- pthreads/laboratory_work_#9/main.c: the dining philosophers, who take the fork with the smaller
-- number first. A mutex is its owner; a lock of a taken fork is a step that cannot be taken.
pub mod Forks
pub mod Dishes
pub mod Progress
mod Tests
use sys_prog.Prelude.{
  ℕ, zero, suc, ◌+◌, ◌-◌, ◌<◌, ◌≡◌, Bool, true, false, Option, none, some, ◌==◌, ltb, if◌then◌else◌,
}

abbrev pub philo : ℕ
philo = 5

abbrev pub food_at_first : ℕ
food_at_first = 50

-- The forks of a philosopher: the right one has its number, the left one is the next, around the
-- table.
unfoldable pub left_fork : ℕ → ℕ
left_fork id = if id + 1 == philo then 0 else id + 1

-- MIN(right_fork, left_fork) and MAX(left_fork, right_fork)
unfoldable pub min_fork : ℕ → ℕ
min_fork id = if ltb id (left_fork id) then id else left_fork id

unfoldable pub max_fork : ℕ → ℕ
max_fork id = if ltb (left_fork id) id then id else left_fork id

-- Before food_on_table, before each get_fork, eating, before each unlock of down_forks, and after the
-- loop; the number is the dish.
pub data Phil : Type 0 where
  asks : Phil
  wants_first : ℕ → Phil
  wants_second : ℕ → Phil
  eats : ℕ → Phil
  downs_second : ℕ → Phil
  downs_first : ℕ → Phil
  leaves_table : Phil

-- `dishes` counts the calls of food_on_table that gave a dish.
pub record Table : Type 0 where
  pub forks : ℕ → Option ℕ
  pub food : ℕ
  pub dishes : ℕ
  pub phil : ℕ → Phil

unfoldable pub with_value : {A : Type 0} → (ℕ → A) → ℕ → A → ℕ → A
with_value f i a j = if i == j then a else f j

abbrev pub go : ℕ → Phil → Table → Table
go p x t = record t { phil = with_value t.phil p x }

-- The new value of the static variable, which is also the result.
unfoldable pub food_on_table : ℕ → ℕ
food_on_table food = if ltb 0 food then food - 1 else food

unfoldable pub served : ℕ → ℕ → Table → Table
served p zero t = go p leaves_table t
served p (suc f) t = go p (wants_first (suc f)) (record t { dishes = t.dishes + 1 })

-- pthread_mutex_lock of a fork.
unfoldable pub get_fork : (p k : ℕ) → Phil → Table → Option Table
get_fork p k x t = elim (t.forks k) [
  | none ↦ some (go p x (record t { forks = with_value t.forks k (some p) }))
  | some q ↦ none
]

abbrev pub down_fork : (p k : ℕ) → Phil → Table → Table
down_fork p k x t = go p x (record t { forks = with_value t.forks k none })

unfoldable pub philosopher : ℕ → Phil → Table → Option Table
philosopher p asks t =
    some (served p (food_on_table t.food) (record t { food = food_on_table t.food }))
philosopher p (wants_first f) t = get_fork p (min_fork p) (wants_second f) t
philosopher p (wants_second f) t = get_fork p (max_fork p) (eats f) t
philosopher p (eats f) t = some (go p (downs_second f) t)
philosopher p (downs_second f) t = some (down_fork p (max_fork p) (downs_first f) t)
philosopher p (downs_first f) t = some (down_fork p (min_fork p) asks t)
philosopher p leaves_table t = none

unfoldable pub laid : Table
laid = record { forks = λ k. none; food = food_at_first; dishes = 0; phil = λ p. asks }

-- The dinners: one philosopher after another takes a step.
pub data Dinner : Table → Type 0 where
  sit_down : Dinner laid
  and_then :
      {s t : Table} (p : ℕ) → Dinner s → p < philo → philosopher p (s.phil p) s ≡ some t → Dinner t
