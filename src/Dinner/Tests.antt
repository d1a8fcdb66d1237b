-- ===== src/Dinner/Tests.antt =====
-- The first steps of a dinner.
use sys_prog.Prelude.{ℕ, ◌≡◌, refl, none, some, arith, inl}
use sys_prog.Dinner.{
  asks, wants_first, wants_second, eats, Table, with_value, food_on_table, served, get_fork,
  philosopher, laid, Dinner, sit_down, and_then, min_fork, max_fork, left_fork,
}
use sys_prog.Dinner.Dishes.{IsServed, Dinner-IsServed}
use sys_prog.Dinner.Forks.{Dinner-exclusive}
use sys_prog.Dinner.Progress.{GoesOn, Dinner-GoesOn}

-- The philosopher 4 eats.
abbrev one_eats : Table
one_eats = record {
  forks = with_value (with_value (λ k. none) 0 (some 4)) 4 (some 4);
  food = 49;
  dishes = 1;
  phil =
      with_value (with_value (with_value (λ p. asks) 4 (wants_first 49)) 4 (wants_second 49)) 4
        (eats 49);
}

one_eats-Dinner : Dinner one_eats
unfolding philosopher served food_on_table get_fork laid min_fork max_fork left_fork with_value
one_eats-Dinner =
    and_then 4 (and_then 4 (and_then 4 sit_down (omega arith) refl) (omega arith) refl)
      (omega arith) refl

Dinner-IsServed_example : IsServed 49 1
Dinner-IsServed_example = Dinner-IsServed one_eats one_eats-Dinner

Dinner-exclusive_example : ◌≡◌ {A = ℕ} 4 4
unfolding min_fork max_fork left_fork with_value
Dinner-exclusive_example =
    Dinner-exclusive one_eats 4 4 0 49 49 one_eats-Dinner refl refl (inl refl) (inl refl)

Dinner-GoesOn_example : GoesOn one_eats
unfolding with_value
Dinner-GoesOn_example = Dinner-GoesOn one_eats 0 one_eats-Dinner (omega arith) (λ e. ground arith)
