-- ===== src/Scheduler/Main.antt =====
-- os-internals/round_robin/src/main.c: the calls of the scheduler that `main` makes, and its
-- assertions on `current_thread`.
use sys_prog.Prelude.{
  ℕ, zero, suc, ◌*◌, Bool, true, false, Option, none, some, List, [], ◌∷◌, ◌++◌, ℤ, pos, negsuc,
}
use sys_prog.Scheduler.{Ptr, Sched, current_thread, id_eq}
use sys_prog.Scheduler.History.{Event, start, stop, wait, notify, clock, call}

abbrev pub max_time_on_cpu : ℕ
max_time_on_cpu = 3

-- A call, or assert(current_thread() == id).
pub data Line : Type 0 where
  run : Event → Line
  expect : ℤ → Line

-- The body of the `for` loop, `n` times.
unfoldable pub ticks : ℕ → List Line
ticks zero = []
ticks (suc n) = run clock ∷ expect (pos 2) ∷ ticks n

-- `fresh` gives the addresses that the calls of `malloc` give.
unfoldable pub main_lines : (fresh : ℕ → Ptr) → List Line
unfolding ticks
main_lines fresh =
    ((expect (negsuc 0))
      ∷ (run (start (fresh 0) (pos 0)))
      ∷ (expect (pos 0))
      ∷ (run clock)
      ∷ (run (start (fresh 1) (pos 1)))
      ∷ (expect (pos 0))
      ∷ (run clock)
      ∷ (run (start (fresh 2) (pos 2)))
      ∷ (expect (pos 0))
      ∷ (run clock)
      ∷ (run (start (fresh 3) (pos 3)))
      ∷ (expect (pos 1))
      ∷ (run clock)
      ∷ (expect (pos 1))
      ∷ (run clock)
      ∷ (expect (pos 1))
      ∷ (run clock)
      ∷ (expect (pos 2))
      ∷ (run clock)
      ∷ (expect (pos 2))
      ∷ (run clock)
      ∷ (expect (pos 2))
      ∷ (run clock)
      ∷ (expect (pos 0))
      ∷ (run clock)
      ∷ (run wait)
      ∷ (expect (pos 3))
      ∷ (run clock)
      ∷ (expect (pos 3))
      ∷ (run clock)
      ∷ (expect (pos 3))
      ∷ (run clock)
      ∷ (expect (pos 1))
      ∷ (run clock)
      ∷ (run wait)
      ∷ (expect (pos 2))
      ∷ (run clock)
      ∷ (expect (pos 2))
      ∷ (run clock)
      ∷ (expect (pos 2))
      ∷ (run clock)
      ∷ (expect (pos 3))
      ∷ (run clock)
      ∷ (expect (pos 3))
      ∷ (run clock)
      ∷ (expect (pos 3))
      ∷ (run clock)
      ∷ (expect (pos 2))
      ∷ (run clock)
      ∷ (run (notify (pos 1)))
      ∷ (expect (pos 2))
      ∷ (run clock)
      ∷ (expect (pos 2))
      ∷ (run clock)
      ∷ (expect (pos 3))
      ∷ (run clock)
      ∷ (expect (pos 3))
      ∷ (run clock)
      ∷ (expect (pos 3))
      ∷ (run clock)
      ∷ (expect (pos 1))
      ∷ (run clock)
      ∷ (run stop)
      ∷ (expect (pos 2))
      ∷ (run clock)
      ∷ (run (notify (pos 0)))
      ∷ (expect (pos 2))
      ∷ (run clock)
      ∷ (run wait)
      ∷ (expect (pos 3))
      ∷ (run clock)
      ∷ (run stop)
      ∷ (expect (pos 0))
      ∷ (run clock)
      ∷ (run wait)
      ∷ (expect (negsuc 0))
      ∷ (run clock)
      ∷ (run (notify (pos 2)))
      ∷ (expect (pos 2))
      ∷ [])
    ++ ticks (max_time_on_cpu * 2)
    ++ ((run clock)
        ∷ (run stop)
        ∷ (run (notify (pos 0)))
        ∷ (expect (pos 0))
        ∷ (run stop)
        ∷ (expect (negsuc 0))
        ∷ [])

-- Whether every assertion holds; `none` where a call goes wrong.
unfoldable pub passes : (fuel : ℕ) → List Line → Sched → Option Bool
passes fuel [] s = some true
passes fuel (run e ∷ ls) s = elim (call fuel e s) [ none ↦ none | some t ↦ passes fuel ls t ]
passes fuel (expect id ∷ ls) s = elim (current_thread s) [
  | none ↦ none
  | some j ↦ elim (id_eq j id) [ true ↦ passes fuel ls s | false ↦ some false ]
]
