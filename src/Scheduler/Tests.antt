-- ===== src/Scheduler/Tests.antt =====
-- Runs of the scheduler.
use sys_prog.Prelude.{
  ◌+◌, ◌≡◌, refl, true, some, none, ◌==◌, if◌then◌else◌, List, [], ◌∷◌, arith, pos,
}
use sys_prog.Scheduler.{
  Info, Heap, thread, running, blocked, Sched, initial, scheduler_setup, write, load, set_next,
  set_prev, set_info, new_thread, find_ready, choose_ready_thread, unlink, exit_thread,
  push_thread_to_tail, block_thread, find_blocked, wake_thread, timer_tick, current_thread,
}
use sys_prog.Scheduler.Spec.{Queue, choose, create, suspend, wake, pass_time}
use sys_prog.Scheduler.Implements.{Implements, Gives}
use sys_prog.Scheduler.Refines.{timer_tick-pass_time}
use sys_prog.Scheduler.Valid.{IsValid}
use sys_prog.Scheduler.History.{
  Event, start, wait, notify, clock, call, calls, effect, effects, AllAllowed, empty,
  calls-effects_of_setup, wake_thread-none,
}
use sys_prog.Scheduler.Main.{main_lines, passes, max_time_on_cpu}

-- The assertions of `main` hold.
main_passes :
    passes 10 (main_lines (λ n. n + 1)) (scheduler_setup max_time_on_cpu initial) ≡ some true
unfolding passes main_lines scheduler_setup write load set_next set_prev set_info new_thread
    find_ready choose_ready_thread unlink exit_thread push_thread_to_tail block_thread find_blocked
    wake_thread timer_tick current_thread call
main_passes = refl

-- Two threads: the first runs, the second is blocked; the slice is one tick.
abbrev info_a : Info
info_a = record { thread_id = pos 7; time_quantums = 0; state = running }

abbrev info_b : Info
info_b = record { thread_id = pos 8; time_quantums = 0; state = blocked }

abbrev two_heap : Heap
two_heap a =
    if a == 1 then some (thread info_a 2 0) else if a == 2 then some (thread info_b 0 1) else none

abbrev two_threads : Sched
two_threads = record {
  max_time_on_cpu = 1;
  threads_queue = 1;
  tail_threads_queue = 2;
  running_thread = 1;
  heap = two_heap;
}

abbrev two_cells : Queue
two_cells = record { cells = (1, info_a) ∷ (2, info_b) ∷ []; run = 1; slice = 1 }

two-Implements : Implements two_threads two_cells
two-Implements = record {
  slice = refl;
  run = refl;
  head = refl;
  tail = refl;
  chain = (omega arith, refl, refl, (omega arith, refl, refl, tt));
}

two-IsValid : IsValid two_cells
two-IsValid = record {
  listed = λ n. refl;
  good = (omega arith, refl, refl, (omega arith, refl, refl, tt));
  busy = λ z. absurd (omega arith);
}

abbrev some_calls : List Event
some_calls = start 1 (pos 7) ∷ start 2 (pos 8) ∷ clock ∷ wait ∷ notify (pos 8) ∷ []

some_calls-AllAllowed : AllAllowed some_calls (empty 1)
unfolding effect create pass_time suspend wake choose
some_calls-AllAllowed = ((omega arith, refl), ((omega arith, refl), (tt, (tt, (omega arith, tt)))))

calls-effects_of_setup_example :
    (t : Sched) × (calls 10 some_calls (scheduler_setup 1 initial) ≡ some t)
    × Implements t (effects some_calls (empty 1))
    × IsValid (effects some_calls (empty 1))
calls-effects_of_setup_example =
    calls-effects_of_setup 1 10 some_calls some_calls-AllAllowed (omega arith)

wake_thread-none_example : wake_thread 5 (pos 9) two_threads ≡ none
wake_thread-none_example =
    wake_thread-none 5 (pos 9) two_threads two_cells two-Implements refl (omega arith) (omega arith)

timer_tick-pass_time_example : Gives (timer_tick 5 two_threads) (pass_time two_cells)
timer_tick-pass_time_example =
    timer_tick-pass_time 5 two_threads two_cells two-Implements (λ n. refl) (omega arith)
