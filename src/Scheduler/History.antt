-- ===== src/Scheduler/History.antt =====
-- Whole histories of calls, from the state after `scheduler_setup`.
use sys_prog.Prelude.{
  ℕ, ◌+◌, ◌≤◌, ◌<◌, ◌≡◌, ◌≢◌, ◌∙◌, refl, false, inl, inr, Option, none, some, List, [], ◌∷◌, arith,
  ◌==◌, Bool-cases, ==→eq, ap, ℤ, negsuc, length, length-append,
}
use sys_prog.Scheduler.{
  Ptr, null, Sched, ◌>>=◌, running, made, exited, new_thread, exit_thread, block_thread,
  wake_thread, timer_tick, current_thread, scheduler_setup, initial, load, find_blocked,
  push_thread_to_tail, set_state, new_info, ready, tick, reset_state, blocked,
}
use sys_prog.Scheduler.Chain.{Cells, has, modify, remove, Chain-node}
use sys_prog.Scheduler.Implements.{Implements, load-some, find_blocked-first}
use sys_prog.Scheduler.Rotate.{only-node}
use sys_prog.Scheduler.Refines.{
  exit_thread-leave, block_thread-suspend, wake_thread-wake, timer_tick-pass_time, length-modify,
  length-rotate, length-remove,
}
use sys_prog.Scheduler.Create.{new_thread-create}
use sys_prog.Scheduler.Keeps.{
  create-IsValid, leave-IsValid, suspend-IsValid, wake-IsValid, pass_time-IsValid,
}
use sys_prog.Scheduler.Valid.{IsValid, Good-null}
use sys_prog.Scheduler.Spec.{
  Queue, first_ready, first_blocked, only, rotate, choose, create, leave, suspend, wake, pass_time,
}

-- A call of the scheduler; `start` has the address that `malloc` gives.
pub data Event : Type 0 where
  start : Ptr → ℤ → Event
  stop : Event
  wait : Event
  notify : ℤ → Event
  clock : Event

unfoldable pub call : (fuel : ℕ) → Event → Sched → Option Sched
call fuel (start p id) s = elim (new_thread p id s) [ exited ↦ none | made r ↦ r ]
call fuel stop s = exit_thread fuel s
call fuel wait s = block_thread fuel s
call fuel (notify id) s = wake_thread fuel id s
call fuel clock s = timer_tick fuel s

unfoldable pub calls : (fuel : ℕ) → List Event → Sched → Option Sched
calls fuel [] s = some s
calls fuel (e ∷ es) s = do t ← call fuel e s; calls fuel es t

unfoldable pub effect : Event → Queue → Queue
effect (start p id) q = create p id q
effect stop q = leave q
effect wait q = suspend q
effect (notify id) q = wake (first_blocked id q.cells) q
effect clock q = pass_time q

unfoldable pub effects : List Event → Queue → Queue
effects [] q = q
effects (e ∷ es) q = effects es (effect e q)

-- `malloc` gives an address that is in no use, and only a thread that is blocked is woken.
abbrev pub Allowed : Event → Queue → Type 0
Allowed (start p id) q = (p ≢ null) × (has p q.cells ≡ false)
Allowed (notify id) q = first_blocked id q.cells ≢ null
Allowed _ q = Unit {0}

abbrev pub AllAllowed : List Event → Queue → Type 0
AllAllowed [] q = Unit {0}
AllAllowed (e ∷ es) q = Allowed e q × AllAllowed es (effect e q)

length-choose : (q : Queue) → length (choose q).cells ≡ length q.cells
unfolding choose
length-choose q = ground (arith, length-modify (first_ready q.cells) (set_state running) q.cells)

length-effect : (e : Event) (q : Queue) → length (effect e q).cells ≤ length q.cells + 1
unfolding effect create leave suspend wake pass_time
length-effect (start p id) q = ground (
  arith,
  length-append q.cells ((p, set_state running (new_info id)) ∷ []),
  length-append q.cells ((p, new_info id) ∷ []),
)
length-effect stop q =
    ground (
      arith,
      length-choose (record q { cells = remove q.run q.cells }),
      length-remove q.run q.cells,
    )
length-effect wait q = ground (
  arith,
  length-choose (record q { cells = modify q.run (reset_state blocked) q.cells }),
  length-modify q.run (reset_state blocked) q.cells,
)
length-effect (notify id) q =
    let p = first_blocked id q.cells in
    let xs = modify p (set_state ready) q.cells in
    ground (
      arith,
      length-choose (record q { cells = rotate p xs }),
      length-rotate p xs,
      length-modify p (set_state ready) q.cells,
    )
length-effect clock q =
    let xs = modify q.run tick q.cells in
    let ys = modify q.run (reset_state ready) xs in
    ground (
      arith,
      length-choose (record q { cells = rotate q.run ys }),
      length-rotate q.run ys,
      length-modify q.run (reset_state ready) xs,
      length-modify q.run tick q.cells,
    )

call-effect :
    (fuel : ℕ) (e : Event) (s : Sched) (q : Queue)
    → Implements s q
    → IsValid q
    → Allowed e q
    → length q.cells < fuel
    → (t : Sched) × (call fuel e s ≡ some t) × Implements t (effect e q) × IsValid (effect e q)
unfolding call effect
call-effect fuel (start p id) s q m v a f =
    let (t, e, m') = new_thread-create p id a.0 s q m a.1 in
    (t, rw (e, call), m', create-IsValid p id q v a.0 a.1)
call-effect fuel stop s q m v a f =
    let (t, e, m') = exit_thread-leave fuel s q m v.listed f in (t, e, m', leave-IsValid q v)
call-effect fuel wait s q m v a f =
    let (t, e, m') = block_thread-suspend fuel s q m v.listed f in (t, e, m', suspend-IsValid q v)
call-effect fuel (notify id) s q m v a f =
    let (t, e, m') = wake_thread-wake fuel id s q m a f in (t, e, m', wake-IsValid id q v a)
call-effect fuel clock s q m v a f =
    let (t, e, m') = timer_tick-pass_time fuel s q m v.listed f in (t, e, m', pass_time-IsValid q v)

calls-effects :
    (fuel : ℕ) (es : List Event) (s : Sched) (q : Queue)
    → Implements s q
    → IsValid q
    → AllAllowed es q
    → length q.cells + length es < fuel
    → (t : Sched) × (calls fuel es s ≡ some t)
      × Implements t (effects es q)
      × IsValid (effects es q)
unfolding calls effects
calls-effects fuel [] s q m v a f = (s, refl, m, v)
calls-effects fuel (e ∷ es) s q m v a f =
    let (t, c, m', v') = call-effect fuel e s q m v a.0 (omega arith) in
    rw c (calls-effects fuel es t (effect e q) m' v' a.1 (omega (arith, length-effect e q)))

abbrev pub empty : ℕ → Queue
empty timeslice = record { cells = []; run = null; slice = timeslice }

-- For every time slice and every history of allowed calls after `scheduler_setup`, with fuel for
-- more threads than there are calls: each call returns (no access through NULL, no endless walk),
-- and the final state stands for the queue that the specification gives, in which the threads are
-- different nodes, exactly the thread with the CPU is RUNNING, and the CPU is idle only where no
-- thread is READY.
pub calls-effects_of_setup :
    (timeslice fuel : ℕ) (es : List Event)
    → AllAllowed es (empty timeslice)
    → length es < fuel
    → (t : Sched) × (calls fuel es (scheduler_setup timeslice initial) ≡ some t)
      × Implements t (effects es (empty timeslice))
      × IsValid (effects es (empty timeslice))
unfolding scheduler_setup
calls-effects_of_setup timeslice fuel es a f =
    calls-effects fuel es _ (empty timeslice)
      (record { slice = refl; run = refl; head = refl; tail = refl; chain = tt })
      (record { listed = λ n. absurd (n refl); good = tt; busy = λ _. refl }) a (omega arith)

only-none : (p : Ptr) (xs : Cells) → has p xs ≡ false → only p xs ≡ []
only-none p [] o = refl
only-none p ((q, d) ∷ xs) o = ground (arith, only-none p xs)

-- In a state that stands for a valid queue, `current_thread` is the id of the thread that has the
-- CPU, and -1 where it is idle.
pub current_thread-only :
    (s : Sched) (q : Queue)
    → Implements s q
    → IsValid q
    → current_thread s
      ≡ some (elim (only q.run q.cells) [ [] ↦ negsuc 0 | (p, d) ∷ _ ↦ d.thread_id ])
unfolding current_thread
current_thread-only s q m v = rw m.run (elim (Bool-cases (q.run == null)) [
  | inl idle ↦
      let alone : only q.run q.cells ≡ [] =
        rw (==→eq q.run null idle) (only-none null q.cells (Good-null q.run q.cells v.good)) in
      rw (idle, alone)
  | inr busy ↦
      let i = v.listed (ground arith) in
      let (t, e, n) = Chain-node s.heap q.cells null q.run m.chain i in
      rw (busy, load-some s.heap q.run t e n, only-node s.heap q.cells null q.run t m.chain i e)
])

-- Where no thread with the id is blocked and the queue is not empty, `wake_thread` reads through
-- NULL: it passes NULL on to `push_thread_to_tail`.
pub wake_thread-none :
    (fuel : ℕ) (id : ℤ) (s : Sched) (q : Queue)
    → Implements s q
    → first_blocked id q.cells ≡ null
    → s.tail_threads_queue ≢ null
    → length q.cells < fuel
    → wake_thread fuel id s ≡ none
unfolding wake_thread push_thread_to_tail load
wake_thread-none fuel id s q m z n f =
    let found : find_blocked fuel id s.heap s.threads_queue ≡ some null =
      rw m.head (find_blocked-first fuel id s.heap q.cells null f m.chain ∙ ap some z) in
    let inside : (null == s.tail_threads_queue) ≡ false = ground arith in rw (found, inside)
