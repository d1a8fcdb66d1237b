-- ===== src/Scheduler.antt =====
-- os-internals/round_robin/src/scheduler.c and scheduler.h: the round robin scheduler. The threads
-- are nodes of a doubly linked list in an explicit heap; a result `none` is a read or write through
-- NULL or a pointer to no node, or a loop whose fuel ran out.
pub mod Chain
mod Links
mod Append
pub mod Spec
pub mod Implements
mod Unlinked
mod Rotate
pub mod Refines
pub mod Create
pub mod Valid
pub mod Keeps
pub mod History
pub mod Main
mod Tests
use sys_prog.Prelude.{
  ℕ, zero, suc, ◌+◌, Bool, true, false, ◌&&◌, Option, none, some, ◌==◌, leb, if◌then◌else◌, ℤ, pos,
  negsuc,
}

abbrev pub Ptr : Type 0
Ptr = ℕ

abbrev pub null : Ptr
null = 0

-- enum states
pub data ThreadState : Type 0 where
  running ready blocked : ThreadState

abbrev pub is_ready : ThreadState → Bool
is_ready ready = true
is_ready running = false
is_ready blocked = false

abbrev pub is_blocked : ThreadState → Bool
is_blocked blocked = true
is_blocked running = false
is_blocked ready = false

-- The fields of `struct thread` that are no links. `time_quantums` is never negative.
pub record Info : Type 0 where
  pub thread_id : ℤ
  pub time_quantums : ℕ
  pub state : ThreadState

-- struct thread
pub record Thread : Type 0 where
  pub info : Info
  pub next : Ptr
  pub prev : Ptr

abbrev pub thread : Info → Ptr → Ptr → Thread
thread d n p = record { info = d; next = n; prev = p }

abbrev pub Heap : Type 0
Heap = Ptr → Option Thread

-- The global variables and the heap. A time slice that is not positive acts as 0.
pub record Sched : Type 0 where
  pub max_time_on_cpu : ℕ
  pub threads_queue : Ptr
  pub tail_threads_queue : Ptr
  pub running_thread : Ptr
  pub heap : Heap

infixl 5 ◌>>=◌
abbrev pub ◌>>=◌ : {A B : Type 0} → Option A → (A → Option B) → Option B
none >>= f = none
some a >>= f = f a

abbrev pub id_eq : ℤ → ℤ → Bool
id_eq (pos a) (pos b) = a == b
id_eq (negsuc a) (negsuc b) = a == b
id_eq (pos a) (negsuc b) = false
id_eq (negsuc a) (pos b) = false

unfoldable pub write : Heap → Ptr → Option Thread → Heap
write h p c a = if p == a then c else h a

-- `*p`
unfoldable pub load : Heap → Ptr → Option Thread
load h p = if p == null then none else h p

-- `p->next = q`, `p->prev = q`, and the writes of the other fields of `*p`
unfoldable pub set_next : Heap → Ptr → Ptr → Option Heap
set_next h p q = do t ← load h p; some (write h p (some (record t { next = q })))

unfoldable pub set_prev : Heap → Ptr → Ptr → Option Heap
set_prev h p q = do t ← load h p; some (write h p (some (record t { prev = q })))

unfoldable pub set_info : Heap → Ptr → (Info → Info) → Option Heap
set_info h p f = do t ← load h p; some (write h p (some (record t { info = f t.info })))

unfoldable pub scheduler_setup : ℕ → Sched → Sched
scheduler_setup timeslice s = record s { max_time_on_cpu = timeslice }

abbrev pub set_state : ThreadState → Info → Info
set_state st d = record d { state = st }

abbrev pub reset_state : ThreadState → Info → Info
reset_state st d = record d { state = st; time_quantums = 0 }

abbrev pub tick : Info → Info
tick d = record d { time_quantums = d.time_quantums + 1 }

abbrev pub new_info : ℤ → Info
new_info id = record { thread_id = id; time_quantums = 0; state = ready }

-- Linking the new node behind the others.
unfoldable pub link_new : Ptr → Sched → Option Sched
link_new p s =
    if s.threads_queue == null
    then some (record s { threads_queue = p; tail_threads_queue = p })
    else do
      h1 ← set_next s.heap s.tail_threads_queue p
      h2 ← set_prev h1 p s.tail_threads_queue
      some (record s { tail_threads_queue = p; heap = h2 })

unfoldable pub start_if_idle : Ptr → Sched → Option Sched
start_if_idle p s =
    if s.running_thread == null
    then (do
      h ← set_info s.heap p (set_state running)
      some (record s { running_thread = p; heap = h }))
    else some s

-- `fresh` is what `malloc` returns; where it fails the program ends (`exited`).
pub data Made : Type 0 where
  exited : Made
  made : Option Sched → Made

unfoldable pub new_thread : (fresh : Ptr) → ℤ → Sched → Made
unfolding link_new start_if_idle
new_thread fresh id s =
    if fresh == null
    then exited
    else made (do
      let node = some (thread (new_info id) null null)
      s1 ← link_new fresh (record s { heap = write s.heap fresh node })
      start_if_idle fresh s1)

-- The loop of `choose_ready_thread`: the first node from `p` on that is READY, or NULL.
unfoldable pub find_ready : (fuel : ℕ) → Heap → Ptr → Option Ptr
find_ready zero h p = none
find_ready (suc fuel) h p =
    if p == null
    then some null
    else load h p >>= λ t. elim (is_ready t.info.state) [
      | true ↦ some p
      | false ↦ find_ready fuel h t.next
    ]

unfoldable pub choose_ready_thread : (fuel : ℕ) → Sched → Option Sched
choose_ready_thread fuel s = do
  p ← find_ready fuel s.heap s.threads_queue
  if p == null then some (record s { running_thread = null }) else do
    h ← set_info s.heap p (set_state running)
    some (record s { running_thread = p; heap = h })

-- The writes to the neighbours of a node that is taken out, with links `prev` and `next`.
unfoldable pub unlink : (prev next : Ptr) → Heap → Option Heap
unlink prev next h = do
  h1 ← if prev == null then some h else set_next h prev next
  if next == null then some h1 else set_prev h1 next prev

unfoldable pub exit_thread : (fuel : ℕ) → Sched → Option Sched
exit_thread fuel s = if s.running_thread == null then some s else do
  t ← load s.heap s.running_thread
  h ← unlink t.prev t.next s.heap
  choose_ready_thread fuel (record s {
    threads_queue = if t.prev == null then t.next else s.threads_queue;
    tail_threads_queue = if t.next == null then t.prev else s.tail_threads_queue;
    heap = write h s.running_thread none;
  })

unfoldable pub push_thread_to_tail : Ptr → Sched → Option Sched
push_thread_to_tail th s = if th == s.tail_threads_queue then some s else do
  t ← load s.heap th
  h ← unlink t.prev t.next s.heap
  h1 ← set_next h s.tail_threads_queue th
  h2 ← set_next h1 th null
  h3 ← set_prev h2 th s.tail_threads_queue
  some (record s {
    threads_queue = if t.prev == null then t.next else s.threads_queue;
    tail_threads_queue = th;
    heap = h3;
  })

unfoldable pub block_thread : (fuel : ℕ) → Sched → Option Sched
block_thread fuel s = if s.running_thread == null then some s else do
  h ← set_info s.heap s.running_thread (reset_state blocked)
  choose_ready_thread fuel (record s { heap = h })

-- The loop of `wake_thread`: the first node from `p` on that is BLOCKED with the id, or NULL.
unfoldable pub find_blocked : (fuel : ℕ) → ℤ → Heap → Ptr → Option Ptr
find_blocked zero id h p = none
find_blocked (suc fuel) id h p =
    if p == null
    then some null
    else load h p >>= λ t. elim (is_blocked t.info.state && id_eq t.info.thread_id id) [
      | true ↦ some p
      | false ↦ find_blocked fuel id h t.next
    ]

unfoldable pub wake_thread : (fuel : ℕ) → ℤ → Sched → Option Sched
wake_thread fuel id s = do
  p ← find_blocked fuel id s.heap s.threads_queue
  h ← if p == null then some s.heap else set_info s.heap p (set_state ready)
  s1 ← push_thread_to_tail p (record s { heap = h })
  if s1.running_thread == null then choose_ready_thread fuel s1 else some s1

unfoldable pub timer_tick : (fuel : ℕ) → Sched → Option Sched
timer_tick fuel s = if s.running_thread == null then some s else do
  h ← set_info s.heap s.running_thread tick
  t ← load h s.running_thread
  if leb s.max_time_on_cpu t.info.time_quantums
      then (do
        h1 ← set_info h s.running_thread (reset_state ready)
        s1 ← push_thread_to_tail s.running_thread (record s { heap = h1 })
        choose_ready_thread fuel s1)
      else some (record s { heap = h })

unfoldable pub current_thread : Sched → Option ℤ
current_thread s =
    if s.running_thread == null
    then some (negsuc 0)
    else do t ← load s.heap s.running_thread; some t.info.thread_id

-- The global variables before the first call.
abbrev pub initial : Sched
initial = record {
  max_time_on_cpu = 0;
  threads_queue = null;
  tail_threads_queue = null;
  running_thread = null;
  heap = λ _. none;
}
