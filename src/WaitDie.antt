-- ===== src/WaitDie.antt =====
-- os-internals/wait-die/src: wd_lock.c, the locks that a context takes under the wait-die rule, with
-- synchro.c below it, and main.c, the threads that take all of them. Pointers to locks and contexts
-- are indices, NULL is `none`.
pub mod Fields
pub mod Unlock
pub mod Sum
pub mod Safe
pub mod Run
pub mod Progress
pub mod Race
mod Tests
use sys_prog.Prelude.{
  ℕ, zero, suc, ◌+◌, ◌*◌, ◌%◌, ◌^◌, Bool, true, false, Option, none, some, ◌==◌, ltb, if◌then◌else◌,
}

abbrev pub thread_num : ℕ
thread_num = 8

abbrev pub locks_num : ℕ
locks_num = 2 * (1 + thread_num)

-- The fields of the locks and of the contexts, and the static counter of wdlock_ctx_init.
pub record Store : Type 0 where
  pub next : ℕ → Option ℕ
  pub owner : ℕ → Option ℕ
  pub timestamp : ℕ → ℕ
  pub locks : ℕ → Option ℕ
  pub counter : ℕ

unfoldable pub store_at : {A : Type 0} → (ℕ → A) → ℕ → A → ℕ → A
store_at f i a j = if i == j then a else f j

unfoldable pub wdlock_ctx_init : ℕ → Store → Store
wdlock_ctx_init c s = record s {
  timestamp = store_at s.timestamp c ((s.counter + 1) % 2 ^ 64);
  counter = (s.counter + 1) % 2 ^ 64;
  locks = store_at s.locks c none;
}

-- The mutexes and the condition of a lock have no state between two sections.
unfoldable pub wdlock_init : ℕ → Store → Store
wdlock_init l s = record s { owner = store_at s.owner l none }

-- The end of wdlock_lock, under the guard: the owner is not looked at again.
unfoldable pub own : (l c : ℕ) → Store → Store
own l c s = record s {
  owner = store_at s.owner l (some c);
  locks = store_at s.locks c (some l);
  next = store_at s.next l (s.locks c);
}

pub data Outcome : Type 0 where
  taken : Store → Outcome
  waits : Outcome
  refused : Outcome

-- wdlock_lock up to its end, or up to the wait for the condition.
unfoldable pub wdlock_lock : (l c : ℕ) → Store → Outcome
wdlock_lock l c s = elim (s.owner l) [
  | none ↦ taken (own l c s)
  | some o ↦ if ltb (s.timestamp c) (s.timestamp o) then waits else refused
]

-- One round of wdlock_unlock under the guard; who waits for the lock is in the pc's of the threads.
unfoldable pub free : ℕ → Store → Store
free l s = record s { owner = store_at s.owner l none }

-- The loop, on fuel; `none` is a run that it does not suffice for.
unfoldable pub free_all : ℕ → Option ℕ → Store → Option Store
free_all n none s = some s
free_all zero (some l) s = none
free_all (suc n) (some l) s = free_all n ((free l s).next l) (free l s)

unfoldable pub wdlock_unlock : ℕ → ℕ → Store → Option Store
wdlock_unlock n c s = elim (free_all n (s.locks c) s) [
  | none ↦ none
  | some s' ↦ some (record s' { locks = store_at s'.locks c none })
]

-- Where a thread of main.c stands: at the lock with an index, waiting for its condition, woken from
-- it, between the reading of the storage and the store of that number plus one, in wdlock_unlock with the variable `locks`, or between the release of a lock and the reading of
-- its `next`. The Boolean tells the unlock at the end from that after a refusal.
pub data Pc : Type 0 where
  locking : ℕ → Pc
  waiting : ℕ → Pc
  woken : ℕ → Pc
  adding : ℕ → Pc
  freeing : Option ℕ → Bool → Pc
  freed : ℕ → Bool → Pc
  done : Pc

pub record World : Type 0 where
  pub store : Store
  pub pc : ℕ → Pc
  pub storage : ℕ

-- notify_all
unfoldable pub wake : ℕ → Pc → Pc
wake l (locking i) = locking i
wake l (waiting i) = if i == l then woken i else waiting i
wake l (woken i) = woken i
wake l (adding v) = adding v
wake l (freeing o b) = freeing o b
wake l (freed i b) = freed i b
wake l done = done

abbrev pub goto : ℕ → Pc → Store → World → World
goto c p s w = record w { store = s; pc = store_at w.pc c p }

unfoldable pub after_lock : (i c : ℕ) → Outcome → World → World
after_lock i c (taken s) w = goto c (locking (i + 1)) s w
after_lock i c waits w = goto c (waiting i) w.store w
after_lock i c refused w = goto c (freeing (w.store.locks c) false) w.store w

-- The next section of thread `c` from a pc; `none` is a thread that cannot go on by itself.
unfoldable pub move : ℕ → Pc → World → Option World
move c (locking i) w = some (
    if i == locks_num
    then goto c (adding w.storage) w.store w
    else after_lock i c (wdlock_lock i c w.store) w)
move c (waiting i) w = none
move c (woken i) w = some (goto c (locking (i + 1)) (own i c w.store) w)
move c (adding v) w =
    some (record w { storage = v + 1; pc = store_at w.pc c (freeing (w.store.locks c) true) })
move c (freeing none b) w = some (
    goto c (if b then done else locking 0)
      (record w.store { locks = store_at w.store.locks c none }) w)
move c (freeing (some l) b) w =
    some (goto c (freed l b) (free l w.store) (record w { pc = λ d. wake l (w.pc d) }))
move c (freed l b) w = some (goto c (freeing (w.store.next l) b) w.store w)
move c done w = none

unfoldable pub step : ℕ → World → Option World
step c w = move c (w.pc c) w

-- The contexts 0, 1, … one after another.
unfoldable pub init_ctxs : ℕ → Store → Store
init_ctxs zero s = s
init_ctxs (suc n) s = wdlock_ctx_init n (init_ctxs n s)

unfoldable pub init_locks : ℕ → Store → Store
init_locks zero s = s
init_locks (suc n) s = wdlock_init n (init_locks n s)

-- The static objects are zero when the program starts.
abbrev pub zeros : Store
zeros = record {
  next = λ l. none;
  owner = λ l. none;
  timestamp = λ c. 0;
  locks = λ c. none;
  counter = 0;
}

unfoldable pub start : World
start = record {
  store = init_locks locks_num (init_ctxs thread_num zeros);
  pc = λ c. locking 0;
  storage = 0;
}
