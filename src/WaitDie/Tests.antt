-- ===== src/WaitDie/Tests.antt =====
-- Runs of main.c: single sections, all threads one after another, and the race that the wake-up
-- leaves: two threads that waited for a lock both take it.
use sys_prog.Prelude.{
  ℕ, zero, suc, ◌≤◌, ◌<◌, ◌≡◌, ◌≢◌, refl, Bool, true, false, none, some, List, [], ◌∷◌, ◌++◌,
  replicate, arith, if◌then◌else◌, Option-cases, Bool-cases, inl, inr,
}
use sys_prog.WaitDie.{
  Store, Pc, locking, waiting, woken, adding, freeing, freed, done, World, thread_num, store_at,
  own, free, wake, move, step, wdlock_lock, wdlock_unlock, after_lock, start, init_ctxs, init_locks,
  wdlock_ctx_init, wdlock_init, zeros,
}
use sys_prog.WaitDie.Run.{Reached, begin, then_step, FindsFree}
use sys_prog.WaitDie.Unlock.{In, Holds, wdlock_lock-Holds, wdlock_unlock-frees}
use sys_prog.WaitDie.Sum.{all_done-storage}
use sys_prog.WaitDie.Progress.{GoesOn, Reached-GoesOn}

-- The sections of the threads with the numbers of a list; who cannot go on is passed over.
unfoldable by_list : List ℕ → World → World
by_list [] w = w
by_list (c ∷ cs) w = elim (step c w) [ none ↦ by_list cs w | some w' ↦ by_list cs w' ]

abbrev all_once : List ℕ
all_once =
    replicate 60 0
    ++ replicate 60 1
    ++ replicate 60 2
    ++ replicate 60 3
    ++ replicate 60 4
    ++ replicate 60 5
    ++ replicate 60 6
    ++ replicate 60 7

racing_threads : (by_list (7 ∷ 0 ∷ 1 ∷ replicate 57 7 ++ 0 ∷ 1 ∷ []) start).pc 0 ≡ locking 1
unfolding by_list step start move after_lock wdlock_lock own free wake store_at init_ctxs init_locks
    wdlock_ctx_init wdlock_init
racing_threads = refl

racing_threads_too : (by_list (7 ∷ 0 ∷ 1 ∷ replicate 57 7 ++ 0 ∷ 1 ∷ []) start).pc 1 ≡ locking 1
unfolding by_list step start move after_lock wdlock_lock own free wake store_at init_ctxs init_locks
    wdlock_ctx_init wdlock_init
racing_threads_too = refl

-- Thread 7 holds the first lock while 0 and 1 wait for it, and gives all of its locks back.
unfoldable both_woken : World
both_woken = by_list (7 ∷ 0 ∷ 1 ∷ replicate 57 7) start

-- The same, but who is woken and finds the lock taken is passed over, too.
unfoldable finds_free : World → Pc → Bool
finds_free w (locking i) = true
finds_free w (waiting i) = true
finds_free w (woken i) = elim (w.store.owner i) [ none ↦ true | some o ↦ false ]
finds_free w (adding v) = true
finds_free w (freeing o b) = true
finds_free w (freed l b) = true
finds_free w done = true

finds_free-FindsFree : (w : World) (p : Pc) → finds_free w p ≡ true → FindsFree w p
unfolding finds_free FindsFree
finds_free-FindsFree w (locking i) h = tt
finds_free-FindsFree w (waiting i) h = tt
finds_free-FindsFree w (woken i) h = ground arith
finds_free-FindsFree w (adding v) h = tt
finds_free-FindsFree w (freeing o b) h = tt
finds_free-FindsFree w (freed l b) h = tt
finds_free-FindsFree w done h = tt

unfoldable turn : ℕ → World → World
turn c w = if finds_free w (w.pc c) then elim (step c w) [ none ↦ w | some w' ↦ w' ] else w

turn-Reached : (c : ℕ) (w : World) → c < thread_num → Reached w → Reached (turn c w)
unfolding turn
turn-Reached c w lt r = elim (Bool-cases (finds_free w (w.pc c))) [
  | inr no_turn ↦ rw (turn, no_turn) r
  | inl may ↦ elim (Option-cases (step c w)) [
    | inl stuck ↦ rw (turn, may, stuck) r
    | inr (w', eq) ↦ rw (turn, may, eq) (then_step c r lt (finds_free-FindsFree w (w.pc c) may) eq)
  ]
]

unfoldable turns : ℕ → ℕ → World → World
turns c zero w = w
turns c (suc n) w = turns c n (turn c w)

turns-Reached : (c n : ℕ) (w : World) → c < thread_num → Reached w → Reached (turns c n w)
unfolding turns
turns-Reached c zero w lt r = r
turns-Reached c (suc n) w lt r = turns-Reached c n (turn c w) lt (turn-Reached c w lt r)

-- The threads 0, 1, … one after another.
unfoldable in_order : ℕ → World
in_order zero = start
in_order (suc c) = turns c 60 (in_order c)

in_order-Reached : (n : ℕ) → n ≤ thread_num → Reached (in_order n)
unfolding in_order
in_order-Reached zero le = begin
in_order-Reached (suc c) le =
    turns-Reached c 60 (in_order c) (omega arith) (in_order-Reached c (omega arith))

in_order-done : (c : ℕ) → c < 8 → (in_order 8).pc c ≡ done
unfolding in_order turns turn finds_free step start move after_lock wdlock_lock own free wake
    store_at init_ctxs init_locks wdlock_ctx_init wdlock_init
in_order-done zero lt = refl
in_order-done (suc zero) lt = refl
in_order-done (suc (suc zero)) lt = refl
in_order-done (suc (suc (suc zero))) lt = refl
in_order-done (suc (suc (suc (suc zero)))) lt = refl
in_order-done (suc (suc (suc (suc (suc zero))))) lt = refl
in_order-done (suc (suc (suc (suc (suc (suc zero)))))) lt = refl
in_order-done (suc (suc (suc (suc (suc (suc (suc zero))))))) lt = refl
in_order-done (suc (suc (suc (suc (suc (suc (suc (suc c)))))))) lt = absurd (omega arith)

all_done-storage_example : (in_order 8).storage ≡ 8
all_done-storage_example = all_done-storage (in_order-Reached 8 (omega arith)) in_order-done

-- Thread 7 takes two locks, and thread 0 waits for the first.
unfoldable held : World
held = turn 0 (turns 7 2 start)

held-Reached : Reached held
unfolding held
held-Reached =
    turn-Reached 0 (turns 7 2 start) (omega arith) (turns-Reached 7 2 start (omega arith) begin)

Reached-GoesOn_example : (d : ℕ) × (d < thread_num) × GoesOn held d
unfolding held turns turn finds_free step start move after_lock wdlock_lock own free wake store_at
    init_ctxs init_locks wdlock_ctx_init wdlock_init
Reached-GoesOn_example = Reached-GoesOn held-Reached 0 (omega arith) (λ e. ground arith)

nothing-Holds : (c : ℕ) → Holds zeros c []
nothing-Holds c = record {
  chain = refl;
  owned = λ l i. absurd i;
  listed = λ l o. absurd (ground arith);
}

one_lock-Holds : Holds (own 3 0 zeros) 0 (3 ∷ [])
unfolding wdlock_lock
one_lock-Holds =
    let (nobody, mine, others) =
      wdlock_lock-Holds 3 0 zeros (own 3 0 zeros) [] refl (nothing-Holds 0) in
    mine

wdlock_unlock-frees_example :
    (s' : Store) × (wdlock_unlock 1 0 (own 3 0 zeros) ≡ some s')
    × ((l : ℕ) → In l (3 ∷ []) → s'.owner l ≡ none)
    × ((l : ℕ) → ¬ In l (3 ∷ []) → s'.owner l ≡ (own 3 0 zeros).owner l)
    × Holds s' 0 []
    × ((d : ℕ) (ms : List ℕ) → 0 ≢ d → Holds (own 3 0 zeros) d ms → Holds s' d ms)
wdlock_unlock-frees_example =
    wdlock_unlock-frees 1 0 (own 3 0 zeros) (3 ∷ []) one_lock-Holds (omega arith)
