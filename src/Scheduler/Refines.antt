-- ===== src/Scheduler/Refines.antt =====
-- Each function of scheduler.c, on a heap whose queue is well linked, does what `Spec` says, and
-- leaves a queue that is well linked: no read or write through NULL, and no endless walk.
use sys_prog.Prelude.{
  ℕ, ◌≤◌, ◌<◌, ◌≡◌, ◌≢◌, ◌∙◌, refl, true, false, inl, inr, none, some, [], ◌∷◌, arith, ◌==◌, leb,
  Bool-cases, ne→==, ap, length, length-append, ℤ,
}
use sys_prog.Scheduler.{
  Ptr, null, Info, Heap, Sched, write, ready, blocked, set_state, reset_state, tick, exit_thread,
  find_blocked, block_thread, wake_thread, timer_tick,
}
use sys_prog.Scheduler.Chain.{Cells, has, remove, modify, Chain-frame, Chain-node, has-modify}
use sys_prog.Scheduler.Spec.{
  Queue, first_blocked, only, rotate, leave, suspend, wake, expires, pass_time,
}
use sys_prog.Scheduler.Implements.{
  Implements, Gives, load-some, set_info-Implements, first_blocked-has, find_blocked-first,
  choose_ready_thread-choose,
}
use sys_prog.Scheduler.Unlinked.{Chain-Unlinked}
use sys_prog.Scheduler.Rotate.{only-node, push_thread_to_tail-rotate}

pub length-remove : (p : Ptr) (xs : Cells) → length (remove p xs) ≤ length xs
length-remove p [] = omega arith
length-remove p ((q, d) ∷ xs) = ground (arith, length-remove p xs)

pub length-modify : (p : Ptr) (f : Info → Info) (xs : Cells) → length (modify p f xs) ≡ length xs
length-modify p f [] = refl
length-modify p f ((q, d) ∷ xs) = ground (arith, length-modify p f xs)

pub length-rotate : (p : Ptr) (xs : Cells) → length (rotate p xs) ≤ length xs
length-rotate p [] = omega arith
length-rotate p ((q, d) ∷ xs) = elim (Bool-cases (p == q)) [
  | inl s ↦ rw s (omega (arith, length-append xs ((q, d) ∷ [])))
  | inr s ↦ rw s (omega (arith, length-rotate p xs))
]

-- A write outside the queue is not seen.
outside :
    (g : Heap) (xs : Cells) (p : Ptr)
    → has p xs ≡ false
    → (a : Ptr) → has a xs ≡ true
    → write g p none a ≡ g a
unfolding write
outside g xs p o a i = rw (ne→== p a (λ same. cc (o, i, ap (λ x. has x xs) same)))

as_before :
    (s : Sched) (q : Queue) → Implements s q → Implements (record s { running_thread = q.run }) q
as_before s q m = record {
  slice = m.slice;
  run = refl;
  head = m.head;
  tail = m.tail;
  chain = m.chain;
}

-- `exit_thread` takes the running thread out and hands the CPU on.
pub exit_thread-leave :
    (fuel : ℕ) (s : Sched) (q : Queue)
    → Implements s q
    → (q.run ≢ null → has q.run q.cells ≡ true)
    → length q.cells < fuel
    → Gives (exit_thread fuel s) (leave q)
unfolding exit_thread leave
exit_thread-leave fuel s q m i f = rw m.run (elim (Bool-cases (q.run == null)) [
  | inl idle ↦ rw idle (
    _,
    refl,
    record { slice = m.slice; run = refl; head = m.head; tail = m.tail; chain = m.chain },
  )
  | inr busy ↦
      let (t, e, n) = Chain-node s.heap q.cells null q.run m.chain (i (ground arith)) in
      let (g, u) = Chain-Unlinked s q q.run t m (i (ground arith)) e in
      rw (busy, load-some s.heap q.run t e n, u.does)
        (choose_ready_thread-choose fuel _ _
          (record {
            slice = m.slice;
            run = refl;
            head = u.head;
            tail = u.tail;
            chain =
                Chain-frame g _ (remove q.run q.cells) null u.chain
                  (outside g (remove q.run q.cells) q.run u.gone);
          })
          (omega (arith, length-remove q.run q.cells)))
])

-- `block_thread` takes the CPU from the running thread, which waits, and hands it on.
pub block_thread-suspend :
    (fuel : ℕ) (s : Sched) (q : Queue)
    → Implements s q
    → (q.run ≢ null → has q.run q.cells ≡ true)
    → length q.cells < fuel
    → Gives (block_thread fuel s) (suspend q)
unfolding block_thread suspend
block_thread-suspend fuel s q m i f = rw m.run (elim (Bool-cases (q.run == null)) [
  | inl idle ↦ rw idle (_, refl, as_before s q m)
  | inr busy ↦
      let (h, e, m') = set_info-Implements s q q.run (reset_state blocked) m (i (ground arith)) in
      rw (busy, e)
        (choose_ready_thread-choose fuel _ _ (as_before _ _ m')
          (omega (arith, length-modify q.run (reset_state blocked) q.cells)))
])

-- `wake_thread` on the id of a blocked thread makes it ready, puts it behind the others, and gives
-- it the CPU where that is free.
pub wake_thread-wake :
    (fuel : ℕ) (id : ℤ) (s : Sched) (q : Queue)
    → Implements s q
    → first_blocked id q.cells ≢ null
    → length q.cells < fuel
    → Gives (wake_thread fuel id s) (wake (first_blocked id q.cells) q)
unfolding wake_thread wake
wake_thread-wake fuel id s q m n f =
    let p = first_blocked id q.cells in
    let there = ne→== p null n in
    let i = first_blocked-has id q.cells there in
    let (h, e, m') = set_info-Implements s q p (set_state ready) m i in
    let (s', e', m'') =
      push_thread_to_tail-rotate _ _ p m' (has-modify p p (set_state ready) q.cells ∙ i) in
    let found : find_blocked fuel id s.heap s.threads_queue ≡ some p =
      rw m.head (find_blocked-first fuel id s.heap q.cells null f m.chain) in
    let free : (s'.running_thread == null) ≡ (q.run == null) = ap (λ r. r == null) m''.run in
    rw (found, there, e, e', free)
      (elim (Bool-cases (q.run == null)) [
        | inl idle ↦ rw idle (
            choose_ready_thread-choose fuel s' _ m'' (
              ground (
                arith,
                length-rotate p (modify p (set_state ready) q.cells),
                length-modify p (set_state ready) q.cells,
              )))
        | inr busy ↦ rw busy (s', refl, m'')
      ])

-- `timer_tick` counts a tick of the running thread; at the end of its slice the thread goes behind
-- the others, and the CPU is handed on.
pub timer_tick-pass_time :
    (fuel : ℕ) (s : Sched) (q : Queue)
    → Implements s q
    → (q.run ≢ null → has q.run q.cells ≡ true)
    → length q.cells < fuel
    → Gives (timer_tick fuel s) (pass_time q)
unfolding timer_tick pass_time
timer_tick-pass_time fuel s q m i f = rw m.run (elim (Bool-cases (q.run == null)) [
  | inl idle ↦ rw idle (_, refl, as_before s q m)
  | inr busy ↦
      let p = q.run in
      let j = i (ground arith) in
      let s0 = record s { running_thread = p } in
      let (h, e, m1) = set_info-Implements s0 q p tick (as_before s q m) j in
      let j1 = has-modify p p tick q.cells ∙ j in
      let (t, e1, n) = Chain-node h (modify p tick q.cells) null p m1.chain j1 in
      let alone = only-node h (modify p tick q.cells) null p t m1.chain j1 e1 in
      let spent : leb s.max_time_on_cpu t.info.time_quantums
          ≡ expires q.slice (only p (modify p tick q.cells)) =
        rw (alone, m.slice) in
      let (h1, e2, m2) = set_info-Implements _ _ p (reset_state ready) m1 j1 in
      let (s', e3, m3) =
        push_thread_to_tail-rotate _ _ p m2
          (has-modify p p (reset_state ready) (modify p tick q.cells) ∙ j1) in
      rw (busy, e, load-some h p t e1 n, spent)
        (elim (Bool-cases (expires q.slice (only p (modify p tick q.cells)))) [
          | inl over ↦
              rw (over, e2, e3)
                (choose_ready_thread-choose fuel s' _ m3 (
                  omega (
                    arith,
                    length-rotate p (modify p (reset_state ready) (modify p tick q.cells)),
                    length-modify p (reset_state ready) (modify p tick q.cells),
                    length-modify p tick q.cells,
                  )))
          | inr left ↦ rw left (_, refl, m1)
        ])
])
