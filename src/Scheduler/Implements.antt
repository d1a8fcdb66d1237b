-- ===== src/Scheduler/Implements.antt =====
-- What a state of scheduler.c stands for, and how its loops and its writes of fields are read.
use sys_prog.Prelude.{
  ℕ, zero, suc, ◌<◌, ◌≡◌, ◌≢◌, ◌∙◌, sym, refl, true, false, inl, inr, Option, some, [], ◌∷◌, arith,
  ◌==◌, Bool-cases, ne→==, length, ℤ,
}
use sys_prog.Scheduler.{
  Ptr, null, Info, Thread, Heap, Sched, write, load, set_info, running, set_state, find_ready,
  choose_ready_thread, find_blocked,
}
use sys_prog.Scheduler.Chain.{
  Cells, has, first, last, modify, Chain, Chain-node, Chain-modify, first-modify, last-modify,
}
use sys_prog.Scheduler.Spec.{Queue, first_ready, first_blocked, choose}

-- The global variables and the heap stand for the queue.
pub record Implements (s : Sched) (q : Queue) : Type 0 where
  pub slice : s.max_time_on_cpu ≡ q.slice
  pub run : s.running_thread ≡ q.run
  pub head : s.threads_queue ≡ first q.cells
  pub tail : s.tail_threads_queue ≡ last null q.cells
  pub chain : Chain s.heap null q.cells

-- The result is some state that stands for the queue.
abbrev pub Gives : Option Sched → Queue → Type 0
Gives r q = (s : Sched) × (r ≡ some s) × Implements s q

pub load-some : (h : Heap) (p : Ptr) (t : Thread) → h p ≡ some t → p ≢ null → load h p ≡ some t
unfolding load
load-some h p t e n = ground arith

find_ready-first :
    (fuel : ℕ) (h : Heap) (xs : Cells) (q : Ptr)
    → length xs < fuel
    → Chain h q xs
    → find_ready fuel h (first xs) ≡ some (first_ready xs)
unfolding find_ready
find_ready-first zero h xs q f c = absurd (omega arith)
find_ready-first (suc fuel) h [] q f c = refl
find_ready-first (suc fuel) h ((p, d) ∷ xs) q f c =
    rw (ne→== p null c.0, load-some h p _ c.2 c.0)
      (ground (arith, find_ready-first fuel h xs p (omega arith) c.3))

pub find_blocked-first :
    (fuel : ℕ) (id : ℤ) (h : Heap) (xs : Cells) (q : Ptr)
    → length xs < fuel
    → Chain h q xs
    → find_blocked fuel id h (first xs) ≡ some (first_blocked id xs)
unfolding find_blocked
find_blocked-first zero id h xs q f c = absurd (omega arith)
find_blocked-first (suc fuel) id h [] q f c = refl
find_blocked-first (suc fuel) id h ((p, d) ∷ xs) q f c =
    rw (ne→== p null c.0, load-some h p _ c.2 c.0)
      (ground (arith, find_blocked-first fuel id h xs p (omega arith) c.3))

-- A write of the fields of a member of the queue.
pub set_info-Implements :
    (s : Sched) (q : Queue) (p : Ptr) (f : Info → Info)
    → Implements s q
    → has p q.cells ≡ true
    → (h : Heap) × (set_info s.heap p f ≡ some h)
      × Implements (record s { heap = h }) (record q { cells = modify p f q.cells })
unfolding set_info
set_info-Implements s q p f m i =
    let (t, e, n) = Chain-node s.heap q.cells null p m.chain i in
    (
      write s.heap p (some (record t { info = f t.info })),
      rw (load-some s.heap p t e n),
      record {
        slice = m.slice;
        run = m.run;
        head = m.head ∙ sym (first-modify p f q.cells);
        tail = m.tail ∙ sym (last-modify p f q.cells null);
        chain = Chain-modify s.heap q.cells null p f t m.chain i e;
      },
    )

pub first_ready-has :
    (xs : Cells) → (first_ready xs == null) ≡ false → has (first_ready xs) xs ≡ true
first_ready-has [] e = absurd (cc)
first_ready-has ((p, d) ∷ xs) e = ground (arith, first_ready-has xs)

pub first_blocked-has :
    (id : ℤ) (xs : Cells)
    → (first_blocked id xs == null) ≡ false
    → has (first_blocked id xs) xs ≡ true
first_blocked-has id [] e = absurd (cc)
first_blocked-has id ((p, d) ∷ xs) e = ground (arith, first_blocked-has id xs)

-- `choose_ready_thread` hands the CPU to the first thread of the queue that is ready.
pub choose_ready_thread-choose :
    (fuel : ℕ) (s : Sched) (q : Queue)
    → Implements s q
    → length q.cells < fuel
    → Gives (choose_ready_thread fuel s) (choose q)
unfolding choose_ready_thread choose
choose_ready_thread-choose fuel s q m f =
    rw (m.head, find_ready-first fuel s.heap q.cells null f m.chain)
      (elim (Bool-cases (first_ready q.cells == null)) [
        | inl none_ready ↦ rw none_ready (
          _,
          refl,
          record { slice = m.slice; run = refl; head = refl; tail = m.tail; chain = m.chain },
        )
        | inr some_ready ↦
            let (h, e, m') =
              set_info-Implements s q _ (set_state running) m
                (first_ready-has q.cells some_ready) in
            rw (some_ready, e)
              (
                _,
                refl,
                record {
                  slice = m.slice;
                  run = refl;
                  head = sym m.head ∙ m'.head;
                  tail = m'.tail;
                  chain = m'.chain;
                },
              )
      ])
