-- ===== src/Scheduler/Create.antt =====
-- `new_thread` puts a thread behind the others and starts it where the CPU is free.
use sys_prog.Prelude.{
  ℕ, ◌≡◌, ◌≢◌, sym, refl, true, false, inl, inr, some, [], ◌∷◌, ◌++◌, arith, ◌==◌, Bool-cases,
  ne→==, ap, subst, ℤ,
}
use sys_prog.Scheduler.{
  Ptr, null, Info, thread, Sched, write, running, set_state, new_info, link_new, start_if_idle,
  made, new_thread,
}
use sys_prog.Scheduler.Chain.{Cells, has, modify, Chain, Chain-frame, Chain-node, ==-refl}
use sys_prog.Scheduler.Links.{has-last}
use sys_prog.Scheduler.Append.{link_new_behind, last-snoc}
use sys_prog.Scheduler.Implements.{Implements, Gives, set_info-Implements}
use sys_prog.Scheduler.Spec.{Queue, create}

modify-snoc :
    (p : Ptr) (f : Info → Info) (d : Info) (xs : Cells)
    → has p xs ≡ false
    → modify p f (xs ++ (p, d) ∷ []) ≡ xs ++ (p, f d) ∷ []
modify-snoc p f d [] o = rw (==-refl p)
modify-snoc p f d ((q, e) ∷ xs) o =
    let other : (p == q) ≡ false = ground arith in
    rw other (ap (λ l. (q, e) ∷ l) (modify-snoc p f d xs (ground arith)))

pub has-snoc_self : (p : Ptr) (d : Info) (xs : Cells) → has p (xs ++ (p, d) ∷ []) ≡ true
has-snoc_self p d [] = ground arith
has-snoc_self p d ((q, e) ∷ xs) = ground (arith, has-snoc_self p d xs)

module _ (fresh : Ptr) (id : ℤ) (n : fresh ≢ null) where
  abbrev with_node : Sched → Sched
  with_node s = record s { heap = write s.heap fresh (some (thread (new_info id) null null)) }

  abbrev queue : Cells → Ptr → ℕ → Queue
  queue cells run slice = record { cells = cells; run = run; slice = slice }

  Chain-with_node :
      (s : Sched) (xs : Cells) (q : Ptr)
      → Chain s.heap q xs
      → has fresh xs ≡ false
      → Chain (with_node s).heap q xs
  unfolding write
  Chain-with_node s xs q c o =
      Chain-frame s.heap (with_node s).heap xs q c
        (λ a i. rw (ne→== fresh a (λ same. cc (o, i, ap (λ x. has x xs) same))))

  link_new-snoc :
      (s : Sched) (cells : Cells) (run : Ptr) (slice : ℕ)
      → Implements s (queue cells run slice)
      → has fresh cells ≡ false
      → Gives (link_new fresh (with_node s)) (queue (cells ++ (fresh, new_info id) ∷ []) run slice)
  unfolding link_new write
  link_new-snoc s [] run slice m o =
      let empty : (s.threads_queue == null) ≡ true = rw m.head in
      rw empty (
        _,
        refl,
        record {
          slice = m.slice;
          run = m.run;
          head = refl;
          tail = refl;
          chain = (n, refl, rw (==-refl fresh), tt);
        },
      )
  link_new-snoc s ((p, d) ∷ xs) run slice m o =
      let c = Chain-with_node s ((p, d) ∷ xs) null m.chain o in
      let there : has s.tail_threads_queue ((p, d) ∷ xs) ≡ true =
        subst (λ a. has a ((p, d) ∷ xs) ≡ true) (sym m.tail) (has-last p d xs) in
      let (u, w, _) =
        Chain-node (with_node s).heap ((p, d) ∷ xs) null s.tail_threads_queue c there in
      let occupied : (s.threads_queue == null) ≡ false = rw m.head (ne→== p null m.chain.0) in
      let (l1, l2, c') =
        link_new_behind (with_node s).heap ((p, d) ∷ xs) fresh s.tail_threads_queue
          (thread (new_info id) null null) u c n o (rw (==-refl fresh)) m.tail there w refl in
      rw (occupied, l1, l2)
        (
          _,
          refl,
          record {
            slice = m.slice;
            run = m.run;
            head = m.head;
            tail = sym (last-snoc null fresh (new_info id) ((p, d) ∷ xs));
            chain = c';
          },
        )

  -- `new_thread` on a fresh node (where `malloc` succeeds).
  pub new_thread-create :
      (s : Sched) (q : Queue)
      → Implements s q
      → has fresh q.cells ≡ false
      → (s' : Sched) × (new_thread fresh id s ≡ made (some s')) × Implements s' (create fresh id q)
  unfolding new_thread start_if_idle create
  new_thread-create s q m o =
      let (s1, e, m1) = link_new-snoc s q.cells q.run q.slice m o in
      let free : (s1.running_thread == null) ≡ (q.run == null) = ap (λ r. r == null) m1.run in
      let (h, e', m2) =
        set_info-Implements s1 _ fresh (set_state running) m1
          (has-snoc_self fresh (new_info id) q.cells) in
      let cells = modify-snoc fresh (set_state running) (new_info id) q.cells o in
      rw (ne→== fresh null n, e, free)
        (elim (Bool-cases (q.run == null)) [
          | inl idle ↦
              rw (idle, e', ← cells)
                (
                  _,
                  refl,
                  record {
                    slice = m2.slice;
                    run = refl;
                    head = m2.head;
                    tail = m2.tail;
                    chain = m2.chain;
                  },
                )
          | inr busy ↦ rw busy (s1, refl, m1)
        ])
