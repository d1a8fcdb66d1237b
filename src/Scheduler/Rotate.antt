-- ===== src/Scheduler/Rotate.antt =====
-- `push_thread_to_tail`: a thread of the queue goes behind the others.
use sys_prog.Prelude.{
  ◌≡◌, ◌≢◌, ◌∙◌, sym, refl, true, false, inl, inr, some, [], ◌∷◌, ◌++◌, arith, ◌==◌, Bool-cases,
  ne→==, ==→eq, ap,
}
use sys_prog.Scheduler.{Ptr, null, Thread, Heap, Sched, push_thread_to_tail}
use sys_prog.Scheduler.Chain.{==-refl, Cells, has, first, last, remove, Chain, Chain-node}
use sys_prog.Scheduler.Links.{has-last}
use sys_prog.Scheduler.Append.{link_behind, last-snoc}
use sys_prog.Scheduler.Spec.{Queue, only, rotate}
use sys_prog.Scheduler.Implements.{Implements, Gives, load-some}
use sys_prog.Scheduler.Unlinked.{has-null, Unlinked, Chain-Unlinked}

rotate-last : (h : Heap) (xs : Cells) (q : Ptr) → Chain h q xs → rotate (last q xs) xs ≡ xs
rotate-last h [] q c = refl
rotate-last h ((p, d) ∷ []) q c = rw (==-refl p)
rotate-last h ((p, d) ∷ (r, k) ∷ xs) q c =
    rw (ne→== (last r xs) p (λ same. cc (c.1, has-last r k xs, ap (λ x. has x ((r, k) ∷ xs)) same)))
      (ap (λ l. (p, d) ∷ l) (rotate-last h ((r, k) ∷ xs) p c.3))

pub only-node :
    (h : Heap) (xs : Cells) (q p : Ptr) (t : Thread)
    → Chain h q xs
    → has p xs ≡ true
    → h p ≡ some t
    → only p xs ≡ (p, t.info) ∷ []
only-node h [] q p t c i e = absurd (cc)
only-node h ((r, d) ∷ xs) q p t c i e = elim (Bool-cases (p == r)) [
  | inl s ↦ rw s (ground (arith, c.2))
  | inr s ↦ rw s (only-node h xs r p t c.3 (ground arith) e)
]

last-has : (xs : Cells) (p : Ptr) → has p xs ≡ true → has (last null xs) xs ≡ true
last-has [] p i = absurd (cc)
last-has ((q, d) ∷ xs) p i = has-last q d xs

first-append : (xs ys : Cells) (a : Ptr) → has a xs ≡ true → first (xs ++ ys) ≡ first xs
first-append [] ys a i = absurd (cc)
first-append (x ∷ xs) ys a i = refl

push_at_end :
    (s : Sched) (p : Ptr) → (p == s.tail_threads_queue) ≡ true → push_thread_to_tail p s ≡ some s
unfolding push_thread_to_tail
push_at_end s p end = rw end

tail-has : (xs : Cells) → last null xs ≢ null → has (last null xs) xs ≡ true
tail-has [] n = absurd (n refl)
tail-has ((q, d) ∷ xs) n = has-last q d xs

module _ (s : Sched) (q : Queue) (p : Ptr) (t : Thread) (g : Heap) (m : Implements s q)
    (i : has p q.cells ≡ true) (e : s.heap p ≡ some t) (n : p ≢ null) (u : Unlinked s q p t g)
    (inside : (p == s.tail_threads_queue) ≡ false) where
  abbrev rest : Cells
  rest = remove p q.cells

  tail_of_rest : s.tail_threads_queue ≡ last null rest
  tail_of_rest = let more : (t.next == null) ≡ false = u.at_end ∙ ground arith in rw more at u.tail

  tail_in_rest : has s.tail_threads_queue rest ≡ true
  tail_in_rest =
      let there = has-null s.heap q.cells null m.chain in
      rw tail_of_rest (
        tail-has rest (λ z.
          let z' : last null q.cells ≡ null = sym m.tail ∙ (tail_of_rest ∙ z) in
          cc (last-has q.cells p i, ap (λ x. has x q.cells) z', there)))

  push_inside : Gives (push_thread_to_tail p s) (record q { cells = rotate p q.cells })
  unfolding push_thread_to_tail
  push_inside =
      let (v, w, same) = u.kept in
      let (y, at_tail, _) = Chain-node g rest null s.tail_threads_queue u.chain tail_in_rest in
      let (l1, l2, l3, c) =
        link_behind g rest p s.tail_threads_queue v y u.chain n u.gone w tail_of_rest tail_in_rest
          at_tail in
      let cells : rotate p q.cells ≡ rest ++ (p, v.info) ∷ [] =
        ap (λ l. rest ++ l)
          (only-node s.heap q.cells null p t m.chain i e ∙ ap (λ d. (p, d) ∷ []) (sym same)) in
      rw (inside, load-some s.heap p t e n, u.does, l1, l2, l3, cells)
        (
          _,
          refl,
          record {
            slice = m.slice;
            run = m.run;
            head = u.head ∙ sym (first-append rest _ s.tail_threads_queue tail_in_rest);
            tail = sym (last-snoc null p v.info rest);
            chain = c;
          },
        )

-- `push_thread_to_tail` moves a thread of the queue behind the others.
pub push_thread_to_tail-rotate :
    (s : Sched) (q : Queue) (p : Ptr)
    → Implements s q
    → has p q.cells ≡ true
    → Gives (push_thread_to_tail p s) (record q { cells = rotate p q.cells })
push_thread_to_tail-rotate s q p m i = elim (Bool-cases (p == s.tail_threads_queue)) [
  | inl end ↦ at_end end
  | inr inside ↦
      let (t, e, n) = Chain-node s.heap q.cells null p m.chain i in
      let (g, u) = Chain-Unlinked s q p t m i e in push_inside s q p t g m i e n u inside
]
  where
    at_end :
        (p == s.tail_threads_queue) ≡ true
        → Gives (push_thread_to_tail p s) (record q { cells = rotate p q.cells })
    at_end end =
        let same : rotate p q.cells ≡ q.cells =
          rw (==→eq p s.tail_threads_queue end ∙ m.tail)
            (rotate-last s.heap q.cells null m.chain) in
        rw same (s, push_at_end s p end, m)
