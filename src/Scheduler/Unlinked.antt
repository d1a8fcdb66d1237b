-- ===== src/Scheduler/Unlinked.antt =====
-- The queue after `unlink` has taken a member out.
use sys_prog.Prelude.{
  ◌≡◌, ◌≢◌, ◌∙◌, sym, refl, true, false, ◌⊎◌, inl, inr, some, [], ◌∷◌, arith, ◌==◌, if◌then◌else◌,
  Bool-cases, ne→==, ==→eq, ap,
}
use sys_prog.Scheduler.{Ptr, null, Thread, thread, Heap, Sched, unlink}
use sys_prog.Scheduler.Chain.{
  Cells, has, first, last, remove, Chain, Chain-frame, Chain-node, relink, relink-some,
  Chain-relink, Chain-next, Chain-prev, AtHead, Within, has-remove,
}
use sys_prog.Scheduler.Links.{Neighbour, unlink-relink, last-remove}
use sys_prog.Scheduler.Spec.{Queue}
use sys_prog.Scheduler.Implements.{Implements}

neighbours :
    (s : Sched) (q : Queue) (p : Ptr) (t : Thread)
    → Implements s q
    → has p q.cells ≡ true
    → s.heap p ≡ some t
    → Neighbour s.heap t.prev × Neighbour s.heap t.next
neighbours s q p t m i e = (
  back (Chain-prev s.heap q.cells null p t m.chain i e),
  ahead (Chain-next s.heap q.cells null p t m.chain i e),
)
  where
    node : (a : Ptr) → has a q.cells ≡ true → Neighbour s.heap a
    node a j = inr (Chain-node s.heap q.cells null a m.chain j)

    ahead : (t.next ≡ null) ⊎ (has t.next q.cells ≡ true) → Neighbour s.heap t.next
    ahead (inl z) = inl z
    ahead (inr z) = node t.next z

    back : AtHead p null q.cells t ⊎ Within p q.cells t → Neighbour s.heap t.prev
    back (inl a) = inl a.back
    back (inr w) = node t.prev w.back

pub has-null : (h : Heap) (xs : Cells) (q : Ptr) → Chain h q xs → has null xs ≡ false
has-null h [] q c = refl
has-null h ((p, d) ∷ xs) q c = ground (arith, c.0, has-null h xs p c.3)

not-has-remove : (h : Heap) (xs : Cells) (q p : Ptr) → Chain h q xs → has p (remove p xs) ≡ false
not-has-remove h [] q p c = refl
not-has-remove h ((r, d) ∷ xs) q p c = elim (Bool-cases (p == r)) [
  | inl s ↦ rw s (ground (arith, c.1, ==→eq p r s))
  | inr s ↦ rw (s, s) (not-has-remove h xs r p c.3)
]

-- The queue without a member, on the heap that `unlink` leaves; the member itself is as before.
pub record Unlinked (s : Sched) (q : Queue) (p : Ptr) (t : Thread) (g : Heap) : Type 0 where
  pub does : unlink t.prev t.next s.heap ≡ some g
  pub head : (if t.prev == null then t.next else s.threads_queue) ≡ first (remove p q.cells)
  pub tail :
      (if t.next == null then t.prev else s.tail_threads_queue) ≡ last null (remove p q.cells)
  pub at_end : (t.next == null) ≡ (s.tail_threads_queue == p)
  pub gone : has p (remove p q.cells) ≡ false
  pub chain : Chain g null (remove p q.cells)
  pub kept : (u : Thread) × (g p ≡ some u) × (u.info ≡ t.info)

pub Chain-Unlinked :
    (s : Sched) (q : Queue) (p : Ptr) (t : Thread)
    → Implements s q
    → has p q.cells ≡ true
    → s.heap p ≡ some t
    → (g : Heap) × Unlinked s q p t g
Chain-Unlinked s q p t m i e =
    let (back, ahead) = neighbours s q p t m i e in
    let (g, does, same) = unlink-relink t.prev t.next s.heap back ahead in
    let (end, at_end) = last-remove s.heap q.cells null p t m.chain i e in
    (
      g,
      record {
        does = does;
        head = front (Chain-prev s.heap q.cells null p t m.chain i e);
        tail = rw m.tail (sym end);
        at_end = rw m.tail at_end;
        gone = not-has-remove s.heap q.cells null p m.chain;
        chain =
            Chain-frame (relink t.prev t.next s.heap) g (remove p q.cells) null
              (Chain-relink s.heap q.cells null p t m.chain i no_null e)
              (λ a j. same a (not_null a j));
        kept = stays g (same p);
      },
    )
  where
    no_null : has null q.cells ≡ false
    no_null = has-null s.heap q.cells null m.chain

    not_null : (a : Ptr) → has a (remove p q.cells) ≡ true → a ≢ null
    not_null a j z = cc (j, has-remove null p q.cells no_null, ap (λ x. has x (remove p q.cells)) z)

    front :
        AtHead p null q.cells t ⊎ Within p q.cells t
        → (if t.prev == null then t.next else s.threads_queue) ≡ first (remove p q.cells)
    front (inl a) = rw (a.back) (sym a.left)
    front (inr w) =
        rw (ne→== t.prev null (λ z. cc (w.back, no_null, ap (λ x. has x q.cells) z)))
          (m.head ∙ sym w.left)

    stays :
        (g : Heap)
        → (p ≢ null → g p ≡ relink t.prev t.next s.heap p)
        → (u : Thread) × (g p ≡ some u) × (u.info ≡ t.info)
    stays g f = (
      thread t.info (if p == t.prev then t.next else t.next)
          (if p == t.next then t.prev else t.prev),
      f (Chain-node s.heap q.cells null p m.chain i).2
          ∙ relink-some t.prev t.next s.heap p t.info t.next t.prev e,
      refl,
    )
