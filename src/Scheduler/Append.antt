-- ===== src/Scheduler/Append.antt =====
-- Linking a node behind the last one.
use sys_prog.Prelude.{◌≡◌, ◌≢◌, ◌∙◌, refl, true, false, some, [], ◌∷◌, ◌++◌, arith, ◌==◌, ne→==, ap}
use sys_prog.Scheduler.{Ptr, null, Info, Thread, thread, Heap, write, load, set_next, set_prev}
use sys_prog.Scheduler.Chain.{Cells, has, last, Chain, Chain-frame, Chain-node}
use sys_prog.Scheduler.Links.{has-last}

pub has-snoc :
    (a p : Ptr) (d : Info) (xs : Cells)
    → has a xs ≡ false
    → (a == p) ≡ false
    → has a (xs ++ (p, d) ∷ []) ≡ false
has-snoc a p d [] i e = ground arith
has-snoc a p d ((r, k) ∷ xs) i e = ground (arith, has-snoc a p d xs)

pub last-snoc : (q p : Ptr) (d : Info) (xs : Cells) → last q (xs ++ (p, d) ∷ []) ≡ p
last-snoc q p d [] = refl
last-snoc q p d ((r, k) ∷ xs) = last-snoc r p d xs

abbrev Relinked : Heap → Heap → Cells → (last p : Ptr) → Type 0
Relinked h g xs l p =
    ((a : Ptr) → has a xs ≡ true → a ≢ l → g a ≡ h a)
    × ((e : Info) (n r : Ptr)
        → has l xs ≡ true
        → h l ≡ some (thread e n r)
        → g l ≡ some (thread e p r))

Chain-snoc :
    (h g : Heap) (xs : Cells) (q p : Ptr) (d : Info)
    → Chain h q xs
    → p ≢ null
    → has p xs ≡ false
    → Relinked h g xs (last q xs) p
    → g p ≡ some (thread d null (last q xs))
    → Chain g q (xs ++ (p, d) ∷ [])
Chain-snoc h g [] q p d c n o r e = (n, refl, e, tt)
Chain-snoc h g ((a, k) ∷ []) q p d c n o r e =
    (c.0, ground arith, r.1 k null q (ground arith) c.2, (n, refl, e, tt))
Chain-snoc h g ((a, k) ∷ (b, l) ∷ xs) q p d c n o r e = (
  c.0,
  has-snoc a p d ((b, l) ∷ xs) c.1 (ground arith),
  r.0 a (ground arith) other ∙ c.2,
  Chain-snoc h g ((b, l) ∷ xs) a p d c.3 n (ground arith)
      ((λ x i. r.0 x (ground arith)), (λ x m y i. r.1 x m y (ground arith))) e,
)
  where
    other : a ≢ last b xs
    other same = cc (c.1, has-last b l xs, ap (λ x. has x ((b, l) ∷ xs)) same)

module _ (h : Heap) (xs : Cells) (p q : Ptr) (t u : Thread) (c : Chain h null xs) (n : p ≢ null)
    (o : has p xs ≡ false) (e : h p ≡ some t) (tail : q ≡ last null xs) (i : has q xs ≡ true)
    (w : h q ≡ some u) where
  apart : (p == q) ≡ false
  apart = ne→== p q (λ same. cc (o, i, ap (λ x. has x xs) same))

  -- The heap after the writes at the old last node `q` and the new one `p`.
  abbrev pub behind : Heap
  behind = write h q (some (record u { next = p }))

  abbrev appended : Heap
  appended = write behind p (some (thread t.info null q))

  out : (a : Ptr) → has a xs ≡ true → (p == a) ≡ false
  out a j = ne→== p a (λ same. cc (o, j, ap (λ x. has x xs) same))

  Chain-appended : Chain appended null (xs ++ (p, t.info) ∷ [])
  unfolding write
  Chain-appended =
      Chain-snoc h appended xs null p t.info c n o
        (rw (← tail) ((λ a j k. ground (arith, out a j)), (λ f m r j l. ground (arith, apart))))
        (ground (arith, tail))

  abbrev pub cleared : Heap
  cleared = write behind p (some (record t { next = null }))

  abbrev pub linked : Heap
  linked = write cleared p (some (record t { next = null; prev = q }))

  q_ne : q ≢ null
  q_ne = (Chain-node h xs null q c i).2

  -- The three writes, and the queue that they leave.
  pub link_behind :
      (set_next h q p ≡ some behind)
      × (set_next behind p null ≡ some cleared)
      × (set_prev cleared p q ≡ some linked)
      × Chain linked null (xs ++ (p, t.info) ∷ [])
  unfolding write load set_next set_prev
  link_behind = (
    ground (arith, q_ne),
    ground (arith, apart),
    ground arith,
    Chain-frame appended linked (xs ++ (p, t.info) ∷ []) null Chain-appended (λ a j. ground arith),
  )

  abbrev pub linked_new : Heap
  linked_new = write behind p (some (record t { prev = q }))

  -- The same with two writes, where nothing stands behind the new node.
  pub link_new_behind :
      t.next ≡ null
      → (set_next h q p ≡ some behind)
        × (set_prev behind p q ≡ some linked_new)
        × Chain linked_new null (xs ++ (p, t.info) ∷ [])
  unfolding write load set_next set_prev
  link_new_behind z = (
    ground (arith, q_ne),
    ground (arith, apart),
    Chain-frame appended linked_new (xs ++ (p, t.info) ∷ []) null Chain-appended
        (λ a j. ground arith),
  )
