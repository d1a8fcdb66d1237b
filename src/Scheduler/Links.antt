-- ===== src/Scheduler/Links.antt =====
-- The ends of the queue, and the pointer writes of `unlink` and of linking a node behind the last.
use sys_prog.Prelude.{
  ◌≡◌, ◌≢◌, ◌∙◌, true, false, ◌⊎◌, inl, inr, some, [], ◌∷◌, arith, ◌==◌, if◌then◌else◌, Bool-cases,
  ne→==, ==→eq, ap,
}
use sys_prog.Scheduler.{Ptr, null, Info, Thread, Heap, write, load, set_next, set_prev, unlink}
use sys_prog.Scheduler.Chain.{Cells, has, last, remove, Chain, relink}

pub has-last : (p : Ptr) (d : Info) (xs : Cells) → has (last p xs) ((p, d) ∷ xs) ≡ true
has-last p d [] = ground arith
has-last p d ((q, e) ∷ xs) = ground (arith, has-last q e xs)

-- The last node without a member, and which member is the last.
pub last-remove :
    (h : Heap) (xs : Cells) (q p : Ptr) (t : Thread)
    → Chain h q xs
    → has p xs ≡ true
    → h p ≡ some t
    → (last q (remove p xs) ≡ (if t.next == null then t.prev else last q xs))
      × ((t.next == null) ≡ (last q xs == p))
last-remove h [] q p t c i e = absurd (cc)
last-remove h ((r, d) ∷ xs) q p t c i e = elim (Bool-cases (p == r)) [
  | inl s ↦ rw s (at_head xs c s)
  | inr s ↦ rw s (last-remove h xs r p t c.3 (ground arith) e)
]
  where
    at_head :
        (ys : Cells)
        → Chain h q ((r, d) ∷ ys)
        → (p == r) ≡ true
        → (last q ys ≡ (if t.next == null then t.prev else last r ys))
          × ((t.next == null) ≡ (last r ys == p))
    at_head [] c s = ground (arith, c.2)
    at_head ((a, k) ∷ ys) c s =
        let l : (last a ys == p) ≡ false =
          ne→== (last a ys) p (λ same.
            cc (has-last a k ys, c.1, ap (λ x. has x ((a, k) ∷ ys)) (same ∙ ==→eq p r s))) in
        ground (arith, c.2, c.3.0)

-- What a pointer to a neighbour is: NULL, or a node.
abbrev pub Neighbour : Heap → Ptr → Type 0
Neighbour h p = (p ≡ null) ⊎ ((u : Thread) × (h p ≡ some u) × (p ≢ null))

pub unlink-relink :
    (pr nx : Ptr) (h : Heap)
    → Neighbour h pr
    → Neighbour h nx
    → (g : Heap) × (unlink pr nx h ≡ some g) × ((a : Ptr) → a ≢ null → g a ≡ relink pr nx h a)
unfolding unlink set_next set_prev load write
unlink-relink pr nx h (inl z) (inl z') = (h, ground arith, λ a n. ground arith)
unlink-relink pr nx h (inl z) (inr (v, e', ne')) =
    (write h nx (some (record v { prev = pr })), ground arith, λ a n. ground arith)
unlink-relink pr nx h (inr (u, e, ne)) (inl z') =
    (write h pr (some (record u { next = nx })), ground arith, λ a n. ground arith)
unlink-relink pr nx h (inr (u, e, ne)) (inr (v, e', ne')) = elim (Bool-cases (pr == nx)) [
  | inl s ↦ (
    write (write h pr (some (record u { next = nx }))) nx
        (some (record u { next = nx; prev = pr })),
    ground arith,
    λ a n. ground arith,
  )
  | inr s ↦ (
    write (write h pr (some (record u { next = nx }))) nx (some (record v { prev = pr })),
    ground arith,
    λ a n. ground arith,
  )
]
