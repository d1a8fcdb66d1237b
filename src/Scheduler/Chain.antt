-- ===== src/Scheduler/Chain.antt =====
-- What the linked nodes of a heap stand for, and what the writes of scheduler.c do to it.
use sys_prog.Prelude.{
  ℕ, ◌≡◌, ◌≢◌, ◌∙◌, refl, Bool, true, false, ◌||◌, ◌⊎◌, inl, inr, none, some, List, [], ◌∷◌, arith,
  ◌==◌, if◌then◌else◌, Bool-cases, ne→==, ap,
}
use sys_prog.Scheduler.{Ptr, null, Info, Thread, thread, Heap, write}

-- The nodes of the queue in order: address and fields.
abbrev pub Cells : Type 0
Cells = List (Ptr × Info)

abbrev pub has : Ptr → Cells → Bool
has a [] = false
has a ((p, d) ∷ xs) = (a == p) || has a xs

abbrev pub first : Cells → Ptr
first [] = null
first ((p, d) ∷ xs) = p

abbrev pub last : Ptr → Cells → Ptr
last q [] = q
last q ((p, d) ∷ xs) = last p xs

abbrev pub remove : Ptr → Cells → Cells
remove a [] = []
remove a ((p, d) ∷ xs) = if a == p then xs else (p, d) ∷ remove a xs

abbrev pub modify : Ptr → (Info → Info) → Cells → Cells
modify a f [] = []
modify a f ((p, d) ∷ xs) = if a == p then (p, f d) ∷ xs else (p, d) ∷ modify a f xs

-- The nodes `xs`, all different and none NULL, are linked in this order both ways; the first has
-- `prev` before it, and the last has NULL behind it.
abbrev pub Chain : Heap → Ptr → Cells → Type 0
Chain h prev [] = Unit {0}
Chain h prev ((p, d) ∷ xs) =
    (p ≢ null) × (has p xs ≡ false) × (h p ≡ some (thread d (first xs) prev)) × Chain h p xs

pub Chain-frame :
    (h g : Heap) (xs : Cells) (prev : Ptr)
    → Chain h prev xs
    → ((a : Ptr) → has a xs ≡ true → g a ≡ h a)
    → Chain g prev xs
Chain-frame h g [] prev c same = tt
Chain-frame h g ((p, d) ∷ xs) prev c same =
    (c.0, c.1, ground (arith, same p, c.2), Chain-frame h g xs p c.3 (λ a i. same a (ground arith)))

-- The node at a member of the queue.
pub Chain-node :
    (h : Heap) (xs : Cells) (prev p : Ptr)
    → Chain h prev xs
    → has p xs ≡ true
    → (t : Thread) × (h p ≡ some t) × (p ≢ null)
Chain-node h [] prev p c i = absurd (cc)
Chain-node h ((q, d) ∷ xs) prev p c i = elim (Bool-cases (p == q)) [
  | inl e ↦ (thread d (first xs) prev, ground (arith, c.2), ground (arith, c.0))
  | inr e ↦ Chain-node h xs q p c.3 (ground arith)
]

pub has-modify : (a p : Ptr) (f : Info → Info) (xs : Cells) → has a (modify p f xs) ≡ has a xs
has-modify a p f [] = refl
has-modify a p f ((q, d) ∷ xs) = ground (arith, has-modify a p f xs)

pub first-modify : (p : Ptr) (f : Info → Info) (xs : Cells) → first (modify p f xs) ≡ first xs
first-modify p f [] = refl
first-modify p f ((q, d) ∷ xs) = ground arith

pub last-modify :
    (p : Ptr) (f : Info → Info) (xs : Cells) (q : Ptr) → last q (modify p f xs) ≡ last q xs
last-modify p f [] q = refl
last-modify p f ((r, d) ∷ xs) q = ground (arith, last-modify p f xs r)

-- A write of the fields of a member.
pub Chain-modify :
    (h : Heap) (xs : Cells) (prev p : Ptr) (f : Info → Info) (t : Thread)
    → Chain h prev xs
    → has p xs ≡ true
    → h p ≡ some t
    → Chain (write h p (some (record t { info = f t.info }))) prev (modify p f xs)
unfolding write
Chain-modify h [] prev p f t c i e = absurd (cc)
Chain-modify h ((q, d) ∷ xs) prev p f t c i e = elim (Bool-cases (p == q)) [
  | inl s ↦
      rw s (c.0, c.1, ground (arith, c.2), Chain-frame h _ xs q c.3 (λ a j. ground (arith, c.1)))
  | inr s ↦ rw s (
    c.0,
    ground (arith, has-modify q p f xs, c.1),
    ground (arith, c.2, first-modify p f xs),
    Chain-modify h xs q p f t c.3 (ground arith) e,
  )
]

pub has-remove : (a p : Ptr) (xs : Cells) → has a xs ≡ false → has a (remove p xs) ≡ false
has-remove a p [] e = refl
has-remove a p ((q, d) ∷ xs) e = ground (arith, has-remove a p xs)

-- What taking a node with links `pr` and `nx` out does to its neighbours, and to nothing else.
abbrev pub relink : (pr nx : Ptr) → Heap → Heap
relink pr nx h a = elim (h a) [
  | none ↦ none
  | some t ↦ some (thread t.info (if a == pr then nx else t.next) (if a == nx then pr else t.prev))
]

-- The links of a member `p` behind the node `q`: where it is the first, and where it is not.
pub record AtHead (p q : Ptr) (xs : Cells) (t : Thread) : Type 0 where
  pub head : first xs ≡ p
  pub back : t.prev ≡ q
  pub left : first (remove p xs) ≡ t.next

pub record Within (p : Ptr) (xs : Cells) (t : Thread) : Type 0 where
  pub head : first xs ≢ p
  pub back : has t.prev xs ≡ true
  pub left : first (remove p xs) ≡ first xs

pub ==-refl : (a : ℕ) → (a == a) ≡ true
==-refl a = ground arith

or-true : (a b : Bool) → b ≡ true → (a || b) ≡ true
or-true a b e = ground arith

first-has : (xs : Cells) → (first xs ≡ null) ⊎ (has (first xs) xs ≡ true)
first-has [] = inl refl
first-has ((p, d) ∷ xs) = inr (ground arith)

pub Chain-next :
    (h : Heap) (xs : Cells) (q p : Ptr) (t : Thread)
    → Chain h q xs
    → has p xs ≡ true
    → h p ≡ some t
    → (t.next ≡ null) ⊎ (has t.next xs ≡ true)
Chain-next h [] q p t c i e = absurd (cc)
Chain-next h ((r, d) ∷ xs) q p t c i e = elim (Bool-cases (p == r)) [
  | inl s ↦
      let here : t.next ≡ first xs = ground (arith, c.2) in
      elim (first-has xs) [
        | inl z ↦ inl (here ∙ z)
        | inr z ↦ inr (or-true (t.next == r) (has t.next xs) (rw here z))
      ]
  | inr s ↦ elim (Chain-next h xs r p t c.3 (ground arith) e) [
    | inl z ↦ inl z
    | inr z ↦ inr (or-true _ _ z)
  ]
]

pub Chain-prev :
    (h : Heap) (xs : Cells) (q p : Ptr) (t : Thread)
    → Chain h q xs
    → has p xs ≡ true
    → h p ≡ some t
    → AtHead p q xs t ⊎ Within p xs t
Chain-prev h [] q p t c i e = absurd (cc)
Chain-prev h ((r, d) ∷ xs) q p t c i e = elim (Bool-cases (p == r)) [
  | inl s ↦ inl (ground (arith, c.2))
  | inr s ↦ inr (elim (Chain-prev h xs r p t c.3 (ground arith) e) [
    | inl a ↦ ground (arith, a.back)
    | inr w ↦ ground (arith, w.back)
  ])
]

pub relink-other :
    (pr nx : Ptr) (h : Heap) (a : Ptr)
    → (a == pr) ≡ false
    → (a == nx) ≡ false
    → relink pr nx h a ≡ h a
relink-other pr nx h a e e' = ground arith

pub relink-some :
    (pr nx : Ptr) (h : Heap) (a : Ptr) (d : Info) (n p : Ptr)
    → h a ≡ some (thread d n p)
    → relink pr nx h a ≡ some (thread d (if a == pr then nx else n) (if a == nx then pr else p))
relink-some pr nx h a d n p e = ground arith

relink-rest :
    (h : Heap) (ys : Cells) (p q : Ptr)
    → Chain h p ys
    → has q ys ≡ false
    → Chain (relink q (first ys) h) q ys
relink-rest h [] p q c o = tt
relink-rest h ((a, k) ∷ zs) p q c o = (
  c.0,
  c.1,
  ground (arith, c.2),
  Chain-frame h _ zs a c.3 (λ b i. relink-other q a h b (ground arith) (ground (arith, c.1))),
)

-- A node before a member: its link forward follows where the member was next.
relink-before :
    (h : Heap) (xs : Cells) (q r p : Ptr) (d : Info) (t : Thread)
    → Chain h q ((r, d) ∷ xs)
    → has p xs ≡ true
    → h p ≡ some t
    → relink t.prev t.next h r ≡ some (thread d (first (remove p xs)) q)
relink-before h xs q r p d t c i e =
    let apart : (r == t.next) ≡ false = not_next (Chain-next h xs r p t c.3 i e) in
    elim (Chain-prev h xs r p t c.3 i e) [
      | inl a ↦ rw (node, apart, a.back, ==-refl r, a.left)
      | inr w ↦ rw (node, apart, back w.back, w.left)
    ]
  where
    node :
        relink t.prev t.next h r
        ≡ some (
            thread d (if r == t.prev then t.next else first xs) (if r == t.next then t.prev else q))
    node = relink-some t.prev t.next h r d _ _ c.2

    not_next : (t.next ≡ null) ⊎ (has t.next xs ≡ true) → (r == t.next) ≡ false
    not_next (inl z) = ground (arith, c.0)
    not_next (inr z) = ne→== r t.next (λ same. cc (c.1, ap (λ x. has x xs) same))

    back : has t.prev xs ≡ true → (r == t.prev) ≡ false
    back z = ne→== r t.prev (λ same. cc (c.1, ap (λ x. has x xs) same))

-- The neighbours of a member, relinked, are the queue without it.
pub Chain-relink :
    (h : Heap) (xs : Cells) (q p : Ptr) (t : Thread)
    → Chain h q xs
    → has p xs ≡ true
    → has q xs ≡ false
    → h p ≡ some t
    → Chain (relink t.prev t.next h) q (remove p xs)
Chain-relink h [] q p t c i o e = absurd (cc)
Chain-relink h ((r, d) ∷ xs) q p t c i o e = elim (Bool-cases (p == r)) [
  | inl s ↦
      let (back, ahead) : (t.prev ≡ q) × (t.next ≡ first xs) = ground (arith, c.2) in
      rw (s, back, ahead) (relink-rest h xs r q c.3 (ground arith))
  | inr s ↦ rw s (
    c.0,
    has-remove r p xs c.1,
    relink-before h xs q r p d t c (ground arith) e,
    Chain-relink h xs r p t c.3 (ground arith) c.1 e,
  )
]
