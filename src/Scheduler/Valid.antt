-- ===== src/Scheduler/Valid.antt =====
-- What every operation of the scheduler keeps: the threads are different nodes, exactly the thread
-- that has the CPU is in the state RUNNING, and the CPU is idle only when no thread is ready.
use sys_prog.Prelude.{
  ◌≡◌, ◌≢◌, ◌∙◌, sym, refl, Bool, true, false, inl, inr, [], ◌∷◌, ◌++◌, arith, ◌==◌, Bool-cases,
  ==→eq, ap,
}
use sys_prog.Scheduler.{
  Ptr, null, Info, ThreadState, running, ready, blocked, set_state, reset_state, tick,
}
use sys_prog.Scheduler.Chain.{Cells, has, remove, modify, has-modify, has-remove}
use sys_prog.Scheduler.Append.{has-snoc}
use sys_prog.Scheduler.Spec.{Queue, first_ready, only, rotate}

abbrev pub is_running : ThreadState → Bool
is_running running = true
is_running ready = false
is_running blocked = false

abbrev pub Good : Ptr → Cells → Type 0
Good run [] = Unit {0}
Good run ((p, d) ∷ xs) =
    (p ≢ null) × (has p xs ≡ false) × (is_running d.state ≡ (p == run)) × Good run xs

pub record IsValid (q : Queue) : Type 0 where
  pub listed : q.run ≢ null → has q.run q.cells ≡ true
  pub good : Good q.run q.cells
  pub busy : q.run ≡ null → first_ready q.cells ≡ null

pub Good-give :
    (p : Ptr) (xs : Cells)
    → Good null xs
    → has p xs ≡ true
    → Good p (modify p (set_state running) xs)
Good-give p [] g i = tt
Good-give p ((q, d) ∷ xs) g i = elim (Bool-cases (p == q)) [
  | inl s ↦ rw s (g.0, g.1, ground arith, keep xs g.3 (ground (arith, g.1)))
  | inr s ↦ rw s (
    g.0,
    has-modify q p (set_state running) xs ∙ g.1,
    ground (arith, g.2, g.0),
    Good-give p xs g.3 (ground arith),
  )
]
  where
    keep : (ys : Cells) → Good null ys → has p ys ≡ false → Good p ys
    keep [] h o = tt
    keep ((r, e) ∷ ys) h o = (h.0, h.1, ground (arith, h.2, h.0), keep ys h.3 (ground arith))

pub Good-same :
    (r r' : Ptr) (xs : Cells) → Good r xs → has r xs ≡ false → has r' xs ≡ false → Good r' xs
Good-same r r' [] g o o' = tt
Good-same r r' ((q, e) ∷ xs) g o o' =
    (g.0, g.1, ground (arith, g.2), Good-same r r' xs g.3 (ground arith) (ground arith))

pub Good-null : (r : Ptr) (xs : Cells) → Good r xs → has null xs ≡ false
Good-null r [] g = refl
Good-null r ((q, e) ∷ xs) g = ground (arith, g.0, Good-null r xs g.3)

-- A member that is not running afterwards, where before it was the only one that could be.
pub Good-take :
    (r : Ptr) (st : ThreadState) (xs : Cells)
    → is_running st ≡ false
    → Good r xs
    → has r xs ≡ true
    → Good null (modify r (reset_state st) xs)
Good-take r st [] z g i = tt
Good-take r st ((q, d) ∷ xs) z g i = elim (Bool-cases (r == q)) [
  | inl s ↦ rw s (
    g.0,
    g.1,
    z ∙ ground (arith, g.0),
    Good-same r null xs g.3 (ground (arith, g.1)) (Good-null r xs g.3),
  )
  | inr s ↦ rw s (
    g.0,
    has-modify q r (reset_state st) xs ∙ g.1,
    ground (arith, g.2, g.0),
    Good-take r st xs z g.3 (ground arith),
  )
]

pub Good-tick : (r p : Ptr) (xs : Cells) → Good r xs → Good r (modify p tick xs)
Good-tick r p [] g = tt
Good-tick r p ((q, d) ∷ xs) g = elim (Bool-cases (p == q)) [
  | inl s ↦ rw s g
  | inr s ↦ rw s (g.0, has-modify q p tick xs ∙ g.1, g.2, Good-tick r p xs g.3)
]

pub Good-ready :
    (r p : Ptr) (xs : Cells) → Good r xs → (p == r) ≡ false → Good r (modify p (set_state ready) xs)
Good-ready r p [] g o = tt
Good-ready r p ((q, d) ∷ xs) g o = elim (Bool-cases (p == q)) [
  | inl s ↦ rw s (g.0, g.1, ground (arith, o), g.3)
  | inr s ↦ rw s (g.0, has-modify q p (set_state ready) xs ∙ g.1, g.2, Good-ready r p xs g.3 o)
]

pub Good-remove : (r p : Ptr) (xs : Cells) → Good r xs → Good r (remove p xs)
Good-remove r p [] g = tt
Good-remove r p ((q, d) ∷ xs) g = elim (Bool-cases (p == q)) [
  | inl s ↦ rw s g.3
  | inr s ↦ rw s (g.0, has-remove q p xs g.1, g.2, Good-remove r p xs g.3)
]

pub has-remove_self : (r p : Ptr) (xs : Cells) → Good r xs → has p (remove p xs) ≡ false
has-remove_self r p [] g = refl
has-remove_self r p ((q, d) ∷ xs) g = elim (Bool-cases (p == q)) [
  | inl s ↦ rw s (ground (arith, g.1, ==→eq p q s))
  | inr s ↦ rw (s, s) (has-remove_self r p xs g.3)
]

pub Good-snoc :
    (r p : Ptr) (d : Info) (xs : Cells)
    → Good r xs
    → p ≢ null
    → has p xs ≡ false
    → is_running d.state ≡ (p == r)
    → Good r (xs ++ (p, d) ∷ [])
Good-snoc r p d [] g n o e = (n, refl, e, tt)
Good-snoc r p d ((q, k) ∷ xs) g n o e =
    (g.0, has-snoc q p d xs g.1 (ground arith), g.2, Good-snoc r p d xs g.3 n (ground arith) e)

-- A member alone.
only-cell :
    (r p : Ptr) (xs : Cells)
    → Good r xs
    → has p xs ≡ true
    → (d : Info) × (only p xs ≡ (p, d) ∷ []) × (is_running d.state ≡ (p == r)) × (p ≢ null)
only-cell r p [] g i = absurd (cc)
only-cell r p ((q, d) ∷ xs) g i = elim (Bool-cases (p == q)) [
  | inl s ↦
      rw s
        (d, ap (λ a. (a, d) ∷ []) (sym (==→eq p q s)), rw (==→eq p q s) g.2, rw (==→eq p q s) g.0)
  | inr s ↦ rw s (only-cell r p xs g.3 (ground arith))
]

pub Good-rotate : (r p : Ptr) (xs : Cells) → Good r xs → has p xs ≡ true → Good r (rotate p xs)
Good-rotate r p xs g i =
    let (d, e, run, n) = only-cell r p xs g i in
    rw e (Good-snoc r p d (remove p xs) (Good-remove r p xs g) n (has-remove_self r p xs g) run)
