-- ===== src/WaitDie/Progress.antt =====
-- No deadlock: some thread of main.c can always go on.
use sys_prog.Prelude.{
  ℕ, ◌≤◌, ◌<◌, ◌≡◌, ◌≢◌, refl, sym, ap, subst, ◌∙◌, none, some, arith, ◌==◌, Bool-cases,
  Option-cases, inl, inr,
}
use sys_prog.WaitDie.{
  Pc, locking, waiting, woken, adding, freeing, freed, done, World, thread_num, locks_num, store_at,
  wake, move, step, Outcome, taken, waits, refused, wdlock_lock, after_lock, start,
}
use sys_prog.WaitDie.Fields.{store_at-other}
use sys_prog.WaitDie.Safe.{IsSafe, below, WaitOk, one_owner}
use sys_prog.WaitDie.Run.{Reached, begin, then_step, Each, FindsFree, Reached-IsSafe}

-- Only the threads that main creates move.
abbrev IdleRest : World → Type 0
IdleRest w = (d : ℕ) → thread_num ≤ d → w.pc d ≡ locking 0

module _ (c : ℕ) (lt : c < thread_num) (w : World) (idle : IdleRest w) where
  goto-IdleRest : (p : Pc) (d : ℕ) → thread_num ≤ d → store_at w.pc c p d ≡ locking 0
  goto-IdleRest p d le = store_at-other w.pc c p d (omega arith) ∙ idle d le

  after_lock-IdleRest : (i : ℕ) (o : Outcome) → IdleRest (after_lock i c o w)
  unfolding after_lock
  after_lock-IdleRest i (taken s) = goto-IdleRest _
  after_lock-IdleRest i waits = goto-IdleRest _
  after_lock-IdleRest i refused = goto-IdleRest _

  move-IdleRest : (p : Pc) → Each IdleRest (move c p w)
  unfolding Each move wake
  move-IdleRest (locking i) = elim (Bool-cases (i == locks_num)) [
    | inl last ↦ rw last (goto-IdleRest _)
    | inr more ↦ rw more (after_lock-IdleRest i (wdlock_lock i c w.store))
  ]
  move-IdleRest (waiting i) = tt
  move-IdleRest (woken i) = goto-IdleRest _
  move-IdleRest (adding v) = goto-IdleRest _
  move-IdleRest (freeing none b) = goto-IdleRest _
  move-IdleRest (freeing (some l) b) = λ d le.
      store_at-other (λ e. wake l (w.pc e)) c (freed l b) d (omega arith) ∙ ap (wake l) (idle d le)
  move-IdleRest (freed l b) = goto-IdleRest _
  move-IdleRest done = tt

Reached-IdleRest : {w : World} → Reached w → IdleRest w
unfolding step Each start
Reached-IdleRest begin = λ d le. refl
Reached-IdleRest (then_step {w} {w'} c r lt finds eq) =
    subst (Each IdleRest) eq (move-IdleRest c lt w (Reached-IdleRest r) (w.pc c))

-- A thread that goes on, and that finds its lock free where it was woken.
abbrev pub GoesOn : World → ℕ → Type 0
GoesOn w d = (w' : World) × (step d w ≡ some w') × FindsFree w (w.pc d)

-- The owner of a lock goes on.
owner-GoesOn : (w : World) → IsSafe w → (o : ℕ) (p : Pc) → w.pc o ≡ p → 0 < below p → GoesOn w o
unfolding step move FindsFree below WaitOk
owner-GoesOn w safe o (locking i) at h = rw at (_, refl, tt)
owner-GoesOn w safe o (waiting i) at h =
    let (lt, u, owner, less) = subst (WaitOk w.store o) at (safe o).waits_ok in
    let theirs : i < below (w.pc u) = (safe u).owned_below i owner in
    let mine : 0 < below (w.pc o) = subst (λ p. 0 < below p) (sym at) h in
    let same : u ≡ o = one_owner w safe u o (omega arith) mine in
    absurd (let t = ap w.store.timestamp same in omega arith)
owner-GoesOn w safe o (woken i) at h = elim (Option-cases (w.store.owner i)) [
  | inl nobody ↦ rw at (_, refl, nobody)
  | inr (u, owner) ↦
      let theirs : i < below (w.pc u) = (safe u).owned_below i owner in
      let mine : 0 < below (w.pc o) = subst (λ p. 0 < below p) (sym at) h in
      let same : u ≡ o = one_owner w safe u o (omega arith) mine in
      let here : i < below (woken i) =
        subst (λ p. i < below p) at (subst (λ u. i < below (w.pc u)) same theirs) in
      absurd (omega arith)
]
owner-GoesOn w safe o (adding v) at h = rw at (_, refl, tt)
owner-GoesOn w safe o (freeing none b) at h = absurd (omega arith)
owner-GoesOn w safe o (freeing (some l) b) at h = rw at (_, refl, tt)
owner-GoesOn w safe o (freed l b) at h = rw at (_, refl, tt)
owner-GoesOn w safe o done at h = absurd (omega arith)

-- The owner of a lock is one of the threads, and goes on.
owner_of-GoesOn :
    (w : World)
    → IsSafe w
    → IdleRest w
    → (i o : ℕ) → w.store.owner i ≡ some o
    → (d : ℕ) × (d < thread_num) × GoesOn w d
unfolding below
owner_of-GoesOn w safe idle i o owner =
    let has : i < below (w.pc o) = (safe o).owned_below i owner in
    let inside : ¬ (thread_num ≤ o) = λ out.
      (let here : i < below (locking 0) = subst (λ p. i < below p) (idle o out) has in
        omega arith) in
    (o, omega arith, owner-GoesOn w safe o (w.pc o) refl (omega arith))

-- Where a thread has not returned, some thread goes on.
some-GoesOn :
    (w : World)
    → IsSafe w
    → IdleRest w
    → (c : ℕ) (p : Pc) → w.pc c ≡ p
    → c < thread_num
    → p ≢ done
    → (d : ℕ) × (d < thread_num) × GoesOn w d
unfolding step move FindsFree below WaitOk
some-GoesOn w safe idle c (locking i) at lt h = (c, lt, rw at (_, refl, tt))
some-GoesOn w safe idle c (waiting i) at lt h =
    (let (less, o, owner, older) = subst (WaitOk w.store c) at (safe c).waits_ok in
      owner_of-GoesOn w safe idle i o owner)
some-GoesOn w safe idle c (woken i) at lt h = elim (Option-cases (w.store.owner i)) [
  | inl nobody ↦ (c, lt, rw at (_, refl, nobody))
  | inr (o, owner) ↦ owner_of-GoesOn w safe idle i o owner
]
some-GoesOn w safe idle c (adding v) at lt h = (c, lt, rw at (_, refl, tt))
some-GoesOn w safe idle c (freeing none b) at lt h = (c, lt, rw at (_, refl, tt))
some-GoesOn w safe idle c (freeing (some l) b) at lt h = (c, lt, rw at (_, refl, tt))
some-GoesOn w safe idle c (freed l b) at lt h = (c, lt, rw at (_, refl, tt))
some-GoesOn w safe idle c done at lt h = absurd (h refl)

-- In every state that is reached with each woken thread finding its lock free, where a thread has
-- not returned, some thread goes on, and finds its lock free where it was woken: there is no deadlock.
pub Reached-GoesOn :
    {w : World}
    → Reached w
    → (c : ℕ) → c < thread_num
    → w.pc c ≢ done
    → (d : ℕ) × (d < thread_num) × GoesOn w d
Reached-GoesOn {w} r c lt h =
    some-GoesOn w (Reached-IsSafe r) (Reached-IdleRest r) c (w.pc c) refl lt h
