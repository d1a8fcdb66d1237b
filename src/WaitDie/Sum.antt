-- ===== src/WaitDie/Sum.antt =====
-- The number that main.c prints: how many threads have finished.
use sys_prog.Prelude.{
  ℕ, zero, suc, ◌+◌, ◌<◌, ◌≡◌, ◌≢◌, refl, sym, ap, subst, ◌∙◌, true, false, none, some, arith, ◌==◌,
  if◌then◌else◌, Bool-cases, ℕ_discrete, inl, inr,
}
use sys_prog.WaitDie.{
  Store, Pc, locking, waiting, woken, adding, freeing, freed, done, World, thread_num, locks_num,
  store_at, own, wake, move, step, Outcome, taken, waits, refused, wdlock_lock, after_lock, start,
}
use sys_prog.WaitDie.Fields.{store_at-same, store_at-other}
use sys_prog.WaitDie.Run.{Reached, begin, then_step, Each, Reached-IsSafe}
use sys_prog.WaitDie.Safe.{IsSafe, below, one_owner}

-- 1 for a thread that has added one to the storage.
unfoldable pub finished : Pc → ℕ
finished (locking i) = 0
finished (waiting i) = 0
finished (woken i) = 0
finished (adding v) = 0
finished (freeing o b) = if b then 1 else 0
finished (freed l b) = if b then 1 else 0
finished done = 1

unfoldable pub count : (ℕ → Pc) → ℕ → ℕ
count pc zero = 0
count pc (suc n) = count pc n + finished (pc n)

count-same :
    (pc pc' : ℕ → Pc) (n : ℕ)
    → ((d : ℕ) → d < n → finished (pc d) ≡ finished (pc' d))
    → count pc n ≡ count pc' n
unfolding count
count-same pc pc' zero h = refl
count-same pc pc' (suc n) h =
    let rest = count-same pc pc' n (λ d lt. h d (omega arith)) in
    let last = h n (omega arith) in omega arith

-- One thread moves to a pc that counts more by `k`.
count-store_at :
    (pc : ℕ → Pc) (c : ℕ) (p : Pc) (k n : ℕ)
    → c < n
    → finished p ≡ finished (pc c) + k
    → count (store_at pc c p) n ≡ count pc n + k
unfolding count
count-store_at pc c p k zero lt h = absurd (omega arith)
count-store_at pc c p k (suc n) lt h = elim (ℕ_discrete c n) [
  | yes same ↦
      let rest =
        count-same (store_at pc c p) pc n
          (λ d less. ap finished (store_at-other pc c p d (omega arith))) in
      let last : finished (store_at pc c p n) ≡ finished p =
        subst (λ m. finished (store_at pc c p m) ≡ finished p) same
          (ap finished (store_at-same pc c p)) in
      let here : finished (pc c) ≡ finished (pc n) = ap (λ m. finished (pc m)) same in omega arith
  | no other ↦
      let rest = count-store_at pc c p k n (omega arith) h in
      let last : finished (store_at pc c p n) ≡ finished (pc n) =
        ap finished (store_at-other pc c p n other) in
      omega arith
]

finished-wake : (l : ℕ) (p : Pc) → finished (wake l p) ≡ finished p
unfolding wake finished
finished-wake l (locking i) = refl
finished-wake l (waiting i) = elim (Bool-cases (i == l)) [
  | inl same ↦ rw same refl
  | inr other ↦ rw other refl
]
finished-wake l (woken i) = refl
finished-wake l (adding v) = refl
finished-wake l (freeing o b) = refl
finished-wake l (freed i b) = refl
finished-wake l done = refl

-- What a thread that is about to store has read is `n`.
abbrev ReadIs : ℕ → (ℕ → Pc) → Type 0
ReadIs n pc = (d v : ℕ) → pc d ≡ adding v → v ≡ n

ReadIs-store_at :
    (n : ℕ) (pc : ℕ → Pc) (c : ℕ) (p : Pc)
    → ((v : ℕ) → p ≡ adding v → v ≡ n)
    → ((d v : ℕ) → c ≢ d → pc d ≡ adding v → v ≡ n)
    → ReadIs n (store_at pc c p)
ReadIs-store_at n pc c p mine others d v e = elim (ℕ_discrete c d) [
  | yes same ↦
      mine v (sym (store_at-same pc c p) ∙ subst (λ i. store_at pc c p i ≡ adding v) (sym same) e)
  | no other ↦ others d v other (sym (store_at-other pc c p d other) ∙ e)
]

wake-adding : (l v : ℕ) (p : Pc) → wake l p ≡ adding v → p ≡ adding v
unfolding wake
wake-adding l v (locking i) e = e
wake-adding l v (waiting i) e = absurd (ground arith)
wake-adding l v (woken i) e = e
wake-adding l v (adding u) e = e
wake-adding l v (freeing o b) e = e
wake-adding l v (freed i b) e = e
wake-adding l v done e = e

-- The storage is the number of the finished threads, and a thread that is about to store has read it.
abbrev pub SumOk : World → Type 0
SumOk w = (w.storage ≡ count w.pc thread_num) × ReadIs w.storage w.pc

module _ (c : ℕ) (lt : c < thread_num) (w : World) (ok : SumOk w) where
  goto-SumOk :
      (p q : Pc) (s : Store)
      → w.pc c ≡ p
      → finished q ≡ finished p
      → ((v : ℕ) → q ≡ adding v → v ≡ w.storage)
      → SumOk (record w { store = s; pc = store_at w.pc c q })
  goto-SumOk p q s at h read =
      let same : finished p ≡ finished (w.pc c) = ap finished (sym at) in
      let n = count-store_at w.pc c q 0 thread_num lt (omega arith) in
      let total = ok.0 in
      (omega arith, ReadIs-store_at w.storage w.pc c q read (λ d v ne e. ok.1 d v e))

  after_lock-SumOk : (i : ℕ) (o : Outcome) → w.pc c ≡ locking i → SumOk (after_lock i c o w)
  unfolding after_lock finished
  after_lock-SumOk i (taken s) at = goto-SumOk _ _ s at refl (λ v e. absurd (ground arith))
  after_lock-SumOk i waits at = goto-SumOk _ _ w.store at refl (λ v e. absurd (ground arith))
  after_lock-SumOk i refused at = goto-SumOk _ _ w.store at refl (λ v e. absurd (ground arith))

  -- Who is about to store owns all locks, so no other thread is.
  adding-SumOk :
      (v : ℕ)
      → IsSafe w
      → w.pc c ≡ adding v
      → SumOk (record w { storage = v + 1; pc = store_at w.pc c (freeing (w.store.locks c) true) })
  unfolding finished below
  adding-SumOk v safe at =
      let zero_now : finished (w.pc c) ≡ 0 = ap finished at in
      let n =
        count-store_at w.pc c (freeing (w.store.locks c) true) 1 thread_num lt (omega arith) in
      let total = ok.0 in
      let read = ok.1 c v at in
      let mine : 0 < below (w.pc c) = subst (λ p. 0 < below p) (sym at) (omega arith) in
      (
        omega arith,
        ReadIs-store_at (v + 1) w.pc c _ (λ u e. absurd (ground arith))
            (λ d u ne e.
              let theirs : 0 < below (w.pc d) = subst (λ p. 0 < below p) (sym e) (omega arith) in
              absurd (ne (one_owner w safe c d mine theirs))),
      )

  move-SumOk : IsSafe w → (p : Pc) → w.pc c ≡ p → Each SumOk (move c p w)
  unfolding Each move finished
  move-SumOk safe (locking i) at = elim (Bool-cases (i == locks_num)) [
    | inl last ↦ rw last (goto-SumOk _ _ w.store at refl (λ v e. ground arith))
    | inr more ↦ rw more (after_lock-SumOk i (wdlock_lock i c w.store) at)
  ]
  move-SumOk safe (waiting i) at = tt
  move-SumOk safe (woken i) at =
      goto-SumOk _ _ (own i c w.store) at refl (λ v e. absurd (ground arith))
  move-SumOk safe (adding v) at = adding-SumOk v safe at
  move-SumOk safe (freeing none true) at =
      goto-SumOk _ _ (record w.store { locks = store_at w.store.locks c none }) at refl
        (λ v e. absurd (ground arith))
  move-SumOk safe (freeing none false) at =
      goto-SumOk _ _ (record w.store { locks = store_at w.store.locks c none }) at refl
        (λ v e. absurd (ground arith))
  move-SumOk safe (freeing (some l) b) at =
      let before =
        count-same (λ d. wake l (w.pc d)) w.pc thread_num (λ d h. finished-wake l (w.pc d)) in
      let here : finished (wake l (w.pc c)) ≡ finished (freeing (some l) b) =
        finished-wake l (w.pc c) ∙ ap finished at in
      let n = count-store_at (λ d. wake l (w.pc d)) c (freed l b) 0 thread_num lt (omega arith) in
      let total = ok.0 in
      (
        omega arith,
        ReadIs-store_at w.storage (λ d. wake l (w.pc d)) c (freed l b)
            (λ v e. absurd (ground arith)) (λ d v ne e. ok.1 d v (wake-adding l v (w.pc d) e)),
      )
  move-SumOk safe (freed l b) at = goto-SumOk _ _ w.store at refl (λ v e. absurd (ground arith))
  move-SumOk safe done at = tt

pub Reached-SumOk : {w : World} → Reached w → SumOk w
unfolding step Each start count finished
Reached-SumOk begin = (refl, (λ d v e. absurd (ground arith)))
Reached-SumOk (then_step {w} {w'} c r lt finds eq) =
    subst (Each SumOk) eq (move-SumOk c lt w (Reached-SumOk r) (Reached-IsSafe r) (w.pc c) refl)

all_done-count : (pc : ℕ → Pc) (n : ℕ) → ((c : ℕ) → c < n → pc c ≡ done) → count pc n ≡ n
unfolding count finished
all_done-count pc zero h = refl
all_done-count pc (suc n) h =
    let rest = all_done-count pc n (λ c lt. h c (omega arith)) in
    let last : finished (pc n) ≡ 1 = ap finished (h n (omega arith)) in omega arith

-- In a state that is reached with each woken thread finding its lock free, where all threads have
-- returned, the sum that main prints is the number of the threads: no increment of the storage, which
-- reads and stores in two steps, is lost.
pub all_done-storage :
    {w : World} → Reached w → ((c : ℕ) → c < thread_num → w.pc c ≡ done) → w.storage ≡ thread_num
all_done-storage {w} r h = (Reached-SumOk r).0 ∙ all_done-count w.pc thread_num h
