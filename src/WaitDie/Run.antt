-- ===== src/WaitDie/Run.antt =====
-- The runs of the threads of main.c, as sequences of the sections of single threads.
use sys_prog.Prelude.{
  ℕ, zero, suc, ◌≤◌, ◌<◌, ◌≡◌, refl, sym, subst, ◌∙◌, inl, inr, Bool, true, false, Option, none,
  some, arith, ◌==◌, ltb, if◌then◌else◌, Bool-cases, Option-cases, ==→eq,
}
use sys_prog.WaitDie.{
  Store, Pc, locking, waiting, woken, adding, freeing, freed, done, World, thread_num, locks_num,
  store_at, own, wake, move, step, taken, waits, refused, wdlock_lock, after_lock, start, zeros,
  init_ctxs, init_locks, wdlock_ctx_init, wdlock_init,
}
use sys_prog.WaitDie.Fields.{store_at-same}
use sys_prog.WaitDie.Safe.{
  ThreadOk, IsSafe, below, reads, prev, HeadOk, WaitOk, move-IsSafe, own-mine, own-other,
  same-other, free-mine, free-other,
}

-- A thread that is woken from a lock finds the lock free.
unfoldable pub FindsFree : World → Pc → Type 0
FindsFree w (locking i) = Unit
FindsFree w (waiting i) = Unit
FindsFree w (woken i) = w.store.owner i ≡ none
FindsFree w (adding v) = Unit
FindsFree w (freeing o b) = Unit
FindsFree w (freed l b) = Unit
FindsFree w done = Unit

-- The states of the runs in which every thread that is woken finds its lock free.
pub data Reached : World → Type 0 where
  begin : Reached start
  then_step :
      {w w' : World} (c : ℕ)
      → Reached w
      → c < thread_num
      → FindsFree w (w.pc c)
      → step c w ≡ some w'
      → Reached w'

unlocking :
    (s : Store) (c i : ℕ) (p : Pc) (b : Bool)
    → ThreadOk s c p
    → below p ≡ i
    → reads p ≡ i
    → i ≤ locks_num
    → ThreadOk s c (freeing (prev i) b)
unfolding below reads prev HeadOk WaitOk
unlocking s c zero p b ok eb er le = record {
  owned_below = λ l o. let old = ok.owned_below l o in omega arith;
  below_owned = λ l h. absurd (omega arith);
  linked = λ l h. absurd (omega arith);
  head = tt;
  waits_ok = tt;
}
unlocking s c (suc i) p b ok eb er le = record {
  owned_below = λ l o. let old = ok.owned_below l o in omega arith;
  below_owned = λ l h. ok.below_owned l (omega arith);
  linked = λ l h. ok.linked l (omega arith);
  head = tt;
  waits_ok = omega arith;
}

unfoldable pub Each : (World → Type 0) → Option World → Type 0
Each P none = Unit
Each P (some w) = P w

lock-free : (l c : ℕ) (s : Store) → s.owner l ≡ none → wdlock_lock l c s ≡ taken (own l c s)
unfolding wdlock_lock
lock-free l c s h = rw (h, wdlock_lock) refl

lock-owned :
    (l c o : ℕ) (s : Store)
    → s.owner l ≡ some o
    → wdlock_lock l c s ≡ (if ltb (s.timestamp c) (s.timestamp o) then waits else refused)
unfolding wdlock_lock
lock-owned l c o s h = rw (h, wdlock_lock) refl

module _ (c : ℕ) (w : World) (safe : IsSafe w) where
  lock-IsSafe :
      (i : ℕ)
      → w.pc c ≡ locking i
      → ThreadOk w.store c (locking i)
      → i < locks_num
      → IsSafe (after_lock i c (wdlock_lock i c w.store) w)
  unfolding wdlock_lock after_lock below reads HeadOk WaitOk
  lock-IsSafe i at ok lt = elim (Option-cases (w.store.owner i)) [
    | inl nobody ↦ rw (lock-free i c w.store nobody) (
        move-IsSafe _ w.pc c _ (own-mine w.store c i nobody ok.head (locking i) ok refl refl lt)
          (λ d ne. own-other w.store c i nobody ok.head d _ ne (safe d)))
    | inr (o, owner) ↦
        rw (lock-owned i c o w.store owner)
          (elim (Bool-cases (ltb (w.store.timestamp c) (w.store.timestamp o))) [
            | inl younger ↦ rw younger (
                move-IsSafe _ w.pc c (waiting i)
                  (record {
                    owned_below = ok.owned_below;
                    below_owned = ok.below_owned;
                    linked = ok.linked;
                    head = ok.head;
                    waits_ok = (lt, o, owner, ground arith);
                  })
                  (λ d ne. safe d))
            | inr older ↦ rw older (
                move-IsSafe _ w.pc c _
                  (subst (λ o. ThreadOk w.store c (freeing o false)) (sym ok.head)
                    (unlocking w.store c i (locking i) false ok refl refl (omega arith)))
                  (λ d ne. safe d))
          ])
  ]

  all_taken : (v : ℕ) → ThreadOk w.store c (locking locks_num) → ThreadOk w.store c (adding v)
  unfolding below reads HeadOk WaitOk
  all_taken v ok = record {
    owned_below = ok.owned_below;
    below_owned = ok.below_owned;
    linked = ok.linked;
    head = ok.head;
    waits_ok = tt;
  }

  unlocked :
      (b : Bool)
      → ThreadOk w.store c (freeing none b)
      → ThreadOk
          (record w.store { locks = store_at w.store.locks c none })
          c
          (if b then done else locking 0)
  unfolding below reads HeadOk WaitOk prev
  unlocked true ok = record {
    owned_below = ok.owned_below;
    below_owned = ok.below_owned;
    linked = ok.linked;
    head = tt;
    waits_ok = tt;
  }
  unlocked false ok = record {
    owned_below = ok.owned_below;
    below_owned = ok.below_owned;
    linked = ok.linked;
    head = store_at-same w.store.locks c none;
    waits_ok = omega arith;
  }

  advanced :
      (l : ℕ) (b : Bool) → ThreadOk w.store c (freed l b) → ThreadOk w.store c (freeing (prev l) b)
  unfolding below reads HeadOk WaitOk prev
  advanced zero b ok = record {
    owned_below = ok.owned_below;
    below_owned = ok.below_owned;
    linked = λ l h. absurd (omega arith);
    head = tt;
    waits_ok = tt;
  }
  advanced (suc l) b ok = record {
    owned_below = λ j o. let old = ok.owned_below j o in omega arith;
    below_owned = λ j h. ok.below_owned j (omega arith);
    linked = λ j h. ok.linked j (omega arith);
    head = tt;
    waits_ok = (let lt = ok.waits_ok in omega arith);
  }

  move-IsSafe_of :
      (p : Pc) → w.pc c ≡ p → ThreadOk w.store c p → FindsFree w p → Each IsSafe (move c p w)
  unfolding Each move below reads HeadOk WaitOk FindsFree
  move-IsSafe_of (locking i) at ok finds = elim (Bool-cases (i == locks_num)) [
    | inl last ↦ rw last (
        move-IsSafe _ w.pc c (adding w.storage)
          (all_taken w.storage
            (subst (λ i. ThreadOk w.store c (locking i)) (==→eq i locks_num last) ok))
          (λ d ne. safe d))
    | inr more ↦ rw more (lock-IsSafe i at ok (let le = ok.waits_ok in ground arith))
  ]
  move-IsSafe_of (waiting i) at ok finds = tt
  move-IsSafe_of (woken i) at ok finds =
      move-IsSafe _ w.pc c _ (own-mine w.store c i finds ok.head (woken i) ok refl refl ok.waits_ok)
        (λ d ne. own-other w.store c i finds ok.head d _ ne (safe d))
  move-IsSafe_of (adding v) at ok finds =
      move-IsSafe _ w.pc c _
        (subst (λ o. ThreadOk w.store c (freeing o true)) (sym ok.head)
          (unlocking w.store c locks_num (adding v) true ok refl refl (omega arith)))
        (λ d ne. safe d)
  move-IsSafe_of (freeing none b) at ok finds =
      move-IsSafe _ w.pc c _ (unlocked b ok) (λ d ne. same-other w.store d _ c none ne (safe d))
  move-IsSafe_of (freeing (some l) b) at ok finds =
      let mine = ok.below_owned l (omega arith) in
      move-IsSafe _ (λ d. wake l (w.pc d)) c _ (free-mine w.store c l mine b ok)
        (λ d ne. free-other w.store c l mine d _ ne (safe d))
  move-IsSafe_of (freed l b) at ok finds =
      move-IsSafe _ w.pc c _
        (subst (λ o. ThreadOk w.store c (freeing o b)) (sym (ok.linked l (omega arith)))
          (advanced l b ok))
        (λ d ne. safe d)
  move-IsSafe_of done at ok finds = tt

init_ctxs-none :
    (n : ℕ)
    → ((c : ℕ) → (init_ctxs n zeros).locks c ≡ none)
      × ((l : ℕ) → (init_ctxs n zeros).owner l ≡ none)
unfolding init_ctxs wdlock_ctx_init store_at
init_ctxs-none zero = ((λ c. refl), (λ l. refl))
init_ctxs-none (suc n) = let (a, b) = init_ctxs-none n in ((λ c. let old = a c in ground arith), b)

init_locks-none :
    (n : ℕ) (s : Store) → ((l : ℕ) → s.owner l ≡ none) → (l : ℕ) → (init_locks n s).owner l ≡ none
unfolding init_locks wdlock_init store_at
init_locks-none zero s h l = h l
init_locks-none (suc n) s h l = let old = init_locks-none n s h l in ground arith

start-IsSafe : IsSafe start
unfolding start init_locks wdlock_init below reads HeadOk WaitOk prev
start-IsSafe c =
    let (heads, owners) = init_ctxs-none thread_num in
    record {
      owned_below = λ l o.
          let nobody = init_locks-none locks_num (init_ctxs thread_num zeros) owners l in
          (let e : none ≡ some c = sym nobody ∙ o in ground arith);
      below_owned = λ l h. absurd (omega arith);
      linked = λ l h. absurd (omega arith);
      head = heads c;
      waits_ok = omega arith;
    }

-- In every state that the threads reach, where each thread that was woken found its lock free, the
-- invariant holds.
pub Reached-IsSafe : {w : World} → Reached w → IsSafe w
unfolding step Each
Reached-IsSafe begin = start-IsSafe
Reached-IsSafe (then_step {w} {w'} c r lt finds eq) =
    let safe = Reached-IsSafe r in
    subst (Each IsSafe) eq (move-IsSafe_of c w safe (w.pc c) refl (safe c) finds)
