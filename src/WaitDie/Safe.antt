-- ===== src/WaitDie/Safe.antt =====
-- The invariant of main.c: which locks a thread owns where it stands.
use sys_prog.Prelude.{
  ℕ, zero, suc, ◌+◌, ◌≤◌, ◌<◌, ◌≡◌, ◌≢◌, refl, sym, ap, subst, ◌∙◌, inl, inr, Bool, Option, none,
  some, arith, ◌==◌, Bool-cases, ℕ_discrete,
}
use sys_prog.WaitDie.{
  Store, Pc, locking, waiting, woken, adding, freeing, freed, done, World, locks_num, store_at, own,
  free, wake,
}
use sys_prog.WaitDie.Fields.{store_at-same, store_at-other}

-- A thread owns the locks with an index below this.
unfoldable pub below : Pc → ℕ
below (locking i) = i
below (waiting i) = i
below (woken i) = i
below (adding v) = locks_num
below (freeing none b) = 0
below (freeing (some l) b) = l + 1
below (freed l b) = l
below done = 0

-- The lock that was taken before the one with an index.
unfoldable pub prev : ℕ → Option ℕ
prev zero = none
prev (suc l) = some l

-- The locks whose `next` the thread is still to read.
unfoldable pub reads : Pc → ℕ
reads (locking i) = i
reads (waiting i) = i
reads (woken i) = i
reads (adding v) = locks_num
reads (freeing none b) = 0
reads (freeing (some l) b) = l + 1
reads (freed l b) = l + 1
reads done = 0

-- While it takes locks, the list of its context begins with the last one.
unfoldable pub HeadOk : Option ℕ → Pc → Type 0
HeadOk o (locking i) = o ≡ prev i
HeadOk o (waiting i) = o ≡ prev i
HeadOk o (woken i) = o ≡ prev i
HeadOk o (adding v) = o ≡ prev locks_num
HeadOk o (freeing p b) = Unit
HeadOk o (freed l b) = Unit
HeadOk o done = Unit

-- Who waits for a lock waits for an owner with a greater timestamp.
unfoldable pub WaitOk : Store → ℕ → Pc → Type 0
WaitOk s c (locking i) = i ≤ locks_num
WaitOk s c (waiting i) =
    (i < locks_num) × (o : ℕ) × (s.owner i ≡ some o) × (s.timestamp c < s.timestamp o)
WaitOk s c (woken i) = i < locks_num
WaitOk s c (adding v) = Unit
WaitOk s c (freeing none b) = Unit
WaitOk s c (freeing (some l) b) = l < locks_num
WaitOk s c (freed l b) = l < locks_num
WaitOk s c done = Unit

pub record ThreadOk (s : Store) (c : ℕ) (p : Pc) : Type 0 where
  pub owned_below : (l : ℕ) → s.owner l ≡ some c → l < below p
  pub below_owned : (l : ℕ) → l < below p → s.owner l ≡ some c
  pub linked : (l : ℕ) → l < reads p → s.next l ≡ prev l
  pub head : HeadOk (s.locks c) p
  pub waits_ok : WaitOk s c p

abbrev pub IsSafe : World → Type 0
IsSafe w = (c : ℕ) → ThreadOk w.store c (w.pc c)

-- No two threads own a lock at the same time.
pub one_owner : (w : World) → IsSafe w → (c d : ℕ) → 0 < below (w.pc c) → 0 < below (w.pc d) → c ≡ d
one_owner w safe c d hc hd =
    let a = (safe c).below_owned 0 hc in let b = (safe d).below_owned 0 hd in ground arith

-- One thread moves: it is fine, and so are the others.
pub move-IsSafe :
    (s : Store) (pc : ℕ → Pc) (c : ℕ) (p : Pc)
    → ThreadOk s c p
    → ((d : ℕ) → c ≢ d → ThreadOk s d (pc d))
    → (d : ℕ) → ThreadOk s d (store_at pc c p d)
move-IsSafe s pc c p mine others d = elim (ℕ_discrete c d) [
  | yes same ↦
      subst (λ e. ThreadOk s e (store_at pc c p e)) same
        (subst (ThreadOk s c) (sym (store_at-same pc c p)) mine)
  | no other ↦ subst (ThreadOk s d) (sym (store_at-other pc c p d other)) (others d other)
]

pub WaitOk-more :
    (s s' : Store) (d : ℕ) (p : Pc)
    → ((i o : ℕ) → s.owner i ≡ some o → s'.owner i ≡ some o)
    → ((o : ℕ) → s'.timestamp o ≡ s.timestamp o)
    → WaitOk s d p
    → WaitOk s' d p
unfolding WaitOk
WaitOk-more s s' d (locking i) h t ok = ok
WaitOk-more s s' d (waiting i) h t (lt, o, own, less) = (lt, o, h i o own, rw (t d, t o) less)
WaitOk-more s s' d (woken i) h t ok = ok
WaitOk-more s s' d (adding v) h t ok = ok
WaitOk-more s s' d (freeing none b) h t ok = ok
WaitOk-more s s' d (freeing (some l) b) h t ok = ok
WaitOk-more s s' d (freed l b) h t ok = ok
WaitOk-more s s' d done h t ok = ok

-- The thread that takes a free lock.
module _ (s : Store) (c i : ℕ) (nobody : s.owner i ≡ none) (head : s.locks c ≡ prev i) where
  pub own-mine :
      (p : Pc)
      → ThreadOk s c p
      → below p ≡ i
      → reads p ≡ i
      → i < locks_num
      → ThreadOk (own i c s) c (locking (i + 1))
  unfolding own store_at below reads HeadOk WaitOk prev
  own-mine p ok b r lt = record {
    owned_below = λ l o. let old = ok.owned_below l in ground arith;
    below_owned = λ l h. let old = ok.below_owned l in ground arith;
    linked = λ l h.
        let old = ok.linked l in
        elim (ℕ_discrete i l) [
          | yes same ↦
              subst (λ l. store_at s.next i (s.locks c) l ≡ prev l) same
                (store_at-same s.next i (s.locks c) ∙ head)
          | no ne' ↦ store_at-other s.next i (s.locks c) l ne' ∙ old (omega arith)
        ];
    head = (let n : suc i ≡ i + 1 = omega arith in store_at-same s.locks c (some i) ∙ ap prev n);
    waits_ok = omega arith;
  }

  pub own-other : (d : ℕ) (p : Pc) → c ≢ d → ThreadOk s d p → ThreadOk (own i c s) d p
  unfolding own store_at
  own-other d p ne ok = record {
    owned_below = λ l o. let old = ok.owned_below l in ground arith;
    below_owned = λ l h. let old = ok.below_owned l h in ground arith;
    linked = λ l h.
        let old = ok.linked l h in
        elim (ℕ_discrete i l) [
          | yes same ↦
              subst (λ l. store_at s.next i (s.locks c) l ≡ prev l) same
                (store_at-same s.next i (s.locks c) ∙ head)
          | no ne' ↦ store_at-other s.next i (s.locks c) l ne' ∙ old
        ];
    head = subst (λ o. HeadOk o p) (sym (store_at-other s.locks c (some i) d ne)) ok.head;
    waits_ok = WaitOk-more s (own i c s) d p (λ j o h. ground arith) (λ o. refl) ok.waits_ok;
  }

-- A thread that starts or stops to wait, or starts to unlock, changes nothing else.
pub same-other :
    (s : Store) (d : ℕ) (p : Pc) (c : ℕ) (o : Option ℕ)
    → c ≢ d
    → ThreadOk s d p
    → ThreadOk (record s { locks = store_at s.locks c o }) d p
same-other s d p c o ne ok = record {
  owned_below = ok.owned_below;
  below_owned = ok.below_owned;
  linked = ok.linked;
  head = subst (λ o. HeadOk o p) (sym (store_at-other s.locks c o d ne)) ok.head;
  waits_ok =
      WaitOk-more s (record s { locks = store_at s.locks c o }) d p (λ j o h. h) (λ o. refl)
        ok.waits_ok;
}

-- Being woken changes nothing of what a thread owns.
wake-same :
    (l : ℕ) (p : Pc)
    → (below (wake l p) ≡ below p)
      × (reads (wake l p) ≡ reads p)
      × ((o : Option ℕ) → HeadOk o p → HeadOk o (wake l p))
unfolding wake below reads HeadOk
wake-same l (locking i) = (refl, refl, (λ o h. h))
wake-same l (waiting i) = elim (Bool-cases (i == l)) [
  | inl same ↦ rw same (refl, refl, (λ o h. h))
  | inr other ↦ rw other (refl, refl, (λ o h. h))
]
wake-same l (woken i) = (refl, refl, (λ o h. h))
wake-same l (adding v) = (refl, refl, (λ o h. h))
wake-same l (freeing none b) = (refl, refl, (λ o h. h))
wake-same l (freeing (some j) b) = (refl, refl, (λ o h. h))
wake-same l (freed j b) = (refl, refl, (λ o h. h))
wake-same l done = (refl, refl, (λ o h. h))

-- The release of the last lock of a thread, and who waited for it.
module _ (s : Store) (c l : ℕ) (mine : s.owner l ≡ some c) where
  pub free-mine : (b : Bool) → ThreadOk s c (freeing (some l) b) → ThreadOk (free l s) c (freed l b)
  unfolding free store_at below reads HeadOk WaitOk
  free-mine b ok = record {
    owned_below = λ j o. let old = ok.owned_below j in ground arith;
    below_owned = λ j h. let old = ok.below_owned j in ground arith;
    linked = ok.linked;
    head = tt;
    waits_ok = ok.waits_ok;
  }

  WaitOk-wake : (d : ℕ) (p : Pc) → c ≢ d → WaitOk s d p → WaitOk (free l s) d (wake l p)
  unfolding wake WaitOk free store_at
  WaitOk-wake d (locking i) ne ok = ok
  WaitOk-wake d (waiting i) ne (lt, o, own, less) = elim (Bool-cases (i == l)) [
    | inl same ↦ rw same lt
    | inr other ↦ rw other (lt, o, ground arith, less)
  ]
  WaitOk-wake d (woken i) ne ok = ok
  WaitOk-wake d (adding v) ne ok = ok
  WaitOk-wake d (freeing none b) ne ok = ok
  WaitOk-wake d (freeing (some l) b) ne ok = ok
  WaitOk-wake d (freed l b) ne ok = ok
  WaitOk-wake d done ne ok = ok

  pub free-other : (d : ℕ) (p : Pc) → c ≢ d → ThreadOk s d p → ThreadOk (free l s) d (wake l p)
  unfolding free store_at
  free-other d p ne ok = record {
    owned_below =
        λ j o. let old = ok.owned_below j in let (b, r, h) = wake-same l p in rw b (ground arith);
    below_owned = λ j lt.
        let (b, r, h) = wake-same l p in
        let old = ok.below_owned j (subst (λ n. j < n) b lt) in ground arith;
    linked = λ j lt. let (b, r, h) = wake-same l p in ok.linked j (subst (λ n. j < n) r lt);
    head = (let (b, r, h) = wake-same l p in h _ ok.head);
    waits_ok = WaitOk-wake d p ne ok.waits_ok;
  }
