-- ===== src/WaitDie/Unlock.antt =====
-- wd_lock.c by itself: the locks that a context has taken are the list that wdlock_unlock walks.
use sys_prog.Prelude.{
  ℕ, zero, suc, ◌+◌, ◌%◌, ◌^◌, ◌≤◌, ◌<◌, ◌≡◌, ◌≢◌, refl, sym, ap, subst, ◌∙◌, Option, none, some,
  List, [], ◌∷◌, length, arith, ltb, Bool-cases, Option-cases, ℕ_discrete, inl, inr, ◌⊎◌,
}
use sys_prog.WaitDie.{
  Store, store_at, own, free, taken, waits, refused, wdlock_lock, Outcome, free_all, wdlock_unlock,
  init_ctxs, wdlock_ctx_init, zeros,
}
use sys_prog.WaitDie.Fields.{store_at-same, store_at-other}

abbrev pub In : ℕ → List ℕ → Type 0
In l [] = ⊥
In l (m ∷ ms) = (l ≡ m) ⊎ In l ms

-- The list from a pointer, along `next`.
abbrev pub IsChain : (ℕ → Option ℕ) → Option ℕ → List ℕ → Type 0
IsChain next o [] = o ≡ none
IsChain next o (l ∷ ls) = (o ≡ some l) × IsChain next (next l) ls

-- The context has taken exactly the locks of a list, the last one first.
pub record Holds (s : Store) (c : ℕ) (ls : List ℕ) : Type 0 where
  pub chain : IsChain s.next (s.locks c) ls
  pub owned : (l : ℕ) → In l ls → s.owner l ≡ some c
  pub listed : (l : ℕ) → s.owner l ≡ some c → In l ls

IsChain-store_at :
    (next : ℕ → Option ℕ) (l : ℕ) (p o : Option ℕ) (ls : List ℕ)
    → ¬ In l ls
    → IsChain next o ls
    → IsChain (store_at next l p) o ls
IsChain-store_at next l p o [] out h = h
IsChain-store_at next l p o (m ∷ ms) out (eq, rest) = (
  eq,
  subst (λ q. IsChain (store_at next l p) q ms) (sym (store_at-other next l p m (λ e. out (inl e))))
      (IsChain-store_at next l p (next m) ms (λ i. out (inr i)) rest),
)

In-dec : (l : ℕ) (ls : List ℕ) → Dec (In l ls)
In-dec l [] = no (λ i. i)
In-dec l (m ∷ ms) = elim (ℕ_discrete l m) [
  | yes same ↦ yes (inl same)
  | no other ↦ elim (In-dec l ms) [
    | yes inside ↦ yes (inr inside)
    | no outside ↦ no (λ i. elim i [ inl e ↦ other e | inr j ↦ outside j ])
  ]
]

module _ (l c : ℕ) (s : Store) (nobody : s.owner l ≡ none) where
  fresh : (d : ℕ) (ls : List ℕ) → Holds s d ls → ¬ In l ls
  fresh d ls h i = let e : none ≡ some d = sym nobody ∙ h.owned l i in ground arith

  own-Holds : (ls : List ℕ) → Holds s c ls → Holds (own l c s) c (l ∷ ls)
  unfolding own
  own-Holds ls h = record {
    chain = (
      store_at-same s.locks c (some l),
      subst (λ q. IsChain (store_at s.next l (s.locks c)) q ls)
          (sym (store_at-same s.next l (s.locks c)))
          (IsChain-store_at s.next l (s.locks c) (s.locks c) ls (fresh c ls h) h.chain),
    );
    owned = λ j i. elim (ℕ_discrete l j) [
      | yes same ↦
          subst (λ j. store_at s.owner l (some c) j ≡ some c) same
            (store_at-same s.owner l (some c))
      | no other ↦ elim i [
        | inl e ↦ absurd (other (sym e))
        | inr k ↦ store_at-other s.owner l (some c) j other ∙ h.owned j k
      ]
    ];
    listed = λ j o. elim (ℕ_discrete l j) [
      | yes same ↦ inl (sym same)
      | no other ↦ inr (h.listed j (sym (store_at-other s.owner l (some c) j other) ∙ o))
    ];
  }

  own-Holds_other : (d : ℕ) (ms : List ℕ) → c ≢ d → Holds s d ms → Holds (own l c s) d ms
  unfolding own store_at
  own-Holds_other d ms ne h = record {
    chain =
        subst (λ q. IsChain (store_at s.next l (s.locks c)) q ms)
          (sym (store_at-other s.locks c (some l) d ne))
          (IsChain-store_at s.next l (s.locks c) (s.locks d) ms (fresh d ms h) h.chain);
    owned = λ j i. let old = h.owned j i in ground arith;
    listed = λ j o. h.listed j (ground arith);
  }

-- What the store is that wdlock_lock leaves, where it takes the lock.
Taken : (Store → Type 0) → Outcome → Type 0
Taken P (taken s) = P s
Taken P waits = Unit
Taken P refused = Unit

-- Where wdlock_lock takes a lock at once: the lock was free, the context then holds it first and
-- what it held before, and every other context holds what it held.
pub wdlock_lock-Holds :
    (l c : ℕ) (s s' : Store) (ls : List ℕ)
    → wdlock_lock l c s ≡ taken s'
    → Holds s c ls
    → (s.owner l ≡ none)
      × Holds s' c (l ∷ ls)
      × ((d : ℕ) (ms : List ℕ) → c ≢ d → Holds s d ms → Holds s' d ms)
unfolding wdlock_lock Taken
wdlock_lock-Holds l c s s' ls eq h =
    subst
      (Taken (λ s'.
        (s.owner l ≡ none)
        × Holds s' c (l ∷ ls)
        × ((d : ℕ) (ms : List ℕ) → c ≢ d → Holds s d ms → Holds s' d ms)))
      eq
      (elim (Option-cases (s.owner l)) [
        | inl nobody ↦
            rw (nobody, wdlock_lock)
              (refl, own-Holds l c s nobody ls h, own-Holds_other l c s nobody)
        | inr (o, owner) ↦
            rw (owner, wdlock_lock)
              (elim (Bool-cases (ltb (s.timestamp c) (s.timestamp o))) [
                | inl younger ↦ rw younger tt
                | inr older ↦ rw older tt
              ])
      ])

-- The loop of wdlock_unlock on a chain.
free_all-chain :
    (ls : List ℕ) (n : ℕ) (o : Option ℕ) (s : Store)
    → IsChain s.next o ls
    → length ls ≤ n
    → (s' : Store) × (free_all n o s ≡ some s')
      × (s'.next ≡ s.next)
      × (s'.locks ≡ s.locks)
      × (s'.timestamp ≡ s.timestamp)
      × ((l : ℕ) → In l ls → s'.owner l ≡ none)
      × ((l : ℕ) → ¬ In l ls → s'.owner l ≡ s.owner l)
unfolding free_all free
free_all-chain [] n o s h le = (s, rw h refl, refl, refl, refl, (λ l i. absurd i), (λ l i. refl))
free_all-chain (m ∷ ms) (suc n) o s (eq, rest) le =
    let (s', run, a, b, t, freed, kept) =
      free_all-chain ms n (s.next m) (free m s) rest (omega arith) in
    (
      s',
      rw eq run,
      a,
      b,
      t,
      (λ l i. elim (In-dec l ms) [
        | yes inside ↦ freed l inside
        | no outside ↦ elim i [
          | inl e ↦
              kept l outside
              ∙ subst (λ l. store_at s.owner m none l ≡ none) (sym e) (store_at-same s.owner m none)
          | inr k ↦ absurd (outside k)
        ]
      ]),
      (λ l out.
          kept l (λ i. out (inr i)) ∙ store_at-other s.owner m none l (λ e. out (inl (sym e)))),
    )
free_all-chain (m ∷ ms) zero o s h le = absurd (omega arith)

-- wdlock_unlock of a context that holds a list of locks, on fuel for as many rounds: it ends, these
-- locks have no owner, every other lock has the owner that it had, the context holds nothing, and
-- what every other context holds is as before.
pub wdlock_unlock-frees :
    (n c : ℕ) (s : Store) (ls : List ℕ)
    → Holds s c ls
    → length ls ≤ n
    → (s' : Store) × (wdlock_unlock n c s ≡ some s')
      × ((l : ℕ) → In l ls → s'.owner l ≡ none)
      × ((l : ℕ) → ¬ In l ls → s'.owner l ≡ s.owner l)
      × Holds s' c []
      × ((d : ℕ) (ms : List ℕ) → c ≢ d → Holds s d ms → Holds s' d ms)
unfolding wdlock_unlock
wdlock_unlock-frees n c s ls h le =
    let (s', run, a, b, t, freed, kept) = free_all-chain ls n (s.locks c) s h.chain le in
    let nothing : ((l : ℕ) → s'.owner l ≢ some c) = λ l o. elim (In-dec l ls) [
      | yes inside ↦ (let e : none ≡ some c = sym (freed l inside) ∙ o in ground arith)
      | no outside ↦ outside (h.listed l (sym (kept l outside) ∙ o))
    ] in
    let after = record s' { locks = store_at s'.locks c none } in
    let none_held : Holds after c [] = record {
      chain = store_at-same s'.locks c none;
      owned = λ l i. absurd i;
      listed = λ l o. absurd (nothing l o);
    } in
    let others : ((d : ℕ) (ms : List ℕ) → c ≢ d → Holds s d ms → Holds after d ms) = λ d ms ne k.
      (let apart : ((l : ℕ) → In l ms → ¬ In l ls) =
          λ l i j. (let e : some c ≡ some d = sym (h.owned l j) ∙ k.owned l i in ground arith) in
        record {
          chain =
              subst (λ q. IsChain s'.next q ms)
                (sym (ap (λ f. f d) b) ∙ sym (store_at-other s'.locks c none d ne))
                (subst (λ f. IsChain f (s.locks d) ms) (sym a) k.chain);
          owned = λ l i. kept l (apart l i) ∙ k.owned l i;
          listed = λ l o. elim (In-dec l ls) [
            | yes inside ↦ absurd (let e : none ≡ some d = sym (freed l inside) ∙ o in ground arith)
            | no outside ↦ k.listed l (sym (kept l outside) ∙ o)
          ];
        }) in
    (after, rw (run, wdlock_unlock) refl, freed, kept, none_held, others)

-- The first contexts have the timestamps 1, 2, … in the order in which they were made, while the
-- counter of 64 bits does not wrap.
pub init_ctxs-timestamp :
    (n : ℕ)
    → n < 2 ^ 64
    → ((init_ctxs n zeros).counter ≡ n)
      × ((c : ℕ) → c < n → (init_ctxs n zeros).timestamp c ≡ c + 1)
unfolding init_ctxs wdlock_ctx_init store_at
init_ctxs-timestamp zero h = (refl, (λ c lt. absurd (omega arith)))
init_ctxs-timestamp (suc n) h =
    let (counter, stamps) = init_ctxs-timestamp n (omega arith) in
    let next : (n + 1) % 2 ^ 64 ≡ n + 1 = omega arith in
    (
      rw counter (next ∙ omega arith),
      (λ c lt.
          let old = stamps c in
          elim (ℕ_discrete n c) [
            | yes same ↦
                subst
                  (λ c.
                    store_at (init_ctxs n zeros).timestamp n
                      (((init_ctxs n zeros).counter + 1) % 2 ^ 64) c
                    ≡ c + 1)
                  same
                  (store_at-same (init_ctxs n zeros).timestamp n
                      (((init_ctxs n zeros).counter + 1) % 2 ^ 64)
                    ∙ rw counter next)
            | no other ↦
                store_at-other (init_ctxs n zeros).timestamp n
                  (((init_ctxs n zeros).counter + 1) % 2 ^ 64) c other
                ∙ old (omega arith)
          ]),
    )
