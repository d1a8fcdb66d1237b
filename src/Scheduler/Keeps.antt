-- ===== src/Scheduler/Keeps.antt =====
-- Every operation on the queue keeps it valid.
use sys_prog.Prelude.{
  ◌≡◌, ◌≢◌, ◌∙◌, sym, refl, true, false, inl, inr, [], ◌∷◌, ◌++◌, arith, ◌==◌, Bool-cases, ne→==,
  ==→eq, ap, subst, ℤ,
}
use sys_prog.Scheduler.{Ptr, null, running, ready, blocked, set_state, reset_state, tick}
use sys_prog.Scheduler.Chain.{Cells, has, modify, has-modify, has-remove, ==-refl}
use sys_prog.Scheduler.Implements.{first_ready-has, first_blocked-has}
use sys_prog.Scheduler.Create.{has-snoc_self}
use sys_prog.Scheduler.Spec.{
  Queue, first_ready, first_blocked, only, rotate, choose, create, leave, suspend, wake, expires,
  pass_time,
}
use sys_prog.Scheduler.Valid.{
  has-remove_self, Good, IsValid, Good-give, Good-take, Good-tick, Good-ready, Good-remove,
  Good-snoc, Good-rotate, Good-same, Good-null,
}

has-append : (a : Ptr) (xs ys : Cells) → has a xs ≡ true → has a (xs ++ ys) ≡ true
has-append a [] ys i = absurd (cc)
has-append a ((q, d) ∷ xs) ys i = ground (arith, has-append a xs ys)

pub has-rotate : (a p : Ptr) (xs : Cells) → has a xs ≡ true → has a (rotate p xs) ≡ true
has-rotate a p [] i = absurd (cc)
has-rotate a p ((q, d) ∷ xs) i = elim (Bool-cases (p == q)) [
  | inl s ↦ rw s (elim (Bool-cases (a == q)) [
    | inl here ↦ rw (==→eq a q here) (has-snoc_self q d xs)
    | inr there ↦ has-append a xs ((q, d) ∷ []) (ground arith)
  ])
  | inr s ↦ rw s (ground (arith, has-rotate a p xs))
]

choose-IsValid : (q : Queue) → Good null q.cells → IsValid (choose q)
unfolding choose
choose-IsValid q g = elim (Bool-cases (first_ready q.cells == null)) [
  | inl idle ↦ rw idle (record {
    listed = λ n. absurd (n refl);
    good = g;
    busy = λ _. ==→eq (first_ready q.cells) null idle;
  })
  | inr found ↦
      let i = first_ready-has q.cells found in
      rw found (record {
        listed = λ n. has-modify _ _ (set_state running) q.cells ∙ i;
        good = Good-give (first_ready q.cells) q.cells g i;
        busy = λ z. absurd (ground arith);
      })
]

-- A queue whose running thread is in it has something to run.
running-IsValid :
    (q : Queue) → q.run ≢ null → has q.run q.cells ≡ true → Good q.run q.cells → IsValid q
running-IsValid q n i g = record { listed = λ _. i; good = g; busy = λ z. absurd (n z) }

pub create-IsValid :
    (p : Ptr) (id : ℤ) (q : Queue)
    → IsValid q
    → p ≢ null
    → has p q.cells ≡ false
    → IsValid (create p id q)
unfolding create
create-IsValid p id q v n o = elim (Bool-cases (q.run == null)) [
  | inl idle ↦ rw idle (
      running-IsValid _ n (has-snoc_self p _ q.cells) (
        Good-snoc p p _ q.cells
          (Good-same null p q.cells (subst (λ r. Good r q.cells) (==→eq q.run null idle) v.good)
            (Good-null q.run q.cells v.good) o)
          n o (sym (==-refl p))))
  | inr busy ↦
      let there = v.listed (ground arith) in
      let other : (p == q.run) ≡ false =
        ne→== p q.run (λ s. cc (o, there, ap (λ x. has x q.cells) s)) in
      rw busy (
        running-IsValid _ (ground arith) (has-append q.run q.cells _ there)
          (Good-snoc q.run p _ q.cells v.good n o (sym other)))
]

pub leave-IsValid : (q : Queue) → IsValid q → IsValid (leave q)
unfolding leave
leave-IsValid q v = elim (Bool-cases (q.run == null)) [
  | inl idle ↦ rw idle v
  | inr busy ↦ rw busy (
      choose-IsValid _ (
        Good-same q.run null _ (Good-remove q.run q.run q.cells v.good)
          (has-remove_self q.run q.run q.cells v.good)
          (has-remove null q.run q.cells (Good-null q.run q.cells v.good))))
]

pub suspend-IsValid : (q : Queue) → IsValid q → IsValid (suspend q)
unfolding suspend
suspend-IsValid q v = elim (Bool-cases (q.run == null)) [
  | inl idle ↦ rw idle v
  | inr busy ↦
      rw busy
        (choose-IsValid _ (Good-take q.run blocked q.cells refl v.good (v.listed (ground arith))))
]

pub pass_time-IsValid : (q : Queue) → IsValid q → IsValid (pass_time q)
unfolding pass_time
pass_time-IsValid q v = elim (Bool-cases (q.run == null)) [
  | inl idle ↦ rw idle v
  | inr busy ↦
      rw busy (elim (Bool-cases (expires q.slice (only q.run (modify q.run tick q.cells)))) [
        | inl over ↦ rw over (
            choose-IsValid _ (
              Good-rotate null q.run _
                (Good-take q.run ready (modify q.run tick q.cells) refl ticked
                  (listed (ground arith)))
                (has-modify q.run q.run (reset_state ready) (modify q.run tick q.cells)
                  ∙ listed (ground arith))))
        | inr left ↦ rw left (running-IsValid _ (ground arith) (listed (ground arith)) ticked)
      ])
]
  where
    ticked : Good q.run (modify q.run tick q.cells)
    ticked = Good-tick q.run q.run q.cells v.good

    listed : q.run ≢ null → has q.run (modify q.run tick q.cells) ≡ true
    listed n = has-modify q.run q.run tick q.cells ∙ v.listed n

-- A blocked thread is not the running one.
blocked_ne_run :
    (id : ℤ) (r : Ptr) (xs : Cells)
    → Good r xs
    → first_blocked id xs ≢ null
    → (first_blocked id xs == r) ≡ false
blocked_ne_run id r [] g n = absurd (n refl)
blocked_ne_run id r ((q, d) ∷ xs) g n = ground (arith, g.2, blocked_ne_run id r xs g.3)

pub wake-IsValid :
    (id : ℤ) (q : Queue)
    → IsValid q
    → first_blocked id q.cells ≢ null
    → IsValid (wake (first_blocked id q.cells) q)
unfolding wake
wake-IsValid id q v n =
    let p = first_blocked id q.cells in
    let g = Good-ready q.run p q.cells v.good (blocked_ne_run id q.run q.cells v.good n) in
    let i =
      has-modify p p (set_state ready) q.cells ∙ first_blocked-has id q.cells (ne→== p null n) in
    let g' = Good-rotate q.run p (modify p (set_state ready) q.cells) g i in
    elim (Bool-cases (q.run == null)) [
      | inl idle ↦ rw idle (
          choose-IsValid _ (
            subst (λ r. Good r (rotate p (modify p (set_state ready) q.cells)))
              (==→eq q.run null idle) g'))
      | inr busy ↦ rw busy (
          running-IsValid _ (ground arith)
            (has-rotate q.run p _
              (has-modify q.run p (set_state ready) q.cells ∙ v.listed (ground arith)))
            g')
    ]
