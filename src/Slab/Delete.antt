-- ===== src/Slab/Delete.antt =====
-- delete_slab_from_list against the list that the memory holds.
use sys_prog.Prelude.{
  ℕ, zero, suc, ◌<◌, ◌≡◌, ◌≢◌, refl, ◌∙◌, sym, ap, subst, arith, false, ◌==◌, if◌then◌else◌, List,
  [], ◌∷◌, ◌++◌, ne→==,
}
use sys_prog.Slab.{Memory, write_word, delete_slab_from_list}
use sys_prog.Slab.Chunks.{write_word-same, write_word-other}
use sys_prog.Slab.Links.{AllApart, next_at, prev_at, Linked, link_words}
use sys_prog.Slab.Unlink.{
  Unlinked, head_or, last_or, new_first, unlinked-Linked, Linked-next, Linked-prev,
}

-- The writes of delete_slab_from_list, for the neighbours that it has read.
past : (order nx pv : ℕ) → Memory → Memory
past order nx zero m = if nx == 0 then m else write_word (prev_at order nx) 0 m
past order nx (suc q) m =
    write_word (next_at order (suc q)) nx
      (if nx == 0 then m else write_word (prev_at order nx) (suc q) m)

after : (f nx pv : ℕ) → ℕ
after f nx zero = nx
after f nx (suc q) = f

delete-past :
    (order s f nx pv : ℕ) (m : Memory)
    → m (next_at order s) ≡ nx
    → m (prev_at order s) ≡ pv
    → delete_slab_from_list f s order m ≡ (after f nx pv, past order nx pv m)
unfolding delete_slab_from_list past after
delete-past order s f nx zero m n p = rw (n, p) refl
delete-past order s f nx (suc q) m n p =
    let e : (suc q == 0) ≡ false = ne→== (suc q) 0 (λ z. omega arith) in rw (n, p, e) refl

backward_write : (order nx pv : ℕ) → Memory → Memory
backward_write order nx pv m = if nx == 0 then m else write_word (prev_at order nx) pv m

backward_write-some :
    (order nx pv : ℕ) (m : Memory)
    → 0 < nx
    → backward_write order nx pv m ≡ write_word (prev_at order nx) pv m
unfolding backward_write
backward_write-some order nx pv m some =
    let e : (nx == 0) ≡ false = ne→== nx 0 (λ z. omega arith) in rw e refl

backward_write-other :
    (order nx pv x : ℕ) (m : Memory)
    → (0 < nx → x ≢ prev_at order nx)
    → backward_write order nx pv m x ≡ m x
unfolding backward_write
backward_write-other order zero pv x m h = refl
backward_write-other order (suc n) pv x m h =
    let e : (suc n == 0) ≡ false = ne→== (suc n) 0 (λ z. omega arith) in
    rw e (write_word-other (prev_at order (suc n)) pv x m (h (omega arith)))

past-Unlinked : (order nx pv : ℕ) (m : Memory) → Unlinked order nx pv m (past order nx pv m)
unfolding past backward_write
past-Unlinked order nx zero m = record {
  forward = λ some. absurd (omega arith);
  backward = λ some apart.
      ap (λ f. f (prev_at order nx)) (backward_write-some order nx 0 m some)
      ∙ write_word-same (prev_at order nx) 0 m;
  other = λ x n p. backward_write-other order nx 0 x m n;
}
past-Unlinked order nx (suc q) m =
    let m1 : Memory = backward_write order nx (suc q) m in
    record {
      forward = λ some. write_word-same (next_at order (suc q)) nx m1;
      backward = λ some apart.
          write_word-other (next_at order (suc q)) nx (prev_at order nx) m1
            (link_words order nx (suc q) (apart (omega arith))).2
          ∙ ap (λ f. f (prev_at order nx)) (backward_write-some order nx (suc q) m some)
          ∙ write_word-same (prev_at order nx) (suc q) m;
      other = λ x n p.
          write_word-other (next_at order (suc q)) nx x m1 (p (omega arith))
          ∙ backward_write-other order nx (suc q) x m n;
    }

last_or-pos :
    (order : ℕ) (m : Memory) (rest pre : List ℕ) (p f : ℕ)
    → 0 < p
    → Linked order m p f (pre ++ rest)
    → 0 < last_or p pre
unfolding last_or Linked
last_or-pos order m rest [] p f some l = some
last_or-pos order m rest (q ∷ pre) p f some (at, some_q, behind, l) =
    last_or-pos order m rest pre q (m (next_at order q)) some_q l

after-some : (f nx pv : ℕ) → 0 < pv → after f nx pv ≡ f
unfolding after
after-some f nx zero some = absurd (omega arith)
after-some f nx (suc q) some = refl

after-new_first :
    (order : ℕ) (m m' : Memory) (rest pre : List ℕ) (f nx pv : ℕ) (out : Unlinked order nx pv m m')
    → Linked order m 0 f (pre ++ rest)
    → pv ≡ last_or 0 pre
    → after f nx pv ≡ new_first order nx pv m m' out pre f
unfolding last_or new_first after Linked
after-new_first order m m' rest [] f nx pv out l e = ap (λ z. after f nx z) e
after-new_first order m m' rest (q ∷ pre) f nx pv out (at, some_q, behind, l) e =
    after-some f nx pv
      (subst (λ z. 0 < z) (sym e) (last_or-pos order m rest pre q (m (next_at order q)) some_q l))

module _ (order s f : ℕ) (pre post : List ℕ) (m : Memory)
    (l : Linked order m 0 f (pre ++ s ∷ post)) where
  -- A slab that is taken out of a list: the others stay, in their order.
  pub delete_slab_from_list-Linked :
      AllApart (pre ++ s ∷ post)
      → (let r = delete_slab_from_list f s order m in Linked order r.1 0 r.0 (pre ++ post))
  delete_slab_from_list-Linked all =
      let nx = m (next_at order s) in
      let pv = m (prev_at order s) in
      let is_next = Linked-next order s post m pre 0 f l in
      let is_last = Linked-prev order s post m pre 0 f l in
      let out = past-Unlinked order nx pv m in
      let m' = past order nx pv m in
      let rest =
        unlinked-Linked order nx pv m m' out s post pre 0 f refl is_next is_last all
          (λ some. absurd (omega arith)) l in
      subst (λ r. Linked order r.1 0 r.0 (pre ++ post))
        (sym (delete-past order s f nx pv m refl refl))
        (subst (λ x. Linked order m' 0 x (pre ++ post))
          (sym (after-new_first order m m' (s ∷ post) pre f nx pv out l is_last)) rest)

  -- What stands in the other words is left as it was.
  pub delete_slab_from_list-other :
      (x : ℕ)
      → (0 < head_or 0 post → x ≢ prev_at order (head_or 0 post))
      → (0 < last_or 0 pre → x ≢ next_at order (last_or 0 pre))
      → (delete_slab_from_list f s order m).1 x ≡ m x
  delete_slab_from_list-other x n p =
      let nx = m (next_at order s) in
      let pv = m (prev_at order s) in
      let is_next = Linked-next order s post m pre 0 f l in
      let is_last = Linked-prev order s post m pre 0 f l in
      let out = past-Unlinked order nx pv m in
      ap (λ r. r.1 x) (delete-past order s f nx pv m refl refl)
      ∙ out.other x (subst (λ u. 0 < u → x ≢ prev_at order u) (sym is_next) n)
          (subst (λ u. 0 < u → x ≢ next_at order u) (sym is_last) p)
