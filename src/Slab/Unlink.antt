-- ===== src/Slab/Unlink.antt =====
-- Taking a slab out of a doubly linked list, for any memory in which its neighbours lead past it.
use sys_prog.Prelude.{ℕ, ◌<◌, ◌≡◌, ◌≢◌, ◌∙◌, sym, ap, subst, arith, List, [], ◌∷◌, ◌++◌}
use sys_prog.Slab.{Memory}
use sys_prog.Slab.Links.{
  Apart, ApartFrom, AllApart, next_at, prev_at, Linked, Apart-sym, link_words, own_words, SameLinks,
  SameLinks-Linked,
}

unfoldable pub head_or : ℕ → List ℕ → ℕ
head_or d [] = d
head_or d (s ∷ ss) = s

unfoldable pub last_or : ℕ → List ℕ → ℕ
last_or d [] = d
last_or d (s ∷ ss) = last_or s ss

pub ApartFrom-append :
    (q : ℕ) (pre post : List ℕ) → ApartFrom q (pre ++ post) → ApartFrom q pre × ApartFrom q post
unfolding ApartFrom
ApartFrom-append q [] post a = (tt, a)
ApartFrom-append q (s ∷ pre) post (this, a) =
    let (l, r) = ApartFrom-append q pre post a in ((this, l), r)

pub Linked-first :
    (order : ℕ) (m : Memory) (p f : ℕ) (ss : List ℕ) → Linked order m p f ss → f ≡ head_or 0 ss
unfolding Linked head_or
Linked-first order m p f [] h = h
Linked-first order m p f (s ∷ ss) h = h.0

-- The links of a slab in a list lead to its neighbours.
module _ (order s : ℕ) (post : List ℕ) (m : Memory) where
  pub Linked-next :
      (pre : List ℕ) (p f : ℕ)
      → Linked order m p f (pre ++ s ∷ post)
      → m (next_at order s) ≡ head_or 0 post
  unfolding Linked
  Linked-next [] p f (at, some_s, behind, l) = Linked-first order m s (m (next_at order s)) post l
  Linked-next (q ∷ pre) p f (at, some_q, behind, l) = Linked-next pre q (m (next_at order q)) l

  pub Linked-prev :
      (pre : List ℕ) (p f : ℕ)
      → Linked order m p f (pre ++ s ∷ post)
      → m (prev_at order s) ≡ last_or p pre
  unfolding Linked last_or
  Linked-prev [] p f (at, some_s, behind, l) = behind
  Linked-prev (q ∷ pre) p f (at, some_q, behind, l) = Linked-prev pre q (m (next_at order q)) l

pub last_or-Apart : (q d : ℕ) (pre : List ℕ) → Apart q d → ApartFrom q pre → Apart q (last_or d pre)
unfolding ApartFrom last_or
last_or-Apart q d [] h a = h
last_or-Apart q d (r ∷ pre) h (this, a) = last_or-Apart q r pre this a

pub head_or-Apart :
    (q : ℕ) (post : List ℕ) → ApartFrom q post → 0 < head_or 0 post → Apart q (head_or 0 post)
unfolding ApartFrom head_or
head_or-Apart q [] a some = absurd (omega arith)
head_or-Apart q (r ∷ post) a some = a.0

-- The memory after the slab between two neighbours has been taken out; a neighbour that is 0 is none.
module _ (order nx pv : ℕ) (m m' : Memory) where
  pub record Unlinked : Type 0 where
    pub forward : 0 < pv → m' (next_at order pv) ≡ nx
    pub backward : 0 < nx → (0 < pv → Apart nx pv) → m' (prev_at order nx) ≡ pv
    pub other :
        (x : ℕ) → (0 < nx → x ≢ prev_at order nx) → (0 < pv → x ≢ next_at order pv) → m' x ≡ m x

  module _ (out : Unlinked) where
    -- A slab that is apart from those behind, and apart from the one before or that one itself.
    pub kept_links :
        (q : ℕ)
        → (0 < nx → Apart q nx)
        → (0 < pv → Apart q pv)
        → (m' (next_at order q) ≡ m (next_at order q))
          × (m' (prev_at order q) ≡ m (prev_at order q))
    kept_links q from_next from_prev = (
      out.other (next_at order q) (λ some. (link_words order q nx (from_next some)).1)
          (λ some. (link_words order q pv (from_prev some)).0),
      out.other (prev_at order q) (λ some. (link_words order q nx (from_next some)).3)
          (λ some. (link_words order q pv (from_prev some)).2),
    )

    kept_SameLinks :
        (ts : List ℕ)
        → (0 < nx → ApartFrom nx ts)
        → (0 < pv → ApartFrom pv ts)
        → SameLinks order m m' ts
    unfolding SameLinks ApartFrom
    kept_SameLinks [] n p = tt
    kept_SameLinks (t ∷ ts) n p =
        let (next, prev) =
          kept_links t (λ some. Apart-sym (n some).0) (λ some. Apart-sym (p some).0) in
        (next, prev, kept_SameLinks ts (λ some. (n some).1) (λ some. (p some).1))

    unlinked-behind :
        (s : ℕ) (post : List ℕ)
        → AllApart post
        → (0 < pv → ApartFrom pv post)
        → Linked order m s nx post
        → Linked order m' pv nx post
    unfolding Linked AllApart ApartFrom
    unlinked-behind s [] all p l = l
    unlinked-behind s (t ∷ ts) (t_apart, all) p (at, some_t, behind, l) =
        let next : m' (next_at order t) ≡ m (next_at order t) =
          out.other (next_at order t)
            (λ some e. own_words order t (e ∙ ap (λ u. prev_at order u) at))
            (λ some. (link_words order t pv (Apart-sym (p some).0)).0) in
        let prev : m' (prev_at order t) ≡ pv =
          ap (λ u. m' (prev_at order u)) (sym at)
          ∙ out.backward (omega arith)
              (λ some. subst (λ u. Apart u pv) (sym at) (Apart-sym (p some).0)) in
        let same =
          kept_SameLinks ts (λ some. subst (λ u. ApartFrom u ts) (sym at) t_apart)
            (λ some. (p some).1) in
        (
          at,
          some_t,
          prev,
          subst (λ x. Linked order m' t x ts) (sym next)
              (SameLinks-Linked order m m' ts t (m (next_at order t)) same l),
        )

    -- The slabs before: the first of the list, where the first slab may be taken out.
    unfoldable pub new_first : List ℕ → ℕ → ℕ
    new_first [] f = nx
    new_first (q ∷ pre) f = f

    unlinked-next :
        (q : ℕ) (pre : List ℕ)
        → 0 < q
        → pv ≡ last_or q pre
        → (0 < nx → Apart q nx)
        → ApartFrom q pre
        → (m' (next_at order q) ≡ new_first pre (m (next_at order q)))
          × (m' (prev_at order q) ≡ m (prev_at order q))
    unfolding new_first last_or ApartFrom
    unlinked-next q [] some_q is_last from_next a = (
      ap (λ u. m' (next_at order u)) (sym is_last) ∙ out.forward (omega arith),
      out.other (prev_at order q) (λ some. (link_words order q nx (from_next some)).3)
          (λ some e. own_words order q (sym (e ∙ ap (λ u. next_at order u) is_last))),
    )
    unlinked-next q (r ∷ pre) some_q is_last from_next (this, a) =
        kept_links q from_next
          (λ some. subst (λ u. Apart q u) (sym is_last) (last_or-Apart q r pre this a))

    pub unlinked-Linked :
        (s : ℕ) (post pre : List ℕ) (p f : ℕ)
        → m (next_at order s) ≡ nx
        → nx ≡ head_or 0 post
        → pv ≡ last_or p pre
        → AllApart (pre ++ s ∷ post)
        → (0 < p → ApartFrom p (pre ++ s ∷ post))
        → Linked order m p f (pre ++ s ∷ post)
        → Linked order m' p (new_first pre f) (pre ++ post)
    unfolding Linked AllApart last_or new_first ApartFrom
    unlinked-Linked s post [] p f next is_next is_last (s_apart, all) outside
          (at, some_s, behind, l) =
        subst (λ u. Linked order m' u nx post) is_last
          (unlinked-behind s post all
            (λ some. subst (λ u. ApartFrom u post) (sym is_last) (outside (omega arith)).1)
            (subst (λ x. Linked order m s x post) next l))
    unlinked-Linked s post (q ∷ pre) p f next is_next is_last (q_apart, all) outside
          (at, some_q, behind, l) =
        let (in_pre, in_rest) = ApartFrom-append q pre (s ∷ post) q_apart in
        let from_next : 0 < nx → Apart q nx = λ some.
          subst (λ u. Apart q u) (sym is_next) (head_or-Apart q post in_rest.1 (omega arith)) in
        let (to_next, to_prev) = unlinked-next q pre some_q is_last from_next in_pre in
        let rest =
          unlinked-Linked s post pre q (m (next_at order q)) next is_next is_last all
            (λ some. q_apart) l in
        (
          at,
          some_q,
          to_prev ∙ behind,
          subst (λ x. Linked order m' q x (pre ++ post)) (sym to_next) rest,
        )
