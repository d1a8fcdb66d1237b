-- ===== src/Slab/Move.antt =====
-- A slab that cache_alloc or cache_free moves from one list to another.
use sys_prog.Prelude.{ℕ, ◌<◌, ◌≡◌, ◌≢◌, ◌∙◌, sym, subst, arith, List, [], ◌∷◌, ◌++◌}
use sys_prog.Slab.{Memory, delete_slab_from_list, insert_slab_to_list}
use sys_prog.Slab.Links.{
  Apart, ApartFrom, AllApart, next_at, prev_at, Linked, Apart-sym, link_words, SameLinks,
  SameLinks-Linked,
}
use sys_prog.Slab.Unlink.{
  head_or, last_or, head_or-Apart, last_or-Apart, ApartFrom-append, Linked-first,
}
use sys_prog.Slab.Insert.{insert_slab_to_list-Linked, insert_slab_to_list-other}
use sys_prog.Slab.Delete.{delete_slab_from_list-Linked, delete_slab_from_list-other}

-- Each slab of a list is apart from each of another.
unfoldable pub ListsApart : List ℕ → List ℕ → Type 0
ListsApart [] ts = Unit
ListsApart (s ∷ ss) ts = ApartFrom s ts × ListsApart ss ts

append-ApartFrom :
    (q : ℕ) (pre post : List ℕ) → ApartFrom q pre → ApartFrom q post → ApartFrom q (pre ++ post)
unfolding ApartFrom
append-ApartFrom q [] post a b = b
append-ApartFrom q (r ∷ pre) post (this, a) b = (this, append-ApartFrom q pre post a b)

ListsApart-ApartFrom :
    (ts pre post : List ℕ) (s : ℕ)
    → ListsApart ts (pre ++ s ∷ post)
    → ApartFrom s ts × ListsApart ts (pre ++ post)
unfolding ListsApart ApartFrom
ListsApart-ApartFrom [] pre post s a = (tt, tt)
ListsApart-ApartFrom (t ∷ ts) pre post s (this, a) =
    let (from_s, rest) = ListsApart-ApartFrom ts pre post s a in
    let (in_pre, in_rest) = ApartFrom-append t pre (s ∷ post) this in
    ((Apart-sym in_rest.0, from_s), (append-ApartFrom t pre post in_pre in_rest.1, rest))

head-ApartFrom : (ts l : List ℕ) → ListsApart ts l → 0 < head_or 0 ts → ApartFrom (head_or 0 ts) l
unfolding ListsApart head_or
head-ApartFrom [] l a some = absurd (omega arith)
head-ApartFrom (t ∷ ts) l a some = a.0

last-Apart : (q : ℕ) (pre : List ℕ) → ApartFrom q pre → 0 < last_or 0 pre → Apart q (last_or 0 pre)
unfolding ApartFrom last_or
last-Apart q [] a some = absurd (omega arith)
last-Apart q (r ∷ pre) (this, a) some = last_or-Apart q r pre this a

AllApart-ApartFrom :
    (s : ℕ) (pre post : List ℕ) → AllApart (pre ++ s ∷ post) → ApartFrom s (pre ++ post)
unfolding AllApart ApartFrom
AllApart-ApartFrom s [] post (a, all) = a
AllApart-ApartFrom s (q ∷ pre) post (a, all) =
    let (in_pre, in_rest) = ApartFrom-append q pre (s ∷ post) a in
    (Apart-sym in_rest.0, AllApart-ApartFrom s pre post all)

module _ (order s f : ℕ) (m : Memory) where
  -- Slabs apart from those of the list keep their links when one is taken out.
  delete-SameLinks :
      (pre post us : List ℕ)
      → Linked order m 0 f (pre ++ s ∷ post)
      → ListsApart us (pre ++ s ∷ post)
      → SameLinks order m (delete_slab_from_list f s order m).1 us
  unfolding SameLinks ListsApart ApartFrom
  delete-SameLinks pre post [] l a = tt
  delete-SameLinks pre post (u ∷ us) l (this, a) =
      let (in_pre, in_rest) = ApartFrom-append u pre (s ∷ post) this in
      let other = delete_slab_from_list-other order s f pre post m l in
      let n = λ (some : 0 < head_or 0 post).
        link_words order u (head_or 0 post) (head_or-Apart u post in_rest.1 some) in
      let p = λ (some : 0 < last_or 0 pre).
        link_words order u (last_or 0 pre) (last-Apart u pre in_pre some) in
      (
        other (next_at order u) (λ some. (n some).1) (λ some. (p some).0),
        other (prev_at order u) (λ some. (n some).3) (λ some. (p some).2),
        delete-SameLinks pre post us l a,
      )

  -- And when one is inserted.
  insert-SameLinks :
      (us : List ℕ)
      → 0 < s
      → ApartFrom s us
      → (0 < f → ApartFrom f us)
      → SameLinks order m (insert_slab_to_list f s order m).1 us
  unfolding SameLinks ApartFrom
  insert-SameLinks [] some_s a b = tt
  insert-SameLinks (u ∷ us) some_s (this, a) b =
      let (nn, np, pn, pp) = link_words order u s (Apart-sym this) in
      let first = λ (some : 0 < f). link_words order u f (Apart-sym (b some).0) in
      (
        insert_slab_to_list-other order s some_s f (next_at order u) m nn np
            (λ some. (first some).1),
        insert_slab_to_list-other order s some_s f (prev_at order u) m pn pp
            (λ some. (first some).3),
        insert-SameLinks us some_s a (λ some. (b some).1),
      )

-- A word that is no link of the slabs of a list.
unfoldable pub NoLink : (order x : ℕ) → List ℕ → Type 0
NoLink order x [] = Unit
NoLink order x (s ∷ ss) = (x ≢ next_at order s) × (x ≢ prev_at order s) × NoLink order x ss

NoLink-append :
    (order x : ℕ) (pre post : List ℕ)
    → NoLink order x (pre ++ post)
    → NoLink order x pre × NoLink order x post
unfolding NoLink
NoLink-append order x [] post h = (tt, h)
NoLink-append order x (s ∷ pre) post (n, p, h) =
    let (l, r) = NoLink-append order x pre post h in ((n, p, l), r)

NoLink-head :
    (order x : ℕ) (ss : List ℕ)
    → NoLink order x ss
    → 0 < head_or 0 ss
    → x ≢ prev_at order (head_or 0 ss)
unfolding NoLink head_or
NoLink-head order x [] h some = absurd (omega arith)
NoLink-head order x (s ∷ ss) h some = h.1

NoLink-last :
    (order x d : ℕ) (ss : List ℕ)
    → (0 < d → x ≢ next_at order d)
    → NoLink order x ss
    → 0 < last_or d ss
    → x ≢ next_at order (last_or d ss)
unfolding NoLink last_or
NoLink-last order x d [] first h some = first some
NoLink-last order x d (s ∷ ss) first (n, p, h) some = NoLink-last order x s ss (λ e. n) h some

module _ (order s fa fb fu : ℕ) (m : Memory) (pre post ts us : List ℕ) (some_s : 0 < s) where
  -- A slab moves from one of three lists to the beginning of another: the first list keeps its other
  -- slabs and the third one all, in their order, and no other word of the memory changes than links
  -- of the slabs of the first two lists.
  pub move-Linked :
      Linked order m 0 fa (pre ++ s ∷ post)
      → Linked order m 0 fb ts
      → Linked order m 0 fu us
      → AllApart (pre ++ s ∷ post)
      → AllApart ts
      → ListsApart ts (pre ++ s ∷ post)
      → ListsApart us (pre ++ s ∷ post)
      → ListsApart ts us
      → (let d = delete_slab_from_list fa s order m in
          let i = insert_slab_to_list fb s order d.1 in
          Linked order i.1 0 d.0 (pre ++ post)
          × Linked order i.1 0 i.0 (s ∷ ts)
          × Linked order i.1 0 fu us
          × ((x : ℕ) → NoLink order x (pre ++ s ∷ post) → NoLink order x ts → i.1 x ≡ m x))
  unfolding NoLink
  move-Linked from to third apart_from apart_to to_from third_from to_third =
      let d = delete_slab_from_list fa s order m in
      let m1 = d.1 in
      let m2 = (insert_slab_to_list fb s order m1).1 in
      let (s_to, to_rest) = ListsApart-ApartFrom ts pre post s to_from in
      let (s_third, third_rest) = ListsApart-ApartFrom us pre post s third_from in
      let first = Linked-first order m 0 fb ts to in
      let head : (l : List ℕ) → ListsApart ts l → 0 < fb → ApartFrom fb l = λ l a some.
        subst (λ u. ApartFrom u l) (sym first)
          (head-ApartFrom ts l a (subst (λ u. 0 < u) first some)) in
      let left = delete_slab_from_list-Linked order s fa pre post m from apart_from in
      let kept_to =
        SameLinks-Linked order m m1 ts 0 fb (delete-SameLinks order s fa m pre post ts from to_from)
          to in
      let kept_third =
        SameLinks-Linked order m m1 us 0 fu
          (delete-SameLinks order s fa m pre post us from third_from) third in
      (
        SameLinks-Linked order m1 m2 (pre ++ post) 0 d.0
            (insert-SameLinks order s fb m1 (pre ++ post) some_s
              (AllApart-ApartFrom s pre post apart_from) (head (pre ++ post) to_rest))
            left,
        insert_slab_to_list-Linked order s some_s ts fb m1 apart_to s_to kept_to,
        SameLinks-Linked order m1 m2 us 0 fu
            (insert-SameLinks order s fb m1 us some_s s_third (head us to_third)) kept_third,
        (λ x no_from no_to.
            let (no_pre, no_rest) = NoLink-append order x pre (s ∷ post) no_from in
            insert_slab_to_list-other order s some_s fb x m1 no_rest.0 no_rest.1
              (subst (λ u. 0 < u → x ≢ prev_at order u) (sym first) (NoLink-head order x ts no_to))
            ∙ delete_slab_from_list-other order s fa pre post m from x
                (NoLink-head order x post no_rest.2)
                (NoLink-last order x 0 pre (λ some. absurd (omega arith)) no_pre)),
      )
