-- ===== src/Slab/Insert.antt =====
-- insert_slab_to_list against the list that the memory holds.
use sys_prog.Prelude.{
  ℕ, zero, suc, ◌<◌, ◌≡◌, ◌≢◌, refl, ◌∙◌, sym, ap, subst, arith, false, ◌==◌, List, [], ◌∷◌, ne→==,
}
use sys_prog.Slab.{Memory, write_word, insert_slab_to_list}
use sys_prog.Slab.Chunks.{write_word-same, write_word-other}
use sys_prog.Slab.Links.{
  ApartFrom, AllApart, next_at, prev_at, Linked, Apart-sym, link_words, own_words, SameLinks-Linked,
  SameLinks-trans, ChangesOnly, ChangesOnly-SameLinks,
}

module _ (order s : ℕ) (some_s : 0 < s) where
  -- The first two writes.
  abbrev as_first : ℕ → Memory → Memory
  as_first f m = write_word (prev_at order s) 0 (write_word (next_at order s) f m)

  as_first-next : (f : ℕ) (m : Memory) → as_first f m (next_at order s) ≡ f
  as_first-next f m =
      write_word-other (prev_at order s) 0 (next_at order s) (write_word (next_at order s) f m)
        (own_words order s)
      ∙ write_word-same (next_at order s) f m

  as_first-prev : (f : ℕ) (m : Memory) → as_first f m (prev_at order s) ≡ 0
  as_first-prev f m = write_word-same (prev_at order s) 0 (write_word (next_at order s) f m)

  as_first-ChangesOnly : (f : ℕ) (m : Memory) → ChangesOnly order m (as_first f m) s
  as_first-ChangesOnly f m x next prev =
      write_word-other (prev_at order s) 0 x (write_word (next_at order s) f m) prev
      ∙ write_word-other (next_at order s) f x m next

  insert-empty : (m : Memory) → insert_slab_to_list 0 s order m ≡ (s, as_first 0 m)
  unfolding insert_slab_to_list
  insert-empty m = refl

  insert-before :
      (f : ℕ) (m : Memory)
      → 0 < f
      → insert_slab_to_list f s order m ≡ (s, write_word (prev_at order f) s (as_first f m))
  unfolding insert_slab_to_list
  insert-before f m some_f = let e : (f == 0) ≡ false = ne→== f 0 (λ z. omega arith) in rw e refl

  write_prev-ChangesOnly :
      (t v : ℕ) (m : Memory) → ChangesOnly order m (write_word (prev_at order t) v m) t
  write_prev-ChangesOnly t v m x next prev = write_word-other (prev_at order t) v x m prev

  -- A slab that is inserted into a list stands before the others, which keep their order.
  pub insert_slab_to_list-Linked :
      (ss : List ℕ) (f : ℕ) (m : Memory)
      → AllApart ss
      → ApartFrom s ss
      → Linked order m 0 f ss
      → (let r = insert_slab_to_list f s order m in Linked order r.1 0 r.0 (s ∷ ss))
  unfolding Linked ApartFrom AllApart
  insert_slab_to_list-Linked [] f m all apart empty =
      rw (empty, insert-empty m) (refl, some_s, as_first-prev 0 m, as_first-next 0 m)
  insert_slab_to_list-Linked (t ∷ ts) f m (t_apart, all) (st, apart) (at, some_t, behind, l) =
      let m2 : Memory = as_first t m in
      let m3 : Memory = write_word (prev_at order t) s m2 in
      let (nn, np, pn, pp) = link_words order s t st in
      let (nn', np', pn', pp') = link_words order t s (Apart-sym st) in
      let next : m3 (next_at order t) ≡ m (next_at order t) =
        write_word-other (prev_at order t) s (next_at order t) m2 (own_words order t)
        ∙ as_first-ChangesOnly t m (next_at order t) nn' np' in
      let same =
        SameLinks-trans order m m2 m3 ts
          (ChangesOnly-SameLinks order m m2 s ts (as_first-ChangesOnly t m) apart)
          (ChangesOnly-SameLinks order m2 m3 t ts (write_prev-ChangesOnly t s m2) t_apart) in
      subst (λ r. Linked order r.1 0 r.0 (s ∷ t ∷ ts))
        (sym (ap (λ z. insert_slab_to_list z s order m) at ∙ insert-before t m some_t))
        (
          refl,
          some_s,
          write_word-other (prev_at order t) s (prev_at order s) m2 pp ∙ as_first-prev t m,
          (
            write_word-other (prev_at order t) s (next_at order s) m2 np ∙ as_first-next t m,
            some_t,
            write_word-same (prev_at order t) s m2,
            subst (λ x. Linked order m3 t x ts) (sym next)
                (SameLinks-Linked order m m3 ts t (m (next_at order t)) same l),
          ),
        )

  -- What stands in the other words is left as it was.
  pub insert_slab_to_list-other :
      (f x : ℕ) (m : Memory)
      → x ≢ next_at order s
      → x ≢ prev_at order s
      → (0 < f → x ≢ prev_at order f)
      → (insert_slab_to_list f s order m).1 x ≡ m x
  insert_slab_to_list-other zero x m next prev before =
      rw (insert-empty m) (as_first-ChangesOnly 0 m x next prev)
  insert_slab_to_list-other (suc f) x m next prev before =
      rw (insert-before (suc f) m (omega arith)) (
        write_word-other (prev_at order (suc f)) s x (as_first (suc f) m) (before (omega arith))
        ∙ as_first-ChangesOnly (suc f) m x next prev)
