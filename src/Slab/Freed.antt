-- ===== src/Slab/Freed.antt =====
-- cache_free on the slabs that a cache stands for.
use sys_prog.Prelude.{
  ℕ, suc, ◌+◌, ◌^◌, ◌<◌, ◌≤◌, ◌≡◌, ◌≢◌, refl, ◌∙◌, sym, ap, subst, arith, false, ◌==◌, List, ◌∷◌,
  ◌++◌, ◌⊎◌, inl, inr, length, ne→==, Bool-cases, ==→eq,
}
use sys_prog.Slab.{Memory, Cache, get_slab_header}
use sys_prog.Slab.Requests.{cache_free, chunk_freed, push_chunk, move_to_free, move_from_full}
use sys_prog.Slab.Sizes.{IsSlab}
use sys_prog.Slab.FreeChunks.{FreeChunks, IsObject, NotIn, object-below, push_chunk-count}
use sys_prog.Slab.Disjoint.{
  Each, Each-at, Each-with, Each-without, Each-cons, Disjoint, AllDisjoint-out, all_related,
}
use sys_prog.Slab.Spread.{AllDisjoint-Spread, Across-Near}
use sys_prog.Slab.CacheMoves.{
  move_to_free-Words, move_to_free-Moved, move_from_full-Words, move_from_full-Moved,
}
use sys_prog.Slab.Pushed.{start_of_object, push_chunk-frame, pushed-Words, cache_free-at}
use sys_prog.Slab.Contract.{Place, in_partly, in_fully, lists_before, lists_after, Returned}
use sys_prog.Slab.Holds.{Holds, NoHeader, changed, changed-same, other-Each}

module _ (c : Cache) (m : Memory) (chunks : ℕ → List ℕ) (s ptr : ℕ) (some_s : 0 < s)
    (slab : IsSlab c.slab_order s) (this : IsObject c.slab_objects c.object_size s ptr)
    (other : NotIn ptr (chunks s)) where
  -- It is an object of a partly allocated slab.
  cache_free-partly :
      (free pre post fully : List ℕ)
      → Holds c m free (pre ++ s ∷ post) fully chunks
      → Returned c m (cache_free ptr c m) in_partly free fully pre s post chunks ptr
  unfolding chunk_freed move_to_free lists_before lists_after
  cache_free-partly free pre post fully h =
      let n = c.slab_objects in
      let size = c.object_size in
      let order = c.slab_order in
      let w = h.words in
      let from : List ℕ = pre ++ s ∷ post in
      let cs : List ℕ = ptr ∷ chunks s in
      let m1 : Memory = push_chunk ptr (get_slab_header s order) m in
      let pushed_other : (x : ℕ) → x ≢ ptr → NoHeader order x from → m1 x ≡ m x = λ x not_ptr out.
        push_chunk-frame n size order w.fits chunks m s ptr x not_ptr (
          Each-at (λ u. (x < get_slab_header u order) ⊎ (get_slab_header u order + 32 ≤ x)) pre s
            post out) in
      let spread = AllDisjoint-Spread order free from fully w.apart in
      let d_free = Each-at (λ x. Each (Disjoint order x) free) pre s post spread.second_first in
      let d_fully = Each-at (λ x. Each (Disjoint order x) fully) pre s post spread.second_third in
      let d_rest = (AllDisjoint-out order s pre post spread.second).0 in
      let (some_free, few) =
        Each-at (λ u. (0 < length (chunks u)) × (length (chunks u) < n)) pre s post h.partly_some in
      let now = Each-at (λ u. FreeChunks n size order m u (chunks u)) pre s post w.partly_words in
      let room = h.countable in
      let small : length (chunks s) + 1 < 2 ^ 64 = omega arith in
      let words =
        pushed-Words c m free from fully chunks h s ptr some_s this other small now
          (Each-at (λ x. Each (λ t. (x ≡ t) ⊎ Disjoint order x t) free) pre s post
            (Across-Near order from free spread.second_first))
          (Each-at (λ x. Each (λ t. (x ≡ t) ⊎ Disjoint order x t) from) pre s post
            (all_related order from spread.second))
          (Each-at (λ x. Each (λ t. (x ≡ t) ⊎ Disjoint order x t) fully) pre s post
            (Across-Near order from fully spread.second_third)) in
      let (above, below) = object-below n size order w.fits s ptr this in
      let count =
        push_chunk-count n size order w.fits s ptr m (length (chunks s)) small below now.count in
      let e =
        cache_free-at c m ptr s (suc (length (chunks s)))
          (start_of_object n size order w.fits chunks m s ptr slab this) count in
      let same = changed-same chunks s cs in
      let keep = λ (P : List ℕ → Type 0). other-Each n size order w.fits chunks m P s cs in
      let kept_free = keep (λ l. length l ≡ n) free d_free h.free_all in
      let kept_rest =
        keep (λ l. (0 < length l) × (length l < n)) (pre ++ post) d_rest
          (Each-without (λ u. (0 < length (chunks u)) × (length (chunks u) < n)) pre s post
            h.partly_some) in
      let kept_fully = keep (λ l. length l ≡ 0) fully d_fully h.fully_none in
      let plus : length (chunks s) + 1 ≡ suc (length (chunks s)) = omega arith in
      subst (λ r. Returned c m r in_partly free fully pre s post chunks ptr) (sym e)
        (rw plus (elim (Bool-cases (suc (length (chunks s)) == n)) [
          | inl whole ↦
              let all : suc (length (chunks s)) ≡ n = ==→eq (suc (length (chunks s))) n whole in
              rw whole (record {
                same_size = refl;
                same_order = refl;
                same_objects = refl;
                frame = λ x out.
                    (move_to_free-Moved c m1 (changed chunks s cs) s some_s free pre post fully
                        words).frame
                      x out.2 out.1
                    ∙ pushed_other x out.0 out.2;
                holds = record {
                  words =
                      move_to_free-Words c m1 (changed chunks s cs) s some_s free pre post fully
                        words;
                  several = h.several;
                  countable = h.countable;
                  free_all =
                      Each-cons (λ u. length (changed chunks s cs u) ≡ n) s free
                        (ap length same ∙ all) kept_free;
                  partly_some = kept_rest;
                  fully_none = kept_fully;
                };
              })
          | inr part ↦
              let more : (suc (length (chunks s)) == 1) ≡ false =
                ne→== (suc (length (chunks s))) 1 (λ z. omega arith) in
              let fewer : suc (length (chunks s)) < n = ground arith in
              rw (part, more)
                (record {
                  same_size = refl;
                  same_order = refl;
                  same_objects = refl;
                  frame = λ x out. pushed_other x out.0 out.2;
                  holds = record {
                    words = words;
                    several = h.several;
                    countable = h.countable;
                    free_all = kept_free;
                    partly_some =
                        Each-with
                          (λ u.
                            (0 < length (changed chunks s cs u))
                            × (length (changed chunks s cs u) < n))
                          pre s post
                          (subst (λ l. (0 < length l) × (length l < n)) (sym same)
                            (omega arith, fewer))
                          kept_rest;
                    fully_none = kept_fully;
                  };
                })
        ]))

  -- It is an object of a fully allocated slab.
  cache_free-fully :
      (free partly pre post : List ℕ)
      → Holds c m free partly (pre ++ s ∷ post) chunks
      → Returned c m (cache_free ptr c m) in_fully free partly pre s post chunks ptr
  unfolding chunk_freed move_from_full lists_before lists_after
  cache_free-fully free partly pre post h =
      let n = c.slab_objects in
      let size = c.object_size in
      let order = c.slab_order in
      let w = h.words in
      let from : List ℕ = pre ++ s ∷ post in
      let cs : List ℕ = ptr ∷ chunks s in
      let m1 : Memory = push_chunk ptr (get_slab_header s order) m in
      let pushed_other : (x : ℕ) → x ≢ ptr → NoHeader order x from → m1 x ≡ m x = λ x not_ptr out.
        push_chunk-frame n size order w.fits chunks m s ptr x not_ptr (
          Each-at (λ u. (x < get_slab_header u order) ⊎ (get_slab_header u order + 32 ≤ x)) pre s
            post out) in
      let spread = AllDisjoint-Spread order free partly from w.apart in
      let d_free = Each-at (λ x. Each (Disjoint order x) free) pre s post spread.third_first in
      let d_partly = Each-at (λ x. Each (Disjoint order x) partly) pre s post spread.third_second in
      let d_rest = (AllDisjoint-out order s pre post spread.third).0 in
      let no_chunk = Each-at (λ u. length (chunks u) ≡ 0) pre s post h.fully_none in
      let now = Each-at (λ u. FreeChunks n size order m u (chunks u)) pre s post w.fully_words in
      let two = h.several in
      let small : length (chunks s) + 1 < 2 ^ 64 = omega arith in
      let words =
        pushed-Words c m free partly from chunks h s ptr some_s this other small now
          (Each-at (λ x. Each (λ t. (x ≡ t) ⊎ Disjoint order x t) free) pre s post
            (Across-Near order from free spread.third_first))
          (Each-at (λ x. Each (λ t. (x ≡ t) ⊎ Disjoint order x t) partly) pre s post
            (Across-Near order from partly spread.third_second))
          (Each-at (λ x. Each (λ t. (x ≡ t) ⊎ Disjoint order x t) from) pre s post
            (all_related order from spread.third)) in
      let (above, below) = object-below n size order w.fits s ptr this in
      let count =
        push_chunk-count n size order w.fits s ptr m 0 (omega arith) below (now.count ∙ no_chunk) in
      let e =
        cache_free-at c m ptr s 1 (start_of_object n size order w.fits chunks m s ptr slab this)
          count in
      let same = changed-same chunks s cs in
      let keep = λ (P : List ℕ → Type 0). other-Each n size order w.fits chunks m P s cs in
      let one : suc (length (chunks s)) ≡ 1 = omega arith in
      let not_whole : (1 == n) ≡ false = ne→== 1 n (λ z. omega arith) in
      subst (λ r. Returned c m r in_fully free partly pre s post chunks ptr) (sym e)
        (rw not_whole (record {
          same_size = refl;
          same_order = refl;
          same_objects = refl;
          frame = λ x out.
              (move_from_full-Moved c m1 (changed chunks s cs) s some_s free partly pre post
                  words).frame
                x out.3 out.2
              ∙ pushed_other x out.0 out.3;
          holds = record {
            words =
                move_from_full-Words c m1 (changed chunks s cs) s some_s free partly pre post words;
            several = h.several;
            countable = h.countable;
            free_all = keep (λ l. length l ≡ n) free d_free h.free_all;
            partly_some =
                Each-cons
                  (λ u. (0 < length (changed chunks s cs u)) × (length (changed chunks s cs u) < n))
                  s partly
                  (subst (λ l. (0 < length l) × (length l < n)) (sym same)
                    (omega arith, omega arith))
                  (keep (λ l. (0 < length l) × (length l < n)) partly d_partly h.partly_some);
            fully_none =
                keep (λ l. length l ≡ 0) (pre ++ post) d_rest
                  (Each-without (λ u. length (chunks u) ≡ 0) pre s post h.fully_none);
          };
        }))

  -- cache_free of an object that is not free, of a slab that is partly or fully allocated and begins at
  -- a multiple of its size: the object is the first free chunk of its slab afterwards. A partly allocated
  -- slab becomes the first of the free ones when all its objects are free now, and stays where it is
  -- otherwise; a fully allocated one becomes the first of the partly allocated ones. All other slabs
  -- stay in their lists and keep their free chunks, and no two share a byte; no word outside of the
  -- headers of slabs changes but the one of the object.
  pub cache_free-Returned :
      (place : Place) (free other pre post : List ℕ)
      → (let l = lists_before place free other pre s post in
          Holds c m l.free l.partly l.fully chunks)
      → Returned c m (cache_free ptr c m) place free other pre s post chunks ptr
  unfolding lists_before
  cache_free-Returned in_partly free other pre post h = cache_free-partly free pre post other h
  cache_free-Returned in_fully free other pre post h = cache_free-fully free other pre post h
