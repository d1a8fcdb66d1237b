-- ===== src/Slab/CacheMoves.antt =====
-- The four moves of a slab between the lists of a cache.
use sys_prog.Prelude.{ℕ, ◌<◌, List, ◌∷◌, ◌++◌}
use sys_prog.Slab.{Memory, Cache}
use sys_prog.Slab.FreeChunks.{FreeChunks}
use sys_prog.Slab.Disjoint.{Each-at, Each-without, Each-cons}
use sys_prog.Slab.Requests.{move_to_full, move_from_free, move_to_free, move_from_full}
use sys_prog.Slab.Holds.{Words}
use sys_prog.Slab.Spread.{
  AllDisjoint-Spread, second_to_third, first_to_second, second_to_first, third_to_second,
}
use sys_prog.Slab.Moved.{Moved, move-Moved, rotate, swap}

module _ (c : Cache) (m : Memory) (g : ℕ → List ℕ) (s : ℕ) (some_s : 0 < s) where
  abbrev Here : Memory → ℕ → Type 0
  Here m' u = FreeChunks c.slab_objects c.object_size c.slab_order m' u (g u)

  pub move_to_full-Moved :
      (free pre post fully : List ℕ)
      → Words c m free (pre ++ s ∷ post) fully g
      → (let r = move_to_full s c m in
          Moved c.slab_order c.slab_objects c.object_size m r.1 r.0.partly_allocated_slabs
            r.0.fully_allocated_slabs r.0.free_slabs
            (pre ++ s ∷ post)
            fully
            (pre ++ post)
            (s ∷ fully)
            free)
  unfolding move_to_full
  move_to_full-Moved free pre post fully w =
      let order = c.slab_order in
      let from : List ℕ = pre ++ s ∷ post in
      let spread =
        rotate order free from fully (AllDisjoint-Spread order free from fully w.apart) in
      move-Moved order c.slab_objects c.object_size w.fits s c.partly_allocated_slabs
        c.fully_allocated_slabs c.free_slabs m pre post fully free some_s spread w.slabs.in_partly
        w.slabs.in_fully w.slabs.in_free

  pub move_to_full-Words :
      (free pre post fully : List ℕ)
      → Words c m free (pre ++ s ∷ post) fully g
      → (let r = move_to_full s c m in Words r.0 r.1 free (pre ++ post) (s ∷ fully) g)
  unfolding move_to_full
  move_to_full-Words free pre post fully w =
      let moved = move_to_full-Moved free pre post fully w in
      let order = c.slab_order in
      let m' = (move_to_full s c m).1 in
      let in_from = moved.from_words g w.partly_words in
      record {
        fits = w.fits;
        slabs = record {
          in_free = moved.of_third;
          in_partly = moved.of_from;
          in_fully = moved.of_to;
        };
        apart = second_to_third order s free pre post fully w.apart;
        free_words = moved.third_words g w.free_words;
        partly_words = Each-without (Here m') pre s post in_from;
        fully_words =
            Each-cons (Here m') s fully (Each-at (Here m') pre s post in_from)
              (moved.to_words g w.fully_words);
      }

  pub move_from_free-Moved :
      (pre post partly fully : List ℕ)
      → Words c m (pre ++ s ∷ post) partly fully g
      → (let r = move_from_free s c m in
          Moved c.slab_order c.slab_objects c.object_size m r.1 r.0.free_slabs
            r.0.partly_allocated_slabs r.0.fully_allocated_slabs
            (pre ++ s ∷ post)
            partly
            (pre ++ post)
            (s ∷ partly)
            fully)
  unfolding move_from_free
  move_from_free-Moved pre post partly fully w =
      let order = c.slab_order in
      let from : List ℕ = pre ++ s ∷ post in
      let spread = AllDisjoint-Spread order from partly fully w.apart in
      move-Moved order c.slab_objects c.object_size w.fits s c.free_slabs c.partly_allocated_slabs
        c.fully_allocated_slabs m pre post partly fully some_s spread w.slabs.in_free
        w.slabs.in_partly w.slabs.in_fully

  pub move_from_free-Words :
      (pre post partly fully : List ℕ)
      → Words c m (pre ++ s ∷ post) partly fully g
      → (let r = move_from_free s c m in Words r.0 r.1 (pre ++ post) (s ∷ partly) fully g)
  unfolding move_from_free
  move_from_free-Words pre post partly fully w =
      let moved = move_from_free-Moved pre post partly fully w in
      let order = c.slab_order in
      let m' = (move_from_free s c m).1 in
      let in_from = moved.from_words g w.free_words in
      record {
        fits = w.fits;
        slabs = record {
          in_free = moved.of_from;
          in_partly = moved.of_to;
          in_fully = moved.of_third;
        };
        apart = first_to_second order s pre post partly fully w.apart;
        free_words = Each-without (Here m') pre s post in_from;
        partly_words =
            Each-cons (Here m') s partly (Each-at (Here m') pre s post in_from)
              (moved.to_words g w.partly_words);
        fully_words = moved.third_words g w.fully_words;
      }

  pub move_to_free-Moved :
      (free pre post fully : List ℕ)
      → Words c m free (pre ++ s ∷ post) fully g
      → (let r = move_to_free s c m in
          Moved c.slab_order c.slab_objects c.object_size m r.1 r.0.partly_allocated_slabs
            r.0.free_slabs r.0.fully_allocated_slabs
            (pre ++ s ∷ post)
            free
            (pre ++ post)
            (s ∷ free)
            fully)
  unfolding move_to_free
  move_to_free-Moved free pre post fully w =
      let order = c.slab_order in
      let from : List ℕ = pre ++ s ∷ post in
      let spread = swap order free from fully (AllDisjoint-Spread order free from fully w.apart) in
      move-Moved order c.slab_objects c.object_size w.fits s c.partly_allocated_slabs c.free_slabs
        c.fully_allocated_slabs m pre post free fully some_s spread w.slabs.in_partly
        w.slabs.in_free w.slabs.in_fully

  pub move_to_free-Words :
      (free pre post fully : List ℕ)
      → Words c m free (pre ++ s ∷ post) fully g
      → (let r = move_to_free s c m in Words r.0 r.1 (s ∷ free) (pre ++ post) fully g)
  unfolding move_to_free
  move_to_free-Words free pre post fully w =
      let moved = move_to_free-Moved free pre post fully w in
      let order = c.slab_order in
      let m' = (move_to_free s c m).1 in
      let in_from = moved.from_words g w.partly_words in
      record {
        fits = w.fits;
        slabs = record {
          in_free = moved.of_to;
          in_partly = moved.of_from;
          in_fully = moved.of_third;
        };
        apart = second_to_first order s free pre post fully w.apart;
        free_words =
            Each-cons (Here m') s free (Each-at (Here m') pre s post in_from)
              (moved.to_words g w.free_words);
        partly_words = Each-without (Here m') pre s post in_from;
        fully_words = moved.third_words g w.fully_words;
      }

  pub move_from_full-Moved :
      (free partly pre post : List ℕ)
      → Words c m free partly (pre ++ s ∷ post) g
      → (let r = move_from_full s c m in
          Moved c.slab_order c.slab_objects c.object_size m r.1 r.0.fully_allocated_slabs
            r.0.partly_allocated_slabs r.0.free_slabs
            (pre ++ s ∷ post)
            partly
            (pre ++ post)
            (s ∷ partly)
            free)
  unfolding move_from_full
  move_from_full-Moved free partly pre post w =
      let order = c.slab_order in
      let from : List ℕ = pre ++ s ∷ post in
      let spread =
        swap order partly from free
          (rotate order free partly from (AllDisjoint-Spread order free partly from w.apart)) in
      move-Moved order c.slab_objects c.object_size w.fits s c.fully_allocated_slabs
        c.partly_allocated_slabs c.free_slabs m pre post partly free some_s spread w.slabs.in_fully
        w.slabs.in_partly w.slabs.in_free

  pub move_from_full-Words :
      (free partly pre post : List ℕ)
      → Words c m free partly (pre ++ s ∷ post) g
      → (let r = move_from_full s c m in Words r.0 r.1 free (s ∷ partly) (pre ++ post) g)
  unfolding move_from_full
  move_from_full-Words free partly pre post w =
      let moved = move_from_full-Moved free partly pre post w in
      let order = c.slab_order in
      let m' = (move_from_full s c m).1 in
      let in_from = moved.from_words g w.fully_words in
      record {
        fits = w.fits;
        slabs = record {
          in_free = moved.of_third;
          in_partly = moved.of_to;
          in_fully = moved.of_from;
        };
        apart = third_to_second order s free partly pre post w.apart;
        free_words = moved.third_words g w.free_words;
        partly_words =
            Each-cons (Here m') s partly (Each-at (Here m') pre s post in_from)
              (moved.to_words g w.partly_words);
        fully_words = Each-without (Here m') pre s post in_from;
      }
