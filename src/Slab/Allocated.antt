-- ===== src/Slab/Allocated.antt =====
-- cache_alloc gives a free chunk and takes it out of the free ones.
use sys_prog.Prelude.{
  ℕ, suc, ◌+◌, ◌<◌, ◌≡◌, refl, ◌∙◌, sym, ap, subst, arith, true, false, ◌==◌, List, [], ◌∷◌, ◌++◌,
  ◌⊎◌, inl, inr, length, eq→==, ne→==,
}
use sys_prog.Slab.{Memory, Cache, get_slab_header, write_word}
use sys_prog.Slab.Requests.{
  cache_alloc, alloc_partly, alloc_free, drop_chunk, decrement, move_to_full, move_from_free,
}
use sys_prog.Slab.Links.{Linked}
use sys_prog.Slab.FreeChunks.{FreeChunks, counted_down-count}
use sys_prog.Slab.Disjoint.{Each, Disjoint, AllDisjoint}
use sys_prog.Slab.Chunks.{objects}
use sys_prog.Slab.Fresh.{initialize-Holds, initialize-outside}
use sys_prog.Slab.Sizes.{page-slab_size}
use sys_prog.Slab.Contract.{first_slab, taken_lists, Taken, OutOfHeaders, OutOfRegion}
use sys_prog.Slab.Holds.{Holds, Keeps, NoHeader, changed}
use sys_prog.Slab.Alloc.{
  first_chunk, Linked-pos, partly_more, partly_last, free_first, drop_chunk-frame,
}

some_chunk : (l : List ℕ) → 0 < length l → (x : ℕ) × (cs : List ℕ) × (l ≡ x ∷ cs)
some_chunk [] h = absurd (omega arith)
some_chunk (x ∷ cs) h = (x, cs, refl)

none_or_some : (l : List ℕ) → (l ≡ []) ⊎ (0 < length l)
none_or_some [] = inl refl
none_or_some (x ∷ cs) = inr (omega arith)

counted : Cache → Memory → ℕ → Memory
counted c m s =
    write_word (get_slab_header s c.slab_order + 8)
      (decrement (m (get_slab_header s c.slab_order + 8))) m

alloc_partly-more :
    (c : Cache) (m : Memory) (s x n : ℕ)
    → c.partly_allocated_slabs ≡ s
    → m (get_slab_header s c.slab_order) ≡ x
    → counted c m s (get_slab_header s c.slab_order + 8) ≡ n
    → 0 < n
    → alloc_partly c m ≡ (x, (c, drop_chunk (get_slab_header s c.slab_order) (counted c m s)))
unfolding alloc_partly counted
alloc_partly-more c m s x n at first count some =
    let t : (n == 0) ≡ false = ne→== n 0 (λ z. omega arith) in rw (at, first, count, t) refl

alloc_partly-last :
    (c : Cache) (m : Memory) (s x : ℕ)
    → c.partly_allocated_slabs ≡ s
    → m (get_slab_header s c.slab_order) ≡ x
    → counted c m s (get_slab_header s c.slab_order + 8) ≡ 0
    → alloc_partly c m ≡ (x, move_to_full s c (counted c m s))
unfolding alloc_partly counted
alloc_partly-last c m s x at first count = rw (at, first, count) refl

alloc_free-first :
    (c : Cache) (m : Memory) (s x : ℕ)
    → c.free_slabs ≡ s
    → m (get_slab_header s c.slab_order) ≡ x
    → alloc_free c m
      ≡ (x, move_from_free s c (drop_chunk (get_slab_header s c.slab_order) (counted c m s)))
unfolding alloc_free counted
alloc_free-first c m s x at first = rw (at, first) refl

-- The slab at the beginning of the partly allocated ones gives its first free chunk.
alloc_partly-Taken :
    (c : Cache) (m : Memory) (s : ℕ) (free ps fully : List ℕ) (chunks : ℕ → List ℕ)
    → Holds c m free (s ∷ ps) fully chunks
    → Taken c m
        (alloc_partly c m)
        free
        (s ∷ ps)
        fully
        chunks
        (OutOfHeaders c.slab_order free (s ∷ ps) fully)
unfolding Each counted first_slab taken_lists move_to_full
alloc_partly-Taken c m s free ps fully chunks h =
    let order = c.slab_order in
    let w = h.words in
    let room = h.countable in
    let (some_s, below) = h.partly_some.0 in
    let (at, positive) = Linked-pos order m 0 c.partly_allocated_slabs s ps w.slabs.in_partly in
    let (x, cs, e) = some_chunk (chunks s) some_s in
    let now = subst (λ l. FreeChunks c.slab_objects c.object_size order m s l) e w.partly_words.0 in
    let first = first_chunk c.slab_objects c.object_size order w.fits chunks m s x cs now in
    let size_e : length (chunks s) ≡ suc (length cs) = ap length e in
    let count =
      counted_down-count c.slab_objects c.object_size order w.fits s m (length cs) (omega arith)
        now.count in
    elim (none_or_some cs) [
      | inl none_left ↦
          let last = alloc_partly-last c m s x at first (count ∙ ap length none_left) in
          let e' = e ∙ ap (λ l. x ∷ l) none_left in
          let (now_holds, kept) = partly_last c m chunks s x free ps fully positive h e' in
          subst
            (λ r.
              Taken c m r free (s ∷ ps) fully chunks
                (OutOfHeaders c.slab_order free (s ∷ ps) fully))
            (sym last)
            (
              [],
              e',
              record {
                same_size = refl;
                same_order = refl;
                same_objects = refl;
                holds = now_holds;
                frame = λ x out. kept x out.1 out.2;
              },
            )
      | inr more ↦
          let (y, ys, e') = some_chunk cs more in
          subst
            (λ r.
              Taken c m r free (s ∷ ps) fully chunks
                (OutOfHeaders c.slab_order free (s ∷ ps) fully))
            (sym (alloc_partly-more c m s x (length cs) at first count more))
            (
              cs,
              e,
              subst
                  (λ l.
                    Keeps c m c (drop_chunk (get_slab_header s order) (counted c m s))
                      (taken_lists free (s ∷ ps) fully l) (changed chunks s cs)
                      (OutOfHeaders c.slab_order free (s ∷ ps) fully))
                  (sym e')
                  (record {
                    same_size = refl;
                    same_order = refl;
                    same_objects = refl;
                    holds = partly_more c m chunks s x free ps fully cs h e more;
                    frame = λ x out.
                        drop_chunk-frame c.slab_objects c.object_size order w.fits chunks m s x
                          out.1.0;
                  }),
            )
    ]

-- The first of the free slabs gives its first free chunk.
alloc_free-Taken :
    (c : Cache) (m : Memory) (s : ℕ) (fs fully : List ℕ) (chunks : ℕ → List ℕ)
    → Holds c m (s ∷ fs) [] fully chunks
    → Taken c m
        (alloc_free c m)
        (s ∷ fs)
        []
        fully
        chunks
        (OutOfHeaders c.slab_order (s ∷ fs) [] fully)
unfolding Each counted first_slab taken_lists move_from_free
alloc_free-Taken c m s fs fully chunks h =
    let order = c.slab_order in
    let w = h.words in
    let two = h.several in
    let all = h.free_all.0 in
    let (at, positive) = Linked-pos order m 0 c.free_slabs s fs w.slabs.in_free in
    let (x, cs, e) = some_chunk (chunks s) (omega arith) in
    let now = subst (λ l. FreeChunks c.slab_objects c.object_size order m s l) e w.free_words.0 in
    let first = first_chunk c.slab_objects c.object_size order w.fits chunks m s x cs now in
    let (now_holds, kept) = free_first c m chunks s x fs [] fully cs positive h e in
    subst (λ r. Taken c m r (s ∷ fs) [] fully chunks (OutOfHeaders c.slab_order (s ∷ fs) [] fully))
      (sym (alloc_free-first c m s x at first))
      (
        cs,
        e,
        record {
          same_size = refl;
          same_order = refl;
          same_objects = refl;
          holds = now_holds;
          frame = λ x out. kept x out.0 tt;
        },
      )

outside-NoHeader :
    (order region x : ℕ) → OutOfRegion order region x → NoHeader order x (region ∷ [])
unfolding Each get_slab_header
outside-NoHeader order region x (inl before) =
    let page = page-slab_size order in (inl (omega arith), tt)
outside-NoHeader order region x (inr behind) =
    let page = page-slab_size order in (inr (omega arith), tt)

-- cache_alloc on slabs of at least two objects, where aligned_alloc would give a region that shares no
-- byte with the slabs. Where a slab is partly allocated or free, the chunk is the first free one of the
-- first partly allocated slab, or else of the first free one; that slab becomes the first of the fully
-- allocated ones when no chunk is left, and of the partly allocated ones otherwise. Where none is, the
-- region becomes the only partly allocated slab, and the chunk is its first one. All other slabs stay in
-- their lists and keep their free chunks, and no two share a byte; no word outside of the headers of
-- slabs, or of the region, changes.
pub cache_alloc-Taken :
    (region : ℕ) (c : Cache) (m : Memory) (free partly fully : List ℕ) (chunks : ℕ → List ℕ)
    → Holds c m free partly fully chunks
    → 0 < region
    → Each (Disjoint c.slab_order region) fully
    → ((0 < length (partly ++ free))
        × Taken c m
            (cache_alloc region c m)
            free
            partly
            fully
            chunks
            (OutOfHeaders c.slab_order free partly fully))
      ⊎ ((partly ++ free ≡ [])
          × Taken c m
              (cache_alloc region c m)
              (region ∷ [])
              []
              fully
              (changed chunks region (objects c.slab_objects region c.object_size))
              (λ x. OutOfRegion c.slab_order region x × NoHeader c.slab_order x fully))
unfolding cache_alloc Linked AllDisjoint Each
cache_alloc-Taken region c m free (s ∷ ps) fully chunks h some fresh =
    let (at, positive) =
      Linked-pos c.slab_order m 0 c.partly_allocated_slabs s ps h.words.slabs.in_partly in
    let t : (c.partly_allocated_slabs == 0) ≡ false =
      ne→== c.partly_allocated_slabs 0 (λ z. omega arith) in
    inl (omega arith, rw t (alloc_partly-Taken c m s free ps fully chunks h))
cache_alloc-Taken region c m (s ∷ fs) [] fully chunks h some fresh =
    let none_partly : (c.partly_allocated_slabs == 0) ≡ true =
      eq→== c.partly_allocated_slabs 0 h.words.slabs.in_partly in
    let (at, positive) = Linked-pos c.slab_order m 0 c.free_slabs s fs h.words.slabs.in_free in
    let t : (c.free_slabs == 0) ≡ false = ne→== c.free_slabs 0 (λ z. omega arith) in
    inl (omega arith, rw (none_partly, t) (alloc_free-Taken c m s fs fully chunks h))
cache_alloc-Taken region c m [] [] fully chunks h some fresh =
    let none_partly : (c.partly_allocated_slabs == 0) ≡ true =
      eq→== c.partly_allocated_slabs 0 h.words.slabs.in_partly in
    let none_free : (c.free_slabs == 0) ≡ true = eq→== c.free_slabs 0 h.words.slabs.in_free in
    let c' : Cache = record c { free_slabs = region } in
    let set_up =
      initialize-Holds c' m h.words.fits fully chunks some h.several h.countable
        h.words.slabs.in_partly h.words.slabs.in_fully fresh h.words.apart h.words.fully_words
        h.fully_none in
    let (cs, e, k) =
      alloc_free-Taken c' _ region [] fully
        (changed chunks region (objects c.slab_objects region c.object_size)) set_up in
    inr (
      refl,
      rw (none_partly, none_free)
          (
            cs,
            e,
            record {
              same_size = k.same_size;
              same_order = k.same_order;
              same_objects = k.same_objects;
              holds = k.holds;
              frame = λ x out.
                  k.frame x (outside-NoHeader c.slab_order region x out.0, tt, out.1)
                  ∙ initialize-outside c' m h.words.fits x out.0;
            },
          ),
    )
