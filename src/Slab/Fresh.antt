-- ===== src/Slab/Fresh.antt =====
-- A slab that aligned_alloc has given and initialize_new_free_slab has set up.
use sys_prog.Prelude.{
  ℕ, zero, suc, ◌+◌, ◌*◌, ◌^◌, ◌<◌, ◌≤◌, ◌≡◌, refl, ◌∙◌, sym, ap, subst, arith, List, [], ◌∷◌, ◌⊎◌,
  inl, inr, length,
}
use sys_prog.Slab.{
  Memory, Cache, slab_size, get_slab_header, write_word, link_chunks, initialize_new_free_slab,
  cache_setup, setup_object_size, setup_slab_order, setup_slab_objects,
}
use sys_prog.Slab.Sizes.{page-slab_size, setup_slab_objects-fit, setup_slab_objects-two}
use sys_prog.Slab.Links.{Linked, SameLinks, SameLinks-Linked, next_at, prev_at}
use sys_prog.Slab.Chunks.{
  objects, link_chunks-suc, write_word-other, initialize_new_free_slab-Chained,
}
use sys_prog.Slab.FreeChunks.{FreeChunks, Fits, FreeChunks-same, AreObjects, NotIn, Distinct}
use sys_prog.Slab.Disjoint.{Each, Each-map2, Disjoint, Disjoint-differ, AllDisjoint}
use sys_prog.Slab.Holds.{Holds, changed, changed-same, other-Each, changed-other}

module _ (start size : ℕ) (some_size : 0 < size) where
  length-objects : (n : ℕ) → length (objects n start size) ≡ n
  unfolding objects
  length-objects zero = refl
  length-objects (suc i) = ap suc (length-objects i)

  objects-AreObjects :
      (n amount : ℕ) → n ≤ amount → AreObjects amount size start (objects n start size)
  unfolding objects AreObjects
  objects-AreObjects zero amount le = tt
  objects-AreObjects (suc i) amount le =
      ((i, omega arith, refl), objects-AreObjects i amount (omega arith))

  objects-NotIn : (n x : ℕ) → start + n * size ≤ x → NotIn x (objects n start size)
  unfolding objects NotIn
  objects-NotIn zero x le = tt
  objects-NotIn (suc i) x le = ((λ e. omega arith), objects-NotIn i x (omega arith))

  objects-Distinct : (n : ℕ) → Distinct (objects n start size)
  unfolding objects Distinct
  objects-Distinct zero = tt
  objects-Distinct (suc i) = (objects-NotIn i (start + i * size) (omega arith), objects-Distinct i)

  link_chunks-outside :
      (n current x : ℕ) (m : Memory)
      → start ≤ current
      → start + n * size ≤ current
      → (x < start) ⊎ (current < x)
      → link_chunks n start size current m x ≡ m x
  unfolding link_chunks
  link_chunks-outside zero current x m le room out = refl
  link_chunks-outside (suc i) current x m le room out =
      ap (λ f. f x) (link_chunks-suc start size i current m)
      ∙ link_chunks-outside i (start + i * size) x (write_word current (start + i * size) m)
          (omega arith) (omega arith)
          (elim out [ inl before ↦ inl before | inr behind ↦ inr (omega arith) ])
      ∙ write_word-other current (start + i * size) x m
          (elim out [ inl before ↦ (λ e. omega arith) | inr behind ↦ (λ e. omega arith) ])

module _ (c : Cache) (m : Memory) (fits : Fits c.slab_objects c.object_size c.slab_order) where
  -- Nothing outside of the slab changes.
  pub initialize-outside :
      (x : ℕ)
      → (x < c.free_slabs) ⊎ (c.free_slabs + slab_size c.slab_order ≤ x)
      → initialize_new_free_slab c m x ≡ m x
  unfolding initialize_new_free_slab get_slab_header
  initialize-outside x out =
      let page = page-slab_size c.slab_order in
      let (some_size, room) = fits in
      let h = get_slab_header c.free_slabs c.slab_order in
      let m1 : Memory = write_word (h + 8) c.slab_objects m in
      let m2 : Memory = write_word (h + 16) 0 m1 in
      let m3 : Memory = write_word (h + 24) 0 m2 in
      elim out [
        | inl before ↦
            link_chunks-outside c.free_slabs c.object_size some_size c.slab_objects h x m3
              (omega arith) (omega arith) (inl before)
            ∙ write_word-other (h + 24) 0 x m2 (λ e. omega arith)
            ∙ write_word-other (h + 16) 0 x m1 (λ e. omega arith)
            ∙ write_word-other (h + 8) c.slab_objects x m (λ e. omega arith)
        | inr behind ↦
            link_chunks-outside c.free_slabs c.object_size some_size c.slab_objects h x m3
              (omega arith) (omega arith) (inr (omega arith))
            ∙ write_word-other (h + 24) 0 x m2 (λ e. omega arith)
            ∙ write_word-other (h + 16) 0 x m1 (λ e. omega arith)
            ∙ write_word-other (h + 8) c.slab_objects x m (λ e. omega arith)
      ]

  initialize-FreeChunks :
      FreeChunks c.slab_objects c.object_size c.slab_order
        (initialize_new_free_slab c m)
        c.free_slabs
        (objects c.slab_objects c.free_slabs c.object_size)
  initialize-FreeChunks =
      let (chain, count, next, prev) = initialize_new_free_slab-Chained c m fits.0 fits.1 in
      record {
        chain = chain;
        count = count ∙ sym (length-objects c.free_slabs c.object_size fits.0 c.slab_objects);
        own =
            objects-AreObjects c.free_slabs c.object_size fits.0 c.slab_objects c.slab_objects
              (omega arith);
        different = objects-Distinct c.free_slabs c.object_size fits.0 c.slab_objects;
      }

  same_links :
      (l : List ℕ)
      → Each (Disjoint c.slab_order c.free_slabs) l
      → SameLinks c.slab_order m (initialize_new_free_slab c m) l
  unfolding Each SameLinks get_slab_header
  same_links [] d = tt
  same_links (t ∷ l) (this, d) =
      let page = page-slab_size c.slab_order in
      let rest = same_links l d in
      elim this [
        | inl before ↦ (
          initialize-outside (next_at c.slab_order t) (inr (omega arith)),
          initialize-outside (prev_at c.slab_order t) (inr (omega arith)),
          rest,
        )
        | inr behind ↦ (
          initialize-outside (next_at c.slab_order t) (inl (omega arith)),
          initialize-outside (prev_at c.slab_order t) (inl (omega arith)),
          rest,
        )
      ]

  same_FreeChunks :
      (u : ℕ) (cs : List ℕ)
      → Disjoint c.slab_order c.free_slabs u
      → FreeChunks c.slab_objects c.object_size c.slab_order m u cs
      → FreeChunks c.slab_objects c.object_size c.slab_order (initialize_new_free_slab c m) u cs
  unfolding get_slab_header
  same_FreeChunks u cs (inl before) f =
      let page = page-slab_size c.slab_order in
      FreeChunks-same c.slab_objects c.object_size c.slab_order fits u m
        (initialize_new_free_slab c m) cs (λ x le less. initialize-outside x (inr (omega arith))) f
  same_FreeChunks u cs (inr behind) f =
      let page = page-slab_size c.slab_order in
      FreeChunks-same c.slab_objects c.object_size c.slab_order fits u m
        (initialize_new_free_slab c m) cs (λ x le less. initialize-outside x (inl (omega arith))) f

  -- The slab that has been set up is the only free one, beside fully allocated slabs.
  pub initialize-Holds :
      (fully : List ℕ) (chunks : ℕ → List ℕ)
      → 0 < c.free_slabs
      → 2 ≤ c.slab_objects
      → c.slab_objects + 1 < 2 ^ 64
      → c.partly_allocated_slabs ≡ 0
      → Linked c.slab_order m 0 c.fully_allocated_slabs fully
      → Each (Disjoint c.slab_order c.free_slabs) fully
      → AllDisjoint c.slab_order fully
      → Each (λ u. FreeChunks c.slab_objects c.object_size c.slab_order m u (chunks u)) fully
      → Each (λ u. length (chunks u) ≡ 0) fully
      → Holds c
          (initialize_new_free_slab c m)
          (c.free_slabs ∷ [])
          []
          fully
          (changed chunks c.free_slabs (objects c.slab_objects c.free_slabs c.object_size))
  unfolding Each AllDisjoint Linked
  initialize-Holds fully chunks some two countable no_partly linked apart all words none =
      let s = c.free_slabs in
      let n = c.slab_objects in
      let size = c.object_size in
      let order = c.slab_order in
      let m' : Memory = initialize_new_free_slab c m in
      let cs : List ℕ = objects n s size in
      let (chain, count, next, prev) = initialize_new_free_slab-Chained c m fits.0 fits.1 in
      let same = changed-same chunks s cs in
      record {
        words = record {
          fits = fits;
          slabs = record {
            in_free = (refl, some, prev, next);
            in_partly = no_partly;
            in_fully =
                SameLinks-Linked order m m' fully 0 c.fully_allocated_slabs (same_links fully apart)
                  linked;
          };
          apart = (apart, all);
          free_words =
              (subst (λ l. FreeChunks n size order m' s l) (sym same) initialize-FreeChunks, tt);
          partly_words = tt;
          fully_words =
              Each-map2 {P = Disjoint order s} {Q = λ u. FreeChunks n size order m u (chunks u)}
                {R = λ u. FreeChunks n size order m' u (changed chunks s cs u)} fully
                (λ u d f.
                  subst (λ z. FreeChunks n size order m' u z)
                    (sym (changed-other chunks s cs u (λ z. Disjoint-differ order d (sym z))))
                    (same_FreeChunks u (chunks u) d f))
                apart words;
        };
        several = two;
        countable = countable;
        free_all = (ap length same ∙ length-objects s size fits.0 n, tt);
        partly_some = tt;
        fully_none =
            other-Each n size order fits chunks m (λ l. length l ≡ 0) s cs fully apart none;
      }

-- cache_setup, for a region that is not NULL and object sizes for which a slab has at least two
-- objects: the cache stands for one free slab with all its objects free.
pub cache_setup-Holds :
    (region object_size : ℕ) (m : Memory) (chunks : ℕ → List ℕ)
    → 0 < region
    → (object_size ≤ 2032) ⊎ ((4096 < object_size) × (object_size ≤ 8176))
    → (let r = cache_setup region object_size m in
        Holds r.0 r.1
          (region ∷ [])
          []
          []
          (changed chunks region (objects r.0.slab_objects region r.0.object_size)))
unfolding cache_setup Linked Each AllDisjoint
cache_setup-Holds region object_size m chunks some sizes =
    let size = setup_object_size object_size in
    let order = setup_slab_order size in
    let bounds : (object_size ≤ 4194272) × ((object_size ≤ 4064) ⊎ (4096 ≤ object_size)) =
      elim sizes [
        | inl small ↦ (omega arith, inl (omega arith))
        | inr (more, less) ↦ (omega arith, inr (omega arith))
      ] in
    let (pointer, asked, one, room) = setup_slab_objects-fit object_size bounds.0 bounds.1 in
    let (two, few) = setup_slab_objects-two object_size sizes in
    let c : Cache = record {
      free_slabs = region;
      partly_allocated_slabs = 0;
      fully_allocated_slabs = 0;
      object_size = size;
      slab_order = order;
      slab_objects = setup_slab_objects order size;
    } in
    initialize-Holds c m (omega arith, room) [] chunks some two few refl refl tt tt tt tt
