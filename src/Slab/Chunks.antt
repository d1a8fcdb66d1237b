-- ===== src/Slab/Chunks.antt =====
-- The chain of the free chunks of a slab.
use sys_prog.Prelude.{
  ℕ, zero, suc, ◌+◌, ◌*◌, ◌<◌, ◌≤◌, ◌≡◌, ◌≢◌, refl, ◌∙◌, sym, ap, subst, arith, true, false, ◌==◌,
  List, [], ◌∷◌, eq→==, ne→==,
}
use sys_prog.Slab.{
  Memory, write_word, Cache, slab_size, get_slab_header, free_slab_chunk, free_slab_chunk_amount,
  next_slab, prev_slab, link_chunks, initialize_new_free_slab,
}

pub write_word-same : (a v : ℕ) (m : Memory) → write_word a v m a ≡ v
unfolding write_word
write_word-same a v m = let e : (a == a) ≡ true = eq→== a a refl in rw e refl

pub write_word-other : (a v x : ℕ) (m : Memory) → x ≢ a → write_word a v m x ≡ m x
unfolding write_word
write_word-other a v x m h = let e : (x == a) ≡ false = ne→== x a h in rw e refl

-- From an element on, the words are linked to the chunks.
unfoldable pub Chained : Memory → (current_elem : ℕ) → List ℕ → Type 0
Chained m current [] = Unit
Chained m current (c ∷ cs) = (m current ≡ c) × Chained m c cs

-- The objects of a slab, the last one first.
unfoldable pub objects : (amount slab_start object_size : ℕ) → List ℕ
objects zero start size = []
objects (suc i) start size = (start + i * size) ∷ objects i start size

pub link_chunks-suc :
    (start size i current : ℕ) (m : Memory)
    → link_chunks (suc i) start size current m
      ≡ link_chunks i start size (start + i * size) (write_word current (start + i * size) m)
unfolding link_chunks
link_chunks-suc start size i current m =
    ap (λ c. link_chunks i start size c (write_word current (start + i * size) m))
      (write_word-same current (start + i * size) m)

module _ (start size : ℕ) (some_size : 0 < size) where
  pub link_chunks-above :
      (n current x : ℕ) (m : Memory)
      → start + n * size ≤ current
      → current < x
      → link_chunks n start size current m x ≡ m x
  unfolding link_chunks
  link_chunks-above zero current x m le less = refl
  link_chunks-above (suc i) current x m le less =
      ap (λ f. f x) (link_chunks-suc start size i current m)
      ∙ link_chunks-above i (start + i * size) x (write_word current (start + i * size) m)
          (omega arith) (omega arith)
      ∙ write_word-other current (start + i * size) x m (λ e. omega arith)

  pub link_chunks-Chained :
      (n current : ℕ) (m : Memory)
      → start + n * size ≤ current
      → Chained (link_chunks n start size current m) current (objects n start size)
  unfolding Chained objects
  link_chunks-Chained zero current m le = tt
  link_chunks-Chained (suc i) current m le =
      let m' : Memory = write_word current (start + i * size) m in
      subst (λ mm. Chained mm current (objects (suc i) start size))
        (sym (link_chunks-suc start size i current m))
        (
          link_chunks-above i (start + i * size) current m' (omega arith) (omega arith)
              ∙ write_word-same current (start + i * size) m,
          link_chunks-Chained i (start + i * size) m' (omega arith),
        )

-- A slab that has been set up, where its objects stand below its header: all its objects are in the
-- chain of its free chunks, the last one first, the amount of the free chunks is the number of its
-- objects, and it has no next and no previous slab.
pub initialize_new_free_slab-Chained :
    (cache : Cache) (m : Memory)
    → 0 < cache.object_size
    → cache.slab_objects * cache.object_size + 32 ≤ slab_size cache.slab_order
    → (let header = get_slab_header cache.free_slabs cache.slab_order in
        let m' = initialize_new_free_slab cache m in
        Chained m'
          (free_slab_chunk header)
          (objects cache.slab_objects cache.free_slabs cache.object_size)
        × (m' (free_slab_chunk_amount header) ≡ cache.slab_objects)
        × (m' (next_slab header) ≡ 0)
        × (m' (prev_slab header) ≡ 0))
unfolding initialize_new_free_slab get_slab_header
initialize_new_free_slab-Chained cache m some_size fits =
    let start = cache.free_slabs in
    let n = cache.slab_objects in
    let size = cache.object_size in
    let header = get_slab_header start cache.slab_order in
    let below : start + n * size ≤ header = omega arith in
    let m1 : Memory = write_word (header + 8) n m in
    let m2 : Memory = write_word (header + 16) 0 m1 in
    let m3 : Memory = write_word (header + 24) 0 m2 in
    (
      link_chunks-Chained start size some_size n header m3 below,
      link_chunks-above start size some_size n header (header + 8) m3 below (omega arith)
          ∙ write_word-other (header + 24) 0 (header + 8) m2 (λ e. omega arith)
          ∙ write_word-other (header + 16) 0 (header + 8) m1 (λ e. omega arith)
          ∙ write_word-same (header + 8) n m,
      link_chunks-above start size some_size n header (header + 16) m3 below (omega arith)
          ∙ write_word-other (header + 24) 0 (header + 16) m2 (λ e. omega arith)
          ∙ write_word-same (header + 16) 0 m1,
      link_chunks-above start size some_size n header (header + 24) m3 below (omega arith)
          ∙ write_word-same (header + 24) 0 m2,
    )
