-- ===== src/Slab/Chain.antt =====
-- free_slab_chain, cache_release and cache_shrink: which slabs are given back.
use sys_prog.Prelude.{
  ℕ, zero, suc, ◌<◌, ◌≡◌, refl, ◌∙◌, ap, arith, false, ◌==◌, List, [], ◌∷◌, ◌++◌, some, ne→==,
  length,
}
use sys_prog.Slab.{Memory, Cache, free_slab_chain, cache_release, cache_shrink}
use sys_prog.Slab.Links.{next_at, Linked}

free_slab_chain-some :
    (order fuel s : ℕ) (m : Memory) {rest : List ℕ}
    → 0 < s
    → free_slab_chain fuel (m (next_at order s)) order m ≡ some rest
    → free_slab_chain (suc fuel) s order m ≡ some (s ∷ rest)
unfolding free_slab_chain
free_slab_chain-some order fuel s m some_s e =
    let t : (s == 0) ≡ false = ne→== s 0 (λ z. omega arith) in rw (e, t) refl

-- With fuel above the length of a list of slabs, free_slab_chain ends, and frees each slab of it once.
free_slab_chain-Linked :
    (order : ℕ) (m : Memory) (ss : List ℕ) (fuel p f : ℕ)
    → length ss < fuel
    → Linked order m p f ss
    → free_slab_chain fuel f order m ≡ some ss
unfolding Linked free_slab_chain
free_slab_chain-Linked order m ss zero p f less l = absurd (omega arith)
free_slab_chain-Linked order m [] (suc fuel) p f less l = rw l refl
free_slab_chain-Linked order m (s ∷ ss) (suc fuel) p f less (at, some_s, behind, l) =
    ap (λ z. free_slab_chain (suc fuel) z order m) at
    ∙ free_slab_chain-some order fuel s m some_s
        (free_slab_chain-Linked order m ss fuel s (m (next_at order s)) (omega arith) l)

-- The three lists of a cache.
pub record Slabs (cache : Cache) (m : Memory) (free partly fully : List ℕ) : Type 0 where
  pub in_free : Linked cache.slab_order m 0 cache.free_slabs free
  pub in_partly : Linked cache.slab_order m 0 cache.partly_allocated_slabs partly
  pub in_fully : Linked cache.slab_order m 0 cache.fully_allocated_slabs fully

-- With fuel above the length of each list: cache_release ends and frees the slabs of the three lists,
-- each of them once, and the cache has none then; cache_shrink ends and frees the free ones, and the
-- cache keeps the others.
pub cache_release-cache_shrink :
    (cache : Cache) (m : Memory) (free partly fully : List ℕ) (fuel : ℕ)
    → Slabs cache m free partly fully
    → length free < fuel
    → length partly < fuel
    → length fully < fuel
    → ((c : Cache) × (cache_release fuel cache m ≡ some (free ++ partly ++ fully, c))
        × Slabs c m [] [] [])
      × ((c : Cache) × (cache_shrink fuel cache m ≡ some (free, c)) × Slabs c m [] partly fully)
unfolding cache_release cache_shrink Linked
cache_release-cache_shrink cache m free partly fully fuel slabs less_f less_p less_u =
    let order = cache.slab_order in
    let f = free_slab_chain-Linked order m free fuel 0 cache.free_slabs less_f slabs.in_free in
    let p =
      free_slab_chain-Linked order m partly fuel 0 cache.partly_allocated_slabs less_p
        slabs.in_partly in
    let u =
      free_slab_chain-Linked order m fully fuel 0 cache.fully_allocated_slabs less_u
        slabs.in_fully in
    (
      (
        record cache { free_slabs = 0; partly_allocated_slabs = 0; fully_allocated_slabs = 0 },
        rw (f, p, u) refl,
        record { in_free = refl; in_partly = refl; in_fully = refl },
      ),
      (
        record cache { free_slabs = 0 },
        rw f refl,
        record { in_free = refl; in_partly = slabs.in_partly; in_fully = slabs.in_fully },
      ),
    )
