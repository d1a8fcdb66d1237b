-- ===== src/Slab/Pushed.antt =====
-- cache_free up to the count of the free chunks: an object comes back to its slab.
use sys_prog.Prelude.{
  ℕ, suc, ◌+◌, ◌*◌, ◌^◌, ◌<◌, ◌≤◌, ◌≡◌, ◌≢◌, refl, ◌∙◌, ap, arith, List, ◌∷◌, ◌⊎◌, inl, inr, length,
}
use native.Mathlib.Nat.{mul-le-mul_right}
use sys_prog.Slab.{Memory, Cache, get_slab_header, get_slab_start_ptr}
use sys_prog.Slab.Requests.{cache_free, chunk_freed, push_chunk}
use sys_prog.Slab.Sizes.{IsSlab, get_slab_start_ptr-object}
use sys_prog.Slab.FreeChunks.{
  FreeChunks, Fits, IsObject, NotIn, object-below, push_chunk-other, push_chunk-FreeChunks,
}
use sys_prog.Slab.Disjoint.{Each, Disjoint}
use sys_prog.Slab.Holds.{Holds, Words, touched-Words, changed, KeepsOutside}

module _ (amount size order : ℕ) (fits : Fits amount size order) (chunks : ℕ → List ℕ) (m : Memory)
    (s ptr : ℕ) where
  push_chunk-KeepsOutside :
      IsObject amount size s ptr
      → KeepsOutside amount size order fits chunks m s (push_chunk ptr (get_slab_header s order) m)
  push_chunk-KeepsOutside this x out =
      let (above, below) = object-below amount size order fits s ptr this in
      push_chunk-other amount size order fits s ptr x m
        (elim out [ inl b ↦ (λ e. omega arith) | inr b ↦ (λ e. omega arith) ])
        (elim out [ inl b ↦ (λ e. omega arith) | inr b ↦ (λ e. omega arith) ])
        (elim out [ inl b ↦ (λ e. omega arith) | inr b ↦ (λ e. omega arith) ])

  pub push_chunk-frame :
      (x : ℕ)
      → x ≢ ptr
      → (x < get_slab_header s order) ⊎ (get_slab_header s order + 32 ≤ x)
      → push_chunk ptr (get_slab_header s order) m x ≡ m x
  push_chunk-frame x not_ptr (inl before) =
      push_chunk-other amount size order fits s ptr x m not_ptr (λ e. omega arith)
        (λ e. omega arith)
  push_chunk-frame x not_ptr (inr behind) =
      push_chunk-other amount size order fits s ptr x m not_ptr (λ e. omega arith)
        (λ e. omega arith)

  -- The slab of an object is where the lower bits of its address are cleared.
  pub start_of_object :
      IsSlab order s → IsObject amount size s ptr → get_slab_start_ptr ptr order ≡ s
  start_of_object slab (i, less, e) =
      let le : suc i * size ≤ amount * size = mul-le-mul_right size (omega arith) in
      let (some_size, room) = fits in
      ap (λ p. get_slab_start_ptr p order) e
      ∙ get_slab_start_ptr-object order s (i * size) slab (omega arith)

-- An object of a slab that is not free comes back.
module _ (c : Cache) (m : Memory) (free partly fully : List ℕ) (chunks : ℕ → List ℕ)
    (h : Holds c m free partly fully chunks) (s ptr : ℕ) (some_s : 0 < s)
    (this : IsObject c.slab_objects c.object_size s ptr) (other : NotIn ptr (chunks s)) where
  abbrev pub pushed : Memory
  pushed = push_chunk ptr (get_slab_header s c.slab_order) m

  pub pushed-Words :
      length (chunks s) + 1 < 2 ^ 64
      → FreeChunks c.slab_objects c.object_size c.slab_order m s (chunks s)
      → Each (λ t. (s ≡ t) ⊎ Disjoint c.slab_order s t) free
      → Each (λ t. (s ≡ t) ⊎ Disjoint c.slab_order s t) partly
      → Each (λ t. (s ≡ t) ⊎ Disjoint c.slab_order s t) fully
      → Words c pushed free partly fully (changed chunks s (ptr ∷ chunks s))
  pushed-Words small now nf np nu =
      touched-Words c m pushed free partly fully chunks s (ptr ∷ chunks s) h.words
        (push_chunk-KeepsOutside c.slab_objects c.object_size c.slab_order h.words.fits chunks m s
          ptr this)
        (push_chunk-FreeChunks c.slab_objects c.object_size c.slab_order h.words.fits s ptr m
          (chunks s) small this other now)
        nf np nu

pub cache_free-at :
    (c : Cache) (m : Memory) (ptr s n : ℕ)
    → get_slab_start_ptr ptr c.slab_order ≡ s
    → push_chunk ptr (get_slab_header s c.slab_order) m (get_slab_header s c.slab_order + 8) ≡ n
    → cache_free ptr c m ≡ chunk_freed s n c (push_chunk ptr (get_slab_header s c.slab_order) m)
unfolding cache_free
cache_free-at c m ptr s n at count = rw (at, count) refl
