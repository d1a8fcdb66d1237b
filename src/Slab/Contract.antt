-- ===== src/Slab/Contract.antt =====
-- What cache_alloc and cache_free promise: where each slab stands afterwards, with which free chunks, and
-- which words stay.
use sys_prog.Prelude.{
  ℕ, ◌+◌, ◌<◌, ◌≤◌, ◌≡◌, ◌≢◌, Bool, true, false, ◌==◌, List, [], ◌∷◌, ◌++◌, ◌⊎◌, length,
}
use sys_prog.Slab.{Memory, Cache, slab_size}
use sys_prog.Slab.Holds.{Lists, Keeps, NoHeader, changed}

-- The slab that a chunk is taken from: the first partly allocated one, or else the first free one.
unfoldable pub first_slab : (free partly : List ℕ) → ℕ
first_slab free (s ∷ ps) = s
first_slab (s ∷ fs) [] = s
first_slab [] [] = 0

-- Where the slabs stand afterwards, from the chunks that are left in that one.
unfoldable pub taken_lists : (free partly fully left : List ℕ) → Lists
taken_lists free (s ∷ ps) fully [] = record { free = free; partly = ps; fully = s ∷ fully }
taken_lists free (s ∷ ps) fully (x ∷ cs) = record { free = free; partly = s ∷ ps; fully = fully }
taken_lists (s ∷ fs) [] fully left = record { free = fs; partly = s ∷ []; fully = fully }
taken_lists [] [] fully left = record { free = []; partly = []; fully = fully }

-- The chunk was the first free one of that slab; the slab has the others left and is in the list for
-- it, all other slabs are in their lists with their chunks, and some words are what they were.
abbrev pub Taken :
    Cache
    → Memory
    → ℕ × (Cache × Memory)
    → (free partly fully : List ℕ) → (ℕ → List ℕ)
    → (ℕ → Type 0)
    → Type 0
Taken c m r free partly fully chunks Same =
    (cs : List ℕ) × (chunks (first_slab free partly) ≡ r.0 ∷ cs)
    × Keeps c m r.1.0 r.1.1 (taken_lists free partly fully cs)
        (changed chunks (first_slab free partly) cs) Same

-- A word outside of the headers of all slabs, and one outside of a region.
abbrev pub OutOfHeaders : (order : ℕ) (free partly fully : List ℕ) → ℕ → Type 0
OutOfHeaders order free partly fully x =
    NoHeader order x free × NoHeader order x partly × NoHeader order x fully

abbrev pub OutOfRegion : (order region x : ℕ) → Type 0
OutOfRegion order region x = (x < region) ⊎ (region + slab_size order ≤ x)

-- The list that the slab of the object is in, between the slabs before and after it.
pub data Place : Type 0 where
  in_partly : Place
  in_fully : Place

unfoldable pub lists_before : Place → (free other pre : List ℕ) (s : ℕ) (post : List ℕ) → Lists
lists_before in_partly free other pre s post = record {
  free = free;
  partly = pre ++ s ∷ post;
  fully = other;
}
lists_before in_fully free other pre s post = record {
  free = free;
  partly = other;
  fully = pre ++ s ∷ post;
}

-- Where the slabs stand afterwards; the Boolean tells whether all objects of that one are free then.
unfoldable pub lists_after :
    Place → Bool → (free other pre : List ℕ) (s : ℕ) (post : List ℕ) → Lists
lists_after in_partly true free other pre s post = record {
  free = s ∷ free;
  partly = pre ++ post;
  fully = other;
}
lists_after in_partly false free other pre s post = record {
  free = free;
  partly = pre ++ s ∷ post;
  fully = other;
}
lists_after in_fully whole free other pre s post = record {
  free = free;
  partly = s ∷ other;
  fully = pre ++ post;
}

-- The words outside of the headers of all slabs, but for the one of the chunk.
abbrev pub NotTouched : (order ptr : ℕ) → Lists → ℕ → Type 0
NotTouched order ptr l x =
    (x ≢ ptr) × NoHeader order x l.free × NoHeader order x l.partly × NoHeader order x l.fully

-- The chunk is the first free one of its slab, the slab is in the list for it, all other slabs are
-- in their lists with their chunks, and all other words are what they were.
abbrev pub Returned :
    Cache
    → Memory
    → Cache × Memory
    → Place
    → (free other pre : List ℕ) (s : ℕ) (post : List ℕ) → (ℕ → List ℕ)
    → ℕ
    → Type 0
Returned c m r place free other pre s post chunks ptr =
    Keeps c m r.0 r.1
      (lists_after place (length (chunks s) + 1 == c.slab_objects) free other pre s post)
      (changed chunks s (ptr ∷ chunks s))
      (NotTouched c.slab_order ptr (lists_before place free other pre s post))
