-- ===== src/Slab/Tests.antt =====
-- A cache of two objects in a slab, one of a single object, and lists of one slab.
use sys_prog.Prelude.{
  ℕ, ◌+◌, ◌*◌, ◌≤◌, ◌<◌, length, ◌≡◌, refl, arith, List, [], ◌∷◌, some, ◌⊎◌, inl, inr,
}
use sys_prog.Slab.{
  Memory, write_word, Cache, slab_size, get_slab_header, get_slab_start_ptr, free_slab_chunk_amount,
  link_chunks, initialize_new_free_slab, setup_object_size, setup_slab_order, setup_slab_objects,
  cache_setup, cache_release, cache_shrink, delete_slab_from_list, insert_slab_to_list,
}
use sys_prog.Slab.Requests.{
  cache_free, cache_alloc, alloc_partly, alloc_free, drop_chunk, move_from_free, move_to_full,
}
use sys_prog.Slab.Sizes.{get_slab_start_ptr-object, setup_slab_objects-fit}
use sys_prog.Slab.Chunks.{objects}
use sys_prog.Slab.Links.{Linked, AllApart, ApartFrom}
use sys_prog.Slab.Move.{ListsApart, NoLink, move-Linked}
use sys_prog.Slab.Disjoint.{Each}
use sys_prog.Slab.Holds.{Holds, NoHeader, changed}
use sys_prog.Slab.Fresh.{cache_setup-Holds}
use sys_prog.Slab.Allocated.{cache_alloc-Taken}
use sys_prog.Slab.Alloc.{free_first, down}
use sys_prog.Slab.Freed.{cache_free-Returned}
use sys_prog.Slab.Contract.{Taken, OutOfHeaders, OutOfRegion, Returned, in_partly, lists_before}
use sys_prog.Slab.FreeChunks.{NotIn}
use sys_prog.Slab.Chain.{Slabs, cache_release-cache_shrink}

abbrev all_zero : Memory
all_zero x = 0

-- Objects of 3000 bytes: the slab has one, and the second cache_alloc gives what stands in the first
-- chunk, here 0, and counts below 0.
one_object_test :
    (let set = cache_setup 4096 3000 all_zero in
      let first = cache_alloc 8192 set.0 set.1 in
      let second = cache_alloc 8192 first.1.0 first.1.1 in
      (first.0 ≡ 4096)
      × (second.0 ≡ 0)
      × (second.1.1 (free_slab_chunk_amount (get_slab_header 4096 0)) ≡ 18446744073709551615))
unfolding cache_setup cache_alloc setup_slab_objects setup_object_size setup_slab_order slab_size
    get_slab_header write_word initialize_new_free_slab link_chunks alloc_partly alloc_free
    drop_chunk move_from_free move_to_full delete_slab_from_list insert_slab_to_list
one_object_test = (refl, refl, refl)

get_slab_start_ptr-object_example : get_slab_start_ptr (4096 + 2000) 0 ≡ 4096
unfolding slab_size
get_slab_start_ptr-object_example =
    get_slab_start_ptr-object 0 4096 2000 (1, omega arith, refl) (omega arith)

setup_slab_objects-fit_example :
    (let size = setup_object_size 2000 in
      let order = setup_slab_order size in
      (8 ≤ size)
      × (2000 ≤ size)
      × (1 ≤ setup_slab_objects order size)
      × (setup_slab_objects order size * size + 32 ≤ slab_size order))
setup_slab_objects-fit_example = setup_slab_objects-fit 2000 (omega arith) (inl (omega arith))

abbrev two_objects : Cache
two_objects = record {
  free_slabs = 4096;
  partly_allocated_slabs = 0;
  fully_allocated_slabs = 8192;
  object_size = 2000;
  slab_order = 0;
  slab_objects = 2;
}

-- cache_setup for objects of 2000 bytes at 4096, and one of them taken.
abbrev none_yet : ℕ → List ℕ
none_yet u = []

abbrev set : Cache × Memory
set = cache_setup 4096 2000 all_zero

abbrev both_free : ℕ → List ℕ
both_free = changed none_yet 4096 (objects set.0.slab_objects 4096 set.0.object_size)

cache_setup-Holds_example : Holds set.0 set.1 (4096 ∷ []) [] [] both_free
cache_setup-Holds_example =
    cache_setup-Holds 4096 2000 all_zero none_yet (omega arith) (inl (omega arith))

set-Holds : Holds set.0 set.1 (4096 ∷ []) [] [] both_free
set-Holds = cache_setup-Holds 4096 2000 all_zero none_yet (omega arith) (inl (omega arith))

abbrev only_slab : List ℕ
only_slab = 4096 ∷ []

cache_alloc-Taken_example :
    ((0 < length only_slab)
      × Taken set.0 set.1
          (cache_alloc 8192 set.0 set.1)
          only_slab
          []
          []
          both_free
          (OutOfHeaders set.0.slab_order only_slab [] []))
    ⊎ ((only_slab ≡ [])
        × Taken set.0 set.1
            (cache_alloc 8192 set.0 set.1)
            (8192 ∷ [])
            []
            []
            (changed both_free 8192 (objects set.0.slab_objects 8192 set.0.object_size))
            (λ x. OutOfRegion set.0.slab_order 8192 x × NoHeader set.0.slab_order x []))
unfolding Each
cache_alloc-Taken_example =
    cache_alloc-Taken 8192 set.0 set.1 (4096 ∷ []) [] [] both_free set-Holds (omega arith) tt

abbrev one_taken : Cache × Memory
one_taken = move_from_free 4096 set.0 (
    drop_chunk (get_slab_header 4096 set.0.slab_order) (
      down set.0.slab_objects set.0.object_size set.0.slab_order set-Holds.words.fits both_free
        set.1 4096))

abbrev one_free : ℕ → List ℕ
one_free = changed both_free 4096 (4096 ∷ [])

one_taken-Holds : Holds one_taken.0 one_taken.1 [] (4096 ∷ []) [] one_free
unfolding objects cache_setup setup_slab_objects setup_slab_order setup_object_size slab_size
one_taken-Holds =
    (free_first set.0 set.1 both_free 4096 6096 [] [] [] (4096 ∷ []) (omega arith) set-Holds refl).0

-- The object at 6096 comes back.
cache_free-Returned_example :
    Returned one_taken.0 one_taken.1
      (cache_free 6096 one_taken.0 one_taken.1)
      in_partly
      []
      []
      []
      4096
      []
      one_free
      6096
unfolding move_from_free cache_setup setup_slab_objects setup_slab_order setup_object_size slab_size
    NotIn lists_before
cache_free-Returned_example =
    cache_free-Returned one_taken.0 one_taken.1 one_free 4096 6096 (omega arith)
      (1, omega arith, refl) (1, omega arith, refl) ((λ e. omega arith), tt) in_partly [] [] [] []
      one_taken-Holds

-- A free slab at 4096 and a full one at 8192.
two_objects-Slabs : Slabs two_objects all_zero (4096 ∷ []) [] (8192 ∷ [])
unfolding Linked
two_objects-Slabs = record {
  in_free = (refl, omega arith, refl, refl);
  in_partly = refl;
  in_fully = (refl, omega arith, refl, refl);
}

cache_release-cache_shrink_example :
    ((c : Cache) × (cache_release 2 two_objects all_zero ≡ some (4096 ∷ 8192 ∷ [], c))
      × Slabs c all_zero [] [] [])
    × ((c : Cache) × (cache_shrink 2 two_objects all_zero ≡ some (4096 ∷ [], c))
        × Slabs c all_zero [] [] (8192 ∷ []))
cache_release-cache_shrink_example =
    cache_release-cache_shrink two_objects all_zero (4096 ∷ []) [] (8192 ∷ []) 2 two_objects-Slabs
      (omega arith) (omega arith) (omega arith)

move-Linked_example :
    (let d = delete_slab_from_list 4096 4096 0 all_zero in
      let i = insert_slab_to_list 8192 4096 0 d.1 in
      Linked 0 i.1 0 d.0 []
      × Linked 0 i.1 0 i.0 (4096 ∷ 8192 ∷ [])
      × Linked 0 i.1 0 0 []
      × ((x : ℕ) → NoLink 0 x (4096 ∷ []) → NoLink 0 x (8192 ∷ []) → i.1 x ≡ 0))
unfolding Linked AllApart ApartFrom ListsApart
move-Linked_example =
    move-Linked 0 4096 4096 8192 0 all_zero [] [] (8192 ∷ []) [] (omega arith)
      (refl, omega arith, refl, refl) (refl, omega arith, refl, refl) refl (tt, tt) (tt, tt)
      ((inr (omega arith), tt), tt) tt (tt, tt)
