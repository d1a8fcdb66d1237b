-- ===== src/Slab.antt =====
-- os-internals/slab/src/slab.c and slab.h: the slab allocator, on a memory of words at byte addresses.
-- What aligned_alloc gives is an argument, and the calls of free are a list of addresses.
use sys_prog.Prelude.{
  ℕ, zero, suc, ◌+◌, ◌-◌, ◌*◌, ◌/◌, ◌%◌, ◌^◌, ◌≡◌, Bool, true, false, ◌&&◌, not, Option, none, some,
  List, [], ◌∷◌, ◌++◌, ◌==◌, ltb, if◌then◌else◌,
}
pub mod Sizes
pub mod Chunks
pub mod Links
pub mod Insert
pub mod Unlink
pub mod Delete
pub mod Move
pub mod Chain
pub mod Requests
pub mod FreeChunks
pub mod Disjoint
pub mod Spread
pub mod Holds
pub mod Moved
pub mod CacheMoves
pub mod Contract
pub mod Alloc
pub mod Fresh
pub mod Allocated
pub mod Pushed
pub mod Freed
mod Tests

infixl 5 ◌>>=◌
abbrev ◌>>=◌ : {A B : Type 0} → Option A → (A → Option B) → Option B
none >>= f = none
some a >>= f = f a

-- The words of 64 bits that start at the addresses; those that are used do not overlap.
abbrev pub Memory : Type 0
Memory = ℕ → ℕ

unfoldable pub write_word : (address value : ℕ) → Memory → Memory
write_word a v m = λ x. if x == a then v else m x

abbrev pub page_size : ℕ
page_size = 4096

abbrev pub max_page_order : ℕ
max_page_order = 10

abbrev pub ptr_size : ℕ
ptr_size = 8

abbrev pub slab_header_size : ℕ
slab_header_size = 32

-- PAGE_SIZE * (1 << order)
unfoldable pub slab_size : ℕ → ℕ
slab_size order = page_size * 2 ^ order

unfoldable pub get_slab_header : (slab_start order : ℕ) → ℕ
get_slab_header slab_start order = slab_start + slab_size order - slab_header_size

-- Where the fields of a slab with a header stand.
abbrev pub free_slab_chunk : ℕ → ℕ
free_slab_chunk slab_header = slab_header

abbrev pub free_slab_chunk_amount : ℕ → ℕ
free_slab_chunk_amount slab_header = slab_header + 8

abbrev pub next_slab : ℕ → ℕ
next_slab slab_header = slab_header + 16

abbrev pub prev_slab : ℕ → ℕ
prev_slab slab_header = slab_header + 24

-- The address with its lower 12 + order bits cleared.
unfoldable pub get_slab_start_ptr : (ptr order : ℕ) → ℕ
get_slab_start_ptr ptr order = ptr - ptr % slab_size order

pub record Cache : Type 0 where
  pub free_slabs : ℕ
  pub partly_allocated_slabs : ℕ
  pub fully_allocated_slabs : ℕ
  pub object_size : ℕ
  pub slab_order : ℕ
  pub slab_objects : ℕ

-- The chunks of a free slab: the word of the current element is linked to the next lower object.
unfoldable pub link_chunks : (objects slab_start object_size current_elem : ℕ) → Memory → Memory
link_chunks zero slab_start object_size current_elem m = m
link_chunks (suc i) slab_start object_size current_elem m =
    let m' = write_word (free_slab_chunk current_elem) (slab_start + i * object_size) m in
    link_chunks i slab_start object_size (m' (free_slab_chunk current_elem)) m'

unfoldable pub initialize_new_free_slab : Cache → Memory → Memory
initialize_new_free_slab cache m =
    let header = get_slab_header cache.free_slabs cache.slab_order in
    let m1 = write_word (free_slab_chunk_amount header) cache.slab_objects m in
    let m2 = write_word (next_slab header) 0 m1 in
    let m3 = write_word (prev_slab header) 0 m2 in
    link_chunks cache.slab_objects cache.free_slabs cache.object_size header m3

-- cache_setup: the size of an object, the order of a slab, and the number of its objects. An
-- object_size below 2 ^ 43, for which the order is an int.
unfoldable pub setup_object_size : ℕ → ℕ
setup_object_size object_size = if ltb object_size ptr_size then ptr_size else object_size

unfoldable pub setup_slab_order : ℕ → ℕ
setup_slab_order size =
    let order =
      if not (size % page_size == 0) && ltb page_size size
      then size / page_size + 1
      else size / page_size in
    if ltb max_page_order order then max_page_order else order

unfoldable pub setup_slab_objects : (order size : ℕ) → ℕ
setup_slab_objects order size = (slab_size order - slab_header_size) / size

-- cache_setup, where aligned_alloc gives the region.
unfoldable pub cache_setup : (region object_size : ℕ) → Memory → Cache × Memory
cache_setup region object_size m =
    let size = setup_object_size object_size in
    let order = setup_slab_order size in
    let cache : Cache = record {
      free_slabs = region;
      partly_allocated_slabs = 0;
      fully_allocated_slabs = 0;
      object_size = size;
      slab_order = order;
      slab_objects = setup_slab_objects order size;
    } in
    (cache, initialize_new_free_slab cache m)

-- free_slab_chain: the slabs that are freed, on fuel for the slabs of the chain.
unfoldable pub free_slab_chain : (fuel chain_start order : ℕ) → Memory → Option (List ℕ)
free_slab_chain zero chain_start order m = none
free_slab_chain (suc fuel) chain_start order m =
    let next = m (next_slab (get_slab_header chain_start order)) in
    let rest = free_slab_chain fuel next order m in
    if chain_start == 0
    then some []
    else elim rest [ none ↦ none | some slabs ↦ some (chain_start ∷ slabs) ]

unfoldable pub cache_release : (fuel : ℕ) → Cache → Memory → Option (List ℕ × Cache)
cache_release fuel cache m = do
  free ← free_slab_chain fuel cache.free_slabs cache.slab_order m
  partly ← free_slab_chain fuel cache.partly_allocated_slabs cache.slab_order m
  fully ← free_slab_chain fuel cache.fully_allocated_slabs cache.slab_order m
  some (
    free ++ partly ++ fully,
    record cache { free_slabs = 0; partly_allocated_slabs = 0; fully_allocated_slabs = 0 },
  )

-- cache_shrink
unfoldable pub cache_shrink : (fuel : ℕ) → Cache → Memory → Option (List ℕ × Cache)
cache_shrink fuel cache m = do
  free ← free_slab_chain fuel cache.free_slabs cache.slab_order m
  some (free, record cache { free_slabs = 0 })

-- delete_slab_from_list: the new beginning of the list, and the memory.
unfoldable pub delete_slab_from_list : (list_beginning slab_start order : ℕ) → Memory → ℕ × Memory
delete_slab_from_list list_beginning slab_start order m =
    let header = get_slab_header slab_start order in
    let next = m (next_slab header) in
    let prev = m (prev_slab header) in
    let m' = if next == 0 then m else write_word (prev_slab (get_slab_header next order)) prev m in
    if prev == 0
    then (next, m')
    else (list_beginning, write_word (next_slab (get_slab_header prev order)) next m')

unfoldable pub insert_slab_to_list : (list_beginning slab_start order : ℕ) → Memory → ℕ × Memory
insert_slab_to_list list_beginning slab_start order m =
    let header = get_slab_header slab_start order in
    let m1 = write_word (next_slab header) list_beginning m in
    let m2 = write_word (prev_slab header) 0 m1 in
    let m3 =
      if list_beginning == 0
      then m2
      else write_word (prev_slab (get_slab_header list_beginning order)) slab_start m2 in
    (slab_start, m3)
