-- ===== src/Slab/Requests.antt =====
-- cache_alloc and cache_free of slab.c.
use sys_prog.Prelude.{ℕ, ◌+◌, ◌-◌, ◌%◌, ◌^◌, not, ◌==◌, if◌then◌else◌}
use sys_prog.Slab.{
  Memory, write_word, Cache, get_slab_header, get_slab_start_ptr, free_slab_chunk,
  free_slab_chunk_amount, delete_slab_from_list, insert_slab_to_list, initialize_new_free_slab,
}

-- The cache and the memory after a slab has been moved from one of the three lists to another.
unfoldable pub move_to_full : (slab_start : ℕ) → Cache → Memory → Cache × Memory
move_to_full slab_start cache m =
    let (partly, m') =
      delete_slab_from_list cache.partly_allocated_slabs slab_start cache.slab_order m in
    let (fully, m'') =
      insert_slab_to_list cache.fully_allocated_slabs slab_start cache.slab_order m' in
    (record cache { partly_allocated_slabs = partly; fully_allocated_slabs = fully }, m'')

unfoldable pub move_from_free : (slab_start : ℕ) → Cache → Memory → Cache × Memory
move_from_free slab_start cache m =
    let (free, m') = delete_slab_from_list cache.free_slabs slab_start cache.slab_order m in
    let (partly, m'') =
      insert_slab_to_list cache.partly_allocated_slabs slab_start cache.slab_order m' in
    (record cache { free_slabs = free; partly_allocated_slabs = partly }, m'')

unfoldable pub move_to_free : (slab_start : ℕ) → Cache → Memory → Cache × Memory
move_to_free slab_start cache m =
    let (partly, m') =
      delete_slab_from_list cache.partly_allocated_slabs slab_start cache.slab_order m in
    let (free, m'') = insert_slab_to_list cache.free_slabs slab_start cache.slab_order m' in
    (record cache { partly_allocated_slabs = partly; free_slabs = free }, m'')

unfoldable pub move_from_full : (slab_start : ℕ) → Cache → Memory → Cache × Memory
move_from_full slab_start cache m =
    let (fully, m') =
      delete_slab_from_list cache.fully_allocated_slabs slab_start cache.slab_order m in
    let (partly, m'') =
      insert_slab_to_list cache.partly_allocated_slabs slab_start cache.slab_order m' in
    (record cache { fully_allocated_slabs = fully; partly_allocated_slabs = partly }, m'')

-- One less, and one more, of 64 bits.
abbrev pub decrement : ℕ → ℕ
decrement n = (n + (2 ^ 64 - 1)) % 2 ^ 64

abbrev pub increment : ℕ → ℕ
increment n = (n + 1) % 2 ^ 64

-- The first chunk of the slab with the header is taken out of its chain.
unfoldable pub drop_chunk : (header : ℕ) → Memory → Memory
drop_chunk header m =
    write_word (free_slab_chunk header) (m (free_slab_chunk (m (free_slab_chunk header)))) m

-- cache_alloc where the first partly allocated slab has the chunk.
unfoldable pub alloc_partly : Cache → Memory → ℕ × (Cache × Memory)
alloc_partly cache m =
    let slab_start = cache.partly_allocated_slabs in
    let header = get_slab_header slab_start cache.slab_order in
    let ret_chunk = m (free_slab_chunk header) in
    let m' =
      write_word (free_slab_chunk_amount header) (decrement (m (free_slab_chunk_amount header)))
        m in
    if m' (free_slab_chunk_amount header) == 0
    then (ret_chunk, move_to_full slab_start cache m')
    else (ret_chunk, (cache, drop_chunk header m'))

-- cache_alloc where the first free slab has it.
unfoldable pub alloc_free : Cache → Memory → ℕ × (Cache × Memory)
alloc_free cache m =
    let slab_start = cache.free_slabs in
    let header = get_slab_header slab_start cache.slab_order in
    let ret_chunk = m (free_slab_chunk header) in
    let m' =
      write_word (free_slab_chunk_amount header) (decrement (m (free_slab_chunk_amount header)))
        m in
    (ret_chunk, move_from_free slab_start cache (drop_chunk header m'))

-- cache_alloc: the chunk, the cache and the memory, where aligned_alloc would give the region.
unfoldable pub cache_alloc : (region : ℕ) → Cache → Memory → ℕ × (Cache × Memory)
cache_alloc region cache m =
    if not (cache.partly_allocated_slabs == 0)
    then alloc_partly cache m
    else if cache.free_slabs == 0
    then (let cache' = record cache { free_slabs = region } in
        alloc_free cache' (initialize_new_free_slab cache' m))
    else alloc_free cache m

-- cache_free, once the chunk is back in the chain of its slab.
unfoldable pub chunk_freed : (slab_start amount : ℕ) → Cache → Memory → Cache × Memory
chunk_freed slab_start amount cache m =
    if amount == cache.slab_objects
    then move_to_free slab_start cache m
    else if amount == 1
    then move_from_full slab_start cache m
    else (cache, m)

unfoldable pub push_chunk : (ptr header : ℕ) → Memory → Memory
push_chunk ptr header m =
    let m1 = write_word (free_slab_chunk ptr) (m (free_slab_chunk header)) m in
    let m2 = write_word (free_slab_chunk header) ptr m1 in
    write_word (free_slab_chunk_amount header) (increment (m2 (free_slab_chunk_amount header))) m2

unfoldable pub cache_free : (ptr : ℕ) → Cache → Memory → Cache × Memory
cache_free ptr cache m =
    let slab_start = get_slab_start_ptr ptr cache.slab_order in
    let header = get_slab_header slab_start cache.slab_order in
    let m' = push_chunk ptr header m in
    chunk_freed slab_start (m' (free_slab_chunk_amount header)) cache m'
