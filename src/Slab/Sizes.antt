-- ===== src/Slab/Sizes.antt =====
-- The sizes that cache_setup chooses, and where the slab of an object begins.
use sys_prog.Prelude.{
  ℕ, zero, suc, ◌+◌, ◌-◌, ◌*◌, ◌/◌, ◌%◌, ◌^◌, ◌<◌, ◌≤◌, ◌≡◌, refl, ◌∙◌, arith, ltb, Bool-cases, inl,
  inr, ◌⊎◌,
}
use native.Mathlib.Nat.{
  div-le_self, div-eq_of_lt, mul-add-mod_self_right, one-le-pow, two-pow-succ, le-div_iff_mul-le,
  div-mul-le_self, mod-eq_of_lt,
}
use sys_prog.Slab.{
  slab_size, get_slab_start_ptr, setup_object_size, setup_slab_order, setup_slab_objects,
}

-- The slab with a number, from its size on.
abbrev pub IsSlab : (order slab_start : ℕ) → Type 0
IsSlab order s = (k : ℕ) × (0 < k) × (s ≡ k * slab_size order)

pub page-slab_size : (order : ℕ) → 4096 ≤ slab_size order
unfolding slab_size
page-slab_size order = let some_page = one-le-pow order 2 (omega arith) in omega arith

pub get_slab_start_ptr-object :
    (order s x : ℕ) → IsSlab order s → x < slab_size order → get_slab_start_ptr (s + x) order ≡ s
unfolding get_slab_start_ptr
get_slab_start_ptr-object order s x (k, some_k, e) less =
    let m : (s + x) % slab_size order ≡ x =
      rw e (mul-add-mod_self_right k (slab_size order) x ∙ mod-eq_of_lt less) in
    rw m (omega arith)

le_two_pow : (q : ℕ) → q + 1 ≤ 2 ^ q
le_two_pow zero = omega arith
le_two_pow (suc q) =
    let ih = le_two_pow q in let e : 2 ^ suc q ≡ 2 ^ q + 2 ^ q = two-pow-succ q in omega arith

setup_slab_order-small : (size : ℕ) → size < 4096 → setup_slab_order size ≡ 0
unfolding setup_slab_order
setup_slab_order-small size less = ground arith

setup_slab_order-pages :
    (size : ℕ) → 4096 ≤ size → (size ≤ 4096 * setup_slab_order size) ⊎ (setup_slab_order size ≡ 10)
unfolding setup_slab_order
setup_slab_order-pages size more = ground arith

-- Where an object is smaller than a page by the header, or not smaller than a page, it fits the slab.
setup_slab_order-fits :
    (size : ℕ)
    → size ≤ 4194272
    → (size ≤ 4064) ⊎ (4096 ≤ size)
    → size + 32 ≤ slab_size (setup_slab_order size)
unfolding slab_size
setup_slab_order-fits size small (inl less) =
    rw (setup_slab_order-small size (omega arith)) (omega arith)
setup_slab_order-fits size small (inr more) = elim (setup_slab_order-pages size more) [
  | inl pages ↦ let power = le_two_pow (setup_slab_order size) in omega arith
  | inr capped ↦ rw capped (omega arith)
]

setup_object_size-pointer :
    (n : ℕ)
    → (8 ≤ setup_object_size n)
      × (n ≤ setup_object_size n)
      × (n ≤ 4064 → setup_object_size n ≤ 4064)
      × (setup_object_size n ≤ n + 8)
      × (8 ≤ n → setup_object_size n ≡ n)
unfolding setup_object_size
setup_object_size-pointer n = elim (Bool-cases (ltb n 8)) [
  | inl less ↦
      rw less
        (omega arith, ground arith, (λ h. omega arith), omega arith, (λ h. absurd (ground arith)))
  | inr more ↦ rw more (ground arith, omega arith, (λ h. h), omega arith, (λ h. refl))
]

-- cache_setup, for objects whose size leaves room for the header in the largest slab, and does not
-- lie in the last bytes below a page: an object is not smaller than a pointer or than what was asked
-- for, a slab has at least one object, and all its objects stand below the header.
pub setup_slab_objects-fit :
    (object_size : ℕ)
    → object_size ≤ 4194272
    → (object_size ≤ 4064) ⊎ (4096 ≤ object_size)
    → (let size = setup_object_size object_size in
        let order = setup_slab_order size in
        (8 ≤ size)
        × (object_size ≤ size)
        × (1 ≤ setup_slab_objects order size)
        × (setup_slab_objects order size * size + 32 ≤ slab_size order))
unfolding setup_slab_objects
setup_slab_objects-fit n small h =
    let size = setup_object_size n in
    let order = setup_slab_order size in
    let (pointer, asked, below, near, same) = setup_object_size-pointer n in
    let upper : size ≤ 4194272 = elim h [
      | inl less ↦ omega arith
      | inr more ↦ (let e = same (omega arith) in omega arith)
    ] in
    let apart : (size ≤ 4064) ⊎ (4096 ≤ size) = elim h [
      | inl less ↦ inl (below less)
      | inr more ↦ inr (omega arith)
    ] in
    let fits = setup_slab_order-fits size upper apart in
    let some_object : 1 ≤ (slab_size order - 32) / size =
      (le-div_iff_mul-le (omega arith)).1 (omega arith) in
    let room = div-mul-le_self (slab_size order - 32) size in
    (pointer, asked, some_object, omega arith)

-- In the last bytes below a page, a slab has no object at all.
pub setup_slab_objects-none :
    (object_size : ℕ)
    → 4064 < object_size
    → object_size < 4096
    → setup_slab_objects
        (setup_slab_order (setup_object_size object_size))
        (setup_object_size object_size)
      ≡ 0
unfolding setup_slab_objects slab_size
setup_slab_objects-none n more less =
    let e = (setup_object_size-pointer n).4 (omega arith) in
    let one_page : slab_size 0 - 32 < n = omega arith in
    rw (e, setup_slab_order-small n less) (div-eq_of_lt one_page)

max_pointer : (n bound : ℕ) → n ≤ bound → 8 ≤ bound → setup_object_size n ≤ bound
unfolding setup_object_size
max_pointer n bound le some = elim (Bool-cases (ltb n 8)) [
  | inl less ↦ rw less some
  | inr more ↦ rw more le
]

setup_slab_order-two_pages : (size : ℕ) → 4096 < size → size ≤ 8176 → setup_slab_order size ≡ 2
unfolding setup_slab_order
setup_slab_order-two_pages size more less = ground arith

division_bounds :
    (room size : ℕ) → 0 < size → 2 * size ≤ room → (2 ≤ room / size) × (room / size ≤ room)
division_bounds room size some fits = ((le-div_iff_mul-le some).1 fits, div-le_self room size)

-- For objects of up to half a page less the header, and for some larger ones, a slab has at least two
-- objects, and fewer than its amount of free chunks can count.
pub setup_slab_objects-two :
    (object_size : ℕ)
    → (object_size ≤ 2032) ⊎ ((4096 < object_size) × (object_size ≤ 8176))
    → (let size = setup_object_size object_size in
        let n = setup_slab_objects (setup_slab_order size) size in (2 ≤ n) × (n + 1 < 2 ^ 64))
unfolding setup_slab_objects slab_size
setup_slab_objects-two n (inl small) =
    let size = setup_object_size n in
    let (pointer, asked, below, near, same) = setup_object_size-pointer n in
    let up : size ≤ 2032 = max_pointer n 2032 small (omega arith) in
    let (two, few) = division_bounds (4096 * 2 ^ 0 - 32) size (omega arith) (omega arith) in
    rw (setup_slab_order-small size (omega arith)) (two, omega arith)
setup_slab_objects-two n (inr (more, less)) =
    let size = setup_object_size n in
    let (pointer, asked, below, near, same) = setup_object_size-pointer n in
    let e = same (omega arith) in
    let (two, few) = division_bounds (4096 * 2 ^ 2 - 32) size (omega arith) (omega arith) in
    rw (setup_slab_order-two_pages size (omega arith) (omega arith)) (two, omega arith)
