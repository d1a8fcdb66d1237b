-- ===== src/Paging/Lookup.antt =====
-- The map of the pairs that main stores, and the parts of an address.
use sys_prog.Prelude.{
  ℕ, zero, suc, ◌+◌, ◌-◌, ◌*◌, ◌/◌, ◌%◌, ◌^◌, ◌<◌, ◌≡◌, refl, Option, none, some, List, [], ◌∷◌,
  arith, ◌==◌, if◌then◌else◌,
}
use sys_prog.Paging.{Map, map_find, store_all, table_index, offset}

-- What stands at an address after the pairs have been stored in their order, over what stood there.
unfoldable pub last_value : ℕ → List (ℕ × ℕ) → Option ℕ → Option ℕ
last_value a [] before = before
last_value a ((k, v) ∷ input) before = last_value a input (if k == a then some v else before)

map_find-store_all :
    (a : ℕ) (input : List (ℕ × ℕ)) (m : Map)
    → map_find a (store_all input m) ≡ last_value a input (map_find a m)
unfolding last_value store_all map_find
map_find-store_all a [] m = refl
map_find-store_all a ((k, v) ∷ input) m = map_find-store_all a input ((k, v) ∷ m)

pub map_find-main :
    (a : ℕ) (input : List (ℕ × ℕ)) → map_find a (store_all input []) ≡ last_value a input none
unfolding map_find
map_find-main a input = map_find-store_all a input []

-- The parts of the address that the comment of the file names: bits 39 to 47 for the first level, and
-- nine bits less for each further one.
abbrev pub documented_index : (address lvl : ℕ) → ℕ
documented_index a lvl = a / 2 ^ (39 - 9 * lvl) % 512

pub table_index-documented : (a lvl : ℕ) → lvl < 4 → table_index a lvl ≡ documented_index a lvl
unfolding table_index
table_index-documented a zero h = omega arith
table_index-documented a (suc zero) h = omega arith
table_index-documented a (suc (suc zero)) h = omega arith
table_index-documented a (suc (suc (suc zero))) h = omega arith
table_index-documented a (suc (suc (suc (suc lvl)))) h = absurd (omega arith)

-- The four indices are below 512, and together with the offset they make up the lower 48 bits of the
-- address.
pub table_index-offset :
    (a : ℕ)
    → ((lvl : ℕ) → lvl < 4 → table_index a lvl < 512)
      × (table_index a 0 * 2 ^ 39
            + table_index a 1 * 2 ^ 30
            + table_index a 2 * 2 ^ 21
            + table_index a 3 * 2 ^ 12
            + offset a
          ≡ a % 2 ^ 48)
table_index-offset a = (
  (λ lvl h. let e = table_index-documented a lvl h in omega arith),
  let e0 : table_index a 0 ≡ a / 2 ^ 39 % 512 = table_index-documented a 0 (omega arith) in
      let e1 : table_index a 1 ≡ a / 2 ^ 30 % 512 = table_index-documented a 1 (omega arith) in
      let e2 : table_index a 2 ≡ a / 2 ^ 21 % 512 = table_index-documented a 2 (omega arith) in
      let e3 : table_index a 3 ≡ a / 2 ^ 12 % 512 = table_index-documented a 3 (omega arith) in
      omega arith,
)
