-- ===== src/Paging.antt =====
-- os-internals/paging/main.cpp: the translation of logical addresses through four levels of tables in
-- a memory map, and the requests of main.
use sys_prog.Prelude.{
  ℕ, zero, suc, ◌+◌, ◌-◌, ◌*◌, ◌/◌, ◌%◌, ◌^◌, ◌≡◌, Bool, true, false, Option, none, some, List, [],
  ◌∷◌, ◌==◌, ltb, if◌then◌else◌,
}
pub mod Lookup
pub mod Walk
mod Tests

-- std::map, as the pairs that have been stored, the last one first.
abbrev pub Map : Type 0
Map = List (ℕ × ℕ)

unfoldable pub map_find : ℕ → Map → Option ℕ
map_find a [] = none
map_find a ((k, v) ∷ m) = if k == a then some v else map_find a m

-- P
abbrev pub is_used : ℕ → Bool
is_used record_value = record_value % 2 == 1

-- TABLE_INDEX: a shift to the left in 64 bits and one by 55 to the right.
unfoldable pub table_index : (address lvl : ℕ) → ℕ
table_index address lvl = (address * 2 ^ (16 + 9 * lvl)) % 2 ^ 64 / 2 ^ 55

-- OFFSET
abbrev pub offset : ℕ → ℕ
offset address = address % 4096

abbrev pub max_table_lvl : ℕ
max_table_lvl = 4

-- What the record of a level is: 0 where the map has none.
unfoldable pub table_record : (logical_address lvl table_address : ℕ) → Map → ℕ
table_record logical_address lvl table_address memory_map =
    elim (map_find ((table_address + 8 * table_index logical_address lvl) % 2 ^ 64) memory_map) [
      | none ↦ 0
      | some r ↦ r
    ]

-- The loop for the levels that are left; none for a page fault. The address of the next table is
-- the record without its bit P, which is set.
unfoldable pub walk : (levels logical_address lvl table_address : ℕ) → Map → Option ℕ
walk zero logical_address lvl table_address memory_map = some table_address
walk (suc levels) logical_address lvl table_address memory_map =
    let r = table_record logical_address lvl table_address memory_map in
    let rest = walk levels logical_address (suc lvl) (r - 1) memory_map in
    if is_used r then rest else none

unfoldable pub translate_logical_to_physical_address :
    (logical_address first_lvl_table_address : ℕ) → Map → Option ℕ
translate_logical_to_physical_address logical_address first memory_map =
    elim (walk max_table_lvl logical_address 0 first memory_map) [
      | none ↦ none
      | some table_address ↦ some ((table_address + offset logical_address) % 2 ^ 64)
    ]

-- The loop of main that stores the pairs of the input.
unfoldable pub store_all : List (ℕ × ℕ) → Map → Map
store_all [] m = m
store_all ((paddr, value) ∷ input) m = store_all input ((paddr, value) ∷ m)

-- A line of the output: an address, or "fault".
pub data Printed : Type 0 where
  address : ℕ → Printed
  fault : Printed

abbrev pub print_result : Option ℕ → Printed
print_result none = fault
print_result (some a) = address a

unfoldable pub print_results : (r : ℕ) → Map → List ℕ → List Printed
print_results r m [] = []
print_results r m (logical_address ∷ input) =
    print_result (translate_logical_to_physical_address logical_address r m)
    ∷ print_results r m input

-- main, on the m pairs, the root r and the q requests of its input.
unfoldable pub main : List (ℕ × ℕ) → (r : ℕ) → List ℕ → List Printed
main stores r requests = print_results r (store_all stores []) requests
