-- ===== src/Paging/Tests.antt =====
-- One page in the tables of four levels.
use sys_prog.Prelude.{ℕ, ◌+◌, ◌*◌, ◌%◌, ◌^◌, ◌<◌, ◌≡◌, refl, none, List, [], ◌∷◌, arith, map}
use sys_prog.Paging.{
  map_find, table_index, offset, table_record, walk, translate_logical_to_physical_address, main,
  store_all, print_results, print_result, address, fault,
}
use sys_prog.Paging.Lookup.{last_value, table_index-offset}
use sys_prog.Paging.Walk.{AreTagged, documented_translate, main-documented}

abbrev tables : List (ℕ × ℕ)
tables = (0, 4097) ∷ (4096, 8193) ∷ (8192, 12289) ∷ (12296, 16385) ∷ []

main_test : main tables 0 (4660 ∷ 8192 ∷ []) ≡ address 16948 ∷ fault ∷ []
unfolding main store_all print_results translate_logical_to_physical_address walk table_record
    table_index map_find
main_test = refl

-- The records with one flag set, bit 1, beside bit P: the flags stay in the addresses of the tables.
flag_test :
    main ((0, 4099) ∷ (4096, 8193) ∷ (8192, 12289) ∷ (12296, 16385) ∷ []) 0 (4660 ∷ []) ≡ fault ∷ []
unfolding main store_all print_results translate_logical_to_physical_address walk table_record
    table_index map_find
flag_test = refl

table_index-offset_example :
    ((lvl : ℕ) → lvl < 4 → table_index 4660 lvl < 512)
    × (table_index 4660 0 * 2 ^ 39
          + table_index 4660 1 * 2 ^ 30
          + table_index 4660 2 * 2 ^ 21
          + table_index 4660 3 * 2 ^ 12
          + offset 4660
        ≡ 4660 % 2 ^ 48)
table_index-offset_example = table_index-offset 4660

main-documented_example :
    main tables 0 (4660 ∷ 8192 ∷ [])
    ≡ map
        (λ a. print_result (documented_translate (λ x. last_value x tables none) a 0))
        (4660 ∷ 8192 ∷ [])
unfolding AreTagged
main-documented_example =
    main-documented tables
      (
        (λ u. (refl, omega arith)),
        (
          (λ u. (refl, omega arith)),
          ((λ u. (refl, omega arith)), ((λ u. (refl, omega arith)), tt)),
        ),
      )
      0 (4660 ∷ 8192 ∷ []) (refl, omega arith)
