-- ===== src/Paging/Walk.antt =====
-- The translation that the comment at the top of the file describes, and the code against it.
use sys_prog.Prelude.{
  ℕ, zero, suc, ◌+◌, ◌-◌, ◌*◌, ◌/◌, ◌%◌, ◌^◌, ◌<◌, ◌≤◌, ◌≡◌, refl, ◌∙◌, sym, Option, none, some,
  List, [], ◌∷◌, arith, map, true, ◌==◌, if◌then◌else◌, Bool-cases, Option-cases, inl, inr,
}
use sys_prog.Paging.{
  store_all, table_index, table_record, offset, is_used, walk,
  translate_logical_to_physical_address, print_result, print_results, main,
}
use sys_prog.Paging.Lookup.{last_value, map_find-main, documented_index, table_index-documented}

-- The physical address of a record: its bits 12 to 51.
abbrev pub frame : ℕ → ℕ
frame record_value = record_value % 2 ^ 52 / 4096 * 4096

abbrev pub or_zero : Option ℕ → ℕ
or_zero none = 0
or_zero (some r) = r

module _ (memory : ℕ → Option ℕ) where
  -- The record at an index of a table; the levels that are left are walked, by the bits of the address.
  unfoldable pub documented_walk : (levels logical_address lvl table_address : ℕ) → Option ℕ
  documented_walk zero a lvl table = some table
  documented_walk (suc levels) a lvl table =
      let r = or_zero (memory (table + 8 * documented_index a lvl)) in
      let rest = documented_walk levels a (suc lvl) (frame r) in if is_used r then rest else none

  abbrev with_offset : ℕ → Option ℕ → Option ℕ
  with_offset a none = none
  with_offset a (some page) = some (page + offset a)

  abbrev pub documented_translate : (logical_address first : ℕ) → Option ℕ
  documented_translate a first = with_offset a (documented_walk 4 a 0 first)

-- A record that is used has bit P and a physical address, and no other bit.
abbrev pub IsTagged : ℕ → Type 0
IsTagged r = is_used r ≡ true → (r % 4096 ≡ 1) × (r < 2 ^ 52)

unfoldable pub AreTagged : List (ℕ × ℕ) → Type 0
AreTagged [] = Unit
AreTagged ((k, v) ∷ input) = IsTagged v × AreTagged input

-- The address of a table: a page of the lower 52 bits.
abbrev pub IsTable : ℕ → Type 0
IsTable t = (t % 4096 ≡ 0) × (t < 2 ^ 52)

last_value-IsTagged :
    (a : ℕ) (input : List (ℕ × ℕ)) (before : Option ℕ)
    → AreTagged input
    → IsTagged (or_zero before)
    → IsTagged (or_zero (last_value a input before))
unfolding last_value AreTagged
last_value-IsTagged a [] before all h = h
last_value-IsTagged a ((k, v) ∷ input) before (this, all) h =
    last_value-IsTagged a input (if k == a then some v else before) all
      (elim (Bool-cases (k == a)) [ inl same ↦ rw same this | inr other ↦ rw other h ])

module _ (stores : List (ℕ × ℕ)) (tagged : AreTagged stores) where
  memory : ℕ → Option ℕ
  memory a = last_value a stores none

  table_record-documented :
      (a lvl t : ℕ)
      → IsTable t
      → lvl < 4
      → table_record a lvl t (store_all stores [])
        ≡ or_zero (memory (t + 8 * documented_index a lvl))
  unfolding table_record memory
  table_record-documented a lvl t (page, small) less =
      let same = table_index-documented a lvl less in
      let fits : (t + 8 * table_index a lvl) % 2 ^ 64 ≡ t + 8 * documented_index a lvl =
        omega arith in
      rw (table_record, fits, map_find-main (t + 8 * documented_index a lvl) stores) refl

  record-IsTagged : (x : ℕ) → IsTagged (or_zero (memory x))
  unfolding memory
  record-IsTagged x = last_value-IsTagged x stores none tagged (λ p. absurd (ground arith))

  walk-documented :
      (levels a lvl t : ℕ)
      → IsTable t
      → lvl + levels ≤ 4
      → walk levels a lvl t (store_all stores []) ≡ documented_walk memory levels a lvl t
  unfolding walk documented_walk
  walk-documented zero a lvl t ok le = refl
  walk-documented (suc levels) a lvl t ok le =
      let x = t + 8 * documented_index a lvl in
      let e = table_record-documented a lvl t ok (omega arith) in
      elim (Bool-cases (is_used (or_zero (memory x)))) [
        | inr unused ↦ rw (e, unused) refl
        | inl used ↦
            let r = or_zero (memory x) in
            let (tag, small) = record-IsTagged x used in
            let next : r - 1 ≡ frame r = omega arith in
            let table : IsTable (frame r) = (omega arith, omega arith) in
            rw (e, used, next) (walk-documented levels a (suc lvl) (frame r) table (omega arith))
      ]

  documented_walk-fits :
      (levels a lvl t : ℕ) {page : ℕ}
      → t < 2 ^ 52
      → documented_walk memory levels a lvl t ≡ some page
      → page < 2 ^ 52
  unfolding documented_walk
  documented_walk-fits zero a lvl t small h = ground arith
  documented_walk-fits (suc levels) a lvl t small h =
      let r = or_zero (memory (t + 8 * documented_index a lvl)) in
      elim (Bool-cases (is_used r)) [
        | inr unused ↦ absurd (ground arith)
        | inl used ↦
            documented_walk-fits levels a (suc lvl) (frame r) (omega arith) (sym (rw used refl) ∙ h)
      ]

  translate-documented :
      (a r : ℕ)
      → IsTable r
      → translate_logical_to_physical_address a r (store_all stores [])
        ≡ documented_translate memory a r
  unfolding translate_logical_to_physical_address
  translate-documented a r ok =
      let e = walk-documented 4 a 0 r ok (omega arith) in
      elim (Option-cases (documented_walk memory 4 a 0 r)) [
        | inl fault_page ↦ rw (translate_logical_to_physical_address, e, fault_page) refl
        | inr (page, found) ↦
            let small = documented_walk-fits 4 a 0 r ok.1 found in
            let fits : (page + offset a) % 2 ^ 64 ≡ page + offset a = omega arith in
            rw (translate_logical_to_physical_address, e, found, fits) refl
      ]

  print_results-documented :
      (r : ℕ) (requests : List ℕ)
      → IsTable r
      → print_results r (store_all stores []) requests
        ≡ map (λ a. print_result (documented_translate memory a r)) requests
  unfolding print_results
  print_results-documented r [] ok = refl
  print_results-documented r (a ∷ requests) ok =
      rw (translate-documented a r ok, print_results-documented r requests ok) refl

  -- main, where the address of the first table is a page of the lower 52 bits, and each stored record
  -- that is used has bit P and a physical address and no other bit: each request is answered as the
  -- comment describes the tables, from the value that was stored last at each address: a fault where
  -- one of the four records is not used, and else the page of the last one and the offset.
  pub main-documented :
      (r : ℕ) (requests : List ℕ)
      → IsTable r
      → main stores r requests
        ≡ map
            (λ a. print_result (documented_translate (λ x. last_value x stores none) a r))
            requests
  unfolding main memory
  main-documented r requests ok = print_results-documented r requests ok
