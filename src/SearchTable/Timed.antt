-- ===== src/SearchTable/Timed.antt =====
-- OS UNIX+ System V/Input-Output system calls/laboratory work #6/src/main.c: the same table, where a
-- failed read ends the scan, and requests under a time limit after which the whole file is printed.
use sys_prog.Prelude.{
  ℕ, zero, suc, ◌+◌, ◌-◌, ◌<◌, ◌≡◌, refl, ap, Bool, true, Option, none, some, List, [], ◌∷◌, ◌++◌,
  map, arith, ltb, if◌then◌else◌, take, drop, length, ℤ, pos, negsuc, length-drop,
}
use sys_prog.SearchTable.{
  ReadByte, got, failed, Scan, scan_symbol, scan_loop, scan_start, scan_tail, create_search_table,
  strings_max_num, read_at,
}

-- while (read(file, &symbol, sizeof(char)) > 0 && i < STRINGS_MAX_NUM)
unfoldable pub timed_scan : List ReadByte → Scan → Scan
timed_scan [] s = s
timed_scan (failed ∷ rs) s = s
timed_scan (got c ∷ rs) s =
    let rest = timed_scan rs (scan_symbol c s) in if ltb s.i strings_max_num then rest else s

unfoldable pub create_timed_table :
    (garbage : ℕ → ℕ) → (seek_ok : Bool) → List ReadByte → Option Scan
unfolding timed_scan
create_timed_table garbage seek_ok rs =
    let s = scan_tail (timed_scan rs (scan_start garbage)) in if seek_ok then some s else none

-- `print_file`: reads of `size` bytes until one gives nothing, where `lseek` and `write`
-- succeed; `text` is what is left of the file.
-- Each round but the last consumes a byte, so that fuel above the length of the file is enough.
unfoldable pub print_chunks : (fuel : ℕ) → (size : ℕ) → (text : List ℕ) → Option (List ℕ)
print_chunks zero size text = none
print_chunks (suc fuel) size text = elim (take size text) [
  | [] ↦ some []
  | c ∷ cs ↦ elim (print_chunks fuel size (drop size text)) [
    | none ↦ none
    | some out ↦ some ((c ∷ cs) ++ out)
  ]
]

-- What `scanf` meets before the alarm: a number, other input or its end, or the signal (EINTR).
pub data Request : Type 0 where
  number : ℤ → Request
  no_number : Request
  timed_out : Request

pub data Reply : Type 0 where
  finish : Reply
  out_of_range : Reply
  one_line : List ℕ → Reply
  whole_file : Option (List ℕ) → Reply

abbrev reply_line : List ℕ → Reply
reply_line [] = finish
reply_line (c ∷ cs) = one_line (c ∷ cs)

-- One round of the loop in `main`, where `lseek` and `write` succeed.
unfoldable pub timed_answer : List ℕ → Scan → Request → Reply
timed_answer text s no_number = finish
timed_answer text s timed_out = whole_file (print_chunks (length text + 1) s.string_max_length text)
timed_answer text s (number (negsuc n)) = out_of_range
timed_answer text s (number (pos zero)) = finish
timed_answer text s (number (pos (suc k))) =
    if ltb s.i (suc k)
    then out_of_range
    else reply_line (read_at text (s.indents k - s.strings_length k) (s.strings_length k))

-- The symbols before the first failed read.
unfoldable pub readable : List ReadByte → List ℕ
readable [] = []
readable (failed ∷ rs) = []
readable (got c ∷ rs) = c ∷ readable rs

timed_scan-readable :
    (rs : List ReadByte) (s : Scan) → timed_scan rs s ≡ scan_loop (map got (readable rs)) s
unfolding timed_scan scan_loop readable
timed_scan-readable [] s = refl
timed_scan-readable (failed ∷ rs) s = refl
timed_scan-readable (got c ∷ rs) s = ground (arith, timed_scan-readable rs (scan_symbol c s))

take-append-drop : (n : ℕ) (xs : List ℕ) → take n xs ++ drop n xs ≡ xs
take-append-drop zero xs = refl
take-append-drop (suc n) [] = refl
take-append-drop (suc n) (x ∷ xs) = rw (take-append-drop n xs)

print_chunks_lem :
    (fuel size : ℕ) (text : List ℕ)
    → length text < fuel
    → 0 < size
    → print_chunks fuel size text ≡ some text
unfolding print_chunks
print_chunks_lem zero size text h p = absurd (omega arith)
print_chunks_lem (suc fuel) zero text h p = absurd (omega arith)
print_chunks_lem (suc fuel) (suc size) [] h p = refl
print_chunks_lem (suc fuel) (suc size) (c ∷ cs) h p = rw (
  print_chunks_lem fuel (suc size) (drop size cs) (omega (arith, length-drop size cs)) p,
  take-append-drop size cs,
)

printed :
    (fuel size : ℕ) (text : List ℕ)
    → length text < fuel
    → (0 < length text → 0 < size)
    → print_chunks fuel size text ≡ some text
unfolding print_chunks
printed zero size text f h = absurd (omega arith)
printed (suc fuel) zero [] f h = refl
printed (suc fuel) (suc size) [] f h = refl
printed (suc fuel) size (c ∷ cs) f h = print_chunks_lem (suc fuel) size (c ∷ cs) f (h (omega arith))

-- A text that is not empty leaves room for at least one byte in the buffer.
scan_loop-keeps_room :
    (cs : List ℕ) (s : Scan)
    → 0 < s.string_max_length
    → 0 < (scan_tail (scan_loop (map got cs) s)).string_max_length
unfolding scan_loop scan_symbol scan_tail
scan_loop-keeps_room [] s h = ground arith
scan_loop-keeps_room (c ∷ cs) s h = ground (arith, scan_loop-keeps_room cs (scan_symbol c s))

scan_loop-makes_room :
    (cs : List ℕ) (s : Scan)
    → s.i < strings_max_num
    → 0 < s.string_length + length cs
    → 0 < (scan_tail (scan_loop (map got cs) s)).string_max_length
unfolding scan_loop scan_symbol scan_tail
scan_loop-makes_room [] s room h = ground arith
scan_loop-makes_room (c ∷ cs) s room h =
    ground
      (arith, scan_loop-keeps_room cs (scan_symbol c s), scan_loop-makes_room cs (scan_symbol c s))

module _ (garbage : ℕ → ℕ) (rs : List ReadByte) {t : Scan}
    (made : create_timed_table garbage true rs ≡ some t) where
  -- Whatever the reads give, failures included: the table is the one that laboratory work #5 makes
  -- of the symbols before the first failure, and the time limit prints exactly those symbols where
  -- they are what the file holds.
  pub create_timed_table-readable :
      (create_search_table garbage true (map got (readable rs)) ≡ some t)
      × (timed_answer (readable rs) t timed_out ≡ whole_file (some (readable rs)))
  unfolding create_timed_table create_search_table timed_answer
  create_timed_table-readable = (
    rw (← timed_scan-readable rs (scan_start garbage)) made,
    ap whole_file (printed _ t.string_max_length (readable rs) (omega arith) room),
  )
    where
      same : scan_tail (scan_loop (map got (readable rs)) (scan_start garbage)) ≡ t
      same = cc (made, timed_scan-readable rs (scan_start garbage))

      room : 0 < length (readable rs) → 0 < t.string_max_length
      room h =
          rw (← same)
            (scan_loop-makes_room (readable rs) (scan_start garbage) (omega arith) (omega arith))
