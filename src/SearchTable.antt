-- ===== src/SearchTable.antt =====
-- OS UNIX+ System V/Input-Output system calls/laboratory work #5/src/main.c: the table of the lines
-- of a text file, and the answers to requests for a line by its number.
pub mod Laws
pub mod Timed
mod Tests
use sys_prog.Prelude.{
  ℕ, zero, suc, ◌+◌, ◌-◌, Bool, true, false, ◌&&◌, ◌||◌, Option, none, some, List, [], ◌∷◌, ◌==◌,
  ltb, leb, if◌then◌else◌, take, drop, ℤ, pos, negsuc,
}

abbrev pub strings_max_num : ℕ
strings_max_num = 100

abbrev pub newline : ℕ
newline = 10

-- What a call `read(fd, &symbol, 1)` gives: 1 with the symbol, or -1. At the end of the list it
-- gives 0.
pub data ReadByte : Type 0 where
  got : ℕ → ReadByte
  failed : ReadByte

-- The local variables of `create_search_table`; the two arrays as functions of the index.
pub record Scan : Type 0 where
  pub symbol : ℕ
  pub string_length : ℕ
  pub file_length : ℕ
  pub string_max_length : ℕ
  pub i : ℕ
  pub indents : ℕ → ℕ
  pub strings_length : ℕ → ℕ

abbrev pub update : (ℕ → ℕ) → ℕ → ℕ → ℕ → ℕ
update f k v j = if k == j then v else f j

-- if (string_length > *string_max_length) *string_max_length = string_length;
abbrev pub grow : ℕ → ℕ → ℕ
grow len most = if ltb most len then len else most

-- The body of the reading loop, once the read has left `symbol`.
unfoldable pub scan_symbol : ℕ → Scan → Scan
scan_symbol c s =
    let file_length = s.file_length + 1 in
    let string_length = s.string_length + 1 in
    if c == newline
    then record {
      symbol = c;
      string_length = 0;
      file_length = file_length;
      string_max_length = grow string_length s.string_max_length;
      i = s.i + 1;
      indents = update s.indents s.i file_length;
      strings_length = update s.strings_length s.i string_length;
    }
    else record s { symbol = c; string_length = string_length; file_length = file_length }

-- The result of the read is tested before `i`, and a failed read (-1) counts as true: the body
-- runs on the symbol that was read before.
unfoldable pub scan_loop : List ReadByte → Scan → Scan
scan_loop [] s = s
scan_loop (r ∷ rs) s =
    let c : ℕ = elim r [ got c ↦ c | failed ↦ s.symbol ] in
    let rest = scan_loop rs (scan_symbol c s) in if ltb s.i strings_max_num then rest else s

-- The entry for what stands behind the last newline.
unfoldable pub scan_tail : Scan → Scan
scan_tail s =
    if ltb s.i strings_max_num
    then record s {
      string_max_length = grow s.string_length s.string_max_length;
      indents = update s.indents s.i s.file_length;
      strings_length = update s.strings_length s.i s.string_length;
    }
    else s

-- `garbage` is what the uninitialised arrays and `symbol` hold.
abbrev pub scan_start : (garbage : ℕ → ℕ) → Scan
scan_start garbage = record {
  symbol = garbage 0;
  string_length = 0;
  file_length = 0;
  string_max_length = 0;
  i = 0;
  indents = garbage;
  strings_length = garbage;
}

-- `none` is the result -1, when the closing `lseek` fails; else the result is the field `i`.
unfoldable pub create_search_table :
    (garbage : ℕ → ℕ) → (seek_ok : Bool) → List ReadByte → Option Scan
unfolding scan_symbol scan_loop scan_tail
create_search_table garbage seek_ok rs =
    let s = scan_tail (scan_loop rs (scan_start garbage)) in if seek_ok then some s else none

-- What one round of the loop in `main` does with the number that `scanf` read; `lseek` and `write`
-- succeed, and the buffer is large enough.
pub data Answer : Type 0 where
  stop : Answer
  unexpected : Answer
  line : List ℕ → Answer

-- `lseek` and `read` on a file that holds `text`: the bytes from the offset, at most `len`.
abbrev pub read_at : List ℕ → ℕ → ℕ → List ℕ
read_at text off len = take len (drop off text)

-- if (len <= 0 || write(...) <= 0) break;
abbrev pub print_line : List ℕ → Answer
print_line [] = stop
print_line (c ∷ cs) = line (c ∷ cs)

unfoldable pub answer : List ℕ → Scan → ℤ → Answer
answer text s (negsuc n) = unexpected
answer text s (pos zero) = stop
answer text s (pos (suc k)) =
    if ltb s.i (suc k)
    then unexpected
    else print_line (read_at text (s.indents k - s.strings_length k) (s.strings_length k))

-- The answers to a sequence of requests, up to the one that ends the loop.
unfoldable pub serve : List ℕ → Scan → List ℤ → List Answer
serve text s [] = []
serve text s (num ∷ nums) =
    let rest = serve text s nums in
    elim (answer text s num) [ stop ↦ [] | unexpected ↦ unexpected ∷ rest | line l ↦ line l ∷ rest ]
