-- ===== src/SearchTable/Tests.antt =====
-- Runs of the search table.
use sys_prog.Prelude.{ℕ, ◌≡◌, refl, true, some, List, [], ◌∷◌, arith, map, get_elem?, pos}
use sys_prog.SearchTable.{
  ReadByte, got, failed, Scan, create_search_table, scan_loop, scan_start, scan_tail, answer, line,
  unexpected,
}
use sys_prog.SearchTable.Timed.{
  timed_scan, create_timed_table, readable, timed_answer, timed_out, whole_file,
  create_timed_table-readable,
}
use sys_prog.SearchTable.Laws.{lines_from, reply, answer-create_search_table}

-- "ab\n\nc"
abbrev sample : List ℕ
sample = b'a' ∷ b'b' ∷ 10 ∷ 10 ∷ b'c' ∷ []

abbrev sample_table : Scan
sample_table = scan_tail (scan_loop (map got sample) (scan_start (λ _. 0)))

sample_made : create_search_table (λ _. 0) true (map got sample) ≡ some sample_table
unfolding create_search_table
sample_made = refl

-- The third line has no newline, so it is not among the lines that can be asked for.
answers_of_sample :
    (answer sample sample_table (pos 1) ≡ line (b'a' ∷ b'b' ∷ 10 ∷ []))
    × (answer sample sample_table (pos 3) ≡ unexpected)
unfolding create_search_table answer
answers_of_sample = (refl, refl)

-- A failed read counts the symbol before it once more.
failed_read_counts : (scan_loop (got b'a' ∷ failed ∷ []) (scan_start (λ _. 0))).string_length ≡ 2
unfolding create_search_table
failed_read_counts = refl

answer-create_search_table_example :
    answer sample sample_table (pos 2) ≡ reply (get_elem? (lines_from [] sample) 1)
answer-create_search_table_example =
    answer-create_search_table (λ _. 0) sample sample_made 1 (omega arith)

abbrev broken_file : List ReadByte
broken_file = got b'x' ∷ got 10 ∷ got b'y' ∷ failed ∷ got b'z' ∷ []

abbrev broken_table : Scan
broken_table = scan_tail (timed_scan broken_file (scan_start (λ _. 7)))

broken_made : create_timed_table (λ _. 7) true broken_file ≡ some broken_table
unfolding create_timed_table
broken_made = refl

create_timed_table-readable_example :
    (create_search_table (λ _. 7) true (map got (readable broken_file)) ≡ some broken_table)
    × (timed_answer (readable broken_file) broken_table timed_out
        ≡ whole_file (some (readable broken_file)))
create_timed_table-readable_example = create_timed_table-readable (λ _. 7) broken_file broken_made
