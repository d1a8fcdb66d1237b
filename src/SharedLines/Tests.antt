-- ===== src/SharedLines/Tests.antt =====
-- A run over one line.
use sys_prog.Prelude.{◌≡◌, ◌≢◌, refl, true, false, [], ◌∷◌}
use sys_prog.SharedLines.{
  p_read, p_done, c_lock, c_print, Lines, opened, semop_down, semop_up, read_line, produce, consume,
  turn_of, Run, stay, one_more,
}
use sys_prog.SharedLines.Order.{
  OrderOk, LivesOrEnds, Run-OrderOk, Run-printed, Run-LivesOrEnds, Run-exclusive,
}

abbrev about_to_read : Lines
about_to_read = record (opened 0 (7 ∷ [])) { sem_write = 0; write_downs = 1; producer = p_read }

to_read : Run 32767 (opened 0 (7 ∷ [])) about_to_read
unfolding opened turn_of produce semop_down
to_read = one_more stay true refl

abbrev at_end : Lines
at_end = record {
  write_downs = 2;
  read_ups = 1;
  read_downs = 1;
  write_ups = 1;
  sem_read = 0;
  sem_write = 0;
  removed = true;
  product = 7;
  input = [];
  printed = 7 ∷ [];
  producer = p_done;
  consumer = c_lock;
}

to_end : Run 32767 (opened 0 (7 ∷ [])) at_end
unfolding opened turn_of produce consume semop_down semop_up read_line
to_end =
    one_more
      (one_more
        (one_more
          (one_more
            (one_more
              (one_more (one_more (one_more (one_more stay true refl) true refl) true refl) false
                refl)
              false refl)
            false refl)
          true refl)
        true refl)
      true refl

Run-OrderOk_example : OrderOk (7 ∷ []) about_to_read
Run-OrderOk_example = Run-OrderOk 32767 0 (7 ∷ []) about_to_read to_read

-- With an adjustment of at most 1 the second line is not printed.
abbrev cut_short : Lines
cut_short = record {
  write_downs = 1;
  read_ups = 1;
  read_downs = 1;
  write_ups = 1;
  sem_read = 0;
  sem_write = 1;
  removed = true;
  product = 7;
  input = 8 ∷ [];
  printed = 7 ∷ [];
  producer = p_done;
  consumer = c_lock;
}

to_cut_short : Run 1 (opened 0 (7 ∷ 8 ∷ [])) cut_short
unfolding opened turn_of produce consume semop_down semop_up read_line
to_cut_short =
    one_more
      (one_more
        (one_more
          (one_more
            (one_more (one_more (one_more (one_more stay true refl) true refl) true refl) false
              refl)
            false refl)
          false refl)
        true refl)
      true refl

Run-printed_example : cut_short.printed ≡ 7 ∷ []
Run-printed_example = Run-printed 1 0 (7 ∷ 8 ∷ []) cut_short to_cut_short refl

Run-LivesOrEnds_example : LivesOrEnds 32767 at_end
Run-LivesOrEnds_example = Run-LivesOrEnds 32767 0 (7 ∷ []) at_end to_end

Run-exclusive_example : about_to_read.consumer ≢ c_print
Run-exclusive_example = Run-exclusive 32767 0 (7 ∷ []) about_to_read to_read refl
