-- ===== src/Series/Tests.antt =====
-- Three threads and blocks of ten; two threads, one of which goes a block further.
use sys_prog.Prelude.{ℕ, ◌<◌, ◌≡◌, refl, arith}
use sys_prog.Series.{
  block, stopped, Sums, with_adder, end_of_block, sig_act, begun, Adding, at_start, block_ends,
  signalled,
}
use sys_prog.Series.Blocks.{SumsOk, Adding-SumsOk}
use sys_prog.Series.Share.{In, block-In}

block-In_example :
    (t : ℕ) × (t < 3)
    × In 14 (block 20 10 3 t 1)
    × ((u : ℕ) → u < 3 → In 14 (block 20 10 3 u 1) → u ≡ t)
block-In_example =
    block-In 20 10 3 1 14 (omega arith) (omega arith) (omega arith) (omega arith) (omega arith)

-- Thread 0 ends block 0, the signal comes, and both threads end the block that they are in.
abbrev uneven : Sums
uneven = end_of_block 1 0 (end_of_block 0 1 (sig_act (end_of_block 0 0 begun)))

uneven-Adding : Adding uneven
unfolding begun end_of_block with_adder
uneven-Adding = block_ends 1 0 (block_ends 0 1 (signalled (block_ends 0 0 at_start refl)) refl) refl

further : uneven.adder 0 ≡ stopped 1
unfolding begun end_of_block with_adder
further = refl

behind : uneven.adder 1 ≡ stopped 0
unfolding begun end_of_block with_adder
behind = refl

Adding-SumsOk_example : SumsOk uneven
Adding-SumsOk_example = Adding-SumsOk uneven uneven-Adding
