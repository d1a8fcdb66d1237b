-- ===== src/Series.antt =====
-- pthreads/laboratory_work_#7/main.c and laboratory_work_#8/main.c: the indices of the series for pi
-- that each thread adds up, and in #8 the blocks after which the threads stop. The sums themselves,
-- of floating-point numbers, are left out.
pub mod Share
pub mod Blocks
mod Tests
use sys_prog.Prelude.{
  ℤ, pos, negsuc, Option, none, some, ℕ, zero, suc, ◌+◌, ◌*◌, ◌%◌, ◌^◌, ◌≡◌, ◌<◌, Bool, true, false,
  Option, none, some, List, [], ◌∷◌, ◌==◌, ltb, leb, if◌then◌else◌,
}

-- The number of threads, from argc and the value of the argument.
unfoldable pub threads_arg : ℕ → ℤ → Option ℕ
threads_arg argc (pos n) = if argc == 2 then some n else none
threads_arg argc (negsuc n) = none

-- for (i = start; i < max; i += threads_num), on fuel; the counters have 64 bits and wrap.
unfoldable pub indices : (fuel i threads_num max : ℕ) → List ℕ
indices zero i n max = []
indices (suc fuel) i n max =
    let rest = indices fuel ((i + n) % 2 ^ 64) n max in if ltb i max then i ∷ rest else []

-- One block of #8, on fuel; #7 has the block 0 only.
unfoldable pub block : (fuel num_steps threads_num start local_iter_counter : ℕ) → List ℕ
block fuel num_steps n start b =
    indices fuel ((b * num_steps + start) % 2 ^ 64) n ((b + 1) % 2 ^ 64 * num_steps % 2 ^ 64)

-- A thread of #8: the block that it adds up, or the last one after it has stopped.
pub data Adder : Type 0 where
  adds : ℕ → Adder
  stopped : ℕ → Adder

pub record Sums : Type 0 where
  pub stop_computations : Bool
  pub global_iter_counter : ℕ
  pub adder : ℕ → Adder

unfoldable pub with_adder : (ℕ → Adder) → ℕ → Adder → ℕ → Adder
with_adder f i a j = if i == j then a else f j

-- The section under the mutex at the end of a block.
unfoldable pub end_of_block : (t b : ℕ) → Sums → Sums
end_of_block t b s =
    if s.stop_computations
    then (if leb s.global_iter_counter b
        then record s { adder = with_adder s.adder t (stopped b) }
        else record s { adder = with_adder s.adder t (adds (b + 1)) })
    else record s {
      global_iter_counter = if ltb s.global_iter_counter b then b else s.global_iter_counter;
      adder = with_adder s.adder t (adds (b + 1));
    }

abbrev pub sig_act : Sums → Sums
sig_act s = record s { stop_computations = true }

unfoldable pub begun : Sums
begun = record { stop_computations = false; global_iter_counter = 0; adder = λ t. adds 0 }

-- What happens, in some order: a thread ends a block, or the signal comes.
pub data Adding : Sums → Type 0 where
  at_start : Adding begun
  block_ends : {s : Sums} (t b : ℕ) → Adding s → s.adder t ≡ adds b → Adding (end_of_block t b s)
  signalled : {s : Sums} → Adding s → Adding (sig_act s)
