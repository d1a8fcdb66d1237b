-- ===== src/Master.antt =====
-- OS UNIX+ System V/Message queue/laboratory work #32/src: master.c, which counts its slaves and prints
-- what they send until the last one has finished, and the messages of slave.c.
pub mod Sessions
mod Tests
use sys_prog.Prelude.{
  ℕ, zero, suc, ◌+◌, ◌-◌, ◌%◌, ◌^◌, ◌<◌, Bool, true, false, List, [], ◌∷◌, ◌++◌, ◌==◌,
  if◌then◌else◌,
}

-- What master.c sees in a message: "R", "F", or any other text.
pub data Report : Type 0 where
  started : Report
  finished : Report
  typed : List ℕ → Report

-- The end of the loop, or its counter when the queue is empty and msgrcv waits; what is printed, and
-- what is left in the queue.
pub data Served : Type 0 where
  ended : (printed rest : List Report) → Served
  waits : (alive_recvers_num : ℕ) (printed : List Report) → Served

unfoldable pub prints : Report → Served → Served
prints t (ended ps rest) = ended (t ∷ ps) rest
prints t (waits n ps) = waits n (t ∷ ps)

-- The loop of master.c over the messages in the queue; the counter is an int.
unfoldable pub master : ℕ → List Report → Served
master n [] = waits n []
master n (started ∷ ms) = prints started (master ((n + 1) % 2 ^ 32) ms)
master n (finished ∷ ms) =
    let rest = master (n - 1) ms in
    let others = master n ms in
    if n == 0 then prints finished others else if n == 1 then ended [] ms else rest
master n (typed l ∷ ms) = prints (typed l) (master n ms)

-- The tests of master.c on the first two symbols, the second one being the end.
unfoldable pub report : List ℕ → Report
report (c ∷ []) = if c == 70 then finished else if c == 82 then started else typed (c ∷ [])
report text = typed text

-- What fgets gives is sent as it is: a last line of one symbol without its line feed, too.
unfoldable pub lines : List (List ℕ) → List Report
lines [] = finished ∷ []
lines (l ∷ ls) = report l ∷ lines ls

-- What a slave sends for the lines that it reads.
unfoldable pub slave : List (List ℕ) → List Report
slave ls = started ∷ lines ls
