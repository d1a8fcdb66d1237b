-- ===== src/SharedLines/Phases.antt =====
-- The states that the two programs reach.
use sys_prog.Prelude.{
  ℕ, ◌+◌, ◌≤◌, ◌<◌, ◌≡◌, refl, ap, subst, ◌∙◌, Bool, true, false, ◌&&◌, ltb, leb, Bool-cases, inl,
  inr, ◌⊎◌, arith, Option, none, some, List, [], ◌∷◌, ◌++◌, length,
}
use sys_prog.SharedLines.{
  Producer, p_lock, p_read, p_unlock, p_end, p_done, Consumer, c_lock, c_print, c_unlock, c_done,
  Lines, opened, semop_down, semop_up, read_line, produce, consumer_ends, consume, turn_of, Run,
  stay, one_more,
}

-- The semaphores, the operations that have been taken, and the lines.
abbrev pub at_work :
    (sem_read sem_write write_downs read_ups read_downs write_ups x : ℕ) (ls ps : List ℕ)
    → Producer
    → Consumer
    → Lines
at_work sr sw wd ru rd wu x ls ps p c = record {
  write_downs = wd;
  read_ups = ru;
  read_downs = rd;
  write_ups = wu;
  sem_read = sr;
  sem_write = sw;
  removed = false;
  product = x;
  input = ls;
  printed = ps;
  producer = p;
  consumer = c;
}

-- Where the memory is after k rounds: free for a line, with the producer before and after it has read
-- one, ready to be printed, with the consumer before and after it has printed it, and at the end,
-- where the input is used up or the producer has taken as many rounds as it can.
pub data Phase (semaem : ℕ) (all : List ℕ) : Lines → Type 0 where
  can_write :
      (x k : ℕ) (ls ps : List ℕ)
      → ps ++ ls ≡ all
      → length ps ≡ k
      → k ≤ semaem
      → Phase semaem all (at_work 0 1 k k k k x ls ps p_lock c_lock)
  reading :
      (x k : ℕ) (ls ps : List ℕ)
      → ps ++ ls ≡ all
      → length ps ≡ k
      → k < semaem
      → Phase semaem all (at_work 0 0 (k + 1) k k k x ls ps p_read c_lock)
  has_read :
      (x k : ℕ) (ls ps : List ℕ)
      → ps ++ x ∷ ls ≡ all
      → length ps ≡ k
      → k < semaem
      → Phase semaem all (at_work 0 0 (k + 1) k k k x ls ps p_unlock c_lock)
  ready :
      (x k : ℕ) (ls ps : List ℕ)
      → ps ++ x ∷ ls ≡ all
      → length ps ≡ k
      → k < semaem
      → Phase semaem all (at_work 1 0 (k + 1) (k + 1) k k x ls ps p_lock c_lock)
  printing :
      (x k : ℕ) (ls ps : List ℕ)
      → ps ++ x ∷ ls ≡ all
      → length ps ≡ k
      → k < semaem
      → Phase semaem all (at_work 0 0 (k + 1) (k + 1) (k + 1) k x ls ps p_lock c_print)
  has_printed :
      (x k : ℕ) (ls ps : List ℕ)
      → ps ++ ls ≡ all
      → length ps ≡ k + 1
      → k < semaem
      → Phase semaem all (at_work 0 0 (k + 1) (k + 1) (k + 1) k x ls ps p_lock c_unlock)
  ending :
      (x sw wd ru rd wu : ℕ) (ls ps : List ℕ)
      → ps ++ ls ≡ all
      → length ps ≤ semaem
      → (ls ≡ []) ⊎ (length ps ≡ semaem)
      → Phase semaem all (at_work 0 sw wd ru rd wu x ls ps p_end c_lock)
  ended :
      (x sw wd ru rd wu : ℕ) (ls ps : List ℕ)
      → ps ++ ls ≡ all
      → length ps ≤ semaem
      → (ls ≡ []) ⊎ (length ps ≡ semaem)
      → Phase semaem all
          (record (at_work 0 sw wd ru rd wu x ls ps p_done c_lock) { removed = true })
  all_ended :
      (x sw wd ru rd wu : ℕ) (ls ps : List ℕ)
      → ps ++ ls ≡ all
      → length ps ≤ semaem
      → (ls ≡ []) ⊎ (length ps ≡ semaem)
      → Phase semaem all
          (record (at_work 0 sw wd ru rd wu x ls ps p_done c_done) { removed = true })

-- What a step leaves, where it can be taken.
unfoldable pub Leaves : (Lines → Type 0) → Option Lines → Type 0
Leaves P none = Unit
Leaves P (some s) = P s

append-one : (ps : List ℕ) (x : ℕ) (ls : List ℕ) → (ps ++ x ∷ []) ++ ls ≡ ps ++ x ∷ ls
append-one [] x ls = refl
append-one (p ∷ ps) x ls = ap (λ r. p ∷ r) (append-one ps x ls)

length-one : (ps : List ℕ) (x : ℕ) → length (ps ++ x ∷ []) ≡ length ps + 1
length-one [] x = refl
length-one (p ∷ ps) x = let rest = length-one ps x in ground arith

module _ (semaem : ℕ) (all : List ℕ) where
  read_line-Phase :
      (x k : ℕ) (ls ps : List ℕ)
      → ps ++ ls ≡ all
      → length ps ≡ k
      → k < semaem
      → Phase semaem all (read_line ls (at_work 0 0 (k + 1) k k k x ls ps p_read c_lock))
  unfolding read_line
  read_line-Phase x k [] ps e n lt = ending x 0 (k + 1) k k k [] ps e (omega arith) (inl refl)
  read_line-Phase x k (l ∷ ls) ps e n lt = has_read l k ls ps e n lt

  turn_of-Phase :
      (s : Lines) (who : Bool)
      → Phase semaem all s
      → Leaves (Phase semaem all) (turn_of semaem who s)
  unfolding Leaves turn_of produce consume consumer_ends semop_down semop_up
  turn_of-Phase s true (can_write x k ls ps e n le) = elim (Bool-cases (ltb k semaem)) [
    | inl less ↦ rw less (reading x k ls ps e n (ground arith))
    | inr full ↦
        rw full (ending x 1 k k k k ls ps e (omega arith) (inr (let top = le in ground arith)))
  ]
  turn_of-Phase s true (reading x k ls ps e n lt) = read_line-Phase x k ls ps e n lt
  turn_of-Phase s true (has_read x k ls ps e n lt) =
      let may : (ltb 0 semaem && leb k semaem) ≡ true = ground arith in
      rw may (ready x k ls ps e n lt)
  turn_of-Phase s true (ready x k ls ps e n lt) = tt
  turn_of-Phase s true (printing x k ls ps e n lt) = tt
  turn_of-Phase s true (has_printed x k ls ps e n lt) = tt
  turn_of-Phase s true (ending x sw wd ru rd wu ls ps e le h) = ended x sw wd ru rd wu ls ps e le h
  turn_of-Phase s true (ended x sw wd ru rd wu ls ps e le h) = tt
  turn_of-Phase s true (all_ended x sw wd ru rd wu ls ps e le h) = tt
  turn_of-Phase s false (can_write x k ls ps e n le) = tt
  turn_of-Phase s false (reading x k ls ps e n lt) = tt
  turn_of-Phase s false (has_read x k ls ps e n lt) = tt
  turn_of-Phase s false (ready x k ls ps e n lt) =
      let may : ltb k semaem ≡ true = ground arith in rw may (printing x k ls ps e n lt)
  turn_of-Phase s false (printing x k ls ps e n lt) =
      has_printed x k ls (ps ++ x ∷ []) (append-one ps x ls ∙ e)
        (length-one ps x ∙ ap (λ m. m + 1) n) lt
  turn_of-Phase s false (has_printed x k ls ps e n lt) =
      let may : (ltb 0 semaem && leb k semaem) ≡ true = ground arith in
      rw may (can_write x (k + 1) ls ps e n (omega arith))
  turn_of-Phase s false (ending x sw wd ru rd wu ls ps e le h) = tt
  turn_of-Phase s false (ended x sw wd ru rd wu ls ps e le h) =
      all_ended x sw wd ru rd wu ls ps e le h
  turn_of-Phase s false (all_ended x sw wd ru rd wu ls ps e le h) = tt

  -- Every state of a run is one of the phases.
  pub Run-Phase : (g : ℕ) (s : Lines) → Run semaem (opened g all) s → Phase semaem all s
  unfolding opened Leaves
  Run-Phase g s stay = can_write g 0 all [] refl refl (omega arith)
  Run-Phase g s (one_more {t} {u} r who eq) =
      subst (Leaves (Phase semaem all)) eq (turn_of-Phase t who (Run-Phase g t r))
