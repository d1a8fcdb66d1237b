-- ===== src/SharedLines/Order.antt =====
-- The lines are printed once each and in order, and the programs end.
use sys_prog.Prelude.{
  ℕ, zero, suc, ◌≤◌, ◌≡◌, ◌≢◌, refl, sym, ap, ◌∙◌, Bool, true, false, some, arith, List, [], ◌∷◌,
  ◌++◌, length, take, take-length_append, ◌⊎◌, inl, inr,
}
use sys_prog.SharedLines.{
  p_read, p_done, c_print, c_done, Lines, opened, semop_down, semop_up, produce, consumer_ends,
  consume, turn_of, Run,
}
use sys_prog.SharedLines.Phases.{
  Phase, can_write, reading, has_read, ready, printing, has_printed, ending, ended, all_ended,
  Run-Phase,
}

-- What is printed is a beginning of the input, and what is still to print is the input that is left,
-- or it after the line in the memory.
abbrev pub OrderOk : List ℕ → Lines → Type 0
OrderOk all s =
    (rest : List ℕ) × (s.printed ++ rest ≡ all) × ((rest ≡ s.input) ⊎ (rest ≡ s.product ∷ s.input))

-- Both programs have ended, or one of them can go on.
abbrev pub LivesOrEnds : ℕ → Lines → Type 0
LivesOrEnds semaem s =
    ((s.producer ≡ p_done) × (s.consumer ≡ c_done))
    ⊎ ((who : Bool) × (u : Lines) × (turn_of semaem who s ≡ some u))

take-all : (n : ℕ) (ps : List ℕ) → length ps ≤ n → take n ps ≡ ps
take-all zero [] le = refl
take-all zero (p ∷ ps) le = absurd (omega arith)
take-all (suc n) [] le = refl
take-all (suc n) (p ∷ ps) le = ap (λ r. p ∷ r) (take-all n ps (omega arith))

append-nil : (ps : List ℕ) → ps ++ [] ≡ ps
append-nil [] = refl
append-nil (p ∷ ps) = ap (λ r. p ∷ r) (append-nil ps)

-- The lines that are printed at the end.
take-printed :
    (n : ℕ) (all ls ps : List ℕ)
    → ps ++ ls ≡ all
    → length ps ≤ n
    → (ls ≡ []) ⊎ (length ps ≡ n)
    → ps ≡ take n all
take-printed n all ls ps e le (inl none_left) =
    let whole : ps ≡ all = sym (append-nil ps) ∙ ap (λ r. ps ++ r) (sym none_left) ∙ e in
    sym (take-all n ps le) ∙ ap (take n) whole
take-printed n all ls ps e le (inr full) =
    sym (take-length_append ps ls) ∙ ap (λ r. take (length ps) r) e ∙ ap (λ m. take m all) full

module _ (semaem : ℕ) (all : List ℕ) where
  Phase-OrderOk : (s : Lines) → Phase semaem all s → OrderOk all s
  Phase-OrderOk s (can_write x k ls ps e n le) = (ls, e, inl refl)
  Phase-OrderOk s (reading x k ls ps e n lt) = (ls, e, inl refl)
  Phase-OrderOk s (has_read x k ls ps e n lt) = (_, e, inr refl)
  Phase-OrderOk s (ready x k ls ps e n lt) = (_, e, inr refl)
  Phase-OrderOk s (printing x k ls ps e n lt) = (_, e, inr refl)
  Phase-OrderOk s (has_printed x k ls ps e n lt) = (ls, e, inl refl)
  Phase-OrderOk s (ending x sw wd ru rd wu ls ps e le h) = (ls, e, inl refl)
  Phase-OrderOk s (ended x sw wd ru rd wu ls ps e le h) = (ls, e, inl refl)
  Phase-OrderOk s (all_ended x sw wd ru rd wu ls ps e le h) = (ls, e, inl refl)

  Phase-printed : (s : Lines) → Phase semaem all s → s.removed ≡ true → s.printed ≡ take semaem all
  Phase-printed s (can_write x k ls ps e n le) r = absurd (ground arith)
  Phase-printed s (reading x k ls ps e n lt) r = absurd (ground arith)
  Phase-printed s (has_read x k ls ps e n lt) r = absurd (ground arith)
  Phase-printed s (ready x k ls ps e n lt) r = absurd (ground arith)
  Phase-printed s (printing x k ls ps e n lt) r = absurd (ground arith)
  Phase-printed s (has_printed x k ls ps e n lt) r = absurd (ground arith)
  Phase-printed s (ending x sw wd ru rd wu ls ps e le h) r = take-printed semaem all ls ps e le h
  Phase-printed s (ended x sw wd ru rd wu ls ps e le h) r = take-printed semaem all ls ps e le h
  Phase-printed s (all_ended x sw wd ru rd wu ls ps e le h) r = take-printed semaem all ls ps e le h

  Phase-exclusive : (s : Lines) → Phase semaem all s → s.producer ≡ p_read → s.consumer ≢ c_print
  Phase-exclusive s (can_write x k ls ps e n le) p c = ground arith
  Phase-exclusive s (reading x k ls ps e n lt) p c = ground arith
  Phase-exclusive s (has_read x k ls ps e n lt) p c = ground arith
  Phase-exclusive s (ready x k ls ps e n lt) p c = ground arith
  Phase-exclusive s (printing x k ls ps e n lt) p c = ground arith
  Phase-exclusive s (has_printed x k ls ps e n lt) p c = ground arith
  Phase-exclusive s (ending x sw wd ru rd wu ls ps e le h) p c = ground arith
  Phase-exclusive s (ended x sw wd ru rd wu ls ps e le h) p c = ground arith
  Phase-exclusive s (all_ended x sw wd ru rd wu ls ps e le h) p c = ground arith

  Phase-LivesOrEnds : (s : Lines) → Phase semaem all s → LivesOrEnds semaem s
  unfolding turn_of produce consume consumer_ends semop_down semop_up
  Phase-LivesOrEnds s (can_write x k ls ps e n le) = inr (true, _, refl)
  Phase-LivesOrEnds s (reading x k ls ps e n lt) = inr (true, _, refl)
  Phase-LivesOrEnds s (has_read x k ls ps e n lt) = inr (true, _, refl)
  Phase-LivesOrEnds s (ready x k ls ps e n lt) = inr (false, _, refl)
  Phase-LivesOrEnds s (printing x k ls ps e n lt) = inr (false, _, refl)
  Phase-LivesOrEnds s (has_printed x k ls ps e n lt) = inr (false, _, refl)
  Phase-LivesOrEnds s (ending x sw wd ru rd wu ls ps e le h) = inr (true, _, refl)
  Phase-LivesOrEnds s (ended x sw wd ru rd wu ls ps e le h) = inr (false, _, refl)
  Phase-LivesOrEnds s (all_ended x sw wd ru rd wu ls ps e le h) = inl (refl, refl)

-- In every run from the opened memory: what is printed is a beginning of the input, what is still to
-- print is the input that is left, or it after the line in the memory.
pub Run-OrderOk :
    (semaem g : ℕ) (all : List ℕ) (s : Lines) → Run semaem (opened g all) s → OrderOk all s
Run-OrderOk semaem g all s r = Phase-OrderOk semaem all s (Run-Phase semaem all g s r)

-- In every run from the opened memory, when the semaphores have been removed, as many lines of the
-- input are printed as SEM_UNDO can take back operations for, or all of them where there are fewer.
pub Run-printed :
    (semaem g : ℕ) (all : List ℕ) (s : Lines)
    → Run semaem (opened g all) s
    → s.removed ≡ true
    → s.printed ≡ take semaem all
Run-printed semaem g all s r = Phase-printed semaem all s (Run-Phase semaem all g s r)

-- In every run from the opened memory, both programs have ended, or one of them can go on.
pub Run-LivesOrEnds :
    (semaem g : ℕ) (all : List ℕ) (s : Lines) → Run semaem (opened g all) s → LivesOrEnds semaem s
Run-LivesOrEnds semaem g all s r = Phase-LivesOrEnds semaem all s (Run-Phase semaem all g s r)

-- In every run from the opened memory, the producer is not about to write to the memory while the
-- consumer is about to print it.
pub Run-exclusive :
    (semaem g : ℕ) (all : List ℕ) (s : Lines)
    → Run semaem (opened g all) s
    → s.producer ≡ p_read
    → s.consumer ≢ c_print
Run-exclusive semaem g all s r = Phase-exclusive semaem all s (Run-Phase semaem all g s r)
