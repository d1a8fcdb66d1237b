-- ===== src/Master/Sessions.antt =====
-- Slaves whose messages come in any order between each other.
use sys_prog.Prelude.{
  ℕ, suc, ◌+◌, ◌-◌, ◌%◌, ◌^◌, ◌<◌, ◌≡◌, refl, ap, false, List, [], ◌∷◌, ◌++◌, length, map, arith,
  ◌==◌, ne→==,
}
use sys_prog.Master.{Report, started, finished, typed, ended, prints, master, report, lines, slave}

-- What the slaves send from a moment on in which some of them, at least one, run, until the last one
-- has finished; another one may start while one runs.
pub data Sessions : ℕ → List Report → Type 0 where
  last : Sessions 1 (finished ∷ [])
  starts : {n : ℕ} {ms : List Report} → Sessions (suc n) ms → Sessions n (started ∷ ms)
  says : {n : ℕ} {ms : List Report} (l : List ℕ) → Sessions n ms → Sessions n (typed l ∷ ms)
  ends : {n : ℕ} {ms : List Report} → 0 < n → Sessions n ms → Sessions (suc n) (finished ∷ ms)

unfoldable pub without_finished : List Report → List Report
without_finished [] = []
without_finished (started ∷ ms) = started ∷ without_finished ms
without_finished (finished ∷ ms) = without_finished ms
without_finished (typed l ∷ ms) = typed l ∷ without_finished ms

-- While slaves run, fewer than the counter can hold: the master prints all their messages but the
-- finishing ones, in their order, and ends with the finishing message of the last one; what comes
-- behind it stays in the queue.
pub master-Sessions :
    (n : ℕ) (ms rest : List Report)
    → Sessions n ms
    → n + length ms < 2 ^ 32
    → master n (ms ++ rest) ≡ ended (without_finished ms) rest
unfolding master without_finished prints
master-Sessions n ms rest last lt = refl
master-Sessions n ms rest (starts {ms = ms'} s) lt =
    let next : (n + 1) % 2 ^ 32 ≡ suc n = omega arith in
    rw (next, master-Sessions (suc n) ms' rest s (omega arith)) refl
master-Sessions n ms rest (says {ms = ms'} l s) lt =
    rw (master-Sessions n ms' rest s (omega arith)) refl
master-Sessions n ms rest (ends {n = m} {ms = ms'} pos s) lt =
    let many : (suc m == 1) ≡ false = ne→== (suc m) 1 (λ e. absurd (omega arith)) in
    let less : suc m - 1 ≡ m = omega arith in
    let some_left : (suc m == 0) ≡ false = ne→== (suc m) 0 (λ e. absurd (omega arith)) in
    rw (some_left, many, less) (master-Sessions m ms' rest s (omega arith))

-- Lines that master.c does not take for the start or the end of a slave.
abbrev pub AllTyped : List (List ℕ) → Type 0
AllTyped [] = Unit
AllTyped (l ∷ ls) = (report l ≡ typed l) × AllTyped ls

lines-typed :
    (ls : List (List ℕ))
    → AllTyped ls
    → Sessions 1 (lines ls) × (without_finished (lines ls) ≡ map typed ls)
unfolding lines without_finished
lines-typed [] h = (last, refl)
lines-typed (l ∷ ls) (e, h) =
    let (s, same) = lines-typed ls h in rw e (says l s, ap (λ r. typed l ∷ r) same)

-- A slave alone, with fewer messages than the counter can hold and no line that is just F or R: the
-- master prints its start and its lines, and ends.
pub master-slave :
    (ls : List (List ℕ)) (rest : List Report)
    → AllTyped ls
    → suc (length (lines ls)) < 2 ^ 32
    → master 0 (slave ls ++ rest) ≡ ended (started ∷ map typed ls) rest
unfolding slave master prints
master-slave ls rest h lt =
    let (s, same) = lines-typed ls h in
    rw (master-Sessions 1 (lines ls) rest s (omega arith), same) refl
