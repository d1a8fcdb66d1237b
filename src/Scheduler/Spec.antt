-- ===== src/Scheduler/Spec.antt =====
-- The scheduler as operations on the list of its threads: what scheduler.c promises, with no
-- pointers between the nodes.
use sys_prog.Prelude.{ℕ, Bool, false, ◌&&◌, [], ◌∷◌, ◌++◌, ◌==◌, leb, if◌then◌else◌, ℤ}
use sys_prog.Scheduler.{
  Ptr, null, running, ready, blocked, is_ready, is_blocked, id_eq, set_state, reset_state, tick,
  new_info,
}
use sys_prog.Scheduler.Chain.{Cells, remove, modify}

-- The threads in queue order, the one that has the CPU (or NULL), and the time slice.
pub record Queue : Type 0 where
  pub cells : Cells
  pub run : Ptr
  pub slice : ℕ

abbrev pub first_ready : Cells → Ptr
first_ready [] = null
first_ready ((p, d) ∷ xs) = if is_ready d.state then p else first_ready xs

abbrev pub first_blocked : ℤ → Cells → Ptr
first_blocked id [] = null
first_blocked id ((p, d) ∷ xs) =
    if is_blocked d.state && id_eq d.thread_id id then p else first_blocked id xs

-- The cell of `p`, alone.
abbrev pub only : Ptr → Cells → Cells
only a [] = []
only a ((p, d) ∷ xs) = if a == p then (p, d) ∷ [] else only a xs

-- `p` goes behind the others.
abbrev pub rotate : Ptr → Cells → Cells
rotate p xs = remove p xs ++ only p xs

unfoldable pub choose : Queue → Queue
choose q = if first_ready q.cells == null then record q { run = null } else record q {
  cells = modify (first_ready q.cells) (set_state running) q.cells;
  run = first_ready q.cells;
}

unfoldable pub create : Ptr → ℤ → Queue → Queue
create p id q =
    if q.run == null
    then record q { cells = q.cells ++ (p, set_state running (new_info id)) ∷ []; run = p }
    else record q { cells = q.cells ++ (p, new_info id) ∷ [] }

unfoldable pub leave : Queue → Queue
leave q = if q.run == null then q else choose (record q { cells = remove q.run q.cells })

unfoldable pub suspend : Queue → Queue
suspend q =
    if q.run == null
    then q
    else choose (record q { cells = modify q.run (reset_state blocked) q.cells })

-- Waking a thread that is there and blocked.
unfoldable pub wake : Ptr → Queue → Queue
wake p q =
    let q1 = record q { cells = rotate p (modify p (set_state ready) q.cells) } in
    if q1.run == null then choose q1 else q1

-- Whether a thread, alone in the list, has used its slice up.
abbrev pub expires : ℕ → Cells → Bool
expires slice [] = false
expires slice ((p, d) ∷ xs) = leb slice d.time_quantums

unfoldable pub pass_time : Queue → Queue
pass_time q =
    if q.run == null
    then q
    else if expires q.slice (only q.run (modify q.run tick q.cells))
    then choose (record q {
      cells = rotate q.run (modify q.run (reset_state ready) (modify q.run tick q.cells));
    })
    else record q { cells = modify q.run tick q.cells }
