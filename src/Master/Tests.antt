-- ===== src/Master/Tests.antt =====
-- Two slaves, and one slave alone.
use sys_prog.Prelude.{◌≡◌, refl, List, [], ◌∷◌, ◌++◌, arith}
use sys_prog.Master.{Report, started, finished, typed, ended, prints, master, report, lines, slave}
use sys_prog.Master.Sessions.{Sessions, last, starts, says, ends, without_finished, master-Sessions}

abbrev two_slaves : List Report
two_slaves = started ∷ typed (55 ∷ 10 ∷ []) ∷ finished ∷ typed (56 ∷ 10 ∷ []) ∷ finished ∷ []

two_slaves-Sessions : Sessions 1 two_slaves
two_slaves-Sessions = starts (says (55 ∷ 10 ∷ []) (ends (omega arith) (says (56 ∷ 10 ∷ []) last)))

master-Sessions_example :
    master 1 (two_slaves ++ started ∷ []) ≡ ended (without_finished two_slaves) (started ∷ [])
master-Sessions_example =
    master-Sessions 1 two_slaves (started ∷ []) two_slaves-Sessions (omega arith)

-- The last line of a slave is F without a line feed: the finishing message stays in the queue.
last_line_f :
    master 0 (slave ((55 ∷ 10 ∷ []) ∷ (70 ∷ []) ∷ []))
    ≡ ended (started ∷ typed (55 ∷ 10 ∷ []) ∷ []) (finished ∷ [])
unfolding master slave lines report prints
last_line_f = refl
