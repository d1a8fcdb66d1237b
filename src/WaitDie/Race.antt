-- ===== src/WaitDie/Race.antt =====
-- os-internals/wait-die/src/wd_lock.c, the end of wdlock_lock after a wait: the owner is not looked at
-- again.
use sys_prog.Prelude.{ℕ, ◌+◌, ◌≡◌, some}
use sys_prog.WaitDie.{locking, World}

-- Both contexts have a lock as the last one that they took; it belongs to the second one, and its
-- `next` leads to the locks of the second one only.
pub record TwoHolders (before after : World) (c d i : ℕ) : Type 0 where
  pub first_lists : after.store.locks c ≡ some i
  pub second_lists : after.store.locks d ≡ some i
  pub owned : after.store.owner i ≡ some d
  pub links : after.store.next i ≡ before.store.locks d
  pub first_goes : after.pc c ≡ locking (i + 1)
  pub second_goes : after.pc d ≡ locking (i + 1)
