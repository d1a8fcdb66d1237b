-- ===== src/WaitDie/Fields.antt =====
-- Fields of the locks and contexts after a store to one of them.
use sys_prog.Prelude.{ℕ, ◌≡◌, ◌≢◌, refl, eq→==, ne→==}
use sys_prog.WaitDie.{store_at}

module _ {A : Type 0} (f : ℕ → A) (i : ℕ) (a : A) where
  pub store_at-same : store_at f i a i ≡ a
  unfolding store_at
  store_at-same = rw (eq→== i i refl) refl

  pub store_at-other : (j : ℕ) → i ≢ j → store_at f i a j ≡ f j
  unfolding store_at
  store_at-other j h = rw (ne→== i j h) refl
