-- ===== src/Widgets.antt =====
-- OS UNIX+ System V/Semaphores/laboratory work #33/src: the makers of three kinds of details
-- (detail_maker.c) and the one who makes widgets of them (widget_maker.c). The value of a semaphore
-- is the number of details of its kind; the largest value that the system allows is a parameter.
pub mod Balance
mod Tests
use sys_prog.Prelude.{
  ℕ, zero, suc, ◌+◌, ◌-◌, ◌≡◌, Bool, true, false, ◌&&◌, Option, none, some, ◌==◌, ltb, leb,
  if◌then◌else◌,
}

abbrev pub nsems : ℕ
nsems = 3

-- The kind and the delay of a maker, from the first symbol of its argument.
unfoldable pub maker : Option ℕ → Option (ℕ × ℕ)
maker none = none
maker (some c) =
    if c == 65
    then some (0, 2)
    else if c == 66
    then some (1, 3)
    else if c == 67
    then some (2, 4)
    else none

-- The semaphores, how many lines of each kind the programs have printed, and how many they are about
-- to print, between semop and printf. There is one maker of widgets: a second one would set the
-- semaphores again.
pub record Shop : Type 0 where
  pub sem : ℕ → ℕ
  pub details : ℕ → ℕ
  pub widgets : ℕ
  pub new_details : ℕ → ℕ
  pub new_widgets : ℕ

-- op[i].sem_op of widget_maker for all i, and the values of SETALL.
unfoldable pub empty_shop : Shop
empty_shop = record {
  sem = λ i. 0;
  details = λ i. 0;
  widgets = 0;
  new_details = λ i. 0;
  new_widgets = 0;
}

unfoldable pub plus_one : ℕ → (ℕ → ℕ) → ℕ → ℕ
plus_one i f j = if i == j then f j + 1 else f j

-- semop of 1 on a semaphore: beyond the largest value it fails, and the maker ends.
unfoldable pub make_detail : (semvmx kind : ℕ) → Shop → Option Shop
make_detail semvmx kind s =
    if leb (s.sem kind + 1) semvmx
    then some (record s { sem = plus_one kind s.sem; new_details = plus_one kind s.new_details })
    else none

unfoldable pub minus_one : ℕ → (ℕ → ℕ) → ℕ → ℕ
minus_one i f j = if i == j then f j - 1 else f j

-- The printf of a maker whose semop has been done; `none` is that there is no such maker of the kind.
unfoldable pub print_detail : ℕ → Shop → Option Shop
print_detail kind s =
    if ltb 0 (s.new_details kind)
    then some
        (record s { details = plus_one kind s.details; new_details = minus_one kind s.new_details })
    else none

-- Whether a semop of -1 on each of the first semaphores can be done.
unfoldable pub all_positive : ℕ → (ℕ → ℕ) → Bool
all_positive zero sem = true
all_positive (suc n) sem = all_positive n sem && ltb 0 (sem n)

-- The semop of widget_maker: all of the operations or none; `none` is a call that blocks, or that the
-- program has not come to because it is about to print.
unfoldable pub make_widget : Shop → Option Shop
make_widget s =
    if (s.new_widgets == 0) && all_positive nsems s.sem
    then some (record s {
      sem = λ i. if ltb i nsems then s.sem i - 1 else s.sem i;
      new_widgets = s.new_widgets + 1;
    })
    else none

unfoldable pub print_widget : Shop → Option Shop
print_widget s =
    if ltb 0 s.new_widgets
    then some (record s { widgets = s.widgets + 1; new_widgets = s.new_widgets - 1 })
    else none

-- What the programs do, in some order, from a maker's argument on.
pub data ShopReached (semvmx : ℕ) : Shop → Type 0 where
  at_first : ShopReached semvmx empty_shop
  detail :
      {s t : Shop} (arg kind delay : ℕ)
      → ShopReached semvmx s
      → maker (some arg) ≡ some (kind, delay)
      → make_detail semvmx kind s ≡ some t
      → ShopReached semvmx t
  detail_printed :
      {s t : Shop} (kind : ℕ)
      → ShopReached semvmx s
      → print_detail kind s ≡ some t
      → ShopReached semvmx t
  widget : {s t : Shop} → ShopReached semvmx s → make_widget s ≡ some t → ShopReached semvmx t
  widget_printed :
      {s t : Shop} → ShopReached semvmx s → print_widget s ≡ some t → ShopReached semvmx t
