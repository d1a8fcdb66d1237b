-- ===== src/Widgets/Balance.antt =====
-- No detail is lost, and none is used twice.
use sys_prog.Prelude.{
  ℕ, zero, suc, ◌+◌, ◌<◌, ◌≡◌, refl, sym, subst, true, false, Option, none, some, arith, ◌&&◌, ◌==◌,
  leb, ltb, Bool-cases, ℕ_discrete, inl, inr,
}
use sys_prog.Widgets.{
  Shop, nsems, empty_shop, plus_one, make_detail, all_positive, make_widget, ShopReached, at_first,
  detail, widget, minus_one, print_detail, print_widget, detail_printed, widget_printed,
}

-- Of each kind, the details that have been or will be printed are those that are left and those in
-- widgets that have been or will be printed.
abbrev pub IsBalanced : Shop → Type 0
IsBalanced s =
    (k : ℕ) → k < nsems → s.details k + s.new_details k ≡ s.sem k + (s.widgets + s.new_widgets)

unfoldable Leaves : (Shop → Type 0) → Option Shop → Type 0
Leaves P none = Unit
Leaves P (some s) = P s

make_detail-IsBalanced :
    (semvmx kind : ℕ) (s : Shop) → IsBalanced s → Leaves IsBalanced (make_detail semvmx kind s)
unfolding make_detail Leaves plus_one
make_detail-IsBalanced semvmx kind s h = elim (Bool-cases (leb (s.sem kind + 1) semvmx)) [
  | inl room ↦ rw room (λ k lt. let old = h k lt in ground arith)
  | inr full ↦ rw full tt
]

print_detail-IsBalanced :
    (kind : ℕ) (s : Shop) → IsBalanced s → Leaves IsBalanced (print_detail kind s)
unfolding print_detail Leaves plus_one minus_one
print_detail-IsBalanced kind s h = elim (Bool-cases (ltb 0 (s.new_details kind))) [
  | inl there ↦ rw there (λ k lt.
      let old = h k lt in
      elim (ℕ_discrete kind k) [
        | yes same ↦
            let here : 0 < s.new_details k = subst (λ j. 0 < s.new_details j) same (ground arith) in
            ground arith
        | no other ↦ ground arith
      ])
  | inr nobody ↦ rw nobody tt
]

print_widget-IsBalanced : (s : Shop) → IsBalanced s → Leaves IsBalanced (print_widget s)
unfolding print_widget Leaves
print_widget-IsBalanced s h = elim (Bool-cases (ltb 0 s.new_widgets)) [
  | inl there ↦ rw there (λ k lt. let old = h k lt in ground arith)
  | inr nobody ↦ rw nobody tt
]

all_positive-lt : (n : ℕ) (sem : ℕ → ℕ) → all_positive n sem ≡ true → (k : ℕ) → k < n → 0 < sem k
unfolding all_positive
all_positive-lt zero sem h k lt = absurd (omega arith)
all_positive-lt (suc n) sem h k lt = elim (ℕ_discrete k n) [
  | yes same ↦ subst (λ m. 0 < sem m) (sym same) (ground arith)
  | no other ↦ all_positive-lt n sem (ground arith) k (omega arith)
]

all_positive-zero :
    (n : ℕ) (sem : ℕ → ℕ) → all_positive n sem ≡ false → (k : ℕ) × (k < n) × (sem k ≡ 0)
unfolding all_positive
all_positive-zero zero sem h = absurd (ground arith)
all_positive-zero (suc n) sem h = elim (Bool-cases (all_positive n sem)) [
  | inr no_rest ↦ let (k, lt, e) = all_positive-zero n sem no_rest in (k, omega arith, e)
  | inl rest ↦ (n, omega arith, ground arith)
]

make_widget-IsBalanced : (s : Shop) → IsBalanced s → Leaves IsBalanced (make_widget s)
unfolding make_widget Leaves
make_widget-IsBalanced s h = elim (Bool-cases ((s.new_widgets == 0) && all_positive nsems s.sem)) [
  | inl can ↦ rw can (λ k lt.
      let old = h k lt in
      let some_left = all_positive-lt nsems s.sem (ground arith) k lt in ground arith)
  | inr no_more ↦ rw no_more tt
]

-- Whatever the makers do, one semop or printf after another: of each kind, the details that makers
-- have printed or, after their semop, are about to print are as many as the semaphore of the kind says
-- and as many as the widgets that have been printed or are about to be.
pub ShopReached-IsBalanced : (semvmx : ℕ) (s : Shop) → ShopReached semvmx s → IsBalanced s
unfolding empty_shop Leaves
ShopReached-IsBalanced semvmx s at_first = λ k lt. refl
ShopReached-IsBalanced semvmx s (detail {s = before} arg kind delay r m eq) =
    subst (Leaves IsBalanced) eq
      (make_detail-IsBalanced semvmx kind before (ShopReached-IsBalanced semvmx before r))
ShopReached-IsBalanced semvmx s (detail_printed {s = before} kind r eq) =
    subst (Leaves IsBalanced) eq
      (print_detail-IsBalanced kind before (ShopReached-IsBalanced semvmx before r))
ShopReached-IsBalanced semvmx s (widget {s = before} r eq) =
    subst (Leaves IsBalanced) eq
      (make_widget-IsBalanced before (ShopReached-IsBalanced semvmx before r))
ShopReached-IsBalanced semvmx s (widget_printed {s = before} r eq) =
    subst (Leaves IsBalanced) eq
      (print_widget-IsBalanced before (ShopReached-IsBalanced semvmx before r))

-- The maker of widgets, when it has printed all, waits only where, of some kind, all details that have been put in are used up.
pub make_widget-none :
    (semvmx : ℕ) (s : Shop)
    → ShopReached semvmx s
    → s.new_widgets ≡ 0
    → make_widget s ≡ none
    → (k : ℕ) × (k < nsems) × (s.details k + s.new_details k ≡ s.widgets)
unfolding make_widget
make_widget-none semvmx s r idle h =
    let balanced = ShopReached-IsBalanced semvmx s r in
    let stuck : all_positive nsems s.sem ≡ false = ground arith in
    let (k, lt, e) = all_positive-zero nsems s.sem stuck in
    (k, lt, (let here = balanced k lt in omega arith))
