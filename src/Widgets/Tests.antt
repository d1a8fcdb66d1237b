-- ===== src/Widgets/Tests.antt =====
-- Two makers of details of the kind B, and a widget that is printed before its details.
use sys_prog.Prelude.{ℕ, ◌-◌, refl, ltb, if◌then◌else◌}
use sys_prog.Widgets.{
  Shop, empty_shop, plus_one, minus_one, maker, make_detail, print_detail, all_positive,
  make_widget, print_widget, ShopReached, at_first, detail, detail_printed, widget, widget_printed,
}
use sys_prog.Widgets.Balance.{IsBalanced, ShopReached-IsBalanced}

abbrev two_details : Shop
two_details = record empty_shop {
  sem = plus_one 1 (plus_one 1 empty_shop.sem);
  details = plus_one 1 empty_shop.details;
  new_details = minus_one 1 (plus_one 1 (plus_one 1 empty_shop.new_details));
}

-- Two makers of the kind B, one of which has printed.
two_details-ShopReached : ShopReached 32767 two_details
unfolding maker make_detail print_detail empty_shop plus_one minus_one
two_details-ShopReached =
    detail_printed 1 (detail 66 1 3 (detail 66 1 3 at_first refl refl) refl refl) refl

ShopReached-IsBalanced_example : IsBalanced two_details
ShopReached-IsBalanced_example = ShopReached-IsBalanced 32767 two_details two_details-ShopReached

-- A widget of which all details have been put in is printed before any of them is.
abbrev all_kinds : ℕ → ℕ
all_kinds = plus_one 2 (plus_one 1 (plus_one 0 empty_shop.sem))

abbrev early : Shop
early = record empty_shop {
  sem = λ i. if ltb i 3 then all_kinds i - 1 else all_kinds i;
  widgets = 1;
  new_details = all_kinds;
}

early-ShopReached : ShopReached 32767 early
unfolding maker make_detail make_widget print_widget all_positive empty_shop plus_one
early-ShopReached =
    widget_printed
      (widget (detail 67 2 4 (detail 66 1 3 (detail 65 0 2 at_first refl refl) refl refl) refl refl)
        refl)
      refl
