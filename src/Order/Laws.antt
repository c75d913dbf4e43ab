-- ===== src/Order/Laws.antt =====
-- Laws of the order's computed fields (include/oms/Order.h, include/oms/Types.h).
use delta_assignment.Common.{◌≡◌}
use delta_assignment.Common.Int.{ℤ, ◌+ℤ◌, ◌-ℤ◌, int_laws}
use delta_assignment.Order.{Side, signed_qty}

pub signed_qty-add : (s : Side) (a b : ℤ) → signed_qty s (a +ℤ b) ≡ signed_qty s a +ℤ signed_qty s b
signed_qty-add Side.buy a b = omega int_laws
signed_qty-add Side.sell a b = omega int_laws

pub signed_qty-sub : (s : Side) (a b : ℤ) → signed_qty s (a -ℤ b) ≡ signed_qty s a -ℤ signed_qty s b
signed_qty-sub Side.buy a b = omega int_laws
signed_qty-sub Side.sell a b = omega int_laws
