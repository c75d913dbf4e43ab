-- ===== src/Tests/Thousandths.antt =====
-- Numbers with three decimals, which stand in for `double` in the runs.
use delta_assignment.Common.{◌≡◌, ◌⊎◌, inl, inr, Bool-cases, true, arith}
use delta_assignment.Common.Int.{ℤ, pos, pos_part, ◌+ℤ◌, ◌-ℤ◌, ◌*ℤ◌, quot, ltb_ℤ, leb_ℤ}
use delta_assignment.Double.{Double}
use delta_assignment.Router.Choice.{IsWeakOrder}

instance abbrev pub thousandths : Double ℤ
thousandths = record {
  of_int = λ n. n *ℤ pos 1000;
  to_int = λ x. quot x (pos 1000);
  to_size = λ x. pos_part (quot x (pos 1000));
  add = λ x y. x +ℤ y;
  sub = λ x y. x -ℤ y;
  mul = λ x y. quot (x *ℤ y) (pos 1000);
  div = λ x y. quot (x *ℤ pos 1000) y;
  lt = ltb_ℤ;
  le = leb_ℤ;
}

ltb_ℤ_trans : (a b c : ℤ) → ltb_ℤ a b ≡ true → ltb_ℤ b c ≡ true → ltb_ℤ a c ≡ true
ltb_ℤ_trans a b c h k = ground arith

ltb_ℤ_cotrans : (a b c : ℤ) → ltb_ℤ a c ≡ true → (ltb_ℤ a b ≡ true) ⊎ (ltb_ℤ b c ≡ true)
ltb_ℤ_cotrans a b c h = elim (Bool-cases (ltb_ℤ a b)) [ inl e ↦ inl e | inr e ↦ inr (ground arith) ]

pub thousandths-IsWeakOrder : IsWeakOrder ℤ
thousandths-IsWeakOrder = record { trans = ltb_ℤ_trans; cotrans = ltb_ℤ_cotrans }
