-- ===== src/Position.antt =====
-- include/oms/Position.h: the position of one instrument.
use delta_assignment.Common.{if◌then◌else◌}
use delta_assignment.Common.Int.{ℤ, pos, magnitude, ◌+ℤ◌, ◌*ℤ◌, quot, eqb_ℤ}

pub record Position : Type 0 where
  pub net : ℤ
  pub overnight : ℤ
  pub volume : ℤ
  pub amount : ℤ
  pub fees : ℤ
  pub last_update : ℤ

-- `Position{}`
abbrev pub flat : Position
flat = record {
  net = pos 0;
  overnight = pos 0;
  volume = pos 0;
  amount = pos 0;
  fees = pos 0;
  last_update = pos 0;
}

-- Position::apply
abbrev pub apply : Position → ℤ → ℤ → ℤ → ℤ → Position
apply p signed_fill_qty fill_price ts fee = record p {
  net = p.net +ℤ signed_fill_qty;
  volume = p.volume +ℤ pos (magnitude signed_fill_qty);
  amount = p.amount +ℤ signed_fill_qty *ℤ fill_price;
  fees = p.fees +ℤ fee;
  last_update = ts;
}

-- Position::avg_price
pub avg_price : Position → ℤ
avg_price p = if eqb_ℤ p.net (pos 0) then pos 0 else quot p.amount p.net
