-- ===== src/Double.antt =====
-- What the program does with a `double`. The arithmetic of the machine is not modelled: it is an
-- interface, and a theorem that needs a law of it names the law.
use delta_assignment.Common.{ℕ, Bool}
use delta_assignment.Common.Int.{ℤ}

-- `of_int` is static_cast<double>, `to_int` and `to_size` are the casts back, which cut off the fraction.
pub record Double (W : Type 0) : Type 0 where
  pub of_int : ℤ → W
  pub to_int : W → ℤ
  pub to_size : W → ℕ
  pub add : W → W → W
  pub sub : W → W → W
  pub mul : W → W → W
  pub div : W → W → W
  pub lt : W → W → Bool
  pub le : W → W → Bool
