-- ===== src/Router.antt =====
-- HealthAwareRouter (include/oms/Router.h, src/Router.cpp), over the queries of the health model that it
-- makes. An instance without an answer is the failed assertion on a venue that is not registered.
use delta_assignment.Common.{
  ℕ, Bool, true, false, List, [], ◌∷◌, Option, none, some, if◌then◌else◌, ◌>>=◌,
}
use delta_assignment.Common.Int.{ℤ, pos}
use delta_assignment.Double.{Double}
use delta_assignment.Order.{Side}
use delta_assignment.Health.{HealthScore}
pub mod Choice
pub mod Routing

-- The queries of HealthModel.
pub record HealthModel (W : Type 0) : Type 0 where
  pub is_tradeable : ℕ → Option Bool
  pub score : ℕ → Option (HealthScore W)

pub record HealthAwareRouter (W : Type 0) : Type 0 where
  pub health : HealthModel W
  pub venues : List ℕ

-- `best` and `best_weight`: the choice so far, or the weight that the declaration gives.
pub record Best (W : Type 0) : Type 0 where
  pub venue : Option ℕ
  pub weight : W

module _ {W : Type 0} ⦃d : Double W⦄ where
  -- `!best.has_value() || w > best_weight`
  abbrev pub is_better : W → Best W → Bool
  is_better w best = elim best.venue [ none ↦ true | some v ↦ d.lt best.weight w ]

  abbrev pub take_better : ℕ → W → Best W → Best W
  take_better v w best = if is_better w best then record { venue = some v; weight = w } else best

  abbrev pub weigh : HealthModel W → ℕ → Bool → Best W → Option (Best W)
  weigh health v false best = some best
  weigh health v true best = do s ← health.score v; some (take_better v s.weight best)

  -- The loop of HealthAwareRouter::select.
  abbrev pub choose : HealthModel W → List ℕ → Best W → Option (Best W)
  choose health [] best = some best
  choose health (v ∷ vs) best = do
    tradeable ← health.is_tradeable v
    best' ← weigh health v tradeable best
    choose health vs best'

  -- HealthAwareRouter::select
  unfoldable pub select : HealthAwareRouter W → ℕ → Side → ℤ → Option (Option ℕ)
  select r inst side qty = do
    best ← choose r.health r.venues (record { venue = none; weight = d.of_int (pos 0) })
    some best.venue
