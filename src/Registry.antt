-- ===== src/Registry.antt =====
-- include/oms/ExchangeRegistry.h and src/ExchangeRegistry.cpp: the clients by venue id. The client is
-- any type; a failed `assert` is `none`. The process-wide table of factories is not modelled.
use delta_assignment.Common.{
  ℕ, suc, ◌+◌, ◌-◌, List, [], ◌∷◌, ◌++◌, Option, none, some, length, get_or, set, replicate, leb,
  is_some, if◌then◌else◌,
}

pub record ExchangeRegistry (Client : Type 0) : Type 0 where
  pub by_venue : List (Option Client)
  pub count : ℕ

-- by_venue_.resize(n) to a larger size
abbrev pub grow {ℓ} : {A : Type ℓ} → List (Option A) → ℕ → List (Option A)
grow xs n = xs ++ replicate (n - length xs) none

module _ {Client : Type 0} where
  abbrev pub no_clients : ExchangeRegistry Client
  no_clients = record { by_venue = []; count = 0 }

  -- ExchangeRegistry::get
  abbrev pub get : ExchangeRegistry Client → ℕ → Option Client
  get r v = if leb (length r.by_venue) v then none else get_or r.by_venue v none

  -- ExchangeRegistry::add, of a client with a venue id
  unfoldable pub add_client :
      ExchangeRegistry Client → ℕ → Client → Option (ExchangeRegistry Client)
  add_client r v client =
      let slots = grow r.by_venue (v + 1) in
      if is_some (get_or slots v none)
      then none
      else some (record { by_venue = set slots v (some client); count = r.count + 1 })

  -- The loop of ExchangeRegistry::venues, from index `i` on.
  abbrev pub venues_from : ℕ → List (Option Client) → List ℕ
  venues_from i [] = []
  venues_from i (none ∷ cs) = venues_from (suc i) cs
  venues_from i (some c ∷ cs) = i ∷ venues_from (suc i) cs

  -- ExchangeRegistry::venues
  abbrev pub venues : ExchangeRegistry Client → List ℕ
  venues r = venues_from 0 r.by_venue
