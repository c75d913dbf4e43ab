-- ===== src/Common/Dict.antt =====
-- `std::unordered_map` with a number for a key, as an association list without repeated keys.
use Prim.Native.Nat.{ℕ}
use mathlib.Core.Path.{◌≡◌, refl}
use mathlib.Core.Logic.{◌≢◌}
use mathlib.Core.Option.{Option, none, some}
use mathlib.Core.List.{List, [], ◌∷◌}
use native.Mathlib.Omega.{arith}
use delta_assignment.Common.Tests.{◌==◌, if◌then◌else◌}

abbrev pub Dict {ℓ} : Type ℓ → Type ℓ
Dict V = List (ℕ × V)

module _ {ℓ} {V : Type ℓ} where
  abbrev pub lookup : ℕ → Dict V → Option V
  lookup k [] = none
  lookup k (e ∷ m) = if k == e.0 then some e.1 else lookup k m

  -- The value under a key, or what `operator[]` creates there.
  abbrev pub find_or : V → ℕ → Dict V → V
  find_or v k [] = v
  find_or v k (e ∷ m) = if k == e.0 then e.1 else find_or v k m

  abbrev pub insert : ℕ → V → Dict V → Dict V
  insert k v [] = (k, v) ∷ []
  insert k v (e ∷ m) = if k == e.0 then (k, v) ∷ m else e ∷ insert k v m

  abbrev pub erase : ℕ → Dict V → Dict V
  erase k [] = []
  erase k (e ∷ m) = if k == e.0 then erase k m else e ∷ erase k m

  abbrev pub keys : Dict V → List ℕ
  keys [] = []
  keys (e ∷ m) = e.0 ∷ keys m

  pub lookup-insert :
      (k j : ℕ) (v : V) (m : Dict V)
      → lookup j (insert k v m) ≡ (if j == k then some v else lookup j m)
  lookup-insert k j v [] = refl
  lookup-insert k j v (e ∷ m) = ground (arith, lookup-insert k j v m)

  pub lookup-insert_self : (k : ℕ) (v : V) (m : Dict V) → lookup k (insert k v m) ≡ some v
  lookup-insert_self k v [] = ground arith
  lookup-insert_self k v (e ∷ m) = ground (arith, lookup-insert_self k v m)

  pub find_or-insert :
      (d : V) (k j : ℕ) (v : V) (m : Dict V)
      → find_or d j (insert k v m) ≡ (if j == k then v else find_or d j m)
  find_or-insert d k j v [] = refl
  find_or-insert d k j v (e ∷ m) = ground (arith, find_or-insert d k j v m)

  pub find_or-insert_self : (d : V) (k : ℕ) (v : V) (m : Dict V) → find_or d k (insert k v m) ≡ v
  find_or-insert_self d k v [] = ground arith
  find_or-insert_self d k v (e ∷ m) = ground (arith, find_or-insert_self d k v m)

  pub find_or-insert_ne :
      (d : V) (k j : ℕ) (v : V) (m : Dict V) → j ≢ k → find_or d j (insert k v m) ≡ find_or d j m
  find_or-insert_ne d k j v [] h = ground arith
  find_or-insert_ne d k j v (e ∷ m) h = ground (arith, find_or-insert_ne d k j v m h)

  pub lookup-erase_self : (k : ℕ) (m : Dict V) → lookup k (erase k m) ≡ none
  lookup-erase_self k [] = refl
  lookup-erase_self k (e ∷ m) = ground (arith, lookup-erase_self k m)

  pub find_or-lookup :
      (d : V) (k : ℕ) (m : Dict V) → find_or d k m ≡ elim (lookup k m) [ none ↦ d | some v ↦ v ]
  find_or-lookup d k [] = refl
  find_or-lookup d k (e ∷ m) = ground (arith, find_or-lookup d k m)
