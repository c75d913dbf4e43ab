-- ===== src/Netting.antt =====
-- NettingEngine (include/oms/Netting.h, src/Netting.cpp). Magnitudes are natural numbers; log lines are
-- left out.
use delta_assignment.Common.{
  ℕ, ◌+◌, ◌-◌, ◌*◌, ◌/◌, ◌%◌, ◌==◌, ltb, Bool, true, false, List, [], ◌∷◌, Option, none, some, ◌++◌,
  bit_or, add, is_empty, sort_by, if◌then◌else◌,
}
use delta_assignment.Common.Bits.{◌<<◌}
use delta_assignment.Common.Int.{ℤ, pos, ◌+ℤ◌, ◌-ℤ◌, ◌*ℤ◌, neg, quot, magnitude, ltb_ℤ, eqb_ℤ}
use delta_assignment.Common.Dict.{Dict, lookup, find_or, insert}
pub mod Sums
pub mod Apportion
pub mod Shares
pub mod Moves
pub mod Balance
pub mod Life

-- A strategy's delta in an instrument.
abbrev pub Contrib : Type 0
Contrib = ℕ × ℤ

pub record NettingEngine : Type 0 where
  pub targets : Dict ℤ
  pub attributed : Dict ℤ
  pub global : Dict ℤ
  pub contrib : Dict (List Contrib)
  pub instruments : List ℕ
  pub strategies : List ℕ
  pub saved_notional : ℤ

pub record NetOrder : Type 0 where
  pub instrument : ℕ
  pub delta : ℤ

abbrev pub make_netting : NettingEngine
make_netting = record {
  targets = [];
  attributed = [];
  global = [];
  contrib = [];
  instruments = [];
  strategies = [];
  saved_notional = pos 0;
}

-- NettingEngine::key
unfoldable pub key : ℕ → ℕ → ℕ
key s i = bit_or (s << 16) i

-- NettingEngine::set_target
unfoldable pub set_target : NettingEngine → ℕ → ℕ → ℤ → NettingEngine
set_target n s inst target = record n {
  targets = insert (key s inst) target n.targets;
  instruments = add inst n.instruments;
  strategies = add s n.strategies;
}

-- NettingEngine::attributed
abbrev pub attributed_to : Dict ℤ → ℕ → ℕ → ℤ
attributed_to m s inst = find_or (pos 0) (key s inst) m

-- NettingEngine::global_position
abbrev pub global_position : NettingEngine → ℕ → ℤ
global_position n inst = find_or (pos 0) inst n.global

-- attributed_[key(s, inst)] += q
abbrev pub add_attributed : ℕ → ℕ → ℤ → Dict ℤ → Dict ℤ
add_attributed s inst q m = insert (key s inst) (attributed_to m s inst +ℤ q) m

-- global_[inst] += q
abbrev pub add_global : ℕ → ℤ → Dict ℤ → Dict ℤ
add_global inst q m = insert inst (find_or (pos 0) inst m +ℤ q) m

-- NettingEngine::set_attributed
unfoldable pub set_attributed : NettingEngine → ℕ → ℕ → ℤ → NettingEngine
set_attributed n s inst q = record n {
  attributed = insert (key s inst) q n.attributed;
  global = add_global inst (q -ℤ attributed_to n.attributed s inst) n.global;
  instruments = add inst n.instruments;
  strategies = add s n.strategies;
}

-- A strategy's delta, recorded unless it is 0.
abbrev pub push_delta : ℕ → ℤ → List Contrib → List Contrib
push_delta s delta rest = if eqb_ℤ delta (pos 0) then rest else (s, delta) ∷ rest

abbrev pub delta_to : Dict ℤ → ℕ → ℕ → Option ℤ → List Contrib → List Contrib
delta_to m inst s none rest = rest
delta_to m inst s (some target) rest = push_delta s (target -ℤ attributed_to m s inst) rest

-- The loop of compute_cycle over the strategies. `net` and `gross_abs` are sums over what it records.
abbrev pub contribs_of : NettingEngine → ℕ → List ℕ → List Contrib
contribs_of n inst [] = []
contribs_of n inst (s ∷ ss) =
    delta_to n.attributed inst s (lookup (key s inst) n.targets) (contribs_of n inst ss)

abbrev pub net_of : List Contrib → ℤ
net_of [] = pos 0
net_of (c ∷ cs) = c.1 +ℤ net_of cs

abbrev pub gross_of : List Contrib → ℕ
gross_of [] = 0
gross_of (c ∷ cs) = magnitude c.1 + gross_of cs

-- The book entries of an internal transfer.
abbrev pub transfer : ℕ → List Contrib → Dict ℤ → Dict ℤ
transfer inst [] m = m
transfer inst (c ∷ cs) m = transfer inst cs (add_attributed c.0 inst c.1 m)

-- What compute_cycle does with an instrument's contributions.
abbrev pub settle_net : Dict ℤ → ℕ → List Contrib → NettingEngine → NettingEngine × List NetOrder
settle_net prices inst cs n =
    if is_empty cs
    then (n, [])
    else if eqb_ℤ (net_of cs) (pos 0)
    then (
      record n {
        saved_notional =
            n.saved_notional +ℤ quot (pos (gross_of cs) *ℤ find_or (pos 0) inst prices) (pos 2);
        attributed = transfer inst cs n.attributed;
      },
      [],
    )
    else (
      record n { contrib = insert inst cs n.contrib },
      record { instrument = inst; delta = net_of cs } ∷ [],
    )

-- The loop of compute_cycle over the instruments.
abbrev pub net_all : Dict ℤ → List ℕ → List ℕ → NettingEngine → NettingEngine × List NetOrder
net_all prices strats [] n = (n, [])
net_all prices strats (inst ∷ insts) n =
    let one = settle_net prices inst (contribs_of n inst strats) n in
    let rest = net_all prices strats insts one.0 in (rest.0, one.1 ++ rest.1)

-- NettingEngine::compute_cycle
unfoldable pub compute_cycle : Dict ℤ → NettingEngine → NettingEngine × List NetOrder
compute_cycle prices n = net_all prices (sort_by ltb n.strategies) (sort_by ltb n.instruments) n

pub record Alloc : Type 0 where
  pub s : ℕ
  pub base : ℕ
  pub rem : ℕ
  pub weight : ℕ

-- The allocation loop of attribute_fill.
abbrev pub allocate : ℕ → ℕ → List Contrib → List Alloc
allocate absq total [] = []
allocate absq total (c ∷ cs) =
    let w = magnitude c.1 in
    record { s = c.0; base = absq * w / total; rem = absq * w % total; weight = w }
    ∷ allocate absq total cs

-- The comparison of its sort.
abbrev pub precedes : Alloc → Alloc → Bool
precedes a b =
    if a.rem == b.rem
    then (if a.weight == b.weight then ltb a.s b.s else ltb b.weight a.weight)
    else ltb b.rem a.rem

abbrev pub sum_base : List Alloc → ℕ
sum_base [] = 0
sum_base (a ∷ allocs) = a.base + sum_base allocs

-- The loop that hands out the units left over.
abbrev pub hand_out : ℕ → List Alloc → List Alloc
hand_out left [] = []
hand_out left (a ∷ allocs) =
    (if 0 == left then a else record a { base = a.base + 1 }) ∷ hand_out (left - 1) allocs

-- The shares of a fill.
unfoldable pub apportion : ℕ → List Contrib → List Alloc
apportion absq cs =
    let allocs = allocate absq (gross_of cs) cs in
    hand_out (absq - sum_base allocs) (sort_by precedes allocs)

abbrev pub signed : ℤ → ℕ → ℤ
signed q n = if ltb_ℤ q (pos 0) then neg (pos n) else pos n

-- The loop that books the shares.
abbrev pub book : ℕ → ℤ → List Alloc → Dict ℤ → Dict ℤ
book inst q [] m = m
book inst q (a ∷ allocs) m = book inst q allocs (add_attributed a.s inst (signed q a.base) m)

-- NettingEngine::attribute_fill
unfoldable pub attribute_fill : NettingEngine → ℕ → ℤ → NettingEngine
attribute_fill n inst q =
    let cs = find_or [] inst n.contrib in
    let booked = record n { global = add_global inst q n.global } in
    if gross_of cs == 0
    then booked
    else record booked { attributed = book inst q (apportion (magnitude q) cs) n.attributed }

abbrev pub sum_attributed : Dict ℤ → ℕ → List ℕ → ℤ
sum_attributed m inst [] = pos 0
sum_attributed m inst (s ∷ ss) = attributed_to m s inst +ℤ sum_attributed m inst ss

abbrev pub check_all : NettingEngine → List ℕ → Bool
check_all n [] = true
check_all n (inst ∷ insts) =
    if eqb_ℤ (sum_attributed n.attributed inst n.strategies) (global_position n inst)
    then check_all n insts
    else false

-- NettingEngine::check_invariant
unfoldable pub check_invariant : NettingEngine → Bool
check_invariant n = check_all n n.instruments
