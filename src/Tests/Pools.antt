-- ===== src/Tests/Pools.antt =====
-- Runs of the pool and of the id codec.
use delta_assignment.Common.{◌%◌, ◌^◌, ◌≡◌, refl, true, false, [], ◌∷◌, ◌&&◌, ◌==◌, arith}
use delta_assignment.OrderId.{encode_order_id, decode_order_id}
use delta_assignment.OrderId.RoundTrip.{decode-encode, encode-decode}
use delta_assignment.Pool.{OrderPool, make_pool, acquire, release, is_current, slot_live}
use delta_assignment.Pool.Invariant.{
  IsValid, make_pool-IsValid, Acquires, acquire-Acquires, Releases, release-Releases,
}
use delta_assignment.Pool.Stale.{Step, Run, releases_of, Run-IsValid, is_current-Run}

abbrev two_slots : OrderPool
two_slots = make_pool 2

abbrev one_taken : OrderPool
one_taken = record two_slots { free_list = 1 ∷ []; allocated = true ∷ false ∷ []; in_use = 1 }

abbrev given_back : OrderPool
given_back = record one_taken {
  free_list = 0 ∷ 1 ∷ [];
  allocated = false ∷ false ∷ [];
  in_use = 0;
  generation = 1 ∷ 0 ∷ [];
}

-- The id of the first order: venue 0, generation 0, slot 0, sequence 1.
taken_and_released : Run one_taken given_back
unfolding release make_pool
taken_and_released = Run.next Run.here (Step.releases 0 refl)

-- Slot 0 was given back once, so the first id is stale.
first_id_stale : is_current given_back 1 ≡ false
unfolding is_current make_pool decode_order_id
first_id_stale = refl

first_id_current : is_current one_taken 1 ≡ true
unfolding is_current make_pool decode_order_id
first_id_current = refl

two_slots-IsValid : IsValid two_slots
two_slots-IsValid = make_pool-IsValid 2 (omega arith) (omega arith)

one_taken-IsValid : IsValid one_taken
unfolding acquire make_pool
one_taken-IsValid = let (_, _, _, _, _, v) = acquire-Acquires two_slots two_slots-IsValid in v

acquire-Acquires_example : Acquires two_slots (acquire two_slots)
acquire-Acquires_example = acquire-Acquires two_slots two_slots-IsValid

release-Releases_example : Releases one_taken 0 (release one_taken 0)
release-Releases_example = release-Releases one_taken 0 one_taken-IsValid

Run-IsValid_example : IsValid given_back
Run-IsValid_example = Run-IsValid one_taken-IsValid taken_and_released

is_current-Run_example :
    let s = (decode_order_id 1).slot in
    is_current given_back 1
    ≡ (slot_live given_back s && (releases_of s taken_and_released % 2 ^ 16) == 0)
is_current-Run_example = is_current-Run 1 taken_and_released one_taken-IsValid first_id_current

decode-encode_example :
    decode_order_id (encode_order_id 3 7 42 9)
    ≡ record { venue = 3; generation = 7; slot = 42; sequence = 9 }
decode-encode_example =
    decode-encode 3 7 42 9 (omega arith) (omega arith) (omega arith) (omega arith)

encode-decode_example :
    let d = decode_order_id 216181267434897417 in
    encode_order_id d.venue d.generation d.slot d.sequence ≡ 216181267434897417
encode-decode_example = encode-decode 216181267434897417 (omega arith)
