-- ===== src/OrderId.antt =====
-- include/oms/OrderId.h: the packed order id, [venue:8][generation:16][slot:24][sequence:16] in a
-- `uint64_t`. The shifts, masks and `|` are those of the source; `Common.Bits` has their laws.
pub mod RoundTrip
use delta_assignment.Common.{ℕ, ◌+◌, ◌-◌, ◌^◌, ◌%◌, bit_and, bit_or}
use delta_assignment.Common.Bits.{◌<<◌, ◌>>◌}

-- id_bits
abbrev pub venue_bits : ℕ
venue_bits = 8

abbrev pub generation_bits : ℕ
generation_bits = 16

abbrev pub slot_bits : ℕ
slot_bits = 24

abbrev pub sequence_bits : ℕ
sequence_bits = 16

abbrev pub slot_shift : ℕ
slot_shift = sequence_bits

abbrev pub generation_shift : ℕ
generation_shift = sequence_bits + slot_bits

abbrev pub venue_shift : ℕ
venue_shift = sequence_bits + slot_bits + generation_bits

-- (uint64_t{1} << bits) - 1
abbrev pub mask : ℕ → ℕ
mask bits = 2 ^ bits - 1

-- kMaxSlots
abbrev pub max_slots : ℕ
max_slots = mask slot_bits + 1

abbrev pub OrderIdRaw : Type 0
OrderIdRaw = ℕ

pub record OrderId : Type 0 where
  pub venue : ℕ
  pub generation : ℕ
  pub slot : ℕ
  pub sequence : ℕ

-- encode_order_id. The four results fit 64 bits, so no `<<` loses a bit.
unfoldable pub encode_order_id : ℕ → ℕ → ℕ → ℕ → OrderIdRaw
encode_order_id venue generation slot sequence =
    bit_or
      (bit_or (bit_or (venue << venue_shift) (generation << generation_shift))
        (bit_and slot (mask slot_bits) << slot_shift))
      (sequence << 0)

-- decode_order_id
unfoldable pub decode_order_id : OrderIdRaw → OrderId
decode_order_id id = record {
  venue = bit_and (id >> venue_shift) (mask venue_bits);
  generation = bit_and (id >> generation_shift) (mask generation_bits);
  slot = bit_and (id >> slot_shift) (mask slot_bits);
  sequence = bit_and (id >> 0) (mask sequence_bits);
}
