-- ===== src/OrderId/RoundTrip.antt =====
-- Encoding and decoding the packed order id (include/oms/OrderId.h).
use delta_assignment.Common.{ℕ, ◌+◌, ◌*◌, ◌/◌, ◌%◌, ◌^◌, ◌<◌, ◌≡◌, refl, ap, ◌∙◌, bit_or, arith}
use native.Mathlib.Nat.{mod-eq_of_lt}
use delta_assignment.Common.Bits.{bit_or-shift, bit_and-mask}
use delta_assignment.OrderId.{OrderIdRaw, encode_order_id, decode_order_id}

-- `|` with a field below what the other side holds is a sum.
bit_or-below : (k q x r : ℕ) → x ≡ q * 2 ^ k → r < 2 ^ k → bit_or x r ≡ x + r
bit_or-below k q x r e h = rw e (bit_or-shift k q r h)

-- The packed id as a sum of its fields.
pub encode_order_id-sum :
    (v g s q : ℕ)
    → v < 2 ^ 8
    → g < 2 ^ 16
    → s < 2 ^ 24
    → q < 2 ^ 16
    → encode_order_id v g s q ≡ v * 2 ^ 56 + g * 2 ^ 40 + s * 2 ^ 16 + q
unfolding encode_order_id
encode_order_id-sum v g s q hv hg hs hq =
    rw
      (
        bit_and-mask 24 s,
        mod-eq_of_lt hs,
        bit_or-below 56 v (v * 2 ^ 56) (g * 2 ^ 40) refl (omega arith),
        bit_or-below 40 (v * 2 ^ 16 + g) (v * 2 ^ 56 + g * 2 ^ 40) (s * 2 ^ 16) (omega arith)
            (omega arith),
        bit_or-below 16 (v * 2 ^ 40 + g * 2 ^ 24 + s) (v * 2 ^ 56 + g * 2 ^ 40 + s * 2 ^ 16) (q * 1)
            (omega arith) (omega arith),
      )
      (omega arith)

div-one : (n : ℕ) → n / 1 ≡ n
div-one n = omega arith

-- The decoder by quotients and remainders.
pub decode_order_id-fields :
    (id : OrderIdRaw)
    → decode_order_id id ≡ record {
      venue = id / 2 ^ 56 % 2 ^ 8;
      generation = id / 2 ^ 40 % 2 ^ 16;
      slot = id / 2 ^ 16 % 2 ^ 24;
      sequence = id % 2 ^ 16;
    }
unfolding decode_order_id
decode_order_id-fields id = λ i. record {
  venue = bit_and-mask 8 (id / 2 ^ 56) i;
  generation = bit_and-mask 16 (id / 2 ^ 40) i;
  slot = bit_and-mask 24 (id / 2 ^ 16) i;
  sequence = (bit_and-mask 16 (id / 1) ∙ ap (λ (t : ℕ). t % 2 ^ 16) (div-one id)) i;
}

-- An id whose fields fit their widths decodes to the fields it was made of.
pub decode-encode :
    (v g s q : ℕ)
    → v < 2 ^ 8
    → g < 2 ^ 16
    → s < 2 ^ 24
    → q < 2 ^ 16
    → decode_order_id (encode_order_id v g s q)
      ≡ record { venue = v; generation = g; slot = s; sequence = q }
decode-encode v g s q hv hg hs hq =
    rw (encode_order_id-sum v g s q hv hg hs hq, decode_order_id-fields)
      λ i. record {
        venue = venue i;
        generation = generation i;
        slot = slot i;
        sequence = sequence i;
      }
  where
    id : ℕ
    id = v * 2 ^ 56 + g * 2 ^ 40 + s * 2 ^ 16 + q

    venue : id / 2 ^ 56 % 2 ^ 8 ≡ v
    venue = omega arith

    generation : id / 2 ^ 40 % 2 ^ 16 ≡ g
    generation = omega arith

    slot : id / 2 ^ 16 % 2 ^ 24 ≡ s
    slot = omega arith

    sequence : id % 2 ^ 16 ≡ q
    sequence = omega arith

-- Every 64-bit id is the encoding of its decoded fields.
pub encode-decode :
    (id : OrderIdRaw)
    → id < 2 ^ 64
    → let d = decode_order_id id in encode_order_id d.venue d.generation d.slot d.sequence ≡ id
encode-decode id h = rw decode_order_id-fields (
    encode_order_id-sum _ _ _ _ (omega arith) (omega arith) (omega arith) (omega arith)
    ∙ omega arith)
