-- ===== src/Common/Bits.antt =====
-- `|` of disjoint fields and `&` with a mask of ones, as arithmetic, for every width.
use Prim.Native.Nat.{
  ℕ, zero, suc, ◌+◌, ◌-◌, ◌*◌, ◌/◌, ◌%◌, ◌^◌, ◌≤◌, ◌<◌, max, min, bit_or, bit_and, digits, bitwise,
  bit_or-bitwise, bit_and-bitwise,
}
use mathlib.Core.Path.{◌≡◌, refl, sym, ap, ◌∙◌}
use native.Mathlib.Omega.{arith}
use native.Mathlib.Nat.{
  pow-suc, one-le-pow, mod-lt, mod-eq_of_lt, add-mul-mod_self_right, div-add-mod,
}

infixl 60 ◌<<◌ ◌>>◌
abbrev pub ◌<<◌ : ℕ → ℕ → ℕ
x << k = x * 2 ^ k

abbrev pub ◌>>◌ : ℕ → ℕ → ℕ
x >> k = x / 2 ^ k

-- A bitwise operation: `rest` is what the right side has once the left one ran out, and `meet` works on
-- two digits.
module _ (rest : ℕ → ℕ) (meet : ℕ → ℕ → ℕ) where
  -- Any count of digits that is enough gives one result.
  digits_enough : (f g x y : ℕ) → x ≤ f → x ≤ g → digits rest meet f x y ≡ digits rest meet g x y
  digits_enough zero zero zero y u v = refl
  digits_enough zero (suc g) zero y u v = refl
  digits_enough (suc f) zero zero y u v = refl
  digits_enough (suc f) (suc g) zero y u v = refl
  digits_enough zero g (suc x) y u v = absurd (omega (arith, u))
  digits_enough (suc f) zero (suc x) y u v = absurd (omega (arith, v))
  digits_enough (suc f) (suc g) (suc x) y u v =
      ap (λ (high : ℕ). high * 2 + meet (suc x % 2) (y % 2))
        (digits_enough f g (suc x / 2) (y / 2) (omega (arith, u)) (omega (arith, v)))

  -- The lowest digit and the operation on the others.
  bitwise_low :
      (x y : ℕ)
      → bitwise rest meet (suc x) y
        ≡ bitwise rest meet (suc x / 2) (y / 2) * 2 + meet (suc x % 2) (y % 2)
  bitwise_low x y =
      ap (λ (high : ℕ). high * 2 + meet (suc x % 2) (y % 2))
        (digits_enough x (suc x / 2) (suc x / 2) (y / 2) (omega arith) (omega arith))

or_nothing : (y : ℕ) → bit_or 0 y ≡ y
or_nothing y = bit_or-bitwise 0 y

or_low : (x y : ℕ) → bit_or x y ≡ bit_or (x / 2) (y / 2) * 2 + max (x % 2) (y % 2)
or_low zero y = omega (or_nothing y, or_nothing (y / 2), arith)
or_low (suc x) y =
    bit_or-bitwise (suc x) y
    ∙ bitwise_low (λ b. b) max x y
    ∙ ap (λ (high : ℕ). high * 2 + max (suc x % 2) (y % 2))
        (sym (bit_or-bitwise (suc x / 2) (y / 2)))

-- `| 0` changes nothing, for numbers up to a bound.
or_zero : (bound x : ℕ) → x ≤ bound → bit_or x 0 ≡ x
or_zero bound zero u = or_nothing 0
or_zero zero (suc x) u = absurd (omega (arith, u))
or_zero (suc bound) (suc x) u =
    or_low (suc x) 0 ∙ omega (or_zero bound (suc x / 2) (omega (arith, u)), arith)

or_doubled : (x r : ℕ) → bit_or (x * 2) r ≡ bit_or x (r / 2) * 2 + r % 2
or_doubled x r =
    let half : x * 2 / 2 ≡ x = omega arith in
    or_low (x * 2) r
    ∙ ap (λ (h : ℕ). bit_or h (r / 2) * 2 + max (x * 2 % 2) (r % 2)) half
    ∙ omega arith

-- A field of `k` bits joined below a shifted one: no carry.
pub bit_or-shift : (k q r : ℕ) → r < 2 ^ k → bit_or (q << k) r ≡ q * 2 ^ k + r
bit_or-shift zero q r h =
    let z : r ≡ 0 = omega arith in rw z (omega (arith, or_zero (q * 1) (q * 1)))
bit_or-shift (suc k) q r h =
    let e : q * 2 ^ suc k ≡ q * 2 ^ k * 2 = omega (arith, ap (λ (t : ℕ). q * t) (pow-suc 2 k)) in
    rw e (
      omega (
        arith,
        pow-suc 2 k,
        or_doubled (q * 2 ^ k) r,
        bit_or-shift k q (r / 2) (omega (arith, pow-suc 2 k)),
      ))

and_nothing : (y : ℕ) → bit_and 0 y ≡ 0
and_nothing y = bit_and-bitwise 0 y

and_low : (x y : ℕ) → bit_and x y ≡ bit_and (x / 2) (y / 2) * 2 + min (x % 2) (y % 2)
and_low zero y = omega (and_nothing y, and_nothing (y / 2), arith)
and_low (suc x) y =
    bit_and-bitwise (suc x) y
    ∙ bitwise_low (λ b. zero) min x y
    ∙ ap (λ (high : ℕ). high * 2 + min (suc x % 2) (y % 2))
        (sym (bit_and-bitwise (suc x / 2) (y / 2)))

-- `& 0` leaves nothing, for numbers up to a bound.
and_zero : (bound x : ℕ) → x ≤ bound → bit_and x 0 ≡ 0
and_zero bound zero u = and_nothing 0
and_zero zero (suc x) u = absurd (omega (arith, u))
and_zero (suc bound) (suc x) u =
    and_low (suc x) 0 ∙ omega (and_zero bound (suc x / 2) (omega (arith, u)), arith)

-- The low digit and the rest of a remainder by a power of two.
mod-pow-suc : (k a : ℕ) → a % 2 ^ suc k ≡ (a / 2) % 2 ^ k * 2 + a % 2
mod-pow-suc k a =
    let q : ℕ = a / 2 / 2 ^ k in
    let r : ℕ = (a / 2) % 2 ^ k in
    let split : a ≡ r * 2 + a % 2 + q * 2 ^ suc k =
      omega (arith, div-add-mod (a / 2) (2 ^ k), ap (λ (t : ℕ). q * t) (pow-suc 2 k)) in
    let small : r * 2 + a % 2 < 2 ^ suc k =
      omega (arith, pow-suc 2 k, mod-lt (a / 2) (one-le-pow k 2 (omega arith))) in
    ap (λ (t : ℕ). t % 2 ^ suc k) split
    ∙ add-mul-mod_self_right (r * 2 + a % 2) q (2 ^ suc k)
    ∙ mod-eq_of_lt small

and_doubled : (a m : ℕ) → bit_and a (m * 2 + 1) ≡ bit_and (a / 2) m * 2 + a % 2
and_doubled a m =
    let half : (m * 2 + 1) / 2 ≡ m = omega arith in
    and_low a (m * 2 + 1)
    ∙ ap (λ (h : ℕ). bit_and (a / 2) h * 2 + min (a % 2) ((m * 2 + 1) % 2)) half
    ∙ omega arith

-- A mask of `k` ones keeps the low `k` bits.
pub bit_and-mask : (k a : ℕ) → bit_and a (2 ^ k - 1) ≡ a % 2 ^ k
bit_and-mask zero a = omega (arith, and_zero a a)
bit_and-mask (suc k) a =
    let e : 2 ^ suc k - 1 ≡ (2 ^ k - 1) * 2 + 1 =
      omega (arith, pow-suc 2 k, one-le-pow k 2 (omega arith)) in
    rw e (omega (arith, and_doubled a (2 ^ k - 1), bit_and-mask k (a / 2), mod-pow-suc k a))
