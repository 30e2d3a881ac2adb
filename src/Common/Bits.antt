-- ===== src/Common/Bits.antt =====
-- The bit operators of C++ on unsigned numbers, as the codecs use them: `<<`, `>>`, `|` and `& 0xff`.
use Prim.Native.Nat.{
  ℕ, zero, suc, ◌+◌, ◌-◌, ◌*◌, ◌/◌, ◌%◌, ◌^◌, ◌≤◌, ◌<◌, min, max, digits, bit_and, bit_or,
  bit_and-bitwise, bit_or-bitwise,
}
use mathlib.Core.Path.{◌≡◌, refl, ap, sym, ◌∙◌}
use native.Mathlib.Omega.{arith}
use native.Mathlib.Nat.{pow-suc, div-div-eq-div-mul, one-le-pow, div-add-mod}
use native.Mathlib.Numerals.{towards_suc}

-- Any fuel that covers the first operand gives the digits that all of it gives.
module _ (run_out : ℕ → ℕ) (digit : ℕ → ℕ → ℕ) where
  digits_enough :
      (m n a b : ℕ) → a ≤ m → a ≤ n → digits run_out digit m a b ≡ digits run_out digit n a b
  digits_enough zero zero a b hm hn = refl
  digits_enough (suc m) (suc n) zero b hm hn = refl
  digits_enough (suc m) zero zero b hm hn = refl
  digits_enough zero (suc n) zero b hm hn = refl
  digits_enough (suc m) (suc n) (suc a) b hm hn =
      rw (digits_enough m n (suc a / 2) (b / 2) (omega arith) (omega arith))
  digits_enough (suc m) zero (suc a) b hm hn = absurd (omega arith)
  digits_enough zero n (suc a) b hm hn = absurd (omega arith)

or_digit : (a b : ℕ) → bit_or a b ≡ bit_or (a / 2) (b / 2) * 2 + max (a % 2) (b % 2)
or_digit zero b = omega (arith, bit_or-bitwise 0 b, bit_or-bitwise 0 (b / 2))
or_digit (suc a) b = omega (
  arith,
  bit_or-bitwise (suc a) b,
  bit_or-bitwise (suc a / 2) (b / 2),
  digits_enough (λ c. c) max a (suc a / 2) (suc a / 2) (b / 2) (omega arith) (omega arith),
)

and_digit : (a b : ℕ) → bit_and a b ≡ bit_and (a / 2) (b / 2) * 2 + min (a % 2) (b % 2)
and_digit zero b = omega (arith, bit_and-bitwise 0 b, bit_and-bitwise 0 (b / 2))
and_digit (suc a) b = omega (
  arith,
  bit_and-bitwise (suc a) b,
  bit_and-bitwise (suc a / 2) (b / 2),
  digits_enough (λ c. 0) min a (suc a / 2) (suc a / 2) (b / 2) (omega arith) (omega arith),
)

or_nothing : (bound a : ℕ) → a ≤ bound → bit_or a 0 ≡ a
or_nothing bound zero h = refl
or_nothing zero (suc a) h = absurd (omega arith)
or_nothing (suc bound) (suc a) h =
    omega (arith, or_digit (suc a) 0, or_nothing bound (suc a / 2) (omega arith))

and_nothing : (bound a : ℕ) → a ≤ bound → bit_and a 0 ≡ 0
and_nothing bound zero h = refl
and_nothing zero (suc a) h = absurd (omega arith)
and_nothing (suc bound) (suc a) h =
    omega (arith, and_digit (suc a) 0, and_nothing bound (suc a / 2) (omega arith))

-- `high << k | low` is a sum where `low` fits `k` bits.
pub or_low_bits : (k high low : ℕ) → low < 2 ^ k → bit_or (high * 2 ^ k) low ≡ high * 2 ^ k + low
or_low_bits zero high low h = ground (arith, or_nothing high high)
or_low_bits (suc k) high low h = ground (
  arith,
  or_digit (high * 2 ^ suc k) low,
  ap (λ (t : ℕ). high * t) (pow-suc 2 k),
  or_low_bits k high (low / 2) (omega arith),
)

-- The other way round.
pub or_high_bits : (k high low : ℕ) → low < 2 ^ k → bit_or low (high * 2 ^ k) ≡ high * 2 ^ k + low
or_high_bits zero high low h =
    let none_left : low ≡ 0 = omega arith in
    rw none_left (omega (arith, bit_or-bitwise 0 (high * 1)))
or_high_bits (suc k) high low h = ground (
  arith,
  or_digit low (high * 2 ^ suc k),
  ap (λ (t : ℕ). high * t) (pow-suc 2 k),
  or_high_bits k high (low / 2) (omega arith),
)

and_one_more : (a ones : ℕ) → bit_and a (ones * 2 + 1) ≡ bit_and (a / 2) ones * 2 + a % 2
and_one_more a ones =
    let half : (ones * 2 + 1) / 2 ≡ ones = omega arith in
    rw (and_digit a (ones * 2 + 1), half) (omega arith)

-- `a & 0xff`
pub and_low_byte : (a : ℕ) → bit_and a 0xff ≡ a % 256
and_low_byte a = omega (
  arith,
  and_one_more a 127,
  and_one_more (a / 2) 63,
  and_one_more (a / 2 / 2) 31,
  and_one_more (a / 2 / 2 / 2) 15,
  and_one_more (a / 2 / 2 / 2 / 2) 7,
  and_one_more (a / 2 / 2 / 2 / 2 / 2) 3,
  and_one_more (a / 2 / 2 / 2 / 2 / 2 / 2) 1,
  and_one_more (a / 2 / 2 / 2 / 2 / 2 / 2 / 2) 0,
  and_nothing a (a / 2 / 2 / 2 / 2 / 2 / 2 / 2 / 2) (omega arith),
)

-- `a & (2^k - 1)`
pub and_mask : (k a : ℕ) → bit_and a (2 ^ k - 1) ≡ a % 2 ^ k
and_mask zero a = omega (arith, and_nothing a a)
and_mask (suc k) a =
    let wider : 2 ^ suc k - 1 ≡ (2 ^ k - 1) * 2 + 1 =
      omega (arith, pow-suc 2 k, one-le-pow k 2 (omega arith)) in
    rw (wider, and_one_more a (2 ^ k - 1), and_mask k (a / 2), pow-suc 2 k)
      (omega (
        arith,
        div-add-mod (a / 2) (2 ^ k),
        div-add-mod a (2 ^ k * 2),
        ap (λ (t : ℕ). 2 ^ k * 2 * t) (halves a k),
      ))
  where
    halves : (a k : ℕ) → a / (2 ^ k * 2) ≡ a / 2 / 2 ^ k
    halves a k =
        ap (λ (t : ℕ). a / t) {x = 2 ^ k * 2} {y = 2 * 2 ^ k} (omega arith)
        ∙ sym (div-div-eq-div-mul a 2 (2 ^ k))

-- A shift by one byte more.
pub pow_byte : (k : ℕ) → 2 ^ (8 * suc k) ≡ 2 ^ (8 * k) * 256
pow_byte k =
    let one_more : 8 * suc k ≡ 8 * k + 8 = omega arith in
    rw one_more (simp towards_suc (omega arith))

pub pow_byte_pos : (k : ℕ) → 0 < 2 ^ (8 * k)
pow_byte_pos k = one-le-pow (8 * k) 2 (omega arith)

pub shift_byte : (x k : ℕ) → x / 2 ^ (8 * suc k) ≡ x / 2 ^ (8 * k) / 256
shift_byte x k = rw (pow_byte k, div-div-eq-div-mul)
