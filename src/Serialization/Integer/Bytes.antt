-- ===== src/Serialization/Integer/Bytes.antt =====
-- The bytes that the integer codecs write, and the number that comes back.
use Prim.Native.Nat.{bit_or}
use coherent.Common.{ℕ, zero, suc, ◌+◌, ◌*◌, ◌/◌, ◌%◌, ◌^◌, ◌<◌, ◌≡◌, sym, ap, arith}
use coherent.Common.{List, [], ◌∷◌, ◌++◌, ok}
use coherent.Common.Bits.{
  or_low_bits, or_high_bits, and_low_byte, pow_byte, pow_byte_pos, shift_byte,
}
use coherent.Serialization.{Encoder, buffer_decoder, buffer_get_char}
use coherent.Serialization.Laws.{IsEncoder, Emits, Emits->>=}
use coherent.Serialization.Integer.{
  big_encode_loop, big_decode_loop, little_encode_loop, little_decode_loop,
}
use mathlib.Core.List.{append-nil}
use native.Mathlib.Nat.{
  mod-eq_of_lt, div-le_self, div-add-mod, div-div-eq-div-mul, mod-le, mod-lt, mod-mod, div-one,
}

abbrev pub byte : ℕ → ℕ → ℕ
byte x k = x / 2 ^ (8 * k) % 256

-- The lowest `k` bytes of `x`, the most significant first.
unfoldable pub big_bytes : ℕ → ℕ → List ℕ
big_bytes zero x = []
big_bytes (suc k) x = byte x k ∷ big_bytes k x

-- `n` bytes of `x` from byte `k` on, the least significant first.
unfoldable pub little_bytes : ℕ → ℕ → ℕ → List ℕ
little_bytes zero k x = []
little_bytes (suc n) k x = byte x k ∷ little_bytes n (suc k) x

module _ {S : Type 0} {enc : Encoder S} (law : IsEncoder enc) where
  pub big_encode_loop-big_bytes :
      (k x : ℕ) (s : S)
      → Emits law.emitted law.failed law.may_fail (big_bytes k x) s (big_encode_loop enc k x s)
  unfolding big_encode_loop big_bytes
  big_encode_loop-big_bytes zero x s = (sym (append-nil _), λ u. u)
  big_encode_loop-big_bytes (suc k) x s =
      Emits->>= law.emitted law.failed law.may_fail (byte x k ∷ []) (big_bytes k x) s _ _
        (law.writes (byte x k) s) (big_encode_loop-big_bytes k x)

  pub little_encode_loop-little_bytes :
      (n k x : ℕ) (s : S)
      → Emits law.emitted law.failed law.may_fail
          (little_bytes n k x)
          s
          (little_encode_loop enc n k x s)
  unfolding little_encode_loop little_bytes
  little_encode_loop-little_bytes zero k x s = (sym (append-nil _), λ u. u)
  little_encode_loop-little_bytes (suc n) k x s =
      Emits->>= law.emitted law.failed law.may_fail (byte x k ∷ []) (little_bytes n (suc k) x) s _ _
        (rw (and_low_byte, mod-mod) (law.writes (byte x k) s))
        (little_encode_loop-little_bytes n (suc k) x)

-- The shifted-in byte restores the bits that the shift left out.
shift_in :
    (x w k : ℕ)
    → x < 2 ^ (8 * w)
    → bit_or (x / 2 ^ (8 * suc k) * 2 ^ 8) (byte x k) % 2 ^ (8 * w) ≡ x / 2 ^ (8 * k)
shift_in x w k h =
    rw (or_low_bits 8 (x / 2 ^ (8 * suc k)) (byte x k) (omega arith), shift_byte x k)
      let whole : x / 2 ^ (8 * k) / 256 * 256 + byte x k ≡ x / 2 ^ (8 * k) = omega arith in
        rw whole (mod-eq_of_lt (omega (arith, div-le_self x (2 ^ (8 * k)))))

pub big_decode_loop-big_bytes :
    (w k x : ℕ) (more : List ℕ)
    → x < 2 ^ (8 * w)
    → big_decode_loop buffer_decoder w k (x / 2 ^ (8 * k)) (big_bytes k x ++ more) ≡ ok (x, more)
unfolding big_decode_loop big_bytes buffer_get_char
big_decode_loop-big_bytes w zero x more h = rw div-one
big_decode_loop-big_bytes w (suc k) x more h =
    rw (shift_in x w k h) (big_decode_loop-big_bytes w k x more h)

-- One byte more of the lowest `k`.
low_byte_more : (x k : ℕ) → x % 2 ^ (8 * suc k) ≡ byte x k * 2 ^ (8 * k) + x % 2 ^ (8 * k)
low_byte_more x k = rw (pow_byte k) (
    omega (
      arith,
      div-add-mod x (2 ^ (8 * k) * 256),
      ap (λ (t : ℕ). 2 ^ (8 * k) * 256 * t) (div-div-eq-div-mul x (2 ^ (8 * k)) 256),
      div-add-mod x (2 ^ (8 * k)),
      ap (λ (t : ℕ). 2 ^ (8 * k) * t) (div-add-mod (x / 2 ^ (8 * k)) 256),
    ))

or_in :
    (x w k : ℕ)
    → x < 2 ^ (8 * w)
    → bit_or (x % 2 ^ (8 * k)) (byte x k * 2 ^ (8 * k) % 2 ^ (8 * w)) ≡ x % 2 ^ (8 * suc k)
or_in x w k h =
    let fits : byte x k * 2 ^ (8 * k) < 2 ^ (8 * w) =
      omega (arith, low_byte_more x k, mod-le x (2 ^ (8 * suc k))) in
    rw
      (
        mod-eq_of_lt fits,
        or_high_bits (8 * k) (byte x k) (x % 2 ^ (8 * k)) (mod-lt x (pow_byte_pos k)),
      )
      (sym (low_byte_more x k))

pub little_decode_loop-little_bytes :
    (w n k x : ℕ) (more : List ℕ)
    → x < 2 ^ (8 * w)
    → n + k ≡ w
    → little_decode_loop buffer_decoder w n k (x % 2 ^ (8 * k)) (little_bytes n k x ++ more)
      ≡ ok (x, more)
unfolding little_decode_loop little_bytes buffer_get_char
little_decode_loop-little_bytes w zero k x more h e =
    let all : k ≡ w = omega arith in rw (all, mod-eq_of_lt h)
little_decode_loop-little_bytes w (suc n) k x more h e =
    rw (or_in x w k h) (little_decode_loop-little_bytes w n (suc k) x more h (omega arith))
