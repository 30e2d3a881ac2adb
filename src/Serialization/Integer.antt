-- ===== src/Serialization/Integer.antt =====
-- The integer codecs: src/include/serialization/codecs/big_endian.h and little_endian.h.
-- `w` is `sizeof(T)`. A value of a signed type is its bit pattern, below 2 ^ (8 * w).
pub mod Bytes
pub mod RoundTrip
pub mod Truncated
use Prim.Native.Nat.{bit_and, bit_or}
use coherent.Common.{ℕ, zero, suc, ◌+◌, ◌*◌, ◌/◌, ◌%◌, ◌^◌}
use coherent.Common.{Outcome, ok, ◌>>=◌}
use coherent.Serialization.{Encoder, Decoder}

module _ {S : Type 0} (enc : Encoder S) where
  -- The loop of `big_endian_int_codec::encode`, at `i == 8 * rounds`.
  pub big_encode_loop : ℕ → ℕ → S → Outcome S
  big_encode_loop zero x s = ok s
  big_encode_loop (suc rounds) x s =
      enc.write_char (x / 2 ^ (8 * rounds) % 256) s >>= big_encode_loop rounds x

  unfoldable pub big_encode : ℕ → ℕ → S → Outcome S
  unfolding big_encode_loop
  big_encode w x s = big_encode_loop w x s

  -- The loop of `little_endian_int_codec::encode`, at `i == 8 * k` and with `rounds` to go.
  pub little_encode_loop : ℕ → ℕ → ℕ → S → Outcome S
  little_encode_loop zero k x s = ok s
  little_encode_loop (suc rounds) k x s =
      enc.write_char (bit_and (x / 2 ^ (8 * k)) 0xff % 256) s
      >>= little_encode_loop rounds (suc k) x

  unfoldable pub little_encode : ℕ → ℕ → S → Outcome S
  unfolding little_encode_loop
  little_encode w x s = little_encode_loop w 0 x s

  -- The codecs of `char` and of `uint8_t`.
  unfoldable pub char_encode : ℕ → S → Outcome S
  char_encode t s = enc.write_char t s

module _ {D : Type 0} (dec : Decoder D) where
  -- `x = (x<<8) | c`, in a type of `w` bytes.
  pub big_decode_loop : ℕ → ℕ → ℕ → D → Outcome (ℕ × D)
  big_decode_loop w zero x d = ok (x, d)
  big_decode_loop w (suc rounds) x d =
      dec.get_char d >>= λ r. big_decode_loop w rounds (bit_or (x * 2 ^ 8) r.0 % 2 ^ (8 * w)) r.1

  unfoldable pub big_decode : ℕ → D → Outcome (ℕ × D)
  unfolding big_decode_loop
  big_decode w d = big_decode_loop w w 0 d

  -- `x |= (((T)c)<<(8*i))`, in a type of `w` bytes.
  pub little_decode_loop : ℕ → ℕ → ℕ → ℕ → D → Outcome (ℕ × D)
  little_decode_loop w zero i x d = ok (x, d)
  little_decode_loop w (suc rounds) i x d = dec.get_char d >>= λ r.
      little_decode_loop w rounds (suc i) (bit_or x (r.0 * 2 ^ (8 * i) % 2 ^ (8 * w))) r.1

  unfoldable pub little_decode : ℕ → D → Outcome (ℕ × D)
  unfolding little_decode_loop
  little_decode w d = little_decode_loop w w 0 0 d

  unfoldable pub char_decode : D → Outcome (ℕ × D)
  char_decode d = dec.get_char d
