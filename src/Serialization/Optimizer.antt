-- ===== src/Serialization/Optimizer.antt =====
-- The codecs that copy memory: src/include/serialization/codecs/optimizers.h.
-- An integer object of `w` bytes is laid out in the byte order of the host.
pub mod RoundTrip
use coherent.Common.{
  ℕ, zero, suc, ◌+◌, ◌*◌, ◌/◌, ◌%◌, ◌^◌, List, [], ◌∷◌, ◌++◌, length, take, drop, Outcome, ok,
  ◌>>=◌,
}
use coherent.Serialization.{Encoder, Decoder}
use mathlib.Core.List.{reverse}

-- The byte order of the host.
pub data ByteOrder : Type 0 where
  little_endian big_endian : ByteOrder

-- The bytes of a number from the lowest one on.
unfoldable pub low_bytes : ℕ → ℕ → List ℕ
low_bytes zero x = []
low_bytes (suc w) x = (x % 256) ∷ low_bytes w (x / 256)

unfoldable pub low_value : List ℕ → ℕ
low_value [] = 0
low_value (b ∷ bs) = b + 256 * low_value bs

-- The bytes of an object of `w` bytes in the host's memory, and the value of an object with such bytes.
unfoldable pub object_bytes : ByteOrder → ℕ → ℕ → List ℕ
unfolding low_bytes
object_bytes little_endian w x = low_bytes w x
object_bytes big_endian w x = reverse (low_bytes w x)

unfoldable pub object_value : ByteOrder → List ℕ → ℕ
unfolding low_value
object_value little_endian bytes = low_value bytes
object_value big_endian bytes = low_value (reverse bytes)

-- The same of an array.
unfoldable pub array_bytes : ByteOrder → ℕ → List ℕ → List ℕ
unfolding object_bytes
array_bytes host w [] = []
array_bytes host w (x ∷ xs) = object_bytes host w x ++ array_bytes host w xs

unfoldable pub array_values : ByteOrder → ℕ → ℕ → List ℕ → List ℕ
unfolding object_value
array_values host w zero bytes = []
array_values host w (suc n) bytes =
    object_value host (take w bytes) ∷ array_values host w n (drop w bytes)

module _ (host : ByteOrder) {S : Type 0} (enc : Encoder S) where
  -- `general_optimizer::encode`, for an integer of `w` bytes.
  unfoldable pub general_encode : ℕ → ℕ → S → Outcome S
  unfolding object_bytes
  general_encode w t s = enc.memcpy (object_bytes host w t) s

  -- `sequence_optimizer::encode`, for elements of `w` bytes and with the codec of the size.
  unfoldable pub optimized_sequence_encode : ℕ → (ℕ → S → Outcome S) → List ℕ → S → Outcome S
  unfolding array_bytes
  optimized_sequence_encode w write_size seq s =
      write_size (length seq % 2 ^ 32) s >>= enc.memcpy (array_bytes host w seq)

module _ (host : ByteOrder) {D : Type 0} (dec : Decoder D) where
  unfoldable pub general_decode : ℕ → D → Outcome (ℕ × D)
  unfolding object_value
  general_decode w d = dec.memcpy w d >>= λ r. ok (object_value host r.0, r.1)

  unfoldable pub optimized_sequence_decode : ℕ → (D → Outcome (ℕ × D)) → D → Outcome (List ℕ × D)
  unfolding array_values
  optimized_sequence_decode w read_size d =
      read_size d >>= λ r. dec.memcpy (w * r.0) r.1 >>= λ q. ok (array_values host w r.0 q.0, q.1)
