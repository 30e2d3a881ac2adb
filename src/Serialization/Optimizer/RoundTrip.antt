-- ===== src/Serialization/Optimizer/RoundTrip.antt =====
-- What is written by copying memory is read back, and is in the byte order of the host.
use coherent.Common.{ℕ, zero, suc, ◌*◌, ◌/◌, ◌^◌, ◌<◌, ◌≡◌, refl, sym, ap, ◌∙◌, arith}
use coherent.Common.{
  List, [], ◌∷◌, ◌++◌, append_assoc, length, length-append, All, take-append_exact,
  drop-append_exact, Outcome, ok, ltb, false,
}
use coherent.Common.Bits.{pow_byte, shift_byte}
use coherent.Serialization.{
  Encoder, buffer_decoder, buffer_decoder_memcpy, buffer_encoder, buffer_encoder_memcpy,
}
use coherent.Serialization.Laws.{IsEncoder, Emits->>=, RoundTrips}
use coherent.Serialization.Integer.{big_encode, little_encode}
use coherent.Serialization.Integer.Bytes.{byte, little_bytes}
use coherent.Serialization.Integer.RoundTrip.{little_encode-eq-reverse, little_encode-little_bytes}
use coherent.Serialization.Optimizer.{
  ByteOrder, little_endian, big_endian, low_bytes, low_value, object_bytes, object_value,
  array_bytes, array_values, general_encode, general_decode, optimized_sequence_encode,
  optimized_sequence_decode,
}
use mathlib.Core.List.{reverse, reverse-append, reverse-reverse}
use native.Mathlib.Nat.{mod-eq_of_lt, div-one}

length-low_bytes : (w x : ℕ) → length (low_bytes w x) ≡ w
unfolding low_bytes
length-low_bytes zero x = refl
length-low_bytes (suc w) x = ap suc (length-low_bytes w (x / 256))

length-reverse : (l : List ℕ) → length (reverse l) ≡ length l
length-reverse [] = refl
length-reverse (x ∷ l) =
    ap length (reverse-append (x ∷ []) l)
    ∙ length-append (reverse l) (x ∷ [])
    ∙ omega (arith, length-reverse l)

length-object_bytes : (host : ByteOrder) (w x : ℕ) → length (object_bytes host w x) ≡ w
unfolding object_bytes
length-object_bytes little_endian w x = length-low_bytes w x
length-object_bytes big_endian w x = length-reverse (low_bytes w x) ∙ length-low_bytes w x

low_value-low_bytes : (w x : ℕ) → x < 2 ^ (8 * w) → low_value (low_bytes w x) ≡ x
unfolding low_bytes low_value
low_value-low_bytes zero x h = omega arith
low_value-low_bytes (suc w) x h =
    let fits : x / 256 < 2 ^ (8 * w) = omega (arith, pow_byte w) in
    omega (arith, low_value-low_bytes w (x / 256) fits)

-- An object keeps its value, where the value is one of its type.
object_value-object_bytes :
    (host : ByteOrder) (w x : ℕ) → x < 2 ^ (8 * w) → object_value host (object_bytes host w x) ≡ x
unfolding object_bytes object_value
object_value-object_bytes little_endian w x h = low_value-low_bytes w x h
object_value-object_bytes big_endian w x h =
    ap low_value (reverse-reverse (low_bytes w x)) ∙ low_value-low_bytes w x h

memcpy_exact :
    (n : ℕ) (bytes more : List ℕ)
    → length bytes ≡ n
    → buffer_decoder_memcpy n (bytes ++ more) ≡ ok (bytes, more)
unfolding buffer_decoder_memcpy
memcpy_exact n bytes more h =
    let enough : ltb (length (bytes ++ more)) n ≡ false =
      ground (arith, length-append bytes more) in
    rw (enough, take-append_exact n bytes more h, drop-append_exact n bytes more h)

length-array_bytes :
    (host : ByteOrder) (w : ℕ) (xs : List ℕ) → length (array_bytes host w xs) ≡ w * length xs
unfolding array_bytes
length-array_bytes host w [] = omega arith
length-array_bytes host w (x ∷ xs) = omega (
  arith,
  length-append (object_bytes host w x) (array_bytes host w xs),
  length-object_bytes host w x,
  length-array_bytes host w xs,
)

array_values-array_bytes :
    (host : ByteOrder) (w : ℕ) (xs : List ℕ)
    → All (λ x. x < 2 ^ (8 * w)) xs
    → array_values host w (length xs) (array_bytes host w xs) ≡ xs
unfolding array_values array_bytes
array_values-array_bytes host w [] h = refl
array_values-array_bytes host w (x ∷ xs) h =
    let long = length-object_bytes host w x in
    rw (
      take-append_exact w (object_bytes host w x) (array_bytes host w xs) long,
      drop-append_exact w (object_bytes host w x) (array_bytes host w xs) long,
      object_value-object_bytes host w x h.0,
      array_values-array_bytes host w xs h.1,
    )

module _ (host : ByteOrder) {S : Type 0} {enc : Encoder S} (law : IsEncoder enc) where
  -- An integer that is written as it lies in memory is read back.
  pub general_encode-RoundTrips :
      (w x : ℕ)
      → x < 2 ^ (8 * w)
      → RoundTrips law (general_encode host enc w) (general_decode host buffer_decoder w) x
  unfolding general_encode general_decode
  general_encode-RoundTrips w x h = (
    object_bytes host w x,
    law.copies (object_bytes host w x),
    λ more. rw (
      memcpy_exact w (object_bytes host w x) more (length-object_bytes host w x),
      object_value-object_bytes host w x h,
    ),
  )

  -- So is an array of such integers, and with it a string, where its size fits a `uint32_t`.
  pub optimized_sequence_encode-RoundTrips :
      (w : ℕ) (write_size : ℕ → S → Outcome S) (read_size : List ℕ → Outcome (ℕ × List ℕ))
      → ((n : ℕ) → n < 2 ^ 32 → RoundTrips law write_size read_size n)
      → (xs : List ℕ) → All (λ x. x < 2 ^ (8 * w)) xs
      → length xs < 2 ^ 32
      → RoundTrips law
          (optimized_sequence_encode host enc w write_size)
          (optimized_sequence_decode host buffer_decoder w read_size)
          xs
  unfolding optimized_sequence_encode optimized_sequence_decode
  optimized_sequence_encode-RoundTrips w write_size read_size size xs elements fits =
      let (size_bytes, written, read) = size (length xs) fits in
      (
        size_bytes ++ array_bytes host w xs,
        λ s. rw (mod-eq_of_lt fits) (
            Emits->>= law.emitted law.failed law.may_fail size_bytes (array_bytes host w xs) s _ _
              (written s) (law.copies (array_bytes host w xs))),
        λ more. rw (
          append_assoc size_bytes (array_bytes host w xs) more,
          read (array_bytes host w xs ++ more),
          memcpy_exact (w * length xs) (array_bytes host w xs) more (length-array_bytes host w xs),
          array_values-array_bytes host w xs elements,
        ),
      )

little_bytes-eq-low_bytes : (n k x : ℕ) → little_bytes n k x ≡ low_bytes n (x / 2 ^ (8 * k))
unfolding little_bytes low_bytes
little_bytes-eq-low_bytes zero k x = refl
little_bytes-eq-low_bytes (suc n) k x =
    ap (λ l. byte x k ∷ l) (little_bytes-eq-low_bytes n (suc k) x ∙ rw (shift_byte x k))

codec_bytes :
    (w x : ℕ)
    → (little_encode buffer_encoder w x [] ≡ ok (low_bytes w x))
      × (big_encode buffer_encoder w x [] ≡ ok (reverse (low_bytes w x)))
codec_bytes w x =
    let (bytes, big, little) = little_encode-eq-reverse w x in
    let same : little_encode buffer_encoder w x [] ≡ ok (low_bytes w x) =
      little_encode-little_bytes w x ∙ ap ok (rw div-one at (little_bytes-eq-low_bytes w 0 x)) in
    let both : ok (low_bytes w x) ≡ ok (reverse bytes) = sym same ∙ little in
    let low : low_bytes w x ≡ reverse bytes = cc in
    (same, big ∙ ap ok (sym (ap reverse low ∙ reverse-reverse bytes)))

-- The codec whose bytes are those of the host's memory.
abbrev pub encode_as : ByteOrder → ℕ → ℕ → List ℕ → Outcome (List ℕ)
encode_as little_endian = little_encode buffer_encoder
encode_as big_endian = big_encode buffer_encoder

abbrev pub other_order : ByteOrder → ByteOrder
other_order little_endian = big_endian
other_order big_endian = little_endian

-- Copied from memory, an integer has the bytes of the codec of the host's byte order, little endian or
-- big endian, and those of the codec of the other byte order in the opposite order, whichever of the two
-- codecs the optimizer takes the place of.
pub general_encode-eq-reverse :
    (host : ByteOrder) (w x : ℕ)
    → (bytes : List ℕ) × (general_encode host buffer_encoder w x [] ≡ ok bytes)
      × (encode_as host w x [] ≡ ok bytes)
      × (encode_as (other_order host) w x [] ≡ ok (reverse bytes))
unfolding general_encode buffer_encoder_memcpy object_bytes
general_encode-eq-reverse little_endian w x =
    let (little, big) = codec_bytes w x in (low_bytes w x, refl, little, big)
general_encode-eq-reverse big_endian w x =
    let (little, big) = codec_bytes w x in
    (reverse (low_bytes w x), refl, big, little ∙ ap ok (sym (reverse-reverse (low_bytes w x))))
