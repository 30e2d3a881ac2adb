-- ===== src/Serialization/Integer/RoundTrip.antt =====
-- Integers are read back from the bytes that they were written as, in either order.
use coherent.Common.{ℕ, zero, suc, ◌+◌, ◌*◌, ◌^◌, ◌<◌, ◌≡◌, refl, sym, ap, ◌∙◌, arith}
use coherent.Common.{List, [], ◌∷◌, ◌++◌, append_assoc, ok}
use coherent.Common.Bits.{and_low_byte}
use coherent.Serialization.{Encoder, buffer_decoder, buffer_encoder, buffer_write_char}
use coherent.Serialization.Laws.{IsEncoder, RoundTrips}
use coherent.Serialization.Integer.{
  big_encode_loop, little_encode_loop, big_encode, big_decode, little_encode, little_decode,
}
use coherent.Serialization.Integer.Bytes.{
  byte, big_bytes, little_bytes, big_encode_loop-big_bytes, little_encode_loop-little_bytes,
  big_decode_loop-big_bytes, little_decode_loop-little_bytes,
}
use mathlib.Core.List.{reverse, reverse-append, append-nil}
use native.Mathlib.Nat.{div-eq_of_lt, mod-one, mod-mod}

module _ {S : Type 0} {enc : Encoder S} (law : IsEncoder enc) (w x : ℕ)
    (fits : x < 2 ^ (8 * w)) where
  -- Whatever the encoder, an integer of `w` bytes is written big endian as bytes from which
  -- `decode` restores it, and it leaves what follows them.
  pub big_encode-RoundTrips : RoundTrips law (big_encode enc w) (big_decode buffer_decoder w) x
  unfolding big_encode big_decode
  big_encode-RoundTrips = (
    big_bytes w x,
    λ s. big_encode_loop-big_bytes law w x s,
    λ more. rw (div-eq_of_lt fits) at (big_decode_loop-big_bytes w w x more fits),
  )

  -- The same of the little endian codec.
  pub little_encode-RoundTrips :
      RoundTrips law (little_encode enc w) (little_decode buffer_decoder w) x
  unfolding little_encode little_decode
  little_encode-RoundTrips = (
    little_bytes w 0 x,
    λ s. little_encode_loop-little_bytes law w 0 x s,
    λ more. rw (mod-one x) at (little_decode_loop-little_bytes w w 0 x more fits (omega arith)),
  )

little_bytes_last :
    (n k x : ℕ) → little_bytes (suc n) k x ≡ little_bytes n k x ++ byte x (n + k) ∷ []
unfolding little_bytes
little_bytes_last zero k x = let here : 0 + k ≡ k = omega arith in rw here
little_bytes_last (suc n) k x =
    let next : n + suc k ≡ suc n + k = omega arith in
    ap (λ l. byte x k ∷ l) (little_bytes_last n (suc k) x ∙ rw next)

little_bytes-eq-reverse : (n x : ℕ) → little_bytes n 0 x ≡ reverse (big_bytes n x)
unfolding big_bytes
little_bytes-eq-reverse zero x = unfold little_bytes in refl
little_bytes-eq-reverse (suc n) x =
    let here : n + 0 ≡ n = omega arith in
    little_bytes_last n 0 x
    ∙ rw (here, little_bytes-eq-reverse n x) (sym (reverse-append (byte x n ∷ []) (big_bytes n x)))

big_encode_loop-buffer :
    (k x : ℕ) (s : List ℕ) → big_encode_loop buffer_encoder k x s ≡ ok (s ++ big_bytes k x)
unfolding big_encode_loop big_bytes buffer_write_char
big_encode_loop-buffer zero x s = rw append-nil
big_encode_loop-buffer (suc k) x s =
    big_encode_loop-buffer k x (s ++ byte x k ∷ [])
    ∙ ap ok (append_assoc s (byte x k ∷ []) (big_bytes k x))

little_encode_loop-buffer :
    (n k x : ℕ) (s : List ℕ)
    → little_encode_loop buffer_encoder n k x s ≡ ok (s ++ little_bytes n k x)
unfolding little_encode_loop little_bytes buffer_write_char
little_encode_loop-buffer zero k x s = rw append-nil
little_encode_loop-buffer (suc n) k x s =
    rw (and_low_byte, mod-mod) (little_encode_loop-buffer n (suc k) x (s ++ byte x k ∷ []))
    ∙ ap ok (append_assoc s (byte x k ∷ []) (little_bytes n (suc k) x))

pub little_encode-little_bytes :
    (w x : ℕ) → little_encode buffer_encoder w x [] ≡ ok (little_bytes w 0 x)
unfolding little_encode
little_encode-little_bytes w x = little_encode_loop-buffer w 0 x []

-- The two codecs write the same bytes of an integer in opposite orders.
pub little_encode-eq-reverse :
    (w x : ℕ)
    → (bytes : List ℕ) × (big_encode buffer_encoder w x [] ≡ ok bytes)
      × (little_encode buffer_encoder w x [] ≡ ok (reverse bytes))
unfolding big_encode
little_encode-eq-reverse w x = (
  big_bytes w x,
  big_encode_loop-buffer w x [],
  little_encode-little_bytes w x ∙ ap ok (little_bytes-eq-reverse w x),
)
