-- ===== src/Serialization/Files.antt =====
-- A value that is written to a file by a codec and read back: the codecs of one family, the file
-- encoder with its last `flush`, and the file decoder together.
use coherent.Common.{ℕ, suc, ◌*◌, ◌^◌, ◌<◌, ◌≡◌, refl, ◌∙◌, arith, Bool, ltb}
use coherent.Common.{List, [], ◌∷◌, ◌++◌, length, All}
use coherent.Common.{Exception, Outcome, ok, throws, aborts, faults, Ends-cases, ◌>>=◌, inl, inr}
use coherent.Serialization.{
  Encoder, Decoder, buffer_decoder, buffer_get_char, buffer_decoder_memcpy,
}
use coherent.Serialization.Laws.{IsEncoder, Emits, Refines, RoundTrips}
use coherent.Serialization.Integer.{big_encode, big_decode, char_encode, char_decode}
use coherent.Serialization.Integer.RoundTrip.{big_encode-RoundTrips}
use coherent.Serialization.Integer.Truncated.{big_decode-Refines}
use coherent.Serialization.Container.{
  sequence_encode, sequence_decode, unique_container_encode, unique_container_decode, pair_encode,
  pair_decode, ordered_insert,
}
use coherent.Serialization.Container.RoundTrip.{
  IsAscending, sequence_encode-RoundTrips, unique_container_encode-RoundTrips,
  pair_encode-RoundTrips,
}
use coherent.Serialization.FileStream.{FileEncoder, FileDecoder, flush, file_decoder}
use coherent.Serialization.FileStream.Writing.{
  given, may_fall_short, flush-Ends, file_encoder-IsEncoder,
}
use coherent.Serialization.FileStream.Reading.{unread, file_decoder-IsDecoder, memcpy_at_end}
use coherent.Serialization.Optimizer.{ByteOrder, array_values, optimized_sequence_decode}
use native.Mathlib.Nat.{mul-zero}

-- An encoder that has just been constructed over an empty file whose writes are all complete.
abbrev pub fresh : FileEncoder
fresh = record { fd = record { written = []; accepts = [] }; buffer = [] }

-- A decoder has the input of a buffer decoder that returns `a`: it returns `a`, too.
returns_reference :
    {A : Type 0} (m : Outcome (A × FileDecoder)) {a : A} {more : List ℕ}
    → Refines unread Exception.runtime_error m (ok (a, more))
    → (d : FileDecoder) × (m ≡ ok (a, d)) × (unread d ≡ more)
returns_reference (ok (b, d)) h = (d, cc, cc)
returns_reference (throws e) h = cc h.1
returns_reference aborts h = elim h [ ]
returns_reference faults h = elim h [ ]

-- The bytes in the file of an encoder that has returned.
abbrev pub file_of : Outcome FileEncoder → List ℕ
file_of (ok e) = e.fd.written
file_of (throws x) = []
file_of aborts = []
file_of faults = []

flush_after :
    (bytes : List ℕ) (m : Outcome FileEncoder)
    → Emits given Exception.runtime_error may_fall_short bytes fresh m
    → (e : FileEncoder) × ((m >>= flush) ≡ ok e) × (e.fd.written ≡ bytes)
flush_after bytes (ok e) h = elim (Ends-cases _ _ (flush e) (flush-Ends e)) [
  | inl (e', returned, p) ↦ (e', returned, p.1 ∙ h.0)
  | inr (x, thrown, p) ↦ let short = h.1 p.1 in cc
]
flush_after bytes (throws x) h = let short = h.1 in cc
flush_after bytes aborts h = elim h [ ]
flush_after bytes faults h = elim h [ ]

module _ {A : Type 0} (size : ℕ) (some_room : 0 < size)
    (encode : A → FileEncoder → Outcome FileEncoder) (decode : List ℕ → Outcome (A × List ℕ))
    (decode_file : FileDecoder → Outcome (A × FileDecoder))
    (same : (d : FileDecoder)
      → Refines unread Exception.runtime_error (decode_file d) (decode (unread d))) where
  -- A value whose codec reads it back from memory, and does on a file what it does in memory, is
  -- read back from a file.
  pub read_back :
      (a : A) (d : FileDecoder) (more : List ℕ)
      → RoundTrips (file_encoder-IsEncoder size some_room) encode decode a
      → unread d ≡ file_of (encode a fresh >>= flush) ++ more
      → (e : FileEncoder) × ((encode a fresh >>= flush) ≡ ok e)
        × (d' : FileDecoder) × (decode_file d ≡ ok (a, d'))
        × (unread d' ≡ more)
  read_back a d more (bytes, written, read) input =
      let (e, returned, held) = flush_after bytes (encode a fresh) (written fresh) in
      let found : unread d ≡ bytes ++ more = rw (returned, held) at input in
      let (d', decoded, rest) =
        returns_reference (decode_file d) (rw (found, read more) at (same d)) in
      (e, returned, d', decoded, rest)

-- A `std::map<uint32_t, std::string>`, as the pairs that its iterators run through, and its codec in
-- the big endian family.
module _ {S : Type 0} (enc : Encoder S) where
  unfoldable pub string_encode : List ℕ → S → Outcome S
  unfolding sequence_encode char_encode big_encode
  string_encode = sequence_encode (char_encode enc) (big_encode enc 4)

  unfoldable pub map_encode : List (ℕ × List ℕ) → S → Outcome S
  unfolding unique_container_encode pair_encode big_encode string_encode
  map_encode =
      unique_container_encode (pair_encode (big_encode enc 4) string_encode) (big_encode enc 4)

abbrev pub key_before : ℕ × List ℕ → ℕ × List ℕ → Bool
key_before p q = ltb p.0 q.0

module _ {D : Type 0} (dec : Decoder D) where
  unfoldable pub string_decode : D → Outcome (List ℕ × D)
  unfolding sequence_decode char_decode big_decode
  string_decode = sequence_decode (char_decode dec) (big_decode dec 4)

  unfoldable pub map_decode : D → Outcome (List (ℕ × List ℕ) × D)
  unfolding unique_container_decode pair_decode big_decode string_decode ordered_insert
  map_decode =
      unique_container_decode (pair_decode (big_decode dec 4) string_decode)
        (ordered_insert key_before) (big_decode dec 4)

module _ {S : Type 0} {enc : Encoder S} (law : IsEncoder enc) where
  char_encode-RoundTrips : (c : ℕ) → RoundTrips law (char_encode enc) (char_decode buffer_decoder) c
  unfolding char_encode char_decode buffer_get_char
  char_encode-RoundTrips c = (c ∷ [], law.writes c, λ more. refl)

  All-chars : (l : List ℕ) → All (RoundTrips law (char_encode enc) (char_decode buffer_decoder)) l
  All-chars [] = tt
  All-chars (c ∷ l) = (char_encode-RoundTrips c, All-chars l)

  pub string_encode-RoundTrips :
      (l : List ℕ)
      → length l < 2 ^ 32
      → RoundTrips law (string_encode enc) (string_decode buffer_decoder) l
  unfolding string_encode string_decode
  string_encode-RoundTrips l fits =
      sequence_encode-RoundTrips law (char_encode enc) (char_decode buffer_decoder)
        (big_encode enc 4) (big_decode buffer_decoder 4) (λ n. big_encode-RoundTrips law 4 n) l
        (All-chars l) fits

  All-pairs :
      (xs : List (ℕ × List ℕ))
      → All (λ p. (p.0 < 2 ^ 32) × (length p.1 < 2 ^ 32)) xs
      → All
          (RoundTrips law
            (pair_encode (big_encode enc 4) (string_encode enc))
            (pair_decode (big_decode buffer_decoder 4) (string_decode buffer_decoder)))
          xs
  All-pairs [] h = tt
  All-pairs (p ∷ xs) h = (
    pair_encode-RoundTrips law _ _ _ _ p (big_encode-RoundTrips law 4 p.0 h.0.0)
        (string_encode-RoundTrips p.1 h.0.1),
    All-pairs xs h.1,
  )

  pub map_encode-RoundTrips :
      (xs : List (ℕ × List ℕ))
      → IsAscending key_before xs
      → All (λ p. (p.0 < 2 ^ 32) × (length p.1 < 2 ^ 32)) xs
      → length xs < 2 ^ 32
      → RoundTrips law (map_encode enc) (map_decode buffer_decoder) xs
  unfolding map_encode map_decode
  map_encode-RoundTrips xs ascending elements fits =
      unique_container_encode-RoundTrips law _ _ (big_encode enc 4) (big_decode buffer_decoder 4)
        (λ n. big_encode-RoundTrips law 4 n) key_before (λ p q h. ground arith) xs ascending
        (All-pairs xs elements) fits

-- An array, or a string, that the sequence optimizer has written with no element cannot be read back
-- at the end of a file: where just its size is left, a `file_decoder` throws, though nothing is
-- missing, and a `buffer_decoder` returns it.
pub empty_sequence_unreadable :
    (host : ByteOrder) (k w : ℕ) (d : FileDecoder)
    → unread d ≡ 0 ∷ 0 ∷ 0 ∷ 0 ∷ []
    → (optimized_sequence_decode host
          (file_decoder (suc k))
          w
          (big_decode (file_decoder (suc k)) 4)
          d
        ≡ throws Exception.runtime_error)
      × (optimized_sequence_decode host buffer_decoder w (big_decode buffer_decoder 4) (unread d)
          ≡ ok ([], []))
unfolding optimized_sequence_decode
empty_sequence_unreadable host k w d input =
    let zero_size : big_decode buffer_decoder 4 (unread d) ≡ ok (0, []) =
      rw input (unfold big_decode buffer_get_char in refl) in
    let (d', decoded, none_left) =
      returns_reference _ (rw zero_size at (big_decode-Refines (file_decoder-IsDecoder k) 4 d)) in
    (
      rw (decoded, memcpy_at_end k (w * 0) d' none_left),
      rw zero_size (unfold buffer_decoder_memcpy array_values in rw mul-zero),
    )
