-- ===== src/Serialization/Tests.antt =====
-- The codecs on small inputs: src/include/serialization.
use coherent.Common.{ℕ, ◌≡◌, refl, arith, List, [], ◌∷◌}
use coherent.Common.{Exception, ok, throws, Ends, ltb}
use coherent.Serialization.{
  buffer_encoder, buffer_decoder, buffer_get_char, buffer_decoder_memcpy, buffer_write_char,
}
use coherent.Serialization.Laws.{RoundTrips, Emits, Refines, buffer_encoder-IsEncoder}
use coherent.Serialization.Integer.{big_encode, big_decode, little_encode, little_decode}
use coherent.Serialization.Integer.RoundTrip.{big_encode-RoundTrips, little_encode-RoundTrips}
use coherent.Serialization.Integer.Truncated.{TakesNumber, EndsBefore, big_decode-Ends}
use coherent.Serialization.Container.{
  unique_container_encode, unique_container_decode, ordered_insert,
}
use coherent.Serialization.Container.RoundTrip.{unique_container_encode-RoundTrips}
use coherent.Serialization.Optimizer.{
  little_endian, general_encode, optimized_sequence_encode, optimized_sequence_decode,
}
use coherent.Serialization.Optimizer.RoundTrip.{
  general_encode-eq-reverse, optimized_sequence_encode-RoundTrips,
}
use coherent.Serialization.FileStream.{
  FileEncoder, FileDecoder, flush, file_decoder, file_write_char, file_encoder_memcpy,
  file_get_char, file_decoder_memcpy,
}
use coherent.Serialization.FileStream.Writing.{
  given, may_fall_short, file_encoder-Emits, WithinBuffer, file_encoder-WithinBuffer,
}
use coherent.Serialization.FileStream.Reading.{
  stream, unread, file_decoder-Refines, file_decoder-IsDecoder,
}
use coherent.Serialization.Files.{empty_sequence_unreadable}
use mathlib.Core.List.{reverse}

big_encode-RoundTrips_example :
    RoundTrips buffer_encoder-IsEncoder
      (big_encode buffer_encoder 4)
      (big_decode buffer_decoder 4)
      0x1020304
big_encode-RoundTrips_example =
    big_encode-RoundTrips buffer_encoder-IsEncoder 4 0x1020304 (omega arith)

little_encode-RoundTrips_example :
    RoundTrips buffer_encoder-IsEncoder
      (little_encode buffer_encoder 2)
      (little_decode buffer_decoder 2)
      0x102
little_encode-RoundTrips_example =
    little_encode-RoundTrips buffer_encoder-IsEncoder 2 0x102 (omega arith)

big_bytes_of : big_encode buffer_encoder 4 0x1020304 [] ≡ ok (1 ∷ 2 ∷ 3 ∷ 4 ∷ [])
unfolding big_encode buffer_write_char
big_bytes_of = refl

little_bytes_of : little_encode buffer_encoder 2 0x102 [] ≡ ok (2 ∷ 1 ∷ [])
unfolding little_encode buffer_write_char
little_bytes_of = refl

general_encode-eq-reverse_example :
    (bytes : List ℕ) × (general_encode little_endian buffer_encoder 8 258 [] ≡ ok bytes)
    × (little_encode buffer_encoder 8 258 [] ≡ ok bytes)
    × (big_encode buffer_encoder 8 258 [] ≡ ok (reverse bytes))
general_encode-eq-reverse_example = general_encode-eq-reverse little_endian 8 258

abbrev some_map : List (ℕ × List ℕ)
some_map = (7, 104 ∷ 105 ∷ []) ∷ (300, []) ∷ []

abbrev some_decoder : FileDecoder
some_decoder = record {
  fd =
      (0 ∷ 0 ∷ 0 ∷ 2 ∷ 0 ∷ [])
      ∷ (0 ∷ 0 ∷ 7 ∷ 0 ∷ 0 ∷ 0 ∷ 2 ∷ 104 ∷ 105 ∷ 0 ∷ 0 ∷ [])
      ∷ (1 ∷ 44 ∷ [])
      ∷ (0 ∷ 0 ∷ 0 ∷ 0 ∷ 99 ∷ [])
      ∷ [];
  buffer = [];
  pos = 9;
}

file_decoder-Refines_example :
    Refines unread Exception.runtime_error
      (file_get_char 2 some_decoder)
      (buffer_get_char (unread some_decoder))
    × Refines unread Exception.runtime_error
        (file_decoder_memcpy 2 30 some_decoder)
        (buffer_decoder_memcpy 30 (unread some_decoder))
file_decoder-Refines_example = file_decoder-Refines 1 30 some_decoder (omega arith)

abbrev short_of_space : FileEncoder
short_of_space = record {
  fd = record { written = []; accepts = 3 ∷ 1 ∷ [] };
  buffer = 1 ∷ 2 ∷ 3 ∷ [];
}

file_encoder-Emits_example :
    Emits given Exception.runtime_error may_fall_short
      (4 ∷ [])
      short_of_space
      (file_write_char 3 4 short_of_space)
    × Emits given Exception.runtime_error may_fall_short
        (4 ∷ 5 ∷ 6 ∷ 7 ∷ [])
        short_of_space
        (file_encoder_memcpy 3 (4 ∷ 5 ∷ 6 ∷ 7 ∷ []) short_of_space)
file_encoder-Emits_example =
    file_encoder-Emits 3 4 (4 ∷ 5 ∷ 6 ∷ 7 ∷ []) short_of_space (omega arith)

short_write :
    file_encoder_memcpy 3 (4 ∷ 5 ∷ 6 ∷ 7 ∷ []) short_of_space ≡ throws Exception.runtime_error
unfolding file_encoder_memcpy flush
short_write = refl

file_encoder-WithinBuffer_example :
    WithinBuffer 3 (file_write_char 3 4 short_of_space)
    × WithinBuffer 3 (file_encoder_memcpy 3 (4 ∷ 5 ∷ []) short_of_space)
file_encoder-WithinBuffer_example =
    file_encoder-WithinBuffer 3 4 (4 ∷ 5 ∷ []) short_of_space (omega arith)

big_decode-Ends_example :
    Ends
      (TakesNumber (file_decoder-IsDecoder 1) 8 8 some_decoder)
      (EndsBefore (file_decoder-IsDecoder 1) 8 some_decoder)
      (big_decode (file_decoder 2) 8 some_decoder)
big_decode-Ends_example = big_decode-Ends (file_decoder-IsDecoder 1) 8 some_decoder

unique_container_encode-RoundTrips_example :
    RoundTrips buffer_encoder-IsEncoder
      (unique_container_encode (little_encode buffer_encoder 2) (little_encode buffer_encoder 4))
      (unique_container_decode
        (little_decode buffer_decoder 2)
        (ordered_insert ltb)
        (little_decode buffer_decoder 4))
      (3 ∷ 500 ∷ [])
unique_container_encode-RoundTrips_example =
    unique_container_encode-RoundTrips buffer_encoder-IsEncoder (little_encode buffer_encoder 2)
      (little_decode buffer_decoder 2) (little_encode buffer_encoder 4)
      (little_decode buffer_decoder 4) (little_encode-RoundTrips buffer_encoder-IsEncoder 4) ltb
      (λ a b h. ground arith) (3 ∷ 500 ∷ []) ((refl, tt), (tt, tt))
      (
        little_encode-RoundTrips buffer_encoder-IsEncoder 2 3 (omega arith),
        (little_encode-RoundTrips buffer_encoder-IsEncoder 2 500 (omega arith), tt),
      )
      (omega arith)

optimized_sequence_encode-RoundTrips_example :
    RoundTrips buffer_encoder-IsEncoder
      (optimized_sequence_encode little_endian buffer_encoder 2 (big_encode buffer_encoder 4))
      (optimized_sequence_decode little_endian buffer_decoder 2 (big_decode buffer_decoder 4))
      (3 ∷ 500 ∷ [])
optimized_sequence_encode-RoundTrips_example =
    optimized_sequence_encode-RoundTrips little_endian buffer_encoder-IsEncoder 2
      (big_encode buffer_encoder 4) (big_decode buffer_decoder 4)
      (big_encode-RoundTrips buffer_encoder-IsEncoder 4) (3 ∷ 500 ∷ []) (omega arith) (omega arith)

abbrev size_left : FileDecoder
size_left = record { fd = (0 ∷ 0 ∷ []) ∷ []; buffer = 1 ∷ 0 ∷ 0 ∷ []; pos = 1 }

size_left-unread : unread size_left ≡ 0 ∷ 0 ∷ 0 ∷ 0 ∷ []
unfolding stream
size_left-unread = refl

empty_sequence_unreadable_example :
    (optimized_sequence_decode little_endian
        (file_decoder 8)
        1
        (big_decode (file_decoder 8) 4)
        size_left
      ≡ throws Exception.runtime_error)
    × (optimized_sequence_decode little_endian buffer_decoder 1
          (big_decode buffer_decoder 4)
          (unread size_left)
        ≡ ok ([], []))
empty_sequence_unreadable_example =
    empty_sequence_unreadable little_endian 7 1 size_left size_left-unread
