-- ===== src/Serialization.antt =====
-- The encoders and decoders of src/include/serialization/encoders, seen from the codecs: the
-- operations that a codec calls, and the buffer pair, which is the reference for the others.
pub mod Laws
pub mod Integer
pub mod Container
pub mod FileStream
pub mod Optimizer
pub mod Files
mod Tests
use coherent.Common.{ℕ, ◌-◌, List, [], ◌∷◌, ◌++◌, length, take, drop, ltb, if◌then◌else◌}
use coherent.Common.{Exception, Outcome, ok, throws}

-- An encoder, whose state is an `S`. A `char` is its value as a byte, below 256.
pub record Encoder (S : Type 0) : Type 0 where
  pub write_char : ℕ → S → Outcome S
  pub memcpy : List ℕ → S → Outcome S

-- A decoder: a call returns what was read and the state after it.
pub record Decoder (D : Type 0) : Type 0 where
  pub get_char : D → Outcome (ℕ × D)
  pub memcpy : ℕ → D → Outcome (List ℕ × D)

-- `buffer_encoder`: the state is the vector `buffer_`.
unfoldable pub buffer_write_char : ℕ → List ℕ → Outcome (List ℕ)
buffer_write_char c buffer = ok (buffer ++ c ∷ [])

unfoldable pub buffer_encoder_memcpy : List ℕ → List ℕ → Outcome (List ℕ)
buffer_encoder_memcpy src buffer = ok (buffer ++ src)

abbrev pub buffer_encoder : Encoder (List ℕ)
buffer_encoder = record { write_char = buffer_write_char; memcpy = buffer_encoder_memcpy }

-- `buffer_decoder`: the state is the characters from `begin_` to `end_`.
unfoldable pub buffer_get_char : List ℕ → Outcome (ℕ × List ℕ)
buffer_get_char [] = throws Exception.out_of_range
buffer_get_char (c ∷ begin) = ok (c, begin)

unfoldable pub buffer_decoder_memcpy : ℕ → List ℕ → Outcome (List ℕ × List ℕ)
buffer_decoder_memcpy n begin =
    if ltb (length begin) n then throws Exception.out_of_range else ok (take n begin, drop n begin)

abbrev pub buffer_decoder : Decoder (List ℕ)
buffer_decoder = record { get_char = buffer_get_char; memcpy = buffer_decoder_memcpy }
