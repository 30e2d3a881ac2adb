-- ===== src/Serialization/FileStream.antt =====
-- `file_encoder` and `file_decoder`: src/include/serialization/encoders/file_encoder.h.
-- `size` is `bufferSize_`. The system calls are the file's: what `write` and `read` transfer, up to
-- what they are asked for, is part of the file's state.
pub mod Writing
pub mod Reading
use coherent.Common.{
  ℕ, zero, suc, ◌+◌, ◌-◌, min, List, [], ◌∷◌, ◌++◌, length, take, drop, get_elem?,
}
use coherent.Common.{ltb, leb, ◌==◌, if◌then◌else◌, Option, none, some}
use coherent.Common.{Exception, Outcome, ok, throws, faults, ◌>>=◌}
use coherent.Serialization.{Encoder, Decoder}

-- A file open for writing: `accepts` are the numbers of bytes that the calls of `write` to come
-- take at most, a failed call none. The calls after these take everything.
pub record OutFile : Type 0 where
  pub written : List ℕ
  pub accepts : List ℕ

-- `write(fd, bytes, bytes.size())`, which returns how many bytes it took.
unfoldable pub fd_write : List ℕ → OutFile → ℕ × OutFile
fd_write bytes f = elim f.accepts [
  | [] ↦ (length bytes, record f { written = f.written ++ bytes })
  | n ∷ later ↦
      (min n (length bytes), record { written = f.written ++ take n bytes; accepts = later })
]

pub record FileEncoder : Type 0 where
  pub fd : OutFile
  pub buffer : List ℕ

unfoldable pub flush : FileEncoder → Outcome FileEncoder
unfolding fd_write
flush e =
    let (len, fd) = fd_write e.buffer e.fd in
    if ltb 0 (length e.buffer)
    then if len == length e.buffer
      then ok (record { fd = fd; buffer = [] })
      else throws Exception.runtime_error
    else ok e

-- `if (buffer_.size() >= bufferSize_) flush();`
unfoldable pub make_room : ℕ → FileEncoder → Outcome FileEncoder
unfolding flush
make_room size e = if leb size (length e.buffer) then flush e else ok e

unfoldable pub file_write_char : ℕ → ℕ → FileEncoder → Outcome FileEncoder
unfolding make_room
file_write_char size c e =
    make_room size e >>= λ e'. ok (record e' { buffer = e'.buffer ++ c ∷ [] })

-- The loop of `memcpy`, whose length is that of `src`. It runs for at most `fuel` rounds, and faults
-- if that is too few. After `make_room` the buffer is no longer than `size`.
file_memcpy_loop : ℕ → ℕ → List ℕ → FileEncoder → Outcome FileEncoder
unfolding make_room
file_memcpy_loop size zero src e = faults
file_memcpy_loop size (suc fuel) src e = make_room size e >>= λ e'.
    let n = min (length src) (size - length e'.buffer) in
    let filled = record e' { buffer = e'.buffer ++ take n src } in
    let rest = file_memcpy_loop size fuel (drop n src) filled in
    if length src - n == 0 then ok filled else rest

unfoldable pub file_encoder_memcpy : ℕ → List ℕ → FileEncoder → Outcome FileEncoder
unfolding file_memcpy_loop
file_encoder_memcpy size src e = file_memcpy_loop size (suc (length src)) src e

abbrev pub file_encoder : ℕ → Encoder FileEncoder
file_encoder size = record { write_char = file_write_char size; memcpy = file_encoder_memcpy size }

-- A file open for reading: each element is what one more call of `read` finds, no bytes at the end
-- of the file or where the call fails. What a call does not ask for is left to the next one.
abbrev pub InFile : Type 0
InFile = List (List ℕ)

-- The bytes that a call did not ask for are found by the next one.
unfoldable pub put_back : List ℕ → InFile → InFile
put_back [] later = later
put_back (b ∷ bs) later = (b ∷ bs) ∷ later

-- `read(fd, buf, n)`
unfoldable pub fd_read : ℕ → InFile → List ℕ × InFile
unfolding put_back
fd_read n [] = ([], [])
fd_read n (found ∷ later) = (take n found, put_back (drop n found) later)

pub record FileDecoder : Type 0 where
  pub fd : InFile
  pub buffer : List ℕ
  pub pos : ℕ

unfoldable pub advance : ℕ → FileDecoder → Outcome FileDecoder
unfolding fd_read
advance size d =
    let (bytes, fd) = fd_read size d.fd in
    if length bytes == 0
    then throws Exception.runtime_error
    else ok (record { fd = fd; buffer = bytes; pos = 0 })

-- `if (pos_>=buffer_.size()) advance();`
unfoldable pub refill : ℕ → FileDecoder → Outcome FileDecoder
unfolding advance
refill size d = if leb (length d.buffer) d.pos then advance size d else ok d

-- `buffer_[pos_++]`, where a position past the end is undefined.
unfoldable pub next_char : FileDecoder → Outcome (ℕ × FileDecoder)
next_char d = elim (get_elem? d.buffer d.pos) [
  | none ↦ faults
  | some c ↦ ok (c, record d { pos = d.pos + 1 })
]

unfoldable pub file_get_char : ℕ → FileDecoder → Outcome (ℕ × FileDecoder)
unfolding refill next_char
file_get_char size d = refill size d >>= next_char

-- The loop of `memcpy`, after which `dest` holds the bytes that are returned. It faults if `fuel` rounds
-- are too few.
file_read_loop : ℕ → ℕ → ℕ → FileDecoder → Outcome (List ℕ × FileDecoder)
unfolding refill
file_read_loop size zero n d = faults
file_read_loop size (suc fuel) n d = refill size d >>= λ d'.
    let count = min n (length d'.buffer - d'.pos) in
    let bytes = take count (drop d'.pos d'.buffer) in
    let moved = record d' { pos = d'.pos + count } in
    let rest = file_read_loop size fuel (n - count) moved in
    if n - count == 0 then ok (bytes, moved) else rest >>= λ r. ok (bytes ++ r.0, r.1)

unfoldable pub file_decoder_memcpy : ℕ → ℕ → FileDecoder → Outcome (List ℕ × FileDecoder)
unfolding file_read_loop
file_decoder_memcpy size n d = file_read_loop size (suc n) n d

abbrev pub file_decoder : ℕ → Decoder FileDecoder
file_decoder size = record { get_char = file_get_char size; memcpy = file_decoder_memcpy size }
