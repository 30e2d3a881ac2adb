-- ===== src/File.antt =====
-- Files that are read and written by `multi_buffer`s: src/util/file.cpp, src/include/util/file.h and
-- src/include/util/misc.h.
pub mod Align
pub mod Buffers
pub mod Reading
pub mod Writing
pub mod Wrap
mod Tests
use Prim.Native.Nat.{bit_and, bit_or}
use coherent.Common.{
  ℕ, zero, suc, ◌+◌, ◌-◌, ◌/◌, ◌%◌, ◌^◌, min, Bool, true, false, List, [], ◌∷◌, ◌++◌, length, take,
  drop, slice, overwrite, ltb, leb, ◌==◌, ◌&&◌, not, if◌then◌else◌, Option, none, some, add64,
  sub64, add32, sub32, replicate,
}
use coherent.Common.{Exception, Outcome, ok, throws, aborts, ◌>>=◌, ◌>>◌, assert}
use coherent.MultiBuffer.{
  Buffer, Heap, MultiBuffer, CAllocator, alloc_aligned, construct, load, or_throw,
}

-- The loop of `is_pow2`, for a number of at most `bits` bits.
pub is_pow2 : ℕ → ℕ → Bool
is_pow2 zero v = false
is_pow2 (suc bits) v =
    let rest = is_pow2 bits (v / 2) in
    if v == 0 then false else if bit_and v 1 == 1 then v == 1 else rest

-- Both of a `uint64_t` by a `uint32_t`; the assertion is that of the C library.
unfoldable pub align_down : ℕ → ℕ → Outcome ℕ
unfolding is_pow2
align_down v alignment = do assert (is_pow2 32 alignment); ok (sub64 v (bit_and v (alignment - 1)))

unfoldable pub align_up : ℕ → ℕ → Outcome ℕ
unfolding align_down
align_up v alignment = do
  res ← align_down v alignment
  ok (if ltb res v then add64 res alignment else res)

-- `class file`: a path, and a descriptor while the file is open.
pub record File : Type 0 where
  pub path : List ℕ
  pub fd : Option ℕ

abbrev pub is_open : File → Bool
is_open f = elim f.fd [ none ↦ false | some fd ↦ true ]

-- What the kernel answers to a transfer: any number of interruptions by signals, and then an error
-- or a number of bytes, which is at most what the file and the caller's memory allow.
pub data Answer : Type 0 where
  interrupted : Answer → Answer
  failed : Answer
  moved : ℕ → Answer

-- `preadv` of `total` bytes from `off` on, again after each interruption: the bytes that it reads.
unfoldable pub preadv : List ℕ → Answer → ℕ → ℕ → Option (List ℕ)
preadv contents (interrupted next) total off = preadv contents next total off
preadv contents failed total off = none
preadv contents (moved n) total off = some (take n (slice off total contents))

abbrev pub single_buf_size : ℕ
single_buf_size = 524288

-- `buf_len` of the buffer for the bytes from `cur_off` on.
unfoldable pub buf_len_at : ℕ → ℕ → ℕ
buf_len_at aligned_end cur_off =
    if leb aligned_end (add64 cur_off single_buf_size)
    then sub64 aligned_end cur_off % 2 ^ 32
    else single_buf_size

-- The loop that allocates the buffers, with `left` of them still to come, and the heap before them.
pub alloc_buffers :
    CAllocator → (alignment aligned_end left cur_off : ℕ) → Heap → Outcome (List Buffer)
unfolding buf_len_at
alloc_buffers c alignment aligned_end zero cur_off h =
    if ltb cur_off aligned_end then aborts else ok []
alloc_buffers c alignment aligned_end (suc left) cur_off h =
    if ltb cur_off aligned_end
    then (do
      mem ← alloc_aligned c h (buf_len_at aligned_end cur_off) alignment
      let b : Buffer = record { bytes = mem; uses = 1 }
      rest ←
          alloc_buffers c alignment aligned_end left (add64 cur_off single_buf_size) (h ++ b ∷ [])
      ok (b ∷ rest))
    else ok []

-- What the kernel writes into the buffers that it is given in a row.
unfoldable pub scatter : List Buffer → List ℕ → List Buffer
scatter [] bytes = []
scatter (b ∷ bs) bytes =
    record b { bytes = overwrite b.bytes 0 (take (length b.bytes) bytes) }
    ∷ scatter bs (drop (length b.bytes) bytes)

-- The `buffer_ptr`s of `n` buffers from `p` on.
unfoldable pub pointers : ℕ → ℕ → List ℕ
pointers p zero = []
pointers p (suc n) = p ∷ pointers (p + 1) n

-- How many buffers of 512 KiB `n` bytes take.
unfoldable pub num_bufs_of : ℕ → ℕ
num_bufs_of n = if n % single_buf_size == 0 then n / single_buf_size else n / single_buf_size + 1

-- How many bytes the buffers hold.
unfoldable pub room : List Buffer → ℕ
room [] = 0
room (b ∷ bs) = length b.bytes + room bs

-- The end of `read`, once `preadv` has returned.
unfoldable pub finish_read :
    Heap
    → List Buffer
    → Option (List ℕ)
    → (size shift aligned_size : ℕ) → Outcome (Heap × MultiBuffer)
unfolding scatter pointers
finish_read h bufs none size shift aligned_size = throws Exception.io_exception
finish_read h bufs (some bytes) size shift aligned_size =
    let err = length bytes in
    if not (err == aligned_size) && ltb err (add32 size shift)
    then throws Exception.io_exception
    else (do
      let h' = h ++ scatter bufs bytes
      m ← construct h' (pointers (length h) (length bufs)) (min size err) shift
      ok (h', m))

-- `file::read(size, offset)` of a file with `contents`, on pages of `page_size` bytes.
unfoldable pub read :
    CAllocator
    → (page_size : ℕ) → List ℕ
    → Answer
    → File
    → Heap
    → (size offset : ℕ) → Outcome (Heap × MultiBuffer)
unfolding align_up alloc_buffers num_bufs_of preadv room finish_read
read c page_size contents answer f h size offset = do
  assert (is_open f)
  if size == 0 then (do m ← construct h [] 0 0; ok (h, m)) else do
    down ← align_down offset page_size
    let aligned_off = down % 2 ^ 32
    let shift = sub64 offset aligned_off % 2 ^ 32
    up ← align_up (add64 offset size) page_size
    let aligned_end = up % 2 ^ 32
    let aligned_size = sub32 aligned_end aligned_off
    bufs ← alloc_buffers c page_size aligned_end (num_bufs_of aligned_size) aligned_off h
    finish_read h bufs (preadv contents answer (room bufs) aligned_off) size shift aligned_size

-- The loop of `write` over the buffers: the bytes that the `iovec`s show, and `size_left`.
pub gather : Heap → List ℕ → (buf_off size_left : ℕ) → Outcome (List ℕ × ℕ)
gather h [] buf_off size_left = ok ([], size_left)
gather h (p ∷ ps) buf_off size_left = do
  b ← load h p
  assert (leb buf_off (length b.bytes))
  let buf_len = min (sub32 (length b.bytes) buf_off) size_left
  (bytes, left) ← gather h ps 0 (sub32 size_left buf_len)
  ok (slice buf_off buf_len b.bytes ++ bytes, left)

-- A file after a transfer to it: a gap before `off` is filled with zeros.
unfoldable pub write_at : List ℕ → ℕ → List ℕ → List ℕ
write_at contents off bytes =
    take off (contents ++ replicate (off - length contents) 0)
    ++ bytes
    ++ drop (off + length bytes) contents

-- One call of `pwritev`: the file afterwards and the number of bytes. An interrupted call is an error.
unfoldable pub pwritev : List ℕ → Answer → ℕ → List ℕ → List ℕ × Option ℕ
unfolding write_at
pwritev contents (interrupted next) off bytes = (contents, none)
pwritev contents failed off bytes = (contents, none)
pwritev contents (moved n) off bytes =
    let count = min n (length bytes) in
    if count == 0
    then (contents, some 0)
    else (write_at contents off (take count bytes), some count)

-- The end of `write`.
unfoldable pub check_written : Option ℕ → ℕ → Outcome (Unit {0})
check_written none size = throws Exception.io_exception
check_written (some err) size = if err == size then ok tt else throws Exception.io_exception

-- `file::write(buf, offset)`: the contents of the file afterwards, and what the call comes to.
unfoldable pub write :
    List ℕ → Answer → Heap → MultiBuffer → ℕ → Outcome (List ℕ × Outcome (Unit {0}))
unfolding gather pwritev check_written
write contents answer h m offset = do
  (bytes, left) ← gather h m.buffers m.left_off m.size
  assert (left == 0)
  let (contents', err) = pwritev contents answer offset bytes
  ok (contents', check_written err m.size)

-- `O_CREAT | O_EXCL`
abbrev pub creating : ℕ
creating = 0xc0

-- `open_internal`, where `call` is the kernel's answer to `open` with the path, the flags and the mode.
unfoldable pub open_internal :
    (List ℕ → ℕ → ℕ → Option ℕ) → (flags : ℕ) → (create : Bool) → (mode : ℕ) → File → Outcome File
open_internal call flags create mode f = do
  assert (bit_and flags creating == 0)
  assert (not (is_open f))
  fd ←
      or_throw (call f.path (if create then bit_or flags creating else flags) mode)
        Exception.io_exception
  ok (record f { fd = some fd })

-- `close`, where the kernel reports an error or does not.
unfoldable pub close : (error : Bool) → File → Outcome File
close error f = do
  assert (is_open f)
  if error then throws Exception.io_exception else ok (record f { fd = none })
