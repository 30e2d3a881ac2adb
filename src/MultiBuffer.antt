-- ===== src/MultiBuffer.antt =====
-- A request on a list of shared buffers: src/util/multi_buffer.cpp,
-- src/include/util/multi_buffer.h.
-- Buffers live in a heap and are shared by reference counts, as `boost::shared_ptr` shares them.
-- A byte is only moved, never computed with, so a byte is any number.
pub mod Counts
pub mod Chunk
pub mod Cow
pub mod Read
pub mod Patch
pub mod Write
pub mod Effect
pub mod Construct
mod Tests
use coherent.Common.{
  ℕ, ◌+◌, ◌-◌, ◌%◌, ◌^◌, ◌≤◌, ◌≡◌, min, Bool, true, false, Option, none, some, List, [], ◌∷◌, ◌++◌,
  ltb, leb, ◌==◌, if◌then◌else◌, not, length, get_elem?, set, slice, overwrite, add32, sub32,
  Exception, Outcome, ok, throws, aborts, faults, ◌>>=◌, ◌>>◌, assert,
}

-- `class buffer`: its `size` is the length of `bytes`. `uses` counts the `buffer_ptr`s to it.
pub record Buffer : Type 0 where
  pub bytes : List ℕ
  pub uses : ℕ

-- A `buffer_ptr` is an index into the heap.
abbrev pub Heap : Type 0
Heap = List Buffer

pub record MultiBuffer : Type 0 where
  pub buffers : List ℕ
  pub size : ℕ
  pub left_off : ℕ

-- The C library's allocation: `none` is failure, and the memory of a success has the size that was
-- asked for and any contents.
pub record CAllocator : Type 0 where
  pub malloc : Heap → ℕ → Option (List ℕ)
  pub posix_memalign : Heap → ℕ → ℕ → Option (List ℕ)
  pub malloc_size : (h : Heap) (n : ℕ) (m : List ℕ) → malloc h n ≡ some m → length m ≡ n
  pub posix_memalign_size :
      (h : Heap) (a n : ℕ) (m : List ℕ) → posix_memalign h a n ≡ some m → length m ≡ n

-- `buffer::NO_ALIGNMENT`
abbrev pub no_alignment : ℕ
no_alignment = 0

abbrev pub or_throw {ℓ} : {A : Type ℓ} → Option A → Exception → Outcome A
or_throw none e = throws e
or_throw (some a) e = ok a

abbrev pub load : Heap → ℕ → Outcome Buffer
load h p = elim (get_elem? h p) [ none ↦ faults | some b ↦ ok b ]

unfoldable pub alloc_aligned : CAllocator → Heap → ℕ → ℕ → Outcome (List ℕ)
alloc_aligned c h size alignment =
    or_throw
      (if alignment == no_alignment then c.malloc h size else c.posix_memalign h alignment size)
      Exception.bad_alloc

-- `(*it)->get_data()[i ..] = ys`
pub store : Heap → ℕ → ℕ → List ℕ → Outcome Heap
store h p i ys = do b ← load h p; ok (set h p (record b { bytes = overwrite b.bytes i ys }))

-- The copy that `*it` is replaced by if another `buffer_ptr` shares the buffer.
unfoldable pub ensure_unique : CAllocator → Heap → ℕ → ℕ → Outcome (Heap × ℕ)
ensure_unique c h p align = do
  b ← load h p
  if b.uses == 1 then ok (h, p) else do
    mem ← alloc_aligned c h (length b.bytes) align
    let copy : Buffer = record { bytes = overwrite mem 0 b.bytes; uses = 1 }
    ok (set h p (record b { uses = b.uses - 1 }) ++ (copy ∷ []), length h)

-- The two branches of `if (READ)`: the heap, `*it`, and `buf` afterwards.
pub transfer : CAllocator → Bool → ℕ → Heap → ℕ → ℕ → ℕ → ℕ → List ℕ → Outcome (Heap × ℕ × List ℕ)
unfolding ensure_unique store
transfer c true align h p i out_off size buf = do
  b ← load h p
  ok (h, p, overwrite buf out_off (slice i size b.bytes))
transfer c false align h p i out_off size buf = do
  (h', p') ← ensure_unique c h p align
  h'' ← store h' p' i (slice out_off size buf)
  ok (h'', p', buf)

-- The body of the loop for a buffer that holds `buf_size` bytes from `off_in_buf` on: the heap,
-- `*it`, `buf` and `size_left` afterwards.
pub rw_chunk :
    CAllocator
    → Bool
    → (align req_size req_off : ℕ) → (off_in_buf buf_size off size_left : ℕ) → Heap
    → ℕ
    → List ℕ
    → Outcome (Heap × ℕ × List ℕ × ℕ)
rw_chunk c reading align req_size req_off off_in_buf buf_size off size_left h p buf =
    if ltb req_off (add32 off buf_size)
    then (do
      let buf_start = if ltb off req_off then sub32 req_off off else 0
      assert (ltb buf_start buf_size)
      let size = min size_left (sub32 buf_size buf_start)
      assert (leb req_off (add32 off buf_start))
      let out_off = sub32 (add32 off buf_start) req_off
      assert (leb (add32 out_off size) req_size)
      (h', p', buf') ← transfer c reading align h p (add32 off_in_buf buf_start) out_off size buf
      assert (leb size size_left)
      ok (h', p', buf', sub32 size_left size))
    else ok (h, p, buf, size_left)

-- The loop of `do_rw` from `it` on; `off_in_buf` is `left_off` at the first buffer and then 0.
pub rw_loop :
    CAllocator
    → Bool
    → (align req_size req_off : ℕ) → List ℕ
    → (off_in_buf off size_left : ℕ) → Heap
    → List ℕ
    → Outcome (Heap × List ℕ × List ℕ)
rw_loop c reading align req_size req_off [] off_in_buf off size_left h buf =
    if size_left == 0 then ok (h, [], buf) else aborts
rw_loop c reading align req_size req_off (p ∷ ps) off_in_buf off size_left h buf =
    if size_left == 0 then ok (h, p ∷ ps, buf) else (do
      b ← load h p
      let buf_size = sub32 (length b.bytes) off_in_buf
      assert (not (buf_size == 0))
      (h', p', buf', left) ←
          rw_chunk c reading align req_size req_off off_in_buf buf_size off size_left h p buf
      (h'', ps', buf'') ←
          rw_loop c reading align req_size req_off ps 0 (add32 off buf_size) left h' buf'
      ok (h'', p' ∷ ps', buf''))

-- The sum of the sizes, in `uint32_t`.
unfoldable pub real_size : Heap → List ℕ → ℕ → Outcome ℕ
real_size h [] acc = ok acc
real_size h (p ∷ ps) acc = do b ← load h p; real_size h ps (add32 acc (length b.bytes))

first_holds : Heap → ℕ → List ℕ → Outcome (Unit {0})
first_holds h left_off [] = ok tt
first_holds h left_off (p ∷ ps) = do b ← load h p; assert (ltb left_off (length b.bytes))

-- `multi_buffer(buffers, size, left_off)`, which takes the caller's list over.
unfoldable pub construct : Heap → List ℕ → (size left_off : ℕ) → Outcome MultiBuffer
unfolding real_size first_holds
construct h ps size left_off = do
  total ← real_size h ps 0
  assert (leb (add32 left_off size) total)
  first_holds h left_off ps
  ok (record { buffers = ps; size = size; left_off = left_off })

-- One more `buffer_ptr` to each buffer.
pub retain : Heap → List ℕ → Outcome Heap
retain h [] = ok h
retain h (p ∷ ps) = do b ← load h p; retain (set h p (record b { uses = b.uses + 1 })) ps

-- The copy constructor.
pub copy : Heap → MultiBuffer → Outcome (Heap × MultiBuffer)
unfolding retain
copy h m = do h' ← retain h m.buffers; ok (h', m)

abbrev is_empty : List ℕ → Bool
is_empty [] = true
is_empty (p ∷ ps) = false

-- `do_rw<READ>`: the heap, `this`, and `buf` afterwards.
unfoldable pub do_rw :
    CAllocator
    → Bool
    → Heap
    → MultiBuffer
    → List ℕ
    → (req_size req_off align : ℕ) → Outcome (Heap × MultiBuffer × List ℕ)
unfolding rw_loop rw_chunk transfer
do_rw c reading h m buf req_size req_off align = do
  assert (leb (add32 req_size req_off) m.size)
  if req_size == 0 then ok (h, m, buf) else do
    assert (not (is_empty m.buffers))
    (h', ps, buf') ← rw_loop c reading align req_size req_off m.buffers m.left_off 0 req_size h buf
    ok (h', record m { buffers = ps }, buf')

-- `read(buf, size, off)`: what `buf` holds afterwards.
unfoldable pub read : CAllocator → Heap → MultiBuffer → List ℕ → ℕ → ℕ → Outcome (List ℕ)
unfolding do_rw
read c h m buf size off = do (h', m', buf') ← do_rw c true h m buf size off no_alignment; ok buf'

-- `write(buf, size, off, align)`
unfoldable pub write :
    CAllocator → Heap → MultiBuffer → List ℕ → (size off align : ℕ) → Outcome (Heap × MultiBuffer)
unfolding do_rw
write c h m buf size off align = do
  (h', m', buf') ← do_rw c false h m buf size off align
  ok (h', m')
