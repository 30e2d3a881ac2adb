-- ===== src/MultiBuffer/Chunk.antt =====
-- One round of the loop of `do_rw`, with no wrap of `uint32_t`.
use coherent.Common.{
  ℕ, ◌+◌, ◌-◌, ◌^◌, ◌≤◌, ◌<◌, ◌≡◌, min, Bool, List, arith, ltb, if◌then◌else◌, ok, ◌>>=◌, true,
  false, leb, add32, sub32,
}
use coherent.MultiBuffer.{CAllocator, Heap, transfer, rw_chunk}

module _ (c : CAllocator) (reading : Bool) (align req_size req_off o n off left : ℕ) (h : Heap)
    (p : ℕ) (buf : List ℕ) (last : off + n < 2 ^ 32) (first : o + n < 2 ^ 32)
    (request : req_size + req_off < 2 ^ 32) (todo : left ≡ req_size - (off - req_off))
    (some_left : 0 < left) (some_bytes : 0 < n) where
  -- A buffer that ends before the request begins is passed over.
  pub chunk_before :
      off + n ≤ req_off
      → rw_chunk c reading align req_size req_off o n off left h p buf ≡ ok (h, p, buf, left)
  unfolding rw_chunk
  chunk_before e = let t : ltb req_off (add32 off n) ≡ false = ground arith in rw t

  -- Any other moves what is left of the request, or what the buffer has of it.
  pub chunk_within :
      req_off < off + n
      → rw_chunk c reading align req_size req_off o n off left h p buf ≡ (
          transfer c reading align h p
            (o + (req_off - off))
            (off - req_off)
            (min left (n - (req_off - off)))
            buf
          >>= λ r. ok (r.0, r.1, r.2, left - min left (n - (req_off - off))))
  unfolding rw_chunk
  chunk_within e =
      let t : ltb req_off (add32 off n) ≡ true = ground arith in
      let start : (if ltb off req_off then sub32 req_off off else 0) ≡ req_off - off =
        ground arith in
      let inside : ltb (req_off - off) n ≡ true = ground arith in
      let rest : sub32 n (req_off - off) ≡ n - (req_off - off) = omega arith in
      let reached : leb req_off (add32 off (req_off - off)) ≡ true = ground arith in
      let out : sub32 (add32 off (req_off - off)) req_off ≡ off - req_off = omega arith in
      let fits : leb (add32 (off - req_off) (min left (n - (req_off - off)))) req_size ≡ true =
        ground arith in
      let at : add32 o (req_off - off) ≡ o + (req_off - off) = omega arith in
      let less : leb (min left (n - (req_off - off))) left ≡ true = ground arith in
      let left_after : sub32 left (min left (n - (req_off - off)))
          ≡ left - min left (n - (req_off - off)) =
        omega arith in
      rw (t, start, inside, rest, reached, out, fits, at) (simp (less, left_after))
