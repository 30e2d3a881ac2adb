-- ===== src/File/Wrap.antt =====
-- `file::read` at an offset of 4 GiB or more: the aligned offset is kept in 32 bits.
use coherent.Common.{
  ℕ, zero, suc, ◌+◌, ◌-◌, ◌*◌, ◌%◌, ◌^◌, ◌≤◌, ◌<◌, ◌≡◌, arith, List, sub64, add64, ◌==◌, Bool-cases,
  inl, inr,
}
use coherent.MultiBuffer.{Heap, CAllocator}
use coherent.File.{Answer, File, read}
use coherent.File.Align.{
  align_down_lem, align_up_lem, aligned_up, aligned_up-shift, aligned_up_bounds,
}
use native.Mathlib.Nat.{
  pow-suc, mod-le, mod-lt, one-le-pow, pow-le-pow_right, add-mul-mod_self_left,
}

pow_multiple : (d k : ℕ) → (q : ℕ) × (2 ^ (d + k) ≡ 2 ^ k * q)
pow_multiple zero k = (1, let same : 0 + k ≡ k = omega arith in rw same (omega arith))
pow_multiple (suc d) k =
    let (q, e) = pow_multiple d k in
    let step : suc d + k ≡ suc (d + k) = omega arith in
    (q * 2, rw (step, pow-suc 2 (d + k), e) (grind arith))

-- The offset within the page does not show the high half.
high_half : (v k : ℕ) → k ≤ 19 → (v + 2 ^ 32) % 2 ^ k ≡ v % 2 ^ k
high_half v k h =
    let (q, e) = pow_multiple (32 - k) k in
    let all : 32 - k + k ≡ 32 = omega arith in
    let whole : 2 ^ 32 ≡ 2 ^ k * q = rw all at e in rw whole (add-mul-mod_self_left v (2 ^ k) q)

-- Where the pages are at most 512 KiB and what is read lies, with a page behind it, below 4 GiB, a
-- read at an offset that is 4 GiB larger comes to the same as the read at the offset itself.
pub read-wraps :
    (c : CAllocator) (k : ℕ) (file : List ℕ) (answer : Answer) (f : File) (h : Heap)
    (size offset : ℕ)
    → k ≤ 19
    → offset + size + 2 ^ k ≤ 2 ^ 32
    → read c (2 ^ k) file answer f h size (offset + 2 ^ 32)
      ≡ read c (2 ^ k) file answer f h size offset
unfolding read
read-wraps c k file answer f h size offset page near = elim (Bool-cases (size == 0)) [
  | inl none_asked ↦ rw none_asked
  | inr some_asked ↦
      let shift = offset % 2 ^ k in
      let off = offset - shift in
      let e = aligned_up (offset + size) k in
      let page_pos : 0 < 2 ^ k = one-le-pow k 2 (omega arith) in
      let page_max : 2 ^ k ≤ 2 ^ 19 = pow-le-pow_right (omega arith) page in
      let before : shift ≤ offset = mod-le offset (2 ^ k) in
      let in_page : shift < 2 ^ k = mod-lt offset page_pos in
      let (after, close) = aligned_up_bounds (offset + size) k in
      let far_down : offset + 2 ^ 32 - shift ≡ off + 2 ^ 32 = omega arith in
      let far_off : (off + 2 ^ 32) % 2 ^ 32 ≡ off = omega arith in
      let near_off : off % 2 ^ 32 ≡ off = omega arith in
      let far_shift : sub64 (offset + 2 ^ 32) off % 2 ^ 32 ≡ shift = omega arith in
      let near_shift : sub64 offset off % 2 ^ 32 ≡ shift = omega arith in
      let far_sum : add64 (offset + 2 ^ 32) size ≡ offset + size + 2 ^ 32 = omega arith in
      let near_sum : add64 offset size ≡ offset + size = omega arith in
      let far_end : (e + 2 ^ 32) % 2 ^ 32 ≡ e = omega arith in
      let near_end : e % 2 ^ 32 ≡ e = omega arith in
      rw (
        some_asked,
        align_down_lem (offset + 2 ^ 32) k (omega arith) (omega arith),
        high_half offset k page,
        far_down,
        far_off,
        far_shift,
        far_sum,
        align_up_lem (offset + size + 2 ^ 32) k (omega arith) (omega arith),
        aligned_up-shift (offset + size) k (2 ^ 32) (high_half (offset + size) k page),
        far_end,
        align_down_lem offset k (omega arith) (omega arith),
        near_off,
        near_shift,
        near_sum,
        align_up_lem (offset + size) k (omega arith) (omega arith),
        near_end,
      )
]
