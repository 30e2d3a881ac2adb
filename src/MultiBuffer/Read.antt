-- ===== src/MultiBuffer/Read.antt =====
-- `multi_buffer::read` against the bytes that the buffers hold.
use coherent.Common.{
  ℕ, ◌+◌, ◌-◌, ◌^◌, ◌≤◌, ◌<◌, ◌≡◌, ◌⊎◌, ◌∙◌, ap, refl, sym, min, List, [], ◌∷◌, ◌++◌, arith, ok,
  true, false, inl, inr, Bool-cases, length, drop, take, slice, overwrite, append_assoc,
  length-append, length-take, length-drop, take-overwrite, drop-append_right, slice-append,
  take-min, take-all, append-nil, ◌==◌, leb, add32, sub32, length-overwrite, drop-zero,
  slice-take-drop, length-eq-zero, take-zero,
}
use coherent.MultiBuffer.{
  is_empty, no_alignment, CAllocator, Heap, MultiBuffer, transfer, rw_loop, read,
}
use coherent.MultiBuffer.Chunk.{chunk_before, chunk_within}
use coherent.MultiBuffer.Counts.{bytes_at, flat, contents, IsFull, load_full}
use native.Mathlib.Decide.{dec_lt}

-- The first buffer has bytes behind the offset.
abbrev pub Begins : Heap → ℕ → List ℕ → Type 0
Begins h o [] = Unit
Begins h o (p ∷ ps) = o < length (bytes_at h p)

abbrev pub Begins_zero : (h : Heap) (ps : List ℕ) → IsFull h ps → Begins h 0 ps
Begins_zero h [] f = tt
Begins_zero h (p ∷ ps) f = f.0

-- A buffer that holds the run in part, and the rest of it.
pub run_splits :
    (o s left k d size : ℕ) (xs ys buf : List ℕ)
    → o + s ≤ length xs
    → k ≡ min left (length xs - (o + s))
    → d + left ≡ size
    → length buf ≡ size
    → take (size - (left - k)) (overwrite buf d (slice (o + s) k xs)) ++ take (left - k) ys
      ≡ take (size - left) buf ++ slice (o + s) left (xs ++ ys)
run_splits o s left k d size xs ys buf inside ek ed eb =
    let whole : length (slice (o + s) k xs) ≡ k =
      omega (arith, length-take k (drop (o + s) xs), length-drop (o + s) xs) in
    let cut : slice (o + s) k xs ≡ slice (o + s) left xs =
      ap (λ n. take n (drop (o + s) xs)) (omega (arith, length-drop (o + s) xs))
      ∙ take-min left (drop (o + s) xs) in
    ap (λ n. take n (overwrite buf d (slice (o + s) k xs)) ++ take (left - k) ys)
      {x = size - (left - k)} {y = d + k} (omega (arith, length-drop (o + s) xs))
    ∙ ap (λ t. t ++ take (left - k) ys)
        (take-overwrite buf d k (slice (o + s) k xs) (omega arith) whole)
    ∙ append_assoc (take d buf) (slice (o + s) k xs) (take (left - k) ys)
    ∙ ap (λ t. take d buf ++ (t ++ take (left - k) ys)) cut
    ∙ ap (λ n. take d buf ++ (slice (o + s) left xs ++ take n ys))
        {y = left - (length xs - (o + s))} (omega arith)
    ∙ ap (λ t. take d buf ++ t) (sym (slice-append (o + s) left xs ys inside))
    ∙ ap (λ n. take n buf ++ slice (o + s) left (xs ++ ys)) {y = size - left} (omega arith)

-- A run that begins behind the first of two lists.
pub slice_later :
    (o s n left : ℕ) (xs ys : List ℕ)
    → n + o ≡ length xs
    → n ≤ s
    → slice (s - n) left ys ≡ slice (o + s) left (xs ++ ys)
slice_later o s n left xs ys e h =
    ap (λ k. slice k left ys) {y = o + s - length xs} (omega arith)
    ∙ ap (take left) (sym (drop-append_right (o + s) xs ys (omega arith)))

pub nothing_left :
    (size left i : ℕ) (xs buf : List ℕ)
    → left ≡ 0
    → length buf ≡ size
    → take (size - left) buf ++ slice i left xs ≡ buf
nothing_left size left i xs buf z e =
    ap (λ t. take (size - left) buf ++ t) (take-zero (drop i xs) z)
    ∙ append-nil (take (size - left) buf)
    ∙ take-all (size - left) buf (omega arith)

module _ (c : CAllocator) (align req_size req_off : ℕ) (h : Heap)
    (request : req_size + req_off < 2 ^ 32) where
  rw_loop_read :
      (ps : List ℕ) (o off left : ℕ) (buf : List ℕ)
      → IsFull h ps
      → Begins h o ps
      → off + (length (flat h ps) - o) < 2 ^ 32
      → length (flat h ps) < 2 ^ 32
      → left ≡ req_size - (off - req_off)
      → left + (req_off - off) + o ≤ length (flat h ps) ⊎ (left ≡ 0)
      → length buf ≡ req_size
      → rw_loop c true align req_size req_off ps o off left h buf
        ≡ ok (h, ps, take (req_size - left) buf ++ slice (o + (req_off - off)) left (flat h ps))
  unfolding rw_loop transfer
  rw_loop_read [] o off left buf full begins fit small todo enough eb =
      let z : left ≡ 0 = omega arith in
      let t : (left == 0) ≡ true = ground arith in
      rw t (
        ap (λ x. ok (h, [], x))
          (sym (nothing_left req_size left (o + (req_off - off)) [] buf z eb)))
  rw_loop_read (p ∷ ps) o off left buf full begins fit small todo enough eb = elim (dec_lt 0 left) [
    | no done ↦
        let z : left ≡ 0 = omega arith in
        let t : (left == 0) ≡ true = ground arith in
        rw t (
          ap (λ x. ok (h, p ∷ ps, x))
            (sym (nothing_left req_size left (o + (req_off - off)) (flat h (p ∷ ps)) buf z eb)))
    | yes more ↦
        let t : (left == 0) ≡ false = ground arith in
        let (b, loaded, same, _, _) = load_full h p full.0 in
        let n = length (bytes_at h p) - o in
        let split : length (flat h (p ∷ ps)) ≡ length (bytes_at h p) + length (flat h ps) =
          length-append (bytes_at h p) (flat h ps) in
        let size : sub32 (length (bytes_at h p)) o ≡ n = omega arith in
        let filled : (n == 0) ≡ false = ground arith in
        let on : add32 off n ≡ off + n = omega arith in
        elim (dec_lt req_off (off + n)) [
          | yes hit ↦
              rw
                (
                  t,
                  loaded,
                  same,
                  size,
                  filled,
                  chunk_within c true align req_size req_off o n off left h p buf (omega arith)
                      (omega arith) request todo more (omega arith) hit,
                  loaded,
                  same,
                  on,
                )
                (let k = min left (n - (req_off - off)) in
                  let run = slice (o + (req_off - off)) k (bytes_at h p) in
                  let whole : length run ≡ k = omega (
                    arith,
                    length-take k (drop (o + (req_off - off)) (bytes_at h p)),
                    length-drop (o + (req_off - off)) (bytes_at h p),
                  ) in
                  rw
                    (rw_loop_read ps 0 (off + n) (left - k) (overwrite buf (off - req_off) run)
                      full.1 (Begins_zero h ps full.1) (omega arith) (omega arith) (omega arith)
                      (omega arith) (length-overwrite buf (off - req_off) run (omega arith) ∙ eb))
                    (ap (λ x. ok (h, p ∷ ps, x))
                      (ap
                          (λ t.
                            take (req_size - (left - k)) (overwrite buf (off - req_off) run)
                            ++ take (left - k) t)
                          (drop-zero (flat h ps) (omega arith))
                        ∙ run_splits o (req_off - off) left k (off - req_off) req_size
                            (bytes_at h p) (flat h ps) buf (omega arith) (omega arith) (omega arith)
                            eb)))
          | no miss ↦
              rw
                (
                  t,
                  loaded,
                  same,
                  size,
                  filled,
                  chunk_before c true align req_size req_off o n off left h p buf (omega arith)
                      (omega arith) request todo more (omega arith) (omega arith),
                  on,
                )
                (rw
                  (rw_loop_read ps 0 (off + n) left buf full.1 (Begins_zero h ps full.1)
                    (omega arith) (omega arith) (omega arith) (omega arith) eb)
                  (ap (λ x. ok (h, p ∷ ps, take (req_size - left) buf ++ x))
                    (ap (λ i. slice i left (flat h ps)) {y = req_off - off - n} (omega arith)
                      ∙ slice_later o (req_off - off) n left (bytes_at h p) (flat h ps)
                          (omega arith) (omega arith))))
        ]
  ]

-- What `multi_buffer`'s constructor and its users keep: the buffers hold bytes, the first one
-- behind `left_off`, and the view lies in them.
pub record IsValid (h : Heap) (m : MultiBuffer) : Type 0 where
  pub full : IsFull h m.buffers
  pub begins : Begins h m.left_off m.buffers
  pub fits : m.left_off + m.size ≤ length (flat h m.buffers)
  pub small : length (flat h m.buffers) < 2 ^ 32

pub length-contents : (h : Heap) (m : MultiBuffer) → IsValid h m → length (contents h m) ≡ m.size
length-contents h m v = omega (
  arith,
  length-take m.size (drop m.left_off (flat h m.buffers)),
  length-drop m.left_off (flat h m.buffers),
)

pub is_empty_of_pos : (h : Heap) (ps : List ℕ) → 0 < length (flat h ps) → is_empty ps ≡ false
is_empty_of_pos h [] e = absurd (omega arith)
is_empty_of_pos h (p ∷ ps) e = refl

-- A read within a valid multi_buffer succeeds, and fills the caller's memory with the requested run
-- of the contents.
pub read-contents :
    (c : CAllocator) (h : Heap) (m : MultiBuffer) (buf : List ℕ) (size off : ℕ)
    → IsValid h m
    → size + off ≤ m.size
    → length buf ≡ size
    → read c h m buf size off ≡ ok (slice off size (contents h m))
unfolding read
read-contents c h m buf size off v e eb =
    let inside : leb (add32 size off) m.size ≡ true = ground arith in
    let same : slice off size (contents h m) ≡ slice (m.left_off + off) size (flat h m.buffers) =
      slice-take-drop off size m.size m.left_off (flat h m.buffers) e in
    elim (Bool-cases (size == 0)) [
      | inl z ↦
          let zero_size : size ≡ 0 = ground arith in
          rw (inside, z)
            (ap ok (
              length-eq-zero buf (omega arith)
              ∙ sym (take-zero (drop off (contents h m)) zero_size)))
      | inr nz ↦
          let size_pos : 0 < size = ground arith in
          rw
            (
              inside,
              nz,
              is_empty_of_pos h m.buffers (omega arith),
              same,
              rw_loop_read c no_alignment size off h (omega arith) m.buffers m.left_off 0 size buf
                  v.full v.begins (omega arith) v.small (omega arith) (omega arith) eb,
            )
            (ap (λ t. ok (t ++ slice (m.left_off + (off - 0)) size (flat h m.buffers)))
                (take-zero buf (omega arith))
              ∙ ap (λ i. ok (slice (m.left_off + i) size (flat h m.buffers))) (omega arith))
    ]
