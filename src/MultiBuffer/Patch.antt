-- ===== src/MultiBuffer/Patch.antt =====
-- What a write leaves of the bytes that the buffers hold.
use coherent.Common.{
  ℕ, ◌+◌, ◌-◌, ◌≤◌, ◌<◌, ◌≡◌, ◌∙◌, ap, ap₂, sym, min, List, [], ◌∷◌, ◌++◌, arith, length, drop,
  take, slice, overwrite, append_assoc, length-take, length-drop, drop-append_right, drop-zero,
  take-zero, take-append_right, take-append-drop, drop-all, drop-append_left, take-append_left,
  drop-drop, slice-append_slice,
}
use coherent.MultiBuffer.{Heap}
use coherent.MultiBuffer.Counts.{
  bytes_at, uses_at, flat, count, count-append, sizes, SameBytes-of_count, sizes_congr,
}
use native.Mathlib.Decide.{dec_lt}

-- The list `ps` of `h` has become `ps'` in `h'`, of buffers of the same sizes that hold `new`; the
-- `buffer_ptr`s `os` see what they saw, and all of them are counted.
pub record Wrote (h : Heap) (ps os new : List ℕ) (h' : Heap) (ps' : List ℕ) : Type 0 where
  pub bytes : flat h' ps' ≡ new
  pub same_sizes : sizes h' ps' ≡ sizes h ps
  pub kept : (q : ℕ) → 0 < count q os → bytes_at h' q ≡ bytes_at h q
  pub counted : (q : ℕ) → count q ps' + count q os ≤ uses_at h' q

-- `ys` in place of as many bytes of `xs` from `i` on, `n` of them.
abbrev pub patch : (i n : ℕ) → List ℕ → List ℕ → List ℕ
patch i n ys xs = take i xs ++ (ys ++ drop (i + n) xs)

pub patch_nothing : (i n : ℕ) (ys xs : List ℕ) → n ≡ 0 → xs ≡ patch i n (take n ys) xs
patch_nothing i n ys xs z =
    sym (take-append-drop i xs)
    ∙ ap (λ k. take i xs ++ drop k xs) (omega arith)
    ∙ ap (λ t. take i xs ++ (t ++ drop (i + n) xs)) (sym (take-zero ys z))

-- A patch behind the first of two lists.
pub patch_later :
    (o s n left : ℕ) (ys xs zs : List ℕ)
    → n + o ≡ length xs
    → n ≤ s
    → xs ++ patch (s - n) left ys zs ≡ patch (o + s) left ys (xs ++ zs)
patch_later o s n left ys xs zs e h =
    sym (append_assoc xs (take (s - n) zs) (ys ++ drop (s - n + left) zs))
    ∙ ap₂ (λ t u. t ++ (ys ++ u))
        (sym
          (take-append_right (o + s) xs zs (omega arith) ∙ ap (λ k. xs ++ take k zs) (omega arith)))
        (sym (
          drop-append_right (o + s + left) xs zs (omega arith) ∙ ap (λ k. drop k zs) (omega arith)))

-- What follows the patch in the first list is nothing, or else the patch ends there.
pub patch_seam :
    (a left k d : ℕ) (xs zs buf : List ℕ)
    → a ≤ length xs
    → k ≡ min left (length xs - a)
    → drop (a + k) xs ++ (slice (d + k) (left - k) buf ++ drop (left - k) zs)
      ≡ slice (d + k) (left - k) buf ++ drop (a + left) (xs ++ zs)
patch_seam a left k d xs zs buf inside ek = elim (dec_lt (length xs - a) left) [
  | yes over ↦
      ap (λ t. t ++ (slice (d + k) (left - k) buf ++ drop (left - k) zs))
        (drop-all (a + k) xs (omega arith))
      ∙ ap (λ t. slice (d + k) (left - k) buf ++ t)
          (ap (λ n. drop n zs) (omega arith)
            ∙ sym (drop-append_right (a + left) xs zs (omega arith)))
  | no within ↦
      let none_left : left - k ≡ 0 = omega arith in
      let empty : slice (d + k) (left - k) buf ≡ [] = take-zero (drop (d + k) buf) none_left in
      ap (λ t. drop (a + k) xs ++ (t ++ drop (left - k) zs)) empty
      ∙ ap (λ t. drop (a + k) xs ++ t) (drop-zero zs none_left)
      ∙ sym (drop-append_left (a + k) xs zs (omega arith))
      ∙ ap (λ n. drop n (xs ++ zs)) (omega arith)
      ∙ ap (λ t. t ++ drop (a + left) (xs ++ zs)) (sym empty)
]

-- A patch that begins in the first of two lists.
pub patch_splits :
    (o s left k d : ℕ) (xs zs buf : List ℕ)
    → o + s ≤ length xs
    → k ≡ min left (length xs - (o + s))
    → d + left ≤ length buf
    → overwrite xs (o + s) (slice d k buf) ++ patch 0 (left - k) (slice (d + k) (left - k) buf) zs
      ≡ patch (o + s) left (slice d left buf) (xs ++ zs)
patch_splits o s left k d xs zs buf inside ek fits =
    let run = slice d k buf in
    let rest = slice (d + k) (left - k) buf in
    let whole : length run ≡ k = omega (arith, length-take k (drop d buf), length-drop d buf) in
    let joined : run ++ rest ≡ slice d left buf =
      ap (λ t. run ++ take (left - k) t) (sym (drop-drop k d buf))
      ∙ slice-append_slice k (left - k) (drop d buf)
      ∙ ap (λ n. slice d n buf) (omega arith) in
    simp append_assoc (
      ap (λ n. take (o + s) xs ++ (run ++ (drop n xs ++ (rest ++ drop (0 + (left - k)) zs))))
        {y = o + s + k} (omega arith)
      ∙ ap (λ n. take (o + s) xs ++ (run ++ (drop (o + s + k) xs ++ (rest ++ drop n zs))))
          {y = left - k} (omega arith)
      ∙ ap (λ t. take (o + s) xs ++ (run ++ t)) (patch_seam (o + s) left k d xs zs buf inside ek)
      ∙ ap (λ t. take (o + s) xs ++ t)
          (sym (append_assoc run rest (drop (o + s + left) (xs ++ zs))))
      ∙ ap₂ (λ t u. t ++ (u ++ drop (o + s + left) (xs ++ zs)))
          (sym (take-append_left (o + s) xs zs inside)) joined)

pub patch_moved :
    (o s left k d size left' i : ℕ) (xs zs zs' buf buf' : List ℕ)
    → o + s ≤ length xs
    → k ≡ min left (length xs - (o + s))
    → d + left ≡ size
    → length buf ≡ size
    → left' ≡ left - k
    → i ≡ 0
    → zs' ≡ zs
    → buf' ≡ buf
    → overwrite xs (o + s) (slice d k buf) ++ patch i left' (slice (size - left') left' buf') zs'
      ≡ patch (o + s) left (slice (size - left) left buf) (xs ++ zs)
patch_moved o s left k d size left' i xs zs zs' buf buf' inside ek ed eb el ei ez ebuf =
    rw (el, ei, ez, ebuf)
      (ap
          (λ n.
            overwrite xs (o + s) (slice d k buf) ++ patch 0 (left - k) (slice n (left - k) buf) zs)
          {y = d + k} (omega arith)
        ∙ patch_splits o s left k d xs zs buf inside ek (omega arith)
        ∙ ap (λ n. patch (o + s) left (slice n left buf) (xs ++ zs)) (omega arith))

-- A step on the first buffer, and the loop on the others.
pub cons-Wrote :
    (h h₁ h₂ : Heap) (p p' : ℕ) (ps ps' os new rest : List ℕ)
    → bytes_at h₁ p' ≡ new
    → length new ≡ length (bytes_at h p)
    → ((q : ℕ) → 0 < count q (ps ++ os) → bytes_at h₁ q ≡ bytes_at h q)
    → Wrote h₁ ps (p' ∷ os) rest h₂ ps'
    → Wrote h (p ∷ ps) os (new ++ rest) h₂ (p' ∷ ps')
cons-Wrote h h₁ h₂ p p' ps ps' os new rest first size kept w =
    let here : bytes_at h₂ p' ≡ new = w.kept p' (ground arith) ∙ first in
    record {
      bytes = ap₂ ◌++◌ here w.bytes;
      same_sizes = ap₂ ◌∷◌ (ap length here ∙ size) (
          w.same_sizes
          ∙ sizes_congr h h₁ ps
              (SameBytes-of_count h h₁ ps (λ q e. kept q (omega (arith, count-append q ps os)))));
      kept = λ q e. w.kept q (omega arith) ∙ kept q (omega (arith, count-append q ps os));
      counted = λ q. omega (arith, w.counted q);
    }
