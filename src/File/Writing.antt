-- ===== src/File/Writing.antt =====
-- `file::write`, and what is read after it.
use coherent.Common.{
  ℕ, ◌+◌, ◌-◌, ◌%◌, ◌^◌, ◌≤◌, ◌<◌, ◌≡◌, refl, sym, ap, ◌∙◌, arith, min, true, false,
}
use coherent.Common.{
  List, [], ◌∷◌, ◌++◌, append_assoc, length, length-append, length-take, length-drop,
  length-replicate, take, drop, slice, replicate, take-all, take-min, drop-append_exact,
  take-append_exact, slice-append, length-eq-zero,
}
use coherent.Common.{leb, ◌==◌, sub32, Bool-cases, inl, inr}
use coherent.Common.{Exception, Outcome, ok, Ends, Ends-mono}
use coherent.MultiBuffer.{Heap, MultiBuffer, CAllocator}
use coherent.MultiBuffer.Counts.{bytes_at, flat, contents, IsFull, load_full}
use coherent.MultiBuffer.Read.{Begins, Begins_zero, IsValid, length-contents}
use coherent.File.{
  Answer, interrupted, failed, moved, gather, write_at, pwritev, check_written, write, File,
  is_open, read,
}
use coherent.File.Reading.{Shows, ReadFails, read-Ends}
use native.Mathlib.Decide.{dec_lt}

-- The `iovec`s show the first `left` of the buffers' bytes behind the offset.
gather-flat :
    (h : Heap) (ps : List ℕ) (o left : ℕ)
    → IsFull h ps
    → Begins h o ps
    → length (flat h ps) < 2 ^ 32
    → o + left ≤ length (flat h ps)
    → gather h ps o left ≡ ok (slice o left (flat h ps), 0)
unfolding gather
gather-flat h [] o left f b small fits = let none_left : left ≡ 0 = omega arith in rw none_left
gather-flat h (p ∷ ps) o left f b small fits =
    let (buf, loaded, same, _, _) = load_full h p f.0 in
    let X = bytes_at h p in
    let Y = flat h ps in
    let both = length-append X Y in
    let k = min (length X - o) left in
    let started : leb o (length X) ≡ true = ground arith in
    let here : sub32 (length X) o ≡ length X - o = omega arith in
    let later : sub32 left k ≡ left - k = omega arith in
    let cut : slice o k X ≡ slice o left X =
      ap (λ n. take n (drop o X)) {y = min left (length (drop o X))}
        (omega (arith, length-drop o X))
      ∙ take-min left (drop o X) in
    let joined : slice o k X ++ take (left - k) Y ≡ slice o left (X ++ Y) =
      ap (λ l. l ++ take (left - k) Y) cut
      ∙ ap (λ n. slice o left X ++ take n Y) {y = left - (length X - o)} (omega arith)
      ∙ sym (slice-append o left X Y (omega arith)) in
    let rest =
      gather-flat h ps 0 (left - k) f.1 (Begins_zero h ps f.1) (omega arith) (omega arith) in
    rw (loaded, same, started, here, later, rest) (ap (λ l. ok (l, 0)) joined)

-- The part of the file that a write of `n` bytes at `off` has replaced.
pub write_at-contents :
    (file : List ℕ) (off : ℕ) (bytes : List ℕ)
    → slice off (length bytes) (write_at file off bytes) ≡ bytes
unfolding write_at
write_at-contents file off bytes =
    let padded = file ++ replicate (off - length file) 0 in
    let before : length (take off padded) ≡ off = omega (
      arith,
      length-take off padded,
      length-append file (replicate (off - length file) 0),
      length-replicate {A = ℕ} (off - length file) 0,
    ) in
    let rest = drop (off + length bytes) file in
    rw
      (
        append_assoc (take off padded) bytes rest,
        drop-append_exact off (take off padded) (bytes ++ rest) before,
      )
      (take-append_exact (length bytes) bytes rest refl)

gather-contents :
    (h : Heap) (m : MultiBuffer)
    → IsValid h m
    → gather h m.buffers m.left_off m.size ≡ ok (contents h m, 0)
gather-contents h m v = gather-flat h m.buffers m.left_off m.size v.full v.begins v.small v.fits

-- The kernel does not take all of it at once.
abbrev pub Incomplete : Answer → ℕ → Type 0
Incomplete (interrupted next) size = Unit {0}
Incomplete failed size = Unit {0}
Incomplete (moved n) size = n < size

abbrev WriteEnds : Answer → (size : ℕ) → Type 0 → Outcome (Unit {0}) → Type 0
WriteEnds answer size Written =
    Ends (λ u. Written) (λ x. (x ≡ Exception.io_exception) × Incomplete answer size)

check_written-Ends :
    (file : List ℕ) (answer : Answer) (off : ℕ) (bytes : List ℕ)
    → WriteEnds answer
        (length bytes)
        (slice off (length bytes) (pwritev file answer off bytes).0 ≡ bytes)
        (check_written (pwritev file answer off bytes).1 (length bytes))
unfolding pwritev check_written
check_written-Ends file (interrupted next) off bytes = (refl, tt)
check_written-Ends file failed off bytes = (refl, tt)
check_written-Ends file (moved n) off bytes =
    let count = min n (length bytes) in
    elim (Bool-cases (count == 0)) [
      | inl nothing ↦ elim (dec_lt 0 (length bytes)) [
        | yes more ↦
            let short : (0 == length bytes) ≡ false = ground arith in
            rw (nothing, short) (refl, ground arith)
        | no none_asked ↦
            let empty : bytes ≡ [] = length-eq-zero bytes (omega arith) in rw (nothing, empty) refl
      ]
      | inr something ↦ elim (Bool-cases (count == length bytes)) [
        | inl all ↦
            let whole : take count bytes ≡ bytes = take-all count bytes (ground arith) in
            rw (something, all, whole) (write_at-contents file off bytes)
        | inr part ↦ rw (something, part) (refl, ground arith)
      ]
    ]

-- A write of a valid multi_buffer runs to its end, with the file then as `file'`: it returns, and the file
-- shows the multi_buffer's contents at the offset; or there is an io_exception, which there is only
-- where the kernel does not take all of it in one call.
pub write-Ends :
    (file : List ℕ) (answer : Answer) (h : Heap) (m : MultiBuffer) (off : ℕ)
    → IsValid h m
    → (file' : List ℕ) × (out : Outcome (Unit {0})) × (write file answer h m off ≡ ok (file', out))
      × Ends
          (λ u. slice off m.size file' ≡ contents h m)
          (λ x. (x ≡ Exception.io_exception) × Incomplete answer m.size)
          out
unfolding write
write-Ends file answer h m off v =
    let bytes = contents h m in
    let size : length bytes ≡ m.size = length-contents h m v in
    (
      (pwritev file answer off bytes).0,
      check_written (pwritev file answer off bytes).1 m.size,
      rw (gather-contents h m v),
      rw size at (check_written-Ends file answer off bytes),
    )

-- A multi_buffer that `write` has returned from writing can be read: where pages are at most 512 KiB and
-- it lies, with a page behind it, below 4 GiB, a read of its size at its offset returns a multi_buffer with the
-- same contents, or memory runs out, or there is an io_exception as of any read.
pub read-write :
    (c : CAllocator) (k : ℕ) (f : File) (answer answer' : Answer) (file file' : List ℕ)
    (h h' : Heap) (m : MultiBuffer) (off : ℕ)
    → IsValid h m
    → write file answer h m off ≡ ok (file', ok tt)
    → is_open f ≡ true
    → k ≤ 19
    → off + m.size + 2 ^ k ≤ 2 ^ 32
    → Ends
        (λ r. IsValid r.0 r.1 × (contents r.0 r.1 ≡ contents h m))
        (ReadFails answer' file' (off % 2 ^ k) m.size off)
        (read c (2 ^ k) file' answer' f h' m.size off)
read-write c k f answer answer' file file' h h' m off v e opened page near =
    let (left, out, returned, ends) = write-Ends file answer h m off v in
    let both : ok (left, out) ≡ ok (file', ok tt) = sym returned ∙ e in
    let same_file : left ≡ file' = cc in
    let same_out : out ≡ ok tt = cc in
    let written : slice off m.size file' ≡ contents h m = rw (same_out, same_file) at ends in
    Ends-mono (Shows h' file' m.size off) _ (ReadFails answer' file' (off % 2 ^ k) m.size off) _
      (read c (2 ^ k) file' answer' f h' m.size off)
      (λ r shows. (shows.valid, shows.same ∙ written)) (λ x p. p)
      (read-Ends c k file' answer' f h' m.size off opened page near)
