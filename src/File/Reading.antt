-- ===== src/File/Reading.antt =====
-- `file::read`: the multi_buffer that it returns shows the file.
use coherent.Common.{
  ℕ, ◌+◌, ◌-◌, ◌%◌, ◌^◌, ◌≤◌, ◌<◌, ◌≡◌, ◌⊎◌, refl, sym, ap, subst, ◌∙◌, arith, min, true, false,
}
use coherent.Common.{
  List, [], ◌++◌, append-nil, length, length-append, length-take, length-drop, take, drop, slice,
  take-take, take-append_left, slice-take-drop,
}
use coherent.Common.{ltb, ◌==◌, ◌&&◌, not, sub64, add64, add32, sub32, Bool-cases, inl, inr}
use coherent.Common.{Exception, ok, some, ◌>>=◌, Ends, Ends-mono, Ends->>=, OnlyBadAlloc}
use coherent.MultiBuffer.{Heap, MultiBuffer, Buffer, CAllocator, construct}
use coherent.MultiBuffer.Counts.{flat, contents}
use coherent.MultiBuffer.Construct.{construct_iff_IsValid}
use coherent.MultiBuffer.Read.{IsValid}
use coherent.File.{
  Answer, interrupted, failed, moved, File, is_open, preadv, alloc_buffers, scatter, pointers, room,
  num_bufs_of, finish_read, read, single_buf_size,
}
use coherent.File.Align.{align_down_lem, align_up_lem, aligned_up, aligned_up_bounds}
use coherent.File.Buffers.{
  held, length-held, Tiles, alloc_buffers-Tiles, num_bufs_of-enough, held-scatter, length-scatter,
  scatter-AllHold, scatter-FirstHolds, flat-pointers, pointers-IsFull, pointers-Begins,
}
use native.Mathlib.Decide.{dec_lt}
use native.Mathlib.Nat.{mod-lt, mod-le, one-le-pow, pow-le-pow_right}

-- How many bytes the kernel is ready to transfer.
abbrev pub delivered : Answer → ℕ
delivered (interrupted next) = delivered next
delivered failed = 0
delivered (moved n) = n

-- A valid multi_buffer of `size` bytes, which shows the file from `offset` on, in buffers behind the heap.
pub record Shows (h : Heap) (file : List ℕ) (size offset : ℕ) (r : Heap × MultiBuffer)
    : Type 0 where
  pub valid : IsValid r.0 r.1
  pub same : contents r.0 r.1 ≡ slice offset size file
  pub long : r.1.size ≡ size
  pub behind : (bs : List Buffer) × (r.0 ≡ h ++ bs)

-- The kernel, or the file, does not give enough.
abbrev pub FallsShort : Answer → List ℕ → (shift size offset : ℕ) → Type 0
FallsShort answer file shift size offset =
    (delivered answer < shift + size) ⊎ (length file < offset + size)

module _ (h : Heap) (file bytes : List ℕ) (bs : List Buffer) (n size shift off : ℕ)
    (tiles : Tiles n bs) (small : n < 2 ^ 32) (some_bytes : 0 < size)
    (whole : shift < single_buf_size) (enough : shift + size ≤ length bytes)
    (inside : length bytes ≤ n)
    (same : take (shift + size) bytes ≡ take (shift + size) (drop off file)) where
  abbrev view : MultiBuffer
  view = record { buffers = pointers (length h) (length bs); size = size; left_off = shift }

  shown :
      flat (h ++ scatter bs bytes) (pointers (length h) (length bs))
      ≡ bytes ++ drop (length bytes) (held bs)
  shown =
      rw (length-scatter bs bytes) at (flat-pointers h (scatter bs bytes))
      ∙ held-scatter bs bytes (omega (arith, tiles.exact))

  length-shown : length (flat (h ++ scatter bs bytes) (pointers (length h) (length bs))) ≡ n
  length-shown = omega (
    arith,
    ap length shown,
    length-append bytes (drop (length bytes) (held bs)),
    length-drop (length bytes) (held bs),
    length-held bs,
    tiles.exact,
  )

  view-IsValid : IsValid (h ++ scatter bs bytes) view
  view-IsValid =
      let filled = scatter bs bytes in
      record {
        full =
            rw (length-scatter bs bytes) at
              (pointers-IsFull h filled (scatter-AllHold bs bytes tiles.hold));
        begins = rw (length-scatter bs bytes) at (
            pointers-Begins h shift filled
              (scatter-FirstHolds shift bs bytes (tiles.first shift (omega arith) whole)));
        fits = omega (arith, length-shown);
        small = omega (arith, length-shown);
      }

  view-Shows : Shows h file size (off + shift) (h ++ scatter bs bytes, view)
  view-Shows =
      let all = flat (h ++ scatter bs bytes) (pointers (length h) (length bs)) in
      let front : take (shift + size) all ≡ take (shift + size) (drop off file) =
        ap (take (shift + size)) shown
        ∙ take-append_left (shift + size) bytes (drop (length bytes) (held bs)) enough
        ∙ same in
      record {
        valid = view-IsValid;
        same =
            ap (λ k. slice k size all) {y = 0 + shift} (omega arith)
            ∙ sym (slice-take-drop shift size (shift + size) 0 all (omega arith))
            ∙ ap (slice shift size) front
            ∙ slice-take-drop shift size (shift + size) off file (omega arith);
        long = refl;
        behind = (scatter bs bytes, refl);
      }

  made : construct (h ++ scatter bs bytes) (pointers (length h) (length bs)) size shift ≡ ok view
  made =
      (construct_iff_IsValid (h ++ scatter bs bytes) (pointers (length h) (length bs)) size shift
          view-IsValid.full view-IsValid.small (omega arith)).1
        view-IsValid

-- The exceptions of `read`.
abbrev pub ReadFails : Answer → List ℕ → (shift size offset : ℕ) → Exception → Type 0
ReadFails answer file shift size offset e =
    (e ≡ Exception.bad_alloc)
    ⊎ ((e ≡ Exception.io_exception) × FallsShort answer file shift size offset)

module _ (h : Heap) (file : List ℕ) (bs : List Buffer) (n size shift off : ℕ) (tiles : Tiles n bs)
    (small : n < 2 ^ 32) (some_bytes : 0 < size) (whole : shift < single_buf_size)
    (fits : shift + size ≤ n) where
  length-read :
      (count : ℕ) → length (take count (slice off n file)) ≡ min count (min n (length file - off))
  length-read count = omega (
    arith,
    length-take count (slice off n file),
    length-take n (drop off file),
    length-drop off file,
  )

  falls_short :
      (count : ℕ)
      → length (take count (slice off n file)) < shift + size
      → FallsShort (moved count) file shift size (off + shift)
  falls_short count short = elim (dec_lt count (shift + size)) [
    | yes less ↦ inl less
    | no enough ↦ inr (omega (arith, length-read count))
  ]

  -- The bytes that were read are the file's.
  same_front :
      (count : ℕ)
      → shift + size ≤ length (take count (slice off n file))
      → take (shift + size) (take count (slice off n file)) ≡ take (shift + size) (drop off file)
  same_front count long =
      take-take (shift + size) count (slice off n file) (omega (arith, length-read count))
      ∙ take-take (shift + size) n (drop off file) fits

  transferred-Ends :
      (count : ℕ)
      → Ends
          (Shows h file size (off + shift))
          (ReadFails (moved count) file shift size (off + shift))
          (finish_read h bs (some (take count (slice off n file))) size shift n)
  unfolding finish_read
  transferred-Ends count =
      let bytes = take count (slice off n file) in
      let sum : add32 size shift ≡ shift + size = omega arith in
      elim (dec_lt (length bytes) (shift + size)) [
        | yes short ↦
            let test : (not (length bytes == n) && ltb (length bytes) (shift + size)) ≡ true =
              ground arith in
            rw (sum, test) (inr (refl, falls_short count short))
        | no enough ↦
            let test : (not (length bytes == n) && ltb (length bytes) (shift + size)) ≡ false =
              ground arith in
            let least : min size (length bytes) ≡ size = omega arith in
            let long : shift + size ≤ length bytes = omega arith in
            let inside : length bytes ≤ n = omega (arith, length-read count) in
            let front = same_front count long in
            rw
              (
                sum,
                test,
                least,
                made h file bytes bs n size shift off tiles small some_bytes whole long inside
                    front,
              )
              (view-Shows h file bytes bs n size shift off tiles small some_bytes whole long inside
                front)
      ]

  pub finish_read-Ends :
      (answer : Answer)
      → Ends
          (Shows h file size (off + shift))
          (ReadFails answer file shift size (off + shift))
          (finish_read h bs (preadv file answer n off) size shift n)
  unfolding preadv
  finish_read-Ends (interrupted next) = finish_read-Ends next
  finish_read-Ends failed = unfold finish_read in inr (refl, inl (omega arith))
  finish_read-Ends (moved count) = transferred-Ends count

abbrev nothing : MultiBuffer
nothing = record { buffers = []; size = 0; left_off = 0 }

nothing-IsValid : (h : Heap) → IsValid h nothing
nothing-IsValid h = record { full = tt; begins = tt; fits = omega arith; small = omega arith }

nothing-Shows : (h : Heap) (file : List ℕ) (offset : ℕ) → Shows h file 0 offset (h, nothing)
nothing-Shows h file offset = record {
  valid = nothing-IsValid h;
  same = refl;
  long = refl;
  behind = ([], sym (append-nil h));
}

construct-nothing : (h : Heap) → construct h [] 0 0 ≡ ok nothing
construct-nothing h =
    (construct_iff_IsValid h [] 0 0 tt (omega arith) (omega arith)).1 (nothing-IsValid h)

-- The read between the boundaries of pages around it.
aligned-Ends :
    (c : CAllocator) (page_size e : ℕ) (file : List ℕ) (answer : Answer) (h : Heap)
    (size shift offset : ℕ)
    → 0 < size
    → shift ≤ offset
    → shift < single_buf_size
    → offset + size ≤ e
    → e < 2 ^ 32
    → Ends (Shows h file size offset) (ReadFails answer file shift size offset) (
        alloc_buffers c page_size e (num_bufs_of (e - (offset - shift))) (offset - shift) h
        >>= λ bufs.
            finish_read h bufs
              (preadv file answer (room bufs) (offset - shift))
              size
              shift
              (e - (offset - shift)))
aligned-Ends c page_size e file answer h size shift offset some_asked behind first inside small =
    let off = offset - shift in
    let n = e - off in
    let back : off + shift ≡ offset = omega arith in
    Ends->>= (Tiles n) (Shows h file size offset) (ReadFails answer file shift size offset) _ _
      (Ends-mono (Tiles n) (Tiles n) OnlyBadAlloc (ReadFails answer file shift size offset) _
        (λ bs t. t) (λ x out. inl out)
        (alloc_buffers-Tiles c page_size e (num_bufs_of n) off h (omega arith) small
          (num_bufs_of-enough n)))
      λ bs tiles. rw tiles.exact (
        subst
          (λ o.
            Ends (Shows h file size o) (ReadFails answer file shift size o)
              (finish_read h bs (preadv file answer n off) size shift n))
          back
          (finish_read-Ends h file bs n size shift off tiles (omega arith) some_asked first
            (omega arith) answer))

-- Where the pages are at most 512 KiB and what is read lies, with a page behind it, below 4 GiB, a read
-- from an open file returns a valid multi_buffer of the requested size that shows the file's bytes
-- from the offset on; or memory runs out, or there is an io_exception, which there is only where the
-- kernel transfers too little or the file ends too early.
pub read-Ends :
    (c : CAllocator) (k : ℕ) (file : List ℕ) (answer : Answer) (f : File) (h : Heap)
    (size offset : ℕ)
    → is_open f ≡ true
    → k ≤ 19
    → offset + size + 2 ^ k ≤ 2 ^ 32
    → Ends
        (Shows h file size offset)
        (ReadFails answer file (offset % 2 ^ k) size offset)
        (read c (2 ^ k) file answer f h size offset)
unfolding read
read-Ends c k file answer f h size offset opened page near = elim (Bool-cases (size == 0)) [
  | inl none_asked ↦
      let no_bytes : 0 ≡ size = ground arith in
      rw (opened, none_asked, construct-nothing h)
        (subst (λ n. Shows h file n offset (h, nothing)) no_bytes (nothing-Shows h file offset))
  | inr some_asked ↦
      let shift = offset % 2 ^ k in
      let off = offset - shift in
      let e = aligned_up (offset + size) k in
      let page_pos : 0 < 2 ^ k = one-le-pow k 2 (omega arith) in
      let page_max : 2 ^ k ≤ 2 ^ 19 = pow-le-pow_right (omega arith) page in
      let in_page : shift < 2 ^ k = mod-lt offset page_pos in
      let before : shift ≤ offset = mod-le offset (2 ^ k) in
      let (after, close) = aligned_up_bounds (offset + size) k in
      let off_fits : off % 2 ^ 32 ≡ off = omega arith in
      let shift_same : sub64 offset off % 2 ^ 32 ≡ shift = omega arith in
      let end_same : add64 offset size ≡ offset + size = omega arith in
      let e_fits : e % 2 ^ 32 ≡ e = omega arith in
      let n_same : sub32 e off ≡ e - off = omega arith in
      rw
        (
          opened,
          some_asked,
          align_down_lem offset k (omega arith) (omega arith),
          off_fits,
          shift_same,
          end_same,
          align_up_lem (offset + size) k (omega arith) (omega arith),
          e_fits,
          n_same,
        )
        (aligned-Ends c (2 ^ k) e file answer h size shift offset (ground arith) before
          (omega arith) after (omega arith))
]
