-- ===== src/File/Buffers.antt =====
-- The buffers that `file::read` allocates, before and after the kernel has filled them.
use coherent.Common.{
  ℕ, zero, suc, ◌+◌, ◌-◌, ◌*◌, ◌^◌, ◌≤◌, ◌<◌, ◌≡◌, refl, sym, ap, subst, ◌∙◌, arith, min, true,
  false,
}
use coherent.Common.{
  List, [], ◌∷◌, ◌++◌, append_assoc, append-nil, length, length-append, length-take, length-drop,
  take, drop, overwrite, length-overwrite, All, get_elem?, some, drop-append, take-all, drop-all,
  take-append-drop,
}
use coherent.Common.{ltb, add64}
use coherent.Common.{Ends, Ends->>=, OnlyBadAlloc}
use coherent.MultiBuffer.{Buffer, Heap, CAllocator}
use coherent.MultiBuffer.Counts.{flat, IsFull}
use coherent.MultiBuffer.Cow.{alloc_aligned_size}
use coherent.MultiBuffer.Read.{Begins}
use coherent.File.{buf_len_at, alloc_buffers, single_buf_size, scatter, pointers, room, num_bufs_of}
use native.Mathlib.Decide.{dec_lt}

-- The bytes of the buffers, one after another.
pub held : List Buffer → List ℕ
held [] = []
held (b ∷ bs) = b.bytes ++ held bs

pub length-held : (bs : List Buffer) → length (held bs) ≡ room bs
unfolding held room
length-held [] = refl
length-held (b ∷ bs) = omega (arith, length-append b.bytes (held bs), length-held bs)

-- No buffer is empty.
abbrev pub AllHold : List Buffer → Type 0
AllHold = All (λ b. 0 < length b.bytes)

-- The first buffer has more than `n` bytes.
abbrev pub FirstHolds : ℕ → List Buffer → Type 0
FirstHolds n [] = Unit {0}
FirstHolds n (b ∷ bs) = n < length b.bytes

-- Buffers for `n` bytes, of which the first is full size, or has room for all of them.
pub record Tiles (n : ℕ) (bs : List Buffer) : Type 0 where
  pub exact : room bs ≡ n
  pub hold : AllHold bs
  pub first : (m : ℕ) → m < n → m < single_buf_size → FirstHolds m bs

buf_len_at_lem :
    (aligned_end cur : ℕ)
    → cur < aligned_end
    → aligned_end < 2 ^ 32
    → buf_len_at aligned_end cur ≡ min single_buf_size (aligned_end - cur)
unfolding buf_len_at
buf_len_at_lem aligned_end cur inside small = ground arith

no_more-Tiles : (n : ℕ) → n ≡ 0 → Tiles n []
unfolding room
no_more-Tiles n e = record { exact = sym e; hold = tt; first = λ m h h'. tt }

one_more-Tiles :
    (n : ℕ) (mem : List ℕ) (bs : List Buffer)
    → 0 < n
    → length mem ≡ min single_buf_size n
    → Tiles (n - single_buf_size) bs
    → Tiles n (record { bytes = mem; uses = 1 } ∷ bs)
unfolding room
one_more-Tiles n mem bs h long rest = record {
  exact = omega (arith, rest.exact);
  hold = (omega arith, rest.hold);
  first = λ m inside whole. omega arith;
}

pub alloc_buffers-Tiles :
    (c : CAllocator) (alignment aligned_end left cur : ℕ) (h : Heap)
    → cur < 2 ^ 33
    → aligned_end < 2 ^ 32
    → aligned_end - cur ≤ left * single_buf_size
    → Ends
        (Tiles (aligned_end - cur))
        OnlyBadAlloc
        (alloc_buffers c alignment aligned_end left cur h)
unfolding alloc_buffers
alloc_buffers-Tiles c alignment aligned_end zero cur h near small enough =
    let end : ltb cur aligned_end ≡ false = ground arith in rw end (no_more-Tiles _ (omega arith))
alloc_buffers-Tiles c alignment aligned_end (suc left) cur h near small enough =
    elim (dec_lt cur aligned_end) [
      | no past ↦
          let end : ltb cur aligned_end ≡ false = ground arith in
          rw end (no_more-Tiles _ (omega arith))
      | yes inside ↦
          let more : ltb cur aligned_end ≡ true = ground arith in
          let next : add64 cur single_buf_size ≡ cur + single_buf_size = omega arith in
          rw (more, buf_len_at_lem aligned_end cur inside small, next)
            (Ends->>= _ _ OnlyBadAlloc _ _
              (alloc_aligned_size c h (min single_buf_size (aligned_end - cur)) alignment)
              λ mem long.
                Ends->>= _ _ OnlyBadAlloc _ _
                  (alloc_buffers-Tiles c alignment aligned_end left (cur + single_buf_size) _
                    (omega arith) small (omega arith))
                  λ bs tiles. one_more-Tiles (aligned_end - cur) mem bs (omega arith) long (
                    subst (λ n. Tiles n bs) {x = aligned_end - (cur + single_buf_size)}
                      (omega arith) tiles))
    ]

pub num_bufs_of-enough : (n : ℕ) → n ≤ num_bufs_of n * single_buf_size
unfolding num_bufs_of
num_bufs_of-enough n = ground arith

overwrite_front : (xs ys : List ℕ) → overwrite xs 0 ys ≡ ys ++ drop (length ys) xs
overwrite_front xs ys = ap (λ n. ys ++ drop n xs) {x = 0 + length ys} (omega arith)

-- Filled from the front, the buffers hold the bytes, and behind them what they held.
pub held-scatter :
    (bs : List Buffer) (bytes : List ℕ)
    → length bytes ≤ room bs
    → held (scatter bs bytes) ≡ bytes ++ drop (length bytes) (held bs)
unfolding held room scatter
held-scatter [] [] h = refl
held-scatter [] (x ∷ bytes) h = absurd (omega arith)
held-scatter (b ∷ bs) bytes h =
    let ih =
      held-scatter bs (drop (length b.bytes) bytes)
        (omega (arith, length-drop (length b.bytes) bytes)) in
    let behind : drop (length bytes) (b.bytes ++ held bs)
        ≡ drop (length bytes) b.bytes ++ drop (length bytes - length b.bytes) (held bs) =
      drop-append (length bytes) b.bytes (held bs) in
    elim (dec_lt (length b.bytes) (length bytes)) [
      | no short ↦
          let whole : take (length b.bytes) bytes ≡ bytes = take-all _ bytes (omega arith) in
          let none_left : drop (length b.bytes) bytes ≡ [] = drop-all _ bytes (omega arith) in
          let nothing : length bytes - length b.bytes ≡ 0 = omega arith in
          rw (ih, behind, whole, none_left, nothing, overwrite_front b.bytes bytes)
            (append_assoc bytes (drop (length bytes) b.bytes) (held bs))
      | yes long ↦
          let full : length (take (length b.bytes) bytes) ≡ length b.bytes =
            omega (arith, length-take (length b.bytes) bytes) in
          let over : drop (length (take (length b.bytes) bytes)) b.bytes ≡ [] =
            drop-all _ b.bytes (omega arith) in
          let past : drop (length bytes) b.bytes ≡ [] = drop-all _ b.bytes (omega arith) in
          let later : length (drop (length b.bytes) bytes) ≡ length bytes - length b.bytes =
            length-drop (length b.bytes) bytes in
          let front = take (length b.bytes) bytes in
          let rest = drop (length bytes - length b.bytes) (held bs) in
          rw (ih, behind, past, later, overwrite_front b.bytes front, over, append-nil)
            (sym (append_assoc front (drop (length b.bytes) bytes) rest)
              ∙ ap (λ l. l ++ rest) (take-append-drop (length b.bytes) bytes))
    ]

pub length-scatter : (bs : List Buffer) (bytes : List ℕ) → length (scatter bs bytes) ≡ length bs
unfolding scatter
length-scatter [] bytes = refl
length-scatter (b ∷ bs) bytes = ap suc (length-scatter bs (drop (length b.bytes) bytes))

-- Each buffer keeps its size.
filled_size : (xs bytes : List ℕ) → length (overwrite xs 0 (take (length xs) bytes)) ≡ length xs
filled_size xs bytes =
    length-overwrite xs 0 (take (length xs) bytes) (omega (arith, length-take (length xs) bytes))

pub scatter-AllHold : (bs : List Buffer) (bytes : List ℕ) → AllHold bs → AllHold (scatter bs bytes)
unfolding scatter
scatter-AllHold [] bytes h = tt
scatter-AllHold (b ∷ bs) bytes h =
    (rw (filled_size b.bytes bytes) h.0, scatter-AllHold bs (drop (length b.bytes) bytes) h.1)

pub scatter-FirstHolds :
    (n : ℕ) (bs : List Buffer) (bytes : List ℕ) → FirstHolds n bs → FirstHolds n (scatter bs bytes)
unfolding scatter
scatter-FirstHolds n [] bytes h = tt
scatter-FirstHolds n (b ∷ bs) bytes h = rw (filled_size b.bytes bytes) h

get_at :
    (before : Heap) (b : Buffer) (bs : List Buffer)
    → get_elem? (before ++ b ∷ bs) (length before) ≡ some b
get_at [] b bs = refl
get_at (a ∷ before) b bs = get_at before b bs

one_on :
    (before : Heap) (b : Buffer) (bs : List Buffer) → (before ++ b ∷ []) ++ bs ≡ before ++ b ∷ bs
one_on before b bs = append_assoc before (b ∷ []) bs

-- The pointers to buffers at the end of the heap see what these hold.
pub flat-pointers :
    (before : Heap) (bs : List Buffer)
    → flat (before ++ bs) (pointers (length before) (length bs)) ≡ held bs
unfolding held pointers
flat-pointers before [] = refl
flat-pointers before (b ∷ bs) =
    let rest =
      rw (one_on before b bs, length-append before (b ∷ [])) at
        (flat-pointers (before ++ b ∷ []) bs) in
    rw (get_at before b bs) (ap (λ l. b.bytes ++ l) rest)

pub pointers-IsFull :
    (before : Heap) (bs : List Buffer)
    → AllHold bs
    → IsFull (before ++ bs) (pointers (length before) (length bs))
unfolding pointers
pointers-IsFull before [] h = tt
pointers-IsFull before (b ∷ bs) h =
    let rest =
      rw (one_on before b bs, length-append before (b ∷ [])) at
        (pointers-IsFull (before ++ b ∷ []) bs h.1) in
    (rw (get_at before b bs) h.0, rest)

pub pointers-Begins :
    (before : Heap) (n : ℕ) (bs : List Buffer)
    → FirstHolds n bs
    → Begins (before ++ bs) n (pointers (length before) (length bs))
unfolding pointers
pointers-Begins before n [] h = tt
pointers-Begins before n (b ∷ bs) h = rw (get_at before b bs) h
