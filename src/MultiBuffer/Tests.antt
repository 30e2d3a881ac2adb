-- ===== src/MultiBuffer/Tests.antt =====
-- Three buffers that a multi_buffer and its copy share, and the theorems at them.
use coherent.Common.{
  ℕ, zero, suc, ◌+◌, ◌≤◌, ◌≡◌, refl, List, [], ◌∷◌, some, ok, aborts, replicate, length-replicate,
  arith, Ends, ◌>>=◌, length,
}
use coherent.MultiBuffer.{
  CAllocator, Heap, MultiBuffer, construct, copy, read, write, alloc_aligned, ensure_unique, store,
}
use coherent.MultiBuffer.Construct.{construct_iff_IsValid}
use coherent.MultiBuffer.Counts.{count, uses_at}
use coherent.Common.{OnlyBadAlloc, ◌⊎◌}
use coherent.MultiBuffer.Effect.{write_effect, Written, copy-write, Apart}
use coherent.MultiBuffer.Read.{IsValid, read-contents}

zeroed_size : (n : ℕ) (m : List ℕ) → some (replicate n 0) ≡ some m → length m ≡ n
zeroed_size n m e = let f : replicate n 0 ≡ m = cc in rw (← f) (length-replicate n 0)

-- An allocator that never fails.
abbrev zeroed : CAllocator
zeroed = record {
  malloc = λ h n. some (replicate n 0);
  posix_memalign = λ h a n. some (replicate n 0);
  malloc_size = λ h n m e. zeroed_size n m e;
  posix_memalign_size = λ h a n m e. zeroed_size n m e;
}

abbrev three : Heap
three =
    record { bytes = 1 ∷ 2 ∷ []; uses = 1 }
    ∷ record { bytes = 3 ∷ 4 ∷ 5 ∷ []; uses = 2 }
    ∷ record { bytes = 6 ∷ 7 ∷ []; uses = 1 }
    ∷ []

-- It shows 2 3 4 5 6.
abbrev middle : MultiBuffer
middle = record { buffers = 0 ∷ 1 ∷ 2 ∷ []; size = 5; left_off = 1 }

middle-IsValid : IsValid three middle
middle-IsValid = omega arith

middle_counts : (q : ℕ) → count q middle.buffers ≤ uses_at three q
middle_counts zero = omega arith
middle_counts (suc zero) = omega arith
middle_counts (suc (suc zero)) = omega arith
middle_counts (suc (suc (suc q))) = ground arith

-- Another owner has the middle buffer.
shared_counts : (q : ℕ) → count q middle.buffers + count q (1 ∷ []) ≤ uses_at three q
shared_counts zero = omega arith
shared_counts (suc zero) = omega arith
shared_counts (suc (suc zero)) = omega arith
shared_counts (suc (suc (suc q))) = ground arith

read_across : read zeroed three middle (0 ∷ 0 ∷ 0 ∷ []) 3 1 ≡ ok (3 ∷ 4 ∷ 5 ∷ [])
unfolding read
read_across = refl

construct_short : construct three (0 ∷ 1 ∷ []) 5 1 ≡ aborts
unfolding construct
construct_short = refl

-- The middle buffer is shared, so the write makes a fourth one.
write_across :
    write zeroed three middle (8 ∷ 9 ∷ []) 2 2 0
    ≡ ok (
      record { bytes = 1 ∷ 2 ∷ []; uses = 1 }
          ∷ record { bytes = 3 ∷ 4 ∷ 5 ∷ []; uses = 1 }
          ∷ record { bytes = 6 ∷ 7 ∷ []; uses = 1 }
          ∷ record { bytes = 3 ∷ 8 ∷ 9 ∷ []; uses = 1 }
          ∷ [],
      record middle { buffers = 0 ∷ 3 ∷ 2 ∷ [] },
    )
unfolding write ensure_unique store alloc_aligned
write_across = refl

construct_iff_IsValid_example :
    (construct three (0 ∷ 1 ∷ 2 ∷ []) 5 1 ≡ ok middle → IsValid three middle)
    × (IsValid three middle → construct three (0 ∷ 1 ∷ 2 ∷ []) 5 1 ≡ ok middle)
    × ((construct three (0 ∷ 1 ∷ 2 ∷ []) 5 1 ≡ ok middle)
        ⊎ (construct three (0 ∷ 1 ∷ 2 ∷ []) 5 1 ≡ aborts))
construct_iff_IsValid_example =
    construct_iff_IsValid three (0 ∷ 1 ∷ 2 ∷ []) 5 1 (omega arith) (omega arith) (omega arith)

read-contents_example : read zeroed three middle (0 ∷ 0 ∷ 0 ∷ []) 3 1 ≡ ok (3 ∷ 4 ∷ 5 ∷ [])
read-contents_example =
    read-contents zeroed three middle (0 ∷ 0 ∷ 0 ∷ []) 3 1 middle-IsValid (omega arith) refl

write_effect_example :
    Ends
      (λ r. Written three middle (1 ∷ []) (8 ∷ 9 ∷ []) 2 r.0 r.1)
      OnlyBadAlloc
      (write zeroed three middle (8 ∷ 9 ∷ []) 2 2 0)
write_effect_example =
    write_effect zeroed three middle (1 ∷ []) (8 ∷ 9 ∷ []) 2 2 0 middle-IsValid shared_counts
      (omega arith) refl

copy-write_example :
    Ends {A = Heap × MultiBuffer × MultiBuffer}
      (Apart (2 ∷ 3 ∷ 4 ∷ 5 ∷ 6 ∷ []) (2 ∷ 3 ∷ 8 ∷ 9 ∷ 6 ∷ []))
      OnlyBadAlloc
      (copy three middle >>= λ r.
        write zeroed r.0 middle (8 ∷ 9 ∷ []) 2 2 0 >>= λ w. ok (w.0, r.1, w.1))
copy-write_example =
    copy-write zeroed three middle (8 ∷ 9 ∷ []) 2 2 0 middle-IsValid middle_counts (omega arith)
      refl
