-- ===== src/File/Tests.antt =====
-- A small file that is read and written on pages of 4 bytes: src/util/file.cpp.
use coherent.Common.{
  ℕ, ◌+◌, ◌%◌, ◌^◌, ◌≡◌, refl, arith, List, [], ◌∷◌, some, none, slice, replicate, length-replicate,
  length, false,
}
use coherent.Common.{Exception, Outcome, ok, throws, aborts, Ends}
use coherent.MultiBuffer.{CAllocator, Heap, MultiBuffer, alloc_aligned, construct}
use coherent.MultiBuffer.Counts.{contents}
use coherent.MultiBuffer.Read.{IsValid}
use coherent.File.{moved, interrupted, File, read, write, open_internal, close}
use coherent.File.Reading.{Shows, ReadFails, read-Ends}
use coherent.File.Writing.{Incomplete, write-Ends, read-write}
use coherent.File.Wrap.{read-wraps}

memory_size : (n : ℕ) (m : List ℕ) → some (replicate n 0) ≡ some m → length m ≡ n
memory_size n m e = let same : replicate n 0 ≡ m = cc in rw (← same) (length-replicate n 0)

-- Memory that never runs out.
abbrev memory : CAllocator
memory = record {
  malloc = λ h n. some (replicate n 0);
  posix_memalign = λ h a n. some (replicate n 0);
  malloc_size = λ h n m e. memory_size n m e;
  posix_memalign_size = λ h a n m e. memory_size n m e;
}

abbrev log_file : File
log_file = record { path = 108 ∷ 111 ∷ 103 ∷ []; fd = some 5 }

abbrev ten : List ℕ
ten = 10 ∷ 11 ∷ 12 ∷ 13 ∷ 14 ∷ 15 ∷ 16 ∷ 17 ∷ 18 ∷ 19 ∷ []

abbrev old_heap : Heap
old_heap = record { bytes = 1 ∷ 2 ∷ []; uses = 1 } ∷ []

-- The bytes 15 and 16 are in the middle of the second page.
read_middle :
    read memory 4 ten (interrupted (moved 100)) log_file old_heap 2 5
    ≡ ok (
      record { bytes = 1 ∷ 2 ∷ []; uses = 1 }
          ∷ record { bytes = 14 ∷ 15 ∷ 16 ∷ 17 ∷ []; uses = 1 }
          ∷ [],
      record { buffers = 1 ∷ []; size = 2; left_off = 1 },
    )
unfolding read alloc_aligned construct
read_middle = refl

read_past : read memory 4 ten (moved 100) log_file old_heap 4 8 ≡ throws Exception.io_exception
unfolding read alloc_aligned
read_past = refl

read-Ends_example :
    Ends
      (Shows old_heap ten 2 5)
      (ReadFails (interrupted (moved 100)) ten (5 % 2 ^ 2) 2 5)
      (read memory (2 ^ 2) ten (interrupted (moved 100)) log_file old_heap 2 5)
read-Ends_example =
    read-Ends memory 2 ten (interrupted (moved 100)) log_file old_heap 2 5 refl (omega arith)
      (omega arith)

read-wraps_example :
    read memory (2 ^ 2) ten (moved 100) log_file old_heap 2 (5 + 2 ^ 32)
    ≡ read memory (2 ^ 2) ten (moved 100) log_file old_heap 2 5
read-wraps_example =
    read-wraps memory 2 ten (moved 100) log_file old_heap 2 5 (omega arith) (omega arith)

abbrev pair : MultiBuffer
pair = record { buffers = 0 ∷ []; size = 2; left_off = 0 }

pair-IsValid : IsValid old_heap pair
pair-IsValid = omega arith

write-Ends_example :
    (file : List ℕ) × (out : Outcome (Unit {0})) × (write ten (moved 1) old_heap pair 12
      ≡ ok (file, out))
    × Ends
        (λ u. slice 12 2 file ≡ contents old_heap pair)
        (λ x. (x ≡ Exception.io_exception) × Incomplete (moved 1) 2)
        out
write-Ends_example = write-Ends ten (moved 1) old_heap pair 12 pair-IsValid

abbrev longer : List ℕ
longer = 10 ∷ 11 ∷ 12 ∷ 13 ∷ 14 ∷ 15 ∷ 16 ∷ 17 ∷ 18 ∷ 19 ∷ 0 ∷ 0 ∷ 1 ∷ 2 ∷ []

write_behind : write ten (moved 2) old_heap pair 12 ≡ ok (longer, ok tt)
unfolding write
write_behind = refl

read-write_example :
    Ends
      (λ r. IsValid r.0 r.1 × (contents r.0 r.1 ≡ contents old_heap pair))
      (ReadFails (moved 8) longer (12 % 2 ^ 2) 2 12)
      (read memory (2 ^ 2) longer (moved 8) log_file [] 2 12)
read-write_example =
    read-write memory 2 log_file (moved 2) (moved 8) ten longer old_heap [] pair 12 pair-IsValid
      write_behind refl (omega arith) (omega arith)

opened_twice : open_internal (λ path flags mode. some 6) 0 false 0 log_file ≡ aborts
unfolding open_internal
opened_twice = refl

closed : close false log_file ≡ ok (record { path = 108 ∷ 111 ∷ 103 ∷ []; fd = none })
unfolding close
closed = refl
