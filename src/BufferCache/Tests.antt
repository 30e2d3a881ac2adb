-- ===== src/BufferCache/Tests.antt =====
-- A cache with three frames: one unbound, one in use, one ready.
use coherent.Common.{◌≡◌, refl, true, false, none, some, [], ◌∷◌, arith, ok}
use coherent.MultiBuffer.{Heap, CAllocator}
use coherent.BufferCache.{Frame, BufferCache, make_ready, get_frame, without, Got}
use coherent.BufferCache.Frames.{IsTidy}
use coherent.BufferCache.Moves.{MovedToEnd, make_ready_lem}
use coherent.BufferCache.Handout.{HandedOut, get_frame-due}

-- A C library without memory.
abbrev exhausted : CAllocator
exhausted = record {
  malloc = λ h n. none;
  posix_memalign = λ h a n. none;
  malloc_size = λ h n m e. absurd cc;
  posix_memalign_size = λ h a n m e. absurd cc;
}

abbrev heap : Heap
heap =
    record { bytes = 1 ∷ []; uses = 1 }
    ∷ record { bytes = 2 ∷ []; uses = 1 }
    ∷ record { bytes = 3 ∷ []; uses = 1 }
    ∷ []

abbrev unused : Frame
unused = record { it = 0; buffer = 0; file = none; is_being_used = false }

abbrev busy : Frame
busy = record { it = 1; buffer = 1; file = some 7; is_being_used = true }

abbrev filled : Frame
filled = record { it = 2; buffer = 2; file = some 8; is_being_used = false }

abbrev cache : BufferCache
cache = record {
  unbound = unused ∷ [];
  in_use = busy ∷ [];
  ready = filled ∷ [];
  n_buffers = 3;
  buffer_size = 1;
  alignment = 0;
}

cache-IsTidy : IsTidy cache
cache-IsTidy = (((refl, refl), tt), ((refl, refl), tt), ((refl, refl), tt))

abbrev full : BufferCache
full = record cache { unbound = [] }

get_frame-due_example :
    (r : Got × Heap × BufferCache) × (get_frame exhausted heap 9 cache ≡ ok r)
    × HandedOut exhausted heap 9 unused (record { bytes = 1 ∷ []; uses = 1 }) refl cache r
get_frame-due_example =
    get_frame-due exhausted heap 9 cache unused (record { bytes = 1 ∷ []; uses = 1 }) cache-IsTidy
      refl refl

make_ready_lem_example :
    (s' : BufferCache) × (make_ready 1 cache ≡ ok s')
    × MovedToEnd 1 cache (busy ∷ []) [] (filled ∷ []) s'
unfolding without
make_ready_lem_example = make_ready_lem 1 cache cache-IsTidy (omega arith) (omega arith)
