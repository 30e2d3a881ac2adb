-- ===== src/MemoryManager/SubSession/Tests.antt =====
-- Runs of the allocator on a sub session with one mapping, which has two chunks in use.
use coherent.Common.{
  ℕ, ◌+◌, ◌^◌, ◌≡◌, ◌≤◌, ◌<◌, refl, none, some, [], ◌∷◌, leb, arith, if◌then◌else◌, ok, Ends, max,
}
use coherent.MemoryManager.Containers.{Chunks, map_find}
use coherent.MemoryManager.SubSession.Sound.{IsSound}
use coherent.MemoryManager.SubSession.Allocate.{Handed, allocate_effect}
use coherent.Common.{OnlyBadAlloc}
use coherent.MemoryManager.SubSession.Deallocate.{Freed, deallocate_effect}
use coherent.MemoryManager.SubSession.{Sizes, State, Mapper, cover, allocate, deallocate}

abbrev top : Chunks → ℕ
top [] = 4096
top ((p, n) ∷ m) = max (p + n) (top m)

cover-top : (a : ℕ) (m : Chunks) → top m ≤ a → cover a m ≡ 0
cover-top a [] h = refl
cover-top a ((p, n) ∷ m) h = ground (arith, cover-top a m)

from_4096 : (m : Chunks) → 4096 ≤ top m
from_4096 [] = omega arith
from_4096 ((p, n) ∷ m) = omega (arith, from_4096 m)

-- A kernel that maps behind everything that is mapped.
abbrev behind : Mapper
behind = record {
  mmap = λ m n. if leb (top m + n) (2 ^ 64) then some (top m) else none;
  fresh = λ m n p e a h l. cover-top a m (ground arith);
  in_space = λ m n p e. ground (arith, from_4096 m);
}

abbrev sizes : Sizes
sizes = record { page_size = 16; max_small_alloc_pages_1024 = 512; single_small_alloc_pages = 2 }

abbrev two_chunks : State
two_chunks = record {
  self = 0;
  sub = record {
    allocated_bytes = 32;
    allocs = (4096, 32) ∷ [];
    small_allocs = (4096, 8) ∷ (4112, 4) ∷ [];
    free_small_chunks = (4104, 8) ∷ (4116, 12) ∷ [];
    free_small_chunks_inv = (8, 4104) ∷ (12, 4116) ∷ [];
  };
  parent = record {
    ram_limit_bytes = 0;
    total_limit_bytes = 0;
    ram_allocated_bytes = 32;
    total_allocated_bytes = 32;
    allocs = (4096, 0) ∷ [];
  };
}

two_chunks-IsSound : IsSound two_chunks.sub
unfolding map_find
two_chunks-IsSound = record {
  mappings = record { sorted = ground arith; filled = λ p n e. ground arith };
  small = record { sorted = ground arith; filled = λ p n e. ground arith };
  free = record {
    map = record { sorted = ground arith; filled = λ p n e. ground arith };
    inverse = λ p n. ground arith;
  };
  apart = λ a. ground arith;
  once = λ a. ground arith;
  small_within = λ p n e. record {
    start = 4096;
    bytes = 32;
    found = refl;
    from_start = ground arith;
    to_end = ground arith;
  };
  free_within = λ p n e. record {
    start = 4096;
    bytes = 32;
    found = refl;
    from_start = ground arith;
    to_end = ground arith;
  };
  addresses = λ a h. ground arith;
}

allocate_effect_example :
    Ends (Handed sizes two_chunks.sub 8) OnlyBadAlloc (allocate behind sizes 8 two_chunks)
allocate_effect_example = allocate_effect behind sizes 8 two_chunks two_chunks-IsSound (record {
  some_bytes = ground arith;
  page = ground arith;
  room = ground arith;
  no_wrap = ground arith;
})

chunk_found : map_find 4112 two_chunks.sub.small_allocs ≡ some 4
unfolding map_find
chunk_found = refl

no_seam :
    (start size : ℕ)
    → map_find start two_chunks.sub.allocs ≡ some size
    → start ≤ 4112
    → 4112 < start + size
    → map_find (start + size) two_chunks.sub.free_small_chunks ≡ none
unfolding map_find
no_seam start size e h l = ground arith

deallocate_effect_example :
    (s' : State) × (deallocate 4112 4 two_chunks ≡ ok s') × Freed two_chunks.sub 4112 4 s'.sub
deallocate_effect_example =
    deallocate_effect 4112 4 two_chunks two_chunks-IsSound chunk_found no_seam
