-- ===== src/MemoryManager/Allocator/Tests.antt =====
-- An allocation of two elements of four bytes, in a sub session that has a free chunk of eight.
use coherent.Common.{
  ◌+◌, ◌^◌, ◌≡◌, ◌≤◌, refl, false, none, some, [], ◌∷◌, arith, ok, throws, Exception,
}
use coherent.MemoryManager.Containers.{set_above}
use coherent.MemoryManager.SubSession.{Sizes, State, Mapper, single_small_alloc_bytes, allocate}
use coherent.MemoryManager.Allocator.{allocate_elements}
use coherent.MemoryManager.Allocator.Limits.{allocate_elements-near_limits}

abbrev sizes : Sizes
sizes = record { page_size = 16; max_small_alloc_pages_1024 = 512; single_small_alloc_pages = 2 }

-- A kernel without memory.
abbrev no_memory : Mapper
no_memory = record {
  mmap = λ m n. none;
  fresh = λ m n p e a h l. absurd cc;
  in_space = λ m n p e. absurd cc;
}

abbrev before : State
before = record {
  self = 0;
  sub = record {
    allocated_bytes = 32;
    allocs = (4096, 32) ∷ [];
    small_allocs = (4096, 8) ∷ (4112, 4) ∷ [];
    free_small_chunks = (4104, 8) ∷ (4116, 12) ∷ [];
    free_small_chunks_inv = (8, 4104) ∷ (12, 4116) ∷ [];
  };
  parent = record {
    ram_limit_bytes = 64;
    total_limit_bytes = 64;
    ram_allocated_bytes = 32;
    total_allocated_bytes = 32;
    allocs = (4096, 0) ∷ [];
  };
}

abbrev after : State
after = record before {
  sub = record before.sub {
    small_allocs = (4096, 8) ∷ (4104, 8) ∷ (4112, 4) ∷ [];
    free_small_chunks = (4116, 12) ∷ [];
    free_small_chunks_inv = (12, 4116) ∷ [];
  };
}

two_elements : allocate_elements no_memory sizes 4 (2 ^ 60) 2 (some false) before ≡ ok (4104, after)
unfolding allocate_elements allocate set_above
two_elements = refl

allocate_elements-near_limits_example :
    (after.parent.ram_allocated_bytes
      ≤ after.parent.ram_limit_bytes + 16 + single_small_alloc_bytes sizes)
    × (after.parent.total_allocated_bytes
        ≤ after.parent.total_limit_bytes + 16 + single_small_alloc_bytes sizes)
allocate_elements-near_limits_example =
    allocate_elements-near_limits no_memory sizes 4 (2 ^ 60) 2 (some false) before after 4104
      (omega arith) (record { page = omega arith; ram = omega arith; total = omega arith })
      two_elements

too_many :
    allocate_elements no_memory sizes 4 (2 ^ 60) 9 (some false) before
    ≡ throws Exception.out_of_session_ram_memory
unfolding allocate_elements
too_many = refl
