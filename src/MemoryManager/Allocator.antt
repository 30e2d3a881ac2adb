-- ===== src/MemoryManager/Allocator.antt =====
-- The allocator for containers: src/include/memory_manager/allocator.h. The current sub session of
-- the thread is an argument, `none` without one, with what `frozen` holds for the thread.
pub mod Limits
mod Tests
use coherent.Common.{
  ℕ, ◌≡◌, Bool, true, false, not, ◌||◌, Option, none, some, ltb, leb, ◌==◌, if◌then◌else◌, add64,
  sub64, mul64, Exception, Outcome, ok, throws, aborts, ◌>>=◌, ◌>>◌, assert, throw_unless,
}
use coherent.MemoryManager.SubSession.{Mapper, Sizes, State, allocate, deallocate}

-- `mss->frozen.get() && !*mss->frozen.get()`
abbrev pub is_unfrozen : Option Bool → Bool
is_unfrozen none = false
is_unfrozen (some frozen) = not frozen

-- `allocate(n)` for elements of `size_of` bytes; `max_size` is that of `std::allocator<T>`.
unfoldable pub allocate_elements :
    Mapper → Sizes → (size_of max_size n : ℕ) → Option Bool → State → Outcome (ℕ × State)
unfolding allocate
allocate_elements c z size_of max_size n frozen s = if n == 0 then ok (0, s) else (do
  let needed_bytes = mul64 size_of n
  assert (is_unfrozen frozen)
  assert (leb s.parent.ram_limit_bytes max_size)
  assert (leb s.parent.total_limit_bytes max_size)
  throw_unless
      (not (ltb s.parent.ram_limit_bytes (add64 s.parent.ram_allocated_bytes needed_bytes)))
      Exception.out_of_session_ram_memory
  throw_unless
      (not (ltb s.parent.total_limit_bytes (add64 s.parent.total_allocated_bytes needed_bytes)))
      Exception.out_of_session_total_memory
  allocate c z needed_bytes s)

pub deallocate_elements : (size_of n : ℕ) → ℕ → State → Outcome State
unfolding deallocate
deallocate_elements size_of n ptr s =
    if n == 0 || ptr == 0 then ok s else deallocate ptr (mul64 size_of n) s
