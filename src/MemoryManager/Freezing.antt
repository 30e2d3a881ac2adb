-- ===== src/MemoryManager/Freezing.antt =====
-- Freezing and unfreezing of a sub session by threads: `begin`, `freeze`, `unfreeze`, `end` and
-- `set_current` of src/memory_manager/sub_session.cpp. A thread is a number; what it keeps in
-- `thread_specific_ptr`s is its entry of a list.
pub mod Counted
pub mod Calls
mod Tests
use coherent.Common.{
  ℕ, zero, suc, ◌+◌, ◌-◌, ◌^◌, ◌≡◌, Bool, true, false, not, Option, none, some, List, [], ◌∷◌, ltb,
  ◌==◌, if◌then◌else◌, set, add32, sub32, add64, sub64, Outcome, ok, aborts, ◌>>=◌,
}

-- The `int` -1, as its 32 bits.
abbrev pub minus_one : ℕ
minus_one = 2 ^ 32 - 1

-- What the functions read and write: of the sub session, and of its parent.
pub record Freezable : Type 0 where
  pub frozen : List (Option Bool)
  pub is_current : List Bool
  pub unfrozen_threads_count : ℕ
  pub allocated_bytes : ℕ
  pub parent_ram_allocated_bytes : ℕ
  pub parent_ram_limit_bytes : ℕ

-- `frozen.get()` of a thread.
abbrev pub frozen_of : List (Option Bool) → ℕ → Option Bool
frozen_of [] t = none
frozen_of (f ∷ l) zero = f
frozen_of (f ∷ l) (suc t) = frozen_of l t

abbrev pub activate : ℕ → Freezable → Freezable
activate t s = record s { is_current = set s.is_current t true }

abbrev pub deactivate : ℕ → Freezable → Freezable
deactivate t s = record s { is_current = set s.is_current t false }

-- One thread more that is not frozen.
abbrev pub count_thread : ℕ → ℕ
count_thread n = if n == minus_one then 1 else add32 n 1

unfoldable pub begins : ℕ → Freezable → Freezable
begins t s = elim (frozen_of s.frozen t) [
  | some f ↦ activate t s
  | none ↦
      if s.unfrozen_threads_count == 0
      then record (activate t s) { frozen = set s.frozen t (some true) }
      else record (activate t s) {
        frozen = set s.frozen t (some false);
        unfrozen_threads_count = count_thread s.unfrozen_threads_count;
      }
]

-- The pages are given up when no thread is left that has the sub session unfrozen.
unfoldable pub freeze : ℕ → Freezable → Outcome Freezable
freeze t s = elim (frozen_of s.frozen t) [
  | none ↦ aborts
  | some true ↦ ok s
  | some false ↦
      (let n = sub32 s.unfrozen_threads_count 1 in
        let u : Freezable = record s {
          unfrozen_threads_count = n;
          frozen = set s.frozen t (some true);
        } in
        ok (
          if n == 0
          then record u {
            parent_ram_allocated_bytes = sub64 s.parent_ram_allocated_bytes s.allocated_bytes;
          }
          else u))
]

unfoldable pub unfreeze : ℕ → Freezable → Outcome (Bool × Freezable)
unfreeze t s = elim (frozen_of s.frozen t) [
  | none ↦ aborts
  | some false ↦ ok (true, s)
  | some true ↦
      if s.unfrozen_threads_count == 0
      then if ltb s.parent_ram_limit_bytes (add64 s.parent_ram_allocated_bytes s.allocated_bytes)
        then ok (false, s)
        else ok (
          true,
          record s {
            parent_ram_allocated_bytes = add64 s.parent_ram_allocated_bytes s.allocated_bytes;
            unfrozen_threads_count = add32 s.unfrozen_threads_count 1;
            frozen = set s.frozen t (some false);
          },
        )
      else ok (true, s)
]

-- What `add_alloc` and `remove_alloc` do to the sums, for a mapping of so many bytes.
abbrev pub add_bytes : ℕ → Freezable → Freezable
add_bytes bytes s = record s {
  allocated_bytes = add64 s.allocated_bytes bytes;
  parent_ram_allocated_bytes = add64 s.parent_ram_allocated_bytes bytes;
}

abbrev pub remove_bytes : ℕ → Freezable → Freezable
remove_bytes bytes s = record s {
  allocated_bytes = sub64 s.allocated_bytes bytes;
  parent_ram_allocated_bytes = sub64 s.parent_ram_allocated_bytes bytes;
}

-- A mapping for `allocator::allocate`, whose assertion wants the thread unfrozen. `deallocate` has
-- no such assertion.
unfoldable pub allocates : ℕ → ℕ → Freezable → Outcome Freezable
allocates t bytes s = elim (frozen_of s.frozen t) [
  | none ↦ aborts
  | some true ↦ aborts
  | some false ↦ ok (add_bytes bytes s)
]

-- The calls that a thread can make.
pub data Call : Type 0 where
  calls_begin calls_end calls_freeze calls_unfreeze : ℕ → Call
  calls_allocate calls_deallocate : (t bytes : ℕ) → Call

unfoldable pub run : Call → Freezable → Outcome Freezable
unfolding begins freeze unfreeze allocates
run (calls_begin t) s = ok (begins t s)
run (calls_end t) s = ok (deactivate t s)
run (calls_freeze t) s = freeze t s
run (calls_allocate t bytes) s = allocates t bytes s
run (calls_deallocate t bytes) s = ok (remove_bytes bytes s)
run (calls_unfreeze t) s = do (done, s') ← unfreeze t s; ok s'
