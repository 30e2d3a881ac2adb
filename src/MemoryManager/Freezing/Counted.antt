-- ===== src/MemoryManager/Freezing/Counted.antt =====
-- The count of threads of src/memory_manager/sub_session.cpp, and the charge to the parent session.
use coherent.Common.{
  ℕ, zero, suc, ◌+◌, ◌^◌, ◌≡◌, ◌≢◌, ◌≤◌, ◌<◌, refl, Bool, true, false, Option, none, some, List, [],
  ◌∷◌, ◌==◌, if◌then◌else◌, set, length, arith,
}
use coherent.MemoryManager.Freezing.{
  minus_one, Freezable, frozen_of, Call, calls_begin, calls_end, calls_freeze, calls_unfreeze,
  calls_allocate, calls_deallocate,
}

-- The threads that began and are not frozen, and those that began.
abbrev pub unfrozen : List (Option Bool) → ℕ
unfrozen [] = 0
unfrozen (none ∷ l) = unfrozen l
unfrozen (some true ∷ l) = unfrozen l
unfrozen (some false ∷ l) = 1 + unfrozen l

abbrev pub begun : List (Option Bool) → ℕ
begun [] = 0
begun (none ∷ l) = begun l
begun (some f ∷ l) = 1 + begun l

-- The parent's sum, with the bytes that freezing took off it.
abbrev pub full_charge : Freezable → ℕ
full_charge s =
    s.parent_ram_allocated_bytes + (if s.unfrozen_threads_count == 0 then s.allocated_bytes else 0)

-- The count is that of the unfrozen threads, or -1 before the first `begin`, and the allocated bytes
-- are part of the parent's sum unless all threads are frozen.
pub record IsCounted (s : Freezable) : Type 0 where
  pub counted :
      s.unfrozen_threads_count ≡ (if begun s.frozen == 0 then minus_one else unfrozen s.frozen)
  pub few_threads : length s.frozen < 2 ^ 31
  pub charged : s.unfrozen_threads_count ≢ 0 → s.allocated_bytes ≤ s.parent_ram_allocated_bytes
  pub no_wrap : full_charge s + s.allocated_bytes < 2 ^ 64

pub unfrozen-le-begun : (l : List (Option Bool)) → (unfrozen l ≤ begun l) × (begun l ≤ length l)
unfrozen-le-begun [] = (omega arith, omega arith)
unfrozen-le-begun (none ∷ l) = omega (arith, unfrozen-le-begun l)
unfrozen-le-begun (some true ∷ l) = omega (arith, unfrozen-le-begun l)
unfrozen-le-begun (some false ∷ l) = omega (arith, unfrozen-le-begun l)

unfoldable pub one_unfrozen : Option Bool → ℕ
one_unfrozen none = 0
one_unfrozen (some true) = 0
one_unfrozen (some false) = 1

unfoldable pub one_begun : Option Bool → ℕ
one_begun none = 0
one_begun (some f) = 1

pub set_lem :
    (l : List (Option Bool)) (t : ℕ) (v : Option Bool)
    → t < length l
    → (unfrozen (set l t v) + one_unfrozen (frozen_of l t) ≡ unfrozen l + one_unfrozen v)
      × (begun (set l t v) + one_begun (frozen_of l t) ≡ begun l + one_begun v)
unfolding one_unfrozen one_begun
set_lem [] t v h = absurd (omega arith)
set_lem (none ∷ l) zero none h = (refl, refl)
set_lem (none ∷ l) zero (some true) h = (omega arith, omega arith)
set_lem (none ∷ l) zero (some false) h = (omega arith, omega arith)
set_lem (some true ∷ l) zero none h = (omega arith, omega arith)
set_lem (some true ∷ l) zero (some true) h = (omega arith, omega arith)
set_lem (some true ∷ l) zero (some false) h = (omega arith, omega arith)
set_lem (some false ∷ l) zero none h = (omega arith, omega arith)
set_lem (some false ∷ l) zero (some true) h = (omega arith, omega arith)
set_lem (some false ∷ l) zero (some false) h = (omega arith, omega arith)
set_lem (none ∷ l) (suc t) v h = set_lem l t v (omega arith)
set_lem (some true ∷ l) (suc t) v h = omega (arith, set_lem l t v)
set_lem (some false ∷ l) (suc t) v h = omega (arith, set_lem l t v)

pub begun_of_frozen :
    (l : List (Option Bool)) (t : ℕ) (f : Bool) → frozen_of l t ≡ some f → 0 < begun l
begun_of_frozen [] t f e = cc
begun_of_frozen (none ∷ l) zero f e = cc
begun_of_frozen (some g ∷ l) zero f e = omega arith
begun_of_frozen (none ∷ l) (suc t) f e = begun_of_frozen l t f e
begun_of_frozen (some g ∷ l) (suc t) f e = omega arith

abbrev pub thread_of : Call → ℕ
thread_of (calls_begin t) = t
thread_of (calls_end t) = t
thread_of (calls_freeze t) = t
thread_of (calls_unfreeze t) = t
thread_of (calls_allocate t bytes) = t
thread_of (calls_deallocate t bytes) = t

-- A mapping does not make the sums wrap around, and is given back while some thread has the sub
-- session unfrozen.
abbrev pub IsAllowed : Call → Freezable → Type 0
IsAllowed (calls_begin t) s = Unit {0}
IsAllowed (calls_end t) s = Unit {0}
IsAllowed (calls_freeze t) s = Unit {0}
IsAllowed (calls_unfreeze t) s = Unit {0}
IsAllowed (calls_allocate t bytes) s = full_charge s + s.allocated_bytes + bytes + bytes < 2 ^ 64
IsAllowed (calls_deallocate t bytes) s =
    (s.unfrozen_threads_count ≢ 0) × (bytes ≤ s.allocated_bytes)

-- The count is right afterwards, and beside the allocated bytes the parent is charged as before.
pub record Kept (s s' : Freezable) : Type 0 where
  pub counted : IsCounted s'
  pub same_charge : full_charge s' + s.allocated_bytes ≡ full_charge s + s'.allocated_bytes

pub unchanged : (s : Freezable) → IsCounted s → Kept s s
unchanged s v = record { counted = v; same_charge = refl }
