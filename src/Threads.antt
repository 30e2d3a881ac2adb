-- ===== src/Threads.antt =====
-- The spin lock of src/include/util/thread.h: both implementations of its operations, the scoped
-- locks of threads, and their moves as steps. A thread is a number.
pub mod Exclusive
mod Tests
use coherent.Common.{
  ℕ, zero, suc, Bool, true, false, not, List, [], ◌∷◌, ◌==◌, if◌then◌else◌, set, Outcome, ok, ◌>>=◌,
  ◌>>◌, assert,
}

-- The macros `SPIN_IMPL_LOCKED` and `SPIN_IMPL_UNLOCKED`.
abbrev pub spin_impl_locked : ℕ
spin_impl_locked = 187

abbrev pub spin_impl_unlocked : ℕ
spin_impl_unlocked = 245

-- The macros `TAS_IMPL_GNU_BUILTIN` and `TAS_IMPL_ASM`.
pub data TasImpl : Type 0 where
  gnu_builtin asm : TasImpl

-- `__sync_bool_compare_and_swap`: whether it swapped, and the lock afterwards.
unfoldable pub compare_and_swap : (lock old new : ℕ) → Bool × ℕ
compare_and_swap lock old new = if lock == old then (true, new) else (false, lock)

-- `xchgl`: the lock and the register afterwards.
unfoldable pub exchange : (lock locker : ℕ) → ℕ × ℕ
exchange lock locker = (locker, lock)

-- One round of the loop of `SPIN_IMPL_LOCK`: whether it is the last one.
unfoldable pub gnu_lock_round : ℕ → Outcome (Bool × ℕ)
unfolding compare_and_swap
gnu_lock_round lock = ok (compare_and_swap lock spin_impl_unlocked spin_impl_locked)

unfoldable pub asm_lock_round : ℕ → Outcome (Bool × ℕ)
unfolding exchange
asm_lock_round lock =
    let (lock', locker) = exchange lock spin_impl_locked in
    if locker == spin_impl_locked
    then ok (false, lock')
    else (do assert (locker == spin_impl_unlocked); ok (true, lock'))

unfoldable pub gnu_unlock : ℕ → Outcome ℕ
unfolding compare_and_swap
gnu_unlock lock = do
  let (res, lock') = compare_and_swap lock spin_impl_locked spin_impl_unlocked
  assert res
  ok lock'

unfoldable pub asm_unlock : ℕ → Outcome ℕ
unfolding exchange
asm_unlock lock = ok (exchange lock spin_impl_unlocked).0

unfoldable pub gnu_try_lock : ℕ → Outcome (Bool × ℕ)
unfolding compare_and_swap
gnu_try_lock lock = ok (compare_and_swap lock spin_impl_unlocked spin_impl_locked)

unfoldable pub asm_try_lock : ℕ → Outcome (Bool × ℕ)
unfolding exchange
asm_try_lock lock =
    let (lock', locker) = exchange lock spin_impl_locked in ok (locker == spin_impl_unlocked, lock')

-- The operations that the mutex calls.
unfoldable pub lock_round : TasImpl → ℕ → Outcome (Bool × ℕ)
unfolding gnu_lock_round asm_lock_round
lock_round gnu_builtin = gnu_lock_round
lock_round asm = asm_lock_round

unfoldable pub spin_unlock : TasImpl → ℕ → Outcome ℕ
unfolding gnu_unlock asm_unlock
spin_unlock gnu_builtin = gnu_unlock
spin_unlock asm = asm_unlock

unfoldable pub spin_try_lock : TasImpl → ℕ → Outcome (Bool × ℕ)
unfolding gnu_try_lock asm_try_lock
spin_try_lock gnu_builtin = gnu_try_lock
spin_try_lock asm = asm_try_lock

-- A `spin_mutex`, and the `locked` of each thread's scoped lock on it.
pub record SpinMutex : Type 0 where
  pub lock_impl : ℕ
  pub locked : List Bool

-- `spin_mutex()`, and a scoped lock of each thread that has not locked it.
abbrev pub new_mutex : List Bool → SpinMutex
new_mutex locked = record { lock_impl = spin_impl_unlocked; locked = locked }

-- `owns_lock`
abbrev pub owns_lock : List Bool → ℕ → Bool
owns_lock [] t = false
owns_lock (f ∷ l) zero = f
owns_lock (f ∷ l) (suc t) = owns_lock l t

abbrev pub set_locked : ℕ → Bool → ℕ → SpinMutex → SpinMutex
set_locked t f lock m = record { lock_impl = lock; locked = set m.locked t f }

-- `lock`, up to the end of one round.
unfoldable pub lock_once : TasImpl → ℕ → SpinMutex → Outcome SpinMutex
unfolding lock_round
lock_once k t m = do
  assert (not (owns_lock m.locked t))
  (got, lock') ← lock_round k m.lock_impl
  ok (set_locked t got lock' m)

unfoldable pub unlock : TasImpl → ℕ → SpinMutex → Outcome SpinMutex
unfolding spin_unlock
unlock k t m = do
  assert (owns_lock m.locked t)
  lock' ← spin_unlock k m.lock_impl
  ok (set_locked t false lock' m)

unfoldable pub try_lock : TasImpl → ℕ → SpinMutex → Outcome SpinMutex
unfolding spin_try_lock
try_lock k t m = do
  assert (not (owns_lock m.locked t))
  (got, lock') ← spin_try_lock k m.lock_impl
  ok (set_locked t got lock' m)

-- The destructor of a scoped lock.
unfoldable pub destroy_lock : TasImpl → ℕ → SpinMutex → Outcome SpinMutex
unfolding spin_unlock
destroy_lock k t m =
    if owns_lock m.locked t
    then (do lock' ← spin_unlock k m.lock_impl; ok (set_locked t false lock' m))
    else ok m

-- The moves of threads.
pub data Move : Type 0 where
  locks unlocks tries_lock destroys : ℕ → Move

unfoldable pub move : TasImpl → Move → SpinMutex → Outcome SpinMutex
unfolding lock_once unlock try_lock destroy_lock
move k (locks t) m = lock_once k t m
move k (unlocks t) m = unlock k t m
move k (tries_lock t) m = try_lock k t m
move k (destroys t) m = destroy_lock k t m
