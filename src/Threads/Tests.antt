-- ===== src/Threads/Tests.antt =====
-- Two threads with a spin lock: src/include/util/thread.h.
use coherent.Common.{◌≡◌, refl, true, false, [], ◌∷◌, arith, ok, aborts}
use coherent.Threads.{
  SpinMutex, gnu_builtin, asm, spin_impl_locked, new_mutex, unlock, lock_once, compare_and_swap,
  tries_lock,
}
use coherent.Threads.Exclusive.{IsExclusive, Keeps, move-Keeps}

abbrev held_mutex : SpinMutex
held_mutex = record { lock_impl = spin_impl_locked; locked = false ∷ true ∷ [] }

held_mutex-IsExclusive : IsExclusive held_mutex
held_mutex-IsExclusive = record { one_holder = ground arith; shown = refl }

move-Keeps_example : Keeps asm (tries_lock 0) held_mutex
move-Keeps_example =
    move-Keeps asm (tries_lock 0) held_mutex held_mutex-IsExclusive (ground arith, refl)

second_takes : lock_once gnu_builtin 1 (new_mutex (false ∷ false ∷ [])) ≡ ok held_mutex
unfolding lock_once compare_and_swap
second_takes = refl

unlocked_twice : unlock asm 0 held_mutex ≡ aborts
unfolding unlock
unlocked_twice = refl
