-- ===== src/Threads/Exclusive.antt =====
-- At most one thread has the spin lock, whichever implementation src/include/util/thread.h chooses.
use coherent.Common.{
  ℕ, zero, suc, ◌+◌, ◌≡◌, ◌≤◌, ◌<◌, refl, Bool, true, false, List, [], ◌∷◌, ◌==◌, if◌then◌else◌,
  set, length, ok, arith, Bool-cases, inl, inr,
}
use coherent.Threads.{
  TasImpl, gnu_builtin, asm, spin_impl_locked, spin_impl_unlocked, compare_and_swap, exchange,
  lock_round, spin_unlock, spin_try_lock, SpinMutex, owns_lock, set_locked, lock_once, unlock,
  try_lock, destroy_lock, Move, locks, unlocks, tries_lock, destroys, move,
}

abbrev one_if : Bool → ℕ
one_if true = 1
one_if false = 0

abbrev pub holders : List Bool → ℕ
holders [] = 0
holders (f ∷ l) = one_if f + holders l

holders-set :
    (l : List Bool) (t : ℕ) (f : Bool)
    → t < length l
    → holders (set l t f) + one_if (owns_lock l t) ≡ holders l + one_if f
holders-set [] t f h = absurd (omega arith)
holders-set (g ∷ l) zero f h = omega arith
holders-set (g ∷ l) (suc t) f h = omega (arith, holders-set l t f (omega arith))

owners-le-holders : (l : List Bool) (t : ℕ) → one_if (owns_lock l t) ≤ holders l
owners-le-holders [] t = omega arith
owners-le-holders (g ∷ l) zero = omega arith
owners-le-holders (g ∷ l) (suc t) = omega (arith, owners-le-holders l t)

-- The lock has its value for the number of its holders, which is one at most.
pub record IsExclusive (m : SpinMutex) : Type 0 where
  pub one_holder : holders m.locked ≤ 1
  pub shown : m.lock_impl ≡ (if holders m.locked == 0 then spin_impl_unlocked else spin_impl_locked)

-- The assertions that the callers of a scoped lock answer for.
abbrev pub MayMove : Move → SpinMutex → Type 0
MayMove (locks t) m = (t < length m.locked) × (owns_lock m.locked t ≡ false)
MayMove (unlocks t) m = (t < length m.locked) × (owns_lock m.locked t ≡ true)
MayMove (tries_lock t) m = (t < length m.locked) × (owns_lock m.locked t ≡ false)
MayMove (destroys t) m = t < length m.locked

-- A move that runs to its end and leaves the lock exclusive.
abbrev pub Keeps : TasImpl → Move → SpinMutex → Type 0
Keeps k c m = (m' : SpinMutex) × (move k c m ≡ ok m') × IsExclusive m'

-- A round or an attempt takes a free lock and leaves one that is taken.
takes_lem :
    (m : SpinMutex) (t : ℕ)
    → IsExclusive m
    → t < length m.locked
    → owns_lock m.locked t ≡ false
    → (holders m.locked == 0) ≡ true
    → IsExclusive (set_locked t true spin_impl_locked m)
takes_lem m t v known free none_yet =
    let counted = holders-set m.locked t true known in
    record {
      one_holder = ground (arith, counted, free, none_yet);
      shown = ground (arith, counted, free);
    }

leaves_lem :
    (m : SpinMutex) (t : ℕ)
    → IsExclusive m
    → t < length m.locked
    → owns_lock m.locked t ≡ false
    → (holders m.locked == 0) ≡ false
    → IsExclusive (set_locked t false spin_impl_locked m)
leaves_lem m t v known free taken =
    let counted = holders-set m.locked t false known in
    record {
      one_holder = ground (arith, counted, free, v.one_holder);
      shown = ground (arith, counted, free, taken);
    }

releases_lem :
    (m : SpinMutex) (t : ℕ)
    → IsExclusive m
    → t < length m.locked
    → owns_lock m.locked t ≡ true
    → IsExclusive (set_locked t false spin_impl_unlocked m)
releases_lem m t v known held =
    let counted = holders-set m.locked t false known in
    record {
      one_holder = ground (arith, counted, held, v.one_holder);
      shown = ground (arith, counted, held, v.one_holder);
    }

held_lem :
    (m : SpinMutex) (t : ℕ)
    → IsExclusive m
    → owns_lock m.locked t ≡ true
    → m.lock_impl ≡ spin_impl_locked
held_lem m t v held = ground (arith, owners-le-holders m.locked t, held, v.shown)

spin_unlock_lem : (k : TasImpl) → spin_unlock k spin_impl_locked ≡ ok spin_impl_unlocked
unfolding spin_unlock compare_and_swap exchange
spin_unlock_lem gnu_builtin = refl
spin_unlock_lem asm = refl

-- What a round and an attempt come to, for the two values of the lock.
got_lem :
    (k : TasImpl) (free : Bool)
    → (lock_round k (if free then spin_impl_unlocked else spin_impl_locked)
        ≡ ok (free, spin_impl_locked))
      × (spin_try_lock k (if free then spin_impl_unlocked else spin_impl_locked)
          ≡ ok (free, spin_impl_locked))
unfolding lock_round spin_try_lock compare_and_swap exchange
got_lem gnu_builtin true = (refl, refl)
got_lem gnu_builtin false = (refl, refl)
got_lem asm true = (refl, refl)
got_lem asm false = (refl, refl)

got-IsExclusive :
    (m : SpinMutex) (t : ℕ)
    → IsExclusive m
    → t < length m.locked
    → owns_lock m.locked t ≡ false
    → IsExclusive (set_locked t (holders m.locked == 0) spin_impl_locked m)
got-IsExclusive m t v known free = elim (Bool-cases (holders m.locked == 0)) [
  | inl none_yet ↦ rw none_yet (takes_lem m t v known free none_yet)
  | inr taken ↦ rw taken (leaves_lem m t v known free taken)
]

-- With either implementation, a thread's move on an exclusive lock runs to its end and leaves it exclusive: at
-- most one scoped lock has it locked, and it shows whether one has. No assertion fails, where the thread locks and
-- tries only a scoped lock that is not locked and unlocks only one that is.
pub move-Keeps :
    (k : TasImpl) (c : Move) (m : SpinMutex) → IsExclusive m → MayMove c m → Keeps k c m
unfolding move lock_once unlock try_lock destroy_lock
move-Keeps k (locks t) m v (known, free) =
    let got = (got_lem k (holders m.locked == 0)).0 in
    (_, rw (free, v.shown, got) refl, got-IsExclusive m t v known free)
move-Keeps k (tries_lock t) m v (known, free) =
    let got = (got_lem k (holders m.locked == 0)).1 in
    (_, rw (free, v.shown, got) refl, got-IsExclusive m t v known free)
move-Keeps k (unlocks t) m v (known, held) =
    (_, rw (held, held_lem m t v held, spin_unlock_lem k) refl, releases_lem m t v known held)
move-Keeps k (destroys t) m v known = elim (Bool-cases (owns_lock m.locked t)) [
  | inl held ↦
      (_, rw (held, held_lem m t v held, spin_unlock_lem k) refl, releases_lem m t v known held)
  | inr free ↦ (m, rw free refl, v)
]
