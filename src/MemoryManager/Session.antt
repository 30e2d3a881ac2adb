-- ===== src/MemoryManager/Session.antt =====
-- A memory session, which threads begin, freeze and unfreeze: src/memory_manager/session.cpp and
-- src/include/memory_manager/session.h. A thread is a number; a sub session is its place in the list.
pub mod Steps
pub mod Freezes
pub mod Reserved
pub mod Lifetime
mod Tests
use coherent.Common.{
  ℕ, ◌+◌, Bool, true, false, not, Option, none, some, List, [], ◌∷◌, ◌==◌, ◌≡◌, ◌<◌, ◌^◌, length,
  if◌then◌else◌, set, get_elem?, replicate, add32, sub32, Outcome, ok, aborts, faults, ◌>>=◌, ◌>>◌,
  assert,
}
use coherent.MemoryManager.Freezing.{
  Freezable, frozen_of, count_thread, begins, freeze, unfreeze, minus_one,
}
use coherent.MemoryManager.Manager.{
  Manager, join_queue, go_on, give_up, try_reserve_ram_bytes, free_ram_bytes, free_total_bytes, ram,
  total,
}

-- What the sessions' calls read and write of a `memory_sub_session`.
pub record Sub : Type 0 where
  pub frozen : List (Option Bool)
  pub unfrozen_threads_count : ℕ
  pub allocated_bytes : ℕ

-- `current` has the thread's `current_sub_session` where that is one of this session.
pub record Session : Type 0 where
  pub frozen : List (Option Bool)
  pub unfrozen_threads_count : ℕ
  pub ram_limit_bytes : ℕ
  pub total_limit_bytes : ℕ
  pub ram_allocated_bytes : ℕ
  pub total_allocated_bytes : ℕ
  pub default_sub_session : ℕ
  pub sub_sessions : List Sub
  pub current : List (Option ℕ)

-- A sub session and the fields of its parent that its calls use; `current` is kept by the session.
abbrev pub with_parent : (allocated limit : ℕ) → Sub → Freezable
with_parent allocated limit u = record {
  frozen = u.frozen;
  is_current = [];
  unfrozen_threads_count = u.unfrozen_threads_count;
  allocated_bytes = u.allocated_bytes;
  parent_ram_allocated_bytes = allocated;
  parent_ram_limit_bytes = limit;
}

abbrev pub sub_of : Freezable → Sub
sub_of f = record {
  frozen = f.frozen;
  unfrozen_threads_count = f.unfrozen_threads_count;
  allocated_bytes = f.allocated_bytes;
}

-- The session with a sub session that a call has left as `f`.
abbrev pub with_sub : Session → ℕ → Freezable → Session
with_sub s i f = record s {
  sub_sessions = set s.sub_sessions i (sub_of f);
  ram_allocated_bytes = f.parent_ram_allocated_bytes;
}

abbrev pub default_of : Session → Outcome Freezable
default_of s = elim (get_elem? s.sub_sessions s.default_sub_session) [
  | none ↦ faults
  | some u ↦ ok (with_parent s.ram_allocated_bytes s.ram_limit_bytes u)
]

-- The part of `begin` before the default sub session's.
unfoldable pub enter : ℕ → Session → Session
enter t s = elim (frozen_of s.frozen t) [
  | some f ↦ s
  | none ↦
      if s.unfrozen_threads_count == 0
      then record s { frozen = set s.frozen t (some true) }
      else record s {
        frozen = set s.frozen t (some false);
        unfrozen_threads_count = count_thread s.unfrozen_threads_count;
      }
]

unfoldable pub begin : ℕ → Session → Outcome Session
unfolding enter begins
begin t s = do
  u ← default_of s
  ok (record (with_sub (enter t s) s.default_sub_session (begins t u)) {
    current = set s.current t (some s.default_sub_session);
  })

-- The constructors once the manager has reserved both limits, called by the thread `t`.
unfoldable pub construct_session :
    (t threads : ℕ) → (ram_limit total_limit : ℕ) → (autostart : Bool) → Outcome Session
unfolding begin
construct_session t threads ram_limit total_limit autostart =
    let s : Session = record {
      frozen = replicate threads none;
      unfrozen_threads_count = minus_one;
      ram_limit_bytes = ram_limit;
      total_limit_bytes = total_limit;
      ram_allocated_bytes = 0;
      total_allocated_bytes = 0;
      default_sub_session = 0;
      sub_sessions =
          record {
            frozen = replicate threads none;
            unfrozen_threads_count = minus_one;
            allocated_bytes = 0;
          }
          ∷ [];
      current = replicate threads none;
    } in
    if autostart then begin t s else ok s

unfoldable pub set_default_current : ℕ → Session → Session
set_default_current t s = record s { current = set s.current t (some s.default_sub_session) }

unfoldable pub set_ram_limit_bytes : ℕ → Session → Session
set_ram_limit_bytes bytes s = record s { ram_limit_bytes = bytes }

unfoldable pub set_total_limit_bytes : ℕ → Session → Session
set_total_limit_bytes bytes s = record s { total_limit_bytes = bytes }

unfoldable pub end : ℕ → Session → Session
end t s = record s { current = set s.current t none }

-- The loop of `freeze` over the sub sessions, and `ram_allocated_bytes` after it.
unfoldable pub freeze_subs : ℕ → (allocated limit : ℕ) → List Sub → Outcome (List Sub × ℕ)
unfolding freeze
freeze_subs t allocated limit [] = ok ([], allocated)
freeze_subs t allocated limit (u ∷ us) = do
  f ← freeze t (with_parent allocated limit u)
  (rest, left) ← freeze_subs t f.parent_ram_allocated_bytes limit us
  ok (sub_of f ∷ rest, left)

unfoldable pub freeze_session : ℕ → Session → Manager → Outcome (Session × Manager)
unfolding freeze_subs free_ram_bytes
freeze_session t s m = elim (frozen_of s.frozen t) [
  | none ↦ aborts
  | some true ↦ ok (s, m)
  | some false ↦
      let n = sub32 s.unfrozen_threads_count 1 in
      let s' : Session = record s {
        unfrozen_threads_count = n;
        frozen = set s.frozen t (some true);
      } in
      if n == 0
      then (do
        (subs, left) ← freeze_subs t s.ram_allocated_bytes s.ram_limit_bytes s.sub_sessions
        ok (
          record s' { sub_sessions = subs; ram_allocated_bytes = left },
          (free_ram_bytes s.ram_limit_bytes m).0,
        ))
      else ok (s', m)
]

-- What the three calls that unfreeze do once the manager has reserved the bytes.
unfoldable pub resume : ℕ → Session → Outcome Session
unfolding unfreeze
resume t s = do
  u ← default_of s
  (done, f) ← unfreeze t u
  assert done
  ok (record (with_sub s s.default_sub_session f) {
    unfrozen_threads_count = add32 s.unfrozen_threads_count 1;
    frozen = set s.frozen t (some false);
  })

unfoldable pub try_unfreeze : ℕ → Session → Manager → Outcome (Bool × Session × Manager)
unfolding resume try_reserve_ram_bytes
try_unfreeze t s m = elim (frozen_of s.frozen t) [
  | none ↦ aborts
  | some false ↦ ok (true, s, m)
  | some true ↦
      if s.unfrozen_threads_count == 0
      then (do
        (done, m') ← try_reserve_ram_bytes s.ram_limit_bytes m
        if done then (do s' ← resume t s; ok (true, s', m')) else ok (false, s, m))
      else ok (true, s, m)
]

-- `unfreeze` and `timed_unfreeze` up to the wait: `false` where there is nothing to wait for.
unfoldable pub unfreeze_joins :
    ℕ → (unfreeze_condition : ℕ) → Session → Manager → Outcome (Bool × Manager)
unfreeze_joins t unfreeze_condition s m = elim (frozen_of s.frozen t) [
  | none ↦ aborts
  | some false ↦ ok (false, m)
  | some true ↦
      if s.unfrozen_threads_count == 0
      then (do m' ← join_queue ram unfreeze_condition s.ram_limit_bytes m; ok (true, m'))
      else ok (false, m)
]

-- The test of the loop and what follows it: `none` is another wait.
unfoldable pub unfreeze_goes_on :
    ℕ → (unfreeze_condition : ℕ) → Session → Manager → Outcome (Option (Session × Manager))
unfolding resume
unfreeze_goes_on t unfreeze_condition s m =
    go_on ram unfreeze_condition s.ram_limit_bytes m >>= λ r. elim r [
      | none ↦ ok none
      | some m' ↦ resume t s >>= λ s'. ok (some (s', m'))
    ]

-- `~memory_session`, which gives both reservations back.
unfoldable pub destroy : Session → Manager → Manager
unfolding free_total_bytes free_ram_bytes
destroy s m = (free_ram_bytes s.ram_limit_bytes (free_total_bytes s.total_limit_bytes m).0).0

-- The calls of threads that do not wait, each until it returns.
pub data SessionCall : Type 0 where
  begins_it ends_it freezes_it tries_unfreezing becomes_current : ℕ → SessionCall
  sets_ram_limit sets_total_limit : ℕ → SessionCall

unfoldable pub run_session : SessionCall → Session → Manager → Outcome (Session × Manager)
unfolding begin end set_default_current freeze_session try_unfreeze set_ram_limit_bytes
    set_total_limit_bytes
run_session (begins_it t) s m = do s' ← begin t s; ok (s', m)
run_session (ends_it t) s m = ok (end t s, m)
run_session (becomes_current t) s m = ok (set_default_current t s, m)
run_session (freezes_it t) s m = freeze_session t s m
run_session (tries_unfreezing t) s m = do (done, s', m') ← try_unfreeze t s m; ok (s', m')
run_session (sets_ram_limit bytes) s m = ok (set_ram_limit_bytes bytes s, m)
run_session (sets_total_limit bytes) s m = ok (set_total_limit_bytes bytes s, m)
