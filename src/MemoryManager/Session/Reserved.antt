-- ===== src/MemoryManager/Session/Reserved.antt =====
-- What the memory manager has reserved for a session through all that threads do with it,
-- src/memory_manager/session.cpp.
use coherent.Common.{
  ℕ, ◌+◌, ◌^◌, ◌≡◌, ◌<◌, refl, ap, subst, ◌∙◌, true, some, none, ◌==◌, if◌then◌else◌, length, ok,
  arith, >>=-eq-ok,
}
use coherent.MemoryManager.Freezing.{
  frozen_of, run, Call, calls_begin, calls_end, calls_freeze, calls_unfreeze, minus_one,
}
use coherent.MemoryManager.Freezing.Counted.{IsCounted, Kept, thread_of, unfrozen, begun, IsAllowed}
use coherent.MemoryManager.Freezing.Calls.{run-Kept}
use coherent.MemoryManager.Manager.{Manager}
use coherent.MemoryManager.Session.{
  Session, begin, end, try_unfreeze, SessionCall, begins_it, ends_it, becomes_current,
  set_default_current, freezes_it, tries_unfreezing, sets_ram_limit, sets_total_limit, run_session,
  set_ram_limit_bytes, set_total_limit_bytes,
}
use coherent.MemoryManager.Session.Steps.{World, MayCall}
use coherent.MemoryManager.Session.Freezes.{
  view, Did, enter_lem, begin_lem, freezes_lem, tries_lem, value-eq,
}

-- The count is that of the threads that have the session unfrozen, or -1 before the first begin, and
-- the manager has reserved the session's limit of RAM unless all threads have it frozen, beside the bytes
-- of the others; a thread that waits to unfreeze the session found that all threads have it frozen.
pub record IsReserved (w : World) : Type 0 where
  pub counted :
      w.session.unfrozen_threads_count
      ≡ (if begun w.session.frozen == 0 then minus_one else unfrozen w.session.frozen)
  pub few_threads : length w.session.frozen < 2 ^ 31
  pub reserved :
      w.manager.ram_reserved_bytes
      ≡ w.others + (if w.session.unfrozen_threads_count == 0 then 0 else w.session.ram_limit_bytes)
  pub no_wrap : w.others + w.session.ram_limit_bytes + w.session.ram_limit_bytes < 2 ^ 64
  pub waits :
      (t : ℕ)
      → w.waiting ≡ some t
      → (frozen_of w.session.frozen t ≡ some true)
        × (w.session.unfrozen_threads_count ≡ 0)
        × (t < length w.session.frozen)

view-IsCounted : (w : World) → IsReserved w → IsCounted (view w.session w.manager)
view-IsCounted w v = record {
  counted = v.counted;
  few_threads = v.few_threads;
  charged = λ h. ground (arith, v.reserved);
  no_wrap = ground (arith, v.reserved, v.no_wrap);
}

-- The bytes reserved after a call that kept the count.
Kept-IsReserved :
    (w : World) (s' : Session) (m' : Manager)
    → IsReserved w
    → Kept (view w.session w.manager) (view s' m')
    → IsReserved (record { session = s'; manager = m'; waiting = none; others = w.others })
Kept-IsReserved w s' m' v kept = record {
  counted = kept.counted.counted;
  few_threads = kept.counted.few_threads;
  reserved = ground (arith, kept.same_charge, kept.counted.charged, v.reserved);
  no_wrap = ground (arith, kept.same_charge, kept.counted.no_wrap, v.reserved);
  waits = λ t e. absurd cc;
}

pub Did-IsReserved :
    (w : World) (c : Call) (s' : Session) (m' : Manager)
    → IsReserved w
    → thread_of c < length w.session.frozen
    → IsAllowed c (view w.session w.manager)
    → Did c w.session w.manager (s', m')
    → IsReserved (record { session = s'; manager = m'; waiting = none; others = w.others })
Did-IsReserved w c s' m' v known allowed did =
    Kept-IsReserved w s' m' v
      (run-Kept c (view w.session w.manager) (view s' m') (view-IsCounted w v) known allowed did)

-- Every call that does not wait keeps the reservation.
pub call_lem :
    (c : SessionCall) (w : World) (s' : Session) (m' : Manager)
    → IsReserved w
    → MayCall c w.session w.others
    → run_session c w.session w.manager ≡ ok (s', m')
    → IsReserved (record { session = s'; manager = m'; waiting = none; others = w.others })
unfolding run_session run end set_default_current set_ram_limit_bytes set_total_limit_bytes
call_lem (begins_it t) w s' m' v known e =
    let (s1, began, same) = >>=-eq-ok (begin t w.session) _ e in
    Did-IsReserved w (calls_begin t) s' m' v known tt (
      subst (Did (calls_begin t) w.session w.manager) (value-eq (s1, w.manager) (s', m') same)
        (ap ok (enter_lem t w.session w.manager ∙ begin_lem t w.session s1 w.manager began)))
call_lem (ends_it t) w s' m' v known e = Did-IsReserved w (calls_end t) s' m' v known tt (
    subst (Did (calls_end t) w.session w.manager) (value-eq (end t w.session, w.manager) (s', m') e)
      refl)
call_lem (becomes_current t) w s' m' v known e = Did-IsReserved w (calls_end t) s' m' v known tt (
    subst (Did (calls_end t) w.session w.manager)
      (value-eq (set_default_current t w.session, w.manager) (s', m') e) refl)
call_lem (freezes_it t) w s' m' v known e =
    Did-IsReserved w (calls_freeze t) s' m' v known tt
      (freezes_lem t w.session w.manager (s', m') e)
call_lem (tries_unfreezing t) w s' m' v known e =
    let ((done, s1, m1), tried, same) = >>=-eq-ok (try_unfreeze t w.session w.manager) _ e in
    Did-IsReserved w (calls_unfreeze t) s' m' v known tt (
      subst (Did (calls_unfreeze t) w.session w.manager) (value-eq (s1, m1) (s', m') same)
        (tries_lem t w.session w.manager done s1 m1 tried))
call_lem (sets_ram_limit bytes) w s' m' v (none_left, no_wrap) e =
    subst
      (λ (r : Session × Manager).
        IsReserved (record { session = r.0; manager = r.1; waiting = none; others = w.others }))
      (value-eq (set_ram_limit_bytes bytes w.session, w.manager) (s', m') e)
      (record {
        counted = v.counted;
        few_threads = v.few_threads;
        reserved = ground (arith, v.reserved, none_left);
        no_wrap = no_wrap;
        waits = λ t f. absurd cc;
      })
call_lem (sets_total_limit bytes) w s' m' v known e =
    subst
      (λ (r : Session × Manager).
        IsReserved (record { session = r.0; manager = r.1; waiting = none; others = w.others }))
      (value-eq (set_total_limit_bytes bytes w.session, w.manager) (s', m') e)
      (record {
        counted = v.counted;
        few_threads = v.few_threads;
        reserved = v.reserved;
        no_wrap = v.no_wrap;
        waits = λ t f. absurd cc;
      })
