-- ===== src/MemoryManager/Session/Steps.antt =====
-- What threads do with a session, src/memory_manager/session.cpp, as steps.
use coherent.Common.{ℕ, ◌+◌, Bool, Option, none, some, ◌≡◌, ◌<◌, ◌^◌, length, if◌then◌else◌, ok}
use coherent.MemoryManager.Manager.{Manager, give_up}
use coherent.MemoryManager.Session.{
  Session, SessionCall, begins_it, ends_it, freezes_it, tries_unfreezing, becomes_current,
  sets_ram_limit, sets_total_limit, run_session, end, set_default_current, unfreeze_joins,
  unfreeze_goes_on,
}

-- A session and its manager, with the thread that waits in `unfreeze` or `timed_unfreeze` and holds the
-- session's mutex, and the bytes of RAM that the manager has reserved for other sessions.
pub record World : Type 0 where
  pub session : Session
  pub manager : Manager
  pub waiting : Option ℕ
  pub others : ℕ

-- The thread of a call exists. A new limit of RAM, which `set_ram_limit_bytes` does not reserve, is set
-- only while nothing is reserved for the session.
abbrev pub MayCall : SessionCall → Session → ℕ → Type 0
MayCall (begins_it t) s others = t < length s.frozen
MayCall (ends_it t) s others = t < length s.frozen
MayCall (freezes_it t) s others = t < length s.frozen
MayCall (tries_unfreezing t) s others = t < length s.frozen
MayCall (becomes_current t) s others = t < length s.frozen
MayCall (sets_ram_limit bytes) s others =
    (s.unfrozen_threads_count ≡ 0) × (others + bytes + bytes < 2 ^ 64)
MayCall (sets_total_limit bytes) s others = Unit {0}

-- What threads do with one session, and what other sessions do with the manager meanwhile.
pub data SessionStep : World → World → Type 0 where
  calls :
      (w : World) (c : SessionCall) (s' : Session) (m' : Manager)
      → w.waiting ≡ none
      → MayCall c w.session w.others
      → run_session c w.session w.manager ≡ ok (s', m')
      → SessionStep w (record w { session = s'; manager = m' })
  -- These two take no mutex of the session.
  ends_meanwhile : (w : World) (t : ℕ) → SessionStep w (record w { session = end t w.session })
  becomes_current_meanwhile :
      (w : World) (t : ℕ) → SessionStep w (record w { session = set_default_current t w.session })
  joins :
      (w : World) (t unfreeze_condition : ℕ) (waits : Bool) (m' : Manager)
      → w.waiting ≡ none
      → t < length w.session.frozen
      → unfreeze_joins t unfreeze_condition w.session w.manager ≡ ok (waits, m')
      → SessionStep w (record w { manager = m'; waiting = if waits then some t else none })
  goes_on :
      (w : World) (t unfreeze_condition : ℕ) (s' : Session) (m' : Manager)
      → w.waiting ≡ some t
      → unfreeze_goes_on t unfreeze_condition w.session w.manager ≡ ok (some (s', m'))
      → SessionStep w (record w { session = s'; manager = m'; waiting = none })
  gives_up :
      (w : World) (t unfreeze_condition : ℕ) (m' : Manager)
      → w.waiting ≡ some t
      → give_up unfreeze_condition w.manager ≡ ok m'
      → SessionStep w (record w { manager = m'; waiting = none })
  elsewhere :
      (w : World) (m' : Manager) (others' : ℕ)
      → m'.ram_reserved_bytes + w.others ≡ w.manager.ram_reserved_bytes + others'
      → others' + w.session.ram_limit_bytes + w.session.ram_limit_bytes < 2 ^ 64
      → SessionStep w (record w { manager = m'; others = others' })

pub data SessionSteps : World → World → Type 0 where
  stays : (w : World) → SessionSteps w w
  then_step : (u v w : World) → SessionSteps u v → SessionStep v w → SessionSteps u w
