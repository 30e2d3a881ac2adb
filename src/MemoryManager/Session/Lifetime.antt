-- ===== src/MemoryManager/Session/Lifetime.antt =====
-- A session from one state to any later one, and to its destruction, src/memory_manager/session.cpp.
use coherent.Common.{
  ℕ, ◌≡◌, ◌<◌, refl, sym, ap, subst, ◌∙◌, Bool, true, false, Option, some, none, [], ◌∷◌, ◌==◌,
  if◌then◌else◌, ◌++◌, length, ok, ltb, arith, >>=-eq-ok, Option-cases, Bool-cases, inl, inr, sub64,
}
use coherent.MemoryManager.Freezing.{frozen_of, run, calls_unfreeze}
use coherent.MemoryManager.Manager.{Manager, free_ram_bytes, free_total_bytes, give_up, erase_first}
use coherent.MemoryManager.Session.{unfreeze_joins, Session, end, set_default_current, destroy}
use coherent.MemoryManager.Session.Steps.{
  World, SessionStep, SessionSteps, calls, ends_meanwhile, becomes_current_meanwhile, joins,
  goes_on, gives_up, elsewhere, stays, then_step,
}
use coherent.MemoryManager.Session.Freezes.{goes_on_lem}
use coherent.MemoryManager.Session.Reserved.{IsReserved, Did-IsReserved, call_lem}

-- A call that has joined the queue found the session frozen by all, and reserved nothing yet.
join_lem :
    (t unfreeze_condition : ℕ) (s : Session) (m m' : Manager) (waits : Bool)
    → unfreeze_joins t unfreeze_condition s m ≡ ok (waits, m')
    → (m'.ram_reserved_bytes ≡ m.ram_reserved_bytes)
      × (waits ≡ true → (frozen_of s.frozen t ≡ some true) × (s.unfrozen_threads_count ≡ 0))
unfolding unfreeze_joins
join_lem t unfreeze_condition s m m' waits e = elim (Option-cases (frozen_of s.frozen t)) [
  | inl new ↦ absurd (let f = rw (unfreeze_joins, new) at e in cc)
  | inr (was, at) ↦ elim (Bool-cases was) [
    | inr unfrozen_ ↦
        let f = rw (unfreeze_joins, at, unfrozen_) at e in
        let same : m ≡ m' = cc in
        let no : false ≡ waits = cc in
        (ap (λ (x : Manager). x.ram_reserved_bytes) (sym same), λ yes. absurd cc)
    | inl frozen ↦ elim (Bool-cases (s.unfrozen_threads_count == 0)) [
      | inr others ↦
          let f = rw (unfreeze_joins, at, frozen, others) at e in
          let same : m ≡ m' = cc in
          let no : false ≡ waits = cc in
          (ap (λ (x : Manager). x.ram_reserved_bytes) (sym same), λ yes. absurd cc)
      | inl all_frozen ↦ elim (Bool-cases (ltb m.ram_limit_bytes s.ram_limit_bytes)) [
        | inl never ↦ absurd (let f = rw (unfreeze_joins, at, frozen, all_frozen, never) at e in cc)
        | inr fits ↦
            let f = rw (unfreeze_joins, at, frozen, all_frozen, fits) at e in
            let m1 : Manager = record m {
              unfreeze_queue = m.unfreeze_queue ++ (unfreeze_condition ∷ []);
            } in
            let same : m1 ≡ m' = cc in
            (
              ap (λ (x : Manager). x.ram_reserved_bytes) (sym same),
              λ yes. (at ∙ ap some frozen, ground arith),
            )
      ]
    ]
  ]
]

give_up_lem :
    (unfreeze_condition : ℕ) (m m' : Manager)
    → give_up unfreeze_condition m ≡ ok m'
    → m'.ram_reserved_bytes ≡ m.ram_reserved_bytes
unfolding give_up
give_up_lem unfreeze_condition m m' e =
    let (queue, erased, f) = >>=-eq-ok (erase_first unfreeze_condition m.unfreeze_queue) _ e in
    let same : record m { unfreeze_queue = queue } ≡ m' = cc in
    ap (λ (x : Manager). x.ram_reserved_bytes) (sym same)

-- The same session with another manager that has as much reserved.
manager-IsReserved :
    (w : World) (m' : Manager) (waiting : Option ℕ)
    → IsReserved w
    → m'.ram_reserved_bytes ≡ w.manager.ram_reserved_bytes
    → ((t : ℕ)
        → waiting ≡ some t
        → (frozen_of w.session.frozen t ≡ some true)
          × (w.session.unfrozen_threads_count ≡ 0)
          × (t < length w.session.frozen))
    → IsReserved (record w { manager = m'; waiting = waiting })
manager-IsReserved w m' waiting v same waits = record {
  counted = v.counted;
  few_threads = v.few_threads;
  reserved = same ∙ v.reserved;
  no_wrap = v.no_wrap;
  waits = waits;
}

step_lem : (u w : World) → SessionStep u w → IsReserved u → IsReserved w
unfolding end set_default_current
step_lem _ _ (calls w c s' m' free may e) v =
    subst
      (λ (x : Option ℕ).
        IsReserved (record { session = s'; manager = m'; waiting = x; others = w.others }))
      (sym free) (call_lem c w s' m' v may e)
step_lem _ _ (ends_meanwhile w t) v = record {
  counted = v.counted;
  few_threads = v.few_threads;
  reserved = v.reserved;
  no_wrap = v.no_wrap;
  waits = v.waits;
}
step_lem _ _ (becomes_current_meanwhile w t) v = record {
  counted = v.counted;
  few_threads = v.few_threads;
  reserved = v.reserved;
  no_wrap = v.no_wrap;
  waits = v.waits;
}
step_lem _ _ (joins w t unfreeze_condition true m' free known e) v =
    let (same, found) = join_lem t unfreeze_condition w.session w.manager m' true e in
    manager-IsReserved w m' (some t) v same λ u is_t.
      let here : t ≡ u = cc in
      let (frozen, none_left) = found refl in
      subst
        (λ x.
          (frozen_of w.session.frozen x ≡ some true)
          × (w.session.unfrozen_threads_count ≡ 0)
          × (x < length w.session.frozen))
        here (frozen, none_left, known)
step_lem _ _ (joins w t unfreeze_condition false m' free known e) v =
    let (same, found) = join_lem t unfreeze_condition w.session w.manager m' false e in
    manager-IsReserved w m' none v same λ u is_t. absurd cc
step_lem _ _ (goes_on w t unfreeze_condition s' m' waiting e) v =
    let (frozen, none_left, known) = v.waits t waiting in
    Did-IsReserved w (calls_unfreeze t) s' m' v known tt
      (goes_on_lem t unfreeze_condition w.session s' w.manager m' frozen none_left e)
step_lem _ _ (gives_up w t unfreeze_condition m' waiting e) v =
    manager-IsReserved w m' none v (give_up_lem unfreeze_condition w.manager m' e)
      λ u is_t. absurd cc
step_lem _ _ (elsewhere w m' others' same no_wrap) v = record {
  counted = v.counted;
  few_threads = v.few_threads;
  reserved = omega (arith, same, v.reserved);
  no_wrap = no_wrap;
  waits = v.waits;
}

-- Through all that threads do with a session, and other sessions with the manager, from a state on that is
-- counted right and without overflow: the session's count is the number of threads that have it unfrozen, or -1
-- before the first begin; the memory manager has, beside the bytes of the other sessions, the session's limit of
-- RAM reserved unless all threads have it frozen; and a thread that waits to unfreeze it found it frozen by
-- all. The condition is that set_ram_limit_bytes is called only while all threads have the session frozen.
pub SessionSteps-IsReserved : (u w : World) → SessionSteps u w → IsReserved u → IsReserved w
SessionSteps-IsReserved _ _ (stays w) v = v
SessionSteps-IsReserved _ _ (then_step u x w run last) v =
    step_lem x w last (SessionSteps-IsReserved u x run v)

-- After all that SessionSteps-IsReserved is about, the destruction of the session leaves what the memory manager
-- has reserved for the others, unless all threads have the session frozen: then the session's limit is taken off
-- the bytes of the others, with a wrap-around where they are fewer.
pub destroy-reserved :
    (u w : World)
    → SessionSteps u w
    → IsReserved u
    → (destroy w.session w.manager).ram_reserved_bytes ≡ (
        if w.session.unfrozen_threads_count == 0
        then sub64 w.others w.session.ram_limit_bytes
        else w.others)
unfolding destroy free_ram_bytes free_total_bytes
destroy-reserved u w run v =
    let at_end = SessionSteps-IsReserved u w run v in
    ground (arith, at_end.reserved, at_end.no_wrap)
