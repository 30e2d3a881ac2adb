-- ===== src/MemoryManager/Session/Freezes.antt =====
-- A session freezes and unfreezes towards the memory manager as a sub session does towards its session.
use coherent.Common.{
  ℕ, ◌≡◌, refl, sym, ap, subst, ◌∙◌, ◌⊎◌, Bool, true, false, some, List, [], ◌∷◌, ◌==◌, ltb, set,
  add32, sub32, add64, ok, assert, Bool-cases, Option-cases, >>=-eq-ok, inl, inr,
}
use coherent.MemoryManager.Freezing.{
  Freezable, frozen_of, begins, freeze, unfreeze, run, Call, calls_freeze, calls_unfreeze,
}
use coherent.MemoryManager.Manager.{Manager, free_ram_bytes, try_reserve_ram_bytes}
use coherent.MemoryManager.Session.{
  Session, enter, begin, freeze_subs, freeze_session, resume, default_of, try_unfreeze,
  unfreeze_goes_on,
}

-- What the manager reserves for the session is charged as a sub session's bytes are.
abbrev pub view : Session → Manager → Freezable
view s m = record {
  frozen = s.frozen;
  is_current = [];
  unfrozen_threads_count = s.unfrozen_threads_count;
  allocated_bytes = s.ram_limit_bytes;
  parent_ram_allocated_bytes = m.ram_reserved_bytes;
  parent_ram_limit_bytes = m.ram_limit_bytes;
}

list-cases : (l : List ℕ) → (l ≡ []) ⊎ ((x : ℕ) × (xs : List ℕ) × (l ≡ x ∷ xs))
list-cases [] = inl refl
list-cases (x ∷ xs) = inr (x, xs, refl)

pub value-eq : {A : Type 0} (a b : A) → ok a ≡ ok b → a ≡ b
value-eq a b e = cc

pub enter_lem : (t : ℕ) (s : Session) (m : Manager) → begins t (view s m) ≡ view (enter t s) m
unfolding begins enter
enter_lem t s m = elim (Option-cases (frozen_of s.frozen t)) [
  | inr (f, has_begun) ↦ rw (has_begun, begins, enter) refl
  | inl new ↦ elim (Bool-cases (s.unfrozen_threads_count == 0)) [
    | inl all_frozen ↦ rw (new, begins, enter, all_frozen) refl
    | inr some_unfrozen ↦ rw (new, begins, enter, some_unfrozen) refl
  ]
]

pub begin_lem :
    (t : ℕ) (s s' : Session) (m : Manager) → begin t s ≡ ok s' → view (enter t s) m ≡ view s' m
unfolding begin enter
begin_lem t s s' m e =
    let (u, got, e') = >>=-eq-ok (default_of s) _ e in ap (λ x. view x m) (value-eq _ s' e')

resume_lem :
    (t : ℕ) (s s' : Session) (m : Manager)
    → resume t s ≡ ok s'
    → view s' m
      ≡ view
          (record s {
            unfrozen_threads_count = add32 s.unfrozen_threads_count 1;
            frozen = set s.frozen t (some false);
          })
          m
unfolding resume
resume_lem t s s' m e =
    let (u, got, e') = >>=-eq-ok (default_of s) _ e in
    let ((done, f), unfrozen, e'') = >>=-eq-ok (unfreeze t u) _ e' in
    let (_, asserted, e3) = >>=-eq-ok (assert done) _ e'' in
    ap (λ x. view x m) (sym (value-eq _ s' e3))

-- What a call that has returned `r` did towards the manager.
abbrev pub Did : Call → Session → Manager → Session × Manager → Type 0
Did c s m r = run c (view s m) ≡ ok (view r.0 r.1)

pub freezes_lem :
    (t : ℕ) (s : Session) (m : Manager) (r : Session × Manager)
    → freeze_session t s m ≡ ok r
    → Did (calls_freeze t) s m r
unfolding run freeze freeze_session free_ram_bytes
freezes_lem t s m r e = elim (Option-cases (frozen_of s.frozen t)) [
  | inl new ↦ absurd (let f = rw (freeze_session, new) at e in cc)
  | inr (was, at) ↦ elim (Bool-cases was) [
    | inl frozen ↦
        let f = rw (freeze_session, at, frozen) at e in
        subst (Did (calls_freeze t) s m) (value-eq (s, m) r f) (rw (freeze, at, frozen) refl)
    | inr unfrozen ↦ elim (Bool-cases (sub32 s.unfrozen_threads_count 1 == 0)) [
      | inr others ↦
          let f = rw (freeze_session, at, unfrozen, others) at e in
          subst (Did (calls_freeze t) s m) (value-eq _ r f) (rw (freeze, at, unfrozen, others) refl)
      | inl last ↦
          let f = rw (freeze_session, at, unfrozen, last) at e in
          let ((subs, left), _, f') =
            >>=-eq-ok (freeze_subs t s.ram_allocated_bytes s.ram_limit_bytes s.sub_sessions) _ f in
          subst (Did (calls_freeze t) s m) (value-eq _ r f') (rw (freeze, at, unfrozen, last) refl)
    ]
  ]
]

-- The session once the manager has reserved its bytes again, for a thread that found it frozen.
resumes_lem :
    (t : ℕ) (s s' : Session) (m m' : Manager)
    → frozen_of s.frozen t ≡ some true
    → (s.unfrozen_threads_count == 0) ≡ true
    → ltb m.ram_limit_bytes (add64 m.ram_reserved_bytes s.ram_limit_bytes) ≡ false
    → resume t s ≡ ok s'
    → m'.ram_reserved_bytes ≡ add64 m.ram_reserved_bytes s.ram_limit_bytes
    → m'.ram_limit_bytes ≡ m.ram_limit_bytes
    → Did (calls_unfreeze t) s m (s', m')
unfolding run unfreeze
resumes_lem t s s' m m' at all_frozen room e reserved same_limit =
    rw (unfreeze, at, all_frozen, room, resume_lem t s s' m' e, reserved, same_limit) refl

abbrev both : Bool × Session × Manager → Session × Manager
both (done, s, m) = (s, m)

pub tries_lem :
    (t : ℕ) (s : Session) (m : Manager) (done : Bool) (s' : Session) (m' : Manager)
    → try_unfreeze t s m ≡ ok (done, s', m')
    → Did (calls_unfreeze t) s m (s', m')
unfolding run unfreeze try_unfreeze try_reserve_ram_bytes
tries_lem t s m done s' m' e = elim (Option-cases (frozen_of s.frozen t)) [
  | inl new ↦ absurd (let f = rw (try_unfreeze, new) at e in cc)
  | inr (was, at) ↦ elim (Bool-cases was) [
    | inr unfrozen ↦
        let f = rw (try_unfreeze, at, unfrozen) at e in
        subst (Did (calls_unfreeze t) s m) (ap both (value-eq (true, s, m) (done, s', m') f))
          (rw (unfreeze, at, unfrozen) refl)
    | inl frozen ↦ elim (Bool-cases (s.unfrozen_threads_count == 0)) [
      | inr others ↦
          let f = rw (try_unfreeze, at, frozen, others) at e in
          subst (Did (calls_unfreeze t) s m) (ap both (value-eq (true, s, m) (done, s', m') f))
            (rw (unfreeze, at, frozen, others) refl)
      | inl all_frozen ↦ elim (Bool-cases (ltb m.ram_limit_bytes s.ram_limit_bytes)) [
        | inl never ↦ absurd (
            let f = rw (try_unfreeze, try_reserve_ram_bytes, at, frozen, all_frozen, never) at e in
            cc)
        | inr fits ↦
            elim (Bool-cases
              (ltb m.ram_limit_bytes (add64 m.ram_reserved_bytes s.ram_limit_bytes))) [
                | inl no_room ↦
                    let f =
                      rw
                        (try_unfreeze, try_reserve_ram_bytes, at, frozen, all_frozen, fits, no_room)
                        at e in
                    subst (Did (calls_unfreeze t) s m)
                      (ap both (value-eq (false, s, m) (done, s', m') f))
                      (rw (unfreeze, at, frozen, all_frozen, no_room) refl)
                | inr room ↦
                    let f =
                      rw (try_unfreeze, try_reserve_ram_bytes, at, frozen, all_frozen, fits, room)
                        at e in
                    let (s1, resumed, f') = >>=-eq-ok (resume t s) _ f in
                    subst (Did (calls_unfreeze t) s m) (ap both (value-eq _ (done, s', m') f')) (
                      resumes_lem t s s1 m
                        (record m {
                          ram_reserved_bytes = add64 m.ram_reserved_bytes s.ram_limit_bytes;
                        })
                        (at ∙ ap some frozen) all_frozen room resumed refl refl)
              ]
      ]
    ]
  ]
]

-- A thread that goes on after its wait has what it reserved.
pub goes_on_lem :
    (t unfreeze_condition : ℕ) (s s' : Session) (m m' : Manager)
    → frozen_of s.frozen t ≡ some true
    → s.unfrozen_threads_count ≡ 0
    → unfreeze_goes_on t unfreeze_condition s m ≡ ok (some (s', m'))
    → Did (calls_unfreeze t) s m (s', m')
unfolding unfreeze_goes_on
goes_on_lem t unfreeze_condition s s' m m' at none_left e = elim (list-cases m.unfreeze_queue) [
  | inl empty ↦ absurd (let f = rw empty at e in cc)
  | inr (front, others, queue) ↦ elim (Bool-cases (front == unfreeze_condition)) [
    | inr other ↦ absurd (let f = rw (queue, other) at e in cc)
    | inl first ↦
        elim (Bool-cases (ltb m.ram_limit_bytes (add64 m.ram_reserved_bytes s.ram_limit_bytes))) [
          | inl no_room ↦ absurd (let f = rw (queue, first, no_room) at e in cc)
          | inr room ↦
              let f = rw (queue, first, room) at e in
              let (s1, resumed, f') = >>=-eq-ok (resume t s) _ f in
              let m1 : Manager = record m {
                ram_reserved_bytes = add64 m.ram_reserved_bytes s.ram_limit_bytes;
                unfreeze_queue = others;
              } in
              let same : some (s1, m1) ≡ some (s', m') = value-eq _ (some (s', m')) f' in
              let both_same : (s1, m1) ≡ (s', m') = cc in
              subst (Did (calls_unfreeze t) s m) both_same
                (resumes_lem t s s1 m m1 at (rw none_left refl) room resumed refl refl)
        ]
  ]
]
