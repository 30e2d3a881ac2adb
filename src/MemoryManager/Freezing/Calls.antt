-- ===== src/MemoryManager/Freezing/Calls.antt =====
-- The calls of threads that freeze and unfreeze, src/memory_manager/sub_session.cpp.
use coherent.Common.{
  ℕ, zero, suc, ◌+◌, ◌^◌, ◌≡◌, ◌≤◌, ◌<◌, refl, ap, sym, subst, ◌∙◌, Bool, true, false, not, Option,
  none, some, List, [], ◌∷◌, ltb, ◌==◌, set, length, add32, sub32, add64, sub64, ok, arith,
  Bool-cases, Option-cases, length-set, >>=-eq-ok, inl, inr,
}
use coherent.MemoryManager.Freezing.{
  Freezable, frozen_of, begins, freeze, unfreeze, deactivate, Call, calls_begin, calls_end,
  calls_freeze, calls_unfreeze, calls_allocate, calls_deallocate, allocates, add_bytes,
  remove_bytes, run,
}
use coherent.MemoryManager.Freezing.Counted.{
  unfrozen, begun, IsCounted, unfrozen-le-begun, one_unfrozen, one_begun, set_lem, begun_of_frozen,
  thread_of, IsAllowed, full_charge, Kept, unchanged,
}

module _ (t : ℕ) (s : Freezable) (v : IsCounted s) (known : t < length s.frozen) where
  facts : (unfrozen s.frozen ≤ begun s.frozen) × (begun s.frozen < 2 ^ 31)
  facts = omega (arith, unfrozen-le-begun s.frozen, v.few_threads)

  begins_lem : Kept s (begins t s)
  unfolding begins one_unfrozen one_begun
  begins_lem = elim (Option-cases (frozen_of s.frozen t)) [
    | inr (f, has_begun) ↦
        rw (has_begun, begins)
          (record {
            counted = record {
              counted = v.counted;
              few_threads = v.few_threads;
              charged = v.charged;
              no_wrap = v.no_wrap;
            };
            same_charge = refl;
          })
    | inl new ↦ elim (Bool-cases (s.unfrozen_threads_count == 0)) [
      | inl all_frozen ↦
          let l = set_lem s.frozen t (some true) known in
          let e : (unfrozen (set s.frozen t (some true)) ≡ unfrozen s.frozen)
              × (begun (set s.frozen t (some true)) ≡ begun s.frozen + 1) =
            ground (arith, l, ap one_unfrozen new, ap one_begun new) in
          rw (new, begins, all_frozen)
            (record {
              counted = record {
                counted = ground (arith, e, facts, v.counted);
                few_threads = rw (length-set) v.few_threads;
                charged = v.charged;
                no_wrap = v.no_wrap;
              };
              same_charge = refl;
            })
      | inr some_unfrozen ↦
          let l = set_lem s.frozen t (some false) known in
          let e : (unfrozen (set s.frozen t (some false)) ≡ unfrozen s.frozen + 1)
              × (begun (set s.frozen t (some false)) ≡ begun s.frozen + 1) =
            ground (arith, l, ap one_unfrozen new, ap one_begun new) in
          rw (new, begins, some_unfrozen)
            (record {
              counted = record {
                counted = ground (arith, e, facts, v.counted);
                few_threads = rw (length-set) v.few_threads;
                charged = λ h. v.charged (ground arith);
                no_wrap = ground (arith, facts, v.counted, v.no_wrap);
              };
              same_charge = ground (arith, facts, v.counted);
            })
    ]
  ]

  -- The state of a thread that had, or gets, the sub session frozen.
  abbrev turned : Bool → ℕ → Freezable
  turned to_frozen n = record s {
    unfrozen_threads_count = n;
    frozen = set s.frozen t (some to_frozen);
  }

  turned-counts :
      (to_frozen : Bool)
      → frozen_of s.frozen t ≡ some (not to_frozen)
      → (begun (set s.frozen t (some to_frozen)) ≡ begun s.frozen)
        × (0 < begun s.frozen)
        × (unfrozen (set s.frozen t (some to_frozen)) + one_unfrozen (some (not to_frozen))
            ≡ unfrozen s.frozen + one_unfrozen (some to_frozen))
  unfolding one_unfrozen one_begun
  turned-counts true was =
      let l = set_lem s.frozen t (some true) known in
      ground (arith, l, ap one_unfrozen was, ap one_begun was, begun_of_frozen s.frozen t false was)
  turned-counts false was =
      let l = set_lem s.frozen t (some false) known in
      ground (arith, l, ap one_unfrozen was, ap one_begun was, begun_of_frozen s.frozen t true was)

  freezes_lem : (s' : Freezable) → freeze t s ≡ ok s' → Kept s s'
  unfolding freeze one_unfrozen
  freezes_lem s' e = elim (Option-cases (frozen_of s.frozen t)) [
    | inl new ↦ absurd (let f = rw (freeze, new) at e in cc)
    | inr (was, at) ↦ elim (Bool-cases was) [
      | inl frozen ↦
          let f = rw (freeze, at, frozen) at e in
          let same : s ≡ s' = cc in subst (Kept s) same (unchanged s v)
      | inr unfrozen_ ↦
          let c = turned-counts true (at ∙ ap some unfrozen_) in
          elim (Bool-cases (sub32 s.unfrozen_threads_count 1 == 0)) [
            | inl last ↦
                let f = rw (freeze, at, unfrozen_, last) at e in
                let same : record (turned true (sub32 s.unfrozen_threads_count 1)) {
                  parent_ram_allocated_bytes = sub64 s.parent_ram_allocated_bytes s.allocated_bytes;
                }
                    ≡ s' =
                  cc in
                subst (Kept s) same (record {
                  counted = record {
                    counted = ground (arith, c, facts, v.counted);
                    few_threads = rw (length-set) v.few_threads;
                    charged = λ h. absurd (h (ground arith));
                    no_wrap = ground (arith, c, facts, v.counted, v.charged, v.no_wrap);
                  };
                  same_charge = ground (arith, c, facts, v.counted, v.charged, v.no_wrap);
                })
            | inr others ↦
                let f = rw (freeze, at, unfrozen_, others) at e in
                let same : turned true (sub32 s.unfrozen_threads_count 1) ≡ s' = cc in
                subst (Kept s) same (record {
                  counted = record {
                    counted = ground (arith, c, facts, v.counted);
                    few_threads = rw (length-set) v.few_threads;
                    charged = λ h. ground (arith, c, facts, v.counted, v.charged);
                    no_wrap = ground (arith, c, facts, v.counted, v.no_wrap);
                  };
                  same_charge = ground (arith, c, facts, v.counted);
                })
          ]
    ]
  ]

  unfreezes_lem : (done : Bool) (s' : Freezable) → unfreeze t s ≡ ok (done, s') → Kept s s'
  unfolding unfreeze one_unfrozen
  unfreezes_lem done s' e = elim (Option-cases (frozen_of s.frozen t)) [
    | inl new ↦ absurd (let f = rw (unfreeze, new) at e in cc)
    | inr (was, at) ↦ elim (Bool-cases was) [
      | inr unfrozen_ ↦
          let f = rw (unfreeze, at, unfrozen_) at e in
          let same : s ≡ s' = cc in subst (Kept s) same (unchanged s v)
      | inl frozen ↦ elim (Bool-cases (s.unfrozen_threads_count == 0)) [
        | inr others ↦
            let f = rw (unfreeze, at, frozen, others) at e in
            let same : s ≡ s' = cc in subst (Kept s) same (unchanged s v)
        | inl all_frozen ↦
            elim (Bool-cases (
              ltb s.parent_ram_limit_bytes
                (add64 s.parent_ram_allocated_bytes s.allocated_bytes))) [
                  | inl no_room ↦
                      let f = rw (unfreeze, at, frozen, all_frozen, no_room) at e in
                      let same : s ≡ s' = cc in subst (Kept s) same (unchanged s v)
                  | inr room ↦
                      let c = turned-counts false (at ∙ ap some frozen) in
                      let f = rw (unfreeze, at, frozen, all_frozen, room) at e in
                      let same : record (turned false (add32 s.unfrozen_threads_count 1)) {
                        parent_ram_allocated_bytes =
                            add64 s.parent_ram_allocated_bytes s.allocated_bytes;
                      }
                          ≡ s' =
                        cc in
                      subst (Kept s) same (record {
                        counted = record {
                          counted = ground (arith, c, facts, v.counted);
                          few_threads = rw (length-set) v.few_threads;
                          charged = λ h. ground (arith, v.no_wrap);
                          no_wrap = ground (arith, v.no_wrap, c, facts, v.counted);
                        };
                        same_charge = ground (arith, v.no_wrap, c, facts, v.counted);
                      })
                ]
      ]
    ]
  ]

-- A thread that has the sub session unfrozen is one that counts.
unfrozen_of : (l : List (Option Bool)) (t : ℕ) → frozen_of l t ≡ some false → 0 < unfrozen l
unfrozen_of [] t e = cc
unfrozen_of (none ∷ l) zero e = cc
unfrozen_of (some true ∷ l) zero e = cc
unfrozen_of (some false ∷ l) zero e = omega arith
unfrozen_of (none ∷ l) (suc t) e = unfrozen_of l t e
unfrozen_of (some true ∷ l) (suc t) e = unfrozen_of l t e
unfrozen_of (some false ∷ l) (suc t) e = omega arith

adds_lem :
    (t bytes : ℕ) (s : Freezable)
    → IsCounted s
    → t < length s.frozen
    → frozen_of s.frozen t ≡ some false
    → full_charge s + s.allocated_bytes + bytes + bytes < 2 ^ 64
    → Kept s (add_bytes bytes s)
adds_lem t bytes s v known at allowed =
    let some_unfrozen : 0 < s.unfrozen_threads_count = ground (
      arith,
      unfrozen_of s.frozen t at,
      begun_of_frozen s.frozen t false at,
      facts t s v known,
      v.counted,
    ) in
    record {
      counted = record {
        counted = v.counted;
        few_threads = v.few_threads;
        charged = λ h. ground (arith, v.charged, v.no_wrap);
        no_wrap = ground (arith, v.charged, v.no_wrap);
      };
      same_charge = ground (arith, v.charged, v.no_wrap);
    }

-- Every begin, end, freeze and unfreeze of a thread that exists, and every mapping that it allocates or
-- gives back, keeps the count right, if it returns: it is the number of threads that have the sub session
-- unfrozen, or -1 before the first begin; and the parent session is charged for the allocated bytes unless
-- all threads are frozen, and as before for all else. The conditions are that a new mapping does not make
-- the sums wrap around, and that no mapping is given back while all threads are frozen.
pub run-Kept :
    (c : Call) (s s' : Freezable)
    → IsCounted s
    → thread_of c < length s.frozen
    → IsAllowed c s
    → run c s ≡ ok s'
    → Kept s s'
unfolding run
run-Kept (calls_begin t) s s' v known _ e =
    let same : begins t s ≡ s' = cc in subst (Kept s) same (begins_lem t s v known)
run-Kept (calls_end t) s s' v known _ e =
    let same : deactivate t s ≡ s' = cc in
    subst (Kept s) same (record {
      counted = record {
        counted = v.counted;
        few_threads = v.few_threads;
        charged = v.charged;
        no_wrap = v.no_wrap;
      };
      same_charge = refl;
    })
run-Kept (calls_freeze t) s s' v known _ e = freezes_lem t s v known s' e
run-Kept (calls_unfreeze t) s s' v known _ e =
    let (r, ran, same) = >>=-eq-ok (unfreeze t s) (λ r. ok r.1) e in
    let last : r.1 ≡ s' = cc in subst (Kept s) last (unfreezes_lem t s v known r.0 r.1 ran)
run-Kept (calls_allocate t bytes) s s' v known allowed e =
    elim (Option-cases (frozen_of s.frozen t)) [
      | inl new ↦ absurd (let f = rw (allocates, new) at e in cc)
      | inr (was, at) ↦ elim (Bool-cases was) [
        | inl frozen ↦ absurd (let f = rw (allocates, at, frozen) at e in cc)
        | inr unfrozen_ ↦
            let f = rw (allocates, at, unfrozen_) at e in
            let same : add_bytes bytes s ≡ s' = cc in
            subst (Kept s) same (adds_lem t bytes s v known (at ∙ ap some unfrozen_) allowed)
      ]
    ]
run-Kept (calls_deallocate t bytes) s s' v known allowed e =
    let same : remove_bytes bytes s ≡ s' = cc in
    subst (Kept s) same (record {
      counted = record {
        counted = v.counted;
        few_threads = v.few_threads;
        charged = λ h. ground (arith, v.charged, v.no_wrap, allowed);
        no_wrap = ground (arith, v.charged, v.no_wrap, allowed);
      };
      same_charge = ground (arith, v.charged, v.no_wrap, allowed);
    })

frozen_of-set :
    (l : List (Option Bool)) (t : ℕ) (v : Option Bool) → t < length l → frozen_of (set l t v) t ≡ v
frozen_of-set [] t v h = absurd (omega arith)
frozen_of-set (f ∷ l) zero v h = refl
frozen_of-set (f ∷ l) (suc t) v h = frozen_of-set l t v (omega arith)

-- When unfreeze returns true to a thread that has the sub session frozen, the thread has it unfrozen
-- afterwards if and only if no thread had it unfrozen: otherwise it stays frozen.
pub unfreeze-true :
    (t : ℕ) (s s' : Freezable)
    → IsCounted s
    → t < length s.frozen
    → frozen_of s.frozen t ≡ some true
    → unfreeze t s ≡ ok (true, s')
    → (frozen_of s'.frozen t ≡ some false → unfrozen s.frozen ≡ 0)
      × (unfrozen s.frozen ≡ 0 → frozen_of s'.frozen t ≡ some false)
unfolding unfreeze
unfreeze-true t s s' v known at e =
    let some_begun = begun_of_frozen s.frozen t true at in
    elim (Bool-cases (s.unfrozen_threads_count == 0)) [
      | inr others ↦
          let f = rw (unfreeze, at, others) at e in
          let same : s ≡ s' = cc in
          (
            λ h. absurd (
                let g : some true ≡ some false = sym at ∙ ap (λ u. frozen_of u.frozen t) same ∙ h in
                cc),
            λ h. absurd (ground (arith, v.counted)),
          )
      | inl all_frozen ↦
          elim (Bool-cases
            (ltb s.parent_ram_limit_bytes (add64 s.parent_ram_allocated_bytes s.allocated_bytes))) [
              | inl no_room ↦ absurd (let f = rw (unfreeze, at, all_frozen, no_room) at e in cc)
              | inr room ↦
                  let f = rw (unfreeze, at, all_frozen, room) at e in
                  let same : set s.frozen t (some false) ≡ s'.frozen = cc in
                  (
                    λ h. ground (arith, v.counted),
                    λ h. rw (← same) (frozen_of-set s.frozen t (some false) known),
                  )
            ]
    ]
