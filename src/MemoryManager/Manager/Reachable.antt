-- ===== src/MemoryManager/Manager/Reachable.antt =====
-- The steps of threads in src/memory_manager/manager.cpp.
use coherent.Common.{
  ℕ, ◌+◌, ◌≡◌, ◌≤◌, refl, ap, sym, subst, ◌∙◌, true, false, some, List, [], ◌∷◌, ◌++◌, arith, ltb,
  ◌==◌, if◌then◌else◌, ok, add64, sub64, Bool-cases, inl, inr,
}
use coherent.MemoryManager.Manager.{
  Manager, Pool, ram, total, reserved, limit, set_reserved, join_queue, go_on, give_up, try_reserve,
  free,
}
use coherent.MemoryManager.Manager.Queue.{
  Call, System, Step, Steps, joins, goes_on, times_out, tries, frees, stays, then_step, conditions,
  IsAbsent, IsDistinct, conditions-append, IsDistinct-remove, IsDistinct-append, erase_first_lem,
}
use coherent.MemoryManager.Manager.Fair.{
  held_bytes, AllFit, IsFair, same_pool, limit-set_reserved, queue-set_reserved, same_pool_lem,
  AllFit-append, AllFit-remove, reserved-queue, limit-queue, IsFair-queue, IsFair-reserved,
  IsFair-held, nothing_before, held-remove, go_on_lem, goes_on-oldest,
}

-- A new call waits at the end.
joins_lem :
    (s : System) (c : Call) (m : Manager)
    → IsAbsent c.unfreeze_condition (conditions s.waiting)
    → join_queue c.pool c.unfreeze_condition c.bytes s.manager ≡ ok m
    → IsFair s
    → IsFair (record { manager = m; waiting = s.waiting ++ (c ∷ []); held = s.held })
joins_lem s c m absent e v = elim (Bool-cases (ltb (limit c.pool s.manager) c.bytes)) [
  | inl too_many ↦ absurd (let f = rw too_many at e in cc)
  | inr enough ↦
      let f : ok (record s.manager {
        unfreeze_queue = s.manager.unfreeze_queue ++ (c.unfreeze_condition ∷ []);
      })
          ≡ ok m =
        rw enough at e in
      let g : record s.manager {
        unfreeze_queue = s.manager.unfreeze_queue ++ (c.unfreeze_condition ∷ []);
      }
          ≡ m =
        cc in
      subst (λ n. IsFair (record { manager = n; waiting = s.waiting ++ (c ∷ []); held = s.held })) g
        (IsFair-queue s (s.waiting ++ (c ∷ []))
          (s.manager.unfreeze_queue ++ (c.unfreeze_condition ∷ []))
          (rw (conditions-append s.waiting (c ∷ []))
            (ap (λ l. l ++ (c.unfreeze_condition ∷ [])) v.in_order))
          (rw (conditions-append s.waiting (c ∷ []))
            (IsDistinct-append c.unfreeze_condition (conditions s.waiting) v.distinct absent))
          (AllFit-append s.manager s.waiting c v.fit (ground arith)) v)
]

-- The oldest call leaves the queue with its reservation.
goes_on_lem :
    (s : System) (before after : List Call) (c : Call) (m : Manager)
    → s.waiting ≡ before ++ (c ∷ after)
    → go_on c.pool c.unfreeze_condition c.bytes s.manager ≡ ok (some m)
    → IsFair s
    → IsFair (record { manager = m; waiting = before ++ after; held = c ∷ s.held })
goes_on_lem s before after c m w e v =
    let (others, at, room, new) = go_on_lem c.pool c.unfreeze_condition c.bytes s.manager m e in
    let none_before =
      nothing_before before after c others (rw (← w) v.distinct) (rw (← w) (sym v.in_order ∙ at)) in
    let w' : s.waiting ≡ c ∷ after = goes_on-oldest s before after c m v w e in
    let u : System = record {
      manager = record s.manager { unfreeze_queue = others };
      waiting = after;
      held = s.held;
    } in
    let d = subst (λ l. IsDistinct (conditions l)) w' v.distinct in
    let a = subst (AllFit s.manager) w' v.fit in
    let in_order = subst (λ l. s.manager.unfreeze_queue ≡ conditions l) w' v.in_order in
    let q : others ≡ conditions after = cc in
    let same_sum = reserved-queue c.pool others s.manager in
    let same_limit = limit-queue c.pool others s.manager in
    let held : IsFair (record {
      manager = set_reserved c.pool (add64 (reserved c.pool u.manager) c.bytes) u.manager;
      waiting = after;
      held = c ∷ s.held;
    }) =
      IsFair-held u c (omega (arith, a.0, same_limit)) (omega (arith, room, same_sum, same_limit))
        (IsFair-queue s after others q d.1 a.1 v) in
    subst
      (λ (l : List Call). IsFair (record { manager = m; waiting = l ++ after; held = c ∷ s.held }))
      (sym none_before)
      (subst (λ n. IsFair (record { manager = n; waiting = after; held = c ∷ s.held })) (sym new)
        (subst
          (λ n. IsFair (record {
            manager = set_reserved c.pool (add64 n c.bytes) u.manager;
            waiting = after;
            held = c ∷ s.held;
          }))
          same_sum held))

-- A call that gives up leaves the others as they are.
times_out_lem :
    (s : System) (before after : List Call) (c : Call) (m : Manager)
    → s.waiting ≡ before ++ (c ∷ after)
    → give_up c.unfreeze_condition s.manager ≡ ok m
    → IsFair s
    → IsFair (record { manager = m; waiting = before ++ after; held = s.held })
unfolding give_up
times_out_lem s before after c m w e v =
    let split : conditions s.waiting
        ≡ conditions before ++ (c.unfreeze_condition ∷ conditions after) =
      ap conditions w ∙ conditions-append before (c ∷ after) in
    let d = subst IsDistinct split v.distinct in
    let f =
      rw
        (
          v.in_order,
          split,
          give_up,
          erase_first_lem c.unfreeze_condition (conditions before) (conditions after) d,
        )
        at e in
    let joined = conditions-append before after in
    let g : record s.manager { unfreeze_queue = conditions before ++ conditions after } ≡ m = cc in
    subst (λ n. IsFair (record { manager = n; waiting = before ++ after; held = s.held })) g
      (IsFair-queue s (before ++ after) (conditions before ++ conditions after) (sym joined)
        (subst IsDistinct (sym joined)
          (IsDistinct-remove (conditions before) (conditions after) c.unfreeze_condition d))
        (AllFit-remove s.manager before after c (subst (AllFit s.manager) w v.fit)) v)

tries_lem :
    (s : System) (c : Call) (m : Manager)
    → try_reserve c.pool c.bytes s.manager ≡ ok (true, m)
    → IsFair s
    → IsFair (record { manager = m; waiting = s.waiting; held = c ∷ s.held })
tries_lem s c m e v = elim (Bool-cases (ltb (limit c.pool s.manager) c.bytes)) [
  | inl too_many ↦ absurd (let f = rw too_many at e in cc)
  | inr few ↦
      elim (Bool-cases (ltb (limit c.pool s.manager) (add64 (reserved c.pool s.manager) c.bytes))) [
        | inl full ↦ absurd (let f = rw (few, full) at e in cc)
        | inr room ↦
            let f = rw (few, room) at e in
            let g : set_reserved c.pool (add64 (reserved c.pool s.manager) c.bytes) s.manager ≡ m =
              cc in
            subst (λ n. IsFair (record { manager = n; waiting = s.waiting; held = c ∷ s.held })) g
              (IsFair-held s c (ground arith) (ground arith) v)
      ]
]

same_pool_refl : (k : Pool) → same_pool k k ≡ true
same_pool_refl ram = refl
same_pool_refl total = refl

counted_less :
    (s : System) (before after : List Call) (c : Call)
    → s.held ≡ before ++ (c ∷ after)
    → IsFair s
    → (k : Pool)
    → reserved k s.manager
      ≡ (if same_pool c.pool k then c.bytes else 0) + held_bytes k (before ++ after)
counted_less s before after c h v k =
    v.counted k ∙ ap (held_bytes k) h ∙ held-remove k before after c

frees_lem :
    (s : System) (before after : List Call) (c : Call)
    → s.held ≡ before ++ (c ∷ after)
    → IsFair s
    → IsFair (record {
      manager = (free c.pool c.bytes s.manager).0;
      waiting = s.waiting;
      held = before ++ after;
    })
frees_lem s before after c h v =
    IsFair-reserved s c.pool (sub64 (reserved c.pool s.manager) c.bytes) (before ++ after)
      (ground (
        arith,
        v.bounded c.pool,
        v.no_wrap c.pool,
        counted_less s before after c h v c.pool,
        same_pool_refl c.pool,
      ))
      (λ j. elim (Bool-cases (same_pool c.pool j)) [
        | inl same ↦ ground (
          arith,
          counted_less s before after c h v j,
          v.bounded c.pool,
          v.no_wrap c.pool,
          ap (λ (p : Pool). reserved p s.manager) (same_pool_lem c.pool j same),
        )
        | inr other ↦ ground (arith, counted_less s before after c h v j)
      ])
      v

-- Each step of the threads keeps the manager fair.
step_lem : (s t : System) → Step s t → IsFair s → IsFair t
step_lem _ _ (joins s c m absent e) v = joins_lem s c m absent e v
step_lem _ _ (goes_on s before after c m w e) v = goes_on_lem s before after c m w e v
step_lem _ _ (times_out s before after c m w e) v = times_out_lem s before after c m w e v
step_lem _ _ (tries s c m e) v = tries_lem s c m e v
step_lem _ _ (frees s before after c h) v = frees_lem s before after c h v

-- From a fair state on, such as that of a new manager with limits below 2^63, through all calls of
-- threads whose condition waits for one call at a time, and which free only reservations that they
-- hold, each as a whole and once: the reserved bytes are exactly those of the reservations that were
-- not freed, they are within the limits, and the queue has the waiting calls in the order in which
-- they joined it.
pub Steps-IsFair : (s t : System) → Steps s t → IsFair s → IsFair t
Steps-IsFair _ _ (stays s) v = v
Steps-IsFair _ _ (then_step s t u run last) v = step_lem t u last (Steps-IsFair s t run v)

-- A free notifies the call that has waited longest, and that call goes on if its bytes fit now.
pub free-notifies_oldest :
    (s : System) (k : Pool) (bytes : ℕ) (c : Call) (after : List Call)
    → IsFair s
    → s.waiting ≡ c ∷ after
    → bytes ≤ reserved k s.manager
    → reserved c.pool (free k bytes s.manager).0 + c.bytes ≤ limit c.pool s.manager
    → ((free k bytes s.manager).1 ≡ some c.unfreeze_condition)
      × ((m : Manager) × (go_on c.pool c.unfreeze_condition c.bytes (free k bytes s.manager).0
            ≡ ok (some m)))
free-notifies_oldest s k bytes c after v w few room =
    let queue : s.manager.unfreeze_queue ≡ c.unfreeze_condition ∷ conditions after =
      v.in_order ∙ ap conditions w in
    let there : (free k bytes s.manager).0.unfreeze_queue
        ≡ c.unfreeze_condition ∷ conditions after =
      queue-set_reserved k _ s.manager ∙ queue in
    let fits : ltb (limit c.pool (free k bytes s.manager).0)
          (add64 (reserved c.pool (free k bytes s.manager).0) c.bytes)
        ≡ false =
      ground (
        arith,
        limit-set_reserved c.pool k (sub64 (reserved k s.manager) bytes) s.manager,
        v.no_wrap c.pool,
      ) in
    let front_is : (c.unfreeze_condition == c.unfreeze_condition) ≡ true = ground arith in
    let freed : Manager = (free k bytes s.manager).0 in
    (
      rw queue refl,
      (
        set_reserved c.pool (add64 (reserved c.pool freed) c.bytes)
            (record freed { unfreeze_queue = conditions after }),
        rw (there, go_on, front_is, fits) refl,
      ),
    )
