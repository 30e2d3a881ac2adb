-- ===== src/WorkerPool/Drain.antt =====
-- `worker_pool::stop` of src/include/util/worker_pool.h.
use coherent.Common.{
  ℕ, ◌+◌, ◌*◌, ◌≡◌, ◌≤◌, ◌<◌, refl, ap, sym, subst, ◌∙◌, Option, true, false, none, some, List, [],
  ◌∷◌, ◌++◌, length, arith, append-nil, ok, inl, inr, ◌⊎◌,
}
use coherent.WorkerPool.{
  SyncQueue, WorkerState, waits, sleeps, handles, finished, WorkerPool, pop, destroy, all_finished,
  any_asleep, stop_begins, stop_ends, no_more_input, notify_all, next_state, History, WorkerStep,
  pops, falls_asleep, returns, WorkerSteps, works_no_more, then_works,
}
use coherent.WorkerPool.Order.{any_finished, InOrder, List-cases}

module _ {ℓ} {A : Type ℓ} where
  any_of_all :
      (ws : List (WorkerState A)) → 0 < length ws → all_finished ws ≡ true → any_finished ws ≡ true
  any_of_all [] h e = absurd (omega arith)
  any_of_all (waits ∷ ws) h e = cc
  any_of_all (sleeps ∷ ws) h e = cc
  any_of_all (handles t ∷ ws) h e = cc
  any_of_all (finished ∷ ws) h e = refl

  -- When every thread of a pool that has some is joined, all the work that was scheduled was taken,
  -- in the order in which it was scheduled, and the destructor of the queue does not abort.
  pub stop_ends-all_taken :
      (h : History A) (p : WorkerPool A)
      → InOrder h
      → 0 < length h.pool.workers
      → stop_ends h.pool ≡ some p
      → (h.taken ≡ h.scheduled) × (destroy p.queue ≡ ok tt)
  stop_ends-all_taken h p v some_worker e =
      let all : all_finished h.pool.workers ≡ true = ground arith in
      let any = any_of_all h.pool.workers some_worker all in
      let f = rw all at e in
      let same : h.pool.queue ≡ p.queue = cc in
      (
        sym (v.in_order ∙ ap (λ l. h.taken ++ l) (v.drained any) ∙ append-nil h.taken),
        rw (← same, v.closed any, v.drained any) refl,
      )

  weight : List (WorkerState A) → ℕ
  weight [] = 0
  weight (waits ∷ ws) = 1 + weight ws
  weight (sleeps ∷ ws) = 1 + weight ws
  weight (handles t ∷ ws) = 2 + weight ws
  weight (finished ∷ ws) = weight ws

  weight-append :
      (before after : List (WorkerState A))
      → weight (before ++ after) ≡ weight before + weight after
  unfolding weight
  weight-append [] after = omega arith
  weight-append (waits ∷ before) after = omega (arith, weight-append before after)
  weight-append (sleeps ∷ before) after = omega (arith, weight-append before after)
  weight-append (handles t ∷ before) after = omega (arith, weight-append before after)
  weight-append (finished ∷ before) after = weight-append before after

  -- Three for each piece of work in the queue, two for one that is handled, one for a `pop`.
  pub work_left : History A → ℕ
  work_left h = 3 * length h.pool.queue.q + weight h.pool.workers

  -- The queue is closed, and all threads know.
  abbrev IsClosing : History A → Type 0
  IsClosing h = (h.pool.queue.no_more_data ≡ true) × (any_asleep h.pool.workers ≡ false)

  any_asleep-notify_all : (ws : List (WorkerState A)) → any_asleep (notify_all ws) ≡ false
  unfolding notify_all
  any_asleep-notify_all [] = refl
  any_asleep-notify_all (waits ∷ ws) = any_asleep-notify_all ws
  any_asleep-notify_all (sleeps ∷ ws) = any_asleep-notify_all ws
  any_asleep-notify_all (handles t ∷ ws) = any_asleep-notify_all ws
  any_asleep-notify_all (finished ∷ ws) = any_asleep-notify_all ws

  any_asleep-replaced :
      (before after : List (WorkerState A)) (v w : WorkerState A)
      → any_asleep (w ∷ []) ≡ false
      → any_asleep (before ++ (v ∷ after)) ≡ false
      → any_asleep (before ++ (w ∷ after)) ≡ false
  any_asleep-replaced [] after waits waits e h = h
  any_asleep-replaced [] after waits (handles t) e h = h
  any_asleep-replaced [] after waits finished e h = h
  any_asleep-replaced [] after (handles t) waits e h = h
  any_asleep-replaced [] after (handles t) (handles u) e h = h
  any_asleep-replaced [] after (handles t) finished e h = h
  any_asleep-replaced [] after finished waits e h = h
  any_asleep-replaced [] after finished (handles u) e h = h
  any_asleep-replaced [] after finished finished e h = h
  any_asleep-replaced [] after v sleeps e h = cc
  any_asleep-replaced [] after sleeps w e h = cc
  any_asleep-replaced (waits ∷ before) after v w e h = any_asleep-replaced before after v w e h
  any_asleep-replaced (sleeps ∷ before) after v w e h = cc
  any_asleep-replaced (handles t ∷ before) after v w e h = any_asleep-replaced before after v w e h
  any_asleep-replaced (finished ∷ before) after v w e h = any_asleep-replaced before after v w e h

  data Workers (ws : List (WorkerState A)) : Type ℓ where
    all_done : all_finished ws ≡ true → Workers ws
    one_waits : (before after : List (WorkerState A)) → ws ≡ before ++ (waits ∷ after) → Workers ws
    one_handles :
        (before after : List (WorkerState A)) (t : A)
        → ws ≡ before ++ (handles t ∷ after)
        → Workers ws

  Workers-cases : (ws : List (WorkerState A)) → any_asleep ws ≡ false → Workers ws
  Workers-cases [] awake = all_done refl
  Workers-cases (waits ∷ ws) awake = one_waits [] ws refl
  Workers-cases (sleeps ∷ ws) awake = cc
  Workers-cases (handles t ∷ ws) awake = one_handles [] ws t refl
  Workers-cases (finished ∷ ws) awake = elim (Workers-cases ws awake) [
    | all_done e ↦ all_done e
    | one_waits before after e ↦ one_waits (finished ∷ before) after (ap (λ l. finished ∷ l) e)
    | one_handles before after t e ↦
        one_handles (finished ∷ before) after t (ap (λ l. finished ∷ l) e)
  ]

  -- While not all have returned, some worker goes on without being notified.
  goes_on :
      (h : History A)
      → IsClosing h
      → (all_finished h.pool.workers ≡ true) ⊎ ((i : History A) × WorkerStep h i)
  unfolding pop
  goes_on h (closed, awake) = elim (Workers-cases h.pool.workers awake) [
    | all_done e ↦ inl e
    | one_handles before after t e ↦ inr (_, returns h before after t e)
    | one_waits before after e ↦ elim (List-cases h.pool.queue.q) [
      | inl empty ↦
          inr (_, pops h before after none h.pool.queue e (rw (empty, pop, closed) (rw empty refl)))
      | inr (t, ts, at) ↦
          inr
            (_, pops h before after (some t) (record h.pool.queue { q = ts }) e (rw (at, pop) refl))
    ]
  ]

  -- Each of its steps leaves less, and no worker falls asleep again.
  pop_closed :
      (h : History A) (res : Option A) (queue : SyncQueue A)
      → h.pool.queue.no_more_data ≡ true
      → pop h.pool.queue ≡ ok (some (res, queue))
      → (queue.no_more_data ≡ true)
        × (any_asleep (next_state res ∷ []) ≡ false)
        × (3 * length queue.q + weight (next_state res ∷ []) < 3 * length h.pool.queue.q + 1)
  unfolding pop weight
  pop_closed h res queue closed e = elim (List-cases h.pool.queue.q) [
    | inl empty ↦
        let f = rw (empty, pop, closed) at e in
        let r : none ≡ res = cc in
        let same : h.pool.queue ≡ queue = cc in
        subst
          (λ (x : Option A).
            (queue.no_more_data ≡ true)
            × (any_asleep (next_state x ∷ []) ≡ false)
            × (3 * length queue.q + weight (next_state x ∷ []) < 3 * length h.pool.queue.q + 1))
          r
          (
            ap (λ (q : SyncQueue A). q.no_more_data) (sym same) ∙ closed,
            refl,
            omega (arith, ap (λ (q : SyncQueue A). length q.q) same),
          )
    | inr (t, ts, at) ↦
        let f = rw (at, pop) at e in
        let r : some t ≡ res = cc in
        let same : record h.pool.queue { q = ts } ≡ queue = cc in
        subst
          (λ (x : Option A).
            (queue.no_more_data ≡ true)
            × (any_asleep (next_state x ∷ []) ≡ false)
            × (3 * length queue.q + weight (next_state x ∷ []) < 3 * length h.pool.queue.q + 1))
          r
          (
            ap (λ (q : SyncQueue A). q.no_more_data) (sym same) ∙ closed,
            refl,
            omega (arith, ap (λ (q : SyncQueue A). length q.q) same, ap length at),
          )
  ]

  lowers :
      (h i : History A) → WorkerStep h i → IsClosing h → IsClosing i × (work_left i < work_left h)
  unfolding work_left weight pop
  lowers _ _ (returns h before after t e) (closed, awake) = (
    (
      closed,
      any_asleep-replaced before after (handles t) waits refl (sym (ap any_asleep e) ∙ awake),
    ),
    omega (
      arith,
      ap weight e,
      weight-append before (handles t ∷ after),
      weight-append before (waits ∷ after),
    ),
  )
  lowers _ _ (falls_asleep h before after e nothing) (closed, awake) =
      elim (List-cases h.pool.queue.q) [
        | inl empty ↦ absurd (let f = rw (empty, pop, closed) at nothing in cc)
        | inr (t, ts, at) ↦ absurd (let f = rw (at, pop) at nothing in cc)
      ]
  lowers _ _ (pops h before after res queue e popped) (closed, awake) =
      let (still, not_asleep, less) = pop_closed h res queue closed popped in
      (
        (
          still,
          any_asleep-replaced before after waits (next_state res) not_asleep
              (sym (ap any_asleep e) ∙ awake),
        ),
        omega (
          arith,
          ap weight e,
          less,
          weight-append before (waits ∷ after),
          weight-append before (next_state res ∷ after),
          weight-append (next_state res ∷ []) after,
        ),
      )

  runs_down :
      (n : ℕ) (h i : History A)
      → WorkerSteps n h i
      → IsClosing h
      → IsClosing i × (n + work_left i ≤ work_left h)
  runs_down _ _ _ (works_no_more h) closing = (closing, omega arith)
  runs_down _ _ _ (then_works n h i j run last) closing =
      let (mid, bound) = runs_down n h i run closing in
      let (end, less) = lowers i j last mid in (end, omega (arith, bound, less))

  -- However much is queued and whatever the threads are doing when `stop` begins: the workers then make
  -- no more steps than three for each piece of work in the queue, two for each that is handled, and one for each
  -- `pop`; and at any time between either all have returned, and `stop` ends, or some worker can go on without
  -- another notification. A `handle` that was called is taken to return.
  pub stop-ends :
      (n : ℕ) (h i : History A)
      → WorkerSteps n (record h { pool = stop_begins h.pool }) i
      → (n ≤ work_left (record h { pool = stop_begins h.pool }))
        × ((stop_ends i.pool ≡ some (record i.pool { workers = [] }))
            ⊎ ((j : History A) × WorkerStep i j))
  unfolding stop_begins no_more_input
  stop-ends n h i run =
      let (closing, bound) =
        runs_down n (record h { pool = stop_begins h.pool }) i run
          (refl, any_asleep-notify_all h.pool.workers) in
      (
        omega (arith, bound),
        elim (goes_on i closing) [ inl done ↦ inl (rw done refl) | inr step ↦ inr step ],
      )
